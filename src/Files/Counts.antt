-- ===== src/Files/Counts.antt =====
-- kernel/file.c: the count of a file is the number of its holders.
use csse_332_final.Base.{
  ℕ, zero, suc, ◌+◌, ◌-◌, ◌≤◌, ◌<◌, ◌≡◌, refl, sym, ◌∙◌, ap, ◌≢◌, inl, inr, some, List, [], ◌∷◌,
  ◌++◌, returns, arith, ltb, ◌==◌, ==_iff, ==_eq, ==_ne, ltb→lt, ltb→le, dec_le, lt→ltb, le→ltb,
  if◌then◌else◌, Bool-cases, Option-cases, update, update_self, update-ne, ℕ_discrete, subst,
}
use csse_332_final.Files.{
  File, Ftable, n_file, find_file, filealloc, filedup, fileclose, still_open, last_close, fd_none,
}

-- How often `i` is in the list.
abbrev pub occurs : ℕ → List ℕ → ℕ
occurs i [] = 0
occurs i (x ∷ xs) = let rest = occurs i xs in if x == i then suc rest else rest

occurs-middle :
    (i j : ℕ) (xs ys : List ℕ)
    → occurs j (xs ++ i ∷ ys) ≡ (if i == j then suc (occurs j (xs ++ ys)) else occurs j (xs ++ ys))
occurs-middle i j [] ys = refl
occurs-middle i j (x ∷ xs) ys = ground (arith, occurs-middle i j xs ys)

-- Each slot counts the descriptors, of all processes, that stand for it.
pub record Counted (t : Ftable) (held : List ℕ) : Type 0 where
  pub counts : (i : ℕ) → i < n_file → (t i).ref ≡ occurs i held
  pub inside : (i : ℕ) → n_file ≤ i → occurs i held ≡ 0

find_file-some :
    (t : Ftable) (k i : ℕ) {j : ℕ} → find_file t k i ≡ some j → (j < i + k) × ((t j).ref ≡ 0)
unfolding find_file
find_file-some t zero i e = cc
find_file-some t (suc k) i {j} e = elim (Bool-cases ((t i).ref == 0)) [
  | inl free ↦
      let same : i ≡ j = some_inj (rw free at e) in
      (omega arith, subst (λ n. (t n).ref ≡ 0) same ((==_iff (t i).ref 0).0 free))
  | inr taken ↦ let ih = find_file-some t k (i + 1) (rw taken at e) in (omega (arith, ih.0), ih.1)
]
  where
    some_inj : {a b : ℕ} → some a ≡ some b → a ≡ b
    some_inj q = cc

-- `filealloc` gives a slot that nobody holds, with a count of 1.
pub filealloc-Counted :
    (t : Ftable) (held : List ℕ) {t' : Ftable} {i : ℕ}
    → Counted t held
    → filealloc t ≡ (some i, t')
    → (i < n_file) × (occurs i held ≡ 0) × Counted t' (i ∷ held)
unfolding filealloc
filealloc-Counted t held {t'} {i} v e = elim (Option-cases (find_file t n_file 0)) [
  | inl q ↦ cc (rw (q, filealloc) at e)
  | inr (j, q) ↦
      let f = find_file-some t n_file 0 q in
      let h : j < n_file = omega (arith, f.0) in
      let o = sym (v.counts j h) ∙ f.1 in
      let out : (some j, update t j (record (t j) { ref = 1 })) ≡ (some i, t') =
        rw (q, filealloc) at e in
      let slot : j ≡ i = some_inj (ap (λ p. p.0) out) in
      subst (λ n. (n < n_file) × (occurs n held ≡ 0) × Counted t' (n ∷ held)) slot
        (h, o, subst (λ u. Counted u (j ∷ held)) (ap (λ p. p.1) out) (taken j h o))
]
  where
    some_inj : {a b : ℕ} → some a ≡ some b → a ≡ b
    some_inj q = cc

    taken :
        (j : ℕ)
        → j < n_file
        → occurs j held ≡ 0
        → Counted (update t j (record (t j) { ref = 1 })) (j ∷ held)
    taken j h o = record {
      counts = λ m l. elim (ℕ_discrete j m) [
        | yes e ↦
            ap (λ f. f.ref) (update_self t j (record (t j) { ref = 1 }) e) ∙ ground (arith, e, o)
        | no ne ↦
            ap (λ f. f.ref) (update-ne t j (record (t j) { ref = 1 }) ne)
            ∙ rw (==_ne j m ne) (v.counts m l)
      ];
      inside = λ m l. rw (==_ne j m (omega arith)) (v.inside m l);
    }

-- A change of one count by one, with a descriptor more or less.
recount :
    (t : Ftable) (i : ℕ) (f : File) (held held' : List ℕ)
    → Counted t held
    → i < n_file
    → f.ref ≡ occurs i held'
    → ((j : ℕ) → i ≢ j → occurs j held' ≡ occurs j held)
    → Counted (update t i f) held'
recount t i f held held' v h e others = record {
  counts = λ m l. elim (ℕ_discrete i m) [
    | yes same ↦ ap (λ g. g.ref) (update_self t i f same) ∙ e ∙ ap (λ n. occurs n held') same
    | no ne ↦ ap (λ g. g.ref) (update-ne t i f ne) ∙ v.counts m l ∙ sym (others m ne)
  ];
  inside = λ m l. others m (omega arith) ∙ v.inside m l;
}

-- A descriptor stands for a slot of the table, which counts it.
pub held-ref :
    (t : Ftable) (i : ℕ) (xs ys : List ℕ)
    → Counted t (xs ++ i ∷ ys)
    → (i < n_file) × ((t i).ref ≡ suc (occurs i (xs ++ ys)))
held-ref t i xs ys v =
    let o : occurs i (xs ++ i ∷ ys) ≡ suc (occurs i (xs ++ ys)) =
      occurs-middle i i xs ys ∙ ground arith in
    let h : i < n_file = omega (arith, within (dec_le n_file i) o) in (h, v.counts i h ∙ o)
  where
    within : Dec (n_file ≤ i) → occurs i (xs ++ i ∷ ys) ≡ suc (occurs i (xs ++ ys)) → i < n_file
    within (yes l) o = absurd (omega (arith, v.inside i l))
    within (no g) o = omega arith

-- What a duplicate of a held descriptor leaves.
pub filedup-Counted :
    (t : Ftable) (i : ℕ) (xs ys : List ℕ)
    → Counted t (xs ++ i ∷ ys)
    → (t' : Ftable) × (filedup i t ≡ returns t') × Counted t' (i ∷ xs ++ i ∷ ys)
unfolding filedup
filedup-Counted t i xs ys v =
    let (h, r) = held-ref t i xs ys v in
    let f = record (t i) { ref = (t i).ref + 1 } in
    (
      update t i f,
      rw (le→ltb (t i).ref 1 (omega (arith, r))),
      recount t i f (xs ++ i ∷ ys) (i ∷ xs ++ i ∷ ys) v h
          (rw (==_eq i i refl) (omega (arith, v.counts i h))) (λ j ne. rw (==_ne i j ne)),
    )

-- What the close of a held descriptor leaves: the file stays open while another descriptor stands for
-- it, and its pipe or inode is given up with the last one.
pub fileclose-Counted :
    (t : Ftable) (i : ℕ) (xs ys : List ℕ)
    → Counted t (xs ++ i ∷ ys)
    → (t' : Ftable) × Counted t' (xs ++ ys)
      × (fileclose i t
          ≡ returns (t', if ltb 0 (occurs i (xs ++ ys)) then still_open else last_close (t i)))
unfolding fileclose
fileclose-Counted t i xs ys v =
    let (h, r) = held-ref t i xs ys v in
    elim (Bool-cases (ltb 0 ((t i).ref - 1))) [
      | inl more ↦
          let f = record (t i) { ref = (t i).ref - 1 } in
          (
            update t i f,
            recount t i f (xs ++ i ∷ ys) (xs ++ ys) v h (omega (arith, r)) fewer,
            rw (
              le→ltb (t i).ref 1 (omega (arith, r)),
              more,
              lt→ltb 0 (occurs i (xs ++ ys)) (omega (arith, r, ltb→lt 0 ((t i).ref - 1) more)),
            ),
          )
      | inr last ↦
          let f = record (t i) { ref = 0; type = fd_none } in
          let z : occurs i (xs ++ ys) ≡ 0 = omega (arith, r, ltb→le 0 ((t i).ref - 1) last) in
          (
            update t i f,
            recount t i f (xs ++ i ∷ ys) (xs ++ ys) v h (sym z) fewer,
            rw (le→ltb (t i).ref 1 (omega (arith, r)), last, z),
          )
    ]
  where
    fewer : (j : ℕ) → i ≢ j → occurs j (xs ++ ys) ≡ occurs j (xs ++ i ∷ ys)
    fewer j ne = sym (occurs-middle i j xs ys ∙ rw (==_ne i j ne))
