-- ===== src/Fs/Table/Entries.antt =====
-- kernel/fs.c: `iget` keeps at most one entry for an inode.
use csse_332_final.Base.{
  ℕ, zero, suc, ◌+◌, ◌≤◌, ◌<◌, ◌≡◌, refl, ◌∙◌, sym, ap, ◌≢◌, ◌⊎◌, inl, inr, true, false, Option,
  none, some, arith, ==_ne, ==_eq, Bool-cases, ℕ_discrete, Run, returns, panics, update,
  update_self, update-ne, subst,
}
use csse_332_final.Fs.Table.{
  table_size, Entry, Itable, Search, held, not_held, remember, is_held, search, idup, recycle, iget,
}

-- The entry refers to the inode.
abbrev pub Refers : ℕ → ℕ → Entry → Type 0
Refers dev inum e = (0 < e.ref) × (e.dev ≡ dev) × (e.inum ≡ inum)

-- No two entries refer to one inode.
abbrev pub IsUnique : Itable → Type 0
IsUnique t =
    (i j : ℕ)
    → i < table_size
    → j < table_size
    → 0 < (t i).ref
    → Refers (t i).dev (t i).inum (t j)
    → i ≡ j

-- What the loop has found between `from` and `to`.
abbrev Searched : ℕ → ℕ → Itable → ℕ → ℕ → Search → Type 0
Searched dev inum t from to (held i) = (from ≤ i) × (i < to) × Refers dev inum (t i)
Searched dev inum t from to (not_held o) = (j : ℕ) → from ≤ j → j < to → Refers dev inum (t j) → ⊥

-- The empty entry that is remembered before entry `i`.
abbrev Empty : Itable → ℕ → Option ℕ → Type 0
Empty t i none = (j : ℕ) → j < i → (t j).ref ≢ 0
Empty t i (some e) = (e < i) × ((t e).ref ≡ 0)

remember-Empty :
    (t : Itable) (i : ℕ) (o : Option ℕ) → Empty t i o → Empty t (i + 1) (remember o (t i).ref i)
unfolding remember
remember-Empty t i none h = elim (ℕ_discrete (t i).ref 0) [
  | yes z ↦ rw (==_eq (t i).ref 0 z) (omega arith, z)
  | no ne ↦ rw (==_ne (t i).ref 0 ne) (λ j l. elim (ℕ_discrete j i) [
    | yes e ↦ λ z. ne (ap (λ n. (t n).ref) (sym e) ∙ z)
    | no o ↦ h j (omega arith)
  ])
]
remember-Empty t i (some e) h = (omega (arith, h.0), h.1)

abbrev Remembered : Itable → ℕ → Search → Type 0
Remembered t to (held i) = Unit {0}
Remembered t to (not_held o) = Empty t to o

is_held-Refers : (dev inum : ℕ) (e : Entry) → is_held dev inum e ≡ true → Refers dev inum e
is_held-Refers dev inum e h = (ground arith, ground arith, ground arith)

not_held-Refers : (dev inum : ℕ) (e : Entry) → is_held dev inum e ≡ false → Refers dev inum e → ⊥
not_held-Refers dev inum e h r = ground arith

search-Searched :
    (dev inum : ℕ) (t : Itable) (k i : ℕ) (empty : Option ℕ)
    → Empty t i empty
    → Searched dev inum t i (i + k) (search dev inum t k i empty)
      × Remembered t (i + k) (search dev inum t k i empty)
unfolding search
search-Searched dev inum t zero i empty h =
    let e : i ≡ i + 0 = omega arith in
    (λ j a b. absurd (omega arith), subst (λ n. Empty t n empty) e h)
search-Searched dev inum t (suc k) i empty h = elim (Bool-cases (is_held dev inum (t i))) [
  | inl e ↦ rw e ((omega arith, omega arith, is_held-Refers dev inum (t i) e), tt)
  | inr e ↦
      rw (e, to_end)
        (later (search dev inum t k (i + 1) (remember empty (t i).ref i))
          (not_held-Refers dev inum (t i) e)
          (search-Searched dev inum t k (i + 1) (remember empty (t i).ref i)
            (remember-Empty t i empty h)))
]
  where
    to_end : i + suc k ≡ i + 1 + k
    to_end = omega arith

    later :
        (s : Search)
        → (Refers dev inum (t i) → ⊥)
        → Searched dev inum t (i + 1) (i + 1 + k) s × Remembered t (i + 1 + k) s
        → Searched dev inum t i (i + 1 + k) s × Remembered t (i + 1 + k) s
    later (held j) n s = ((omega (arith, s.0.0), s.0.1, s.0.2), s.1)
    later (not_held o) n s = (
      λ j a b. elim (ℕ_discrete i j) [
        | yes e ↦ λ r. n (subst (λ m. Refers dev inum (t m)) (sym e) r)
        | no ne ↦ s.0 j (omega arith) b
      ],
      s.1,
    )

-- What `iget` answers: an entry for the inode, with one reference more and alone in that; it panics
-- where every entry is in use for other inodes.
abbrev pub Gets : ℕ → ℕ → Itable → Run (ℕ × Itable) → Type 0
Gets dev inum t (panics s) =
    ((i : ℕ) → i < table_size → (t i).ref ≢ 0)
    × ((i : ℕ) → i < table_size → Refers dev inum (t i) → ⊥)
Gets dev inum t (returns (i, t')) =
    (i < table_size)
    × Refers dev inum (t' i)
    × ((t' i).ref ≡ (t i).ref + 1)
    × (Refers dev inum (t i) ⊎ ((t i).ref ≡ 0))
    × ((j : ℕ) → j ≢ i → t' j ≡ t j)
    × IsUnique t'

-- An entry of its own for an inode that no other entry refers to.
IsUnique-update :
    (dev inum : ℕ) (t : Itable) (i : ℕ) (e : Entry)
    → IsUnique t
    → Refers dev inum e
    → ((j : ℕ) → j < table_size → j ≢ i → Refers dev inum (t j) → ⊥)
    → IsUnique (update t i e)
IsUnique-update dev inum t i e u r alone a b la lb ra rb = elim (ℕ_discrete i a) [
  | yes ia ↦ elim (ℕ_discrete i b) [
    | yes ib ↦ sym ia ∙ ib
    | no nb ↦
        let ta = update_self t i e ia in
        let tb = update-ne t i e nb in
        absurd (
          alone b lb (λ q. nb (sym q))
            (subst (Refers dev inum) tb (
              rb.0,
              rb.1 ∙ ap (λ (x : Entry). x.dev) ta ∙ r.1,
              rb.2 ∙ ap (λ (x : Entry). x.inum) ta ∙ r.2,
            )))
  ]
  | no na ↦
      let ta = update-ne t i e na in
      elim (ℕ_discrete i b) [
        | yes ib ↦
            let tb = update_self t i e ib in
            absurd (
              alone a la (λ q. na (sym q))
                (
                  subst (λ (x : Entry). 0 < x.ref) ta ra,
                  sym (ap (λ (x : Entry). x.dev) ta)
                      ∙ sym rb.1
                      ∙ ap (λ (x : Entry). x.dev) tb
                      ∙ r.1,
                  sym (ap (λ (x : Entry). x.inum) ta)
                      ∙ sym rb.2
                      ∙ ap (λ (x : Entry). x.inum) tb
                      ∙ r.2,
                ))
        | no nb ↦ u a b la lb (subst (λ (x : Entry). 0 < x.ref) ta ra) (
            subst (λ (x : Entry). Refers x.dev x.inum (t b)) ta
              (subst (Refers (update t i e a).dev (update t i e a).inum) (update-ne t i e nb) rb))
      ]
]

-- Where no two entries refer to one inode, `iget` answers an entry that refers to the inode, with one
-- reference more; it was one for the inode already or it was empty. No other entry is changed, and
-- still no two refer to one inode. It panics only where every entry is in use and none is for the inode.
pub iget-Gets : (dev inum : ℕ) (t : Itable) → IsUnique t → Gets dev inum t (iget dev inum t)
unfolding iget idup
iget-Gets dev inum t u =
    answer (search dev inum t table_size 0 none)
      (search-Searched dev inum t table_size 0 none (λ j l. absurd (omega arith)))
  where
    answer :
        (s : Search)
        → Searched dev inum t 0 (0 + table_size) s × Remembered t (0 + table_size) s
        → Gets dev inum t (elim s [
          | held i ↦ returns (i, update t i (record (t i) { ref = (t i).ref + 1 }))
          | not_held none ↦ panics "iget: no inodes"
          | not_held (some i) ↦ returns (i, recycle dev inum i t)
        ])
    answer (held i) ((_, l, r), _) =
        let e = record (t i) { ref = (t i).ref + 1 } in
        let at = update_self t i e refl in
        (
          l,
          subst (Refers dev inum) (sym at) (omega arith, r.1, r.2),
          ap (λ (x : Entry). x.ref) at,
          inl r,
          λ j ne. update-ne t i e (λ q. ne (sym q)),
          IsUnique-update dev inum t i e u (omega arith, r.1, r.2)
              (λ j lj ne q. ne (sym (u i j l lj r.0 (q.0, q.1 ∙ sym r.1, q.2 ∙ sym r.2)))),
        )
    answer (not_held none) (n, f) = (λ i l. f i l, λ i l. n i (omega arith) l)
    answer (not_held (some i)) (n, (l, z)) =
        let e = record (t i) { dev = dev; inum = inum; ref = 1; valid = false } in
        let at = update_self t i e refl in
        (
          l,
          subst (Refers dev inum) (sym at) (omega arith, refl, refl),
          ap (λ (x : Entry). x.ref) at ∙ ap (λ r. r + 1) (sym z),
          inr z,
          λ j ne. update-ne t i e (λ q. ne (sym q)),
          IsUnique-update dev inum t i e u (omega arith, refl, refl)
              (λ j lj ne. n j (omega arith) lj),
        )
