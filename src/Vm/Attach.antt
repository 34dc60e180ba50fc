-- ===== src/Vm/Attach.antt =====
-- kernel/vm.c: a table is added to the tree, or an entry of a last table is changed.
use csse_332_final.Base.{
  ℕ, ◌≤◌, ◌≡◌, ◌≢◌, refl, ◌∙◌, sym, ap, subst, true, false, some, List, [], ◌∷◌, ◌++◌, arith,
  length, length-append, append_assoc, ◌⊎◌, inl, inr, Bool-cases, ℕ_discrete, update, update_self,
  update-ne,
}
use csse_332_final.Vm.{Tables, pte2pa, is_valid, set_entry, zero_table}
use csse_332_final.Vm.Paths.{
  desc, desc_valid, desc_invalid, desc_nil, desc-append, some_inj, none_ne_some,
}

abbrev pub IsInjective : Tables → ℕ → Type 0
IsInjective t root =
    (p q : List ℕ) (a : ℕ)
    → length p ≤ 2
    → length q ≤ 2
    → desc t root p ≡ some a
    → desc t root q ≡ some a
    → p ≡ q

-- A path, one index longer.
snoc_path :
    (t : Tables) (root : ℕ) (s : List ℕ) (c j : ℕ)
    → desc t root s ≡ some c
    → is_valid (t c j) ≡ true
    → desc t root (s ++ (j ∷ [])) ≡ some (pte2pa (t c j))
snoc_path t root s c j h v =
    desc-append t root s (j ∷ []) h ∙ desc_valid t c j [] v ∙ desc_nil t (pte2pa (t c j))

snoc_length :
    (s : List ℕ) (j : ℕ) (q : List ℕ) (n : ℕ)
    → length (s ++ (j ∷ q)) ≤ n
    → length ((s ++ (j ∷ [])) ++ q) ≤ n
snoc_length s j q n h = subst (λ l. length l ≤ n) (sym (append_assoc s (j ∷ []) q)) h

short : (s q : List ℕ) → length (s ++ q) ≤ 2 → length s ≤ 2
short s q h = omega (arith, h, length-append s q)

not_both : (n : ℕ) → is_valid n ≡ false → is_valid n ≡ true → ⊥
not_both n h k = cc

module _ (t : Tables) (root : ℕ) (inj : IsInjective t root) (p : List ℕ) (a i f e : ℕ)
    (at : desc t root p ≡ some a) (depth : length p ≤ 1) (empty : is_valid (t a i) ≡ false)
    (fresh : (q : List ℕ) (b : ℕ) → length q ≤ 2 → desc t root q ≡ some b → b ≢ f)
    (valid : is_valid e ≡ true) (leads : pte2pa e ≡ f) where
  abbrev pub attached : Tables
  attached = set_entry (zero_table t f) a i e

  a_ne_f : a ≢ f
  a_ne_f = fresh p a (omega (arith, depth)) at

  other_table : (c j : ℕ) → c ≢ f → c ≢ a → attached c j ≡ t c j
  other_table c j nf na =
      ap (λ r. r j) (update-ne (zero_table t f) a (update (zero_table t f a) i e) (λ q. na (sym q)))
      ∙ ap (λ r. r j) (update-ne t f (λ i. 0) (λ q. nf (sym q)))

  other_index : (j : ℕ) → j ≢ i → attached a j ≡ t a j
  other_index j nj =
      ap (λ r. r j) (update_self (zero_table t f) a (update (zero_table t f a) i e) refl)
      ∙ update-ne (zero_table t f a) i e (λ r. nj (sym r))
      ∙ ap (λ r. r j) (update-ne t f (λ i. 0) (λ r. a_ne_f (sym r)))

  -- Every entry of a table is as it was, but the new one.
  same_entry : (c j : ℕ) → c ≢ f → (attached c j ≡ t c j) ⊎ ((c ≡ a) × (j ≡ i))
  same_entry c j nf = elim (ℕ_discrete c a) [
    | no na ↦ inl (other_table c j nf na)
    | yes q ↦ elim (ℕ_discrete j i) [
      | no nj ↦ inl (ap (λ b. attached b j) q ∙ other_index j nj ∙ ap (λ b. t b j) (sym q))
      | yes r ↦ inr (q, r)
    ]
  ]

  new_entry : attached a i ≡ e
  new_entry =
      ap (λ r. r i) (update_self (zero_table t f) a (update (zero_table t f a) i e) refl)
      ∙ update_self (zero_table t f a) i e refl

  pub fresh_entry : (j : ℕ) → attached f j ≡ 0
  fresh_entry j =
      ap (λ r. r j) (update-ne (zero_table t f) a (update (zero_table t f a) i e) a_ne_f)
      ∙ ap (λ r. r j) (update_self t f (λ i. 0) refl)

  -- A path in the tree is a path still.
  pub attached-keeps :
      (q s : List ℕ) (c b : ℕ)
      → desc t root s ≡ some c
      → length (s ++ q) ≤ 2
      → desc t c q ≡ some b
      → desc attached c q ≡ some b
  attached-keeps [] s c b h l d = desc_nil attached c ∙ sym (desc_nil t c) ∙ d
  attached-keeps (j ∷ q) s c b h l d = elim (Bool-cases (is_valid (t c j))) [
    | inr v ↦ absurd (none_ne_some b (sym (desc_invalid t c j q v) ∙ d))
    | inl v ↦ elim (same_entry c j (fresh s c (short s (j ∷ q) l) h)) [
      | inr (x, y) ↦
          absurd (not_both (t a i) empty (sym (ap is_valid (ap (λ n. t n j) x ∙ ap (t a) y)) ∙ v))
      | inl same ↦
          desc_valid attached c j q (ap is_valid same ∙ v)
          ∙ ap (λ g. desc attached (pte2pa g) q) same
          ∙ attached-keeps q (s ++ (j ∷ [])) (pte2pa (t c j)) b (snoc_path t root s c j h v)
              (snoc_length s j q 2 l) (sym (desc_valid t c j q v) ∙ d)
    ]
  ]

  below_new : (q : List ℕ) (b : ℕ) → desc attached f q ≡ some b → (q ≡ []) × (b ≡ f)
  below_new [] b d = (refl, sym (some_inj f b (sym (desc_nil attached f) ∙ d)))
  below_new (k ∷ q) b d =
      absurd (none_ne_some b (sym (desc_invalid attached f k q (ap is_valid (fresh_entry k))) ∙ d))

  -- A path is one of before, or the one to the new table.
  pub attached-adds :
      (q s : List ℕ) (c b : ℕ)
      → desc t root s ≡ some c
      → length (s ++ q) ≤ 2
      → desc attached c q ≡ some b
      → (desc t c q ≡ some b) ⊎ ((b ≡ f) × (s ++ q ≡ p ++ (i ∷ [])))
  attached-adds [] s c b h l d = inl (desc_nil t c ∙ sym (desc_nil attached c) ∙ d)
  attached-adds (j ∷ q) s c b h l d = elim (same_entry c j (fresh s c (short s (j ∷ q) l) h)) [
    | inr (x, y) ↦
        let path : s ≡ p =
          inj s p c (short s (j ∷ q) l) (omega (arith, depth)) h (at ∙ ap some (sym x)) in
        let entry : attached c j ≡ e = ap (λ n. attached n j) x ∙ ap (attached a) y ∙ new_entry in
        let (q_nil, b_f) = below_new q b (
          ap (λ n. desc attached n q) (sym (ap pte2pa entry ∙ leads))
          ∙ sym (desc_valid attached c j q (ap is_valid entry ∙ valid))
          ∙ d) in
        inr (
          b_f,
          ap (λ r. s ++ (j ∷ r)) q_nil ∙ ap (λ r. s ++ (r ∷ [])) y ∙ ap (λ r. r ++ (i ∷ [])) path,
        )
    | inl same ↦ elim (Bool-cases (is_valid (t c j))) [
      | inr v ↦
          absurd (none_ne_some b (sym (desc_invalid attached c j q (ap is_valid same ∙ v)) ∙ d))
      | inl v ↦
          let d2 =
            ap (λ g. desc attached (pte2pa g) q) (sym same)
            ∙ sym (desc_valid attached c j q (ap is_valid same ∙ v))
            ∙ d in
          later (desc_valid t c j q v) (
            attached-adds q (s ++ (j ∷ [])) (pte2pa (t c j)) b (snoc_path t root s c j h v)
              (snoc_length s j q 2 l) d2)
    ]
  ]
    where
      later :
          desc t c (j ∷ q) ≡ desc t (pte2pa (t c j)) q
          → (desc t (pte2pa (t c j)) q ≡ some b)
            ⊎ ((b ≡ f) × ((s ++ (j ∷ [])) ++ q ≡ p ++ (i ∷ [])))
          → (desc t c (j ∷ q) ≡ some b) ⊎ ((b ≡ f) × (s ++ (j ∷ q) ≡ p ++ (i ∷ [])))
      later u (inl r) = inl (u ∙ r)
      later u (inr (x, y)) = inr (x, sym (append_assoc s (j ∷ []) q) ∙ y)

  pub attached-Injective : IsInjective attached root
  attached-Injective q r b lq lr dq dr =
      both (attached-adds q [] root b (desc_nil t root) lq dq)
        (attached-adds r [] root b (desc_nil t root) lr dr)
    where
      both :
          (desc t root q ≡ some b) ⊎ ((b ≡ f) × (q ≡ p ++ (i ∷ [])))
          → (desc t root r ≡ some b) ⊎ ((b ≡ f) × (r ≡ p ++ (i ∷ [])))
          → q ≡ r
      both (inl x) (inl y) = inj q r b lq lr x y
      both (inl x) (inr (y, z)) = absurd (fresh q b lq x y)
      both (inr (x, z)) (inl y) = absurd (fresh r b lr y x)
      both (inr (x, z)) (inr (y, w)) = z ∙ sym w

  -- The new table has its path.
  pub attached-new : desc attached root (p ++ (i ∷ [])) ≡ some f
  attached-new =
      desc-append attached root p (i ∷ [])
        (attached-keeps p [] root a (desc_nil t root) (omega (arith, depth)) at)
      ∙ desc_valid attached a i [] (ap is_valid new_entry ∙ valid)
      ∙ desc_nil attached (pte2pa (attached a i))
      ∙ ap some (ap pte2pa new_entry ∙ leads)

  -- The entries of the last tables are as they were.
  pub attached-entry :
      (q : List ℕ) (b j : ℕ) → length q ≡ 2 → desc t root q ≡ some b → attached b j ≡ t b j
  attached-entry q b j l d = other_table b j (fresh q b (omega (arith, l)) d) (λ x. absurd (
      omega (
        arith,
        l,
        depth,
        ap length (inj q p b (omega (arith, l)) (omega (arith, depth)) d (at ∙ ap some (sym x))),
      )))

-- An entry of a last table is written.
module _ (t : Tables) (root : ℕ) (inj : IsInjective t root) (p : List ℕ) (a i e : ℕ)
    (at : desc t root p ≡ some a) (last : length p ≡ 2) where
  pub written-same :
      (q s : List ℕ) (c : ℕ)
      → desc t root s ≡ some c
      → length (s ++ q) ≤ 2
      → desc (set_entry t a i e) c q ≡ desc t c q
  written-same [] s c h l = desc_nil (set_entry t a i e) c ∙ sym (desc_nil t c)
  written-same (j ∷ q) s c h l =
      let above = short s (j ∷ q) l in
      let same : set_entry t a i e c j ≡ t c j =
        ap (λ r. r j)
          (update-ne t a (update (t a) i e) (λ x. absurd (
            omega (
              arith,
              last,
              l,
              length-append s (j ∷ q),
              ap length (inj s p c above (omega (arith, last)) h (at ∙ ap some x)),
            )))) in
      elim (Bool-cases (is_valid (t c j))) [
        | inr v ↦
            desc_invalid (set_entry t a i e) c j q (ap is_valid same ∙ v)
            ∙ sym (desc_invalid t c j q v)
        | inl v ↦
            desc_valid (set_entry t a i e) c j q (ap is_valid same ∙ v)
            ∙ ap (λ g. desc (set_entry t a i e) (pte2pa g) q) same
            ∙ written-same q (s ++ (j ∷ [])) (pte2pa (t c j)) (snoc_path t root s c j h v)
                (snoc_length s j q 2 l)
            ∙ sym (desc_valid t c j q v)
      ]
