-- ===== src/Vm/Paths.antt =====
-- kernel/vm.c: the tables as a tree, whose nodes are the tables by their paths from the root.
use csse_332_final.Base.{
  ℕ, zero, suc, ◌/◌, ◌≤◌, ◌≡◌, refl, ◌∙◌, sym, ap, ap₂, Bool, true, false, Option, none, some, List,
  [], ◌∷◌, ◌++◌, arith, length, inl, inr, Bool-cases,
}
use csse_332_final.Kalloc.FreeList.{Frees, IsPage, NotIn}
use csse_332_final.Vm.{Tables, Vm, px, pte2pa, is_valid, walk_from, entry_at}

pub some_inj : (a b : ℕ) → some a ≡ some b → a ≡ b
some_inj a b e = cc

pub none_ne_some : (a : ℕ) → none ≡ some a → ⊥
none_ne_some a e = cc

-- The table that the indices lead to.
pub desc : Tables → ℕ → List ℕ → Option ℕ
desc t a [] = some a
desc t a (i ∷ is) = elim (is_valid (t a i)) [ true ↦ desc t (pte2pa (t a i)) is | false ↦ none ]

-- The indices of `va` above the last table.
abbrev pub indices : ℕ → ℕ → List ℕ
indices zero va = []
indices (suc level) va = px (suc level) va ∷ indices level va

pub desc_valid :
    (t : Tables) (a i : ℕ) (is : List ℕ)
    → is_valid (t a i) ≡ true
    → desc t a (i ∷ is) ≡ desc t (pte2pa (t a i)) is
unfolding desc
desc_valid t a i is h = rw (h, desc) refl

pub desc_invalid :
    (t : Tables) (a i : ℕ) (is : List ℕ) → is_valid (t a i) ≡ false → desc t a (i ∷ is) ≡ none
unfolding desc
desc_invalid t a i is h = rw (h, desc) refl

pub desc_nil : (t : Tables) (a : ℕ) → desc t a [] ≡ some a
unfolding desc
desc_nil t a = refl

pub desc-append :
    (t : Tables) (a : ℕ) (p q : List ℕ) {c : ℕ}
    → desc t a p ≡ some c
    → desc t a (p ++ q) ≡ desc t c q
unfolding desc
desc-append t a [] q {c} h = ap (λ b. desc t b q) (some_inj a c h)
desc-append t a (i ∷ p) q {c} h = elim (Bool-cases (is_valid (t a i))) [
  | inl v ↦
      desc_valid t a i (p ++ q) v
      ∙ desc-append t (pte2pa (t a i)) p q (sym (desc_valid t a i p v) ∙ h)
  | inr v ↦ absurd (none_ne_some c (sym (desc_invalid t a i p v) ∙ h))
]

-- `walk` follows the indices.
pub walk_from-found :
    (alloc : Bool) (level va a : ℕ) (s : Vm) (b : ℕ)
    → desc s.tables a (indices level va) ≡ some b
    → walk_from alloc level va a s ≡ (some (b, px 0 va), s)
unfolding walk_from
walk_from-found alloc zero va a s b h =
    ap (λ c. (some (c, px 0 va), s)) (some_inj a b (sym (desc_nil s.tables a) ∙ h))
walk_from-found alloc (suc level) va a s b h =
    let i = px (suc level) va in
    elim (Bool-cases (is_valid (s.tables a i))) [
      | inl v ↦
          rw (v, walk_from)
            (walk_from-found alloc level va (pte2pa (s.tables a i)) s b
              (sym (desc_valid s.tables a i (indices level va) v) ∙ h))
      | inr v ↦ absurd (none_ne_some b (sym (desc_invalid s.tables a i (indices level va) v) ∙ h))
    ]

walk_from-missing :
    (level va a : ℕ) (s : Vm)
    → desc s.tables a (indices level va) ≡ none
    → walk_from false level va a s ≡ (none, s)
unfolding walk_from
walk_from-missing zero va a s h = absurd (none_ne_some a (sym h ∙ desc_nil s.tables a))
walk_from-missing (suc level) va a s h =
    let i = px (suc level) va in
    elim (Bool-cases (is_valid (s.tables a i))) [
      | inl v ↦
          rw (v, walk_from)
            (walk_from-missing level va (pte2pa (s.tables a i)) s
              (sym (desc_valid s.tables a i (indices level va) v) ∙ h))
      | inr v ↦ rw (v, walk_from) refl
    ]

pub entry_at-found :
    (root va : ℕ) (s : Vm) (b : ℕ)
    → desc s.tables root (indices 2 va) ≡ some b
    → entry_at root va s ≡ some (s.tables b (px 0 va))
unfolding entry_at
entry_at-found root va s b h = rw (walk_from-found false 2 va root s b h, entry_at) refl

pub entry_at-missing :
    (root va : ℕ) (s : Vm) → desc s.tables root (indices 2 va) ≡ none → entry_at root va s ≡ none
unfolding entry_at
entry_at-missing root va s h = rw (walk_from-missing 2 va root s h, entry_at) refl

-- The entry for `va`, and 0 where no table has one.
pub pte : ℕ → ℕ → Vm → ℕ
pte root va s = elim (desc s.tables root (indices 2 va)) [
  | none ↦ 0
  | some b ↦ s.tables b (px 0 va)
]

pub pte-found :
    (root va : ℕ) (s : Vm) (b : ℕ)
    → desc s.tables root (indices 2 va) ≡ some b
    → pte root va s ≡ s.tables b (px 0 va)
unfolding pte
pte-found root va s b h = rw (h, pte) refl

pub pte-missing :
    (root va : ℕ) (s : Vm) → desc s.tables root (indices 2 va) ≡ none → pte root va s ≡ 0
unfolding pte
pte-missing root va s h = rw (h, pte) refl

pub same_indices : (x y : ℕ) → x / 4096 ≡ y / 4096 → indices 2 x ≡ indices 2 y
same_indices x y h = ap₂ (λ i j. i ∷ j ∷ []) (omega (arith, h)) (omega (arith, h))

-- Addresses of one page have one entry.
pub pte-page : (root : ℕ) (s : Vm) (x y : ℕ) → x / 4096 ≡ y / 4096 → pte root x s ≡ pte root y s
unfolding pte
pte-page root s x y h =
    let slot : px 0 x ≡ px 0 y = omega (arith, h) in
    ap₂ (λ is i. elim (desc s.tables root is) as (λ o. ℕ) [ none ↦ 0 | some b ↦ s.tables b i ])
      (same_indices x y h) slot

-- The entries are in the tables alone.
pub pte-same : (root va : ℕ) (s s' : Vm) → s'.tables ≡ s.tables → pte root va s' ≡ pte root va s
unfolding pte
pte-same root va s s' h =
    ap
      (λ (t : Tables). elim (desc t root (indices 2 va)) as (λ o. ℕ) [
        | none ↦ 0
        | some b ↦ t b (px 0 va)
      ])
      h

-- A tree, where the pages `free` are free: no table has two paths, and each is a page that is not free.
pub record IsTree (kernel_end root : ℕ) (free : List ℕ) (s : Vm) : Type 0 where
  pub frees : Frees kernel_end s.kmem free
  pub pages :
      (q : List ℕ) (a : ℕ)
      → length q ≤ 2
      → desc s.tables root q ≡ some a
      → IsPage kernel_end a × NotIn a free
  pub distinct :
      (p q : List ℕ) (a : ℕ)
      → length p ≤ 2
      → length q ≤ 2
      → desc s.tables root p ≡ some a
      → desc s.tables root q ≡ some a
      → p ≡ q
