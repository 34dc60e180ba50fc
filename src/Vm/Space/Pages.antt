-- ===== src/Vm/Space/Pages.antt =====
-- kernel/vm.c: which pages of a process are present, and what they are mapped to.
use csse_332_final.Base.{
  ℕ, ◌*◌, ◌≤◌, ◌<◌, ◌≡◌, ◌≢◌, ◌∙◌, sym, ap, Bool, true, false, some, List, arith, length, inl, inr,
  Option-cases, lt→leb, returns,
}
use csse_332_final.Kalloc.{Kmem, page_size}
use csse_332_final.Kalloc.FreeList.{Frees, IsPage, NotIn}
use csse_332_final.Vm.{Vm, max_va, px, is_valid, pte2pa, pte_flags, walk}
use csse_332_final.Vm.Paths.{desc, indices, pte, pte-found, pte-missing, walk_from-found, IsTree}
use csse_332_final.Vm.Grow.{IsOther}

-- An entry of a page that the process owns.
pub record IsOwned (kernel_end root : ℕ) (free : List ℕ) (s : Vm) (e : ℕ) : Type 0 where
  pub valid : is_valid e ≡ true
  pub leaf : pte_flags e ≢ 1
  pub page : IsPage kernel_end (pte2pa e)
  pub other : IsOther root free s (pte2pa e)

abbrev pub entry : ℕ → Vm → ℕ → ℕ
entry root s p = pte root (p * page_size) s

-- Of the pages below `limit`, those are present that `has` says. Each is a page of memory of its own,
-- which is neither free nor a table.
pub record IsSpace (kernel_end root limit : ℕ) (free : List ℕ) (has : ℕ → Bool) (s : Vm)
    : Type 0 where
  pub tree : IsTree kernel_end root free s
  pub absent : (p : ℕ) → p < limit → has p ≡ false → is_valid (entry root s p) ≡ false
  pub present : (p : ℕ) → p < limit → has p ≡ true → IsOwned kernel_end root free s (entry root s p)
  pub apart :
      (p q : ℕ)
      → p < limit
      → q < limit
      → has p ≡ true
      → has q ≡ true
      → pte2pa (entry root s p) ≡ pte2pa (entry root s q)
      → p ≡ q

-- The tables of a space where the free list has changed to one that holds none of its pages.
pub IsTree-kmem :
    (kernel_end root : ℕ) (free free' : List ℕ) (s : Vm) (m : Kmem)
    → IsTree kernel_end root free s
    → Frees kernel_end m free'
    → ((q : List ℕ) (a : ℕ) → length q ≤ 2 → desc s.tables root q ≡ some a → NotIn a free')
    → IsTree kernel_end root free' (record s { kmem = m })
IsTree-kmem kernel_end root free free' s m v f out = record {
  frees = f;
  pages = λ q a l d. ((v.pages q a l d).0, out q a l d);
  distinct = v.distinct;
}

module _ (kernel_end root limit : ℕ) (positive : 0 < kernel_end) (free : List ℕ) (has : ℕ → Bool)
    (s : Vm) (v : IsSpace kernel_end root limit free has s)
    (below : limit * page_size ≤ max_va) where
  -- A present page has an entry in a last table, which `walk` finds.
  pub found :
      (p : ℕ)
      → p < limit
      → has p ≡ true
      → (b : ℕ) × (desc s.tables root (indices 2 (p * page_size)) ≡ some b)
        × (walk root (p * page_size) false s ≡ returns (some (b, px 0 (p * page_size)), s))
        × (s.tables b (px 0 (p * page_size)) ≡ entry root s p)
  unfolding walk
  found p l h = elim (Option-cases (desc s.tables root (indices 2 (p * page_size)))) [
    | inl d ↦ absurd (
        zero_invalid
          (sym (v.present p l h).valid ∙ ap is_valid (pte-missing root (p * page_size) s d)))
    | inr (b, d) ↦ (
      b,
      d,
      rw (lt→leb max_va (p * page_size) (omega (arith, l, below)))
          (ap (λ o. returns o) (walk_from-found false 2 (p * page_size) root s b d)),
      sym (pte-found root (p * page_size) s b d),
    )
  ]
    where
      zero_invalid : ◌≡◌ {A = Bool} true false → ⊥
      zero_invalid e = cc
