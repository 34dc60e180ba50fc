-- ===== src/Vm/Space/Tests.antt =====
-- kernel/vm.c: a process of two pages.
use csse_332_final.Base.{
  ℕ, ◌*◌, ◌%◌, ◌≡◌, refl, ◌∙◌, sym, ap, subst, Bool, true, false, List, arith, inl, inr, le→ltb,
  ◌==◌, Run, returns, panics,
}
use csse_332_final.Kalloc.{kalloc}
use csse_332_final.Vm.{Vm, walk_from, walk, map_from, mappages, make_pte, entry_at, walkaddr}
use csse_332_final.Vm.Paths.{pte-missing}
use csse_332_final.Vm.Space.{grow_from, uvmalloc}
use csse_332_final.Vm.Space.Sizes.{IsSized}
use csse_332_final.Vm.Space.Growth.{Result, uvmalloc-Grows}
use csse_332_final.Vm.Tests.{kernel_end, root, free, start, empty_root, is_tree}

abbrev pub IsSize : List ℕ → ℕ → Vm → Type 0
IsSize = IsSized kernel_end root 0x4000000 (omega arith) (omega arith)

abbrev Grown : ℕ → ℕ → List ℕ → Vm → List ℕ → ℕ → Vm → Type 0
Grown = Result kernel_end root 0x4000000 (omega arith) (omega arith)

no_pages : IsSize free 0 start
no_pages = record {
  tree = is_tree;
  absent = λ p l h. ap (λ e. e % 2 == 1) (pte-missing root (p * 4096) start (empty_root _ _));
  present = λ p l h. absurd (false_ne_true (sym (le→ltb p 0 (omega arith)) ∙ h));
  apart = λ p q l l2 h h2 e. absurd (false_ne_true (sym (le→ltb p 0 (omega arith)) ∙ h));
}
  where
    false_ne_true : ◌≡◌ {A = Bool} false true → ⊥
    false_ne_true e = cc

uvmalloc-Grows_example :
    (free' : List ℕ) × (r : ℕ) × (s' : Vm) × (uvmalloc kernel_end root 0 0x1234 4 start
      ≡ returns (r, s'))
    × Grown 0 0x1234 free start free' r s'
uvmalloc-Grows_example =
    uvmalloc-Grows kernel_end root 0x4000000 (omega arith) (omega arith) 0 0x1234 4 free start
      (omega arith) (omega arith) (omega arith) no_pages

abbrev state : Vm → Run (ℕ × Vm) → Vm
state s (returns (r, s1)) = s1
state s (panics e) = s

abbrev size : Run (ℕ × Vm) → ℕ
size (returns (r, s1)) = r
size (panics e) = 0

-- A process of two pages.
pub grown : Vm
unfolding uvmalloc grow_from mappages map_from walk walk_from kalloc make_pte
grown = state start (uvmalloc kernel_end root 0 0x1234 4 start)

grows : uvmalloc kernel_end root 0 0x1234 4 start ≡ returns (0x1234, grown)
unfolding grown uvmalloc grow_from mappages map_from walk walk_from kalloc make_pte
grows = refl

-- The pages that it has got.
pub grown_pages : (walkaddr root 0 grown ≡ 0x80003000) × (walkaddr root 0x1000 grown ≡ 0x80007000)
unfolding grown uvmalloc grow_from mappages map_from walk walk_from kalloc make_pte walkaddr
    entry_at
grown_pages = (refl, refl)

-- Its pages, as `uvmalloc` has left them.
pub sized : (free' : List ℕ) × IsSize free' 0x1234 grown
sized = answer uvmalloc-Grows_example
  where
    answer :
        (free' : List ℕ) × (r : ℕ) × (s' : Vm) × (uvmalloc kernel_end root 0 0x1234 4 start
            ≡ returns (r, s'))
          × Grown 0 0x1234 free start free' r s'
        → (free' : List ℕ) × IsSize free' 0x1234 grown
    answer (free', r, s', e, inr (h, kept, inl (same, v))) =
        (free', subst (IsSize free' 0x1234) (ap (state start) (sym e ∙ grows)) v)
    answer (free', r, s', e, inr (h, kept, inr (z, v, few))) =
        absurd (omega (arith, z, ap size (sym e ∙ grows)))
    answer (free', r, s', e, inl (h, same, left, kept)) = absurd (omega (arith, h))
