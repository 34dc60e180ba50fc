-- ===== src/Vm/Tests.antt =====
-- kernel/vm.c: an empty table and four free pages.
use csse_332_final.Base.{
  ℕ, ◌+◌, ◌-◌, ◌*◌, ◌/◌, ◌%◌, ◌≤◌, ◌<◌, ◌≡◌, refl, ◌∙◌, sym, ap, true, none, some, List, [], ◌∷◌,
  arith, ◌==◌, if◌then◌else◌, returns, Option,
}
use csse_332_final.Kalloc.{kalloc}
use csse_332_final.Kalloc.FreeList.{IsPage, NotIn}
use csse_332_final.Vm.{Vm, walk_from, walk, walkaddr, map_from, mappages, make_pte}
use csse_332_final.Vm.Paths.{
  desc, desc_nil, desc_invalid, indices, pte-missing, none_ne_some, some_inj, IsTree,
}
use csse_332_final.Vm.Walk.{Walked, walk-Walked}
use csse_332_final.Vm.Map.{Unmapped, within}
use csse_332_final.Vm.Lookup.{walkaddr-mappages}

abbrev pub kernel_end : ℕ
kernel_end = 0x80001000

abbrev pub root : ℕ
root = 0x80002000

abbrev pub free : List ℕ
free = 0x80003000 ∷ 0x80004000 ∷ 0x80006000 ∷ 0x80007000 ∷ []

abbrev next_free : ℕ → ℕ
next_free a =
    if a == 0x80003000
    then 0x80004000
    else if a == 0x80004000
    then 0x80006000
    else if a == 0x80006000
    then 0x80007000
    else 0

abbrev pub start : Vm
start = record {
  tables = λ a i. 0;
  kmem = record { freelist = 0x80003000; link = next_free; fill = λ a. 1 };
}

pub empty_root : (i : ℕ) (q : List ℕ) → desc start.tables root (i ∷ q) ≡ none
empty_root i q = desc_invalid start.tables root i q refl

only_root : (q : List ℕ) (a : ℕ) → desc start.tables root q ≡ some a → (q ≡ []) × (root ≡ a)
only_root [] a d = (refl, some_inj root a (sym (desc_nil start.tables root) ∙ d))
only_root (i ∷ q) a d = absurd (none_ne_some a (sym (empty_root i q) ∙ d))

is_page : (p : ℕ) → p % 4096 ≡ 0 → 0x80001000 ≤ p → p < 0x88000000 → IsPage kernel_end p
is_page p al ab be = record { aligned = al; above = ab; below = be }

pub is_tree : IsTree kernel_end root free start
is_tree = record {
  frees = record {
    chain = (refl, (refl, (refl, (refl, refl))));
    distinct = (
      (omega arith, (omega arith, (omega arith, tt))),
      ((omega arith, (omega arith, tt)), ((omega arith, tt), (tt, tt))),
    );
    pages = (
      is_page 0x80003000 refl (omega arith) (omega arith),
      (
        is_page 0x80004000 refl (omega arith) (omega arith),
        (
          is_page 0x80006000 refl (omega arith) (omega arith),
          (is_page 0x80007000 refl (omega arith) (omega arith), tt),
        ),
      ),
    );
  };
  pages = λ q a l d.
      let r = (only_root q a d).1 in
      (is_page a (omega (arith, r)) (omega (arith, r)) (omega (arith, r)), others a r);
  distinct = λ p q a k l d e. (only_root p a d).0 ∙ sym (only_root q a e).0;
}
  where
    others : (a : ℕ) → root ≡ a → NotIn a free
    others a r = (omega (arith, r), (omega (arith, r), (omega (arith, r), (omega (arith, r), tt))))

walk-Walked_example :
    (out : Option (ℕ × ℕ) × Vm) × (walk root 0x1000 true start ≡ returns out)
    × Walked kernel_end root 0x1000 (indices 2 0x1000) free start out
walk-Walked_example =
    walk-Walked kernel_end root 0x1000 free start (omega arith) (omega arith) is_tree

unmapped : Unmapped root start 0x1000 1
unmapped x h l = ap (λ e. e % 2 == 1) (pte-missing root x start (empty_root _ _))

-- One page with the flags R, W and U is mapped to 0x80005000.
after : Vm
unfolding mappages map_from walk walk_from kalloc make_pte
after = elim (mappages root 0x1000 4096 0x80005000 22 start) as (λ r. Vm) [
  | returns (ok, s) ↦ s
  | other ↦ start
]

maps_page : mappages root 0x1000 4096 0x80005000 22 start ≡ returns (true, after)
unfolding after mappages map_from walk walk_from kalloc make_pte
maps_page = refl

walkaddr-mappages_example : walkaddr root 0x1234 after ≡ (
    if within 0x1000 1 0x1234
    then 0x80005000 + (0x1234 - 0x1000) / 4096 * 4096
    else walkaddr root 0x1234 start)
walkaddr-mappages_example =
    walkaddr-mappages kernel_end root 22 free start 0x1000 4096 0x80005000 (omega arith)
      (omega arith) (omega arith) (omega arith) refl (omega arith) refl is_tree unmapped maps_page
      0x1234 (omega arith)
