-- ===== src/Kalloc/Tests.antt =====
-- kernel/kalloc.c with two pages free.
use csse_332_final.Base.{ℕ, ◌-◌, ◌/◌, ◌≡◌, refl, [], ◌∷◌, returns, panics, arith, update}
use csse_332_final.Kalloc.{page_size, phys_top, page_round_up, Kmem, kfree, kinit, kalloc}
use csse_332_final.Kalloc.FreeList.{NotIn, IsDistinct, IsPage, Frees, pages_from, kinit-Frees}
use csse_332_final.Kalloc.Ownership.{System, Owned, Step, Reach, kalloc_exclusive}

abbrev kernel_end : ℕ
kernel_end = 0x80020000

abbrev first : ℕ
first = 0x80021000

abbrev second : ℕ
second = 0x80022000

abbrev two_free : Kmem
two_free = record { freelist = first; link = update (λ _. 0) first second; fill = λ _. 1 }

two_free-Frees : Frees kernel_end two_free (first ∷ second ∷ [])
two_free-Frees = record {
  chain = (refl, (refl, refl));
  distinct = omega arith;
  pages = omega arith;
}

abbrev empty : Kmem
empty = record { freelist = 0; link = λ _. 0; fill = λ _. 0 }

kinit-Frees_example :
    (m' : Kmem) × (kinit kernel_end empty ≡ returns m')
    × Frees kernel_end m' (
        pages_from
          ((phys_top - page_round_up kernel_end) / page_size)
          (page_round_up kernel_end)
          [])
kinit-Frees_example = kinit-Frees kernel_end (omega arith) empty refl (omega arith)

abbrev start : System
start = record { mem = two_free; held = [] }

start-Owned : Owned kernel_end start
start-Owned = record {
  free = first ∷ second ∷ [];
  frees_of = two_free-Frees;
  apart = omega arith;
  held_pages = tt;
}

kalloc_exclusive_example :
    NotIn second (first ∷ []) × IsPage kernel_end second × IsDistinct (first ∷ [])
unfolding kalloc
kalloc_exclusive_example =
    kalloc_exclusive {m = (kalloc (kalloc two_free).1).1} (omega arith) start-Owned
      (Reach.next Reach.here (Step.allocates {m' = (kalloc two_free).1} first (omega arith) refl))
      refl (omega arith)

kfree_of_kernel : kfree kernel_end 0x80010000 two_free ≡ panics "kfree"
unfolding kfree
kfree_of_kernel = refl
