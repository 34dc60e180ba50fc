-- ===== src/Kalloc.antt =====
-- kernel/kalloc.c: the allocator of physical pages. `kmem.lock` makes each call one step.
--
-- Of a page the model keeps its first word, where `struct run` has its link, and the byte that the
-- rest was filled with. `kernel_end` is the linker's `end`, the first address after the kernel.
pub mod FreeList
pub mod Ownership
mod Tests
use csse_332_final.Base.{
  ℕ, zero, suc, ◌+◌, ◌-◌, ◌*◌, ◌/◌, ◌%◌, ◌^◌, Bool, true, false, ◌||◌, not, Run, returns, panics,
  ◌>>=◌, ltb, leb, ◌==◌, if◌then◌else◌, update,
}

abbrev pub page_size : ℕ
page_size = 4096

-- KERNBASE + 128 MB
abbrev pub phys_top : ℕ
phys_top = 0x80000000 + 128 * 1024 * 1024

abbrev pub page_round_up : ℕ → ℕ
page_round_up a = (a + page_size - 1) / page_size * page_size

pub record Kmem : Type 0 where
  pub freelist : ℕ  -- 0 is the null pointer
  pub link : ℕ → ℕ  -- the first word of a page
  pub fill : ℕ → ℕ  -- the byte in the rest of a page

-- `memset(pa, c, PGSIZE)`: the first word has the byte eight times.
abbrev pub fill_page : ℕ → ℕ → Kmem → Kmem
fill_page pa c m = record m {
  link = update m.link pa (c * 0x0101010101010101);
  fill = update m.fill pa c;
}

-- `r->next = kmem.freelist; kmem.freelist = r`, after the page has been filled with junk
abbrev pub push_page : ℕ → Kmem → Kmem
push_page pa m = record m {
  freelist = pa;
  link = update (fill_page pa 1 m).link pa m.freelist;
  fill = (fill_page pa 1 m).fill;
}

module _ (kernel_end : ℕ) where
  unfoldable pub kfree : ℕ → Kmem → Run Kmem
  kfree pa m =
      if not (pa % page_size == 0) || ltb pa kernel_end || leb phys_top pa
      then panics "kfree"
      else returns (push_page pa m)

  -- The loop of `freerange`, from `p` on; `panics "fuel"` is a loop cut short.
  pub free_from : ℕ → ℕ → ℕ → Kmem → Run Kmem
  free_from zero p pa_end m = panics "fuel"
  free_from (suc fuel) p pa_end m = elim (leb (p + page_size) pa_end) [
    | true ↦ kfree p m >>= free_from fuel (p + page_size) pa_end
    | false ↦ returns m
  ]

  pub freerange : ℕ → ℕ → Kmem → Run Kmem
  freerange pa_start pa_end m =
      free_from (suc (pa_end / page_size)) (page_round_up pa_start) pa_end m

  unfoldable pub kinit : Kmem → Run Kmem
  unfolding freerange
  kinit m = freerange kernel_end phys_top m

-- The page, or 0 where there is none, and the allocator.
unfoldable pub kalloc : Kmem → ℕ × Kmem
kalloc m =
    if m.freelist == 0
    then (0, m)
    else (m.freelist, fill_page m.freelist 5 (record m { freelist = m.link m.freelist }))
