-- ===== src/Vm/Space.antt =====
-- kernel/vm.c: the pages of a process, which grow and shrink from address 0 up.
--
-- The contents of the pages, which `uvmalloc` clears, are not part of it.
pub mod Pages
pub mod Remove
pub mod Add
pub mod Sizes
pub mod Rounds
pub mod Growth
pub mod Tests
use Prim.Native.Nat.{bit_or}
use csse_332_final.Base.{
  ℕ, zero, suc, ◌+◌, ◌-◌, ◌*◌, ◌/◌, ◌%◌, ◌^◌, Bool, true, false, not, Run, returns, panics, ◌>>=◌,
  ltb, leb, ◌==◌, if◌then◌else◌,
}
use csse_332_final.Kalloc.{page_size, Kmem, kalloc, kfree}
use csse_332_final.Vm.{Vm, zero_table, mappages, uvmunmap}

-- `PGROUNDUP` on `uint64`
abbrev pub page_up : ℕ → ℕ
page_up sz = (sz + page_size - 1) % 2 ^ 64 / page_size * page_size

-- 0 where no page is free
pub uvmcreate : Vm → ℕ × Vm
uvmcreate s = if (kalloc s.kmem).0 == 0 then (0, record s { kmem = (kalloc s.kmem).1 }) else (
  (kalloc s.kmem).0,
  record { tables = zero_table s.tables (kalloc s.kmem).0; kmem = (kalloc s.kmem).1 },
)

module _ (kernel_end pagetable : ℕ) where
  -- The new size, and the tables.
  pub uvmdealloc : ℕ → ℕ → Vm → Run (ℕ × Vm)
  uvmdealloc oldsz newsz s =
      if leb oldsz newsz
      then returns (oldsz, s)
      else if ltb (page_up newsz) (page_up oldsz)
      then (uvmunmap kernel_end pagetable (page_up newsz)
            ((page_up oldsz - page_up newsz) / page_size) true s
          >>= λ s1. returns (newsz, s1))
      else returns (newsz, s)

  -- What `uvmalloc` does where it cannot go on: the pages from `oldsz` on are given back.
  pub give_up : ℕ → ℕ → Vm → Run (ℕ × Vm)
  give_up a oldsz s = uvmdealloc a oldsz s >>= λ (out : ℕ × Vm). returns (0, out.1)

  -- The loop of `uvmalloc` from `a` on; `panics "fuel"` is a loop cut short.
  pub grow_from : ℕ → ℕ → ℕ → ℕ → ℕ → Vm → Run (ℕ × Vm)
  grow_from zero perm a oldsz newsz s = panics "fuel"
  grow_from (suc fuel) perm a oldsz newsz s = elim (ltb a newsz) [
    | false ↦ returns (newsz, s)
    | true ↦ elim ((kalloc s.kmem).0 == 0) [
      | true ↦ give_up a oldsz (record s { kmem = (kalloc s.kmem).1 })
      | false ↦
          elim (mappages pagetable a page_size (kalloc s.kmem).0 perm
            (record s { kmem = (kalloc s.kmem).1 })) [
              | panics e ↦ panics e
              | returns (true, s1) ↦ grow_from fuel perm (a + page_size) oldsz newsz s1
              | returns (false, s1) ↦ kfree kernel_end (kalloc s.kmem).0 s1.kmem >>= λ m.
                  give_up a oldsz (record s1 { kmem = m })
            ]
    ]
  ]

  -- `PTE_R|PTE_U|xperm`; 0 is an error.
  pub uvmalloc : ℕ → ℕ → ℕ → Vm → Run (ℕ × Vm)
  uvmalloc oldsz newsz xperm s =
      if ltb newsz oldsz
      then returns (oldsz, s)
      else grow_from (newsz / page_size + 2) (bit_or 18 xperm) (page_up oldsz) (page_up oldsz) newsz
          s
