-- ===== src/Vm.antt =====
-- kernel/vm.c: page tables, with the entries and indices of kernel/riscv.h.
--
-- `tables` are the pages that are used as page tables, by their address and as 512 entries of 64 bits;
-- `kmem` is the allocator of kernel/kalloc.c, which holds the pages that are free. The address of an
-- entry is the page and the index in it. Addresses are `uint64`, written out where they may wrap.
pub mod Entries
pub mod Paths
pub mod Attach
pub mod Grow
pub mod Walk
pub mod Write
pub mod Map
pub mod Lookup
pub mod Space
pub mod Copy
pub mod Clear
mod Tests
use Prim.Native.Nat.{bit_or}
use csse_332_final.Base.{
  ℕ, zero, suc, ◌+◌, ◌-◌, ◌*◌, ◌/◌, ◌%◌, ◌^◌, Bool, true, false, not, ◌&&◌, Option, none, some,
  List, [], ◌∷◌, Run, returns, panics, ◌>>=◌, ltb, leb, ◌==◌, if◌then◌else◌, update,
}
use csse_332_final.Kalloc.{page_size, page_round_up, Kmem, kalloc, kfree}

-- 1L << 38
abbrev pub max_va : ℕ
max_va = 0x4000000000

abbrev pub page_round_down : ℕ → ℕ
page_round_down a = a / page_size * page_size

-- `PX(level, va)`
abbrev pub px : ℕ → ℕ → ℕ
px level va = va / 2 ^ (12 + 9 * level) % 512

abbrev pub pa2pte : ℕ → ℕ
pa2pte pa = pa / 2 ^ 12 * 2 ^ 10 % 2 ^ 64

abbrev pub pte2pa : ℕ → ℕ
pte2pa e = e / 2 ^ 10 * 2 ^ 12 % 2 ^ 64

-- `pte & 0x3FF`
abbrev pub pte_flags : ℕ → ℕ
pte_flags e = e % 2 ^ 10

-- the bits PTE_V, PTE_R, PTE_W, PTE_X and PTE_U
abbrev pub is_valid : ℕ → Bool
is_valid e = e % 2 == 1

abbrev pub is_user : ℕ → Bool
is_user e = e / 16 % 2 == 1

-- `pte & (PTE_R|PTE_W|PTE_X)` is 0
abbrev pub is_pointer : ℕ → Bool
is_pointer e = e / 2 % 8 == 0

-- `PA2PTE(pa) | perm | PTE_V`
unfoldable pub make_pte : ℕ → ℕ → ℕ
make_pte pa perm = bit_or (bit_or (pa2pte pa) perm) 1

abbrev pub Tables : Type 0
Tables = ℕ → ℕ → ℕ

pub record Vm : Type 0 where
  pub tables : Tables
  pub kmem : Kmem

abbrev pub set_entry : Tables → ℕ → ℕ → ℕ → Tables
set_entry t a i e = update t a (update (t a) i e)

abbrev pub zero_table : Tables → ℕ → Tables
zero_table t a = update t a (λ i. 0)

-- The loop of `walk`, `level` tables above the last: the address of the entry.
pub walk_from : Bool → ℕ → ℕ → ℕ → Vm → Option (ℕ × ℕ) × Vm
walk_from alloc zero va table s = (some (table, px 0 va), s)
walk_from alloc (suc level) va table s = elim (is_valid (s.tables table (px (suc level) va))) [
  | true ↦ walk_from alloc level va (pte2pa (s.tables table (px (suc level) va))) s
  | false ↦ elim alloc [
    | false ↦ (none, s)
    | true ↦ elim ((kalloc s.kmem).0 == 0) [
      | true ↦ (none, record s { kmem = (kalloc s.kmem).1 })
      | false ↦ walk_from true level va (kalloc s.kmem).0 (record {
        tables =
            set_entry (zero_table s.tables (kalloc s.kmem).0) table (px (suc level) va)
              (bit_or (pa2pte (kalloc s.kmem).0) 1);
        kmem = (kalloc s.kmem).1;
      })
    ]
  ]
]

pub walk : ℕ → ℕ → Bool → Vm → Run (Option (ℕ × ℕ) × Vm)
walk pagetable va alloc s =
    if leb max_va va then panics "walk" else returns (walk_from alloc 2 va pagetable s)

-- The entry for `va`, if the tables have one; a walk that allocates nothing changes nothing.
pub entry_at : ℕ → ℕ → Vm → Option ℕ
entry_at pagetable va s = elim (walk_from false 2 va pagetable s).0 [
  | none ↦ none
  | some (a, i) ↦ some (s.tables a i)
]

-- 0 where the page is not mapped for the user
pub walkaddr : ℕ → ℕ → Vm → ℕ
walkaddr pagetable va s = if leb max_va va then 0 else elim (entry_at pagetable va s) [
  | none ↦ 0
  | some e ↦ if not (is_valid e) then 0 else if not (is_user e) then 0 else pte2pa e
]

-- The loop of `mappages`, from `a` on; `false` is -1. `panics "fuel"` is a loop cut short.
pub map_from : ℕ → ℕ → ℕ → ℕ → ℕ → ℕ → Vm → Run (Bool × Vm)
map_from zero pagetable a last pa perm s = panics "fuel"
map_from (suc fuel) pagetable a last pa perm s = elim (walk pagetable a true s) [
  | panics e ↦ panics e
  | returns (none, s1) ↦ returns (false, s1)
  | returns (some (t, i), s1) ↦ elim (is_valid (s1.tables t i)) [
    | true ↦ panics "mappages: remap"
    | false ↦ elim (a == last) [
      | true ↦ returns (true, record s1 { tables = set_entry s1.tables t i (make_pte pa perm) })
      | false ↦
          map_from fuel pagetable ((a + page_size) % 2 ^ 64) last ((pa + page_size) % 2 ^ 64) perm
            (record s1 { tables = set_entry s1.tables t i (make_pte pa perm) })
    ]
  ]
]

-- `walk` panics before the loop has gone `max_va / page_size` rounds and one more.
pub mappages : ℕ → ℕ → ℕ → ℕ → ℕ → Vm → Run (Bool × Vm)
mappages pagetable va size pa perm s =
    if size == 0
    then panics "mappages: size"
    else map_from (suc (max_va / page_size)) pagetable (page_round_down va)
        (page_round_down ((va + size - 1) % 2 ^ 64)) pa perm s

pub kvmmap : ℕ → ℕ → ℕ → ℕ → ℕ → Vm → Run Vm
kvmmap kpgtbl va pa sz perm s = mappages kpgtbl va sz pa perm s >>= λ (out : Bool × Vm).
    (if out.0 then returns out.1 else panics "kvmmap")

-- The loop of `uvmunmap`, with `k` pages left from `a` on.
pub unmap_from : ℕ → Bool → ℕ → ℕ → ℕ → Vm → Run Vm
unmap_from kernel_end do_free pagetable zero a s = returns s
unmap_from kernel_end do_free pagetable (suc k) a s = elim (walk pagetable a false s) [
  | panics e ↦ panics e
  | returns (none, s1) ↦ panics "uvmunmap: walk"
  | returns (some (t, i), s1) ↦ elim (is_valid (s1.tables t i)) [
    | false ↦ panics "uvmunmap: not mapped"
    | true ↦ elim (pte_flags (s1.tables t i) == 1) [
      | true ↦ panics "uvmunmap: not a leaf"
      | false ↦
          elim (if do_free
            then kfree kernel_end (pte2pa (s1.tables t i)) s1.kmem
            else returns s1.kmem) [
              | panics e ↦ panics e
              | returns m ↦
                  unmap_from kernel_end do_free pagetable k (a + page_size)
                    (record { tables = set_entry s1.tables t i 0; kmem = m })
            ]
    ]
  ]
]

-- `va + npages*PGSIZE` does not wrap where the pages lie below `max_va`.
pub uvmunmap : ℕ → ℕ → ℕ → ℕ → Bool → Vm → Run Vm
uvmunmap kernel_end pagetable va npages do_free s =
    if not (va % page_size == 0)
    then panics "uvmunmap: not aligned"
    else unmap_from kernel_end do_free pagetable npages va s

-- `pte & ~PTE_U`
abbrev pub clear_user : ℕ → ℕ
clear_user e = if is_user e then e - 16 else e

pub uvmclear : ℕ → ℕ → Vm → Run Vm
uvmclear pagetable va s = elim (walk pagetable va false s) [
  | panics e ↦ panics e
  | returns (none, s1) ↦ panics "uvmclear"
  | returns (some (t, i), s1) ↦
      returns (record s1 { tables = set_entry s1.tables t i (clear_user (s1.tables t i)) })
]
