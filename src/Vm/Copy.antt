-- ===== src/Vm/Copy.antt =====
-- kernel/vm.c: copies between the kernel and the memory of a process.
--
-- `mem` is the physical memory, byte by byte. The buffer of the kernel is a function from its indices or
-- the list of its bytes, and is no page of the process.
pub mod Pages
pub mod Out
pub mod In
pub mod Apart
pub mod Strings
mod Tests
use csse_332_final.Base.{
  ℕ, zero, suc, ◌+◌, ◌-◌, ◌*◌, ◌/◌, ◌%◌, ◌^◌, min, Bool, true, false, not, ◌&&◌, List, [], ◌∷◌,
  ◌++◌, leb, ltb, ◌==◌, if◌then◌else◌,
}
use csse_332_final.Kalloc.{page_size}
use csse_332_final.Vm.{Vm, page_round_down, walkaddr}

-- `n = PGSIZE - (va - va0)`, and `len` at most
abbrev pub piece : ℕ → ℕ → ℕ
piece va len = min (page_size - (va - page_round_down va)) len

-- `memmove` of `n` bytes, from index `i` of the buffer to address `a`
pub put_bytes : (ℕ → ℕ) → ℕ → (ℕ → ℕ) → ℕ → ℕ → ℕ → ℕ
put_bytes mem a src i n x = if leb a x && ltb x (a + n) then src (i + (x - a)) else mem x

-- The `n` bytes from address `a` on.
pub get_bytes : (ℕ → ℕ) → ℕ → ℕ → List ℕ
get_bytes mem a zero = []
get_bytes mem a (suc n) = mem a ∷ get_bytes mem (a + 1) n

-- The inner loop of `copyinstr`: `n` bytes from `p` on, or up to the end of the string.
pub copy_string : (ℕ → ℕ) → ℕ → ℕ → List ℕ → Bool × List ℕ
copy_string mem p zero got = (false, got)
copy_string mem p (suc n) got =
    let rest = copy_string mem (p + 1) n (got ++ mem p ∷ []) in
    if mem p == 0 then (true, got ++ 0 ∷ []) else rest

module _ (pagetable : ℕ) (s : Vm) where
  -- The page of an address, and the address in memory.
  abbrev pub page : ℕ → ℕ
  page va = walkaddr pagetable (page_round_down va) s

  abbrev pub place : ℕ → ℕ
  place va = page va + (va - page_round_down va)

  -- The loop of `copyout`; `false` is -1. Each round copies a byte at least, so that `len` rounds of fuel
  -- are enough.
  pub copyout_from : ℕ → ℕ → (ℕ → ℕ) → ℕ → ℕ → (ℕ → ℕ) → Bool × (ℕ → ℕ)
  copyout_from zero dstva src i len mem = (true, mem)
  copyout_from (suc fuel) dstva src i len mem = elim (len == 0) [
    | true ↦ (true, mem)
    | false ↦ elim (page dstva == 0) [
      | true ↦ (false, mem)
      | false ↦
          copyout_from fuel ((page_round_down dstva + page_size) % 2 ^ 64) src (i + piece dstva len)
            (len - piece dstva len) (put_bytes mem (place dstva) src i (piece dstva len))
    ]
  ]

  pub copyout : ℕ → (ℕ → ℕ) → ℕ → (ℕ → ℕ) → Bool × (ℕ → ℕ)
  copyout dstva src len mem = copyout_from len dstva src 0 len mem

  -- The loop of `copyin`, with what has been copied.
  pub copyin_from : ℕ → ℕ → ℕ → List ℕ → (ℕ → ℕ) → Bool × List ℕ
  copyin_from zero srcva len got mem = (true, got)
  copyin_from (suc fuel) srcva len got mem = elim (len == 0) [
    | true ↦ (true, got)
    | false ↦ elim (page srcva == 0) [
      | true ↦ (false, got)
      | false ↦
          copyin_from fuel ((page_round_down srcva + page_size) % 2 ^ 64) (len - piece srcva len)
            (got ++ get_bytes mem (place srcva) (piece srcva len)) mem
    ]
  ]

  pub copyin : ℕ → ℕ → (ℕ → ℕ) → Bool × List ℕ
  copyin srcva len mem = copyin_from len srcva len [] mem

  -- The outer loop, with what has been copied; `false` is -1.
  pub copyinstr_from : ℕ → ℕ → ℕ → List ℕ → (ℕ → ℕ) → Bool × List ℕ
  copyinstr_from zero srcva max got mem = (false, got)
  copyinstr_from (suc fuel) srcva max got mem = elim (max == 0) [
    | true ↦ (false, got)
    | false ↦ elim (page srcva == 0) [
      | true ↦ (false, got)
      | false ↦
          let piece_copied = copy_string mem (place srcva) (piece srcva max) got in
          elim piece_copied.0 [
            | true ↦ (true, piece_copied.1)
            | false ↦
                copyinstr_from fuel ((page_round_down srcva + page_size) % 2 ^ 64)
                  (max - piece srcva max) piece_copied.1 mem
          ]
    ]
  ]

  pub copyinstr : ℕ → ℕ → (ℕ → ℕ) → Bool × List ℕ
  copyinstr srcva max mem = copyinstr_from max srcva max [] mem

-- The bytes of the process from `va` on.
pub bytes_at : ℕ → Vm → (ℕ → ℕ) → ℕ → ℕ → List ℕ
bytes_at pagetable s mem va zero = []
bytes_at pagetable s mem va (suc n) =
    mem (place pagetable s va) ∷ bytes_at pagetable s mem (va + 1) n
