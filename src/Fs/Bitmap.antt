-- ===== src/Fs/Bitmap.antt =====
-- kernel/fs.c: the free map, `balloc`, `bzero` and `bfree`.
pub mod Bits
pub mod Marks
pub mod Search
pub mod Alloc
use Prim.Native.Nat.{bit_and, bit_or}
use csse_332_final.Base.{
  ℕ, zero, suc, ◌+◌, ◌-◌, ◌/◌, ◌%◌, ◌^◌, min, Bool, true, false, not, Option, none, some, Run,
  returns, panics, ltb, ◌==◌, if◌then◌else◌, update,
}
use csse_332_final.Fs.{Superblock, Block, Blocks, bpb, bblock}

-- `(bp->data[bi/8] & m) == 0` with `m = 1 << (bi % 8)`, and the two assignments
unfoldable pub is_free : Block → ℕ → Bool
is_free a bi = bit_and (a (bi / 8)) (2 ^ (bi % 8)) == 0

pub set_bit : Block → ℕ → Block
set_bit a bi = update a (bi / 8) (bit_or (a (bi / 8)) (2 ^ (bi % 8)))

pub clear_bit : Block → ℕ → Block
clear_bit a bi = update a (bi / 8) (bit_and (a (bi / 8)) (255 - 2 ^ (bi % 8)))

pub bzero : ℕ → Blocks → Blocks
bzero bno d = update d bno (λ i. 0)

-- The inner loop of `balloc`, with `k` bits left from `bi` on.
unfoldable pub find_bit : Block → ℕ → ℕ → Option ℕ
find_bit a zero bi = none
find_bit a (suc k) bi = let rest = find_bit a k (bi + 1) in if is_free a bi then some bi else rest

-- The outer loop, from block `b` on: the block to take. It goes on by `bpb` blocks a round.
unfoldable pub find_free : Superblock → ℕ → ℕ → Blocks → Option ℕ
find_free sb zero b d = none
find_free sb (suc fuel) b d =
    let rest = find_free sb fuel (b + bpb) d in
    if ltb b sb.size
    then elim (find_bit (d (bblock b sb)) (min bpb (sb.size - b)) 0) [
      | none ↦ rest
      | some bi ↦ some (b + bi)
    ]
    else none

pub mark : Superblock → ℕ → Blocks → Blocks
mark sb b d = update d (bblock b sb) (set_bit (d (bblock b sb)) (b % bpb))

-- 0 where no block is free
unfoldable pub balloc : Superblock → Blocks → ℕ × Blocks
balloc sb d = elim (find_free sb (suc (sb.size / bpb)) 0 d) [
  | none ↦ (0, d)
  | some b ↦ (b, bzero b (mark sb b d))
]

pub bfree : Superblock → ℕ → Blocks → Run Blocks
bfree sb b d =
    if is_free (d (bblock b sb)) (b % bpb)
    then panics "freeing free block"
    else returns (update d (bblock b sb) (clear_bit (d (bblock b sb)) (b % bpb)))
