-- ===== src/Log/Loops.antt =====
-- The loops over the log header in kernel/log.c: what `write_head` lays down, `read_head` reads.
use csse_332_final.Base.{
  ℕ, zero, suc, ◌+◌, ◌≤◌, ◌<◌, ◌≡◌, refl, ◌∙◌, ◌≢◌, ◌⊎◌, inl, inr, arith, ◌==◌, Bool-cases, ==_iff,
  update, update_self, update-ne, ℕ_discrete,
}
use csse_332_final.Log.{Log, Block, read_blocks, write_blocks, head_block, find_block}

-- Words that the loop has passed, and word 0, keep their value.
write_blocks-keeps :
    (f : ℕ → ℕ) (k i j : ℕ) (head : Block) → j ≤ i → write_blocks f k i head j ≡ head j
unfolding write_blocks
write_blocks-keeps f zero i j head h = refl
write_blocks-keeps f (suc k) i j head h =
    write_blocks-keeps f k (i + 1) j (update head (i + 1) (f i)) (omega arith)
    ∙ update-ne head (i + 1) (f i) (omega arith)

write_blocks-writes :
    (f : ℕ → ℕ) (k i j : ℕ) (head : Block)
    → i ≤ j
    → j < i + k
    → write_blocks f k i head (j + 1) ≡ f j
unfolding write_blocks
write_blocks-writes f zero i j head h l = absurd (omega arith)
write_blocks-writes f (suc k) i j head h l = elim (ℕ_discrete i j) [
  | yes e ↦
      write_blocks-keeps f k (i + 1) (j + 1) (update head (i + 1) (f i)) (omega arith)
      ∙ ground (arith, e)
  | no ne ↦
      write_blocks-writes f k (i + 1) j (update head (i + 1) (f i)) (omega arith) (omega arith)
]

pub head_block-count : (lg : Log) (old : Block) → head_block lg old 0 ≡ lg.n
head_block-count lg old =
    write_blocks-keeps lg.block lg.n 0 0 (update old 0 lg.n) (omega arith)
    ∙ update_self old 0 lg.n refl

pub head_block-names :
    (lg : Log) (old : Block) (i : ℕ) → i < lg.n → head_block lg old (i + 1) ≡ lg.block i
head_block-names lg old i h =
    write_blocks-writes lg.block lg.n 0 i (update old 0 lg.n) (omega arith) (omega arith)

read_blocks-keeps : (head : Block) (k i j : ℕ) (f : ℕ → ℕ) → j < i → read_blocks head k i f j ≡ f j
unfolding read_blocks
read_blocks-keeps head zero i j f h = refl
read_blocks-keeps head (suc k) i j f h =
    read_blocks-keeps head k (i + 1) j (update f i (head (i + 1))) (omega arith)
    ∙ update-ne f i (head (i + 1)) (omega arith)

pub read_blocks-reads :
    (head : Block) (k i j : ℕ) (f : ℕ → ℕ)
    → i ≤ j
    → j < i + k
    → read_blocks head k i f j ≡ head (j + 1)
unfolding read_blocks
read_blocks-reads head zero i j f h l = absurd (omega arith)
read_blocks-reads head (suc k) i j f h l = elim (ℕ_discrete i j) [
  | yes e ↦
      read_blocks-keeps head k (i + 1) j (update f i (head (i + 1))) (omega arith)
      ∙ ground (arith, e)
  | no ne ↦
      read_blocks-reads head k (i + 1) j (update f i (head (i + 1))) (omega arith) (omega arith)
]

-- A block is among the first `n` names, or differs from all of them.
pub named_or_not :
    (f : ℕ → ℕ) (b n : ℕ) → ((i : ℕ) × (i < n) × (f i ≡ b)) ⊎ ((i : ℕ) → i < n → f i ≢ b)
named_or_not f b zero = inr (λ i h. absurd (omega arith))
named_or_not f b (suc n) = elim (ℕ_discrete (f n) b) [
  | yes e ↦ inl (n, omega arith, e)
  | no ne ↦ elim (named_or_not f b n) [
    | inl (i, h, e) ↦ inl (i, omega arith, e)
    | inr others ↦ inr (λ i h e. elim (ℕ_discrete i n) [
      | yes last ↦ ne (ground (arith, last, e))
      | no before ↦ others i (omega arith) e
    ])
  ]
]

-- `find_block` stops at the first place that holds `b`, or at the end.
pub find_block_lem :
    (f : ℕ → ℕ) (b k i : ℕ)
    → (i ≤ find_block f b k i)
      × (find_block f b k i ≤ i + k)
      × (find_block f b k i < i + k → f (find_block f b k i) ≡ b)
      × (find_block f b k i ≡ i + k → (j : ℕ) → i ≤ j → j < i + k → f j ≢ b)
unfolding find_block
find_block_lem f b zero i =
    (omega arith, omega arith, λ h. absurd (omega arith), λ e j h l. absurd (omega arith))
find_block_lem f b (suc k) i = elim (Bool-cases (f i == b)) [
  | inl here ↦
      rw here
        (omega arith, omega arith, λ h. (==_iff (f i) b).0 here, λ e j h l. absurd (omega arith))
  | inr there ↦
      let ih = find_block_lem f b k (i + 1) in
      rw there (
        omega arith,
        omega arith,
        λ h. ih.2 (omega arith),
        λ e j h l. elim (ℕ_discrete i j) [
          | yes same ↦ λ q. ground (arith, same, there, q)
          | no ne ↦ ih.3 (omega arith) j (omega arith) (omega arith)
        ],
      )
]
