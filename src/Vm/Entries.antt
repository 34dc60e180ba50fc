-- ===== src/Vm/Entries.antt =====
-- kernel/riscv.h: an entry holds the address and the flags that it is made of.
use Prim.Native.Nat.{bit_or, digits, max, bit_or-bitwise}
use csse_332_final.Base.{
  ℕ, zero, suc, ◌+◌, ◌*◌, ◌/◌, ◌%◌, ◌^◌, ◌≤◌, ◌<◌, ◌≡◌, refl, ◌∙◌, sym, ap, ap₂, arith,
}
use csse_332_final.Vm.{pa2pte, pte2pa, pte_flags, make_pte}

-- `bit_or`, with as many rounds as the first argument says.
abbrev or_rounds : ℕ → ℕ → ℕ → ℕ
or_rounds = digits (λ r. r) max

or_rounds_enough : (k l v w : ℕ) → v ≤ k → v ≤ l → or_rounds k v w ≡ or_rounds l v w
or_rounds_enough k l zero w h g = none_left k ∙ sym (none_left l)
  where
    none_left : (n : ℕ) → or_rounds n zero w ≡ w
    none_left zero = refl
    none_left (suc n) = refl
or_rounds_enough zero l (suc v) w h g = absurd (omega arith)
or_rounds_enough (suc k) zero (suc v) w h g = absurd (omega arith)
or_rounds_enough (suc k) (suc l) (suc v) w h g =
    ap (λ r. r * 2 + max (suc v % 2) (w % 2))
      (or_rounds_enough k l (suc v / 2) (w / 2) (omega arith) (omega arith))

bit_or_step : (v w : ℕ) → bit_or v w ≡ bit_or (v / 2) (w / 2) * 2 + max (v % 2) (w % 2)
bit_or_step zero w = omega (arith, bit_or-bitwise 0 w, bit_or-bitwise 0 (w / 2))
bit_or_step (suc v) w =
    bit_or-bitwise (suc v) w
    ∙ ap (λ r. r * 2 + max (suc v % 2) (w % 2))
        (or_rounds_enough v (suc v / 2) (suc v / 2) (w / 2) (omega arith) (omega arith)
          ∙ sym (bit_or-bitwise (suc v / 2) (w / 2)))

bit_or-zero : (k v : ℕ) → v ≤ k → bit_or v 0 ≡ v
bit_or-zero k zero h = bit_or-bitwise 0 0
bit_or-zero zero (suc v) h = absurd (omega arith)
bit_or-zero (suc k) (suc v) h =
    omega (arith, bit_or_step (suc v) 0, bit_or-zero k (suc v / 2) (omega arith))

-- `k` with `n` zero bits behind it.
shifted : ℕ → ℕ → ℕ
shifted zero k = k
shifted (suc n) k = 2 * shifted n k

-- Bits that are put where the other number has none are added.
bit_or-shifted : (n k w : ℕ) → w < shifted n 1 → bit_or (shifted n k) w ≡ shifted n k + w
unfolding shifted
bit_or-shifted zero k w h =
    let z : w ≡ 0 = omega arith in ap (bit_or k) z ∙ bit_or-zero k k (omega arith) ∙ omega arith
bit_or-shifted (suc n) k w h =
    let half : 2 * shifted n k / 2 ≡ shifted n k = omega arith in
    bit_or_step (2 * shifted n k) w
    ∙ ap (λ v. bit_or v (w / 2) * 2 + max (2 * shifted n k % 2) (w % 2)) half
    ∙ omega (arith, bit_or-shifted n k (w / 2) (omega arith))

bit_or-flags : (k w : ℕ) → w < 2 ^ 10 → bit_or (k * 2 ^ 10) w ≡ k * 2 ^ 10 + w
unfolding shifted
bit_or-flags k w h =
    ap (λ v. bit_or v w) at ∙ bit_or-shifted 10 k w (omega arith) ∙ ap (λ v. v + w) (sym at)
  where
    at : k * 2 ^ 10 ≡ shifted 10 k
    at = omega arith

bit_or-one : (v : ℕ) → bit_or v 1 ≡ v / 2 * 2 + 1
bit_or-one v = omega (arith, bit_or_step v 1, bit_or-zero (v / 2) (v / 2) (omega arith))

-- A page below 2 ^ 56.
abbrev pub IsFrame : ℕ → Type 0
IsFrame pa = (pa % 4096 ≡ 0) × (pa < 2 ^ 56)

pa2pte_lem : (pa : ℕ) → IsFrame pa → pa2pte pa ≡ pa / 2 ^ 12 * 2 ^ 10
pa2pte_lem pa f = omega (arith, f.0, f.1)

-- The entry for a page, with flags, as a sum.
pub make_pte_lem :
    (pa perm : ℕ)
    → IsFrame pa
    → perm < 2 ^ 10
    → make_pte pa perm ≡ pa / 2 ^ 12 * 2 ^ 10 + (perm / 2 * 2 + 1)
unfolding make_pte
make_pte_lem pa perm f h =
    ap (λ e. bit_or (bit_or e perm) 1) (pa2pte_lem pa f)
    ∙ ap (λ e. bit_or e 1) (bit_or-flags (pa / 2 ^ 12) perm h)
    ∙ bit_or-one (pa / 2 ^ 12 * 2 ^ 10 + perm)
    ∙ omega arith

-- The entry of a table.
pub table_pte_lem : (pa : ℕ) → IsFrame pa → bit_or (pa2pte pa) 1 ≡ pa / 2 ^ 12 * 2 ^ 10 + 1
table_pte_lem pa f =
    ap (λ e. bit_or e 1) (pa2pte_lem pa f) ∙ bit_or-flags (pa / 2 ^ 12) 1 (omega arith)

-- What an entry was made of is read back: it is valid, and has the page and the other flags.
pub make_pte-reads :
    (pa perm : ℕ)
    → IsFrame pa
    → perm < 2 ^ 10
    → (pte2pa (make_pte pa perm) ≡ pa)
      × (make_pte pa perm % 2 ≡ 1)
      × (pte_flags (make_pte pa perm) ≡ perm / 2 * 2 + 1)
make_pte-reads pa perm f h =
    let e = make_pte_lem pa perm f h in
    (omega (arith, e, f.0, f.1), omega (arith, e), omega (arith, e))

pub table_pte-reads :
    (pa : ℕ) → IsFrame pa → (pte2pa (bit_or (pa2pte pa) 1) ≡ pa) × (bit_or (pa2pte pa) 1 % 2 ≡ 1)
table_pte-reads pa f = let e = table_pte_lem pa f in (omega (arith, e, f.0, f.1), omega (arith, e))

or_below : (n v w : ℕ) → v < shifted n 1 → w < shifted n 1 → bit_or v w < shifted n 1
unfolding shifted
or_below zero v w h g =
    let zv : v ≡ 0 = omega arith in
    let zw : w ≡ 0 = omega arith in omega (arith, ap₂ bit_or zv zw, bit_or-zero 0 0 (omega arith))
or_below (suc n) v w h g =
    omega (arith, bit_or_step v w, or_below n (v / 2) (w / 2) (omega arith) (omega arith))

-- The flags of the pages of a process, `PTE_R|PTE_U|xperm`: they name a page that a user can read.
pub user_flags :
    (xperm : ℕ)
    → xperm < 2 ^ 10
    → (2 ≤ bit_or 18 xperm) × (bit_or 18 xperm < 2 ^ 10) × (bit_or 18 xperm / 16 % 2 ≡ 1)
unfolding shifted
user_flags x h =
    let s0 = bit_or_step 18 x in
    let s1 = bit_or_step 9 (x / 2) in
    let s2 = bit_or_step 4 (x / 2 / 2) in
    let s3 = bit_or_step 2 (x / 2 / 2 / 2) in
    let s4 = bit_or_step 1 (x / 2 / 2 / 2 / 2) in
    (
      omega (arith, s0, s1),
      or_below 10 18 x (omega arith) (omega (arith, h)),
      omega (arith, s0, s1, s2, s3, s4),
    )
