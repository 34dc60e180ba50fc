-- ===== src/Audit/Whitelist.antt =====
-- kernel/syscall.c: which calls an `audit` call can put on the whitelist.
use csse_332_final.Base.{
  ℕ, zero, suc, ◌+◌, ◌-◌, ◌/◌, ◌%◌, ◌^◌, ◌≤◌, ◌<◌, ◌≡◌, ◌∙◌, ◌&&◌, arith, ltb, leb, ◌==◌,
  if◌then◌else◌, length, get_or, set, length-set, get_or-set, Bool-cases, inl, inr, lt→leb, leb→le,
  ap, sym, ℕ_discrete, dec_lt, lt→ltb, ==_ne, ◌⊎◌, ◌≢◌, Option, List,
}
use csse_332_final.Audit.{
  Kernel, Lines, record_call, Table, store_cell, num_sys_calls, parse_from, parse_audit,
}

-- `(n >> k) & 1`
abbrev pub bit : ℕ → ℕ → ℕ
bit zero n = n % 2
bit (suc k) n = bit k (n / 2)

abbrev cell : Table → ℕ → ℕ
cell t j = get_or t.whitelisted j 0

-- one round of the parsing loop
round : ℕ → ℕ → Table → Table
round i num t =
    let t' = store_cell i 0 t in if num % 2 == 1 then store_cell (num_sys_calls - i) 1 t' else t'

length-round : (i num : ℕ) (t : Table) → length (round i num t).whitelisted ≡ length t.whitelisted
unfolding round
length-round i num t = ground (
  arith,
  length-set t.whitelisted i 0,
  length-set t.whitelisted (21 - i) 1,
  length-set (set t.whitelisted i 0) (21 - i) 1,
)

cell-round :
    (i num j : ℕ) (t : Table)
    → length t.whitelisted ≡ 21
    → i < 21
    → cell (round i num t) j
      ≡ (if num % 2 == 1 && 21 - i == j && ltb 0 i then 1 else if i == j then 0 else cell t j)
unfolding round
cell-round i num j t len h = ground (
  arith,
  length-set t.whitelisted i 0,
  get_or-set t.whitelisted i j 0 0,
  get_or-set (set t.whitelisted i 0) (21 - i) j 1 0,
)

-- What the rounds from `i` on leave in cell `j`: bit `21 - j` of the whole answer is bit
-- `21 - j - i` of what is left of it.
abbrev outcome : ℕ → ℕ → ℕ → ℕ → ℕ
outcome i num old j =
    if leb 1 j && leb j 10 && leb i (21 - j) && bit (21 - j - i) num == 1
    then 1
    else if leb i j
    then 0
    else old

outcome-last : (num old j : ℕ) → j < 21 → outcome 21 num old j ≡ old
outcome-last num old j h = elim (Bool-cases (leb 1 j)) [
  | inl pos ↦
      rw (pos, lt→leb 21 (21 - j) (omega (arith, leb→le 1 j pos)), lt→leb 21 j h) (ground arith)
  | inr first ↦ rw (first, lt→leb 21 j h)
]

outcome-next :
    (i num old j : ℕ)
    → i < 21
    → j < 21
    → outcome
        (i + 1)
        (num / 2)
        (if num % 2 == 1 && 21 - i == j && ltb 0 i then 1 else if i == j then 0 else old)
        j
      ≡ outcome i num old j
outcome-next i num old j h l = elim (ℕ_discrete (21 - j) i) [
  | yes e ↦ ground (arith, e, bit_at (21 - j - i) num (omega arith))
  | no ne ↦ elim (dec_lt i (21 - j)) [
    | yes before ↦ ground (arith, bit_next (21 - j - i) (21 - j - (i + 1)) num (omega arith))
    | no after ↦ ground arith
  ]
]
  where
    bit_at : (k n : ℕ) → k ≡ 0 → bit k n ≡ n % 2
    bit_at k n z = rw z

    bit_next : (k m n : ℕ) → k ≡ suc m → bit k n ≡ bit m (n / 2)
    bit_next k m n z = rw z

parse_from-cell :
    (k i num j : ℕ) (t : Table)
    → k + i ≡ 21
    → j < 21
    → length t.whitelisted ≡ 21
    → cell (parse_from k i num t) j ≡ outcome i num (cell t j) j
unfolding parse_from round
parse_from-cell zero i num j t e h len =
    let e' : i ≡ 21 = omega arith in rw e' (sym (outcome-last num (cell t j) j h))
parse_from-cell (suc k) i num j t e h len =
    parse_from-cell k (i + 1) (num / 2) j (round i num t) (omega arith) h
      (length-round i num t ∙ len)
    ∙ ap (λ old. outcome (i + 1) (num / 2) old j) (cell-round i num j t len (omega arith))
    ∙ outcome-next i num (cell t j) j (omega arith) h

bit-lt : (k n : ℕ) → bit k n < 2
bit-lt zero n = omega arith
bit-lt (suc k) n = bit-lt k (n / 2)

minus-zero : (k : ℕ) → k - 0 ≡ k
minus-zero k = omega arith

-- After an `audit` call that answered `a0`, cell `j` of the whitelist is bit `21 - j` of the answer
-- for `j` from 1 to 10. Cell 0 and the cells 11 to 20 are 0 whatever was asked for: a later round
-- resets them, or no round sets them.
pub parse_audit-whitelisted :
    (a0 j : ℕ) (t : Table)
    → length t.whitelisted ≡ num_sys_calls
    → j < num_sys_calls
    → get_or (parse_audit a0 t).whitelisted j 0
      ≡ (if leb 1 j && leb j 10 then bit (21 - j) (a0 % 2 ^ 32) else 0)
unfolding parse_audit
parse_audit-whitelisted a0 j t len h = ground (
  arith,
  parse_from-cell 21 0 (a0 % 2 ^ 32) j t (omega arith) h len,
  minus-zero (21 - j),
  bit-lt (21 - j) (a0 % 2 ^ 32),
)

record_call-off :
    {W F : Type 0} (kernel : Kernel W F) (behind_names : List ℕ) (num : ℕ) (f : Option F) (w : W)
    (t : Table) (l : Lines)
    → num - 1 < 21
    → num ≢ 22
    → cell t (num - 1) ≡ 0
    → record_call kernel behind_names num f w t l ≡ l
unfolding record_call
record_call-off kernel behind_names num f w t l h ne e =
    rw (lt→ltb (num - 1) 21 h, e, ==_ne num 22 ne)

-- After any `audit` call, `fork` and the calls numbered 12 to 21 leave no trace in the log, however
-- the bits of the call were set.
pub record_call_never :
    {W F : Type 0} (kernel : Kernel W F) (behind_names : List ℕ) (a0 num : ℕ) (f : Option F) (w : W)
    (t : Table) (l : Lines)
    → length t.whitelisted ≡ num_sys_calls
    → (num ≡ 1) ⊎ (12 ≤ num)
    → num ≤ num_sys_calls
    → record_call kernel behind_names num f w (parse_audit a0 t) l ≡ l
record_call_never kernel behind_names a0 num f w t l len which top =
    record_call-off kernel behind_names num f w (parse_audit a0 t) l (omega arith) (omega arith)
      (parse_audit-whitelisted a0 (num - 1) t len (omega arith) ∙ off which)
  where
    off :
        (num ≡ 1) ⊎ (12 ≤ num)
        → (if leb 1 (num - 1) && leb (num - 1) 10 then bit (21 - (num - 1)) (a0 % 2 ^ 32) else 0)
          ≡ 0
    off (inl e) = rw e
    off (inr h) = rw (lt→leb (num - 1) 10 (omega arith)) (ground arith)
