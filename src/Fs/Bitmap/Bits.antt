-- ===== src/Fs/Bitmap/Bits.antt =====
-- kernel/fs.c: the bits of a byte, checked over all bytes.
use Prim.Native.Nat.{bit_and, bit_or}
use csse_332_final.Base.{
  ℕ, zero, suc, ◌-◌, ◌^◌, ◌<◌, ◌≡◌, refl, Bool, true, false, ◌&&◌, not, arith, ltb, ltb→lt, ◌==◌,
  if◌then◌else◌, ℕ_discrete, subst,
}

and_left : (a b : Bool) → (a && b) ≡ true → a ≡ true
and_left true b h = refl
and_left false b h = h

and_right : (a b : Bool) → (a && b) ≡ true → b ≡ true
and_right true b h = h
and_right false b h = cc

-- The test holds of each number less than the second argument.
upto : (ℕ → Bool) → ℕ → Bool
upto test zero = true
upto test (suc last) = upto test last && test last

upto_lem : (test : ℕ → Bool) (bound m : ℕ) → m < bound → upto test bound ≡ true → test m ≡ true
unfolding upto
upto_lem test zero m h e = absurd (omega arith)
upto_lem test (suc last) m h e = elim (ℕ_discrete last m) [
  | yes here ↦ subst (λ i. test i ≡ true) here (and_right (upto test last) (test last) e)
  | no below ↦ upto_lem test last m (omega arith) (and_left (upto test last) (test last) e)
]

abbrev iff : Bool → Bool → Bool
iff true b = b
iff false b = not b

abbrev is_off : ℕ → ℕ → Bool
is_off v j = bit_and v (2 ^ j) == 0

-- Bit `k` is set, or cleared, and bit `j` is then read.
abbrev sets : ℕ → ℕ → ℕ → Bool
sets v k j =
    let w = bit_or v (2 ^ k) in ltb w 256 && iff (is_off w j) (if k == j then false else is_off v j)

abbrev clears : ℕ → ℕ → ℕ → Bool
clears v k j =
    let w = bit_and v (255 - 2 ^ k) in
    ltb w 256 && iff (is_off w j) (if k == j then true else is_off v j)

abbrev bit_test : ℕ → ℕ → ℕ → Bool
bit_test v k j = sets v k j && clears v k j

table : upto (λ v. upto (λ k. upto (λ j. bit_test v k j) 8) 8) 256 ≡ true
unfolding upto
table = refl

iff_eq : (a b : Bool) → iff a b ≡ true → a ≡ b
iff_eq true true h = refl
iff_eq true false h = cc
iff_eq false true h = cc
iff_eq false false h = refl

entry : (v k j : ℕ) → v < 256 → k < 8 → j < 8 → bit_test v k j ≡ true
entry v k j hv hk hj =
    let byte_row = upto_lem (λ v. upto (λ k. upto (bit_test v k) 8) 8) 256 v hv table in
    upto_lem (bit_test v k) 8 j hj (upto_lem (λ k. upto (bit_test v k) 8) 8 k hk byte_row)

pub set_bits :
    (v k j : ℕ)
    → v < 256
    → k < 8
    → j < 8
    → (bit_or v (2 ^ k) < 256)
      × ((bit_and (bit_or v (2 ^ k)) (2 ^ j) == 0)
          ≡ (if k == j then false else bit_and v (2 ^ j) == 0))
set_bits v k j hv hk hj =
    let e = and_left (sets v k j) (clears v k j) (entry v k j hv hk hj) in
    (
      ltb→lt (bit_or v (2 ^ k)) 256 (and_left (ltb (bit_or v (2 ^ k)) 256) _ e),
      iff_eq (is_off (bit_or v (2 ^ k)) j) _ (and_right (ltb (bit_or v (2 ^ k)) 256) _ e),
    )

pub clear_bits :
    (v k j : ℕ)
    → v < 256
    → k < 8
    → j < 8
    → (bit_and v (255 - 2 ^ k) < 256)
      × ((bit_and (bit_and v (255 - 2 ^ k)) (2 ^ j) == 0)
          ≡ (if k == j then true else bit_and v (2 ^ j) == 0))
clear_bits v k j hv hk hj =
    let e = and_right (sets v k j) (clears v k j) (entry v k j hv hk hj) in
    (
      ltb→lt (bit_and v (255 - 2 ^ k)) 256 (and_left (ltb (bit_and v (255 - 2 ^ k)) 256) _ e),
      iff_eq (is_off (bit_and v (255 - 2 ^ k)) j) _
          (and_right (ltb (bit_and v (255 - 2 ^ k)) 256) _ e),
    )
