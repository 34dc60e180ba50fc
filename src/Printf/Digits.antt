-- ===== src/Printf/Digits.antt =====
-- kernel/printf.c: the digits of a number are read back, and how many they are.
use csse_332_final.Base.{
  ℕ, zero, suc, ◌+◌, ◌-◌, ◌*◌, ◌/◌, ◌%◌, ◌^◌, ◌≤◌, ◌<◌, ◌≡◌, refl, ◌∙◌, sym, ap, true, ◌&&◌, arith,
  List, [], ◌∷◌, length, leb, ◌==◌, ==_eq, ==_ne, Bool-cases, inl, inr, if◌then◌else◌, ℕ_discrete,
}
use csse_332_final.Printf.{digit, put_digits, printint, atoi_from, atoi}

power : ℕ → ℕ
power zero = 1
power (suc k) = 10 * power k

digit_lem : (v : ℕ) → v < 10 → digit v ≡ 48 + v
unfolding digit
digit_lem v l = ground arith

atoi_from-digit :
    (n v : ℕ) (buf : List ℕ)
    → v < 10
    → n * 10 + v < 2 ^ 32
    → atoi_from n (digit v ∷ buf) ≡ atoi_from (n * 10 + v) buf
unfolding atoi_from
atoi_from-digit n v buf l h =
    ap (λ c. if leb 48 c && leb c 57 then atoi_from ((n * 10 + (c - 48)) % 2 ^ 32) buf else n)
      (digit_lem v l)
    ∙ ap (λ b. if b then atoi_from ((n * 10 + (48 + v - 48)) % 2 ^ 32) buf else n) in_range
    ∙ ap (λ m. atoi_from m buf) (omega arith)
  where
    in_range : (leb 48 (48 + v) && leb (48 + v) 57) ≡ true
    in_range = ground arith

-- Decimal digits that are put before `buf` are read back before it is.
atoi_from-put_digits :
    (k x : ℕ) (buf : List ℕ)
    → x < 2 ^ 32
    → x < power (suc k)
    → atoi_from 0 (put_digits 10 (suc k) x buf) ≡ atoi_from x buf
unfolding put_digits power
atoi_from-put_digits zero x buf h l =
    rw (==_eq (x / 10) 0 (omega (arith, l)), put_digits)
      (atoi_from-digit 0 (x % 10) buf (omega arith) (omega arith)
        ∙ ap (λ n. atoi_from n buf) (omega (arith, l)))
atoi_from-put_digits (suc k) x buf h l = elim (ℕ_discrete (x / 10) 0) [
  | yes z ↦
      rw (==_eq (x / 10) 0 z, put_digits)
        (atoi_from-digit 0 (x % 10) buf (omega arith) (omega arith)
          ∙ ap (λ n. atoi_from n buf) (omega (arith, z)))
  | no ne ↦
      rw (==_ne (x / 10) 0 ne, put_digits)
        (atoi_from-put_digits k (x / 10) (digit (x % 10) ∷ buf) (omega arith) (omega (arith, l))
          ∙ atoi_from-digit (x / 10) (x % 10) buf (omega arith) (omega arith)
          ∙ ap (λ n. atoi_from n buf) (omega arith))
]

length-put_digits :
    (k m x : ℕ) (buf : List ℕ)
    → x < power (suc m)
    → length (put_digits 10 (suc k) x buf) ≤ suc m + length buf
unfolding put_digits power
length-put_digits zero m x buf l = elim (Bool-cases (x / 10 == 0)) [
  | inl e ↦ rw e (omega arith)
  | inr e ↦ rw e (omega arith)
]
length-put_digits (suc k) zero x buf l =
    rw (==_eq (x / 10) 0 (omega (arith, l)), put_digits) (omega arith)
length-put_digits (suc k) (suc m) x buf l = elim (Bool-cases (x / 10 == 0)) [
  | inl e ↦ rw (e, put_digits) (omega arith)
  | inr e ↦
      rw (e, put_digits)
        (omega (arith, length-put_digits k m (x / 10) (digit (x % 10) ∷ buf) (omega (arith, l))))
]

-- The first byte that is printed is a digit.
put_digits_first :
    (k x : ℕ) (buf : List ℕ)
    → (v : ℕ) × (rest : List ℕ) × (v < 10) × (put_digits 10 (suc k) x buf ≡ ((48 + v) ∷ rest))
unfolding put_digits
put_digits_first zero x buf = elim (ℕ_discrete (x / 10) 0) [
  | yes z ↦
      rw (==_eq (x / 10) 0 z)
        (x % 10, buf, omega arith, ap (λ c. c ∷ buf) (digit_lem (x % 10) (omega arith)))
  | no ne ↦
      rw (==_ne (x / 10) 0 ne)
        (x % 10, buf, omega arith, ap (λ c. c ∷ buf) (digit_lem (x % 10) (omega arith)))
]
put_digits_first (suc k) x buf = elim (ℕ_discrete (x / 10) 0) [
  | yes z ↦
      rw (==_eq (x / 10) 0 z)
        (x % 10, buf, omega arith, ap (λ c. c ∷ buf) (digit_lem (x % 10) (omega arith)))
  | no ne ↦
      rw (==_ne (x / 10) 0 ne, put_digits) (put_digits_first k (x / 10) (digit (x % 10) ∷ buf))
]

put_digits-back : (x : ℕ) → x < 2 ^ 32 → atoi_from 0 (put_digits 10 32 x []) ≡ x
unfolding power atoi_from
put_digits-back x h = atoi_from-put_digits 31 x [] h (omega arith)

put_digits-short : (x : ℕ) → x < 2 ^ 32 → length (put_digits 10 32 x []) ≤ 10
unfolding power
put_digits-short x h = omega (arith, length-put_digits 31 9 x [] (omega arith))

-- The `int` that a text stands for, as 32 bits: `atoi` reads no sign.
pub int_of : List ℕ → ℕ
int_of [] = 0
int_of (c ∷ cs) = if c == 45 then (2 ^ 32 - atoi cs) % 2 ^ 32 else atoi (c ∷ cs)

positive : (x : ℕ) → x < 2 ^ 32 → int_of (put_digits 10 32 x []) ≡ x
unfolding int_of atoi
positive x h =
    let (v, rest, l, e) = put_digits_first 31 x [] in
    ap int_of e ∙ unsigned v rest l ∙ ap (atoi_from 0) (sym e) ∙ put_digits-back x h
  where
    unsigned :
        (v : ℕ) (rest : List ℕ) → v < 10 → int_of ((48 + v) ∷ rest) ≡ atoi_from 0 ((48 + v) ∷ rest)
    unsigned v rest l = rw (==_ne (48 + v) 45 (omega arith)) refl

-- What `%d` prints for an `int` is read back as it: `atoi` gives the number that is not negative, and
-- behind the minus sign the size of a negative one. With its sign it has 11 bytes at most, which the
-- 16 bytes of `buf` can hold.
pub printint_reads :
    (xx : ℕ)
    → xx < 2 ^ 32
    → (int_of (printint xx 10 true) ≡ xx) × (length (printint xx 10 true) ≤ 11)
unfolding printint int_of atoi
printint_reads xx h = elim (Bool-cases (leb (2 ^ 31) xx)) [
  | inr e ↦ rw e (positive xx h, omega (arith, put_digits-short xx h))
  | inl e ↦
      let l : 2 ^ 31 ≤ xx = ground arith in
      rw e (
        ap (λ m. (2 ^ 32 - m) % 2 ^ 32) (put_digits-back (2 ^ 32 - xx) (omega arith)) ∙ omega arith,
        omega (arith, put_digits-short (2 ^ 32 - xx) (omega arith)),
      )
]
