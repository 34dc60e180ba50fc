-- ===== src/Printf.antt =====
-- kernel/printf.c: formatted output, and `atoi` of user/ulib.c that reads numbers back.
--
-- What is printed is the list of the bytes that `consputc` gets. An `int` or `uint` is its 32 bits as a
-- number, a pointer its 64. The locking of `printf` is not part of it.
pub mod Digits
pub mod Format
mod Tests
use csse_332_final.Base.{
  ℕ, zero, suc, ◌+◌, ◌-◌, ◌*◌, ◌/◌, ◌%◌, ◌^◌, Bool, true, false, ◌&&◌, Option, none, some, List, [],
  ◌∷◌, ◌++◌, leb, ltb, ◌==◌, if◌then◌else◌,
}

-- `digits[v]`
pub digit : ℕ → ℕ
digit v = if ltb v 10 then 48 + v else 87 + v

-- The `do` loop of `printint`, the last byte of `buf` first.
pub put_digits : ℕ → ℕ → ℕ → List ℕ → List ℕ
put_digits base zero x buf = buf
put_digits base (suc fuel) x buf =
    let more = put_digits base fuel (x / base) (digit (x % base) ∷ buf) in
    if x / base == 0 then digit (x % base) ∷ buf else more

-- A `uint` has 32 binary digits at most, so that 32 rounds are enough for each base.
pub printint : ℕ → ℕ → Bool → List ℕ
printint xx base sign =
    if sign && leb (2 ^ 31) xx
    then 45 ∷ put_digits base 32 (2 ^ 32 - xx) []
    else put_digits base 32 xx []

-- The loop of `printptr`, with `k` rounds left.
pub hex_digits : ℕ → ℕ → List ℕ
hex_digits zero x = []
hex_digits (suc k) x = digit (x / 2 ^ 60) ∷ hex_digits k (x * 16 % 2 ^ 64)

pub printptr : ℕ → List ℕ
printptr x = 48 ∷ 120 ∷ hex_digits 16 x

pub data Arg : Type 0 where
  number : ℕ → Arg
  pointer : ℕ → Arg
  text : Option (List ℕ) → Arg

-- `(null)`
abbrev pub null_text : List ℕ
null_text = 40 ∷ 110 ∷ 117 ∷ 108 ∷ 108 ∷ 41 ∷ []

pub put_arg : ℕ → Arg → Option (List ℕ)
put_arg c (number xx) =
    if c == 100
    then some (printint xx 10 true)
    else if c == 120
    then some (printint xx 16 true)
    else none
put_arg c (pointer x) = if c == 112 then some (printptr x) else none
put_arg c (text none) = if c == 115 then some null_text else none
put_arg c (text (some s)) = if c == 115 then some s else none

abbrev pub takes_arg : ℕ → Bool
takes_arg c =
    if c == 100 then true else if c == 120 then true else if c == 112 then true else c == 115

-- A letter behind `%` that takes no argument.
abbrev pub put_plain : ℕ → List ℕ
put_plain c = if c == 37 then 37 ∷ [] else 37 ∷ c ∷ []

abbrev pub both : Option (List ℕ) → Option (List ℕ) → Option (List ℕ)
both none r = none
both (some xs) none = none
both (some xs) (some ys) = some (xs ++ ys)

-- The loop of `printf`, behind a `%` where the first argument says so. It is `none` where `va_arg` asks
-- for an argument that is not given, or for one of another type.
pub printf_from : Bool → List ℕ → List Arg → Option (List ℕ)
printf_from percent [] args = some []
printf_from false (c ∷ cs) args =
    let plain = printf_from false cs args in
    let behind = printf_from true cs args in if c == 37 then behind else both (some (c ∷ [])) plain
printf_from true (c ∷ cs) [] =
    let rest = printf_from false cs [] in
    if takes_arg c then none else both (some (put_plain c)) rest
printf_from true (c ∷ cs) (a ∷ args) =
    let taken = printf_from false cs args in
    let left = printf_from false cs (a ∷ args) in
    if takes_arg c then both (put_arg c a) taken else both (some (put_plain c)) left

pub printf : List ℕ → List Arg → Option (List ℕ)
printf fmt args = printf_from false fmt args

-- `atoi` of user/ulib.c, with the number read so far; the arithmetic is that of `int`.
pub atoi_from : ℕ → List ℕ → ℕ
atoi_from n [] = n
atoi_from n (c ∷ cs) =
    let rest = atoi_from ((n * 10 + (c - 48)) % 2 ^ 32) cs in
    if leb 48 c && leb c 57 then rest else n

pub atoi : List ℕ → ℕ
atoi s = atoi_from 0 s
