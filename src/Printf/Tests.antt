-- ===== src/Printf/Tests.antt =====
-- kernel/printf.c: one number is printed.
use csse_332_final.Base.{◌≤◌, ◌≡◌, refl, true, some, [], ◌∷◌, arith, length}
use csse_332_final.Printf.{number, digit, put_digits, printint, put_arg, printf_from, printf}
use csse_332_final.Printf.Digits.{int_of, printint_reads}

-- The `int` -332.
printint_reads_example :
    (int_of (printint 4294966964 10 true) ≡ 4294966964)
    × (length (printint 4294966964 10 true) ≤ 11)
printint_reads_example = printint_reads 4294966964 (omega arith)

-- `a%d` of -332
prints_negative :
    printf (97 ∷ 37 ∷ 100 ∷ []) (number 4294966964 ∷ []) ≡ some (97 ∷ 45 ∷ 51 ∷ 51 ∷ 50 ∷ [])
unfolding printf printf_from put_arg printint put_digits digit
prints_negative = refl
