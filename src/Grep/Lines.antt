-- ===== src/Grep/Lines.antt =====
-- user/grep.c: the loop over the reads prints the matching lines of the whole input.
use csse_332_final.Base.{
  ℕ, zero, suc, ◌+◌, ◌-◌, ◌≤◌, min, take, drop, take-append-drop, length-drop, dec_lt, subst, ◌<◌,
  ◌≡◌, refl, sym, ap, ◌∙◌, ◌⊎◌, inl, inr, true, false, none, some, List, [], ◌∷◌, ◌++◌, append-nil,
  append_assoc, length, arith, ◌==◌, ==_ne, if◌then◌else◌, Bool-cases, All,
}
use csse_332_final.Grep.Texts.{
  lines_of, add_byte-newline, lines_of-append, NulFree, NulFree-append, NulFree-rest, lines_of-rest,
  IsShort, first_line, NulFree-split,
}
use csse_332_final.Grep.{
  is_end, buf_size, match_text, newline, split_line, print_lines, grep_from, grep,
}

-- The lines that the pattern matches, each with its newline.
pub matching : List ℕ → List (List ℕ) → List ℕ
matching re [] = []
matching re (l ∷ ls) = if match_text re l then l ++ newline ∷ matching re ls else matching re ls

matching-append :
    (re : List ℕ) (ls ms : List (List ℕ))
    → matching re (ls ++ ms) ≡ matching re ls ++ matching re ms
unfolding matching
matching-append re [] ms = refl
matching-append re (l ∷ ls) ms = elim (Bool-cases (match_text re l)) [
  | inl e ↦
      rw (e, matching-append re ls ms, append_assoc l (newline ∷ matching re ls) (matching re ms))
  | inr e ↦ rw (e, matching-append re ls ms)
]

-- What `split_line` finds in a text without a NUL.
record Splits (xs line after : List ℕ) : Type 0 where
  pub found : split_line xs ≡ some (line, after)
  pub lines : lines_of xs ≡ (line ∷ (lines_of after).0, (lines_of after).1)
  pub shorter : length after < length xs
  pub nul_free : NulFree after

split_line-cases :
    (xs : List ℕ)
    → NulFree xs
    → ((split_line xs ≡ none) × (lines_of xs ≡ ([], xs)))
      ⊎ ((line : List ℕ) × (after : List ℕ) × Splits xs line after)
unfolding split_line lines_of
split_line-cases [] h = inl (refl, refl)
split_line-cases (x ∷ xs) h = elim (Bool-cases (x == newline)) [
  | inl e ↦ inr (
    [],
    xs,
    record {
      found = rw e;
      lines = add_byte-newline x (lines_of xs) e;
      shorter = omega arith;
      nul_free = h.1;
    },
  )
  | inr e ↦ elim (split_line-cases xs h.1) [
    | inl (f, g) ↦ inl (rw (e, ==_ne x 0 h.0, f), rw (g, e))
    | inr (line, after, s) ↦ inr (
      x ∷ line,
      after,
      record {
        found = rw (e, ==_ne x 0 h.0, s.found);
        lines = rw (s.lines, e);
        shorter = omega (arith, s.shorter);
        nul_free = s.nul_free;
      },
    )
  ]
]

print_lines_lem :
    (fuel : ℕ) (re buf : List ℕ)
    → NulFree buf
    → length buf < fuel
    → print_lines fuel re buf ≡ (matching re (lines_of buf).0, (lines_of buf).1)
unfolding print_lines matching
print_lines_lem zero re buf h f = absurd (omega arith)
print_lines_lem (suc fuel) re buf h f = elim (split_line-cases buf h) [
  | inl (e, g) ↦ rw (e, print_lines, g)
  | inr (line, after, s) ↦
      rw
        (
          s.found,
          print_lines,
          s.lines,
          print_lines_lem fuel re after s.nul_free (omega (arith, s.shorter)),
        )
        (elim (Bool-cases (match_text re line)) [
          | inl m ↦ rw (m, matching)
          | inr m ↦ rw (m, matching)
        ])
]

take_none : (n : ℕ) → is_end (take n []) ≡ true
take_none zero = refl
take_none (suc n) = refl

take_zero : (n : ℕ) (xs : List ℕ) → n ≡ 0 → is_end (take n xs) ≡ true
take_zero zero xs e = refl
take_zero (suc n) xs e = absurd (omega (arith, e))

take_some : (n : ℕ) (x : ℕ) (xs : List ℕ) → 0 < n → is_end (take n (x ∷ xs)) ≡ false
take_some zero x xs h = absurd (omega (arith, h))
take_some (suc n) x xs h = refl

All-later : (P : List ℕ → Type 0) (xs ys : List (List ℕ)) → All P (xs ++ ys) → All P ys
All-later P [] ys h = h
All-later P (x ∷ xs) ys h = All-later P xs ys h.1

module _ (re : List ℕ) (ready : ℕ → ℕ) (some_ready : (i : ℕ) → 0 < ready i) where
  -- A buffer that is full holds no line that ends later.
  full_end :
      (kept input : List ℕ)
      → lines_of kept ≡ ([], kept)
      → IsShort (kept ++ input)
      → buf_size ≤ length kept + 1
      → matching re (lines_of (kept ++ input)).0 ≡ []
  unfolding matching
  full_end kept input e s h = elim (first_line kept input e) [
    | inl q ↦ rw q refl
    | inr (line, lines, q, g) ↦
        let first : All (λ l. length l + 1 < buf_size) (line ∷ lines) =
          subst (All (λ l. length l + 1 < buf_size)) q s in
        absurd (omega (arith, first.0, g, h))
  ]

  grep_from_lem :
      (fuel : ℕ) (kept : List ℕ) (i : ℕ) (input : List ℕ)
      → NulFree kept
      → NulFree input
      → lines_of kept ≡ ([], kept)
      → IsShort (kept ++ input)
      → length input < fuel
      → grep_from re ready fuel kept i input ≡ matching re (lines_of (kept ++ input)).0
  unfolding grep_from matching
  grep_from_lem zero kept i input k h e s l = absurd (omega (arith, l))
  grep_from_lem (suc fuel) kept i [] k h e s l =
      rw (append-nil kept, e, take_none (min (ready i) (buf_size - length kept - 1)))
  grep_from_lem (suc fuel) kept i (x ∷ xs) k h e s l = elim (dec_lt (length kept + 1) buf_size) [
    | no full ↦
        let z : min (ready i) (buf_size - length kept - 1) ≡ 0 = omega (arith, full) in
        rw (take_zero (min (ready i) (buf_size - length kept - 1)) (x ∷ xs) z)
          (sym (full_end kept (x ∷ xs) e s (omega (arith, full))))
    | yes space ↦
        let n = min (ready i) (buf_size - length kept - 1) in
        let input = x ∷ xs in
        let chunk = take n input in
        let rest = drop n input in
        let whole = kept ++ chunk in
        let same : chunk ++ rest ≡ input = take-append-drop n input in
        let all : whole ++ rest ≡ kept ++ input =
          append_assoc kept chunk rest ∙ ap (λ ys. kept ++ ys) same in
        let some_n : 0 < n = omega (arith, space, some_ready i) in
        let (c, r) = NulFree-split chunk rest (subst NulFree (sym same) h) in
        let nul_free = NulFree-append kept chunk k c in
        let short : IsShort ((lines_of whole).1 ++ rest) =
          All-later (λ line. length line + 1 < buf_size) (lines_of whole).0
            (lines_of ((lines_of whole).1 ++ rest)).0
            (subst (All (λ line. length line + 1 < buf_size))
              (ap (λ p. p.0) (ap lines_of (sym all) ∙ lines_of-append whole rest)) s) in
        rw
          (
            print_lines_lem (suc (length whole)) re whole nul_free (omega arith),
            take_some n x xs some_n,
            grep_from_lem fuel (lines_of whole).1 (i + 1) rest (NulFree-rest whole nul_free) r
                (lines_of-rest whole) short (omega (arith, length-drop n input, l, some_n)),
          )
          (sym (matching-append re (lines_of whole).0 (lines_of ((lines_of whole).1 ++ rest)).0)
            ∙ ap (λ p. matching re p.0) (sym (lines_of-append whole rest) ∙ ap lines_of all))
  ]

  -- Where each `read` gives a byte at least while there are any, `grep` writes the lines of the input that
  -- the pattern matches, in their order, each with its newline, whatever it was cut into by the reads. The
  -- input has no NUL, and its lines that end have at most 1022 bytes before the newline; bytes behind the
  -- last newline are not written.
  pub grep-matching :
      (input : List ℕ)
      → NulFree input
      → IsShort input
      → grep re ready input ≡ matching re (lines_of input).0
  unfolding grep lines_of
  grep-matching input h s = grep_from_lem (suc (length input)) [] 0 input tt h refl s (omega arith)
