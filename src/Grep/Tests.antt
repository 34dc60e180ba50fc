-- ===== src/Grep/Tests.antt =====
-- user/grep.c: matches of small texts.
use csse_332_final.Base.{ℕ, ◌≡◌, refl, ◌↔◌, true, List, [], ◌∷◌, arith}
use csse_332_final.Grep.{
  star, dollar, caret, star_loop, matchhere, match_from, match_text, newline, split_line,
  print_lines, grep_from, grep,
}
use csse_332_final.Grep.Language.{Matches, match_text_iff}
use csse_332_final.Grep.Texts.{lines_of, IsShort}
use csse_332_final.Grep.Lines.{matching, grep-matching}

-- `ab*$`
abbrev pattern : List ℕ
pattern = 97 ∷ 98 ∷ star ∷ dollar ∷ []

-- `abb`
abbrev text : List ℕ
text = 97 ∷ 98 ∷ 98 ∷ []

match_text_iff_example : (match_text (caret ∷ pattern) text ≡ true) ↔ Matches (caret ∷ pattern) text
match_text_iff_example = match_text_iff (caret ∷ pattern) text

match_later : match_text pattern (120 ∷ text) ≡ true
unfolding match_text match_from matchhere star_loop
match_later = refl

-- The second of two lines, cut in its middle by the reads of three bytes, and a third that does not end.
abbrev input : List ℕ
input = 120 ∷ newline ∷ 97 ∷ 98 ∷ newline ∷ 97 ∷ []

abbrev three : ℕ → ℕ
three i = 3

input-IsShort : IsShort input
unfolding lines_of
input-IsShort = (omega arith, (omega arith, tt))

grep-matching_example : grep pattern three input ≡ matching pattern (lines_of input).0
grep-matching_example =
    grep-matching pattern three (λ i. omega arith) input
      (omega arith, (omega arith, (omega arith, (omega arith, (omega arith, (omega arith, tt))))))
      input-IsShort

grep_cut : grep pattern three input ≡ 97 ∷ 98 ∷ newline ∷ []
unfolding grep grep_from print_lines split_line match_text match_from matchhere star_loop
grep_cut = refl
