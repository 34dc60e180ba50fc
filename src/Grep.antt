-- ===== src/Grep.antt =====
-- user/grep.c: the pattern matcher, and the loop over the lines of a file.
--
-- A C string is the list of its bytes before the NUL. `re + 1` and `text + 1` are tails.
pub mod Language
pub mod Texts
pub mod Lines
mod Tests
use csse_332_final.Base.{
  ℕ, ◌+◌, ◌-◌, min, take, drop, Bool, true, false, ◌&&◌, ◌||◌, List, [], ◌∷◌, ◌++◌, length, suc,
  zero, Option, none, some, ◌==◌, if◌then◌else◌,
}

abbrev pub star : ℕ
star = 42

abbrev pub dollar : ℕ
dollar = 36

abbrev pub dot : ℕ
dot = 46

abbrev pub caret : ℕ
caret = 94

abbrev pub is_end : List ℕ → Bool
is_end [] = true
is_end (_ ∷ _) = false

-- `re[0] == '.' || re[0] == *text`, on a text that has not ended
abbrev pub accepts : ℕ → ℕ → Bool
accepts c x = c == dot || c == x

-- One character of the pattern, then `here`, which is `matchhere` on the rest of the pattern.
abbrev pub match_one : (List ℕ → Bool) → ℕ → List ℕ → Bool
match_one here c [] = false
match_one here c (x ∷ text) = accepts c x && here text

-- The loop of `matchstar`, with `here` for `matchhere` on the pattern behind the star.
pub star_loop : (List ℕ → Bool) → ℕ → List ℕ → Bool
star_loop here c [] = here []
star_loop here c (x ∷ text) =
    let rest = star_loop here c text in here (x ∷ text) || ((x == c || c == dot) && rest)

pub matchhere : List ℕ → List ℕ → Bool
matchhere [] text = true
matchhere (c ∷ []) text = if c == dollar then is_end text else match_one (matchhere []) c text
matchhere (c ∷ d ∷ re) text =
    if d == star then star_loop (matchhere re) c text else match_one (matchhere (d ∷ re)) c text

pub matchstar : ℕ → List ℕ → List ℕ → Bool
matchstar c re text = star_loop (matchhere re) c text

-- The loop of `match`.
pub match_from : List ℕ → List ℕ → Bool
match_from re [] = matchhere re []
match_from re (x ∷ text) = let rest = match_from re text in matchhere re (x ∷ text) || rest

pub match_text : List ℕ → List ℕ → Bool
match_text [] text = match_from [] text
match_text (c ∷ re) text = if c == caret then matchhere re text else match_from (c ∷ re) text

abbrev pub newline : ℕ
newline = 10

-- `strchr(p, '\n')`, which stops at a NUL: the bytes before the newline and those behind it.
pub split_line : List ℕ → Option (List ℕ × List ℕ)
split_line [] = none
split_line (x ∷ xs) =
    let rest = split_line xs in
    if x == newline
    then some ([], xs)
    else if x == 0
    then none
    else elim rest [ none ↦ none | some (line, after) ↦ some (x ∷ line, after) ]

-- The inner loop of `grep`: what it writes, and the bytes that it moves to the front of the buffer.
pub print_lines : ℕ → List ℕ → List ℕ → List ℕ × List ℕ
print_lines zero re buf = ([], buf)
print_lines (suc fuel) re buf = elim (split_line buf) [
  | none ↦ ([], buf)
  | some (line, after) ↦
      let (out, rest) = print_lines fuel re after in
      (if match_text re line then line ++ newline ∷ out else out, rest)
]

-- `sizeof(buf)`
abbrev pub buf_size : ℕ
buf_size = 1024

-- `grep` writes this; the buffer holds `kept` at first. `input` is what is left of the file, and the `i`th
-- `read` gives `ready i` bytes of it, but no more than there are and than it asks for: where it gives none, or
-- fails, `ready` is 0. A read of no bytes ends the loop. Every other takes a byte at least, so that a round
-- of fuel more than there are bytes is enough.
pub grep_from : List ℕ → (ℕ → ℕ) → ℕ → List ℕ → ℕ → List ℕ → List ℕ
grep_from re ready zero kept i input = []
grep_from re ready (suc fuel) kept i input =
    let n = min (ready i) (buf_size - length kept - 1) in
    let chunk = take n input in
    let (out, rest) = print_lines (suc (length (kept ++ chunk))) re (kept ++ chunk) in
    let later = grep_from re ready fuel rest (i + 1) (drop n input) in
    if is_end chunk then [] else out ++ later

pub grep : List ℕ → (ℕ → ℕ) → List ℕ → List ℕ
grep re ready input = grep_from re ready (suc (length input)) [] 0 input
