-- ===== src/Grep/Texts.antt =====
-- user/grep.c: texts as lines, and an unfinished last one.
use csse_332_final.Base.{
  ℕ, ◌+◌, ◌≤◌, ◌<◌, ◌≡◌, refl, sym, ap, ◌∙◌, ◌≢◌, ◌⊎◌, inl, inr, true, false, List, [], ◌∷◌, ◌++◌,
  length, arith, ◌==◌, if◌then◌else◌, Bool-cases, All,
}
use csse_332_final.Grep.{buf_size, newline}

-- One more byte before a text that is split into its lines and an unfinished last one.
abbrev pub add_byte : ℕ → List (List ℕ) × List ℕ → List (List ℕ) × List ℕ
add_byte x ([], rest) = if x == newline then ([] ∷ [], rest) else ([], x ∷ rest)
add_byte x (l ∷ ls, rest) = if x == newline then ([] ∷ l ∷ ls, rest) else ((x ∷ l) ∷ ls, rest)

-- The lines of a text that end in a newline, and what is behind the last newline.
unfoldable pub lines_of : List ℕ → List (List ℕ) × List ℕ
lines_of [] = ([], [])
lines_of (x ∷ xs) = add_byte x (lines_of xs)

pub add_byte-newline :
    (x : ℕ) (p : List (List ℕ) × List ℕ) → (x == newline) ≡ true → add_byte x p ≡ ([] ∷ p.0, p.1)
add_byte-newline x ([], rest) e = rw e
add_byte-newline x (l ∷ ls, rest) e = rw e

pub lines_of-append :
    (xs ys : List ℕ)
    → lines_of (xs ++ ys) ≡ (
      (lines_of xs).0 ++ (lines_of ((lines_of xs).1 ++ ys)).0,
      (lines_of ((lines_of xs).1 ++ ys)).1,
    )
unfolding lines_of
lines_of-append [] ys = refl
lines_of-append (x ∷ xs) ys = ap (add_byte x) (lines_of-append xs ys) ∙ step (lines_of xs)
  where
    step :
        (p : List (List ℕ) × List ℕ)
        → add_byte x (p.0 ++ (lines_of (p.1 ++ ys)).0, (lines_of (p.1 ++ ys)).1) ≡ (
          (add_byte x p).0 ++ (lines_of ((add_byte x p).1 ++ ys)).0,
          (lines_of ((add_byte x p).1 ++ ys)).1,
        )
    step ([], rest) = elim (Bool-cases (x == newline)) [
      | inl e ↦ rw e (add_byte-newline x (lines_of (rest ++ ys)) e)
      | inr e ↦ rw e
    ]
    step (l ∷ ls, rest) = elim (Bool-cases (x == newline)) [ inl e ↦ rw e | inr e ↦ rw e ]

abbrev pub NulFree : List ℕ → Type 0
NulFree xs = All (λ x. x ≢ 0) xs

pub NulFree-append : (xs ys : List ℕ) → NulFree xs → NulFree ys → NulFree (xs ++ ys)
NulFree-append [] ys a b = b
NulFree-append (x ∷ xs) ys a b = (a.0, NulFree-append xs ys a.1 b)

pub NulFree-rest : (xs : List ℕ) → NulFree xs → NulFree (lines_of xs).1
unfolding lines_of
NulFree-rest [] h = tt
NulFree-rest (x ∷ xs) h = step (lines_of xs) (NulFree-rest xs h.1)
  where
    step : (p : List (List ℕ) × List ℕ) → NulFree p.1 → NulFree (add_byte x p).1
    step ([], rest) k = elim (Bool-cases (x == newline)) [ inl e ↦ rw e k | inr e ↦ rw e (h.0, k) ]
    step (l ∷ ls, rest) k = elim (Bool-cases (x == newline)) [ inl e ↦ rw e k | inr e ↦ rw e k ]

pub lines_of-rest : (xs : List ℕ) → lines_of (lines_of xs).1 ≡ ([], (lines_of xs).1)
unfolding lines_of
lines_of-rest [] = refl
lines_of-rest (x ∷ xs) = step (lines_of xs) (lines_of-rest xs)
  where
    step :
        (p : List (List ℕ) × List ℕ)
        → lines_of p.1 ≡ ([], p.1)
        → lines_of (add_byte x p).1 ≡ ([], (add_byte x p).1)
    step ([], rest) k = elim (Bool-cases (x == newline)) [ inl e ↦ rw e k | inr e ↦ rw (e, k, e) ]
    step (l ∷ ls, rest) k = elim (Bool-cases (x == newline)) [ inl e ↦ rw e k | inr e ↦ rw e k ]

-- Each line that ends in a newline fits in the buffer, with the newline and the NUL behind it.
abbrev pub IsShort : List ℕ → Type 0
IsShort xs = All (λ line. length line + 1 < buf_size) (lines_of xs).0

-- An unfinished line is the start of the first line of every text that goes on from it.
pub first_line :
    (kept xs : List ℕ)
    → lines_of kept ≡ ([], kept)
    → ((lines_of (kept ++ xs)).0 ≡ [])
      ⊎ ((line : List ℕ) × (lines : List (List ℕ)) × ((lines_of (kept ++ xs)).0 ≡ line ∷ lines)
          × (length kept ≤ length line))
unfolding lines_of
first_line [] xs e = start (lines_of xs).0
  where
    start :
        (p : List (List ℕ))
        → (p ≡ [])
          ⊎ ((line : List ℕ) × (lines : List (List ℕ)) × (p ≡ line ∷ lines) × (0 ≤ length line))
    start [] = inl refl
    start (line ∷ lines) = inr (line, lines, refl, omega arith)
first_line (x ∷ kept) xs e = elim (Bool-cases (x == newline)) [
  | inl q ↦ absurd (ended (ap (λ p. p.0) (sym (add_byte-newline x (lines_of kept) q) ∙ e)))
  | inr q ↦ go q (lines_of (kept ++ xs)) (first_line kept xs (before q (lines_of kept) e))
]
  where
    ended : {l : List ℕ} {ls : List (List ℕ)} → l ∷ ls ≡ [] → ⊥
    ended q = cc

    before :
        (x == newline) ≡ false
        → (p : List (List ℕ) × List ℕ) → add_byte x p ≡ ([], x ∷ kept)
        → p ≡ ([], kept)
    before q ([], rest) h = ap (λ r. ([], r)) (tails (ap (λ p. p.1) (rw q at h)))
      where
        tails : x ∷ rest ≡ x ∷ kept → rest ≡ kept
        tails h = cc
    before q (l ∷ ls, rest) h = absurd (ended (ap (λ p. p.0) (rw q at h)))

    go :
        (x == newline) ≡ false
        → (p : List (List ℕ) × List ℕ)
        → (p.0 ≡ [])
          ⊎ ((line : List ℕ) × (lines : List (List ℕ)) × (p.0 ≡ line ∷ lines)
              × (length kept ≤ length line))
        → ((add_byte x p).0 ≡ [])
          ⊎ ((line : List ℕ) × (lines : List (List ℕ)) × ((add_byte x p).0 ≡ line ∷ lines)
              × (length (x ∷ kept) ≤ length line))
    go q ([], rest) h = inl (rw q refl)
    go q (l ∷ ls, rest) (inl h) = absurd (ended h)
    go q (l ∷ ls, rest) (inr (line, lines, h, g)) =
        let same : l ≡ line = cc in inr (x ∷ l, ls, rw q refl, omega (arith, g, ap length same))

pub NulFree-split : (xs ys : List ℕ) → NulFree (xs ++ ys) → NulFree xs × NulFree ys
NulFree-split [] ys h = (tt, h)
NulFree-split (x ∷ xs) ys h = let (a, b) = NulFree-split xs ys h.1 in ((h.0, a), b)
