-- ===== src/Printf/Format.antt =====
-- kernel/printf.c: text without arguments.
use csse_332_final.Base.{
  ℕ, ◌≡◌, refl, ◌∙◌, sym, ap, some, List, [], ◌∷◌, ◌==◌, if◌then◌else◌, Bool-cases, inl, inr,
  ==_iff,
}
use csse_332_final.Printf.{both, printf_from, printf}

-- Each `%` twice.
pub escape : List ℕ → List ℕ
escape [] = []
escape (c ∷ cs) = if c == 37 then 37 ∷ 37 ∷ escape cs else c ∷ escape cs

-- A text in which each `%` stands twice is printed as it is.
pub printf-escape : (s : List ℕ) → printf (escape s) [] ≡ some s
unfolding printf printf_from escape
printf-escape [] = refl
printf-escape (c ∷ cs) = elim (Bool-cases (c == 37)) [
  | inl e ↦ rw e (
      ap (both (some (37 ∷ []))) (printf-escape cs)
      ∙ ap (λ x. some (x ∷ cs)) (sym ((==_iff c 37).0 e)))
  | inr e ↦ rw (e, e) (ap (both (some (c ∷ []))) (printf-escape cs))
]
