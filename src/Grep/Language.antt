-- ===== src/Grep/Language.antt =====
-- user/grep.c: the matcher decides the language of the pattern.
use csse_332_final.Base.{
  ℕ, ◌≡◌, refl, ◌↔◌, inl, inr, Bool, true, false, not, List, [], ◌∷◌, ◌++◌, arith, ◌==◌, ==_iff,
  Bool-cases, subst, sym,
}
use csse_332_final.Grep.{
  star, dollar, caret, is_end, accepts, match_one, star_loop, matchhere, match_from, match_text,
}

-- Neither a star follows, nor is this the `$` at the end of the pattern.
abbrev pub is_plain : ℕ → List ℕ → Bool
is_plain c [] = not (c == dollar)
is_plain c (d ∷ re) = not (d == star)

-- The texts that begin with a match of the pattern.
pub data Begins : List ℕ → List ℕ → Type 0 where
  empty : {text : List ℕ} → Begins [] text
  at_end : Begins (dollar ∷ []) []
  one :
      {c x : ℕ} {re text : List ℕ}
      → is_plain c re ≡ true
      → accepts c x ≡ true
      → Begins re text
      → Begins (c ∷ re) (x ∷ text)
  none_left : {c : ℕ} {re text : List ℕ} → Begins re text → Begins (c ∷ star ∷ re) text
  one_more :
      {c x : ℕ} {re text : List ℕ}
      → accepts c x ≡ true
      → Begins (c ∷ star ∷ re) text
      → Begins (c ∷ star ∷ re) (x ∷ text)

star_loop_sound :
    (here : List ℕ → Bool) (re : List ℕ) (c : ℕ) (text : List ℕ)
    → ((t : List ℕ) → here t ≡ true → Begins re t)
    → star_loop here c text ≡ true
    → Begins (c ∷ star ∷ re) text
unfolding star_loop
star_loop_sound here re c [] f h = none_left (f [] h)
star_loop_sound here re c (x ∷ text) f h = elim (Bool-cases (here (x ∷ text))) [
  | inl now ↦ none_left (f (x ∷ text) now)
  | inr later ↦
      one_more (ground (arith, h, later))
        (star_loop_sound here re c text f (ground (arith, h, later)))
]

match_one_sound :
    (here : List ℕ → Bool) (re : List ℕ) (c : ℕ) (text : List ℕ)
    → is_plain c re ≡ true
    → ((t : List ℕ) → here t ≡ true → Begins re t)
    → match_one here c text ≡ true
    → Begins (c ∷ re) text
match_one_sound here re c [] p f h = cc
match_one_sound here re c (x ∷ text) p f h = one p (ground (arith, h)) (f text (ground (arith, h)))

matchhere_sound : (re text : List ℕ) → matchhere re text ≡ true → Begins re text
unfolding matchhere
matchhere_sound [] text h = empty
matchhere_sound (c ∷ []) text h = elim (Bool-cases (c == dollar)) [
  | inr other ↦
      match_one_sound (matchhere []) [] c text (rw other) (matchhere_sound []) (rw other at h)
  | inl last ↦ ending text last (rw last at h)
]
  where
    ending : (t : List ℕ) → (c == dollar) ≡ true → is_end t ≡ true → Begins (c ∷ []) t
    ending [] last e = subst (λ d. Begins (d ∷ []) []) (sym ((==_iff c dollar).0 last)) at_end
    ending (x ∷ t) last e = cc
matchhere_sound (c ∷ d ∷ re) text h = elim (Bool-cases (d == star)) [
  | inl starred ↦
      subst (λ e. Begins (c ∷ e ∷ re) text) (sym ((==_iff d star).0 starred))
        (star_loop_sound (matchhere re) re c text (matchhere_sound re) (rw starred at h))
  | inr other ↦
      match_one_sound (matchhere (d ∷ re)) (d ∷ re) c text (rw other) (matchhere_sound (d ∷ re))
        (rw other at h)
]

star_loop-now :
    (here : List ℕ → Bool) (c : ℕ) (text : List ℕ) → here text ≡ true → star_loop here c text ≡ true
unfolding star_loop
star_loop-now here c [] h = h
star_loop-now here c (x ∷ text) h = rw h

star_loop-more :
    (here : List ℕ → Bool) (c x : ℕ) (text : List ℕ)
    → accepts c x ≡ true
    → star_loop here c text ≡ true
    → star_loop here c (x ∷ text) ≡ true
unfolding star_loop
star_loop-more here c x text a h = ground (arith, a, h)

matchhere_complete : {re text : List ℕ} → Begins re text → matchhere re text ≡ true
unfolding matchhere
matchhere_complete empty = refl
matchhere_complete at_end = refl
matchhere_complete (one {re = []} p a b) = ground (arith, p, a)
matchhere_complete (one {re = d ∷ re} p a b) = ground (arith, p, a, matchhere_complete b)
matchhere_complete (none_left {c} {re} {text} b) =
    star_loop-now (matchhere re) c text (matchhere_complete b)
matchhere_complete (one_more {c} {x} {re} {text} a b) =
    star_loop-more (matchhere re) c x text a (matchhere_complete b)

-- `matchhere` ends on every pattern and text, and answers whether the text begins with a match.
pub matchhere_iff : (re text : List ℕ) → (matchhere re text ≡ true) ↔ Begins re text
matchhere_iff re text = (matchhere_sound re text, matchhere_complete)

abbrev pub is_anchored : List ℕ → Bool
is_anchored [] = false
is_anchored (c ∷ re) = c == caret

-- The texts that the pattern matches: at their beginning after `^`, else anywhere.
pub data Matches : List ℕ → List ℕ → Type 0 where
  anchored : {re text : List ℕ} → Begins re text → Matches (caret ∷ re) text
  anywhere :
      {re text : List ℕ} (before : List ℕ)
      → is_anchored re ≡ false
      → Begins re text
      → Matches re (before ++ text)

match_from_sound :
    (re text : List ℕ) → is_anchored re ≡ false → match_from re text ≡ true → Matches re text
unfolding match_from
match_from_sound re [] a h = anywhere [] a (matchhere_sound re [] h)
match_from_sound re (x ∷ text) a h = elim (Bool-cases (matchhere re (x ∷ text))) [
  | inl now ↦ anywhere [] a (matchhere_sound re (x ∷ text) now)
  | inr later ↦ further a (match_from_sound re text a (rw later at h))
]
  where
    further : {r t : List ℕ} → is_anchored r ≡ false → Matches r t → Matches r (x ∷ t)
    further e (anchored b) = cc
    further e (anywhere before _ b) = anywhere (x ∷ before) e b

match_from_complete :
    (re before : List ℕ) {text : List ℕ} → Begins re text → match_from re (before ++ text) ≡ true
unfolding match_from
match_from_complete re [] {text = []} b = matchhere_complete b
match_from_complete re [] {text = x ∷ text} b = rw (matchhere_complete b)
match_from_complete re (x ∷ before) b = ground (arith, match_from_complete re before b)

-- `match` ends on every pattern and text, and answers whether the pattern matches the text.
pub match_text_iff : (re text : List ℕ) → (match_text re text ≡ true) ↔ Matches re text
unfolding match_text
match_text_iff re text = (sound re text, complete)
  where
    sound : (re text : List ℕ) → match_text re text ≡ true → Matches re text
    sound [] text h = match_from_sound [] text refl h
    sound (c ∷ re) text h = elim (Bool-cases (c == caret)) [
      | inl e ↦
          subst (λ d. Matches (d ∷ re) text) (sym ((==_iff c caret).0 e))
            (anchored (matchhere_sound re text (rw e at h)))
      | inr ne ↦ match_from_sound (c ∷ re) text ne (rw ne at h)
    ]

    complete : {re text : List ℕ} → Matches re text → match_text re text ≡ true
    complete (anchored b) = matchhere_complete b
    complete {re = []} (anywhere before e b) = match_from_complete [] before b
    complete {re = c ∷ re} (anywhere before e b) = rw e (match_from_complete (c ∷ re) before b)
