-- ===== src/Strings/Compare.antt =====
-- kernel/string.c: what the comparisons decide.
use csse_332_final.Base.{
  ℕ, zero, suc, ◌+◌, ◌<◌, ◌≡◌, refl, ◌≢◌, ◌↔◌, Bool, true, false, ◌&&◌, ◌||◌, arith, ltb, ◌==◌,
  List, [], ◌∷◌, ◌∙◌, ap, ==_iff, ==_eq, ==_ne, ap₂, some,
}
use csse_332_final.Strings.{
  ℤ, pos, negsuc, minus, Memory, memcmp, strncmp, string_at, strlen, strlen_from,
}

abbrev pub is_negative : ℤ → Bool
is_negative (pos n) = false
is_negative (negsuc n) = true

abbrev pub is_zero : ℤ → Bool
is_zero (pos n) = n == 0
is_zero (negsuc n) = false

-- The `n` bytes from `p` on.
pub bytes : ℕ → ℕ → Memory → List ℕ
bytes zero p m = []
bytes (suc n) p m = m p ∷ bytes n (p + 1) m

-- The order of the dictionary, and equality, of lists of bytes.
pub lex_lt : List ℕ → List ℕ → Bool
lex_lt xs [] = false
lex_lt [] (y ∷ ys) = true
lex_lt (x ∷ xs) (y ∷ ys) = ltb x y || (x == y && lex_lt xs ys)

pub lex_eq : List ℕ → List ℕ → Bool
lex_eq [] [] = true
lex_eq [] (y ∷ ys) = false
lex_eq (x ∷ xs) [] = false
lex_eq (x ∷ xs) (y ∷ ys) = x == y && lex_eq xs ys

pub lex_eq_iff : (xs ys : List ℕ) → (lex_eq xs ys ≡ true) ↔ (xs ≡ ys)
unfolding lex_eq
lex_eq_iff [] [] = (λ _. refl, λ _. refl)
lex_eq_iff [] (y ∷ ys) = (λ h. cc, λ h. cc)
lex_eq_iff (x ∷ xs) [] = (λ h. cc, λ h. cc)
lex_eq_iff (x ∷ xs) (y ∷ ys) = (
  λ h.
      ap₂ (λ z zs. z ∷ zs) ((==_iff x y).0 (ground (arith, h)))
        ((lex_eq_iff xs ys).0 (ground (arith, h))),
  λ h. rw (==_eq x y (head_eq h)) ((lex_eq_iff xs ys).1 (tail_eq h)),
)
  where
    head_eq : (x ∷ xs) ≡ (y ∷ ys) → x ≡ y
    head_eq h = cc

    tail_eq : (x ∷ xs) ≡ (y ∷ ys) → xs ≡ ys
    tail_eq h = cc

is_negative-minus : (a b : ℕ) → is_negative (minus a b) ≡ ltb a b
is_negative-minus a b = ground arith

is_zero-minus : (a b : ℕ) → is_zero (minus a b) ≡ (a == b)
is_zero-minus a b = ground arith

-- `memcmp` is zero where the bytes are the same and negative where the first are before the second.
pub memcmp-lex :
    (v1 v2 n : ℕ) (m : Memory)
    → (is_zero (memcmp v1 v2 n m) ≡ lex_eq (bytes n v1 m) (bytes n v2 m))
      × (is_negative (memcmp v1 v2 n m) ≡ lex_lt (bytes n v1 m) (bytes n v2 m))
unfolding memcmp bytes lex_eq lex_lt
memcmp-lex v1 v2 zero m = (refl, refl)
memcmp-lex v1 v2 (suc n) m =
    let ih = memcmp-lex (v1 + 1) (v2 + 1) n m in (ground (arith, ih.0), ground (arith, ih.1))

-- `strncmp` is zero where the strings are the same up to their first `n` bytes, and negative where
-- the first is before the second.
pub strncmp-lex :
    (p q n : ℕ) (m : Memory)
    → (is_zero (strncmp p q n m) ≡ lex_eq (string_at n p m) (string_at n q m))
      × (is_negative (strncmp p q n m) ≡ lex_lt (string_at n p m) (string_at n q m))
unfolding strncmp string_at lex_eq lex_lt
strncmp-lex p q zero m = (refl, refl)
strncmp-lex p q (suc n) m =
    let ih = strncmp-lex (p + 1) (q + 1) n m in (ground (arith, ih.0), ground (arith, ih.1))

strlen_from_lem :
    (k fuel s n : ℕ) (m : Memory)
    → k < fuel
    → m (s + (n + k)) ≡ 0
    → ((i : ℕ) → i < k → m (s + (n + i)) ≢ 0)
    → strlen_from fuel s n m ≡ some (n + k)
unfolding strlen_from
strlen_from_lem k zero s n m h z others = absurd (omega arith)
strlen_from_lem zero (suc fuel) s n m h z others =
    rw (==_eq (m (s + n)) 0 (ap (λ i. m (s + i)) (omega arith) ∙ z)) (ap some (omega arith))
strlen_from_lem (suc k) (suc fuel) s n m h z others =
    rw (==_ne (m (s + n)) 0 (λ e. others 0 (omega arith) (ap (λ i. m (s + i)) (omega arith) ∙ e))) (
      strlen_from_lem k fuel s (n + 1) m (omega arith) (ap (λ i. m (s + i)) (omega arith) ∙ z)
        (λ i l e. others (suc i) (omega arith) (ap (λ i. m (s + i)) (omega arith) ∙ e))
      ∙ ap some (omega arith))

-- `strlen` ends at the first NUL, with the number of the bytes before it.
pub strlen_counts :
    (k fuel s : ℕ) (m : Memory)
    → k < fuel
    → m (s + k) ≡ 0
    → ((i : ℕ) → i < k → m (s + i) ≢ 0)
    → strlen fuel s m ≡ some k
unfolding strlen
strlen_counts k fuel s m h z others =
    strlen_from_lem k fuel s 0 m h (ap (λ i. m (s + i)) (omega arith) ∙ z)
      (λ i l e. others i l (ap (λ i. m (s + i)) (omega arith) ∙ e))
    ∙ ap some (omega arith)
