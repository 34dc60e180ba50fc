-- ===== src/Strings/Copy.antt =====
-- kernel/string.c: what the copies of strings leave.
use csse_332_final.Base.{
  ℕ, zero, suc, ◌+◌, ◌≤◌, ◌<◌, ◌≡◌, refl, ◌≢◌, ◌⊎◌, inl, inr, false, arith, ◌==◌, Bool-cases, ◌∷◌,
  ◌∙◌, ap, update, update_self, update-ne,
}
use csse_332_final.Strings.{Memory, string_at, strncpy, safe_copy, safestrcpy}
use csse_332_final.Strings.Move.{memset_lem, is_within}

-- The bytes up to the end are what a string is.
pub string_at-same :
    (n p q : ℕ) (m m' : Memory)
    → ((j : ℕ) → j < n → m (p + j) ≡ m' (q + j))
    → string_at n p m ≡ string_at n q m'
unfolding string_at
string_at-same zero p q m m' h = refl
string_at-same (suc n) p q m m' h =
    let first : m p ≡ m' q = ap m (omega arith) ∙ h 0 (omega arith) ∙ ap m' (omega arith) in
    let rest =
      string_at-same n (p + 1) (q + 1) m m'
        (λ j l. ap m (omega arith) ∙ h (suc j) (omega (arith, l)) ∙ ap m' (omega arith)) in
    rw (first, rest) refl

string_at-update :
    (n p a v : ℕ) (m : Memory)
    → (a < p) ⊎ (p + n ≤ a)
    → string_at n p (update m a v) ≡ string_at n p m
unfolding string_at
string_at-update zero p a v m h = refl
string_at-update (suc n) p a v m h =
    rw (update-ne m a v (ne h), string_at-update n (p + 1) a v m (next h))
  where
    ne : (a < p) ⊎ (p + suc n ≤ a) → a ≢ p
    ne (inl l) = omega arith
    ne (inr l) = omega arith

    next : (a < p) ⊎ (p + suc n ≤ a) → (a < p + 1) ⊎ (p + 1 + n ≤ a)
    next (inl l) = inl (omega arith)
    next (inr l) = inr (omega arith)

-- The `n` bytes from `s` on change alone.
abbrev pub Inside : ℕ → ℕ → Memory → Memory → Type 0
Inside s n m m' = (a : ℕ) → is_within s n a ≡ false → m' a ≡ m a

safe_copy-Inside : (s t n : ℕ) (m : Memory) → Inside s (suc n) m (safe_copy s t n m)
unfolding safe_copy
safe_copy-Inside s t zero m a h = ground (arith, h)
safe_copy-Inside s t (suc n) m a h = elim (Bool-cases (m t == 0)) [
  | inl e ↦ rw e (ground (arith, h))
  | inr e ↦ rw e (
      safe_copy-Inside (s + 1) (t + 1) n (update m s (m t)) a (ground (arith, h))
      ∙ ground (arith, h))
]

safe_copy-string :
    (s t n : ℕ) (m : Memory)
    → (s + n < t) ⊎ (t + n ≤ s)
    → string_at (suc n) s (safe_copy s t n m) ≡ string_at n t m
unfolding safe_copy string_at
safe_copy-string s t zero m h = ground arith
safe_copy-string s t (suc n) m h = elim (Bool-cases (m t == 0)) [
  | inl e ↦ ground (arith, e)
  | inr e ↦
      rw
        (
          e,
          safe_copy-Inside (s + 1) (t + 1) n (update m s (m t)) s (ground arith),
          update_self m s (m t) refl,
          e,
        )
        (ap (λ zs. m t ∷ zs)
          (safe_copy-string (s + 1) (t + 1) n (update m s (m t)) (next h)
            ∙ string_at-update n (t + 1) s (m t) m (away h)))
]
  where
    next : (s + suc n < t) ⊎ (t + suc n ≤ s) → (s + 1 + n < t + 1) ⊎ (t + 1 + n ≤ s + 1)
    next (inl l) = inl (omega arith)
    next (inr l) = inr (omega arith)

    away : (s + suc n < t) ⊎ (t + suc n ≤ s) → (s < t + 1) ⊎ (t + 1 + n ≤ s)
    away (inl l) = inl (omega arith)
    away (inr l) = inr (omega arith)

-- `safestrcpy` with a count above 0 leaves a string that ends within the count: the source string,
-- cut to one byte less than the count. It changes no byte behind the count. Source and destination do
-- not overlap.
pub safestrcpy_copies :
    (s t n : ℕ) (m : Memory)
    → (s + n < t) ⊎ (t + n ≤ s)
    → (string_at (suc n) s (safestrcpy s t (suc n) m) ≡ string_at n t m)
      × Inside s (suc n) m (safestrcpy s t (suc n) m)
unfolding safestrcpy
safestrcpy_copies s t n m h = (safe_copy-string s t n m h, safe_copy-Inside s t n m)

strncpy-Inside : (s t n : ℕ) (m : Memory) → Inside s n m (strncpy s t n m)
unfolding strncpy
strncpy-Inside s t zero m a h = refl
strncpy-Inside s t (suc n) m a h = elim (Bool-cases (m t == 0)) [
  | inl e ↦ rw (e, memset_lem (s + 1) 0 n (update m s (m t)) a) (ground (arith, h))
  | inr e ↦ rw e (
      strncpy-Inside (s + 1) (t + 1) n (update m s (m t)) a (ground (arith, h)) ∙ ground (arith, h))
]

strncpy-string :
    (s t n : ℕ) (m : Memory)
    → (s + n ≤ t) ⊎ (t + n ≤ s)
    → string_at n s (strncpy s t n m) ≡ string_at n t m
unfolding strncpy string_at
strncpy-string s t zero m h = refl
strncpy-string s t (suc n) m h = elim (Bool-cases (m t == 0)) [
  | inl e ↦ rw (e, memset_lem (s + 1) 0 n (update m s (m t)) s) (ground (arith, e))
  | inr e ↦
      rw
        (
          e,
          strncpy-Inside (s + 1) (t + 1) n (update m s (m t)) s (ground arith),
          update_self m s (m t) refl,
          e,
        )
        (ap (λ zs. m t ∷ zs)
          (strncpy-string (s + 1) (t + 1) n (update m s (m t)) (next h)
            ∙ string_at-update n (t + 1) s (m t) m (away h)))
]
  where
    next : (s + suc n ≤ t) ⊎ (t + suc n ≤ s) → (s + 1 + n ≤ t + 1) ⊎ (t + 1 + n ≤ s + 1)
    next (inl l) = inl (omega arith)
    next (inr l) = inr (omega arith)

    away : (s + suc n ≤ t) ⊎ (t + suc n ≤ s) → (s < t + 1) ⊎ (t + 1 + n ≤ s)
    away (inl l) = inl (omega arith)
    away (inr l) = inr (omega arith)

-- The first `n` bytes that `strncpy` leaves are read as the source string, cut to the count. It
-- changes no byte behind the count. Source and destination do not overlap.
pub strncpy_copies :
    (s t n : ℕ) (m : Memory)
    → (s + n ≤ t) ⊎ (t + n ≤ s)
    → (string_at n s (strncpy s t n m) ≡ string_at n t m) × Inside s n m (strncpy s t n m)
strncpy_copies s t n m h = (strncpy-string s t n m h, strncpy-Inside s t n m)

pub strncpy_small :
    (s t n : ℕ) (m : Memory) → ((a : ℕ) → m a < 256) → (a : ℕ) → strncpy s t n m a < 256
unfolding strncpy
strncpy_small s t zero m h a = h a
strncpy_small s t (suc n) m h a = elim (Bool-cases (m t == 0)) [
  | inl e ↦ rw (e, memset_lem (s + 1) 0 n (update m s (m t)) a) (ground (arith, h a, h t))
  | inr e ↦
      rw e (strncpy_small (s + 1) (t + 1) n (update m s (m t)) (λ b. ground (arith, h b, h t)) a)
]
