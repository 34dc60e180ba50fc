-- ===== src/Base/Runs.antt =====
-- A call of a kernel function either returns or panics. `panic` of kernel/printf.c never returns.
use Prim.Native.String.{String}
use mathlib.Core.Path.{◌≡◌, refl}

pub data Run {ℓ} (A : Type ℓ) : Type ℓ where
  returns : A → Run A
  panics : String → Run A

infixl 5 ◌>>=◌ ◌>>◌
abbrev pub ◌>>=◌ {ℓ κ} : {A : Type ℓ} {B : Type κ} → Run A → (A → Run B) → Run B
returns a >>= f = f a
panics s >>= f = panics s

abbrev pub ◌>>◌ {ℓ} : {B : Type ℓ} → Run (Unit {0}) → Run B → Run B
m >> k = m >>= λ _. k

-- Inversion of a bind that returns.
pub >>=-eq-returns {ℓ κ} :
    {A : Type ℓ} {B : Type κ} (m : Run A) (f : A → Run B) {b : B}
    → (m >>= f) ≡ returns b
    → (a : A) × (m ≡ returns a) × (f a ≡ returns b)
>>=-eq-returns (returns a) f h = (a, refl, h)
>>=-eq-returns (panics s) f h = cc

-- What does not panic returns.
pub returns_of_ne {ℓ} :
    {A : Type ℓ} (m : Run A) → ((s : String) → m ≡ panics s → ⊥) → (a : A) × (m ≡ returns a)
returns_of_ne (returns a) h = (a, refl)
returns_of_ne (panics s) h = absurd (h s refl)
