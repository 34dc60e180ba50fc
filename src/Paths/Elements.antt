-- ===== src/Paths/Elements.antt =====
-- kernel/fs.c: `skipelem` takes the elements of a path one by one.
use csse_332_final.Base.{
  ℕ, ◌≤◌, ◌<◌, ◌≡◌, refl, sym, ap, ap₂, ◌∙◌, ◌⊎◌, inl, inr, Bool, true, false, not, none, some,
  List, [], ◌∷◌, take, length, arith, ◌==◌, if◌then◌else◌, Bool-cases,
}
use csse_332_final.Paths.{slash, dirsiz, is_end, skip_slashes, take_element, skipelem}

-- The fields that the slashes of a path part, the first one by itself.
pub fields : List ℕ → List ℕ × List (List ℕ)
fields [] = ([], [])
fields (x ∷ xs) = let (f, fs) = fields xs in if x == slash then ([], f ∷ fs) else (x ∷ f, fs)

-- The fields that are not empty, each cut to the size of a name.
pub names : List (List ℕ) → List (List ℕ)
names [] = []
names (f ∷ fs) = let rest = names fs in if is_end f then rest else take dirsiz f ∷ rest

-- The elements of a path.
pub elements : List ℕ → List (List ℕ)
elements path = let (f, fs) = fields path in names (f ∷ fs)

elements-slash : (x : ℕ) (xs : List ℕ) → (x == slash) ≡ true → elements (x ∷ xs) ≡ elements xs
unfolding elements fields names
elements-slash x xs e = rw e

elements-skip_slashes : (path : List ℕ) → elements (skip_slashes path) ≡ elements path
unfolding skip_slashes
elements-skip_slashes [] = refl
elements-skip_slashes (x ∷ xs) = elim (Bool-cases (x == slash)) [
  | inl e ↦ rw e (elements-skip_slashes xs ∙ sym (elements-slash x xs e))
  | inr e ↦ rw e
]

pub length-skip_slashes : (path : List ℕ) → length (skip_slashes path) ≤ length path
unfolding skip_slashes
length-skip_slashes [] = omega arith
length-skip_slashes (x ∷ xs) = ground (arith, length-skip_slashes xs)

-- What is left begins with no slash.
abbrev pub at_element : List ℕ → Bool
at_element [] = true
at_element (x ∷ xs) = not (x == slash)

pub at_element-skip_slashes : (path : List ℕ) → at_element (skip_slashes path) ≡ true
unfolding skip_slashes
at_element-skip_slashes [] = refl
at_element-skip_slashes (x ∷ xs) = elim (Bool-cases (x == slash)) [
  | inl e ↦ rw e (at_element-skip_slashes xs)
  | inr e ↦ rw (e, e)
]

length-take_element : (path : List ℕ) → length (take_element path).1 ≤ length path
unfolding take_element
length-take_element [] = omega arith
length-take_element (x ∷ xs) = ground (arith, length-take_element xs)

fields-take_element :
    (path : List ℕ)
    → (fields path).0 ≡ (take_element path).0
      × (names (fields path).1 ≡ elements (take_element path).1)
unfolding take_element elements fields names
fields-take_element [] = (refl, refl)
fields-take_element (x ∷ xs) = elim (Bool-cases (x == slash)) [
  | inl e ↦ rw (e, e) (refl, refl)
  | inr e ↦ let ih = fields-take_element xs in rw e (ap (λ f. x ∷ f) ih.0, ih.1)
]

elements-take_element :
    (x : ℕ) (xs : List ℕ)
    → (x == slash) ≡ false
    → (elements (x ∷ xs)
        ≡ take dirsiz (take_element (x ∷ xs)).0 ∷ elements (take_element (x ∷ xs)).1)
      × (length (take_element (x ∷ xs)).1 < length (x ∷ xs))
unfolding elements fields names take_element
elements-take_element x xs e =
    let f = fields-take_element xs in
    (
      rw e (ap₂ (λ y ys. take dirsiz (x ∷ y) ∷ ys) f.0 f.1),
      rw e (omega (arith, length-take_element xs)),
    )

-- Where `skipelem` finds no name there is none, and where it finds one it is the first.
pub record Skips (path name rest : List ℕ) : Type 0 where
  pub found : skipelem path ≡ some (name, rest)
  pub first : elements path ≡ name ∷ elements rest
  pub shorter : length rest < length path
  pub ready : at_element rest ≡ true

pub skipelem-cases :
    (path : List ℕ)
    → ((skipelem path ≡ none) × (elements path ≡ []))
      ⊎ ((name : List ℕ) × (rest : List ℕ) × Skips path name rest)
unfolding skipelem elements fields names
skipelem-cases path = split (skip_slashes path) refl
  where
    split :
        (s : List ℕ)
        → skip_slashes path ≡ s
        → ((skipelem path ≡ none) × (elements path ≡ []))
          ⊎ ((name : List ℕ) × (rest : List ℕ) × Skips path name rest)
    split [] e = inl (rw (e, skipelem), sym (elements-skip_slashes path) ∙ ap elements e)
    split (x ∷ xs) e =
        let other : (x == slash) ≡ false =
          ground (arith, ap at_element e, at_element-skip_slashes path) in
        let t = elements-take_element x xs other in
        let rest = (take_element (x ∷ xs)).1 in
        inr (
          take dirsiz (take_element (x ∷ xs)).0,
          skip_slashes rest,
          record {
            found = rw (e, skipelem);
            first =
                sym (elements-skip_slashes path)
                ∙ ap elements e
                ∙ t.0
                ∙ ap (λ ys. take dirsiz (take_element (x ∷ xs)).0 ∷ ys)
                    (sym (elements-skip_slashes rest));
            shorter =
                omega (arith, t.1, length-skip_slashes rest, length-skip_slashes path, ap length e);
            ready = at_element-skip_slashes rest;
          },
        )

abbrev pub no_names : List (List ℕ) → Bool
no_names [] = true
no_names (_ ∷ _) = false

-- A path that does not begin with a slash has ended just where it has no element left.
pub no_names-elements :
    (rest : List ℕ) → at_element rest ≡ true → no_names (elements rest) ≡ is_end rest
unfolding elements fields names
no_names-elements [] h = refl
no_names-elements (x ∷ xs) h = ap no_names (elements-take_element x xs (ground (arith, h))).0
