-- ===== src/Bio/Order.antt =====
-- kernel/bio.c: the buffers of the ring in their order, without the pointers.
use csse_332_final.Base.{
  ℕ, suc, ◌≡◌, ◌≢◌, refl, ◌∙◌, sym, ap, List, [], ◌∷◌, ◌⊎◌, inl, inr, ◌==◌, ==_eq, ==_ne,
  ℕ_discrete, if◌then◌else◌, subst, All, length,
}
use csse_332_final.Kalloc.FreeList.{NotIn, IsDistinct}

abbrev pub In : ℕ → List ℕ → Type 0
In x [] = ⊥
In x (y ∷ l) = (x ≡ y) ⊎ In x l

unfoldable pub remove : ℕ → List ℕ → List ℕ
remove b [] = []
remove b (x ∷ l) = let rest = remove b l in if x == b then l else x ∷ rest

pub NotIn-In : (x y : ℕ) (l : List ℕ) → NotIn x l → In y l → y ≢ x
NotIn-In x y [] n i = absurd i
NotIn-In x y (z ∷ l) n (inl e) = λ q. n.0 (sym e ∙ q)
NotIn-In x y (z ∷ l) n (inr i) = NotIn-In x y l n.1 i

pub NotIn-remove : (x b : ℕ) (l : List ℕ) → NotIn x l → NotIn x (remove b l)
unfolding remove
NotIn-remove x b [] n = tt
NotIn-remove x b (y ∷ l) n = elim (ℕ_discrete y b) [
  | yes e ↦ rw (==_eq y b e) n.1
  | no ne ↦ rw (==_ne y b ne) (n.0, NotIn-remove x b l n.1)
]

pub remove-IsDistinct :
    (b : ℕ) (l : List ℕ) → IsDistinct l → IsDistinct (remove b l) × NotIn b (remove b l)
unfolding remove
remove-IsDistinct b [] d = (tt, tt)
remove-IsDistinct b (y ∷ l) d = elim (ℕ_discrete y b) [
  | yes e ↦ rw (==_eq y b e) (d.1, subst (λ z. NotIn z l) e d.0)
  | no ne ↦
      let (later, out) = remove-IsDistinct b l d.1 in
      rw (==_ne y b ne) ((NotIn-remove y b l d.0, later), (ne, out))
]

pub In-front : (b x : ℕ) (l : List ℕ) → In x l → In x (b ∷ remove b l)
unfolding remove
In-front b x [] h = absurd h
In-front b x (y ∷ l) h = elim (ℕ_discrete y b) [
  | yes e ↦ rw (==_eq y b e) (elim h [ inl a ↦ inl (a ∙ e) | inr a ↦ inr a ])
  | no ne ↦ rw (==_ne y b ne) (elim h [
    | inl a ↦ inr (inl a)
    | inr a ↦ elim (In-front b x l a) [ inl c ↦ inl c | inr c ↦ inr (inr c) ]
  ])
]

pub All-remove : (P : ℕ → Type 0) (b : ℕ) (l : List ℕ) → All P l → All P (remove b l)
unfolding remove
All-remove P b [] h = tt
All-remove P b (y ∷ l) h = elim (ℕ_discrete y b) [
  | yes e ↦ rw (==_eq y b e) h.1
  | no ne ↦ rw (==_ne y b ne) (h.0, All-remove P b l h.1)
]

pub length-remove : (b : ℕ) (l : List ℕ) → In b l → length l ≡ suc (length (remove b l))
unfolding remove
length-remove b [] h = absurd h
length-remove b (y ∷ l) h = elim (ℕ_discrete y b) [
  | yes e ↦ rw (==_eq y b e) refl
  | no ne ↦
      rw (==_ne y b ne)
        (elim h [ inl e ↦ absurd (ne (sym e)) | inr i ↦ ap suc (length-remove b l i) ])
]
