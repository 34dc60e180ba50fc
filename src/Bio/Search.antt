-- ===== src/Bio/Search.antt =====
-- kernel/bio.c: the two loops of `bget`.
use csse_332_final.Base.{
  ℕ, zero, suc, ◌≤◌, ◌≡◌, ◌≢◌, refl, ◌∙◌, sym, ap, arith, true, false, Option, none, some, List, [],
  ◌∷◌, ◌++◌, append-nil, append_assoc, ◌+◌, inl, inr, Bool-cases, ==_eq, ==_ne, ℕ_discrete, subst,
  length,
}
use csse_332_final.Kalloc.FreeList.{NotIn}
use csse_332_final.Bio.{head, Links, Buf, is_block, find_block, find_unused}
use csse_332_final.Bio.Order.{In}
use csse_332_final.Bio.Ring.{Linked, IsRing}

abbrev pub IsBlock : ℕ → ℕ → Buf → Type 0
IsBlock dev blockno b = (b.dev ≡ dev) × (b.blockno ≡ blockno)

is_block-IsBlock :
    (dev blockno : ℕ) (b : Buf) → is_block dev blockno b ≡ true → IsBlock dev blockno b
is_block-IsBlock dev blockno b h = (ground arith, ground arith)

not_block : (dev blockno : ℕ) (b : Buf) → is_block dev blockno b ≡ false → IsBlock dev blockno b → ⊥
not_block dev blockno b h r = ground arith

-- A block that the first loop looks for.
abbrev pub Finds : ℕ → ℕ → (ℕ → Buf) → List ℕ → Option ℕ → Type 0
Finds dev blockno t l (some i) = In i l × IsBlock dev blockno (t i)
Finds dev blockno t l none = (j : ℕ) → In j l → IsBlock dev blockno (t j) → ⊥

pub find_block-Finds :
    (dev blockno : ℕ) (t : ℕ → Buf) (r : Links) (k a : ℕ) (l : List ℕ)
    → length l ≤ k
    → NotIn head l
    → Linked r a l
    → Finds dev blockno t l (find_block dev blockno t r.next k (r.next a))
unfolding find_block
find_block-Finds dev blockno t r zero a [] h nh v = λ j m e. m
find_block-Finds dev blockno t r (suc k) a [] h nh v = rw (==_eq (r.next a) head v.0) (λ j m e. m)
find_block-Finds dev blockno t r zero a (x ∷ l) h nh v = absurd (omega (arith, h))
find_block-Finds dev blockno t r (suc k) a (x ∷ l) h nh v =
    rw (v.0, ==_ne x head nh.0)
      (elim (Bool-cases (is_block dev blockno (t x))) [
        | inl e ↦ rw e (inl refl, is_block-IsBlock dev blockno (t x) e)
        | inr e ↦ rw e (
            later (find_block dev blockno t r.next k (r.next x)) (not_block dev blockno (t x) e)
              (find_block-Finds dev blockno t r k x l (omega (arith, h)) nh.1 v.2))
      ])
  where
    later :
        (o : Option ℕ)
        → (IsBlock dev blockno (t x) → ⊥)
        → Finds dev blockno t l o
        → Finds dev blockno t (x ∷ l) o
    later (some j) n f = (inr f.0, f.1)
    later none n f =
        λ j m q. elim m [ inl e ↦ n (subst (λ z. IsBlock dev blockno (t z)) e q) | inr m ↦ f j m q ]

abbrev pub InUse : (ℕ → Buf) → List ℕ → Type 0
InUse t l = (x : ℕ) → In x l → (t x).refcnt ≢ 0

-- The buffer that is not in use, with only buffers in use behind it.
abbrev pub IsLast : (ℕ → Buf) → List ℕ → Option ℕ → Type 0
IsLast t l (some i) =
    (xs : List ℕ) × (ys : List ℕ) × (l ≡ xs ++ i ∷ ys) × ((t i).refcnt ≡ 0) × InUse t ys
IsLast t l none = InUse t l

-- The list backwards, before `acc`.
rev_onto : List ℕ → List ℕ → List ℕ
rev_onto [] acc = acc
rev_onto (x ∷ l) acc = rev_onto l (x ∷ acc)

rev_onto-append : (l acc : List ℕ) → rev_onto l acc ≡ rev_onto l [] ++ acc
unfolding rev_onto
rev_onto-append [] acc = refl
rev_onto-append (x ∷ l) acc =
    rev_onto-append l (x ∷ acc)
    ∙ sym (append_assoc (rev_onto l []) (x ∷ []) acc)
    ∙ ap (λ m. m ++ acc) (sym (rev_onto-append l (x ∷ [])))

rev_onto_twice : (l a b : List ℕ) → rev_onto (rev_onto l a) b ≡ rev_onto a (l ++ b)
unfolding rev_onto
rev_onto_twice [] a b = refl
rev_onto_twice (x ∷ l) a b = rev_onto_twice l (x ∷ a) b

length-rev_onto : (l a : List ℕ) → length (rev_onto l a) ≡ length l + length a
unfolding rev_onto
length-rev_onto [] a = omega arith
length-rev_onto (x ∷ l) a = length-rev_onto l (x ∷ a) ∙ omega arith

NotIn-rev_onto : (x : ℕ) (l a : List ℕ) → NotIn x l → NotIn x a → NotIn x (rev_onto l a)
unfolding rev_onto
NotIn-rev_onto x [] a n m = m
NotIn-rev_onto x (y ∷ l) a n m = NotIn-rev_onto x l (y ∷ a) n.1 (n.0, m)

-- From `b` the pointers `prev` lead through the list to the head.
abbrev Back : Links → ℕ → List ℕ → Type 0
Back r b [] = r.prev b ≡ head
Back r b (x ∷ l) = (r.prev b ≡ x) × Back r x l

Linked-Back :
    (r : Links) (a : ℕ) (l acc : List ℕ)
    → Back r a acc
    → Linked r a l
    → Back r head (rev_onto l (a ∷ acc))
unfolding rev_onto
Linked-Back r a [] acc b k = (k.1, b)
Linked-Back r a (x ∷ l) acc b k = Linked-Back r x l (a ∷ acc) (k.1, b) k.2

ring-Back : (r : Links) (l : List ℕ) → Linked r head l → Back r head (rev_onto l [])
unfolding rev_onto
ring-Back r [] k = k.1
ring-Back r (x ∷ l) k = Linked-Back r x l [] k.1 k.2

Back-IsLast :
    (t : ℕ → Buf) (r : Links) (k b : ℕ) (rs ys : List ℕ)
    → length rs ≤ k
    → NotIn head rs
    → Back r b rs
    → InUse t ys
    → IsLast t (rev_onto rs ys) (find_unused t r.prev k (r.prev b))
unfolding find_unused rev_onto
Back-IsLast t r zero b [] ys h nh v u = u
Back-IsLast t r (suc k) b [] ys h nh v u = rw (==_eq (r.prev b) head v) u
Back-IsLast t r zero b (x ∷ rs) ys h nh v u = absurd (omega (arith, h))
Back-IsLast t r (suc k) b (x ∷ rs) ys h nh v u =
    rw (v.0, ==_ne x head nh.0)
      (elim (ℕ_discrete (t x).refcnt 0) [
        | yes z ↦
            rw (==_eq (t x).refcnt 0 z) (rev_onto rs [], ys, rev_onto-append rs (x ∷ ys), z, u)
        | no ne ↦ rw (==_ne (t x).refcnt 0 ne) (
            Back-IsLast t r k x rs (x ∷ ys) (omega (arith, h)) nh.1 v.1 (λ y m. elim m [
              | inl e ↦ λ z. ne (ap (λ q. (t q).refcnt) (sym e) ∙ z)
              | inr m ↦ u y m
            ]))
      ])

pub find_unused-IsLast :
    (t : ℕ → Buf) (r : Links) (k : ℕ) (l : List ℕ)
    → length l ≤ k
    → IsRing r l
    → IsLast t l (find_unused t r.prev k (r.prev head))
unfolding rev_onto
find_unused-IsLast t r k l h v =
    subst (λ m. IsLast t m (find_unused t r.prev k (r.prev head)))
      (rev_onto_twice l [] [] ∙ append-nil l)
      (Back-IsLast t r k head (rev_onto l []) [] (omega (arith, h, length-rev_onto l []))
        (NotIn-rev_onto head l [] v.no_head tt) (ring-Back r l v.linked) (λ x m. absurd m))

pub In-middle : (xs ys : List ℕ) (i : ℕ) → In i (xs ++ i ∷ ys)
In-middle [] ys i = inl refl
In-middle (x ∷ xs) ys i = inr (In-middle xs ys i)
