-- ===== src/Bio/Ring.antt =====
-- kernel/bio.c: the pointers of the ring as the list of the buffers from `head.next` on.
use csse_332_final.Base.{
  ℕ, ◌≡◌, ◌≢◌, refl, ◌∙◌, sym, ap, List, [], ◌∷◌, ◌⊎◌, inl, inr, ==_eq, ==_ne, ℕ_discrete, subst,
  update, update_self, update-ne,
}
use csse_332_final.Kalloc.FreeList.{NotIn, IsDistinct}
use csse_332_final.Bio.Order.{In, remove, NotIn-In, NotIn-remove, remove-IsDistinct}
use csse_332_final.Bio.{head, Links, link_front, unlink}

-- Behind `a` the pointers lead through the list to the head, and back.
abbrev pub Linked : Links → ℕ → List ℕ → Type 0
Linked r a [] = (r.next a ≡ head) × (r.prev head ≡ a)
Linked r a (b ∷ l) = (r.next a ≡ b) × (r.prev b ≡ a) × Linked r b l

-- The ring has the buffers of the list, each once.
pub record IsRing (r : Links) (l : List ℕ) : Type 0 where
  pub linked : Linked r head l
  pub distinct : IsDistinct l
  pub no_head : NotIn head l

-- The pointers of a buffer of the list lead to its neighbours.
prev-In :
    (r : Links) (a b : ℕ) (l : List ℕ) → Linked r a l → In b l → (r.prev b ≡ a) ⊎ In (r.prev b) l
prev-In r a b [] k i = absurd i
prev-In r a b (x ∷ l) k (inl e) = inl (ap r.prev e ∙ k.1)
prev-In r a b (x ∷ l) k (inr i) = inr (prev-In r x b l k.2 i)

next-In :
    (r : Links) (a b : ℕ) (l : List ℕ) → Linked r a l → In b l → (r.next b ≡ head) ⊎ In (r.next b) l
next-In r a b [] k i = absurd i
next-In r a b (x ∷ []) k (inl e) = inl (ap r.next e ∙ k.2.0)
next-In r a b (x ∷ y ∷ l) k (inl e) = inr (inr (inl (ap r.next e ∙ k.2.0)))
next-In r a b (x ∷ l) k (inr i) = elim (next-In r x b l k.2 i) [
  | inl e ↦ inl e
  | inr e ↦ inr (inr e)
]

-- Writes to pointers of other buffers.
Linked-frame :
    (r r' : Links) (a : ℕ) (l : List ℕ)
    → ((x : ℕ) → (x ≡ a) ⊎ In x l → r'.next x ≡ r.next x)
    → ((x : ℕ) → (x ≡ head) ⊎ In x l → r'.prev x ≡ r.prev x)
    → Linked r a l
    → Linked r' a l
Linked-frame r r' a [] n p k = (n a (inl refl) ∙ k.0, p head (inl refl) ∙ k.1)
Linked-frame r r' a (b ∷ l) n p k = (
  n a (inl refl) ∙ k.0,
  p b (inr (inl refl)) ∙ k.1,
  Linked-frame r r' b l (λ x h. n x (inr h))
      (λ x h. p x (elim h [ inl e ↦ inl e | inr e ↦ inr (inr e) ])) k.2,
)

module _ (r : Links) (b : ℕ) where
  abbrev cut : Links
  cut = record {
    next = update r.next (r.prev b) (r.next b);
    prev = update r.prev (r.next b) (r.prev b);
  }

  -- The first buffer behind `a` is cut out.
  cut_first :
      (a : ℕ) (l : List ℕ)
      → NotIn a l
      → NotIn b l
      → b ≢ a
      → NotIn head l
      → IsDistinct l
      → Linked r a (b ∷ l)
      → Linked cut a l
  cut_first a [] na nb ne nh d (ab, ba, k) = (
    update_self r.next (r.prev b) (r.next b) ba ∙ k.0,
    update_self r.prev (r.next b) (r.prev b) k.0 ∙ ba,
  )
  cut_first a (y ∷ l) na nb ne nh d (ab, ba, (by, yb, k)) = (
    update_self r.next (r.prev b) (r.next b) ba ∙ by,
    update_self r.prev (r.next b) (r.prev b) by ∙ ba,
    Linked-frame r cut y l
        (λ x h. update-ne r.next (r.prev b) (r.next b) (λ e. elim h [
          | inl q ↦ na.0 (sym q ∙ sym e ∙ ba)
          | inr i ↦ NotIn-In a x l na.1 i (sym e ∙ ba)
        ]))
        (λ x h. update-ne r.prev (r.next b) (r.prev b) (λ e. elim h [
          | inl q ↦ nh.0 (sym by ∙ e ∙ q)
          | inr i ↦ NotIn-In y x l d.0 i (sym e ∙ by)
        ]))
        k,
  )

  cut-Linked :
      (a : ℕ) (l : List ℕ)
      → In b l
      → NotIn a l
      → NotIn head l
      → IsDistinct l
      → Linked r a l
      → Linked cut a (remove b l)
  unfolding remove
  cut-Linked a [] i na nh d k = absurd i
  cut-Linked a (x ∷ l) i na nh d k = elim (ℕ_discrete x b) [
    | yes e ↦ rw (==_eq x b e) (
        cut_first a l na.1 (subst (λ z. NotIn z l) e d.0) (λ q. na.0 (e ∙ q)) nh.1 d.1
          (subst (λ z. Linked r a (z ∷ l)) e k))
    | no ne ↦
        let later : In b l = elim i [ inl q ↦ absurd (ne (sym q)) | inr j ↦ j ] in
        rw (==_ne x b ne) (
          update-ne r.next (r.prev b) (r.next b) (λ q. elim (prev-In r x b l k.2 later) [
            | inl p ↦ na.0 (sym p ∙ q)
            | inr j ↦ NotIn-In a (r.prev b) l na.1 j q
          ])
              ∙ k.0,
          update-ne r.prev (r.next b) (r.prev b) (λ q. elim (next-In r x b l k.2 later) [
            | inl p ↦ nh.0 (sym q ∙ p)
            | inr j ↦ NotIn-In x (r.next b) l d.0 j q
          ])
              ∙ k.1,
          cut-Linked x l later d.0 nh.1 d.1 k.2,
        )
  ]

  unlink-cut : r.next b ≢ b → unlink b r ≡ cut
  unfolding unlink
  unlink-cut ne =
      ap
        (λ p. record {
          next = update r.next p (r.next b);
          prev = update r.prev (r.next b) (r.prev b);
        })
        (update-ne r.prev (r.next b) (r.prev b) ne)

  abbrev first_next : ℕ → ℕ
  first_next = update r.next b (r.next head)

  abbrev first_prev : ℕ → ℕ
  first_prev = update r.prev b head

  abbrev pushed : Links
  pushed = record {
    next = update (update r.next b (r.next head)) head b;
    prev = update (update r.prev b head) (r.next head) b;
  }

  push-Linked :
      (l : List ℕ)
      → NotIn b l
      → b ≢ head
      → NotIn head l
      → IsDistinct l
      → Linked r head l
      → Linked pushed head (b ∷ l)
  push-Linked [] nb ne nh d k = (
    update_self first_next head b refl,
    update-ne first_prev (r.next head) b (λ q. ne (sym q ∙ k.0)) ∙ update_self r.prev b head refl,
    (
      update-ne first_next head b (λ q. ne (sym q)) ∙ update_self r.next b (r.next head) refl ∙ k.0,
      update_self first_prev (r.next head) b k.0,
    ),
  )
  push-Linked (y ∷ l) nb ne nh d k = (
    update_self first_next head b refl,
    update-ne first_prev (r.next head) b (λ q. nb.0 (sym k.0 ∙ q)) ∙ update_self r.prev b head refl,
    (
      update-ne first_next head b (λ q. ne (sym q)) ∙ update_self r.next b (r.next head) refl ∙ k.0,
      update_self first_prev (r.next head) b k.0,
      Linked-frame r pushed y l
          (λ x h. elim h [
            | inl q ↦ spared x (λ z. nh.0 (sym q ∙ sym z)) (λ z. nb.0 (sym q ∙ sym z))
            | inr i ↦
                spared x (λ z. NotIn-In head x l nh.1 i (sym z))
                  (λ z. NotIn-In b x l nb.1 i (sym z))
          ])
          (λ x h. elim h [
            | inl q ↦ spared_prev x (λ z. nh.0 (sym k.0 ∙ z ∙ q)) (λ z. ne (z ∙ q))
            | inr i ↦
                spared_prev x (λ z. NotIn-In y x l d.0 i (sym z ∙ k.0))
                  (λ z. NotIn-In b x l nb.1 i (sym z))
          ])
          k.2,
    ),
  )
    where
      spared : (x : ℕ) → head ≢ x → b ≢ x → pushed.next x ≡ r.next x
      spared x h n =
          update-ne (update r.next b (r.next head)) head b h ∙ update-ne r.next b (r.next head) n

      spared_prev : (x : ℕ) → r.next head ≢ x → b ≢ x → pushed.prev x ≡ r.prev x
      spared_prev x h n =
          update-ne (update r.prev b head) (r.next head) b h ∙ update-ne r.prev b head n

  link_front-pushed : b ≢ head → link_front b r ≡ pushed
  unfolding link_front
  link_front-pushed ne =
      ap
        (λ n. record {
          next = update (update r.next b (r.next head)) head b;
          prev = update (update r.prev b head) n b;
        })
        (update-ne r.next b (r.next head) ne)

next-ne :
    (r : Links) (a b : ℕ) (l : List ℕ)
    → In b l
    → NotIn head l
    → IsDistinct l
    → Linked r a l
    → r.next b ≢ b
next-ne r a b [] i nh d k = absurd i
next-ne r a b (x ∷ []) (inl e) nh d k = λ q. nh.0 (sym e ∙ sym q ∙ ap r.next e ∙ k.2.0)
next-ne r a b (x ∷ y ∷ l) (inl e) nh d k = λ q. d.0.0 (sym k.2.0 ∙ ap r.next (sym e) ∙ q ∙ e)
next-ne r a b (x ∷ l) (inr i) nh d k = next-ne r x b l i nh.1 d.1 k.2

pub unlink-IsRing :
    (b : ℕ) (r : Links) (l : List ℕ) → In b l → IsRing r l → IsRing (unlink b r) (remove b l)
unlink-IsRing b r l i v = record {
  linked =
      subst (λ s. Linked s head (remove b l))
        (sym (unlink-cut r b (next-ne r head b l i v.no_head v.distinct v.linked)))
        (cut-Linked r b head l i v.no_head v.no_head v.distinct v.linked);
  distinct = (remove-IsDistinct b l v.distinct).0;
  no_head = NotIn-remove head b l v.no_head;
}

pub link_front-IsRing :
    (b : ℕ) (r : Links) (l : List ℕ)
    → NotIn b l
    → b ≢ head
    → IsRing r l
    → IsRing (link_front b r) (b ∷ l)
link_front-IsRing b r l out ne v = record {
  linked =
      subst (λ s. Linked s head (b ∷ l)) (sym (link_front-pushed r b ne))
        (push-Linked r b l out ne v.no_head v.distinct v.linked);
  distinct = (out, v.distinct);
  no_head = (ne, v.no_head);
}

-- `brelse` takes a buffer out of the ring and puts it at the front.
pub front-IsRing :
    (b : ℕ) (r : Links) (l : List ℕ)
    → In b l
    → IsRing r l
    → IsRing (link_front b (unlink b r)) (b ∷ remove b l)
front-IsRing b r l i v =
    link_front-IsRing b (unlink b r) (remove b l) (remove-IsDistinct b l v.distinct).1
      (NotIn-In head b l v.no_head i) (unlink-IsRing b r l i v)
