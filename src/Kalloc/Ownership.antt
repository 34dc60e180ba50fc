-- ===== src/Kalloc/Ownership.antt =====
-- kernel/kalloc.c: who owns a page, over any interleaving of calls by any number of processes.
use csse_332_final.Base.{
  ℕ, ◌<◌, ◌≡◌, sym, ◌∙◌, ap, ◌≢◌, List, [], ◌∷◌, ◌++◌, append_assoc, subst, returns, arith, All,
  update,
}
use csse_332_final.Kalloc.{Kmem, kalloc, kfree}
use csse_332_final.Kalloc.FreeList.{
  Chain-update, NotIn, IsDistinct, IsPage, Frees, kalloc-Frees, kalloc_none, kfree_lem,
  push_page-Frees,
}

-- The allocator, and the pages that callers hold.
pub record System : Type 0 where
  pub mem : Kmem
  pub held : List ℕ

module _ (kernel_end : ℕ) where
  -- A caller frees only a page that it holds, and writes only to a page that it holds, be it over
  -- the word where the allocator keeps its link.
  pub data Step : System → System → Type 0 where
    allocates :
        {m m' : Kmem} {held : List ℕ} (p : ℕ)
        → p ≢ 0
        → kalloc m ≡ (p, m')
        → Step (record { mem = m; held = held }) (record { mem = m'; held = p ∷ held })
    fails :
        {m m' : Kmem} {held : List ℕ}
        → kalloc m ≡ (0, m')
        → Step (record { mem = m; held = held }) (record { mem = m'; held = held })
    frees :
        {m m' : Kmem} {held : List ℕ} (before after : List ℕ) (p : ℕ)
        → held ≡ before ++ (p ∷ after)
        → kfree kernel_end p m ≡ returns m'
        → Step (record { mem = m; held = held }) (record { mem = m'; held = before ++ after })
    writes :
        {m : Kmem} {held : List ℕ} (before after : List ℕ) (p v : ℕ)
        → held ≡ before ++ (p ∷ after)
        → Step
            (record { mem = m; held = held })
            (record { mem = record m { link = update m.link p v }; held = held })

  pub data Reach (s : System) : System → Type 0 where
    here : Reach s s
    next : {t u : System} → Reach s t → Step t u → Reach s u

  -- The free pages and the held pages are all different, and are all of them good pages.
  pub record Owned (s : System) : Type 0 where
    pub free : List ℕ
    pub frees_of : Frees kernel_end s.mem free
    pub apart : IsDistinct (s.held ++ free)
    pub held_pages : All (IsPage kernel_end) s.held

All-append : (P : ℕ → Type 0) (xs ys : List ℕ) → All P xs → All P ys → All P (xs ++ ys)
All-append P [] ys h k = k
All-append P (x ∷ xs) ys h k = (h.0, All-append P xs ys h.1 k)

All-split : (P : ℕ → Type 0) (xs ys : List ℕ) → All P (xs ++ ys) → All P xs × All P ys
All-split P [] ys h = (tt, h)
All-split P (x ∷ xs) ys h = let rest = All-split P xs ys h.1 in ((h.0, rest.0), rest.1)

-- Moving one item across others keeps a list distinct.
IsDistinct-move :
    (xs ys : List ℕ) (p : ℕ) → IsDistinct (xs ++ (p ∷ ys)) → IsDistinct (p ∷ (xs ++ ys))
IsDistinct-move [] ys p d = d
IsDistinct-move (x ∷ xs) ys p d =
    let rest = IsDistinct-move xs ys p d.1 in
    let out = All-split (λ q. q ≢ x) xs (p ∷ ys) d.0 in
    ((λ e. out.1.0 (sym e), rest.0), (All-append (λ q. q ≢ x) xs ys out.0 out.1.1, rest.1))

IsDistinct-back :
    (xs ys : List ℕ) (p : ℕ) → IsDistinct (p ∷ (xs ++ ys)) → IsDistinct (xs ++ (p ∷ ys))
IsDistinct-back [] ys p d = d
IsDistinct-back (x ∷ xs) ys p d =
    let out = All-split (λ q. q ≢ x) xs ys d.1.0 in
    (
      All-append (λ q. q ≢ x) xs (p ∷ ys) out.0 ((λ e. d.0.0 (sym e)), out.1),
      IsDistinct-back xs ys p (d.0.1, d.1.1),
    )

IsDistinct-left : (xs ys : List ℕ) → IsDistinct (xs ++ ys) → IsDistinct xs
IsDistinct-left [] ys d = tt
IsDistinct-left (x ∷ xs) ys d = ((All-split (λ q. q ≢ x) xs ys d.0).0, IsDistinct-left xs ys d.1)

-- The last of a middle is out of the rest.
NotIn-middle :
    (before after free : List ℕ) (p : ℕ)
    → IsDistinct ((before ++ (p ∷ after)) ++ free)
    → IsDistinct (p ∷ (before ++ (after ++ free)))
NotIn-middle before after free p d =
    IsDistinct-move before (after ++ free) p (rw (append_assoc before (p ∷ after) free) at d)

module _ (kernel_end : ℕ) (positive : 0 < kernel_end) where
  Step-Owned : {s t : System} → Step kernel_end s t → Owned kernel_end s → Owned kernel_end t
  Step-Owned (allocates {m} {m'} {held} p ne e) o = taken o.free o.frees_of o.apart
    where
      taken :
          (free : List ℕ)
          → Frees kernel_end m free
          → IsDistinct (held ++ free)
          → Owned kernel_end (record { mem = m'; held = p ∷ held })
      taken [] f d =
          absurd (ne (sym (ap (λ r. r.0) e) ∙ ap (λ r. r.0) (kalloc_none kernel_end positive f)))
      taken (q ∷ qs) f d =
          let got = kalloc-Frees kernel_end positive f in
          let same : q ≡ p = sym got.0 ∙ ap (λ r. r.0) e in
          record {
            free = qs;
            frees_of = subst (λ k. Frees kernel_end k qs) (ap (λ r. r.1) e) got.1;
            apart = subst (λ r. IsDistinct (r ∷ (held ++ qs))) same (IsDistinct-move held qs q d);
            held_pages = (subst (IsPage kernel_end) same f.pages.0, o.held_pages);
          }
  Step-Owned (fails {m} {m'} {held} e) o = kept o.free o.frees_of o.apart
    where
      kept :
          (free : List ℕ)
          → Frees kernel_end m free
          → IsDistinct (held ++ free)
          → Owned kernel_end (record { mem = m'; held = held })
      kept [] f d = record {
        free = [];
        frees_of =
            subst (λ k. Frees kernel_end k [])
              (ap (λ r. r.1) (sym (kalloc_none kernel_end positive f) ∙ e)) f;
        apart = d;
        held_pages = o.held_pages;
      }
      kept (q ∷ qs) f d =
          absurd (
            omega (arith, ap (λ r. r.0) e, (kalloc-Frees kernel_end positive f).0, f.pages.0.above))
  Step-Owned (frees {m} {m'} {held} before after p e w) o =
      let d = NotIn-middle before after o.free p (rw e at o.apart) in
      let hp = All-split (IsPage kernel_end) before (p ∷ after) (rw e at o.held_pages) in
      let out = All-split (λ q. q ≢ p) before (after ++ o.free) d.0 in
      record {
        free = p ∷ o.free;
        frees_of =
            subst (λ k. Frees kernel_end k (p ∷ o.free))
              (out_mem (sym (kfree_lem kernel_end positive m p hp.1.0) ∙ w))
              (push_page-Frees kernel_end positive p hp.1.0
                (All-split (λ q. q ≢ p) after o.free out.1).1 o.frees_of);
        apart =
            IsDistinct-back (before ++ after) o.free p (rw (append_assoc before after o.free) d);
        held_pages = All-append (IsPage kernel_end) before after hp.0 hp.1.1;
      }
    where
      out_mem : {a b : Kmem} → returns a ≡ returns b → a ≡ b
      out_mem q = cc
  Step-Owned (writes {m} {held} before after p v e) o =
      let d = NotIn-middle before after o.free p (rw e at o.apart) in
      let out = All-split (λ q. q ≢ p) before (after ++ o.free) d.0 in
      record {
        free = o.free;
        frees_of = record {
          chain =
              Chain-update m.link m.freelist p v o.free
                (All-split (λ q. q ≢ p) after o.free out.1).1 o.frees_of.chain;
          distinct = o.frees_of.distinct;
          pages = o.frees_of.pages;
        };
        apart = o.apart;
        held_pages = o.held_pages;
      }

  Reach-Owned : {s t : System} → Owned kernel_end s → Reach kernel_end s t → Owned kernel_end t
  Reach-Owned o here = o
  Reach-Owned o (next r st) = Step-Owned st (Reach-Owned o r)

-- However calls of `kalloc` and `kfree` and writes to held pages interleave, a page that `kalloc`
-- hands out is a good page that nobody holds, and no page is held twice.
pub kalloc_exclusive :
    {kernel_end p : ℕ} {s t : System} {m : Kmem}
    → 0 < kernel_end
    → Owned kernel_end s
    → Reach kernel_end s t
    → kalloc t.mem ≡ (p, m)
    → p ≢ 0
    → NotIn p t.held × IsPage kernel_end p × IsDistinct t.held
kalloc_exclusive {kernel_end} {p} {s} {t} {m} positive o r e ne =
    let o' =
      Step-Owned kernel_end positive (Step.allocates p ne e)
        (Reach-Owned kernel_end positive o r) in
    let apart = All-split (λ q. q ≢ p) t.held o'.free o'.apart.0 in
    (apart.0, o'.held_pages.0, IsDistinct-left t.held o'.free o'.apart.1)
