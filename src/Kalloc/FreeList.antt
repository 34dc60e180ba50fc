-- ===== src/Kalloc/FreeList.antt =====
-- kernel/kalloc.c: the free list as a list of pages.
use csse_332_final.Base.{
  ℕ, zero, suc, ◌+◌, ◌-◌, ◌*◌, ◌/◌, ◌%◌, ◌≤◌, ◌<◌, ◌≡◌, refl, sym, ◌≢◌, ◌⊎◌, inl, inr, List, [],
  ◌∷◌, returns, panics, arith, All, All-map, update, update_self, update-ne, ==_eq, ==_ne, le→leb,
  lt→leb, ℕ_discrete, dec_lt,
}
use csse_332_final.Kalloc.{
  page_size, phys_top, page_round_up, Kmem, push_page, kfree, free_from, kinit, kalloc,
}

abbrev pub NotIn : ℕ → List ℕ → Type 0
NotIn p ps = All (λ q. q ≢ p) ps

abbrev pub IsDistinct : List ℕ → Type 0
IsDistinct [] = Unit
IsDistinct (p ∷ ps) = NotIn p ps × IsDistinct ps

-- An aligned page between the kernel and the top of memory.
pub record IsPage (kernel_end p : ℕ) : Type 0 where
  pub aligned : p % page_size ≡ 0
  pub above : kernel_end ≤ p
  pub below : p < phys_top

-- Following the links from `head` visits the pages of the list, in order, and ends at null.
abbrev pub Chain : (ℕ → ℕ) → ℕ → List ℕ → Type 0
Chain link head [] = head ≡ 0
Chain link head (p ∷ ps) = (head ≡ p) × Chain link (link p) ps

pub record Frees (kernel_end : ℕ) (m : Kmem) (ps : List ℕ) : Type 0 where
  pub chain : Chain m.link m.freelist ps
  pub distinct : IsDistinct ps
  pub pages : All (IsPage kernel_end) ps

-- A write to a page outside the list does not disturb the list.
pub Chain-update :
    (link : ℕ → ℕ) (head p v : ℕ) (ps : List ℕ)
    → NotIn p ps
    → Chain link head ps
    → Chain (update link p v) head ps
Chain-update link head p v [] out c = c
Chain-update link head p v (q ∷ qs) out c = (
  c.0,
  rw (update-ne link p v (λ e. out.0 (sym e))) (Chain-update link (link q) p v qs out.1 c.1),
)

module _ (kernel_end : ℕ) (positive : 0 < kernel_end) where
  -- `kalloc` hands out the first page of a free list that has one, and keeps the rest.
  pub kalloc-Frees :
      {m : Kmem} {p : ℕ} {ps : List ℕ}
      → Frees kernel_end m (p ∷ ps)
      → ((kalloc m).0 ≡ p) × Frees kernel_end (kalloc m).1 ps
  unfolding kalloc
  kalloc-Frees {m} {p} {ps} f =
      rw (==_ne m.freelist 0 (omega (arith, f.chain.0, f.pages.0.above)), f.chain.0)
        (
          refl,
          record {
            chain = Chain-update m.link (m.link p) p _ ps f.distinct.0 f.chain.1;
            distinct = f.distinct.1;
            pages = f.pages.1;
          },
        )

  -- An empty free list: `kalloc` answers null and changes nothing.
  pub kalloc_none : {m : Kmem} → Frees kernel_end m [] → kalloc m ≡ (0, m)
  unfolding kalloc
  kalloc_none {m} f = rw (==_eq m.freelist 0 f.chain)

  pub kfree_lem :
      (m : Kmem) (p : ℕ) → IsPage kernel_end p → kfree kernel_end p m ≡ returns (push_page p m)
  unfolding kfree
  kfree_lem m p page = ground arith

  pub push_page-Frees :
      {m : Kmem} (p : ℕ) {ps : List ℕ}
      → IsPage kernel_end p
      → NotIn p ps
      → Frees kernel_end m ps
      → Frees kernel_end (push_page p m) (p ∷ ps)
  push_page-Frees {m} p {ps} page out f = record {
    chain = (
      refl,
      rw (update_self (update m.link p (1 * 0x0101010101010101)) p m.freelist refl) (
          Chain-update (update m.link p (1 * 0x0101010101010101)) m.freelist p m.freelist ps out
            (Chain-update m.link m.freelist p (1 * 0x0101010101010101) ps out f.chain)),
    );
    distinct = (out, f.distinct);
    pages = (page, f.pages);
  }

  -- `kfree` panics on an address that is not aligned, lies in the kernel or above the memory; of any
  -- other page that is not free it returns, and the page is the first that is free.
  pub kfree-Frees :
      {m : Kmem} (p : ℕ) {ps : List ℕ}
      → NotIn p ps
      → Frees kernel_end m ps
      → ((kfree kernel_end p m ≡ panics "kfree")
          × ((p % page_size ≢ 0) ⊎ ((p < kernel_end) ⊎ (phys_top ≤ p))))
        ⊎ (IsPage kernel_end p
            × (kfree kernel_end p m ≡ returns (push_page p m))
            × Frees kernel_end (push_page p m) (p ∷ ps))
  unfolding kfree
  kfree-Frees {m} p out f = elim (ℕ_discrete (p % page_size) 0) [
    | no odd ↦ inl (ground arith, inl odd)
    | yes aligned ↦ elim (dec_lt p kernel_end) [
      | yes low ↦ inl (ground arith, inr (inl low))
      | no above ↦ elim (dec_lt p phys_top) [
        | no high ↦ inl (ground arith, inr (inr (omega arith)))
        | yes below ↦
            let page : IsPage kernel_end p = record {
              aligned = aligned;
              above = omega arith;
              below = below;
            } in
            inr (page, kfree_lem m p page, push_page-Frees p page out f)
      ]
    ]
  ]

-- The pages that `freerange` frees: `k` of them from `p` up, the last one first.
abbrev pub pages_from : ℕ → ℕ → List ℕ → List ℕ
pages_from zero p acc = acc
pages_from (suc k) p acc = pages_from k (p + page_size) (p ∷ acc)

module _ (kernel_end : ℕ) (positive : 0 < kernel_end) where
  free_from-Frees :
      (fuel k p pa_end : ℕ) {m : Kmem} {ps : List ℕ}
      → k < fuel
      → p + k * page_size ≤ pa_end
      → pa_end < p + k * page_size + page_size
      → pa_end ≤ phys_top
      → p % page_size ≡ 0
      → kernel_end ≤ p
      → All (λ q. q < p) ps
      → Frees kernel_end m ps
      → (m' : Kmem) × (free_from kernel_end fuel p pa_end m ≡ returns m')
        × Frees kernel_end m' (pages_from k p ps)
  unfolding free_from
  free_from-Frees zero k p pa_end lt le gt top al ab older f = absurd (omega arith)
  free_from-Frees (suc fuel) zero p pa_end {m} lt le gt top al ab older f =
      (m, rw (lt→leb (p + page_size) pa_end (omega arith), free_from), f)
  free_from-Frees (suc fuel) (suc k) p pa_end {m} {ps} lt le gt top al ab older f =
      let page : IsPage kernel_end p = record { aligned = al; above = ab; below = omega arith } in
      let (m', e, f') =
        free_from-Frees fuel k (p + page_size) pa_end {m = push_page p m} {ps = p ∷ ps}
          (omega arith) (omega arith) (omega arith) top (omega arith) (omega arith)
          (omega arith, All-map (λ q h. omega arith) ps older)
          (push_page-Frees kernel_end positive p page (All-map (λ q h. omega arith) ps older) f) in
      (
        m',
        rw
            (
              le→leb (p + page_size) pa_end (omega arith),
              free_from,
              kfree_lem kernel_end positive m p page,
            )
            e,
        f',
      )

  -- At boot `kinit` returns, and every whole page between the kernel and the top of memory is free.
  pub kinit-Frees :
      (m : Kmem)
      → m.freelist ≡ 0
      → page_round_up kernel_end ≤ phys_top
      → (m' : Kmem) × (kinit kernel_end m ≡ returns m')
        × Frees kernel_end m' (
            pages_from
              ((phys_top - page_round_up kernel_end) / page_size)
              (page_round_up kernel_end)
              [])
  unfolding kinit
  kinit-Frees m e le =
      free_from-Frees (suc (phys_top / page_size))
        ((phys_top - page_round_up kernel_end) / page_size) (page_round_up kernel_end) phys_top
        (omega arith) (omega arith) (omega arith) (omega arith) (omega arith) (omega arith) tt
        (record { chain = e; distinct = tt; pages = tt })
