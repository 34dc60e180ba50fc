-- ===== src/Vm/Space/Remove.antt =====
-- kernel/vm.c: `uvmunmap` takes pages away and frees them.
use csse_332_final.Base.{
  ℕ, zero, suc, ◌+◌, ◌*◌, ◌/◌, ◌≤◌, ◌<◌, ◌≡◌, ◌≢◌, refl, ◌∙◌, sym, ap, fun_ext, subst, Bool, true,
  false, ◌&&◌, some, List, ◌∷◌, arith, length, ◌==◌, ==_eq, ==_ne, if◌then◌else◌, leb, ltb, returns,
  ℕ_discrete, update, update_self, update-ne,
}
use csse_332_final.Kalloc.{page_size, push_page}
use csse_332_final.Kalloc.FreeList.{IsPage, kfree_lem, push_page-Frees}
use csse_332_final.Vm.{Vm, max_va, px, is_valid, pte2pa, pte_flags, set_entry, walk, unmap_from}
use csse_332_final.Vm.Paths.{desc, indices, pte-same}
use csse_332_final.Vm.Grow.{IsOther}
use csse_332_final.Vm.Write.{written, written-IsTree, written-IsOther, same_desc, pte-written}
use csse_332_final.Vm.Space.Pages.{IsOwned, entry, IsSpace, IsTree-kmem, found}

update-true : (has : ℕ → Bool) (p q : ℕ) → update has p false q ≡ true → (p ≢ q) × (has q ≡ true)
update-true has p q h = elim (ℕ_discrete p q) [
  | yes e ↦ absurd (differ (sym (update_self has p false e) ∙ h))
  | no ne ↦ (ne, sym (update-ne has p false ne) ∙ h)
]
  where
    differ : ◌≡◌ {A = Bool} false true → ⊥
    differ e = cc

module _ (kernel_end root limit : ℕ) (positive : 0 < kernel_end) (free : List ℕ) (has : ℕ → Bool)
    (s : Vm) (v : IsSpace kernel_end root limit free has s) (below : limit * page_size ≤ max_va)
    (p b : ℕ) (l : p < limit) (h : has p ≡ true)
    (at : desc s.tables root (indices 2 (p * page_size)) ≡ some b) where
  va_below : p * page_size < max_va
  va_below = omega (arith, l, below)

  abbrev pa : ℕ
  pa = pte2pa (entry root s p)

  abbrev pub cleared : Vm
  cleared = record {
    tables = set_entry s.tables b (px 0 (p * page_size)) 0;
    kmem = push_page (pte2pa (entry root s p)) s.kmem;
  }

  entry-cleared :
      (q : ℕ) → q < limit → entry root cleared q ≡ (if p == q then 0 else entry root s q)
  entry-cleared q lq =
      pte-same root (q * page_size)
        (written kernel_end root free s v.tree (p * page_size) b 0 va_below at) cleared refl
      ∙ pte-written kernel_end root free s v.tree (p * page_size) b 0 va_below at (q * page_size)
          (omega (arith, lq, below))
      ∙ ap (λ c. if c then 0 else entry root s q)
          (elim (ℕ_discrete p q) [
            | yes e ↦
                ==_eq (q * page_size / 4096) (p * page_size / 4096) (omega (arith, e))
                ∙ sym (==_eq p q e)
            | no ne ↦
                ==_ne (q * page_size / 4096) (p * page_size / 4096) (omega (arith, ne))
                ∙ sym (==_ne p q ne)
          ])

  pub kept : (q : ℕ) → q < limit → p ≢ q → entry root cleared q ≡ entry root s q
  kept q lq ne = entry-cleared q lq ∙ rw (==_ne p q ne) refl

  owned : IsOwned kernel_end root free s (entry root s p)
  owned = v.present p l h

  IsOther-cleared : (x : ℕ) → x ≢ pa → IsOther root free s x → IsOther root (pa ∷ free) cleared x
  IsOther-cleared x ne o = record {
    not_free = (λ e. ne (sym e), o.not_free);
    no_table =
        (written-IsOther kernel_end root free s v.tree (p * page_size) b 0 va_below at x
          o).no_table;
  }

  pub cleared-IsSpace : IsSpace kernel_end root limit (pa ∷ free) (update has p false) cleared
  cleared-IsSpace = record {
    tree =
        IsTree-kmem kernel_end root free (pa ∷ free)
          (written kernel_end root free s v.tree (p * page_size) b 0 va_below at)
          (push_page pa s.kmem)
          (written-IsTree kernel_end root free s v.tree (p * page_size) b 0 va_below at)
          (push_page-Frees kernel_end positive pa owned.page owned.other.not_free v.tree.frees)
          (λ q a k d.
            let d2 =
              sym (same_desc kernel_end root free s v.tree (p * page_size) b 0 va_below at q k)
              ∙ d in
            (λ e. owned.other.no_table q a k d2 (sym e), (v.tree.pages q a k d2).1));
    absent = λ q lq no_page. ap is_valid (entry-cleared q lq) ∙ gone q lq no_page;
    present = λ q lq yes_page.
        let (ne, hq) = update-true has p q yes_page in
        let o = v.present q lq hq in
        subst (IsOwned kernel_end root (pa ∷ free) cleared) (sym (kept q lq ne)) (record {
          valid = o.valid;
          leaf = o.leaf;
          page = o.page;
          other =
              IsOther-cleared (pte2pa (entry root s q)) (λ e. ne (v.apart p q l lq h hq (sym e)))
                o.other;
        });
    apart = λ q r lq lr yq yr e.
        let (nq, hq) = update-true has p q yq in
        let (nr, hr) = update-true has p r yr in
        v.apart q r lq lr hq hr (sym (ap pte2pa (kept q lq nq)) ∙ e ∙ ap pte2pa (kept r lr nr));
  }
    where
      gone :
          (q : ℕ)
          → q < limit
          → update has p false q ≡ false
          → is_valid (if p == q then 0 else entry root s q) ≡ false
      gone q lq e = elim (ℕ_discrete p q) [
        | yes same ↦ rw (==_eq p q same) refl
        | no ne ↦ rw (==_ne p q ne) (v.absent q lq (sym (update-ne has p false ne) ∙ e))
      ]

-- `has` without the `k` pages from `p` on.
abbrev pub cut : ℕ → ℕ → (ℕ → Bool) → ℕ → Bool
cut p k has q = if leb p q && ltb q (p + k) then false else has q

cut-zero : (p : ℕ) (has : ℕ → Bool) (q : ℕ) → has q ≡ cut p 0 has q
cut-zero p has q = ground arith

cut-suc :
    (p k : ℕ) (has : ℕ → Bool) (q : ℕ) → cut (suc p) k (update has p false) q ≡ cut p (suc k) has q
cut-suc p k has q = ground arith

module _ (kernel_end root limit : ℕ) (positive : 0 < kernel_end)
    (below : limit * page_size ≤ max_va) where
  unmap_from-step :
      (k a : ℕ) (s : Vm) (t i e : ℕ)
      → walk root a false s ≡ returns (some (t, i), s)
      → s.tables t i ≡ e
      → is_valid e ≡ true
      → pte_flags e ≢ 1
      → IsPage kernel_end (pte2pa e)
      → unmap_from kernel_end true root (suc k) a s
        ≡ unmap_from kernel_end true root k
            (a + page_size)
            (record { tables = set_entry s.tables t i 0; kmem = push_page (pte2pa e) s.kmem })
  unfolding unmap_from
  unmap_from-step k a s t i e w at valid leaf page =
      rw
        (
          w,
          unmap_from,
          ap is_valid at ∙ valid,
          ==_ne (pte_flags (s.tables t i)) 1 (λ z. leaf (sym (ap pte_flags at) ∙ z)),
          kfree_lem kernel_end positive s.kmem (pte2pa (s.tables t i))
              (subst (IsPage kernel_end) (ap pte2pa (sym at)) page),
        )
        (ap
          (λ g.
            unmap_from kernel_end true root k (a + page_size)
              (record { tables = set_entry s.tables t i 0; kmem = push_page (pte2pa g) s.kmem }))
          at)

  -- Pages that are all present are unmapped and freed, and nothing else is changed.
  pub unmap_from-Frees :
      (k p : ℕ) (free : List ℕ) (has : ℕ → Bool) (s : Vm)
      → p + k ≤ limit
      → ((q : ℕ) → p ≤ q → q < p + k → has q ≡ true)
      → IsSpace kernel_end root limit free has s
      → (free' : List ℕ) × (s' : Vm) × (unmap_from kernel_end true root k (p * page_size) s
          ≡ returns s')
        × IsSpace kernel_end root limit free' (cut p k has) s'
        × (length free' ≡ k + length free)
        × ((q : ℕ) → q < p → entry root s' q ≡ entry root s q)
  unfolding unmap_from
  unmap_from-Frees zero p free has s h all v = (
    free,
    s,
    refl,
    subst (λ f. IsSpace kernel_end root limit free f s) (fun_ext (cut-zero p has)) v,
    omega arith,
    λ q x. refl,
  )
  unmap_from-Frees (suc k) p free has s h all v =
      let l : p < limit = omega (arith, h) in
      let hp = all p (omega arith) (omega arith) in
      let (b, d, w, at) = found kernel_end root limit positive free has s v below p l hp in
      let o = v.present p l hp in
      let s1 = cleared kernel_end root limit positive free has s v below p b l hp d in
      let (free', s', e, v', count, same) =
        unmap_from-Frees k (suc p) (pte2pa (entry root s p) ∷ free) (update has p false) s1
          (omega (arith, h))
          (λ q x y.
            update-ne has p false (omega (arith, x)) ∙ all q (omega arith) (omega (arith, y)))
          (cleared-IsSpace kernel_end root limit positive free has s v below p b l hp d) in
      (
        free',
        s',
        unmap_from-step k (p * page_size) s b (px 0 (p * page_size)) (entry root s p) w at o.valid
              o.leaf o.page
            ∙ ap (λ a. unmap_from kernel_end true root k a s1) (omega arith)
            ∙ e,
        subst (λ f. IsSpace kernel_end root limit free' f s') (fun_ext (cut-suc p k has)) v',
        omega (arith, count),
        λ q x.
            same q (omega arith)
            ∙ kept kernel_end root limit positive free has s v below p b l hp d q (omega (arith, l))
                (omega (arith, x)),
      )
