-- ===== src/Vm/Space/Add.antt =====
-- kernel/vm.c: a page that `kalloc` gives is mapped, or given back.
use csse_332_final.Base.{
  ℕ, ◌+◌, ◌*◌, ◌/◌, ◌%◌, ◌^◌, ◌≤◌, ◌<◌, ◌≡◌, ◌≢◌, refl, ◌∙◌, sym, ap, subst, Bool, true, false,
  List, ◌∷◌, arith, ◌==◌, ==_eq, ==_ne, if◌then◌else◌, returns, dec_lt, ℕ_discrete, update,
  update_self, update-ne,
}
use csse_332_final.Kalloc.{page_size, push_page, kalloc}
use csse_332_final.Kalloc.FreeList.{IsPage, kalloc-Frees, push_page-Frees}
use csse_332_final.Vm.{Vm, max_va, page_round_down, is_valid, pte2pa, pte_flags, make_pte, mappages}
use csse_332_final.Vm.Entries.{make_pte-reads}
use csse_332_final.Vm.Paths.{pte-page, pte-same}
use csse_332_final.Vm.Grow.{IsOther, IsPage-IsFrame}
use csse_332_final.Vm.Map.{
  Mapped, Unmapped, mapped_entry, within, within_yes, within_low, within_high,
}
use csse_332_final.Vm.Lookup.{page_count, mappages-Mapped}
use csse_332_final.Vm.Space.Pages.{IsOwned, entry, IsSpace, IsTree-kmem}

-- The space where a page of memory that it does not use is taken from the free list, or put there.
module _ (kernel_end root limit : ℕ) (positive : 0 < kernel_end) (has : ℕ → Bool) (s : Vm) (f : ℕ)
    (ps : List ℕ) where
  abbrev pub taken : Vm
  taken = record s { kmem = (kalloc s.kmem).1 }

  pub taken-IsSpace :
      IsSpace kernel_end root limit (f ∷ ps) has s → IsSpace kernel_end root limit ps has taken
  taken-IsSpace v = record {
    tree =
        IsTree-kmem kernel_end root (f ∷ ps) ps s (kalloc s.kmem).1 v.tree
          (kalloc-Frees kernel_end positive v.tree.frees).1 (λ q a l d. (v.tree.pages q a l d).1.1);
    absent = λ p l h. ap is_valid (pte-same root (p * page_size) s taken refl) ∙ v.absent p l h;
    present = λ p l h.
        let o = v.present p l h in
        subst (IsOwned kernel_end root ps taken) (sym (pte-same root (p * page_size) s taken refl))
          (record {
            valid = o.valid;
            leaf = o.leaf;
            page = o.page;
            other = record { not_free = o.other.not_free.1; no_table = o.other.no_table };
          });
    apart = λ p q lp lq hp hq e. v.apart p q lp lq hp hq (
        sym (ap pte2pa (pte-same root (p * page_size) s taken refl))
        ∙ e
        ∙ ap pte2pa (pte-same root (q * page_size) s taken refl));
  }

  abbrev pub given : Vm
  given = record s { kmem = push_page f s.kmem }

  pub given-IsSpace :
      IsSpace kernel_end root limit ps has s
      → IsPage kernel_end f
      → IsOther root ps s f
      → ((p : ℕ) → p < limit → has p ≡ true → pte2pa (entry root s p) ≢ f)
      → IsSpace kernel_end root limit (f ∷ ps) has given
  given-IsSpace v page o unused = record {
    tree =
        IsTree-kmem kernel_end root ps (f ∷ ps) s (push_page f s.kmem) v.tree
          (push_page-Frees kernel_end positive f page o.not_free v.tree.frees)
          (λ q a l d. (λ e. o.no_table q a l d (sym e), (v.tree.pages q a l d).1));
    absent = λ p l h. ap is_valid (pte-same root (p * page_size) s given refl) ∙ v.absent p l h;
    present = λ p l h.
        let w = v.present p l h in
        subst (IsOwned kernel_end root (f ∷ ps) given)
          (sym (pte-same root (p * page_size) s given refl))
          (record {
            valid = w.valid;
            leaf = w.leaf;
            page = w.page;
            other = record {
              not_free = (λ e. unused p l h (sym e), w.other.not_free);
              no_table = w.other.no_table;
            };
          });
    apart = λ p q lp lq hp hq e. v.apart p q lp lq hp hq (
        sym (ap pte2pa (pte-same root (p * page_size) s given refl))
        ∙ e
        ∙ ap pte2pa (pte-same root (q * page_size) s given refl));
  }

-- A page of memory `f` that the space does not use, for page `p` of the process, which is not present.
pub record IsAddable (kernel_end root limit : ℕ) (free : List ℕ) (has : ℕ → Bool) (s : Vm) (f p : ℕ)
    : Type 0 where
  pub space : IsSpace kernel_end root limit free has s
  pub page : IsPage kernel_end f
  pub other : IsOther root free s f
  pub unused : (q : ℕ) → q < limit → has q ≡ true → pte2pa (entry root s q) ≢ f
  pub inside : p < limit
  pub absent : has p ≡ false

-- One page is mapped.
module _ (kernel_end root limit perm : ℕ) (positive : 0 < kernel_end) (free : List ℕ)
    (has : ℕ → Bool) (s : Vm) (f p : ℕ) (a : IsAddable kernel_end root limit free has s f p)
    (below : limit * page_size ≤ max_va) (user : 2 ≤ perm) (fits : perm < 2 ^ 10) where
  count_one : page_count (p * page_size) page_size ≡ 1
  count_one = omega arith

  start : page_round_down (p * page_size) ≡ p * page_size
  start = omega arith

  unmapped :
      Unmapped root s (page_round_down (p * page_size)) (page_count (p * page_size) page_size)
  unmapped x h k =
      ap is_valid (pte-page root s x (p * page_size) (omega (arith, h, k)))
      ∙ a.space.absent p a.inside a.absent

  abbrev pub Adds : Bool → Vm → Type 0
  Adds ok s' =
      Mapped kernel_end root free s (page_round_down (p * page_size))
        (page_count (p * page_size) page_size) f perm ok s'

  pub mappages_once :
      (ok : Bool) × (s' : Vm) × (mappages root (p * page_size) page_size f perm s
        ≡ returns (ok, s'))
      × Adds ok s'
  mappages_once =
      mappages-Mapped kernel_end root perm free s (p * page_size) page_size f positive (omega arith)
        (omega (arith, a.inside, below)) (omega (arith, a.page.below)) a.space.tree unmapped

  entry-added :
      (s' : Vm)
      → Adds true s'
      → (q : ℕ) → q < limit
      → entry root s' q ≡ (if p == q then make_pte f perm else entry root s q)
  entry-added s' m q lq =
      m.entries (q * page_size) (omega (arith, lq, below))
      ∙ ap
          (λ n.
            mapped_entry (page_round_down (p * page_size)) n f perm (q * page_size)
              (entry root s q))
          (m.whole refl ∙ count_one)
      ∙ ap (λ z. mapped_entry z 1 f perm (q * page_size) (entry root s q)) start
      ∙ elim (ℕ_discrete p q) [
        | yes e ↦
            rw
              (
                within_yes (p * page_size) 1 (q * page_size) (omega (arith, e)) (omega (arith, e)),
                ==_eq p q e,
              )
              (ap (λ z. make_pte z perm) (omega (arith, e)))
        | no ne ↦ rw (==_ne p q ne, apart_pages ne) refl
      ]
    where
      apart_pages : p ≢ q → within (p * page_size) 1 (q * page_size) ≡ false
      apart_pages ne = elim (dec_lt q p) [
        | yes low ↦ within_low (p * page_size) 1 (q * page_size) (omega (arith, low))
        | no h ↦
            within_high (p * page_size) 1 (q * page_size) (omega (arith, h)) (omega (arith, h, ne))
      ]

  added_entry :
      (pte2pa (make_pte f perm) ≡ f)
      × (make_pte f perm % 2 ≡ 1)
      × (pte_flags (make_pte f perm) ≡ perm / 2 * 2 + 1)
  added_entry = make_pte-reads f perm (IsPage-IsFrame kernel_end f a.page) fits

  pub added-kept :
      (s' : Vm) → Adds true s' → (q : ℕ) → q < limit → p ≢ q → entry root s' q ≡ entry root s q
  added-kept s' m q lq ne = entry-added s' m q lq ∙ rw (==_ne p q ne) refl

  pub added-IsSpace :
      (s' : Vm) (m : Adds true s') → IsSpace kernel_end root limit m.left (update has p true) s'
  added-IsSpace s' m = record {
    tree = m.tree;
    absent = λ q lq h.
        let ne : p ≢ q = λ e. true_false (sym (update_self has p true e) ∙ h) in
        ap is_valid (added-kept s' m q lq ne)
        ∙ a.space.absent q lq (sym (update-ne has p true ne) ∙ h);
    present = λ q lq h. elim (ℕ_discrete p q) [
      | yes e ↦ subst (IsOwned kernel_end root m.left s') (sym (new q lq e)) (record {
        valid = ==_eq (make_pte f perm % 2) 1 added_entry.1;
        leaf = λ z. omega (arith, added_entry.2, z, user);
        page = subst (IsPage kernel_end) (sym added_entry.0) a.page;
        other = subst (IsOther root m.left s') (sym added_entry.0) (m.others f a.other);
      })
      | no ne ↦
          let w = a.space.present q lq (sym (update-ne has p true ne) ∙ h) in
          subst (IsOwned kernel_end root m.left s') (sym (added-kept s' m q lq ne)) (record {
            valid = w.valid;
            leaf = w.leaf;
            page = w.page;
            other = m.others (pte2pa (entry root s q)) w.other;
          })
    ];
    apart = λ q r lq lr hq hr e. elim (ℕ_discrete p q) [
      | yes eq ↦ elim (ℕ_discrete p r) [
        | yes er ↦ sym eq ∙ er
        | no nr ↦ absurd (
            a.unused r lr (sym (update-ne has p true nr) ∙ hr) (
              sym (ap pte2pa (added-kept s' m r lr nr))
              ∙ sym e
              ∙ ap pte2pa (new q lq eq)
              ∙ added_entry.0))
      ]
      | no nq ↦ elim (ℕ_discrete p r) [
        | yes er ↦ absurd (
            a.unused q lq (sym (update-ne has p true nq) ∙ hq) (
              sym (ap pte2pa (added-kept s' m q lq nq))
              ∙ e
              ∙ ap pte2pa (new r lr er)
              ∙ added_entry.0))
        | no nr ↦
            a.space.apart q r lq lr (sym (update-ne has p true nq) ∙ hq)
              (sym (update-ne has p true nr) ∙ hr)
              (sym (ap pte2pa (added-kept s' m q lq nq)) ∙ e ∙ ap pte2pa (added-kept s' m r lr nr))
      ]
    ];
  }
    where
      true_false : ◌≡◌ {A = Bool} true false → ⊥
      true_false e = cc

      new : (q : ℕ) → q < limit → p ≡ q → entry root s' q ≡ make_pte f perm
      new q lq e = entry-added s' m q lq ∙ rw (==_eq p q e) refl

  pub failed-kept :
      (s' : Vm) → Adds false s' → (q : ℕ) → q < limit → entry root s' q ≡ entry root s q
  failed-kept s' m q lq =
      m.entries (q * page_size) (omega (arith, lq, below))
      ∙ ap
          (λ n.
            mapped_entry (page_round_down (p * page_size)) n f perm (q * page_size)
              (entry root s q))
          no_count
      ∙ nothing (page_round_down (p * page_size)) (q * page_size) (entry root s q)
    where
      no_count : m.count ≡ 0
      no_count = omega (arith, m.part refl, count_one)

      nothing : (z x e : ℕ) → mapped_entry z 0 f perm x e ≡ e
      nothing z x e = elim (dec_lt x z) [
        | yes low ↦ rw (within_low z 0 x low) refl
        | no h ↦ rw (within_high z 0 x (omega arith) (omega arith)) refl
      ]

  -- Where no table could be allocated, nothing is mapped, and no page is free.
  pub failed-IsSpace :
      (s' : Vm) (m : Adds false s')
      → IsSpace kernel_end root limit m.left has s'
        × IsOther root m.left s' f
        × ((q : ℕ) → q < limit → has q ≡ true → pte2pa (entry root s' q) ≢ f)
  failed-IsSpace s' m = (
    record {
      tree = m.tree;
      absent = λ q lq h. ap is_valid (failed-kept s' m q lq) ∙ a.space.absent q lq h;
      present = λ q lq h.
          let w = a.space.present q lq h in
          subst (IsOwned kernel_end root m.left s') (sym (failed-kept s' m q lq)) (record {
            valid = w.valid;
            leaf = w.leaf;
            page = w.page;
            other = m.others (pte2pa (entry root s q)) w.other;
          });
      apart = λ q r lq lr hq hr e.
          a.space.apart q r lq lr hq hr
            (sym (ap pte2pa (failed-kept s' m q lq)) ∙ e ∙ ap pte2pa (failed-kept s' m r lr));
    },
    m.others f a.other,
    λ q lq h e. a.unused q lq h (sym (ap pte2pa (failed-kept s' m q lq)) ∙ e),
  )
