-- ===== src/Vm/Grow.antt =====
-- kernel/vm.c: `walk` adds one table.
use Prim.Native.Nat.{bit_or}
use csse_332_final.Base.{
  ℕ, ◌%◌, ◌≤◌, ◌<◌, ◌≡◌, ◌≢◌, refl, ◌∙◌, sym, ap, subst, true, false, none, some, List, [], ◌∷◌,
  ◌++◌, arith, length, ◌⊎◌, inl, inr, Option-cases, ==_eq,
}
use csse_332_final.Kalloc.{kalloc}
use csse_332_final.Kalloc.FreeList.{IsPage, NotIn, kalloc-Frees}
use csse_332_final.Vm.{Vm, px, pa2pte, pte2pa, is_valid, set_entry, zero_table}
use csse_332_final.Vm.Entries.{IsFrame, table_pte-reads}
use csse_332_final.Vm.Paths.{
  desc, desc_nil, indices, pte, pte-found, pte-missing, none_ne_some, IsTree,
}
use csse_332_final.Vm.Attach.{
  attached-keeps, attached-adds, attached-Injective, attached-new, attached-entry, fresh_entry,
}

-- A page that is neither free nor a table.
pub record IsOther (root : ℕ) (free : List ℕ) (s : Vm) (x : ℕ) : Type 0 where
  pub not_free : NotIn x free
  pub no_table : (q : List ℕ) (b : ℕ) → length q ≤ 2 → desc s.tables root q ≡ some b → b ≢ x

-- The tables have grown: every table is there still and no entry for an address has changed.
pub record Grown (root : ℕ) (free : List ℕ) (s : Vm) (free' : List ℕ) (s' : Vm) : Type 0 where
  pub keeps :
      (q : List ℕ) (b : ℕ)
      → length q ≤ 2
      → desc s.tables root q ≡ some b
      → desc s'.tables root q ≡ some b
  pub same : (va : ℕ) → pte root va s' ≡ pte root va s
  pub others : (x : ℕ) → IsOther root free s x → IsOther root free' s' x

pub Grown-refl : (root : ℕ) (free : List ℕ) (s : Vm) → Grown root free s free s
Grown-refl root free s = record { keeps = λ q b l d. d; same = λ va. refl; others = λ x o. o }

pub Grown-trans :
    (root : ℕ) (free1 : List ℕ) (s1 : Vm) (free2 : List ℕ) (s2 : Vm) (free3 : List ℕ) (s3 : Vm)
    → Grown root free1 s1 free2 s2
    → Grown root free2 s2 free3 s3
    → Grown root free1 s1 free3 s3
Grown-trans root free1 s1 free2 s2 free3 s3 g h = record {
  keeps = λ q b l d. h.keeps q b l (g.keeps q b l d);
  same = λ va. h.same va ∙ g.same va;
  others = λ x o. h.others x (g.others x o);
}

pub IsPage-IsFrame : (kernel_end p : ℕ) → IsPage kernel_end p → IsFrame p
IsPage-IsFrame kernel_end p g = (g.aligned, omega (arith, g.below))

module _ (kernel_end root : ℕ) (positive : 0 < kernel_end) (s : Vm) (f : ℕ) (ps : List ℕ)
    (v : IsTree kernel_end root (f ∷ ps) s) (p : List ℕ) (a i : ℕ)
    (at : desc s.tables root p ≡ some a) (depth : length p ≤ 1)
    (empty : is_valid (s.tables a i) ≡ false) where
  pub taken : (kalloc s.kmem).0 ≡ f
  taken = (kalloc-Frees kernel_end positive v.frees).0

  abbrev pub with_table : Vm
  with_table = record {
    tables = set_entry (zero_table s.tables f) a i (bit_or (pa2pte f) 1);
    kmem = (kalloc s.kmem).1;
  }

  out_of_list : (b : ℕ) → NotIn b (f ∷ ps) → b ≢ f
  out_of_list b n e = n.0 (sym e)

  fresh : (q : List ℕ) (b : ℕ) → length q ≤ 2 → desc s.tables root q ≡ some b → b ≢ f
  fresh q b l d = out_of_list b (v.pages q b l d).1

  reads : (pte2pa (bit_or (pa2pte f) 1) ≡ f) × (bit_or (pa2pte f) 1 % 2 ≡ 1)
  reads = table_pte-reads f (IsPage-IsFrame kernel_end f v.frees.pages.0)

  is_entry : is_valid (bit_or (pa2pte f) 1) ≡ true
  is_entry = ==_eq (bit_or (pa2pte f) 1 % 2) 1 reads.1

  adds :
      (q : List ℕ) (b : ℕ)
      → length q ≤ 2
      → desc with_table.tables root q ≡ some b
      → (desc s.tables root q ≡ some b) ⊎ ((b ≡ f) × (q ≡ p ++ (i ∷ [])))
  adds q b l d =
      attached-adds s.tables root v.distinct p a i f (bit_or (pa2pte f) 1) at depth empty fresh
        is_entry reads.0 q [] root b (desc_nil s.tables root) l d

  pub with_table-IsTree : IsTree kernel_end root ps with_table
  with_table-IsTree = record {
    frees = (kalloc-Frees kernel_end positive v.frees).1;
    pages = λ q b l d. page q b l (adds q b l d);
    distinct =
        attached-Injective s.tables root v.distinct p a i f (bit_or (pa2pte f) 1) at depth empty
          fresh is_entry reads.0;
  }
    where
      page :
          (q : List ℕ) (b : ℕ)
          → length q ≤ 2
          → (desc s.tables root q ≡ some b) ⊎ ((b ≡ f) × (q ≡ p ++ (i ∷ [])))
          → IsPage kernel_end b × NotIn b ps
      page q b l (inl d) = let g = v.pages q b l d in (g.0, g.1.1)
      page q b l (inr (e, _)) = (
        subst (IsPage kernel_end) (sym e) v.frees.pages.0,
        subst (λ x. NotIn x ps) (sym e) v.frees.distinct.0,
      )

  pub with_table-new : desc with_table.tables root (p ++ (i ∷ [])) ≡ some f
  with_table-new =
      attached-new s.tables root v.distinct p a i f (bit_or (pa2pte f) 1) at depth empty fresh
        is_entry reads.0

  keeps :
      (q : List ℕ) (b : ℕ)
      → length q ≤ 2
      → desc s.tables root q ≡ some b
      → desc with_table.tables root q ≡ some b
  keeps q b l d =
      attached-keeps s.tables root v.distinct p a i f (bit_or (pa2pte f) 1) at depth empty fresh
        is_entry reads.0 q [] root b (desc_nil s.tables root) l d

  same_pte : (va : ℕ) → pte root va with_table ≡ pte root va s
  same_pte va = elim (Option-cases (desc s.tables root (indices 2 va))) [
    | inr (b, d) ↦
        pte-found root va with_table b (keeps (indices 2 va) b (omega arith) d)
        ∙ attached-entry s.tables root v.distinct p a i f (bit_or (pa2pte f) 1) at depth empty fresh
            is_entry reads.0 (indices 2 va) b (px 0 va) refl d
        ∙ sym (pte-found root va s b d)
    | inl d ↦ elim (Option-cases (desc with_table.tables root (indices 2 va))) [
      | inl d2 ↦ pte-missing root va with_table d2 ∙ sym (pte-missing root va s d)
      | inr (b, d2) ↦
          pte-found root va with_table b d2
          ∙ zero_entry b d (adds (indices 2 va) b (omega arith) d2)
          ∙ sym (pte-missing root va s d)
    ]
  ]
    where
      zero_entry :
          (b : ℕ)
          → desc s.tables root (indices 2 va) ≡ none
          → (desc s.tables root (indices 2 va) ≡ some b)
            ⊎ ((b ≡ f) × (indices 2 va ≡ p ++ (i ∷ [])))
          → with_table.tables b (px 0 va) ≡ 0
      zero_entry b d (inl y) = absurd (none_ne_some b (sym d ∙ y))
      zero_entry b d (inr (e, _)) =
          ap (λ x. with_table.tables x (px 0 va)) e
          ∙ fresh_entry s.tables root v.distinct p a i f (bit_or (pa2pte f) 1) at depth empty fresh
              is_entry reads.0 (px 0 va)

  pub with_table-Grown : Grown root (f ∷ ps) s ps with_table
  with_table-Grown = record {
    keeps = keeps;
    same = same_pte;
    others = λ x o. record {
      not_free = o.not_free.1;
      no_table = λ q b l d. apart x o q b l (adds q b l d);
    };
  }
    where
      apart :
          (x : ℕ)
          → IsOther root (f ∷ ps) s x
          → (q : List ℕ) (b : ℕ) → length q ≤ 2
          → (desc s.tables root q ≡ some b) ⊎ ((b ≡ f) × (q ≡ p ++ (i ∷ [])))
          → b ≢ x
      apart x o q b l (inl d) z = o.no_table q b l d z
      apart x o q b l (inr (e, _)) z = out_of_list x o.not_free (sym z ∙ e)
