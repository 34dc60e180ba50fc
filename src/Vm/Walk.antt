-- ===== src/Vm/Walk.antt =====
-- kernel/vm.c: `walk` with `alloc` finds or makes the tables for an address, and maps nothing.
use Prim.Native.Nat.{bit_or}
use csse_332_final.Base.{
  ℕ, zero, suc, ◌+◌, ◌≤◌, ◌<◌, ◌≡◌, ◌≢◌, refl, ◌∙◌, sym, ap, subst, true, false, Option, none, some,
  List, [], ◌∷◌, ◌++◌, arith, length, length-append, append_assoc, append-nil, inl, inr, Bool-cases,
  ==_ne, returns, lt→leb,
}
use csse_332_final.Kalloc.{Kmem, kalloc}
use csse_332_final.Kalloc.FreeList.{kalloc_none}
use csse_332_final.Vm.{
  Vm, max_va, px, pa2pte, set_entry, zero_table, pte2pa, is_valid, walk_from, walk,
}
use csse_332_final.Vm.Paths.{desc, desc_nil, desc_valid, desc-append, indices, IsTree}
use csse_332_final.Vm.Grow.{
  Grown, Grown-refl, Grown-trans, taken, with_table, with_table-IsTree, with_table-new,
  with_table-Grown,
}

-- The address of the entry, in the table at the path; or none, where no page is free.
abbrev pub Answer : ℕ → ℕ → List ℕ → List ℕ → Vm → Option (ℕ × ℕ) → Type 0
Answer root va q free s none = free ≡ []
Answer root va q free s (some (b, i)) = (desc s.tables root q ≡ some b) × (i ≡ px 0 va)

abbrev pub Walked : ℕ → ℕ → ℕ → List ℕ → List ℕ → Vm → Option (ℕ × ℕ) × Vm → Type 0
Walked kernel_end root va q free s (o, s') =
    (free' : List ℕ) × IsTree kernel_end root free' s'
    × Grown root free s free' s'
    × Answer root va q free' s' o

module _ (kernel_end root : ℕ) (positive : 0 < kernel_end) (va : ℕ) where
  Walked-trans :
      (q free : List ℕ) (s : Vm) (free1 : List ℕ) (s1 : Vm) (out : Option (ℕ × ℕ) × Vm)
      → Grown root free s free1 s1
      → Walked kernel_end root va q free1 s1 out
      → Walked kernel_end root va q free s out
  Walked-trans q free s free1 s1 (o, s') g (free', v', h, a) =
      (free', v', Grown-trans root free s free1 s1 free' s' g h, a)

  longer :
      (p : List ℕ) (i : ℕ) (is free : List ℕ) (s : Vm) (out : Option (ℕ × ℕ) × Vm)
      → Walked kernel_end root va ((p ++ (i ∷ [])) ++ is) free s out
      → Walked kernel_end root va (p ++ (i ∷ is)) free s out
  longer p i is free s out w =
      subst (λ q. Walked kernel_end root va q free s out) (append_assoc p (i ∷ []) is) w

  walk_from-full :
      (level : ℕ) (s : Vm) (a : ℕ)
      → is_valid (s.tables a (px (suc level) va)) ≡ false
      → IsTree kernel_end root [] s
      → walk_from true (suc level) va a s ≡ (none, s)
  unfolding walk_from
  walk_from-full level s a e v =
      let k = kalloc_none kernel_end positive v.frees in
      rw (e, walk_from, ap (λ (x : ℕ × Kmem). x.0) k)
        (ap (λ (x : ℕ × Kmem). (none, record s { kmem = x.1 })) k)

  walk_from-grows :
      (level : ℕ) (s : Vm) (a f : ℕ)
      → is_valid (s.tables a (px (suc level) va)) ≡ false
      → (kalloc s.kmem).0 ≡ f
      → f ≢ 0
      → walk_from true (suc level) va a s
        ≡ walk_from true level va f (record {
          tables = set_entry (zero_table s.tables f) a (px (suc level) va) (bit_or (pa2pte f) 1);
          kmem = (kalloc s.kmem).1;
        })
  unfolding walk_from
  walk_from-grows level s a f e k ne =
      rw (e, walk_from, ==_ne (kalloc s.kmem).0 0 (λ z. ne (sym k ∙ z)))
        (ap
          (λ g. walk_from true level va g (record {
            tables = set_entry (zero_table s.tables g) a (px (suc level) va) (bit_or (pa2pte g) 1);
            kmem = (kalloc s.kmem).1;
          }))
          k)

  pub walk_from-Walked :
      (level : ℕ) (free : List ℕ) (s : Vm) (p : List ℕ) (a : ℕ)
      → IsTree kernel_end root free s
      → desc s.tables root p ≡ some a
      → length p + level ≡ 2
      → Walked kernel_end root va (p ++ indices level va) free s (walk_from true level va a s)
  unfolding walk_from
  walk_from-Walked zero free s p a v d l =
      (free, v, Grown-refl root free s, (ap (desc s.tables root) (append-nil p) ∙ d, refl))
  walk_from-Walked (suc level) [] s p a v d l =
      let i = px (suc level) va in
      elim (Bool-cases (is_valid (s.tables a i))) [
        | inl e ↦
            rw (e, walk_from)
              (longer p i (indices level va) [] s
                (walk_from true level va (pte2pa (s.tables a i)) s)
                (walk_from-Walked level [] s (p ++ (i ∷ [])) (pte2pa (s.tables a i)) v
                  (desc-append s.tables root p (i ∷ []) d
                    ∙ desc_valid s.tables a i [] e
                    ∙ desc_nil s.tables (pte2pa (s.tables a i)))
                  (omega (arith, l, length-append p (i ∷ [])))))
        | inr e ↦
            subst (Walked kernel_end root va (p ++ indices (suc level) va) [] s)
              (sym (walk_from-full level s a e v)) ([], v, Grown-refl root [] s, refl)
      ]
  walk_from-Walked (suc level) (f ∷ ps) s p a v d l =
      let i = px (suc level) va in
      elim (Bool-cases (is_valid (s.tables a i))) [
        | inl e ↦
            rw (e, walk_from)
              (longer p i (indices level va) (f ∷ ps) s
                (walk_from true level va (pte2pa (s.tables a i)) s)
                (walk_from-Walked level (f ∷ ps) s (p ++ (i ∷ [])) (pte2pa (s.tables a i)) v
                  (desc-append s.tables root p (i ∷ []) d
                    ∙ desc_valid s.tables a i [] e
                    ∙ desc_nil s.tables (pte2pa (s.tables a i)))
                  (omega (arith, l, length-append p (i ∷ [])))))
        | inr e ↦
            let depth : length p ≤ 1 = omega (arith, l) in
            let s1 = with_table kernel_end root positive s f ps v p a i d depth e in
            subst (Walked kernel_end root va (p ++ indices (suc level) va) (f ∷ ps) s)
              (sym (
                walk_from-grows level s a f e
                  (taken kernel_end root positive s f ps v p a i d depth e)
                  (omega (arith, v.frees.pages.0.above))))
              (longer p i (indices level va) (f ∷ ps) s (walk_from true level va f s1) (
                Walked-trans ((p ++ (i ∷ [])) ++ indices level va) (f ∷ ps) s ps s1
                  (walk_from true level va f s1)
                  (with_table-Grown kernel_end root positive s f ps v p a i d depth e)
                  (walk_from-Walked level ps s1 (p ++ (i ∷ [])) f
                    (with_table-IsTree kernel_end root positive s f ps v p a i d depth e)
                    (with_table-new kernel_end root positive s f ps v p a i d depth e)
                    (omega (arith, l, length-append p (i ∷ []))))))
      ]

-- `walk` that may allocate answers the entry for the address in a last table, or none, where then no page
-- is free. It keeps the tables a tree and the tables that there were, and changes the entry of no address.
pub walk-Walked :
    (kernel_end root va : ℕ) (free : List ℕ) (s : Vm)
    → 0 < kernel_end
    → va < max_va
    → IsTree kernel_end root free s
    → (out : Option (ℕ × ℕ) × Vm) × (walk root va true s ≡ returns out)
      × Walked kernel_end root va (indices 2 va) free s out
unfolding walk
walk-Walked kernel_end root va free s positive l v = (
  walk_from true 2 va root s,
  rw (lt→leb max_va va l) refl,
  walk_from-Walked kernel_end root positive va 2 free s [] root v (desc_nil s.tables root) refl,
)
