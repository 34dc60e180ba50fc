-- ===== src/Vm/Space/Growth.antt =====
-- kernel/vm.c: `uvmalloc` gives a process more pages.
use Prim.Native.Nat.{bit_or}
use csse_332_final.Base.{
  ℕ, zero, suc, ◌+◌, ◌-◌, length, ◌*◌, ◌/◌, ◌^◌, ◌≤◌, ◌<◌, ◌≡◌, refl, ◌∙◌, ap, subst, List, [], ◌∷◌,
  arith, ◌⊎◌, inl, inr, lt→ltb, le→ltb, returns, dec_lt,
}
use csse_332_final.Kalloc.{page_size}
use csse_332_final.Kalloc.FreeList.{kalloc_none}
use csse_332_final.Vm.{Vm, max_va}
use csse_332_final.Vm.Space.{grow_from, uvmalloc}
use csse_332_final.Vm.Entries.{user_flags}
use csse_332_final.Vm.Space.Pages.{IsSpace}
use csse_332_final.Vm.Space.Sizes.{first, pages_of, IsSized}
use csse_332_final.Vm.Space.Rounds.{
  Kept, Grows, grow_step, grow_step-full, gives_up, round, grow_step-done,
}

module _ (kernel_end root limit : ℕ) (positive : 0 < kernel_end)
    (below : limit * page_size ≤ max_va) where
  module _ (perm n0 newsz : ℕ) (user : 2 ≤ perm) (fits : perm < 2 ^ 10)
      (l : pages_of newsz ≤ limit) where
    grow_step-Grows :
        (fuel n : ℕ) (free : List ℕ) (s : Vm)
        → n0 ≤ n
        → n ≤ pages_of newsz
        → pages_of newsz < n + fuel
        → IsSpace kernel_end root limit free (first n) s
        → Grows kernel_end root limit positive below n0 newsz s
            (grow_step kernel_end root limit positive below perm n0 newsz user fits l fuel n s)
    grow_step-Grows zero n free s h g b v = absurd (omega (arith, g, b))
    grow_step-Grows (suc fuel) n free s h g b v = elim (dec_lt (n * page_size) newsz) [
      | no done ↦
          let e : n ≡ pages_of newsz = omega (arith, g, done) in
          (
            free,
            s,
            λ q x. refl,
            inl (
              grow_step-done kernel_end root limit positive below perm n0 newsz user fits l fuel n s
                  (omega (arith, done)),
              subst (λ k. IsSpace kernel_end root limit free (first k) s) e v,
            ),
          )
      | yes lt ↦ go free v lt (grow_step-Grows fuel (suc n))
    ]
      where
        go :
            (free : List ℕ)
            → IsSpace kernel_end root limit free (first n) s
            → n * page_size < newsz
            → ((free : List ℕ) (s1 : Vm)
                → n0 ≤ suc n
                → suc n ≤ pages_of newsz
                → pages_of newsz < suc n + fuel
                → IsSpace kernel_end root limit free (first (suc n)) s1
                → Grows kernel_end root limit positive below n0 newsz s1 (
                    grow_step kernel_end root limit positive below perm n0 newsz user fits l fuel
                      (suc n)
                      s1))
            → Grows kernel_end root limit positive below n0 newsz s (
                grow_step kernel_end root limit positive below perm n0 newsz user fits l
                  (suc fuel)
                  n
                  s)
        go [] v lt ih =
            gives_up kernel_end root limit positive below perm n0 newsz user fits l n [] s
              (grow_step kernel_end root limit positive below perm n0 newsz user fits l (suc fuel) n
                s)
              h (omega (arith, g, l)) (omega (arith, g)) v
              (grow_step-full kernel_end root limit positive below perm n0 newsz user fits l fuel n
                s lt (kalloc_none kernel_end positive v.tree.frees))
        go (f ∷ ps) v lt ih =
            round kernel_end root limit positive below perm n0 newsz user fits l fuel n f ps s h lt
              v
              (λ free s1 w. ih free s1 (omega (arith, h)) (omega (arith, lt)) (omega (arith, b)) w)

  -- What `uvmalloc` leaves, with the pages that are then free.
  abbrev pub Result : ℕ → ℕ → List ℕ → Vm → List ℕ → ℕ → Vm → Type 0
  Result oldsz newsz free s free' r s' =
      ((newsz < oldsz) × (r ≡ oldsz) × (free' ≡ free) × (s' ≡ s))
      ⊎ ((oldsz ≤ newsz)
          × Kept kernel_end root limit positive below (pages_of oldsz) s s'
          × (((r ≡ newsz) × IsSized kernel_end root limit positive below free' newsz s')
              ⊎ ((r ≡ 0)
                  × IsSized kernel_end root limit positive below free' oldsz s'
                  × (length free' ≤ pages_of newsz - pages_of oldsz))))

  -- `uvmalloc` does not panic. To a smaller size it answers the old one and changes nothing. Else the pages
  -- that the process had are mapped to what they were, and it answers the new size, with all its pages
  -- present; or 0, with only the pages that there were, and then no more pages are free in the end than were
  -- asked for. No page of memory is ever mapped twice, nor is one that is free or a table.
  pub uvmalloc-Grows :
      (oldsz newsz xperm : ℕ) (free : List ℕ) (s : Vm)
      → pages_of newsz ≤ limit
      → pages_of oldsz ≤ limit
      → xperm < 2 ^ 10
      → IsSized kernel_end root limit positive below free oldsz s
      → (free' : List ℕ) × (r : ℕ) × (s' : Vm) × (uvmalloc kernel_end root oldsz newsz xperm s
          ≡ returns (r, s'))
        × Result oldsz newsz free s free' r s'
  unfolding uvmalloc
  uvmalloc-Grows oldsz newsz xperm free s l l2 p v = elim (dec_lt newsz oldsz) [
    | yes less ↦ (free, oldsz, s, rw (lt→ltb newsz oldsz less) refl, inl (less, refl, refl, refl))
    | no h ↦
        let (flags, fits, reads) = user_flags xperm p in
        let (free', s', kept, out) =
          grow_step-Grows (bit_or 18 xperm) (pages_of oldsz) newsz flags fits l
            (newsz / page_size + 2) (pages_of oldsz) free s (omega arith) (omega (arith, h))
            (omega arith) v in
        let start : uvmalloc kernel_end root oldsz newsz xperm s
            ≡ grow_from kernel_end root (newsz / page_size + 2) (bit_or 18 xperm)
                (pages_of oldsz * page_size) (pages_of oldsz * page_size) newsz s =
          rw (le→ltb newsz oldsz (omega (arith, h))) (
            ap
              (λ a. grow_from kernel_end root (newsz / page_size + 2) (bit_or 18 xperm) a a newsz s)
              (omega (arith, l2, below))) in
        elim out [
          | inl (a, w) ↦ (free', newsz, s', start ∙ a, inr (omega (arith, h), kept, inl (refl, w)))
          | inr (a, w, few) ↦
              (free', 0, s', start ∙ a, inr (omega (arith, h), kept, inr (refl, w, few)))
        ]
  ]
