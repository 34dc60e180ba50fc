-- ===== src/Vm/Space/Sizes.antt =====
-- kernel/vm.c: `uvmdealloc` takes a process to a smaller size.
use csse_332_final.Base.{
  ℕ, ◌+◌, ◌-◌, ◌*◌, ◌/◌, ◌%◌, ◌≤◌, ◌<◌, ◌≡◌, refl, ◌∙◌, ap, ap₂, fun_ext, subst, Bool, true, List,
  arith, length, ==_eq, ltb, lt→ltb, le→ltb, le→leb, lt→leb, Run, returns, ◌>>=◌, dec_lt, dec_le,
}
use csse_332_final.Kalloc.{page_size}
use csse_332_final.Vm.{Vm, max_va, uvmunmap}
use csse_332_final.Vm.Space.{page_up, uvmdealloc}
use csse_332_final.Vm.Space.Pages.{entry, IsSpace}
use csse_332_final.Vm.Space.Remove.{cut, unmap_from-Frees}

-- The first `n` pages.
abbrev pub first : ℕ → ℕ → Bool
first n q = ltb q n

-- The pages that a size takes.
abbrev pub pages_of : ℕ → ℕ
pages_of sz = (sz + page_size - 1) / page_size

cut-first : (n m q : ℕ) → n ≤ m → cut n (m - n) (first m) q ≡ first n q
cut-first n m q h = ground arith

module _ (kernel_end root limit : ℕ) (positive : 0 < kernel_end)
    (below : limit * page_size ≤ max_va) where
  -- The space of a process of a size.
  abbrev pub IsSized : List ℕ → ℕ → Vm → Type 0
  IsSized free sz s = IsSpace kernel_end root limit free (first (pages_of sz)) s

  unmap_last :
      (n m : ℕ) (free : List ℕ) (s : Vm)
      → n ≤ m
      → m ≤ limit
      → IsSpace kernel_end root limit free (first m) s
      → (free' : List ℕ) × (s' : Vm) × (uvmunmap kernel_end root (n * page_size) (m - n) true s
          ≡ returns s')
        × IsSpace kernel_end root limit free' (first n) s'
        × (length free' ≡ (m - n) + length free)
        × ((q : ℕ) → q < n → entry root s' q ≡ entry root s q)
  unfolding uvmunmap
  unmap_last n m free s h l v =
      let (free', s', e, v', count, same) =
        unmap_from-Frees kernel_end root limit positive below (m - n) n free (first m) s
          (omega (arith, h, l)) (λ q x y. lt→ltb q m (omega (arith, y, h))) v in
      (
        free',
        s',
        rw (==_eq (n * page_size % page_size) 0 (omega arith)) e,
        subst (λ f. IsSpace kernel_end root limit free' f s') (fun_ext (λ q. cut-first n m q h)) v',
        count,
        same,
      )

  -- `uvmdealloc` to a size that is not larger gives the pages beyond it back, each to the free list, and
  -- keeps the others where they were;
  -- to a larger one it changes nothing. It does not panic.
  pub uvmdealloc-IsSized :
      (oldsz newsz : ℕ) (free : List ℕ) (s : Vm)
      → pages_of oldsz ≤ limit
      → newsz ≤ oldsz
      → IsSized free oldsz s
      → (free' : List ℕ) × (s' : Vm) × (uvmdealloc kernel_end root oldsz newsz s
          ≡ returns (newsz, s'))
        × IsSized free' newsz s'
        × (length free' ≡ (pages_of oldsz - pages_of newsz) + length free)
        × ((q : ℕ) → q < pages_of newsz → entry root s' q ≡ entry root s q)
  unfolding uvmdealloc
  uvmdealloc-IsSized oldsz newsz free s l h v = elim (dec_le oldsz newsz) [
    | yes g ↦
        let e : oldsz ≡ newsz = omega (arith, g, h) in
        (
          free,
          s,
          rw (le→leb oldsz newsz g) (ap (λ z. returns (z, s)) e),
          subst (λ z. IsSized free z s) e v,
          omega (arith, e),
          λ q x. refl,
        )
    | no g ↦ elim (dec_lt (page_up newsz) (page_up oldsz)) [
      | no same ↦
          let e : pages_of oldsz ≡ pages_of newsz = omega (arith, l, below, h, same) in
          (
            free,
            s,
            rw
                (
                  lt→leb oldsz newsz (omega (arith, g)),
                  le→ltb (page_up newsz) (page_up oldsz) (omega (arith, same)),
                )
                refl,
            subst (λ n. IsSpace kernel_end root limit free (first n) s) e v,
            omega (arith, e),
            λ q x. refl,
          )
      | yes less ↦
          let (free', s', e, v', count, kept) =
            unmap_last (pages_of newsz) (pages_of oldsz) free s (omega (arith, h)) l v in
          (
            free',
            s',
            rw (lt→leb oldsz newsz (omega (arith, g)), lt→ltb (page_up newsz) (page_up oldsz) less)
                (ap (λ (r : Run Vm). r >>= λ s1. returns (newsz, s1))
                  (ap₂ (λ x y. uvmunmap kernel_end root x y true s) (omega (arith, l, below, h))
                      (omega (arith, l, below, h))
                    ∙ e)),
            v',
            count,
            kept,
          )
    ]
  ]
