-- ===== src/Vm/Space/Rounds.antt =====
-- kernel/vm.c: a round of the loop of `uvmalloc`.
use csse_332_final.Base.{
  ℕ, suc, ◌+◌, ◌-◌, length, ◌*◌, ◌^◌, ◌≤◌, ◌<◌, ◌≡◌, ◌≢◌, refl, ◌∙◌, sym, ap, fun_ext, subst, Bool,
  true, false, List, ◌∷◌, arith, ◌⊎◌, inr, ==_ne, lt→ltb, le→ltb, Run, returns, ◌>>=◌, update,
}
use csse_332_final.Kalloc.{Kmem, page_size, push_page, kfree, kalloc}
use csse_332_final.Kalloc.FreeList.{IsPage, kalloc-Frees, kfree_lem}
use csse_332_final.Vm.{Vm, max_va, pte2pa, mappages}
use csse_332_final.Vm.Paths.{pte-same}
use csse_332_final.Vm.Space.{give_up, grow_from}
use csse_332_final.Vm.Space.Pages.{entry, IsSpace}
use csse_332_final.Vm.Space.Add.{
  IsAddable, taken, taken-IsSpace, given, given-IsSpace, Adds, mappages_once, added-kept,
  added-IsSpace, failed-kept, failed-IsSpace,
}
use csse_332_final.Vm.Space.Sizes.{first, pages_of, IsSized, uvmdealloc-IsSized}

module _ (kernel_end root limit : ℕ) (positive : 0 < kernel_end)
    (below : limit * page_size ≤ max_va) where
  -- The first `n` pages are mapped to what they were.
  abbrev pub Kept : ℕ → Vm → Vm → Type 0
  Kept n s s' = (q : ℕ) → q < n → entry root s' q ≡ entry root s q

  give_up-IsSpace :
      (n0 n : ℕ) (free : List ℕ) (s : Vm)
      → n0 ≤ n
      → n ≤ limit
      → IsSpace kernel_end root limit free (first n) s
      → (free' : List ℕ) × (s' : Vm) × (give_up kernel_end root (n * page_size) (n0 * page_size) s
          ≡ returns (0, s'))
        × IsSpace kernel_end root limit free' (first n0) s'
        × (length free' ≡ (n - n0) + length free)
        × Kept n0 s s'
  unfolding give_up
  give_up-IsSpace n0 n free s h l v =
      let en : n ≡ pages_of (n * page_size) = omega arith in
      let e0 : pages_of (n0 * page_size) ≡ n0 = omega arith in
      let (free', s', e, v', count, same) =
        uvmdealloc-IsSized kernel_end root limit positive below (n * page_size) (n0 * page_size)
          free s (omega (arith, l)) (omega (arith, h))
          (subst (λ k. IsSpace kernel_end root limit free (first k) s) en v) in
      (
        free',
        s',
        ap (λ (r : Run (ℕ × Vm)). r >>= λ (out : ℕ × Vm). returns (0, out.1)) e,
        subst (λ k. IsSpace kernel_end root limit free' (first k) s') e0 v',
        omega (arith, count),
        λ q x. same q (omega (arith, x)),
      )

  -- What the loop of `uvmalloc` leaves: the new size, or 0 and the old one with no more pages free than
  -- were asked for.
  abbrev pub Grows : ℕ → ℕ → Vm → Run (ℕ × Vm) → Type 0
  Grows n0 newsz s out =
      (free' : List ℕ) × (s' : Vm) × Kept n0 s s'
      × (((out ≡ returns (newsz, s')) × IsSized kernel_end root limit positive below free' newsz s')
          ⊎ ((out ≡ returns (0, s'))
              × IsSpace kernel_end root limit free' (first n0) s'
              × (length free' ≤ pages_of newsz - n0)))

  Grows-from :
      (n0 newsz : ℕ) (s s1 : Vm) (out : Run (ℕ × Vm))
      → Kept n0 s s1
      → Grows n0 newsz s1 out
      → Grows n0 newsz s out
  Grows-from n0 newsz s s1 out k (free', s', k', w) = (free', s', λ q x. k' q x ∙ k q x, w)

  module _ (perm n0 newsz : ℕ) (user : 2 ≤ perm) (fits : perm < 2 ^ 10)
      (l : pages_of newsz ≤ limit) where
    abbrev pub grow_step : ℕ → ℕ → Vm → Run (ℕ × Vm)
    grow_step fuel n s =
        grow_from kernel_end root fuel perm (n * page_size) (n0 * page_size) newsz s

    grow_step-maps :
        (fuel n f : ℕ) (s s1 : Vm)
        → n * page_size < newsz
        → (kalloc s.kmem).0 ≡ f
        → f ≢ 0
        → mappages root (n * page_size) page_size f perm (record s { kmem = (kalloc s.kmem).1 })
          ≡ returns (true, s1)
        → grow_step (suc fuel) n s ≡ grow_step fuel (suc n) s1
    unfolding grow_from
    grow_step-maps fuel n f s s1 lt k ne e =
        rw
          (
            lt→ltb (n * page_size) newsz lt,
            grow_from,
            ==_ne (kalloc s.kmem).0 0 (λ z. ne (sym k ∙ z)),
            ap
                  (λ g.
                    mappages root (n * page_size) page_size g perm
                      (record s { kmem = (kalloc s.kmem).1 }))
                  k
                ∙ e,
          )
          (ap (λ a. grow_from kernel_end root fuel perm a (n0 * page_size) newsz s1) (omega arith))

    grow_step-fails :
        (fuel n f : ℕ) (s s1 : Vm)
        → n * page_size < newsz
        → (kalloc s.kmem).0 ≡ f
        → f ≢ 0
        → mappages root (n * page_size) page_size f perm (record s { kmem = (kalloc s.kmem).1 })
          ≡ returns (false, s1)
        → IsPage kernel_end f
        → grow_step (suc fuel) n s
          ≡ give_up kernel_end root
              (n * page_size)
              (n0 * page_size)
              (record s1 { kmem = push_page f s1.kmem })
    unfolding grow_from
    grow_step-fails fuel n f s s1 lt k ne e page =
        rw
          (
            lt→ltb (n * page_size) newsz lt,
            grow_from,
            ==_ne (kalloc s.kmem).0 0 (λ z. ne (sym k ∙ z)),
            ap
                  (λ g.
                    mappages root (n * page_size) page_size g perm
                      (record s { kmem = (kalloc s.kmem).1 }))
                  k
                ∙ e,
            ap (λ g. kfree kernel_end g s1.kmem) k ∙ kfree_lem kernel_end positive s1.kmem f page,
          )
          refl

    pub grow_step-full :
        (fuel n : ℕ) (s : Vm)
        → n * page_size < newsz
        → kalloc s.kmem ≡ (0, s.kmem)
        → grow_step (suc fuel) n s ≡ give_up kernel_end root (n * page_size) (n0 * page_size) s
    unfolding grow_from
    grow_step-full fuel n s lt k =
        rw (lt→ltb (n * page_size) newsz lt, grow_from, ap (λ (x : ℕ × Kmem). x.0) k)
          (ap
            (λ (x : ℕ × Kmem).
              give_up kernel_end root (n * page_size) (n0 * page_size) (record s { kmem = x.1 }))
            k)

    pub gives_up :
        (n : ℕ) (free : List ℕ) (s : Vm) (out : Run (ℕ × Vm))
        → n0 ≤ n
        → n ≤ limit
        → n + length free ≤ pages_of newsz
        → IsSpace kernel_end root limit free (first n) s
        → out ≡ give_up kernel_end root (n * page_size) (n0 * page_size) s
        → Grows n0 newsz s out
    gives_up n free s out h nl few v e =
        let (free', s', e2, v', count, same) = give_up-IsSpace n0 n free s h nl v in
        (free', s', same, inr (e ∙ e2, v', omega (arith, count, few, h)))

    update-first : (n q : ℕ) → update (first n) n true q ≡ first (suc n) q
    update-first n q = ground arith

    -- The page `f` from the free list is mapped or given back, and the loop goes on by `rest`.
    pub round :
        (fuel n f : ℕ) (ps : List ℕ) (s : Vm)
        → n0 ≤ n
        → n * page_size < newsz
        → IsSpace kernel_end root limit (f ∷ ps) (first n) s
        → ((free : List ℕ) (s1 : Vm)
            → IsSpace kernel_end root limit free (first (suc n)) s1
            → Grows n0 newsz s1 (grow_step fuel (suc n) s1))
        → Grows n0 newsz s (grow_step (suc fuel) n s)
    round fuel n f ps s h lt v rest =
        let (ok, s1, e, m) =
          mappages_once kernel_end root limit perm positive ps (first n) s0 f n new_page below user
            fits in
        by_case ok s1 e m
      where
        s0 : Vm
        s0 = taken kernel_end root limit positive (first n) s f ps

        new_page : IsAddable kernel_end root limit ps (first n) s0 f n
        new_page = record {
          space = taken-IsSpace kernel_end root limit positive (first n) s f ps v;
          page = v.tree.frees.pages.0;
          other = record {
            not_free = v.tree.frees.distinct.0;
            no_table = λ q b lq d z. (v.tree.pages q b lq d).1.0 (sym z);
          };
          unused = λ q lq hq z.
              (v.present q lq hq).other.not_free.0
                (sym (sym (ap pte2pa (pte-same root (q * page_size) s s0 refl)) ∙ z));
          inside = omega (arith, lt, l);
          absent = le→ltb n n (omega arith);
        }

        k : (kalloc s.kmem).0 ≡ f
        k = (kalloc-Frees kernel_end positive v.tree.frees).0

        not_null : f ≢ 0
        not_null = omega (arith, new_page.page.above)

        mapped_kept :
            (s1 : Vm)
            → Adds kernel_end root limit perm positive ps
                (first n)
                s0
                f
                n
                new_page
                below
                user
                fits
                true
                s1
            → Kept n0 s s1
        mapped_kept s1 m q x =
            added-kept kernel_end root limit perm positive ps (first n) s0 f n new_page below user
              fits s1 m q (omega (arith, x, h, new_page.inside)) (omega (arith, x, h))
            ∙ pte-same root (q * page_size) s s0 refl

        given_kept :
            (s1 : Vm)
            (m : Adds kernel_end root limit perm positive ps
              (first n)
              s0
              f
              n
              new_page
              below
              user
              fits
              false
              s1)
            → Kept n0 s (given kernel_end root limit positive (first n) s1 f m.left)
        given_kept s1 m q x =
            pte-same root (q * page_size) s1
              (given kernel_end root limit positive (first n) s1 f m.left) refl
            ∙ failed-kept kernel_end root limit perm positive ps (first n) s0 f n new_page below
                user fits s1 m q (omega (arith, x, h, new_page.inside))
            ∙ pte-same root (q * page_size) s s0 refl

        by_case :
            (ok : Bool) (s1 : Vm)
            → mappages root (n * page_size) page_size f perm s0 ≡ returns (ok, s1)
            → Adds kernel_end root limit perm positive ps
                (first n)
                s0
                f
                n
                new_page
                below
                user
                fits
                ok
                s1
            → Grows n0 newsz s (grow_step (suc fuel) n s)
        by_case true s1 e m =
            subst (Grows n0 newsz s) (sym (grow_step-maps fuel n f s s1 lt k not_null e)) (
              Grows-from n0 newsz s s1 (grow_step fuel (suc n) s1) (mapped_kept s1 m) (
                rest m.left s1 (
                  subst (λ g. IsSpace kernel_end root limit m.left g s1) (fun_ext (update-first n))
                    (added-IsSpace kernel_end root limit perm positive ps (first n) s0 f n new_page
                      below user fits s1 m))))
        by_case false s1 e m =
            let (w, o, u) =
              failed-IsSpace kernel_end root limit perm positive ps (first n) s0 f n new_page below
                user fits s1 m in
            Grows-from n0 newsz s (given kernel_end root limit positive (first n) s1 f m.left)
              (grow_step (suc fuel) n s) (given_kept s1 m)
              (gives_up n (f ∷ m.left) (given kernel_end root limit positive (first n) s1 f m.left)
                (grow_step (suc fuel) n s) h (omega (arith, new_page.inside))
                (omega (arith, lt, ap length (m.full refl)))
                (given-IsSpace kernel_end root limit positive (first n) s1 f m.left w new_page.page
                  o u)
                (grow_step-fails fuel n f s s1 lt k not_null e new_page.page))

    pub grow_step-done :
        (fuel n : ℕ) (s : Vm)
        → newsz ≤ n * page_size
        → grow_step (suc fuel) n s ≡ returns (newsz, s)
    unfolding grow_from
    grow_step-done fuel n s h = rw (le→ltb (n * page_size) newsz h, grow_from) refl
