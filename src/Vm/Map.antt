-- ===== src/Vm/Map.antt =====
-- kernel/vm.c: `mappages` maps its pages and no others.
use csse_332_final.Base.{
  ℕ, zero, suc, ◌+◌, ◌-◌, ◌*◌, ◌/◌, ◌%◌, ◌^◌, ◌≤◌, ◌<◌, ◌≡◌, refl, ◌∙◌, sym, ap, ap₂, subst, Bool,
  true, false, ◌&&◌, some, List, [], arith, inl, inr, Option-cases, ◌==◌, ==_eq, ==_ne,
  if◌then◌else◌, leb, ltb, le→leb, lt→leb, le→ltb, lt→ltb, returns, dec_lt, ℕ_discrete,
}
use csse_332_final.Kalloc.{page_size}
use csse_332_final.Vm.{Vm, max_va, px, is_valid, make_pte, map_from}
use csse_332_final.Vm.Paths.{desc, indices, pte, pte-found, IsTree}
use csse_332_final.Vm.Grow.{IsOther, Grown}
use csse_332_final.Vm.Walk.{Answer, walk-Walked}
use csse_332_final.Vm.Write.{written, written-IsTree, written-IsOther, pte-written}

-- Whether `x` lies in the `k` pages from `a` on.
abbrev pub within : ℕ → ℕ → ℕ → Bool
within a k x = leb a x && ltb x (a + k * page_size)

-- The entries after the first `k` pages from `a` on were mapped to those from `pa` on.
abbrev pub mapped_entry : ℕ → ℕ → ℕ → ℕ → ℕ → ℕ → ℕ
mapped_entry a k pa perm x e =
    if within a k x then make_pte (pa + (x - a) / page_size * page_size) perm else e

pub within_yes : (a k x : ℕ) → a ≤ x → x < a + k * page_size → within a k x ≡ true
within_yes a k x h l = rw (le→leb a x h, lt→ltb x (a + k * page_size) l) refl

pub within_low : (a k x : ℕ) → x < a → within a k x ≡ false
within_low a k x h = rw (lt→leb a x h) refl

pub within_high : (a k x : ℕ) → a ≤ x → a + k * page_size ≤ x → within a k x ≡ false
within_high a k x g h = rw (le→leb a x g, le→ltb x (a + k * page_size) h) refl

mapped_entry-suc :
    (a k pa perm x e : ℕ)
    → a % page_size ≡ 0
    → mapped_entry
        (a + page_size)
        k
        (pa + page_size)
        perm
        x
        (if x / 4096 == a / 4096 then make_pte pa perm else e)
      ≡ mapped_entry a (suc k) pa perm x e
mapped_entry-suc a k pa perm x e al = elim (dec_lt x a) [
  | yes low ↦
      rw
        (
          within_low (a + page_size) k x (omega arith),
          within_low a (suc k) x low,
          ==_ne (x / 4096) (a / 4096) (omega arith),
        )
        refl
  | no h ↦ elim (dec_lt x (a + page_size)) [
    | yes here ↦
        rw
          (
            within_low (a + page_size) k x here,
            within_yes a (suc k) x (omega arith) (omega arith),
            ==_eq (x / 4096) (a / 4096) (omega arith),
          )
          (ap (λ p. make_pte p perm) (omega arith))
    | no later ↦ elim (dec_lt x (a + suc k * page_size)) [
      | yes l ↦
          rw
            (
              within_yes (a + page_size) k x (omega arith) (omega arith),
              within_yes a (suc k) x (omega arith) (omega arith),
            )
            (ap (λ p. make_pte p perm) (omega arith))
      | no out ↦
          rw
            (
              within_high (a + page_size) k x (omega arith) (omega arith),
              within_high a (suc k) x (omega arith) (omega arith),
              ==_ne (x / 4096) (a / 4096) (omega arith),
            )
            refl
    ]
  ]
]

-- What a call leaves that is to map `k` pages: `true` after all of them, or `false` after `count` of
-- them, where then no page is free.
pub record Mapped (kernel_end root : ℕ) (free : List ℕ) (s : Vm) (a k pa perm : ℕ) (ok : Bool)
    (s' : Vm) : Type 0 where
  pub left : List ℕ
  pub count : ℕ
  pub tree : IsTree kernel_end root left s'
  pub upto : count ≤ k
  pub whole : (ok ≡ true) → count ≡ k
  pub full : (ok ≡ false) → left ≡ []
  pub part : (ok ≡ false) → count < k
  pub entries : (x : ℕ) → x < max_va → pte root x s' ≡ mapped_entry a count pa perm x (pte root x s)
  pub others : (x : ℕ) → IsOther root free s x → IsOther root left s' x

abbrev pub Unmapped : ℕ → Vm → ℕ → ℕ → Type 0
Unmapped root s a k = (x : ℕ) → a ≤ x → x < a + k * page_size → is_valid (pte root x s) ≡ false

module _ (kernel_end root perm : ℕ) (positive : 0 < kernel_end) where
  -- One page is mapped, and behind it `k` others.
  one_more :
      (free : List ℕ) (s : Vm) (free1 : List ℕ) (s1 : Vm) (a k pa b : ℕ) (ok : Bool) (s' : Vm)
      (v : IsTree kernel_end root free1 s1) (l : a < max_va)
      (at : desc s1.tables root (indices 2 a) ≡ some b)
      → a % page_size ≡ 0
      → Grown root free s free1 s1
      → Mapped kernel_end root free1
          (written kernel_end root free1 s1 v a b (make_pte pa perm) l at)
          (a + page_size)
          k
          (pa + page_size)
          perm
          ok
          s'
      → Mapped kernel_end root free s a (suc k) pa perm ok s'
  one_more free s free1 s1 a k pa b ok s' v l at al g m = record {
    left = m.left;
    count = suc m.count;
    tree = m.tree;
    upto = omega (arith, m.upto);
    whole = λ e. ap suc (m.whole e);
    full = m.full;
    part = λ e. omega (arith, m.part e);
    entries = λ x h.
        m.entries x h
        ∙ ap (mapped_entry (a + page_size) m.count (pa + page_size) perm x) (
            pte-written kernel_end root free1 s1 v a b (make_pte pa perm) l at x h
            ∙ ap (λ e. if x / 4096 == a / 4096 then make_pte pa perm else e) (g.same x))
        ∙ mapped_entry-suc a m.count pa perm x (pte root x s) al;
    others = λ x o.
        m.others x
          (written-IsOther kernel_end root free1 s1 v a b (make_pte pa perm) l at x (g.others x o));
  }

  none_mapped : (a pa x e : ℕ) → e ≡ mapped_entry a 0 pa perm x e
  none_mapped a pa x e = elim (dec_lt x a) [
    | yes low ↦ rw (within_low a 0 x low) refl
    | no h ↦ rw (within_high a 0 x (omega arith) (omega arith)) refl
  ]

  full_stop :
      (free : List ℕ) (s : Vm) (s1 : Vm) (a n pa : ℕ)
      → IsTree kernel_end root [] s1
      → Grown root free s [] s1
      → 0 < n
      → Mapped kernel_end root free s a n pa perm false s1
  full_stop free s s1 a n pa v g some_left = record {
    left = [];
    count = 0;
    tree = v;
    upto = omega arith;
    whole = λ e. cc;
    full = λ e. refl;
    part = λ e. some_left;
    entries = λ x h. g.same x ∙ none_mapped a pa x (pte root x s);
    others = g.others;
  }

  no_more :
      (free : List ℕ) (s : Vm) (a pa : ℕ)
      → IsTree kernel_end root free s
      → Mapped kernel_end root free s a 0 pa perm true s
  no_more free s a pa v = record {
    left = free;
    count = 0;
    tree = v;
    upto = omega arith;
    whole = λ e. refl;
    full = λ e. cc;
    part = λ e. cc;
    entries = λ x h. none_mapped a pa x (pte root x s);
    others = λ x o. o;
  }

  still-Unmapped :
      (free : List ℕ) (s : Vm) (free1 : List ℕ) (s1 : Vm) (a k b e : ℕ)
      (v : IsTree kernel_end root free1 s1) (l : a < max_va)
      (at : desc s1.tables root (indices 2 a) ≡ some b)
      → a % page_size ≡ 0
      → a + suc k * page_size ≤ max_va
      → Grown root free s free1 s1
      → Unmapped root s a (suc k)
      → Unmapped root (written kernel_end root free1 s1 v a b e l at) (a + page_size) k
  still-Unmapped free s free1 s1 a k b e v l at al top g u x p q =
      ap is_valid (
        pte-written kernel_end root free1 s1 v a b e l at x (omega (arith, q, top))
        ∙ ap (λ c. if c then e else pte root x s1)
            (==_ne (x / 4096) (a / 4096) (omega (arith, al, p)))
        ∙ g.same x)
      ∙ u x (omega (arith, p)) (omega (arith, q))

  pub map_from-Mapped :
      (fuel n : ℕ) (free : List ℕ) (s : Vm) (a last pa : ℕ)
      → n ≤ fuel
      → last + page_size ≡ a + n * page_size
      → a ≤ last
      → a % page_size ≡ 0
      → last < max_va
      → pa + n * page_size < 2 ^ 56
      → IsTree kernel_end root free s
      → Unmapped root s a n
      → (ok : Bool) × (s' : Vm) × (map_from fuel root a last pa perm s ≡ returns (ok, s'))
        × Mapped kernel_end root free s a n pa perm ok s'
  unfolding map_from
  map_from-Mapped zero n free s a last pa f e g al l h v u = absurd (omega arith)
  map_from-Mapped (suc fuel) n free s a last pa f e below al l h v u =
      let l1 : a < max_va = omega (arith, below, l) in
      let ((o, s1), w, (free1, v1, g, answer)) =
        walk-Walked kernel_end root a free s positive l1 v in
      elim (Option-cases o) [
        | inl none_left ↦
            let at_end : free1 ≡ [] =
              subst (Answer root a (indices 2 a) free1 s1) none_left answer in
            (
              false,
              s1,
              rw (w ∙ ap (λ x. returns (x, s1)) none_left, map_from) refl,
              full_stop free s s1 a n pa (subst (λ x. IsTree kernel_end root x s1) at_end v1)
                  (subst (λ x. Grown root free s x s1) at_end g) (omega (arith, e, below)),
            )
        | inr ((b, i), found) ↦
            let (at, slot) = subst (Answer root a (indices 2 a) free1 s1) found answer in
            let w2 = w ∙ ap (λ x. returns (x, s1)) (found ∙ ap (λ j. some (b, j)) slot) in
            let empty : is_valid (s1.tables b (px 0 a)) ≡ false =
              ap is_valid (sym (pte-found root a s1 b at) ∙ g.same a)
              ∙ u a (omega arith) (omega (arith, e, below)) in
            let s2 = written kernel_end root free1 s1 v1 a b (make_pte pa perm) l1 at in
            let v2 = written-IsTree kernel_end root free1 s1 v1 a b (make_pte pa perm) l1 at in
            let size : suc (n - 1) ≡ n = omega (arith, e, below) in
            elim (ℕ_discrete a last) [
              | yes end ↦
                  let one : 0 ≡ n - 1 = omega (arith, e, end) in
                  (
                    true,
                    s2,
                    rw (w2, map_from, empty, ==_eq a last end) refl,
                    subst (λ k. Mapped kernel_end root free s a k pa perm true s2) size
                        (one_more free s free1 s1 a (n - 1) pa b true s2 v1 l1 at al g (
                          subst
                            (λ k.
                              Mapped kernel_end root free1 s2 (a + page_size) k (pa + page_size)
                                perm true s2)
                            one (no_more free1 s2 (a + page_size) (pa + page_size) v2))),
                  )
              | no more ↦
                  let (ok, s', e2, m) =
                    map_from-Mapped fuel (n - 1) free1 s2 (a + page_size) last (pa + page_size)
                      (omega (arith, f)) (omega (arith, e, below))
                      (omega (arith, e, below, more, al)) (omega (arith, al)) l
                      (omega (arith, h, e, below)) v2
                      (still-Unmapped free s free1 s1 a (n - 1) b (make_pte pa perm) v1 l1 at al
                        (omega (arith, e, l, al, below)) g
                        (λ x p q. u x p (omega (arith, q, e, below)))) in
                  (
                    ok,
                    s',
                    rw (w2, map_from, empty, ==_ne a last more)
                        (ap₂ (λ y z. map_from fuel root y last z perm s2) (omega (arith, l1))
                            (omega (arith, h, e, below))
                          ∙ e2),
                    subst (λ k. Mapped kernel_end root free s a k pa perm ok s') size
                        (one_more free s free1 s1 a (n - 1) pa b ok s' v1 l1 at al g m),
                  )
            ]
      ]
