-- ===== src/Vm/Copy/Apart.antt =====
-- kernel/vm.c: in the space of a process no two pages are one page of memory, as the copies need it.
use csse_332_final.Base.{
  ℕ, ◌*◌, ◌/◌, ◌≤◌, ◌<◌, ◌≡◌, ◌≢◌, refl, ◌∙◌, sym, arith, Bool, true, false, List, inl, inr,
  Bool-cases, dec_lt,
}
use csse_332_final.Kalloc.{page_size}
use csse_332_final.Vm.{Vm, max_va, is_valid, is_user, pte2pa}
use csse_332_final.Vm.Lookup.{user_page, walkaddr-pte}
use csse_332_final.Vm.Copy.{page}
use csse_332_final.Vm.Copy.Pages.{IsApart}
use csse_332_final.Vm.Space.Pages.{entry, IsSpace}

user_page-frame : (e : ℕ) → user_page e ≢ 0 → (is_valid e ≡ true) × (user_page e ≡ pte2pa e)
user_page-frame e ne = elim (Bool-cases (is_valid e)) [
  | inr i ↦ absurd (ne (rw i refl))
  | inl i ↦ elim (Bool-cases (is_user e)) [
    | inr u ↦ absurd (ne (rw (i, u) refl))
    | inl u ↦ (i, rw (i, u) refl)
  ]
]

module _ (kernel_end root limit : ℕ) (free : List ℕ) (has : ℕ → Bool) (s : Vm)
    (v : IsSpace kernel_end root limit free has s) (below : limit * page_size ≤ max_va)
    (none_beyond : (x : ℕ) → limit ≤ x / page_size → page root s x ≡ 0) where
  -- A page that a user has.
  page-entry :
      (x : ℕ)
      → page root s x ≢ 0
      → (x / page_size < limit)
        × (has (x / page_size) ≡ true)
        × (page root s x ≡ pte2pa (entry root s (x / page_size)))
  page-entry x ne = elim (dec_lt (x / page_size) limit) [
    | no h ↦ absurd (ne (none_beyond x (omega (arith, h))))
    | yes l ↦
        let e = walkaddr-pte root (x / page_size * page_size) s (omega (arith, l, below)) in
        let (valid, frame) = user_page-frame (entry root s (x / page_size)) (λ z. ne (e ∙ z)) in
        elim (Bool-cases (has (x / page_size))) [
          | inl h ↦ (l, h, e ∙ frame)
          | inr h ↦ absurd (differ (sym valid ∙ v.absent (x / page_size) l h))
        ]
  ]
    where
      differ : ◌≡◌ {A = Bool} true false → ⊥
      differ e = cc

  pub IsSpace-IsApart : IsApart root s
  IsSpace-IsApart x y ne e =
      let (lx, hx, ex) = page-entry x ne in
      let (ly, hy, ey) = page-entry y (λ z. ne (e ∙ z)) in
      v.apart (x / page_size) (y / page_size) lx ly hx hy (sym ex ∙ e ∙ ey)
