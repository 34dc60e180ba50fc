-- ===== src/Vm/Clear.antt =====
-- kernel/vm.c: `uvmclear` hides a page from the user.
use csse_332_final.Base.{
  ℕ, ◌-◌, ◌/◌, ◌%◌, ◌<◌, ◌≡◌, ◌≢◌, refl, ◌∙◌, sym, ap, true, false, some, none, List, arith, inl,
  inr, Bool-cases, Option-cases, ◌==◌, ==_eq, ==_ne, ℕ_discrete, if◌then◌else◌, lt→leb, dec_lt, Run,
  returns, panics, Option,
}
use csse_332_final.Vm.{
  Vm, max_va, px, set_entry, is_valid, is_user, walk, walkaddr, clear_user, uvmclear,
}
use csse_332_final.Vm.Paths.{desc, indices, pte, pte-missing, walk_from-found, IsTree}
use csse_332_final.Vm.Write.{written, written-IsTree, pte-written}
use csse_332_final.Vm.Lookup.{user_page, walkaddr-pte, walkaddr-beyond}

not_user : (e : ℕ) → is_user (clear_user e) ≡ false
not_user e = elim (Bool-cases (is_user e)) [
  | inl u ↦ rw u (==_ne ((e - 16) / 16 % 2) 1 (omega (arith, is_one u)))
  | inr u ↦ rw u u
]
  where
    is_one : is_user e ≡ true → e / 16 % 2 ≡ 1
    is_one u = ground arith

user_page-clear_user : (e : ℕ) → user_page (clear_user e) ≡ 0
user_page-clear_user e = elim (Bool-cases (is_valid (clear_user e))) [
  | inl v ↦ rw (v, not_user e) refl
  | inr v ↦ rw v refl
]

walk-found :
    (root va : ℕ) (s : Vm) (b : ℕ)
    → va < max_va
    → desc s.tables root (indices 2 va) ≡ some b
    → walk root va false s ≡ returns (some (b, px 0 va), s)
unfolding walk
walk-found root va s b l d =
    rw (lt→leb max_va va l) (ap (λ o. returns o) (walk_from-found false 2 va root s b d))

uvmclear-found :
    (root va : ℕ) (s : Vm) (b i : ℕ)
    → walk root va false s ≡ returns (some (b, i), s)
    → uvmclear root va s
      ≡ returns (record s { tables = set_entry s.tables b i (clear_user (s.tables b i)) })
unfolding uvmclear
uvmclear-found root va s b i e =
    ap
      (λ (r : Run (Option (ℕ × ℕ) × Vm)). elim r as (λ x. Run Vm) [
        | panics m ↦ panics m
        | returns (none, s1) ↦ panics "uvmclear"
        | returns (some (t, j), s1) ↦
            returns (record s1 { tables = set_entry s1.tables t j (clear_user (s1.tables t j)) })
      ])
      e

-- `uvmclear` of a page that the user has does not panic. After it the user has not that page, and has all
-- others as before.
pub uvmclear_hides :
    (kernel_end root va : ℕ) (free : List ℕ) (s : Vm)
    → va < max_va
    → walkaddr root va s ≢ 0
    → IsTree kernel_end root free s
    → (s' : Vm) × (uvmclear root va s ≡ returns s')
      × IsTree kernel_end root free s'
      × ((x : ℕ) → walkaddr root x s' ≡ (if x / 4096 == va / 4096 then 0 else walkaddr root x s))
uvmclear_hides kernel_end root va free s l has v =
    elim (Option-cases (desc s.tables root (indices 2 va))) [
      | inl d ↦ absurd (has (walkaddr-pte root va s l ∙ ap user_page (pte-missing root va s d)))
      | inr (b, d) ↦
          let e = clear_user (s.tables b (px 0 va)) in
          (
            written kernel_end root free s v va b e l d,
            uvmclear-found root va s b (px 0 va) (walk-found root va s b l d),
            written-IsTree kernel_end root free s v va b e l d,
            λ x. elim (dec_lt x max_va) [
              | no h ↦ rw (==_ne (x / 4096) (va / 4096) (omega (arith, h, l))) (
                  walkaddr-beyond root x _ (omega (arith, h))
                  ∙ sym (walkaddr-beyond root x s (omega (arith, h))))
              | yes h ↦
                  walkaddr-pte root x _ h
                  ∙ ap user_page (pte-written kernel_end root free s v va b e l d x h)
                  ∙ seen b x h
            ],
          )
    ]
  where
    seen :
        (b x : ℕ)
        → x < max_va
        → user_page
            (if x / 4096 == va / 4096 then clear_user (s.tables b (px 0 va)) else pte root x s)
          ≡ (if x / 4096 == va / 4096 then 0 else walkaddr root x s)
    seen b x h = elim (ℕ_discrete (x / 4096) (va / 4096)) [
      | yes q ↦ rw (==_eq (x / 4096) (va / 4096) q) (user_page-clear_user (s.tables b (px 0 va)))
      | no q ↦ rw (==_ne (x / 4096) (va / 4096) q) (sym (walkaddr-pte root x s h))
    ]
