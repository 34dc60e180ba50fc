-- ===== src/Vm/Lookup.antt =====
-- kernel/vm.c: `walkaddr` finds what `mappages` has mapped.
use csse_332_final.Base.{
  ℕ, suc, ◌+◌, ◌-◌, ◌*◌, ◌/◌, ◌%◌, ◌^◌, ◌≤◌, ◌<◌, ◌≡◌, refl, ◌∙◌, sym, ap, Bool, true, not, List,
  arith, inl, inr, Bool-cases, Option-cases, ==_eq, ==_ne, if◌then◌else◌, le→leb, lt→leb, Run,
  returns,
}
use csse_332_final.Kalloc.{page_size}
use csse_332_final.Vm.{
  Vm, max_va, page_round_down, is_valid, is_user, make_pte, pte2pa, walkaddr, map_from, mappages,
}
use csse_332_final.Vm.Entries.{IsFrame, make_pte-reads}
use csse_332_final.Vm.Paths.{
  desc, indices, pte, pte-found, pte-missing, entry_at-found, entry_at-missing, IsTree,
}
use csse_332_final.Vm.Map.{Mapped, Unmapped, within, mapped_entry, map_from-Mapped}

-- The page that an entry gives a user.
abbrev pub user_page : ℕ → ℕ
user_page e = if not (is_valid e) then 0 else if not (is_user e) then 0 else pte2pa e

pub walkaddr-pte :
    (root va : ℕ) (s : Vm) → va < max_va → walkaddr root va s ≡ user_page (pte root va s)
unfolding walkaddr
walkaddr-pte root va s l = elim (Option-cases (desc s.tables root (indices 2 va))) [
  | inl d ↦
      rw (lt→leb max_va va l, entry_at-missing root va s d, walkaddr)
        (ap user_page (sym (pte-missing root va s d)))
  | inr (b, d) ↦
      rw (lt→leb max_va va l, entry_at-found root va s b d, walkaddr)
        (ap user_page (sym (pte-found root va s b d)))
]

pub walkaddr-beyond : (root va : ℕ) (s : Vm) → max_va ≤ va → walkaddr root va s ≡ 0
unfolding walkaddr
walkaddr-beyond root va s h = rw (le→leb max_va va h) refl

-- The pages that `size` bytes from `va` on touch.
abbrev pub page_count : ℕ → ℕ → ℕ
page_count va size = (page_round_down (va + size - 1) - page_round_down va) / page_size + 1

-- `mappages` of pages below the end of the addresses, none of which is mapped, does not panic. It answers
-- true when all are mapped, each to its page and with the flags, and false only when no page is free, with
-- the first of them mapped. It changes no other entry, and keeps the tables a tree.
pub mappages-Mapped :
    (kernel_end root perm : ℕ) (free : List ℕ) (s : Vm) (va size pa : ℕ)
    → 0 < kernel_end
    → 0 < size
    → va + size ≤ max_va
    → pa < 2 ^ 55
    → IsTree kernel_end root free s
    → Unmapped root s (page_round_down va) (page_count va size)
    → (ok : Bool) × (s' : Vm) × (mappages root va size pa perm s ≡ returns (ok, s'))
      × Mapped kernel_end root free s (page_round_down va) (page_count va size) pa perm ok s'
unfolding mappages
mappages-Mapped kernel_end root perm free s va size pa positive z l h v u =
    let last = page_round_down (va + size - 1) in
    let (ok, s', e, m) =
      map_from-Mapped kernel_end root perm positive (suc (max_va / page_size)) (page_count va size)
        free s (page_round_down va) last pa (omega (arith, l)) (omega (arith, z)) (omega (arith, z))
        (omega arith) (omega (arith, l, z)) (omega (arith, h, l)) v u in
    (
      ok,
      s',
      rw (==_ne size 0 (omega (arith, z))) (
          ap
            (λ x.
              map_from (suc (max_va / page_size)) root (page_round_down va) (page_round_down x) pa
                perm s)
            (omega (arith, l, z))
          ∙ e),
      m,
    )

user_page-make_pte :
    (pa perm : ℕ)
    → IsFrame pa
    → perm < 2 ^ 10
    → perm / 16 % 2 ≡ 1
    → user_page (make_pte pa perm) ≡ pa
user_page-make_pte pa perm f h u =
    let (page, valid, flags) = make_pte-reads pa perm f h in
    rw
      (
        ==_eq (make_pte pa perm % 2) 1 valid,
        ==_eq (make_pte pa perm / 16 % 2) 1 (omega (arith, flags, u)),
      )
      page

-- After `mappages` with user access has mapped its pages, `walkaddr` answers for each address in them the
-- page that it was mapped to, and for each other address what it answered before.
pub walkaddr-mappages :
    (kernel_end root perm : ℕ) (free : List ℕ) (s : Vm) (va size pa : ℕ)
    → 0 < kernel_end
    → 0 < size
    → va + size ≤ max_va
    → pa < 2 ^ 55
    → pa % page_size ≡ 0
    → perm < 2 ^ 10
    → perm / 16 % 2 ≡ 1
    → IsTree kernel_end root free s
    → Unmapped root s (page_round_down va) (page_count va size)
    → {s' : Vm} → mappages root va size pa perm s ≡ returns (true, s')
    → (x : ℕ) → x < max_va
    → walkaddr root x s' ≡ (
        if within (page_round_down va) (page_count va size) x
        then pa + (x - page_round_down va) / page_size * page_size
        else walkaddr root x s)
walkaddr-mappages kernel_end root perm free s va size pa positive z l h al p user v u {s'} e x lx =
    let (ok, s1, e1, m) =
      mappages-Mapped kernel_end root perm free s va size pa positive z l h v u in
    let (same_ok, same_s) = inj ok s1 (sym e1 ∙ e) in
    walkaddr-pte root x s' lx
    ∙ ap (λ t. user_page (pte root x t)) (sym same_s)
    ∙ ap user_page (
        m.entries x lx
        ∙ ap (λ n. mapped_entry (page_round_down va) n pa perm x (pte root x s)) (m.whole same_ok))
    ∙ found
  where
    inj :
        (ok : Bool) (s1 : Vm)
        → ◌≡◌ {A = Run (Bool × Vm)} (returns (ok, s1)) (returns (true, s'))
        → (ok ≡ true) × (s1 ≡ s')
    inj ok s1 q = (cc, cc)

    found :
        user_page (mapped_entry (page_round_down va) (page_count va size) pa perm x (pte root x s))
        ≡ (if within (page_round_down va) (page_count va size) x
            then pa + (x - page_round_down va) / page_size * page_size
            else walkaddr root x s)
    found = elim (Bool-cases (within (page_round_down va) (page_count va size) x)) [
      | inl i ↦ rw i (user_page-make_pte _ perm (omega (arith, al), omega (arith, h, lx)) p user)
      | inr i ↦ rw i (sym (walkaddr-pte root x s lx))
    ]
