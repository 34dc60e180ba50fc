-- ===== src/Vm/Write.antt =====
-- kernel/vm.c: an entry is written in the table that `walk` found.
use csse_332_final.Base.{
  ℕ, ◌/◌, ◌≤◌, ◌<◌, ◌≡◌, refl, ◌∙◌, sym, ap, some, List, [], ◌∷◌, arith, length, inl, inr,
  Option-cases, ◌==◌, ==_eq, ==_ne, if◌then◌else◌, ℕ_discrete, update, update_self, update-ne,
}
use csse_332_final.Vm.{Tables, Vm, max_va, px, set_entry}
use csse_332_final.Vm.Paths.{
  same_indices, desc, desc_nil, indices, pte, pte-found, pte-missing, IsTree,
}
use csse_332_final.Vm.Attach.{written-same}
use csse_332_final.Vm.Grow.{IsOther}

head_eq : (i j k l : ℕ) → i ∷ j ∷ [] ≡ k ∷ l ∷ [] → (i ≡ k) × (j ≡ l)
head_eq i j k l e = (cc, cc)

same_page :
    (x y : ℕ)
    → x < max_va
    → y < max_va
    → indices 2 x ≡ indices 2 y
    → px 0 x ≡ px 0 y
    → x / 4096 ≡ y / 4096
same_page x y hx hy e z =
    let (e2, e1) = head_eq (px 2 x) (px 1 x) (px 2 y) (px 1 y) e in omega (arith, e2, e1, z)

set_entry-ne :
    (t : Tables) (b i e c j : ℕ) → ((c ≡ b) → (j ≡ i) → ⊥) → set_entry t b i e c j ≡ t c j
set_entry-ne t b i e c j ne = elim (ℕ_discrete b c) [
  | no nb ↦ ap (λ r. r j) (update-ne t b (update (t b) i e) nb)
  | yes eb ↦
      ap (λ r. r j) (update_self t b (update (t b) i e) eb)
      ∙ update-ne (t b) i e (λ ei. ne (sym eb) (sym ei))
      ∙ ap (λ n. t n j) eb
]

module _ (kernel_end root : ℕ) (free : List ℕ) (s : Vm) (v : IsTree kernel_end root free s)
    (va b e : ℕ) (l : va < max_va) (at : desc s.tables root (indices 2 va) ≡ some b) where
  abbrev pub written : Vm
  written = record s { tables = set_entry s.tables b (px 0 va) e }

  pub same_desc : (q : List ℕ) → length q ≤ 2 → desc written.tables root q ≡ desc s.tables root q
  same_desc q h =
      written-same s.tables root v.distinct (indices 2 va) b (px 0 va) e at refl q [] root
        (desc_nil s.tables root) h

  pub written-IsTree : IsTree kernel_end root free written
  written-IsTree = record {
    frees = v.frees;
    pages = λ q a h d. v.pages q a h (sym (same_desc q h) ∙ d);
    distinct =
        λ p q a h k d f. v.distinct p q a h k (sym (same_desc p h) ∙ d) (sym (same_desc q k) ∙ f);
  }

  pub written-IsOther : (x : ℕ) → IsOther root free s x → IsOther root free written x
  written-IsOther x o = record {
    not_free = o.not_free;
    no_table = λ q c h d. o.no_table q c h (sym (same_desc q h) ∙ d);
  }

  -- Just the entry of that page is changed.
  pub pte-written :
      (x : ℕ)
      → x < max_va
      → pte root x written ≡ (if x / 4096 == va / 4096 then e else pte root x s)
  pte-written x h = elim (ℕ_discrete (x / 4096) (va / 4096)) [
    | yes page ↦ rw (==_eq (x / 4096) (va / 4096) page) (
        pte-found root x written b (
          same_desc (indices 2 x) (omega arith)
          ∙ ap (desc s.tables root) (same_indices x va page)
          ∙ at)
        ∙ ap (λ i. set_entry s.tables b (px 0 va) e b i) (same_slot page)
        ∙ ap (λ r. r (px 0 va)) (update_self s.tables b (update (s.tables b) (px 0 va) e) refl)
        ∙ update_self (s.tables b) (px 0 va) e refl)
    | no other ↦
        rw (==_ne (x / 4096) (va / 4096) other)
          (elim (Option-cases (desc s.tables root (indices 2 x))) [
            | inl d ↦
                pte-missing root x written (same_desc (indices 2 x) (omega arith) ∙ d)
                ∙ sym (pte-missing root x s d)
            | inr (c, d) ↦
                pte-found root x written c (same_desc (indices 2 x) (omega arith) ∙ d)
                ∙ set_entry-ne s.tables b (px 0 va) e c (px 0 x) (λ ec ei. other (
                    same_page x va h l
                      (v.distinct (indices 2 x) (indices 2 va) b (omega arith) (omega arith)
                        (d ∙ ap some ec) at)
                      ei))
                ∙ sym (pte-found root x s c d)
          ])
  ]
    where
      same_slot : x / 4096 ≡ va / 4096 → px 0 x ≡ px 0 va
      same_slot page = omega (arith, page)
