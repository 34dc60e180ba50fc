-- ===== src/Vm/Copy/Pages.antt =====
-- kernel/vm.c: the bytes of a process by their virtual addresses.
use csse_332_final.Base.{
  ℕ, zero, suc, ◌+◌, ◌*◌, ◌/◌, ◌%◌, ◌≤◌, ◌<◌, ◌≡◌, ◌≢◌, refl, ◌∙◌, sym, ap, ap₂, arith, ◌∷◌, ◌++◌,
  inl, inr, Bool-cases, dec_lt,
}
use csse_332_final.Kalloc.{page_size}
use csse_332_final.Vm.{Vm, max_va, page_round_down, is_valid, is_user, walkaddr}
use csse_332_final.Vm.Paths.{pte}
use csse_332_final.Vm.Lookup.{user_page, walkaddr-pte, walkaddr-beyond}
use csse_332_final.Vm.Copy.{page, place, get_bytes, bytes_at}

-- No two pages of the process are one page of memory.
abbrev pub IsApart : ℕ → Vm → Type 0
IsApart pagetable s =
    (x y : ℕ)
    → page pagetable s x ≢ 0
    → page pagetable s x ≡ page pagetable s y
    → x / page_size ≡ y / page_size

user_page-aligned : (e : ℕ) → user_page e % page_size ≡ 0
user_page-aligned e = elim (Bool-cases (is_valid e)) [
  | inr i ↦ rw i refl
  | inl i ↦ elim (Bool-cases (is_user e)) [
    | inr u ↦ rw (i, u) refl
    | inl u ↦ rw (i, u) (omega arith)
  ]
]

module _ (pagetable : ℕ) (s : Vm) where
  page-aligned : (x : ℕ) → page pagetable s x % page_size ≡ 0
  page-aligned x = elim (dec_lt (page_round_down x) max_va) [
    | yes l ↦
        ap (λ p. p % page_size) (walkaddr-pte pagetable (page_round_down x) s l)
        ∙ user_page-aligned (pte pagetable (page_round_down x) s)
    | no h ↦
        ap (λ p. p % page_size) (walkaddr-beyond pagetable (page_round_down x) s (omega (arith, h)))
  ]

  -- Addresses of one page have one page of memory.
  pub page-same :
      (x y : ℕ) → x / page_size ≡ y / page_size → page pagetable s x ≡ page pagetable s y
  page-same x y h = ap (λ p. walkaddr pagetable (p * page_size) s) h

  pub place-add :
      (va j : ℕ)
      → va % page_size + j < page_size
      → place pagetable s (va + j) ≡ place pagetable s va + j
  place-add va j h = omega (arith, page-same (va + j) va (omega (arith, h)))

  pub place-apart :
      (x y : ℕ)
      → IsApart pagetable s
      → page pagetable s x ≢ 0
      → x / page_size ≢ y / page_size
      → place pagetable s x ≢ place pagetable s y
  place-apart x y v ne h e = h (v x y ne (omega (arith, e, page-aligned x, page-aligned y)))

  pub bytes_at-append :
      (mem : ℕ → ℕ) (va m n : ℕ)
      → bytes_at pagetable s mem va (m + n)
        ≡ bytes_at pagetable s mem va m ++ bytes_at pagetable s mem (va + m) n
  unfolding bytes_at
  bytes_at-append mem va zero n = ap₂ (bytes_at pagetable s mem) (omega arith) (omega arith)
  bytes_at-append mem va (suc m) n =
      let longer : suc m + n ≡ suc (m + n) = omega arith in
      ap (bytes_at pagetable s mem va) longer
      ∙ ap (λ r. mem (place pagetable s va) ∷ r)
          (bytes_at-append mem (va + 1) m n
            ∙ ap (λ w. bytes_at pagetable s mem (va + 1) m ++ bytes_at pagetable s mem w n)
                (omega arith))

  row :
      (mem : ℕ → ℕ) (va n j : ℕ)
      → va % page_size + (j + n) ≤ page_size
      → get_bytes mem (place pagetable s va + j) n ≡ bytes_at pagetable s mem (va + j) n
  unfolding bytes_at get_bytes
  row mem va zero j h = refl
  row mem va (suc n) j h = ap₂ ◌∷◌ (ap mem (sym (place-add va j (omega (arith, h))))) (
      ap (λ a. get_bytes mem a n) (omega arith)
      ∙ row mem va n (j + 1) (omega (arith, h))
      ∙ ap (λ a. bytes_at pagetable s mem a n) (omega arith))

  -- The bytes within one page lie in a row.
  pub get_bytes-place :
      (mem : ℕ → ℕ) (va n : ℕ)
      → va % page_size + n ≤ page_size
      → get_bytes mem (place pagetable s va) n ≡ bytes_at pagetable s mem va n
  get_bytes-place mem va n h =
      ap (λ a. get_bytes mem a n) (omega arith)
      ∙ row mem va n 0 (omega (arith, h))
      ∙ ap (λ a. bytes_at pagetable s mem a n) (omega arith)
