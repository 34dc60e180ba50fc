-- ===== src/Vm/Copy/Strings.antt =====
-- kernel/vm.c: `copyinstr` copies a string up to its end, over any number of pages.
use csse_332_final.Base.{
  ℕ, zero, suc, ◌+◌, ◌-◌, ◌%◌, ◌^◌, ◌≤◌, ◌<◌, ◌≡◌, ◌≢◌, refl, ◌∙◌, sym, ap, subst, arith, Bool,
  true, false, List, [], ◌∷◌, ◌++◌, append-nil, append_assoc, ◌⊎◌, inl, inr, ==_eq, ==_ne,
  ℕ_discrete, dec_lt,
}
use csse_332_final.Kalloc.{page_size}
use csse_332_final.Vm.{Vm, page_round_down}
use csse_332_final.Vm.Copy.{page, place, piece, bytes_at, copy_string, copyinstr_from, copyinstr}
use csse_332_final.Vm.Copy.Pages.{page-same, place-add, bytes_at-append}

module _ (pagetable : ℕ) (s : Vm) (mem : ℕ → ℕ) where
  -- The process has the `n` bytes from `va` on, and the string does not end in them.
  abbrev pub IsWithin : ℕ → ℕ → Type 0
  IsWithin va n =
      (j : ℕ) → j < n → (page pagetable s (va + j) ≢ 0) × (mem (place pagetable s (va + j)) ≢ 0)

  -- A string of the process that ends among the `n` bytes from `va` on, with its end behind what there was.
  abbrev pub Ends : ℕ → ℕ → List ℕ → List ℕ → Type 0
  Ends va n got out =
      (k : ℕ) × (k < n)
      × IsWithin va k
      × (page pagetable s (va + k) ≢ 0)
      × (mem (place pagetable s (va + k)) ≡ 0)
      × (out ≡ got ++ (bytes_at pagetable s mem va k ++ 0 ∷ []))

  abbrev Scanned : ℕ → ℕ → List ℕ → Bool × List ℕ → Type 0
  Scanned va n got (true, out) = Ends va n got out
  Scanned va n got (false, out) = IsWithin va n × (out ≡ got ++ bytes_at pagetable s mem va n)

  -- What `copyinstr` leaves: the string, or as much as there is before the limit or before a page that is
  -- not there.
  abbrev pub Copies : ℕ → ℕ → List ℕ → Bool × List ℕ → Type 0
  Copies va max got (true, out) = Ends va max got out
  Copies va max got (false, out) =
      (n : ℕ) × (n ≤ max)
      × IsWithin va n
      × ((n ≡ max) ⊎ (page pagetable s (va + n) ≡ 0))
      × (out ≡ got ++ bytes_at pagetable s mem va n)

  -- `m` bytes of the string, and what follows.
  IsWithin-add : (va m n : ℕ) → IsWithin va m → IsWithin (va + m) n → IsWithin va (m + n)
  IsWithin-add va m n a b j l = elim (dec_lt j m) [
    | yes h ↦ a j h
    | no h ↦
        let (p, q) = b (j - m) (omega (arith, l, h)) in
        (
          λ z. p (ap (page pagetable s) (omega (arith, h)) ∙ z),
          λ z. q (ap (λ x. mem (place pagetable s x)) (omega (arith, h)) ∙ z),
        )
  ]

  bytes_more :
      (va m n : ℕ) (got tail : List ℕ)
      → (got ++ bytes_at pagetable s mem va m) ++ (bytes_at pagetable s mem (va + m) n ++ tail)
        ≡ got ++ (bytes_at pagetable s mem va (m + n) ++ tail)
  bytes_more va m n got tail =
      append_assoc got (bytes_at pagetable s mem va m) (bytes_at pagetable s mem (va + m) n ++ tail)
      ∙ ap (λ l. got ++ l)
          (sym (
              append_assoc (bytes_at pagetable s mem va m) (bytes_at pagetable s mem (va + m) n)
                tail)
            ∙ ap (λ l. l ++ tail) (sym (bytes_at-append pagetable s mem va m n)))

  Ends-later :
      (va m n : ℕ) (got out : List ℕ)
      → IsWithin va m
      → Ends (va + m) n (got ++ bytes_at pagetable s mem va m) out
      → Ends va (m + n) got out
  Ends-later va m n got out a (k, l, b, p, z, e) = (
    m + k,
    omega (arith, l),
    IsWithin-add va m k a b,
    λ q. p (ap (page pagetable s) (omega arith) ∙ q),
    ap (λ x. mem (place pagetable s x)) (omega arith) ∙ z,
    e ∙ bytes_more va m k got (0 ∷ []),
  )

  Copies-later :
      (va m n : ℕ) (got : List ℕ) (r : Bool × List ℕ)
      → IsWithin va m
      → Copies (va + m) n (got ++ bytes_at pagetable s mem va m) r
      → Copies va (m + n) got r
  Copies-later va m n got (true, out) a h = Ends-later va m n got out a h
  Copies-later va m n got (false, out) a (k, l, b, w, e) = (
    m + k,
    omega (arith, l),
    IsWithin-add va m k a b,
    elim w [
      | inl q ↦ inl (omega (arith, q))
      | inr q ↦ inr (ap (page pagetable s) (omega arith) ∙ q)
    ],
    e
        ∙ ap (λ l. (got ++ bytes_at pagetable s mem va m) ++ l) (sym (append-nil _))
        ∙ bytes_more va m k got []
        ∙ ap (λ l. got ++ l) (append-nil _),
  )

  nil-IsWithin : (va : ℕ) → IsWithin va 0
  nil-IsWithin va j l = absurd (omega (arith, l))

  Scanned-later :
      (va n : ℕ) (got : List ℕ) (r : Bool × List ℕ)
      → IsWithin va 1
      → Scanned (va + 1) n (got ++ bytes_at pagetable s mem va 1) r
      → Scanned va (1 + n) got r
  Scanned-later va n got (true, out) a h = Ends-later va 1 n got out a h
  Scanned-later va n got (false, out) a (b, e) = (
    IsWithin-add va 1 n a b,
    e
        ∙ ap (λ l. (got ++ bytes_at pagetable s mem va 1) ++ l) (sym (append-nil _))
        ∙ bytes_more va 1 n got []
        ∙ ap (λ l. got ++ l) (append-nil _),
  )

  copy_string-Scanned :
      (va n : ℕ) (got : List ℕ)
      → va % page_size + n ≤ page_size
      → ((0 < n) → page pagetable s va ≢ 0)
      → Scanned va n got (copy_string mem (place pagetable s va) n got)
  unfolding copy_string bytes_at
  copy_string-Scanned va zero got h here = (nil-IsWithin va, sym (append-nil got))
  copy_string-Scanned va (suc n) got h here = elim (ℕ_discrete (mem (place pagetable s va)) 0) [
    | yes z ↦ rw (==_eq (mem (place pagetable s va)) 0 z) (
      0,
      omega arith,
      nil-IsWithin va,
      λ q. here (omega arith) (ap (page pagetable s) (omega arith) ∙ q),
      ap (λ a. mem (place pagetable s a)) (omega arith) ∙ z,
      refl,
    )
    | no ne ↦
        let longer : 1 + n ≡ suc n = omega arith in
        let first : IsWithin va 1 = λ j l. (
          λ q. here (omega arith) (ap (page pagetable s) (omega (arith, l)) ∙ q),
          λ e. ne (ap (λ a. mem (place pagetable s a)) (omega (arith, l)) ∙ e),
        ) in
        rw (==_ne (mem (place pagetable s va)) 0 ne) (
          subst
            (λ k. Scanned va k got (
              copy_string mem (place pagetable s va + 1) n
                (got ++ mem (place pagetable s va) ∷ [])))
            longer
            (Scanned-later va n got _ first (
              subst (Scanned (va + 1) n (got ++ bytes_at pagetable s mem va 1)) (sym (start n h)) (
                copy_string-Scanned (va + 1) n (got ++ mem (place pagetable s va) ∷ [])
                  (omega (arith, h))
                  (λ p q.
                    here (omega arith)
                      (page-same pagetable s va (va + 1) (omega (arith, h, p)) ∙ q))))))
  ]
    where
      start :
          (n : ℕ)
          → va % page_size + suc n ≤ page_size
          → copy_string mem (place pagetable s va + 1) n (got ++ mem (place pagetable s va) ∷ [])
            ≡ copy_string mem
                (place pagetable s (va + 1))
                n
                (got ++ mem (place pagetable s va) ∷ [])
      start zero h = refl
      start (suc n) h =
          ap (λ a. copy_string mem a (suc n) (got ++ mem (place pagetable s va) ∷ []))
            (sym (place-add pagetable s va 1 (omega (arith, h))))

  Copies-zero :
      (va vb : ℕ) (got : List ℕ) (r : Bool × List ℕ) → Copies va 0 got r → Copies vb 0 got r
  unfolding bytes_at
  Copies-zero va vb got (true, out) (k, l, a, p, z, e) = absurd (omega (arith, l))
  Copies-zero va vb got (false, out) (zero, l, a, w, e) = (0, l, nil-IsWithin vb, inl refl, e)
  Copies-zero va vb got (false, out) (suc n, l, a, w, e) = absurd (omega (arith, l))

  none_left :
      (va max : ℕ) (got : List ℕ)
      → (0 ≡ max) ⊎ (page pagetable s va ≡ 0)
      → Copies va max got (false, got)
  unfolding bytes_at
  none_left va max got w = (
    0,
    omega arith,
    nil-IsWithin va,
    elim w [ inl e ↦ inl e | inr e ↦ inr (ap (page pagetable s) (omega arith) ∙ e) ],
    sym (append-nil got),
  )

  -- A piece of the string, and the copy of the rest from `next`.
  piece-Copies :
      (va m n next max : ℕ) (got : List ℕ) (after : List ℕ → Bool × List ℕ)
      → m + n ≡ max
      → ((0 < n) → next ≡ va + m)
      → ((g : List ℕ) → Copies next n g (after g))
      → (c : Bool × List ℕ) → Scanned va m got c
      → Copies va max got (elim c.0 [ true ↦ (true, c.1) | false ↦ after c.1 ])
  piece-Copies va m n next max got after whole at rest (true, out) (k, l, b, p, z, e) =
      (k, omega (arith, l, whole), b, p, z, e)
  piece-Copies va m n next max got after whole at rest (false, out) (a, e) =
      subst (λ k. Copies va k got (after out)) whole
        (Copies-later va m n got (after out) a (
          subst (λ g. Copies (va + m) n g (after out)) e
            (elim (ℕ_discrete n 0) [
              | yes z ↦
                  subst (λ k. Copies (va + m) k out (after out)) (sym z)
                    (Copies-zero next (va + m) out (after out)
                      (subst (λ k. Copies next k out (after out)) z (rest out)))
              | no ne ↦ subst (λ v. Copies v n out (after out)) (at (omega (arith, ne))) (rest out)
            ])))

  copyinstr_from-Copies :
      (fuel srcva max : ℕ) (got : List ℕ)
      → max ≤ fuel
      → srcva + max + page_size ≤ 2 ^ 64
      → Copies srcva max got (copyinstr_from pagetable s fuel srcva max got mem)
  unfolding copyinstr_from
  copyinstr_from-Copies zero srcva max got h l = none_left srcva max got (inl (omega (arith, h)))
  copyinstr_from-Copies (suc fuel) srcva max got h l = elim (ℕ_discrete max 0) [
    | yes z ↦ rw (==_eq max 0 z, copyinstr_from) (none_left srcva max got (inl (sym z)))
    | no more ↦ elim (ℕ_discrete (page pagetable s srcva) 0) [
      | yes gone ↦
          rw (==_ne max 0 more, copyinstr_from, ==_eq (page pagetable s srcva) 0 gone)
            (none_left srcva max got (inr gone))
      | no here ↦
          let m = piece srcva max in
          let next = (page_round_down srcva + page_size) % 2 ^ 64 in
          let whole : m + (max - m) ≡ max = omega arith in
          rw (==_ne max 0 more, copyinstr_from, ==_ne (page pagetable s srcva) 0 here)
            (piece-Copies srcva m (max - m) next max got
              (λ g. copyinstr_from pagetable s fuel next (max - m) g mem) whole
              (λ g. omega (arith, g, l))
              (λ g.
                copyinstr_from-Copies fuel next (max - m) g (omega (arith, h, more))
                  (omega (arith, l, more)))
              (copy_string mem (place pagetable s srcva) m got)
              (copy_string-Scanned srcva m got (omega arith) (λ p. here)))
    ]
  ]

  -- `copyinstr` copies the string of the process at `srcva` up to its end, and the end, and answers 0 just
  -- then: the process has the page of each byte up to the end, which is among the first `max`. It answers -1
  -- where the string does not end before `max` bytes, or before a page that the process does not have. The
  -- `max` bytes end a page or more below 2^64.
  pub copyinstr-Copies :
      (srcva max : ℕ)
      → srcva + max + page_size ≤ 2 ^ 64
      → Copies srcva max [] (copyinstr pagetable s srcva max mem)
  unfolding copyinstr
  copyinstr-Copies srcva max l = copyinstr_from-Copies max srcva max [] (omega arith) l
