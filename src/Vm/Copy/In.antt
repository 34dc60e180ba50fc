-- ===== src/Vm/Copy/In.antt =====
-- kernel/vm.c: `copyin` reads what the process has, and what `copyout` has stored.
use csse_332_final.Base.{
  ℕ, zero, suc, ◌+◌, ◌-◌, ◌%◌, ◌^◌, ◌≤◌, ◌<◌, ◌≡◌, refl, ◌∙◌, sym, ap, ap₂, subst, arith, Bool,
  true, false, List, [], ◌∷◌, ◌++◌, append-nil, append_assoc, ==_eq, ==_ne, ℕ_discrete,
}
use csse_332_final.Kalloc.{page_size}
use csse_332_final.Vm.{Vm, page_round_down}
use csse_332_final.Vm.Copy.{page, place, piece, get_bytes, bytes_at, copyin_from, copyin, copyout}
use csse_332_final.Vm.Copy.Pages.{IsApart, bytes_at-append, get_bytes-place}
use csse_332_final.Vm.Copy.Out.{Copied, copyout-Copied}

module _ (pagetable : ℕ) (s : Vm) (mem : ℕ → ℕ) where
  -- A copy of `len` bytes that has read `n` of them, all unless the page of the next one is not there.
  pub record Reads (srcva len : ℕ) (ok : Bool) (n : ℕ) : Type 0 where
    pub upto : n ≤ len
    pub whole : (ok ≡ true) → n ≡ len
    pub part : (ok ≡ false) → (n < len) × (page pagetable s (srcva + n) ≡ 0)

  Reads-more :
      (srcva m n next : ℕ) (ok : Bool) (r : ℕ)
      → ((0 < n) → next ≡ srcva + m)
      → Reads next n ok r
      → Reads srcva (m + n) ok (m + r)
  Reads-more srcva m n next ok r at c = record {
    upto = omega (arith, c.upto);
    whole = λ e. omega (arith, c.whole e);
    part = λ e.
        let p = c.part e in
        let q = at (omega (arith, p.0)) in
        (omega (arith, p.0), ap (page pagetable s) (omega (arith, q)) ∙ p.1);
  }

  -- A piece, and what is read after it.
  bytes_joined :
      (srcva m n next r : ℕ) (got : List ℕ)
      → srcva % page_size + m ≤ page_size
      → ((0 < n) → next ≡ srcva + m)
      → r ≤ n
      → (got ++ get_bytes mem (place pagetable s srcva) m) ++ bytes_at pagetable s mem next r
        ≡ got ++ bytes_at pagetable s mem srcva (m + r)
  unfolding bytes_at
  bytes_joined srcva m n next r got fits at h =
      append_assoc got (get_bytes mem (place pagetable s srcva) m) (bytes_at pagetable s mem next r)
      ∙ ap (λ l. got ++ l)
          (ap₂ ◌++◌ (get_bytes-place pagetable s mem srcva m fits) (rest r h)
            ∙ sym (bytes_at-append pagetable s mem srcva m r))
    where
      rest :
          (r : ℕ) → r ≤ n → bytes_at pagetable s mem next r ≡ bytes_at pagetable s mem (srcva + m) r
      rest zero h = refl
      rest (suc r) h = ap (λ a. bytes_at pagetable s mem a (suc r)) (at (omega (arith, h)))

  copyin_from-Reads :
      (fuel srcva len : ℕ) (got : List ℕ)
      → len ≤ fuel
      → srcva + len + page_size ≤ 2 ^ 64
      → (ok : Bool) × (n : ℕ) × (copyin_from pagetable s fuel srcva len got mem
          ≡ (ok, got ++ bytes_at pagetable s mem srcva n))
        × Reads srcva len ok n
  unfolding copyin_from bytes_at
  copyin_from-Reads zero srcva len got h l = (
    true,
    0,
    ap (λ g. (true, g)) (sym (append-nil got)),
    record { upto = omega arith; whole = λ e. omega (arith, h); part = λ e. cc },
  )
  copyin_from-Reads (suc fuel) srcva len got h l = elim (ℕ_discrete len 0) [
    | yes z ↦ (
      true,
      0,
      rw (==_eq len 0 z, copyin_from) (ap (λ g. (true, g)) (sym (append-nil got))),
      record { upto = omega arith; whole = λ e. omega (arith, z); part = λ e. cc },
    )
    | no more ↦ elim (ℕ_discrete (page pagetable s srcva) 0) [
      | yes gone ↦ (
        false,
        0,
        rw (==_ne len 0 more, copyin_from, ==_eq (page pagetable s srcva) 0 gone)
            (ap (λ g. (false, g)) (sym (append-nil got))),
        record {
          upto = omega arith;
          whole = λ e. cc;
          part = λ e. (omega (arith, more), ap (page pagetable s) (omega arith) ∙ gone);
        },
      )
      | no here ↦
          let m = piece srcva len in
          let next = (page_round_down srcva + page_size) % 2 ^ 64 in
          let at : (0 < len - m) → next ≡ srcva + m = λ g. omega (arith, g, l) in
          let whole : m + (len - m) ≡ len = omega arith in
          let (ok, n, e, c) =
            copyin_from-Reads fuel next (len - m) (got ++ get_bytes mem (place pagetable s srcva) m)
              (omega (arith, h, more)) (omega (arith, l, more)) in
          (
            ok,
            m + n,
            rw (==_ne len 0 more, copyin_from, ==_ne (page pagetable s srcva) 0 here)
                (e
                  ∙ ap (λ g. (ok, g))
                      (bytes_joined srcva m (len - m) next n got (omega arith) at c.upto)),
            subst (λ k. Reads srcva k ok (m + n)) whole
                (Reads-more srcva m (len - m) next ok n at c),
          )
    ]
  ]

  -- `copyin` reads the bytes of the process from `srcva` on, in order, through as many pages as they lie
  -- in. It answers -1 only at a page that the process does not have, with the bytes before that page read.
  pub copyin-Reads :
      (srcva len : ℕ)
      → srcva + len + page_size ≤ 2 ^ 64
      → (ok : Bool) × (n : ℕ) × (copyin pagetable s srcva len mem
          ≡ (ok, bytes_at pagetable s mem srcva n))
        × Reads srcva len ok n
  unfolding copyin
  copyin-Reads srcva len l = copyin_from-Reads len srcva len [] (omega arith) l

module _ (pagetable : ℕ) (s : Vm) (src mem : ℕ → ℕ) where
  bytes_at-written :
      (va i n : ℕ)
      → ((j : ℕ) → j < n → mem (place pagetable s (va + j)) ≡ src (i + j))
      → bytes_at pagetable s mem va n ≡ get_bytes src i n
  unfolding bytes_at get_bytes
  bytes_at-written va i zero w = refl
  bytes_at-written va i (suc n) w =
      ap₂ ◌∷◌
        (ap (λ a. mem (place pagetable s a)) (omega arith)
          ∙ w 0 (omega arith)
          ∙ ap src (omega arith))
        (bytes_at-written (va + 1) (i + 1) n (λ j h.
          ap (λ a. mem (place pagetable s a)) (omega arith)
          ∙ w (suc j) (omega (arith, h))
          ∙ ap src (omega arith)))

-- What `copyout` has stored in a process without an error, in however many pages, `copyin` from the same
-- address reads back, when no two pages of the process are one page of memory.
pub copyin-copyout :
    (pagetable : ℕ) (s : Vm) (src : ℕ → ℕ) (dstva len : ℕ) (mem : ℕ → ℕ)
    → IsApart pagetable s
    → dstva + len + page_size ≤ 2 ^ 64
    → {mem' : ℕ → ℕ} → copyout pagetable s dstva src len mem ≡ (true, mem')
    → copyin pagetable s dstva len mem' ≡ (true, get_bytes src 0 len)
copyin-copyout pagetable s src dstva len mem v l {mem'} e =
    let (ok1, mem1, e1, c) = copyout-Copied pagetable s v src dstva len mem l in
    let good : ok1 ≡ true = ap (λ p. p.0) (sym e1 ∙ e) in
    let same : mem1 ≡ mem' = ap (λ p. p.1) (sym e1 ∙ e) in
    let (ok, n, e2, r) = copyin-Reads pagetable s mem' dstva len l in
    answer (subst (λ x. Copied pagetable s dstva src 0 len mem x mem1) good c) same ok n e2 r
  where
    answer :
        {mem1 : ℕ → ℕ}
        → Copied pagetable s dstva src 0 len mem true mem1
        → mem1 ≡ mem'
        → (ok : Bool) (n : ℕ)
        → copyin pagetable s dstva len mem' ≡ (ok, bytes_at pagetable s mem' dstva n)
        → Reads pagetable s mem' dstva len ok n
        → copyin pagetable s dstva len mem' ≡ (true, get_bytes src 0 len)
    answer c same false n e2 r =
        let p = r.part refl in absurd (c.present n (omega (arith, p.0, c.whole refl)) p.1)
    answer c same true n e2 r =
        e2
        ∙ ap (λ k. (true, bytes_at pagetable s mem' dstva k)) (r.whole refl)
        ∙ ap (λ b. (true, b))
            (bytes_at-written pagetable s src mem' dstva 0 len (λ j h.
              ap (λ f. f (place pagetable s (dstva + j))) (sym same)
              ∙ c.written j (omega (arith, h, c.whole refl))))
