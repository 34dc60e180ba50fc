-- ===== src/Vm/Copy/Out.antt =====
-- kernel/vm.c: `copyout` stores its bytes where the process has its pages, and no others.
use csse_332_final.Base.{
  ℕ, zero, suc, ◌+◌, ◌-◌, ◌/◌, ◌%◌, ◌^◌, ◌≤◌, ◌<◌, ◌≡◌, ◌≢◌, refl, ◌∙◌, sym, ap, subst, arith, Bool,
  true, false, ==_eq, ==_ne, le→leb, lt→leb, lt→ltb, le→ltb, dec_lt, dec_le, ℕ_discrete,
}
use csse_332_final.Kalloc.{page_size}
use csse_332_final.Vm.{Vm, page_round_down}
use csse_332_final.Vm.Copy.{page, place, piece, put_bytes, copyout_from, copyout}
use csse_332_final.Vm.Copy.Pages.{IsApart, page-same, place-add, place-apart}

-- What is left by a copy of `len` bytes of the buffer from `i` on, of which `count` are stored. It ends
-- before the last only at a page that is not there.
pub record Copied (pagetable : ℕ) (s : Vm) (dstva : ℕ) (src : ℕ → ℕ) (i len : ℕ) (mem : ℕ → ℕ)
    (ok : Bool) (mem' : ℕ → ℕ) : Type 0 where
  pub count : ℕ
  pub upto : count ≤ len
  pub whole : (ok ≡ true) → count ≡ len
  pub part : (ok ≡ false) → (count < len) × (page pagetable s (dstva + count) ≡ 0)
  pub present : (j : ℕ) → j < count → page pagetable s (dstva + j) ≢ 0
  pub written : (j : ℕ) → j < count → mem' (place pagetable s (dstva + j)) ≡ src (i + j)
  pub others : (a : ℕ) → ((j : ℕ) → j < count → place pagetable s (dstva + j) ≢ a) → mem' a ≡ mem a

put_bytes-in :
    (mem : ℕ → ℕ) (a : ℕ) (src : ℕ → ℕ) (i n x : ℕ)
    → a ≤ x
    → x < a + n
    → put_bytes mem a src i n x ≡ src (i + (x - a))
unfolding put_bytes
put_bytes-in mem a src i n x h l = rw (le→leb a x h, lt→ltb x (a + n) l) refl

put_bytes-out :
    (mem : ℕ → ℕ) (a : ℕ) (src : ℕ → ℕ) (i n x : ℕ)
    → ((j : ℕ) → j < n → a + j ≢ x)
    → put_bytes mem a src i n x ≡ mem x
unfolding put_bytes
put_bytes-out mem a src i n x h = elim (dec_le a x) [
  | no low ↦ rw (lt→leb a x (omega (arith, low))) refl
  | yes g ↦ elim (dec_lt x (a + n)) [
    | no high ↦ rw (le→leb a x g, le→ltb x (a + n) (omega (arith, high))) refl
    | yes l ↦ absurd (h (x - a) (omega (arith, g, l)) (omega (arith, g)))
  ]
]

module _ (pagetable : ℕ) (s : Vm) (v : IsApart pagetable s) (src : ℕ → ℕ) where
  none-Copied : (dstva i : ℕ) (mem : ℕ → ℕ) → Copied pagetable s dstva src i 0 mem true mem
  none-Copied dstva i mem = record {
    count = 0;
    upto = omega arith;
    whole = λ e. refl;
    part = λ e. cc;
    present = λ j h. absurd (omega (arith, h));
    written = λ j h. absurd (omega (arith, h));
    others = λ a h. refl;
  }

  -- A piece that ends at `next` or ends the copy, and the copy of the rest from there.
  joined :
      (dstva i m n : ℕ) (mem : ℕ → ℕ) (next : ℕ) (ok : Bool) (mem' : ℕ → ℕ)
      → page pagetable s dstva ≢ 0
      → dstva % page_size + m ≤ page_size
      → ((0 < n) → (next ≡ dstva + m) × (next % page_size ≡ 0))
      → Copied pagetable s next src
          (i + m)
          n
          (put_bytes mem (place pagetable s dstva) src i m)
          ok
          mem'
      → Copied pagetable s dstva src i (m + n) mem ok mem'
  joined dstva i m n mem next ok mem' here fits at c = record {
    count = m + c.count;
    upto = omega (arith, c.upto);
    whole = λ e. omega (arith, c.whole e);
    part = λ e.
        let p = c.part e in
        let q = (at (omega (arith, p.0))).0 in
        (omega (arith, p.0), ap (page pagetable s) (omega (arith, q)) ∙ p.1);
    present = λ j h. elim (dec_lt j m) [
      | yes l ↦ λ z. here (page-same pagetable s dstva (dstva + j) (omega (arith, l, fits)) ∙ z)
      | no g ↦
          λ z. c.present (j - m) (omega (arith, h, g)) (ap (page pagetable s) (later j h g) ∙ z)
    ];
    written = λ j h. elim (dec_lt j m) [
      | yes l ↦
          c.others (place pagetable s (dstva + j)) (λ k lk z.
            place-apart pagetable s (next + k) (dstva + j) v (c.present k lk) (other_page j k l lk)
              z)
          ∙ ap (put_bytes mem (place pagetable s dstva) src i m)
              (place-add pagetable s dstva j (omega (arith, l, fits)))
          ∙ put_bytes-in mem (place pagetable s dstva) src i m (place pagetable s dstva + j)
              (omega arith) (omega (arith, l))
          ∙ ap src (omega arith)
      | no g ↦
          ap (λ a. mem' (place pagetable s a)) (sym (later j h g))
          ∙ c.written (j - m) (omega (arith, h, g))
          ∙ ap src (omega (arith, g))
    ];
    others = λ a h.
        c.others a
          (λ k lk z. h (m + k) (omega (arith, lk)) (ap (place pagetable s) (sym (from k lk)) ∙ z))
        ∙ put_bytes-out mem (place pagetable s dstva) src i m a (λ j l z.
          h j (omega (arith, l)) (place-add pagetable s dstva j (omega (arith, l, fits)) ∙ z));
  }
    where
      from : (k : ℕ) → k < c.count → next + k ≡ dstva + (m + k)
      from k lk = omega (arith, (at (omega (arith, lk, c.upto))).0)

      later : (j : ℕ) → j < m + c.count → ¬ (j < m) → next + (j - m) ≡ dstva + j
      later j h g = omega (arith, (at (omega (arith, h, g, c.upto))).0, g)

      other_page :
          (j k : ℕ) → j < m → k < c.count → (next + k) / page_size ≢ (dstva + j) / page_size
      other_page j k l lk e =
          let w = at (omega (arith, lk, c.upto)) in omega (arith, w.0, w.1, l, e)

  pub copyout_from-Copied :
      (fuel dstva i len : ℕ) (mem : ℕ → ℕ)
      → len ≤ fuel
      → dstva + len + page_size ≤ 2 ^ 64
      → (ok : Bool) × (mem' : ℕ → ℕ) × (copyout_from pagetable s fuel dstva src i len mem
          ≡ (ok, mem'))
        × Copied pagetable s dstva src i len mem ok mem'
  unfolding copyout_from
  copyout_from-Copied zero dstva i len mem h l =
      let z : 0 ≡ len = omega (arith, h) in
      (
        true,
        mem,
        refl,
        subst (λ n. Copied pagetable s dstva src i n mem true mem) z (none-Copied dstva i mem),
      )
  copyout_from-Copied (suc fuel) dstva i len mem h l = elim (ℕ_discrete len 0) [
    | yes z ↦ (
      true,
      mem,
      rw (==_eq len 0 z, copyout_from) refl,
      subst (λ n. Copied pagetable s dstva src i n mem true mem) (sym z) (none-Copied dstva i mem),
    )
    | no more ↦ elim (ℕ_discrete (page pagetable s dstva) 0) [
      | yes gone ↦ (
        false,
        mem,
        rw (==_ne len 0 more, copyout_from, ==_eq (page pagetable s dstva) 0 gone) refl,
        record {
          count = 0;
          upto = omega arith;
          whole = λ e. cc;
          part = λ e. (omega (arith, more), ap (page pagetable s) (omega arith) ∙ gone);
          present = λ j k. absurd (omega (arith, k));
          written = λ j k. absurd (omega (arith, k));
          others = λ a k. refl;
        },
      )
      | no here ↦
          let m = piece dstva len in
          let next = (page_round_down dstva + page_size) % 2 ^ 64 in
          let mem1 = put_bytes mem (place pagetable s dstva) src i m in
          let whole : m + (len - m) ≡ len = omega arith in
          let (ok, mem', e, c) =
            copyout_from-Copied fuel next (i + m) (len - m) mem1 (omega (arith, h, more))
              (omega (arith, l, more)) in
          (
            ok,
            mem',
            rw (==_ne len 0 more, copyout_from, ==_ne (page pagetable s dstva) 0 here) e,
            subst (λ n. Copied pagetable s dstva src i n mem ok mem') whole
                (joined dstva i m (len - m) mem next ok mem' here (omega arith)
                  (λ g. (omega (arith, g, l), omega (arith, l))) c),
          )
    ]
  ]

  -- `copyout` stores the bytes of the buffer, in order, where the process has its addresses from `dstva`
  -- on, and nothing else in memory changes. It answers -1 only at a page that the process does not have,
  -- with the bytes before that page stored.
  pub copyout-Copied :
      (dstva len : ℕ) (mem : ℕ → ℕ)
      → dstva + len + page_size ≤ 2 ^ 64
      → (ok : Bool) × (mem' : ℕ → ℕ) × (copyout pagetable s dstva src len mem ≡ (ok, mem'))
        × Copied pagetable s dstva src 0 len mem ok mem'
  unfolding copyout
  copyout-Copied dstva len mem l = copyout_from-Copied len dstva 0 len mem (omega arith) l
