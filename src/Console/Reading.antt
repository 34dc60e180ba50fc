-- ===== src/Console/Reading.antt =====
-- kernel/console.c: a read takes the bytes of the lines that are ready, up to the end of the first.
use csse_332_final.Base.{
  ℕ, zero, suc, ◌%◌, ◌≡◌, refl, ◌∙◌, sym, ap, ◌≢◌, inl, inr, Bool, true, false, not, List, [], ◌∷◌,
  ◌++◌, arith, length, ◌==◌, if◌then◌else◌, Bool-cases, ==_eq, ==_ne, ℕ_discrete, subst,
}
use csse_332_final.Base.Words.{add32, sub32}
use csse_332_final.Console.{
  Cons, input_buf_size, newline, control_d, ReadEnd, waits, read, is_empty, take_from,
}
use csse_332_final.Console.Ring.{window, ready, line, IsValid}

-- A read of a list of bytes: whether it waits for more, what it leaves, and what it has stored.
-- Control-D ends it, and is left for the next read where bytes have been stored; a newline ends it and
-- is stored; a byte that cannot be stored is lost.
pub read_list : (ℕ → Bool) → ℕ → List ℕ → List ℕ → Bool × List ℕ × List ℕ
read_list copyout zero got cs = (false, cs, got)
read_list copyout (suc n) got [] = (true, [], got)
read_list copyout (suc n) got (c ∷ cs) =
    let more = read_list copyout n (got ++ c ∷ []) cs in
    if c == control_d
    then (false, if not (is_empty got) then c ∷ cs else cs, got)
    else if not (copyout (length got))
    then (false, cs, got)
    else if c == newline
    then (false, cs, got ++ c ∷ [])
    else more

abbrev pub outcome : ReadEnd → Bool × List ℕ × List ℕ
outcome (waits t got) = (true, ready t, got)
outcome (read t got) = (false, ready t, got)

abbrev pub left : ReadEnd → Cons
left (waits t got) = t
left (read t got) = t

-- The read ends as that of the list does, on a valid console with the same line.
abbrev pub Reads : Cons → ReadEnd → Bool × List ℕ × List ℕ → Type 0
Reads s x o = (outcome x ≡ o) × IsValid (left x) × (line (left x) ≡ line s)

abbrev pop : Cons → Cons
pop s = record s { r = add32 s.r 1 }

fewer : (s : Cons) → IsValid s → s.r ≢ s.w → sub32 s.w s.r ≡ suc (sub32 s.w (add32 s.r 1))
fewer s v ne = omega (arith, v.r_fits, v.w_fits)

pop-IsValid : (s : Cons) → IsValid s → s.r ≢ s.w → IsValid (pop s)
pop-IsValid s v ne =
    let k = fewer s v ne in
    record {
      r_fits = omega arith;
      w_fits = v.w_fits;
      e_fits = v.e_fits;
      bounded = omega (arith, k, v.bounded);
      one_line = v.one_line;
    }

ready-pop :
    (s : Cons) → IsValid s → s.r ≢ s.w → ready s ≡ s.buf (s.r % input_buf_size) ∷ ready (pop s)
ready-pop s v ne = ap (window s.buf s.r) (fewer s v ne)

-- `cons.r--` after `cons.r++` leaves the index as it was.
put_back : (s : Cons) → IsValid s → sub32 (add32 s.r 1) 1 ≡ s.r
put_back s v = omega (arith, v.r_fits)

-- For every number of bytes wanted, a read of a valid console stores what a read of the list of the
-- ready bytes stores, leaves what it leaves, and waits where it waits.
pub take_from-Reads :
    (copyout : ℕ → Bool) (n : ℕ) (got : List ℕ) (s : Cons)
    → IsValid s
    → Reads s (take_from copyout n got s) (read_list copyout n got (ready s))
unfolding take_from read_list
take_from-Reads copyout zero got s v = (refl, v, refl)
take_from-Reads copyout (suc n) got s v = elim (ℕ_discrete s.r s.w) [
  | yes e ↦
      let z : sub32 s.w s.r ≡ 0 = omega (arith, v.w_fits) in
      rw (==_eq s.r s.w e, ap (window s.buf s.r) z) (refl, v, refl)
  | no ne ↦
      let w = pop-IsValid s v ne in
      let c = s.buf (s.r % input_buf_size) in
      rw (==_ne s.r s.w ne, ready-pop s v ne)
        (elim (Bool-cases (c == control_d)) [
          | inl d ↦ elim (Bool-cases (is_empty got)) [
            | inl z ↦ rw (d, z) (refl, w, refl)
            | inr z ↦
                rw (d, z)
                  (
                    ap (λ r. (false, window s.buf r (sub32 s.w r), got)) (put_back s v)
                        ∙ ap (λ xs. (false, xs, got)) (ready-pop s v ne),
                    subst (λ r. IsValid (record s { r = r })) (sym (put_back s v)) v,
                    refl,
                  )
          ]
          | inr d ↦ elim (Bool-cases (copyout (length got))) [
            | inr o ↦ rw (d, o) (refl, w, refl)
            | inl o ↦ elim (Bool-cases (c == newline)) [
              | inl l ↦ rw (d, o, l) (refl, w, refl)
              | inr l ↦ rw (d, o, l) (take_from-Reads copyout n (got ++ c ∷ []) (pop s) w)
            ]
          ]
        ])
]
