-- ===== src/Console/Editing.antt =====
-- kernel/console.c: the list editor, and the edits of the ring.
use csse_332_final.Base.{
  ℕ, zero, suc, ◌+◌, ◌%◌, ◌<◌, ◌≡◌, ◌∙◌, sym, ap, ap₂, ◌≢◌, ◌&&◌, ◌||◌, not, List, [], ◌∷◌, ◌++◌,
  arith, length, ltb, ◌==◌, if◌then◌else◌, ==_ne, update, subst,
}
use csse_332_final.Base.Words.{add32, sub32}
use csse_332_final.Console.{
  Cons, input_buf_size, newline, control_d, control_h, control_p, control_u, consputc, erase,
  kill_line,
}
use csse_332_final.Console.Ring.{
  window, ready, line, IsValid, window-update, window-put, window-append, length-window, OneLine,
  last_of_window, OneLine-window, OneLine-put, drop_last, drop_last-window,
}

-- The lines that can be read and the line that is edited.
abbrev pub shows : Cons → List ℕ × List ℕ
shows s = (ready s, line s)

-- A character is added if there is room for it; at the end of a line, or of the room, the line can
-- be read.
abbrev pub add_char : ℕ → List ℕ × List ℕ → List ℕ × List ℕ
add_char c (rs, xs) =
    if not (c == 0) && ltb (length rs + length xs) input_buf_size
    then (let c' = if c == 13 then newline else c in
        if c' == newline || c' == control_d || length rs + length xs + 1 == input_buf_size
        then (rs ++ (xs ++ c' ∷ []), [])
        else (rs, xs ++ c' ∷ []))
    else (rs, xs)

abbrev pub edit_key : ℕ → List ℕ × List ℕ → List ℕ × List ℕ
edit_key c (rs, xs) =
    if c == control_p
    then (rs, xs)
    else if c == control_u
    then (rs, [])
    else if c == control_h || c == 127
    then (rs, drop_last xs)
    else add_char c (rs, xs)

-- What a key does to a valid console, for an editor of lists.
abbrev pub Edits : Cons → Cons → List ℕ × List ℕ → Type 0
Edits s t p = IsValid t × (shows t ≡ p)

less : (s : Cons) → IsValid s → s.e ≢ s.w → sub32 s.e s.w ≡ suc (sub32 (sub32 s.e 1) s.w)
less s v ne = omega (arith, v.w_fits, v.e_fits)

pub erase-Edits :
    (s : Cons) → IsValid s → s.e ≢ s.w → Edits s (erase s) (ready s, drop_last (line s))
unfolding consputc
erase-Edits s v ne =
    let k = less s v ne in
    (
      record {
        r_fits = v.r_fits;
        w_fits = v.w_fits;
        e_fits = omega arith;
        bounded = omega (arith, v.bounded, k);
        one_line =
            OneLine-window s.buf (sub32 (sub32 s.e 1) s.w) s.w
              (subst (λ n. OneLine (window s.buf s.w n)) k v.one_line);
      },
      ap (λ xs. (ready s, xs))
          (sym (drop_last-window s.buf (sub32 (sub32 s.e 1) s.w) s.w)
            ∙ ap (λ n. drop_last (window s.buf s.w n)) (sym k)),
    )

-- The line is killed whole: no byte of it is a newline.
pub kill_line-Edits :
    (k : ℕ) (s : Cons) → IsValid s → sub32 s.e s.w ≡ k → Edits s (kill_line k s) (ready s, [])
unfolding kill_line consputc
kill_line-Edits zero s v h = (v, ap (λ n. (ready s, window s.buf s.w n)) h)
kill_line-Edits (suc k) s v h =
    let ne : s.e ≢ s.w = omega (arith, v.e_fits) in
    let last =
      last_of_window s.buf k s.w (sub32 s.e 1 % input_buf_size)
        (subst (λ n. OneLine (window s.buf s.w n)) h v.one_line) (omega (arith, v.w_fits, v.e_fits))
        v.w_fits in
    let (w, same) = erase-Edits s v ne in
    let ih = kill_line-Edits k (erase s) w (distance (less s v ne)) in
    rw (==_ne s.e s.w ne, ==_ne (s.buf (sub32 s.e 1 % input_buf_size)) newline last)
      (ih.0, ih.1 ∙ ap (λ p. (p.0, [])) same)
  where
    distance : sub32 s.e s.w ≡ suc (sub32 (sub32 s.e 1) s.w) → sub32 (erase s).e (erase s).w ≡ k
    distance q = omega arith

-- The console with one more character in its line, and with that line handed over.
abbrev pub typed : ℕ → Cons → Cons
typed c s =
    let s' = consputc c s in
    record s' { buf = update s'.buf (s'.e % input_buf_size) c; e = add32 s'.e 1 }

abbrev pub committed : ℕ → Cons → Cons
committed c s = record (typed c s) { w = (typed c s).e }

pub distance_sum : (s : Cons) → IsValid s → sub32 s.e s.r ≡ sub32 s.w s.r + sub32 s.e s.w
distance_sum s v = omega (arith, v.bounded, v.r_fits, v.w_fits, v.e_fits)

module _ (s : Cons) (c : ℕ) (v : IsValid s)
    (room : sub32 s.w s.r + sub32 s.e s.w < input_buf_size) where
  longer : sub32 (add32 s.e 1) s.w ≡ suc (sub32 s.e s.w)
  longer = omega (arith, v.w_fits, v.e_fits)

  ready-typed : ready (typed c s) ≡ ready s
  unfolding consputc
  ready-typed =
      window-update s.buf c (s.e % input_buf_size) (sub32 s.w s.r) s.r v.r_fits
        (sub32 s.w s.r + sub32 s.e s.w) (omega arith) room
        (omega (arith, v.r_fits, v.w_fits, v.e_fits))

  line-typed : line (typed c s) ≡ line s ++ (c ∷ [])
  unfolding consputc
  line-typed =
      ap (window (update s.buf (s.e % input_buf_size) c) s.w) longer
      ∙ window-put s.buf c (sub32 s.e s.w) s.w (s.e % input_buf_size) (omega arith)
          (omega (arith, v.w_fits, v.e_fits))

  ready-committed : ready (committed c s) ≡ ready s ++ (line s ++ (c ∷ []))
  unfolding consputc
  ready-committed =
      window-append (update s.buf (s.e % input_buf_size) c) (sub32 s.w s.r)
        (sub32 (add32 s.e 1) s.w) (sub32 (add32 s.e 1) s.r) s.r s.w v.r_fits
        (omega (arith, v.r_fits, v.w_fits, v.e_fits)) (omega (arith, v.r_fits, v.w_fits))
      ∙ ap₂ ◌++◌ ready-typed line-typed

  no_line : sub32 (add32 s.e 1) (add32 s.e 1) ≡ 0
  no_line = omega arith

  pub committed-Edits : Edits s (committed c s) (ready s ++ (line s ++ c ∷ []), [])
  unfolding consputc
  committed-Edits = (
    record {
      r_fits = v.r_fits;
      w_fits = omega arith;
      e_fits = omega arith;
      bounded = omega (arith, room, v.r_fits, v.w_fits, v.e_fits);
      one_line = subst (λ n. OneLine (window (committed c s).buf (add32 s.e 1) n)) (sym no_line) tt;
    },
    ap₂ (λ xs ys. (xs, ys)) ready-committed (ap (window (committed c s).buf (add32 s.e 1)) no_line),
  )

  pub typed-Edits : c ≢ newline → Edits s (typed c s) (ready s, line s ++ c ∷ [])
  unfolding consputc
  typed-Edits ne = (
    record {
      r_fits = v.r_fits;
      w_fits = v.w_fits;
      e_fits = omega arith;
      bounded = omega (arith, room, longer);
      one_line = subst OneLine (sym line-typed) (OneLine-put (line s) c v.one_line ne);
    },
    ap₂ (λ xs ys. (xs, ys)) ready-typed line-typed,
  )

  -- The test that ends a line, on the console and on the lists.
  pub full_same : sub32 (typed c s).e (typed c s).r ≡ length (ready s) + length (line s) + 1
  unfolding consputc
  full_same = omega (
    arith,
    room,
    v.r_fits,
    v.w_fits,
    v.e_fits,
    length-window s.buf s.r (sub32 s.w s.r),
    length-window s.buf s.w (sub32 s.e s.w),
  )
