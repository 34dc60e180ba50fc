-- ===== src/Console/Keys.antt =====
-- kernel/console.c: the whole of the interrupt handler, key by key.
use csse_332_final.Base.{
  ℕ, ◌+◌, ◌<◌, ◌≡◌, refl, ◌∙◌, sym, ap, inl, inr, Bool, true, ◌&&◌, ◌||◌, not, [], ◌∷◌, ◌++◌, arith,
  length, ltb, ◌==◌, if◌then◌else◌, Bool-cases, ==_eq, ==_ne, ne_of_==, ℕ_discrete,
}
use csse_332_final.Base.Words.{sub32}
use csse_332_final.Console.{
  Cons, input_buf_size, newline, control_d, control_h, control_p, control_u, erase, type_char,
  consoleintr,
}
use csse_332_final.Console.Ring.{window, ready, line, IsValid, length-window, drop_last}
use csse_332_final.Console.Editing.{
  shows, add_char, edit_key, Edits, erase-Edits, kill_line-Edits, typed, committed, distance_sum,
  committed-Edits, typed-Edits, full_same,
}

abbrev fits : ℕ → Cons → Bool
fits c s = not (c == 0) && ltb (length (ready s) + length (line s)) input_buf_size

abbrev stored : ℕ → ℕ
stored c = if c == 13 then newline else c

abbrev ends : ℕ → Cons → Bool
ends c s =
    c == newline || c == control_d || length (ready s) + length (line s) + 1 == input_buf_size

distance_lem : (s : Cons) → IsValid s → sub32 s.e s.r ≡ length (ready s) + length (line s)
distance_lem s v = omega (
  arith,
  distance_sum s v,
  length-window s.buf s.r (sub32 s.w s.r),
  length-window s.buf s.w (sub32 s.e s.w),
)

fits-room :
    (c : ℕ) (s : Cons)
    → IsValid s
    → fits c s ≡ true
    → sub32 s.w s.r + sub32 s.e s.w < input_buf_size
fits-room c s v h =
    let d = distance_sum s v in
    let e = distance_lem s v in
    let l : length (ready s) + length (line s) < input_buf_size = ground (arith, h) in
    omega (arith, d, e, l)

-- `type_char` on each branch.
type_char_lem :
    (c : ℕ) (s : Cons)
    → IsValid s
    → (type_char c s).0 ≡ (
        if fits c s
        then (if ends (stored c) s then committed (stored c) s else typed (stored c) s)
        else s)
unfolding type_char
type_char_lem c s v = elim (Bool-cases (fits c s)) [
  | inr off ↦ rw (distance_lem s v, type_char, off)
  | inl on ↦
      rw (distance_lem s v, type_char, on, full_same s (stored c) v (fits-room c s v on))
        (elim (Bool-cases (ends (stored c) s)) [
          | inl e ↦ rw (e, type_char)
          | inr e ↦ rw (e, type_char)
        ])
]

add_char_lem :
    (c : ℕ) (s : Cons)
    → add_char c (shows s) ≡ (
        if fits c s
        then (if ends (stored c) s
            then (ready s ++ (line s ++ stored c ∷ []), [])
            else (ready s, line s ++ stored c ∷ []))
        else shows s)
add_char_lem c s = refl

type_char-Edits : (c : ℕ) (s : Cons) → IsValid s → Edits s (type_char c s).0 (add_char c (shows s))
type_char-Edits c s v =
    rw (type_char_lem c s v, add_char_lem c s)
      (elim (Bool-cases (fits c s)) [
        | inr off ↦ rw off (v, refl)
        | inl on ↦
            let room = fits-room c s v on in
            elim (Bool-cases (ends (stored c) s)) [
              | inl e ↦ rw (on, e) (committed-Edits s (stored c) v room)
              | inr e ↦
                  rw (on, e)
                    (typed-Edits s (stored c) v room
                      (ne_of_== (stored c) newline (ground (arith, e))))
            ]
      ])

-- On a valid console each key does to the lines that can be read, and to the line that is edited,
-- what the list editor does: control-U empties the line, a backspace drops its last byte, and another
-- key is added to it where there is room. The console stays valid.
pub consoleintr-Edits :
    (c : ℕ) (s : Cons) → IsValid s → Edits s (consoleintr c s).0 (edit_key c (shows s))
unfolding consoleintr
consoleintr-Edits c s v = elim (Bool-cases (c == control_p)) [
  | inl p ↦ rw p (v, refl)
  | inr p ↦ elim (Bool-cases (c == control_u)) [
    | inl u ↦ rw (p, u) (kill_line-Edits (sub32 s.e s.w) s v refl)
    | inr u ↦ elim (Bool-cases (c == control_h || c == 127)) [
      | inr h ↦ rw (p, u, h) (type_char-Edits c s v)
      | inl h ↦ rw (p, u, h) (erased (ℕ_discrete s.e s.w))
    ]
  ]
]
  where
    none_left : s.e ≡ s.w → sub32 s.e s.w ≡ 0
    none_left e = omega (arith, v.w_fits)

    erased :
        Dec (s.e ≡ s.w) → Edits s (if s.e == s.w then s else erase s) (ready s, drop_last (line s))
    erased (yes e) = rw (==_eq s.e s.w e) (
      v,
      ap (λ n. (ready s, window s.buf s.w n)) (none_left e)
          ∙ ap (λ n. (ready s, drop_last (window s.buf s.w n))) (sym (none_left e)),
    )
    erased (no ne) = rw (==_ne s.e s.w ne) (erase-Edits s v ne)
