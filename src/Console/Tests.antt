-- ===== src/Console/Tests.antt =====
-- kernel/console.c: keys and reads on a small console.
use csse_332_final.Base.{◌≡◌, refl, true, [], ◌∷◌, arith, update}
use csse_332_final.Console.{
  Cons, consputc, kill_line, type_char, consoleintr, control_u, newline, take_from,
}
use csse_332_final.Console.Ring.{ready, IsValid}
use csse_332_final.Console.Editing.{shows, edit_key, Edits}
use csse_332_final.Console.Keys.{consoleintr-Edits}
use csse_332_final.Console.Reading.{read_list, Reads, take_from-Reads}

-- One line, `a` and a newline, is ready, and `b`, `c` are being typed; the indices wrap.
abbrev two_lines : Cons
two_lines = record {
  buf = update (update (update (update (λ i. 0) 127 97) 0 newline) 1 98) 2 99;
  r = 4294967295;
  w = 1;
  e = 3;
  sent = [];
}

two_lines-IsValid : IsValid two_lines
two_lines-IsValid = record {
  r_fits = omega arith;
  w_fits = omega arith;
  e_fits = omega arith;
  bounded = omega arith;
  one_line = (omega arith, (omega arith, tt));
}

consoleintr-Edits_example :
    Edits two_lines (consoleintr control_u two_lines).0 (edit_key control_u (shows two_lines))
consoleintr-Edits_example = consoleintr-Edits control_u two_lines two_lines-IsValid

take_from-Reads_example :
    Reads two_lines
      (take_from (λ i. true) 9 [] two_lines)
      (read_list (λ i. true) 9 [] (ready two_lines))
take_from-Reads_example = take_from-Reads (λ i. true) 9 [] two_lines two_lines-IsValid

control_u_kills : shows (consoleintr control_u two_lines).0 ≡ (97 ∷ newline ∷ [], [])
unfolding consoleintr kill_line consputc
control_u_kills = refl

return_ends : shows (consoleintr 13 two_lines).0 ≡ (97 ∷ newline ∷ 98 ∷ 99 ∷ newline ∷ [], [])
unfolding consoleintr type_char consputc
return_ends = refl
