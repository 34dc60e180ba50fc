-- ===== src/Console.antt =====
-- kernel/console.c: line editing on the input ring.
--
-- `cons.lock` is held, so a key is one step, and so is a read up to the point where it sleeps. The
-- state has the bytes that the console has sent to the uart, the last one at the end.
pub mod Ring
pub mod Editing
pub mod Keys
pub mod Reading
mod Tests
use csse_332_final.Base.{
  ℕ, zero, suc, ◌+◌, ◌%◌, Bool, true, false, ◌&&◌, ◌||◌, not, List, [], ◌∷◌, ◌++◌, length, ltb,
  ◌==◌, if◌then◌else◌, update,
}
use csse_332_final.Base.Words.{add32, sub32}

abbrev pub input_buf_size : ℕ
input_buf_size = 128

-- `BACKSPACE`, the character that `consputc` writes as three
abbrev pub backspace : ℕ
backspace = 0x100

abbrev pub newline : ℕ
newline = 10

-- `C('D')`, `C('H')`, `C('P')` and `C('U')`
abbrev pub control_d : ℕ
control_d = 4

abbrev pub control_h : ℕ
control_h = 8

abbrev pub control_p : ℕ
control_p = 16

abbrev pub control_u : ℕ
control_u = 21

pub record Cons : Type 0 where
  pub buf : ℕ → ℕ  -- by index below `INPUT_BUF_SIZE`
  pub r : ℕ
  pub w : ℕ
  pub e : ℕ
  pub sent : List ℕ

pub consputc : ℕ → Cons → Cons
consputc c s = record s { sent = s.sent ++ (if c == backspace then 8 ∷ 32 ∷ 8 ∷ [] else c ∷ []) }

abbrev pub erase : Cons → Cons
erase s = consputc backspace (record s { e = sub32 s.e 1 })

-- The loop of `C('U')`; it has at most as many rounds as there are bytes in the line.
pub kill_line : ℕ → Cons → Cons
kill_line zero s = s
kill_line (suc k) s =
    let rest = kill_line k (erase s) in
    if not (s.e == s.w) && not (s.buf (sub32 s.e 1 % input_buf_size) == newline) then rest else s

-- The default case; the answer is whether `&cons.r` is woken.
pub type_char : ℕ → Cons → Cons × Bool
type_char c s =
    if not (c == 0) && ltb (sub32 s.e s.r) input_buf_size
    then (let c' = if c == 13 then newline else c in
        let s' = consputc c' s in
        let s2 = record s' { buf = update s'.buf (s'.e % input_buf_size) c'; e = add32 s'.e 1 } in
        if c' == newline || c' == control_d || sub32 s2.e s2.r == input_buf_size
        then (record s2 { w = s2.e }, true)
        else (s2, false))
    else (s, false)

-- `procdump` of `C('P')` changes no state.
pub consoleintr : ℕ → Cons → Cons × Bool
consoleintr c s =
    if c == control_p
    then (s, false)
    else if c == control_u
    then (kill_line (sub32 s.e s.w) s, false)
    else if c == control_h || c == 127
    then (if s.e == s.w then s else erase s, false)
    else type_char c s

-- How a stretch of `consoleread` under the lock ends, with the bytes that were stored. Where it
-- waits, the call returns -1 if the process is killed, and sleeps if not.
pub data ReadEnd : Type 0 where
  waits read : Cons → List ℕ → ReadEnd

abbrev pub is_empty : List ℕ → Bool
is_empty [] = true
is_empty (_ ∷ _) = false

-- `n` bytes are still wanted, `got` are stored. `copyout` says whether the next may be stored.
pub take_from : (ℕ → Bool) → ℕ → List ℕ → Cons → ReadEnd
take_from copyout zero got s = read s got
take_from copyout (suc n) got s =
    let c = s.buf (s.r % input_buf_size) in
    let s' = record s { r = add32 s.r 1 } in
    let more = take_from copyout n (got ++ c ∷ []) s' in
    if s.r == s.w
    then waits s got
    else if c == control_d
    then read (if not (is_empty got) then record s' { r = sub32 s'.r 1 } else s') got
    else if not (copyout (length got))
    then read s' got
    else if c == newline
    then read s' (got ++ c ∷ [])
    else more
