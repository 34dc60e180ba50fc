-- ===== src/Audit.antt =====
-- The audit extension: the system call `audit` (kernel/proc.c, kernel/sysproc.c), and the whitelist
-- and the text log that `syscall` of kernel/syscall.c keeps.
--
-- Texts are lists of bytes without their NUL. `whitelisted` has its 21 cells; what lies behind the
-- array in memory is `behind`, so that an access past the end is seen. `buff` is written at byte
-- positions, also past its 2048 bytes, as the code does.
pub mod Whitelist
pub mod Entries
mod Tests
use Prim.Native.Char.{code}
use Prim.Native.String.{String}
use csse_332_final.Base.{
  ℕ, zero, suc, ◌+◌, ◌-◌, ◌/◌, ◌%◌, ◌^◌, Bool, true, false, ◌&&◌, ◌||◌, not, Option, none, some,
  List, [], ◌∷◌, ◌++◌, ltb, leb, ◌==◌, if◌then◌else◌, length, get_or, set, update,
}
use csse_332_final.Base.Words.{sub32}

abbrev pub codes : String → List ℕ
codes String.[] = []
codes (String.◌∷◌ c s) = code c ∷ codes s

abbrev pub num_sys_calls : ℕ
num_sys_calls = 21

pub record Table : Type 0 where
  pub whitelisted : List ℕ
  pub behind : ℕ → ℕ  -- the memory after the array: `behind i` is `whitelisted[21 + i]`

abbrev pub load_cell : Table → ℕ → ℕ
load_cell t i =
    if ltb i num_sys_calls then get_or t.whitelisted i 0 else t.behind (i - num_sys_calls)

abbrev pub store_cell : ℕ → ℕ → Table → Table
store_cell i v t =
    if ltb i num_sys_calls
    then record t { whitelisted = set t.whitelisted i v }
    else record t { behind = update t.behind (i - num_sys_calls) v }

-- `audit` of kernel/proc.c on a `uint`
unfoldable pub audit : ℕ → ℕ
audit num = num / 2 ^ 10

-- `sys_audit`: the argument register, cut to an `int` and passed on as a `uint`
unfoldable pub sys_audit : ℕ → ℕ
unfolding audit
sys_audit a0 = audit (a0 % 2 ^ 32)

-- `k` rounds from `i` on of the loop of `syscall` that parses the answer of `audit`
pub parse_from : ℕ → ℕ → ℕ → Table → Table
parse_from zero i num t = t
parse_from (suc k) i num t =
    let t' = store_cell i 0 t in
    let toggled = num % 2 == 1 in
    parse_from k (i + 1) (num / 2) (if toggled then store_cell (num_sys_calls - i) 1 t' else t')

unfoldable pub parse_audit : ℕ → Table → Table
parse_audit a0 t = parse_from num_sys_calls 0 (a0 % 2 ^ 32) t

abbrev pub names : List (List ℕ)
names =
    codes "unknown"
    ∷ codes "fork"
    ∷ codes "exit"
    ∷ codes "wait"
    ∷ codes "pipe"
    ∷ codes "read"
    ∷ codes "kill"
    ∷ codes "exec"
    ∷ codes "fstat"
    ∷ codes "chdir"
    ∷ codes "dup"
    ∷ codes "getpid"
    ∷ codes "sbrk"
    ∷ codes "sleep"
    ∷ codes "uptime"
    ∷ codes "open"
    ∷ codes "write"
    ∷ codes "mknod"
    ∷ codes "unlink"
    ∷ codes "link"
    ∷ codes "mkdir"
    ∷ codes "close"
    ∷ codes "audit"
    ∷ []

-- `buff`, `offset` and `prev_tickss`, and the texts handed to `write_to_logs`, the last one first
pub record Lines : Type 0 where
  pub buff : ℕ → ℕ
  pub offset : ℕ
  pub prev_ticks : ℕ
  pub flushed : List (List ℕ)

-- `strncpy(buff + at, s, strlen(s))`: the bytes of `s`, and no NUL
pub put_bytes : List ℕ → ℕ → (ℕ → ℕ) → ℕ → ℕ
put_bytes [] at buff = buff
put_bytes (c ∷ s) at buff = put_bytes s (at + 1) (update buff at c)

-- the text at the start of `buff`, up to its NUL, within `n` bytes
pub text_from : (ℕ → ℕ) → ℕ → ℕ → List ℕ
text_from buff zero at = []
text_from buff (suc n) at =
    let rest = text_from buff n (at + 1) in if buff at == 0 then [] else buff at ∷ rest

-- The open file of the call, `f->readable` and `f->writable`.
pub record Flags : Type 0 where
  pub readable : ℕ
  pub writable : ℕ

abbrev digit : ℕ → ℕ
digit v = if v == 0 then 48 else 49

-- the entry of a call that used a file
pub file_entry : List ℕ → List ℕ → Flags → Lines → Lines
file_entry name call f l =
    let o1 = l.offset + length name in
    let o2 = o1 + 1 + length call in
    let b1 = update (put_bytes name l.offset l.buff) o1 9 in
    let b2 = update (put_bytes call (o1 + 1) b1) o2 9 in
    let b3 = update b2 (o2 + 1) (digit f.readable) in
    let b4 = update (update b3 (o2 + 2) 9) (o2 + 3) (digit f.writable) in
    record l { buff = update b4 (o2 + 4) 10; offset = o2 + 5 }

-- The entry of any other call. The second step of `offset` is by the length of the process's name,
-- not of the call's.
pub plain_entry : List ℕ → List ℕ → Lines → Lines
plain_entry name call l =
    let o1 = l.offset + length name in
    let b1 = update (put_bytes name l.offset l.buff) o1 9 in
    let o2 = o1 + 1 + length name in
    record l { buff = update (put_bytes call (o1 + 1) b1) o2 10; offset = o2 + 1 }

-- More than 100 ticks after the last flush the text goes to the log file.
pub flush : ℕ → Lines → Lines
flush ticks l =
    if ltb 100 (sub32 ticks l.prev_ticks)
    then record l {
      buff = update l.buff 0 0;
      offset = 0;
      prev_ticks = ticks;
      flushed = text_from l.buff 2048 0 ∷ l.flushed;
    }
    else l

-- the calls for which `syscall` looks up the file of their first argument
abbrev file_calls : ℕ → Bool
file_calls num = num == 5 || num == 8 || num == 10 || num == 15 || num == 16 || num == 21

-- What `syscall` uses of the rest of the kernel: the handlers, the file of argument 0, the flags of
-- a file, the tick counter and the process's name.
pub record Kernel (W F : Type 0) : Type 0 where
  pub call : ℕ → W → W × ℕ
  pub argfd : W → Option F
  pub flags : W → F → Flags
  pub ticks : W → ℕ
  pub name : W → List ℕ

module _ {W F : Type 0} (kernel : Kernel W F) (behind_names : List ℕ) where
  -- `whitelisted` at `num - 1`, and `name_from_num` at `num`, which has no entry for 23.
  pub record_call : ℕ → Option F → W → Table → Lines → Lines
  record_call num f w t l =
      if not (load_cell t (num - 1) == 0) || num == 22
      then (let l' = flush (kernel.ticks w) l in
          let call = get_or names num behind_names in
          elim f [
            | none ↦ plain_entry (kernel.name w) call l'
            | some file ↦ file_entry (kernel.name w) call (kernel.flags w file) l'
          ])
      else l

  -- The number of the call is an `int`; the answer is what goes to `a0`, `2 ^ 64 - 1` for -1.
  pub syscall : ℕ → W → Table → Lines → W × ℕ × Table × Lines
  syscall num w t l =
      if ltb 0 num && ltb num 24
      then (let f = if file_calls num then kernel.argfd w else none in
          let (w', a0) = kernel.call num w in
          let t' = if num == 22 then parse_audit a0 t else t in
          (w', a0, t', record_call num f w' t' l))
      else (w, 2 ^ 64 - 1, t, l)
