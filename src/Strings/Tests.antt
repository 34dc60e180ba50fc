-- ===== src/Strings/Tests.antt =====
-- kernel/string.c: runs on a small memory.
use csse_332_final.Base.{◌≡◌, ◌+◌, inr, arith, if◌then◌else◌, ltb}
use csse_332_final.Strings.{Memory, string_at, safestrcpy}
use csse_332_final.Strings.Copy.{Inside, safestrcpy_copies}

-- The bytes 1 to 9, and zeros behind them.
abbrev memory : Memory
memory a = if ltb a 9 then a + 1 else 0

safestrcpy_copies_example :
    (string_at 4 20 (safestrcpy 20 2 4 memory) ≡ string_at 3 2 memory)
    × Inside 20 4 memory (safestrcpy 20 2 4 memory)
safestrcpy_copies_example = safestrcpy_copies 20 2 3 memory (inr (omega arith))
