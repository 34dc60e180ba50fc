-- ===== src/Audit/Tests.antt =====
-- kernel/syscall.c: what `audit` and the log do on concrete calls.
use csse_332_final.Base.{
  ℕ, ◌+◌, ◌-◌, ◌%◌, ◌^◌, ◌≡◌, refl, some, [], ◌∷◌, ◌++◌, arith, leb, ◌&&◌, if◌then◌else◌, length,
  get_or, take, replicate,
}
use csse_332_final.Audit.{
  codes, Table, sys_audit, parse_from, parse_audit, Lines, put_bytes, plain_entry, file_entry,
  flush, text_from, Kernel, record_call, syscall,
}
use csse_332_final.Audit.Whitelist.{bit, parse_audit-whitelisted}
use csse_332_final.Audit.Entries.{slice, plain_entry-text}

abbrev all_on : Table
all_on = record { whitelisted = replicate 21 1; behind = λ _. 0 }

-- All 22 bits are set, and 11 of the 21 calls stay off.
all_bits :
    (parse_audit (sys_audit (2 ^ 32 - 1)) all_on).whitelisted ≡ 0 ∷ replicate 10 1 ++ replicate 10 0
unfolding parse_audit parse_from sys_audit
all_bits = refl

-- Bit 0 is stored behind the array.
bit_zero : (parse_audit 1 all_on).behind 0 ≡ 1
unfolding parse_audit parse_from
bit_zero = refl

parse_audit-whitelisted_example :
    get_or (parse_audit (2 ^ 20) all_on).whitelisted 1 0
    ≡ (if leb 1 1 && leb 1 10 then bit (21 - 1) (2 ^ 20 % 2 ^ 32) else 0)
parse_audit-whitelisted_example = parse_audit-whitelisted (2 ^ 20) 1 all_on refl (omega arith)

abbrev fresh : Lines
fresh = record { buff = λ _. 0; offset = 0; prev_ticks = 0; flushed = [] }

-- The program "sh"; a call answers 7, and `audit` answers with all bits.
abbrev toy : Kernel ℕ ℕ
toy = record {
  call = λ num w. (w + 1, 7);
  argfd = λ w. some 0;
  flags = λ w f. record { readable = 1; writable = 0 };
  ticks = λ w. w;
  name = λ w. codes "sh";
}

plain_entry-text_example :
    let l' = plain_entry (codes "sh") (codes "getpid") fresh in
    let text = codes "sh" ++ (9 ∷ (take 2 (codes "getpid") ++ (10 ∷ []))) in
    (slice l'.buff 0 (length text) ≡ text) × (l'.offset ≡ 0 + length text)
plain_entry-text_example = plain_entry-text (codes "sh") (codes "getpid") fresh (omega arith)

-- The log line of `getpid` by "sh" is cut to "sh", a tab and "ge".
cut_line : slice (syscall toy [] 11 5 all_on fresh).3.buff 0 6 ≡ codes "sh\tge\n"
unfolding syscall record_call flush plain_entry put_bytes text_from
cut_line = refl

full_line : slice (syscall toy [] 5 5 all_on fresh).3.buff 0 12 ≡ codes "sh\tread\t1\t0\n"
unfolding syscall record_call flush file_entry put_bytes text_from
full_line = refl
