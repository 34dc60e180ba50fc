-- ===== src/Log/Tests.antt =====
-- kernel/log.c on a log at block 2, with one block, number 40, in the transaction.
use csse_332_final.Base.{
  ◌≡◌, refl, ◌⊎◌, inr, some, [], ◌∷◌, returns, panics, arith, ◌==◌, if◌then◌else◌, update,
  update-ne, All,
}
use csse_332_final.Log.{
  Log, Store, Disk, Block, log_size, try_begin, begin_op, commit, log_write, recover_from_log,
  find_block, bpin,
}
use csse_332_final.Log.Holds.{mount, home, restart, Holds, Fits}
use csse_332_final.Log.Recovery.{booted, restart-crashes}
use csse_332_final.Log.Atomic.{CanCommit, commit-crash_atomic, commit_installs}
use csse_332_final.Log.Reserve.{System, Reserved, Step, Reach, log_write_in_budget}
use csse_332_final.Log.Absorb.{Absorbed, log_write-Absorbed}

abbrev zeros : Disk
zeros = λ _ _. 0

abbrev sevens : Block
sevens = λ _. 7

abbrev lg : Log
lg = record (booted 2 31) { n = 1; block = λ _. 40 }

abbrev store : Store
store = record { disk = zeros; cached = update zeros 40 sevens; pins = λ _. 1; trace = [] }

lg-Fits : Fits 2 31 1 (λ _. 40)
lg-Fits = record { few = omega arith; room = omega arith; home = λ i l. inr (omega arith) }

store-CanCommit : CanCommit lg store
store-CanCommit = record {
  fits = lg-Fits;
  clear = refl;
  synced = λ b hb others. update-ne zeros 40 sevens (others 0 (omega arith));
}

commit-crash_atomic_example :
    All
      (λ d.
        (restart 2 31 d ≡ returns (home 2 31 zeros))
        ⊎ (restart 2 31 d ≡ returns (home 2 31 (update zeros 40 sevens))))
      (commit lg store).1.trace
commit-crash_atomic_example = commit-crash_atomic lg store store-CanCommit refl

commit_installs_example :
    let (lg', s') = commit lg store in
    (lg'.n ≡ 0) × (s'.disk 2 0 ≡ 0) × (home 2 31 s'.disk ≡ home 2 31 (update zeros 40 sevens))
commit_installs_example = commit_installs lg store store-CanCommit refl

-- the disk after the write of the header: block 2 names block 40, block 3 holds its contents
abbrev committed : Disk
committed b =
    if b == 2 then (λ w. if w == 0 then 1 else 40) else if b == 40 then (λ _. 0) else sevens

committed-Holds : Holds 2 31 1 (λ _. 40) (λ _. sevens) committed
committed-Holds = record {
  count = refl;
  names = λ i l. ground arith;
  copies = λ i l. let e : i ≡ 0 = omega arith in rw e refl;
  rest = λ b hb others. ground (arith, others 0 (omega arith));
}

restart-crashes_example :
    All
      (λ d. restart 2 31 d ≡ returns (home 2 31 (λ _. sevens)))
      (recover_from_log (booted 2 31) (mount committed)).1.trace
restart-crashes_example = restart-crashes lg-Fits committed-Holds

abbrev idle : System
idle = record { log = booted 2 31; store = mount zeros; budgets = [] }

abbrev one_call : System
one_call = record {
  log = record (booted 2 31) { outstanding = 1 };
  store = mount zeros;
  budgets = 10 ∷ [];
}

idle-Reserved : Reserved idle
idle-Reserved = record {
  room = omega arith;
  counted = refl;
  few = omega arith;
  small = tt;
  alone = λ c. cc;
  big = omega arith;
}

one_call-Reach : Reach idle one_call
unfolding try_begin
one_call-Reach = Reach.next Reach.here (Step.begins refl)

log_write_in_budget_example :
    (out : Log × Store) × (log_write one_call.log 50 one_call.store ≡ returns out)
log_write_in_budget_example = log_write_in_budget [] [] 9 50 idle-Reserved one_call-Reach refl

abbrev busy : Log
busy = record lg { outstanding = 1 }

log_write-Absorbed_example :
    Absorbed busy 41 store
      (record busy { n = 2; block = update (λ _. 40) 1 41 })
      (record store { pins = update (λ _. 1) 41 2 })
unfolding log_write find_block bpin
log_write-Absorbed_example =
    log_write-Absorbed busy 41 store (record { apply = λ i j l h. absurd (omega arith) }) refl

-- Three calls are let in; a fourth sleeps until one of them has ended.
begin_op_waits :
    begin_op (record lg { outstanding = 3 } ∷ record lg { outstanding = 1 } ∷ [])
    ≡ some (record lg { outstanding = 2 })
unfolding begin_op try_begin
begin_op_waits = refl

-- mkfs/mkfs.c gives the log 30 blocks. Then the last block that `begin_op` reserves is refused.
last_block_refused :
    log_write (record (booted 2 log_size) { n = 29; outstanding = 3 }) 99 store
    ≡ panics "too big a transaction"
unfolding log_write
last_block_refused = refl
