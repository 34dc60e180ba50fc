-- ===== src/Log/Reserve.antt =====
-- kernel/log.c: the space that `begin_op` reserves. Any number of system calls run interleaved; each
-- writes at most `MAXOPBLOCKS` blocks between its `begin_op` and its `end_op`.
use csse_332_final.Base.{
  ℕ, suc, ◌+◌, ◌-◌, ◌*◌, inl, inr, ◌≤◌, ◌<◌, ◌≡◌, refl, ◌∙◌, ap, Bool, true, false, some, List, [],
  ◌∷◌, ◌++◌, returns, arith, ltb, length, length-append, All, Bool-cases, sym, returns_of_ne,
  ltb→le,
}
use csse_332_final.Log.{Log, Store, max_op_blocks, log_size, try_begin, leave_op, commit, log_write}

-- The log and, for each call between its `begin_op` and its `end_op`, the blocks it may still write.
pub record System : Type 0 where
  pub log : Log
  pub store : Store
  pub budgets : List ℕ

-- One critical section of one process. A call that writes more than its budget makes no step.
pub data Step : System → System → Type 0 where
  begins :
      {lg lg' : Log} {s : Store} {bs : List ℕ}
      → try_begin lg ≡ some lg'
      → Step
          (record { log = lg; store = s; budgets = bs })
          (record { log = lg'; store = s; budgets = max_op_blocks ∷ bs })
  writes :
      {lg lg' : Log} {s s' : Store} (before after : List ℕ) (k b : ℕ) {bs : List ℕ}
      → bs ≡ before ++ (suc k ∷ after)
      → log_write lg b s ≡ returns (lg', s')
      → Step
          (record { log = lg; store = s; budgets = bs })
          (record { log = lg'; store = s'; budgets = before ++ (k ∷ after) })
  leaves :
      {lg lg' : Log} {s : Store} (before after : List ℕ) (k : ℕ) {bs : List ℕ} {do_commit : Bool}
      → bs ≡ before ++ (k ∷ after)
      → leave_op lg ≡ returns (lg', do_commit)
      → Step
          (record { log = lg; store = s; budgets = bs })
          (record { log = lg'; store = s; budgets = before ++ after })
  commits :
      {lg : Log} {s : Store} {bs : List ℕ}
      → lg.committing ≡ true
      → Step
          (record { log = lg; store = s; budgets = bs })
          (record {
            log = record (commit lg s).0 { committing = false };
            store = (commit lg s).1;
            budgets = bs;
          })

pub data Reach (s : System) : System → Type 0 where
  here : Reach s s
  next : {t u : System} → Reach s t → Step t u → Reach s u

abbrev sum : List ℕ → ℕ
sum [] = 0
sum (x ∷ xs) = x + sum xs

abbrev Small : ℕ → Type 0
Small k = k ≤ max_op_blocks

-- The log has room for all that the running calls may still write.
pub record Reserved (s : System) : Type 0 where
  pub room : s.log.n + sum s.budgets ≤ log_size
  pub counted : s.log.outstanding ≡ length s.budgets
  pub few : length s.budgets ≤ 3
  pub small : All Small s.budgets
  pub alone : s.log.committing ≡ true → length s.budgets ≡ 0
  pub big : log_size < s.log.size

sum-append : (xs ys : List ℕ) → sum (xs ++ ys) ≡ sum xs + sum ys
sum-append [] ys = omega arith
sum-append (x ∷ xs) ys = omega (arith, sum-append xs ys)

sum-le : (xs : List ℕ) → All Small xs → sum xs ≤ length xs * max_op_blocks
sum-le [] h = omega arith
sum-le (x ∷ xs) h = omega (arith, sum-le xs h.1)

All-middle :
    (xs ys : List ℕ) (j k : ℕ)
    → All Small (xs ++ (j ∷ ys))
    → k ≤ j
    → All Small (xs ++ (k ∷ ys)) × All Small (xs ++ ys)
All-middle [] ys j k h l = ((omega (arith, h.0), h.1), h.1)
All-middle (x ∷ xs) ys j k h l =
    let rest = All-middle xs ys j k h.1 l in ((h.0, rest.0), (h.0, rest.1))

length-middle : (xs ys : List ℕ) (k : ℕ) → length (xs ++ (k ∷ ys)) ≡ suc (length xs + length ys)
length-middle xs ys k = omega (arith, length-append xs (k ∷ ys))

sum-middle : (xs ys : List ℕ) (k : ℕ) → sum (xs ++ (k ∷ ys)) ≡ k + sum xs + sum ys
sum-middle xs ys k = omega (arith, sum-append xs (k ∷ ys))

-- What `log_write` does where it returns.
log_write-log :
    (lg : Log) (b : ℕ) (s : Store) {lg' : Log} {s' : Store}
    → log_write lg b s ≡ returns (lg', s')
    → (lg'.n ≤ lg.n + 1)
      × (lg'.outstanding ≡ lg.outstanding)
      × (lg'.committing ≡ lg.committing)
      × (lg'.size ≡ lg.size)
unfolding log_write
log_write-log lg b s e = ground arith

try_begin-log :
    (lg : Log) {lg' : Log}
    → lg.outstanding ≤ 3
    → try_begin lg ≡ some lg'
    → (lg.committing ≡ false)
      × (lg'.outstanding ≡ lg.outstanding + 1)
      × (lg'.n ≡ lg.n)
      × (lg.n + lg'.outstanding * max_op_blocks ≤ log_size)
      × (lg'.committing ≡ false)
      × (lg'.size ≡ lg.size)
unfolding try_begin
try_begin-log lg h e = ground arith

leave_op-log :
    (lg : Log) {lg' : Log} {do_commit : Bool}
    → 0 < lg.outstanding
    → lg.outstanding ≤ 3
    → leave_op lg ≡ returns (lg', do_commit)
    → (lg'.outstanding ≡ lg.outstanding - 1)
      × (lg'.n ≡ lg.n)
      × (lg'.size ≡ lg.size)
      × (lg'.committing ≡ true → lg'.outstanding ≡ 0)
unfolding leave_op
leave_op-log lg p h e = ground arith

commit-log :
    (lg : Log) (s : Store)
    → ((commit lg s).0.n ≡ 0)
      × ((commit lg s).0.outstanding ≡ lg.outstanding)
      × ((commit lg s).0.size ≡ lg.size)
unfolding commit
commit-log lg s = elim (Bool-cases (ltb 0 lg.n)) [
  | inl busy ↦ rw busy (refl, refl, refl)
  | inr idle ↦ rw idle (omega (arith, ltb→le 0 lg.n idle), refl, refl)
]

log_write_room :
    (lg : Log) (b : ℕ) (s : Store)
    → lg.n < log_size
    → lg.n + 1 < lg.size
    → 0 < lg.outstanding
    → lg.outstanding ≤ 3
    → (out : Log × Store) × (log_write lg b s ≡ returns out)
unfolding log_write
log_write_room lg b s h l p q = returns_of_ne (log_write lg b s) (λ m e. ground arith)

Step-Reserved : {s t : System} → Step s t → Reserved s → Reserved t
Step-Reserved (begins {lg} {lg'} {s} {bs} e) v =
    let f = try_begin-log lg (omega (arith, v.counted, v.few)) e in
    record {
      room = omega (arith, f.3, f.2, f.1, v.counted, sum-le bs v.small);
      counted = omega (arith, f.1, v.counted);
      few = omega (arith, f.3, f.1, v.counted);
      small = (omega arith, v.small);
      alone = λ c. cc (c, f.4);
      big = omega (arith, f.5, v.big);
    }
Step-Reserved (writes {lg} {lg'} {s} {s'} before after k b e w) v =
    let f = log_write-log lg b s w in
    record {
      room = omega (
        arith,
        f.0,
        v.room,
        ap sum e,
        sum-middle before after (suc k),
        sum-middle before after k,
      );
      counted = omega (
        arith,
        f.1,
        v.counted,
        ap length e,
        length-middle before after (suc k),
        length-middle before after k,
      );
      few = omega (
        arith,
        v.few,
        ap length e,
        length-middle before after (suc k),
        length-middle before after k,
      );
      small = (All-middle before after (suc k) k (rw e at v.small) (omega arith)).0;
      alone = λ c.
          absurd
            (omega (arith, v.alone (sym f.2 ∙ c), ap length e, length-middle before after (suc k)));
      big = omega (arith, f.3, v.big);
    }
Step-Reserved (leaves {lg} {lg'} {s} before after k e w) v =
    let f =
      leave_op-log lg (omega (arith, v.counted, ap length e, length-middle before after k))
        (omega (arith, v.counted, v.few)) w in
    record {
      room =
          omega (arith, f.1, v.room, ap sum e, sum-middle before after k, sum-append before after);
      counted = omega (
        arith,
        f.0,
        v.counted,
        ap length e,
        length-middle before after k,
        length-append before after,
      );
      few =
          omega
            (arith, v.few, ap length e, length-middle before after k, length-append before after);
      small = (All-middle before after k k (rw e at v.small) (omega arith)).1;
      alone = λ c. omega (
        arith,
        f.3 c,
        f.0,
        v.counted,
        ap length e,
        length-middle before after k,
        length-append before after,
      );
      big = omega (arith, f.2, v.big);
    }
Step-Reserved (commits {lg} {s} {bs} c) v =
    let f = commit-log lg s in
    record {
      room = omega (arith, f.0, v.few, sum-le bs v.small);
      counted = f.1 ∙ v.counted;
      few = v.few;
      small = v.small;
      alone = λ d. v.alone c;
      big = omega (arith, f.2, v.big);
    }

Reach-Reserved : {s t : System} → Reserved s → Reach s t → Reserved t
Reach-Reserved v here = v
Reach-Reserved v (next r st) = Step-Reserved st (Reach-Reserved v r)

-- With a log of more than `LOGSIZE` blocks, however the system calls interleave, a call that has
-- blocks left of its ten can write any block: `log_write` does not panic.
pub log_write_in_budget :
    {s t : System} (before after : List ℕ) (k b : ℕ)
    → Reserved s
    → Reach s t
    → t.budgets ≡ before ++ (suc k ∷ after)
    → (out : Log × Store) × (log_write t.log b t.store ≡ returns out)
log_write_in_budget {s} {t} before after k b v r e =
    log_write_room t.log b t.store
      (omega (arith, w.room, ap sum e, sum-middle before after (suc k)))
      (omega (arith, w.big, w.room, ap sum e, sum-middle before after (suc k)))
      (omega (arith, w.counted, ap length e, length-middle before after (suc k)))
      (omega (arith, w.counted, w.few))
  where
    w : Reserved t
    w = Reach-Reserved v r
