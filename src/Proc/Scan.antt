-- ===== src/Proc/Scan.antt =====
-- kernel/proc.c: the loops over the process table.
use csse_332_final.Base.{
  ℕ, zero, suc, ◌+◌, ◌≤◌, ◌<◌, ◌≡◌, refl, sym, ◌∙◌, ap, inl, inr, Bool, true, false, none, some,
  arith, Bool-cases, update, update_self, update-ne, ℕ_discrete,
}
use csse_332_final.Proc.{Proc, for_procs, find_proc}

-- Slots before the loop's start are left alone.
pub for_procs-before :
    (body : ℕ → Proc → Proc) (k i j : ℕ) (t : ℕ → Proc) → j < i → for_procs body k i t j ≡ t j
unfolding for_procs
for_procs-before body zero i j t h = refl
for_procs-before body (suc k) i j t h =
    for_procs-before body k (i + 1) j (update t i (body i (t i))) (omega arith)
    ∙ update-ne t i (body i (t i)) (omega arith)

-- Each slot that the loop visits gets its own image under the body.
pub for_procs_lem :
    (body : ℕ → Proc → Proc) (k i j : ℕ) (t : ℕ → Proc)
    → i ≤ j
    → j < i + k
    → for_procs body k i t j ≡ body j (t j)
unfolding for_procs
for_procs_lem body zero i j t h l = absurd (omega arith)
for_procs_lem body (suc k) i j t h l = elim (ℕ_discrete i j) [
  | yes e ↦
      for_procs-before body k (i + 1) j (update t i (body i (t i))) (omega arith)
      ∙ update_self t i (body i (t i)) e
      ∙ ap (λ n. body n (t n)) e
  | no ne ↦
      for_procs_lem body k (i + 1) j (update t i (body i (t i))) (omega arith) (omega arith)
      ∙ ap (body j) (update-ne t i (body i (t i)) ne)
]

-- The loop ends at the first slot that passes the test.
pub record Finds (test : Proc → Bool) (t : ℕ → Proc) (k i : ℕ) (j : ℕ) : Type 0 where
  pub from : i ≤ j
  pub below : j < i + k
  pub passes : test (t j) ≡ true
  pub first : (m : ℕ) → i ≤ m → m < j → test (t m) ≡ false

pub find_proc-some :
    (test : Proc → Bool) (t : ℕ → Proc) (k i : ℕ) {j : ℕ}
    → find_proc test t k i ≡ some j
    → Finds test t k i j
unfolding find_proc
find_proc-some test t zero i e = cc
find_proc-some test t (suc k) i {j} e = elim (Bool-cases (test (t i))) [
  | inl yes_here ↦
      let same : i ≡ j = some_inj (rw yes_here at e) in
      record {
        from = omega arith;
        below = omega arith;
        passes = ap (λ n. test (t n)) (sym same) ∙ yes_here;
        first = λ m h l. absurd (omega arith);
      }
  | inr not_here ↦
      let f = find_proc-some test t k (i + 1) (rw not_here at e) in
      record {
        from = omega (arith, f.from);
        below = omega (arith, f.below);
        passes = f.passes;
        first = λ m h l. elim (ℕ_discrete i m) [
          | yes same ↦ ap (λ n. test (t n)) (sym same) ∙ not_here
          | no later ↦ f.first m (omega arith) l
        ];
      }
]
  where
    some_inj : {a b : ℕ} → some a ≡ some b → a ≡ b
    some_inj q = cc

pub find_proc-none :
    (test : Proc → Bool) (t : ℕ → Proc) (k i j : ℕ)
    → find_proc test t k i ≡ none
    → i ≤ j
    → j < i + k
    → test (t j) ≡ false
unfolding find_proc
find_proc-none test t zero i j e h l = absurd (omega arith)
find_proc-none test t (suc k) i j e h l = elim (Bool-cases (test (t i))) [
  | inl yes_here ↦ cc (rw yes_here at e)
  | inr not_here ↦ elim (ℕ_discrete i j) [
    | yes same ↦ ap (λ n. test (t n)) (sym same) ∙ not_here
    | no later ↦ find_proc-none test t k (i + 1) j (rw not_here at e) (omega arith) (omega arith)
  ]
]

-- A slot that passes the test, with none before it, is the one that is found.
pub find_proc-first :
    (test : Proc → Bool) (t : ℕ → Proc) (k i j : ℕ)
    → i ≤ j
    → j < i + k
    → test (t j) ≡ true
    → ((m : ℕ) → i ≤ m → m < j → test (t m) ≡ false)
    → find_proc test t k i ≡ some j
unfolding find_proc
find_proc-first test t zero i j h l p others = absurd (omega arith)
find_proc-first test t (suc k) i j h l p others = elim (ℕ_discrete i j) [
  | yes same ↦ rw (ap (λ n. test (t n)) same ∙ p, same)
  | no later ↦ rw (others i (omega arith) (omega arith)) (
      find_proc-first test t k (i + 1) j (omega arith) (omega arith) p
        (λ m a b. others m (omega arith) b))
]
