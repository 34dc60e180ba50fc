-- ===== src/Proc/Pids.antt =====
-- kernel/proc.c: pids over the whole life of the table.
use csse_332_final.Base.{
  ℕ, ◌+◌, ◌^◌, ◌<◌, ◌≡◌, refl, sym, ◌∙◌, ap, ◌≢◌, true, false, arith, update_self, update-ne,
  ℕ_discrete,
}
use csse_332_final.Base.Words.{add32}
use csse_332_final.Proc.{is_unused, n_proc, Proc, Procs, set_proc}
use csse_332_final.Proc.Wakeup.{Kept, set_proc-Kept}

-- A free slot has pid 0; a slot in use has a pid of its own, below the next one.
pub record HasPids (s : Procs) : Type 0 where
  pub pos : 0 < s.nextpid
  pub below : (j : ℕ) → j < n_proc → (s.proc j).pid < s.nextpid
  pub free_pid : (j : ℕ) → j < n_proc → is_unused (s.proc j).state ≡ true → (s.proc j).pid ≡ 0
  pub used_pid : (j : ℕ) → j < n_proc → is_unused (s.proc j).state ≡ false → (s.proc j).pid ≢ 0
  pub distinct :
      (i j : ℕ)
      → i < n_proc
      → j < n_proc
      → (s.proc i).pid ≢ 0
      → (s.proc i).pid ≡ (s.proc j).pid
      → i ≡ j

pub Kept-HasPids :
    {s t : Procs}
    → t.nextpid ≡ s.nextpid
    → ((j : ℕ) → j < n_proc → Kept s t j)
    → HasPids s
    → HasPids t
Kept-HasPids e k v = record {
  pos = omega (arith, e, v.pos);
  below = λ j h. omega (arith, e, (k j h).pid, v.below j h);
  free_pid = λ j h u. (k j h).pid ∙ v.free_pid j h (sym (k j h).free ∙ u);
  used_pid = λ j h u z. v.used_pid j h (sym (k j h).free ∙ u) (sym (k j h).pid ∙ z);
  distinct = λ i j hi hj ne same.
      v.distinct i j hi hj (λ z. ne ((k i hi).pid ∙ z)) (sym (k i hi).pid ∙ same ∙ (k j hj).pid);
}

pub set_proc-HasPids :
    (i : ℕ) (p : Proc) (s : Procs)
    → p.pid ≡ (s.proc i).pid
    → is_unused p.state ≡ is_unused (s.proc i).state
    → HasPids s
    → HasPids (set_proc i p s)
set_proc-HasPids i p s e f v = Kept-HasPids refl (λ j h. set_proc-Kept i p s j e f) v

-- Freeing a slot.
pub free-HasPids :
    (i : ℕ) (p : Proc) (s : Procs)
    → p.pid ≡ 0
    → is_unused p.state ≡ true
    → HasPids s
    → HasPids (set_proc i p s)
free-HasPids i p s z u v = record {
  pos = v.pos;
  below = λ j h. elim (ℕ_discrete i j) [
    | yes e ↦ omega (arith, v.pos, z, ap (λ q. q.pid) (update_self s.proc i p e))
    | no ne ↦ omega (arith, v.below j h, ap (λ q. q.pid) (update-ne s.proc i p ne))
  ];
  free_pid = λ j h un. elim (ℕ_discrete i j) [
    | yes e ↦ ap (λ q. q.pid) (update_self s.proc i p e) ∙ z
    | no ne ↦
        ap (λ q. q.pid) (update-ne s.proc i p ne)
        ∙ v.free_pid j h (ap (λ q. is_unused q.state) (sym (update-ne s.proc i p ne)) ∙ un)
  ];
  used_pid = λ j h us. elim (ℕ_discrete i j) [
    | yes e ↦
        absurd (clash (sym u ∙ ap (λ q. is_unused q.state) (sym (update_self s.proc i p e)) ∙ us))
    | no ne ↦ λ q.
        v.used_pid j h (ap (λ r. is_unused r.state) (sym (update-ne s.proc i p ne)) ∙ us)
          (ap (λ r. r.pid) (sym (update-ne s.proc i p ne)) ∙ q)
  ];
  distinct = λ a b ha hb nz same. elim (ℕ_discrete i a) [
    | yes e ↦ absurd (nz (ap (λ q. q.pid) (update_self s.proc i p e) ∙ z))
    | no ne ↦ elim (ℕ_discrete i b) [
      | yes e ↦ absurd (nz (same ∙ ap (λ q. q.pid) (update_self s.proc i p e) ∙ z))
      | no other ↦
          v.distinct a b ha hb (λ q. nz (ap (λ r. r.pid) (update-ne s.proc i p ne) ∙ q))
            (ap (λ r. r.pid) (sym (update-ne s.proc i p ne))
              ∙ same
              ∙ ap (λ r. r.pid) (update-ne s.proc i p other))
    ]
  ];
}
  where
    clash : true ≡ false → ⊥
    clash q = cc

-- Taking a slot with the next pid.
pub take-HasPids :
    (i : ℕ) (p : Proc) (s : Procs)
    → p.pid ≡ s.nextpid
    → is_unused p.state ≡ false
    → s.nextpid + 1 < 2 ^ 32
    → HasPids s
    → HasPids (set_proc i p (record s { nextpid = add32 s.nextpid 1 }))
take-HasPids i p s z u l v = record {
  pos = omega (arith, l);
  below = λ j h. elim (ℕ_discrete i j) [
    | yes e ↦ omega (arith, l, z, ap (λ q. q.pid) (update_self s.proc i p e))
    | no ne ↦ omega (arith, l, v.below j h, ap (λ q. q.pid) (update-ne s.proc i p ne))
  ];
  free_pid = λ j h un. elim (ℕ_discrete i j) [
    | yes e ↦ absurd (clash (sym un ∙ ap (λ q. is_unused q.state) (update_self s.proc i p e) ∙ u))
    | no ne ↦
        ap (λ q. q.pid) (update-ne s.proc i p ne)
        ∙ v.free_pid j h (ap (λ q. is_unused q.state) (sym (update-ne s.proc i p ne)) ∙ un)
  ];
  used_pid = λ j h us. elim (ℕ_discrete i j) [
    | yes e ↦ λ q. absurd (omega (arith, v.pos, z, ap (λ r. r.pid) (update_self s.proc i p e), q))
    | no ne ↦ λ q.
        v.used_pid j h (ap (λ r. is_unused r.state) (sym (update-ne s.proc i p ne)) ∙ us)
          (ap (λ r. r.pid) (sym (update-ne s.proc i p ne)) ∙ q)
  ];
  distinct = λ a b ha hb nz same. elim (ℕ_discrete i a) [
    | yes e ↦ elim (ℕ_discrete i b) [
      | yes e' ↦ sym e ∙ e'
      | no other ↦ absurd (
          omega (
            arith,
            v.below b hb,
            z,
            same,
            ap (λ q. q.pid) (update_self s.proc i p e),
            ap (λ q. q.pid) (update-ne s.proc i p other),
          ))
    ]
    | no ne ↦ elim (ℕ_discrete i b) [
      | yes e ↦ absurd (
          omega (
            arith,
            v.below a ha,
            z,
            same,
            ap (λ q. q.pid) (update_self s.proc i p e),
            ap (λ q. q.pid) (update-ne s.proc i p ne),
          ))
      | no other ↦
          v.distinct a b ha hb (λ q. nz (ap (λ r. r.pid) (update-ne s.proc i p ne) ∙ q))
            (ap (λ r. r.pid) (sym (update-ne s.proc i p ne))
              ∙ same
              ∙ ap (λ r. r.pid) (update-ne s.proc i p other))
    ]
  ];
}
  where
    clash : true ≡ false → ⊥
    clash q = cc
