-- ===== src/Log/Atomic.antt =====
-- kernel/log.c: a commit is atomic under crashes.
use csse_332_final.Base.{
  ℕ, zero, suc, ◌+◌, ◌<◌, ◌≡◌, refl, sym, ◌∙◌, ap, subst, ◌≢◌, ◌⊎◌, inl, inr, false, [], returns,
  arith, lt→ltb, le→ltb, update, update_self, update-ne, All, All-map, ℕ_discrete,
}
use csse_332_final.Log.{
  Log, Store, Disk, Block, bwrite, copy_block, install_trans, write_head, head_block, log_from,
  write_log, commit,
}
use csse_332_final.Log.Loops.{head_block-count, head_block-names}
use csse_332_final.Log.Holds.{
  IsHome, home, home_ext, restart, Holds, Fits, Installed, install_trans-Installed,
  Installed-in_place, Holds-erase, home-ne-start, home-ne-copy,
}
use csse_332_final.Log.Recovery.{restart_lem}

-- A log and a cache before `commit`: the header on the disk is clear, and the cache differs from the
-- disk only in the blocks that the log names.
pub record CanCommit (lg : Log) (s : Store) : Type 0 where
  pub fits : Fits lg.start lg.size lg.n lg.block
  pub clear : s.disk lg.start 0 ≡ 0
  pub synced :
      (b : ℕ)
      → IsHome lg.start lg.size b
      → ((i : ℕ) → i < lg.n → lg.block i ≢ b)
      → s.cached b ≡ s.disk b

module _ (lg : Log) (s : Store) (can : CanCommit lg s) where
  open can use {fits, clear, synced}

  -- The state of `write_log` after `t` rounds.
  record Logged (t : ℕ) (u : Store) : Type 0 where
    head : u.disk lg.start ≡ s.disk lg.start
    copies : (i : ℕ) → i < t → u.disk (lg.start + i + 1) ≡ s.cached (lg.block i)
    cached_copies : (i : ℕ) → i < t → u.cached (lg.start + i + 1) ≡ s.cached (lg.block i)
    homes : (b : ℕ) → IsHome lg.start lg.size b → u.disk b ≡ s.disk b
    cached_homes : (b : ℕ) → IsHome lg.start lg.size b → u.cached b ≡ s.cached b
    crashes : All (Holds lg.start lg.size 0 lg.block s.disk) u.trace

  Holds-old :
      {d : Disk}
      → d lg.start ≡ s.disk lg.start
      → ((b : ℕ) → IsHome lg.start lg.size b → d b ≡ s.disk b)
      → Holds lg.start lg.size 0 lg.block s.disk d
  Holds-old head homes = record {
    count = ap (λ (w : Block). w 0) head ∙ clear;
    names = λ i l. absurd (omega arith);
    copies = λ i l. absurd (omega arith);
    rest = λ b hb others. homes b hb;
  }

  Logged-round :
      (u : Store) (t : ℕ)
      → t < lg.n
      → Logged t u
      → Logged (t + 1) (bwrite (lg.start + t + 1) (copy_block (lg.start + t + 1) (lg.block t) u))
  unfolding bwrite copy_block
  Logged-round u t lt inv = record {
    head = head;
    copies = λ i l. elim (ℕ_discrete i t) [
      | yes last ↦
          update_self u.disk (lg.start + t + 1) _ (omega arith)
          ∙ update_self u.cached (lg.start + t + 1) _ refl
          ∙ inv.cached_homes (lg.block t) (fits.home t lt)
          ∙ ap (λ j. s.cached (lg.block j)) (sym last)
      | no before ↦ update-ne u.disk (lg.start + t + 1) _ (omega arith) ∙ inv.copies i (omega arith)
    ];
    cached_copies = λ i l. elim (ℕ_discrete i t) [
      | yes last ↦
          update_self u.cached (lg.start + t + 1) _ (omega arith)
          ∙ inv.cached_homes (lg.block t) (fits.home t lt)
          ∙ ap (λ j. s.cached (lg.block j)) (sym last)
      | no before ↦
          update-ne u.cached (lg.start + t + 1) _ (omega arith) ∙ inv.cached_copies i (omega arith)
    ];
    homes = homes;
    cached_homes =
        λ b hb. update-ne u.cached (lg.start + t + 1) _ (off b hb) ∙ inv.cached_homes b hb;
    crashes = (Holds-old head homes, inv.crashes);
  }
    where
      off : (b : ℕ) → IsHome lg.start lg.size b → lg.start + t + 1 ≢ b
      off b hb e = home-ne-copy lg.start lg.size t hb (omega (arith, fits.room)) (sym e)

      new : Block
      new = update u.cached (lg.start + t + 1) (u.cached (lg.block t)) (lg.start + t + 1)

      head : update u.disk (lg.start + t + 1) new lg.start ≡ s.disk lg.start
      head = update-ne u.disk (lg.start + t + 1) new (omega arith) ∙ inv.head

      homes :
          (b : ℕ) → IsHome lg.start lg.size b → update u.disk (lg.start + t + 1) new b ≡ s.disk b
      homes b hb = update-ne u.disk (lg.start + t + 1) new (off b hb) ∙ inv.homes b hb

  log_from-Logged :
      (k t : ℕ) (u : Store) → t + k ≡ lg.n → Logged t u → Logged lg.n (log_from lg k t u)
  unfolding log_from
  log_from-Logged zero t u e inv = let e' : t ≡ lg.n = omega arith in subst (λ m. Logged m u) e' inv
  log_from-Logged (suc k) t u e inv =
      log_from-Logged k (t + 1) _ (omega arith) (Logged-round u t (omega arith) inv)

  logged : s.trace ≡ [] → Logged lg.n (write_log lg s)
  unfolding write_log
  logged none_yet = log_from-Logged lg.n 0 s (omega arith) (record {
    head = refl;
    copies = λ i l. absurd (omega arith);
    cached_copies = λ i l. absurd (omega arith);
    homes = λ b hb. refl;
    cached_homes = λ b hb. refl;
    crashes = rw none_yet tt;
  })

  -- The write of the header is the point of commit: from there the disk stands for the cache.
  written : s.trace ≡ [] → Store
  written e = write_head lg (write_log lg s)

  written-Holds :
      (e : s.trace ≡ []) → Holds lg.start lg.size lg.n lg.block s.cached (written e).disk
  unfolding written write_head bwrite
  written-Holds e = record {
    count = ap (λ (w : Block). w 0) here ∙ head_block-count lg old;
    names = λ i l. ap (λ (w : Block). w (i + 1)) here ∙ head_block-names lg old i l;
    copies = λ i l. update-ne u.disk lg.start _ (omega arith) ∙ (logged e).copies i l;
    rest = λ b hb others.
        update-ne u.disk lg.start _ (off b hb) ∙ (logged e).homes b hb ∙ sym (synced b hb others);
  }
    where
      u : Store
      u = write_log lg s

      old : Block
      old = u.cached lg.start

      new : Block
      new = update u.cached lg.start (head_block lg old) lg.start

      here : update u.disk lg.start new lg.start ≡ head_block lg old
      here = update_self u.disk lg.start new refl ∙ update_self u.cached lg.start _ refl

      off : (b : ℕ) → IsHome lg.start lg.size b → lg.start ≢ b
      off b hb q = home-ne-start lg.start lg.size hb (omega (arith, fits.room)) (sym q)

  Survives : Disk → Type 0
  Survives d =
      (restart lg.start lg.size d ≡ returns (home lg.start lg.size s.disk))
      ⊎ (restart lg.start lg.size d ≡ returns (home lg.start lg.size s.cached))

  none-Fits : Fits lg.start lg.size 0 lg.block
  none-Fits = record {
    few = omega arith;
    room = omega (arith, fits.room);
    home = λ i l. absurd (omega arith);
  }

  written-crashes : (e : s.trace ≡ []) → All Survives (written e).trace
  unfolding Survives written write_head bwrite
  written-crashes e = (
    inr (restart_lem fits (written-Holds e)),
    All-map (λ d h. inl (restart_lem none-Fits h)) (write_log lg s).trace (logged e).crashes,
  )

  full-Survives : (d : Disk) → Holds lg.start lg.size lg.n lg.block s.cached d → Survives d
  unfolding Survives
  full-Survives d h = inr (restart_lem fits h)

  abbrev InPlace : ℕ → Store → Type 0
  InPlace = Installed lg.start lg.size s.cached fits Survives full-Survives

  installed : (e : s.trace ≡ []) → InPlace lg.n (install_trans lg false (written e))
  installed e =
      install_trans-Installed lg s.cached fits Survives full-Survives false (written e) (record {
        stands = written-Holds e;
        logged =
            unfold written write_head bwrite in
            λ i l.
              update-ne (write_log lg s).cached lg.start _ (omega arith)
              ∙ (logged e).cached_copies i l;
        placed = λ i l. absurd (omega arith);
        crashes = written-crashes e;
      })

  erased : (e : s.trace ≡ []) → Store
  erased e = write_head (record lg { n = 0 }) (install_trans lg false (written e))

  placed :
      (e : s.trace ≡ []) (b : ℕ)
      → IsHome lg.start lg.size b
      → (install_trans lg false (written e)).disk b ≡ s.cached b
  placed e = Installed-in_place lg s.cached fits Survives full-Survives (installed e)

  erased-Holds : (e : s.trace ≡ []) → Holds lg.start lg.size 0 lg.block s.cached (erased e).disk
  unfolding erased
  erased-Holds e =
      Holds-erase (record lg { n = 0 }) s.cached lg.block (install_trans lg false (written e)) refl
        (omega (arith, fits.room)) (placed e)

  erased-crashes : (e : s.trace ≡ []) → All Survives (erased e).trace
  unfolding erased Survives write_head bwrite
  erased-crashes e = (inr (restart_lem none-Fits (erased-Holds e)), (installed e).crashes)

commit_lem :
    (lg : Log) (s : Store) (can : CanCommit lg s) (e : s.trace ≡ [])
    → 0 < lg.n
    → commit lg s ≡ (record lg { n = 0 }, erased lg s can e)
unfolding commit erased written
commit_lem lg s can e h = rw (lt→ltb 0 lg.n h)

commit_idle : (lg : Log) (s : Store) → lg.n ≡ 0 → commit lg s ≡ (lg, s)
unfolding commit
commit_idle lg s h = rw (le→ltb 0 lg.n (omega arith))

-- Wherever a crash falls among the writes of `commit`, the next boot finds in all blocks outside the
-- log either what the disk held before the commit or what the cache held: nothing in between.
pub commit-crash_atomic :
    (lg : Log) (s : Store)
    → CanCommit lg s
    → s.trace ≡ []
    → All
        (λ d.
          (restart lg.start lg.size d ≡ returns (home lg.start lg.size s.disk))
          ⊎ (restart lg.start lg.size d ≡ returns (home lg.start lg.size s.cached)))
        (commit lg s).1.trace
unfolding Survives
commit-crash_atomic lg s can e = elim (ℕ_discrete lg.n 0) [
  | yes idle ↦ rw (commit_idle lg s idle, e) tt
  | no busy ↦ rw (commit_lem lg s can e (omega arith)) (erased-crashes lg s can e)
]

-- A commit that is not cut short puts the cached contents of every block outside the log on the
-- disk, forgets the transaction and clears the header.
pub commit_installs :
    (lg : Log) (s : Store)
    → CanCommit lg s
    → s.trace ≡ []
    → let (lg', s') = commit lg s in
      (lg'.n ≡ 0)
      × (s'.disk lg.start 0 ≡ 0)
      × (home lg.start lg.size s'.disk ≡ home lg.start lg.size s.cached)
commit_installs lg s can e = elim (ℕ_discrete lg.n 0) [
  | yes idle ↦ rw (commit_idle lg s idle) (
    idle,
    can.clear,
    home_ext lg.start lg.size s.disk s.cached
        (λ b hb. sym (can.synced b hb (λ i l. absurd (omega arith)))),
  )
  | no busy ↦ rw (commit_lem lg s can e (omega arith)) (
    refl,
    (erased-Holds lg s can e).count,
    home_ext lg.start lg.size (erased lg s can e).disk s.cached
        (λ b hb. (erased-Holds lg s can e).rest b hb (λ i l. absurd (omega arith))),
  )
]
