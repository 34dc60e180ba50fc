-- ===== src/Log/Recovery.antt =====
-- kernel/log.c: `initlog` after a crash.
use csse_332_final.Base.{
  ℕ, ◌≤◌, ◌<◌, ◌≡◌, refl, sym, ◌∙◌, ap, subst, ◌⊎◌, inl, inr, true, returns, arith, All, All-map,
}
use csse_332_final.Log.{
  Log, Store, Disk, log_size, install_trans, int_rounds, read_head, write_head, recover_from_log,
  initlog, bwrite,
}
use csse_332_final.Log.Loops.{read_blocks-reads}
use csse_332_final.Log.Holds.{
  IsHome, mount, home, home_ext, boot, restart, Holds, Fits, Installed, install_trans-Installed,
  Installed-in_place, Holds-erase,
}

int_rounds_lem : (w : ℕ) → w ≤ log_size → int_rounds w ≡ w
int_rounds_lem w h = ground arith

module _ {n : ℕ} {block : ℕ → ℕ} {c d : Disk} (lg : Log) (fits : Fits lg.start lg.size n block)
    (holds : Holds lg.start lg.size n block c d) where
  -- the log that `read_head` makes of the header
  abbrev read : Log
  read = read_head lg (mount d)

  read-n : read.n ≡ n
  unfolding read_head
  read-n = ap int_rounds holds.count ∙ int_rounds_lem n fits.few

  read-block : (i : ℕ) → i < n → read.block i ≡ block i
  unfolding read_head
  read-block i lt =
      read_blocks-reads (d lg.start) (int_rounds (d lg.start 0)) 0 i lg.block (omega arith)
        (omega (arith, ap int_rounds holds.count, int_rounds_lem n fits.few))
      ∙ holds.names i lt

  read-start : read.start ≡ lg.start
  unfolding read_head
  read-start = refl

  read-size : read.size ≡ lg.size
  unfolding read_head
  read-size = refl

  read-Fits : Fits read.start read.size read.n read.block
  unfolding read_head
  read-Fits = record {
    few = omega (arith, read-n, fits.few);
    room = omega (arith, read-n, fits.room);
    home = λ i l.
        let l' : i < n = omega (arith, read-n) in
        subst (IsHome lg.start lg.size) (sym (read-block i l')) (fits.home i l');
  }

  read-Holds : Holds read.start read.size read.n read.block c d
  unfolding read_head
  read-Holds = record {
    count = holds.count ∙ sym read-n;
    names =
        λ i l. let l' : i < n = omega (arith, read-n) in holds.names i l' ∙ sym (read-block i l');
    copies = λ i l.
        let l' : i < n = omega (arith, read-n) in holds.copies i l' ∙ ap c (sym (read-block i l'));
    rest = λ b hb others.
        holds.rest b hb (λ i l e. others i (omega (arith, read-n)) (read-block i l ∙ e));
  }

  recovered : Store
  recovered = (recover_from_log lg (mount d)).1

  read-pos : 0 < read.size
  unfolding read_head
  read-pos = omega (arith, fits.room)

  abbrev Crashed : Disk → Type 0
  Crashed = Holds read.start read.size read.n read.block c

  installed :
      Installed read.start read.size c read-Fits Crashed
        (λ _ h. h)
        read.n
        (install_trans read true (mount d))
  unfolding read_head
  installed =
      install_trans-Installed read c read-Fits Crashed (λ _ h. h) true (mount d)
        (record {
          stands = read-Holds;
          logged = read-Holds.copies;
          placed = λ i l. absurd (omega arith);
          crashes = tt;
        })

  recovered-Holds : Holds lg.start lg.size 0 block c recovered.disk
  unfolding recovered recover_from_log read_head
  recovered-Holds =
      Holds-erase (record read { n = 0 }) c block (install_trans read true (mount d)) refl read-pos
        (Installed-in_place read c read-Fits Crashed (λ _ h. h) installed)

  recovered-crashes :
      All
        (λ d'. Holds lg.start lg.size n block c d' ⊎ Holds lg.start lg.size 0 block c d')
        recovered.trace
  unfolding recovered recover_from_log read_head write_head bwrite
  recovered-crashes = (
    inr recovered-Holds,
    All-map (λ d' h. inl (rename d' h)) (install_trans read true (mount d)).trace installed.crashes,
  )
    where
      rename :
          (d' : Disk)
          → Holds read.start read.size read.n read.block c d'
          → Holds lg.start lg.size n block c d'
      rename d' h = record {
        count = h.count ∙ read-n;
        names = λ i l. let l' : i < read.n = omega (arith, read-n) in h.names i l' ∙ read-block i l;
        copies = λ i l.
            let l' : i < read.n = omega (arith, read-n) in h.copies i l' ∙ ap c (read-block i l);
        rest = λ b hb others. h.rest b hb (λ i l e.
            let l' : i < n = omega (arith, read-n) in others i l' (sym (read-block i l') ∙ e));
      }

abbrev pub booted : ℕ → ℕ → Log
booted start size = record boot { start = start; size = size }

-- A boot finds the contents that the disk stands for.
pub restart_lem :
    {start size n : ℕ} {block : ℕ → ℕ} {c d : Disk}
    → Fits start size n block
    → Holds start size n block c d
    → restart start size d ≡ returns (home start size c)
unfolding restart initlog recovered
restart_lem {start} {size} {n} {block} {c} {d} fits h = ap returns (
    home_ext start size (recovered (booted start size) fits h).disk c (λ b hb.
      (recovered-Holds (booted start size) fits h).rest b hb (λ i l. absurd (omega arith))))

-- A disk that stands for the contents `c` is recovered in one boot, and a crash among the writes of
-- that recovery, wherever it falls, leaves a disk from which the next boot finds the home blocks of
-- `c` again.
pub restart-crashes :
    {start size n : ℕ} {block : ℕ → ℕ} {c d : Disk}
    → Fits start size n block
    → Holds start size n block c d
    → All
        (λ d'. restart start size d' ≡ returns (home start size c))
        (recover_from_log (booted start size) (mount d)).1.trace
unfolding recovered
restart-crashes {start} {size} {n} {block} {c} {d} fits h =
    All-map again _ (recovered-crashes (booted start size) fits h)
  where
    again :
        (d' : Disk)
        → (Holds start size n block c d') ⊎ (Holds start size 0 block c d')
        → restart start size d' ≡ returns (home start size c)
    again d' (inl full) = restart_lem fits full
    again d' (inr erased) =
        restart_lem
          (record {
            few = omega arith;
            room = omega (arith, fits.room);
            home = λ i l. absurd (omega arith);
          })
          erased
