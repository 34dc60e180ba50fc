-- ===== src/Fs/Inode/Allocation.antt =====
-- kernel/fs.c: `ialloc` takes a free inode.
use csse_332_final.Base.{
  ℕ, zero, suc, ◌+◌, ◌-◌, ◌^◌, ◌≤◌, ◌<◌, ◌≡◌, refl, ◌∙◌, ap, ◌≢◌, Option, none, some, arith, ◌==◌,
  ==_iff, ne_of_==, Bool-cases, inl, inr, ℕ_discrete,
}
use csse_332_final.Fs.{Superblock, Blocks}
use csse_332_final.Fs.Inode.{blank, read_inode, ialloc_from, ialloc}
use csse_332_final.Fs.Inode.Fields.{Fits, Same}
use csse_332_final.Fs.Inode.RoundTrip.{iupdate_stores}

-- What `ialloc` leaves: the inode was free and is blank but for its type, and the others are as before;
-- or no inode from 1 on is free, and nothing is changed.
abbrev pub Allocates : Superblock → ℕ → ℕ → ℕ → Blocks → Option ℕ × Blocks → Type 0
Allocates sb type from to d (none, d') =
    (d' ≡ d) × ((i : ℕ) → from ≤ i → i < to → (read_inode sb i d).type ≢ 0)
Allocates sb type from to d (some inum, d') =
    (from ≤ inum)
    × (inum < to)
    × ((read_inode sb inum d).type ≡ 0)
    × Same (read_inode sb inum d') (blank type)
    × ((i : ℕ) → i ≢ inum → Same (read_inode sb i d') (read_inode sb i d))

blank-Fits : (type : ℕ) → type < 2 ^ 16 → Fits (blank type)
blank-Fits type h = record {
  type = h;
  major = omega arith;
  minor = omega arith;
  nlink = omega arith;
  size = omega arith;
  addrs = λ i l. omega arith;
}

Allocates-later :
    (sb : Superblock) (type from to : ℕ) (d : Blocks) (out : Option ℕ × Blocks)
    → (read_inode sb from d).type ≢ 0
    → Allocates sb type (from + 1) to d out
    → Allocates sb type from to d out
Allocates-later sb type from to d (none, d') ne h = (
  h.0,
  λ i a b. elim (ℕ_discrete from i) [
    | yes e ↦ λ z. ne (ap (λ n. (read_inode sb n d).type) e ∙ z)
    | no later ↦ h.1 i (omega arith) b
  ],
)
Allocates-later sb type from to d (some inum, d') ne h = (omega (arith, h.0), h.1, h.2, h.3, h.4)

ialloc_from-Allocates :
    (sb : Superblock) (type k from : ℕ) (d : Blocks)
    → type < 2 ^ 16
    → Allocates sb type from (from + k) d (ialloc_from sb type k from d)
unfolding ialloc_from
ialloc_from-Allocates sb type zero from d f = (refl, λ i a b. absurd (omega arith))
ialloc_from-Allocates sb type (suc k) from d f =
    elim (Bool-cases ((read_inode sb from d).type == 0)) [
      | inl e ↦
          let u = iupdate_stores sb from (blank type) d (blank-Fits type f) in
          rw e (omega arith, omega arith, (==_iff (read_inode sb from d).type 0).0 e, u.0, u.1)
      | inr e ↦
          rw (e, to_end)
            (Allocates-later sb type from (from + 1 + k) d (ialloc_from sb type k (from + 1) d)
              (ne_of_== (read_inode sb from d).type 0 e)
              (ialloc_from-Allocates sb type k (from + 1) d f))
    ]
  where
    to_end : from + suc k ≡ from + 1 + k
    to_end = omega arith

-- `ialloc` gives an inode from 1 on that was free. It is then blank but for its type, and every other
-- inode is as before. It fails only where each of them is in use, and then changes nothing.
pub ialloc-Allocates :
    (sb : Superblock) (type : ℕ) (d : Blocks)
    → type < 2 ^ 16
    → Allocates sb type 1 (1 + (sb.ninodes - 1)) d (ialloc sb type d)
unfolding ialloc
ialloc-Allocates sb type d f = ialloc_from-Allocates sb type (sb.ninodes - 1) 1 d f
