-- ===== src/Fs/Table/Tests.antt =====
-- kernel/fs.c: a file of one block, block 10, whose inode is in entry 0 of the table.
use csse_332_final.Base.{
  ℕ, ◌<◌, ◌≡◌, ◌≢◌, refl, ◌∙◌, sym, ap, ◌⊎◌, inl, inr, Bool, true, false, ◌&&◌, not, arith, ◌==◌,
  ==_eq, ==_ne, if◌then◌else◌, returns, ℕ_discrete, subst,
}
use csse_332_final.Fs.{Superblock, Blocks, bblock, iblock}
use csse_332_final.Fs.Inode.{Inode, read_inode}
use csse_332_final.Fs.Inode.Fields.{Fits}
use csse_332_final.Fs.Bitmap.{is_free}
use csse_332_final.Fs.Bitmap.Marks.{used}
use csse_332_final.Fs.Content.{block_of}
use csse_332_final.Fs.Content.Files.{IsData, IsDisk, IsFile}
use csse_332_final.Fs.Truncate.Freed.{belongs}
use csse_332_final.Fs.Table.{Itable, iget, iput}
use csse_332_final.Fs.Table.Entries.{IsUnique, Gets, iget-Gets}
use csse_332_final.Fs.Table.Puts.{iput-Frees}

abbrev sb : Superblock
sb = record { size = 64; ninodes = 16; inodestart = 2; bmapstart = 3 }

-- The map, in block 3, has the first four blocks and block 10 in use.
abbrev disk : Blocks
disk b i = if b == 3 then (if i == 0 then 15 else if i == 1 then 4 else 0) else 0

abbrev file : Inode
file = record {
  type = 2;
  major = 0;
  minor = 0;
  nlink = 0;
  size = 5;
  addrs = λ i. if i == 0 then 10 else 0;
}

abbrev table : Itable
table i =
    if i == 0
    then record { dev = 1; inum = 3; ref = 1; valid = true; inode = file }
    else record { dev = 0; inum = 0; ref = 0; valid = false; inode = file }

map_used : (b : ℕ) → (b ≡ 0) ⊎ (b ≡ 2) ⊎ (b ≡ 3) ⊎ (b ≡ 10) → used sb disk b ≡ true
unfolding is_free
map_used b (inl e) = subst (λ x. used sb disk x ≡ true) (sym e) refl
map_used b (inr (inl e)) = subst (λ x. used sb disk x ≡ true) (sym e) refl
map_used b (inr (inr (inl e))) = subst (λ x. used sb disk x ≡ true) (sym e) refl
map_used b (inr (inr (inr e))) = subst (λ x. used sb disk x ≡ true) (sym e) refl

is_disk : IsDisk sb disk
is_disk = record {
  small = omega arith;
  map = record {
    bytes = λ x i. ground arith;
    own = λ x l. (omega arith, map_used (bblock x sb) (inr (inr (inl (omega arith)))));
    boot = map_used 0 (inl refl);
  };
  inodes = λ i l. (omega arith, map_used (iblock i sb) (inr (inl (omega arith))));
}

one_block : (n : ℕ) → block_of file disk n ≡ (if n == 0 then 10 else 0)
unfolding block_of
one_block n = ground arith

first : (n : ℕ) → block_of file disk n ≢ 0 → (n ≡ 0) × (block_of file disk n ≡ 10)
first n ne = elim (ℕ_discrete n 0) [
  | yes z ↦ (z, one_block n ∙ rw (==_eq n 0 z) refl)
  | no other ↦ absurd (ne (one_block n ∙ rw (==_ne n 0 other) refl))
]

block-IsData : (b : ℕ) → b ≡ 10 → IsData sb disk b
block-IsData b e = record {
  in_range = omega (arith, e);
  in_use = map_used b (inr (inr (inr e)));
  no_map = λ x l q. omega (arith, q, e);
  no_inode = λ i l q. omega (arith, q, e);
}

is_file : IsFile sb file disk
is_file = record {
  blocks = λ n l ne. block-IsData (block_of file disk n) (first n ne).1;
  indirect = λ ne. absurd (ne refl);
  distinct = λ n m l h ne e. (first n ne).0 ∙ sym (first m (λ z. ne (e ∙ z))).0;
  apart = λ n l ne. ne;
}

fits : Fits file
fits = record {
  type = omega arith;
  major = omega arith;
  minor = omega arith;
  nlink = omega arith;
  size = omega arith;
  addrs = λ i l. ground arith;
}

apart : (x : ℕ) → x < 64 → bblock x sb ≢ iblock 3 sb
apart x l = omega arith

iput-Frees_example :
    (t : Itable) × (d : Blocks) × (iput sb 0 table disk ≡ returns (t, d))
    × ((t 0).ref ≡ 0)
    × ((t 0).valid ≡ false)
    × ((j : ℕ) → j ≢ 0 → t j ≡ table j)
    × ((read_inode sb 3 d).type ≡ 0)
    × ((x : ℕ) → x < 64 → used sb d x ≡ (used sb disk x && not (belongs file disk x)))
iput-Frees_example = iput-Frees sb 0 table disk refl is_disk is_file fits apart

in_use : (i : ℕ) → 0 < (table i).ref → i ≡ 0
in_use i h = elim (ℕ_discrete i 0) [
  | yes z ↦ z
  | no ne ↦ absurd (omega (arith, h, ap (entry_if) (==_ne i 0 ne)))
]
  where
    entry_if : Bool → ℕ
    entry_if b = (if b then table 0 else table 1).ref

is_unique : IsUnique table
is_unique i j li lj ri rj = in_use i ri ∙ sym (in_use j rj.0)

iget-Gets_example : Gets 1 3 table (iget 1 3 table)
iget-Gets_example = iget-Gets 1 3 table is_unique
