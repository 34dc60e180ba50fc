-- ===== src/Fs/Content/Files.antt =====
-- kernel/fs.c: the blocks of a file, as the disk holds them.
use csse_332_final.Base.{
  ℕ, ◌-◌, ◌*◌, ◌^◌, ◌≤◌, ◌<◌, ◌≡◌, refl, ◌∙◌, sym, ap, ◌≢◌, inl, inr, true, ltb, ==_ne, ==_eq,
  Bool-cases, ℕ_discrete, subst,
}
use csse_332_final.Fs.{Superblock, Blocks, ndirect, maxfile, bblock, iblock}
use csse_332_final.Fs.Bytes.{get32}
use csse_332_final.Fs.Inode.{Inode}
use csse_332_final.Fs.Content.{block_of}
use csse_332_final.Fs.Bitmap.Marks.{used}
use csse_332_final.Fs.Bitmap.Alloc.{IsMap, Allocates}

-- A block of the disk that is in use, and holds neither the map nor inodes.
pub record IsData (sb : Superblock) (d : Blocks) (b : ℕ) : Type 0 where
  pub in_range : b < sb.size
  pub in_use : used sb d b ≡ true
  pub no_map : (x : ℕ) → x < sb.size → bblock x sb ≢ b
  pub no_inode : (i : ℕ) → i < sb.ninodes → iblock i sb ≢ b

-- The blocks with inodes are in use.
abbrev pub InodesUsed : Superblock → Blocks → Type 0
InodesUsed sb d =
    (i : ℕ) → i < sb.ninodes → (iblock i sb < sb.size) × (used sb d (iblock i sb) ≡ true)

pub record IsDisk (sb : Superblock) (d : Blocks) : Type 0 where
  pub small : sb.size ≤ 2 ^ 32
  pub map : IsMap sb d
  pub inodes : InodesUsed sb d

-- A block that is no block of the file.
pub record IsOther (ip : Inode) (d : Blocks) (b : ℕ) : Type 0 where
  pub no_block : (n : ℕ) → n < maxfile → block_of ip d n ≢ b
  pub no_indirect : ip.addrs ndirect ≢ b

pub record IsFile (sb : Superblock) (ip : Inode) (d : Blocks) : Type 0 where
  pub blocks : (n : ℕ) → n < maxfile → block_of ip d n ≢ 0 → IsData sb d (block_of ip d n)
  pub indirect : ip.addrs ndirect ≢ 0 → IsData sb d (ip.addrs ndirect)
  pub distinct :
      (n m : ℕ)
      → n < maxfile
      → m < maxfile
      → block_of ip d n ≢ 0
      → block_of ip d n ≡ block_of ip d m
      → n ≡ m
  pub apart : (n : ℕ) → n < maxfile → block_of ip d n ≢ 0 → block_of ip d n ≢ ip.addrs ndirect

-- Where the indirect block, if any, is the same, so are the blocks.
pub block_of-same :
    (ip : Inode) (d d' : Blocks) (n : ℕ)
    → (ip.addrs ndirect ≢ 0 → d' (ip.addrs ndirect) ≡ d (ip.addrs ndirect))
    → block_of ip d' n ≡ block_of ip d n
unfolding block_of
block_of-same ip d d' n h = elim (Bool-cases (ltb n ndirect)) [
  | inl e ↦ rw e
  | inr e ↦ elim (ℕ_discrete (ip.addrs ndirect) 0) [
    | yes z ↦ rw (e, ==_eq (ip.addrs ndirect) 0 z)
    | no ne ↦ rw (e, ==_ne (ip.addrs ndirect) 0 ne) (ap (λ a. get32 a (4 * (n - ndirect))) (h ne))
  ]
]

-- A change that keeps the blocks of the file where they are, and in use, keeps the file.
pub IsFile-same :
    (sb : Superblock) (ip : Inode) (d d' : Blocks)
    → IsFile sb ip d
    → ((b : ℕ) → IsData sb d b → IsData sb d' b)
    → ((n : ℕ) → block_of ip d' n ≡ block_of ip d n)
    → IsFile sb ip d'
IsFile-same sb ip d d' f keep same = record {
  blocks = λ n h ne.
      subst (IsData sb d') (sym (same n))
        (keep (block_of ip d n) (f.blocks n h (λ z. ne (same n ∙ z))));
  indirect = λ ne. keep (ip.addrs ndirect) (f.indirect ne);
  distinct = λ n m h l ne e. f.distinct n m h l (λ z. ne (same n ∙ z)) (sym (same n) ∙ e ∙ same m);
  apart = λ n h ne e. f.apart n h (λ z. ne (same n ∙ z)) (sym (same n) ∙ e);
}

module _ (sb : Superblock) (d : Blocks) (b : ℕ) (d' : Blocks) (k : IsDisk sb d)
    (a : Allocates sb d b d') where
  -- Data blocks stay as they are where a block is allocated.
  pub IsData-Allocates : (c : ℕ) → IsData sb d c → (c ≢ b) × (d' c ≡ d c) × IsData sb d' c
  IsData-Allocates c v =
      let ne : c ≢ b = λ e. cc (sym v.in_use ∙ ap (used sb d) e ∙ a.was_free) in
      (
        ne,
        a.others c ne (λ e. v.no_map b a.in_range (sym e)),
        record {
          in_range = v.in_range;
          in_use = a.marked c v.in_range ∙ rw (==_ne b c (λ e. ne (sym e))) v.in_use;
          no_map = v.no_map;
          no_inode = v.no_inode;
        },
      )

  -- The allocated block is a data block.
  pub new-IsData : IsData sb d' b
  new-IsData = record {
    in_range = a.in_range;
    in_use = a.marked b a.in_range ∙ rw (==_eq b b refl);
    no_map = λ x h e. cc (sym (k.map.own x h).1 ∙ ap (used sb d) e ∙ a.was_free);
    no_inode = λ i h e. cc (sym (k.inodes i h).1 ∙ ap (used sb d) e ∙ a.was_free);
  }

  pub disk-Allocates : IsDisk sb d'
  disk-Allocates = record {
    small = k.small;
    map = a.valid;
    inodes = λ i h.
        let o = k.inodes i h in
        (
          o.0,
          a.marked (iblock i sb) o.0
              ∙ rw (==_ne b (iblock i sb) (λ e. cc (sym o.1 ∙ ap (used sb d) (sym e) ∙ a.was_free)))
                  o.1,
        );
  }

  module _ (ip : Inode) (f : IsFile sb ip d) where
    pub indirect-Allocates : ip.addrs ndirect ≢ 0 → d' (ip.addrs ndirect) ≡ d (ip.addrs ndirect)
    indirect-Allocates ne = (IsData-Allocates (ip.addrs ndirect) (f.indirect ne)).1

    pub block_of-Allocates : (n : ℕ) → block_of ip d' n ≡ block_of ip d n
    block_of-Allocates n = block_of-same ip d d' n indirect-Allocates

    pub file-Allocates : IsFile sb ip d'
    file-Allocates = IsFile-same sb ip d d' f (λ c v. (IsData-Allocates c v).2) block_of-Allocates

    pub new-IsOther : b ≢ 0 → IsOther ip d' b
    new-IsOther nz = record {
      no_block = λ n h e.
          let e2 = sym (block_of-Allocates n) ∙ e in
          (IsData-Allocates (block_of ip d n) (f.blocks n h (λ z. nz (sym e2 ∙ z)))).0 e2;
      no_indirect =
          λ e. (IsData-Allocates (ip.addrs ndirect) (f.indirect (λ z. nz (sym e ∙ z)))).0 e;
    }
