-- ===== src/Fs/Content/Grow.antt =====
-- kernel/fs.c: the three ways in which `bmap` adds an allocated block to a file.
use csse_332_final.Base.{
  ℕ, ◌+◌, ◌*◌, ◌<◌, ◌≡◌, refl, ◌∙◌, sym, ap, ◌≢◌, arith, lt→ltb, le→ltb, ==_ne, ==_eq, ℕ_discrete,
  update, update-ne, subst,
}
use csse_332_final.Fs.{Superblock, Blocks, ndirect, nindirect, maxfile}
use csse_332_final.Fs.Bytes.{get32, put32}
use csse_332_final.Fs.Inode.{Inode}
use csse_332_final.Fs.Bitmap.Alloc.{Allocates}
use csse_332_final.Fs.Content.{set_addr, block_of}
use csse_332_final.Fs.Content.Files.{
  IsDisk, IsFile, IsData-Allocates, new-IsData, disk-Allocates, file-Allocates, new-IsOther,
  block_of-Allocates,
}
use csse_332_final.Fs.Content.Attach.{
  IsFile-put, block_of-direct, block_of-indirect, IsFile-indirect, IsData-with_entry,
  disk-with_entry, block_of-with_entry,
}

-- A file after a change in which only its block `k` may be new, and then zero.
pub record Grows (sb : Superblock) (k : ℕ) (ip : Inode) (d : Blocks) (ip' : Inode) (d' : Blocks)
    : Type 0 where
  pub disk : IsDisk sb d'
  pub file : IsFile sb ip' d'
  pub size : ip'.size ≡ ip.size
  pub type : ip'.type ≡ ip.type
  pub others : (n : ℕ) → n < maxfile → k ≢ n → block_of ip' d' n ≡ block_of ip d n
  pub kept : block_of ip d k ≢ 0 → block_of ip' d' k ≡ block_of ip d k
  pub contents :
      (n : ℕ) → n < maxfile → block_of ip d n ≢ 0 → d' (block_of ip d n) ≡ d (block_of ip d n)
  pub zeroed : block_of ip d k ≡ 0 → block_of ip' d' k ≢ 0 → (i : ℕ) → d' (block_of ip' d' k) i ≡ 0

pub Grows-refl :
    (sb : Superblock) (k : ℕ) (ip : Inode) (d : Blocks)
    → IsDisk sb d
    → IsFile sb ip d
    → Grows sb k ip d ip d
Grows-refl sb k ip d v f = record {
  disk = v;
  file = f;
  size = refl;
  type = refl;
  others = λ n h ne. refl;
  kept = λ ne. refl;
  contents = λ n h ne. refl;
  zeroed = λ z ne. absurd (ne z);
}

pub Grows-trans :
    (sb : Superblock) (k : ℕ) (i1 : Inode) (d1 : Blocks) (i2 : Inode) (d2 : Blocks) (i3 : Inode)
    (d3 : Blocks)
    → k < maxfile
    → Grows sb k i1 d1 i2 d2
    → Grows sb k i2 d2 i3 d3
    → Grows sb k i1 d1 i3 d3
Grows-trans sb k i1 d1 i2 d2 i3 d3 l a b = record {
  disk = b.disk;
  file = b.file;
  size = b.size ∙ a.size;
  type = b.type ∙ a.type;
  others = λ n h ne. b.others n h ne ∙ a.others n h ne;
  kept = λ ne. let e = a.kept ne in b.kept (λ z. ne (sym e ∙ z)) ∙ e;
  contents = λ n h ne.
      let e = stays n h ne in
      ap d3 (sym e) ∙ b.contents n h (λ z. ne (sym e ∙ z)) ∙ ap d2 e ∙ a.contents n h ne;
  zeroed = λ z ne i. elim (ℕ_discrete (block_of i2 d2 k) 0) [
    | yes z2 ↦ b.zeroed z2 ne i
    | no n2 ↦
        let e = b.kept n2 in
        ap (λ c. d3 c i) e ∙ ap (λ f. f i) (b.contents k l n2) ∙ a.zeroed z n2 i
  ];
}
  where
    stays : (n : ℕ) → n < maxfile → block_of i1 d1 n ≢ 0 → block_of i2 d2 n ≡ block_of i1 d1 n
    stays n h ne = elim (ℕ_discrete k n) [
      | yes e ↦
          subst (λ m. block_of i2 d2 m ≡ block_of i1 d1 m) e
            (a.kept (λ z. ne (ap (block_of i1 d1) (sym e) ∙ z)))
      | no other ↦ a.others n h other
    ]

pub block_of-low : (ip : Inode) (d : Blocks) (k : ℕ) → k < ndirect → block_of ip d k ≡ ip.addrs k
unfolding block_of
block_of-low ip d k l = rw (lt→ltb k ndirect l)

pub block_of-high :
    (ip : Inode) (d : Blocks) (k : ℕ)
    → ip.addrs ndirect ≢ 0
    → block_of ip d (ndirect + k) ≡ get32 (d (ip.addrs ndirect)) (4 * k)
unfolding block_of
block_of-high ip d k ne =
    rw (le→ltb (ndirect + k) ndirect (omega arith), ==_ne (ip.addrs ndirect) 0 ne)
      (ap (λ j. get32 (d (ip.addrs ndirect)) (4 * j)) (omega arith))

pub block_of-none :
    (ip : Inode) (d : Blocks) (k : ℕ) → ip.addrs ndirect ≡ 0 → block_of ip d (ndirect + k) ≡ 0
unfolding block_of
block_of-none ip d k z =
    rw (le→ltb (ndirect + k) ndirect (omega arith), ==_eq (ip.addrs ndirect) 0 z)

-- A direct block that `balloc` gave.
pub direct-Grows :
    (sb : Superblock) (k b : ℕ) (ip : Inode) (d d' : Blocks)
    → k < ndirect
    → b ≢ 0
    → block_of ip d k ≡ 0
    → IsDisk sb d
    → IsFile sb ip d
    → Allocates sb d b d'
    → Grows sb k ip d (set_addr k b ip) d' × (block_of (set_addr k b ip) d' k ≡ b)
direct-Grows sb k b ip d d' l ne z v f a =
    let f' = file-Allocates sb d b d' v a ip f in
    let same = block_of-Allocates sb d b d' v a ip f in
    let at = λ (n : ℕ). block_of-direct ip d' k b n l in
    let here : block_of (set_addr k b ip) d' k ≡ b = at k ∙ rw (==_eq k k refl) in
    (
      record {
        disk = disk-Allocates sb d b d' v a;
        file =
            IsFile-put sb ip (set_addr k b ip) d' d' k b f' (new-IsOther sb d b d' v a ip f ne)
              (new-IsData sb d b d' v a) (λ c x. x) (rw (==_ne k ndirect (omega arith)))
              (λ n h. at n);
        size = refl;
        type = refl;
        others = λ n h o. at n ∙ rw (==_ne k n o) (same n);
        kept = λ o. absurd (o z);
        contents = λ n h o. (IsData-Allocates sb d b d' v a (block_of ip d n) (f.blocks n h o)).1;
        zeroed = λ y o i. ap (λ c. d' c i) here ∙ a.zeroed i;
      },
      here,
    )

-- The indirect block that `balloc` gave: no block of the file changes.
pub indirect-Grows :
    (sb : Superblock) (k b : ℕ) (ip : Inode) (d d' : Blocks)
    → b ≢ 0
    → ip.addrs ndirect ≡ 0
    → IsDisk sb d
    → IsFile sb ip d
    → Allocates sb d b d'
    → Grows sb k ip d (set_addr ndirect b ip) d'
indirect-Grows sb k b ip d d' ne z v f a =
    let f' = file-Allocates sb d b d' v a ip f in
    let same =
      λ (n : ℕ). block_of-indirect ip d' b n z a.zeroed ∙ block_of-Allocates sb d b d' v a ip f n in
    record {
      disk = disk-Allocates sb d b d' v a;
      file =
          IsFile-indirect sb ip d' b f' (new-IsOther sb d b d' v a ip f ne)
            (new-IsData sb d b d' v a) z a.zeroed;
      size = refl;
      type = refl;
      others = λ n h o. same n;
      kept = λ o. same k;
      contents = λ n h o. (IsData-Allocates sb d b d' v a (block_of ip d n) (f.blocks n h o)).1;
      zeroed = λ y o i. absurd (o (same k ∙ y));
    }

abbrev pub entered : ℕ → ℕ → Inode → Blocks → Blocks
entered k b ip d = update d (ip.addrs ndirect) (put32 (4 * k) b (d (ip.addrs ndirect)))

-- An entry of the indirect block for a block that `balloc` gave.
pub entry-Grows :
    (sb : Superblock) (k b : ℕ) (ip : Inode) (d d' : Blocks)
    → k < nindirect
    → b ≢ 0
    → ip.addrs ndirect ≢ 0
    → block_of ip d (ndirect + k) ≡ 0
    → IsDisk sb d
    → IsFile sb ip d
    → Allocates sb d b d'
    → Grows sb (ndirect + k) ip d ip (entered k b ip d')
      × (block_of ip (entered k b ip d') (ndirect + k) ≡ b)
entry-Grows sb k b ip d d' l ne i z v f a =
    let v' = disk-Allocates sb d b d' v a in
    let f' = file-Allocates sb d b d' v a ip f in
    let o = new-IsOther sb d b d' v a ip f ne in
    let at =
      λ (n : ℕ). block_of-with_entry sb ip d' k b f' i n (omega (arith, a.in_range, v.small)) in
    let here : block_of ip (entered k b ip d') (ndirect + k) ≡ b =
      at (ndirect + k) ∙ rw (==_eq (ndirect + k) (ndirect + k) refl) in
    let keep = IsData-with_entry sb ip d' k b f' i in
    let new = put32 (4 * k) b (d' (ip.addrs ndirect)) in
    (
      record {
        disk = disk-with_entry sb ip d' k b f' i v';
        file =
            IsFile-put sb ip ip d' (entered k b ip d') (ndirect + k) b f' o
              (keep b (new-IsData sb d b d' v a)) keep refl (λ n h. at n);
        size = refl;
        type = refl;
        others = λ n h other.
            at n ∙ rw (==_ne (ndirect + k) n other) (block_of-Allocates sb d b d' v a ip f n);
        kept = λ y. absurd (y z);
        contents = λ n h y.
            update-ne d' (ip.addrs ndirect) new (λ e. f.apart n h y (sym e))
            ∙ (IsData-Allocates sb d b d' v a (block_of ip d n) (f.blocks n h y)).1;
        zeroed = λ y q j.
            ap (λ c. entered k b ip d' c j) here
            ∙ ap (λ x. x j) (update-ne d' (ip.addrs ndirect) new o.no_indirect)
            ∙ a.zeroed j;
      },
      here,
    )
