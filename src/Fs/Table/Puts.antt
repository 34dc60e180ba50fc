-- ===== src/Fs/Table/Puts.antt =====
-- kernel/fs.c: `iput` of an inode without links frees it.
use csse_332_final.Base.{
  ℕ, ◌-◌, ◌%◌, ◌<◌, ◌≡◌, refl, ◌∙◌, sym, ap, ◌≢◌, true, false, not, ◌&&◌, arith, returns, update,
  update_self, update-ne,
}
use csse_332_final.Fs.{Superblock, Blocks, bpb, bblock, iblock}
use csse_332_final.Fs.Inode.{Inode, read_inode, iupdate}
use csse_332_final.Fs.Inode.Fields.{Fits}
use csse_332_final.Fs.Inode.RoundTrip.{iupdate_stores, iupdate-ne}
use csse_332_final.Fs.Bitmap.{is_free}
use csse_332_final.Fs.Bitmap.Marks.{used}
use csse_332_final.Fs.Content.Files.{IsDisk, IsFile}
use csse_332_final.Fs.Truncate.{itrunc}
use csse_332_final.Fs.Truncate.Freed.{belongs}
use csse_332_final.Fs.Truncate.Frees.{itrunc-Frees}
use csse_332_final.Fs.Table.{Entry, Itable, is_last, drop_ref, free_inode, iput}

-- Where another reference or a link is left, `iput` only counts one reference less.
pub iput_keeps :
    (sb : Superblock) (i : ℕ) (t : Itable) (d : Blocks)
    → is_last (t i) ≡ false
    → iput sb i t d ≡ returns (drop_ref i t, d)
unfolding iput
iput_keeps sb i t d h = rw h refl

module _ (sb : Superblock) (i : ℕ) (t : Itable) (d : Blocks) (last : is_last (t i) ≡ true)
    (k : IsDisk sb d) (v : IsFile sb (t i).inode d) (fits : Fits (t i).inode)
    (apart : (x : ℕ) → x < sb.size → bblock x sb ≢ iblock (t i).inum sb) where
  returns_freed :
      (ip : Inode) (d1 : Blocks)
      → itrunc sb (t i).inum (t i).inode d ≡ returns (ip, d1)
      → iput sb i t d
        ≡ returns (
          drop_ref i (update t i (record (t i) { valid = false; inode = record ip { type = 0 } })),
          iupdate sb (t i).inum (record ip { type = 0 }) d1,
        )
  unfolding iput free_inode
  returns_freed ip d1 e = rw (last, e) refl

  -- The last `iput` of an inode without links does not panic. It counts one reference less, the entry is not
  -- valid and no other entry is changed. The inode is free on the disk, and of the blocks of the disk just
  -- those of the file become free.
  pub iput-Frees :
      (t' : Itable) × (d' : Blocks) × (iput sb i t d ≡ returns (t', d'))
      × ((t' i).ref ≡ (t i).ref - 1)
      × ((t' i).valid ≡ false)
      × ((j : ℕ) → j ≢ i → t' j ≡ t j)
      × ((read_inode sb (t i).inum d').type ≡ 0)
      × ((x : ℕ) → x < sb.size → used sb d' x ≡ (used sb d x && not (belongs (t i).inode d x)))
  iput-Frees =
      let inum = (t i).inum in
      let (ip, d1, e, size, addrs, rest, bits, others) =
        itrunc-Frees sb (t i).inode d v inum k apart in
      let ip' = record ip { type = 0 } in
      let stored = iupdate_stores sb inum ip' d1 (record {
        type = omega arith;
        major = omega (arith, rest.0, fits.major);
        minor = omega (arith, rest.1, fits.minor);
        nlink = omega (arith, rest.2, fits.nlink);
        size = omega (arith, size);
        addrs = λ j l. omega (arith, addrs j l);
      }) in
      let t1 = update t i (record (t i) { valid = false; inode = ip' }) in
      let at = update_self t i (record (t i) { valid = false; inode = ip' }) refl in
      let at2 = update_self t1 i (record (t1 i) { ref = (t1 i).ref - 1 }) refl in
      (
        drop_ref i t1,
        iupdate sb inum ip' d1,
        returns_freed ip d1 e,
        ap (λ (x : Entry). x.ref) at2 ∙ ap (λ (x : Entry). x.ref - 1) at,
        ap (λ (x : Entry). x.valid) at2 ∙ ap (λ (x : Entry). x.valid) at,
        λ j ne. update-ne t1 i _ (λ q. ne (sym q)) ∙ update-ne t i _ (λ q. ne (sym q)),
        stored.0.type,
        λ x l.
            ap (λ a. not (is_free a (x % bpb)))
              (iupdate-ne sb inum ip' d1 (bblock x sb) (λ q. apart x l (sym q)))
            ∙ bits x l,
      )
