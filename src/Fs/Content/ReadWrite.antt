-- ===== src/Fs/Content/ReadWrite.antt =====
-- kernel/fs.c: what `writei` has written is what `readi` reads.
use csse_332_final.Base.{
  ℕ, zero, suc, ◌+◌, ◌-◌, ◌*◌, ◌/◌, ◌%◌, ◌≤◌, ◌<◌, min, ◌≡◌, refl, ◌∙◌, sym, ap, ap₂, ◌≢◌, ◌⊎◌, inl,
  inr, List, [], ◌∷◌, arith, ltb, le→ltb, if◌then◌else◌, Bool-cases, some, returns,
}
use csse_332_final.Base.Words.{add32}
use csse_332_final.Fs.{Superblock, Blocks, bsize, ndirect, maxfile}
use csse_332_final.Fs.Inode.{Inode, iupdate}
use csse_332_final.Fs.Inode.RoundTrip.{iupdate-ne}
use csse_332_final.Fs.Content.{LogUse, block_of, writei_from, writei, readi}
use csse_332_final.Fs.Content.Files.{IsDisk, IsFile, block_of-same}
use csse_332_final.Fs.Content.Write.{byte}
use csse_332_final.Fs.Content.Writei.{Ended, HasRoom, Loops, writei_from-Loops}
use csse_332_final.Fs.Content.Read.{Present, bytes, readi_lem}

-- The bytes of the source from `i` on.
pub source : (ℕ → ℕ) → ℕ → ℕ → List ℕ
source src i zero = []
source src i (suc n) = src i ∷ source src (i + 1) n

bytes-source :
    (src : ℕ → ℕ) (ip : Inode) (d : Blocks) (off i n : ℕ)
    → ((p : ℕ) → off + i ≤ p → p < off + i + n → byte ip d p ≡ src (p - off))
    → bytes ip d (off + i) n ≡ source src i n
unfolding source
bytes-source src ip d off i zero h = refl
bytes-source src ip d off i (suc n) h =
    ap₂ ◌∷◌ (h (off + i) (omega arith) (omega arith) ∙ ap src (omega arith)) (
      ap (λ p. bytes ip d p n) (omega arith)
      ∙ bytes-source src ip d off (i + 1) n (λ p x y. h p (omega arith) (omega arith)))

-- What a call of `writei` leaves: a count, and the inode and the blocks.
pub record Written (sb : Superblock) (copied : ℕ → ℕ → ℕ) (src : ℕ → ℕ) (off n : ℕ) (ip : Inode)
    (d : Blocks) (tot : ℕ) (ip' : Inode) (d' : Blocks) : Type 0 where
  pub upto : tot ≤ n
  pub type : ip'.type ≡ ip.type
  pub size : ip'.size ≡ (if ltb ip.size (off + tot) then off + tot else ip.size)
  pub there : Present ip' d' off tot
  pub stays : (m : ℕ) → m < maxfile → block_of ip d m ≢ 0 → block_of ip' d' m ≡ block_of ip d m
  pub written : (p : ℕ) → off ≤ p → p < off + tot → byte ip' d' p ≡ src (p - off)
  pub unwritten :
      (p : ℕ)
      → p < maxfile * bsize
      → (p < off) ⊎ (off + n ≤ p)
      → block_of ip d (p / bsize) ≢ 0
      → byte ip' d' p ≡ byte ip d p

module _ (sb : Superblock) (copied : ℕ → ℕ → ℕ) (lg : LogUse) (src : ℕ → ℕ) (inum off n : ℕ)
    (ip : Inode) (d : Blocks) (room : HasRoom lg n) (s : (j : ℕ) → src j < 256)
    (i : inum < sb.ninodes) (l : off ≤ ip.size) (b : off + n ≤ maxfile * bsize) (v : IsDisk sb d)
    (f : IsFile sb ip d) where
  -- The inode is written to a block that holds no data of the file.
  kept :
      (ip1 : Inode) (d1 : Blocks) (size m : ℕ)
      → IsFile sb ip1 d1
      → block_of (record ip1 { size = size }) (iupdate sb inum (record ip1 { size = size }) d1) m
        ≡ block_of ip1 d1 m
  unfolding block_of
  kept ip1 d1 size m g =
      block_of-same ip1 d1 (iupdate sb inum (record ip1 { size = size }) d1) m (λ ne.
        iupdate-ne sb inum (record ip1 { size = size }) d1 (ip1.addrs ndirect)
          ((g.indirect ne).no_inode inum i))

  kept_byte :
      (ip1 : Inode) (d1 : Blocks) (size p : ℕ)
      → IsFile sb ip1 d1
      → p / bsize < maxfile
      → block_of ip1 d1 (p / bsize) ≢ 0
      → byte (record ip1 { size = size }) (iupdate sb inum (record ip1 { size = size }) d1) p
        ≡ byte ip1 d1 p
  kept_byte ip1 d1 size p g h ne =
      ap (λ c. iupdate sb inum (record ip1 { size = size }) d1 c (p % bsize))
        (kept ip1 d1 size (p / bsize) g)
      ∙ ap (λ a. a (p % bsize))
          (iupdate-ne sb inum (record ip1 { size = size }) d1 (block_of ip1 d1 (p / bsize))
            ((g.blocks (p / bsize) h ne).no_inode inum i))

  abbrev grown_size : ℕ → ℕ → ℕ
  grown_size size end = if ltb size end then end else size

  finish :
      (tot end : ℕ) (ip1 : Inode) (d1 : Blocks)
      → Loops sb copied src n 0 off ip d (tot, end, ip1, d1)
      → Written sb copied src off n ip d tot
          (record ip1 { size = grown_size ip1.size end })
          (iupdate sb inum (record ip1 { size = grown_size ip1.size end }) d1)
  finish tot end ip1 d1 r =
      let size = grown_size ip1.size end in
      let w = r.wrote in
      let g = w.file in
      record {
        upto = r.upto;
        type = w.type;
        size = ap₂ grown_size w.size (r.offset ∙ omega arith);
        there =
            λ p x y z. (w.written p x (omega arith)).0 (sym (kept ip1 d1 size (p / bsize) g) ∙ z);
        stays = λ m h q. kept ip1 d1 size m g ∙ w.stays m h q;
        written = λ p x y.
            let q = w.written p x (omega arith) in
            kept_byte ip1 d1 size p g (omega (arith, r.upto)) q.0 ∙ q.1 ∙ ap src (omega arith);
        unwritten = λ p x o q.
            let e = w.stays (p / bsize) (omega arith) q in
            kept_byte ip1 d1 size p g (omega arith) (λ z. q (sym e ∙ z))
            ∙ w.unwritten p x (outside p o) q;
      }
    where
      outside : (p : ℕ) → (p < off) ⊎ (off + n ≤ p) → (p < off) ⊎ (off + (n - 0) ≤ p)
      outside p (inl x) = inl x
      outside p (inr x) = inr (omega arith)

  grow :
      (ip1 : Inode) (end : ℕ)
      → (if ltb ip1.size end then record ip1 { size = end } else ip1)
        ≡ record ip1 { size = grown_size ip1.size end }
  grow ip1 end = elim (Bool-cases (ltb ip1.size end)) [ inl h ↦ rw h | inr h ↦ rw h ]

  answer :
      (tot end : ℕ) (ip1 : Inode) (d1 : Blocks)
      → tot ≤ n
      → writei_from sb copied lg src n n 0 off ip d ≡ returns (tot, end, ip1, d1)
      → writei sb copied lg inum src off n ip d
        ≡ returns (
          some tot,
          record ip1 { size = grown_size ip1.size end },
          iupdate sb inum (record ip1 { size = grown_size ip1.size end }) d1,
        )
  unfolding writei
  answer tot end ip1 d1 h e =
      rw
        (
          le→ltb ip.size off l,
          le→ltb (add32 off n) off (omega arith),
          le→ltb (maxfile * bsize) (add32 off n) (omega arith),
          e,
          room tot h,
        )
        (ap (λ ip2. returns (some tot, ip2, iupdate sb inum ip2 d1)) (grow ip1 end))

  -- A write from within a file up to at most the largest size, with room in the log for what it logs,
  -- ends without a panic. The file has the bytes that it counts, and no other byte but those that it was to
  -- write is changed. It counts fewer than were asked for only where every block of the disk is in use or a
  -- copy failed.
  pub writei-Written :
      (tot : ℕ) × (ip' : Inode) × (d' : Blocks) × (d1 : Blocks) × (writei sb copied lg inum src off
          n ip d
        ≡ returns (some tot, ip', d'))
      × Written sb copied src off n ip d tot ip' d'
      × (d' ≡ iupdate sb inum ip' d1)
      × Ended sb copied n tot d1
  writei-Written =
      let ((tot, end, ip1, d1), e, r) =
        writei_from-Loops sb copied lg src s n n 0 off ip d room (omega arith) (omega arith)
          (omega arith) v f in
      let ip2 = record ip1 { size = grown_size ip1.size end } in
      (
        tot,
        ip2,
        iupdate sb inum ip2 d1,
        d1,
        answer tot end ip1 d1 r.upto e,
        finish tot end ip1 d1 r,
        refl,
        r.ended,
      )

  -- A write from within a file up to at most the largest size, with room in the log for what it logs,
  -- ends, and a read of as many bytes as it counted, from the same offset and without a failing copy,
  -- returns the bytes of the source and changes nothing. The write counts fewer than were asked for only
  -- where every block of the disk is in use or a copy failed.
  pub readi-writei :
      (copied' : ℕ → ℕ → ℕ)
      → ((tot m : ℕ) → m ≤ copied' tot m)
      → ip.size ≤ maxfile * bsize
      → (tot : ℕ) × (ip' : Inode) × (d' : Blocks) × (d1 : Blocks) × (writei sb copied lg inum src
            off n ip d
          ≡ returns (some tot, ip', d'))
        × (readi sb copied' off tot ip' d' ≡ returns (some (source src 0 tot), ip', d'))
        × (d' ≡ iupdate sb inum ip' d1)
        × Ended sb copied n tot d1
  readi-writei copied' c size =
      let (tot, ip', d', d1, e, w, e2, why) = writei-Written in
      let short : min tot (ip'.size - off) ≡ tot = ground (arith, w.size, w.upto, l) in
      (
        tot,
        ip',
        d',
        d1,
        e,
        readi_lem sb copied' c off tot ip' d' (ground (arith, w.size))
              (ground (arith, w.size, w.upto, b)) (omega (arith, w.upto, b))
              (λ p x y. w.there p x (omega (arith, short)))
            ∙ ap (λ xs. returns (some xs, ip', d'))
                (ap (bytes ip' d' off) short
                  ∙ ap (λ p. bytes ip' d' p tot) (omega arith)
                  ∙ bytes-source src ip' d' off 0 tot
                      (λ p x y. w.written p (omega arith) (omega arith))),
        e2,
        why,
      )
