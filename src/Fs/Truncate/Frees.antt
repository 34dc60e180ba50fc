-- ===== src/Fs/Truncate/Frees.antt =====
-- kernel/fs.c: `itrunc` frees the blocks of the file, and no others.
use csse_332_final.Base.{
  ℕ, zero, suc, ◌+◌, ◌*◌, ◌%◌, ◌≤◌, ◌<◌, ◌≡◌, refl, ◌∙◌, sym, ap, ◌≢◌, not, ◌&&◌, arith, lt→ltb,
  le→ltb, ==_ne, ==_eq, returns, ℕ_discrete, subst, update_self, update-ne,
}
use csse_332_final.Fs.{Superblock, Blocks, bpb, ndirect, nindirect, maxfile, bblock, iblock}
use csse_332_final.Fs.Bytes.{get32}
use csse_332_final.Fs.Inode.{Inode, iupdate}
use csse_332_final.Fs.Inode.RoundTrip.{iupdate-ne}
use csse_332_final.Fs.Bitmap.{is_free, bfree}
use csse_332_final.Fs.Bitmap.Marks.{used}
use csse_332_final.Fs.Content.{block_of, set_addr}
use csse_332_final.Fs.Content.Files.{IsDisk, IsFile}
use csse_332_final.Fs.Truncate.{free_direct, free_entries, free_indirect, itrunc}
use csse_332_final.Fs.Truncate.Freed.{
  among, among-indirect, belongs, Freed-indirect, Freed-direct, Freed, Freed-none, one_more,
  none_more, next_free,
}

module _ (sb : Superblock) (ip : Inode) (d : Blocks) (v : IsFile sb ip d) where
  direct_block : (i : ℕ) → i < ndirect → block_of ip d i ≡ ip.addrs i
  unfolding block_of
  direct_block i l = rw (lt→ltb i ndirect l)

  no_entries : (n : ℕ) → ip.addrs ndirect ≡ 0 → ndirect ≤ n → block_of ip d n ≡ 0
  unfolding block_of
  no_entries n z l = rw (le→ltb n ndirect l, ==_eq (ip.addrs ndirect) 0 z)

  entry_block :
      (j : ℕ) (d' : Blocks)
      → ip.addrs ndirect ≢ 0
      → d' (ip.addrs ndirect) ≡ d (ip.addrs ndirect)
      → block_of ip d (ndirect + j) ≡ get32 (d' (ip.addrs ndirect)) (4 * j)
  unfolding block_of
  entry_block j d' ne e =
      rw (le→ltb (ndirect + j) ndirect (omega arith), ==_ne (ip.addrs ndirect) 0 ne)
        (ap (λ i. get32 (d (ip.addrs ndirect)) (4 * i)) (omega arith)
          ∙ ap (λ a. get32 a (4 * j)) (sym e))

  -- The addresses before `i` are 0, the others as they were.
  record Cleared (i : ℕ) (ip' : Inode) : Type 0 where
    before : (j : ℕ) → j < i → ip'.addrs j ≡ 0
    behind : (j : ℕ) → i ≤ j → ip'.addrs j ≡ ip.addrs j
    rest : (ip'.major ≡ ip.major) × (ip'.minor ≡ ip.minor) × (ip'.nlink ≡ ip.nlink)

  Cleared-next : (i : ℕ) (ip' : Inode) → ip'.addrs i ≡ 0 → Cleared i ip' → Cleared (i + 1) ip'
  Cleared-next i ip' z c = record {
    before = λ j l. elim (ℕ_discrete i j) [
      | yes e ↦ ap ip'.addrs (sym e) ∙ z
      | no o ↦ c.before j (omega arith)
    ];
    behind = λ j l. c.behind j (omega arith);
    rest = c.rest;
  }

  Cleared-set : (i : ℕ) (ip' : Inode) → Cleared i ip' → Cleared (i + 1) (set_addr i 0 ip')
  Cleared-set i ip' c = record {
    before = λ j l. elim (ℕ_discrete i j) [
      | yes e ↦ update_self ip'.addrs i 0 e
      | no o ↦ update-ne ip'.addrs i 0 o ∙ c.before j (omega arith)
    ];
    behind = λ j l. update-ne ip'.addrs i 0 (omega arith) ∙ c.behind j (omega arith);
    rest = c.rest;
  }

  free_direct-Frees :
      (k i : ℕ) (ip' : Inode) (d' : Blocks)
      → i + k ≡ ndirect
      → Cleared i ip'
      → Freed sb d (among ip d i) d'
      → (ip2 : Inode) × (d2 : Blocks) × (free_direct sb k i ip' d' ≡ returns (ip2, d2))
        × Cleared ndirect ip2
        × Freed sb d (among ip d ndirect) d2
  unfolding free_direct
  free_direct-Frees zero i ip' d' h c f =
      let e : i ≡ ndirect = omega (arith, h) in
      (ip', d', refl, subst (λ n. Cleared n ip') e c, subst (λ n. Freed sb d (among ip d n) d') e f)
  free_direct-Frees (suc k) i ip' d' h c f =
      let at = direct_block i (omega (arith, h)) ∙ sym (c.behind i (omega arith)) in
      let next : suc i ≡ i + 1 = omega arith in
      elim (ℕ_discrete (ip'.addrs i) 0) [
        | yes z ↦
            let g =
              subst (λ n. Freed sb d (among ip d n) d') next
                (none_more sb ip d v i d' (at ∙ z) f) in
            rw (==_eq (ip'.addrs i) 0 z, free_direct)
              (free_direct-Frees k (i + 1) ip' d' (omega (arith, h)) (Cleared-next i ip' z c) g)
        | no ne ↦
            let (d2, e, f2) =
              next_free sb ip d v i d' (omega (arith, h)) (λ q. ne (sym at ∙ q)) f in
            let g = subst (λ n. Freed sb d (among ip d n) d2) next f2 in
            rw (==_ne (ip'.addrs i) 0 ne, free_direct, ap (λ b. bfree sb b d') (sym at) ∙ e)
              (free_direct-Frees k (i + 1) (set_addr i 0 ip') d2 (omega (arith, h))
                (Cleared-set i ip' c) g)
      ]

  free_entries-Frees :
      (k j : ℕ) (d' : Blocks)
      → ip.addrs ndirect ≢ 0
      → j + k ≡ nindirect
      → Freed sb d (among ip d (ndirect + j)) d'
      → (d2 : Blocks) × (free_entries sb k j (ip.addrs ndirect) d' ≡ returns d2)
        × Freed sb d (among ip d maxfile) d2
  unfolding free_entries
  free_entries-Frees zero j d' ne h f =
      let e : ndirect + j ≡ maxfile = omega (arith, h) in
      (d', refl, subst (λ n. Freed sb d (among ip d n) d') e f)
  free_entries-Frees (suc k) j d' ne h f =
      let a = ip.addrs ndirect in
      let at = entry_block j d' ne (f.others a (v.indirect ne).no_map) in
      let next : suc (ndirect + j) ≡ ndirect + (j + 1) = omega arith in
      elim (ℕ_discrete (get32 (d' a) (4 * j)) 0) [
        | yes z ↦
            let g =
              subst (λ n. Freed sb d (among ip d n) d') next
                (none_more sb ip d v (ndirect + j) d' (at ∙ z) f) in
            rw (==_eq (get32 (d' a) (4 * j)) 0 z, free_entries)
              (free_entries-Frees k (j + 1) d' ne (omega (arith, h)) g)
        | no full ↦
            let (d2, e, f2) =
              next_free sb ip d v (ndirect + j) d' (omega (arith, h)) (λ q. full (sym at ∙ q)) f in
            let g = subst (λ n. Freed sb d (among ip d n) d2) next f2 in
            rw
              (
                ==_ne (get32 (d' a) (4 * j)) 0 full,
                free_entries,
                ap (λ b. bfree sb b d') (sym at) ∙ e,
              )
              (free_entries-Frees k (j + 1) d2 ne (omega (arith, h)) g)
      ]

  no_entries-Frees :
      (k n : ℕ) (d' : Blocks)
      → ip.addrs ndirect ≡ 0
      → ndirect ≤ n
      → n + k ≡ maxfile
      → Freed sb d (among ip d n) d'
      → Freed sb d (among ip d maxfile) d'
  no_entries-Frees zero n d' z l h f =
      let e : n ≡ maxfile = omega (arith, h) in subst (λ m. Freed sb d (among ip d m) d') e f
  no_entries-Frees (suc k) n d' z l h f =
      no_entries-Frees k (suc n) d' z (omega arith) (omega (arith, h))
        (none_more sb ip d v n d' (no_entries n z l) f)

  free_indirect_returns :
      (ip' : Inode) (d' d1 d2 : Blocks)
      → ip'.addrs ndirect ≡ ip.addrs ndirect
      → ip.addrs ndirect ≢ 0
      → free_entries sb nindirect 0 (ip.addrs ndirect) d' ≡ returns d1
      → bfree sb (ip.addrs ndirect) d1 ≡ returns d2
      → free_indirect sb ip' d' ≡ returns (set_addr ndirect 0 ip', d2)
  unfolding free_indirect
  free_indirect_returns ip' d' d1 d2 at ne e e2 = rw (at, ==_ne (ip.addrs ndirect) 0 ne, e, e2) refl

  free_indirect-Frees :
      (ip' : Inode) (d' : Blocks)
      → Cleared ndirect ip'
      → Freed sb d (among ip d ndirect) d'
      → (ip2 : Inode) × (d2 : Blocks) × (free_indirect sb ip' d' ≡ returns (ip2, d2))
        × Cleared (ndirect + 1) ip2
        × Freed sb d (belongs ip d) d2
  unfolding free_indirect
  free_indirect-Frees ip' d' c f =
      let at = c.behind ndirect (omega arith) in
      elim (ℕ_discrete (ip.addrs ndirect) 0) [
        | yes z ↦ rw (==_eq (ip'.addrs ndirect) 0 (at ∙ z)) (
          ip',
          d',
          refl,
          Cleared-next ndirect ip' (at ∙ z) c,
          Freed-direct sb ip d v d' z
              (no_entries-Frees nindirect ndirect d' z (omega arith) refl f),
        )
        | no ne ↦
            let (d1, e, f1) = free_entries-Frees nindirect 0 d' ne (omega arith) f in
            let (d2, e2, f2) =
              one_more sb d (among ip d maxfile) d1 (ip.addrs ndirect) f1 (v.indirect ne)
                (among-indirect sb ip d v maxfile (omega arith)) in
            (
              set_addr ndirect 0 ip',
              d2,
              free_indirect_returns ip' d' d1 d2 at ne e e2,
              Cleared-set ndirect ip' c,
              Freed-indirect sb ip d v d2 ne f2,
            )
      ]

  -- `itrunc` does not panic. The file then has no block and no byte, and its numbers of a device and of
  -- links are kept. Each block that it had is free, and
  -- every other block is in use just as it was. But for the block with the inode, no block is changed
  -- that is none of the map.
  pub itrunc-Frees :
      (inum : ℕ)
      → IsDisk sb d
      → ((x : ℕ) → x < sb.size → bblock x sb ≢ iblock inum sb)
      → (ip' : Inode) × (d' : Blocks) × (itrunc sb inum ip d ≡ returns (ip', d'))
        × (ip'.size ≡ 0)
        × ((i : ℕ) → i ≤ ndirect → ip'.addrs i ≡ 0)
        × ((ip'.major ≡ ip.major) × (ip'.minor ≡ ip.minor) × (ip'.nlink ≡ ip.nlink))
        × ((x : ℕ) → x < sb.size → used sb d' x ≡ (used sb d x && not (belongs ip d x)))
        × ((c : ℕ) → c ≢ iblock inum sb → ((x : ℕ) → x < sb.size → bblock x sb ≢ c) → d' c ≡ d c)
  unfolding itrunc
  itrunc-Frees inum k apart =
      let (ip1, d1, e1, c1, f1) =
        free_direct-Frees ndirect 0 ip d refl
          (record {
            before = λ j l. absurd (omega arith);
            behind = λ j l. refl;
            rest = (refl, refl, refl);
          })
          (Freed-none sb ip d k.map.bytes) in
      let (ip2, d2, e2, c2, f2) = free_indirect-Frees ip1 d1 c1 f1 in
      let ip3 = record ip2 { size = 0 } in
      (
        ip3,
        iupdate sb inum ip3 d2,
        rw (e1, e2) refl,
        refl,
        λ i l. c2.before i (omega arith),
        c2.rest,
        λ x l.
            ap (λ a. not (is_free a (x % bpb)))
              (iupdate-ne sb inum ip3 d2 (bblock x sb) (λ e. apart x l (sym e)))
            ∙ f2.bits x,
        λ c ne out. iupdate-ne sb inum ip3 d2 c (λ e. ne (sym e)) ∙ f2.others c out,
      )
