-- ===== src/Fs/Content/Bmap.antt =====
-- kernel/fs.c: `bmap` finds the block of a file, and adds a zeroed block where there is none.
use csse_332_final.Base.{
  ℕ, ◌+◌, ◌-◌, ◌*◌, ◌<◌, ◌≡◌, refl, ◌∙◌, sym, ap, ◌≢◌, inl, inr, true, arith, lt→ltb, le→ltb, ◌==◌,
  ==_ne, ==_eq, if◌then◌else◌, ℕ_discrete, dec_lt, subst, returns,
}
use csse_332_final.Fs.{Superblock, Blocks, ndirect, nindirect, maxfile}
use csse_332_final.Fs.Bytes.{get32}
use csse_332_final.Fs.Inode.{Inode}
use csse_332_final.Fs.Bitmap.{balloc}
use csse_332_final.Fs.Bitmap.Marks.{used}
use csse_332_final.Fs.Bitmap.Alloc.{Answers, balloc-Answers}
use csse_332_final.Fs.Content.{set_addr, block_of, bmap_entry, bmap_addr, bmap}
use csse_332_final.Fs.Content.Files.{IsDisk, IsFile}
use csse_332_final.Fs.Content.Grow.{
  Grows, Grows-refl, Grows-trans, direct-Grows, indirect-Grows, entry-Grows, entered, block_of-low,
  block_of-high, block_of-none,
}

-- The answer of `bmap` for block `k`: 0 only where the disk is full.
abbrev pub Maps : Superblock → ℕ → Inode → Blocks → ℕ × Inode × Blocks → Type 0
Maps sb k ip d (a, ip', d') =
    Grows sb k ip d ip' d'
    × (block_of ip' d' k ≡ a)
    × (a ≡ 0 → (x : ℕ) → x < sb.size → used sb d' x ≡ true)

-- `balloc` failed: nothing is changed and every block is in use.
stays_full :
    (sb : Superblock) (k : ℕ) (ip : Inode) (d d' : Blocks)
    → block_of ip d k ≡ 0
    → IsDisk sb d
    → IsFile sb ip d
    → d' ≡ d
    → ((x : ℕ) → x < sb.size → used sb d x ≡ true)
    → Maps sb k ip d (0, ip, d')
stays_full sb k ip d d' z v f e full =
    subst (λ x. Maps sb k ip d (0, ip, x)) (sym e) (Grows-refl sb k ip d v f, z, λ y. full)

bmap_addr-Maps :
    (sb : Superblock) (k : ℕ) (ip : Inode) (d : Blocks)
    → k < ndirect
    → IsDisk sb d
    → IsFile sb ip d
    → Maps sb k ip d (bmap_addr sb k ip d)
unfolding bmap_addr
bmap_addr-Maps sb k ip d l v f = elim (ℕ_discrete (ip.addrs k) 0) [
  | no ne ↦ rw (==_ne (ip.addrs k) 0 ne) (Grows-refl sb k ip d v f, low, λ z. absurd (ne z))
  | yes z ↦ rw (==_eq (ip.addrs k) 0 z) (given (balloc sb d) (low ∙ z) (balloc-Answers sb d v.map))
]
  where
    low : block_of ip d k ≡ ip.addrs k
    low = block_of-low ip d k l

    given :
        (p : ℕ × Blocks)
        → block_of ip d k ≡ 0
        → Answers sb d p
        → Maps sb k ip d (if p.0 == 0 then (0, ip, p.1) else (p.0, set_addr k p.0 ip, p.1))
    given (b, d') z (inl (nul, same, full)) =
        rw (==_eq b 0 nul) (stays_full sb k ip d d' z v f same full)
    given (b, d') z (inr (ne, a)) =
        let g = direct-Grows sb k b ip d d' l ne z v f a in
        rw (==_ne b 0 ne) (g.0, g.1, λ y. absurd (ne y))

bmap_entry-Maps :
    (sb : Superblock) (k : ℕ) (ip : Inode) (d : Blocks)
    → k < nindirect
    → ip.addrs ndirect ≢ 0
    → IsDisk sb d
    → IsFile sb ip d
    → Maps sb (ndirect + k) ip d (bmap_entry sb k (ip.addrs ndirect) ip d)
unfolding bmap_entry
bmap_entry-Maps sb k ip d l i v f = elim (ℕ_discrete (get32 (d (ip.addrs ndirect)) (4 * k)) 0) [
  | no ne ↦
      rw (==_ne (get32 (d (ip.addrs ndirect)) (4 * k)) 0 ne)
        (Grows-refl sb (ndirect + k) ip d v f, high, λ z. absurd (ne z))
  | yes z ↦
      rw (==_eq (get32 (d (ip.addrs ndirect)) (4 * k)) 0 z)
        (given (balloc sb d) (high ∙ z) (balloc-Answers sb d v.map))
]
  where
    high : block_of ip d (ndirect + k) ≡ get32 (d (ip.addrs ndirect)) (4 * k)
    high = block_of-high ip d k i

    given :
        (p : ℕ × Blocks)
        → block_of ip d (ndirect + k) ≡ 0
        → Answers sb d p
        → Maps sb
            (ndirect + k)
            ip
            d
            (if p.0 == 0 then (p.0, ip, p.1) else (p.0, ip, entered k p.0 ip p.1))
    given (b, d') z (inl (nul, same, full)) = rw (==_eq b 0 nul) (
        subst (λ m. Maps sb (ndirect + k) ip d (m, ip, d')) (sym nul)
          (stays_full sb (ndirect + k) ip d d' z v f same full))
    given (b, d') z (inr (ne, a)) =
        let g = entry-Grows sb k b ip d d' l ne i z v f a in
        rw (==_ne b 0 ne) (g.0, g.1, λ y. absurd (ne y))

-- The indirect block, and then its entry.
abbrev through : Superblock → ℕ → ℕ × Inode × Blocks → ℕ × Inode × Blocks
through sb k (a, ip, d) = if a == 0 then (0, ip, d) else bmap_entry sb k a ip d

through-Maps :
    (sb : Superblock) (k : ℕ) (ip : Inode) (d : Blocks)
    → k < nindirect
    → IsDisk sb d
    → IsFile sb ip d
    → Maps sb (ndirect + k) ip d (through sb k (bmap_addr sb ndirect ip d))
unfolding bmap_addr
through-Maps sb k ip d l v f = elim (ℕ_discrete (ip.addrs ndirect) 0) [
  | no ne ↦
      let e : bmap_addr sb ndirect ip d ≡ (ip.addrs ndirect, ip, d) =
        rw (==_ne (ip.addrs ndirect) 0 ne) in
      let t : through sb k (ip.addrs ndirect, ip, d) ≡ bmap_entry sb k (ip.addrs ndirect) ip d =
        rw (==_ne (ip.addrs ndirect) 0 ne) in
      subst (Maps sb (ndirect + k) ip d) (sym (ap (through sb k) e ∙ t))
        (bmap_entry-Maps sb k ip d l ne v f)
  | yes z ↦
      let e : bmap_addr sb ndirect ip d ≡ (
          let (b, d1) = balloc sb d in
          if b == 0 then (0, ip, d1) else (b, set_addr ndirect b ip, d1)) =
        rw (==_eq (ip.addrs ndirect) 0 z) in
      subst (Maps sb (ndirect + k) ip d) (sym (ap (through sb k) e))
        (given (balloc sb d) z (balloc-Answers sb d v.map))
]
  where
    given :
        (p : ℕ × Blocks)
        → ip.addrs ndirect ≡ 0
        → Answers sb d p
        → Maps sb
            (ndirect + k)
            ip
            d
            (through sb k (if p.0 == 0 then (0, ip, p.1) else (p.0, set_addr ndirect p.0 ip, p.1)))
    given (b, d') z (inl (nul, same, full)) =
        rw (==_eq b 0 nul)
          (stays_full sb (ndirect + k) ip d d' (block_of-none ip d k z) v f same full)
    given (b, d') z (inr (ne, a)) =
        let g = indirect-Grows sb (ndirect + k) b ip d d' ne z v f a in
        let m = bmap_entry-Maps sb k (set_addr ndirect b ip) d' l ne g.disk g.file in
        let out = bmap_entry sb k b (set_addr ndirect b ip) d' in
        rw (==_ne b 0 ne, ==_ne b 0 ne)
          (
            Grows-trans sb (ndirect + k) ip d (set_addr ndirect b ip) d' out.1 out.2 (omega arith) g
                m.0,
            m.1,
            m.2,
          )

-- For every block that a file can have, `bmap` does not panic. It answers the block of the file, or, where
-- the file has none, one that it adds: it is then all zero and belongs to no other block of a file. It
-- keeps the contents of all other blocks and the size. It answers 0 only where every block of the disk
-- is in use.
pub bmap-Maps :
    (sb : Superblock) (k : ℕ) (ip : Inode) (d : Blocks)
    → k < maxfile
    → IsDisk sb d
    → IsFile sb ip d
    → (out : ℕ × Inode × Blocks) × (bmap sb k ip d ≡ returns out) × Maps sb k ip d out
unfolding bmap
bmap-Maps sb k ip d l v f = elim (dec_lt k ndirect) [
  | yes low ↦
      rw (lt→ltb k ndirect low) (bmap_addr sb k ip d, refl, bmap_addr-Maps sb k ip d low v f)
  | no high ↦
      rw (le→ltb k ndirect (omega arith), lt→ltb (k - ndirect) nindirect (omega arith))
        (
          through sb (k - ndirect) (bmap_addr sb ndirect ip d),
          refl,
          subst (λ m. Maps sb m ip d (through sb (k - ndirect) (bmap_addr sb ndirect ip d)))
              (omega arith) (through-Maps sb (k - ndirect) ip d (omega arith) v f),
        )
]
