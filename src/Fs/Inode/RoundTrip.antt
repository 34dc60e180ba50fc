-- ===== src/Fs/Inode/RoundTrip.antt =====
-- kernel/fs.c: an inode that is written is read back, and the other inodes stay as they are.
use csse_332_final.Base.{
  ℕ, ◌+◌, ◌*◌, ◌≤◌, ◌<◌, ◌≡◌, refl, ◌∙◌, sym, ap, subst, ◌≢◌, inl, inr, arith, update, update_self,
  update-ne, ℕ_discrete, dec_lt,
}
use csse_332_final.Fs.{Superblock, Block, Blocks, iblock}
use csse_332_final.Fs.Bytes.{get16, Outside, get16-ne, get32-ne}
use csse_332_final.Fs.Inode.{Inode, store_dinode, load_dinode, dinode_at, iupdate, read_inode}
use csse_332_final.Fs.Inode.Fields.{Fits, Same, store_dinode-ne, load-store}

-- Inodes have different bytes of the disk.
pub dinode_apart :
    (sb : Superblock) (i j k : ℕ)
    → i ≢ j
    → iblock i sb ≡ iblock j sb
    → dinode_at j ≤ k
    → k < dinode_at j + 64
    → Outside (dinode_at i) 64 k
dinode_apart sb i j k ne e l h = elim (dec_lt k (dinode_at i)) [
  | yes b ↦ inl b
  | no b ↦ inr (omega arith)
]

-- An inode whose bytes are the same is read as the same.
load_dinode-Same :
    (base : ℕ) (a a' : Block)
    → ((k : ℕ) → base ≤ k → k < base + 64 → a' k ≡ a k)
    → Same (load_dinode base a') (load_dinode base a)
unfolding load_dinode
load_dinode-Same base a a' e = record {
  type =
      get16-ne a a' base (e base (omega arith) (omega arith))
        (e (base + 1) (omega arith) (omega arith));
  major = sixteen 2 (omega arith);
  minor = sixteen 4 (omega arith);
  nlink = sixteen 6 (omega arith);
  size = get32-ne a a' (base + 8) (λ k l h. e k (omega arith) (omega arith));
  addrs = λ i h. get32-ne a a' (base + 12 + 4 * i) (λ k l m. e k (omega arith) (omega arith));
}
  where
    sixteen : (k : ℕ) → k ≤ 6 → get16 a' (base + k) ≡ get16 a (base + k)
    sixteen k h =
        get16-ne a a' (base + k) (e (base + k) (omega arith) (omega arith))
          (e (base + k + 1) (omega arith) (omega arith))

-- An inode that `iupdate` writes is read back by `ilock` with the same fields, if each fits its width.
-- Every other inode is read as before.
pub iupdate_stores :
    (sb : Superblock) (inum : ℕ) (ip : Inode) (d : Blocks)
    → Fits ip
    → Same (read_inode sb inum (iupdate sb inum ip d)) ip
      × ((i : ℕ) → i ≢ inum → Same (read_inode sb i (iupdate sb inum ip d)) (read_inode sb i d))
unfolding iupdate read_inode
iupdate_stores sb inum ip d f =
    let b = iblock inum sb in
    let new = store_dinode ip (dinode_at inum) (d b) in
    (
      subst (λ x. Same (load_dinode (dinode_at inum) x) ip) (sym (update_self d b new refl))
          (load-store ip (dinode_at inum) (d b) f),
      λ i ne.
          load_dinode-Same (dinode_at i) (d (iblock i sb)) (update d b new (iblock i sb)) (λ k l h.
            elim (ℕ_discrete b (iblock i sb)) [
              | yes e ↦
                  ap (λ x. x k) (update_self d b new e)
                  ∙ store_dinode-ne ip (dinode_at inum) (d b) k
                      (dinode_apart sb inum i k (λ q. ne (sym q)) e l h)
                  ∙ ap (λ n. d n k) e
              | no other ↦ ap (λ x. x k) (update-ne d b new other)
            ]),
    )

-- No other block is changed.
pub iupdate-ne :
    (sb : Superblock) (inum : ℕ) (ip : Inode) (d : Blocks) (c : ℕ)
    → iblock inum sb ≢ c
    → iupdate sb inum ip d c ≡ d c
unfolding iupdate
iupdate-ne sb inum ip d c ne =
    update-ne d (iblock inum sb) (store_dinode ip (dinode_at inum) (d (iblock inum sb))) ne
