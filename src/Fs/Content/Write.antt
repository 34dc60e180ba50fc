-- ===== src/Fs/Content/Write.antt =====
-- kernel/fs.c: what one round of `writei` leaves of the contents of a file.
use csse_332_final.Base.{
  ℕ, ◌+◌, ◌-◌, ◌*◌, ◌/◌, ◌%◌, ◌≤◌, ◌<◌, ◌≡◌, refl, ◌∙◌, sym, ap, ◌≢◌, ◌⊎◌, inl, inr, arith,
  ℕ_discrete, update, update_self, update-ne, subst,
}
use csse_332_final.Fs.{Superblock, Block, Blocks, bsize, maxfile}
use csse_332_final.Fs.Inode.{Inode}
use csse_332_final.Fs.Bitmap.Marks.{IsBytes}
use csse_332_final.Fs.Content.{block_of, fill}
use csse_332_final.Fs.Content.Files.{IsData, IsDisk, IsFile, block_of-same, IsFile-same}
use csse_332_final.Fs.Content.Overwrite.{IsData-overwrite, disk-overwrite}
use csse_332_final.Fs.Content.Bmap.{Maps}

-- Byte `p` of a file.
abbrev pub byte : Inode → Blocks → ℕ → ℕ
byte ip d p = d (block_of ip d (p / bsize)) (p % bsize)

-- A file after `len` bytes from `src tot` on were written from `off` on: they are there, and no byte is
-- changed but the `reach` from `off` on.
pub record Wrote (sb : Superblock) (src : ℕ → ℕ) (tot off len reach : ℕ) (ip : Inode) (d : Blocks)
    (ip' : Inode) (d' : Blocks) : Type 0 where
  pub disk : IsDisk sb d'
  pub file : IsFile sb ip' d'
  pub size : ip'.size ≡ ip.size
  pub type : ip'.type ≡ ip.type
  pub stays : (n : ℕ) → n < maxfile → block_of ip d n ≢ 0 → block_of ip' d' n ≡ block_of ip d n
  pub written :
      (p : ℕ)
      → off ≤ p
      → p < off + len
      → (block_of ip' d' (p / bsize) ≢ 0) × (byte ip' d' p ≡ src (tot + (p - off)))
  pub unwritten :
      (p : ℕ)
      → p < maxfile * bsize
      → (p < off) ⊎ (off + reach ≤ p)
      → block_of ip d (p / bsize) ≢ 0
      → byte ip' d' p ≡ byte ip d p

fill-in :
    (a : Block) (i m : ℕ) (src : ℕ → ℕ) (tot j : ℕ)
    → i ≤ j
    → j < i + m
    → fill a i m src tot j ≡ src (tot + (j - i))
unfolding fill
fill-in a i m src tot j h l = ground arith

fill-out :
    (a : Block) (i m : ℕ) (src : ℕ → ℕ) (tot j : ℕ)
    → (j < i) ⊎ (i + m ≤ j)
    → fill a i m src tot j ≡ a j
unfolding fill
fill-out a i m src tot j (inl h) = ground arith
fill-out a i m src tot j (inr h) = ground arith

fill-IsBytes :
    (a : Block) (i m : ℕ) (src : ℕ → ℕ) (tot : ℕ)
    → ((j : ℕ) → src j < 256)
    → IsBytes a
    → IsBytes (fill a i m src tot)
unfolding fill
fill-IsBytes a i m src tot s v j = ground (arith, s (tot + (j - i)), v j)

-- One round: `m` bytes in the block that `bmap` answered.
module _ (sb : Superblock) (src : ℕ → ℕ) (tot off m : ℕ) (ip : Inode) (d : Blocks) (a : ℕ)
    (ip1 : Inode) (d1 : Blocks) (s : (j : ℕ) → src j < 256) (inside : off / bsize < maxfile)
    (fits : off % bsize + m ≤ bsize) (ne : a ≢ 0)
    (g : Maps sb (off / bsize) ip d (a, ip1, d1)) where
  abbrev pub stored : Blocks
  stored = update d1 a (fill (d1 a) (off % bsize) m src tot)

  present : block_of ip1 d1 (off / bsize) ≢ 0
  present z = ne (sym g.1 ∙ z)

  is_data : IsData sb d1 a
  is_data = subst (IsData sb d1) g.1 (g.0.file.blocks (off / bsize) inside present)

  same_blocks : (n : ℕ) → block_of ip1 stored n ≡ block_of ip1 d1 n
  same_blocks n = block_of-same ip1 d1 stored n (λ q.
      update-ne d1 a (fill (d1 a) (off % bsize) m src tot)
        (λ e. g.0.file.apart (off / bsize) inside present (g.1 ∙ e)))

  grown : (n : ℕ) → n < maxfile → block_of ip d n ≢ 0 → block_of ip1 d1 n ≡ block_of ip d n
  grown n h q = elim (ℕ_discrete (off / bsize) n) [
    | yes e ↦
        subst (λ k. block_of ip1 d1 k ≡ block_of ip d k) e
          (g.0.kept (λ z. q (ap (block_of ip d) (sym e) ∙ z)))
    | no other ↦ g.0.others n h other
  ]

  here :
      (p : ℕ)
      → p / bsize ≡ off / bsize
      → byte ip1 stored p ≡ fill (d1 a) (off % bsize) m src tot (p % bsize)
  here p e =
      ap (λ b. stored b (p % bsize)) (same_blocks (p / bsize) ∙ ap (block_of ip1 d1) e ∙ g.1)
      ∙ ap (λ f. f (p % bsize)) (update_self d1 a (fill (d1 a) (off % bsize) m src tot) refl)

  elsewhere :
      (p : ℕ)
      → p < maxfile * bsize
      → off / bsize ≢ p / bsize
      → block_of ip d (p / bsize) ≢ 0
      → byte ip1 stored p ≡ byte ip d p
  elsewhere p h other q =
      let n = p / bsize in
      let l : n < maxfile = omega arith in
      let at = grown n l q in
      ap (λ b. stored b (p % bsize)) (same_blocks n ∙ at)
      ∙ ap (λ f. f (p % bsize))
          (update-ne d1 a (fill (d1 a) (off % bsize) m src tot)
              (λ e. other (g.0.file.distinct (off / bsize) n inside l present (g.1 ∙ e ∙ sym at)))
            ∙ g.0.contents n l q)

  pub round-Wrote : Wrote sb src tot off m m ip d ip1 stored
  round-Wrote = record {
    disk =
        disk-overwrite sb d1 a (fill (d1 a) (off % bsize) m src tot) is_data
          (fill-IsBytes (d1 a) (off % bsize) m src tot s) g.0.disk;
    file =
        IsFile-same sb ip1 d1 stored g.0.file
          (IsData-overwrite sb d1 a (fill (d1 a) (off % bsize) m src tot) is_data) same_blocks;
    size = g.0.size;
    type = g.0.type;
    stays = λ n h q. same_blocks n ∙ grown n h q;
    written = λ p h l.
        let e : p / bsize ≡ off / bsize = omega (arith, fits) in
        (
          λ z. present (sym (same_blocks (off / bsize)) ∙ ap (block_of ip1 stored) (sym e) ∙ z),
          here p e
              ∙ fill-in (d1 a) (off % bsize) m src tot (p % bsize) (omega (arith, e))
                  (omega (arith, e, fits))
              ∙ ap (λ j. src (tot + j)) (omega (arith, e)),
        );
    unwritten = λ p h o q. elim (ℕ_discrete (off / bsize) (p / bsize)) [
      | no other ↦ elsewhere p h other q
      | yes e ↦
          here p (sym e)
          ∙ fill-out (d1 a) (off % bsize) m src tot (p % bsize) (outside p (sym e) o)
          ∙ ap (λ f. f (p % bsize))
              (ap d1 (sym (kept_here p e q)) ∙ g.0.contents (p / bsize) (omega arith) q)
    ];
  }
    where
      outside :
          (p : ℕ)
          → p / bsize ≡ off / bsize
          → (p < off) ⊎ (off + m ≤ p)
          → (p % bsize < off % bsize) ⊎ (off % bsize + m ≤ p % bsize)
      outside p e (inl l) = inl (omega (arith, e))
      outside p e (inr l) = inr (omega (arith, e))

      kept_here :
          (p : ℕ)
          → off / bsize ≡ p / bsize
          → block_of ip d (p / bsize) ≢ 0
          → block_of ip d (p / bsize) ≡ a
      kept_here p e q =
          sym (
            subst (λ k. block_of ip1 d1 k ≡ block_of ip d k) e
              (g.0.kept (λ z. q (ap (block_of ip d) (sym e) ∙ z))))
          ∙ ap (block_of ip1 d1) (sym e)
          ∙ g.1
