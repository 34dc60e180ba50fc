-- ===== src/Fs/Truncate/Freed.antt =====
-- kernel/fs.c: the free map while the blocks of a file are given back one by one.
use csse_332_final.Base.{
  ℕ, zero, suc, ◌≤◌, ◌<◌, ◌≡◌, refl, ◌∙◌, sym, ap, ◌≢◌, Bool, true, false, not, ◌&&◌, ◌||◌, arith,
  ◌==◌, ==_ne, ==_eq, if◌then◌else◌, Bool-cases, inl, inr, returns, ℕ_discrete, subst,
}
use csse_332_final.Fs.{Superblock, Blocks, ndirect, maxfile, bblock}
use csse_332_final.Fs.Inode.{Inode}
use csse_332_final.Fs.Bitmap.{bfree}
use csse_332_final.Fs.Bitmap.Marks.{used, MapBytes, bfree_lem}
use csse_332_final.Fs.Content.{block_of}
use csse_332_final.Fs.Content.Files.{IsData, IsFile}

-- Whether `x` is one of the first `n` blocks of the file.
pub among : Inode → Blocks → ℕ → ℕ → Bool
among ip d zero x = false
among ip d (suc n) x = (not (block_of ip d n == 0) && block_of ip d n == x) || among ip d n x

-- Whether `x` is a block of the file or its indirect block.
pub belongs : Inode → Blocks → ℕ → Bool
belongs ip d x = (not (ip.addrs ndirect == 0) && ip.addrs ndirect == x) || among ip d maxfile x

-- Every block is in use as before but those that are gone, and no block is changed but those of the map.
pub record Freed (sb : Superblock) (d : Blocks) (gone : ℕ → Bool) (d' : Blocks) : Type 0 where
  pub bytes : MapBytes sb d'
  pub bits : (x : ℕ) → used sb d' x ≡ (used sb d x && not (gone x))
  pub others : (c : ℕ) → ((x : ℕ) → x < sb.size → bblock x sb ≢ c) → d' c ≡ d c

and_false : (b : Bool) → (b && false) ≡ false
and_false true = refl
and_false false = refl

and_true : (b : Bool) → b ≡ (b && true)
and_true true = refl
and_true false = refl

pub one_more :
    (sb : Superblock) (d : Blocks) (gone : ℕ → Bool) (d' : Blocks) (b : ℕ)
    → Freed sb d gone d'
    → IsData sb d b
    → gone b ≡ false
    → (d2 : Blocks) × (bfree sb b d' ≡ returns d2) × Freed sb d (λ x. b == x || gone x) d2
one_more sb d gone d' b f own h =
    let in_use : used sb d' b ≡ true = f.bits b ∙ rw (own.in_use, h) refl in
    let (d2, e, bits, bytes, others) = bfree_lem sb d' f.bytes b in_use in
    (
      d2,
      e,
      record {
        bytes = bytes;
        bits = λ x. bits x ∙ cleared x;
        others = λ c out. others c (λ q. out b own.in_range (sym q)) ∙ f.others c out;
      },
    )
  where
    cleared :
        (x : ℕ) → (if b == x then false else used sb d' x) ≡ (used sb d x && not (b == x || gone x))
    cleared x = elim (Bool-cases (b == x)) [
      | inl e ↦ rw e (sym (and_false (used sb d x)))
      | inr e ↦ rw e (f.bits x)
    ]

module _ (sb : Superblock) (ip : Inode) (d : Blocks) (v : IsFile sb ip d) where
  -- A later block of the file is none of the first.
  pub among-later :
      (n m : ℕ) → n ≤ m → m < maxfile → block_of ip d m ≢ 0 → among ip d n (block_of ip d m) ≡ false
  unfolding among
  among-later zero m l h ne = refl
  among-later (suc n) m l h ne = elim (ℕ_discrete (block_of ip d n) (block_of ip d m)) [
    | yes e ↦ absurd (omega (arith, v.distinct n m (omega arith) h (λ z. ne (sym e ∙ z)) e))
    | no o ↦ rw (==_ne (block_of ip d n) (block_of ip d m) o) (
        ap (λ c. c || among ip d n (block_of ip d m)) (and_false (not (block_of ip d n == 0)))
        ∙ among-later n m (omega arith) h ne)
  ]

  -- Each of them is a block of the file.
  pub among-IsData : (n x : ℕ) → n ≤ maxfile → among ip d n x ≡ true → (x ≢ 0) × IsData sb d x
  unfolding among
  among-IsData zero x l h = cc
  among-IsData (suc n) x l h = elim (ℕ_discrete (block_of ip d n) 0) [
    | yes z ↦ among-IsData n x (omega arith) (sym (skipped (rw (==_eq (block_of ip d n) 0 z))) ∙ h)
    | no ne ↦ elim (ℕ_discrete (block_of ip d n) x) [
      | yes e ↦ (λ q. ne (e ∙ q), subst (IsData sb d) e (v.blocks n l ne))
      | no o ↦ among-IsData n x (omega arith) (
          sym (skipped (rw (==_ne (block_of ip d n) x o) (and_false (not (block_of ip d n == 0)))))
          ∙ h)
    ]
  ]
    where
      skipped :
          (not (block_of ip d n == 0) && block_of ip d n == x) ≡ false
          → (not (block_of ip d n == 0) && block_of ip d n == x) || among ip d n x ≡ among ip d n x
      skipped e = rw e

  pub none_more :
      (n : ℕ) (d' : Blocks)
      → block_of ip d n ≡ 0
      → Freed sb d (among ip d n) d'
      → Freed sb d (among ip d (suc n)) d'
  unfolding among
  none_more n d' z f = record {
    bytes = f.bytes;
    bits = λ x. f.bits x ∙ rw (==_eq (block_of ip d n) 0 z);
    others = f.others;
  }

  -- `bfree` of block `n`, when the blocks before it are free.
  pub next_free :
      (n : ℕ) (d' : Blocks)
      → n < maxfile
      → block_of ip d n ≢ 0
      → Freed sb d (among ip d n) d'
      → (d2 : Blocks) × (bfree sb (block_of ip d n) d' ≡ returns d2)
        × Freed sb d (among ip d (suc n)) d2
  unfolding among
  next_free n d' l ne f =
      let (d2, e, g) =
        one_more sb d (among ip d n) d' (block_of ip d n) f (v.blocks n l ne)
          (among-later n n (omega arith) l ne) in
      (
        d2,
        e,
        record {
          bytes = g.bytes;
          bits = λ x. g.bits x ∙ rw (==_ne (block_of ip d n) 0 ne);
          others = g.others;
        },
      )

  -- The indirect block is none of the blocks that it names.
  pub among-indirect : (n : ℕ) → n ≤ maxfile → among ip d n (ip.addrs ndirect) ≡ false
  unfolding among
  among-indirect zero l = refl
  among-indirect (suc n) l = elim (ℕ_discrete (block_of ip d n) 0) [
    | yes z ↦ rw (==_eq (block_of ip d n) 0 z) (among-indirect n (omega arith))
    | no ne ↦ rw (==_ne (block_of ip d n) (ip.addrs ndirect) (v.apart n l ne)) (
        ap (λ c. c || among ip d n (ip.addrs ndirect)) (and_false (not (block_of ip d n == 0)))
        ∙ among-indirect n (omega arith))
  ]

  pub Freed-indirect :
      (d' : Blocks)
      → ip.addrs ndirect ≢ 0
      → Freed sb d (λ x. ip.addrs ndirect == x || among ip d maxfile x) d'
      → Freed sb d (belongs ip d) d'
  unfolding belongs
  Freed-indirect d' ne f = record {
    bytes = f.bytes;
    bits = λ x. f.bits x ∙ rw (==_ne (ip.addrs ndirect) 0 ne);
    others = f.others;
  }

  pub Freed-direct :
      (d' : Blocks)
      → ip.addrs ndirect ≡ 0
      → Freed sb d (among ip d maxfile) d'
      → Freed sb d (belongs ip d) d'
  unfolding belongs
  Freed-direct d' z f = record {
    bytes = f.bytes;
    bits = λ x. f.bits x ∙ rw (==_eq (ip.addrs ndirect) 0 z);
    others = f.others;
  }

pub Freed-none :
    (sb : Superblock) (ip : Inode) (d : Blocks) → MapBytes sb d → Freed sb d (among ip d 0) d
unfolding among
Freed-none sb ip d b = record {
  bytes = b;
  bits = λ x. and_true (used sb d x);
  others = λ c o. refl;
}
