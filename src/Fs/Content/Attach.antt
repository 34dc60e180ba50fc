-- ===== src/Fs/Content/Attach.antt =====
-- kernel/fs.c: an allocated block becomes a block of the file, or its indirect block.
use csse_332_final.Base.{
  ℕ, ◌+◌, ◌-◌, ◌*◌, ◌^◌, ◌≤◌, ◌<◌, ◌≡◌, refl, ◌∙◌, sym, ap, ◌≢◌, inl, inr, arith, ltb, lt→ltb,
  ltb→lt, ltb→le, ◌==◌, ==_ne, ==_eq, if◌then◌else◌, Bool-cases, ℕ_discrete, dec_lt, update,
  update_self, subst,
}
use csse_332_final.Fs.{Superblock, Blocks, ndirect, maxfile}
use csse_332_final.Fs.Bytes.{get32, put32, Apart, get32-put32, get32-put32_elsewhere, put32-byte}
use csse_332_final.Fs.Inode.{Inode}
use csse_332_final.Fs.Content.{set_addr, block_of}
use csse_332_final.Fs.Content.Overwrite.{IsData-overwrite, disk-overwrite}
use csse_332_final.Fs.Content.Files.{IsData, IsDisk, IsOther, IsFile}

-- Block `b` in the place of block `k` of the file, all other blocks being as before.
pub IsFile-put :
    (sb : Superblock) (ip ip' : Inode) (d d' : Blocks) (k b : ℕ)
    → IsFile sb ip d
    → IsOther ip d b
    → IsData sb d' b
    → ((c : ℕ) → IsData sb d c → IsData sb d' c)
    → ip'.addrs ndirect ≡ ip.addrs ndirect
    → ((n : ℕ) → n < maxfile → block_of ip' d' n ≡ (if k == n then b else block_of ip d n))
    → IsFile sb ip' d'
IsFile-put sb ip ip' d d' k b f o v keep ind at = record {
  blocks = λ n h ne. elim (ℕ_discrete k n) [
    | yes e ↦ subst (IsData sb d') (sym (at n h ∙ rw (==_eq k n e))) v
    | no other ↦
        let e = old n h other in
        subst (IsData sb d') (sym e) (keep (block_of ip d n) (f.blocks n h (λ z. ne (e ∙ z))))
  ];
  indirect = λ ne.
      subst (IsData sb d') (sym ind) (keep (ip.addrs ndirect) (f.indirect (λ z. ne (ind ∙ z))));
  distinct = λ n m h l ne e. elim (ℕ_discrete k n) [
    | yes p ↦ elim (ℕ_discrete k m) [
      | yes q ↦ sym p ∙ q
      | no q ↦ absurd (o.no_block m l (sym (old m l q) ∙ sym e ∙ new n h p))
    ]
    | no p ↦ elim (ℕ_discrete k m) [
      | yes q ↦ absurd (o.no_block n h (sym (old n h p) ∙ e ∙ new m l q))
      | no q ↦ f.distinct n m h l (λ z. ne (old n h p ∙ z)) (sym (old n h p) ∙ e ∙ old m l q)
    ]
  ];
  apart = λ n h ne e. elim (ℕ_discrete k n) [
    | yes p ↦ o.no_indirect (sym ind ∙ sym e ∙ new n h p)
    | no p ↦ f.apart n h (λ z. ne (old n h p ∙ z)) (sym (old n h p) ∙ e ∙ ind)
  ];
}
  where
    old : (n : ℕ) → n < maxfile → k ≢ n → block_of ip' d' n ≡ block_of ip d n
    old n h ne = at n h ∙ rw (==_ne k n ne)

    new : (n : ℕ) → n < maxfile → k ≡ n → block_of ip' d' n ≡ b
    new n h e = at n h ∙ rw (==_eq k n e)

-- A direct block.
pub block_of-direct :
    (ip : Inode) (d : Blocks) (k b n : ℕ)
    → k < ndirect
    → block_of (set_addr k b ip) d n ≡ (if k == n then b else block_of ip d n)
unfolding block_of
block_of-direct ip d k b n h = elim (ℕ_discrete k n) [
  | yes e ↦ rw (==_eq k n e, lt→ltb n ndirect (omega arith))
  | no ne ↦ rw (==_ne k n ne, ==_ne k ndirect (omega arith))
]

-- The indirect block, all zero: no entry of it stands for a block.
pub block_of-indirect :
    (ip : Inode) (d : Blocks) (b n : ℕ)
    → ip.addrs ndirect ≡ 0
    → ((i : ℕ) → d b i ≡ 0)
    → block_of (set_addr ndirect b ip) d n ≡ block_of ip d n
unfolding block_of
block_of-indirect ip d b n z zeros = elim (Bool-cases (ltb n ndirect)) [
  | inl e ↦ rw (e, ==_ne ndirect n (omega (arith, ltb→lt n ndirect e)))
  | inr e ↦
      rw (e, z)
        (elim (ℕ_discrete b 0) [
          | yes nul ↦ rw (==_eq b 0 nul)
          | no some_block ↦ rw (==_ne b 0 some_block) (
              omega (
                arith,
                zeros (4 * (n - ndirect)),
                zeros (4 * (n - ndirect) + 1),
                zeros (4 * (n - ndirect) + 2),
                zeros (4 * (n - ndirect) + 3),
              ))
        ])
]

pub IsFile-indirect :
    (sb : Superblock) (ip : Inode) (d : Blocks) (b : ℕ)
    → IsFile sb ip d
    → IsOther ip d b
    → IsData sb d b
    → ip.addrs ndirect ≡ 0
    → ((i : ℕ) → d b i ≡ 0)
    → IsFile sb (set_addr ndirect b ip) d
IsFile-indirect sb ip d b f o v z zeros =
    let same = λ (n : ℕ). block_of-indirect ip d b n z zeros in
    record {
      blocks = λ n h ne. subst (IsData sb d) (sym (same n)) (f.blocks n h (λ y. ne (same n ∙ y)));
      indirect = λ ne. v;
      distinct =
          λ n m h l ne e. f.distinct n m h l (λ y. ne (same n ∙ y)) (sym (same n) ∙ e ∙ same m);
      apart = λ n h ne e. o.no_block n h (sym (same n) ∙ e);
    }

-- An entry of the indirect block.
module _ (sb : Superblock) (ip : Inode) (d : Blocks) (k b : ℕ) (f : IsFile sb ip d) where
  abbrev pub with_entry : Blocks
  with_entry = update d (ip.addrs ndirect) (put32 (4 * k) b (d (ip.addrs ndirect)))

  module _ (ne : ip.addrs ndirect ≢ 0) where
    pub IsData-with_entry : (c : ℕ) → IsData sb d c → IsData sb with_entry c
    IsData-with_entry c v = IsData-overwrite sb d (ip.addrs ndirect) _ (f.indirect ne) c v

    pub disk-with_entry : IsDisk sb d → IsDisk sb with_entry
    disk-with_entry v =
        disk-overwrite sb d (ip.addrs ndirect) (put32 (4 * k) b (d (ip.addrs ndirect)))
          (f.indirect ne) (λ h i. put32-byte (4 * k) b i (d (ip.addrs ndirect)) (h i)) v

    pub block_of-with_entry :
        (n : ℕ)
        → b < 2 ^ 32
        → block_of ip with_entry n ≡ (if ndirect + k == n then b else block_of ip d n)
    unfolding block_of
    block_of-with_entry n small = elim (Bool-cases (ltb n ndirect)) [
      | inl e ↦ rw (e, ==_ne (ndirect + k) n (omega (arith, ltb→lt n ndirect e)))
      | inr e ↦
          let there =
            update_self d (ip.addrs ndirect) (put32 (4 * k) b (d (ip.addrs ndirect))) refl in
          rw (e, ==_ne (ip.addrs ndirect) 0 ne)
            (ap (λ a. get32 a (4 * (n - ndirect))) there ∙ elim (ℕ_discrete (ndirect + k) n) [
              | yes s ↦ rw (==_eq (ndirect + k) n s) (
                  ap (get32 (put32 (4 * k) b (d (ip.addrs ndirect)))) (omega arith)
                  ∙ get32-put32 (4 * k) b (d (ip.addrs ndirect)) small)
              | no s ↦ rw (==_ne (ndirect + k) n s) (
                  get32-put32_elsewhere (4 * k) b (4 * (n - ndirect)) (d (ip.addrs ndirect))
                    (words s (ltb→le n ndirect e)))
            ])
    ]
      where
        words : ndirect + k ≢ n → ndirect ≤ n → Apart (4 * k) 4 (4 * (n - ndirect)) 4
        words s l = elim (dec_lt (n - ndirect) k) [
          | yes h ↦ inl (omega arith)
          | no h ↦ inr (omega arith)
        ]
