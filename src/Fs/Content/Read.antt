-- ===== src/Fs/Content/Read.antt =====
-- kernel/fs.c: `readi` reads the bytes of a file whose blocks are there.
use csse_332_final.Base.{
  ℕ, zero, suc, ◌+◌, ◌-◌, ◌*◌, ◌/◌, ◌%◌, ◌^◌, ◌≤◌, ◌<◌, min, ◌≡◌, refl, ◌∙◌, sym, ap, ap₂, ◌≢◌, inl,
  inr, List, [], ◌∷◌, ◌++◌, append-nil, append_assoc, arith, ltb, lt→ltb, le→ltb, ltb→lt, ltb→le,
  ==_ne, ==_eq, if◌then◌else◌, Bool-cases, some, ℕ_discrete, dec_lt, returns,
}
use csse_332_final.Base.Words.{add32}
use csse_332_final.Fs.{Superblock, Blocks, bsize, ndirect, nindirect, maxfile}
use csse_332_final.Fs.Bytes.{get32}
use csse_332_final.Fs.Inode.{Inode}
use csse_332_final.Fs.Content.{
  block_of, bmap_addr, bmap_entry, bmap, slice, chunk, readi_from, readi,
}
use csse_332_final.Fs.Content.Write.{byte}

-- `bmap` of a block that the file has changes nothing.
pub bmap_present :
    (sb : Superblock) (k : ℕ) (ip : Inode) (d : Blocks)
    → k < maxfile
    → block_of ip d k ≢ 0
    → bmap sb k ip d ≡ returns (block_of ip d k, ip, d)
unfolding bmap bmap_addr bmap_entry block_of
bmap_present sb k ip d l ne = elim (dec_lt k ndirect) [
  | yes low ↦ rw (lt→ltb k ndirect low, ==_ne (ip.addrs k) 0 (direct low))
  | no high ↦ elim (ℕ_discrete (ip.addrs ndirect) 0) [
    | yes z ↦ absurd (ne (rw (le→ltb k ndirect (omega arith), ==_eq (ip.addrs ndirect) 0 z)))
    | no some_block ↦ rw (
      le→ltb k ndirect (omega arith),
      lt→ltb (k - ndirect) nindirect (omega arith),
      ==_ne (ip.addrs ndirect) 0 some_block,
      ==_ne (ip.addrs ndirect) 0 some_block,
      ==_ne (get32 (d (ip.addrs ndirect)) (4 * (k - ndirect))) 0 (entry high some_block),
    )
  ]
]
  where
    direct : k < ndirect → ip.addrs k ≢ 0
    direct low z = ne (rw (lt→ltb k ndirect low) z)

    entry :
        ¬ (k < ndirect)
        → ip.addrs ndirect ≢ 0
        → get32 (d (ip.addrs ndirect)) (4 * (k - ndirect)) ≢ 0
    entry high i z = ne (rw (le→ltb k ndirect (omega arith), ==_ne (ip.addrs ndirect) 0 i) z)

-- `n` bytes of a file from `p` on.
abbrev pub bytes : Inode → Blocks → ℕ → ℕ → List ℕ
bytes ip d p zero = []
bytes ip d p (suc n) = byte ip d p ∷ bytes ip d (p + 1) n

bytes-append :
    (ip : Inode) (d : Blocks) (p m n k : ℕ)
    → k ≡ m + n
    → bytes ip d p k ≡ bytes ip d p m ++ bytes ip d (p + m) n
bytes-append ip d p zero n k e = ap₂ (bytes ip d) (omega arith) (omega (arith, e))
bytes-append ip d p (suc m) n zero e = absurd (omega (arith, e))
bytes-append ip d p (suc m) n (suc k) e =
    ap (λ zs. byte ip d p ∷ zs)
      (bytes-append ip d (p + 1) m n k (omega (arith, e))
        ∙ ap (λ q. bytes ip d (p + 1) m ++ bytes ip d q n) (omega arith))

-- The bytes of one block.
slice-bytes :
    (ip : Inode) (d : Blocks) (b i p m : ℕ)
    → i + m ≤ bsize
    → p % bsize ≡ i
    → block_of ip d (p / bsize) ≡ b
    → slice (d b) i m ≡ bytes ip d p m
unfolding slice
slice-bytes ip d b i p zero l e q = refl
slice-bytes ip d b i p (suc zero) l e q = ap₂ (λ x y. d x y ∷ []) (sym q) (sym e)
slice-bytes ip d b i p (suc (suc m)) l e q =
    let same : (p + 1) / bsize ≡ p / bsize = omega (arith, e) in
    ap₂ ◌∷◌ (ap₂ d (sym q) (sym e)) (
      slice-bytes ip d b (i + 1) (p + 1) (suc m) (omega arith) (omega (arith, e))
        (ap (block_of ip d) same ∙ q))

-- The blocks of the `n` bytes from `off` on are there.
abbrev pub Present : Inode → Blocks → ℕ → ℕ → Type 0
Present ip d off n = (p : ℕ) → off ≤ p → p < off + n → block_of ip d (p / bsize) ≢ 0

module _ (sb : Superblock) (copied : ℕ → ℕ → ℕ) (c : (tot m : ℕ) → m ≤ copied tot m) where
  readi_from_lem :
      (fuel n tot off : ℕ) (got : List ℕ) (ip : Inode) (d : Blocks)
      → n ≤ tot + fuel
      → tot ≤ n
      → off + (n - tot) ≤ maxfile * bsize
      → Present ip d off (n - tot)
      → readi_from sb copied fuel n tot off got ip d
        ≡ returns (some (got ++ bytes ip d off (n - tot)), ip, d)
  unfolding readi_from
  readi_from_lem zero n tot off got ip d h l b v =
      let z : n - tot ≡ 0 = omega arith in
      ap (λ xs. returns (some xs, ip, d))
        (sym (append-nil got) ∙ ap (λ k. got ++ bytes ip d off k) (sym z))
  readi_from_lem (suc fuel) n tot off got ip d h l b v = elim (Bool-cases (ltb tot n)) [
    | inr done ↦
        let z : n - tot ≡ 0 = omega (arith, ltb→le tot n done) in
        rw (done, readi_from)
          (ap (λ xs. returns (some xs, ip, d))
            (sym (append-nil got) ∙ ap (λ k. got ++ bytes ip d off k) (sym z)))
    | inl more ↦
        let lt = ltb→lt tot n more in
        let m = chunk (n - tot) off in
        let k = off / bsize in
        let ne = v off (omega arith) (omega arith) in
        let ih =
          readi_from_lem fuel n (tot + m) (off + m)
            (got ++ slice (d (block_of ip d k)) (off % bsize) m) ip d (omega arith) (omega arith)
            (omega arith) (λ p x y. v p (omega arith) (omega arith)) in
        rw
          (
            more,
            readi_from,
            bmap_present sb k ip d (omega arith) ne,
            ==_ne (block_of ip d k) 0 ne,
            le→ltb (copied tot m) m (c tot m),
          )
          (ih
            ∙ ap (λ xs. returns (some xs, ip, d))
                (append_assoc got (slice (d (block_of ip d k)) (off % bsize) m)
                    (bytes ip d (off + m) (n - (tot + m)))
                  ∙ ap (λ xs. got ++ xs)
                      (ap (λ xs. xs ++ bytes ip d (off + m) (n - (tot + m)))
                          (slice-bytes ip d (block_of ip d k) (off % bsize) off m (omega arith) refl
                            refl)
                        ∙ sym (bytes-append ip d off m (n - (tot + m)) (n - tot) (omega arith)))))
  ]

  -- Where each copy succeeds, a read within a file whose blocks are there answers its bytes, up to the end
  -- of the file, and changes nothing.
  pub readi_lem :
      (off n : ℕ) (ip : Inode) (d : Blocks)
      → off ≤ ip.size
      → ip.size ≤ maxfile * bsize
      → off + n < 2 ^ 32
      → Present ip d off (min n (ip.size - off))
      → readi sb copied off n ip d ≡ returns (some (bytes ip d off (min n (ip.size - off))), ip, d)
  unfolding readi
  readi_lem off n ip d l b w v =
      let k = min n (ip.size - off) in
      rw (le→ltb ip.size off l, le→ltb (add32 off n) off (omega arith), cut)
        (readi_from_lem k k 0 off [] ip d (omega arith) (omega arith) (omega arith)
            (λ p x y. v p x (omega arith))
          ∙ ap (λ m. returns (some (bytes ip d off m), ip, d)) (omega arith))
    where
      cut : (if ltb ip.size (add32 off n) then ip.size - off else n) ≡ min n (ip.size - off)
      cut = elim (dec_lt ip.size (off + n)) [
        | yes h ↦ rw (lt→ltb ip.size (add32 off n) (omega arith)) (omega arith)
        | no h ↦ rw (le→ltb ip.size (add32 off n) (omega arith)) (omega arith)
      ]
