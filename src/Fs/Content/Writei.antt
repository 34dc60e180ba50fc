-- ===== src/Fs/Content/Writei.antt =====
-- kernel/fs.c: `writei` writes the bytes it counts, and no others.
use csse_332_final.Base.{
  ℕ, zero, suc, ◌+◌, ◌-◌, ◌*◌, ◌/◌, ◌%◌, ◌≤◌, ◌<◌, ◌≡◌, refl, ◌∙◌, sym, ap, ◌≢◌, ◌⊎◌, inl, inr,
  true, false, arith, ltb, ltb→lt, ltb→le, ==_ne, ==_eq, Bool-cases, ℕ_discrete, dec_lt, subst,
  returns,
}
use csse_332_final.Fs.{Superblock, Blocks, bsize, maxfile}
use csse_332_final.Fs.Inode.{Inode}
use csse_332_final.Fs.Bitmap.Marks.{used}
use csse_332_final.Fs.Content.{block_of, chunk, LogUse, log_full, writei_from}
use csse_332_final.Fs.Content.Files.{IsDisk, IsFile}
use csse_332_final.Fs.Content.Bmap.{Maps, bmap-Maps}
use csse_332_final.Fs.Content.Write.{Wrote, round-Wrote, stored}

-- Nothing is written, but blocks may have been added.
Wrote-none :
    (sb : Superblock) (src : ℕ → ℕ) (tot off reach : ℕ) (ip : Inode) (d : Blocks) (a : ℕ)
    (ip1 : Inode) (d1 : Blocks)
    → off / bsize < maxfile
    → Maps sb (off / bsize) ip d (a, ip1, d1)
    → Wrote sb src tot off 0 reach ip d ip1 d1
Wrote-none sb src tot off reach ip d a ip1 d1 l g = record {
  disk = g.0.disk;
  file = g.0.file;
  size = g.0.size;
  type = g.0.type;
  stays = grown;
  written = λ p h q. absurd (omega arith);
  unwritten = λ p h o q.
      ap (λ b. d1 b (p % bsize)) (grown (p / bsize) (omega arith) q)
      ∙ ap (λ f. f (p % bsize)) (g.0.contents (p / bsize) (omega arith) q);
}
  where
    grown : (n : ℕ) → n < maxfile → block_of ip d n ≢ 0 → block_of ip1 d1 n ≡ block_of ip d n
    grown n h q = elim (ℕ_discrete (off / bsize) n) [
      | yes e ↦
          subst (λ k. block_of ip1 d1 k ≡ block_of ip d k) e
            (g.0.kept (λ z. q (ap (block_of ip d) (sym e) ∙ z)))
      | no other ↦ g.0.others n h other
    ]

Wrote-refl :
    (sb : Superblock) (src : ℕ → ℕ) (tot off reach : ℕ) (ip : Inode) (d : Blocks)
    → IsDisk sb d
    → IsFile sb ip d
    → Wrote sb src tot off 0 reach ip d ip d
Wrote-refl sb src tot off reach ip d v f = record {
  disk = v;
  file = f;
  size = refl;
  type = refl;
  stays = λ n h q. refl;
  written = λ p h q. absurd (omega arith);
  unwritten = λ p h o q. refl;
}

-- A write counts fewer bytes than it changed.
Wrote-less :
    (sb : Superblock) (src : ℕ → ℕ) (tot off m len reach : ℕ) (ip : Inode) (d : Blocks)
    (ip' : Inode) (d' : Blocks)
    → len ≤ m
    → m ≤ reach
    → Wrote sb src tot off m m ip d ip' d'
    → Wrote sb src tot off len reach ip d ip' d'
Wrote-less sb src tot off m len reach ip d ip' d' h l w = record {
  disk = w.disk;
  file = w.file;
  size = w.size;
  type = w.type;
  stays = w.stays;
  written = λ p a b. w.written p a (omega arith);
  unwritten = λ p a o q. w.unwritten p a (outside p o) q;
}
  where
    outside : (p : ℕ) → (p < off) ⊎ (off + reach ≤ p) → (p < off) ⊎ (off + m ≤ p)
    outside p (inl a) = inl a
    outside p (inr a) = inr (omega arith)

Wrote-trans :
    (sb : Superblock) (src : ℕ → ℕ) (tot off m len reach : ℕ) (i1 : Inode) (d1 : Blocks)
    (i2 : Inode) (d2 : Blocks) (i3 : Inode) (d3 : Blocks)
    → off + m ≤ maxfile * bsize
    → Wrote sb src tot off m m i1 d1 i2 d2
    → Wrote sb src (tot + m) (off + m) len reach i2 d2 i3 d3
    → Wrote sb src tot off (m + len) (m + reach) i1 d1 i3 d3
Wrote-trans sb src tot off m len reach i1 d1 i2 d2 i3 d3 h a b = record {
  disk = b.disk;
  file = b.file;
  size = b.size ∙ a.size;
  type = b.type ∙ a.type;
  stays = λ n l q. let e = a.stays n l q in b.stays n l (λ z. q (sym e ∙ z)) ∙ e;
  written = λ p x y. elim (dec_lt p (off + m)) [
    | yes first ↦
        let w = a.written p x first in
        let l : p / bsize < maxfile = omega arith in
        (
          λ z. w.0 (sym (b.stays (p / bsize) l w.0) ∙ z),
          b.unwritten p (omega arith) (inl first) w.0 ∙ w.1,
        )
    | no later ↦
        let w = b.written p (omega arith) (omega arith) in (w.0, w.1 ∙ ap src (omega arith))
  ];
  unwritten = λ p x o q.
      let l : p / bsize < maxfile = omega arith in
      let e = a.stays (p / bsize) l q in
      b.unwritten p x (after p o) (λ z. q (sym e ∙ z)) ∙ a.unwritten p x (before p o) q;
}
  where
    after : (p : ℕ) → (p < off) ⊎ (off + (m + reach) ≤ p) → (p < off + m) ⊎ (off + m + reach ≤ p)
    after p (inl x) = inl (omega arith)
    after p (inr x) = inr (omega arith)

    before : (p : ℕ) → (p < off) ⊎ (off + (m + reach) ≤ p) → (p < off) ⊎ (off + m ≤ p)
    before p (inl x) = inl x
    before p (inr x) = inr (omega arith)

-- Why a write of `n` bytes ended after `tot`: all are written, the disk is full, or a copy failed.
abbrev pub Ended : Superblock → (ℕ → ℕ → ℕ) → ℕ → ℕ → Blocks → Type 0
Ended sb copied n tot d =
    (tot ≡ n)
    ⊎ ((x : ℕ) → x < sb.size → used sb d x ≡ true)
    ⊎ ((m : ℕ) × (m ≤ n - tot) × (copied tot m < m))

-- The log has room for every block that a write of `n` bytes logs.
abbrev pub HasRoom : LogUse → ℕ → Type 0
HasRoom lg n = (tot : ℕ) → tot ≤ n → log_full lg tot ≡ false

-- What the loop leaves.
pub record Loops (sb : Superblock) (copied : ℕ → ℕ → ℕ) (src : ℕ → ℕ) (n tot off : ℕ) (ip : Inode)
    (d : Blocks) (out : ℕ × ℕ × Inode × Blocks) : Type 0 where
  pub from : tot ≤ out.0
  pub upto : out.0 ≤ n
  pub offset : out.1 ≡ off + (out.0 - tot)
  pub wrote : Wrote sb src tot off (out.0 - tot) (n - tot) ip d out.2 out.3
  pub ended : Ended sb copied n out.0 out.3

module _ (sb : Superblock) (copied : ℕ → ℕ → ℕ) (lg : LogUse) (src : ℕ → ℕ)
    (s : (j : ℕ) → src j < 256) where
  stop :
      (n tot off : ℕ) (ip : Inode) (d : Blocks) (ip' : Inode) (d' : Blocks)
      → tot ≤ n
      → Wrote sb src tot off 0 (n - tot) ip d ip' d'
      → Ended sb copied n tot d'
      → Loops sb copied src n tot off ip d (tot, off, ip', d')
  stop n tot off ip d ip' d' l w e =
      let z : 0 ≡ tot - tot = omega arith in
      record {
        from = omega arith;
        upto = l;
        offset = omega arith;
        wrote = subst (λ k. Wrote sb src tot off k (n - tot) ip d ip' d') z w;
        ended = e;
      }

  -- A whole round, and the rounds behind it.
  go_on :
      (n tot off m : ℕ) (ip : Inode) (d : Blocks) (ip2 : Inode) (d2 : Blocks)
      (out : ℕ × ℕ × Inode × Blocks)
      → tot + m ≤ n
      → off + (n - tot) ≤ maxfile * bsize
      → Wrote sb src tot off m m ip d ip2 d2
      → Loops sb copied src n (tot + m) (off + m) ip2 d2 out
      → Loops sb copied src n tot off ip d out
  go_on n tot off m ip d ip2 d2 out l b w r =
      let len : m + (out.0 - (tot + m)) ≡ out.0 - tot = omega (arith, r.from) in
      let reach : m + (n - (tot + m)) ≡ n - tot = omega arith in
      record {
        from = omega (arith, r.from);
        upto = r.upto;
        offset = omega (arith, r.offset, r.from);
        wrote =
            subst (λ k. Wrote sb src tot off k (n - tot) ip d out.2 out.3) len
              (subst (λ k. Wrote sb src tot off (m + (out.0 - (tot + m))) k ip d out.2 out.3) reach
                (Wrote-trans sb src tot off m (out.0 - (tot + m)) (n - (tot + m)) ip d ip2 d2 out.2
                  out.3 (omega arith) w r.wrote));
        ended = r.ended;
      }

  pub writei_from-Loops :
      (fuel n tot off : ℕ) (ip : Inode) (d : Blocks)
      → HasRoom lg n
      → n ≤ tot + fuel
      → tot ≤ n
      → off + (n - tot) ≤ maxfile * bsize
      → IsDisk sb d
      → IsFile sb ip d
      → (out : ℕ × ℕ × Inode × Blocks) × (writei_from sb copied lg src fuel n tot off ip d
          ≡ returns out)
        × Loops sb copied src n tot off ip d out
  unfolding writei_from
  writei_from-Loops zero n tot off ip d room h l b v f = (
    (tot, off, ip, d),
    refl,
    stop n tot off ip d ip d l (Wrote-refl sb src tot off (n - tot) ip d v f) (inl (omega arith)),
  )
  writei_from-Loops (suc fuel) n tot off ip d room h l b v f = elim (Bool-cases (ltb tot n)) [
    | inr done ↦
        rw (done, writei_from)
          (
            (tot, off, ip, d),
            refl,
            stop n tot off ip d ip d l (Wrote-refl sb src tot off (n - tot) ip d v f)
                (inl (omega (arith, ltb→le tot n done))),
          )
    | inl more ↦
        let lt = ltb→lt tot n more in
        let m = chunk (n - tot) off in
        let inside : off / bsize < maxfile = omega arith in
        let ((a, ip1, d1), e, g) = bmap-Maps sb (off / bsize) ip d inside v f in
        elim (ℕ_discrete a 0) [
          | yes z ↦
              rw (more, writei_from, e, ==_eq a 0 z)
                (
                  (tot, off, ip1, d1),
                  refl,
                  stop n tot off ip d ip1 d1 l
                      (Wrote-none sb src tot off (n - tot) ip d a ip1 d1 inside g)
                      (inr (inl (g.2 z))),
                )
          | no ne ↦ elim (Bool-cases (ltb (copied tot m) m)) [
            | inl bad ↦
                let short = ltb→lt (copied tot m) m bad in
                rw (more, writei_from, e, ==_ne a 0 ne, bad)
                  (
                    (
                      tot,
                      off,
                      ip1,
                      stored sb src tot off (copied tot m) ip d a ip1 d1 s inside
                          (omega (arith, short)) ne g,
                    ),
                    refl,
                    stop n tot off ip d ip1 _ l
                        (Wrote-less sb src tot off (copied tot m) 0 (n - tot) ip d ip1 _
                          (omega arith) (omega (arith, short))
                          (round-Wrote sb src tot off (copied tot m) ip d a ip1 d1 s inside
                            (omega (arith, short)) ne g))
                        (inr (inr (m, omega arith, short))),
                  )
            | inr good ↦
                let w = round-Wrote sb src tot off m ip d a ip1 d1 s inside (omega arith) ne g in
                let d2 = stored sb src tot off m ip d a ip1 d1 s inside (omega arith) ne g in
                let (out, e2, r) =
                  writei_from-Loops fuel n (tot + m) (off + m) ip1 d2 room (omega arith)
                    (omega arith) (omega arith) w.disk w.file in
                rw (more, writei_from, e, ==_ne a 0 ne, good, room tot l)
                  (out, e2, go_on n tot off m ip d ip1 d2 out (omega arith) b w r)
          ]
        ]
  ]
