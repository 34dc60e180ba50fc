-- ===== src/Fs/Bitmap/Search.antt =====
-- kernel/fs.c: the two loops of `balloc` find a free bit if there is one.
use csse_332_final.Base.{
  ℕ, zero, suc, ◌+◌, ◌-◌, ◌*◌, ◌/◌, ◌%◌, ◌≤◌, ◌<◌, min, ◌≡◌, ◌∙◌, sym, ap, inl, inr, Bool, true,
  false, Option, none, some, arith, ltb, ltb→lt, ltb→le, Bool-cases, ℕ_discrete, dec_lt, dec_le,
  subst,
}
use csse_332_final.Fs.{Superblock, Block, Blocks, bpb, bblock}
use csse_332_final.Fs.Bitmap.{is_free, find_bit, find_free}

-- What a search of the bits from `bi` on finds.
abbrev pub Found : (ℕ → Bool) → ℕ → ℕ → Option ℕ → Type 0
Found free from to none = (i : ℕ) → from ≤ i → i < to → free i ≡ false
Found free from to (some i) = (from ≤ i) × (i < to) × (free i ≡ true)

Found-later :
    (free : ℕ → Bool) (from to : ℕ) (o : Option ℕ)
    → free from ≡ false
    → Found free (from + 1) to o
    → Found free from to o
Found-later free from to none h f =
    λ i a b. elim (ℕ_discrete from i) [ yes e ↦ ap free (sym e) ∙ h | no ne ↦ f i (omega arith) b ]
Found-later free from to (some i) h f = (omega (arith, f.0), f.1, f.2)

find_bit-Found : (a : Block) (k bi : ℕ) → Found (is_free a) bi (bi + k) (find_bit a k bi)
unfolding find_bit
find_bit-Found a zero bi = λ i l m. absurd (omega arith)
find_bit-Found a (suc k) bi = elim (Bool-cases (is_free a bi)) [
  | inl e ↦ rw e (omega arith, omega arith, e)
  | inr e ↦
      rw (e, to_end)
        (Found-later (is_free a) bi (bi + 1 + k) (find_bit a k (bi + 1)) e
          (find_bit-Found a k (bi + 1)))
]
  where
    to_end : bi + suc k ≡ bi + 1 + k
    to_end = omega arith

-- The blocks of the disk, by the bits of the map.
abbrev pub free_block : Superblock → Blocks → ℕ → Bool
free_block sb d b = is_free (d (bblock b sb)) (b % bpb)

-- The bits of one block of the map stand for the blocks from a multiple of `bpb` on.
Found-block :
    (sb : Superblock) (d : Blocks) (q n : ℕ) (o : Option ℕ)
    → n ≤ bpb
    → Found (is_free (d (q + sb.bmapstart))) 0 n o
    → Found
        (free_block sb d)
        (q * bpb)
        (q * bpb + n)
        (elim o [ none ↦ none | some bi ↦ some (q * bpb + bi) ])
Found-block sb d q n none h f = λ i a b.
    let e : i / bpb ≡ q = omega arith in
    let r : i % bpb ≡ i - q * bpb = omega arith in
    ap (λ m. is_free (d (m + sb.bmapstart)) (i % bpb)) e
    ∙ ap (is_free (d (q + sb.bmapstart))) r
    ∙ f (i - q * bpb) (omega arith) (omega arith)
Found-block sb d q n (some bi) h f =
    let e : (q * bpb + bi) / bpb ≡ q = omega (arith, f.1) in
    let r : (q * bpb + bi) % bpb ≡ bi = omega (arith, f.1) in
    (
      omega arith,
      omega (arith, f.1),
      ap (λ m. is_free (d (m + sb.bmapstart)) ((q * bpb + bi) % bpb)) e
          ∙ ap (is_free (d (q + sb.bmapstart))) r
          ∙ f.2,
    )

Found-append :
    (free : ℕ → Bool) (from mid to : ℕ) (o : Option ℕ)
    → Found free from mid none
    → from ≤ mid
    → Found free mid to o
    → Found free from to o
Found-append free from mid to none a l b =
    λ i x y. elim (dec_lt i mid) [ yes h ↦ a i x h | no h ↦ b i (omega arith) y ]
Found-append free from mid to (some i) a l b = (omega (arith, b.0), b.1, b.2)

-- Nothing is found in no blocks.
Found-past :
    (free : ℕ → Bool) (from mid to : ℕ) (o : Option ℕ)
    → to ≤ mid
    → to ≤ from
    → Found free mid to o
    → Found free from to o
Found-past free from mid to none l m f = λ i x y. absurd (omega arith)
Found-past free from mid to (some i) l m f = absurd (omega (arith, f.0, f.1))

pub find_free-Found :
    (sb : Superblock) (fuel q b : ℕ) (d : Blocks)
    → b ≡ q * bpb
    → sb.size < b + fuel * bpb
    → Found (free_block sb d) b sb.size (find_free sb fuel b d)
unfolding find_free
find_free-Found sb zero q b d e h = λ i l m. absurd (omega arith)
find_free-Found sb (suc fuel) q b d e h = elim (Bool-cases (ltb b sb.size)) [
  | inr past ↦ rw past (λ i l m. absurd (omega (arith, ltb→le b sb.size past)))
  | inl in_range ↦
      let n = min bpb (sb.size - b) in
      let f = find_bit-Found (d (bblock b sb)) n 0 in
      let ih = find_free-Found sb fuel (q + 1) (b + bpb) d (omega (arith, e)) (omega arith) in
      rw in_range (one_block (find_bit (d (bblock b sb)) n 0) f (ltb→lt b sb.size in_range) ih)
]
  where
    here :
        (o : Option ℕ)
        → Found (is_free (d (bblock b sb))) 0 (0 + min bpb (sb.size - b)) o
        → Found
            (free_block sb d)
            b
            (b + min bpb (sb.size - b))
            (elim o [ none ↦ none | some bi ↦ some (b + bi) ])
    here o f =
        let n = min bpb (sb.size - b) in
        let at_q : b / bpb ≡ q = omega (arith, e) in
        let n_eq : 0 + n ≡ n = omega arith in
        let g = subst (λ m. Found (is_free (d (m + sb.bmapstart))) 0 (0 + n) o) at_q f in
        let k =
          Found-block sb d q n o (omega arith)
            (subst (λ m. Found (is_free (d (q + sb.bmapstart))) 0 m o) n_eq g) in
        subst
          (λ m.
            Found (free_block sb d) m (m + n) (elim o [ none ↦ none | some bi ↦ some (m + bi) ]))
          (sym e) k

    one_block :
        (o : Option ℕ)
        → Found (is_free (d (bblock b sb))) 0 (0 + min bpb (sb.size - b)) o
        → b < sb.size
        → Found (free_block sb d) (b + bpb) sb.size (find_free sb fuel (b + bpb) d)
        → Found
            (free_block sb d)
            b
            sb.size
            (elim o [ none ↦ find_free sb fuel (b + bpb) d | some bi ↦ some (b + bi) ])
    one_block none f l ih =
        let n = min bpb (sb.size - b) in
        let g = here none f in
        elim (dec_le (b + bpb) sb.size) [
          | yes whole ↦
              Found-append (free_block sb d) b (b + bpb) sb.size (find_free sb fuel (b + bpb) d)
                (λ i x y. g i x (omega arith)) (omega arith) ih
          | no cut ↦
              Found-append (free_block sb d) b (b + n) sb.size (find_free sb fuel (b + bpb) d) g
                (omega arith)
                (Found-past (free_block sb d) (b + n) (b + bpb) sb.size
                  (find_free sb fuel (b + bpb) d) (omega arith) (omega arith) ih)
        ]
    one_block (some bi) f l ih = let g = here (some bi) f in (g.0, omega (arith, g.1), g.2)
