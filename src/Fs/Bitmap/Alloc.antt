-- ===== src/Fs/Bitmap/Alloc.antt =====
-- kernel/fs.c: `balloc` takes a block that is free, and zeroes it; `bfree` gives one back.
use csse_332_final.Base.{
  ℕ, suc, ◌/◌, ◌%◌, ◌<◌, ◌≡◌, refl, ◌∙◌, sym, ap, ◌≢◌, ◌⊎◌, inl, inr, true, false, not, Option,
  none, some, arith, ◌==◌, ==_ne, ==_eq, if◌then◌else◌, ℕ_discrete, update_self, update-ne, returns,
  subst,
}
use csse_332_final.Fs.{Superblock, Blocks, bpb, bblock}
use csse_332_final.Fs.Bitmap.{is_free, bzero, find_free, mark, balloc, bfree}
use csse_332_final.Fs.Bitmap.Marks.{
  used, IsBytes, MapBytes, used-mark, mark-ne, mark-MapBytes, bfree_lem,
}
use csse_332_final.Fs.Bitmap.Search.{Found, free_block, find_free-Found}

-- A map that has all of its own blocks, and block 0, in use.
pub record IsMap (sb : Superblock) (d : Blocks) : Type 0 where
  pub bytes : MapBytes sb d
  pub own : (b : ℕ) → b < sb.size → (bblock b sb < sb.size) × (used sb d (bblock b sb) ≡ true)
  pub boot : used sb d 0 ≡ true

-- What `balloc` answers: 0 where every block is in use; else a block that was free, which is then in
-- use, all zero, and no block of the map. No other block but that of its bit is changed.
pub record Allocates (sb : Superblock) (d : Blocks) (b : ℕ) (d' : Blocks) : Type 0 where
  pub in_range : b < sb.size
  pub was_free : used sb d b ≡ false
  pub marked : (x : ℕ) → x < sb.size → used sb d' x ≡ (if b == x then true else used sb d x)
  pub zeroed : (i : ℕ) → d' b i ≡ 0
  pub others : (c : ℕ) → c ≢ b → c ≢ bblock b sb → d' c ≡ d c
  pub valid : IsMap sb d'

abbrev pub Answers : Superblock → Blocks → ℕ × Blocks → Type 0
Answers sb d (b, d') =
    ((b ≡ 0) × (d' ≡ d) × ((x : ℕ) → x < sb.size → used sb d x ≡ true))
    ⊎ ((b ≢ 0) × Allocates sb d b d')

take_block :
    (sb : Superblock) (d : Blocks) (b : ℕ)
    → IsMap sb d
    → b < sb.size
    → used sb d b ≡ false
    → Allocates sb d b (bzero b (mark sb b d))
unfolding bzero
take_block sb d b v h f =
    let m = mark sb b d in
    record {
      in_range = h;
      was_free = f;
      marked = marked;
      zeroed = λ i. ap (λ a. a i) (update_self m b (λ i. 0) refl);
      others = λ c ne own. update-ne m b (λ i. 0) (λ e. ne (sym e)) ∙ unmarked c own;
      valid = record {
        bytes = λ x. elim (ℕ_discrete b (bblock x sb)) [
          | yes e ↦ subst IsBytes (sym (update_self m b (λ i. 0) e)) (λ i. omega arith)
          | no ne ↦ subst IsBytes (sym (update-ne m b (λ i. 0) ne)) (mark-MapBytes sb d v.bytes b x)
        ];
        own = λ x l. let o = v.own x l in (o.0, marked (bblock x sb) o.0 ∙ still (bblock x sb) o.1);
        boot = marked 0 (omega (arith, h)) ∙ still 0 v.boot;
      };
    }
  where
    not_map : (x : ℕ) → x < sb.size → b ≢ bblock x sb
    not_map x l e = cc (sym f ∙ ap (used sb d) e ∙ (v.own x l).1)

    marked :
        (x : ℕ)
        → x < sb.size
        → used sb (bzero b (mark sb b d)) x ≡ (if b == x then true else used sb d x)
    marked x l =
        ap (λ a. not (is_free a (x % bpb))) (update-ne (mark sb b d) b (λ i. 0) (not_map x l))
        ∙ used-mark sb d v.bytes b x

    still : (x : ℕ) → used sb d x ≡ true → (if b == x then true else used sb d x) ≡ true
    still x e = ground (arith, e)

    unmarked : (c : ℕ) → c ≢ bblock b sb → mark sb b d c ≡ d c
    unmarked c own = mark-ne sb b d c own

-- On a map with its own blocks in use, `balloc` ends. It answers 0 only where every block is in use,
-- and then changes nothing. Else it answers a block that was free: it is then in use, and zero, and no
-- other block is changed but the one with its bit, in which no other bit is changed.
pub balloc-Answers : (sb : Superblock) (d : Blocks) → IsMap sb d → Answers sb d (balloc sb d)
unfolding balloc
balloc-Answers sb d v =
    answer (find_free sb (suc (sb.size / bpb)) 0 d)
      (find_free-Found sb (suc (sb.size / bpb)) 0 0 d (omega arith) (omega arith))
  where
    used_of_free : (x : ℕ) → free_block sb d x ≡ false → used sb d x ≡ true
    used_of_free x e = ap not e

    answer :
        (o : Option ℕ)
        → Found (free_block sb d) 0 sb.size o
        → Answers sb d (elim o [ none ↦ (0, d) | some b ↦ (b, bzero b (mark sb b d)) ])
    answer none f = inl (refl, refl, λ x l. used_of_free x (f x (omega arith) l))
    answer (some b) f =
        let off : used sb d b ≡ false = ap not f.2 in
        inr (λ e. cc (sym off ∙ ap (used sb d) e ∙ v.boot), take_block sb d b v f.1 off)

-- A block that `balloc` gives can be given back at once: `bfree` does not panic, and the map is as it
-- was before.
pub bfree-balloc :
    (sb : Superblock) (d : Blocks) {b : ℕ} {d' : Blocks}
    → IsMap sb d
    → balloc sb d ≡ (b, d')
    → b ≢ 0
    → (d2 : Blocks) × (bfree sb b d' ≡ returns d2)
      × ((x : ℕ) → x < sb.size → used sb d2 x ≡ used sb d x)
bfree-balloc sb d {b} {d'} v e ne = back (subst (Answers sb d) e (balloc-Answers sb d v))
  where
    back :
        Answers sb d (b, d')
        → (d2 : Blocks) × (bfree sb b d' ≡ returns d2)
          × ((x : ℕ) → x < sb.size → used sb d2 x ≡ used sb d x)
    back (inl (z, _, _)) = absurd (ne z)
    back (inr (_, a)) =
        let f = bfree_lem sb d' a.valid.bytes b (a.marked b a.in_range ∙ rw (==_eq b b refl)) in
        (
          f.0,
          f.1,
          λ x l. f.2 x ∙ elim (ℕ_discrete b x) [
            | yes same ↦ rw (==_eq b x same) (sym a.was_free ∙ ap (used sb d) same)
            | no other ↦ rw (==_ne b x other) (a.marked x l ∙ rw (==_ne b x other))
          ],
        )
