-- ===== src/Fs/Bitmap/Marks.antt =====
-- kernel/fs.c: what one bit of the map says after another has been set or cleared.
use Prim.Native.Nat.{bit_and, bit_or}
use csse_332_final.Base.{
  ℕ, ◌-◌, ◌/◌, ◌%◌, ◌^◌, ◌<◌, ◌≡◌, refl, ◌∙◌, sym, ap, ◌≢◌, Bool, true, false, not, arith, ◌==◌,
  ==_ne, ==_eq, if◌then◌else◌, ℕ_discrete, update, update_self, update-ne, returns, subst,
}
use csse_332_final.Fs.{Superblock, Block, Blocks, bpb, bblock}
use csse_332_final.Fs.Bitmap.{is_free, set_bit, clear_bit, mark, bfree}
use csse_332_final.Fs.Bitmap.Bits.{set_bits, clear_bits}

abbrev pub IsBytes : Block → Type 0
IsBytes a = (i : ℕ) → a i < 256

set_bit-IsBytes : (a : Block) (bi : ℕ) → IsBytes a → IsBytes (set_bit a bi)
unfolding set_bit
set_bit-IsBytes a bi v i = elim (ℕ_discrete (bi / 8) i) [
  | yes e ↦
      rw (update_self a (bi / 8) (bit_or (a (bi / 8)) (2 ^ (bi % 8))) e)
        (set_bits (a (bi / 8)) (bi % 8) 0 (v (bi / 8)) (omega arith) (omega arith)).0
  | no ne ↦ rw (update-ne a (bi / 8) (bit_or (a (bi / 8)) (2 ^ (bi % 8))) ne) (v i)
]

clear_bit-IsBytes : (a : Block) (bi : ℕ) → IsBytes a → IsBytes (clear_bit a bi)
unfolding clear_bit
clear_bit-IsBytes a bi v i = elim (ℕ_discrete (bi / 8) i) [
  | yes e ↦
      rw (update_self a (bi / 8) (bit_and (a (bi / 8)) (255 - 2 ^ (bi % 8))) e)
        (clear_bits (a (bi / 8)) (bi % 8) 0 (v (bi / 8)) (omega arith) (omega arith)).0
  | no ne ↦ rw (update-ne a (bi / 8) (bit_and (a (bi / 8)) (255 - 2 ^ (bi % 8))) ne) (v i)
]

-- Two bits of one byte are the same bit just where they have the same place in it.
same_place : (i j : ℕ) → i / 8 ≡ j / 8 → (i % 8 == j % 8) ≡ (i == j)
same_place i j e = elim (ℕ_discrete i j) [
  | yes s ↦ rw (==_eq i j s, ==_eq (i % 8) (j % 8) (omega arith))
  | no ne ↦ rw (==_ne i j ne, ==_ne (i % 8) (j % 8) (omega arith))
]

is_free-set_bit :
    (a : Block) (i j : ℕ)
    → IsBytes a
    → is_free (set_bit a i) j ≡ (if i == j then false else is_free a j)
unfolding is_free set_bit
is_free-set_bit a i j v = elim (ℕ_discrete (i / 8) (j / 8)) [
  | yes e ↦
      rw
        (
          update_self a (i / 8) (bit_or (a (i / 8)) (2 ^ (i % 8))) e,
          (set_bits (a (i / 8)) (i % 8) (j % 8) (v (i / 8)) (omega arith) (omega arith)).1,
          same_place i j e,
        )
        (ap (λ b. if i == j then false else bit_and (a b) (2 ^ (j % 8)) == 0) e)
  | no ne ↦ rw (update-ne a (i / 8) (bit_or (a (i / 8)) (2 ^ (i % 8))) ne, ==_ne i j (omega arith))
]

is_free-clear_bit :
    (a : Block) (i j : ℕ)
    → IsBytes a
    → is_free (clear_bit a i) j ≡ (if i == j then true else is_free a j)
unfolding is_free clear_bit
is_free-clear_bit a i j v = elim (ℕ_discrete (i / 8) (j / 8)) [
  | yes e ↦
      rw
        (
          update_self a (i / 8) (bit_and (a (i / 8)) (255 - 2 ^ (i % 8))) e,
          (clear_bits (a (i / 8)) (i % 8) (j % 8) (v (i / 8)) (omega arith) (omega arith)).1,
          same_place i j e,
        )
        (ap (λ b. if i == j then true else bit_and (a b) (2 ^ (j % 8)) == 0) e)
  | no ne ↦
      rw (update-ne a (i / 8) (bit_and (a (i / 8)) (255 - 2 ^ (i % 8))) ne, ==_ne i j (omega arith))
]

-- Whether the map has the block in use.
abbrev pub used : Superblock → Blocks → ℕ → Bool
used sb d b = not (is_free (d (bblock b sb)) (b % bpb))

-- The blocks of the map are bytes.
abbrev pub MapBytes : Superblock → Blocks → Type 0
MapBytes sb d = (b : ℕ) → IsBytes (d (bblock b sb))

-- Bits of one block of the map are the same just where the blocks are.
same_block :
    (sb : Superblock) (b x : ℕ) → bblock b sb ≡ bblock x sb → (b % bpb == x % bpb) ≡ (b == x)
same_block sb b x e = elim (ℕ_discrete b x) [
  | yes s ↦ rw (==_eq b x s, ==_eq (b % bpb) (x % bpb) (omega arith))
  | no ne ↦ rw (==_ne b x ne, ==_ne (b % bpb) (x % bpb) (omega arith))
]

not_if : (c b f : Bool) → not (if c then b else f) ≡ (if c then not b else not f)
not_if true b f = refl
not_if false b f = refl

pub mark-ne : (sb : Superblock) (b : ℕ) (d : Blocks) (c : ℕ) → c ≢ bblock b sb → mark sb b d c ≡ d c
unfolding mark
mark-ne sb b d c ne =
    update-ne d (bblock b sb) (set_bit (d (bblock b sb)) (b % bpb)) (λ e. ne (sym e))

module _ (sb : Superblock) (d : Blocks) (v : MapBytes sb d) where
  pub used-mark : (b x : ℕ) → used sb (mark sb b d) x ≡ (if b == x then true else used sb d x)
  unfolding mark
  used-mark b x = elim (ℕ_discrete (bblock b sb) (bblock x sb)) [
    | yes e ↦
        ap (λ a. not (is_free a (x % bpb)))
          (update_self d (bblock b sb) (set_bit (d (bblock b sb)) (b % bpb)) e)
        ∙ ap not (is_free-set_bit (d (bblock b sb)) (b % bpb) (x % bpb) (v b))
        ∙ rw (same_block sb b x e) (
            ap (λ n. not (if b == x then false else is_free (d n) (x % bpb))) e
            ∙ not_if (b == x) false (is_free (d (bblock x sb)) (x % bpb)))
    | no ne ↦
        ap (λ a. not (is_free a (x % bpb)))
          (update-ne d (bblock b sb) (set_bit (d (bblock b sb)) (b % bpb)) ne)
        ∙ rw (==_ne b x (λ e. ne (ap (λ n. bblock n sb) e)))
  ]

  pub mark-MapBytes : (b : ℕ) → MapBytes sb (mark sb b d)
  unfolding mark
  mark-MapBytes b x = elim (ℕ_discrete (bblock b sb) (bblock x sb)) [
    | yes e ↦
        subst IsBytes (sym (update_self d (bblock b sb) (set_bit (d (bblock b sb)) (b % bpb)) e))
          (set_bit-IsBytes (d (bblock b sb)) (b % bpb) (v b))
    | no ne ↦
        subst IsBytes (sym (update-ne d (bblock b sb) (set_bit (d (bblock b sb)) (b % bpb)) ne))
          (v x)
  ]

  -- What `bfree` leaves of the map, and where it panics.
  pub bfree_lem :
      (b : ℕ)
      → used sb d b ≡ true
      → (d' : Blocks) × (bfree sb b d ≡ returns d')
        × ((x : ℕ) → used sb d' x ≡ (if b == x then false else used sb d x))
        × MapBytes sb d'
        × ((c : ℕ) → c ≢ bblock b sb → d' c ≡ d c)
  unfolding bfree
  bfree_lem b h =
      let new = clear_bit (d (bblock b sb)) (b % bpb) in
      (
        update d (bblock b sb) new,
        rw (taken h),
        λ x. elim (ℕ_discrete (bblock b sb) (bblock x sb)) [
          | yes e ↦
              ap (λ a. not (is_free a (x % bpb))) (update_self d (bblock b sb) new e)
              ∙ ap not (is_free-clear_bit (d (bblock b sb)) (b % bpb) (x % bpb) (v b))
              ∙ rw (same_block sb b x e) (
                  ap (λ n. not (if b == x then true else is_free (d n) (x % bpb))) e
                  ∙ not_if (b == x) true (is_free (d (bblock x sb)) (x % bpb)))
          | no ne ↦
              ap (λ a. not (is_free a (x % bpb))) (update-ne d (bblock b sb) new ne)
              ∙ rw (==_ne b x (λ e. ne (ap (λ n. bblock n sb) e)))
        ],
        λ x. elim (ℕ_discrete (bblock b sb) (bblock x sb)) [
          | yes e ↦
              subst IsBytes (sym (update_self d (bblock b sb) new e))
                (clear_bit-IsBytes (d (bblock b sb)) (b % bpb) (v b))
          | no ne ↦ subst IsBytes (sym (update-ne d (bblock b sb) new ne)) (v x)
        ],
        λ c ne. update-ne d (bblock b sb) new (λ e. ne (sym e)),
      )
    where
      taken : used sb d b ≡ true → is_free (d (bblock b sb)) (b % bpb) ≡ false
      taken q = ground arith
