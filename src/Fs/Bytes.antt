-- ===== src/Fs/Bytes.antt =====
-- Little-endian numbers in the bytes of a block.
use csse_332_final.Base.{ℕ, ◌+◌, ◌*◌, ◌/◌, ◌%◌, ◌^◌, ◌≤◌, ◌<◌, ◌≡◌, ◌⊎◌, inl, inr, arith, update}
use csse_332_final.Fs.{Block}

abbrev pub get16 : Block → ℕ → ℕ
get16 a i = a i + 256 * a (i + 1)

abbrev pub get32 : Block → ℕ → ℕ
get32 a i = a i + 256 * (a (i + 1) + 256 * (a (i + 2) + 256 * a (i + 3)))

pub put16 : ℕ → ℕ → Block → Block
put16 i v a = update (update a i (v % 256)) (i + 1) (v / 256 % 256)

pub put32 : ℕ → ℕ → Block → Block
put32 i v a =
    update
      (update (update (update a i (v % 256)) (i + 1) (v / 256 % 256)) (i + 2) (v / 65536 % 256))
      (i + 3) (v / 16777216 % 256)

-- Bytes outside the number are left alone.
abbrev pub Outside : ℕ → ℕ → ℕ → Type 0
Outside i n j = (j < i) ⊎ (i + n ≤ j)

pub put16-ne : (i v j : ℕ) (a : Block) → Outside i 2 j → put16 i v a j ≡ a j
unfolding put16
put16-ne i v j a (inl l) = ground (arith)
put16-ne i v j a (inr l) = ground (arith)

pub put32-ne : (i v j : ℕ) (a : Block) → Outside i 4 j → put32 i v a j ≡ a j
unfolding put32
put32-ne i v j a (inl l) = ground (arith)
put32-ne i v j a (inr l) = ground (arith)

pub get16-put16 : (i v : ℕ) (a : Block) → v < 2 ^ 16 → get16 (put16 i v a) i ≡ v
unfolding put16
get16-put16 i v a h = ground arith

pub byte-put32 :
    (i v : ℕ) (a : Block)
    → (put32 i v a i ≡ v % 256)
      × (put32 i v a (i + 1) ≡ v / 256 % 256)
      × (put32 i v a (i + 2) ≡ v / 65536 % 256)
      × (put32 i v a (i + 3) ≡ v / 16777216 % 256)
unfolding put32
byte-put32 i v a = (ground arith, ground arith, ground arith, ground arith)

pub get32-put32 : (i v : ℕ) (a : Block) → v < 2 ^ 32 → get32 (put32 i v a) i ≡ v
get32-put32 i v a h = let b = byte-put32 i v a in omega (arith, b.0, b.1, b.2, b.3)

-- A number that does not overlap the one that is stored.
abbrev pub Apart : ℕ → ℕ → ℕ → ℕ → Type 0
Apart i n j m = (j + m ≤ i) ⊎ (i + n ≤ j)

pub inside : (i n j m k : ℕ) → Apart i n j m → j ≤ k → k < j + m → Outside i n k
inside i n j m k (inl l) a b = inl (omega arith)
inside i n j m k (inr l) a b = inr (omega arith)

pub get16-ne : (a a' : Block) (j : ℕ) → a' j ≡ a j → a' (j + 1) ≡ a (j + 1) → get16 a' j ≡ get16 a j
get16-ne a a' j e f = omega arith

pub get32-ne :
    (a a' : Block) (j : ℕ) → ((k : ℕ) → j ≤ k → k < j + 4 → a' k ≡ a k) → get32 a' j ≡ get32 a j
get32-ne a a' j e = omega (
  arith,
  e j (omega arith) (omega arith),
  e (j + 1) (omega arith) (omega arith),
  e (j + 2) (omega arith) (omega arith),
  e (j + 3) (omega arith) (omega arith),
)

pub get32-put32_elsewhere :
    (i v j : ℕ) (a : Block) → Apart i 4 j 4 → get32 (put32 i v a) j ≡ get32 a j
get32-put32_elsewhere i v j a h =
    get32-ne a (put32 i v a) j (λ k l m. put32-ne i v k a (inside i 4 j 4 k h l m))

pub put32-byte : (i v j : ℕ) (a : Block) → a j < 256 → put32 i v a j < 256
unfolding put32
put32-byte i v j a h = ground (arith, h)
