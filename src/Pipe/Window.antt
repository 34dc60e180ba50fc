-- ===== src/Pipe/Window.antt =====
-- kernel/pipe.c: the queue that a pipe holds.
use csse_332_final.Base.{
  ℕ, zero, suc, ◌+◌, ◌%◌, ◌^◌, ◌≤◌, ◌<◌, ◌≡◌, refl, ◌∙◌, ap, ap₂, ◌≢◌, List, [], ◌∷◌, ◌++◌, arith,
  length, update, update_self, update-ne,
}
use csse_332_final.Base.Words.{add32, sub32}
use csse_332_final.Pipe.{Pipe, pipe_size, put, front, advance}

-- the `n` bytes from counter `r` on
abbrev pub window : (ℕ → ℕ) → ℕ → ℕ → List ℕ
window bytes r zero = []
window bytes r (suc n) = bytes (r % pipe_size) ∷ window bytes (add32 r 1) n

-- The number of bytes held: the difference of two counters that wrap at 2^32.
abbrev pub count : Pipe → ℕ
count p = sub32 p.nwrite p.nread

abbrev pub contents : Pipe → List ℕ
contents p = window p.bytes p.nread (count p)

pub record IsValid (p : Pipe) : Type 0 where
  pub nread_fits : p.nread < 2 ^ 32
  pub nwrite_fits : p.nwrite < 2 ^ 32
  pub bounded : count p ≤ pipe_size

window-put :
    (bytes : ℕ → ℕ) (ch n r i : ℕ)
    → n < pipe_size
    → i ≡ (r + n) % 2 ^ 32 % pipe_size
    → window (update bytes i ch) r (suc n) ≡ window bytes r n ++ (ch ∷ [])
window-put bytes ch zero r i h e = ap (λ b. b ∷ []) (update_self bytes i ch (omega arith))
window-put bytes ch (suc n) r i h e =
    ap₂ ◌∷◌ (update-ne bytes i ch (omega arith))
      (window-put bytes ch n (add32 r 1) i (omega arith) (omega arith))

pub count-put :
    {p : Pipe} (ch : ℕ) → IsValid p → count p < pipe_size → count (put p ch) ≡ suc (count p)
count-put ch v h = omega arith

pub put-IsValid : {p : Pipe} (ch : ℕ) → IsValid p → count p < pipe_size → IsValid (put p ch)
put-IsValid ch v h = omega arith

-- A byte put into a pipe that is not full stands behind those that it holds.
pub contents-put :
    {p : Pipe} (ch : ℕ)
    → IsValid p
    → count p < pipe_size
    → contents (put p ch) ≡ contents p ++ (ch ∷ [])
contents-put {p} ch v h =
    ap (window (put p ch).bytes p.nread) (count-put ch v h)
    ∙ window-put p.bytes ch (count p) p.nread (p.nwrite % pipe_size) h (omega arith)

pub advance-IsValid : {p : Pipe} → IsValid p → p.nread ≢ p.nwrite → IsValid (advance p)
advance-IsValid v h = omega arith

pub count-advance : {p : Pipe} → IsValid p → p.nread ≢ p.nwrite → count p ≡ suc (count (advance p))
count-advance v h = omega arith

-- A pipe that is not empty holds its front and what is behind it.
pub contents-advance :
    {p : Pipe} → IsValid p → p.nread ≢ p.nwrite → contents p ≡ front p ∷ contents (advance p)
contents-advance {p} v h = ap (window p.bytes p.nread) (count-advance v h)

pub contents_empty : {p : Pipe} → IsValid p → p.nread ≡ p.nwrite → contents p ≡ []
contents_empty {p} v e = let z : count p ≡ 0 = omega arith in ap (window p.bytes p.nread) z

pub length-contents : (p : Pipe) → length (contents p) ≡ count p
length-contents p = length-window p.bytes p.nread (count p)
  where
    length-window : (bytes : ℕ → ℕ) (r n : ℕ) → length (window bytes r n) ≡ n
    length-window bytes r zero = refl
    length-window bytes r (suc n) = ap suc (length-window bytes (add32 r 1) n)
