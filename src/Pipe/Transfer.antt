-- ===== src/Pipe/Transfer.antt =====
-- kernel/pipe.c: the copying loops of `pipewrite` and `piperead` against the queue of the pipe.
use csse_332_final.Base.{
  ℕ, zero, suc, ◌+◌, ◌≤◌, ◌<◌, ◌≡◌, ◌⊎◌, Bool, true, false, Option, none, some, List, [], ◌∷◌, ◌++◌,
  length,
}
use csse_332_final.Pipe.{Pipe, pipe_size, WriteEnd, gone, full, wrote}
use csse_332_final.Pipe.Window.{count, contents, IsValid}

-- `m` bytes of user memory from `a` on
abbrev pub user_bytes : (ℕ → Option ℕ) → ℕ → ℕ → List ℕ
user_bytes copyin a zero = []
user_bytes copyin a (suc m) = byte (copyin a) ∷ user_bytes copyin (a + 1) m
  where
    byte : Option ℕ → ℕ
    byte none = 0
    byte (some b) = b

-- `m` bytes from `a` on were readable and went, in order, to the end of the queue of `p`.
pub record Appended (copyin : ℕ → Option ℕ) (a : ℕ) (p : Pipe) (m : ℕ) (p' : Pipe) : Type 0 where
  pub valid : IsValid p'
  pub queue : contents p' ≡ contents p ++ user_bytes copyin a m
  pub reader : p'.readopen ≡ p.readopen
  pub writer : p'.writeopen ≡ p.writeopen

-- What each end of the loop means: `full` has a full ring, and `wrote` has written all `k` bytes or
-- met an address that the page table refuses.
abbrev pub Writes : (ℕ → Option ℕ) → (ℕ → Bool) → ℕ → Pipe → ℕ → ℕ → WriteEnd → Type 0
Writes copyin killed addr p i k (gone p') =
    (m : ℕ) × (m < k)
    × Appended copyin (addr + i) p m p'
    × ((p.readopen ≡ false) ⊎ (killed (i + m) ≡ true))
Writes copyin killed addr p i k (full p' j) =
    (m : ℕ) × (m < k) × Appended copyin (addr + i) p m p' × (j ≡ i + m) × (count p' ≡ pipe_size)
Writes copyin killed addr p i k (wrote p' j) =
    (m : ℕ) × (m ≤ k)
    × Appended copyin (addr + i) p m p'
    × (j ≡ i + m)
    × ((m ≡ k) ⊎ (copyin (addr + j) ≡ none))

-- What the loop of `piperead` does: the bytes stored are the front of the queue, in order, and are
-- counted; it stops with `k` bytes, with an empty pipe, or at an address that `copyout` refuses,
-- where one more byte has left the pipe.
pub record Reads (copyout : ℕ → Bool) (addr : ℕ) (p : Pipe) (i k : ℕ) (out : List ℕ × Pipe × ℕ)
    : Type 0 where
  pub valid : IsValid out.1
  pub lost : List ℕ
  pub queue : contents p ≡ out.0 ++ (lost ++ contents out.1)
  pub counted : out.2 ≡ i + length out.0
  pub ended :
      ((lost ≡ []) × ((length out.0 ≡ k) ⊎ (contents out.1 ≡ [])))
      ⊎ ((length lost ≡ 1) × (copyout (addr + out.2) ≡ false))
