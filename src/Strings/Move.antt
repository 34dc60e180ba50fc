-- ===== src/Strings/Move.antt =====
-- kernel/string.c: `memset` and `memmove`, byte by byte.
use csse_332_final.Base.{
  ◌%◌, ℕ, zero, suc, ◌+◌, ◌-◌, ◌≤◌, ◌≡◌, ◌⊎◌, inl, inr, Bool, false, ◌&&◌, arith, leb, ltb,
  if◌then◌else◌, Bool-cases, update, ==_ne, ◌∙◌,
}
use csse_332_final.Strings.{Memory, memset, copy_down, copy_up, memmove}

-- Whether the address `a` is one of the `n` from `dst` on.
abbrev pub is_within : ℕ → ℕ → ℕ → Bool
is_within dst n a = leb dst a && ltb a (dst + n)

pub memset_lem :
    (dst c n : ℕ) (m : Memory) (a : ℕ)
    → memset dst c n m a ≡ (if is_within dst n a then c % 256 else m a)
unfolding memset
memset_lem dst c zero m a = ground arith
memset_lem dst c (suc n) m a = memset_lem (dst + 1) c n (update m dst (c % 256)) a ∙ ground arith

copy_up_lem :
    (n dst src : ℕ) (m : Memory) (a : ℕ)
    → (dst ≤ src) ⊎ (src + n ≤ dst)
    → copy_up n dst src m a ≡ (if is_within dst n a then m (src + (a - dst)) else m a)
unfolding copy_up
copy_up_lem zero dst src m a h = ground arith
copy_up_lem (suc n) dst src m a h =
    copy_up_lem n (dst + 1) (src + 1) (update m dst (m src)) a (apart h) ∙ step h
  where
    apart : (dst ≤ src) ⊎ (src + suc n ≤ dst) → (dst + 1 ≤ src + 1) ⊎ (src + 1 + n ≤ dst + 1)
    apart (inl l) = inl (omega arith)
    apart (inr l) = inr (omega arith)

    step :
        (dst ≤ src) ⊎ (src + suc n ≤ dst)
        → (if is_within (dst + 1) n a
            then update m dst (m src) (src + 1 + (a - (dst + 1)))
            else update m dst (m src) a)
          ≡ (if is_within dst (suc n) a then m (src + (a - dst)) else m a)
    step (inl l) = ground arith
    step (inr l) = ground arith

copy_down_lem :
    (n d s : ℕ) (m : Memory) (a : ℕ)
    → n ≤ s
    → s ≤ d
    → copy_down n d s m a ≡ (if is_within (d - n) n a then m (s - n + (a - (d - n))) else m a)
unfolding copy_down
copy_down_lem zero d s m a h l = ground arith
copy_down_lem (suc n) d s m a h l =
    copy_down_lem n (d - 1) (s - 1) (update m (d - 1) (m (s - 1))) a (omega arith) (omega arith)
    ∙ ground arith

-- `memmove` gives the destination the bytes that the source had before the call, also where the
-- two overlap, and changes no other byte.
pub memmove_moves :
    (dst src n : ℕ) (m : Memory) (a : ℕ)
    → memmove dst src n m a ≡ (if is_within dst n a then m (src + (a - dst)) else m a)
unfolding memmove
memmove_moves dst src zero m a = ground arith
memmove_moves dst src (suc n) m a = elim (Bool-cases (ltb src dst && ltb dst (src + suc n))) [
  | inl overlap ↦
      rw (==_ne (suc n) 0 (omega arith), overlap)
        (copy_down_lem (suc n) (dst + suc n) (src + suc n) m a (omega arith)
            (ground (arith, overlap))
          ∙ ground arith)
  | inr apart ↦
      rw (==_ne (suc n) 0 (omega arith), apart) (copy_up_lem (suc n) dst src m a (sides apart))
]
  where
    sides : (ltb src dst && ltb dst (src + suc n)) ≡ false → (dst ≤ src) ⊎ (src + suc n ≤ dst)
    sides h = ground (arith, h)
