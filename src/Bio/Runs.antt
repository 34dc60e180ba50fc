-- ===== src/Bio/Runs.antt =====
-- kernel/bio.c: the buffer cache from `binit` on.
use csse_332_final.Base.{
  ℕ, zero, suc, ◌+◌, ◌≤◌, ◌<◌, ◌≡◌, refl, arith, not, Option, none, some, List, [], ◌∷◌, ◌⊎◌, inl,
  inr, Bool-cases, ℕ_discrete, subst, returns, if◌then◌else◌, ◌==◌, All, All-map, length,
}
use csse_332_final.Base.Words.{sub32}
use csse_332_final.Bio.{
  n_buf, Sleeplock, Bcache, Links, set_buf, acquiresleep, link_front, link_bufs, empty_ring, binit,
  bget, lock_buf, read_in, pin_buf, unpin_buf, brelse,
}
use csse_332_final.Bio.Order.{In, remove}
use csse_332_final.Bio.Ring.{IsRing, link_front-IsRing}
use csse_332_final.Bio.Blocks.{IsCache, set_buf-IsCache, Released, brelse-Released, Gets, bget-Gets}

-- A call, in any process. A process changes the contents of a buffer that it holds.
pub data Step (c : Bcache) : Bcache → Type 0 where
  gets : (dev blockno : ℕ) {i : ℕ} {c' : Bcache} → bget dev blockno c ≡ returns (i, c') → Step c c'
  locks : (me i : ℕ) {c' : Bcache} → lock_buf me i c ≡ some c' → Step c c'
  reads : (disk : ℕ → ℕ → ℕ → ℕ) (i : ℕ) → Step c (read_in disk i c)
  writes : (i : ℕ) (words : ℕ → ℕ) → Step c (set_buf c i (record (c.buf i) { words = words }))
  releases : (me i : ℕ) {c' : Bcache} → i < n_buf → brelse me i c ≡ returns c' → Step c c'
  pins : (i : ℕ) → Step c (pin_buf i c)
  unpins : (i : ℕ) → Step c (unpin_buf i c)

pub data Reach (s : Bcache) : Bcache → Type 0 where
  here : Reach s s
  next : {t u : Bcache} → Reach s t → Step t u → Reach s u

lock_buf-IsCache :
    (me i : ℕ) (l : List ℕ) (c : Bcache) {c' : Bcache}
    → lock_buf me i c ≡ some c'
    → IsCache l c
    → IsCache l c'
unfolding lock_buf
lock_buf-IsCache me i l c e v = go (acquiresleep me (c.buf i).lock) e
  where
    Kept : Option Bcache → Type 0
    Kept none = Unit {0}
    Kept (some d) = IsCache l d

    locked : Option Sleeplock → Option Bcache
    locked none = none
    locked (some lk) = some (set_buf c i (record (c.buf i) { lock = lk }))

    kept : (o : Option Sleeplock) → Kept (locked o)
    kept none = tt
    kept (some lk) = set_buf-IsCache l c i (record (c.buf i) { lock = lk }) (refl, refl) v

    go : (o : Option Sleeplock) {c' : Bcache} → locked o ≡ some c' → IsCache l c'
    go o e = subst Kept e (kept o)

read_in-IsCache :
    (disk : ℕ → ℕ → ℕ → ℕ) (i : ℕ) (l : List ℕ) (c : Bcache)
    → IsCache l c
    → IsCache l (read_in disk i c)
unfolding read_in
read_in-IsCache disk i l c v = elim (Bool-cases (not (c.buf i).valid)) [
  | inl e ↦ rw e (set_buf-IsCache l c i _ (refl, refl) v)
  | inr e ↦ rw e v
]

Step-IsCache :
    (l : List ℕ) {c c' : Bcache} → Step c c' → IsCache l c → (l' : List ℕ) × IsCache l' c'
Step-IsCache l {c} (gets dev blockno {i} {c'} e) v =
    (l, (subst (Gets dev blockno l c) e (bget-Gets dev blockno l c v)).4)
Step-IsCache l (locks me i e) v = (l, lock_buf-IsCache me i l _ e v)
Step-IsCache l (reads disk i) v = (l, read_in-IsCache disk i l _ v)
Step-IsCache l {c} (writes i words) v =
    (l, set_buf-IsCache l c i (record (c.buf i) { words = words }) (refl, refl) v)
Step-IsCache l {c} (releases me i h e) v = (
  if sub32 (c.buf i).refcnt 1 == 0 then i ∷ remove i l else l,
  (subst (Released me i l c) e (brelse-Released me i l c h v)).4,
)
Step-IsCache l {c} (pins i) v = (l, set_buf-IsCache l c i _ (refl, refl) v)
Step-IsCache l {c} (unpins i) v = (l, set_buf-IsCache l c i _ (refl, refl) v)

-- The buffers from `i` on, each in front of those before it.
abbrev bufs_onto : ℕ → ℕ → List ℕ → List ℕ
bufs_onto zero i l = l
bufs_onto (suc k) i l = bufs_onto k (i + 1) (i ∷ l)

In-bufs_onto : (k i x : ℕ) (l : List ℕ) → In x l ⊎ ((i ≤ x) × (x < i + k)) → In x (bufs_onto k i l)
In-bufs_onto zero i x l (inl m) = m
In-bufs_onto zero i x l (inr h) = absurd (omega (arith, h.0, h.1))
In-bufs_onto (suc k) i x l (inl m) = In-bufs_onto k (i + 1) x (i ∷ l) (inl (inr m))
In-bufs_onto (suc k) i x l (inr h) = elim (ℕ_discrete x i) [
  | yes e ↦ In-bufs_onto k (i + 1) x (i ∷ l) (inl (inl e))
  | no ne ↦ In-bufs_onto k (i + 1) x (i ∷ l) (inr (omega (arith, h.0, ne), omega (arith, h.1)))
]

-- The rounds of `binit` from a ring of the buffers below `i`.
link_bufs-IsRing :
    (k i : ℕ) (r : Links) (l : List ℕ)
    → i + k ≤ n_buf
    → All (λ x. x < i) l
    → IsRing r l
    → IsRing (link_bufs k i r) (bufs_onto k i l)
      × All (λ x. x < i + k) (bufs_onto k i l)
      × (length (bufs_onto k i l) ≡ k + length l)
unfolding link_bufs
link_bufs-IsRing zero i r l h b v = (v, All-map (λ x q. omega (arith, q)) l b, omega arith)
link_bufs-IsRing (suc k) i r l h b v =
    let (w, c, n) =
      link_bufs-IsRing k (i + 1) (link_front i r) (i ∷ l) (omega (arith, h))
        (omega arith, All-map (λ x q. omega (arith, q)) l b)
        (link_front-IsRing i r l (All-map (λ x q. omega (arith, q)) l b) (omega (arith, h)) v) in
    (w, All-map (λ x q. omega (arith, q)) (bufs_onto k (i + 1) (i ∷ l)) c, omega (arith, n))

pub binit-IsCache : IsCache (bufs_onto n_buf 0 []) binit
unfolding binit
binit-IsCache =
    let (w, c, n) = link_bufs-IsRing n_buf 0 empty_ring [] (omega arith) tt empty in
    record {
      ring = w;
      size = n;
      complete = λ i l. In-bufs_onto n_buf 0 i [] (inr (omega arith, omega (arith, l)));
      inside = c;
      unique = λ i j li lj ne r. absurd (ne refl);
    }
  where
    empty : IsRing empty_ring []
    empty = record { linked = (refl, refl); distinct = tt; no_head = tt }

-- From `binit` on, in any order of calls of any processes, the pointers form a ring of just the buffers of
-- the array, and each block of a device is in one buffer at most.
pub Reach-IsCache : {c : Bcache} → Reach binit c → (l : List ℕ) × IsCache l c
Reach-IsCache here = (bufs_onto n_buf 0 [], binit-IsCache)
Reach-IsCache (next r st) = let (l, v) = Reach-IsCache r in Step-IsCache l st v
