-- ===== src/Bio/Blocks.antt =====
-- kernel/bio.c: no two buffers hold one block, over any interleaving of the calls.
use csse_332_final.Base.{
  ℕ, ◌<◌, ◌≡◌, ◌≢◌, refl, ◌∙◌, sym, ap, arith, true, false, Option, none, some, List, [], ◌∷◌, ◌⊎◌,
  inl, inr, Bool-cases, ◌==◌, ℕ_discrete, if◌then◌else◌, subst, Run, returns, panics, update,
  update_self, update-ne, All, length,
}
use csse_332_final.Base.Words.{add32, sub32}
use csse_332_final.Bio.{
  n_buf, head, Buf, Bcache, set_buf, releasesleep, holdingsleep, find_block, find_unused, hit,
  recycle, bget, link_front, unlink, brelse,
}
use csse_332_final.Bio.Order.{In, remove, In-front, All-remove, length-remove}
use csse_332_final.Bio.Ring.{IsRing, front-IsRing}
use csse_332_final.Bio.Search.{
  IsBlock, Finds, find_block-Finds, IsLast, find_unused-IsLast, In-middle,
}

-- The ring has the buffers of the array, in the order of the list, and each block of a device is in one of
-- them at most. Device 0, which `binit` leaves in every buffer, is no device.
pub record IsCache (l : List ℕ) (c : Bcache) : Type 0 where
  pub ring : IsRing c.links l
  pub size : length l ≡ n_buf
  pub complete : (i : ℕ) → i < n_buf → In i l
  pub inside : All (λ i. i < n_buf) l
  pub unique :
      (i j : ℕ)
      → i < n_buf
      → j < n_buf
      → (c.buf i).dev ≢ 0
      → IsBlock (c.buf i).dev (c.buf i).blockno (c.buf j)
      → i ≡ j

All-In : (P : ℕ → Type 0) (l : List ℕ) → All P l → (i : ℕ) → In i l → P i
All-In P [] h i m = absurd m
All-In P (x ∷ l) h i (inl e) = subst P (sym e) h.0
All-In P (x ∷ l) h i (inr m) = All-In P l h.1 i m

-- A change of a buffer that leaves it its block.
pub set_buf-IsCache :
    (l : List ℕ) (c : Bcache) (i : ℕ) (b : Buf)
    → IsBlock (c.buf i).dev (c.buf i).blockno b
    → IsCache l c
    → IsCache l (set_buf c i b)
set_buf-IsCache l c i b same v = record {
  ring = v.ring;
  size = v.size;
  complete = v.complete;
  inside = v.inside;
  unique = λ j k lj lk ne r.
      let ej = keeps j in
      let ek = keeps k in
      v.unique j k lj lk (λ z. ne (ej.0 ∙ z)) (sym ek.0 ∙ r.0 ∙ ej.0, sym ek.1 ∙ r.1 ∙ ej.1);
}
  where
    keeps : (j : ℕ) → IsBlock (c.buf j).dev (c.buf j).blockno (update c.buf i b j)
    keeps j = elim (ℕ_discrete i j) [
      | yes e ↦
          let u = update_self c.buf i b e in
          (
            ap (λ (x : Buf). x.dev) u ∙ same.0 ∙ ap (λ n. (c.buf n).dev) e,
            ap (λ (x : Buf). x.blockno) u ∙ same.1 ∙ ap (λ n. (c.buf n).blockno) e,
          )
      | no ne ↦
          let u = update-ne c.buf i b ne in
          (ap (λ (x : Buf). x.dev) u, ap (λ (x : Buf). x.blockno) u)
    ]

-- A buffer for a block that no buffer has.
fresh-IsCache :
    (l : List ℕ) (c : Bcache) (i : ℕ) (b : Buf)
    → ((j : ℕ) → j < n_buf → IsBlock b.dev b.blockno (c.buf j) → ⊥)
    → IsCache l c
    → IsCache l (set_buf c i b)
fresh-IsCache l c i b alone v = record {
  ring = v.ring;
  size = v.size;
  complete = v.complete;
  inside = v.inside;
  unique = λ j k lj lk ne r. elim (ℕ_discrete i j) [
    | yes ej ↦ elim (ℕ_discrete i k) [
      | yes ek ↦ sym ej ∙ ek
      | no nk ↦
          let uj = update_self c.buf i b ej in
          let uk = update-ne c.buf i b nk in
          absurd (
            alone k lk (
              sym (ap (λ (x : Buf). x.dev) uk) ∙ r.0 ∙ ap (λ (x : Buf). x.dev) uj,
              sym (ap (λ (x : Buf). x.blockno) uk) ∙ r.1 ∙ ap (λ (x : Buf). x.blockno) uj,
            ))
    ]
    | no nj ↦ elim (ℕ_discrete i k) [
      | yes ek ↦
          let uj = update-ne c.buf i b nj in
          let uk = update_self c.buf i b ek in
          absurd (
            alone j lj (
              sym (ap (λ (x : Buf). x.dev) uj) ∙ sym r.0 ∙ ap (λ (x : Buf). x.dev) uk,
              sym (ap (λ (x : Buf). x.blockno) uj) ∙ sym r.1 ∙ ap (λ (x : Buf). x.blockno) uk,
            ))
      | no nk ↦
          let uj = update-ne c.buf i b nj in
          let uk = update-ne c.buf i b nk in
          v.unique j k lj lk (λ z. ne (ap (λ (x : Buf). x.dev) uj ∙ z))
            (
              sym (ap (λ (x : Buf). x.dev) uk) ∙ r.0 ∙ ap (λ (x : Buf). x.dev) uj,
              sym (ap (λ (x : Buf). x.blockno) uk) ∙ r.1 ∙ ap (λ (x : Buf). x.blockno) uj,
            )
    ]
  ];
}

front-IsCache :
    (i : ℕ) (l : List ℕ) (c : Bcache)
    → i < n_buf
    → IsCache l c
    → IsCache (i ∷ remove i l) (record c { links = link_front i (unlink i c.links) })
front-IsCache i l c h v = record {
  ring = front-IsRing i c.links l (v.complete i h) v.ring;
  size = sym (length-remove i l (v.complete i h)) ∙ v.size;
  complete = λ j lj. In-front i j l (v.complete j lj);
  inside = (h, All-remove (λ j. j < n_buf) i l v.inside);
  unique = v.unique;
}

-- What `brelse` leaves.
abbrev pub Released : ℕ → ℕ → List ℕ → Bcache → Run Bcache → Type 0
Released me i l c (panics s) = holdingsleep me (c.buf i).lock ≡ false
Released me i l c (returns c') =
    (holdingsleep me (c.buf i).lock ≡ true)
    × ((c'.buf i).refcnt ≡ sub32 (c.buf i).refcnt 1)
    × ((c'.buf i).lock.locked ≡ false)
    × ((j : ℕ) → j ≢ i → c'.buf j ≡ c.buf j)
    × IsCache (if sub32 (c.buf i).refcnt 1 == 0 then i ∷ remove i l else l) c'

-- `brelse` panics just where the process does not hold the lock. Else it frees the lock and drops a
-- reference; with the last one the buffer moves to the front of the ring, as the most recently used, and
-- all others keep their order. No other buffer is changed, and each block stays in one buffer at most.
pub brelse-Released :
    (me i : ℕ) (l : List ℕ) (c : Bcache)
    → i < n_buf
    → IsCache l c
    → Released me i l c (brelse me i c)
unfolding brelse
brelse-Released me i l c h v = elim (Bool-cases (holdingsleep me (c.buf i).lock)) [
  | inr e ↦ rw (e, brelse) e
  | inl e ↦ elim (Bool-cases (sub32 (c.buf i).refcnt 1 == 0)) [
    | inl z ↦
        rw (e, z)
          (
            e,
            ap (λ (x : Buf). x.refcnt) at,
            ap (λ (x : Buf). x.lock.locked) at,
            others,
            rw z (front-IsCache i l (set_buf c i b) h kept),
          )
    | inr z ↦
        rw (e, z)
          (e, ap (λ (x : Buf). x.refcnt) at, ap (λ (x : Buf). x.lock.locked) at, others, rw z kept)
  ]
]
  where
    b : Buf
    b = record (c.buf i) { lock = releasesleep (c.buf i).lock; refcnt = sub32 (c.buf i).refcnt 1 }

    at : update c.buf i b i ≡ b
    at = update_self c.buf i b refl

    others : (j : ℕ) → j ≢ i → update c.buf i b j ≡ c.buf j
    others j ne = update-ne c.buf i b (λ e. ne (sym e))

    kept : IsCache l (set_buf c i b)
    kept = set_buf-IsCache l c i b (refl, refl) v

-- What `bget` answers.
abbrev pub Gets : ℕ → ℕ → List ℕ → Bcache → Run (ℕ × Bcache) → Type 0
Gets dev blockno l c (panics s) =
    ((j : ℕ) → j < n_buf → IsBlock dev blockno (c.buf j) → ⊥)
    × ((j : ℕ) → j < n_buf → (c.buf j).refcnt ≢ 0)
Gets dev blockno l c (returns (i, c')) =
    (i < n_buf)
    × IsBlock dev blockno (c'.buf i)
    × ((j : ℕ) → j ≢ i → c'.buf j ≡ c.buf j)
    × ((IsBlock dev blockno (c.buf i)
          × ((c'.buf i).refcnt ≡ add32 (c.buf i).refcnt 1)
          × ((c'.buf i).valid ≡ (c.buf i).valid)
          × ((c'.buf i).words ≡ (c.buf i).words))
        ⊎ (((j : ℕ) → j < n_buf → IsBlock dev blockno (c.buf j) → ⊥)
            × IsLast c.buf l (some i)
            × ((c'.buf i).refcnt ≡ 1)
            × ((c'.buf i).valid ≡ false)))
    × IsCache l c'

-- `bget` answers the buffer that has the block, with its contents and one reference more. Where none has
-- it, it answers the buffer for it that was released the longest ago of those not in use, without contents;
-- it panics where all are in use. It changes no other buffer, and no two buffers get one block.
pub bget-Gets :
    (dev blockno : ℕ) (l : List ℕ) (c : Bcache)
    → IsCache l c
    → Gets dev blockno l c (bget dev blockno c)
unfolding bget
bget-Gets dev blockno l c v =
    go (find_block dev blockno c.buf c.links.next n_buf (c.links.next head))
      (find_unused c.buf c.links.prev n_buf (c.links.prev head))
      (find_block-Finds dev blockno c.buf c.links n_buf head l (omega (arith, v.size))
        v.ring.no_head v.ring.linked)
      (find_unused-IsLast c.buf c.links n_buf l (omega (arith, v.size)) v.ring)
  where
    at : (i : ℕ) (b : Buf) → update c.buf i b i ≡ b
    at i b = update_self c.buf i b refl

    go :
        (o u : Option ℕ)
        → Finds dev blockno c.buf l o
        → IsLast c.buf l u
        → Gets dev blockno l c (elim o [
          | some i ↦ returns (i, hit i c)
          | none ↦ elim u [
            | some i ↦ returns (i, recycle dev blockno i c)
            | none ↦ panics "bget: no buffers"
          ]
        ])
    go (some i) u f h =
        let b = record (c.buf i) { refcnt = add32 (c.buf i).refcnt 1 } in
        (
          All-In (λ i. i < n_buf) l v.inside i f.0,
          (ap (λ (x : Buf). x.dev) (at i b) ∙ f.1.0, ap (λ (x : Buf). x.blockno) (at i b) ∙ f.1.1),
          λ j ne. update-ne c.buf i b (λ e. ne (sym e)),
          inl (
            f.1,
            ap (λ (x : Buf). x.refcnt) (at i b),
            ap (λ (x : Buf). x.valid) (at i b),
            ap (λ (x : Buf). x.words) (at i b),
          ),
          set_buf-IsCache l c i b (refl, refl) v,
        )
    go none (some i) f h =
        let b = record (c.buf i) { dev = dev; blockno = blockno; valid = false; refcnt = 1 } in
        let alone : (j : ℕ) → j < n_buf → IsBlock dev blockno (c.buf j) → ⊥ =
          λ j l r. f j (v.complete j l) r in
        (
          All-In (λ i. i < n_buf) l v.inside i (subst (In i) (sym h.2) (In-middle h.0 h.1 i)),
          (ap (λ (x : Buf). x.dev) (at i b), ap (λ (x : Buf). x.blockno) (at i b)),
          λ j ne. update-ne c.buf i b (λ e. ne (sym e)),
          inr (alone, h, ap (λ (x : Buf). x.refcnt) (at i b), ap (λ (x : Buf). x.valid) (at i b)),
          fresh-IsCache l c i b alone v,
        )
    go none none f h = (λ j l r. f j (v.complete j l) r, λ j l. h j (v.complete j l))
