-- ===== src/Audit/Entries.antt =====
-- kernel/syscall.c: the text of one log entry.
use csse_332_final.Base.{
  ℕ, zero, suc, ◌+◌, ◌≤◌, ◌<◌, ◌≡◌, refl, ◌∙◌, ap, ap₂, ◌⊎◌, List, [], ◌∷◌, ◌++◌, arith, length,
  take, update, update-ne, update_self, length-append, length-take,
}
use csse_332_final.Audit.{Lines, put_bytes, plain_entry}

-- `n` bytes of memory from `at` on
abbrev pub slice : (ℕ → ℕ) → ℕ → ℕ → List ℕ
slice buff at zero = []
slice buff at (suc n) = buff at ∷ slice buff (at + 1) n

slice_ext :
    (b c : ℕ → ℕ) (at n : ℕ)
    → ((j : ℕ) → at ≤ j → j < at + n → b j ≡ c j)
    → slice b at n ≡ slice c at n
slice_ext b c at zero h = refl
slice_ext b c at (suc n) h =
    ap₂ ◌∷◌ (h at (omega arith) (omega arith))
      (slice_ext b c (at + 1) n (λ j l u. h j (omega arith) (omega arith)))

slice-append : (b : ℕ → ℕ) (at m n : ℕ) → slice b at (m + n) ≡ slice b at m ++ slice b (at + m) n
slice-append b at zero n =
    let e : zero + n ≡ n = omega arith in let e' : at + zero ≡ at = omega arith in rw (e, e')
slice-append b at (suc m) n =
    let e : suc m + n ≡ suc (m + n) = omega arith in
    let e' : at + 1 + m ≡ at + suc m = omega arith in
    rw e (ap (λ r. b at ∷ r) (rw (← e') (slice-append b (at + 1) m n)))

put_bytes-outside :
    (s : List ℕ) (at : ℕ) (b : ℕ → ℕ) (j : ℕ)
    → (j < at) ⊎ (at + length s ≤ j)
    → put_bytes s at b j ≡ b j
unfolding put_bytes
put_bytes-outside [] at b j h = refl
put_bytes-outside (c ∷ s) at b j h =
    put_bytes-outside s (at + 1) (update b at c) j (omega arith) ∙ update-ne b at c (omega arith)

slice-put_bytes :
    (s : List ℕ) (at : ℕ) (b : ℕ → ℕ) (k : ℕ)
    → k ≤ length s
    → slice (put_bytes s at b) at k ≡ take k s
unfolding put_bytes
slice-put_bytes s at b zero h = refl
slice-put_bytes [] at b (suc k) h = absurd (omega arith)
slice-put_bytes (c ∷ s) at b (suc k) h =
    ap₂ ◌∷◌
      (put_bytes-outside s (at + 1) (update b at c) at (omega arith) ∙ update_self b at c refl)
      (slice-put_bytes s (at + 1) (update b at c) k (omega arith))

take_all : (s : List ℕ) → take (length s) s ≡ s
take_all [] = refl
take_all (c ∷ s) = ap (λ r. c ∷ r) (take_all s)

-- A slice of `n` bytes is made of a first part and the rest.
slice_split :
    (b : ℕ → ℕ) (at mid m n : ℕ) {xs ys : List ℕ}
    → at + m ≡ mid
    → slice b at m ≡ xs
    → slice b mid n ≡ ys
    → slice b at (m + n) ≡ xs ++ ys
slice_split b at mid m n e p q = slice-append b at m n ∙ ap₂ ◌++◌ p (rw e q)

slice-update_out :
    (b : ℕ → ℕ) (i v at n : ℕ) → (i < at) ⊎ (at + n ≤ i) → slice (update b i v) at n ≡ slice b at n
slice-update_out b i v at n h =
    slice_ext (update b i v) b at n (λ j l u. update-ne b i v (omega arith))

slice-put_out :
    (s : List ℕ) (b : ℕ → ℕ) (to at n : ℕ)
    → (to + length s ≤ at) ⊎ (at + n ≤ to)
    → slice (put_bytes s to b) at n ≡ slice b at n
slice-put_out s b to at n h =
    slice_ext (put_bytes s to b) b at n (λ j l u. put_bytes-outside s to b j (by_side l u))
  where
    by_side : {j : ℕ} → at ≤ j → j < at + n → (j < to) ⊎ (to + length s ≤ j)
    by_side l u = omega arith

-- Where the call's name is no shorter than the process's, the entry of a call without a file keeps
-- only as many bytes of the call's name as the process's name has; `offset` passes the line end.
pub plain_entry-text :
    (name call : List ℕ) (l : Lines)
    → length name ≤ length call
    → let l' = plain_entry name call l in
      let text = name ++ (9 ∷ (take (length name) call ++ (10 ∷ []))) in
      (slice l'.buff l.offset (length text) ≡ text) × (l'.offset ≡ l.offset + length text)
unfolding plain_entry
plain_entry-text name call l h = (rw size text, omega (arith, size))
  where
    b1 : ℕ → ℕ
    b1 = update (put_bytes name l.offset l.buff) (l.offset + length name) 9

    b2 : ℕ → ℕ
    b2 = put_bytes call (l.offset + length name + 1) b1

    b3 : ℕ → ℕ
    b3 = update b2 (l.offset + length name + 1 + length name) 10

    size :
        length (name ++ (9 ∷ (take (length name) call ++ (10 ∷ []))))
        ≡ length name + suc (length name + 1)
    size = omega (
      arith,
      length-append name (9 ∷ (take (length name) call ++ (10 ∷ []))),
      length-append (take (length name) call) (10 ∷ []),
      length-take (length name) call,
    )

    text :
        slice b3 l.offset (length name + suc (length name + 1))
        ≡ name ++ (9 ∷ (take (length name) call ++ (10 ∷ [])))
    text =
        slice_split b3 l.offset (l.offset + length name) (length name) (suc (length name + 1)) refl
          (slice-update_out b2 (l.offset + length name + 1 + length name) 10 l.offset (length name)
              (omega arith)
            ∙ slice-put_out call b1 (l.offset + length name + 1) l.offset (length name)
                (omega arith)
            ∙ slice-update_out (put_bytes name l.offset l.buff) (l.offset + length name) 9 l.offset
                (length name) (omega arith)
            ∙ slice-put_bytes name l.offset l.buff (length name) (omega arith)
            ∙ take_all name)
          (ap₂ ◌∷◌
            (update-ne b2 (l.offset + length name + 1 + length name) 10 (omega arith)
              ∙ put_bytes-outside call (l.offset + length name + 1) b1 (l.offset + length name)
                  (omega arith)
              ∙ update_self (put_bytes name l.offset l.buff) (l.offset + length name) 9 refl)
            (slice_split b3 (l.offset + length name + 1) (l.offset + length name + 1 + length name)
              (length name) 1 refl
              (slice-update_out b2 (l.offset + length name + 1 + length name) 10
                  (l.offset + length name + 1) (length name) (omega arith)
                ∙ slice-put_bytes call (l.offset + length name + 1) b1 (length name) h)
              (ap (λ c. c ∷ [])
                (update_self b2 (l.offset + length name + 1 + length name) 10 refl))))
