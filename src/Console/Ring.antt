-- ===== src/Console/Ring.antt =====
-- kernel/console.c: the line that is edited and the lines that can be read, as lists.
use csse_332_final.Base.{
  ℕ, zero, suc, ◌+◌, ◌%◌, ◌^◌, ◌≤◌, ◌<◌, ◌≡◌, refl, ap, ap₂, ◌≢◌, List, [], ◌∷◌, ◌++◌, arith,
  length, update, update_self, update-ne, All, subst,
}
use csse_332_final.Base.Words.{add32, sub32}
use csse_332_final.Console.{Cons, input_buf_size, newline}

-- The `n` bytes from index `i` on.
abbrev pub window : (ℕ → ℕ) → ℕ → ℕ → List ℕ
window buf i zero = []
window buf i (suc n) = buf (i % input_buf_size) ∷ window buf (add32 i 1) n

-- What `consoleread` may take, and what is still edited.
abbrev pub ready : Cons → List ℕ
ready s = window s.buf s.r (sub32 s.w s.r)

abbrev pub line : Cons → List ℕ
line s = window s.buf s.w (sub32 s.e s.w)

pub record IsValid (s : Cons) : Type 0 where
  pub r_fits : s.r < 2 ^ 32
  pub w_fits : s.w < 2 ^ 32
  pub e_fits : s.e < 2 ^ 32
  pub bounded : sub32 s.w s.r + sub32 s.e s.w ≤ input_buf_size
  pub one_line : All (λ c. c ≢ newline) (line s)

pub window-update :
    (buf : ℕ → ℕ) (c i n j : ℕ)
    → j < 2 ^ 32
    → (k : ℕ) → n ≤ k
    → k < input_buf_size
    → i ≡ (j + k) % 2 ^ 32 % input_buf_size
    → window (update buf i c) j n ≡ window buf j n
window-update buf c i zero j f k h l e = refl
window-update buf c i (suc n) j f zero h l e = absurd (omega arith)
window-update buf c i (suc n) j f (suc k) h l e =
    ap₂ ◌∷◌ (update-ne buf i c (omega arith)) (
      window-update buf c i n (add32 j 1) (omega arith) k (omega arith) (omega arith) (omega arith))

pub window-put :
    (buf : ℕ → ℕ) (c n j i : ℕ)
    → n < input_buf_size
    → i ≡ (j + n) % 2 ^ 32 % input_buf_size
    → window (update buf i c) j (suc n) ≡ window buf j n ++ (c ∷ [])
window-put buf c zero j i h e = ap (λ b. b ∷ []) (update_self buf i c (omega arith))
window-put buf c (suc n) j i h e =
    ap₂ ◌∷◌ (update-ne buf i c (omega arith))
      (window-put buf c n (add32 j 1) i (omega arith) (omega arith))

pub window-append :
    (buf : ℕ → ℕ) (a b n j i : ℕ)
    → j < 2 ^ 32
    → n ≡ a + b
    → i ≡ (j + a) % 2 ^ 32
    → window buf j n ≡ window buf j a ++ window buf i b
window-append buf zero b n j i f s e = ap₂ (window buf) (omega arith) (omega arith)
window-append buf (suc a) b zero j i f s e = absurd (omega arith)
window-append buf (suc a) b (suc n) j i f s e =
    ap (λ zs. buf (j % input_buf_size) ∷ zs)
      (window-append buf a b n (add32 j 1) i (omega arith) (omega arith) (omega arith))

pub length-window : (buf : ℕ → ℕ) (j n : ℕ) → length (window buf j n) ≡ n
length-window buf j zero = refl
length-window buf j (suc n) = ap suc (length-window buf (add32 j 1) n)

abbrev pub OneLine : List ℕ → Type 0
OneLine xs = All (λ c. c ≢ newline) xs

pub last_of_window :
    (buf : ℕ → ℕ) (n j i : ℕ)
    → OneLine (window buf j (suc n))
    → i ≡ (j + n) % 2 ^ 32 % input_buf_size
    → j < 2 ^ 32
    → buf i ≢ newline
last_of_window buf zero j i h e f =
    let same : j % input_buf_size ≡ i = omega arith in subst (λ k. buf k ≢ newline) same h.0
last_of_window buf (suc n) j i h e f =
    last_of_window buf n (add32 j 1) i h.1 (omega arith) (omega arith)

pub OneLine-window :
    (buf : ℕ → ℕ) (n j : ℕ) → OneLine (window buf j (suc n)) → OneLine (window buf j n)
OneLine-window buf zero j h = tt
OneLine-window buf (suc n) j h = (h.0, OneLine-window buf n (add32 j 1) h.1)

pub OneLine-put : (xs : List ℕ) (c : ℕ) → OneLine xs → c ≢ newline → OneLine (xs ++ (c ∷ []))
OneLine-put [] c h ne = (ne, tt)
OneLine-put (x ∷ xs) c h ne = (h.0, OneLine-put xs c h.1 ne)

abbrev pub drop_last : List ℕ → List ℕ
drop_last [] = []
drop_last (x ∷ []) = []
drop_last (x ∷ y ∷ ys) = x ∷ drop_last (y ∷ ys)

pub drop_last-window : (buf : ℕ → ℕ) (n j : ℕ) → drop_last (window buf j (suc n)) ≡ window buf j n
drop_last-window buf zero j = refl
drop_last-window buf (suc n) j =
    ap (λ zs. buf (j % input_buf_size) ∷ zs) (drop_last-window buf n (add32 j 1))
