-- ===== src/Files/Objects.antt =====
-- kernel/file.c: what the open files refer to.
use csse_332_final.Base.{
  ℕ, ◌+◌, ◌-◌, ◌≡◌, refl, sym, ap, ◌⊎◌, inl, inr, Bool, true, false, some, List, ◌∷◌, ◌++◌, returns,
  arith, ltb, le→ltb, if◌then◌else◌, Bool-cases, Option-cases, update, update_self, update-ne,
  ℕ_discrete, subst,
}
use csse_332_final.Files.{
  File, Ftable, n_file, find_file, filealloc, filedup, fileclose, set_pipe, set_inode, Closing,
  still_open, nothing, closes_pipe, puts_inode, last_close, fd_none, fd_pipe, fd_inode, fd_device,
}
use csse_332_final.Files.Counts.{occurs, Counted, held-ref}

-- What a file was opened on: the end of a pipe, written or read, or an inode.
pub data Object : Type 0 where
  no_object : Object
  pipe_end : ℕ → Bool → Object
  inode_of : ℕ → Object

-- What the last close owes to the object.
abbrev pub gives_up : Object → Closing
gives_up no_object = nothing
gives_up (pipe_end pi writes) = closes_pipe pi writes
gives_up (inode_of ip) = puts_inode ip

abbrev pub Refers : File → Object → Type 0
Refers f no_object = f.type ≡ fd_none
Refers f (pipe_end pi writes) = (f.type ≡ fd_pipe) × (f.pipe ≡ pi) × (f.writable ≡ writes)
Refers f (inode_of ip) = ((f.type ≡ fd_inode) ⊎ (f.type ≡ fd_device)) × (f.ip ≡ ip)

-- Each slot refers to its object.
abbrev pub Tracks : Ftable → (ℕ → Object) → Type 0
Tracks t o = (i : ℕ) → Refers (t i) (o i)

pub last_close-gives_up : (f : File) (o : Object) → Refers f o → last_close f ≡ gives_up o
last_close-gives_up f no_object e = rw (e, last_close) refl
last_close-gives_up f (pipe_end pi writes) (e, p, w) = rw (e, last_close, p, w) refl
last_close-gives_up f (inode_of ip) (inl e, p) = rw (e, last_close, p) refl
last_close-gives_up f (inode_of ip) (inr e, p) = rw (e, last_close, p) refl

-- A change of one slot, with its object.
pub update-Tracks :
    (t : Ftable) (o : ℕ → Object) (i : ℕ) (f : File) (x : Object)
    → Tracks t o
    → Refers f x
    → Tracks (update t i f) (update o i x)
update-Tracks t o i f x v r j = elim (ℕ_discrete i j) [
  | yes e ↦
      subst (λ g. Refers g (update o i x j)) (sym (update_self t i f e))
        (subst (Refers f) (sym (update_self o i x e)) r)
  | no ne ↦
      subst (λ g. Refers g (update o i x j)) (sym (update-ne t i f ne))
        (subst (Refers (t j)) (sym (update-ne o i x ne)) (v j))
]

-- A change of a count.
ref-Refers : (f : File) (n : ℕ) (x : Object) → Refers f x → Refers (record f { ref = n }) x
ref-Refers f n no_object r = r
ref-Refers f n (pipe_end pi writes) r = r
ref-Refers f n (inode_of ip) r = r

ref-Tracks :
    (t : Ftable) (o : ℕ → Object) (i n : ℕ)
    → Tracks t o
    → Tracks (update t i (record (t i) { ref = n })) o
ref-Tracks t o i n v j = elim (ℕ_discrete i j) [
  | yes e ↦
      subst (λ g. Refers g (o j)) (sym (update_self t i (record (t i) { ref = n }) e))
        (subst (λ m. Refers (record (t i) { ref = n }) (o m)) e (ref-Refers (t i) n (o i) (v i)))
  | no ne ↦ subst (λ g. Refers g (o j)) (sym (update-ne t i (record (t i) { ref = n }) ne)) (v j)
]

pub set_pipe-Refers :
    (pi : ℕ) (writes : Bool) (f : File) → Refers (set_pipe pi writes f) (pipe_end pi writes)
unfolding set_pipe
set_pipe-Refers pi writes f = (refl, refl, refl)

pub set_inode-Refers :
    (device : Bool) (ip major omode : ℕ) (f : File)
    → Refers (set_inode device ip major omode f) (inode_of ip)
unfolding set_inode
set_inode-Refers true ip major omode f = (inr refl, refl)
set_inode-Refers false ip major omode f = (inl refl, refl)

pub set_pipe-ref : (pi : ℕ) (writes : Bool) (f : File) → (set_pipe pi writes f).ref ≡ f.ref
unfolding set_pipe
set_pipe-ref pi writes f = refl

pub set_inode-ref :
    (device : Bool) (ip major omode : ℕ) (f : File)
    → (set_inode device ip major omode f).ref ≡ f.ref
unfolding set_inode
set_inode-ref true ip major omode f = refl
set_inode-ref false ip major omode f = refl

pub filealloc-Tracks :
    (t : Ftable) (o : ℕ → Object) {t' : Ftable} {i : ℕ}
    → Tracks t o
    → filealloc t ≡ (some i, t')
    → Tracks t' o
unfolding filealloc
filealloc-Tracks t o {t'} {i} v e = elim (Option-cases (find_file t n_file 0)) [
  | inl q ↦ cc (rw (q, filealloc) at e)
  | inr (j, q) ↦
      let out : (some j, update t j (record (t j) { ref = 1 })) ≡ (some i, t') =
        rw (q, filealloc) at e in
      subst (λ u. Tracks u o) (ap (λ p. p.1) out) (ref-Tracks t o j 1 v)
]

pub filedup-Tracks :
    (t : Ftable) (o : ℕ → Object) (i : ℕ) {t' : Ftable}
    → Tracks t o
    → filedup i t ≡ returns t'
    → Tracks t' o
unfolding filedup
filedup-Tracks t o i {t'} v e = elim (Bool-cases (ltb (t i).ref 1)) [
  | inl q ↦ cc (rw q at e)
  | inr q ↦ subst (λ u. Tracks u o) (value (rw q at e)) (ref-Tracks t o i ((t i).ref + 1) v)
]
  where
    value : {a b : Ftable} → returns a ≡ returns b → a ≡ b
    value h = cc

-- The table that the close of a held descriptor leaves, with another descriptor for the slot or without.
abbrev pub closed : ℕ → Ftable → Bool → Ftable
closed i t more =
    if more
    then update t i (record (t i) { ref = (t i).ref - 1 })
    else update t i (record (t i) { ref = 0; type = fd_none })

abbrev pub object_left : ℕ → (ℕ → Object) → Bool → ℕ → Object
object_left i o more = if more then o else update o i no_object

pub closed-Tracks :
    (i : ℕ) (t : Ftable) (o : ℕ → Object) (more : Bool)
    → Tracks t o
    → Tracks (closed i t more) (object_left i o more)
closed-Tracks i t o true v = ref-Tracks t o i ((t i).ref - 1) v
closed-Tracks i t o false v =
    update-Tracks t o i (record (t i) { ref = 0; type = fd_none }) no_object v refl

pub fileclose-closed :
    (t : Ftable) (i : ℕ) (xs ys : List ℕ)
    → Counted t (xs ++ i ∷ ys)
    → fileclose i t
      ≡ returns (
        closed i t (ltb 0 (occurs i (xs ++ ys))),
        if ltb 0 (occurs i (xs ++ ys)) then still_open else last_close (t i),
      )
unfolding fileclose
fileclose-closed t i xs ys v =
    let (h, r) = held-ref t i xs ys v in
    let others : (t i).ref - 1 ≡ occurs i (xs ++ ys) = omega (arith, r) in
    rw (le→ltb (t i).ref 1 (omega (arith, r)), ap (ltb 0) others)
      (elim (Bool-cases (ltb 0 (occurs i (xs ++ ys)))) [ inl q ↦ rw q refl | inr q ↦ rw q refl ])
