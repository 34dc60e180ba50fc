-- ===== src/Files/Holders.antt =====
-- kernel/file.c: the open files under any interleaving of opens, duplicates and closes.
use csse_332_final.Base.{
  ℕ, ◌≡◌, ◌<◌, sym, ◌∙◌, ap, List, ◌∷◌, ◌++◌, Bool, some, returns, ltb, if◌then◌else◌, subst,
  update, update_self, update-ne, ℕ_discrete,
}
use csse_332_final.Files.{
  File, Ftable, n_file, filealloc, filedup, fileclose, set_pipe, set_inode, Closing, still_open,
}
use csse_332_final.Files.Counts.{
  occurs, Counted, filealloc-Counted, filedup-Counted, fileclose-Counted,
}
use csse_332_final.Files.Objects.{
  Object, pipe_end, inode_of, gives_up, Tracks, last_close-gives_up, update-Tracks, set_pipe-Refers,
  set_inode-Refers, set_pipe-ref, set_inode-ref, filealloc-Tracks, filedup-Tracks, object_left,
  closed-Tracks, fileclose-closed,
}

-- The table, the slots that the descriptors of all processes stand for, and what each was opened on.
pub record Holders : Type 0 where
  pub files : Ftable
  pub held : List ℕ
  pub object : ℕ → Object

pub data Step : Holders → Holders → Type 0 where
  opens :
      {t t' : Ftable} {i : ℕ} (held : List ℕ) (o : ℕ → Object)
      → filealloc t ≡ (some i, t')
      → Step
          (record { files = t; held = held; object = o })
          (record { files = t'; held = i ∷ held; object = o })
  sets_pipe :
      {t : Ftable} (i : ℕ) (held : List ℕ) (o : ℕ → Object) (pi : ℕ) (writes : Bool)
      → Step
          (record { files = t; held = held; object = o })
          (record {
            files = update t i (set_pipe pi writes (t i));
            held = held;
            object = update o i (pipe_end pi writes);
          })
  sets_inode :
      {t : Ftable} (i : ℕ) (held : List ℕ) (o : ℕ → Object) (device : Bool) (ip major omode : ℕ)
      → Step
          (record { files = t; held = held; object = o })
          (record {
            files = update t i (set_inode device ip major omode (t i));
            held = held;
            object = update o i (inode_of ip);
          })
  dups :
      {t t' : Ftable} (i : ℕ) (xs ys : List ℕ) (o : ℕ → Object)
      → filedup i t ≡ returns t'
      → Step
          (record { files = t; held = xs ++ i ∷ ys; object = o })
          (record { files = t'; held = i ∷ xs ++ i ∷ ys; object = o })
  closes :
      {t t' : Ftable} {c : Closing} (i : ℕ) (xs ys : List ℕ) (o : ℕ → Object)
      → fileclose i t ≡ returns (t', c)
      → Step
          (record { files = t; held = xs ++ i ∷ ys; object = o })
          (record {
            files = t';
            held = xs ++ ys;
            object = object_left i o (ltb 0 (occurs i (xs ++ ys)));
          })

pub data Reach (s : Holders) : Holders → Type 0 where
  here : Reach s s
  next : {t u : Holders} → Reach s t → Step t u → Reach s u

set-Counted :
    (t : Ftable) (i : ℕ) (f : File) (held : List ℕ)
    → f.ref ≡ (t i).ref
    → Counted t held
    → Counted (update t i f) held
set-Counted t i f held e v = record {
  counts = λ m l. elim (ℕ_discrete i m) [
    | yes same ↦
        ap (λ g. g.ref) (update_self t i f same) ∙ e ∙ ap (λ n. (t n).ref) same ∙ v.counts m l
    | no ne ↦ ap (λ g. g.ref) (update-ne t i f ne) ∙ v.counts m l
  ];
  inside = v.inside;
}

Step-Counted : {s t : Holders} → Step s t → Counted s.files s.held → Counted t.files t.held
Step-Counted (opens {t} held o e) v = (filealloc-Counted t held v e).2
Step-Counted (sets_pipe {t} i held o pi writes) v =
    set-Counted t i (set_pipe pi writes (t i)) held (set_pipe-ref pi writes (t i)) v
Step-Counted (sets_inode {t} i held o device ip major omode) v =
    set-Counted t i (set_inode device ip major omode (t i)) held
      (set_inode-ref device ip major omode (t i)) v
Step-Counted (dups {t} {t'} i xs ys o e) v =
    let (u, f, w) = filedup-Counted t i xs ys v in
    subst (λ z. Counted z (i ∷ xs ++ i ∷ ys)) (out (sym f ∙ e)) w
  where
    out : {a b : Ftable} → returns a ≡ returns b → a ≡ b
    out q = cc
Step-Counted (closes {t} {t'} {c} i xs ys o e) v =
    let (u, w, f) = fileclose-Counted t i xs ys v in
    subst (λ z. Counted z (xs ++ ys)) (ap (λ p. p.0) (out (sym f ∙ e))) w
  where
    out : {a b : Ftable × Closing} → returns a ≡ returns b → a ≡ b
    out q = cc

Step-Tracks :
    {s t : Holders}
    → Step s t
    → Counted s.files s.held
    → Tracks s.files s.object
    → Tracks t.files t.object
Step-Tracks (opens {t} held o e) c v = filealloc-Tracks t o v e
Step-Tracks (sets_pipe {t} i held o pi writes) c v =
    update-Tracks t o i (set_pipe pi writes (t i)) (pipe_end pi writes) v
      (set_pipe-Refers pi writes (t i))
Step-Tracks (sets_inode {t} i held o device ip major omode) c v =
    update-Tracks t o i (set_inode device ip major omode (t i)) (inode_of ip) v
      (set_inode-Refers device ip major omode (t i))
Step-Tracks (dups {t} i xs ys o e) c v = filedup-Tracks t o i v e
Step-Tracks (closes {t} i xs ys o e) c v =
    let more = ltb 0 (occurs i (xs ++ ys)) in
    subst (λ u. Tracks u (object_left i o more))
      (ap (λ p. p.0) (out (sym (fileclose-closed t i xs ys c) ∙ e))) (closed-Tracks i t o more v)
  where
    out : {a b : Ftable × Closing} → returns a ≡ returns b → a ≡ b
    out q = cc

Reach-Counted : {s t : Holders} → Counted s.files s.held → Reach s t → Counted t.files t.held
Reach-Counted v here = v
Reach-Counted v (next r st) = Step-Counted st (Reach-Counted v r)

Reach-Tracks :
    {s t : Holders}
    → Counted s.files s.held
    → Tracks s.files s.object
    → Reach s t
    → Tracks t.files t.object
Reach-Tracks c v here = v
Reach-Tracks c v (next r st) = Step-Tracks st (Reach-Counted c r) (Reach-Tracks c v r)

-- After any opens, duplicates and closes of held descriptors, where opened files are set up for pipes,
-- inodes and devices, the close of a held descriptor does not panic. Where another descriptor stands for the
-- file, the file stays open; where none does, the close gives up just what the file was last set up for: it
-- closes that end of the pipe, or puts the inode, also of a device.
pub fileclose_last :
    {s t : Holders} (i : ℕ) (xs ys : List ℕ)
    → Counted s.files s.held
    → Tracks s.files s.object
    → Reach s t
    → t.held ≡ xs ++ i ∷ ys
    → (u : Ftable) × Counted u (xs ++ ys)
      × (fileclose i t.files
          ≡ returns (u, if ltb 0 (occurs i (xs ++ ys)) then still_open else gives_up (t.object i)))
fileclose_last {s} {t} i xs ys v w r e =
    let (u, c, f) =
      fileclose-Counted t.files i xs ys (subst (Counted t.files) e (Reach-Counted v r)) in
    (
      u,
      c,
      f
          ∙ ap (λ q. returns (u, if ltb 0 (occurs i (xs ++ ys)) then still_open else q))
              (last_close-gives_up (t.files i) (t.object i) (Reach-Tracks v w r i)),
    )

-- After any opens, duplicates and closes of held descriptors, `filealloc` gives only a slot of the
-- table that no descriptor stands for, and its count is then right for the one that is made.
pub filealloc_unheld :
    {s t : Holders} {u : Ftable} (i : ℕ)
    → Counted s.files s.held
    → Reach s t
    → filealloc t.files ≡ (some i, u)
    → (i < n_file) × (occurs i t.held ≡ 0) × Counted u (i ∷ t.held)
filealloc_unheld {s} {t} i v r e = filealloc-Counted t.files t.held (Reach-Counted v r) e
