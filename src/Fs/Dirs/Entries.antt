-- ===== src/Fs/Dirs/Entries.antt =====
-- kernel/fs.c: the entries of a directory in its bytes.
use Prim.Native.String.{String}
use csse_332_final.Base.{
  ℕ, zero, suc, ◌+◌, ◌-◌, ◌*◌, ◌%◌, ◌≤◌, ◌<◌, ◌≡◌, ◌≢◌, refl, ◌∙◌, ap, ap₂, arith, some, List,
  lt→ltb, le→ltb, returns, get_or, min,
}
use csse_332_final.Strings.{string_at}
use csse_332_final.Strings.Copy.{string_at-same}
use csse_332_final.Strings.Compare.{is_zero, lex_eq, strncmp-lex}
use csse_332_final.Fs.{Superblock, Blocks, bsize, maxfile}
use csse_332_final.Fs.Inode.{Inode}
use csse_332_final.Fs.Content.{readi}
use csse_332_final.Fs.Content.Write.{byte}
use csse_332_final.Fs.Content.Read.{bytes, Present, readi_lem}
use csse_332_final.Fs.Dirs.{
  dir_type, name_size, entry_size, whole_copy, namecmp, de_inum, both_names, read_entry,
}

abbrev pub inum_at : Inode → Blocks → ℕ → ℕ
inum_at ip d off = byte ip d off + 256 * byte ip d (off + 1)

-- The name of an entry, and a name that is looked for, as strings of at most 14 bytes.
abbrev pub name_at : Inode → Blocks → ℕ → List ℕ
name_at ip d off = string_at name_size (off + 2) (byte ip d)

abbrev pub text : (ℕ → ℕ) → List ℕ
text name = string_at name_size 0 name

-- An entry in use with the name.
abbrev pub Names : Inode → Blocks → (ℕ → ℕ) → ℕ → Type 0
Names ip d name off = (inum_at ip d off ≢ 0) × (text name ≡ name_at ip d off)

-- A directory is a file of whole entries, all in blocks that are there.
pub record IsDir (ip : Inode) (d : Blocks) : Type 0 where
  pub type : ip.type ≡ dir_type
  pub whole : ip.size % entry_size ≡ 0
  pub fits : ip.size ≤ maxfile * bsize
  pub there : Present ip d 0 ip.size

get_or-bytes :
    (ip : Inode) (d : Blocks) (p n i : ℕ) → i < n → get_or (bytes ip d p n) i 0 ≡ byte ip d (p + i)
get_or-bytes ip d p zero i h = absurd (omega (arith, h))
get_or-bytes ip d p (suc n) zero h = ap (byte ip d) (omega arith)
get_or-bytes ip d p (suc n) (suc i) h =
    get_or-bytes ip d (p + 1) n i (omega (arith, h)) ∙ ap (byte ip d) (omega arith)

pub read_entry_lem :
    (sb : Superblock) (t : String) (off : ℕ) (ip : Inode) (d : Blocks)
    → IsDir ip d
    → off + entry_size ≤ ip.size
    → read_entry sb t off ip d ≡ returns (bytes ip d off entry_size, ip, d)
unfolding read_entry
read_entry_lem sb t off ip d v h =
    let short : min entry_size (ip.size - off) ≡ entry_size = omega (arith, h) in
    let e : readi sb whole_copy off entry_size ip d
        ≡ returns (some (bytes ip d off entry_size), ip, d) =
      readi_lem sb whole_copy (λ tot m. omega arith) off entry_size ip d (omega (arith, h)) v.fits
        (omega (arith, h, v.fits)) (λ p x y. v.there p (omega arith) (omega (arith, y, h)))
      ∙ ap (λ n. returns (some (bytes ip d off n), ip, d)) short in
    rw e refl

pub de_inum-bytes :
    (ip : Inode) (d : Blocks) (off : ℕ) → de_inum (bytes ip d off entry_size) ≡ inum_at ip d off
de_inum-bytes ip d off =
    ap₂ (λ x y. x + 256 * y)
      (get_or-bytes ip d off entry_size 0 (omega arith) ∙ ap (byte ip d) (omega arith))
      (get_or-bytes ip d off entry_size 1 (omega arith))

-- `namecmp` compares the strings.
pub namecmp-names :
    (name : ℕ → ℕ) (ip : Inode) (d : Blocks) (off : ℕ)
    → is_zero (namecmp 0 name_size (both_names name (bytes ip d off entry_size)))
      ≡ lex_eq (text name) (name_at ip d off)
unfolding namecmp
namecmp-names name ip d off =
    let m = both_names name (bytes ip d off entry_size) in
    (strncmp-lex 0 name_size name_size m).0
    ∙ ap₂ lex_eq
        (string_at-same name_size 0 0 m name
          (λ j h. rw (lt→ltb (0 + j) name_size (omega (arith, h))) (ap name (omega arith))))
        (string_at-same name_size name_size (off + 2) m (byte ip d) (λ j h.
          rw (le→ltb (name_size + j) name_size (omega arith)) (
            get_or-bytes ip d off entry_size (name_size + j - 12) (omega (arith, h))
            ∙ ap (byte ip d) (omega arith))))
