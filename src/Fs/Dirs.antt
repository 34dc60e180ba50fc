-- ===== src/Fs/Dirs.antt =====
-- kernel/fs.c: directories.
--
-- A name is a function from its indices to its bytes. An entry is the 16 bytes that `readi` gives; a copy
-- to or from the kernel does not fail. `panics "fuel"` is a loop cut short. The inode of the directory is
-- not that of the entries in the table of inodes `t`, on which `iget` and `iput` work.
pub mod Entries
pub mod Lookup
pub mod Link
mod Tests
use Prim.Native.String.{String}
use csse_332_final.Base.{
  ℕ, zero, suc, ◌+◌, ◌-◌, ◌*◌, ◌/◌, ◌%◌, Bool, true, false, not, Option, none, some, List, [], Run,
  returns, panics, ◌>>=◌, ltb, ◌==◌, if◌then◌else◌, get_or, length,
}
use csse_332_final.Base.Words.{add32}
use csse_332_final.Strings.{Memory, ℤ, strncmp, strncpy}
use csse_332_final.Strings.Compare.{is_zero}
use csse_332_final.Fs.{Superblock, Blocks}
use csse_332_final.Fs.Inode.{Inode}
use csse_332_final.Fs.Content.{LogUse, readi, writei}
use csse_332_final.Fs.Table.{Itable, iget, iput}

abbrev pub dir_type : ℕ
dir_type = 1

abbrev pub name_size : ℕ
name_size = 14

-- `sizeof(de)`
abbrev pub entry_size : ℕ
entry_size = 16

abbrev pub whole_copy : ℕ → ℕ → ℕ
whole_copy tot m = m

pub namecmp : ℕ → ℕ → Memory → ℤ
namecmp s t m = strncmp s t name_size m

abbrev pub de_inum : List ℕ → ℕ
de_inum de = get_or de 0 0 + 256 * get_or de 1 0

-- `name` at address 0, and `de.name` at 14
abbrev pub both_names : (ℕ → ℕ) → List ℕ → Memory
both_names name de x = if ltb x name_size then name x else get_or de (x - 12) 0

-- The bytes of `de` that `dirlink` writes: `inum`, and `strncpy(de.name, name, DIRSIZ)`.
pub new_entry : (ℕ → ℕ) → ℕ → ℕ → ℕ
new_entry name inum j =
    if j == 0
    then inum % 256
    else if j == 1
    then inum / 256 % 256
    else strncpy name_size 0 name_size (both_names name []) (j + 12)

module _ (sb : Superblock) where
  -- `readi` of a whole entry
  pub read_entry : String → ℕ → Inode → Blocks → Run (List ℕ × Inode × Blocks)
  read_entry text off ip d =
      readi sb whole_copy off entry_size ip d >>= λ (out : Option (List ℕ) × Inode × Blocks).
      elim out.0 [
        | none ↦ panics text
        | some de ↦ if length de == entry_size then returns (de, out.1, out.2) else panics text
      ]

  -- The loop of `dirlookup`: the inode and the offset of the entry.
  pub find_entry : (ℕ → ℕ) → ℕ → ℕ → Inode → Blocks → Run (Option (ℕ × ℕ) × Inode × Blocks)
  find_entry name zero off ip d = panics "fuel"
  find_entry name (suc fuel) off ip d = elim (ltb off ip.size) [
    | false ↦ returns (none, ip, d)
    | true ↦ elim (read_entry "dirlookup read" off ip d) [
      | panics e ↦ panics e
      | returns (de, ip1, d1) ↦ elim (de_inum de == 0) [
        | true ↦ find_entry name fuel (add32 off entry_size) ip1 d1
        | false ↦ elim (is_zero (namecmp 0 name_size (both_names name de))) [
          | true ↦ returns (some (de_inum de, off), ip1, d1)
          | false ↦ find_entry name fuel (add32 off entry_size) ip1 d1
        ]
      ]
    ]
  ]

  -- The entry of the table of inodes, and `*poff`.
  pub dirlookup :
      ℕ → (ℕ → ℕ) → Inode → Blocks → Itable → Run (Option (ℕ × ℕ) × Inode × Blocks × Itable)
  dirlookup dev name ip d t =
      if not (ip.type == dir_type)
      then panics "dirlookup not DIR"
      else (find_entry name (ip.size / entry_size + 2) 0 ip d
          >>= λ (out : Option (ℕ × ℕ) × Inode × Blocks). elim out.0 [
            | none ↦ returns (none, out.1, out.2, t)
            | some e ↦
                iget dev e.0 t >>= λ (r : ℕ × Itable). returns (some (r.0, e.1), out.1, out.2, r.1)
          ])

  -- The loop of `dirlink`, up to an empty entry.
  pub find_empty : ℕ → ℕ → Inode → Blocks → Run (ℕ × Inode × Blocks)
  find_empty zero off ip d = panics "fuel"
  find_empty (suc fuel) off ip d = elim (ltb off ip.size) [
    | false ↦ returns (off, ip, d)
    | true ↦ elim (read_entry "dirlink read" off ip d) [
      | panics e ↦ panics e
      | returns (de, ip1, d1) ↦ elim (de_inum de == 0) [
        | true ↦ returns (off, ip1, d1)
        | false ↦ find_empty fuel (add32 off entry_size) ip1 d1
      ]
    ]
  ]

  -- The end of `dirlink`; `false` is -1.
  pub write_entry : LogUse → ℕ → (ℕ → ℕ) → ℕ → ℕ → Inode → Blocks → Run (Bool × Inode × Blocks)
  write_entry lg dir name inum off ip d =
      writei sb whole_copy lg dir (new_entry name inum) off entry_size ip d
      >>= λ (out : Option ℕ × Inode × Blocks).
          returns (elim out.0 [ none ↦ false | some n ↦ n == entry_size ], out.1, out.2)

  -- `dir` is the number of the inode of the directory.
  pub dirlink :
      LogUse → ℕ → ℕ → (ℕ → ℕ) → ℕ → Inode → Blocks → Itable → Run (Bool × Inode × Blocks × Itable)
  dirlink lg dev dir name inum ip d t =
      dirlookup dev name ip d t >>= λ (out : Option (ℕ × ℕ) × Inode × Blocks × Itable). elim out.0 [
        | some e ↦
            iput sb e.0 out.3 out.2 >>= λ (r : Itable × Blocks). returns (false, out.1, r.1, r.0)
        | none ↦
            find_empty (out.1.size / entry_size + 2) 0 out.1 out.2 >>= λ (p : ℕ × Inode × Blocks).
            write_entry lg dir name inum p.0 p.1 p.2 >>= λ (w : Bool × Inode × Blocks).
            returns (w.0, w.1, w.2, out.3)
      ]
