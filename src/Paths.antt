-- ===== src/Paths.antt =====
-- kernel/fs.c: path names.
--
-- A path is the list of its bytes before the NUL. `name` has room for `DIRSIZ` bytes and is read as a
-- string of at most that many. A directory is a parameter, from names to inode numbers; the counts of
-- references, which `iget`, `idup` and `iput` change, are a function of the inode number.
pub mod Elements
pub mod Resolve
mod Tests
use csse_332_final.Base.{
  ℕ, zero, suc, ◌+◌, ◌-◌, Bool, true, false, ◌&&◌, not, Option, none, some, List, [], ◌∷◌, take,
  length, ◌==◌, if◌then◌else◌, update,
}

abbrev pub slash : ℕ
slash = 47

abbrev pub dirsiz : ℕ
dirsiz = 14

abbrev pub is_end : List ℕ → Bool
is_end [] = true
is_end (_ ∷ _) = false

-- `while(*path == '/') path++`
pub skip_slashes : List ℕ → List ℕ
skip_slashes [] = []
skip_slashes (x ∷ xs) = let rest = skip_slashes xs in if x == slash then rest else x ∷ xs

-- `while(*path != '/' && *path != 0) path++`: the bytes that are passed, and the rest
pub take_element : List ℕ → List ℕ × List ℕ
take_element [] = ([], [])
take_element (x ∷ xs) =
    let (e, rest) = take_element xs in if x == slash then ([], x ∷ xs) else (x ∷ e, rest)

-- The name and the path behind it.
pub skipelem : List ℕ → Option (List ℕ × List ℕ)
skipelem path =
    let s = skip_slashes path in
    elim s [
      | [] ↦ none
      | x ∷ xs ↦ let (e, rest) = take_element (x ∷ xs) in some (take dirsiz e, skip_slashes rest)
    ]

-- `iget` and `idup` count one reference more, `iput` one less.
abbrev pub get_ref : ℕ → (ℕ → ℕ) → ℕ → ℕ
get_ref i refs = update refs i (refs i + 1)

abbrev pub put_ref : ℕ → (ℕ → ℕ) → ℕ → ℕ
put_ref i refs = update refs i (refs i - 1)

abbrev pub starts_slash : List ℕ → Bool
starts_slash [] = false
starts_slash (x ∷ xs) = x == slash

module _ (is_dir : ℕ → Bool) (dirlookup : ℕ → List ℕ → Option ℕ) where
  -- The loop of `namex`; without fuel left it gives up.
  pub namex_from : ℕ → Bool → ℕ → List ℕ → (ℕ → ℕ) → Option (ℕ × List ℕ) × (ℕ → ℕ)
  namex_from zero nameiparent ip path refs = (none, refs)
  namex_from (suc fuel) nameiparent ip path refs = elim (skipelem path) [
    | none ↦ if nameiparent then (none, put_ref ip refs) else (some (ip, []), refs)
    | some (name, rest) ↦ elim (is_dir ip) [
      | false ↦ (none, put_ref ip refs)
      | true ↦ elim (nameiparent && is_end rest) [
        | true ↦ (some (ip, name), refs)
        | false ↦ elim (dirlookup ip name) [
          | none ↦ (none, put_ref ip refs)
          | some next ↦ namex_from fuel nameiparent next rest (put_ref ip (get_ref next refs))
        ]
      ]
    ]
  ]

  -- `root` is `ROOTINO`, `cwd` the inode of the current directory.
  pub namex : ℕ → ℕ → Bool → List ℕ → (ℕ → ℕ) → Option (ℕ × List ℕ) × (ℕ → ℕ)
  namex root cwd nameiparent path refs =
      let start = if starts_slash path then root else cwd in
      namex_from (suc (length path)) nameiparent start path (get_ref start refs)
