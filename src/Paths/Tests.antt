-- ===== src/Paths/Tests.antt =====
-- kernel/fs.c: paths in a small tree.
use csse_332_final.Base.{
  ℕ, ◌+◌, ◌≡◌, refl, Bool, false, Option, none, some, List, [], ◌∷◌, ◌==◌, ◌&&◌, if◌then◌else◌, leb,
}
use csse_332_final.Paths.{slash, skip_slashes, take_element, skipelem, namex}
use csse_332_final.Paths.Elements.{elements}
use csse_332_final.Paths.Resolve.{given, walk, namex-walk}

-- The root, inode 1, holds the directory `a`, inode 2, which holds the file `b`, inode 3.
abbrev is_dir : ℕ → Bool
is_dir i = leb i 2

abbrev dirlookup : ℕ → List ℕ → Option ℕ
dirlookup i (c ∷ []) =
    if i == 1 && c == 97 then some 2 else if i == 2 && c == 98 then some 3 else none
dirlookup i _ = none

-- `//a/b`
abbrev path : List ℕ
path = slash ∷ slash ∷ 97 ∷ slash ∷ 98 ∷ []

namex-walk_example :
    let (found, refs') = namex is_dir dirlookup 1 2 false path (λ i. 0) in
    (found ≡ walk is_dir dirlookup false 1 (elements path))
    × ((j : ℕ) → refs' j ≡ 0 + given found j)
namex-walk_example = namex-walk is_dir dirlookup 1 2 false path (λ i. 0)

skips_slashes : skipelem path ≡ some (97 ∷ [], 98 ∷ [])
unfolding skipelem skip_slashes take_element
skips_slashes = refl
