-- ===== src/Paths/Resolve.antt =====
-- kernel/fs.c: `namex` walks the elements of a path, and balances the references on the way.
use csse_332_final.Base.{
  ℕ, zero, suc, ◌+◌, ◌≤◌, ◌<◌, ◌≡◌, refl, ap, ◌∙◌, ◌⊎◌, inl, inr, Bool, true, false, ◌&&◌, Option,
  none, some, List, [], ◌∷◌, length, arith, ◌==◌, ==_ne, ==_eq, if◌then◌else◌, Bool-cases,
  Option-cases, ℕ_discrete,
}
use csse_332_final.Paths.{is_end, get_ref, put_ref, namex_from, namex, starts_slash}
use csse_332_final.Paths.Elements.{elements, skipelem-cases, no_names, no_names-elements}

abbrev pub one_at : ℕ → ℕ → ℕ
one_at i j = if i == j then 1 else 0

-- The reference that the caller is given with an inode.
abbrev pub given : Option (ℕ × List ℕ) → ℕ → ℕ
given none j = 0
given (some (i, name)) j = one_at i j

one_at-le : (i j : ℕ) → one_at i j ≤ 1
one_at-le i j = ground arith

put_ref-count : (i : ℕ) (refs : ℕ → ℕ) (j : ℕ) → 0 < refs i → put_ref i refs j + one_at i j ≡ refs j
put_ref-count i refs j h = elim (ℕ_discrete i j) [
  | yes e ↦ rw (e, ==_eq j j refl) (omega (arith, h, ap refs e))
  | no ne ↦ rw (==_ne i j ne) (omega arith)
]

get_ref-count : (i : ℕ) (refs : ℕ → ℕ) (j : ℕ) → get_ref i refs j ≡ refs j + one_at i j
get_ref-count i refs j = elim (ℕ_discrete i j) [
  | yes e ↦ rw (e, ==_eq j j refl)
  | no ne ↦ rw (==_ne i j ne) (omega arith)
]

get_ref-held : (i k : ℕ) (refs : ℕ → ℕ) → 0 < refs k → 0 < get_ref i refs k
get_ref-held i k refs h = omega (arith, get_ref-count i refs k)

module _ (is_dir : ℕ → Bool) (dirlookup : ℕ → List ℕ → Option ℕ) where
  -- The walk from an inode along a list of names; for the parent it stops before the last.
  pub walk : Bool → ℕ → List (List ℕ) → Option (ℕ × List ℕ)
  walk parent ip [] = if parent then none else some (ip, [])
  walk parent ip (name ∷ names) = elim (is_dir ip) [
    | false ↦ none
    | true ↦ elim (parent && no_names names) [
      | true ↦ some (ip, name)
      | false ↦ elim (dirlookup ip name) [ none ↦ none | some next ↦ walk parent next names ]
    ]
  ]

  -- What `namex` gives, and the references afterwards: one more on the inode that it returns, if any,
  -- and one less on the inode that it started from.
  abbrev pub Walks : ℕ → (ℕ → ℕ) → Option (ℕ × List ℕ) → Option (ℕ × List ℕ) × (ℕ → ℕ) → Type 0
  Walks ip refs expected (found, refs') =
      (found ≡ expected) × ((j : ℕ) → refs' j + one_at ip j ≡ refs j + given found j)

  gives_up : (ip : ℕ) (refs : ℕ → ℕ) → 0 < refs ip → Walks ip refs none (none, put_ref ip refs)
  gives_up ip refs h = (refl, λ j. put_ref-count ip refs j h ∙ omega arith)

  namex_from-Walks :
      (fuel : ℕ) (parent : Bool) (ip : ℕ) (path : List ℕ) (refs : ℕ → ℕ)
      → length path < fuel
      → 0 < refs ip
      → Walks ip refs
          (walk parent ip (elements path))
          (namex_from is_dir dirlookup fuel parent ip path refs)
  unfolding namex_from walk
  namex_from-Walks zero parent ip path refs h l = absurd (omega arith)
  namex_from-Walks (suc fuel) parent ip path refs h l = elim (skipelem-cases path) [
    | inl (e, g) ↦ rw (e, namex_from, g) (ended (Bool-cases parent))
    | inr (name, rest, s) ↦
        rw (s.found, namex_from, s.first)
          (elim (Bool-cases (is_dir ip)) [
            | inr file ↦ rw (file, namex_from, walk) (gives_up ip refs l)
            | inl dir ↦ elim (Bool-cases (parent && is_end rest)) [
              | inl last ↦
                  rw (dir, namex_from, walk, no_names-elements rest s.ready, last) (refl, λ j. refl)
              | inr more ↦ elim (Option-cases (dirlookup ip name)) [
                | inl e ↦
                    rw (dir, namex_from, walk, no_names-elements rest s.ready, more, e)
                      (gives_up ip refs l)
                | inr (next, e) ↦
                    let refs1 = put_ref ip (get_ref next refs) in
                    let held = get_ref-held next ip refs l in
                    let ih =
                      namex_from-Walks fuel parent next rest refs1 (omega (arith, s.shorter))
                        (passed next) in
                    rw (dir, namex_from, walk, no_names-elements rest s.ready, more, e)
                      (
                        ih.0,
                        λ j. omega (
                          arith,
                          ih.1 j,
                          put_ref-count ip (get_ref next refs) j held,
                          get_ref-count next refs j,
                        ),
                      )
              ]
            ]
          ])
  ]
    where
      passed : (next : ℕ) → 0 < put_ref ip (get_ref next refs) next
      passed next =
          let held = get_ref-held next ip refs l in
          let n = put_ref-count ip (get_ref next refs) next held in
          let m = get_ref-count next refs next in
          let o : one_at next next ≡ 1 = rw (==_eq next next refl) in
          elim (ℕ_discrete ip next) [
            | yes same ↦ omega (arith, n, m, o, ap refs same, one_at-le ip next)
            | no ne ↦
                let z : one_at ip next ≡ 0 = rw (==_ne ip next ne) in omega (arith, n, m, o, z)
          ]

      ended :
          (parent ≡ true) ⊎ (parent ≡ false)
          → Walks ip refs
              (if parent then none else some (ip, []))
              (if parent then (none, put_ref ip refs) else (some (ip, []), refs))
      ended (inl e) = rw e (gives_up ip refs l)
      ended (inr e) = rw e (refl, λ j. refl)

  -- From the inode that the path starts at, `namex` ends and gives what the walk along the elements
  -- of the path gives. It leaves one reference more on the inode that it returns, and no other count
  -- is changed, also where it fails.
  pub namex-walk :
      (root cwd : ℕ) (parent : Bool) (path : List ℕ) (refs : ℕ → ℕ)
      → let start = if starts_slash path then root else cwd in
        let (found, refs') = namex is_dir dirlookup root cwd parent path refs in
        (found ≡ walk parent start (elements path)) × ((j : ℕ) → refs' j ≡ refs j + given found j)
  unfolding namex
  namex-walk root cwd parent path refs =
      let start = if starts_slash path then root else cwd in
      let held : 0 < get_ref start refs start =
        omega (arith, get_ref-count start refs start, ==_eq start start refl, one_self start) in
      let w =
        namex_from-Walks (suc (length path)) parent start path (get_ref start refs) (omega arith)
          held in
      (w.0, λ j. omega (arith, w.1 j, get_ref-count start refs j))
    where
      one_self : (i : ℕ) → one_at i i ≡ 1
      one_self i = rw (==_eq i i refl)
