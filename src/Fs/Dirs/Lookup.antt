-- ===== src/Fs/Dirs/Lookup.antt =====
-- kernel/fs.c: `dirlookup` finds the first entry with a name.
use csse_332_final.Base.{
  ℕ, zero, suc, ◌+◌, ◌*◌, ◌/◌, ◌%◌, ◌≤◌, ◌<◌, ◌≡◌, refl, ◌∙◌, sym, ap, ap₂, arith, subst, Bool,
  true, false, Option, none, some, Bool-cases, inl, inr, ==_eq, ==_ne, ℕ_discrete, lt→ltb, le→ltb,
  Run, returns, ◌>>=◌, dec_lt,
}
use csse_332_final.Base.Words.{add32}
use csse_332_final.Strings.Compare.{lex_eq, lex_eq_iff}
use csse_332_final.Fs.{Superblock, Blocks}
use csse_332_final.Fs.Inode.{Inode}
use csse_332_final.Fs.Content.Read.{bytes}
use csse_332_final.Fs.Table.{Itable, iget}
use csse_332_final.Fs.Dirs.{dir_type, entry_size, de_inum, find_entry, find_empty, dirlookup}
use csse_332_final.Fs.Dirs.Entries.{
  inum_at, name_at, text, Names, IsDir, read_entry_lem, de_inum-bytes, namecmp-names,
}

-- No entry from `from` up to `to` has the name.
abbrev pub Unnamed : Inode → Blocks → (ℕ → ℕ) → ℕ → ℕ → Type 0
Unnamed ip d name from to =
    (off : ℕ) → from ≤ off → off < to → off % entry_size ≡ 0 → Names ip d name off → ⊥

-- The first entry with the name, from `from` on.
abbrev pub FindsEntry : Inode → Blocks → (ℕ → ℕ) → ℕ → Option (ℕ × ℕ) → Type 0
FindsEntry ip d name from none = Unnamed ip d name from ip.size
FindsEntry ip d name from (some (inum, off)) =
    (from ≤ off)
    × (off < ip.size)
    × (off % entry_size ≡ 0)
    × (inum ≡ inum_at ip d off)
    × Names ip d name off
    × Unnamed ip d name from off

module _ (sb : Superblock) (ip : Inode) (d : Blocks) (v : IsDir ip d) where
  -- The loops go on to the next entry.
  passed :
      (name : ℕ → ℕ) (off : ℕ) (o : Option (ℕ × ℕ))
      → off % entry_size ≡ 0
      → (Names ip d name off → ⊥)
      → FindsEntry ip d name (off + entry_size) o
      → FindsEntry ip d name off o
  passed name off none al n f = λ x a b c. elim (ℕ_discrete x off) [
    | yes e ↦ λ q. n (subst (Names ip d name) e q)
    | no ne ↦ f x (omega (arith, a, al, c, ne)) b c
  ]
  passed name off (some (inum, x)) al n (a, b, c, i, m, u) = (
    omega (arith, a),
    b,
    c,
    i,
    m,
    λ y p q r. elim (ℕ_discrete y off) [
      | yes e ↦ λ z. n (subst (Names ip d name) e z)
      | no ne ↦ u y (omega (arith, p, al, r, ne)) q r
    ],
  )

  pub find_entry-FindsEntry :
      (name : ℕ → ℕ) (fuel off : ℕ)
      → off % entry_size ≡ 0
      → off ≤ ip.size
      → ip.size < off + entry_size * fuel
      → (o : Option (ℕ × ℕ)) × (find_entry sb name fuel off ip d ≡ returns (o, ip, d))
        × FindsEntry ip d name off o
  unfolding find_entry
  find_entry-FindsEntry name zero off al l f = absurd (omega (arith, l, f))
  find_entry-FindsEntry name (suc fuel) off al l f = elim (dec_lt off ip.size) [
    | no done ↦ (
      none,
      rw (le→ltb off ip.size (omega (arith, done)), find_entry) refl,
      λ x a b c m. done (omega (arith, a, b)),
    )
    | yes more ↦
        let fits : off + entry_size ≤ ip.size = omega (arith, al, more, v.whole) in
        let on : add32 off entry_size ≡ off + entry_size = omega (arith, fits, v.fits) in
        let (o, e, h) =
          find_entry-FindsEntry name fuel (off + entry_size) (omega (arith, al)) fits
            (omega (arith, f)) in
        let next : find_entry sb name fuel (add32 off entry_size) ip d ≡ returns (o, ip, d) =
          ap (λ x. find_entry sb name fuel x ip d) on ∙ e in
        let read = read_entry_lem sb "dirlookup read" off ip d v fits in
        let unused = de_inum-bytes ip d off in
        elim (ℕ_discrete (inum_at ip d off) 0) [
          | yes z ↦ (
            o,
            rw (lt→ltb off ip.size more, find_entry, read, find_entry, ==_eq _ 0 (unused ∙ z)) next,
            passed name off o al (λ m. m.0 z) h,
          )
          | no nz ↦ elim (Bool-cases (lex_eq (text name) (name_at ip d off))) [
            | inl same ↦ (
              some (de_inum (bytes ip d off entry_size), off),
              rw
                  (
                    lt→ltb off ip.size more,
                    find_entry,
                    read,
                    find_entry,
                    ==_ne _ 0 (λ z. nz (sym unused ∙ z)),
                    namecmp-names name ip d off ∙ same,
                  )
                  refl,
              (
                omega arith,
                more,
                al,
                unused,
                (nz, (lex_eq_iff (text name) (name_at ip d off)).0 same),
                λ x a b c m. absurd (omega (arith, a, b)),
              ),
            )
            | inr other ↦ (
              o,
              rw
                  (
                    lt→ltb off ip.size more,
                    find_entry,
                    read,
                    find_entry,
                    ==_ne _ 0 (λ z. nz (sym unused ∙ z)),
                    namecmp-names name ip d off ∙ other,
                  )
                  next,
              passed name off o al
                  (λ m. differ (sym other ∙ (lex_eq_iff (text name) (name_at ip d off)).1 m.1)) h,
            )
          ]
        ]
  ]
    where
      differ : ◌≡◌ {A = Bool} false true → ⊥
      differ e = cc

  pub find_empty_lem :
      (fuel off : ℕ)
      → off % entry_size ≡ 0
      → off ≤ ip.size
      → ip.size < off + entry_size * fuel
      → (off' : ℕ) × (find_empty sb fuel off ip d ≡ returns (off', ip, d))
        × (off' ≤ ip.size)
        × (off' % entry_size ≡ 0)
        × ((off' < ip.size) → inum_at ip d off' ≡ 0)
  unfolding find_empty
  find_empty_lem zero off al l f = absurd (omega (arith, l, f))
  find_empty_lem (suc fuel) off al l f = elim (dec_lt off ip.size) [
    | no done ↦ (
      off,
      rw (le→ltb off ip.size (omega (arith, done)), find_empty) refl,
      l,
      al,
      λ more. absurd (done more),
    )
    | yes more ↦
        let fits : off + entry_size ≤ ip.size = omega (arith, al, more, v.whole) in
        let on : add32 off entry_size ≡ off + entry_size = omega (arith, fits, v.fits) in
        let (o, e, low, whole, empty) =
          find_empty_lem fuel (off + entry_size) (omega (arith, al)) fits (omega (arith, f)) in
        let read = read_entry_lem sb "dirlink read" off ip d v fits in
        let unused = de_inum-bytes ip d off in
        elim (ℕ_discrete (inum_at ip d off) 0) [
          | yes z ↦ (
            off,
            rw (lt→ltb off ip.size more, find_empty, read, find_empty, ==_eq _ 0 (unused ∙ z)) refl,
            l,
            al,
            λ q. z,
          )
          | no nz ↦ (
            o,
            rw
                (
                  lt→ltb off ip.size more,
                  find_empty,
                  read,
                  find_empty,
                  ==_ne _ 0 (λ z. nz (sym unused ∙ z)),
                )
                (ap (λ x. find_empty sb fuel x ip d) on ∙ e),
            low,
            whole,
            empty,
          )
        ]
  ]

  -- What `dirlookup` does with the entry that it has found.
  abbrev pub get_found :
      ℕ → Itable → Option (ℕ × ℕ) → Run (Option (ℕ × ℕ) × Inode × Blocks × Itable)
  get_found dev t none = returns (none, ip, d, t)
  get_found dev t (some e) =
      iget dev e.0 t >>= λ (r : ℕ × Itable). returns (some (r.0, e.1), ip, d, r.1)

  -- `dirlookup` ends at the first entry in use whose name is the same up to 14 bytes, and gives its inode
  -- from the table of inodes and its offset; it answers none where no entry has the name. It panics only
  -- where `iget` does, and changes nothing in the directory.
  pub dirlookup-FindsEntry :
      (dev : ℕ) (name : ℕ → ℕ) (t : Itable)
      → (o : Option (ℕ × ℕ)) × FindsEntry ip d name 0 o
        × (dirlookup sb dev name ip d t ≡ get_found dev t o)
  unfolding dirlookup
  dirlookup-FindsEntry dev name t =
      let (o, e, f) =
        find_entry-FindsEntry name (ip.size / entry_size + 2) 0 (omega arith) (omega arith)
          (omega arith) in
      (o, f, rw (==_eq ip.type dir_type v.type, e) (same o))
    where
      same :
          (o : Option (ℕ × ℕ))
          → (elim o as (λ x. Run (Option (ℕ × ℕ) × Inode × Blocks × Itable)) [
            | none ↦ returns (none, ip, d, t)
            | some e ↦ iget dev e.0 t >>= λ (r : ℕ × Itable). returns (some (r.0, e.1), ip, d, r.1)
          ])
            ≡ get_found dev t o
      same none = refl
      same (some e) = refl

-- There is one answer.
pub FindsEntry-unique :
    (ip : Inode) (d : Blocks) (name : ℕ → ℕ) (from : ℕ) (o p : Option (ℕ × ℕ))
    → FindsEntry ip d name from o
    → FindsEntry ip d name from p
    → o ≡ p
FindsEntry-unique ip d name from none none f g = refl
FindsEntry-unique ip d name from none (some (i, x)) f (a, b, c, e, m, u) = absurd (f x a b c m)
FindsEntry-unique ip d name from (some (i, x)) none (a, b, c, e, m, u) g = absurd (g x a b c m)
FindsEntry-unique ip d name from (some (i, x)) (some (j, y)) (a, b, c, e, m, u)
      (a2, b2, c2, e2, m2, u2) =
    let same : x ≡ y = elim (dec_lt x y) [
      | yes l ↦ absurd (u2 x a l c m)
      | no l ↦ elim (dec_lt y x) [
        | yes l2 ↦ absurd (u y a2 l2 c2 m2)
        | no l2 ↦ omega (arith, l, l2)
      ]
    ] in
    ap₂ (λ q r. some (q, r)) (e ∙ ap (inum_at ip d) same ∙ sym e2) same
