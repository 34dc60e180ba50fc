-- ===== src/Fs/Dirs/Link.antt =====
-- kernel/fs.c: `dirlookup` finds what `dirlink` has written.
use csse_332_final.Base.{
  ℕ, ◌+◌, ◌-◌, ◌*◌, ◌/◌, ◌%◌, ◌^◌, ◌≤◌, ◌<◌, ◌≡◌, ◌≢◌, refl, ◌∙◌, sym, ap, ap₂, arith, subst, Bool,
  true, false, Option, none, some, [], inl, inr, ◌⊎◌, ◌==◌, ==_eq, ==_ne, ℕ_discrete, if◌then◌else◌,
  lt→ltb, ltb, returns, dec_lt,
}
use csse_332_final.Strings.{string_at, strncpy}
use csse_332_final.Strings.Copy.{string_at-same, strncpy_small, strncpy_copies}
use csse_332_final.Fs.{Superblock, Blocks, bsize, maxfile}
use csse_332_final.Fs.Inode.{Inode, iupdate}
use csse_332_final.Fs.Bitmap.Marks.{used}
use csse_332_final.Fs.Content.Files.{IsDisk, IsFile}
use csse_332_final.Fs.Content.Write.{byte}
use csse_332_final.Fs.Content.{LogUse}
use csse_332_final.Fs.Content.Writei.{HasRoom}
use csse_332_final.Fs.Content.ReadWrite.{Written, writei-Written}
use csse_332_final.Fs.Table.{Itable}
use csse_332_final.Fs.Dirs.{
  name_size, entry_size, whole_copy, both_names, dirlookup, new_entry, write_entry, dirlink,
}
use csse_332_final.Fs.Dirs.Entries.{inum_at, name_at, text, Names, IsDir}
use csse_332_final.Fs.Dirs.Lookup.{
  FindsEntry, FindsEntry-unique, find_empty_lem, get_found, dirlookup-FindsEntry,
}

new_entry_small :
    (name : ℕ → ℕ) (inum : ℕ) → ((j : ℕ) → name j < 256) → (j : ℕ) → new_entry name inum j < 256
unfolding new_entry
new_entry_small name inum h j = elim (ℕ_discrete j 0) [
  | yes e ↦ rw (==_eq j 0 e) (omega arith)
  | no ne ↦ elim (ℕ_discrete j 1) [
    | yes e ↦ rw (==_ne j 0 ne, ==_eq j 1 e) (omega arith)
    | no ne1 ↦
        rw (==_ne j 0 ne, ==_ne j 1 ne1)
          (strncpy_small name_size 0 name_size (both_names name []) (λ a. ground (arith, h a))
            (j + 12))
  ]
]

new_entry-text : (name : ℕ → ℕ) (inum : ℕ) → string_at name_size 2 (new_entry name inum) ≡ text name
unfolding new_entry
new_entry-text name inum =
    let m = both_names name [] in
    string_at-same name_size 2 name_size (new_entry name inum) (strncpy name_size 0 name_size m)
      (λ j h.
        rw (==_ne (2 + j) 0 (omega arith), ==_ne (2 + j) 1 (omega arith))
          (ap (strncpy name_size 0 name_size m) (omega arith)))
    ∙ (strncpy_copies name_size 0 name_size m (inr (omega arith))).0
    ∙ string_at-same name_size 0 0 m name
        (λ j h. rw (lt→ltb (0 + j) name_size (omega (arith, h))) (ap name (omega arith)))

-- A directory in which the entry at an offset, empty before or behind the last, is written.
module _ (sb : Superblock) (name : ℕ → ℕ) (inum off : ℕ) (ip : Inode) (d : Blocks) (ip' : Inode)
    (d' : Blocks) (v : IsDir ip d) (l : off ≤ ip.size) (al : off % entry_size ≡ 0)
    (empty : (off < ip.size) → inum_at ip d off ≡ 0) (room : ip.size + entry_size ≤ maxfile * bsize)
    (some_inum : 0 < inum) (short : inum < 2 ^ 16)
    (w : Written sb whole_copy (new_entry name inum) off entry_size ip d entry_size ip' d') where
  size_lem : ip'.size ≡ (if ltb ip.size (off + entry_size) then off + entry_size else ip.size)
  size_lem = w.size

  written-IsDir : IsDir ip' d'
  written-IsDir = record {
    type = w.type ∙ v.type;
    whole = ground (arith, size_lem, al, v.whole);
    fits = ground (arith, size_lem, l, room);
    there = λ p x y. elim (dec_lt p ip.size) [
      | yes h ↦ λ z.
          let q = v.there p x (omega (arith, h)) in
          q (sym (w.stays (p / bsize) (omega (arith, h, room)) q) ∙ z)
      | no h ↦ w.there p (omega (arith, h, l)) (ground (arith, size_lem, h, l, y))
    ];
  }

  kept : (p : ℕ) → p < ip.size → (p < off) ⊎ (off + entry_size ≤ p) → byte ip' d' p ≡ byte ip d p
  kept p h o = w.unwritten p (omega (arith, h, room)) o (v.there p (omega arith) (omega (arith, h)))

  inum_new : inum_at ip' d' off ≡ inum
  unfolding new_entry
  inum_new =
      let zero_byte : off - off ≡ 0 = omega arith in
      let one_byte : off + 1 - off ≡ 1 = omega arith in
      ap₂ (λ x y. x + 256 * y)
        (w.written off (omega arith) (omega arith) ∙ ap (new_entry name inum) zero_byte)
        (w.written (off + 1) (omega arith) (omega arith) ∙ ap (new_entry name inum) one_byte)
      ∙ omega (arith, short)

  name_new : name_at ip' d' off ≡ text name
  name_new =
      string_at-same name_size (off + 2) 2 (byte ip' d') (new_entry name inum) (λ j h.
        w.written (off + 2 + j) (omega arith) (omega (arith, h))
        ∙ ap (new_entry name inum) (omega arith))
      ∙ new_entry-text name inum

  -- The other entries are as they were.
  others :
      (x : ℕ)
      → x % entry_size ≡ 0
      → x < ip.size
      → x ≢ off
      → (inum_at ip' d' x ≡ inum_at ip d x) × (name_at ip' d' x ≡ name_at ip d x)
  others x ax lx ne = (
    ap₂ (λ a b. a + 256 * b) (at 0 (omega arith) (omega arith)) (at 1 (omega arith) refl),
    string_at-same name_size (x + 2) (x + 2) (byte ip' d') (byte ip d)
        (λ j h. at (2 + j) (omega (arith, h)) (omega arith)),
  )
    where
      at : (j : ℕ) → j < entry_size → {p : ℕ} → p ≡ x + j → byte ip' d' p ≡ byte ip d p
      at j h {p} e = elim (dec_lt p off) [
        | yes q ↦ kept p (omega (arith, h, e, ax, lx, v.whole)) (inl q)
        | no q ↦
            kept p (omega (arith, h, e, ax, lx, v.whole)) (inr (omega (arith, h, e, ax, al, ne, q)))
      ]

  -- A name of an entry now, but that of the new one, was its name before.
  before :
      (other : ℕ → ℕ) (x : ℕ)
      → x % entry_size ≡ 0
      → x < ip'.size
      → x ≢ off
      → Names ip' d' other x
      → (x < ip.size) × Names ip d other x
  before other x ax lx ne m =
      let h : x < ip.size = ground (arith, size_lem, ax, lx, ne, al, l) in
      let (i, n) = others x ax h ne in (h, (λ z. m.0 (i ∙ z), m.1 ∙ n))

  after :
      (other : ℕ → ℕ) (x : ℕ)
      → x % entry_size ≡ 0
      → x < ip.size
      → Names ip d other x
      → Names ip' d' other x
  after other x ax h m =
      let (i, n) = others x ax h (λ e. m.0 (ap (inum_at ip d) e ∙ empty (omega (arith, e, h)))) in
      (λ z. m.0 (sym i ∙ z), m.1 ∙ sym n)

  grew : ip.size ≤ ip'.size
  grew = ground (arith, size_lem)

  new_found : FindsEntry ip d name 0 none → FindsEntry ip' d' name 0 (some (inum, off))
  new_found gone = (
    omega arith,
    ground (arith, size_lem, l),
    al,
    sym inum_new,
    (λ z. omega (arith, sym inum_new ∙ z, some_inum), sym name_new),
    λ x a b c m.
        let (h, n) = before name x c (omega (arith, b, l, grew)) (λ e. omega (arith, e, b)) m in
        gone x a h c n,
  )

  others_found :
      (other : ℕ → ℕ) (o : Option (ℕ × ℕ))
      → text other ≢ text name
      → FindsEntry ip d other 0 o
      → FindsEntry ip' d' other 0 o
  others_found other none ne f = λ x a b c m.
      let (h, n) = before other x c b (λ e. ne (m.1 ∙ ap (name_at ip' d') e ∙ name_new)) m in
      f x a h c n
  others_found other (some (i, x)) ne (a, b, c, e, m, u) =
      let m' = after other x c b m in
      (
        a,
        omega (arith, b, grew),
        c,
        e ∙ sym (others x c b (λ q. m.0 (ap (inum_at ip d) q ∙ empty (omega (arith, q, b))))).0,
        m',
        λ y p q r z.
            let (h, n) =
              before other y r (omega (arith, q, b, grew))
                (λ e. ne (z.1 ∙ ap (name_at ip' d') e ∙ name_new)) z in
            u y p q r n,
      )

-- What `dirlink` leaves where it has written an entry: `dirlookup` finds the name, and every other name as
-- before.
pub record Added (sb : Superblock) (dev : ℕ) (name : ℕ → ℕ) (inum : ℕ) (ip : Inode) (d : Blocks)
    (ip' : Inode) (d' : Blocks) : Type 0 where
  pub dir : IsDir ip' d'
  pub off : ℕ
  pub found :
      (t : Itable)
      → dirlookup sb dev name ip' d' t ≡ get_found sb ip' d' dir dev t (some (inum, off))
  pub same :
      (other : ℕ → ℕ) (o : Option (ℕ × ℕ)) (t : Itable)
      → text other ≢ text name
      → FindsEntry ip d other 0 o
      → dirlookup sb dev other ip' d' t ≡ get_found sb ip' d' dir dev t o

-- `dirlookup` is decided by the entry that there is.
dirlookup_by :
    (sb : Superblock) (ip : Inode) (d : Blocks) (v : IsDir ip d) (dev : ℕ) (name : ℕ → ℕ)
    (o : Option (ℕ × ℕ)) (t : Itable)
    → FindsEntry ip d name 0 o
    → dirlookup sb dev name ip d t ≡ get_found sb ip d v dev t o
dirlookup_by sb ip d v dev name o t f =
    let (p, g, e) = dirlookup-FindsEntry sb ip d v dev name t in
    e ∙ ap (get_found sb ip d v dev t) (FindsEntry-unique ip d name 0 p o g f)

-- `dirlink` of a name that the directory does not have, with an inode number from 1 to 2^16 - 1, in a
-- directory below the largest size by an entry at least, and with room in the log, does not panic. Either it
-- answers 0, and `dirlookup` finds the inode by the name and finds every other name as before; or it answers
-- -1, with every block of the disk in use.
pub dirlookup-dirlink :
    (sb : Superblock) (lg : LogUse) (dev dir : ℕ) (name : ℕ → ℕ) (inum : ℕ) (ip : Inode)
    (d : Blocks) (t : Itable)
    → HasRoom lg entry_size
    → IsDisk sb d
    → IsFile sb ip d
    → IsDir ip d
    → dir < sb.ninodes
    → ((j : ℕ) → name j < 256)
    → 0 < inum
    → inum < 2 ^ 16
    → ip.size + entry_size ≤ maxfile * bsize
    → FindsEntry ip d name 0 none
    → (ok : Bool) × (ip' : Inode) × (d' : Blocks) × (dirlink sb lg dev dir name inum ip d t
        ≡ returns (ok, ip', d', t))
      × ((ok ≡ true) → Added sb dev name inum ip d ip' d')
      × ((ok ≡ false)
          → (d1 : Blocks) × (d' ≡ iupdate sb dir ip' d1)
            × ((x : ℕ) → x < sb.size → used sb d1 x ≡ true))
unfolding dirlink write_entry
dirlookup-dirlink sb lg dev dir name inum ip d t space k f v i small positive short room gone =
    let (off, e, low, al, empty) =
      find_empty_lem sb ip d v (ip.size / entry_size + 2) 0 (omega arith) (omega arith)
        (omega arith) in
    let (tot, ip', d', d1, we, w, de, why) =
      writei-Written sb whole_copy lg (new_entry name inum) dir off entry_size ip d space
        (new_entry_small name inum small) i low (omega (arith, low, room)) k f in
    (
      tot == entry_size,
      ip',
      d',
      rw (dirlookup_by sb ip d v dev name none t gone, e, we) refl,
      λ ok.
          let full : tot ≡ entry_size = ground (arith, ok) in
          let w' =
            subst (λ n. Written sb whole_copy (new_entry name inum) off entry_size ip d n ip' d')
              full w in
          let v' =
            written-IsDir sb name inum off ip d ip' d' v low al empty room positive short w' in
          record {
            dir = v';
            off = off;
            found = λ t2.
                dirlookup_by sb ip' d' v' dev name (some (inum, off)) t2 (
                  new_found sb name inum off ip d ip' d' v low al empty room positive short w'
                    gone);
            same = λ other o t2 ne h. dirlookup_by sb ip' d' v' dev other o t2 (
                others_found sb name inum off ip d ip' d' v low al empty room positive short w'
                  other o ne h);
          },
      λ ok. (
        d1,
        de,
        elim why [
          | inl all ↦ absurd (differ (sym ok ∙ ==_eq tot entry_size all))
          | inr (inl full) ↦ full
          | inr (inr (m, p, q)) ↦ absurd (omega (arith, q))
        ],
      ),
    )
  where
    differ : ◌≡◌ {A = Bool} false true → ⊥
    differ e = cc
