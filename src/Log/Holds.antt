-- ===== src/Log/Holds.antt =====
-- kernel/log.c: what contents a disk with a log stands for, and the loop of `install_trans` over it.
use csse_332_final.Base.{
  ℕ, zero, suc, ◌+◌, ◌≤◌, ◌<◌, ◌≡◌, refl, sym, ◌∙◌, ap, subst, ◌≢◌, ◌⊎◌, inl, inr, Bool, true,
  false, [], arith, leb, leb→lt, ◌&&◌, fun_ext, Run, returns, ◌>>=◌, ltb, if◌then◌else◌, Bool-cases,
  update, update_self, update-ne, All, ltb→le, ℕ_discrete,
}
use csse_332_final.Log.{
  Log, Store, Disk, Block, log_size, bwrite, copy_block, bunpin, install_from, install_trans,
  write_head, initlog,
}
use csse_332_final.Log.Loops.{named_or_not, head_block-count}

-- Outside the log's own blocks.
abbrev pub IsHome : ℕ → ℕ → ℕ → Type 0
IsHome start size b = (b < start) ⊎ (start + size ≤ b)

-- The machine comes up with nothing cached: every `bread` reads the disk.
abbrev pub mount : Disk → Store
mount d = record { disk = d; cached = d; pins = λ _. 0; trace = [] }

-- `struct log log` at boot: static storage is zero.
abbrev pub boot : Log
boot = record { start = 0; size = 0; outstanding = 0; committing = false; n = 0; block = λ _. 0 }

-- The contents outside the log's own blocks.
abbrev pub home : ℕ → ℕ → Disk → Disk
home start size d b = if leb start b && ltb b (start + size) then (λ _. 0) else d b

-- What the file system finds after a crash that left the disk `d`: the home blocks after `initlog`.
unfoldable pub restart : ℕ → ℕ → Disk → Run Disk
restart start size d =
    initlog start size boot (mount d) >>= λ (lg, s). returns (home start size s.disk)

pub home_ext :
    (start size : ℕ) (d c : Disk)
    → ((b : ℕ) → IsHome start size b → d b ≡ c b)
    → home start size d ≡ home start size c
home_ext start size d c h = fun_ext λ b. elim (Bool-cases (leb start b)) [
  | inr low ↦ rw low (h b (inl (leb→lt start b low)))
  | inl up ↦ elim (Bool-cases (ltb b (start + size))) [
    | inl inside ↦ rw (up, inside)
    | inr above ↦ rw (up, above) (h b (inr (ltb→le b (start + size) above)))
  ]
]

module _ (start size : ℕ) where
  -- The disk `d` stands for the contents `c`: its header names `n` blocks, whose contents the log
  -- holds; every other block is in place.
  pub record Holds (n : ℕ) (block : ℕ → ℕ) (c d : Disk) : Type 0 where
    pub count : d start 0 ≡ n
    pub names : (i : ℕ) → i < n → d start (i + 1) ≡ block i
    pub copies : (i : ℕ) → i < n → d (start + i + 1) ≡ c (block i)
    pub rest : (b : ℕ) → IsHome start size b → ((i : ℕ) → i < n → block i ≢ b) → d b ≡ c b

  -- What the header of a transaction may name.
  pub record Fits (n : ℕ) (block : ℕ → ℕ) : Type 0 where
    pub few : n ≤ log_size
    pub room : n < size
    pub home : (i : ℕ) → i < n → IsHome start size (block i)

  pub home-ne-start : {b : ℕ} → IsHome start size b → 0 < size → b ≢ start
  home-ne-start h p = ground arith

  pub home-ne-copy : {b : ℕ} (i : ℕ) → IsHome start size b → i + 1 < size → b ≢ start + i + 1
  home-ne-copy i h p = ground arith

  module _ {n : ℕ} {block : ℕ → ℕ} (c : Disk) (fits : Fits n block) (P : Disk → Type 0)
      (ok : (d : Disk) → Holds n block c d → P d) where
    -- Copying a logged block to its place keeps what the disk stands for.
    Holds-install :
        {d : Disk} (t : ℕ) (x : Block)
        → t < n
        → x ≡ c (block t)
        → Holds n block c d
        → Holds n block c (update d (block t) x)
    Holds-install {d} t x lt e h = record {
      count = ap (λ (w : Block). w 0) (update-ne d (block t) x off_start) ∙ h.count;
      names =
          λ i l. ap (λ (w : Block). w (i + 1)) (update-ne d (block t) x off_start) ∙ h.names i l;
      copies = λ i l.
          update-ne d (block t) x (home-ne-copy i (fits.home t lt) (omega (arith, fits.room)))
          ∙ h.copies i l;
      rest = λ b hb others. update-ne d (block t) x (others t lt) ∙ h.rest b hb others;
    }
      where
        off_start : block t ≢ start
        off_start = home-ne-start (fits.home t lt) (omega (arith, fits.room))

    -- The state of `install_trans` after `t` rounds.
    pub record Installed (t : ℕ) (s : Store) : Type 0 where
      pub stands : Holds n block c s.disk
      pub logged : (i : ℕ) → i < n → s.cached (start + i + 1) ≡ c (block i)
      pub placed : (i : ℕ) → i < t → s.disk (block i) ≡ c (block i)
      pub crashes : All P s.trace  -- `P` holds at every crash so far

    Installed-round :
        (s : Store) (t : ℕ)
        → t < n
        → Installed t s
        → Installed (t + 1) (bwrite (block t) (copy_block (block t) (start + t + 1) s))
    unfolding bwrite copy_block
    Installed-round s t lt inv = record {
      stands = stands;
      logged = λ i l.
          update-ne s.cached (block t) _
            (home-ne-copy i (fits.home t lt) (omega (arith, fits.room)))
          ∙ inv.logged i l;
      placed = λ i l. elim (ℕ_discrete (block t) (block i)) [
        | yes same ↦ update_self s.disk (block t) _ same ∙ copied ∙ ap c same
        | no ne ↦
            update-ne s.disk (block t) _ ne
            ∙ inv.placed i (elim (ℕ_discrete i t) [
              | yes last ↦ absurd (ne (ap block (sym last)))
              | no before ↦ omega arith
            ])
      ];
      crashes = (ok _ stands, inv.crashes);
    }
      where
        copied : update s.cached (block t) (s.cached (start + t + 1)) (block t) ≡ c (block t)
        copied = update_self s.cached (block t) _ refl ∙ inv.logged t lt

        stands : Holds n block c (
            update s.disk
              (block t)
              (update s.cached (block t) (s.cached (start + t + 1)) (block t)))
        stands = Holds-install t _ lt copied inv.stands

    Installed-bunpin : {s : Store} {t : ℕ} (b : ℕ) → Installed t s → Installed t (bunpin b s)
    unfolding bunpin
    Installed-bunpin b inv = record {
      stands = inv.stands;
      logged = inv.logged;
      placed = inv.placed;
      crashes = inv.crashes;
    }

module _ (lg : Log) (c : Disk) (fits : Fits lg.start lg.size lg.n lg.block) (P : Disk → Type 0)
    (ok : (d : Disk) → Holds lg.start lg.size lg.n lg.block c d → P d) where
  install_from-Installed :
      (recovering : Bool) (k t : ℕ) (s : Store)
      → t + k ≡ lg.n
      → Installed lg.start lg.size c fits P ok t s
      → Installed lg.start lg.size c fits P ok lg.n (install_from lg recovering k t s)
  unfolding install_from
  install_from-Installed recovering zero t s e inv =
      let e' : t ≡ lg.n = omega arith in
      subst (λ m. Installed lg.start lg.size c fits P ok m s) e' inv
  install_from-Installed true (suc k) t s e inv =
      install_from-Installed true k (t + 1) _ (omega arith)
        (Installed-round lg.start lg.size c fits P ok s t (omega arith) inv)
  install_from-Installed false (suc k) t s e inv =
      install_from-Installed false k (t + 1) _ (omega arith) (
        Installed-bunpin lg.start lg.size c fits P ok (lg.block t)
          (Installed-round lg.start lg.size c fits P ok s t (omega arith) inv))

  pub install_trans-Installed :
      (recovering : Bool) (s : Store)
      → Installed lg.start lg.size c fits P ok 0 s
      → Installed lg.start lg.size c fits P ok lg.n (install_trans lg recovering s)
  unfolding install_trans
  install_trans-Installed recovering s inv =
      install_from-Installed recovering lg.n 0 s (omega arith) inv

  -- After the last round every block is in place.
  pub Installed-in_place :
      {s : Store}
      → Installed lg.start lg.size c fits P ok lg.n s
      → (b : ℕ) → IsHome lg.start lg.size b
      → s.disk b ≡ c b
  Installed-in_place {s} inv b hb = elim (named_or_not lg.block b lg.n) [
    | inl (i, lt, e) ↦ ap s.disk (sym e) ∙ inv.placed i lt ∙ ap c e
    | inr others ↦ inv.stands.rest b hb others
  ]

-- With every block in place, a header that names nothing leaves the contents as they are.
pub Holds-erase :
    (lg : Log) (c : Disk) (block : ℕ → ℕ) (s : Store)
    → lg.n ≡ 0
    → 0 < lg.size
    → ((b : ℕ) → IsHome lg.start lg.size b → s.disk b ≡ c b)
    → Holds lg.start lg.size 0 block c (write_head lg s).disk
unfolding write_head bwrite
Holds-erase lg c block s none_named pos placed = record {
  count =
      ap (λ (w : Block). w 0) (update_self s.disk lg.start _ refl)
      ∙ ap (λ (w : Block). w 0) (update_self s.cached lg.start _ refl)
      ∙ head_block-count lg (s.cached lg.start)
      ∙ none_named;
  names = λ i l. absurd (omega arith);
  copies = λ i l. absurd (omega arith);
  rest = λ b hb others.
      update-ne s.disk lg.start _ (λ e. home-ne-start lg.start lg.size hb pos (sym e))
      ∙ placed b hb;
}
