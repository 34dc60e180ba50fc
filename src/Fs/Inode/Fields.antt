-- ===== src/Fs/Inode/Fields.antt =====
-- kernel/fs.c: the fields of an inode that is stored are loaded again.
use csse_332_final.Base.{
  ℕ, zero, suc, ◌+◌, ◌*◌, ◌^◌, ◌≤◌, ◌<◌, ◌≡◌, refl, ◌∙◌, sym, ap, ◌⊎◌, inl, inr, arith, ℕ_discrete,
}
use csse_332_final.Fs.{Block, ndirect}
use csse_332_final.Fs.Bytes.{
  get16, get32, put16, put32, Outside, put16-ne, put32-ne, get16-put16, get32-put32, get16-ne,
  get32-ne,
}
use csse_332_final.Fs.Inode.{Inode, store_addrs, store_dinode, load_dinode}

-- The fields have their widths.
pub record Fits (ip : Inode) : Type 0 where
  pub type : ip.type < 2 ^ 16
  pub major : ip.major < 2 ^ 16
  pub minor : ip.minor < 2 ^ 16
  pub nlink : ip.nlink < 2 ^ 16
  pub size : ip.size < 2 ^ 32
  pub addrs : (i : ℕ) → i ≤ ndirect → ip.addrs i < 2 ^ 32

-- The same fields, as far as an inode has them.
pub record Same (ip ip' : Inode) : Type 0 where
  pub type : ip.type ≡ ip'.type
  pub major : ip.major ≡ ip'.major
  pub minor : ip.minor ≡ ip'.minor
  pub nlink : ip.nlink ≡ ip'.nlink
  pub size : ip.size ≡ ip'.size
  pub addrs : (i : ℕ) → i ≤ ndirect → ip.addrs i ≡ ip'.addrs i

store_addrs-ne :
    (k i : ℕ) (addrs : ℕ → ℕ) (base : ℕ) (a : Block) (j : ℕ)
    → (j < base + 12 + 4 * i) ⊎ (base + 12 + 4 * (i + k) ≤ j)
    → store_addrs k i addrs base a j ≡ a j
unfolding store_addrs
store_addrs-ne zero i addrs base a j h = refl
store_addrs-ne (suc k) i addrs base a j h =
    store_addrs-ne k (i + 1) addrs base (put32 (base + 12 + 4 * i) (addrs i) a) j (later h)
    ∙ put32-ne (base + 12 + 4 * i) (addrs i) j a (now h)
  where
    later :
        (j < base + 12 + 4 * i) ⊎ (base + 12 + 4 * (i + suc k) ≤ j)
        → (j < base + 12 + 4 * (i + 1)) ⊎ (base + 12 + 4 * (i + 1 + k) ≤ j)
    later (inl l) = inl (omega arith)
    later (inr l) = inr (omega arith)

    now :
        (j < base + 12 + 4 * i) ⊎ (base + 12 + 4 * (i + suc k) ≤ j)
        → Outside (base + 12 + 4 * i) 4 j
    now (inl l) = inl (omega arith)
    now (inr l) = inr (omega arith)

store_addrs-get :
    (k i : ℕ) (addrs : ℕ → ℕ) (base : ℕ) (a : Block) (m : ℕ)
    → i ≤ m
    → m < i + k
    → addrs m < 2 ^ 32
    → get32 (store_addrs k i addrs base a) (base + 12 + 4 * m) ≡ addrs m
unfolding store_addrs
store_addrs-get zero i addrs base a m h l f = absurd (omega arith)
store_addrs-get (suc k) i addrs base a m h l f = elim (ℕ_discrete i m) [
  | yes e ↦
      get32-ne (put32 (base + 12 + 4 * i) (addrs i) a) _ (base + 12 + 4 * m) (λ j b c.
        store_addrs-ne k (i + 1) addrs base (put32 (base + 12 + 4 * i) (addrs i) a) j
          (inl (omega arith)))
      ∙ ap (λ n. get32 (put32 (base + 12 + 4 * i) (addrs i) a) (base + 12 + 4 * n)) (sym e)
      ∙ get32-put32 (base + 12 + 4 * i) (addrs i) a (omega (arith, ap addrs e))
      ∙ ap addrs e
  | no ne ↦
      store_addrs-get k (i + 1) addrs base (put32 (base + 12 + 4 * i) (addrs i) a) m (omega arith)
        (omega arith) f
]

-- The bytes of one inode alone are written.
pub store_dinode-ne :
    (ip : Inode) (base : ℕ) (a : Block) (j : ℕ) → Outside base 64 j → store_dinode ip base a j ≡ a j
unfolding store_dinode
store_dinode-ne ip base a j h =
    store_addrs-ne 13 0 ip.addrs base _ j (part h)
    ∙ put32-ne (base + 8) ip.size j _ (four h)
    ∙ put16-ne (base + 6) ip.nlink j _ (two 6 (omega arith) h)
    ∙ put16-ne (base + 4) ip.minor j _ (two 4 (omega arith) h)
    ∙ put16-ne (base + 2) ip.major j _ (two 2 (omega arith) h)
    ∙ put16-ne base ip.type j a (first h)
  where
    part : Outside base 64 j → (j < base + 12 + 4 * 0) ⊎ (base + 12 + 4 * (0 + 13) ≤ j)
    part (inl l) = inl (omega arith)
    part (inr l) = inr (omega arith)

    four : Outside base 64 j → Outside (base + 8) 4 j
    four (inl l) = inl (omega arith)
    four (inr l) = inr (omega arith)

    two : (k : ℕ) → k ≤ 6 → Outside base 64 j → Outside (base + k) 2 j
    two k b (inl l) = inl (omega arith)
    two k b (inr l) = inr (omega arith)

    first : Outside base 64 j → Outside base 2 j
    first (inl l) = inl (omega arith)
    first (inr l) = inr (omega arith)

-- The fields before the addresses.
header : Inode → ℕ → Block → Block
header ip base a = put32 (base + 8) ip.size (
    put16 (base + 6) ip.nlink
      (put16 (base + 4) ip.minor (put16 (base + 2) ip.major (put16 base ip.type a))))

store_dinode-header :
    (ip : Inode) (base : ℕ) (a : Block) (j : ℕ)
    → j < base + 12
    → store_dinode ip base a j ≡ header ip base a j
unfolding store_dinode header
store_dinode-header ip base a j h = store_addrs-ne 13 0 ip.addrs base _ j (inl (omega arith))

module _ (ip : Inode) (base : ℕ) (a : Block) (f : Fits ip) where
  get-type : get16 (header ip base a) base ≡ ip.type
  unfolding header
  get-type =
      get16-ne (put16 base ip.type a) (header ip base a) base (early base (omega arith))
        (early (base + 1) (omega arith))
      ∙ get16-put16 base ip.type a f.type
    where
      early : (j : ℕ) → j < base + 2 → header ip base a j ≡ put16 base ip.type a j
      early j h =
          put32-ne (base + 8) ip.size j _ (inl (omega arith))
          ∙ put16-ne (base + 6) ip.nlink j _ (inl (omega arith))
          ∙ put16-ne (base + 4) ip.minor j _ (inl (omega arith))
          ∙ put16-ne (base + 2) ip.major j _ (inl (omega arith))

  get-major : get16 (header ip base a) (base + 2) ≡ ip.major
  unfolding header
  get-major =
      get16-ne (put16 (base + 2) ip.major below) (header ip base a) (base + 2)
        (early (base + 2) (omega arith)) (early (base + 2 + 1) (omega arith))
      ∙ get16-put16 (base + 2) ip.major below f.major
    where
      below : Block
      below = put16 base ip.type a

      early : (j : ℕ) → j < base + 4 → header ip base a j ≡ put16 (base + 2) ip.major below j
      early j h =
          put32-ne (base + 8) ip.size j _ (inl (omega arith))
          ∙ put16-ne (base + 6) ip.nlink j _ (inl (omega arith))
          ∙ put16-ne (base + 4) ip.minor j _ (inl (omega arith))

  get-minor : get16 (header ip base a) (base + 4) ≡ ip.minor
  unfolding header
  get-minor =
      get16-ne (put16 (base + 4) ip.minor below) (header ip base a) (base + 4)
        (early (base + 4) (omega arith)) (early (base + 4 + 1) (omega arith))
      ∙ get16-put16 (base + 4) ip.minor below f.minor
    where
      below : Block
      below = put16 (base + 2) ip.major (put16 base ip.type a)

      early : (j : ℕ) → j < base + 6 → header ip base a j ≡ put16 (base + 4) ip.minor below j
      early j h =
          put32-ne (base + 8) ip.size j _ (inl (omega arith))
          ∙ put16-ne (base + 6) ip.nlink j _ (inl (omega arith))

  get-nlink : get16 (header ip base a) (base + 6) ≡ ip.nlink
  unfolding header
  get-nlink =
      get16-ne (put16 (base + 6) ip.nlink below) (header ip base a) (base + 6)
        (put32-ne (base + 8) ip.size (base + 6) _ (inl (omega arith)))
        (put32-ne (base + 8) ip.size (base + 6 + 1) _ (inl (omega arith)))
      ∙ get16-put16 (base + 6) ip.nlink below f.nlink
    where
      below : Block
      below = put16 (base + 4) ip.minor (put16 (base + 2) ip.major (put16 base ip.type a))

  get-size : get32 (header ip base a) (base + 8) ≡ ip.size
  unfolding header
  get-size = get32-put32 (base + 8) ip.size _ f.size

  abbrev stored : Block
  stored = store_dinode ip base a

  field16 : (k : ℕ) → k ≤ 6 → get16 stored (base + k) ≡ get16 (header ip base a) (base + k)
  field16 k h =
      get16-ne (header ip base a) stored (base + k)
        (store_dinode-header ip base a (base + k) (omega arith))
        (store_dinode-header ip base a (base + k + 1) (omega arith))

  pub load-store : Same (load_dinode base stored) ip
  unfolding load_dinode store_dinode header
  load-store = record {
    type =
        get16-ne (header ip base a) stored base (store_dinode-header ip base a base (omega arith))
          (store_dinode-header ip base a (base + 1) (omega arith))
        ∙ get-type;
    major = field16 2 (omega arith) ∙ get-major;
    minor = field16 4 (omega arith) ∙ get-minor;
    nlink = field16 6 (omega arith) ∙ get-nlink;
    size =
        get32-ne (header ip base a) stored (base + 8)
          (λ k l h. store_dinode-header ip base a k (omega arith))
        ∙ get-size;
    addrs = addresses;
  }
    where
      addresses : (i : ℕ) → i ≤ ndirect → (load_dinode base stored).addrs i ≡ ip.addrs i
      addresses i h =
          store_addrs-get 13 0 ip.addrs base (header ip base a) i (omega arith) (omega arith)
            (f.addrs i h)
