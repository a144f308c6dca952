-- ===== src/Tfs/Inodes/Laws.antt =====
-- fs/tfs/inode.c: an inode written to the inode table and read from it.
use thunix.Base.{
  ℕ, ◌+◌, ◌-◌, ◌*◌, ◌/◌, ◌%◌, ◌^◌, ◌≤◌, ◌<◌, ◌≡◌, refl, sym, ap, ◌∙◌, ◌≢◌, ◌⊎◌, false, List, [],
  ◌∷◌, arith, pred32, leb, ◌==◌, if◌then◌else◌, Memory, load32, load16, store16, store32, u32,
  load16-store16, store16_ne, load32-store32, store32_ne,
}
use native.Mathlib.Nat.{mod-lt}
use thunix.Tfs.{SbInfo, sub32, tfs_inode_size}
use thunix.Tfs.Inodes.{
  Inode, tfs_fill_inode, store_words, inode_words, tfs_write_inode, tfs_bmap, inode_block,
  inode_offset, read_block, read_offset,
}

-- the word at index `i` after the stores, from what it was
lookup : List (ℕ × ℕ) → ℕ → ℕ → ℕ
lookup [] i old = old
lookup ((j, word) ∷ words) i old = lookup words i (if i == j then word else old)

-- every word fits in 32 bits, and its index lies from 1 to 15
Fits : List (ℕ × ℕ) → Type 0
Fits [] = Unit {0}
Fits ((j, word) ∷ words) = (1 ≤ j) × (j < 16) × (word < 2 ^ 32) × Fits words

load32_ne :
    (m : Memory) (t i j word : ℕ)
    → i ≢ j
    → load32 (store32 m (t + 4 * j) word) (t + 4 * i) ≡ load32 m (t + 4 * i)
unfolding load32
load32_ne m t i j word ne = ground (
  arith,
  store32_ne m (t + 4 * j) word (t + 4 * i),
  store32_ne m (t + 4 * j) word (t + 4 * i + 1),
  store32_ne m (t + 4 * j) word (t + 4 * i + 2),
  store32_ne m (t + 4 * j) word (t + 4 * i + 3),
)

load32-step :
    (m : Memory) (t i j word : ℕ)
    → word < 2 ^ 32
    → load32 (store32 m (t + 4 * j) word) (t + 4 * i)
      ≡ (if i == j then word else load32 m (t + 4 * i))
load32-step m t i j word h =
    ground (arith, load32_ne m t i j word, load32-store32 m (t + 4 * j) word)

load32-store_words :
    (words : List (ℕ × ℕ)) (m : Memory) (t i : ℕ)
    → Fits words
    → load32 (store_words m t words) (t + 4 * i) ≡ lookup words i (load32 m (t + 4 * i))
unfolding store_words lookup Fits
load32-store_words [] m t i h = refl
load32-store_words ((j, word) ∷ words) m t i (_, _, small, h) =
    load32-store_words words (store32 m (t + 4 * j) word) t i h
    ∙ ap (lookup words i) (load32-step m t i j word small)

store_words_ne :
    (words : List (ℕ × ℕ)) (m : Memory) (t x : ℕ)
    → Fits words
    → (x < t + 4) ⊎ (t + 64 ≤ x)
    → store_words m t words x ≡ m x
unfolding store_words Fits
store_words_ne [] m t x h out = refl
store_words_ne ((j, word) ∷ words) m t x (low, high, _, h) out =
    store_words_ne words (store32 m (t + 4 * j) word) t x h out
    ∙ store32_ne m (t + 4 * j) word x (omega (arith, out))

-- The fields are of the widths that include/tfs.h gives them.
pub record IsInode (inode : Inode) : Type 0 where
  pub mode16 : inode.i_mode < 2 ^ 16
  pub size32 : inode.i_size < 2 ^ 32
  pub atime32 : inode.i_atime < 2 ^ 32
  pub mtime32 : inode.i_mtime < 2 ^ 32
  pub ctime32 : inode.i_ctime < 2 ^ 32
  pub dtime32 : inode.i_dtime < 2 ^ 32
  pub flags32 : inode.i_flags < 2 ^ 32
  pub data32 : (i : ℕ) → inode.i_data i < 2 ^ 32

-- The two inodes agree in all that the disk keeps of them.
pub record SameInode (a b : Inode) : Type 0 where
  pub mode : a.i_mode ≡ b.i_mode
  pub size : a.i_size ≡ b.i_size
  pub atime : a.i_atime ≡ b.i_atime
  pub mtime : a.i_mtime ≡ b.i_mtime
  pub ctime : a.i_ctime ≡ b.i_ctime
  pub dtime : a.i_dtime ≡ b.i_dtime
  pub flags : a.i_flags ≡ b.i_flags
  pub blocks : (i : ℕ) → tfs_bmap a i ≡ tfs_bmap b i

inode_words-Fits : (inode : Inode) → IsInode inode → Fits (inode_words inode)
unfolding Fits
inode_words-Fits inode h = ground (
  arith,
  h.data32 0,
  h.data32 1,
  h.data32 2,
  h.data32 3,
  h.data32 4,
  h.data32 5,
  h.data32 6,
  h.data32 7,
)

lookup-data :
    (inode : Inode) (i old : ℕ) → i < 8 → lookup (inode_words inode) (6 + i) old ≡ inode.i_data i
unfolding lookup
lookup-data inode i old h = ground arith

load16-tfs_write_inode :
    (m : Memory) (t : ℕ) (inode : Inode)
    → IsInode inode
    → load16 (tfs_write_inode m t inode) t ≡ inode.i_mode
unfolding tfs_write_inode load16
load16-tfs_write_inode m t inode h = ground (
  arith,
  h.mode16,
  load16-store16 m t (inode.i_mode % 2 ^ 16),
  store_words_ne (inode_words inode) (store16 m t (inode.i_mode % 2 ^ 16)) t t
      (inode_words-Fits inode h),
  store_words_ne (inode_words inode) (store16 m t (inode.i_mode % 2 ^ 16)) t (t + 1)
      (inode_words-Fits inode h),
)

word-tfs_write_inode :
    (m : Memory) (t : ℕ) (inode : Inode) (i : ℕ)
    → IsInode inode
    → load32 (tfs_write_inode m t inode) (t + 4 * i)
      ≡ lookup (inode_words inode) i (load32 (store16 m t (inode.i_mode % 2 ^ 16)) (t + 4 * i))
unfolding tfs_write_inode
word-tfs_write_inode m t inode i h =
    load32-store_words (inode_words inode) (store16 m t (inode.i_mode % 2 ^ 16)) t i
      (inode_words-Fits inode h)

data-tfs_write_inode :
    (m : Memory) (t : ℕ) (inode : Inode) (i : ℕ)
    → IsInode inode
    → i < 8
    → load32 (tfs_write_inode m t inode) (t + 4 * (6 + i)) ≡ inode.i_data i
data-tfs_write_inode m t inode i h lt =
    word-tfs_write_inode m t inode (6 + i) h ∙ lookup-data inode i _ lt

-- `tfs_fill_inode` of what `tfs_write_inode` wrote gives the same inode back.
pub tfs_fill_inode-tfs_write_inode :
    (old inode : Inode) (m : Memory) (t : ℕ)
    → IsInode inode
    → SameInode (tfs_fill_inode old (tfs_write_inode m t inode) t) inode
unfolding tfs_fill_inode lookup tfs_bmap
tfs_fill_inode-tfs_write_inode old inode m t h = record {
  mode = load16-tfs_write_inode m t inode h;
  size = word-tfs_write_inode m t inode 1 h;
  atime = word-tfs_write_inode m t inode 2 h;
  mtime = word-tfs_write_inode m t inode 4 h;
  ctime = word-tfs_write_inode m t inode 3 h;
  dtime = word-tfs_write_inode m t inode 5 h;
  flags = word-tfs_write_inode m t inode 14 h;
  blocks = λ i. ground (arith, data-tfs_write_inode m t inode i h);
}

-- For an inode whose fields have their widths, `tfs_write_inode` changes no byte outside the 64 bytes of the inode, and not its `i_uid`.
pub tfs_write_inode_ne :
    (m : Memory) (t x : ℕ) (inode : Inode)
    → IsInode inode
    → (x < t) ⊎ (((t + 2 ≤ x) × (x < t + 4)) ⊎ (t + tfs_inode_size ≤ x))
    → tfs_write_inode m t inode x ≡ m x
unfolding tfs_write_inode
tfs_write_inode_ne m t x inode h out =
    store_words_ne (inode_words inode) (store16 m t (inode.i_mode % 2 ^ 16)) t x
      (inode_words-Fits inode h) (omega (arith, out))
    ∙ store16_ne m t (inode.i_mode % 2 ^ 16) x (omega (arith, out))

module _ (sbi : SbInfo) where
  -- For a positive `int`, `tfs_read_inode` divides as `tfs_iwrite` does.
  pub read_block_lem :
      (inode_nr : ℕ)
      → 0 < inode_nr
      → inode_nr < 2 ^ 31
      → read_block sbi inode_nr ≡ inode_block sbi inode_nr
  unfolding read_block
  read_block_lem inode_nr some_nr int31 =
      rw (positive, less)
        (ap (λ i. u32 (sbi.s_inode_table + i / sbi.s_inodes_per_block)) (sym same))
    where
      less : pred32 inode_nr ≡ inode_nr - 1
      less = omega (arith, some_nr, int31)

      same : sub32 inode_nr 1 ≡ inode_nr - 1
      same = omega (arith, some_nr, int31)

      positive : leb (2 ^ 31) (pred32 inode_nr) ≡ false
      positive = ground (arith, less, int31)

  pub read_offset_lem :
      (inode_nr : ℕ)
      → 0 < inode_nr
      → inode_nr < 2 ^ 31
      → 0 < sbi.s_inodes_per_block
      → sbi.s_inodes_per_block * tfs_inode_size < 2 ^ 32
      → read_offset sbi inode_nr ≡ inode_offset sbi inode_nr
  unfolding read_offset
  read_offset_lem inode_nr some_nr int31 some_inodes room =
      rw (positive, less)
        (small ((inode_nr - 1) % sbi.s_inodes_per_block * tfs_inode_size) inside
          ∙ ap (λ i. i % sbi.s_inodes_per_block * tfs_inode_size) (sym same))
    where
      less : pred32 inode_nr ≡ inode_nr - 1
      less = omega (arith, some_nr, int31)

      same : sub32 inode_nr 1 ≡ inode_nr - 1
      same = omega (arith, some_nr, int31)

      positive : leb (2 ^ 31) (pred32 inode_nr) ≡ false
      positive = ground (arith, less, int31)

      small : (n : ℕ) → n < 2 ^ 32 → u32 n ≡ n
      small n low = omega (arith, low)

      inside : (inode_nr - 1) % sbi.s_inodes_per_block * tfs_inode_size < 2 ^ 32
      inside = omega (arith, room, mod-lt (inode_nr - 1) some_inodes)
