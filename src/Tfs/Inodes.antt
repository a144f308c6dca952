-- ===== src/Tfs/Inodes.antt =====
-- fs/tfs/inode.c, fs/inode.c (`new_inode`) and the inodes of include/fs.h and include/tfs.h: the
-- table of inodes on the disk, and inodes in memory. An inode in memory is a value, its `i_data` a
-- function from the index; the pointers to its file system and operations, always the same, are
-- left out. `current_time` is 0.
pub mod Laws
pub mod Reads
pub mod Table
mod Examples
use thunix.Base.{
  ℕ, ◌+◌, ◌*◌, ◌/◌, ◌%◌, ◌^◌, Bool, Option, none, some, List, [], ◌∷◌, pred32, quotient32,
  remainder32, ltb, leb, if◌then◌else◌, Memory, load32, load16, store16, store32, u32,
}
use thunix.Base.Int.{negsuc, ℤ}
use thunix.Cache.{Ptr}
use thunix.Tfs.{Block, Floppy, SbInfo, State, tfs_inode_size, sub32, get_block, is_zero}
use thunix.Tfs.Alloc.{eio, put, write_back}

abbrev pub tfs_n_blocks : ℕ
tfs_n_blocks = 8

-- `-ENOMEM`
abbrev pub enomem : ℤ
enomem = negsuc 11

-- a pointer that may be `ERR_PTR(e)`
pub data Result {ℓ} (A : Type ℓ) : Type ℓ where
  err_ptr : ℤ → Result A
  ok : A → Result A

-- `struct inode`
pub record Inode : Type 0 where
  pub i_mode : ℕ
  pub i_size : ℕ
  pub i_ino : ℕ
  pub i_atime : ℕ
  pub i_mtime : ℕ
  pub i_ctime : ℕ
  pub i_dtime : ℕ
  pub i_data : ℕ → ℕ
  pub i_flags : ℕ
  pub i_blksize : ℕ

-- `new_inode`, where both calls of `malloc` succeed
pub new_inode : ℕ → Inode
new_inode mode = record {
  i_mode = mode;
  i_size = 0;
  i_ino = 0;
  i_atime = 0;
  i_mtime = 0;
  i_ctime = 0;
  i_dtime = 0;
  i_data = λ index. 0;
  i_flags = 0;
  i_blksize = 0;
}

-- `tfs_fill_inode`, from the `struct tfs_inode` at address `t`
pub tfs_fill_inode : Inode → Memory → ℕ → Inode
tfs_fill_inode inode m t = record inode {
  i_mode = load16 m t;
  i_size = load32 m (t + 4 * 1);
  i_atime = load32 m (t + 4 * 2);
  i_ctime = load32 m (t + 4 * 3);
  i_mtime = load32 m (t + 4 * 4);
  i_dtime = load32 m (t + 4 * 5);
  i_flags = load32 m (t + 4 * 14);
  i_data = λ index.
      if ltb index tfs_n_blocks then load32 m (t + 4 * (6 + index)) else inode.i_data index;
}

-- 32-bit words stored one after the other, each at its number from address `t`
pub store_words : Memory → ℕ → List (ℕ × ℕ) → Memory
store_words m t [] = m
store_words m t ((index, word) ∷ words) = store_words (store32 m (t + 4 * index) word) t words

-- the words that `tfs_write_inode` stores behind `i_mode`, in its order; `i_uid` stays
abbrev pub inode_words : Inode → List (ℕ × ℕ)
inode_words inode =
    (1, inode.i_size)
    ∷ (2, inode.i_atime)
    ∷ (3, inode.i_ctime)
    ∷ (4, inode.i_mtime)
    ∷ (5, inode.i_dtime)
    ∷ (14, inode.i_flags)
    ∷ (6, inode.i_data 0)
    ∷ (7, inode.i_data 1)
    ∷ (8, inode.i_data 2)
    ∷ (9, inode.i_data 3)
    ∷ (10, inode.i_data 4)
    ∷ (11, inode.i_data 5)
    ∷ (12, inode.i_data 6)
    ∷ (13, inode.i_data 7)
    ∷ (15, 0)
    ∷ []

-- `tfs_write_inode` to the `struct tfs_inode` at address `t`
pub tfs_write_inode : Memory → ℕ → Inode → Memory
unfolding store_words
tfs_write_inode m t inode = store_words (store16 m t (inode.i_mode % 2 ^ 16)) t (inode_words inode)

unfoldable pub tfs_bmap : Inode → ℕ → ℕ
tfs_bmap inode index = if leb tfs_n_blocks index then 0 else inode.i_data index

module _ (sbi : SbInfo) where
  -- the block of the inode table that holds an inode, and its place in there
  abbrev pub inode_block : ℕ → ℕ
  inode_block inode_nr = u32 (sbi.s_inode_table + sub32 inode_nr 1 / sbi.s_inodes_per_block)

  abbrev pub inode_offset : ℕ → ℕ
  inode_offset inode_nr = sub32 inode_nr 1 % sbi.s_inodes_per_block * tfs_inode_size

  -- the two as `tfs_read_inode` computes them: its `inr` is an `int`, and so is
  -- `s_inodes_per_block`, which is positive
  unfoldable pub read_block : ℕ → ℕ
  read_block inode_nr =
      u32 (sbi.s_inode_table + quotient32 (pred32 inode_nr) sbi.s_inodes_per_block)

  unfoldable pub read_offset : ℕ → ℕ
  read_offset inode_nr = u32 (remainder32 (pred32 inode_nr) sbi.s_inodes_per_block * tfs_inode_size)

module _ (dev : Floppy) (sbi : SbInfo) where
  -- `tfs_write_inode` into the cached block, and `tfs_bwrite`
  write_inode : Inode → Option Ptr × State dev → ℤ × State dev
  unfolding tfs_write_inode
  write_inode inode (none, s) = (eio, s)
  write_inode inode (some p, s) =
      write_back dev sbi sbi
        (put dev sbi sbi s p
          (tfs_write_inode (s.cache.buffer p) (inode_offset sbi inode.i_ino) inode))
        (inode_block sbi inode.i_ino) p

  pub tfs_iwrite : State dev → Inode → ℤ × State dev
  unfolding write_inode
  tfs_iwrite s inode = write_inode inode (get_block dev sbi s (inode_block sbi inode.i_ino))

-- `null_data` is what the bytes at `cs->data` are when `cs` is NULL: `tfs_read_inode` tests the
-- result of `get_cache_block` by `IS_ERR`, which NULL is not.
module _ (dev : Floppy) (sbi : SbInfo) (null_data : Block) where
  -- `cs->data`
  unfoldable pub data_of : Option Ptr × State dev → Block
  data_of (none, s) = null_data
  data_of (some p, s) = s.cache.buffer p

  -- `tfs_read_inode`: the `struct tfs_inode` that it fills stands at address 0. `inode_nr` is the word
  -- of an `int`; behind the block, a buffer's bytes are what lies in the memory there.
  pub tfs_read_inode : State dev → ℕ → Memory × State dev
  unfolding data_of read_block read_offset
  tfs_read_inode s inode_nr =
      let got = get_block dev sbi s (read_block sbi inode_nr) in
      (λ x. data_of got (read_offset sbi inode_nr + x), got.1)

  -- `allocated` is whether `new_inode` gets its memory.
  pub tfs_iget_by_inr : Bool → State dev → ℕ → Result Inode × State dev
  unfolding tfs_read_inode tfs_fill_inode new_inode
  tfs_iget_by_inr allocated s inode_nr =
      let (tinode, s1) = tfs_read_inode s inode_nr in
      if allocated
      then (
        ok (record (tfs_fill_inode (new_inode 0) tinode 0) {
          i_blksize = 2 ^ sbi.s_block_shift;
          i_ino = inode_nr;
        }),
        s1,
      )
      else (err_ptr enomem, s1)
