-- ===== src/Tfs/Dirs/Add.antt =====
-- fs/tfs/dir.c, `tfs_add_entry`: a free entry looked for, in a new block if there is none, and filled.
use mathlib.Core.Option
use thunix.Base.{
  ℕ, zero, suc, ◌+◌, ◌-◌, ◌^◌, Bool, true, false, Option, none, some, ltb, ◌==◌, if◌then◌else◌,
  Memory, load32, store32, u32,
}
use thunix.Base.Int.{pos, negsuc, ℤ}
use thunix.Strings.{strlen, memset}
use thunix.Cache.{Ptr}
use thunix.Tfs.{Block, Floppy, SbInfo, State, get_block, is_zero}
use thunix.Tfs.Alloc.{eio, put, write_back, tfs_alloc_block}
use thunix.Tfs.Inodes.{Inode, tfs_n_blocks}
use thunix.Tfs.Files.{efbig, save_bytes}
use thunix.Tfs.Dirs.{dir_entry_size, d_name, tfs_name_len}

-- `-ENAMETOOLONG`
abbrev pub enametoolong : ℤ
enametoolong = negsuc 35

-- What the loop comes to: a failed read, a free entry (the block, its cache entry and the offset), or
-- no further block, with `index` as it is then.
pub data Slot : Type 0 where
  unread : Slot
  free : ℕ → Ptr → ℕ → Slot
  no_block : ℕ → Slot

-- an `int` stored in a `uint32_t`
abbrev pub as_u32 : ℤ → ℕ
as_u32 (pos n) = u32 n
as_u32 (negsuc n) = 2 ^ 32 - 1 - n

-- `dir->i_data[index] = block`
abbrev pub set_data : Inode → ℕ → ℕ → Inode
set_data dir index block = record dir { i_data = λ i. if i == index then block else dir.i_data i }

module _ (dev : Floppy) (sbi : SbInfo) where
  -- where the loop stands: at an entry to test (the block, `index`, and the entry), or at its end
  pub data Scan : Type 0 where
    stopped : Slot → State dev → Scan
    looking : State dev → ℕ → ℕ → Ptr → ℕ → Scan

  unfoldable pub scan_block : ℕ → ℕ → Option Ptr × State dev → Scan
  scan_block block index (none, s) = stopped unread s
  scan_block block index (some p, s) = looking s block index p 0

  -- the test at the head of the loop
  unfoldable pub scan_next : Inode → State dev → ℕ → ℕ → Ptr → ℕ → Scan
  unfolding scan_block
  scan_next dir s block index p de =
      let next = dir.i_data index in
      if ltb de sbi.s_block_size
      then looking s block index p de
      else if next == 0
      then stopped (no_block (index + 1)) s
      else scan_block next (index + 1) (get_block dev sbi s next)

  unfoldable pub scan_from : ℕ → Inode → Scan → Option (Slot × State dev)
  unfolding scan_next
  scan_from zero dir scan = none
  scan_from (suc fuel) dir (stopped slot s) = some (slot, s)
  scan_from (suc fuel) dir (looking s block index p de) =
      let rest = scan_from fuel dir (scan_next dir s block index p (de + dir_entry_size)) in
      if load32 (s.cache.buffer p) de == 0 then some (free block p de, s) else rest

-- the entry at `de` cleared and filled with the inode's number and the `len` bytes of the name
unfoldable pub fill_entry : Memory → ℕ → Block → ℕ → ℕ → ℕ → Block
fill_entry m name buffer de inode_nr len =
    save_bytes (store32 (memset buffer de 0 dir_entry_size) de inode_nr) (de + d_name) m name len

module _ (dev : Floppy) (stray sbi : SbInfo) (m : Memory) (name : ℕ) where
  -- from `dir->i_size += sizeof(struct tfs_dir_entry)` on: the result, `*dirty`, and the directory
  unfoldable pub add_at : State dev → Inode → ℕ → Ptr → ℕ → ℕ → ℕ → ℤ × Bool × Inode × State dev
  unfolding fill_entry
  add_at s dir block p de inode_nr len =
      let grown = record dir { i_size = u32 (dir.i_size + dir_entry_size) } in
      let filled = put dev stray sbi s p (fill_entry m name (s.cache.buffer p) de inode_nr len) in
      let (res, written) = write_back dev stray sbi filled block p in
      (if is_zero res then pos 0 else eio, true, grown, written)

  -- the new block, once it is in the cache
  unfoldable pub add_to_new :
      Inode → ℕ → ℕ → ℕ → Bool → Option Ptr × State dev → ℤ × Bool × Inode × State dev
  unfolding add_at
  add_to_new dir block inode_nr len dirty (none, s) = (eio, dirty, dir, s)
  add_to_new dir block inode_nr len dirty (some p, s) =
      let cleared = put dev stray sbi s p (memset (s.cache.buffer p) 0 0 sbi.s_block_size) in
      add_at cleared dir block p 0 inode_nr len

  -- `alloc_new_block`. `block` is unsigned, so `block < 0` never holds.
  unfoldable pub add_block : State dev → Inode → ℕ → ℕ → ℕ → Bool → ℤ × Bool × Inode × State dev
  unfolding add_to_new
  add_block s dir index inode_nr len dirty =
      let (res, s1) = tfs_alloc_block dev stray sbi s sbi.s_data_area in
      let block = as_u32 res in
      let dir1 = set_data dir (index - 1) block in
      if ltb tfs_n_blocks index
      then (efbig, dirty, dir, s1)
      else add_to_new dir1 block inode_nr len dirty (get_block dev sbi s1 block)

  -- The loop sets `*dirty` to 0 where it ends.
  unfoldable pub add_in : Inode → ℕ → ℕ → Bool → Slot × State dev → ℤ × Bool × Inode × State dev
  unfolding add_at add_block
  add_in dir inode_nr len dirty (unread, s) = (eio, dirty, dir, s)
  add_in dir inode_nr len dirty (free block p de, s) = add_at s dir block p de inode_nr len
  add_in dir inode_nr len dirty (no_block index, s) = add_block s dir index inode_nr len false

  -- `tfs_add_entry`, with `chars` rounds for the name and `fuel` for the loop; the result, `*dirty`
  -- (which was `dirty`), and the directory
  unfoldable pub tfs_add_entry :
      ℕ → ℕ → State dev → Inode → ℕ → Bool → Option (ℤ × Bool × Inode × State dev)
  unfolding add_in add_block
  tfs_add_entry chars fuel s dir inode_nr dirty = elim (strlen chars m name) [
    | none ↦ none
    | some len ↦
        let block = dir.i_data 0 in
        let scanned =
          scan_from dev sbi fuel dir (scan_block dev sbi block 1 (get_block dev sbi s block)) in
        if ltb tfs_name_len len
        then some (enametoolong, dirty, dir, s)
        else if block == 0
        then some (add_block s dir 1 inode_nr len dirty)
        else Option.map (add_in dir inode_nr len dirty) scanned
  ]
