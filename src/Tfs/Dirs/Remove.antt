-- ===== src/Tfs/Dirs/Remove.antt =====
-- fs/tfs/dir.c, `tfs_rmdir` and `tfs_unlink`, with `tfs_release_inode` and `tfs_iget` of
-- fs/tfs/inode.c. Freeing memory is left out.
use mathlib.Core.Option
use thunix.Base.{
  ℕ, zero, suc, ◌+◌, ◌*◌, Bool, not, Option, ltb, ◌==◌, if◌then◌else◌, Memory, load32, store32,
}
use thunix.Base.Int.{pos, negsuc, ℤ}
use thunix.Cache.{Ptr}
use thunix.Tfs.{Block, Floppy, SbInfo, State, is_zero, sub32}
use thunix.Tfs.Alloc.{einval, put, write_back, is_negative, tfs_free_block, tfs_free_inode}
use thunix.Tfs.Inodes.{
  Inode, Result, err_ptr, ok, tfs_bmap, tfs_iwrite, tfs_iget_by_inr, tfs_n_blocks,
}
use thunix.Tfs.Dirs.{Lookup, dir_entry_size, tfs_find_entry}

-- `-ENOENT`, `-ENOTDIR`, `-ENOTEMPTY`
abbrev pub enoent : ℤ
enoent = negsuc 1

abbrev pub enotdir : ℤ
enotdir = negsuc 19

abbrev pub enotempty : ℤ
enotempty = negsuc 38

-- `TFS_FILE` and `TFS_DIR`
abbrev pub tfs_file : ℕ
tfs_file = 1

abbrev pub tfs_dir : ℕ
tfs_dir = 2

module _ (dev : Floppy) (stray sbi : SbInfo) where
  -- the loop of `tfs_release_inode`, with `left` rounds left; `res` is what the last call returned
  unfoldable pub release_blocks : ℕ → Inode → ℕ → ℤ → State dev → ℤ × State dev
  release_blocks zero inode index res s = (res, s)
  release_blocks (suc left) inode index res s =
      let block = tfs_bmap inode index in
      let (freed, s1) = tfs_free_block dev stray sbi s block in
      let rest = release_blocks left inode (index + 1) freed s1 in
      if block == 0 then (res, s) else if is_negative freed then (freed, s1) else rest

  -- `tfs_release_inode`: `tfs_bmap` gives 0 at the index 8.
  unfoldable pub tfs_release_inode : State dev → Inode → ℤ × State dev
  unfolding release_blocks
  tfs_release_inode s inode =
      let (res, s1) = tfs_free_inode dev stray sbi s inode.i_ino in
      if is_negative res then (res, s1) else release_blocks (tfs_n_blocks + 1) inode 0 res s1

  -- the end of `tfs_rmdir` and `tfs_unlink`, behind the write of the directory's entry
  unfoldable pub released : Inode → Inode → ℤ × State dev → ℤ × Inode × State dev
  unfolding tfs_release_inode
  released dir inode (err, s) =
      let (res, s1) = tfs_release_inode s inode in
      if is_zero err then (res, dir, s1) else (err, dir, s)

  -- from `dir->i_size -= sizeof(struct tfs_dir_entry)` on
  unfoldable pub remove_entry : State dev → Inode → Inode → Ptr → ℕ → ℤ × Inode × State dev
  unfolding released
  remove_entry s dir inode p de =
      let shrunk = record dir { i_size = sub32 dir.i_size dir_entry_size } in
      let (err, s1) = tfs_iwrite dev sbi s shrunk in
      let cleared = put dev stray sbi s1 p (store32 (s1.cache.buffer p) de 0) in
      let done =
        released shrunk inode (write_back dev stray sbi cleared (cleared.cache.block p) p) in
      if is_zero err then done else (err, shrunk, s1)

  -- `is_empty_dir`
  pub is_empty_dir : Inode → ℤ
  is_empty_dir dir =
      if ltb (2 * dir_entry_size) dir.i_size
      then pos 0
      else if ltb dir.i_size (2 * dir_entry_size)
      then negsuc 0
      else pos 1

  -- `tfs_rmdir`, once the entry and its inode have been found
  unfoldable pub rmdir_inode : Inode → Ptr → ℕ → Result Inode × State dev → ℤ × Inode × State dev
  unfolding remove_entry
  rmdir_inode dir p de (err_ptr e, s) = (e, dir, s)
  rmdir_inode dir p de (ok inode, s) =
      let removed = remove_entry s dir inode p de in
      if not (inode.i_mode == tfs_dir) then (enotdir, dir, s) else elim (is_empty_dir inode) [
        | negsuc n ↦ (einval, dir, s)
        | pos n ↦ if n == 0 then (enotempty, dir, s) else removed
      ]

  -- `tfs_unlink`, likewise. For an inode that is no file `err` has never been set: it is `unset`.
  unfoldable pub unlink_inode :
      ℤ → Inode → Ptr → ℕ → Result Inode × State dev → ℤ × Inode × State dev
  unfolding remove_entry
  unlink_inode unset dir p de (err_ptr e, s) = (e, dir, s)
  unlink_inode unset dir p de (ok inode, s) =
      let removed = remove_entry s dir inode p de in
      if not (inode.i_mode == tfs_file) then (unset, dir, s) else removed

module _ (dev : Floppy) (stray sbi : SbInfo) (null_data : Block) (allocated : Bool) (chars : ℕ)
    (m : Memory) (name base : ℕ) where
  -- `tfs_iget_by_inr(dir->i_fs, de->d_inode)`
  unfoldable pub entry_inode : Ptr → ℕ → State dev → Result Inode × State dev
  entry_inode p de s = tfs_iget_by_inr dev sbi null_data allocated s (load32 (s.cache.buffer p) de)

  -- what is done with the entry that `tfs_find_entry` found, or its error
  unfoldable pub with_entry :
      {A : Type 0}
      → (ℤ → State dev → A)
      → (Ptr → ℕ → Result Inode × State dev → A)
      → Lookup × State dev
      → A
  unfolding entry_inode
  with_entry fail use_inode (Lookup.missing, s) = fail enoent s
  with_entry fail use_inode (Lookup.failed e, s) = fail e s
  with_entry fail use_inode (Lookup.found p de, s) = use_inode p de (entry_inode p de s)

  -- `tfs_iget`, with `fuel` rounds for the search
  unfoldable pub tfs_iget : ℕ → State dev → Inode → Option (Result Inode × State dev)
  unfolding with_entry
  tfs_iget fuel s dir =
      Option.map (with_entry (λ e s1. (err_ptr e, s1)) (λ p de got. got))
        (tfs_find_entry dev sbi chars m name base fuel s dir)

  -- the result, and the directory
  unfoldable pub tfs_rmdir : ℕ → State dev → Inode → Option (ℤ × Inode × State dev)
  unfolding with_entry rmdir_inode
  tfs_rmdir fuel s dir =
      Option.map (with_entry (λ e s1. (e, dir, s1)) (rmdir_inode dev stray sbi dir))
        (tfs_find_entry dev sbi chars m name base fuel s dir)

  unfoldable pub tfs_unlink : ℕ → State dev → Inode → ℤ → Option (ℤ × Inode × State dev)
  unfolding with_entry unlink_inode
  tfs_unlink fuel s dir unset =
      Option.map (with_entry (λ e s1. (e, dir, s1)) (unlink_inode dev stray sbi unset dir))
        (tfs_find_entry dev sbi chars m name base fuel s dir)
