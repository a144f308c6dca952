-- ===== src/Tfs/Dirs/Make.antt =====
-- fs/tfs/inode.c, `tfs_new_inode` and `tfs_mknod`, and fs/tfs/dir.c, `tfs_mkdir`. Freeing memory is
-- left out.
use mathlib.Core.Option
use thunix.Base.{ℕ, Bool, false, not, Option, none, some, if◌then◌else◌, Memory}
use thunix.Base.Int.{pos, negsuc, ℤ}
use thunix.Tfs.{Floppy, SbInfo, State, is_zero}
use thunix.Tfs.Alloc.{eio, is_negative, tfs_alloc_inode}
use thunix.Tfs.Inodes.{Inode, Result, err_ptr, ok, new_inode, tfs_iwrite, enomem}
use thunix.Tfs.Dirs.{Lookup, tfs_find_entry}
use thunix.Tfs.Dirs.Add.{tfs_add_entry}
use thunix.Tfs.Dirs.Remove.{tfs_dir}

-- `-EEXIST`
abbrev pub eexist : ℤ
eexist = negsuc 16

abbrev pub tfs_root_inode : ℕ
tfs_root_inode = 1

module _ (dev : Floppy) (stray sbi : SbInfo) (allocated : Bool) where
  new_numbered : Inode → ℕ → ℤ × State dev → Result Inode × State dev
  new_numbered dir mode (negsuc n, s) = (err_ptr (negsuc n), s)
  new_numbered dir mode (pos inode_nr, s) =
      (ok (record (new_inode mode) { i_ino = inode_nr; i_blksize = dir.i_blksize }), s)

  -- `tfs_new_inode`; `allocated` is whether `new_inode` gets its memory.
  unfoldable pub tfs_new_inode : State dev → Inode → ℕ → Result Inode × State dev
  unfolding new_numbered
  tfs_new_inode s dir mode =
      let made = new_numbered dir mode (tfs_alloc_inode dev stray sbi s tfs_root_inode) in
      if allocated then made else (err_ptr enomem, s)

module _ (dev : Floppy) (stray sbi : SbInfo) (allocated : Bool) (chars fuel : ℕ) (m : Memory) where
  -- `tfs_mknod` behind `tfs_add_entry`
  unfoldable pub entered : Inode → ℤ × Bool × Inode × State dev → Result Inode × Inode × State dev
  entered inode (err, dirty, dir, s) =
      let (res, s1) = tfs_iwrite dev sbi s dir in
      if not (is_zero err)
      then (err_ptr err, dir, s)
      else if not dirty
      then (ok inode, dir, s)
      else (if is_zero res then ok inode else err_ptr eio, dir, s1)

  -- `tfs_mknod` behind `tfs_new_inode`
  unfoldable pub enter_inode :
      ℕ → Inode → Result Inode × State dev → Option (Result Inode × Inode × State dev)
  unfolding entered
  enter_inode name dir (err_ptr e, s) = some (err_ptr e, dir, s)
  enter_inode name dir (ok inode, s) =
      let (res, s1) = tfs_iwrite dev sbi s inode in
      let added = tfs_add_entry dev stray sbi m name chars fuel s1 dir inode.i_ino false in
      if is_zero res then Option.map (entered inode) added else some (err_ptr eio, dir, s1)

  -- `tfs_mknod` behind `tfs_find_entry`, any error of which counts as an entry not found
  unfoldable pub mknod_at :
      ℕ → Inode → ℕ → Lookup × State dev → Option (Result Inode × Inode × State dev)
  unfolding enter_inode
  mknod_at name dir mode (Lookup.found p de, s) = some (err_ptr eexist, dir, s)
  mknod_at name dir mode (Lookup.missing, s) =
      enter_inode name dir (tfs_new_inode dev stray sbi allocated s dir mode)
  mknod_at name dir mode (Lookup.failed e, s) =
      enter_inode name dir (tfs_new_inode dev stray sbi allocated s dir mode)

  -- `tfs_mknod`: the inode or an error, and the directory
  unfoldable pub tfs_mknod :
      ℕ → ℕ → State dev → Inode → ℕ → Option (Result Inode × Inode × State dev)
  unfolding mknod_at
  tfs_mknod name base s dir mode = elim (tfs_find_entry dev sbi chars m name base fuel s dir) [
    | none ↦ none
    | some got ↦ mknod_at name dir mode got
  ]

  -- `tfs_mkdir` behind the two entries; `err < 0` is tested after the second.
  unfoldable pub finish_dir : ℤ × Bool × Inode × State dev → ℤ × State dev
  finish_dir (err, dirty, dir, s) =
      let written = tfs_iwrite dev sbi s dir in
      if is_negative err then (err, s) else if dirty then written else (err, s)

  -- the entry `..`, behind the entry `.`
  unfoldable pub enter_parent : ℕ → ℕ → ℤ × Bool × Inode × State dev → Option (ℤ × State dev)
  unfolding finish_dir
  enter_parent dot_dot parent (err, dirty, dir, s) =
      let added = tfs_add_entry dev stray sbi m dot_dot chars fuel s dir parent dirty in
      if is_zero err then Option.map finish_dir added else some (err, s)

  -- `dirty` is not set before the first call: it is `unset`. The strings "." and ".." are at `dot`
  -- and `dot_dot`.
  unfoldable pub mkdir_made :
      ℕ → ℕ → Bool → Result Inode × Inode × State dev → Option (ℤ × Inode × State dev)
  unfolding enter_parent
  mkdir_made dot dot_dot unset (err_ptr e, parent, s) = some (e, parent, s)
  mkdir_made dot dot_dot unset (ok dir, parent, s) =
      elim (tfs_add_entry dev stray sbi m dot chars fuel s dir dir.i_ino unset) [
        | none ↦ none
        | some added ↦
            Option.map (λ (out : ℤ × State dev). (out.0, parent, out.1))
              (enter_parent dot_dot parent.i_ino added)
      ]

  -- `tfs_mkdir`: the result, and the parent directory
  unfoldable pub tfs_mkdir :
      ℕ → ℕ → ℕ → ℕ → State dev → Inode → Bool → Option (ℤ × Inode × State dev)
  unfolding mkdir_made
  tfs_mkdir name base dot dot_dot s parent unset = elim (tfs_mknod name base s parent tfs_dir) [
    | none ↦ none
    | some made ↦ mkdir_made dot dot_dot unset made
  ]
