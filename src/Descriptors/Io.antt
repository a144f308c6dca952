-- ===== src/Descriptors/Io.antt =====
-- fs/file.c: `sys_read` and `sys_write`, over the operations on files of fs/tfs/file.c. A size is not
-- negative, an inode's `i_blksize` is a power of two, and their sum fits an `int`.
pub mod Places
pub mod Read
pub mod Write
mod Examples
use thunix.Base.{
  ℕ, ◌+◌, ◌-◌, ◌/◌, ◌%◌, ◌^◌, Option, none, some, ltb, ◌==◌, if◌then◌else◌, Memory, u32,
}
use thunix.Base.Int.{pos_part, pos, negsuc, ℤ}
use thunix.Strings.{memmove}
use thunix.Tfs.{Floppy, SbInfo, State, sub32}
use thunix.Tfs.Inodes.{Inode}
use thunix.Tfs.Files.{File, tfs_read, tfs_write}
use thunix.Descriptors.{Table, ebadf, put, fget}

-- `MIN(size, inode->i_size - file->offset)`, a comparison of unsigned numbers
abbrev pub min : ℕ → ℕ → ℕ
min a b = if ltb a b then a else b

-- `(bytes + inode->i_blksize - 1) >> fs->block_shift`
abbrev pub blocks_of : SbInfo → Inode → ℕ → ℕ
blocks_of sbi inode bytes = (bytes + inode.i_blksize - 1) / 2 ^ sbi.s_block_shift

-- `file->offset += bytes`
abbrev pub advance : Table → ℕ → File → ℕ → Table
advance t fd file bytes = record t {
  files = put t.files fd (some (record file { offset = u32 (file.offset + bytes) }));
}

module _ (dev : Floppy) where
  -- `sys_read` behind `file->f_op->read`
  unfoldable pub moved_back :
      Table → ℕ → File → ℕ → ℕ → ℤ × Memory × State dev → ℤ × Memory × Table × State dev
  moved_back t fd file buf need (negsuc n, m, s) = (negsuc n, m, t, s)
  moved_back t fd file buf need (pos n, m, s) =
      let bytes = min need n in
      if bytes == 0 then (pos 0, m, t, s) else (
        pos bytes,
        memmove m buf (buf + file.offset % file.inode.i_blksize) bytes,
        advance t fd file bytes,
        s,
      )

  -- `sys_write` behind `file->f_op->write`, which has changed the inode
  unfoldable pub written : Table → ℕ → File → ℕ → ℤ × Inode × State dev → ℤ × Table × State dev
  written t fd file size (negsuc n, inode, s) =
      (negsuc n, record t { files = put t.files fd (some (record file { inode = inode })) }, s)
  written t fd file size (pos n, inode, s) =
      let bytes = min size n in
      let offset = if bytes == 0 then file.offset else u32 (file.offset + bytes) in
      let file' = record (record file { inode = inode }) { offset = offset } in
      (pos bytes, record t { files = put t.files fd (some file') }, s)

module _ (dev : Floppy) (sbi : SbInfo) where
  unfoldable pub read_file :
      State dev → Table → ℤ → Memory → ℕ → ℕ → Option File → ℤ × Memory × Table × State dev
  unfolding moved_back
  read_file s t fd m buf size none = (ebadf, m, t, s)
  read_file s t fd m buf size (some file) =
      let need = min size (sub32 file.inode.i_size file.offset) in
      moved_back dev t (pos_part fd) file buf need
        (tfs_read dev sbi s file m buf (blocks_of sbi file.inode need))

  unfoldable pub sys_read : State dev → Table → ℤ → Memory → ℕ → ℕ → ℤ × Memory × Table × State dev
  unfolding read_file
  sys_read s t fd m buf size = read_file s t fd m buf size (fget t fd)

module _ (dev : Floppy) (stray sbi : SbInfo) where
  unfoldable pub write_file :
      State dev → Table → ℤ → Memory → ℕ → ℕ → Option File → ℤ × Table × State dev
  unfolding written
  write_file s t fd m buf size none = (ebadf, t, s)
  write_file s t fd m buf size (some file) =
      written dev t (pos_part fd) file size
        (tfs_write dev stray sbi s file m buf (blocks_of sbi file.inode size))

  unfoldable pub sys_write : State dev → Table → ℤ → Memory → ℕ → ℕ → ℤ × Table × State dev
  unfolding write_file
  sys_write s t fd m buf size = write_file s t fd m buf size (fget t fd)
