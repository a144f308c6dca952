-- ===== src/Tfs/Files.antt =====
-- fs/tfs/file.c: reading and writing the blocks of a file. The user's buffer lies in a memory of its
-- own, apart from the buffers of the cache.
pub mod Backed
pub mod Read
pub mod Write
pub mod Examples
use thunix.Base.{
  ℕ, zero, suc, ◌+◌, ◌-◌, ◌/◌, ◌%◌, ◌^◌, ◌&&◌, not, Option, none, some, ltb, leb, ◌==◌,
  if◌then◌else◌, Memory, u32,
}
use thunix.Base.Int.{pos, negsuc, ℤ}
use thunix.Cache.{Ptr}
use thunix.Tfs.{Block, Floppy, SbInfo, State, sub32, get_block, is_zero, tfs_bwrite}
use thunix.Tfs.Alloc.{eio, enospc, put, write_back, is_negative, tfs_alloc_block}
use thunix.Tfs.Inodes.{Inode, Result, err_ptr, ok, tfs_n_blocks, tfs_bmap, tfs_iwrite}

-- `-EFBIG`
abbrev pub efbig : ℤ
efbig = negsuc 26

-- `struct file`: an inode and the place in it
pub record File : Type 0 where
  pub inode : Inode
  pub offset : ℕ

-- `memcpy` of `n` bytes of a cached block to the user's buffer at `buf`
unfoldable pub load_bytes : Memory → ℕ → Block → ℕ → Memory
load_bytes m buf block n x = if leb buf x && ltb x (buf + n) then block (x - buf) else m x

-- `memcpy` and `memmove` of `n` bytes from the user's buffer to `cs->data + at`
unfoldable pub save_bytes : Block → ℕ → Memory → ℕ → ℕ → Block
save_bytes block start m buf n x =
    if leb start x && ltb x (start + n) then m (buf + (x - start)) else block x

module _ (dev : Floppy) (sbi : SbInfo) where
  -- `if (!cs) return -EIO;` and what follows
  with_cached :
      Option Ptr × State dev
      → Memory
      → (State dev → Ptr → ℤ × Memory × State dev)
      → ℤ × Memory × State dev
  with_cached (none, s) m rest = (eio, m, s)
  with_cached (some p, s) m rest = rest s p

  -- the loop of `tfs_read` with `blocks` rounds left
  pub read_blocks : ℕ → State dev → Inode → ℕ → Memory → ℕ → ℕ → ℤ × Memory × State dev
  unfolding with_cached
  read_blocks zero s inode index m buf bytes_read = (pos bytes_read, m, s)
  read_blocks (suc blocks) s inode index m buf bytes_read =
      let rest = with_cached (get_block dev sbi s (tfs_bmap inode index)) m (λ s1 p.
        read_blocks blocks s1 inode (index + 1)
          (load_bytes m buf (s1.cache.buffer p) sbi.s_block_size) (buf + sbi.s_block_size)
          (bytes_read + sbi.s_block_size)) in
      if tfs_bmap inode index == 0 then (pos bytes_read, m, s) else rest

  -- `tfs_read`; `blocks` is not negative.
  pub tfs_read : State dev → File → Memory → ℕ → ℕ → ℤ × Memory × State dev
  unfolding read_blocks
  tfs_read s file m buf blocks =
      if blocks == 0
      then (pos 0, m, s)
      else if leb file.inode.i_size file.offset
      then (negsuc 0, m, s)
      else read_blocks blocks s file.inode (file.offset / 2 ^ sbi.s_block_shift) m buf 0

module _ (dev : Floppy) (stray sbi : SbInfo) where
  -- `file->inode->i_data[index - 1] = block`, for the block that `tfs_alloc_block` returned
  got_block : Inode → ℕ → ℤ × State dev → Result ℕ × Inode × State dev
  got_block inode index (negsuc n, s) = (err_ptr enospc, inode, s)
  got_block inode index (pos block, s) =
      (ok block, record inode { i_data = λ i. if i == index then block else inode.i_data i }, s)

  -- the block of the file at `index`, allocated if it has none
  block_at : State dev → Inode → ℕ → Result ℕ × Inode × State dev
  unfolding got_block
  block_at s inode index =
      let block = tfs_bmap inode index in
      if not (block == 0)
      then (ok block, inode, s)
      else if ltb index tfs_n_blocks
      then got_block inode index (tfs_alloc_block dev stray sbi s sbi.s_data_area)
      else (err_ptr efbig, inode, s)

  -- `inode->i_size += MAX(0, offset + bytes_written - inode->i_size)`. All is unsigned, so `MAX`
  -- gives its second argument.
  abbrev grow : Inode → ℕ → ℕ → Inode
  grow inode offset bytes_written = record inode {
    i_size = u32 (inode.i_size + sub32 (u32 (offset + bytes_written)) inode.i_size);
  }

  -- What the body of the loop has written, or the error with which `tfs_write` returns.
  put_block :
      Inode → ℕ → ℕ → Memory → ℕ → ℕ → ℕ → Option Ptr × State dev → Result ℕ × Inode × State dev
  unfolding write_back is_zero
  put_block inode offset block m buf bufoff bytes_written (none, s) = (err_ptr eio, inode, s)
  put_block inode offset block m buf bufoff bytes_written (some p, s) =
      let need = sbi.s_block_size - bufoff in
      let (res, s1) =
        write_back dev stray sbi
          (put dev stray sbi s p (save_bytes (s.cache.buffer p) bufoff m buf need)) block p in
      let bytes = bytes_written + need in
      (if is_zero res then ok bytes else err_ptr eio, grow inode offset bytes, s1)

  with_block : ℕ → Memory → ℕ → ℕ → ℕ → Result ℕ × Inode × State dev → Result ℕ × Inode × State dev
  unfolding put_block
  with_block offset m buf bufoff bytes_written (err_ptr e, inode, s) = (err_ptr e, inode, s)
  with_block offset m buf bufoff bytes_written (ok block, inode, s) =
      put_block inode offset block m buf bufoff bytes_written (get_block dev sbi s block)

  -- One block of `tfs_write`, from `bufoff` to its end: the first, and each round of the loop.
  write_block : State dev → Inode → ℕ → ℕ → Memory → ℕ → ℕ → ℕ → Result ℕ × Inode × State dev
  unfolding block_at with_block
  write_block s inode offset index m buf bufoff bytes_written =
      with_block offset m buf bufoff bytes_written (block_at s inode index)

  -- `if (tfs_iwrite(file->inode)) return -EIO; return bytes_written;`
  finish : ℕ → Inode → State dev → ℤ × Inode × State dev
  unfolding is_zero
  finish bytes_written inode s =
      let (err, s1) = tfs_iwrite dev sbi s inode in
      (if is_zero err then pos bytes_written else eio, inode, s1)

  -- the loop, with `blocks` rounds left, after what the block before came to
  write_blocks : ℕ → ℕ → ℕ → Memory → ℕ → ℕ → Result ℕ × Inode × State dev → ℤ × Inode × State dev
  unfolding write_block finish
  write_blocks blocks offset index m buf need (err_ptr e, inode, s) = (e, inode, s)
  write_blocks zero offset index m buf need (ok bytes_written, inode, s) =
      finish bytes_written inode s
  write_blocks (suc blocks) offset index m buf need (ok bytes_written, inode, s) =
      write_blocks blocks offset (index + 1) m (buf + need) sbi.s_block_size
        (write_block s inode offset index m (buf + need) 0 bytes_written)

  -- `tfs_write`; `blocks` is not negative. The inode is returned with what was made of it.
  pub tfs_write : State dev → File → Memory → ℕ → ℕ → ℤ × Inode × State dev
  unfolding write_blocks write_block
  tfs_write s file m buf zero = (pos 0, file.inode, s)
  tfs_write s file m buf (suc blocks) =
      let index = file.offset / 2 ^ sbi.s_block_shift in
      let bufoff = file.offset % sbi.s_block_size in
      write_blocks blocks file.offset (index + 1) m buf (sbi.s_block_size - bufoff)
        (write_block s file.inode file.offset index m buf bufoff 0)
