-- ===== src/Descriptors/Io/Write.antt =====
-- fs/file.c: what `sys_write` makes of the file's size and of the place in it.
use thunix.Base.{
  ℕ, zero, suc, ◌+◌, ◌-◌, ◌*◌, ◌%◌, ◌^◌, ◌<◌, ◌≡◌, false, some, arith, ltb, ◌==◌, Memory, u32,
}
use thunix.Base.Int.{pos, negsuc, ℤ}
use native.Mathlib.Nat.{suc-mul, le-div_iff_mul-le}
use thunix.Descriptors.Io.Places.{power_pos}
use thunix.Tfs.{Floppy, SbInfo, State}
use thunix.Tfs.Inodes.{Inode}
use thunix.Tfs.Files.{File, tfs_write}
use thunix.Tfs.Files.Write.{Wrote, tfs_write_lem}
use thunix.Descriptors.{Table, max_fd, fget, put}
use thunix.Descriptors.Io.{min, blocks_of, written, write_file, sys_write}

total_pos : (blocks size offset : ℕ) → 0 < blocks → 0 < size → 0 < blocks * size - offset % size
total_pos zero size offset some_blocks some_size = absurd (omega (arith, some_blocks))
total_pos (suc blocks) size offset some_blocks some_size =
    omega (arith, suc-mul blocks size, some_size)

module _ (dev : Floppy) (stray sbi : SbInfo) where
  -- `total` is the number of bytes written, of which `size` were asked for; the descriptor's file then
  -- ends behind all of them, and its place is behind those asked for.
  pub data Stored (t : Table) (fd size total : ℕ) (file : File)
      : ℤ × Table × State dev → Type 0 where
    error : (k : ℕ) (t' : Table) (s : State dev) → Stored t fd size total file (negsuc k, t', s)
    stored :
        (inode : Inode) (s : State dev)
        → inode.i_size ≡ u32 (file.offset + total)
        → Stored t fd size total file (
          pos (min size total),
          record t {
            files =
                put t.files fd
                  (some (record { inode = inode; offset = u32 (file.offset + min size total) }));
          },
          s,
        )

  Wrote-Stored :
      (t : Table) (fd size total : ℕ) (file : File) (out : ℤ × Inode × State dev)
      → 0 < size
      → 0 < total
      → Wrote dev stray sbi file.offset total out
      → Stored t fd size total file (written dev t fd file size out)
  unfolding written
  Wrote-Stored t fd size total file _ some_bytes some_total (Wrote.error k inode s) = error k _ s
  Wrote-Stored t fd size total file _ some_bytes some_total (Wrote.complete inode s e) =
      rw some_least (stored inode s e)
    where
      some_least : (min size total == 0) ≡ false
      some_least = ground (arith, some_bytes, some_total)

  tfs_write-Wrote :
      (s : State dev) (file : File) (m : Memory) (buf blocks : ℕ)
      → 0 < blocks
      → 0 < sbi.s_block_size
      → file.inode.i_size < 2 ^ 32
      → Wrote dev stray sbi file.offset
          (blocks * sbi.s_block_size - file.offset % sbi.s_block_size)
          (tfs_write dev stray sbi s file m buf blocks)
  tfs_write-Wrote s file m buf zero some_blocks some_size word = absurd (omega (arith, some_blocks))
  tfs_write-Wrote s file m buf (suc blocks) some_blocks some_size word =
      rw whole (tfs_write_lem dev stray sbi s file m buf blocks word)
    where
      whole :
          suc blocks * sbi.s_block_size - file.offset % sbi.s_block_size
          ≡ sbi.s_block_size - file.offset % sbi.s_block_size + blocks * sbi.s_block_size
      whole = omega (arith, suc-mul blocks sbi.s_block_size, some_size)

  -- `sys_write` of at least one byte to an open file, whose `i_blksize` is the block size of the file
  -- system and whose size fits 32 bits, either reports an error, or writes whole blocks from the place
  -- in the file on, as many as the bytes alone fill: the file then ends where the last of them does,
  -- whatever its size was, and its place moves by the size asked for, or to that end if it is less.
  pub sys_write_lem :
      (s : State dev) (t : Table) (fd : ℕ) (m : Memory) (buf size : ℕ) (file : File)
      → fd < max_fd
      → t.files fd ≡ some file
      → sbi.s_block_size ≡ 2 ^ sbi.s_block_shift
      → file.inode.i_blksize ≡ sbi.s_block_size
      → file.inode.i_size < 2 ^ 32
      → 0 < size
      → Stored t fd size
          (blocks_of sbi file.inode size * sbi.s_block_size - file.offset % sbi.s_block_size)
          file
          (sys_write dev stray sbi s t (pos fd) m buf size)
  unfolding sys_write write_file fget
  sys_write_lem s t fd m buf size file below present shift same word some_bytes =
      rw (in_table, present)
        (Wrote-Stored t fd size _ file _ some_bytes some_total
          (tfs_write-Wrote s file m buf (blocks_of sbi file.inode size) some_blocks some_size word))
    where
      in_table : ltb max_fd fd ≡ false
      in_table = ground (arith, below)

      some_size : 0 < sbi.s_block_size
      some_size = rw shift (power_pos sbi.s_block_shift)

      some_blocks : 0 < blocks_of sbi file.inode size
      some_blocks =
          (le-div_iff_mul-le (power_pos sbi.s_block_shift)).1
            (omega (arith, shift, same, some_bytes, some_size))

      some_total :
          0 < blocks_of sbi file.inode size * sbi.s_block_size - file.offset % sbi.s_block_size
      some_total =
          total_pos (blocks_of sbi file.inode size) sbi.s_block_size file.offset some_blocks
            some_size
