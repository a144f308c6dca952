-- ===== src/Tfs/Files/Write.antt =====
-- fs/tfs/file.c: how many bytes `tfs_write` writes, and the size that it gives the file.
use thunix.Base.{
  ℕ, zero, suc, ◌+◌, ◌-◌, ◌*◌, ◌/◌, ◌%◌, ◌^◌, ◌<◌, ◌≡◌, refl, inl, inr, Bool, true, false, Option,
  none, some, arith, ltb, ◌==◌, if◌then◌else◌, Bool-cases, Memory, u32,
}
use thunix.Base.Int.{pos, negsuc, ℤ}
use native.Mathlib.Nat.{suc-mul}
use thunix.Cache.{Ptr}
use thunix.Tfs.{Floppy, SbInfo, State, sub32, get_block, is_zero}
use thunix.Tfs.Inodes.{Inode, Result, err_ptr, ok, tfs_bmap, tfs_iwrite}
use thunix.Tfs.Files.{
  File, got_block, block_at, grow, put_block, with_block, write_block, finish, write_blocks,
  tfs_write,
}

grow_lem : (size t : ℕ) → size < 2 ^ 32 → u32 (size + sub32 (u32 t) size) ≡ u32 t
grow_lem size t h = omega arith

module _ (dev : Floppy) (stray sbi : SbInfo) where
  -- A step failed, or it has written up to `bytes` bytes and set the size of the file by them.
  data Step (offset bytes : ℕ) : Result ℕ × Inode × State dev → Type 0 where
    failed :
        (k : ℕ) (inode : Inode) (s : State dev) → Step offset bytes (err_ptr (negsuc k), inode, s)
    wrote :
        (inode : Inode) (s : State dev)
        → inode.i_size ≡ u32 (offset + bytes)
        → Step offset bytes (ok bytes, inode, s)

  -- The block for the step could not be had, or it could, and the size is as it was.
  data Had (size : ℕ) : Result ℕ × Inode × State dev → Type 0 where
    not_had : (k : ℕ) (inode : Inode) (s : State dev) → Had size (err_ptr (negsuc k), inode, s)
    had :
        (block : ℕ) (inode : Inode) (s : State dev)
        → inode.i_size ≡ size
        → Had size (ok block, inode, s)

  got_block-Had :
      (inode : Inode) (index : ℕ) (out : ℤ × State dev)
      → Had inode.i_size (got_block dev stray sbi inode index out)
  unfolding got_block
  got_block-Had inode index (negsuc n, s) = not_had _ inode s
  got_block-Had inode index (pos block, s) = had block _ s refl

  block_at-Had :
      (s : State dev) (inode : Inode) (index : ℕ)
      → Had inode.i_size (block_at dev stray sbi s inode index)
  unfolding block_at
  block_at-Had s inode index = elim (Bool-cases (tfs_bmap inode index == 0)) [
    | inr e ↦ rw e (had _ inode s refl)
    | inl e ↦ rw e (elim (Bool-cases (ltb index 8)) [
      | inl small ↦ rw small (got_block-Had inode index _)
      | inr big ↦ rw big (not_had _ inode s)
    ])
  ]

  written-Step :
      (inode : Inode) (offset bytes : ℕ) (s : State dev) (written : Bool)
      → inode.i_size < 2 ^ 32
      → Step offset bytes (
        if written then ok bytes else err_ptr (negsuc 4),
        grow dev stray sbi inode offset bytes,
        s,
      )
  written-Step inode offset bytes s true h = wrote _ s (grow_lem inode.i_size (offset + bytes) h)
  written-Step inode offset bytes s false h = failed _ _ s

  put_block-Step :
      (inode : Inode) (offset block : ℕ) (m : Memory) (buf bufoff bytes : ℕ)
      (got : Option Ptr × State dev)
      → inode.i_size < 2 ^ 32
      → Step offset
          (bytes + (sbi.s_block_size - bufoff))
          (put_block dev stray sbi inode offset block m buf bufoff bytes got)
  unfolding put_block
  put_block-Step inode offset block m buf bufoff bytes (none, s) h = failed _ inode s
  put_block-Step inode offset block m buf bufoff bytes (some p, s) h =
      written-Step inode offset (bytes + (sbi.s_block_size - bufoff)) _ _ h

  with_block-Step :
      (size offset : ℕ) (m : Memory) (buf bufoff bytes : ℕ) (out : Result ℕ × Inode × State dev)
      → size < 2 ^ 32
      → Had size out
      → Step offset
          (bytes + (sbi.s_block_size - bufoff))
          (with_block dev stray sbi offset m buf bufoff bytes out)
  unfolding with_block
  with_block-Step size offset m buf bufoff bytes _ h (not_had k inode s) = failed k inode s
  with_block-Step size offset m buf bufoff bytes _ h (had block inode s e) =
      put_block-Step inode offset block m buf bufoff bytes (get_block dev sbi s block) (rw e h)

  write_block-Step :
      (s : State dev) (inode : Inode) (offset index : ℕ) (m : Memory) (buf bufoff bytes : ℕ)
      → inode.i_size < 2 ^ 32
      → Step offset
          (bytes + (sbi.s_block_size - bufoff))
          (write_block dev stray sbi s inode offset index m buf bufoff bytes)
  unfolding write_block
  write_block-Step s inode offset index m buf bufoff bytes h =
      with_block-Step inode.i_size offset m buf bufoff bytes (block_at dev stray sbi s inode index)
        h (block_at-Had s inode index)

  -- An error, or `total` bytes and the size of the file set by them.
  pub data Wrote (offset total : ℕ) : ℤ × Inode × State dev → Type 0 where
    error : (k : ℕ) (inode : Inode) (s : State dev) → Wrote offset total (negsuc k, inode, s)
    complete :
        (inode : Inode) (s : State dev)
        → inode.i_size ≡ u32 (offset + total)
        → Wrote offset total (pos total, inode, s)

  finish-Wrote :
      (offset bytes : ℕ) (inode : Inode) (s : State dev)
      → inode.i_size ≡ u32 (offset + bytes)
      → Wrote offset bytes (finish dev stray sbi bytes inode s)
  unfolding finish
  finish-Wrote offset bytes inode s e = elim (Bool-cases (is_zero (tfs_iwrite dev sbi s inode).0)) [
    | inl e0 ↦ rw e0 (complete inode _ e)
    | inr e0 ↦ rw e0 (error _ inode _)
  ]

  write_blocks-Wrote :
      (blocks offset bytes index : ℕ) (m : Memory) (buf need : ℕ)
      (out : Result ℕ × Inode × State dev)
      → Step offset bytes out
      → Wrote offset
          (bytes + blocks * sbi.s_block_size)
          (write_blocks dev stray sbi blocks offset index m buf need out)
  unfolding write_blocks
  write_blocks-Wrote zero offset bytes index m buf need _ (failed k inode s) = error k inode s
  write_blocks-Wrote (suc blocks) offset bytes index m buf need _ (failed k inode s) =
      error k inode s
  write_blocks-Wrote zero offset bytes index m buf need _ (wrote inode s e) =
      rw no_more (finish-Wrote offset bytes inode s e)
    where
      no_more : bytes + 0 * sbi.s_block_size ≡ bytes
      no_more = omega arith
  write_blocks-Wrote (suc blocks) offset bytes index m buf need _ (wrote inode s e) = rw one_more (
      write_blocks-Wrote blocks offset _ (index + 1) m (buf + need) sbi.s_block_size _
        (write_block-Step s inode offset index m (buf + need) 0 bytes (omega (arith, e))))
    where
      one_more :
          bytes + suc blocks * sbi.s_block_size
          ≡ bytes + (sbi.s_block_size - 0) + blocks * sbi.s_block_size
      one_more = omega (arith, suc-mul blocks sbi.s_block_size)

  -- For an inode whose size fits in 32 bits, `tfs_write` of at least one block either reports an error, or returns the bytes from the place in
  -- its block to the end of the last block, and makes the size of the file the place behind them,
  -- however large the file was before.
  pub tfs_write_lem :
      (s : State dev) (file : File) (m : Memory) (buf blocks : ℕ)
      → file.inode.i_size < 2 ^ 32
      → let total = sbi.s_block_size - file.offset % sbi.s_block_size + blocks * sbi.s_block_size in
        Wrote file.offset total (tfs_write dev stray sbi s file m buf (suc blocks))
  unfolding tfs_write
  tfs_write_lem s file m buf blocks h = rw from_zero (
      write_blocks-Wrote blocks file.offset _ (file.offset / 2 ^ sbi.s_block_shift + 1) m buf _ _
        (write_block-Step s file.inode file.offset _ m buf (file.offset % sbi.s_block_size) 0 h))
    where
      first : ℕ
      first = sbi.s_block_size - file.offset % sbi.s_block_size

      from_zero : first + blocks * sbi.s_block_size ≡ 0 + first + blocks * sbi.s_block_size
      from_zero = omega arith
