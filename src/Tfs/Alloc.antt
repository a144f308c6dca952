-- ===== src/Tfs/Alloc.antt =====
-- fs/tfs/balloc.c and fs/tfs/ialloc.c: blocks and inodes given out and taken back in their bitmaps.
-- Both files reach the cache through `container_of((void *)sbi, struct fs, sb)`. As `sb` is a
-- pointer in `struct fs`, that is no `struct fs`: its `sb` is the first word of `*sbi` taken for an
-- address. What stands there is the argument `stray`; a read that misses the cache goes by it.
pub mod Laws
mod Examples
pub mod Inodes
use thunix.Base.{
  ℕ, zero, suc, ◌+◌, ◌-◌, ◌^◌, inr, Bool, true, false, not, Option, none, some, leb, ◌==◌,
  if◌then◌else◌,
}
use thunix.Base.Int.{pos, negsuc, ℤ}
use thunix.Bitopts.{set_bit, clear_bit, test_bit, find_first_zero, minus_one}
use thunix.Cache.{Ptr, Cache, update}
use thunix.Tfs.{sub32, Block, Floppy, SbInfo, State, tfs_bwrite, get_block, is_zero}

-- `-EIO`, `-ENOSPC`, `-EINVAL`
abbrev pub eio : ℤ
eio = negsuc 4

abbrev pub enospc : ℤ
enospc = negsuc 27

abbrev pub einval : ℤ
einval = negsuc 21

-- a `uint32_t` returned as `int`
abbrev pub as_int : ℕ → ℤ
as_int u = if leb (2 ^ 31) u then negsuc (2 ^ 32 - 1 - u) else pos u

pub is_negative : ℤ → Bool
is_negative (pos n) = false
is_negative (negsuc n) = true

module _ (dev : Floppy) (stray sbi : SbInfo) where
  -- the bytes of a cached block replaced
  abbrev pub put : State dev → Ptr → Block → State dev
  put s p b = let c = s.cache in record s { cache = record c { buffer = update c.buffer p b } }

  -- `tfs_bwrite(sbi, block, cs->data)`
  unfoldable pub write_back : State dev → ℕ → Ptr → ℤ × State dev
  write_back s block p =
      let (res, disk) = tfs_bwrite dev s.disk sbi block (s.cache.buffer p) in
      (res, record s { disk = disk })

  -- `bitmap = cs ? cs->data : NULL; if (!bitmap) return -EIO;` and what follows
  with_bitmap : Option Ptr × State dev → (State dev → Ptr → ℤ × State dev) → ℤ × State dev
  with_bitmap (none, s) rest = (eio, s)
  with_bitmap (some p, s) rest = rest s p

  pub tfs_read_block_bitmap : State dev → Option Ptr × State dev
  tfs_read_block_bitmap s = get_block dev stray s sbi.s_block_bitmap

  pub tfs_free_block : State dev → ℕ → ℤ × State dev
  unfolding with_bitmap write_back
  tfs_free_block s block = with_bitmap (tfs_read_block_bitmap s) (λ s1 p.
      let (old, bitmap) = clear_bit (s1.cache.buffer p) 0 block in
      let s2 = put s1 p bitmap in
      if old == 0 then (pos 0, s2) else write_back s2 sbi.s_block_bitmap p)

  -- the number that `set_bit` is called with: the goal if its bit is clear, else what
  -- `find_first_zero` returns
  choose : Block → ℕ → Option ℕ
  choose bitmap block =
      if not (test_bit bitmap 0 block == 0)
      then find_first_zero bitmap 0 sbi.s_block_size
      else some block

  -- `set_bit`, `tfs_bwrite` and what is returned, for the number chosen
  take_block : State dev → Ptr → Option ℕ → ℤ × State dev
  unfolding write_back is_negative
  take_block s p none = (enospc, s)
  take_block s p (some block) =
      let (res, s2) =
        write_back (put s p (set_bit (s.cache.buffer p) 0 block).1) sbi.s_block_bitmap p in
      if block == minus_one
      then (enospc, s)
      else if is_negative res
      then (res, s2)
      else (as_int block, s2)

  -- `choose` is never `none`: `find_first_zero` ends.
  pub tfs_alloc_block : State dev → ℕ → ℤ × State dev
  unfolding with_bitmap choose take_block
  tfs_alloc_block s block =
      with_bitmap (tfs_read_block_bitmap s)
        (λ s1 p. take_block s1 p (choose (s1.cache.buffer p) block))

  pub tfs_read_inode_bitmap : State dev → Option Ptr × State dev
  tfs_read_inode_bitmap s = get_block dev stray s sbi.s_inode_bitmap

  pub tfs_free_inode : State dev → ℕ → ℤ × State dev
  unfolding with_bitmap write_back
  tfs_free_inode s inode_nr = with_bitmap (tfs_read_inode_bitmap s) (λ s1 p.
      let (old, bitmap) = clear_bit (s1.cache.buffer p) 0 (sub32 inode_nr 1) in
      let s2 = put s1 p bitmap in
      if old == 0 then (pos 0, s2) else write_back s2 sbi.s_inode_bitmap p)

  -- `test_bit(bitmap, inr) == 1`
  choose_inode : Block → ℕ → Option ℕ
  choose_inode bitmap inode_nr =
      if test_bit bitmap 0 inode_nr == 1
      then find_first_zero bitmap 0 sbi.s_block_size
      else some inode_nr

  -- A failed write takes the bit back in the cached block.
  take_inode : State dev → Ptr → Option ℕ → ℤ × State dev
  unfolding write_back is_zero
  take_inode s p none = (enospc, s)
  take_inode s p (some inode_nr) =
      let (err, s2) =
        write_back (put s p (set_bit (s.cache.buffer p) 0 inode_nr).1) sbi.s_inode_bitmap p in
      let undone = put s2 p (clear_bit (s2.cache.buffer p) 0 inode_nr).1 in
      if leb (2 ^ 31) inode_nr
      then (enospc, s)
      else if is_zero err
      then (pos (inode_nr + 1), s2)
      else (err, undone)

  -- `inr` is given as the nonnegative `int` that every caller passes.
  pub tfs_alloc_inode : State dev → ℕ → ℤ × State dev
  unfolding with_bitmap choose_inode take_inode
  tfs_alloc_inode s zero = (einval, s)
  tfs_alloc_inode s (suc inode_nr) =
      with_bitmap (tfs_read_inode_bitmap s)
        (λ s1 p. take_inode s1 p (choose_inode (s1.cache.buffer p) inode_nr))
