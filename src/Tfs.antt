-- ===== src/Tfs.antt =====
-- fs/tfs: the file system's blocks on the disk and in the block cache.
-- This file: the super block's data (include/tfs.h, fs/tfs/super.c), fs/tfs/tfs_diskio.c, and the
-- calls of the block cache that the rest of fs/tfs makes.
pub mod Alloc
pub mod Dirs
pub mod Files
pub mod Inodes
use thunix.Base.{
  ℕ, ◌+◌, ◌-◌, ◌*◌, ◌/◌, ◌%◌, ◌^◌, Bool, false, not, Option, none, some, ◌==◌, if◌then◌else◌,
  Memory, u32,
}
use thunix.Base.Int.{pos, negsuc, ℤ}
use thunix.Cache.{Ptr, head, Cache, get_cache_block}

-- A block in memory: the byte at each offset from the start of its buffer. Those from the block's
-- size on belong to whatever lies behind the buffer.
abbrev pub Block : Type 0
Block = Memory

-- The floppy drive, which kernel/fd.c drives through its ports: what `floppy_reads(sector, buf, n)`
-- returns and leaves in a buffer that held the given bytes, and what `floppy_writes` returns and
-- makes of the disk.
pub record Floppy : Type 1 where
  pub Disk : Type 0
  pub floppy_reads : Disk → ℕ → ℕ → Block → ℤ × Block
  pub floppy_writes : Disk → ℕ → ℕ → Block → ℤ × Disk

abbrev pub tfs_fs_sector : ℕ
tfs_fs_sector = 832

abbrev pub tfs_magic : ℕ
tfs_magic = 0x4c534654

-- `sizeof(struct tfs_inode)`
abbrev pub tfs_inode_size : ℕ
tfs_inode_size = 64

-- `struct tfs_super_block`, as it is read from the disk
pub record SuperBlock : Type 0 where
  pub s_inodes_count : ℕ
  pub s_blocks_count : ℕ
  pub s_free_blocks_count : ℕ
  pub s_free_inodes_count : ℕ
  pub s_magic : ℕ
  pub s_block_shift : ℕ
  pub s_inode_bitmap : ℕ
  pub s_block_bitmap : ℕ
  pub s_inode_table : ℕ
  pub s_data_area : ℕ
  pub s_offset : ℕ

-- `struct tfs_sb_info`
pub record SbInfo : Type 0 where
  pub s_inodes_count : ℕ
  pub s_blocks_count : ℕ
  pub s_free_blocks_count : ℕ
  pub s_free_inodes_count : ℕ
  pub s_block_shift : ℕ
  pub s_block_size : ℕ
  pub s_inode_bitmap : ℕ
  pub s_inode_bitmap_count : ℕ
  pub s_block_bitmap : ℕ
  pub s_block_bitmap_count : ℕ
  pub s_inode_table : ℕ
  pub s_inode_table_count : ℕ
  pub s_data_area : ℕ
  pub s_offset : ℕ
  pub s_inodes_per_block : ℕ

-- a difference of two `uint32_t`
abbrev pub sub32 : ℕ → ℕ → ℕ
sub32 a b = (a + 2 ^ 32 - b) % 2 ^ 32

-- `tfs_mount` of a sector that holds `sb`, where `malloc` succeeds or fails as `allocated` says.
pub tfs_mount : Bool → SuperBlock → Option SbInfo
tfs_mount allocated sb =
    if not (sb.s_magic == tfs_magic)
    then none
    else if not allocated
    then none
    else some (record {
      s_inodes_count = sb.s_inodes_count;
      s_blocks_count = sb.s_blocks_count;
      s_free_blocks_count = sb.s_free_blocks_count;
      s_free_inodes_count = sb.s_free_inodes_count;
      s_block_shift = sb.s_block_shift;
      s_block_size = 2 ^ sb.s_block_shift;
      s_inode_bitmap = sb.s_inode_bitmap;
      s_inode_bitmap_count = sub32 sb.s_block_bitmap sb.s_inode_bitmap;
      s_block_bitmap = sb.s_block_bitmap;
      s_block_bitmap_count = sub32 sb.s_inode_table sb.s_block_bitmap;
      s_inode_table = sb.s_inode_table;
      s_inode_table_count = sub32 sb.s_data_area sb.s_inode_table;
      s_data_area = sb.s_data_area;
      s_offset = sb.s_offset;
      s_inodes_per_block = 2 ^ sb.s_block_shift / tfs_inode_size;
    })

-- the first sector of a block, and the number of its sectors
abbrev pub sector_of : SbInfo → ℕ → ℕ
sector_of sbi block = u32 (u32 (block * 2 ^ (sbi.s_block_shift - 9)) + sbi.s_offset + tfs_fs_sector)

abbrev pub sectors_of : SbInfo → ℕ
sectors_of sbi = 2 ^ (sbi.s_block_shift - 9)

unfoldable pub is_zero : ℤ → Bool
is_zero (pos n) = n == 0
is_zero (negsuc n) = false

module _ (dev : Floppy) where
  open dev use {Disk, floppy_reads, floppy_writes}

  -- the disk, and the block cache over it
  pub record State : Type 0 where
    pub disk : Disk
    pub cache : Cache Block

  pub tfs_bread : Disk → SbInfo → ℕ → Block → ℤ × Block
  tfs_bread disk sbi block buf = floppy_reads disk (sector_of sbi block) (sectors_of sbi) buf

  unfoldable pub tfs_bwrite : Disk → SbInfo → ℕ → Block → ℤ × Disk
  tfs_bwrite disk sbi block buf = floppy_writes disk (sector_of sbi block) (sectors_of sbi) buf

  -- `get_cache_block(fs, block)` with `fs->sb` given: a miss reads into the buffer of `head->next`,
  -- and fails where `tfs_bread` returns anything but 0.
  pub cached_read : Disk → SbInfo → Cache Block → ℕ → Bool × Block
  unfolding tfs_bread is_zero
  cached_read disk sb c block =
      let (res, contents) = tfs_bread disk sb block (c.buffer (c.next head)) in
      (not (is_zero res), contents)

  pub get_block : SbInfo → State → ℕ → Option Ptr × State
  unfolding cached_read
  get_block sb s block =
      let (cs, c) = get_cache_block (cached_read s.disk sb s.cache) s.cache block in
      (cs, record s { cache = c })
