-- ===== src/Tfs/Alloc/Examples.antt =====
-- fs/tfs/balloc.c and fs/tfs/ialloc.c on a disk of one block, whose bitmaps are in the cache.
use thunix.Base.{ℕ, ◌≡◌, refl, true, some, arith, ltb, ◌==◌, if◌then◌else◌, IsBytes}
use thunix.Base.Int.{pos}
use thunix.Bitopts.Laws.{bit}
use thunix.Cache.{head, get_cache_block}
use thunix.Tfs.{Block, Floppy, SbInfo, State, tfs_bwrite, get_block, is_zero}
use thunix.Tfs.Alloc.{
  tfs_read_block_bitmap, tfs_read_inode_bitmap, tfs_alloc_block, tfs_free_block, tfs_alloc_inode,
}
use thunix.Tfs.Alloc.Laws.{Allocated, tfs_alloc_block_lem, tfs_free_block_lem}
use thunix.Tfs.Alloc.Inodes.{
  AllocatedInode, write_result, tfs_alloc_inode_lem, tfs_alloc_inode_twice,
}

-- every write succeeds, and the disk is what was written last
abbrev drive : Floppy
drive = record {
  Disk = Block;
  floppy_reads = λ disk sector n buf. (pos 0, disk);
  floppy_writes = λ disk sector n buf. (pos 0, buf);
}

abbrev sbi : SbInfo
sbi = record {
  s_inodes_count = 64;
  s_blocks_count = 64;
  s_free_blocks_count = 64;
  s_free_inodes_count = 64;
  s_block_shift = 9;
  s_block_size = 512;
  s_inode_bitmap = 1;
  s_inode_bitmap_count = 1;
  s_block_bitmap = 1;
  s_block_bitmap_count = 1;
  s_inode_table = 2;
  s_inode_table_count = 8;
  s_data_area = 10;
  s_offset = 0;
  s_inodes_per_block = 8;
}

-- the first 20 bits set
abbrev bitmap : Block
bitmap a = if ltb a 2 then 255 else if a == 2 then 15 else 0

bitmap-IsBytes : IsBytes bitmap
bitmap-IsBytes a = ground arith

-- block 1 is the freshest entry, `cache[1]`
abbrev state : State drive
state = record {
  disk = bitmap;
  cache = record {
    entries = 2;
    block = λ p. p;
    prev = λ p. if p == head then 1 else if p == 1 then 0 else head;
    next = λ p. if p == head then 0 else if p == 0 then 1 else head;
    buffer = λ p. bitmap;
  };
}

block_bitmap-cached : tfs_read_block_bitmap drive sbi sbi state ≡ (some 1, state)
unfolding tfs_read_block_bitmap get_block get_cache_block
block_bitmap-cached = refl

inode_bitmap-cached : tfs_read_inode_bitmap drive sbi sbi state ≡ (some 1, state)
unfolding tfs_read_inode_bitmap get_block get_cache_block
inode_bitmap-cached = refl

tfs_alloc_block_lem_example :
    Allocated drive sbi sbi state 1 4096 10 (tfs_alloc_block drive sbi sbi state 10)
tfs_alloc_block_lem_example =
    tfs_alloc_block_lem drive sbi sbi 128 refl (omega arith) state state 1 10 block_bitmap-cached
      bitmap-IsBytes (omega arith)

tfs_free_block_lem_example :
    let out = tfs_free_block drive sbi sbi state 12 in
    let write = tfs_bwrite drive bitmap sbi 1 (out.1.cache.buffer 1) in
    ((j : ℕ) → bit (out.1.cache.buffer 1) 0 j ≡ (if j == 12 then 0 else bit bitmap 0 j))
    × (out.0 ≡ (if bit bitmap 0 12 == 0 then pos 0 else write.0))
    × (out.1.disk ≡ (if bit bitmap 0 12 == 0 then bitmap else write.1))
tfs_free_block_lem_example =
    tfs_free_block_lem drive sbi sbi state state 1 12 block_bitmap-cached bitmap-IsBytes

tfs_alloc_inode_lem_example :
    AllocatedInode drive sbi sbi state 1 4096 0 (tfs_alloc_inode drive sbi sbi state 1)
tfs_alloc_inode_lem_example =
    tfs_alloc_inode_lem drive sbi sbi 128 refl (omega arith) state state 1 0 inode_bitmap-cached
      bitmap-IsBytes (omega arith) (omega arith)

write-ok : is_zero (write_result drive sbi sbi state 1 5) ≡ true
unfolding tfs_bwrite is_zero
write-ok = refl

tfs_alloc_inode_twice_example :
    let out = tfs_alloc_inode drive sbi sbi state 6 in
    (out.0 ≡ pos 6) × ((j : ℕ) → bit (out.1.cache.buffer 1) 0 j ≡ bit bitmap 0 j)
tfs_alloc_inode_twice_example =
    tfs_alloc_inode_twice drive sbi sbi state state 1 5 inode_bitmap-cached bitmap-IsBytes
      (omega arith) (omega arith) refl write-ok
