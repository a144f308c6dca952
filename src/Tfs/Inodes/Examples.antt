-- ===== src/Tfs/Inodes/Examples.antt =====
-- fs/tfs/inode.c on a disk of one block, which holds the table of inodes and is in the cache.
use thunix.Base.{◌+◌, ◌≡◌, refl, inl, inr, true, some, arith, ltb, ◌==◌, if◌then◌else◌}
use thunix.Base.Int.{pos}
use thunix.Cache.{head, get_cache_block}
use thunix.Tfs.{Block, Floppy, SbInfo, State, get_block}
use thunix.Tfs.Inodes.{Inode, tfs_write_inode, tfs_iget_by_inr, tfs_iwrite, inode_block}
use thunix.Tfs.Inodes.Laws.{IsInode, tfs_write_inode_ne}
use thunix.Tfs.Inodes.Table.{Written, Reread, tfs_iwrite-tfs_iget_by_inr}

-- every write succeeds, and the disk is what was written last
abbrev drive : Floppy
drive = record {
  Disk = Block;
  floppy_reads = λ disk sector n buf. (pos 0, disk);
  floppy_writes = λ disk sector n buf. (pos 0, buf);
}

abbrev sbi : SbInfo
sbi = record {
  s_inodes_count = 64;
  s_blocks_count = 64;
  s_free_blocks_count = 64;
  s_free_inodes_count = 64;
  s_block_shift = 9;
  s_block_size = 512;
  s_inode_bitmap = 1;
  s_inode_bitmap_count = 1;
  s_block_bitmap = 2;
  s_block_bitmap_count = 1;
  s_inode_table = 3;
  s_inode_table_count = 8;
  s_data_area = 11;
  s_offset = 0;
  s_inodes_per_block = 8;
}

abbrev garbage : Block
garbage x = 170

-- block 4 is the freshest entry, `cache[1]`
abbrev state : State drive
state = record {
  disk = garbage;
  cache = record {
    entries = 2;
    block = λ p. p + 3;
    prev = λ p. if p == head then 1 else if p == 1 then 0 else head;
    next = λ p. if p == head then 0 else if p == 0 then 1 else head;
    buffer = λ p. garbage;
  };
}

abbrev inode : Inode
inode = record {
  i_mode = 2;
  i_size = 70000;
  i_ino = 11;
  i_atime = 1;
  i_mtime = 2;
  i_ctime = 3;
  i_dtime = 0;
  i_data = λ index. if ltb index 8 then 100000 + index else 0;
  i_flags = 5;
  i_blksize = 512;
}

inode-IsInode : IsInode inode
inode-IsInode = record {
  mode16 = omega arith;
  size32 = omega arith;
  atime32 = omega arith;
  mtime32 = omega arith;
  ctime32 = omega arith;
  dtime32 = omega arith;
  flags32 = omega arith;
  data32 = λ i. ground arith;
}

table-cached : get_block drive sbi state (inode_block sbi 11) ≡ (some 1, state)
unfolding get_block get_cache_block
table-cached = refl

tfs_iwrite-tfs_iget_by_inr_example :
    let (res, s2) = tfs_iwrite drive sbi state inode in
    let (r, s3) = tfs_iget_by_inr drive sbi garbage true s2 11 in
    Written drive sbi state inode 1 (res, s2) × (s3 ≡ s2) × Reread drive sbi inode r
tfs_iwrite-tfs_iget_by_inr_example =
    tfs_iwrite-tfs_iget_by_inr drive sbi garbage state state inode 1 table-cached inode-IsInode
      (omega arith, omega arith, omega arith, omega arith)

tfs_write_inode_ne_example : tfs_write_inode garbage 128 inode 131 ≡ 170
tfs_write_inode_ne_example =
    tfs_write_inode_ne garbage 128 131 inode inode-IsInode (inr (inl (omega arith, omega arith)))
