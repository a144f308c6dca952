-- ===== src/Tfs/Files/Examples.antt =====
-- fs/tfs/file.c on a drive whose block b holds the byte b everywhere.
use thunix.Base.{
  ℕ, ◌+◌, ◌-◌, ◌*◌, ◌/◌, ◌%◌, ◌≡◌, refl, [], ◌∷◌, arith, ltb, ◌==◌, if◌then◌else◌, Memory, u32,
}
use thunix.Base.Int.{pos}
use thunix.Cache.{head}
use thunix.Tfs.{Block, Floppy, SbInfo, State, tfs_bread}
use thunix.Tfs.Files.{File, tfs_read, tfs_write}
use thunix.Tfs.Files.Backed.{Backed, IsCoherent, coherent_cache}
use thunix.Tfs.Files.Read.{HasRead, tfs_read_lem}
use thunix.Tfs.Files.Write.{Wrote, tfs_write_lem}

-- the disk is not changed by writes
abbrev pub drive : Floppy
drive = record {
  Disk = ℕ → Block;
  floppy_reads = λ disk sector n buf. (pos 0, disk sector);
  floppy_writes = λ disk sector n buf. (pos 0, disk);
}

abbrev pub sbi : SbInfo
sbi = record {
  s_inodes_count = 64;
  s_blocks_count = 64;
  s_free_blocks_count = 64;
  s_free_inodes_count = 64;
  s_block_shift = 9;
  s_block_size = 512;
  s_inode_bitmap = 1;
  s_inode_bitmap_count = 1;
  s_block_bitmap = 2;
  s_block_bitmap_count = 1;
  s_inode_table = 3;
  s_inode_table_count = 8;
  s_data_area = 11;
  s_offset = 0;
  s_inodes_per_block = 8;
}

abbrev pub disk : ℕ → Block
disk sector x = sector % 256

abbrev pub contents : ℕ → Block
contents block x = u32 (u32 (block * 1) + 0 + 832) % 256

pub reads : (b : ℕ) (buf : Block) → tfs_bread drive disk sbi b buf ≡ (pos 0, contents b)
unfolding tfs_bread
reads b buf = refl

-- `cache[1]` is the freshest of two entries
abbrev pub state : State drive
state = record {
  disk = disk;
  cache = record {
    entries = 2;
    block = λ p. p;
    prev = λ p. if p == head then 1 else if p == 1 then 0 else head;
    next = λ p. if p == head then 0 else if p == 0 then 1 else head;
    buffer = λ p. contents p;
  };
}

abbrev pub backed : Backed drive sbi contents
backed = coherent_cache drive sbi disk contents reads

abbrev pub file : File
file = record {
  inode = record {
    i_mode = 1;
    i_size = 1300;
    i_ino = 2;
    i_atime = 0;
    i_mtime = 0;
    i_ctime = 0;
    i_dtime = 0;
    i_data = λ index. if ltb index 3 then 20 + index else 0;
    i_flags = 0;
    i_blksize = 512;
  };
  offset = 600;
}

pub state-IsCoherent : IsCoherent drive sbi disk contents reads state
state-IsCoherent = record {
  order = 1 ∷ 0 ∷ [];
  ring = record {
    chain = (refl, refl, (refl, refl, (refl, refl)));
    apart = refl;
    distinct = (refl, (refl, tt));
    count = refl;
  };
  size = omega arith;
  coherent = (refl, (refl, tt));
  same_disk = refl;
}

abbrev pub zeros : Memory
zeros a = 0

tfs_read_lem_example :
    HasRead drive sbi contents backed file.inode
      (600 / 512)
      zeros
      4096
      5
      0
      (tfs_read drive sbi state file zeros 4096 5)
tfs_read_lem_example =
    tfs_read_lem drive sbi contents backed state file zeros 4096 5 state-IsCoherent (omega arith)
      (omega arith)

tfs_write_lem_example :
    Wrote drive sbi sbi 600
      (512 - 600 % 512 + 1 * 512)
      (tfs_write drive sbi sbi state file zeros 4096 2)
tfs_write_lem_example = tfs_write_lem drive sbi sbi state file zeros 4096 1 (omega arith)
