-- ===== src/Descriptors/Io/Examples.antt =====
-- fs/file.c: reads through the descriptor 2 of a file with its place at byte 600.
use thunix.Base.{
  ℕ, ◌+◌, ◌-◌, ◌*◌, ◌/◌, ◌%◌, ◌<◌, ◌≡◌, refl, ◌≢◌, none, some, arith, ◌==◌, if◌then◌else◌,
}
use thunix.Base.Int.{pos}
use thunix.Tfs.Files.Examples.{drive, sbi, contents, state, backed, file, state-IsCoherent, zeros}
use thunix.Tfs.Inodes.{tfs_bmap}
use thunix.Descriptors.{Table}
use thunix.Descriptors.Io.{advance, sys_read, sys_write}
use thunix.Descriptors.Io.Write.{Stored, sys_write_lem}
use thunix.Descriptors.Io.Read.{Readable, byte_of, sys_read_lem, sys_read_stale}

abbrev table : Table
table = record {
  fds = λ j. if j == 2 then 1 else 0;
  files = λ j. if j == 2 then some file else none;
}

two-Readable : (size : ℕ) → 0 < size → Readable drive sbi contents backed table 2 size file
two-Readable size some_bytes = record {
  below = omega arith;
  present = refl;
  block_size = refl;
  same_size = refl;
  inside = omega arith;
  word = omega arith;
  some_bytes = some_bytes;
}

has_block : (i : ℕ) → i < 1 → tfs_bmap file.inode (600 / 512 + i) ≢ 0
unfolding tfs_bmap
has_block i low = ground (arith, low)

sys_read_lem_example :
    let out = sys_read drive sbi state table (pos 2) zeros 4096 400 in
    (out.0 ≡ pos 400)
    × ((k : ℕ)
        → k < 400
        → out.1 (4096 + k) ≡ byte_of drive sbi contents backed file.inode (600 + k))
    × (out.2 ≡ advance table 2 file 400)
sys_read_lem_example =
    sys_read_lem drive sbi contents backed state table 2 zeros 4096 400 file state-IsCoherent
      (two-Readable 400 (omega arith)) has_block (omega arith)

sys_read_stale_example :
    let out = sys_read drive sbi state table (pos 2) zeros 4096 500 in
    (out.0 ≡ pos 500) × (out.1 (4096 + 450) ≡ 0)
sys_read_stale_example =
    sys_read_stale drive sbi contents backed state table 2 zeros 4096 500 450 file state-IsCoherent
      (two-Readable 500 (omega arith)) has_block (omega arith) (omega arith)

sys_write_lem_example :
    Stored drive sbi sbi table 2 100
      (1 * 512 - 600 % 512)
      file
      (sys_write drive sbi sbi state table (pos 2) zeros 4096 100)
sys_write_lem_example =
    sys_write_lem drive sbi sbi state table 2 zeros 4096 100 file (omega arith) refl refl refl
      (omega arith) (omega arith)
