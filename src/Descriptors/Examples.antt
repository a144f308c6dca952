-- ===== src/Descriptors/Examples.antt =====
-- fs/file.c: a table in which the descriptors 0 and 1 are in use.
use thunix.Base.{ℕ, ◌+◌, ◌≡◌, refl, ◌≢◌, true, none, some, arith, ltb, if◌then◌else◌}
use thunix.Base.Int.{pos}
use thunix.Tfs.Inodes.{Inode, ok}
use thunix.Tfs.Files.{File}
use thunix.Descriptors.{Table, put, get_unused_fd, sys_open, sys_close, sys_lseek, unused_from}
use thunix.Descriptors.Laws.{Opened, Closed, sys_open_lem, sys_open-sys_close, sys_lseek-sys_lseek}

abbrev inode : Inode
inode = record {
  i_mode = 1;
  i_size = 1000;
  i_ino = 4;
  i_atime = 0;
  i_mtime = 0;
  i_ctime = 0;
  i_dtime = 0;
  i_data = λ index. 30 + index;
  i_flags = 0;
  i_blksize = 512;
}

abbrev file : File
file = record { inode = inode; offset = 100 }

abbrev two_open : Table
two_open = record {
  fds = λ j. if ltb j 2 then 1 else 0;
  files = λ j. if ltb j 2 then some file else none;
}

abbrev three_open : Table
three_open = record {
  fds = put two_open.fds 2 1;
  files = put two_open.files 2 (some (record { inode = inode; offset = 0 }));
}

sys_open_lem_example : Opened two_open inode (sys_open two_open (some (ok inode)) true)
sys_open_lem_example = sys_open_lem two_open inode

gives_2 : sys_open two_open (some (ok inode)) true ≡ (pos 2, three_open)
unfolding sys_open get_unused_fd unused_from
gives_2 = refl

sys_open-sys_close_example : Closed two_open 2 (sys_close three_open (pos 2))
sys_open-sys_close_example = sys_open-sys_close two_open three_open inode 2 gives_2

sys_lseek-sys_lseek_example :
    let t1 = (sys_lseek two_open (pos 1) (pos 300) 0).1 in
    let (res, t2) = sys_lseek t1 (pos 1) (pos 50) 1 in
    (res ≡ pos 350)
    × (t2.files 1 ≡ some (record { inode = inode; offset = 350 }))
    × ((j : ℕ) → j ≢ 1 → t2.files j ≡ two_open.files j)
    × (t2.fds ≡ two_open.fds)
sys_lseek-sys_lseek_example =
    sys_lseek-sys_lseek two_open 1 300 50 file (omega arith) refl (omega arith)
