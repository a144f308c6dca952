-- ===== src/Paths/OnTfs.antt =====
-- fs/tfs/inode.c, `tfs_inode_ops`: the operations that path lookup calls.
use thunix.Base.Int.{ℤ}
use thunix.Base.{ℕ, ◌+◌, ◌<◌, Bool, arith}
use thunix.Tfs.{Block, Floppy, SbInfo, State}
use thunix.Tfs.Inodes.{tfs_iwrite}
use thunix.Tfs.Dirs.Remove.{tfs_iget, tfs_rmdir, tfs_unlink}
use thunix.Tfs.Dirs.Make.{tfs_mknod, tfs_mkdir}
use thunix.Tfs.Dirs.Named.{tfs_iget_same}
use thunix.Tfs.Dirs.NamedEntry.{tfs_mknod_same}
use thunix.Paths.{InodeOperations, max_name_len}
use thunix.Paths.Parts.{named, named-CStr}
use thunix.Paths.Loop.{IsByName}

-- The arguments are those of `tfs_iget` and `tfs_mknod`: rounds for a name and for a directory, and
-- the address from which a cached block is seen in memory. `dot` and `dot_dot` are the addresses of "."
-- and ".."; `dirty` and `err` are what the variables that are not set hold.
abbrev pub tfs_inode_ops :
    (dev : Floppy)
    → SbInfo
    → SbInfo
    → Block
    → Bool
    → ℕ
    → ℕ
    → ℕ
    → ℕ
    → ℕ
    → Bool
    → ℤ
    → InodeOperations (State dev)
tfs_inode_ops dev stray sbi null_data allocated chars fuel base dot dot_dot dirty err = record {
  iget = λ m name s dir. tfs_iget dev stray sbi null_data allocated chars m name base fuel s dir;
  mknod = λ m name s dir mode. tfs_mknod dev stray sbi allocated chars fuel m name base s dir mode;
  iwrite = λ s inode. tfs_iwrite dev sbi s inode;
  mkdir = λ m name s dir.
      tfs_mkdir dev stray sbi allocated chars fuel m name base dot dot_dot s dir dirty;
  rmdir = λ m name s dir. tfs_rmdir dev stray sbi null_data allocated chars m name base fuel s dir;
  unlink =
      λ m name s dir. tfs_unlink dev stray sbi null_data allocated chars m name base fuel s dir err;
}

-- They read the bytes of the name, and nothing else of the memory it lies in.
pub tfs_inode_ops-IsByName :
    (dev : Floppy) (stray sbi : SbInfo) (null_data : Block) (allocated : Bool)
    (chars fuel base dot dot_dot part : ℕ) (dirty : Bool) (err : ℤ)
    → part + max_name_len < base
    → max_name_len < chars
    → IsByName
        (tfs_inode_ops dev stray sbi null_data allocated chars fuel base dot dot_dot dirty err)
        part
tfs_inode_ops-IsByName dev stray sbi null_data allocated chars fuel base dot dot_dot part dirty err
      low enough =
    record {
      iget_same = λ m c s dir is short text.
          tfs_iget_same dev sbi chars m (named part c) part base c text (named-CStr c part is)
            (omega (arith, low, short)) stray null_data allocated fuel s dir;
      mknod_same = λ m c s dir mode is short text.
          tfs_mknod_same dev stray sbi m (named part c) part c text (named-CStr c part is) allocated
            chars fuel base s dir mode (omega (arith, low, short)) (omega (arith, enough, short));
    }
