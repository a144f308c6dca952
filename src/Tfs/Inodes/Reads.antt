-- ===== src/Tfs/Inodes/Reads.antt =====
-- fs/tfs/inode.c: `tfs_iget_by_inr` where the cache backs the disk.
use thunix.Base.{
  ℕ, ◌+◌, ◌*◌, ◌^◌, ◌≤◌, ◌<◌, ◌≡◌, refl, ap, ◌∙◌, true, Option, arith, Memory, load32, load16,
}
use native.Mathlib.Nat.{mod-lt}
use thunix.Cache.{Ptr}
use thunix.Tfs.{Block, Floppy, SbInfo, State, tfs_inode_size, sub32}
use thunix.Tfs.Inodes.{
  Inode, Result, ok, new_inode, tfs_fill_inode, inode_block, inode_offset, tfs_iget_by_inr, data_of,
  tfs_bmap,
}
use thunix.Tfs.Inodes.Laws.{SameInode}
use thunix.Tfs.Inodes.Table.{built, tfs_iget_by_inr_at}
use thunix.Tfs.Files.Backed.{Gives, gives, Backed}
use thunix.Tfs.Dirs.Overlay.{load32-same}

load16-same :
    (m m' : Memory) (a b : ℕ) → m' b ≡ m a → m' (b + 1) ≡ m (a + 1) → load16 m' b ≡ load16 m a
unfolding load16
load16-same m m' a b low high = omega (arith, low, high)

-- the same bytes of a `struct tfs_inode` fill an inode in the same way
tfs_fill_inode-SameInode :
    (old : Inode) (m m' : Memory) (t : ℕ)
    → ((x : ℕ) → x < tfs_inode_size → m' x ≡ m (t + x))
    → SameInode (tfs_fill_inode old m' 0) (tfs_fill_inode old m t)
unfolding tfs_fill_inode tfs_bmap
tfs_fill_inode-SameInode old m m' t same = record {
  mode = load16-same m m' t 0 (same 0 (omega arith) ∙ ap m (omega arith)) (same 1 (omega arith));
  size = word 4 (omega arith);
  atime = word 8 (omega arith);
  mtime = word 16 (omega arith);
  ctime = word 12 (omega arith);
  dtime = word 20 (omega arith);
  flags = word 56 (omega arith);
  blocks = λ i. ground (arith, word (4 * (6 + i)));
}
  where
    word : (a : ℕ) → a + 4 ≤ tfs_inode_size → load32 m' a ≡ load32 m (t + a)
    word a low =
        load32-same m m' (t + a) a
          (λ i h. same (a + i) (omega (arith, low, h)) ∙ ap m (omega arith))

module _ (dev : Floppy) (sbi : SbInfo) (contents : ℕ → Block)
    (backed : Backed dev sbi contents) where
  -- the inode of number `inode_nr`, with what the disk holds for it in the table
  pub data Read (inode_nr : ℕ) : Result Inode × State dev → Type 0 where
    read :
        (inode : Inode) (s : State dev)
        → backed.Inv s
        → inode.i_ino ≡ inode_nr
        → inode.i_blksize ≡ 2 ^ sbi.s_block_shift
        → SameInode inode (
            tfs_fill_inode
              (new_inode 0)
              (contents (inode_block sbi inode_nr))
              (inode_offset sbi inode_nr))
        → Read inode_nr (ok inode, s)

  -- Inodes lie inside the blocks of the table, which have less than 2^32 bytes.
  abbrev pub IsTable : Type 0
  IsTable =
      (0 < sbi.s_inodes_per_block)
      × (sbi.s_inodes_per_block * tfs_inode_size ≤ sbi.s_block_size)
      × (sbi.s_block_size < 2 ^ 32)

  Gives-Read :
      (null_data : Block) (inode_nr : ℕ) (got : Option Ptr × State dev)
      → IsTable
      → Gives dev sbi backed.Inv (contents (inode_block sbi inode_nr)) got
      → Read inode_nr (
        ok (
            built dev sbi inode_nr
              (λ x. data_of dev sbi null_data got (inode_offset sbi inode_nr + x))),
        got.1,
      )
  unfolding data_of tfs_bmap
  Gives-Read null_data inode_nr _ (some_inodes, room, _) (gives p s inv agrees) =
      let same =
        tfs_fill_inode-SameInode (new_inode 0) (contents (inode_block sbi inode_nr))
          (λ x. s.cache.buffer p (inode_offset sbi inode_nr + x)) (inode_offset sbi inode_nr)
          (λ x low.
            agrees (inode_offset sbi inode_nr + x)
              (omega (arith, low, room, mod-lt (sub32 inode_nr 1) some_inodes))) in
      read _ s inv refl refl (record {
        mode = same.mode;
        size = same.size;
        atime = same.atime;
        mtime = same.mtime;
        ctime = same.ctime;
        dtime = same.dtime;
        flags = same.flags;
        blocks = same.blocks;
      })

  pub tfs_iget_by_inr-Read :
      (null_data : Block) (s : State dev) (inode_nr : ℕ)
      → IsTable
      → 0 < inode_nr
      → inode_nr < 2 ^ 31
      → backed.Inv s
      → Read inode_nr (tfs_iget_by_inr dev sbi null_data true s inode_nr)
  tfs_iget_by_inr-Read null_data s inode_nr (some_inodes, room, size32) some_nr int31 inv =
      rw
        (tfs_iget_by_inr_at dev sbi null_data s inode_nr
          (some_nr, int31, some_inodes, omega (arith, room, size32)))
        (Gives-Read null_data inode_nr _ (some_inodes, room, size32)
          (backed.get s (inode_block sbi inode_nr) inv))
