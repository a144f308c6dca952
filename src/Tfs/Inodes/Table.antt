-- ===== src/Tfs/Inodes/Table.antt =====
-- fs/tfs/inode.c: `tfs_iwrite` and `tfs_iget_by_inr` through the block cache.
use thunix.Base.{
  ℕ, ◌+◌, ◌*◌, ◌^◌, ◌<◌, ◌≡◌, refl, ap, ◌∙◌, ◌≢◌, true, Option, some, arith, Memory, load32, load16,
}
use thunix.Base.Int.{ℤ}
use thunix.Cache.{Ptr}
use thunix.Cache.Again.{IsFreshest, get_cache_block-IsFreshest, IsFreshest-get_cache_block}
use thunix.Tfs.{tfs_inode_size, Block, Floppy, SbInfo, State, cached_read, get_block, tfs_bwrite}
use thunix.Tfs.Alloc.{write_back}
use thunix.Tfs.Inodes.{
  Inode, Result, ok, new_inode, tfs_fill_inode, tfs_write_inode, inode_block, inode_offset,
  tfs_read_inode, tfs_iget_by_inr, write_inode, tfs_iwrite, tfs_bmap, data_of,
}
use thunix.Tfs.Inodes.Laws.{
  read_block_lem, read_offset_lem, IsInode, SameInode, tfs_fill_inode-tfs_write_inode,
}

load16-moved : (m : Memory) (t a : ℕ) → load16 (λ x. m (t + x)) a ≡ load16 m (t + a)
unfolding load16
load16-moved m t a = ground arith

load32-moved : (m : Memory) (t a : ℕ) → load32 (λ x. m (t + x)) a ≡ load32 m (t + a)
unfolding load32
load32-moved m t a = ground arith

SameInode-moved :
    (old inode : Inode) (m : Memory) (t : ℕ)
    → SameInode (tfs_fill_inode old m t) inode
    → SameInode (tfs_fill_inode old (λ x. m (t + x)) 0) inode
unfolding tfs_fill_inode tfs_bmap
SameInode-moved old inode m t f = record {
  mode = ground (arith, load16-moved m t 0, f.mode);
  size = load32-moved m t 4 ∙ f.size;
  atime = load32-moved m t 8 ∙ f.atime;
  mtime = load32-moved m t 16 ∙ f.mtime;
  ctime = load32-moved m t 12 ∙ f.ctime;
  dtime = load32-moved m t 20 ∙ f.dtime;
  flags = load32-moved m t 56 ∙ f.flags;
  blocks = λ i. ground (arith, load32-moved m t (4 * (6 + i)), f.blocks i);
}

module _ (dev : Floppy) (sbi : SbInfo) where
  get_block-IsFreshest :
      (s s1 : State dev) (b : ℕ) (p : Ptr)
      → get_block dev sbi s b ≡ (some p, s1)
      → IsFreshest s1.cache b p
  unfolding get_block
  get_block-IsFreshest s s1 b p e = rw (← ap (λ o. o.1.cache) e) (
      get_cache_block-IsFreshest (cached_read dev s.disk sbi s.cache) s.cache b p (ap (λ o. o.0) e))

  IsFreshest-get_block :
      (s : State dev) (b : ℕ) (p : Ptr)
      → IsFreshest s.cache b p
      → get_block dev sbi s b ≡ (some p, s)
  unfolding get_block
  IsFreshest-get_block s b p f =
      ap (λ o. (o.0, record s { cache = o.1 }))
        (IsFreshest-get_cache_block (cached_read dev s.disk sbi s.cache) s.cache b p f)

  -- the inode that `tfs_iget_by_inr` builds from what `tfs_read_inode` filled
  abbrev pub built : ℕ → Memory → Inode
  built inode_nr tinode = record (tfs_fill_inode (new_inode 0) tinode 0) {
    i_blksize = 2 ^ sbi.s_block_shift;
    i_ino = inode_nr;
  }

  built-SameInode :
      (inode : Inode) (inode_nr : ℕ) (tinode : Memory)
      → SameInode (tfs_fill_inode (new_inode 0) tinode 0) inode
      → SameInode (built inode_nr tinode) inode
  unfolding tfs_bmap
  built-SameInode inode inode_nr tinode f = record {
    mode = f.mode;
    size = f.size;
    atime = f.atime;
    mtime = f.mtime;
    ctime = f.ctime;
    dtime = f.dtime;
    flags = f.flags;
    blocks = f.blocks;
  }

  -- a positive `int`, where the inodes of a block have less than 2^32 bytes, and there are any
  abbrev pub IsNumber : ℕ → Type 0
  IsNumber inode_nr =
      (0 < inode_nr)
      × (inode_nr < 2 ^ 31)
      × (0 < sbi.s_inodes_per_block)
      × (sbi.s_inodes_per_block * tfs_inode_size < 2 ^ 32)

  -- what `tfs_iget_by_inr` makes of what `get_cache_block` gives
  abbrev pub inode_in : Block → ℕ → Option Ptr × State dev → Result Inode × State dev
  inode_in null_data inode_nr got = (
    ok (built inode_nr (λ x. data_of dev sbi null_data got (inode_offset sbi inode_nr + x))),
    got.1,
  )

  pub tfs_iget_by_inr_at :
      (null_data : Block) (s : State dev) (inode_nr : ℕ)
      → IsNumber inode_nr
      → tfs_iget_by_inr dev sbi null_data true s inode_nr
        ≡ inode_in null_data inode_nr (get_block dev sbi s (inode_block sbi inode_nr))
  unfolding tfs_iget_by_inr tfs_read_inode
  tfs_iget_by_inr_at null_data s inode_nr (some_nr, int31, some_inodes, room) =
      ap
        (λ (at : ℕ × ℕ).
          let got = get_block dev sbi s at.0 in
          (ok (built inode_nr (λ x. data_of dev sbi null_data got (at.1 + x))), got.1))
        (λ i. (
          read_block_lem sbi inode_nr some_nr int31 i,
          read_offset_lem sbi inode_nr some_nr int31 some_inodes room i,
        ))

  tfs_iget_by_inr-cached :
      (null_data : Block) (s : State dev) (inode_nr : ℕ) (p : Ptr)
      → IsNumber inode_nr
      → get_block dev sbi s (inode_block sbi inode_nr) ≡ (some p, s)
      → tfs_iget_by_inr dev sbi null_data true s inode_nr
        ≡ (ok (built inode_nr (λ x. s.cache.buffer p (inode_offset sbi inode_nr + x))), s)
  unfolding data_of
  tfs_iget_by_inr-cached null_data s inode_nr p is e =
      tfs_iget_by_inr_at null_data s inode_nr is ∙ ap (inode_in null_data inode_nr) e

  -- The block in the buffer of `p` holds the inode, nothing else of the cache has changed, and
  -- `out` is what `tfs_bwrite` returned and left.
  pub record Written (s : State dev) (inode : Inode) (p : Ptr) (out : ℤ × State dev) : Type 0 where
    pub holds :
        out.1.cache.buffer p
        ≡ tfs_write_inode (s.cache.buffer p) (inode_offset sbi inode.i_ino) inode
    pub others : (q : Ptr) → q ≢ p → out.1.cache.buffer q ≡ s.cache.buffer q
    pub blocks : out.1.cache.block ≡ s.cache.block
    pub order : out.1.cache.prev ≡ s.cache.prev
    pub result :
        out.0 ≡ (tfs_bwrite dev s.disk sbi (inode_block sbi inode.i_ino) (out.1.cache.buffer p)).0
    pub disk :
        out.1.disk
        ≡ (tfs_bwrite dev s.disk sbi (inode_block sbi inode.i_ino) (out.1.cache.buffer p)).1

  write_inode-Written :
      (s : State dev) (inode : Inode) (p : Ptr)
      → Written s inode p (write_inode dev sbi inode (some p, s))
  unfolding write_inode write_back
  write_inode-Written s inode p = record {
    holds = ground arith;
    others = λ q ne. ground arith;
    blocks = refl;
    order = refl;
    result = refl;
    disk = refl;
  }

  Written-cached :
      (s : State dev) (inode : Inode) (p : Ptr) (out : ℤ × State dev) (b : ℕ)
      → Written s inode p out
      → IsFreshest s.cache b p
      → get_block dev sbi out.1 b ≡ (some p, out.1)
  Written-cached s inode p out b w f = IsFreshest-get_block out.1 b p (record {
    freshest = ground (arith, w.order, f.freshest);
    names = ground (arith, w.blocks, f.names);
  })

  -- What `tfs_iget_by_inr` gives for an inode that was written: one with the same fields, its own
  -- number and the file system's block size.
  pub record Reread (inode : Inode) (r : Result Inode) : Type 0 where
    pub found : Inode
    pub succeeds : r ≡ ok found
    pub same : SameInode found inode
    pub number : found.i_ino ≡ inode.i_ino
    pub blksize : found.i_blksize ≡ 2 ^ sbi.s_block_shift

  -- For an inode whose fields have their widths and whose number is from 1 to 2^31 - 1, where a block
  -- holds inodes and they have less than 2^32 bytes, once the block of the inode table is in the cache,
  -- `tfs_iwrite` changes the buffer of that block alone, and returns what its write to the
  -- disk returns, and `tfs_iget_by_inr` of the inode's number, with memory to be had, then gives an
  -- inode with the same fields without any access to the disk, whether the write failed or not.
  pub tfs_iwrite-tfs_iget_by_inr :
      (null_data : Block) (s s1 : State dev) (inode : Inode) (p : Ptr)
      → get_block dev sbi s (inode_block sbi inode.i_ino) ≡ (some p, s1)
      → IsInode inode
      → IsNumber inode.i_ino
      → let (res, s2) = tfs_iwrite dev sbi s inode in
        let (r, s3) = tfs_iget_by_inr dev sbi null_data true s2 inode.i_ino in
        Written s1 inode p (res, s2) × (s3 ≡ s2) × Reread inode r
  unfolding tfs_iwrite
  tfs_iwrite-tfs_iget_by_inr null_data s s1 inode p e h is = rw e (
    w,
    ap (λ o. o.1) got,
    record {
      found = built inode.i_ino tinode;
      succeeds = ap (λ o. o.0) got;
      same = built-SameInode inode inode.i_ino tinode (
          SameInode-moved (new_inode 0) inode (out.1.cache.buffer p) (inode_offset sbi inode.i_ino)
            (rw w.holds (
              tfs_fill_inode-tfs_write_inode (new_inode 0) inode (s1.cache.buffer p)
                (inode_offset sbi inode.i_ino) h)));
      number = refl;
      blksize = refl;
    },
  )
    where
      out : ℤ × State dev
      out = write_inode dev sbi inode (some p, s1)

      w : Written s1 inode p out
      w = write_inode-Written s1 inode p

      tinode : Memory
      tinode = λ x. out.1.cache.buffer p (inode_offset sbi inode.i_ino + x)

      got :
          tfs_iget_by_inr dev sbi null_data true out.1 inode.i_ino
          ≡ (ok (built inode.i_ino tinode), out.1)
      got =
          tfs_iget_by_inr-cached null_data out.1 inode.i_ino p is
            (Written-cached s1 inode p out _ w (get_block-IsFreshest s s1 _ p e))
