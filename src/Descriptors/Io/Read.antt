-- ===== src/Descriptors/Io/Read.antt =====
-- fs/file.c: what `sys_read` puts into the buffer, byte by byte.
use mathlib.Core.Path.{subst}
use thunix.Base.{
  ℕ, ◌+◌, ◌-◌, ◌*◌, ◌/◌, ◌%◌, ◌^◌, ◌≤◌, ◌<◌, ◌≡◌, refl, sym, ap, ◌∙◌, ◌≢◌, inr, true, false, some,
  arith, ltb, ◌==◌, if◌then◌else◌, if-cases, Memory,
}
use thunix.Base.Int.{pos, ℤ}
use native.Mathlib.Nat.{div-add-mod', le-div_iff_mul-le, div-lt_iff_lt-mul}
use thunix.Strings.{memmove}
use thunix.Strings.Blocks.{memmove_lem, copied}
use thunix.Tfs.{Block, Floppy, SbInfo, State, sub32}
use thunix.Tfs.Inodes.{Inode, tfs_bmap}
use thunix.Tfs.Files.{File, tfs_read}
use thunix.Tfs.Files.Backed.{Backed}
use thunix.Tfs.Files.Read.{HasRead, tfs_read_lem}
use thunix.Descriptors.{Table, max_fd, fget}
use thunix.Descriptors.Io.{min, blocks_of, advance, moved_back, read_file, sys_read}
use thunix.Descriptors.Io.Places.{power_pos, place_div, place_mod, blocks_fit, all_read}

module _ (dev : Floppy) (sbi : SbInfo) (contents : ℕ → Block)
    (backed : Backed dev sbi contents) where
  -- the byte of the file at `place`, as the disk holds it
  abbrev pub byte_of : Inode → ℕ → ℕ
  byte_of inode place =
      contents (tfs_bmap inode (place / sbi.s_block_size)) (place % sbi.s_block_size)

  -- the byte that `tfs_read` leaves `k` bytes behind the place in the file
  HasRead-byte_of :
      (inode : Inode) (offset : ℕ) (m : Memory) (buf blocks k : ℕ) (out : ℤ × Memory × State dev)
      → 0 < sbi.s_block_size
      → (r : HasRead dev sbi contents backed inode (offset / sbi.s_block_size) m buf blocks 0 out)
      → r.n ≡ blocks
      → out.1 (buf + (offset % sbi.s_block_size + k)) ≡ (
          if ltb (offset % sbi.s_block_size + k) (blocks * sbi.s_block_size)
          then byte_of inode (offset + k)
          else m (buf + (offset % sbi.s_block_size + k)))
  HasRead-byte_of inode offset m buf blocks k out some_size r all =
      if-cases (λ (b : ℕ). out.1 (buf + y) ≡ b) (ltb y (blocks * sbi.s_block_size))
        (λ inside.
          ap out.1 here
          ∙ r.bytes_of (y / sbi.s_block_size) (y % sbi.s_block_size)
              ((div-lt_iff_lt-mul some_size).1 (ground (arith, inside, all)))
              (omega (arith, some_size))
          ∙ rw
              (
                place_div sbi.s_block_size offset k some_size,
                place_mod sbi.s_block_size offset k some_size,
              )
              refl)
        (λ past. r.others (buf + y) (inr (ground (arith, past, all))))
    where
      y : ℕ
      y = offset % sbi.s_block_size + k

      here : buf + y ≡ buf + y / sbi.s_block_size * sbi.s_block_size + y % sbi.s_block_size
      here = omega (arith, div-add-mod' y sbi.s_block_size)

  -- a descriptor's file at a place inside it, in whole blocks of the file system's size
  pub record Readable (t : Table) (fd size : ℕ) (file : File) : Type 0 where
    pub below : fd < max_fd
    pub present : t.files fd ≡ some file
    pub block_size : sbi.s_block_size ≡ 2 ^ sbi.s_block_shift
    pub same_size : file.inode.i_blksize ≡ sbi.s_block_size
    pub inside : file.offset < file.inode.i_size
    pub word : file.inode.i_size < 2 ^ 32
    pub some_bytes : 0 < size

  -- the number of bytes that `sys_read` reads, and of the blocks that it asks for
  abbrev pub bytes_of : ℕ → File → ℕ
  bytes_of size file = min size (file.inode.i_size - file.offset)

  abbrev pub blocks : ℕ → File → ℕ
  blocks size file = blocks_of sbi file.inode (bytes_of size file)

  -- `sys_read` has read `bytes_of size file` bytes: byte `k` of them is the file's where the blocks
  -- asked for reach that far, and else what the memory behind the buffer held.
  pub record Got (t : Table) (fd : ℕ) (m : Memory) (buf size : ℕ) (file : File)
      (out : ℤ × Memory × Table × State dev) : Type 0 where
    pub result : out.0 ≡ pos (bytes_of size file)
    pub bytes :
        (k : ℕ)
        → k < bytes_of size file
        → out.1 (buf + k) ≡ (
            if ltb (file.offset % sbi.s_block_size + k) (blocks size file * sbi.s_block_size)
            then byte_of file.inode (file.offset + k)
            else m (buf + (file.offset % sbi.s_block_size + k)))
    pub table : out.2 ≡ advance t fd file (bytes_of size file)
    pub inv : backed.Inv out.3

  moved_back-all :
      (t : Table) (fd : ℕ) (file : File) (buf need n : ℕ) (m : Memory) (s : State dev)
      → 0 < need
      → need ≤ n
      → moved_back dev t fd file buf need (pos n, m, s) ≡ (
        pos need,
        memmove m buf (buf + file.offset % file.inode.i_blksize) need,
        advance t fd file need,
        s,
      )
  unfolding moved_back
  moved_back-all t fd file buf need n m s some_need fits = rw (least, not_zero) refl
    where
      least : (if ltb need n then need else n) ≡ need
      least = ground (arith, fits)

      not_zero : (need == 0) ≡ false
      not_zero = ground (arith, some_need)

  moved_back-Got :
      (t : Table) (fd : ℕ) (m : Memory) (buf size : ℕ) (file : File) (res : ℤ) (m1 : Memory)
      (s1 : State dev)
      → Readable t fd size file
      → (r : HasRead dev sbi contents backed file.inode
          (file.offset / sbi.s_block_size)
          m
          buf
          (blocks size file)
          0
          (res, m1, s1))
      → r.n ≡ blocks size file
      → Got t fd m buf size file (moved_back dev t fd file buf (bytes_of size file) (res, m1, s1))
  moved_back-Got t fd m buf size file res m1 s1 f r all =
      rw
        (
          r.result,
          moved_back-all t fd file buf (bytes_of size file) (0 + r.n * sbi.s_block_size) m1 s1
              some_need fits,
        )
        (record {
          result = refl;
          bytes = λ k low.
              memmove_lem m1 buf _ (bytes_of size file) (buf + k)
              ∙ moved k low
              ∙ HasRead-byte_of file.inode file.offset m buf (blocks size file) k (res, m1, s1)
                  some_size r all;
          table = refl;
          inv = r.inv;
        })
    where
      some_need : 0 < bytes_of size file
      some_need = ground (arith, f.inside, f.some_bytes)

      some_size : 0 < sbi.s_block_size
      some_size = rw f.block_size (power_pos sbi.s_block_shift)

      moved :
          (k : ℕ)
          → k < bytes_of size file
          → copied m1 buf (buf + file.offset % file.inode.i_blksize) (bytes_of size file) (buf + k)
            ≡ m1 (buf + (file.offset % sbi.s_block_size + k))
      moved k low = rw f.same_size (ground (arith, low))

      enough : bytes_of size file ≤ blocks size file * sbi.s_block_size
      enough =
          rw (← f.block_size, f.same_size)
            (blocks_fit sbi.s_block_size (bytes_of size file) some_size)

      fits : bytes_of size file ≤ 0 + r.n * sbi.s_block_size
      fits = rw all (omega (arith, enough))

  Readable-Got :
      (s : State dev) (t : Table) (fd : ℕ) (m : Memory) (buf size : ℕ) (file : File)
      → backed.Inv s
      → Readable t fd size file
      → ((i : ℕ)
          → i < blocks size file
          → tfs_bmap file.inode (file.offset / sbi.s_block_size + i) ≢ 0)
      → Got t fd m buf size file (sys_read dev sbi s t (pos fd) m buf size)
  unfolding sys_read read_file fget
  Readable-Got s t fd m buf size file inv f mapped =
      rw (in_table, f.present, left)
        (moved_back-Got t fd m buf size file _ _ _ f has
          (all_read has.n (blocks size file) has.at_most has.stops mapped))
    where
      in_table : ltb max_fd fd ≡ false
      in_table = ground (arith, f.below)

      left : sub32 file.inode.i_size file.offset ≡ file.inode.i_size - file.offset
      left = omega (arith, f.word, f.inside)

      some_size : 0 < sbi.s_block_size
      some_size = rw f.block_size (power_pos sbi.s_block_shift)

      some_blocks : 0 < blocks size file
      some_blocks =
          (le-div_iff_mul-le (power_pos sbi.s_block_shift)).1
            (ground (arith, f.block_size, f.same_size, f.inside, f.some_bytes, some_size))

      has :
          HasRead dev sbi contents backed file.inode
            (file.offset / sbi.s_block_size)
            m
            buf
            (blocks size file)
            0
            (tfs_read dev sbi s file m buf (blocks size file))
      has =
          subst
            (λ d.
              HasRead dev sbi contents backed file.inode (file.offset / d) m buf (blocks size file)
                0 (tfs_read dev sbi s file m buf (blocks size file)))
            (sym f.block_size)
            (tfs_read_lem dev sbi contents backed s file m buf (blocks size file) inv some_blocks
              f.inside)

  -- Where the blocks that `sys_read` asks for, as many as the bytes alone fill, reach from the block of
  -- the place in the file to the last byte, and the file has them all, `sys_read` inside the file
  -- returns the smaller of the size asked for and what is left of the file, leaves that many bytes of
  -- the file in the buffer, byte by byte what the disk holds, and moves the place on by as many.
  pub sys_read_lem :
      (s : State dev) (t : Table) (fd : ℕ) (m : Memory) (buf size : ℕ) (file : File)
      → backed.Inv s
      → Readable t fd size file
      → ((i : ℕ)
          → i < blocks size file
          → tfs_bmap file.inode (file.offset / sbi.s_block_size + i) ≢ 0)
      → file.offset % sbi.s_block_size + bytes_of size file ≤ blocks size file * sbi.s_block_size
      → let out = sys_read dev sbi s t (pos fd) m buf size in
        (out.0 ≡ pos (bytes_of size file))
        × ((k : ℕ)
            → k < bytes_of size file
            → out.1 (buf + k) ≡ byte_of file.inode (file.offset + k))
        × (out.2 ≡ advance t fd file (bytes_of size file))
  sys_read_lem s t fd m buf size file inv f mapped reach =
      let got = Readable-Got s t fd m buf size file inv f mapped in
      (got.result, (λ k low. got.bytes k low ∙ within k low), got.table)
    where
      within :
          (k : ℕ)
          → k < bytes_of size file
          → (if ltb (file.offset % sbi.s_block_size + k) (blocks size file * sbi.s_block_size)
              then byte_of file.inode (file.offset + k)
              else m (buf + (file.offset % sbi.s_block_size + k)))
            ≡ byte_of file.inode (file.offset + k)
      within k low = rw inside refl
        where
          inside :
              ltb (file.offset % sbi.s_block_size + k) (blocks size file * sbi.s_block_size) ≡ true
          inside = ground (arith, low, reach)

  -- Where those blocks do not reach the last byte, since the place is not at the start of its block,
  -- `sys_read` counts the bytes behind them as read all the same; what it leaves for them in the
  -- buffer is what memory held as far behind the buffer as the place is behind its block's start.
  pub sys_read_stale :
      (s : State dev) (t : Table) (fd : ℕ) (m : Memory) (buf size k : ℕ) (file : File)
      → backed.Inv s
      → Readable t fd size file
      → ((i : ℕ)
          → i < blocks size file
          → tfs_bmap file.inode (file.offset / sbi.s_block_size + i) ≢ 0)
      → k < bytes_of size file
      → blocks size file * sbi.s_block_size ≤ file.offset % sbi.s_block_size + k
      → let out = sys_read dev sbi s t (pos fd) m buf size in
        (out.0 ≡ pos (bytes_of size file))
        × (out.1 (buf + k) ≡ m (buf + (file.offset % sbi.s_block_size + k)))
  sys_read_stale s t fd m buf size k file inv f mapped low past =
      let got = Readable-Got s t fd m buf size file inv f mapped in
      (got.result, got.bytes k low ∙ rw beyond refl)
    where
      beyond :
          ltb (file.offset % sbi.s_block_size + k) (blocks size file * sbi.s_block_size) ≡ false
      beyond = ground (arith, past)
