-- ===== src/Tfs/Dirs/Added.antt =====
-- fs/tfs/dir.c, `tfs_add_entry`: what the call leaves, in a directory that the cache backs.
use mathlib.Core.Option
use thunix.Base.{
  ℕ, ◌+◌, ◌-◌, ◌*◌, ◌^◌, ◌≤◌, ◌<◌, ◌≡◌, refl, ◌∙◌, ◌≢◌, Bool, true, false, Option, none, some, List,
  arith, ltb, ◌==◌, if◌then◌else◌, ==_iff, if-cases, length, Memory, u32,
}
use thunix.Base.Int.{pos, ℤ}
use thunix.Strings.{memset}
use thunix.Strings.Scan.{CStr, strlen_lem}
use thunix.Cache.{Ptr}
use thunix.Tfs.{Block, Floppy, SbInfo, State, get_block, is_zero, tfs_bwrite}
use thunix.Tfs.Alloc.{eio, put, write_back, tfs_alloc_block}
use thunix.Tfs.Inodes.{Inode, tfs_n_blocks}
use thunix.Tfs.Files.{efbig}
use thunix.Tfs.Files.Backed.{Backed}
use thunix.Tfs.Dirs.{dir_entry_size, tfs_name_len}
use thunix.Tfs.Dirs.Add.{
  Slot, as_u32, set_data, scan_block, scan_from, add_at, add_to_new, add_block, add_in,
  tfs_add_entry,
}
use thunix.Tfs.Dirs.Scanning.{
  number_in, UsedBefore, none_before, IsAt, Scanned, IsBounded, block-Scanned, scan_from-Scanned,
}
use thunix.Strings.Blocks.{memset_lem}
use thunix.Tfs.Dirs.Fill.{HasEntry, fill_entry-HasEntry}

-- the result, `*dirty`, the directory's inode and the state after the call
abbrev Out : Floppy → Type 0
Out dev = ℤ × Bool × Inode × State dev

module _ (dev : Floppy) (stray sbi : SbInfo) (contents : ℕ → Block)
    (backed : Backed dev sbi contents) (m : Memory) (name : ℕ) (xs : List ℕ) where
  -- The buffer of `p`, which was `buffer` before, has the entry at `de`, has been handed to the disk
  -- `before` as `block`, and the result is that of the write; the directory is larger by one entry.
  pub record Entered (dir : Inode) (inode_nr block de : ℕ) (p : Ptr) (buffer : Block)
      (before : dev.Disk) (out : Out dev) : Type 0 where
    pub entry : HasEntry buffer (out.3.cache.buffer p) de inode_nr xs
    pub dirty : out.1 ≡ true
    pub size : out.2.i_size ≡ u32 (dir.i_size + dir_entry_size)
    pub result : out.0 ≡ (
        if is_zero (tfs_bwrite dev before sbi block (out.3.cache.buffer p)).0 then pos 0 else eio)
    pub disk : out.3.disk ≡ (tfs_bwrite dev before sbi block (out.3.cache.buffer p)).1

  -- the block that is allocated in the state `s`
  abbrev pub new_block : State dev → ℤ × State dev
  new_block s = tfs_alloc_block dev stray sbi s sbi.s_data_area

  -- What `tfs_add_entry` to `dir` comes to. Entry `j` of block `i` is the first free one, and has it; or
  -- all are in use, and the first of a new block has it, which was cleared; or all are in use, and the
  -- new block could not be read, or is one too many.
  pub data Added (dir : Inode) (per inode_nr : ℕ) (out : Out dev) : Type 0 where
    in_free :
        (s : State dev) (i j : ℕ) (p : Ptr)
        → IsAt dev sbi contents backed dir per s i j p
        → j < per
        → number_in contents dir per i j ≡ 0
        → out.2.i_data ≡ dir.i_data
        → Entered dir inode_nr (dir.i_data i) (j * dir_entry_size) p (s.cache.buffer p) s.disk out
        → Added dir per inode_nr out
    in_new :
        (s s1 : State dev) (n : ℕ) (p : Ptr) (buffer : Block)
        → backed.Inv s
        → UsedBefore contents dir per n 0
        → dir.i_data n ≡ 0
        → n < tfs_n_blocks
        → get_block dev sbi (new_block s).1 (as_u32 (new_block s).0) ≡ (some p, s1)
        → ((x : ℕ) → x < sbi.s_block_size → buffer x ≡ 0)
        → ((i : ℕ) → out.2.i_data i ≡ (if i == n then as_u32 (new_block s).0 else dir.i_data i))
        → Entered dir inode_nr (as_u32 (new_block s).0) 0 p buffer s1.disk out
        → Added dir per inode_nr out
    unread :
        (s s1 : State dev) (n : ℕ)
        → backed.Inv s
        → UsedBefore contents dir per n 0
        → dir.i_data n ≡ 0
        → n < tfs_n_blocks
        → get_block dev sbi (new_block s).1 (as_u32 (new_block s).0) ≡ (none, s1)
        → out.0 ≡ eio
        → out.2.i_size ≡ dir.i_size
        → out.3 ≡ s1
        → Added dir per inode_nr out
    too_big :
        (s : State dev) (n : ℕ)
        → backed.Inv s
        → UsedBefore contents dir per n 0
        → tfs_n_blocks ≤ n
        → out.0 ≡ efbig
        → out.2 ≡ dir
        → Added dir per inode_nr out

  add_at-Entered :
      (s : State dev) (dir old : Inode) (block : ℕ) (p : Ptr) (de inode_nr : ℕ)
      → CStr m name xs
      → length xs < tfs_name_len
      → inode_nr < 2 ^ 32
      → old.i_size ≡ dir.i_size
      → Entered old inode_nr block de p
          (s.cache.buffer p)
          s.disk
          (add_at dev stray sbi m name s dir block p de inode_nr (length xs))
  unfolding add_at write_back
  add_at-Entered s dir old block p de inode_nr c short word same = record {
    entry = rw here (fill_entry-HasEntry m name (s.cache.buffer p) de inode_nr xs c short word);
    dirty = refl;
    size = rw same refl;
    result = refl;
    disk = refl;
  }
    where
      here : (p == p) ≡ true
      here = ground arith

  module _ (dir : Inode) (per inode_nr : ℕ) (c : CStr m name xs) (short : length xs < tfs_name_len)
      (word : inode_nr < 2 ^ 32) where
    add_to_new-Added :
        (s : State dev) (n : ℕ) (dirty : Bool) (got : Option Ptr × State dev)
        → backed.Inv s
        → UsedBefore contents dir per n 0
        → dir.i_data n ≡ 0
        → n < tfs_n_blocks
        → get_block dev sbi (new_block s).1 (as_u32 (new_block s).0) ≡ got
        → Added dir per inode_nr (
            add_to_new dev stray sbi m name
              (set_data dir n (as_u32 (new_block s).0))
              (as_u32 (new_block s).0)
              inode_nr
              (length xs)
              dirty
              got)
    unfolding add_to_new
    add_to_new-Added s n dirty (none, s1) inv all absent few e =
        unread s s1 n inv all absent few e refl refl refl
    add_to_new-Added s n dirty (some p, s1) inv all absent few e =
        in_new s s1 n p ((put dev stray sbi s1 p cleared).cache.buffer p) inv all absent few e
          (λ x low. rw here (zero_at x low)) data_set
          (add_at-Entered (put dev stray sbi s1 p cleared) (set_data dir n (as_u32 (new_block s).0))
            dir (as_u32 (new_block s).0) p 0 inode_nr c short word refl)
      where
        cleared : Block
        cleared = memset (s1.cache.buffer p) 0 0 sbi.s_block_size

        here : (p == p) ≡ true
        here = ground arith

        zero_at : (x : ℕ) → x < sbi.s_block_size → cleared x ≡ 0
        zero_at x low = memset_lem sbi.s_block_size (s1.cache.buffer p) 0 0 x ∙ ground (arith, low)

        data_set :
            (i : ℕ)
            → (set_data dir n (as_u32 (new_block s).0)).i_data i
              ≡ (if i == n then as_u32 (new_block s).0 else dir.i_data i)
        data_set i = refl

    add_block-Added :
        (s : State dev) (n : ℕ) (dirty : Bool)
        → backed.Inv s
        → UsedBefore contents dir per n 0
        → dir.i_data n ≡ 0
        → Added dir per inode_nr
            (add_block dev stray sbi m name s dir (n + 1) inode_nr (length xs) dirty)
    unfolding add_block
    add_block-Added s n dirty inv all absent =
        if-cases (Added dir per inode_nr) (ltb tfs_n_blocks (n + 1))
          (λ many. too_big s n inv all (ground (arith, many)) refl refl)
          (λ few. rw index (add_to_new-Added s n dirty _ inv all absent (ground (arith, few)) refl))
      where
        index : n + 1 - 1 ≡ n
        index = omega arith

    add_in-Added :
        (dirty : Bool) (scanned : Option (Slot × State dev))
        → Scanned dev sbi contents backed dir per scanned
        → (out : Out dev) × (Option.map
              (add_in dev stray sbi m name dir inode_nr (length xs) dirty)
              scanned
            ≡ some out)
          × Added dir per inode_nr out
    unfolding add_in add_at
    add_in-Added dirty _ (Scanned.at s i j p de is inside place free) = (
      _,
      refl,
      in_free s i j p is inside free refl
          (rw (← place) (add_at-Entered s dir dir (dir.i_data i) p de inode_nr c short word refl)),
    )
    add_in-Added dirty _ (Scanned.full s n inv all absent) =
        (_, refl, add_block-Added s n false inv all absent)

  add_named :
      (chars fuel : ℕ) (s : State dev) (dir : Inode) (inode_nr : ℕ) (dirty : Bool)
      → CStr m name xs
      → length xs < tfs_name_len
      → length xs < chars
      → tfs_add_entry dev stray sbi m name chars fuel s dir inode_nr dirty ≡ (
          if dir.i_data 0 == 0
          then some (add_block dev stray sbi m name s dir 1 inode_nr (length xs) dirty)
          else Option.map (add_in dev stray sbi m name dir inode_nr (length xs) dirty) (
              scan_from dev sbi fuel dir
                (scan_block dev sbi (dir.i_data 0) 1 (get_block dev sbi s (dir.i_data 0)))))
  unfolding tfs_add_entry
  add_named chars fuel s dir inode_nr dirty c short shorter =
      rw (strlen_lem chars m name xs c shorter, tfs_add_entry, not_long) refl
    where
      not_long : ltb tfs_name_len (length xs) ≡ false
      not_long = ground (arith, short)

  -- For a name of at most 27 bytes, with enough rounds for it and for the entries of eight blocks, and
  -- with no block behind the eighth, in a directory whose blocks the cache backs: `tfs_add_entry` ends.
  -- The first entry of the directory that is free on the disk has the inode's number and the name; or
  -- all are in use, and the first of a new block has them, whose number is what `tfs_alloc_block`
  -- returned, the word of an error too, and which was cleared, and the directory has that block. Then no
  -- other byte of the block has changed, the block has been handed to the disk with the result it gave,
  -- and the directory is larger by one entry. Or all are in use and the call fails, with `-EFBIG` where
  -- there are eight blocks, and with `-EIO` and the size as it was where the new block cannot be read.
  pub tfs_add_entry_lem :
      (chars fuel : ℕ) (s : State dev) (dir : Inode) (per inode_nr : ℕ) (dirty : Bool)
      → CStr m name xs
      → length xs < tfs_name_len
      → length xs < chars
      → inode_nr < 2 ^ 32
      → IsBounded dev sbi contents backed dir per
      → tfs_n_blocks * per < fuel
      → backed.Inv s
      → (out : ℤ × Bool × Inode × State dev) × (tfs_add_entry dev stray sbi m name chars fuel s dir
            inode_nr dirty
          ≡ some out)
        × Added dir per inode_nr out
  tfs_add_entry_lem chars fuel s dir per inode_nr dirty c short shorter word b enough inv =
      let (out, e, added) =
        if-cases
          (λ (o : Option (Out dev)). (out : Out dev) × (o ≡ some out) × Added dir per inode_nr out)
          (dir.i_data 0 == 0)
          (λ absent. (
            _,
            refl,
            add_block-Added dir per inode_nr c short word s 0 dirty inv
                (none_before contents dir per) ((==_iff _ 0).0 absent),
          ))
          (λ there.
            add_in-Added dir per inode_nr c short word dirty _
              (scanned (λ absent. ground (arith, there, absent)))) in
      (out, add_named chars fuel s dir inode_nr dirty c short shorter ∙ e, added)
    where
      scanned :
          dir.i_data 0 ≢ 0
          → Scanned dev sbi contents backed dir per (
              scan_from dev sbi fuel dir
                (scan_block dev sbi (dir.i_data 0) 1 (get_block dev sbi s (dir.i_data 0))))
      scanned there =
          block-Scanned dev sbi contents backed dir per fuel 0 _ there
            (none_before contents dir per) (backed.get s (dir.i_data 0) inv)
            (λ s1 p is.
              scan_from-Scanned dev sbi contents backed dir per fuel per 7 s1 0 0 p 0 b b.some_per
                (omega arith) (omega arith) (omega arith) (omega (arith, enough)) is)
