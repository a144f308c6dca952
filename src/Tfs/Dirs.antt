-- ===== src/Tfs/Dirs.antt =====
-- fs/tfs/dir.c: the entries of a directory, and the search among them. An entry is named by the cache
-- entry of its block and its offset in there. A C string is compared with the bytes of a cached block
-- in one memory, which has the block at the address `base`.
pub mod Add
pub mod Added
pub mod Backing
pub mod Entries
pub mod Fill
pub mod Examples
pub mod Iget
pub mod Make
pub mod Match
pub mod Named
pub mod NamedEntry
pub mod Overlay
pub mod Readdir
pub mod Remove
pub mod Scanning
pub mod Search
use mathlib.Core.Option
use thunix.Base.{
  ℕ, zero, suc, ◌+◌, ◌-◌, Bool, false, ◌&&◌, not, Option, none, some, ltb, leb, ◌==◌, if◌then◌else◌,
  Memory, load32,
}
use thunix.Base.Int.{pos, ℤ}
use thunix.Strings.{strlen, strncmp}
use thunix.Cache.{Ptr}
use thunix.Tfs.{Block, Floppy, SbInfo, State, get_block, is_zero}
use thunix.Tfs.Alloc.{eio}
use thunix.Tfs.Inodes.{Inode}

abbrev pub tfs_name_len : ℕ
tfs_name_len = 28

-- `sizeof(struct tfs_dir_entry)`, and the place of `d_name` in it
abbrev pub dir_entry_size : ℕ
dir_entry_size = 32

abbrev pub d_name : ℕ
d_name = 4

-- memory with the bytes of a block from `base` on
abbrev pub overlay : Memory → ℕ → Block → Memory
overlay m base block x = if leb base x then block (x - base) else m x

-- `!strncmp(name, de->d_name, strlen(name))`, behind the test of the lengths
unfoldable pub compare_names : ℕ → Memory → ℕ → ℕ → ℕ → ℕ → Option Bool
compare_names fuel m name de_name len de_len =
    if not (len == de_len) && not (len == tfs_name_len)
    then some false
    else Option.map is_zero (strncmp fuel m name de_name (pos len))

-- `tfs_match_entry`, with `fuel` rounds for each walk over a string; the entry is at the address `de`
unfoldable pub tfs_match_entry : ℕ → Memory → ℕ → ℕ → Option Bool
unfolding compare_names
tfs_match_entry fuel m name de =
    if load32 m de == 0 then some false else elim (strlen fuel m name) [
      | none ↦ none
      | some len ↦ elim (strlen fuel m (de + d_name)) [
        | none ↦ none
        | some de_len ↦ compare_names fuel m name (de + d_name) len de_len
      ]
    ]

-- What `tfs_find_entry` returns: NULL, an error, or an entry.
pub data Lookup : Type 0 where
  missing : Lookup
  failed : ℤ → Lookup
  found : Ptr → ℕ → Lookup

module _ (dev : Floppy) (sbi : SbInfo) where
  -- where the loop of `tfs_find_entry` stands: at an entry to test, or at its end
  pub data At : Type 0 where
    ended : Lookup → State dev → At
    entry : State dev → ℕ → Ptr → ℕ → At

  -- `cs = get_cache_block(...); if (!cs) return ERR_PTR(-EIO); de = cs->data`
  unfoldable pub first_entry : ℕ → Option Ptr × State dev → At
  first_entry index (none, s) = ended (failed eio) s
  first_entry index (some p, s) = entry s index p 0

  -- the test at the head of the loop, which goes on to the next block
  unfoldable pub next_entry : Inode → State dev → ℕ → Ptr → ℕ → At
  unfolding first_entry
  next_entry inode s index p de =
      let block = inode.i_data index in
      if ltb de sbi.s_block_size
      then entry s index p de
      else if ltb block sbi.s_data_area
      then ended missing s
      else first_entry (index + 1) (get_block dev sbi s block)

  -- the start of the loop
  unfoldable pub start : Inode → State dev → At
  unfolding first_entry
  start inode s =
      if inode.i_data 0 == 0
      then ended missing s
      else first_entry 1 (get_block dev sbi s (inode.i_data 0))

module _ (dev : Floppy) (sbi : SbInfo) (chars : ℕ) (m : Memory) (name base : ℕ) where
  -- the loop, from what its head has come to; `none` where the rounds, or those for a string, run out
  unfoldable pub find_from : ℕ → Inode → At dev sbi → Option (Lookup × State dev)
  unfolding next_entry
  find_from zero inode at = none
  find_from (suc fuel) inode (ended res s) = some (res, s)
  find_from (suc fuel) inode (entry s index p de) =
      let rest = find_from fuel inode (next_entry dev sbi inode s index p (de + dir_entry_size)) in
      let memory = overlay m base (s.cache.buffer p) in
      if load32 (s.cache.buffer p) de == 0
      then rest
      else elim (tfs_match_entry chars memory name (base + de)) [
        | none ↦ none
        | some matches ↦ if matches then some (found p de, s) else rest
      ]

  -- `tfs_find_entry`
  unfoldable pub tfs_find_entry : ℕ → State dev → Inode → Option (Lookup × State dev)
  unfolding start find_from
  tfs_find_entry fuel s inode = find_from fuel inode (start dev sbi inode s)
