-- ===== src/Tfs/Dirs/Examples.antt =====
-- fs/tfs/dir.c: a directory of one block, the block 20, whose first entry is the inode 3 with the name
-- "ab"; the names are in a memory with "ab" at 10.
use thunix.Base.{
  ℕ, zero, suc, ◌+◌, ◌*◌, ◌/◌, ◌%◌, ◌^◌, ◌<◌, ◌≡◌, refl, Bool, true, false, some, List, [], ◌∷◌,
  arith, ◌==◌, if◌then◌else◌, if-cases, length, Memory, load32, IsBytes, u32,
}
use thunix.Base.Int.{pos, ℤ}
use thunix.Strings.Scan.{CStr}
use thunix.Tfs.{Block, State, tfs_bread}
use thunix.Tfs.Inodes.{Inode}
use thunix.Tfs.Files.Backed.{Backed, IsCoherent}
use thunix.Tfs.Files.Examples.{drive, sbi}
use thunix.Tfs.Dirs.{tfs_find_entry}
use thunix.Tfs.Dirs.Backing.{byte_cache}
use thunix.Tfs.Dirs.Entries.{IsDirectory}
use thunix.Tfs.Inodes.{err_ptr}
use thunix.Tfs.Dirs.Add.{tfs_add_entry}
use thunix.Tfs.Dirs.Added.{Added, tfs_add_entry_lem}
use thunix.Tfs.Dirs.Remove.{tfs_iget}
use thunix.Tfs.Dirs.Readdir.{IsListed, Listed, tfs_readdir, tfs_readdir_lem}
use thunix.Tfs.Inodes.{tfs_bmap}
use thunix.Tfs.Dirs.Make.{eexist, tfs_mknod}
use thunix.Tfs.Dirs.Iget.{Looked, number_of, tfs_iget_lem, tfs_mknod_exists}
use thunix.Tfs.Dirs.Search.{IsName, Search, tfs_find_entry_lem}

abbrev dir_block : Block
dir_block x = if x == 0 then 3 else if x == 4 then 97 else if x == 5 then 98 else 0

abbrev disk : ℕ → Block
disk sector = if sector == 852 then dir_block else λ x. 0

abbrev contents : ℕ → Block
contents block = disk (u32 (u32 (block * 1) + 0 + 832))

reads : (b : ℕ) (buf : Block) → tfs_bread drive disk sbi b buf ≡ (pos 0, contents b)
unfolding tfs_bread
reads b buf = refl

dir_block-IsBytes : IsBytes dir_block
dir_block-IsBytes x = ground arith

contents-IsBytes : (b : ℕ) → IsBytes (contents b)
contents-IsBytes b =
    if-cases IsBytes (u32 (u32 (b * 1) + 0 + 832) == 852) (λ _. dir_block-IsBytes)
      (λ _ x. omega arith)

abbrev pub state : State drive
state = record {
  disk = disk;
  cache = record {
    entries = 2;
    block = λ p. p;
    prev = λ p. if p == 64 then 1 else if p == 1 then 0 else 64;
    next = λ p. if p == 64 then 0 else if p == 0 then 1 else 64;
    buffer = λ p x. 0;
  };
}

abbrev backed : Backed drive sbi contents
backed = byte_cache drive sbi disk contents reads contents-IsBytes

state-IsCoherent : IsCoherent drive sbi disk contents reads state
state-IsCoherent = record {
  order = 1 ∷ 0 ∷ [];
  ring = record {
    chain = (refl, refl, (refl, refl, (refl, refl)));
    apart = refl;
    distinct = (refl, (refl, tt));
    count = refl;
  };
  size = omega arith;
  coherent = (refl, (refl, tt));
  same_disk = refl;
}

abbrev pub directory : Inode
directory = record {
  i_mode = 2;
  i_size = 32;
  i_ino = 1;
  i_atime = 0;
  i_mtime = 0;
  i_ctime = 0;
  i_dtime = 0;
  i_data = λ index. if index == 0 then 20 else 0;
  i_flags = 0;
  i_blksize = 512;
}

abbrev name_of : ℕ → List ℕ
name_of k = if k == 0 then 97 ∷ 98 ∷ [] else []

directory-named :
    (k : ℕ) → k < 1 * 16 → CStr (contents (directory.i_data (k / 16))) (k % 16 * 32 + 4) (name_of k)
directory-named zero low = (refl, omega arith, (refl, omega arith, refl))
directory-named (suc k) low = rw (first, same, other) (ground arith)
  where
    first : suc k / 16 ≡ 0
    first = omega (arith, low)

    same : suc k % 16 ≡ suc k
    same = omega (arith, low)

    other : (suc k == 0) ≡ false
    other = ground arith

directory-IsDirectory : IsDirectory drive sbi contents backed directory 1 16 name_of
directory-IsDirectory = record {
  some_per = omega arith;
  some_blocks = omega arith;
  size = refl;
  first = λ e. omega (arith, e);
  others = λ i low high. absurd (omega (arith, low, high));
  end = omega arith;
  short = λ k low.
      if-cases (λ (l : List ℕ). length l < 28) (k == 0) (λ _. omega arith) (λ _. omega arith);
  named = directory-named;
}

abbrev text : Memory
text a = if a == 10 then 97 else if a == 11 then 98 else 0

text-IsName :
    IsName drive sbi contents backed
      (λ s inv. inv.1)
      directory
      1
      16
      name_of
      directory-IsDirectory
      40
      text
      10
      100
      (97 ∷ 98 ∷ [])
text-IsName = record {
  string = (refl, omega arith, (refl, omega arith, refl));
  is_bytes = λ a. ground arith;
  below = omega arith;
  some_name = omega arith;
  short = omega arith;
  enough = omega arith;
}

tfs_find_entry_lem_example :
    Search drive sbi contents backed
      (λ s inv. inv.1)
      directory
      1
      16
      name_of
      directory-IsDirectory
      40
      text
      10
      100
      (97 ∷ 98 ∷ [])
      0
      (tfs_find_entry drive sbi 40 text 10 100 20 state directory)
tfs_find_entry_lem_example =
    tfs_find_entry_lem drive sbi contents backed (λ s inv. inv.1) directory 1 16 name_of
      directory-IsDirectory 40 text 10 100 (97 ∷ 98 ∷ []) 20 state text-IsName (omega arith)
      (state-IsCoherent, λ p x. omega arith)

numbers-small :
    (k : ℕ)
    → k < 1 * 16
    → number_of drive sbi contents backed
        (λ s inv. inv.1)
        directory
        1
        16
        name_of
        directory-IsDirectory
        40
        text
        10
        100
        (97 ∷ 98 ∷ [])
        k
      < 2 ^ 31
unfolding load32
numbers-small k low = ground arith

tfs_iget_lem_example :
    Looked drive sbi contents backed
      (λ s inv. inv.1)
      directory
      1
      16
      name_of
      directory-IsDirectory
      40
      text
      10
      100
      (97 ∷ 98 ∷ [])
      (tfs_iget drive sbi sbi (λ x. 0) true 40 text 10 100 20 state directory)
tfs_iget_lem_example =
    tfs_iget_lem drive sbi contents backed (λ s inv. inv.1) directory 1 16 name_of
      directory-IsDirectory 40 text 10 100 (97 ∷ 98 ∷ []) (λ x. 0) 20 state text-IsName
      (omega arith) (omega arith, omega arith, omega arith) numbers-small
      (state-IsCoherent, λ p x. omega arith)

tfs_mknod_exists_example :
    (s' : State drive) × (tfs_mknod drive sbi sbi true 40 20 text 10 100 state directory 1
      ≡ some (err_ptr eexist, directory, s'))
    × backed.Inv s'
unfolding load32
tfs_mknod_exists_example =
    tfs_mknod_exists drive sbi contents backed (λ s inv. inv.1) directory 1 16 name_of
      directory-IsDirectory 40 text 10 100 (97 ∷ 98 ∷ []) sbi true 20 state 1 0 text-IsName
      (omega arith) (state-IsCoherent, λ p x. omega arith) (omega arith)
      ((λ e. omega (arith, e)), refl)

tfs_add_entry_lem_example :
    (out : ℤ × Bool × Inode × State drive) × (tfs_add_entry drive sbi sbi text 10 40 200 state
        directory 5 false
      ≡ some out)
    × Added drive sbi sbi contents backed text 10 (97 ∷ 98 ∷ []) directory 16 5 out
tfs_add_entry_lem_example =
    tfs_add_entry_lem drive sbi sbi contents backed text 10 (97 ∷ 98 ∷ []) 40 200 state directory 16
      5 false (refl, omega arith, (refl, omega arith, refl)) (omega arith) (omega arith)
      (omega arith) (record { some_per = omega arith; size = refl; last = refl }) (omega arith)
      (state-IsCoherent, λ p x. omega arith)

directory-IsListed : IsListed drive sbi contents backed directory 1 16
unfolding tfs_bmap
directory-IsListed = record {
  some_per = omega arith;
  size = refl;
  shift = refl;
  mapped = λ i low. ground (arith, low);
  end = refl;
  fits = omega arith;
}

tfs_readdir_lem_example :
    Listed drive sbi contents backed directory 1 16 0
      (tfs_readdir drive sbi (λ x. 0) true 20 state (record { inode = directory; offset = 0 * 32 }))
tfs_readdir_lem_example =
    tfs_readdir_lem drive sbi contents backed directory 1 16 (λ x. 0) 20 0 state directory-IsListed
      (omega arith) (omega arith) (state-IsCoherent, λ p x. omega arith)
