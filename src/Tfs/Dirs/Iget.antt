-- ===== src/Tfs/Dirs/Iget.antt =====
-- fs/tfs/inode.c, `tfs_iget` and `tfs_mknod`: a name looked up in a directory that the cache backs.
use mathlib.Core.Option
use thunix.Base.{
  ℕ, ◌*◌, ◌/◌, ◌%◌, ◌^◌, ◌<◌, ◌≡◌, refl, Bool, true, Option, some, List, arith, Memory, load32,
  IsBytes,
}
use thunix.Cache.{Ptr}
use thunix.Tfs.{Block, Floppy, SbInfo, State}
use thunix.Tfs.Inodes.{Inode, Result, err_ptr}
use thunix.Tfs.Inodes.Reads.{Read, IsTable, tfs_iget_by_inr-Read}
use thunix.Tfs.Files.Backed.{Backed}
use thunix.Tfs.Dirs.{Lookup, dir_entry_size, tfs_find_entry}
use thunix.Tfs.Dirs.Entries.{IsDirectory, Agrees}
use thunix.Tfs.Dirs.Search.{IsName, Matches, Search, tfs_find_entry_lem, entry_word}
use thunix.Tfs.Dirs.Remove.{enoent, with_entry, entry_inode, tfs_iget}
use thunix.Tfs.Dirs.Make.{eexist, mknod_at, tfs_mknod}

module _ (dev : Floppy) (sbi : SbInfo) (contents : ℕ → Block) (backed : Backed dev sbi contents)
    (bytes : (s : State dev) → backed.Inv s → (p : Ptr) → IsBytes (s.cache.buffer p))
    (inode : Inode) (blocks per : ℕ) (name_of : ℕ → List ℕ)
    (dir : IsDirectory dev sbi contents backed inode blocks per name_of) (chars : ℕ) (m : Memory)
    (name base : ℕ) (xs : List ℕ) where
  -- entry `k` has the name and is in use
  abbrev HasName : ℕ → Type 0
  HasName k =
      Matches dev sbi contents backed bytes inode blocks per name_of dir chars m name base xs k

  -- the inode number in entry `k`, as the disk holds it
  abbrev pub number_of : ℕ → ℕ
  number_of k = load32 (contents (inode.i_data (k / per))) (k % per * dir_entry_size)

  -- What `tfs_iget` comes to: the inode that the first entry with the name gives, or `-ENOENT`.
  pub data Looked : Option (Result Inode × State dev) → Type 0 where
    there :
        (k : ℕ) (out : Result Inode × State dev)
        → k < blocks * per
        → HasName k
        → ((x : ℕ) → x < k → HasName x → ⊥)
        → Read dev sbi contents backed (number_of k) out
        → Looked (some out)
    gone :
        (s : State dev)
        → backed.Inv s
        → ((x : ℕ) → x < blocks * per → HasName x → ⊥)
        → Looked (some (err_ptr enoent, s))

  Search-Looked :
      (null_data : Block) (out : Option (Lookup × State dev))
      → IsTable dev sbi contents backed
      → ((k : ℕ) → k < blocks * per → number_of k < 2 ^ 31)
      → Search dev sbi contents backed bytes inode blocks per name_of dir chars m name base xs 0 out
      → Looked (
          Option.map
            (with_entry dev sbi sbi null_data true chars m name base {A = Result Inode × State dev}
              (λ e s1. (err_ptr e, s1))
              (λ p de got. got))
            out)
  unfolding with_entry entry_inode
  Search-Looked null_data _ table numbers
        (Search.found_at k p s low inside match earlier inv agrees) =
      there k _ inside match (λ x below. earlier x (omega arith) below)
        (rw (← word k p s agrees) (
          tfs_iget_by_inr-Read dev sbi contents backed null_data s
            (load32 (s.cache.buffer p) (k % per * dir_entry_size)) table
            (omega (arith, match.0, word k p s agrees))
            (omega (arith, numbers k inside, word k p s agrees)) inv))
    where
      word :
          (k : ℕ) (p : Ptr) (s : State dev)
          → Agrees dev sbi contents backed (s.cache.buffer p) (contents (inode.i_data (k / per)))
          → load32 (s.cache.buffer p) (k % per * dir_entry_size) ≡ number_of k
      word k p s agrees =
          entry_word dev sbi contents backed bytes inode blocks per name_of dir chars m name base xs
            k (s.cache.buffer p) agrees
  Search-Looked null_data _ table numbers (Search.none_from s inv behind) =
      gone s inv (λ x below. behind x (omega arith) below)

  -- For a directory, a name and rounds as for `tfs_find_entry`, where inodes lie inside the blocks of
  -- the table, the numbers in the entries are below 2^31 and there is memory: `tfs_iget` gives the inode whose number stands in the first entry
  -- with the name, with the fields that the disk holds for it, or `-ENOENT` where no entry has it.
  pub tfs_iget_lem :
      (null_data : Block) (fuel : ℕ) (s : State dev)
      → IsName dev sbi contents backed bytes inode blocks per name_of dir chars m name base xs
      → blocks * per < fuel
      → IsTable dev sbi contents backed
      → ((k : ℕ) → k < blocks * per → number_of k < 2 ^ 31)
      → backed.Inv s
      → Looked (tfs_iget dev sbi sbi null_data true chars m name base fuel s inode)
  unfolding tfs_iget
  tfs_iget_lem null_data fuel s n enough table numbers inv =
      Search-Looked null_data _ table numbers (
        tfs_find_entry_lem dev sbi contents backed bytes inode blocks per name_of dir chars m name
          base xs fuel s n enough inv)

  Search-found :
      (k : ℕ) (out : Option (Lookup × State dev))
      → Search dev sbi contents backed bytes inode blocks per name_of dir chars m name base xs 0 out
      → k < blocks * per
      → HasName k
      → (p : Ptr) × (de : ℕ) × (s' : State dev) × (out ≡ some (Lookup.found p de, s'))
        × backed.Inv s'
  Search-found k _ (Search.found_at k' p s high inside match earlier inv agrees) low has =
      (p, _, s, refl, inv)
  Search-found k _ (Search.none_from s inv behind) low has = absurd (behind k (omega arith) low has)

  mknod_found :
      (stray : SbInfo) (allocated : Bool) (fuel : ℕ) (s s' : State dev) (mode de : ℕ) (p : Ptr)
      → tfs_find_entry dev sbi chars m name base fuel s inode ≡ some (Lookup.found p de, s')
      → tfs_mknod dev stray sbi allocated chars fuel m name base s inode mode
        ≡ some (err_ptr eexist, inode, s')
  unfolding tfs_mknod mknod_at
  mknod_found stray allocated fuel s s' mode de p e = rw (e, tfs_mknod) refl

  -- Where the directory has the name already, `tfs_mknod` returns `-EEXIST`, leaves the directory, and
  -- only reads through the cache.
  pub tfs_mknod_exists :
      (stray : SbInfo) (allocated : Bool) (fuel : ℕ) (s : State dev) (mode k : ℕ)
      → IsName dev sbi contents backed bytes inode blocks per name_of dir chars m name base xs
      → blocks * per < fuel
      → backed.Inv s
      → k < blocks * per
      → HasName k
      → (s' : State dev) × (tfs_mknod dev stray sbi allocated chars fuel m name base s inode mode
          ≡ some (err_ptr eexist, inode, s'))
        × backed.Inv s'
  tfs_mknod_exists stray allocated fuel s mode k n enough inv low has =
      let (p, de, s', e, inv') =
        Search-found k _
          (tfs_find_entry_lem dev sbi contents backed bytes inode blocks per name_of dir chars m
            name base xs fuel s n enough inv)
          low has in
      (s', mknod_found stray allocated fuel s s' mode de p e, inv')
