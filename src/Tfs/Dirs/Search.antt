-- ===== src/Tfs/Dirs/Search.antt =====
-- fs/tfs/dir.c, `tfs_find_entry`: which entry it finds.
use thunix.Base.{
  ℕ, zero, suc, ◌+◌, ◌-◌, ◌*◌, ◌/◌, ◌%◌, ◌≤◌, ◌<◌, ◌≡◌, refl, sym, ap, ◌∙◌, ◌≢◌, ◌↔◌, Bool, true,
  Option, some, List, arith, leb, ◌==◌, ==_iff, if-cases, nowhere_from, length, Memory, load32,
  IsBytes,
}
use native.Mathlib.Nat.{mod-lt}
use thunix.Strings.Scan.{CStr, CStr-moved}
use thunix.Cache.{Ptr}
use thunix.Tfs.{Block, Floppy, SbInfo, State}
use thunix.Tfs.Inodes.{Inode}
use thunix.Tfs.Files.Backed.{Backed}
use thunix.Tfs.Dirs.{
  At, Lookup, dir_entry_size, d_name, tfs_name_len, next_entry, find_from, tfs_find_entry,
  tfs_match_entry, overlay,
}
use thunix.Tfs.Dirs.Overlay.{overlay_at, overlay_below, load32-same}
use thunix.Tfs.Dirs.Match.{tfs_match_entry_lem}
use thunix.Tfs.Dirs.Entries.{IsDirectory, Agrees, Stands, start-Stands, next_entry-Stands}

module _ (dev : Floppy) (sbi : SbInfo) (contents : ℕ → Block) (backed : Backed dev sbi contents)
    (bytes : (s : State dev) → backed.Inv s → (p : Ptr) → IsBytes (s.cache.buffer p))
    (inode : Inode) (blocks per : ℕ) (name_of : ℕ → List ℕ)
    (dir : IsDirectory dev sbi contents backed inode blocks per name_of) (chars : ℕ) (m : Memory)
    (name base : ℕ) (xs : List ℕ) where
  -- the name `xs`, and enough rounds for it and for each name of the directory
  pub record IsName : Type 0 where
    pub string : CStr m name xs
    pub is_bytes : IsBytes m
    pub below : name + length xs < base
    pub some_name : 0 < length xs
    pub short : length xs < tfs_name_len
    pub enough : tfs_name_len < chars

  -- entry `k` is in use and has the name
  abbrev pub Matches : ℕ → Type 0
  Matches k =
      (load32 (contents (inode.i_data (k / per))) (k % per * dir_entry_size) ≢ 0) × (xs ≡ name_of k)

  -- The first entry from `k` on that matches, in a buffer that holds its block, or none.
  pub data Search (k : ℕ) : Option (Lookup × State dev) → Type 0 where
    found_at :
        (k' : ℕ) (p : Ptr) (s : State dev)
        → k ≤ k'
        → k' < blocks * per
        → Matches k'
        → ((x : ℕ) → k ≤ x → x < k' → Matches x → ⊥)
        → backed.Inv s
        → Agrees dev sbi contents backed (s.cache.buffer p) (contents (inode.i_data (k' / per)))
        → Search k (some (Lookup.found p (k' % per * dir_entry_size), s))
    none_from :
        (s : State dev)
        → backed.Inv s
        → ((x : ℕ) → k ≤ x → x < blocks * per → Matches x → ⊥)
        → Search k (some (Lookup.missing, s))

  Search-skip :
      (k : ℕ) (out : Option (Lookup × State dev))
      → (Matches k → ⊥)
      → Search (k + 1) out
      → Search k out
  Search-skip k _ here (found_at k' p s high low match earlier inv agrees) =
      found_at k' p s (omega (arith, high)) low match (nowhere_from Matches k k' here earlier) inv
        agrees
  Search-skip k _ here (none_from s inv behind) =
      none_from s inv (nowhere_from Matches k (blocks * per) here behind)

  -- an entry lies inside its block
  inside_block : (k : ℕ) → k % per * dir_entry_size + dir_entry_size ≤ sbi.s_block_size
  inside_block k = omega (arith, dir.size, mod-lt k dir.some_per)

  pub entry_word :
      (k : ℕ) (buffer : Block)
      → Agrees dev sbi contents backed buffer (contents (inode.i_data (k / per)))
      → load32 buffer (k % per * dir_entry_size)
        ≡ load32 (contents (inode.i_data (k / per))) (k % per * dir_entry_size)
  entry_word k buffer agrees =
      load32-same (contents (inode.i_data (k / per))) buffer (k % per * dir_entry_size)
        (k % per * dir_entry_size) (λ i low. agrees _ (omega (arith, inside_block k, low)))

  overlay-IsBytes : (buffer : Block) → IsName → IsBytes buffer → IsBytes (overlay m base buffer)
  overlay-IsBytes buffer n ok x =
      if-cases (λ (b : ℕ). b < 256) (leb base x) (λ _. ok (x - base)) (λ _. n.is_bytes x)

  entry-Matches :
      (k : ℕ) (buffer : Block)
      → IsName
      → k < blocks * per
      → IsBytes buffer
      → Agrees dev sbi contents backed buffer (contents (inode.i_data (k / per)))
      → (b : Bool) × (tfs_match_entry chars
            (overlay m base buffer)
            name
            (base + k % per * dir_entry_size)
          ≡ some b)
        × ((b ≡ true) ↔ Matches k)
  entry-Matches k buffer n low ok agrees =
      let (b, is, iff) =
        tfs_match_entry_lem chars (overlay m base buffer) name (base + de) xs (name_of k)
          (overlay-IsBytes buffer n ok) its_name entry_name n.some_name n.short
          (omega (arith, n.short, n.enough)) (omega (arith, dir.short k low, n.enough)) in
      (b, is, rw (← word) iff)
    where
      de : ℕ
      de = k % per * dir_entry_size

      its_name : CStr (overlay m base buffer) name xs
      its_name =
          CStr-moved m (overlay m base buffer) name name xs
            (λ i h. overlay_below m base buffer (name + i) (omega (arith, h, n.below))) n.string

      entry_name : CStr (overlay m base buffer) (base + de + d_name) (name_of k)
      entry_name =
          CStr-moved (contents (inode.i_data (k / per))) (overlay m base buffer) (de + d_name)
            (base + de + d_name) (name_of k)
            (λ i h.
              ap (overlay m base buffer) (omega arith)
              ∙ overlay_at m base buffer (de + d_name + i)
              ∙ agrees (de + d_name + i) (omega (arith, inside_block k, dir.short k low, h)))
            (dir.named k low)

      word :
          load32 (overlay m base buffer) (base + de) ≡ load32 (contents (inode.i_data (k / per))) de
      word =
          load32-same (contents (inode.i_data (k / per))) (overlay m base buffer) de (base + de)
            (λ i h.
              ap (overlay m base buffer) (omega arith)
              ∙ overlay_at m base buffer (de + i)
              ∙ agrees (de + i) (omega (arith, inside_block k, h)))

  -- one round of the loop, at an entry
  step-Search :
      (k fuel index : ℕ) (p : Ptr) (s : State dev)
      → IsName
      → k < blocks * per
      → backed.Inv s
      → Agrees dev sbi contents backed (s.cache.buffer p) (contents (inode.i_data (k / per)))
      → Search (k + 1) (
          find_from dev sbi chars m name base fuel inode
            (next_entry dev sbi inode s index p (k % per * dir_entry_size + dir_entry_size)))
      → Search k (
          find_from dev sbi chars m name base
            (suc fuel)
            inode
            (At.entry s index p (k % per * dir_entry_size)))
  unfolding find_from
  step-Search k fuel index p s n low inv agrees rest =
      let (b, is, iff) = entry-Matches k (s.cache.buffer p) n low (bytes s inv p) agrees in
      if-cases (Search k) (load32 (s.cache.buffer p) (k % per * dir_entry_size) == 0)
        (λ free.
          Search-skip k _
            (λ match. match.0 (sym (entry_word k (s.cache.buffer p) agrees) ∙ (==_iff _ 0).0 free))
            rest)
        (λ used. rw is (
          if-cases (Search k) b
            (λ yes.
              found_at k p s (omega arith) low (iff.0 yes)
                (λ x from below. absurd (omega (arith, from, below))) inv agrees)
            (λ differs.
              Search-skip k _ (λ match. absurd (ground (arith, differs, iff.1 match))) rest)))

  over-Search :
      (k fuel : ℕ) (s : State dev)
      → backed.Inv s
      → k ≡ blocks * per
      → Search k (find_from dev sbi chars m name base (suc fuel) inode (At.ended Lookup.missing s))
  unfolding find_from
  over-Search k fuel s inv e =
      none_from s inv (λ x from below. absurd (omega (arith, e, from, below)))

  find_from-Search :
      (fuel k : ℕ) (at : At dev sbi)
      → IsName
      → k ≤ blocks * per
      → blocks * per - k < fuel
      → Stands dev sbi contents backed inode blocks per name_of dir k at
      → Search k (find_from dev sbi chars m name base fuel inode at)
  find_from-Search zero k at n high enough st = absurd (omega (arith, enough))
  find_from-Search (suc fuel) k _ n high enough (Stands.over s inv e) = over-Search k fuel s inv e
  find_from-Search (suc fuel) k _ n high enough
        (Stands.stands s index p de inv at_index at_de agrees low) =
      rw at_de (
        step-Search k fuel index p s n low inv agrees (
          find_from-Search fuel (k + 1) _ n (omega (arith, low)) (omega (arith, enough, low)) (
            next_entry-Stands dev sbi contents backed inode blocks per name_of dir k s index p
              (k % per * dir_entry_size) inv at_index refl agrees low)))

  -- In a directory that the cache backs, whose buffers hold bytes, with room in each entry for the end
  -- of its name, and for a name of 1 to 27 bytes below the block, with more rounds than there are
  -- entries: `tfs_find_entry` ends, and finds the first entry in use that has the name, in a buffer
  -- that holds its block, or returns NULL where no entry has it.
  pub tfs_find_entry_lem :
      (fuel : ℕ) (s : State dev)
      → IsName
      → blocks * per < fuel
      → backed.Inv s
      → Search 0 (tfs_find_entry dev sbi chars m name base fuel s inode)
  unfolding tfs_find_entry
  tfs_find_entry_lem fuel s n enough inv =
      find_from-Search fuel 0 _ n (omega arith) (omega (arith, enough))
        (start-Stands dev sbi contents backed inode blocks per name_of dir s inv)
