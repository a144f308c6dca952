-- ===== src/Tfs/Dirs/NamedEntry.antt =====
-- fs/tfs/dir.c, `tfs_add_entry`, and fs/tfs/inode.c, `tfs_mknod`: they read the bytes of the name, and
-- nothing else of the memory that it lies in.
use std.Path.{fun_ext}
use thunix.Base.{
  ℕ, zero, suc, ◌+◌, ◌-◌, ◌<◌, ◌≡◌, refl, inl, inr, Bool, false, ◌&&◌, Option, none, some, List, [],
  ◌∷◌, arith, ltb, leb, Bool-cases, length, Memory,
}
use thunix.Base.Int.{ℤ}
use thunix.Strings.{memset}
use thunix.Strings.Scan.{CStr, strlen_lem}
use thunix.Cache.{Ptr}
use thunix.Tfs.{Block, Floppy, SbInfo, State, get_block}
use thunix.Tfs.Alloc.{put, tfs_alloc_block}
use thunix.Tfs.Inodes.{tfs_iwrite, Inode, Result, err_ptr, ok}
use thunix.Tfs.Dirs.{Lookup, d_name, tfs_find_entry}
use thunix.Tfs.Dirs.Add.{
  set_data, as_u32, Slot, unread, free, no_block, fill_entry, add_at, add_to_new, add_block, add_in,
  tfs_add_entry,
}
use thunix.Tfs.Files.{save_bytes}
use thunix.Tfs.Dirs.Make.{entered, enter_inode, mknod_at, tfs_mknod}
use thunix.Tfs.Dirs.Named.{tfs_find_entry_same}

name_byte :
    (m m' : Memory) (name : ℕ) (xs : List ℕ) (i : ℕ)
    → CStr m name xs
    → CStr m' name xs
    → i < length xs
    → m (name + i) ≡ m' (name + i)
name_byte m m' name [] i c c' inside = absurd (omega (arith, inside))
name_byte m m' name (x ∷ xs) zero (e, nonzero, c) (e', nonzero', c') inside =
    rw (plus_zero, e, e') refl
  where
    plus_zero : name + 0 ≡ name
    plus_zero = omega arith
name_byte m m' name (x ∷ xs) (suc i) (e, nonzero, c) (e', nonzero', c') inside =
    rw (shifted) (name_byte m m' (name + 1) xs i c c' (omega (arith, inside)))
  where
    shifted : name + suc i ≡ name + 1 + i
    shifted = omega arith

module _ (dev : Floppy) (stray sbi : SbInfo) (m m' : Memory) (name : ℕ) (xs : List ℕ)
    (c : CStr m name xs) (c' : CStr m' name xs) where
  fill_entry_same :
      (buffer : Block) (de inode_nr : ℕ)
      → fill_entry m name buffer de inode_nr (length xs)
        ≡ fill_entry m' name buffer de inode_nr (length xs)
  unfolding fill_entry save_bytes
  fill_entry_same buffer de inode_nr = fun_ext (λ x. if_same x)
    where
      if_same :
          (x : ℕ)
          → fill_entry m name buffer de inode_nr (length xs) x
            ≡ fill_entry m' name buffer de inode_nr (length xs) x
      if_same x = elim (Bool-cases (leb (de + d_name) x && ltb x (de + d_name + length xs))) [
        | inl inside ↦
            rw (inside, name_byte m m' name xs (x - (de + d_name)) c c' (ground (arith, inside)))
              refl
        | inr outside ↦ rw outside refl
      ]

  add_at_same :
      (s : State dev) (dir : Inode) (block : ℕ) (p : Ptr) (de inode_nr : ℕ)
      → add_at dev stray sbi m name s dir block p de inode_nr (length xs)
        ≡ add_at dev stray sbi m' name s dir block p de inode_nr (length xs)
  unfolding add_at
  add_at_same s dir block p de inode_nr =
      rw (fill_entry_same (s.cache.buffer p) de inode_nr, add_at) refl

  add_to_new_same :
      (dir : Inode) (block inode_nr : ℕ) (dirty : Bool) (got : Option Ptr × State dev)
      → add_to_new dev stray sbi m name dir block inode_nr (length xs) dirty got
        ≡ add_to_new dev stray sbi m' name dir block inode_nr (length xs) dirty got
  unfolding add_to_new
  add_to_new_same dir block inode_nr dirty (none, s) = refl
  add_to_new_same dir block inode_nr dirty (some p, s) =
      add_at_same (put dev stray sbi s p (memset (s.cache.buffer p) 0 0 sbi.s_block_size)) dir block
        p 0 inode_nr

  add_block_same :
      (s : State dev) (dir : Inode) (index inode_nr : ℕ) (dirty : Bool)
      → add_block dev stray sbi m name s dir index inode_nr (length xs) dirty
        ≡ add_block dev stray sbi m' name s dir index inode_nr (length xs) dirty
  unfolding add_block
  add_block_same s dir index inode_nr dirty =
      let (res, s1) = tfs_alloc_block dev stray sbi s sbi.s_data_area in
      rw
        (add_to_new_same (set_data dir (index - 1) (as_u32 res)) (as_u32 res) inode_nr dirty
          (get_block dev sbi s1 (as_u32 res)))
        refl

  add_in_same :
      (dir : Inode) (inode_nr : ℕ) (dirty : Bool) (out : Slot × State dev)
      → add_in dev stray sbi m name dir inode_nr (length xs) dirty out
        ≡ add_in dev stray sbi m' name dir inode_nr (length xs) dirty out
  unfolding add_in
  add_in_same dir inode_nr dirty (unread, s) = refl
  add_in_same dir inode_nr dirty (free block p de, s) = add_at_same s dir block p de inode_nr
  add_in_same dir inode_nr dirty (no_block index, s) = add_block_same s dir index inode_nr false

  pub tfs_add_entry_same :
      (chars fuel : ℕ) (s : State dev) (dir : Inode) (inode_nr : ℕ) (dirty : Bool)
      → length xs < chars
      → tfs_add_entry dev stray sbi m name chars fuel s dir inode_nr dirty
        ≡ tfs_add_entry dev stray sbi m' name chars fuel s dir inode_nr dirty
  unfolding tfs_add_entry
  tfs_add_entry_same chars fuel s dir inode_nr dirty enough =
      rw
        (
          strlen_lem chars m name xs c enough,
          strlen_lem chars m' name xs c' enough,
          tfs_add_entry,
          add_block_same s dir 1 inode_nr dirty,
          fun_ext (add_in_same dir inode_nr dirty),
        )
        refl

  entered_same :
      (allocated : Bool) (chars fuel : ℕ) (inode : Inode) (out : ℤ × Bool × Inode × State dev)
      → entered dev stray sbi allocated chars fuel m inode out
        ≡ entered dev stray sbi allocated chars fuel m' inode out
  unfolding entered
  entered_same allocated chars fuel inode (err, dirty, dir, s) = refl

  enter_inode_same :
      (allocated : Bool) (chars fuel : ℕ) (dir : Inode) (made : Result Inode × State dev)
      → length xs < chars
      → enter_inode dev stray sbi allocated chars fuel m name dir made
        ≡ enter_inode dev stray sbi allocated chars fuel m' name dir made
  unfolding enter_inode
  enter_inode_same allocated chars fuel dir (err_ptr e, s) enough = refl
  enter_inode_same allocated chars fuel dir (ok inode, s) enough =
      let s1 = (tfs_iwrite dev sbi s inode).1 in
      rw
        (
          tfs_add_entry_same chars fuel s1 dir inode.i_ino false enough,
          fun_ext (entered_same allocated chars fuel inode),
        )
        refl

  mknod_at_same :
      (allocated : Bool) (chars fuel : ℕ) (dir : Inode) (mode : ℕ) (got : Lookup × State dev)
      → length xs < chars
      → mknod_at dev stray sbi allocated chars fuel m name dir mode got
        ≡ mknod_at dev stray sbi allocated chars fuel m' name dir mode got
  unfolding mknod_at
  mknod_at_same allocated chars fuel dir mode (Lookup.found p de, s) enough = refl
  mknod_at_same allocated chars fuel dir mode (Lookup.missing, s) enough =
      enter_inode_same allocated chars fuel dir _ enough
  mknod_at_same allocated chars fuel dir mode (Lookup.failed e, s) enough =
      enter_inode_same allocated chars fuel dir _ enough

  mknod_found_same :
      (allocated : Bool) (chars fuel : ℕ) (dir : Inode) (mode : ℕ)
      (got : Option (Lookup × State dev))
      → length xs < chars
      → (elim got [
        | none ↦ none
        | some at ↦ mknod_at dev stray sbi allocated chars fuel m name dir mode at
      ])
        ≡ (elim got [
          | none ↦ none
          | some at ↦ mknod_at dev stray sbi allocated chars fuel m' name dir mode at
        ])
  mknod_found_same allocated chars fuel dir mode none enough = refl
  mknod_found_same allocated chars fuel dir mode (some got) enough =
      mknod_at_same allocated chars fuel dir mode got enough

  pub tfs_mknod_same :
      (allocated : Bool) (chars fuel base : ℕ) (s : State dev) (dir : Inode) (mode : ℕ)
      → name + length xs < base
      → length xs < chars
      → tfs_mknod dev stray sbi allocated chars fuel m name base s dir mode
        ≡ tfs_mknod dev stray sbi allocated chars fuel m' name base s dir mode
  unfolding tfs_mknod
  tfs_mknod_same allocated chars fuel base s dir mode low enough =
      rw (tfs_find_entry_same dev sbi chars m m' name base xs c c' low fuel s dir, tfs_mknod)
        (mknod_found_same allocated chars fuel dir mode
          (tfs_find_entry dev sbi chars m' name base fuel s dir) enough)
