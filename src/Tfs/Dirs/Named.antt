-- ===== src/Tfs/Dirs/Named.antt =====
-- fs/tfs/dir.c and fs/tfs/inode.c: the operations on a name read its bytes, and nothing else of the
-- memory that it lies in.
use std.Path.{fun_ext}
use thunix.Base.{
  ℕ, zero, suc, ◌+◌, ◌≤◌, ◌<◌, ◌≡◌, refl, ap, ◌∙◌, Bool, Option, none, some, List, arith, ◌==◌,
  if◌then◌else◌, length, Memory, load32,
}
use thunix.Base.Int.{pos}
use thunix.Strings.{strlen}
use thunix.Strings.Scan.{CStr, CStr-moved}
use thunix.Strings.Same.{strlen_same, strlen_from, strncmp_same}
use thunix.Tfs.{Block, Floppy, SbInfo, State}
use thunix.Tfs.Inodes.{Inode, Result, err_ptr}
use thunix.Tfs.Dirs.{
  At, Lookup, overlay, d_name, compare_names, tfs_match_entry, find_from, tfs_find_entry, start,
  next_entry, dir_entry_size, ended, entry,
}
use thunix.Tfs.Dirs.Overlay.{overlay_below}
use thunix.Tfs.Dirs.Remove.{with_entry, entry_inode, tfs_iget}

overlay_above :
    (m m' : Memory) (base : ℕ) (block : Block) (x : ℕ)
    → base ≤ x
    → overlay m base block x ≡ overlay m' base block x
overlay_above m m' base block x high = ground (arith, high)

same_names :
    (chars : ℕ) (m m' : Memory) (name de_name : ℕ) (xs : List ℕ) (l : ℕ) (de_len : Option ℕ)
    → CStr m name xs
    → CStr m' name xs
    → ((x : ℕ) → de_name ≤ x → m x ≡ m' x)
    → (elim de_len [ none ↦ none | some dl ↦ compare_names chars m name de_name l dl ])
      ≡ (elim de_len [ none ↦ none | some dl ↦ compare_names chars m' name de_name l dl ])
unfolding compare_names
same_names chars m m' name de_name xs l none c c' same = refl
same_names chars m m' name de_name xs l (some dl) c c' same =
    rw (strncmp_same chars m m' name de_name (pos l) xs c c' same) refl

compared :
    (chars : ℕ) (m m' : Memory) (name de_name : ℕ) (xs : List ℕ) (len : Option ℕ)
    → CStr m name xs
    → CStr m' name xs
    → ((x : ℕ) → de_name ≤ x → m x ≡ m' x)
    → (elim len [
      | none ↦ none
      | some l ↦ elim (strlen chars m de_name) [
        | none ↦ none
        | some dl ↦ compare_names chars m name de_name l dl
      ]
    ])
      ≡ (elim len [
        | none ↦ none
        | some l ↦ elim (strlen chars m' de_name) [
          | none ↦ none
          | some dl ↦ compare_names chars m' name de_name l dl
        ]
      ])
compared chars m m' name de_name xs none c c' same = refl
compared chars m m' name de_name xs (some l) c c' same =
    rw (strlen_from chars m m' de_name same)
      (same_names chars m m' name de_name xs l (strlen chars m' de_name) c c' same)

match_same :
    (chars : ℕ) (m m' : Memory) (name de : ℕ) (xs : List ℕ)
    → CStr m name xs
    → CStr m' name xs
    → ((x : ℕ) → de ≤ x → m x ≡ m' x)
    → tfs_match_entry chars m name de ≡ tfs_match_entry chars m' name de
unfolding tfs_match_entry load32
match_same chars m m' name de xs c c' same =
    rw
      (
        same de (omega arith),
        same (de + 1) (omega arith),
        same (de + 2) (omega arith),
        same (de + 3) (omega arith),
        strlen_same chars m m' name xs c c',
        compared chars m m' name (de + d_name) xs (strlen chars m' name) c c'
            (λ x from. same x (omega (arith, from))),
      )
      refl

module _ (dev : Floppy) (sbi : SbInfo) (chars : ℕ) (m m' : Memory) (name base : ℕ) (xs : List ℕ)
    (c : CStr m name xs) (c' : CStr m' name xs) (low : name + length xs < base) where
  overlay-CStr : (m : Memory) (block : Block) → CStr m name xs → CStr (overlay m base block) name xs
  overlay-CStr m block =
      CStr-moved m (overlay m base block) name name xs
        (λ i inside. overlay_below m base block (name + i) (omega (arith, low, inside)))

  find_from_same :
      (fuel : ℕ) (inode : Inode) (at : At dev sbi)
      → find_from dev sbi chars m name base fuel inode at
        ≡ find_from dev sbi chars m' name base fuel inode at
  unfolding find_from
  find_from_same zero inode at = refl
  find_from_same (suc fuel) inode (ended res s) = refl
  find_from_same (suc fuel) inode (entry s index p de) =
      ap
        (λ (r : Option (Lookup × State dev)).
          if load32 (s.cache.buffer p) de == 0
          then r
          else elim (tfs_match_entry chars (overlay m base (s.cache.buffer p)) name (base + de)) [
            | none ↦ none
            | some matches ↦ if matches then some (Lookup.found p de, s) else r
          ])
        (find_from_same fuel inode (next_entry dev sbi inode s index p (de + dir_entry_size)))
      ∙ ap
          (λ (got : Option Bool).
            if load32 (s.cache.buffer p) de == 0
            then find_from dev sbi chars m' name base fuel inode
                (next_entry dev sbi inode s index p (de + dir_entry_size))
            else elim got [
              | none ↦ none
              | some matches ↦
                  if matches
                  then some (Lookup.found p de, s)
                  else find_from dev sbi chars m' name base fuel inode
                      (next_entry dev sbi inode s index p (de + dir_entry_size))
            ])
          (match_same chars (overlay m base (s.cache.buffer p)) (overlay m' base (s.cache.buffer p))
            name (base + de) xs (overlay-CStr m (s.cache.buffer p) c)
            (overlay-CStr m' (s.cache.buffer p) c')
            (λ x from. overlay_above m m' base (s.cache.buffer p) x (omega (arith, from))))

  pub tfs_find_entry_same :
      (fuel : ℕ) (s : State dev) (dir : Inode)
      → tfs_find_entry dev sbi chars m name base fuel s dir
        ≡ tfs_find_entry dev sbi chars m' name base fuel s dir
  unfolding tfs_find_entry
  tfs_find_entry_same fuel s dir = find_from_same fuel dir (start dev sbi dir s)

  with_entry_same :
      (stray : SbInfo) (null_data : Block) (allocated : Bool) (got : Lookup × State dev)
      → with_entry dev stray sbi null_data allocated chars m name base
          {A = Result Inode × State dev}
          (λ e s1. (err_ptr e, s1))
          (λ p de out. out)
          got
        ≡ with_entry dev stray sbi null_data allocated chars m' name base
            {A = Result Inode × State dev}
            (λ e s1. (err_ptr e, s1))
            (λ p de out. out)
            got
  unfolding with_entry entry_inode
  with_entry_same stray null_data allocated (Lookup.missing, s) = refl
  with_entry_same stray null_data allocated (Lookup.failed e, s) = refl
  with_entry_same stray null_data allocated (Lookup.found p de, s) = refl

  pub tfs_iget_same :
      (stray : SbInfo) (null_data : Block) (allocated : Bool) (fuel : ℕ) (s : State dev)
      (dir : Inode)
      → tfs_iget dev stray sbi null_data allocated chars m name base fuel s dir
        ≡ tfs_iget dev stray sbi null_data allocated chars m' name base fuel s dir
  unfolding tfs_iget
  tfs_iget_same stray null_data allocated fuel s dir =
      rw (tfs_find_entry_same fuel s dir, fun_ext (with_entry_same stray null_data allocated)) refl
