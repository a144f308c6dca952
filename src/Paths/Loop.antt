-- ===== src/Paths/Loop.antt =====
-- fs/namei.c, `namei`: its loop, and the names of a path looked up one after the other.
use mathlib.Core.Option
use thunix.Base.{
  ℕ, zero, suc, ◌+◌, ◌≤◌, ◌<◌, ◌≡◌, refl, sym, ap, ◌∙◌, inl, inr, Bool, false, ◌&&◌, Option, none,
  some, List, [], ◌∷◌, arith, ◌==◌, if◌then◌else◌, Bool-cases, length, length-append, Memory, store,
}
use thunix.Base.Int.{◌-ℤ◌, ℤ}
use thunix.Strings.Scan.{CStr-behind, CStr}
use thunix.Tfs.{is_zero}
use thunix.Tfs.Inodes.{Inode, Result, err_ptr, ok}
use thunix.Tfs.Dirs.Remove.{enoent, tfs_file}
use thunix.Paths.{
  InodeOperations, Walk, max_name_len, skip_slashes, take_part, looked_up, part_taken, end_part,
  walk_from, write_made, create_missing, conclude,
}
use thunix.Paths.Parts.{
  IsPart, IsPath, Apart, named, path_text, slashes, put_bytes, put_bytes-CStr, take_part_lem,
  skip_slashes_lem, path_text-Starts, slashes-Ends, length-slashes, CStr-slashes, CStr-kept,
}

-- the names that are looked up: the last one is not where its parent is wanted
abbrev pub targets : Bool → List (List ℕ × ℕ) → List (List ℕ)
targets parent_only [] = []
targets parent_only ((c, k) ∷ []) = if parent_only then [] else c ∷ []
targets parent_only ((c, k) ∷ p ∷ ps) = c ∷ targets parent_only (p ∷ ps)

-- an inode arrived at, or a name whose search in a directory gave an error
pub data Outcome (S : Type 0) : Type 0 where
  arrived : Inode → S → Outcome S
  stopped : List ℕ → ℤ → Inode → S → Outcome S

module _ {S : Type 0} (ops : InodeOperations S) (part : ℕ) where
  -- the operations read the name, and nothing else of the memory
  pub record IsByName : Type 0 where
    pub iget_same :
        (m : Memory) (c : List ℕ) (s : S) (dir : Inode)
        → IsPart c
        → length c ≤ max_name_len
        → CStr m part c
        → ops.iget m part s dir ≡ ops.iget (named part c) part s dir
    pub mknod_same :
        (m : Memory) (c : List ℕ) (s : S) (dir : Inode) (mode : ℕ)
        → IsPart c
        → length c ≤ max_name_len
        → CStr m part c
        → ops.mknod m part s dir mode ≡ ops.mknod (named part c) part s dir mode

  pub then_find :
      List ℕ
      → Inode
      → (Inode → S → Option (Outcome S))
      → Option (Result Inode × S)
      → Option (Outcome S)
  then_find c dir next none = none
  then_find c dir next (some (err_ptr e, s)) = some (stopped c e dir s)
  then_find c dir next (some (ok inode, s)) = next inode s

  -- each name is looked up in the directory that the one before it is
  unfoldable pub find_all : List (List ℕ) → Inode → S → Option (Outcome S)
  find_all [] dir s = some (arrived dir s)
  find_all (c ∷ cs) dir s =
      then_find c dir (λ inode s1. find_all cs inode s1) (ops.iget (named part c) part s dir)

  -- a name that is not there is made where that is wanted
  unfoldable pub make_missing : Bool → Option (Outcome S) → Option (Result Inode × S)
  make_missing create none = none
  make_missing create (some (arrived inode s)) = some (ok inode, s)
  make_missing create (some (stopped c e dir s)) =
      if is_zero (e -ℤ enoent) && create
      then Option.map (write_made ops part) (ops.mknod (named part c) part s dir tfs_file)
      else some (err_ptr e, s)

pub not_empty : (n : ℕ) → (suc n == 0) ≡ false
not_empty n = ground arith

module _ {S : Type 0} (ops : InodeOperations S) (chars part : ℕ) (parent_only create : Bool)
    (by_name : IsByName ops part) where
  unfoldable pub Walked : ℕ → Walk S → List (List ℕ) → Inode → S → Type 0
  Walked fuel at cs dir s =
      conclude ops part create (walk_from ops chars part parent_only fuel at)
      ≡ make_missing ops part create (find_all ops part cs dir s)

  -- behind the search for a name
  looked_up_last :
      (fuel : ℕ) (m : Memory) (next : ℕ) (c : List ℕ) (dir : Inode)
      (got : Option (Result Inode × S))
      → IsPart c
      → length c ≤ max_name_len
      → CStr m part c
      → m next ≡ 0
      → conclude ops part create (
          walk_from ops chars part parent_only
            (suc fuel)
            (looked_up ops chars part parent_only m next dir got))
        ≡ make_missing ops part create
            (then_find ops part c dir (λ inode s1. some (arrived inode s1)) got)
  unfolding looked_up walk_from conclude create_missing then_find make_missing
  looked_up_last fuel m next c dir none is short text end = refl
  looked_up_last fuel m next c dir (some (err_ptr e, s)) is short text end =
      rw (by_name.mknod_same m c s dir tfs_file is short text) refl
  looked_up_last fuel m next c dir (some (ok inode, s)) is short text end = rw end refl

  looked_up_next :
      (fuel : ℕ) (m : Memory) (next : ℕ) (c : List ℕ) (cs : List (List ℕ)) (dir : Inode)
      (got : Option (Result Inode × S))
      → IsPart c
      → length c ≤ max_name_len
      → CStr m part c
      → (m next == 0) ≡ false
      → ((inode : Inode) (s : S) → Walked (suc fuel) (Walk.going m next inode s) cs inode s)
      → conclude ops part create (
          walk_from ops chars part parent_only
            (suc fuel)
            (looked_up ops chars part parent_only m next dir got))
        ≡ make_missing ops part create
            (then_find ops part c dir (λ inode s1. find_all ops part cs inode s1) got)
  unfolding looked_up walk_from conclude create_missing then_find make_missing Walked
  looked_up_next fuel m next c cs dir none is short text goes rest = refl
  looked_up_next fuel m next c cs dir (some (err_ptr e, s)) is short text goes rest =
      rw (by_name.mknod_same m c s dir tfs_file is short text) refl
  looked_up_next fuel m next c cs dir (some (ok inode, s)) is short text goes rest =
      rw goes (rest inode s)

  -- one round of the loop, where the part has been copied and the slashes behind it passed
  round :
      (fuel : ℕ) (m : Memory) (name k : ℕ) (c : List ℕ) (dir : Inode) (s : S)
      → (m name == 0) ≡ false
      → take_part chars m part name part
        ≡ some (some (put_bytes m part c, name + length c, part + length c))
      → skip_slashes chars (store (put_bytes m part c) (part + length c) 0) (name + length c)
        ≡ some (name + length c + k)
      → walk_from ops chars part parent_only (suc fuel) (Walk.going m name dir s)
        ≡ walk_from ops chars part parent_only fuel (
            part_taken ops chars part parent_only
              (store (put_bytes m part c) (part + length c) 0)
              dir
              s
              (some (name + length c + k)))
  unfolding walk_from end_part store
  round fuel m name k c dir s goes taken passed = rw (goes, taken, end_part, passed) refl

  part_taken_last :
      (fuel : ℕ) (m : Memory) (next : ℕ) (c : List ℕ) (dir : Inode) (s : S)
      → IsPart c
      → length c ≤ max_name_len
      → CStr m part c
      → m next ≡ 0
      → conclude ops part create (
          walk_from ops chars part parent_only
            (suc fuel)
            (part_taken ops chars part parent_only m dir s (some next)))
        ≡ make_missing ops part create
            (find_all ops part (if parent_only then [] else c ∷ []) dir s)
  unfolding part_taken walk_from conclude create_missing find_all make_missing
  part_taken_last fuel m next c dir s is short text end = elim (Bool-cases parent_only) [
    | inl only ↦ rw (end, only) refl
    | inr not_only ↦
        let goes_on : part_taken ops chars part parent_only m dir s (some next)
            ≡ looked_up ops chars part parent_only m next dir (ops.iget m part s dir) =
          rw (end, not_only) refl in
        let target : find_all ops part (if parent_only then [] else c ∷ []) dir s
            ≡ find_all ops part (c ∷ []) dir s =
          rw not_only refl in
        rw (goes_on, target, sym (by_name.iget_same m c s dir is short text))
          (looked_up_last fuel m next c dir (ops.iget m part s dir) is short text end)
  ]

  part_taken_next :
      (fuel : ℕ) (m : Memory) (next : ℕ) (c : List ℕ) (cs : List (List ℕ)) (dir : Inode) (s : S)
      → IsPart c
      → length c ≤ max_name_len
      → CStr m part c
      → (m next == 0) ≡ false
      → ((inode : Inode) (s : S) → Walked (suc fuel) (Walk.going m next inode s) cs inode s)
      → conclude ops part create (
          walk_from ops chars part parent_only
            (suc fuel)
            (part_taken ops chars part parent_only m dir s (some next)))
        ≡ make_missing ops part create (find_all ops part (c ∷ cs) dir s)
  unfolding part_taken find_all
  part_taken_next fuel m next c cs dir s is short text goes rest =
      rw (goes, sym (by_name.iget_same m c s dir is short text))
        (looked_up_next fuel m next c cs dir (ops.iget m part s dir) is short text goes rest)

  -- the memory behind the copy of a part
  abbrev after : Memory → List ℕ → Memory
  after m c = store (put_bytes m part c) (part + length c) 0

  sizes :
      (c : List ℕ) (k : ℕ) (ps : List (List ℕ × ℕ))
      → length (path_text ((c, k) ∷ ps)) ≡ length c + (k + length (path_text ps))
  sizes c k ps =
      length-append c (slashes k (path_text ps))
      ∙ ap (λ n. length c + n) (length-slashes k (path_text ps))

  rest_slashes :
      (m : Memory) (name : ℕ) (c : List ℕ) (k : ℕ) (ps : List (List ℕ × ℕ))
      → CStr m name (path_text ((c, k) ∷ ps))
      → IsPath ((c, k) ∷ ps)
      → Apart part name (length (path_text ((c, k) ∷ ps)))
      → CStr (after m c) (name + length c) (slashes k (path_text ps))
  rest_slashes m name c k ps text (is, some_byte, short, between, more) apart =
      CStr-behind c (slashes k (path_text ps)) (after m c) name
        (CStr-kept m part name c (path_text ((c, k) ∷ ps)) short apart text)

  rest_text :
      (m : Memory) (name : ℕ) (c : List ℕ) (k : ℕ) (ps : List (List ℕ × ℕ))
      → CStr m name (path_text ((c, k) ∷ ps))
      → IsPath ((c, k) ∷ ps)
      → Apart part name (length (path_text ((c, k) ∷ ps)))
      → CStr (after m c) (name + length c + k) (path_text ps)
  rest_text m name c k ps text path apart =
      CStr-slashes k (path_text ps) (after m c) (name + length c)
        (rest_slashes m name c k ps text path apart)

  first_round :
      (fuel : ℕ) (m : Memory) (name : ℕ) (c : List ℕ) (k : ℕ) (ps : List (List ℕ × ℕ)) (dir : Inode)
      (s : S)
      → CStr m name (path_text ((c, k) ∷ ps))
      → IsPath ((c, k) ∷ ps)
      → length (path_text ((c, k) ∷ ps)) < chars
      → Apart part name (length (path_text ((c, k) ∷ ps)))
      → walk_from ops chars part parent_only (suc fuel) (Walk.going m name dir s)
        ≡ walk_from ops chars part parent_only fuel
            (part_taken ops chars part parent_only (after m c) dir s (some (name + length c + k)))
  first_round fuel m name c k ps dir s text path long apart =
      let (is, some_byte, short, between, more) = path in
      let behind = rest_text m name c k ps text path apart in
      round fuel m name k c dir s
        ((path_text-Starts ((c, k) ∷ ps) m name text path).1 ∙ not_empty (length ps))
        (take_part_lem c (slashes k (path_text ps)) chars m part name part text is
          (slashes-Ends k ps between) (omega arith) (omega (arith, short)) apart
          (omega (arith, long, sizes c k ps)))
        (skip_slashes_lem k chars (after m c) (name + length c) (path_text ps)
          (rest_slashes m name c k ps text path apart)
          (path_text-Starts ps (after m c) (name + length c + k) behind more).0
          (omega (arith, long, sizes c k ps)))

  pub walk_lem :
      (ps : List (List ℕ × ℕ)) (fuel : ℕ) (m : Memory) (name : ℕ) (dir : Inode) (s : S)
      → CStr m name (path_text ps)
      → IsPath ps
      → length ps < fuel
      → length (path_text ps) < chars
      → Apart part name (length (path_text ps))
      → Walked fuel (Walk.going m name dir s) (targets parent_only ps) dir s
  unfolding Walked walk_from conclude create_missing find_all make_missing
  walk_lem [] zero m name dir s text path enough long apart = absurd (omega (arith, enough))
  walk_lem [] (suc fuel) m name dir s text path enough long apart = rw (text, walk_from) refl
  walk_lem (p ∷ ps) zero m name dir s text path enough long apart = absurd (omega (arith, enough))
  walk_lem (p ∷ ps) (suc zero) m name dir s text path enough long apart =
      absurd (omega (arith, enough))
  walk_lem ((c, k) ∷ []) (suc (suc fuel)) m name dir s text path enough long apart =
      ap (conclude ops part create)
        (first_round (suc fuel) m name c k [] dir s text path long apart)
      ∙ part_taken_last fuel (after m c) (name + length c + k) c dir s path.0 path.2
          (put_bytes-CStr c m part (part + length c) path.0 refl)
          (rest_text m name c k [] text path apart)
  walk_lem ((c, k) ∷ p ∷ ps) (suc (suc fuel)) m name dir s text path enough long apart =
      ap (conclude ops part create)
        (first_round (suc fuel) m name c k (p ∷ ps) dir s text path long apart)
      ∙ part_taken_next fuel (after m c) (name + length c + k) c (targets parent_only (p ∷ ps)) dir
          s path.0 path.2 (put_bytes-CStr c m part (part + length c) path.0 refl)
          ((path_text-Starts (p ∷ ps) (after m c) (name + length c + k)
              (rest_text m name c k (p ∷ ps) text path apart) path.4).1
            ∙ not_empty (length ps))
          (λ inode s1.
            walk_lem (p ∷ ps) (suc fuel) (after m c) (name + length c + k) inode s1
              (rest_text m name c k (p ∷ ps) text path apart) path.4 (omega (arith, enough))
              (omega (arith, long, sizes c k (p ∷ ps))) (omega (arith, apart, sizes c k (p ∷ ps))))
