-- ===== src/Paths/Lookup.antt =====
-- fs/namei.c, `namei`: the names of a path looked up one after the other.
use mathlib.Core.Option
use thunix.Base.{
  ℕ, zero, suc, ◌+◌, ◌<◌, ◌≡◌, refl, Bool, true, false, some, List, arith, ◌==◌, if◌then◌else◌,
  length, Memory,
}
use thunix.Strings.Scan.{CStr}
use thunix.Tfs.Inodes.{Inode, Result, ok}
use thunix.Paths.{namei, found_inode, namei_from, from_root, InodeOperations, slash, skip_slashes}
use thunix.Paths.Parts.{
  IsPath, Apart, path_text, slashes, skip_slashes_lem, path_text-Starts, CStr-slashes,
}
use thunix.Paths.Loop.{targets, IsByName, find_all, make_missing, Walked, walk_lem, not_empty}

module _ {S : Type 0} (ops : InodeOperations S) (chars fuel part : ℕ) (parent_only create : Bool)
    (by_name : IsByName ops part) where
  namei_from_lem :
      (ps : List (List ℕ × ℕ)) (m : Memory) (name : ℕ) (dir : Inode) (s : S)
      → CStr m name (path_text ps)
      → IsPath ps
      → length ps < fuel
      → length (path_text ps) < chars
      → Apart part name (length (path_text ps))
      → namei_from ops chars fuel part parent_only create m name dir s
        ≡ make_missing ops part create (find_all ops part (targets parent_only ps) dir s)
  unfolding namei_from Walked
  namei_from_lem ps m name dir s text path enough long apart =
      walk_lem ops chars part parent_only create by_name ps fuel m name dir s text path enough long
        apart

  -- The text of a path apart from the array, with parts of 1 to 255 bytes and `j` slashes before the
  -- first, and rounds for all its parts and bytes; the operations read only a name's bytes. Then
  -- `namei` looks the names up one after the other, from the root where `j` is not 0 and from the
  -- working directory where it is 0, the last one only where the parent is not wanted. It returns the
  -- inode, or the error of the name at which it stops, and where a file is to be created and the error
  -- is `-ENOENT`, what making that name, the last or not, in the directory reached comes to.
  pub namei_lem :
      (ps : List (List ℕ × ℕ)) (j : ℕ) (m : Memory) (name : ℕ) (root pwd : Inode) (s : S)
      → CStr m name (slashes j (path_text ps))
      → IsPath ps
      → length ps < fuel
      → j + length (path_text ps) < chars
      → Apart part name (j + length (path_text ps))
      → namei ops chars fuel part parent_only create (ok root) pwd m name s
        ≡ Option.map
            (λ (out : Result Inode × S). found_inode out.0 out.1)
            (make_missing ops part create
              (find_all ops part (targets parent_only ps) (if j == 0 then pwd else root) s))
  unfolding namei from_root
  namei_lem ps zero m name root pwd s text path enough long apart =
      rw
        (
          relative,
          namei_from_lem ps m name pwd s text path enough (omega (arith, long))
              (omega (arith, apart)),
        )
        refl
    where
      relative : (m name == slash) ≡ false
      relative = ground (arith, (path_text-Starts ps m name text path).0)
  namei_lem ps (suc j) m name root pwd s (e, nonzero, text) path enough long apart =
      rw
        (
          absolute,
          not_empty j,
          passed,
          from_root,
          namei_from_lem ps m (name + suc j) root s behind path enough (omega (arith, long))
              (omega (arith, apart)),
        )
        refl
    where
      behind : CStr m (name + suc j) (path_text ps)
      behind = CStr-slashes (suc j) (path_text ps) m name (e, nonzero, text)

      absolute : (m name == slash) ≡ true
      absolute = ground (arith, e)

      passed : skip_slashes chars m name ≡ some (name + suc j)
      passed =
          skip_slashes_lem (suc j) chars m name (path_text ps) (e, nonzero, text)
            (path_text-Starts ps m (name + suc j) behind path).0 (omega (arith, long))
