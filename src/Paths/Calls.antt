-- ===== src/Paths/Calls.antt =====
-- fs/namei.c, `namei_parent`, `sys_mkdir`, `sys_rmdir` and `sys_unlink`, and fs/inode.c, `sys_mknod`.
use mathlib.Core.Option
use thunix.Base.{
  ℕ, ◌+◌, ◌≤◌, ◌<◌, ◌≡◌, refl, sym, ap, ◌∙◌, ◌⊎◌, Bool, true, false, Option, none, some, List, ◌∷◌,
  ◌++◌, arith, ◌==◌, if◌then◌else◌, length, Memory,
}
use thunix.Base.Int.{negsuc, ℤ}
use thunix.Tfs.Inodes.{Inode, Result, err_ptr, ok}
use thunix.Tfs.Dirs.Remove.{enotdir}
use thunix.Paths.{slash, InodeOperations, Found, panicked, found_inode, namei}
use thunix.Paths.BaseNames.{get_base_name, get_base_name_lem}
use thunix.Strings.Scan.{CStr}
use thunix.Paths.Parts.{IsPart, IsPath, Apart, path_text, slashes, length-slashes}
use thunix.Paths.Loop.{IsByName, arrived, find_all, make_missing, targets}
use thunix.Paths.Lookup.{namei_lem}

-- `-ENOSYS`
abbrev pub enosys : ℤ
enosys = negsuc 37

-- `namei_parent` behind `namei`. A good inode is returned as it is; of an error `i_mode` is read, and
-- `wild_dir` is whether what lies there is `TFS_DIR`.
unfoldable pub parent_of : (ℤ → Bool) → Result Inode → Result Inode
parent_of wild_dir (ok dir) = ok dir
parent_of wild_dir (err_ptr e) = if wild_dir e then err_ptr e else err_ptr enotdir

-- What a call comes to.
pub data Called (S : Type 0) : Type 0 where
  halted : Called S
  called : ℤ → S → Called S

-- a pointer as the address it is
abbrev pub address : Option ℕ → ℕ
address none = 0
address (some a) = a

module _ {S : Type 0} where
  -- the operation on the name that `get_base_name` gives
  unfoldable pub on_name :
      (Memory → ℕ → S → Inode → Option (ℤ × Inode × S))
      → S
      → Inode
      → Option (Memory × Option ℕ)
      → Option (Called S)
  on_name op s dir none = none
  on_name op s dir (some (m, name)) =
      Option.map (λ (out : ℤ × Inode × S). called out.0 out.2) (op m (address name) s dir)

  unfoldable pub on_parent :
      (Memory → ℕ → S → Inode → Option (ℤ × Inode × S))
      → Option (Memory × Option ℕ)
      → S
      → Result Inode
      → Option (Called S)
  unfolding on_name
  on_parent op base_name s (err_ptr e) = some (called e s)
  on_parent op base_name s (ok dir) = on_name op s dir base_name

  unfoldable pub on_found :
      (ℤ → Bool)
      → (Memory → ℕ → S → Inode → Option (ℤ × Inode × S))
      → Option (Memory × Option ℕ)
      → Option (Found S)
      → Option (Called S)
  unfolding on_parent parent_of
  on_found wild_dir op base_name none = none
  on_found wild_dir op base_name (some panicked) = some halted
  on_found wild_dir op base_name (some (found_inode res s)) =
      on_parent op base_name s (parent_of wild_dir res)

module _ {S : Type 0} (ops : InodeOperations S) (chars fuel part copy : ℕ)
    (wild_dir : ℤ → Bool) where
  -- `namei_parent`, and the operation on its inode and the base name
  unfoldable pub in_parent :
      (Memory → ℕ → S → Inode → Option (ℤ × Inode × S))
      → Result Inode
      → Inode
      → Memory
      → ℕ
      → S
      → Option (Called S)
  unfolding on_found
  in_parent op root pwd m pathname s =
      on_found wild_dir op (get_base_name chars m pathname copy)
        (namei ops chars fuel part true false root pwd m pathname s)

  -- `sys_mkdir`, with `root` and `pwd` of the `struct fs`, likewise the others
  unfoldable pub sys_mkdir : Result Inode → Inode → Memory → ℕ → S → Option (Called S)
  unfolding in_parent
  sys_mkdir = in_parent ops.mkdir

  unfoldable pub sys_rmdir : Result Inode → Inode → Memory → ℕ → S → Option (Called S)
  unfolding in_parent
  sys_rmdir = in_parent ops.rmdir

  unfoldable pub sys_unlink : Result Inode → Inode → Memory → ℕ → S → Option (Called S)
  unfolding in_parent
  sys_unlink = in_parent ops.unlink

  -- what `mknod` comes to in `sys_mknod`: `err` is set by an error only
  unfoldable pub made_node : Result Inode × Inode × S → ℤ × Inode × S
  made_node (err_ptr e, dir, s) = (e, dir, s)
  made_node (ok inode, dir, s) = (enosys, dir, s)

  unfoldable pub sys_mknod : ℕ → Result Inode → Inode → Memory → ℕ → S → Option (Called S)
  unfolding in_parent made_node
  sys_mknod mode = in_parent (λ m name s dir. Option.map made_node (ops.mknod m name s dir mode))

-- A call on the path that `namei` finds the parent of.
parent_found :
    {S : Type 0} (wild_dir : ℤ → Bool) (op : Memory → ℕ → S → Inode → Option (ℤ × Inode × S))
    (base_name : Option (Memory × Option ℕ)) (found : Option (Found S)) (dir : Inode) (s : S)
    (m : Memory) (name : ℕ)
    → found ≡ some (found_inode (ok dir) s)
    → base_name ≡ some (m, some name)
    → on_found wild_dir op base_name found
      ≡ Option.map (λ (out : ℤ × Inode × S). called out.0 out.2) (op m name s dir)
unfolding on_found on_parent parent_of on_name
parent_found wild_dir op base_name found dir s m name e e' = rw (e, e') refl

module _ {S : Type 0} (ops : InodeOperations S) (chars fuel part copy : ℕ) (wild_dir : ℤ → Bool)
    (by_name : IsByName ops part) where
  -- the operation `op` done on the directory that the names before the last lead to, and the last name
  abbrev pub DoneInParent :
      (Memory → ℕ → S → Inode → Option (ℤ × Inode × S))
      → List ℕ
      → Inode
      → S
      → Option (Called S)
      → Type 0
  DoneInParent op xs dir s out =
      (m' : Memory) × (name : ℕ) × CStr m' name xs
      × (out ≡ Option.map (λ (res : ℤ × Inode × S). called res.0 res.2) (op m' name s dir))

  in_parent_lem :
      (op : Memory → ℕ → S → Inode → Option (ℤ × Inode × S)) (ps : List (List ℕ × ℕ)) (j : ℕ)
      (m : Memory) (pathname : ℕ) (root pwd : Inode) (s : S) (ds : List ℕ) (x : ℕ) (b : List ℕ)
      (dir : Inode) (s' : S)
      → CStr m pathname (slashes j (path_text ps))
      → slashes j (path_text ps) ≡ ds ++ slash ∷ x ∷ b
      → IsPath ps
      → IsPart (x ∷ b)
      → length ps < fuel
      → j + length (path_text ps) < chars
      → Apart part pathname (j + length (path_text ps))
      → 0 < copy
      → (copy ≤ pathname) ⊎ (pathname + (j + length (path_text ps)) < copy)
      → find_all ops part (targets true ps) (if j == 0 then pwd else root) s ≡ some (arrived dir s')
      → DoneInParent op
          (x ∷ b)
          dir
          s'
          (in_parent ops chars fuel part copy wild_dir op (ok root) pwd m pathname s)
  unfolding in_parent make_missing
  in_parent_lem op ps j m pathname root pwd s ds x b dir s' text split path is enough long apart
        some_copy spare reached =
      let (m', based, name_text) =
        get_base_name_lem chars m pathname copy ds x b (rw (← split) text) is
          (omega (arith, long, sizes)) some_copy (omega (arith, spare, sizes)) in
      (
        m',
        copy + length ds + 1,
        name_text,
        parent_found wild_dir op (get_base_name chars m pathname copy)
            (namei ops chars fuel part true false (ok root) pwd m pathname s) dir s' m'
            (copy + length ds + 1)
            (namei_lem ops chars fuel part true false by_name ps j m pathname root pwd s text path
                enough long apart
              ∙ rw (reached) refl)
            based,
      )
    where
      sizes : length (ds ++ slash ∷ x ∷ b) ≡ j + length (path_text ps)
      sizes = ap length (sym split) ∙ length-slashes j (path_text ps)

  -- For the text of a path apart from the array and from the copy of `get_base_name`, with parts of 1 to
  -- 255 bytes, `j` slashes before the first and no slash behind the last, whose text has a slash, with
  -- rounds for its parts and bytes, and operations of which `iget` and `mknod` read only a name's
  -- bytes: where the names before the last lead to a directory, `sys_mkdir`, `sys_rmdir` and
  -- `sys_unlink` each do their operation on that directory and a copy of the last name, and return its
  -- result.
  pub sys_mkdir_lem :
      (ps : List (List ℕ × ℕ)) (j : ℕ) (m : Memory) (pathname : ℕ) (root pwd : Inode) (s : S)
      (ds : List ℕ) (x : ℕ) (b : List ℕ) (dir : Inode) (s' : S)
      → CStr m pathname (slashes j (path_text ps))
      → slashes j (path_text ps) ≡ ds ++ slash ∷ x ∷ b
      → IsPath ps
      → IsPart (x ∷ b)
      → length ps < fuel
      → j + length (path_text ps) < chars
      → Apart part pathname (j + length (path_text ps))
      → 0 < copy
      → (copy ≤ pathname) ⊎ (pathname + (j + length (path_text ps)) < copy)
      → find_all ops part (targets true ps) (if j == 0 then pwd else root) s ≡ some (arrived dir s')
      → DoneInParent ops.mkdir
          (x ∷ b)
          dir
          s'
          (sys_mkdir ops chars fuel part copy wild_dir (ok root) pwd m pathname s)
        × DoneInParent ops.rmdir
            (x ∷ b)
            dir
            s'
            (sys_rmdir ops chars fuel part copy wild_dir (ok root) pwd m pathname s)
        × DoneInParent ops.unlink
            (x ∷ b)
            dir
            s'
            (sys_unlink ops chars fuel part copy wild_dir (ok root) pwd m pathname s)
  unfolding sys_mkdir sys_rmdir sys_unlink
  sys_mkdir_lem ps j m pathname root pwd s ds x b dir s' text split path is enough long apart
        some_copy spare reached =
      let done = λ (op : Memory → ℕ → S → Inode → Option (ℤ × Inode × S)).
        in_parent_lem op ps j m pathname root pwd s ds x b dir s' text split path is enough long
          apart some_copy spare reached in
      (done ops.mkdir, done ops.rmdir, done ops.unlink)
