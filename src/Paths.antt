-- ===== src/Paths.antt =====
-- fs/namei.c: path lookup. The operations of an inode are a record, as in `struct inode_operations`;
-- a name is an address in memory. `part` is the address of the array on the stack of `namei`. Freeing
-- inodes is left out.
mod Examples
pub mod BaseNames
pub mod Calls
pub mod Cwd
pub mod Lookup
pub mod OnTfs
pub mod Parts
pub mod Loop
use mathlib.Core.Option
use thunix.Base.{
  ℕ, zero, suc, ◌+◌, Bool, ◌&&◌, ◌||◌, Option, none, some, leb, ◌==◌, if◌then◌else◌, Memory, store,
}
use thunix.Base.Int.{◌-ℤ◌, ℤ}
use thunix.Tfs.Alloc.{eio}
use thunix.Tfs.{is_zero}
use thunix.Tfs.Inodes.{Inode, Result, err_ptr, ok}
use thunix.Tfs.Dirs.Add.{enametoolong}
use thunix.Tfs.Dirs.Remove.{enoent, tfs_file}

-- `struct inode_operations`, over a state `S`: the name is at an address of the memory; an operation
-- that changes the directory returns it. Every inode has `tfs_inode_ops`, so the tests of `i_op` hold.
pub record InodeOperations (S : Type 0) : Type 0 where
  pub iget : Memory → ℕ → S → Inode → Option (Result Inode × S)
  pub mknod : Memory → ℕ → S → Inode → ℕ → Option (Result Inode × Inode × S)
  pub iwrite : S → Inode → ℤ × S
  pub mkdir : Memory → ℕ → S → Inode → Option (ℤ × Inode × S)
  pub rmdir : Memory → ℕ → S → Inode → Option (ℤ × Inode × S)
  pub unlink : Memory → ℕ → S → Inode → Option (ℤ × Inode × S)

-- `MAX_NAME_LEN` and '/'
abbrev pub max_name_len : ℕ
max_name_len = 255

abbrev pub slash : ℕ
slash = 47

-- `while (*name == '/') name++;`, also written with a test for the NUL
unfoldable pub skip_slashes : ℕ → Memory → ℕ → Option ℕ
skip_slashes zero m name = none
skip_slashes (suc fuel) m name =
    let rest = skip_slashes fuel m (name + 1) in if m name == slash then rest else some name

-- `*p++ = *name++` up to a NUL or a slash: the memory, `name` and `p`, or `none` for a name too long
unfoldable pub take_part : ℕ → Memory → ℕ → ℕ → ℕ → Option (Option (Memory × ℕ × ℕ))
unfolding store
take_part zero m part name p = none
take_part (suc fuel) m part name p =
    let rest = take_part fuel (store m p (m name)) part (name + 1) (p + 1) in
    if m name == 0 || m name == slash
    then some (some (m, name, p))
    else if leb (part + max_name_len) p
    then some none
    else rest

module _ (S : Type 0) where
  -- Where the loop stands: `namei` has returned, the loop has ended (with the memory, `inode` and
  -- `parent`), it goes on at `name`, or a loop inside it runs out of rounds.
  pub data Walk : Type 0 where
    returned : Result Inode → S → Walk
    left : Memory → Result Inode → Inode → S → Walk
    going : Memory → ℕ → Inode → S → Walk
    lost : Walk

module _ {S : Type 0} (ops : InodeOperations S) (chars part : ℕ) (parent_only : Bool) where
  -- `inode = iget(part, parent)` and the tests behind it
  unfoldable pub looked_up : Memory → ℕ → Inode → Option (Result Inode × S) → Walk S
  looked_up m name parent none = lost
  looked_up m name parent (some (err_ptr e, s)) = left m (err_ptr e) parent s
  looked_up m name parent (some (ok inode, s)) =
      if m name == 0 then left m (ok inode) inode s else going m name inode s

  -- behind the slashes that follow a part
  unfoldable pub part_taken : Memory → Inode → S → Option ℕ → Walk S
  unfolding looked_up
  part_taken m parent s none = lost
  part_taken m parent s (some name) =
      if m name == 0 && parent_only
      then returned (ok parent) s
      else looked_up m name parent (ops.iget m part s parent)

  -- `*p = '\0'` and the slashes
  unfoldable pub end_part : Inode → S → Option (Option (Memory × ℕ × ℕ)) → Walk S
  unfolding part_taken store
  end_part parent s none = lost
  end_part parent s (some none) = returned (err_ptr enametoolong) s
  end_part parent s (some (some (m, name, p))) =
      let ended = store m p 0 in part_taken ended parent s (skip_slashes chars ended name)

  -- the loop over the parts; `inode` is `parent` where the path has ended
  unfoldable pub walk_from : ℕ → Walk S → Option (Walk S)
  unfolding end_part
  walk_from zero at = none
  walk_from (suc fuel) (returned res s) = some (returned res s)
  walk_from (suc fuel) (left m inode parent s) = some (left m inode parent s)
  walk_from (suc fuel) lost = none
  walk_from (suc fuel) (going m name parent s) =
      let rest = walk_from fuel (end_part parent s (take_part chars m part name part)) in
      if m name == 0 then some (left m (ok parent) parent s) else rest

module _ {S : Type 0} (ops : InodeOperations S) (part : ℕ) where
  -- the inode that `mknod` made is written; it is freed where that fails
  unfoldable pub write_made : Result Inode × Inode × S → Result Inode × S
  write_made (err_ptr e, dir, s) = (err_ptr e, s)
  write_made (ok inode, dir, s) =
      let (res, s1) = ops.iwrite s inode in (if is_zero res then ok inode else err_ptr eio, s1)

  -- the end of `namei`
  unfoldable pub create_missing : Bool → Walk S → Option (Result Inode × S)
  unfolding write_made
  create_missing create lost = none
  create_missing create (going m name parent s) = none
  create_missing create (returned res s) = some (res, s)
  create_missing create (left m (ok inode) parent s) = some (ok inode, s)
  create_missing create (left m (err_ptr e) parent s) =
      let made = Option.map write_made (ops.mknod m part s parent tfs_file) in
      if is_zero (e -ℤ enoent) && create then made else some (err_ptr e, s)

  unfoldable pub conclude : Bool → Option (Walk S) → Option (Result Inode × S)
  unfolding create_missing
  conclude create none = none
  conclude create (some walk) = create_missing create walk

-- `namei` returned, or called `panic`
pub data Found (S : Type 0) : Type 0 where
  panicked : Found S
  found_inode : Result Inode → S → Found S

module _ {S : Type 0} (ops : InodeOperations S) (chars fuel part : ℕ)
    (parent_only create : Bool) where
  -- `namei` from its loop on
  unfoldable pub namei_from : Memory → ℕ → Inode → S → Option (Result Inode × S)
  unfolding walk_from conclude
  namei_from m name start s =
      conclude ops part create (walk_from ops chars part parent_only fuel (going m name start s))

  unfoldable pub from_root : Memory → Option ℕ → Result Inode → S → Option (Found S)
  unfolding namei_from
  from_root m name (err_ptr e) s = some panicked
  from_root m none (ok root) s = none
  from_root m (some name) (ok root) s =
      Option.map (λ (out : Result Inode × S). found_inode out.0 out.1) (namei_from m name root s)

  -- `namei`, with the flags `LOOKUP_PARENT` and `LOOKUP_CREATE`, and `root` and `pwd` of the `struct fs`
  unfoldable pub namei : Result Inode → Inode → Memory → ℕ → S → Option (Found S)
  unfolding from_root
  namei root pwd m name s =
      let relative =
        Option.map (λ (out : Result Inode × S). found_inode out.0 out.1)
          (namei_from m name pwd s) in
      if m name == slash then from_root m (skip_slashes chars m name) root s else relative
