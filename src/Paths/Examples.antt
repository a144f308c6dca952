-- ===== src/Paths/Examples.antt =====
-- fs/namei.c: the path "/ab" on the disk of Tfs/Dirs/Examples, at 10, with the array at 100.
use mathlib.Core.Option
use thunix.Base.Int.{pos}
use thunix.Base.{
  ◌+◌, ◌≡◌, refl, inr, true, false, some, [], ◌∷◌, arith, ◌==◌, if◌then◌else◌, Memory,
}
use thunix.Tfs.{State}
use thunix.Tfs.Inodes.{Inode, Result, ok}
use thunix.Tfs.Files.Examples.{drive, sbi}
use thunix.Tfs.Dirs.Examples.{directory, state}
use thunix.Strings.Scan.{CStr}
use thunix.Paths.BaseNames.{get_base_name, get_base_name_lem, get_base_name-trailing}
use thunix.Paths.Cwd.{Copied, sys_getcwd, sys_getcwd_lem}
use thunix.Paths.Calls.{DoneInParent, sys_mkdir, sys_rmdir, sys_unlink, sys_mkdir_lem}
use thunix.Paths.{InodeOperations, found_inode, namei}
use thunix.Paths.Parts.{IsPath}
use thunix.Paths.Loop.{IsByName, find_all, make_missing}
use thunix.Paths.Lookup.{namei_lem}
use thunix.Paths.OnTfs.{tfs_inode_ops, tfs_inode_ops-IsByName}

abbrev path : Memory
path a = if a == 10 then 47 else if a == 11 then 97 else if a == 12 then 98 else 0

abbrev ops : InodeOperations (State drive)
ops = tfs_inode_ops drive sbi sbi (λ x. 0) true 300 100 1000 400 402 false (pos 0)

ops-IsByName : IsByName ops 100
ops-IsByName =
    tfs_inode_ops-IsByName drive sbi sbi (λ x. 0) true 300 100 1000 400 402 100 false (pos 0)
      (omega arith) (omega arith)

two_bytes-IsPath : IsPath ((97 ∷ 98 ∷ [], 0) ∷ [])
two_bytes-IsPath = (
  (omega arith, omega arith, (omega arith, omega arith, tt)),
  omega arith,
  omega arith,
  inr refl,
  tt,
)

namei_lem_example :
    namei ops 300 10 100 false false (ok directory) directory path 10 state
    ≡ Option.map
        (λ (out : Result Inode × State drive). found_inode out.0 out.1)
        (make_missing ops 100 false (find_all ops 100 ((97 ∷ 98 ∷ []) ∷ []) directory state))
namei_lem_example =
    namei_lem ops 300 10 100 false false ops-IsByName ((97 ∷ 98 ∷ [], 0) ∷ []) 1 path 10 directory
      directory state (refl, omega arith, (refl, omega arith, (refl, omega arith, refl)))
      two_bytes-IsPath (omega arith) (omega arith) (omega arith)

get_base_name_lem_example :
    (m' : Memory) × (get_base_name 10 path 10 20 ≡ some (m', some (20 + 0 + 1)))
    × CStr m' (20 + 0 + 1) (97 ∷ 98 ∷ [])
get_base_name_lem_example =
    get_base_name_lem 10 path 10 20 [] 97 (98 ∷ [])
      (refl, omega arith, (refl, omega arith, (refl, omega arith, refl)))
      (omega arith, omega arith, (omega arith, omega arith, tt)) (omega arith) (omega arith)
      (inr (omega arith))

-- "/ab/" at 10
abbrev closed_path : Memory
closed_path a = if a == 13 then 47 else path a

get_base_name-trailing_example :
    (m' : Memory) × (get_base_name 10 closed_path 10 20 ≡ some (m', some (20 + 0 + 1)))
    × CStr m' (20 + 0 + 1) []
get_base_name-trailing_example =
    get_base_name-trailing 10 closed_path 10 20 [] (97 ∷ 98 ∷ [])
      (refl, omega arith, (refl, omega arith, (refl, omega arith, (refl, omega arith, refl))))
      (omega arith, omega arith, (omega arith, omega arith, tt)) (omega arith) (omega arith)
      (inr (omega arith))

-- "/ab" as the working directory, which has as many bytes as the buffer
sys_getcwd_lem_example : Copied path 20 3 (47 ∷ 97 ∷ 98 ∷ []) (sys_getcwd 10 path 10 20 (pos 3))
sys_getcwd_lem_example =
    sys_getcwd_lem 10 path 10 20 3 (47 ∷ 97 ∷ 98 ∷ [])
      (refl, omega arith, (refl, omega arith, (refl, omega arith, refl))) (omega arith)
      (inr (omega arith)) (omega arith)

sys_mkdir_lem_example :
    DoneInParent ops 300 10 100 20
      (λ _. false)
      ops-IsByName
      ops.mkdir
      (97 ∷ 98 ∷ [])
      directory
      state
      (sys_mkdir ops 300 10 100 20 (λ _. false) (ok directory) directory path 10 state)
    × DoneInParent ops 300 10 100 20
        (λ _. false)
        ops-IsByName
        ops.rmdir
        (97 ∷ 98 ∷ [])
        directory
        state
        (sys_rmdir ops 300 10 100 20 (λ _. false) (ok directory) directory path 10 state)
    × DoneInParent ops 300 10 100 20
        (λ _. false)
        ops-IsByName
        ops.unlink
        (97 ∷ 98 ∷ [])
        directory
        state
        (sys_unlink ops 300 10 100 20 (λ _. false) (ok directory) directory path 10 state)
unfolding find_all
sys_mkdir_lem_example =
    sys_mkdir_lem ops 300 10 100 20 (λ _. false) ops-IsByName ((97 ∷ 98 ∷ [], 0) ∷ []) 1 path 10
      directory directory state [] 97 (98 ∷ []) directory state
      (refl, omega arith, (refl, omega arith, (refl, omega arith, refl))) refl two_bytes-IsPath
      (omega arith, omega arith, (omega arith, omega arith, tt)) (omega arith) (omega arith)
      (omega arith) (omega arith) (inr (omega arith)) refl
