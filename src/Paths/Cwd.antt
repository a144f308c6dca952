-- ===== src/Paths/Cwd.antt =====
-- fs/namei.c, `sys_chdir` and `sys_getcwd`: the working directory and its path `cwd`.
use thunix.Base.{
  ℕ, zero, suc, ◌+◌, ◌≤◌, ◌<◌, ◌≡◌, ◌⊎◌, false, ◌&&◌, Option, none, some, List, arith, ltb, ◌==◌,
  if◌then◌else◌, if-cases, length, Memory, store,
}
use thunix.Base.Int.{pos, negsuc, ℤ}
use thunix.Strings.{strcpy, strcat, strcmp, strrchr, strlen}
use thunix.Strings.Scan.{CStr, CStr-end, strlen_lem, strcpy_lem}
use thunix.Tfs.{is_zero}
use thunix.Tfs.Alloc.{einval}
use thunix.Tfs.Inodes.{Inode, Result, err_ptr, ok}
use thunix.Tfs.Dirs.Remove.{enotdir, tfs_dir}
use thunix.Paths.{InodeOperations, Found, panicked, found_inode, namei, slash}

-- `-ERANGE`, and '.'
abbrev pub erange : ℤ
erange = negsuc 33

abbrev pub dot : ℕ
dot = 46

-- `sys_getcwd`, with `cwd` of the `struct fs`: the result, and the memory
unfoldable pub copy_cwd : ℕ → Memory → ℕ → ℕ → ℕ → ℕ → Option (ℤ × Memory)
copy_cwd chars m cwd buf size len =
    let copied = strcpy chars m buf cwd in
    if ltb size len
    then some (erange, m)
    else elim copied [ none ↦ none | some m' ↦ some (pos len, m') ]

unfoldable pub sys_getcwd : ℕ → Memory → ℕ → ℕ → ℤ → Option (ℤ × Memory)
unfolding copy_cwd
sys_getcwd chars m cwd buf (negsuc n) = some (einval, m)
sys_getcwd chars m cwd buf (pos size) = elim (strlen chars m cwd) [
  | none ↦ none
  | some len ↦ if size == 0 then some (einval, m) else copy_cwd chars m cwd buf size len
]

-- `while (*pathname && *pathname == '.' && *(pathname + 1) == '/') pathname += 2;`
unfoldable pub skip_dots : ℕ → Memory → ℕ → Option ℕ
skip_dots zero m pathname = none
skip_dots (suc fuel) m pathname =
    let rest = skip_dots fuel m (pathname + 2) in
    if m pathname == dot && m (pathname + 1) == slash then rest else some pathname

-- the path without its last name: the result, and the memory
unfoldable pub cut_cwd : Memory → ℕ → Option ℕ → ℤ × Memory
unfolding store
cut_cwd m cwd none = (einval, m)
cut_cwd m cwd (some p) = (pos 0, store m (if p == cwd then p + 1 else p) 0)

-- what becomes of `cwd`; `parent` is the address of the string ".."
unfoldable pub change_cwd : ℕ → Memory → ℕ → ℕ → ℕ → Option (ℤ × Memory)
unfolding cut_cwd
change_cwd chars m cwd parent pathname =
    if m pathname == slash
    then elim (strcpy chars m cwd pathname) [ none ↦ none | some m' ↦ some (pos 0, m') ]
    else elim (strcmp chars m pathname parent) [
      | none ↦ none
      | some res ↦
          if is_zero res
          then elim (strrchr chars m cwd slash) [ none ↦ none | some p ↦ some (cut_cwd m cwd p) ]
          else elim (strcat chars m cwd pathname) [ none ↦ none | some m' ↦ some (pos 0, m') ]
    ]

-- `sys_chdir` returned, with `pwd` and the memory, or halted
pub data Changed (S : Type 0) : Type 0 where
  halted : Changed S
  changed : ℤ → Inode → Memory → S → Changed S

module _ {S : Type 0} where
  unfoldable pub with_cwd : Inode → S → Option (ℤ × Memory) → Option (Changed S)
  with_cwd pwd s none = none
  with_cwd pwd s (some (res, m)) = some (changed res pwd m s)

  -- behind `namei`
  unfoldable pub change_to : ℕ → Memory → ℕ → ℕ → ℕ → Inode → Option (Found S) → Option (Changed S)
  unfolding with_cwd change_cwd
  change_to chars m cwd parent pathname pwd none = none
  change_to chars m cwd parent pathname pwd (some panicked) = some halted
  change_to chars m cwd parent pathname pwd (some (found_inode (err_ptr e) s)) =
      some (changed e pwd m s)
  change_to chars m cwd parent pathname pwd (some (found_inode (ok inode) s)) =
      let moved = with_cwd inode s (change_cwd chars m cwd parent pathname) in
      if inode.i_mode == tfs_dir then moved else some (changed enotdir pwd m s)

module _ {S : Type 0} (ops : InodeOperations S) (chars fuel part cwd parent : ℕ) where
  unfoldable pub change_from : Result Inode → Inode → Memory → S → Option ℕ → Option (Changed S)
  unfolding change_to
  change_from root pwd m s none = none
  change_from root pwd m s (some pathname) =
      let moved =
        change_to chars m cwd parent pathname pwd
          (namei ops chars fuel part false false root pwd m pathname s) in
      if m pathname == dot && m (pathname + 1) == 0 then some (changed (pos 0) pwd m s) else moved

  -- `sys_chdir`
  unfoldable pub sys_chdir : Result Inode → Inode → Memory → ℕ → S → Option (Changed S)
  unfolding change_from
  sys_chdir root pwd m pathname s = change_from root pwd m s (skip_dots chars m pathname)

-- what `sys_getcwd` of `size` bytes at `buf` comes to
pub data Copied (m : Memory) (buf size : ℕ) (xs : List ℕ) : Option (ℤ × Memory) → Type 0 where
  too_small : size < length xs → Copied m buf size xs (some (erange, m))
  fits :
      (m' : Memory)
      → length xs ≤ size
      → CStr m' buf xs
      → m' (buf + length xs) ≡ 0
      → ((x : ℕ) → (x < buf) ⊎ (buf + length xs < x) → m' x ≡ m x)
      → Copied m buf size xs (some (pos (length xs), m'))

copy_cwd_lem :
    (chars : ℕ) (m : Memory) (cwd buf size : ℕ) (xs : List ℕ)
    → CStr m cwd xs
    → length xs < chars
    → (buf ≤ cwd) ⊎ (cwd + length xs < buf)
    → Copied m buf size xs (copy_cwd chars m cwd buf size (length xs))
unfolding copy_cwd
copy_cwd_lem chars m cwd buf size xs text enough apart =
    let (m', copied, same, outside) = strcpy_lem chars m buf cwd xs text enough apart in
    rw (copied) (
      if-cases (Copied m buf size xs) (ltb size (length xs))
        (λ small. too_small (ground (arith, small)))
        (λ large. fits m' (ground (arith, large)) same (CStr-end m' buf xs same) outside))

-- With rounds for the path `cwd` and a buffer that does not lie inside it, and a size above 0:
-- `sys_getcwd` returns `-ERANGE` and changes nothing where the path has more bytes than the size; else
-- it returns their number, the path stands in the buffer, its NUL at `buf + size` where the size is the
-- number of its bytes, and no other byte has changed.
pub sys_getcwd_lem :
    (chars : ℕ) (m : Memory) (cwd buf size : ℕ) (xs : List ℕ)
    → CStr m cwd xs
    → length xs < chars
    → (buf ≤ cwd) ⊎ (cwd + length xs < buf)
    → 0 < size
    → Copied m buf size xs (sys_getcwd chars m cwd buf (pos size))
unfolding sys_getcwd
sys_getcwd_lem chars m cwd buf size xs text enough apart some_byte =
    rw (strlen_lem chars m cwd xs text enough, sys_getcwd, not_none)
      (copy_cwd_lem chars m cwd buf size xs text enough apart)
  where
    not_none : (size == 0) ≡ false
    not_none = ground (arith, some_byte)
