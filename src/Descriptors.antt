-- ===== src/Descriptors.antt =====
-- fs/file.c: the table of file descriptors. A descriptor's `struct file` is a value, as no two
-- descriptors share one. `files` past its end is whatever lies behind the array.
mod Examples
pub mod Io
pub mod Laws
use thunix.Base.{
  ℕ, zero, suc, ◌+◌, ◌-◌, ◌^◌, Bool, not, Option, none, some, ltb, leb, ◌==◌, if◌then◌else◌, u32,
}
use thunix.Base.Int.{pos_part, pos, negsuc, ℤ}
use thunix.Tfs.Inodes.{Inode, Result, err_ptr, ok}
use thunix.Tfs.Files.{File}

abbrev pub max_fd : ℕ
max_fd = 32

-- `-ENOENT`, `-EBADF`, `-ENOMEM`, `-EINVAL`
abbrev pub enoent : ℤ
enoent = negsuc 1

abbrev pub ebadf : ℤ
ebadf = negsuc 8

abbrev pub enomem : ℤ
enomem = negsuc 11

abbrev pub einval : ℤ
einval = negsuc 21

-- `fds` and `files`
pub record Table : Type 0 where
  pub fds : ℕ → ℕ
  pub files : ℕ → Option File

abbrev pub put {ℓ} : {A : Type ℓ} → (ℕ → A) → ℕ → A → ℕ → A
put f i a j = if j == i then a else f j

-- the loop of `get_unused_fd` from `i` on, with `left` rounds left
unused_from : (ℕ → ℕ) → ℕ → ℕ → ℕ
unused_from fds i zero = i
unused_from fds i (suc left) =
    let rest = unused_from fds (i + 1) left in if fds i == 0 then i else rest

-- `get_unused_fd`
pub get_unused_fd : Table → ℕ × Table
unfolding unused_from
get_unused_fd t =
    let i = unused_from t.fds 0 max_fd in
    (i, if ltb i max_fd then record t { fds = put t.fds i 1 } else t)

-- `sys_open` once `namei` has returned: NULL, an `ERR_PTR`, or an inode. `allocated` is whether
-- `malloc` succeeds.
pub sys_open : Table → Option (Result Inode) → Bool → ℤ × Table
unfolding get_unused_fd
sys_open t none allocated = (enoent, t)
sys_open t (some (err_ptr e)) allocated = (e, t)
sys_open t (some (ok inode)) allocated =
    let (fd, t1) = get_unused_fd t in
    if not allocated then (enomem, t) else if leb max_fd fd then (einval, t1) else (
      pos fd,
      record t1 { files = put t1.files fd (some (record { inode = inode; offset = 0 })) },
    )

-- `if (fd < 0 || fd > MAX_FD) return -EBADF;` and `if (!file) return -EBADF;`
unfoldable pub fget : Table → ℤ → Option File
fget t (negsuc n) = none
fget t (pos fd) = if ltb max_fd fd then none else t.files fd

closed : Table → ℤ → Option File → ℤ × Table
closed t fd none = (ebadf, t)
closed t fd (some file) =
    (pos 0, record t { fds = put t.fds (pos_part fd) 0; files = put t.files (pos_part fd) none })

-- `sys_close`, without the release of memory
pub sys_close : Table → ℤ → ℤ × Table
unfolding fget closed
sys_close t fd = closed t fd (fget t fd)

-- an `int` added to a `uint32_t`
abbrev pub add32 : ℕ → ℤ → ℕ
add32 a (pos n) = u32 (a + n)
add32 a (negsuc n) = u32 (a + 2 ^ 32 - u32 (n + 1))

-- the new offset, for `SEEK_SET` (0), `SEEK_CUR` (1) and `SEEK_END` (2)
seek_to : File → ℤ → ℕ → Option ℕ
seek_to file off mode =
    if mode == 1
    then some (add32 file.offset off)
    else if mode == 2
    then some (add32 file.inode.i_size off)
    else if mode == 0
    then some (add32 0 off)
    else none

-- a `uint32_t` returned as `int`
abbrev pub as_int : ℕ → ℤ
as_int u = if leb (2 ^ 31) u then negsuc (2 ^ 32 - 1 - u) else pos u

moved : Table → ℤ → File → Option ℕ → ℤ × Table
moved t fd file none = (einval, t)
moved t fd file (some offset) = (
  as_int offset,
  record t { files = put t.files (pos_part fd) (some (record file { offset = offset })) },
)

sought : Table → ℤ → ℤ → ℕ → Option File → ℤ × Table
unfolding moved seek_to
sought t fd off mode none = (ebadf, t)
sought t fd off mode (some file) = moved t fd file (seek_to file off mode)

-- `sys_lseek`
pub sys_lseek : Table → ℤ → ℤ → ℕ → ℤ × Table
unfolding fget sought
sys_lseek t fd off mode = sought t fd off mode (fget t fd)
