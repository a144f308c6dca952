-- ===== src/Descriptors/Laws.antt =====
-- fs/file.c: which descriptor is given out, and what becomes of it.
use thunix.Base.{
  ℕ, zero, suc, ◌+◌, ◌^◌, ◌≤◌, ◌<◌, ◌≡◌, refl, ap, ◌≢◌, inl, inr, true, false, none, some, arith,
  ltb, leb, ◌==◌, if◌then◌else◌, Bool-cases,
}
use thunix.Base.Int.{pos_part, pos, ℤ}
use thunix.Tfs.Inodes.{Inode, ok}
use thunix.Tfs.Files.{File}
use thunix.Descriptors.{
  Table, max_fd, einval, put, unused_from, get_unused_fd, sys_open, fget, closed, sys_close,
  seek_to, as_int, moved, sought, sys_lseek,
}

unused_from_lem :
    (fds : ℕ → ℕ) (left i : ℕ)
    → let fd = unused_from fds i left in
      (i ≤ fd)
      × (fd ≤ i + left)
      × (fd < i + left → fds fd ≡ 0)
      × ((j : ℕ) → i ≤ j → j < fd → fds j ≢ 0)
unfolding unused_from
unused_from_lem fds zero i =
    (omega arith, omega arith, (λ h. absurd (omega arith)), λ j h h'. absurd (omega arith))
unused_from_lem fds (suc left) i =
    let (low, high, free, taken) = unused_from_lem fds left (i + 1) in
    (
      ground (arith, low),
      ground (arith, high),
      (λ h. ground (arith, high, free)),
      λ j h h'. ground (arith, taken j, low),
    )

-- What `sys_open` comes to when `namei` found the inode and there is memory: the lowest free
-- descriptor, with a file at the start of the inode, or `-EINVAL` where none is free.
pub data Opened (t : Table) (inode : Inode) : ℤ × Table → Type 0 where
  opened :
      (fd : ℕ) (t' : Table)
      → fd < max_fd
      → t.fds fd ≡ 0
      → ((j : ℕ) → j < fd → t.fds j ≢ 0)
      → ((j : ℕ) → t'.fds j ≡ (if j == fd then 1 else t.fds j))
      → ((j : ℕ)
          → t'.files j
            ≡ (if j == fd then some (record { inode = inode; offset = 0 }) else t.files j))
      → Opened t inode (pos fd, t')
  too_many : ((j : ℕ) → j < max_fd → t.fds j ≢ 0) → Opened t inode (einval, t)

-- `sys_open` of an inode that was found, with memory to be had, gives the lowest free descriptor, at
-- the start of the inode, and changes no other; where none is free it returns -EINVAL and changes
-- nothing.
pub sys_open_lem : (t : Table) (inode : Inode) → Opened t inode (sys_open t (some (ok inode)) true)
unfolding sys_open get_unused_fd
sys_open_lem t inode =
    let (low, high, free, taken) = unused_from_lem t.fds max_fd 0 in
    elim (Bool-cases (ltb (unused_from t.fds 0 max_fd) max_fd)) [
      | inl e ↦
          rw (e, in_table e)
            (opened _ _ (ground arith) (free (ground arith)) (λ j h. taken j (omega arith) h)
              (λ j. refl) (λ j. refl))
      | inr e ↦ rw (e, past_table e) (too_many (λ j h. taken j (omega arith) (ground arith)))
    ]
  where
    fd : ℕ
    fd = unused_from t.fds 0 max_fd

    in_table : ltb fd max_fd ≡ true → leb max_fd fd ≡ false
    in_table e = ground arith

    past_table : ltb fd max_fd ≡ false → leb max_fd fd ≡ true
    past_table e = ground arith

-- Closed again, the descriptor `fd` of `t2` is free, and the others are as in `t`.
pub record Closed (t : Table) (fd : ℕ) (out : ℤ × Table) : Type 0 where
  pub succeeds : out.0 ≡ pos 0
  pub descriptors : (j : ℕ) → out.1.fds j ≡ t.fds j
  pub no_file : (j : ℕ) → out.1.files j ≡ (if j == fd then none else t.files j)

sys_close-Closed :
    (t t' : Table) (fd : ℕ) (file : File)
    → fd < max_fd
    → t.fds fd ≡ 0
    → ((j : ℕ) → t'.fds j ≡ (if j == fd then 1 else t.fds j))
    → ((j : ℕ) → t'.files j ≡ (if j == fd then some file else t.files j))
    → Closed t fd (sys_close t' (pos fd))
unfolding sys_close closed fget
sys_close-Closed t t' fd file small free fds files =
    rw (in_table, present)
      (record {
        succeeds = refl;
        descriptors = λ j. ground (arith, fds j, free);
        no_file = λ j. ground (arith, files j);
      })
  where
    in_table : ltb max_fd fd ≡ false
    in_table = ground arith

    present : t'.files fd ≡ some file
    present = ground (arith, files fd)

parts :
    (fd0 fd : ℕ) (t0 t' : Table)
    → Path (ℤ × Table) (pos fd0, t0) (pos fd, t')
    → (fd0 ≡ fd) × (t0 ≡ t')
parts fd0 fd t0 t' e = (ap (λ o. pos_part o.0) e, ap (λ o. o.1) e)

Opened-Closed :
    (t t' : Table) (inode : Inode) (fd : ℕ) (out : ℤ × Table)
    → Opened t inode out
    → out ≡ (pos fd, t')
    → Closed t fd (sys_close t' (pos fd))
Opened-Closed t t' inode fd _ (too_many taken) e = absurd (ground (arith, ap (λ o. o.0) e))
Opened-Closed t t' inode fd _ (opened fd0 t0 small free first fds files) e =
    let (same_fd, same_table) = parts fd0 fd t0 t' e in
    rw (← same_fd, ← same_table)
      (sys_close-Closed t t0 fd0 (record { inode = inode; offset = 0 }) small free fds files)

-- A descriptor that `sys_open` gave out can be closed: it is free again then, without a file, and no
-- other descriptor has changed since before `sys_open`.
pub sys_open-sys_close :
    (t t' : Table) (inode : Inode) (fd : ℕ)
    → sys_open t (some (ok inode)) true ≡ (pos fd, t')
    → Closed t fd (sys_close t' (pos fd))
sys_open-sys_close t t' inode fd e = Opened-Closed t t' inode fd _ (sys_open_lem t inode) e

-- the table with another offset in the file of `fd`
at_offset : Table → ℕ → File → ℕ → Table
at_offset t fd file offset = record t {
  files = put t.files fd (some (record file { offset = offset }));
}

sys_lseek-open :
    (t : Table) (fd : ℕ) (file : File) (off : ℤ) (mode offset : ℕ)
    → fd < max_fd
    → t.files fd ≡ some file
    → seek_to file off mode ≡ some offset
    → sys_lseek t (pos fd) off mode ≡ (as_int offset, at_offset t fd file offset)
unfolding sys_lseek sought moved fget at_offset
sys_lseek-open t fd file off mode offset small e s = rw (in_table, e, s) refl
  where
    in_table : ltb max_fd fd ≡ false
    in_table = ground arith

at_offset-files :
    (t : Table) (fd offset : ℕ) (file : File)
    → (at_offset t fd file offset).files fd ≡ some (record file { offset = offset })
unfolding at_offset
at_offset-files t fd offset file = ground arith

seek_to-set : (file : File) (a : ℕ) → a < 2 ^ 31 → seek_to file (pos a) 0 ≡ some a
unfolding seek_to
seek_to-set file a h = ap some (omega arith)

seek_to-cur :
    (file : File) (b : ℕ)
    → file.offset + b < 2 ^ 31
    → seek_to file (pos b) 1 ≡ some (file.offset + b)
unfolding seek_to
seek_to-cur file b h = ap some (omega arith)

-- `sys_lseek` by `b` bytes from where `sys_lseek` to the byte `a` has led comes to `a + b`, for a
-- descriptor below MAX_FD that has a file, where `a + b` is below 2 ^ 31.
pub sys_lseek-sys_lseek :
    (t : Table) (fd a b : ℕ) (file : File)
    → fd < max_fd
    → t.files fd ≡ some file
    → a + b < 2 ^ 31
    → let t1 = (sys_lseek t (pos fd) (pos a) 0).1 in
      let (res, t2) = sys_lseek t1 (pos fd) (pos b) 1 in
      (res ≡ pos (a + b))
      × (t2.files fd ≡ some (record { inode = file.inode; offset = a + b }))
      × ((j : ℕ) → j ≢ fd → t2.files j ≡ t.files j)
      × (t2.fds ≡ t.fds)
unfolding at_offset
sys_lseek-sys_lseek t fd a b file small e room =
    rw
      (
        sys_lseek-open t fd file (pos a) 0 a small e start,
        sys_lseek-open (at_offset t fd file a) fd (record file { offset = a }) (pos b) 1 (a + b)
            small (at_offset-files t fd a file) onward,
      )
      (
        ground arith,
        at_offset-files (at_offset t fd file a) fd (a + b) file,
        (λ j ne. ground arith),
        refl,
      )
  where
    start : seek_to file (pos a) 0 ≡ some a
    start = seek_to-set file a (omega arith)

    onward : seek_to (record file { offset = a }) (pos b) 1 ≡ some (a + b)
    onward = seek_to-cur (record file { offset = a }) b (omega arith)
