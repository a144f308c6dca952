-- ===== src/Tfs/Dirs/Readdir.antt =====
-- fs/tfs/dir.c, `tfs_readdir` and include/dirent.h: the entries of a directory one after the other.
use thunix.Base.{
  ℕ, zero, suc, ◌+◌, ◌-◌, ◌*◌, ◌/◌, ◌%◌, ◌^◌, ◌≤◌, ◌<◌, ◌≡◌, refl, sym, ap, ◌∙◌, ◌≢◌, inl, inr,
  Bool, true, not, Option, none, some, arith, ltb, ◌==◌, if◌then◌else◌, ==_iff, Bool-cases,
  if-cases, nowhere_from, load32, u32,
}
use native.Mathlib.Nat.{
  mul-div-mul_right, mul-div_cancel, mul_assoc, div-add-mod', div-lt_iff_lt-mul, mod-lt,
}
use thunix.Cache.{Ptr}
use thunix.Tfs.{Block, Floppy, SbInfo, State, get_block}
use thunix.Tfs.Inodes.{Inode, tfs_bmap, data_of}
use thunix.Tfs.Files.{File}
use thunix.Tfs.Files.Backed.{Gives, gives, Backed}
use thunix.Tfs.Dirs.{dir_entry_size, d_name, tfs_name_len}
use thunix.Tfs.Dirs.Overlay.{load32-same}

-- `struct dirent`; `d_type` is always 0. `d_name` holds 256 bytes.
pub record Dirent : Type 0 where
  pub d_ino : ℕ
  pub d_off : ℕ
  pub d_reclen : ℕ
  pub d_name_of : ℕ → ℕ

-- the `struct dirent` filled from the entry at `de`
abbrev pub fill_dirent : Block → ℕ → ℕ → Dirent
fill_dirent buffer de offset = record {
  d_ino = load32 buffer de;
  d_off = offset;
  d_reclen = dir_entry_size;
  d_name_of = λ i. if ltb i tfs_name_len then buffer (de + d_name + i) else 0;
}

module _ (dev : Floppy) (sbi : SbInfo) (null_data : Block) (allocated : Bool) where
  -- `tfs_readdir`: the entry, or `none` for NULL, and the file with its new place. It calls itself
  -- for an entry that is not in use, as often as `fuel` allows.
  unfoldable pub tfs_readdir : ℕ → State dev → File → Option (Option Dirent × File × State dev)
  unfolding data_of
  tfs_readdir zero s file = none
  tfs_readdir (suc fuel) s file =
      let block = tfs_bmap file.inode (file.offset / 2 ^ sbi.s_block_shift) in
      let got = get_block dev sbi s block in
      let buffer = data_of dev sbi null_data got in
      let de = file.offset % sbi.s_block_size in
      let moved = record file { offset = u32 (file.offset + dir_entry_size) } in
      let rest = tfs_readdir fuel got.1 moved in
      if block == 0
      then some (none, file, s)
      else if not allocated
      then some (none, file, got.1)
      else if load32 buffer de == 0
      then rest
      else some (some (fill_dirent buffer de file.offset), moved, got.1)

module _ (dev : Floppy) (sbi : SbInfo) (contents : ℕ → Block) (backed : Backed dev sbi contents)
    (inode : Inode) (blocks per : ℕ) where
  -- a directory of `blocks` blocks with `per` entries each
  pub record IsListed : Type 0 where
    pub some_per : 0 < per
    pub size : sbi.s_block_size ≡ per * dir_entry_size
    pub shift : sbi.s_block_size ≡ 2 ^ sbi.s_block_shift
    pub mapped : (i : ℕ) → i < blocks → tfs_bmap inode i ≢ 0
    pub end : tfs_bmap inode blocks ≡ 0
    pub fits : blocks * per * dir_entry_size + dir_entry_size < 2 ^ 32

  -- the block of entry `k`, as the disk holds it, and the entry's place in it
  abbrev pub entry_block : ℕ → Block
  entry_block k = contents (tfs_bmap inode (k / per))

  abbrev pub entry_place : ℕ → ℕ
  entry_place k = k % per * dir_entry_size

  abbrev pub InUse : ℕ → Type 0
  InUse k = load32 (entry_block k) (entry_place k) ≢ 0

  -- The next entry in use from `k` on, or NULL where there is none.
  pub data Listed (k : ℕ) : Option (Option Dirent × File × State dev) → Type 0 where
    next :
        (k' : ℕ) (d : Dirent) (s : State dev)
        → k ≤ k'
        → k' < blocks * per
        → InUse k'
        → ((x : ℕ) → k ≤ x → x < k' → InUse x → ⊥)
        → d.d_ino ≡ load32 (entry_block k') (entry_place k')
        → d.d_off ≡ k' * dir_entry_size
        → ((i : ℕ)
            → i < tfs_name_len
            → d.d_name_of i ≡ entry_block k' (entry_place k' + d_name + i))
        → backed.Inv s
        → Listed k (some (some d, record { inode = inode; offset = (k' + 1) * dir_entry_size }, s))
    none_left :
        (s : State dev)
        → ((x : ℕ) → k ≤ x → x < blocks * per → InUse x → ⊥)
        → backed.Inv s
        → Listed k
            (some (none, record { inode = inode; offset = blocks * per * dir_entry_size }, s))

  Listed-skip :
      (k : ℕ) (out : Option (Option Dirent × File × State dev))
      → (InUse k → ⊥)
      → Listed (k + 1) out
      → Listed k out
  Listed-skip k _ here (next k' d s high low used earlier ino off name inv) =
      next k' d s (omega (arith, high)) low used (nowhere_from InUse k k' here earlier) ino off name
        inv
  Listed-skip k _ here (none_left s behind inv) =
      none_left s (nowhere_from InUse k (blocks * per) here behind) inv

  -- the place of entry `k` in the file
  block_of : IsListed → (k : ℕ) → k * dir_entry_size / sbi.s_block_size ≡ k / per
  block_of l k = rw l.size (mul-div-mul_right k per (omega arith))

  place_of : IsListed → (k : ℕ) → k * dir_entry_size % sbi.s_block_size ≡ entry_place k
  place_of l k = omega (
    arith,
    div-add-mod' (k * dir_entry_size) sbi.s_block_size,
    ap (λ q. q * sbi.s_block_size) (block_of l k),
    ap (λ b. k / per * b) l.size,
    mul_assoc (k / per) per dir_entry_size,
    ap (λ x. x * dir_entry_size) (div-add-mod' k per),
  )

  inside_block : IsListed → (k : ℕ) → entry_place k + dir_entry_size ≤ sbi.s_block_size
  inside_block l k = omega (arith, l.size, mod-lt k l.some_per)

  abbrev file_at : ℕ → File
  file_at k = record { inode = inode; offset = k * dir_entry_size }

  -- one entry, whose block the cache gives
  round-Listed :
      (null_data : Block) (fuel k : ℕ) (got : Option Ptr × State dev)
      → IsListed
      → k < blocks * per
      → Gives dev sbi backed.Inv (entry_block k) got
      → ((s : State dev)
          → backed.Inv s
          → Listed (k + 1) (tfs_readdir dev sbi null_data true fuel s (file_at (k + 1))))
      → let buffer = data_of dev sbi null_data got in
        Listed k (
          if load32 buffer (entry_place k) == 0
          then tfs_readdir dev sbi null_data true fuel got.1 (file_at (k + 1))
          else some (
            some (fill_dirent buffer (entry_place k) (k * dir_entry_size)),
            file_at (k + 1),
            got.1,
          ))
  unfolding data_of
  round-Listed null_data fuel k _ l low (gives p s inv agrees) rest =
      if-cases (Listed k) (load32 (s.cache.buffer p) (entry_place k) == 0)
        (λ free. Listed-skip k _ (λ used. used (sym word ∙ (==_iff _ 0).0 free)) (rest s inv))
        (λ used.
          next k _ s (omega arith) low (λ e. ground (arith, used, word, e))
            (λ x from below. absurd (omega (arith, from, below))) word refl
            (λ i short. name_byte i short) inv)
    where
      word : load32 (s.cache.buffer p) (entry_place k) ≡ load32 (entry_block k) (entry_place k)
      word =
          load32-same (entry_block k) (s.cache.buffer p) (entry_place k) (entry_place k)
            (λ i h. agrees (entry_place k + i) (omega (arith, inside_block l k, h)))

      name_byte :
          (i : ℕ)
          → i < tfs_name_len
          → (if ltb i tfs_name_len then s.cache.buffer p (entry_place k + d_name + i) else 0)
            ≡ entry_block k (entry_place k + d_name + i)
      name_byte i short = ground (
        arith,
        short,
        agrees (entry_place k + d_name + i) (omega (arith, inside_block l k, short)),
      )

  at_end : IsListed → (k : ℕ) → k ≤ blocks * per → tfs_bmap inode (k / per) ≡ 0 → k ≡ blocks * per
  at_end l k high ends = elim (Bool-cases (ltb k (blocks * per))) [
    | inl low ↦
        absurd (l.mapped (k / per) ((div-lt_iff_lt-mul l.some_per).1 (ground (arith, low))) ends)
    | inr past ↦ ground (arith, past, high)
  ]

  not_end :
      IsListed → (k : ℕ) → k ≤ blocks * per → (tfs_bmap inode (k / per) ≡ 0 → ⊥) → k < blocks * per
  not_end l k high goes = elim (Bool-cases (ltb k (blocks * per))) [
    | inl low ↦ ground (arith, low)
    | inr past ↦
        let last : k ≡ blocks * per = ground (arith, past, high) in
        absurd (
          goes (
            ap (tfs_bmap inode) (ap (λ x. x / per) last ∙ mul-div_cancel blocks l.some_per)
            ∙ l.end))
  ]

  finished :
      (s : State dev)
      → IsListed
      → (k : ℕ) → k ≡ blocks * per
      → backed.Inv s
      → Listed k (some (none, file_at k, s))
  finished s l k last inv =
      rw last (none_left s (λ x from below. absurd (omega (arith, from, below))) inv)

  -- With more rounds than there are entries left, `tfs_readdir` at the place of entry `k` ends, where
  -- there is memory: it returns the number and the name bytes of the next entry in use, and moves the
  -- file behind it, or it returns NULL where no entry from `k` on is in use.
  pub tfs_readdir_lem :
      (null_data : Block) (fuel k : ℕ) (s : State dev)
      → IsListed
      → k ≤ blocks * per
      → blocks * per - k < fuel
      → backed.Inv s
      → Listed k (
          tfs_readdir dev sbi null_data true fuel s
            (record { inode = inode; offset = k * dir_entry_size }))
  unfolding tfs_readdir
  tfs_readdir_lem null_data zero k s l high enough inv = absurd (omega (arith, enough))
  tfs_readdir_lem null_data (suc fuel) k s l high enough inv =
      rw (block_at, place_of l k, moved)
        (if-cases (Listed k) (tfs_bmap inode (k / per) == 0)
          (λ ends. finished s l k (at_end l k high ((==_iff _ 0).0 ends)) inv)
          (λ goes.
            round-Listed null_data fuel k _ l (not_end l k high (λ e. ground (arith, goes, e)))
              (backed.get s (tfs_bmap inode (k / per)) inv)
              (λ s1 inv1.
                tfs_readdir_lem null_data fuel (k + 1) s1 l
                  (omega (arith, not_end l k high (λ e. ground (arith, goes, e))))
                  (omega (arith, enough, not_end l k high (λ e. ground (arith, goes, e)))) inv1)))
    where
      block_at : k * dir_entry_size / 2 ^ sbi.s_block_shift ≡ k / per
      block_at = ap (λ b. k * dir_entry_size / b) (sym l.shift) ∙ block_of l k

      moved : u32 (k * dir_entry_size + dir_entry_size) ≡ (k + 1) * dir_entry_size
      moved = omega (arith, l.fits, high)
