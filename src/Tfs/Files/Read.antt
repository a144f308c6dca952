-- ===== src/Tfs/Files/Read.antt =====
-- fs/tfs/file.c: `tfs_read` reads the blocks of the file that the disk holds.
use thunix.Base.{
  ℕ, zero, suc, ◌+◌, ◌-◌, ◌*◌, ◌/◌, ◌^◌, ◌≤◌, ◌<◌, ◌≡◌, refl, ◌≢◌, ◌⊎◌, inl, inr, false, Option,
  some, arith, leb, ◌==◌, Bool-cases, Memory,
}
use thunix.Base.Int.{pos, ℤ}
use native.Mathlib.Nat.{suc-mul}
use thunix.Cache.{Ptr}
use thunix.Tfs.{Block, Floppy, SbInfo, State}
use thunix.Tfs.Inodes.{Inode, tfs_bmap}
use thunix.Tfs.Files.{File, load_bytes, read_blocks, tfs_read}
use thunix.Tfs.Files.Backed.{Gives, gives, Backed}

module _ (dev : Floppy) (sbi : SbInfo) (contents : ℕ → Block)
    (backed : Backed dev sbi contents) where
  -- `n` blocks of the file from `index` on have been read into the buffer, as many as were asked for
  -- unless the file has no block at `index + n`, and nothing else of memory has changed.
  pub record HasRead (inode : Inode) (index : ℕ) (m : Memory) (buf blocks bytes : ℕ)
      (out : ℤ × Memory × State dev) : Type 0 where
    pub n : ℕ
    pub at_most : n ≤ blocks
    pub mapped : (i : ℕ) → i < n → tfs_bmap inode (index + i) ≢ 0
    pub stops : (n ≡ blocks) ⊎ (tfs_bmap inode (index + n) ≡ 0)
    pub result : out.0 ≡ pos (bytes + n * sbi.s_block_size)
    pub bytes_of :
        (i x : ℕ)
        → i < n
        → x < sbi.s_block_size
        → out.1 (buf + i * sbi.s_block_size + x) ≡ contents (tfs_bmap inode (index + i)) x
    pub others : (a : ℕ) → (a < buf) ⊎ (buf + n * sbi.s_block_size ≤ a) → out.1 a ≡ m a
    pub inv : backed.Inv out.2

  HasRead-none :
      (s : State dev) (inode : Inode) (index : ℕ) (m : Memory) (buf blocks bytes : ℕ)
      → backed.Inv s
      → (0 ≡ blocks) ⊎ (tfs_bmap inode (index + 0) ≡ 0)
      → HasRead inode index m buf blocks bytes (pos bytes, m, s)
  HasRead-none s inode index m buf blocks bytes i stop = record {
    n = 0;
    at_most = omega arith;
    mapped = λ i h. absurd (omega arith);
    stops = stop;
    result = ground arith;
    bytes_of = λ i x h. absurd (omega arith);
    others = λ a h. refl;
    inv = i;
  }

  HasRead-bytes_of :
      (s : State dev) (inode : Inode) (index : ℕ) (m : Memory) (buf blocks bytes : ℕ)
      (block : Block) (out : ℤ × Memory × State dev)
      → ((x : ℕ) → x < sbi.s_block_size → block x ≡ contents (tfs_bmap inode index) x)
      → (r : HasRead inode
          (index + 1)
          (load_bytes m buf block sbi.s_block_size)
          (buf + sbi.s_block_size)
          blocks
          (bytes + sbi.s_block_size)
          out)
      → (i x : ℕ) → i < suc r.n
      → x < sbi.s_block_size
      → out.1 (buf + i * sbi.s_block_size + x) ≡ contents (tfs_bmap inode (index + i)) x
  unfolding load_bytes
  HasRead-bytes_of s inode index m buf blocks bytes block out found r zero x h hx =
      ground (arith, found x hx, r.others (buf + x))
  HasRead-bytes_of s inode index m buf blocks bytes block out found r (suc i) x h hx =
      ground (arith, r.bytes_of i x, suc-mul i sbi.s_block_size)

  HasRead-suc :
      (s : State dev) (inode : Inode) (index : ℕ) (m : Memory) (buf blocks bytes : ℕ)
      (block : Block) (out : ℤ × Memory × State dev)
      → tfs_bmap inode index ≢ 0
      → ((x : ℕ) → x < sbi.s_block_size → block x ≡ contents (tfs_bmap inode index) x)
      → HasRead inode
          (index + 1)
          (load_bytes m buf block sbi.s_block_size)
          (buf + sbi.s_block_size)
          blocks
          (bytes + sbi.s_block_size)
          out
      → HasRead inode index m buf (suc blocks) bytes out
  unfolding load_bytes
  HasRead-suc s inode index m buf blocks bytes block out ne found r = record {
    n = suc r.n;
    at_most = omega (arith, r.at_most);
    mapped = λ i h. ground (arith, r.mapped (i - 1));
    stops = ground (arith, r.stops);
    result = ground (arith, r.result, suc-mul r.n sbi.s_block_size);
    bytes_of = HasRead-bytes_of s inode index m buf blocks bytes block out found r;
    others = λ a h. ground (arith, r.others a, suc-mul r.n sbi.s_block_size);
    inv = r.inv;
  }

  Gives-got :
      (block : Block) (out : Option Ptr × State dev)
      → Gives dev sbi backed.Inv block out
      → (p : Ptr) × (s1 : State dev) × (out ≡ (some p, s1))
        × backed.Inv s1
        × ((x : ℕ) → x < sbi.s_block_size → s1.cache.buffer p x ≡ block x)
  Gives-got block _ (gives p s inv found) = (p, s, refl, inv, found)

  read_zero :
      (s : State dev) (inode : Inode) (index : ℕ) (m : Memory) (buf bytes : ℕ)
      → backed.Inv s
      → HasRead inode index m buf zero bytes (read_blocks dev sbi zero s inode index m buf bytes)
  unfolding read_blocks
  read_zero s inode index m buf bytes h = HasRead-none s inode index m buf zero bytes h (inl refl)

  read_step :
      (blocks : ℕ) (s : State dev) (inode : Inode) (index : ℕ) (m : Memory) (buf bytes : ℕ)
      → backed.Inv s
      → HasRead inode index m buf blocks bytes
          (read_blocks dev sbi blocks s inode index m buf bytes)
  unfolding read_blocks
  read_step zero s inode index m buf bytes h = read_zero s inode index m buf bytes h
  read_step (suc blocks) s inode index m buf bytes h =
      elim (Bool-cases (tfs_bmap inode index == 0)) [
        | inl e ↦ rw e (HasRead-none s inode index m buf (suc blocks) bytes h (inr (ground arith)))
        | inr e ↦
            let (p, s1, got, inv, found) = Gives-got _ _ (backed.get s (tfs_bmap inode index) h) in
            rw (e, got)
              (HasRead-suc s inode index m buf blocks bytes (s1.cache.buffer p) _ (ground arith)
                found (read_step blocks s1 inode (index + 1) _ _ _ inv))
      ]

  -- Where the cache backs the disk, `tfs_read` of at least one block, from a place inside the file,
  -- reads whole blocks from the one that holds the place: as many as were asked for, or up to the
  -- first that the file does not have. It returns their bytes' number, leaves in the buffer what the
  -- disk holds in them, and changes no other byte.
  pub tfs_read_lem :
      (s : State dev) (file : File) (m : Memory) (buf blocks : ℕ)
      → backed.Inv s
      → 0 < blocks
      → file.offset < file.inode.i_size
      → HasRead file.inode
          (file.offset / 2 ^ sbi.s_block_shift)
          m
          buf
          blocks
          0
          (tfs_read dev sbi s file m buf blocks)
  unfolding tfs_read
  tfs_read_lem s file m buf blocks h some_blocks inside =
      rw (not_zero, not_past)
        (read_step blocks s file.inode (file.offset / 2 ^ sbi.s_block_shift) m buf 0 h)
    where
      not_zero : (blocks == 0) ≡ false
      not_zero = ground arith

      not_past : leb file.inode.i_size file.offset ≡ false
      not_past = ground arith
