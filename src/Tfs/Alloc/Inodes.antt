-- ===== src/Tfs/Alloc/Inodes.antt =====
-- fs/tfs/ialloc.c: which inode is given out, and what becomes of the bitmap.
use thunix.Base.{
  ℕ, suc, ◌+◌, ◌-◌, ◌*◌, ◌%◌, ◌^◌, ◌<◌, ◌≡◌, refl, ap, ◌∙◌, ◌≢◌, inl, inr, true, false, ◌&&◌,
  Option, some, arith, ◌==◌, if◌then◌else◌, IsBytes,
}
use thunix.Base.Int.{pos, ℤ}
use native.Mathlib.Nat.{pow-suc}
use thunix.Bitopts.{set_bit, test_bit, mask}
use thunix.Bitopts.Laws.{bit, test_bit_lem, bit-set_bit, bit-clear_bit, set_bit-IsBytes}
use thunix.Bitopts.Search.{find_first_zero_lem}
use thunix.Cache.{Ptr}
use thunix.Tfs.{Block, Floppy, SbInfo, State, tfs_bwrite, is_zero}
use thunix.Tfs.Alloc.{
  enospc, write_back, tfs_read_inode_bitmap, choose_inode, take_inode, tfs_alloc_inode,
}
use thunix.Tfs.Alloc.Laws.{IsChosen, Chosen, chosen, full, bit-cases, taken}

test_bit_one :
    (m : Block) (k : ℕ) → IsBytes m → k % 8 ≡ 0 → (test_bit m 0 k == 1) ≡ (bit m 0 k == 1)
test_bit_one m k b h =
    let one : mask k ≡ 1 = ap (λ (t : ℕ). 2 ^ t) h in
    ground (arith, test_bit_lem m 0 k b, one, bit-cases m k)

-- `1 << (nr & 7)` is 1 only for the lowest bit of a byte.
test_bit_ne_one : (m : Block) (k : ℕ) → IsBytes m → k % 8 ≢ 0 → (test_bit m 0 k == 1) ≡ false
test_bit_ne_one m k b h =
    let even : mask k ≡ 2 * 2 ^ (k % 8 - 1) =
      ap (λ (t : ℕ). 2 ^ t) (suc_pred (k % 8) h) ∙ twice (k % 8 - 1) in
    ground (arith, test_bit_lem m 0 k b, even)
  where
    suc_pred : (d : ℕ) → d ≢ 0 → d ≡ suc (d - 1)
    suc_pred d ne = omega arith

    twice : (d : ℕ) → 2 ^ suc d ≡ 2 * 2 ^ d
    twice d = omega (arith, pow-suc 2 d)

module _ (dev : Floppy) (stray sbi : SbInfo) where
  -- what `tfs_bwrite` returns for a cached bitmap with bit `k` set
  abbrev pub write_result : State dev → Ptr → ℕ → ℤ
  write_result s p k =
      (tfs_bwrite dev s.disk sbi sbi.s_inode_bitmap (set_bit (s.cache.buffer p) 0 k).1).0

  -- Inode `k + 1` has been given out: bit `k` is set in the cached bitmap, and no other bit is
  -- changed; or the write failed, the result is its error and every bit is as before.
  pub record GrantedInode (s : State dev) (p : Ptr) (k : ℕ) (out : ℤ × State dev) : Type 0 where
    pub result : out.0 ≡ (if is_zero (write_result s p k) then pos (k + 1) else write_result s p k)
    pub marked :
        (j : ℕ)
        → bit (out.1.cache.buffer p) 0 j
          ≡ (if (j == k) && is_zero (write_result s p k) then 1 else bit (s.cache.buffer p) 0 j)
    pub others : (q : Ptr) → q ≢ p → out.1.cache.buffer q ≡ s.cache.buffer q

  take_inode-Granted :
      (s : State dev) (p : Ptr) (k : ℕ)
      → IsBytes (s.cache.buffer p)
      → bit (s.cache.buffer p) 0 k ≡ 0
      → k < 2 ^ 31
      → GrantedInode s p k (take_inode dev stray sbi s p (some k))
  unfolding take_inode write_back
  take_inode-Granted s p k b z h = record {
    result = ground arith;
    marked = λ j. ground (
      arith,
      bit-set_bit (s.cache.buffer p) 0 k b j,
      bit-clear_bit (set_bit (s.cache.buffer p) 0 k).1 0 k
          (set_bit-IsBytes (s.cache.buffer p) 0 k b) j,
    );
    others = λ q ne. ground arith;
  }

  -- What `tfs_alloc_inode` comes to when the bitmap of `n` bits lies in the buffer of `p` and inode
  -- `goal + 1` is asked for.
  pub data AllocatedInode (s : State dev) (p : Ptr) (n goal : ℕ) (out : ℤ × State dev)
      : Type 0 where
    granted :
        (k : ℕ)
        → IsChosen (s.cache.buffer p) n goal k
        → GrantedInode s p k out
        → AllocatedInode s p n goal out
    no_space :
        bit (s.cache.buffer p) 0 goal ≡ 1
        → ((j : ℕ) → j < n → bit (s.cache.buffer p) 0 j ≡ 1)
        → out ≡ (enospc, s)
        → AllocatedInode s p n goal out

  module _ (words : ℕ) (size : sbi.s_block_size ≡ 4 * words) (small : 32 * words < 2 ^ 31) where
    choose_inode-Chosen :
        (bitmap : Block) (goal : ℕ)
        → IsBytes bitmap
        → goal % 8 ≡ 0
        → Chosen bitmap (32 * words) goal (choose_inode dev stray sbi bitmap goal)
    unfolding choose_inode
    choose_inode-Chosen bitmap goal b h = elim (bit-cases bitmap goal) [
      | inl z ↦
          rw (test_bit_one bitmap goal b h, clear_bit_test z)
            (chosen goal (record { clear = z; wanted = inl refl }))
      | inr o ↦
          let (r, e, first) = find_first_zero_lem bitmap 0 words b (omega arith) in
          rw (test_bit_one bitmap goal b h, set_bit_test o, size, rw zero_add at e)
            (taken dev stray sbi words size small bitmap goal r o first)
    ]
      where
        zero_add : 0 + 4 * words ≡ 4 * words
        zero_add = omega arith

        clear_bit_test : bit bitmap 0 goal ≡ 0 → (bit bitmap 0 goal == 1) ≡ false
        clear_bit_test z = ground arith

        set_bit_test : bit bitmap 0 goal ≡ 1 → (bit bitmap 0 goal == 1) ≡ true
        set_bit_test o = ground arith

    allocated_inode :
        (s : State dev) (p : Ptr) (goal : ℕ) (o : Option ℕ)
        → IsBytes (s.cache.buffer p)
        → goal < 2 ^ 31
        → Chosen (s.cache.buffer p) (32 * words) goal o
        → AllocatedInode s p (32 * words) goal (take_inode dev stray sbi s p o)
    unfolding take_inode
    allocated_inode s p goal _ b h (chosen k c) =
        granted k c (take_inode-Granted s p k b c.clear (omega (arith, c.wanted)))
    allocated_inode s p goal _ b h (full g ones) = no_space g ones refl

    -- `tfs_alloc_inode`, once the bitmap has been read, asked for an inode whose bit is the lowest
    -- of its byte, such as `TFS_ROOT_INODE`, which is all that fs/tfs asks for: it gives out that
    -- inode if it is free, else the first free one, and marks it and only it; a failed write is
    -- reported and leaves every bit as before; and exactly when that inode and all of the bitmap
    -- are taken, it returns `-ENOSPC` and changes nothing.
    pub tfs_alloc_inode_lem :
        (s s1 : State dev) (p : Ptr) (goal : ℕ)
        → tfs_read_inode_bitmap dev stray sbi s ≡ (some p, s1)
        → IsBytes (s1.cache.buffer p)
        → goal < 2 ^ 31
        → goal % 8 ≡ 0
        → AllocatedInode s1 p (32 * words) goal (tfs_alloc_inode dev stray sbi s (suc goal))
    unfolding tfs_alloc_inode
    tfs_alloc_inode_lem s s1 p goal e b h low =
        rw (e, tfs_alloc_inode)
          (allocated_inode s1 p goal (choose_inode dev stray sbi (s1.cache.buffer p) goal) b h
            (choose_inode-Chosen (s1.cache.buffer p) goal b low))

  -- Asked for an inode that is taken, and whose bit is not the lowest of its byte,
  -- `tfs_alloc_inode` gives out that same inode once more and leaves every bit of the cached bitmap
  -- as it was, if the bitmap can be read and written.
  pub tfs_alloc_inode_twice :
      (s s1 : State dev) (p : Ptr) (goal : ℕ)
      → tfs_read_inode_bitmap dev stray sbi s ≡ (some p, s1)
      → IsBytes (s1.cache.buffer p)
      → goal < 2 ^ 31
      → goal % 8 ≢ 0
      → bit (s1.cache.buffer p) 0 goal ≡ 1
      → is_zero (write_result s1 p goal) ≡ true
      → let out = tfs_alloc_inode dev stray sbi s (suc goal) in
        (out.0 ≡ pos (suc goal))
        × ((j : ℕ) → bit (out.1.cache.buffer p) 0 j ≡ bit (s1.cache.buffer p) 0 j)
  unfolding tfs_alloc_inode take_inode write_back choose_inode
  tfs_alloc_inode_twice s s1 p goal e b h low taken_bit written =
      rw (e, tfs_alloc_inode, test_bit_ne_one (s1.cache.buffer p) goal b low)
        (ground arith, λ j. ground (arith, bit-set_bit (s1.cache.buffer p) 0 goal b j))
