-- ===== src/Tfs/Alloc/Laws.antt =====
-- fs/tfs/balloc.c: which block is given out, and what becomes of the bitmap.
use thunix.Base.{
  ℕ, ◌+◌, ◌*◌, ◌%◌, ◌^◌, ◌<◌, ◌≡◌, refl, ◌≢◌, ◌⊎◌, inl, inr, true, false, not, Option, some, arith,
  ◌==◌, if◌then◌else◌, Memory, IsBytes,
}
use thunix.Base.Int.{pos, ℤ}
use native.Mathlib.Nat.{one-le-pow}
use thunix.Bitopts.{clear_bit, test_bit, minus_one, mask}
use thunix.Bitopts.Laws.{clear_bit_lem, bit, test_bit_lem, bit-set_bit, bit-clear_bit}
use thunix.Bitopts.Search.{IsFirstZero, at, none_clear, find_first_zero_lem}
use thunix.Cache.{Ptr}
use thunix.Tfs.{Block, Floppy, SbInfo, State, tfs_bwrite}
use thunix.Tfs.Alloc.{
  enospc, is_negative, write_back, tfs_read_block_bitmap, tfs_free_block, choose, take_block,
  tfs_alloc_block,
}

-- `k` is clear in the bitmap of `n` bits, and it is the goal, or else the goal is taken and `k` is
-- the first clear bit.
pub record IsChosen (bitmap : Block) (n goal k : ℕ) : Type 0 where
  pub clear : bit bitmap 0 k ≡ 0
  pub wanted :
      (k ≡ goal) ⊎ ((bit bitmap 0 goal ≡ 1) × (k < n) × ((j : ℕ) → j < k → bit bitmap 0 j ≡ 1))

pub data Chosen (bitmap : Block) (n goal : ℕ) : Option ℕ → Type 0 where
  chosen : (k : ℕ) → IsChosen bitmap n goal k → Chosen bitmap n goal (some k)
  full :
      bit bitmap 0 goal ≡ 1
      → ((j : ℕ) → j < n → bit bitmap 0 j ≡ 1)
      → Chosen bitmap n goal (some minus_one)

pub mask-ne_zero : (k : ℕ) → mask k ≢ 0
mask-ne_zero k e = omega (arith, one-le-pow (k % 8) 2 (omega arith))

pub bit-cases : (m : Memory) (j : ℕ) → (bit m 0 j ≡ 0) ⊎ (bit m 0 j ≡ 1)
bit-cases m j = omega arith

old_bit : (m : Memory) (k : ℕ) → IsBytes m → ((clear_bit m 0 k).0 == 0) ≡ (bit m 0 k == 0)
old_bit m k b = ground (arith, (clear_bit_lem m 0 k b).0, test_bit_lem m 0 k b, mask-ne_zero k)

module _ (dev : Floppy) (stray sbi : SbInfo) where
  -- Block `k` has been given out: its bit is set in the cached bitmap and nothing else is changed
  -- there, the bitmap has been handed to the disk, and the result is the block's number, or what
  -- `tfs_bwrite` returned if that is negative.
  pub record Granted (s : State dev) (p : Ptr) (k : ℕ) (out : ℤ × State dev) : Type 0 where
    pub marked :
        (j : ℕ)
        → bit (out.1.cache.buffer p) 0 j ≡ (if j == k then 1 else bit (s.cache.buffer p) 0 j)
    pub others : (q : Ptr) → q ≢ p → out.1.cache.buffer q ≡ s.cache.buffer q
    pub blocks : out.1.cache.block ≡ s.cache.block
    pub written :
        out.1.disk ≡ (tfs_bwrite dev s.disk sbi sbi.s_block_bitmap (out.1.cache.buffer p)).1
    pub result :
        let res = (tfs_bwrite dev s.disk sbi sbi.s_block_bitmap (out.1.cache.buffer p)).0 in
        out.0 ≡ (if is_negative res then res else pos k)

  -- What `tfs_alloc_block` comes to when the bitmap of `n` bits lies in the buffer of `p`.
  pub data Allocated (s : State dev) (p : Ptr) (n goal : ℕ) (out : ℤ × State dev) : Type 0 where
    granted :
        (k : ℕ)
        → IsChosen (s.cache.buffer p) n goal k
        → Granted s p k out
        → Allocated s p n goal out
    no_space :
        bit (s.cache.buffer p) 0 goal ≡ 1
        → ((j : ℕ) → j < n → bit (s.cache.buffer p) 0 j ≡ 1)
        → out ≡ (enospc, s)
        → Allocated s p n goal out

  take_block-Granted :
      (s : State dev) (p : Ptr) (k : ℕ)
      → IsBytes (s.cache.buffer p)
      → k < 2 ^ 31
      → Granted s p k (take_block dev stray sbi s p (some k))
  unfolding take_block write_back
  take_block-Granted s p k b h = record {
    marked = λ j. ground (arith, bit-set_bit (s.cache.buffer p) 0 k b j);
    others = λ q ne. ground arith;
    blocks = ground arith;
    written = ground arith;
    result = ground arith;
  }

  -- `tfs_free_block`, once the bitmap has been read: the block's bit is clear afterwards and every
  -- other bit of the cached bitmap is as before; the bitmap is written, and the result is that of
  -- the write, if the block was taken, and otherwise nothing is written and the result is 0.
  pub tfs_free_block_lem :
      (s s1 : State dev) (p : Ptr) (k : ℕ)
      → tfs_read_block_bitmap dev stray sbi s ≡ (some p, s1)
      → IsBytes (s1.cache.buffer p)
      → let out = tfs_free_block dev stray sbi s k in
        let write = tfs_bwrite dev s1.disk sbi sbi.s_block_bitmap (out.1.cache.buffer p) in
        ((j : ℕ)
          → bit (out.1.cache.buffer p) 0 j ≡ (if j == k then 0 else bit (s1.cache.buffer p) 0 j))
        × (out.0 ≡ (if bit (s1.cache.buffer p) 0 k == 0 then pos 0 else write.0))
        × (out.1.disk ≡ (if bit (s1.cache.buffer p) 0 k == 0 then s1.disk else write.1))
  unfolding tfs_free_block write_back
  tfs_free_block_lem s s1 p k e b =
      rw (e, tfs_free_block)
        (
          λ j. ground (arith, bit-clear_bit (s1.cache.buffer p) 0 k b j),
          ground (arith, old_bit (s1.cache.buffer p) k b),
          ground (arith, old_bit (s1.cache.buffer p) k b),
        )

  module _ (words : ℕ) (size : sbi.s_block_size ≡ 4 * words) (small : 32 * words < 2 ^ 31) where
    pub taken :
        (bitmap : Block) (goal r : ℕ)
        → bit bitmap 0 goal ≡ 1
        → IsFirstZero bitmap 0 (32 * words) r
        → Chosen bitmap (32 * words) goal (some r)
    taken bitmap goal r h (at lt z ones) =
        chosen r (record { clear = z; wanted = inr (h, lt, ones) })
    taken bitmap goal r h (none_clear e ones) = rw e (full h ones)

    choose-Chosen :
        (bitmap : Block) (goal : ℕ)
        → IsBytes bitmap
        → Chosen bitmap (32 * words) goal (choose dev stray sbi bitmap goal)
    unfolding choose
    choose-Chosen bitmap goal b = elim (bit-cases bitmap goal) [
      | inl z ↦ rw (clear_test z) (chosen goal (record { clear = z; wanted = inl refl }))
      | inr o ↦
          let (r, e, first) = find_first_zero_lem bitmap 0 words b (omega arith) in
          rw (set_test o, size, rw zero_add at e) (taken bitmap goal r o first)
    ]
      where
        zero_add : 0 + 4 * words ≡ 4 * words
        zero_add = omega arith

        clear_test : bit bitmap 0 goal ≡ 0 → not (test_bit bitmap 0 goal == 0) ≡ false
        clear_test z = ground (arith, test_bit_lem bitmap 0 goal b)

        set_test : bit bitmap 0 goal ≡ 1 → not (test_bit bitmap 0 goal == 0) ≡ true
        set_test o = ground (arith, test_bit_lem bitmap 0 goal b, mask-ne_zero goal)

    allocated :
        (s : State dev) (p : Ptr) (goal : ℕ) (o : Option ℕ)
        → IsBytes (s.cache.buffer p)
        → goal < 2 ^ 31
        → Chosen (s.cache.buffer p) (32 * words) goal o
        → Allocated s p (32 * words) goal (take_block dev stray sbi s p o)
    unfolding take_block
    allocated s p goal _ b h (chosen k c) =
        granted k c (take_block-Granted s p k b (omega (arith, c.wanted)))
    allocated s p goal _ b h (full g ones) = no_space g ones refl

    -- `tfs_alloc_block`, once the bitmap has been read: it gives out the goal if it is free, else the
    -- first free block, marks it and only it in the cached bitmap, and writes the bitmap; or, exactly
    -- when the goal and every block of the bitmap are taken, it returns `-ENOSPC` and changes nothing.
    pub tfs_alloc_block_lem :
        (s s1 : State dev) (p : Ptr) (goal : ℕ)
        → tfs_read_block_bitmap dev stray sbi s ≡ (some p, s1)
        → IsBytes (s1.cache.buffer p)
        → goal < 2 ^ 31
        → Allocated s1 p (32 * words) goal (tfs_alloc_block dev stray sbi s goal)
    unfolding tfs_alloc_block
    tfs_alloc_block_lem s s1 p goal e b h =
        rw (e, tfs_alloc_block)
          (allocated s1 p goal (choose dev stray sbi (s1.cache.buffer p) goal) b h
            (choose-Chosen (s1.cache.buffer p) goal b))
