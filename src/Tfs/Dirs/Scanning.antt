-- ===== src/Tfs/Dirs/Scanning.antt =====
-- fs/tfs/dir.c, `tfs_add_entry`: the loop that looks for a free entry, where the cache backs the disk.
use thunix.Base.{
  ℕ, zero, suc, ◌+◌, ◌-◌, ◌*◌, ◌<◌, ◌≡◌, sym, ap, ◌∙◌, ◌≢◌, inl, inr, false, Option, some, arith,
  ltb, ◌==◌, ==_iff, Bool-cases, if-cases, zero-cases, load32,
}
use mathlib.Core.Path.{subst}
use native.Mathlib.Nat.{suc-mul}
use thunix.Cache.{Ptr}
use thunix.Tfs.{Block, Floppy, SbInfo, State}
use thunix.Tfs.Inodes.{Inode, tfs_n_blocks}
use thunix.Tfs.Files.Backed.{Gives, gives, Backed}
use thunix.Tfs.Dirs.{dir_entry_size}
use thunix.Tfs.Dirs.Overlay.{load32-same}
use thunix.Tfs.Dirs.Add.{Slot, Scan, scan_block, scan_next, scan_from}

whole_blocks : (r per : ℕ) → 0 < r → per + (r - 1) * per ≡ r * per
whole_blocks zero per some_r = absurd (omega (arith, some_r))
whole_blocks (suc r) per some_r = rw before (omega (arith, suc-mul r per))
  where
    before : suc r - 1 ≡ r
    before = omega arith

module _ (contents : ℕ → Block) (dir : Inode) (per : ℕ) where
  -- the inode's number in entry `j` of block `i` of the directory, as the disk holds it
  abbrev pub number_in : ℕ → ℕ → ℕ
  number_in i j = load32 (contents (dir.i_data i)) (j * dir_entry_size)

  -- The blocks before `i` are there, and all of their entries and those of block `i` before `j` are in
  -- use.
  pub record UsedBefore (i j : ℕ) : Type 0 where
    pub mapped : (k : ℕ) → k < i → dir.i_data k ≢ 0
    pub blocks : (k l : ℕ) → k < i → l < per → number_in k l ≢ 0
    pub here : (l : ℕ) → l < j → number_in i l ≢ 0

  pub none_before : UsedBefore 0 0
  none_before = record {
    mapped = λ k low. absurd (omega (arith, low));
    blocks = λ k l low inside. absurd (omega (arith, low));
    here = λ l low. absurd (omega (arith, low));
  }

  entry_used : (i j : ℕ) → UsedBefore i j → number_in i j ≢ 0 → UsedBefore i (j + 1)
  entry_used i j u used = record {
    mapped = u.mapped;
    blocks = u.blocks;
    here = λ l low. elim (Bool-cases (l == j)) [
      | inl last ↦ λ e. used (ap (number_in i) (sym ((==_iff _ _).0 last)) ∙ e)
      | inr other ↦ u.here l (ground (arith, low, other))
    ];
  }

  block_used : (i : ℕ) → dir.i_data i ≢ 0 → UsedBefore i per → UsedBefore (i + 1) 0
  block_used i there u = record {
    mapped = λ k low. elim (Bool-cases (k == i)) [
      | inl last ↦ λ e. there (ap dir.i_data (sym ((==_iff _ _).0 last)) ∙ e)
      | inr other ↦ u.mapped k (ground (arith, low, other))
    ];
    blocks = λ k l low inside. elim (Bool-cases (k == i)) [
      | inl last ↦ λ e. u.here l inside (ap (λ b. number_in b l) (sym ((==_iff _ _).0 last)) ∙ e)
      | inr other ↦ u.blocks k l (ground (arith, low, other)) inside
    ];
    here = λ l low. absurd (omega (arith, low));
  }

module _ (dev : Floppy) (sbi : SbInfo) (contents : ℕ → Block) (backed : Backed dev sbi contents)
    (dir : Inode) (per : ℕ) where
  -- block `i` of the directory is in the buffer of `p`, and what stands before its entry `j` is in use
  pub record IsAt (s : State dev) (i j : ℕ) (p : Ptr) : Type 0 where
    pub inv : backed.Inv s
    pub agrees : (x : ℕ) → x < sbi.s_block_size → s.cache.buffer p x ≡ contents (dir.i_data i) x
    pub there : dir.i_data i ≢ 0
    pub before : UsedBefore contents dir per i j

  -- What the loop comes to: the first free entry, or that all are in use; it is never out of rounds.
  pub data Scanned : Option (Slot × State dev) → Type 0 where
    at :
        (s : State dev) (i j : ℕ) (p : Ptr) (de : ℕ)
        → IsAt s i j p
        → j < per
        → de ≡ j * dir_entry_size
        → number_in contents dir per i j ≡ 0
        → Scanned (some (Slot.free (dir.i_data i) p de, s))
    full :
        (s : State dev) (n : ℕ)
        → backed.Inv s
        → UsedBefore contents dir per n 0
        → dir.i_data n ≡ 0
        → Scanned (some (Slot.no_block (n + 1), s))

  -- Blocks of `per` entries, and no block behind the eighth.
  pub record IsBounded : Type 0 where
    pub some_per : 0 < per
    pub size : sbi.s_block_size ≡ per * dir_entry_size
    pub last : dir.i_data tfs_n_blocks ≡ 0

  stopped-Scanned :
      (fuel : ℕ) (slot : Slot) (s : State dev)
      → 0 < fuel
      → Scanned (some (slot, s))
      → Scanned (scan_from dev sbi fuel dir (Scan.stopped slot s))
  unfolding scan_from
  stopped-Scanned zero slot s some_fuel ok = absurd (omega (arith, some_fuel))
  stopped-Scanned (suc fuel) slot s some_fuel ok = ok

  -- the test of one entry
  step-Scanned :
      (fuel : ℕ) (s : State dev) (i j : ℕ) (p : Ptr) (de : ℕ)
      → IsBounded
      → IsAt s i j p
      → j < per
      → de ≡ j * dir_entry_size
      → (number_in contents dir per i j ≢ 0
          → Scanned (
              scan_from dev sbi fuel dir
                (scan_next dev sbi dir s (dir.i_data i) (i + 1) p (de + dir_entry_size))))
      → Scanned (scan_from dev sbi (suc fuel) dir (Scan.looking s (dir.i_data i) (i + 1) p de))
  unfolding scan_from
  step-Scanned fuel s i j p de b is inside place rest =
      if-cases Scanned (load32 (s.cache.buffer p) de == 0)
        (λ free. at s i j p de is inside place (sym same ∙ (==_iff _ 0).0 free))
        (λ used. rest (λ e. ground (arith, used, same ∙ e)))
    where
      same : load32 (s.cache.buffer p) de ≡ number_in contents dir per i j
      same =
          load32-same (contents (dir.i_data i)) (s.cache.buffer p) (j * dir_entry_size) de (λ k low.
            is.agrees (de + k) (omega (arith, low, place, inside, b.size))
            ∙ ap (contents (dir.i_data i)) (omega (arith, place)))

  pub block-Scanned :
      (fuel i : ℕ) (got : Option Ptr × State dev)
      → dir.i_data i ≢ 0
      → UsedBefore contents dir per i 0
      → Gives dev sbi backed.Inv (contents (dir.i_data i)) got
      → ((s : State dev) (p : Ptr)
          → IsAt s i 0 p
          → Scanned (scan_from dev sbi fuel dir (Scan.looking s (dir.i_data i) (i + 1) p 0)))
      → Scanned (scan_from dev sbi fuel dir (scan_block dev sbi (dir.i_data i) (i + 1) got))
  unfolding scan_block
  block-Scanned fuel i _ there before (gives p s inv agrees) next =
      next s p (record { inv = inv; agrees = agrees; there = there; before = before })

  -- from entry `j` of block `i`, with `left` entries of it and `r` blocks to go
  pub scan_from-Scanned :
      (fuel left r : ℕ) (s : State dev) (i j : ℕ) (p : Ptr) (de : ℕ)
      → IsBounded
      → 0 < left
      → j + left ≡ per
      → de ≡ j * dir_entry_size
      → i + 1 + r ≡ tfs_n_blocks
      → left + r * per < fuel
      → IsAt s i j p
      → Scanned (scan_from dev sbi fuel dir (Scan.looking s (dir.i_data i) (i + 1) p de))
  unfolding scan_next
  scan_from-Scanned zero left r s i j p de b some_left to_end place indices enough is =
      absurd (omega (arith, enough))
  scan_from-Scanned (suc fuel) zero r s i j p de b some_left to_end place indices enough is =
      absurd (omega (arith, some_left))
  scan_from-Scanned (suc fuel) (suc left) r s i j p de b some_left to_end place indices enough is =
      step-Scanned fuel s i j p de b is (omega (arith, to_end)) place (λ used.
        if-cases (λ (sc : Scan dev sbi). Scanned (scan_from dev sbi fuel dir sc))
          (ltb (de + dir_entry_size) sbi.s_block_size)
          (λ inside.
            scan_from-Scanned fuel left r s i (j + 1) p (de + dir_entry_size) b
              (ground (arith, inside, to_end, place, b.size)) (omega (arith, to_end))
              (omega (arith, place)) indices (omega (arith, enough))
              (record {
                inv = is.inv;
                agrees = is.agrees;
                there = is.there;
                before = entry_used contents dir per i j is.before used;
              }))
          (λ outside.
            let all : UsedBefore contents dir per (i + 1) 0 =
              block_used contents dir per i is.there (
                subst (UsedBefore contents dir per i)
                  (ground (arith, outside, to_end, place, b.size))
                  (entry_used contents dir per i j is.before used)) in
            if-cases (λ (sc : Scan dev sbi). Scanned (scan_from dev sbi fuel dir sc))
              (dir.i_data (i + 1) == 0)
              (λ last.
                stopped-Scanned fuel _ s (omega (arith, enough))
                  (full s (i + 1) is.inv all ((==_iff _ 0).0 last)))
              (λ more.
                block-Scanned fuel (i + 1) _ (λ e. ground (arith, more, e)) all
                  (backed.get s (dir.i_data (i + 1)) is.inv)
                  (λ s1 q is1.
                    scan_from-Scanned fuel per (r - 1) s1 (i + 1) 0 q 0 b b.some_per (omega arith)
                      (omega arith) (omega (arith, indices, some_blocks b more)) (fuel_left b more)
                      is1))))
    where
      some_blocks : IsBounded → (dir.i_data (i + 1) == 0) ≡ false → 0 < r
      some_blocks b more = elim (zero-cases r) [
        | inl none_left ↦ absurd (ground (arith, more, b.last, ap dir.i_data (at_last none_left)))
        | inr more_left ↦ omega (arith, more_left)
      ]
        where
          at_last : r ≡ 0 → i + 1 ≡ tfs_n_blocks
          at_last none_left = omega (arith, none_left, indices)

      fuel_left : IsBounded → (dir.i_data (i + 1) == 0) ≡ false → per + (r - 1) * per < fuel
      fuel_left b more = omega (arith, whole_blocks r per (some_blocks b more), enough)
