-- ===== src/Tfs/Dirs/Entries.antt =====
-- fs/tfs/dir.c, `tfs_find_entry`: the search through the blocks of a directory that the cache backs.
use thunix.Base.{
  ℕ, zero, suc, ◌+◌, ◌*◌, ◌/◌, ◌%◌, ◌≤◌, ◌<◌, ◌≡◌, sym, ap, ◌∙◌, ◌≢◌, inl, inr, true, false, Option,
  List, arith, ltb, ◌==◌, Bool-cases, if-cases, length,
}
use native.Mathlib.Nat.{
  add-mul-div_right, add-mul-mod_self_right, div-add-mod', div-eq_of_lt, div_self, mod-eq_of_lt,
  mod_self, mod-lt, suc-mul, div-lt_iff_lt-mul,
}
use thunix.Strings.Scan.{CStr}
use thunix.Cache.{Ptr}
use thunix.Tfs.{Block, Floppy, SbInfo, State}
use thunix.Tfs.Inodes.{Inode}
use thunix.Tfs.Files.Backed.{Gives, Backed}
use thunix.Tfs.Dirs.{
  At, Lookup, dir_entry_size, d_name, tfs_name_len, first_entry, next_entry, start,
}

next_place : (k per : ℕ) → k + 1 ≡ (k % per + 1) + k / per * per
next_place k per = omega (arith, div-add-mod' k per)

-- the place behind `k` in blocks of `per` entries
after_inside :
    (k per : ℕ)
    → 0 < per
    → k % per + 1 < per
    → ((k + 1) / per ≡ k / per) × ((k + 1) % per ≡ k % per + 1)
after_inside k per some_per inside = (
  ap (λ x. x / per) (next_place k per)
      ∙ add-mul-div_right (k % per + 1) (k / per) some_per
      ∙ rw (div-eq_of_lt inside) (omega arith),
  ap (λ x. x % per) (next_place k per)
      ∙ add-mul-mod_self_right (k % per + 1) (k / per) per
      ∙ mod-eq_of_lt inside,
)

after_last :
    (k per : ℕ) → 0 < per → per ≤ k % per + 1 → ((k + 1) / per ≡ k / per + 1) × ((k + 1) % per ≡ 0)
after_last k per some_per last = (
  ap (λ x. x / per) (next_place k per)
      ∙ add-mul-div_right (k % per + 1) (k / per) some_per
      ∙ rw (full, div_self some_per) (omega arith),
  ap (λ x. x % per) (next_place k per)
      ∙ add-mul-mod_self_right (k % per + 1) (k / per) per
      ∙ rw full (mod_self per),
)
  where
    full : k % per + 1 ≡ per
    full = omega (arith, last, mod-lt k some_per)

product_pos : (a b : ℕ) → 0 < a → 0 < b → 0 < a * b
product_pos zero b some_a some_b = absurd (omega (arith, some_a))
product_pos (suc a) b some_a some_b = omega (arith, suc-mul a b, some_b)

ltb-true : (a b : ℕ) → ltb a b ≡ true → a < b
ltb-true a b e = ground (arith, e)

ltb-false : (a b : ℕ) → ltb a b ≡ false → b ≤ a
ltb-false a b e = ground (arith, e)

module _ (dev : Floppy) (sbi : SbInfo) (contents : ℕ → Block)
    (backed : Backed dev sbi contents) where
  -- a directory of `blocks` blocks with `per` entries each; `name_of k` is the name in entry `k`
  pub record IsDirectory (inode : Inode) (blocks per : ℕ) (name_of : ℕ → List ℕ) : Type 0 where
    pub some_per : 0 < per
    pub some_blocks : 0 < blocks
    pub size : sbi.s_block_size ≡ per * dir_entry_size
    pub first : inode.i_data 0 ≢ 0
    pub others : (i : ℕ) → 0 < i → i < blocks → sbi.s_data_area ≤ inode.i_data i
    pub end : inode.i_data blocks < sbi.s_data_area
    pub short : (k : ℕ) → k < blocks * per → length (name_of k) < tfs_name_len
    pub named :
        (k : ℕ)
        → k < blocks * per
        → CStr (contents (inode.i_data (k / per))) (k % per * dir_entry_size + d_name) (name_of k)

  abbrev pub Agrees : Block → Block → Type 0
  Agrees buffer block = (x : ℕ) → x < sbi.s_block_size → buffer x ≡ block x

  module _ (inode : Inode) (blocks per : ℕ) (name_of : ℕ → List ℕ)
      (dir : IsDirectory inode blocks per name_of) where
    -- the loop stands at entry `k`, or behind the last
    pub data Stands (k : ℕ) : At dev sbi → Type 0 where
      stands :
          (s : State dev) (index : ℕ) (p : Ptr) (de : ℕ)
          → backed.Inv s
          → index ≡ k / per + 1
          → de ≡ k % per * dir_entry_size
          → Agrees (s.cache.buffer p) (contents (inode.i_data (k / per)))
          → k < blocks * per
          → Stands k (At.entry s index p de)
      over :
          (s : State dev) → backed.Inv s → k ≡ blocks * per → Stands k (At.ended Lookup.missing s)

    first_entry-Stands :
        (k : ℕ) (i : ℕ)
        → k / per ≡ i
        → k % per ≡ 0
        → k < blocks * per
        → (got : Option Ptr × State dev) → Gives dev sbi backed.Inv (contents (inode.i_data i)) got
        → Stands k (first_entry dev sbi (i + 1) got)
    unfolding first_entry
    first_entry-Stands k i e z low _ (Gives.gives p s inv agrees) =
        stands s (i + 1) p 0 inv (omega (arith, e)) (ground (arith, z)) (rw e agrees) low

    pub start-Stands : (s : State dev) → backed.Inv s → Stands 0 (start dev sbi inode s)
    unfolding start
    start-Stands s inv = rw some_first (
        first_entry-Stands 0 0 (div-eq_of_lt dir.some_per) (mod-eq_of_lt dir.some_per)
          (product_pos blocks per dir.some_blocks dir.some_per) _
          (backed.get s (inode.i_data 0) inv))
      where
        some_first : (inode.i_data 0 == 0) ≡ false
        some_first = ground (arith, dir.first)

    -- behind the last entry of a block: the end of the directory, or another block
    at_end :
        (k index : ℕ)
        → k < blocks * per
        → index ≡ k / per + 1
        → (k + 1) / per ≡ k / per + 1
        → (k + 1) % per ≡ 0
        → ltb (inode.i_data index) sbi.s_data_area ≡ true
        → k + 1 ≡ blocks * per
    at_end k index low at_index more at_start ends = elim (Bool-cases (ltb index blocks)) [
      | inl inner ↦ absurd (
          omega (
            arith,
            dir.others index (omega (arith, at_index)) (ltb-true _ _ inner),
            ltb-true _ _ ends,
          ))
      | inr outer ↦
          let all : (k + 1) / per ≡ blocks =
            omega (
              arith,
              ltb-false _ _ outer,
              at_index,
              more,
              (div-lt_iff_lt-mul dir.some_per).1 low,
            ) in
          sym (div-add-mod' (k + 1) per) ∙ rw (all, at_start) (omega arith)
    ]

    goes_on :
        (k index : ℕ)
        → k < blocks * per
        → index ≡ k / per + 1
        → (k + 1) / per ≡ k / per + 1
        → ltb (inode.i_data index) sbi.s_data_area ≡ false
        → k + 1 < blocks * per
    goes_on k index low at_index more goes = elim (Bool-cases (ltb index blocks)) [
      | inl inner ↦
          (div-lt_iff_lt-mul dir.some_per).0 (omega (arith, more, at_index, ltb-true _ _ inner))
      | inr outer ↦
          let all : index ≡ blocks =
            omega (arith, ltb-false _ _ outer, at_index, (div-lt_iff_lt-mul dir.some_per).1 low) in
          absurd (omega (arith, dir.end, ltb-false _ _ goes, ap inode.i_data all))
    ]

    pub next_entry-Stands :
        (k : ℕ) (s : State dev) (index : ℕ) (p : Ptr) (de : ℕ)
        → backed.Inv s
        → index ≡ k / per + 1
        → de ≡ k % per * dir_entry_size
        → Agrees (s.cache.buffer p) (contents (inode.i_data (k / per)))
        → k < blocks * per
        → Stands (k + 1) (next_entry dev sbi inode s index p (de + dir_entry_size))
    unfolding next_entry
    next_entry-Stands k s index p de inv at_index at_de agrees low =
        if-cases (Stands (k + 1)) (ltb (de + dir_entry_size) sbi.s_block_size)
          (λ inside.
            let (same, next) =
              after_inside k per dir.some_per
                (omega (arith, dir.size, at_de, ltb-true _ _ inside)) in
            stands s index p (de + dir_entry_size) inv (omega (arith, at_index, same))
              (omega (arith, at_de, next)) (rw same agrees)
              ((div-lt_iff_lt-mul dir.some_per).0
                (omega (arith, same, (div-lt_iff_lt-mul dir.some_per).1 low))))
          (λ past.
            let (more, at_start) =
              after_last k per dir.some_per (omega (arith, dir.size, at_de, ltb-false _ _ past)) in
            if-cases (Stands (k + 1)) (ltb (inode.i_data index) sbi.s_data_area)
              (λ ends. over s inv (at_end k index low at_index more at_start ends))
              (λ goes.
                first_entry-Stands (k + 1) index (omega (arith, more, at_index)) at_start
                  (goes_on k index low at_index more goes) _
                  (backed.get s (inode.i_data index) inv)))
