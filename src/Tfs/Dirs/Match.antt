-- ===== src/Tfs/Dirs/Match.antt =====
-- fs/tfs/dir.c, `tfs_match_entry`: when an entry has a name.
use thunix.Base.{
  ℕ, suc, ◌+◌, ◌<◌, ◌≡◌, refl, sym, ap, ◌∙◌, ◌≢◌, ◌↔◌, inl, inr, Bool, true, false, some, List, [],
  ◌∷◌, arith, ◌==◌, ==_iff, Bool-cases, length, Memory, load32, IsBytes,
}
use thunix.Base.Int.{pos_part, neg_part, pos, negsuc, ℤ}
use thunix.Strings.Scan.{CStr, strlen_lem}
use thunix.Strings.Compare.{take, strncmp_lem}
use thunix.Tfs.{is_zero}
use thunix.Tfs.Dirs.{d_name, tfs_name_len, tfs_match_entry, compare_names}

take_all : (xs : List ℕ) → take (length xs) xs ≡ xs
take_all [] = refl
take_all (x ∷ xs) = ap (λ l. x ∷ l) (take_all xs)

is_zero_iff : (r : ℤ) → (is_zero r ≡ true) ↔ (r ≡ pos 0)
unfolding is_zero
is_zero_iff (pos n) = (λ e. ap pos (ground (arith, e)), λ e. ground (arith, ap pos_part e))
is_zero_iff (negsuc n) =
    (λ e. absurd (ground (arith, e)), λ e. absurd (ground (arith, ap neg_part e)))

compare_names_lem :
    (fuel : ℕ) (m : Memory) (name de_name : ℕ) (xs ys : List ℕ)
    → IsBytes m
    → CStr m name xs
    → CStr m de_name ys
    → 0 < length xs
    → length xs < tfs_name_len
    → length xs < fuel
    → (b : Bool) × (compare_names fuel m name de_name (length xs) (length ys) ≡ some b)
      × ((b ≡ true) ↔ (xs ≡ ys))
unfolding compare_names
compare_names_lem fuel m name de_name [] ys bytes c d some_name short enough =
    absurd (omega (arith, some_name))
compare_names_lem fuel m name de_name (x ∷ xs) ys bytes c d some_name short enough =
    elim (Bool-cases (suc (length xs) == length ys)) [
      | inr other ↦ (
        false,
        rw (other, not_long) refl,
        (λ e. absurd (ground (arith, e)), λ e. absurd (differ other (ap length e))),
      )
      | inl same ↦
          let (r, is, iff) =
            strncmp_lem fuel (length xs) m name de_name (x ∷ xs) ys bytes c d enough in
          (
            is_zero r,
            rw (same, is) refl,
            (
              λ e. names same (iff.0 ((is_zero_iff r).0 e)),
              λ e. (is_zero_iff r).1 (iff.1 (ap (take (suc (length xs))) e)),
            ),
          )
    ]
  where
    not_long : (suc (length xs) == tfs_name_len) ≡ false
    not_long = ground (arith, short)

    differ : (suc (length xs) == length ys) ≡ false → suc (length xs) ≢ length ys
    differ other e = ground (arith, other, e)

    names :
        (suc (length xs) == length ys) ≡ true
        → take (suc (length xs)) (x ∷ xs) ≡ take (suc (length xs)) ys
        → x ∷ xs ≡ ys
    names same e =
        let n : suc (length xs) ≡ length ys = (==_iff _ _).0 same in
        sym (take_all (x ∷ xs)) ∙ e ∙ ap (λ k. take k ys) n ∙ take_all ys

-- For a name of 1 to 27 bytes and an entry whose name ends in its field, with enough rounds for both
-- strings, `tfs_match_entry` answers, and it answers yes exactly when the entry is in use and the two
-- names are equal.
pub tfs_match_entry_lem :
    (fuel : ℕ) (m : Memory) (name de : ℕ) (xs ys : List ℕ)
    → IsBytes m
    → CStr m name xs
    → CStr m (de + d_name) ys
    → 0 < length xs
    → length xs < tfs_name_len
    → length xs < fuel
    → length ys < fuel
    → (b : Bool) × (tfs_match_entry fuel m name de ≡ some b)
      × ((b ≡ true) ↔ ((load32 m de ≢ 0) × (xs ≡ ys)))
unfolding tfs_match_entry
tfs_match_entry_lem fuel m name de xs ys bytes c d some_name short enough enough' =
    elim (Bool-cases (load32 m de == 0)) [
      | inl free ↦ (
        false,
        rw free refl,
        (λ e. absurd (ground (arith, e)), λ e. absurd (e.0 (ground (arith, free)))),
      )
      | inr used ↦
          let (b, is, iff) =
            compare_names_lem fuel m name (de + d_name) xs ys bytes c d some_name short enough in
          (
            b,
            rw
                (
                  used,
                  strlen_lem fuel m name xs c enough,
                  strlen_lem fuel m (de + d_name) ys d enough',
                )
                is,
            (λ e. ((λ z. ground (arith, used, z)), iff.0 e), λ e. iff.1 e.1),
          )
    ]
