-- ===== src/Strings/Compare.antt =====
-- lib/string.c: the comparisons of C strings.
use thunix.Base.{
  ℕ, zero, suc, ◌+◌, ◌<◌, ◌≡◌, refl, ◌↔◌, inl, inr, false, ◌&&◌, not, some, List, [], ◌∷◌, arith,
  ◌==◌, if◌then◌else◌, Bool-cases, length, Memory, IsBytes,
}
use thunix.Base.Int.{◌-ℤ◌, pos, negsuc, ℤ}
use thunix.Strings.{difference, strcmp, strncmp}
use thunix.Strings.Scan.{CStr}

-- Two bytes have one `char` value only if they are equal.
difference-zero : (m : Memory) (a b : ℕ) → IsBytes m → (difference m a b ≡ pos 0) ↔ (m a ≡ m b)
unfolding ◌-ℤ◌
difference-zero m a b h = (λ e. ground (arith, h a, h b), λ e. ground (arith, h a, h b))

heads : (x y : ℕ) (xs ys : List ℕ) → x ∷ xs ≡ y ∷ ys → x ≡ y
heads x y xs ys e = cc

tails : (x y : ℕ) (xs ys : List ℕ) → x ∷ xs ≡ y ∷ ys → xs ≡ ys
tails x y xs ys e = cc

-- With enough rounds for the first string, `strcmp` of two strings returns, and it returns 0
-- exactly when they have the same bytes.
pub strcmp_lem :
    (fuel : ℕ) (m : Memory) (s1 s2 : ℕ) (xs ys : List ℕ)
    → IsBytes m
    → CStr m s1 xs
    → CStr m s2 ys
    → length xs < fuel
    → (r : ℤ) × (strcmp fuel m s1 s2 ≡ some r) × ((r ≡ pos 0) ↔ (xs ≡ ys))
unfolding strcmp
strcmp_lem zero m s1 s2 xs ys b c d h = absurd (omega arith)
strcmp_lem (suc fuel) m s1 s2 [] [] b c d h = (
  difference m s1 s2,
  ground arith,
  (λ e. refl, λ e. (difference-zero m s1 s2 b).1 (ground arith)),
)
strcmp_lem (suc fuel) m s1 s2 [] (y ∷ ys) b c (e, nz, d) h = (
  difference m s1 s2,
  ground arith,
  (λ q. absurd (ground (arith, (difference-zero m s1 s2 b).0 q)), λ q. cc),
)
strcmp_lem (suc fuel) m s1 s2 (x ∷ xs) [] b (e, nz, c) d h = (
  difference m s1 s2,
  ground arith,
  (λ q. absurd (ground (arith, (difference-zero m s1 s2 b).0 q)), λ q. cc),
)
strcmp_lem (suc fuel) m s1 s2 (x ∷ xs) (y ∷ ys) b (e, nz, c) (e', nz', d) h =
    elim (Bool-cases (m s1 == m s2)) [
      | inl same ↦
          let (r, q, iff) = strcmp_lem fuel m (s1 + 1) (s2 + 1) xs ys b c d (omega arith) in
          (r, ground arith, (λ z. ground (arith, iff.0 z), λ z. iff.1 (tails x y xs ys z)))
      | inr other ↦ (
        difference m s1 s2,
        ground arith,
        (
          λ q. absurd (ground (arith, (difference-zero m s1 s2 b).0 q)),
          λ q. absurd (ground (arith, heads x y xs ys q)),
        ),
      )
    ]

abbrev pub take : ℕ → List ℕ → List ℕ
take zero xs = []
take (suc n) [] = []
take (suc n) (x ∷ xs) = x ∷ take n xs

pos-sub-one : (k : ℕ) → pos (suc k) -ℤ pos 1 ≡ pos k
unfolding ◌-ℤ◌
pos-sub-one k = ground arith

negsuc-sub-one : (k : ℕ) → negsuc k -ℤ pos 1 ≡ negsuc (suc k)
unfolding ◌-ℤ◌
negsuc-sub-one k = ground arith

zero-sub-one : pos 0 -ℤ pos 1 ≡ negsuc 0
unfolding ◌-ℤ◌
zero-sub-one = refl

-- one round of the loop with a bound of at least one
strncmp-suc :
    (fuel k : ℕ) (m : Memory) (s1 s2 : ℕ)
    → strncmp (suc fuel) m s1 s2 (pos (suc k)) ≡ (
        if not (k == 0) && ((m s1 == m s2) && not (m s1 == 0))
        then strncmp fuel m (s1 + 1) (s2 + 1) (pos k)
        else some (difference m s1 s2))
unfolding strncmp
strncmp-suc fuel k m s1 s2 = rw (pos-sub-one k)

-- where the loop stops: the answer is decided by the two characters that stand there
stop :
    (fuel k : ℕ) (m : Memory) (s1 s2 : ℕ) (xs ys : List ℕ)
    → IsBytes m
    → (not (k == 0) && ((m s1 == m s2) && not (m s1 == 0))) ≡ false
    → (m s1 ≡ m s2) ↔ (take (suc k) xs ≡ take (suc k) ys)
    → (r : ℤ) × (strncmp (suc fuel) m s1 s2 (pos (suc k)) ≡ some r)
      × ((r ≡ pos 0) ↔ (take (suc k) xs ≡ take (suc k) ys))
stop fuel k m s1 s2 xs ys b h iff = (
  difference m s1 s2,
  rw (strncmp-suc, h),
  (λ z. iff.0 ((difference-zero m s1 s2 b).0 z), λ z. (difference-zero m s1 s2 b).1 (iff.1 z)),
)

-- For a bound of at least 1, and with enough rounds for the first string, `strncmp` returns, and it
-- returns 0 exactly when the two strings agree up to the bound.
pub strncmp_lem :
    (fuel k : ℕ) (m : Memory) (s1 s2 : ℕ) (xs ys : List ℕ)
    → IsBytes m
    → CStr m s1 xs
    → CStr m s2 ys
    → length xs < fuel
    → (r : ℤ) × (strncmp fuel m s1 s2 (pos (suc k)) ≡ some r)
      × ((r ≡ pos 0) ↔ (take (suc k) xs ≡ take (suc k) ys))
strncmp_lem zero k m s1 s2 xs ys b c d h = absurd (omega arith)
strncmp_lem (suc fuel) k m s1 s2 [] [] b c d h =
    stop fuel k m s1 s2 [] [] b (ground arith) (λ e. refl, λ e. ground arith)
strncmp_lem (suc fuel) k m s1 s2 [] (y ∷ ys) b c (e, nz, d) h =
    stop fuel k m s1 s2 [] (y ∷ ys) b (ground arith) (λ q. absurd (ground arith), λ q. cc)
strncmp_lem (suc fuel) k m s1 s2 (x ∷ xs) [] b (e, nz, c) d h =
    stop fuel k m s1 s2 (x ∷ xs) [] b (ground arith) (λ q. absurd (ground arith), λ q. cc)
strncmp_lem (suc fuel) zero m s1 s2 (x ∷ xs) (y ∷ ys) b (e, nz, c) (e', nz', d) h =
    stop fuel 0 m s1 s2 (x ∷ xs) (y ∷ ys) b (ground arith)
      (λ q. ground arith, λ q. ground (arith, heads x y [] [] q))
strncmp_lem (suc fuel) (suc k) m s1 s2 (x ∷ xs) (y ∷ ys) b (e, nz, c) (e', nz', d) h =
    elim (Bool-cases (m s1 == m s2)) [
      | inl same ↦
          let (r, q, iff) = strncmp_lem fuel k m (s1 + 1) (s2 + 1) xs ys b c d (omega arith) in
          (
            r,
            rw strncmp-suc (ground arith),
            (λ z. ground (arith, iff.0 z), λ z. iff.1 (tails x y _ _ z)),
          )
      | inr other ↦
          stop fuel (suc k) m s1 s2 (x ∷ xs) (y ∷ ys) b (ground arith)
            (λ q. absurd (ground arith), λ q. ground (arith, heads x y _ _ q))
    ]

strncmp-negsuc :
    (fuel k : ℕ) (m : Memory) (s1 s2 : ℕ) → strncmp fuel m s1 s2 (negsuc k) ≡ strcmp fuel m s1 s2
unfolding strncmp strcmp
strncmp-negsuc zero k m s1 s2 = refl
strncmp-negsuc (suc fuel) k m s1 s2 =
    rw (negsuc-sub-one k) (ground (arith, strncmp-negsuc fuel (suc k) m (s1 + 1) (s2 + 1)))

-- With a bound of 0 `strncmp` does not stop at once: it compares as `strcmp` does, however long
-- the strings are.
pub strncmp-zero :
    (fuel : ℕ) (m : Memory) (s1 s2 : ℕ) → strncmp fuel m s1 s2 (pos 0) ≡ strcmp fuel m s1 s2
unfolding strncmp strcmp
strncmp-zero zero m s1 s2 = refl
strncmp-zero (suc fuel) m s1 s2 =
    rw zero-sub-one (ground (arith, strncmp-negsuc fuel 0 m (s1 + 1) (s2 + 1)))
