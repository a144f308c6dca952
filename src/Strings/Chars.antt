-- ===== src/Strings/Chars.antt =====
-- lib/string.c: the search for a character of a C string.
use thunix.Base.{
  ℕ, zero, suc, ◌+◌, ◌-◌, ◌<◌, ◌≡◌, refl, ◌≢◌, inl, inr, Option, none, some, List, [], ◌∷◌, arith,
  ◌==◌, Bool-cases, length, Memory,
}
use thunix.Strings.{strchr, scan_back, strrchr}
use thunix.Strings.Scan.{CStr, strlen_lem}

-- `r` is the address of the first of the `n` bytes at `s` that is `c`, or NULL if there is none.
pub data IsFirst (m : Memory) (s n c : ℕ) (r : Option ℕ) : Type 0 where
  null : r ≡ none → ((i : ℕ) → i < n → m (s + i) ≢ c) → IsFirst m s n c r
  at :
      (k : ℕ)
      → k < n
      → m (s + k) ≡ c
      → ((i : ℕ) → i < k → m (s + i) ≢ c)
      → r ≡ some (s + k)
      → IsFirst m s n c r

IsFirst-suc :
    (m : Memory) (s n c : ℕ) (r : Option ℕ)
    → m s ≢ c
    → IsFirst m (s + 1) n c r
    → IsFirst m s (suc n) c r
IsFirst-suc m s n c r ne (null e h) = null e (λ i hi. ground (arith, h (i - 1)))
IsFirst-suc m s n c r ne (at k hk e h q) =
    at (suc k) (omega arith) (ground arith) (λ i hi. ground (arith, h (i - 1))) (ground arith)

-- `strchr` of a string, with enough rounds, returns the address of the first byte that is `c`, or
-- NULL if none of the string's bytes is.
pub strchr_lem :
    (fuel : ℕ) (m : Memory) (s c : ℕ) (xs : List ℕ)
    → CStr m s xs
    → length xs < fuel
    → (r : Option ℕ) × (strchr fuel m s c ≡ some r) × IsFirst m s (length xs) c r
unfolding strchr
strchr_lem zero m s c xs cs h = absurd (omega arith)
strchr_lem (suc fuel) m s c [] cs h = (none, ground arith, null refl (λ i hi. absurd (omega arith)))
strchr_lem (suc fuel) m s c (x ∷ xs) (e, nz, cs) h = elim (Bool-cases (m s == c)) [
  | inl hit ↦ (
    some s,
    ground arith,
    at 0 (omega arith) (ground arith) (λ i hi. absurd (omega arith)) (ground arith),
  )
  | inr miss ↦
      let (r, q, first) = strchr_lem fuel m (s + 1) c xs cs (omega arith) in
      (r, ground arith, IsFirst-suc m s (length xs) c r (ground arith) first)
]

-- `r` is the address of the last of the `n` bytes at `s` that is `c`, or NULL if there is none.
pub data IsLast (m : Memory) (s n c : ℕ) (r : Option ℕ) : Type 0 where
  null : r ≡ none → ((i : ℕ) → i < n → m (s + i) ≢ c) → IsLast m s n c r
  at :
      (k : ℕ)
      → k < n
      → m (s + k) ≡ c
      → ((i : ℕ) → k < i → i < n → m (s + i) ≢ c)
      → r ≡ some (s + k)
      → IsLast m s n c r

IsLast-suc :
    (m : Memory) (s n c : ℕ) (r : Option ℕ)
    → m (s + n) ≢ c
    → IsLast m s n c r
    → IsLast m s (suc n) c r
IsLast-suc m s n c r ne (IsLast.null e h) = IsLast.null e (λ i hi. ground (arith, h i))
IsLast-suc m s n c r ne (IsLast.at k hk e h q) =
    IsLast.at k (omega arith) e (λ i lo hi. ground (arith, h i)) q

scan_back_lem :
    (fuel : ℕ) (m : Memory) (s n e c : ℕ)
    → 0 < s
    → n < fuel
    → e + 1 ≡ s + n
    → (r : Option ℕ) × (scan_back fuel m s e c ≡ some r) × IsLast m s n c r
unfolding scan_back
scan_back_lem zero m s n e c hs h q = absurd (omega arith)
scan_back_lem (suc fuel) m s zero e c hs h q =
    (none, ground arith, IsLast.null refl (λ i hi. absurd (omega arith)))
scan_back_lem (suc fuel) m s (suc n) e c hs h q = elim (Bool-cases (m e == c)) [
  | inl hit ↦ (
    some e,
    ground arith,
    IsLast.at n (omega arith) (ground arith) (λ i lo hi. absurd (omega arith)) (ground arith),
  )
  | inr miss ↦
      let (r, p, last) = scan_back_lem fuel m s n (e - 1) c hs (omega arith) (omega arith) in
      (r, ground arith, IsLast-suc m s n c r (ground arith) last)
]

-- `strrchr` of a string that does not start at address 0, with enough rounds, returns the address
-- of the last byte that is `c`, or NULL if none of the string's bytes is.
pub strrchr_lem :
    (fuel : ℕ) (m : Memory) (s c : ℕ) (xs : List ℕ)
    → 0 < s
    → CStr m s xs
    → length xs < fuel
    → (r : Option ℕ) × (strrchr fuel m s c ≡ some r) × IsLast m s (length xs) c r
unfolding strrchr
strrchr_lem fuel m s c xs hs cs h =
    let (r, p, last) =
      scan_back_lem fuel m s (length xs) (s + length xs - 1) c hs h (omega arith) in
    (r, rw (strlen_lem fuel m s xs cs h, strrchr) p, last)
