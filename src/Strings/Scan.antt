-- ===== src/Strings/Scan.antt =====
-- lib/string.c: the functions that walk over C strings.
use thunix.Base.{
  ℕ, zero, suc, ◌+◌, ◌≤◌, ◌<◌, ◌≡◌, refl, ap, ◌∙◌, ◌≢◌, ◌⊎◌, some, List, [], ◌∷◌, ◌++◌, arith,
  length, Memory, store, store_ne,
}
use thunix.Strings.{copy_string, strcpy, end_of, strcat, strlen}
use thunix.Strings.Blocks.{copied}

-- the bytes `xs`, none of them 0, stand at `s`, and a 0 behind them
abbrev pub CStr : Memory → ℕ → List ℕ → Type 0
CStr m s [] = m s ≡ 0
CStr m s (x ∷ xs) = (m s ≡ x) × (x ≢ 0) × CStr m (s + 1) xs

-- the NUL of a string
pub CStr-end : (m : Memory) (s : ℕ) (xs : List ℕ) → CStr m s xs → m (s + length xs) ≡ 0
CStr-end m s [] c = ap m (omega arith) ∙ c
CStr-end m s (x ∷ xs) (e, nz, c) = ap m (omega arith) ∙ CStr-end m (s + 1) xs c

-- a string behind its first part
pub CStr-behind :
    (c ys : List ℕ) (m : Memory) (name : ℕ) → CStr m name (c ++ ys) → CStr m (name + length c) ys
CStr-behind [] ys m name text = rw (plus_zero) text
  where
    plus_zero : name + 0 ≡ name
    plus_zero = omega arith
CStr-behind (x ∷ c) ys m name (e, nonzero, text) = rw (shifted) (CStr-behind c ys m (name + 1) text)
  where
    shifted : name + suc (length c) ≡ name + 1 + length c
    shifted = omega arith

same_at : (m m' : Memory) (a b a' b' : ℕ) → a ≡ a' → b ≡ b' → m' a ≡ m b → m' a' ≡ m b'
same_at m m' a b a' b' p q h = ground arith

-- A string whose bytes stand at `d` as well.
pub CStr-moved :
    (m m' : Memory) (s d : ℕ) (xs : List ℕ)
    → ((i : ℕ) → i ≤ length xs → m' (d + i) ≡ m (s + i))
    → CStr m s xs
    → CStr m' d xs
CStr-moved m m' s d [] h c =
    same_at m m' (d + 0) (s + 0) d s (omega arith) (omega arith) (h 0 (omega arith)) ∙ c
CStr-moved m m' s d (x ∷ xs) h (e, nz, c) = (
  same_at m m' (d + 0) (s + 0) d s (omega arith) (omega arith) (h 0 (omega arith)) ∙ e,
  nz,
  CStr-moved m m' (s + 1) (d + 1) xs
      (λ i hi.
        same_at m m' (d + suc i) (s + suc i) (d + 1 + i) (s + 1 + i) (omega arith) (omega arith)
          (h (suc i) (omega arith)))
      c,
)

CStr-append :
    (m m' : Memory) (s t : ℕ) (xs ys : List ℕ)
    → ((i : ℕ) → i < length xs → m' (s + i) ≡ m (s + i))
    → t ≡ s + length xs
    → CStr m s xs
    → CStr m' t ys
    → CStr m' s (xs ++ ys)
CStr-append m m' s t [] ys h e c c' = let e' : t ≡ s = omega arith in rw (← e') c'
CStr-append m m' s t (x ∷ xs) ys h e (p, nz, c) c' = (
  same_at m m' (s + 0) (s + 0) s s (omega arith) (omega arith) (h 0 (omega arith)) ∙ p,
  nz,
  CStr-append m m' (s + 1) t xs ys
      (λ i hi.
        same_at m m' (s + suc i) (s + suc i) (s + 1 + i) (s + 1 + i) (omega arith) (omega arith)
          (h (suc i) (omega arith)))
      (omega arith) c c',
)

end_of_lem :
    (fuel : ℕ) (m : Memory) (s : ℕ) (xs : List ℕ)
    → CStr m s xs
    → length xs < fuel
    → end_of fuel m s ≡ some (s + length xs)
unfolding end_of
end_of_lem zero m s xs c h = absurd (omega arith)
end_of_lem (suc fuel) m s [] c h = ground arith
end_of_lem (suc fuel) m s (x ∷ xs) (e, nz, c) h =
    ground (arith, end_of_lem fuel m (s + 1) xs c (omega arith))

-- With enough rounds for its bytes, `strlen` of a string returns their number.
pub strlen_lem :
    (fuel : ℕ) (m : Memory) (s : ℕ) (xs : List ℕ)
    → CStr m s xs
    → length xs < fuel
    → strlen fuel m s ≡ some (length xs)
unfolding strlen
strlen_lem fuel m s xs c h = ground (arith, end_of_lem fuel m s xs c h)

copy_string_lem :
    (fuel : ℕ) (m : Memory) (d s : ℕ) (xs : List ℕ)
    → CStr m s xs
    → length xs < fuel
    → (d ≤ s) ⊎ (s + length xs < d)
    → (m' : Memory) × (copy_string fuel m d s ≡ some m')
      × ((x : ℕ) → m' x ≡ copied m d s (length xs + 1) x)
unfolding copy_string store
copy_string_lem zero m d s xs c h o = absurd (omega arith)
copy_string_lem (suc fuel) m d s [] c h o = (store m d (m s), ground arith, λ x. ground arith)
copy_string_lem (suc fuel) m d s (x ∷ xs) (e, nz, c) h o =
    let (m', r, at) =
      copy_string_lem fuel (store m d (m s)) (d + 1) (s + 1) xs
        (CStr-moved m (store m d (m s)) (s + 1) (s + 1) xs
          (λ i hi. store_ne m d (m s) (s + 1 + i) (λ q. omega arith)) c)
        (omega arith) (omega arith) in
    (m', ground arith, λ y. ground (arith, at y))

-- `strcpy` of a string to a place that does not lie inside it behind its first byte: `dest` holds
-- the string afterwards, and no byte outside the copy has changed.
pub strcpy_lem :
    (fuel : ℕ) (m : Memory) (dest src : ℕ) (xs : List ℕ)
    → CStr m src xs
    → length xs < fuel
    → (dest ≤ src) ⊎ (src + length xs < dest)
    → (m' : Memory) × (strcpy fuel m dest src ≡ some m')
      × CStr m' dest xs
      × ((x : ℕ) → (x < dest) ⊎ (dest + length xs < x) → m' x ≡ m x)
unfolding strcpy
strcpy_lem fuel m dest src xs c h o =
    let (m', r, at) = copy_string_lem fuel m dest src xs c h o in
    (
      m',
      r,
      CStr-moved m m' src dest xs (λ i hi. ground (arith, at (dest + i))) c,
      λ x out. ground (arith, at x),
    )

-- `strcat` of the string at `src` to the one at `dest`, where the bytes written from the old end on
-- spare those of `src` still to be read: `dest` holds the two strings' bytes in order, and only the
-- bytes from its old end on, as many as `src` has and a NUL, have changed.
pub strcat_lem :
    (fuel : ℕ) (m : Memory) (dest src : ℕ) (xs ys : List ℕ)
    → CStr m dest xs
    → CStr m src ys
    → length xs < fuel
    → length ys < fuel
    → (dest + length xs ≤ src) ⊎ (src + length ys < dest + length xs)
    → (m' : Memory) × (strcat fuel m dest src ≡ some m')
      × CStr m' dest (xs ++ ys)
      × ((x : ℕ) → (x < dest + length xs) ⊎ (dest + length xs + length ys < x) → m' x ≡ m x)
unfolding strcat
strcat_lem fuel m dest src xs ys cd cs hx hy o =
    let d = dest + length xs in
    let (m', r, at) = copy_string_lem fuel m d src ys cs hy o in
    (
      m',
      rw (end_of_lem fuel m dest xs cd hx, strcat) r,
      CStr-append m m' dest d xs ys (λ i hi. ground (arith, at (dest + i))) refl cd
          (CStr-moved m m' src d ys (λ i hi. ground (arith, at (d + i))) cs),
      λ x out. ground (arith, at x),
    )
