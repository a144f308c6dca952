-- ===== src/Strings/Same.antt =====
-- lib/string.c: what strlen and strncmp read of a memory.
use thunix.Base.{
  ℕ, zero, suc, ◌+◌, ◌≤◌, ◌≡◌, refl, false, ◌&&◌, not, List, [], ◌∷◌, arith, ◌==◌, Memory,
}
use thunix.Base.Int.{◌-ℤ◌, pos, ℤ}
use thunix.Strings.{end_of, strlen, strncmp, is_zero}
use thunix.Strings.Scan.{CStr}

end_of_same :
    (fuel : ℕ) (m m' : Memory) (s : ℕ) (xs : List ℕ)
    → CStr m s xs
    → CStr m' s xs
    → end_of fuel m s ≡ end_of fuel m' s
unfolding end_of
end_of_same zero m m' s xs c c' = refl
end_of_same (suc fuel) m m' s [] c c' = rw (c, c') refl
end_of_same (suc fuel) m m' s (x ∷ xs) (e, nonzero, c) (e', nonzero', c') =
    rw (e, e', end_of_same fuel m m' (s + 1) xs c c') refl

pub strlen_same :
    (fuel : ℕ) (m m' : Memory) (s : ℕ) (xs : List ℕ)
    → CStr m s xs
    → CStr m' s xs
    → strlen fuel m s ≡ strlen fuel m' s
unfolding strlen
strlen_same fuel m m' s xs c c' = rw (end_of_same fuel m m' s xs c c', strlen) refl

-- Strings that agree from `s` on, wherever they end.
end_of_from :
    (fuel : ℕ) (m m' : Memory) (s : ℕ)
    → ((x : ℕ) → s ≤ x → m x ≡ m' x)
    → end_of fuel m s ≡ end_of fuel m' s
unfolding end_of
end_of_from zero m m' s same = refl
end_of_from (suc fuel) m m' s same =
    rw
      (same s (omega arith), end_of_from fuel m m' (s + 1) (λ x from. same x (omega (arith, from))))
      refl

pub strlen_from :
    (fuel : ℕ) (m m' : Memory) (s : ℕ)
    → ((x : ℕ) → s ≤ x → m x ≡ m' x)
    → strlen fuel m s ≡ strlen fuel m' s
unfolding strlen
strlen_from fuel m m' s same = rw (end_of_from fuel m m' s same, strlen) refl

-- `strncmp` reads the first string, and of the second what lies beside it.
pub strncmp_same :
    (fuel : ℕ) (m m' : Memory) (s1 s2 : ℕ) (n : ℤ) (xs : List ℕ)
    → CStr m s1 xs
    → CStr m' s1 xs
    → ((x : ℕ) → s2 ≤ x → m x ≡ m' x)
    → strncmp fuel m s1 s2 n ≡ strncmp fuel m' s1 s2 n
unfolding strncmp
strncmp_same zero m m' s1 s2 n xs c c' same = refl
strncmp_same (suc fuel) m m' s1 s2 n [] c c' same =
    rw (ends m c, ends m' c', c, c', same s2 (omega arith)) refl
  where
    ends :
        (m : Memory)
        → m s1 ≡ 0
        → (not (is_zero (n -ℤ pos 1)) && ((m s1 == m s2) && not (m s1 == 0))) ≡ false
    ends m e = ground (arith, e)
strncmp_same (suc fuel) m m' s1 s2 n (x ∷ xs) (e, nonzero, c) (e', nonzero', c') same =
    rw
      (
        e,
        e',
        same s2 (omega arith),
        strncmp_same fuel m m' (s1 + 1) (s2 + 1) (n -ℤ pos 1) xs c c'
            (λ x from. same x (omega (arith, from))),
      )
      refl
