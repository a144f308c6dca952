-- ===== src/Descriptors/Io/Places.antt =====
-- Places in a file of blocks, and the blocks that a number of bytes takes.
use thunix.Base.{
  ℕ, ◌+◌, ◌-◌, ◌*◌, ◌/◌, ◌%◌, ◌^◌, ◌≤◌, ◌<◌, ◌≡◌, sym, ap, ◌∙◌, ◌⊎◌, inl, inr, arith, ltb,
  Bool-cases,
}
use native.Mathlib.Nat.{
  add-mul-div_right, add-mul-mod_self_right, div-add-mod', lt-mul-div-succ, one-le-pow,
}

pub power_pos : (n : ℕ) → 0 < 2 ^ n
power_pos n = one-le-pow n 2 (omega arith)

-- place `k` behind the place `offset` of a file of blocks of `size` bytes
place : (size offset k : ℕ) → 0 < size → (offset + k ≡ (offset % size + k) + offset / size * size)
place size offset k some_size = omega (arith, div-add-mod' offset size)

pub place_div :
    (size offset k : ℕ)
    → 0 < size
    → offset / size + (offset % size + k) / size ≡ (offset + k) / size
place_div size offset k some_size = omega (
  arith,
  add-mul-div_right (offset % size + k) (offset / size) some_size,
  ap (λ x. x / size) (place size offset k some_size),
)

pub place_mod : (size offset k : ℕ) → 0 < size → (offset % size + k) % size ≡ (offset + k) % size
place_mod size offset k some_size = sym (
    ap (λ x. x % size) (place size offset k some_size)
    ∙ add-mul-mod_self_right (offset % size + k) (offset / size) size)

-- the blocks asked for have room for the bytes
pub blocks_fit : (size need : ℕ) → 0 < size → need ≤ (need + size - 1) / size * size
blocks_fit size need some_size = omega (arith, lt-mul-div-succ (need + size - 1) some_size)

pub all_read :
    {P : ℕ → Type 0} (n blocks : ℕ)
    → n ≤ blocks
    → (n ≡ blocks) ⊎ P n
    → ((i : ℕ) → i < blocks → P i → ⊥)
    → n ≡ blocks
all_read n blocks high (inl all) mapped = all
all_read n blocks high (inr stop) mapped = elim (Bool-cases (ltb n blocks)) [
  | inl low ↦ absurd (mapped n (ground (arith, low)) stop)
  | inr past ↦ ground (arith, past, high)
]
