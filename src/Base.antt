-- ===== src/Base.antt =====
-- The names that the other modules share: the libraries', passed on, and those of the children.
mod Tests
mod Lists
mod Bytes
pub mod Int
unfoldable pub use Tests.*
pub use Lists.*
unfoldable pub use Bytes.*
pub use Prim.Native.Nat.{
  ℕ, zero, suc, ◌+◌, ◌-◌, ◌*◌, ◌/◌, ◌%◌, ◌^◌, ◌≤◌, ◌<◌, bit_and, bit_or, bit_xor,
}
pub use mathlib.Core.Path.{◌≡◌, refl, sym, ap, ◌∙◌}
pub use mathlib.Core.Logic.{◌≢◌, ◌↔◌, ◌⊎◌, inl, inr}
pub use mathlib.Core.Bool.{Bool, true, false, ◌&&◌, ◌||◌, not}
pub use mathlib.Core.Option.{Option, none, some}
pub use mathlib.Core.List.{List, [], ◌∷◌, ◌++◌}
pub use native.Mathlib.Omega.{arith}

-- The 32-bit word of an `int`: its absolute value, its predecessor, and the words of its quotient, which
-- C rounds toward 0, and of its remainder, which has its sign, by a positive number.
abbrev pub magnitude32 : ℕ → ℕ
magnitude32 u = if leb (2 ^ 31) u then 2 ^ 32 - u else u

abbrev pub pred32 : ℕ → ℕ
pred32 u = u32 (u + (2 ^ 32 - 1))

abbrev pub quotient32 : ℕ → ℕ → ℕ
quotient32 u n = if leb (2 ^ 31) u then u32 (2 ^ 32 - (2 ^ 32 - u) / n) else u / n

abbrev pub remainder32 : ℕ → ℕ → ℕ
remainder32 u n = if leb (2 ^ 31) u then u32 (2 ^ 32 - (2 ^ 32 - u) % n) else u % n
