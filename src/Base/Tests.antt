-- ===== src/Base/Tests.antt =====
-- Boolean tests on the native numbers, the conditional, and case lemmas.
use Prim.Native.Nat.{ℕ, zero, suc, ◌+◌, ◌≤◌, ◌<◌, compare, Ordering}
use mathlib.Core.Path.{◌≡◌, refl}
use mathlib.Core.Logic.{◌↔◌, ◌≢◌, ◌⊎◌, inl, inr}
use mathlib.Core.Bool.{Bool, true, false, ◌&&◌}
use mathlib.Core.Option.{Option, none, some}
use native.Mathlib.Omega.{arith}

abbrev pub ltb : ℕ → ℕ → Bool
ltb a b = elim (compare a b) [ Ordering.lt ↦ true | _ ↦ false ]

abbrev pub leb : ℕ → ℕ → Bool
leb a b = elim (compare a b) [ Ordering.gt ↦ false | _ ↦ true ]

infix 50 ◌==◌
abbrev pub ◌==◌ : ℕ → ℕ → Bool
a == b = elim (compare a b) [ Ordering.eq ↦ true | _ ↦ false ]

infix 1 if◌then◌else◌
abbrev pub if◌then◌else◌ {ℓ} : {A : Type ℓ} → Bool → A → A → A
if true then x else y = x
if false then x else y = y

pub ==_iff : (a b : ℕ) → ((a == b) ≡ true) ↔ (a ≡ b)
==_iff a b = ground arith

pub Bool-cases : (b : Bool) → (b ≡ true) ⊎ (b ≡ false)
Bool-cases true = inl refl
Bool-cases false = inr refl

-- a test that decides which of two values a predicate is about
pub if-cases {ℓ κ} :
    {A : Type ℓ} (P : A → Type κ) (b : Bool) {x y : A}
    → (b ≡ true → P x)
    → (b ≡ false → P y)
    → P (if b then x else y)
if-cases P true f g = f refl
if-cases P false f g = g refl

pub zero-cases : (n : ℕ) → (n ≡ 0) ⊎ (n ≢ 0)
zero-cases zero = inl refl
zero-cases (suc n) = inr (λ e. omega (arith, e))

-- what holds nowhere from `k + 1` on, and not at `k`, holds nowhere from `k` on
pub nowhere_from {ℓ} :
    (P : ℕ → Type ℓ) (k high : ℕ)
    → (P k → ⊥)
    → ((x : ℕ) → k + 1 ≤ x → x < high → P x → ⊥)
    → (x : ℕ) → k ≤ x
    → x < high
    → P x
    → ⊥
nowhere_from P k high here behind x from below = elim (Bool-cases (x == k)) [
  | inl same ↦ rw (← (==_iff x k).0 same) at here
  | inr other ↦ behind x (ground (arith, other, from)) below
]

pub Option-cases {ℓ} : {A : Type ℓ} (o : Option A) → (o ≡ none) ⊎ ((a : A) × (o ≡ some a))
Option-cases none = inl refl
Option-cases (some a) = inr (a, refl)

-- Over a small range, check every value by evaluation.

unfoldable pub test_up_to : ℕ → (ℕ → Bool) → Bool
test_up_to zero test = true
test_up_to (suc bound) test = test_up_to bound test && test bound

pub test_up_to-at :
    (bound : ℕ) (test : ℕ → Bool) (i : ℕ) → test_up_to bound test ≡ true → i < bound → test i ≡ true
unfolding test_up_to
test_up_to-at zero test i all below = absurd (omega arith)
test_up_to-at (suc bound) test i all below = ground (arith, test_up_to-at bound test i)
