-- ===== src/Base/Bytes.antt =====
-- Byte-addressed memory: what lies at each address, and a store of one byte. An address is a
-- number; that an object does not reach round the end of the address space is left to the caller.
use Prim.Native.Nat.{ℕ, ◌+◌, ◌*◌, ◌/◌, ◌%◌, ◌^◌, ◌<◌, ◌≤◌}
use mathlib.Core.Path.{◌≡◌}
use mathlib.Core.Logic.{◌≢◌, ◌⊎◌}
use native.Mathlib.Omega.{arith}
use thunix.Base.Tests.{◌==◌, if◌then◌else◌}

abbrev pub Memory : Type 0
Memory = ℕ → ℕ

-- `*(unsigned char *)a = v`
unfoldable pub store : Memory → ℕ → ℕ → Memory
store m a v x = if x == a then v else m x

-- `*(uint32_t *)a`, little endian
unfoldable pub load32 : Memory → ℕ → ℕ
load32 m a = m a + m (a + 1) * 2 ^ 8 + m (a + 2) * 2 ^ 16 + m (a + 3) * 2 ^ 24

-- `*(uint16_t *)a`
unfoldable pub load16 : Memory → ℕ → ℕ
load16 m a = m a + m (a + 1) * 2 ^ 8

-- `*(uint16_t *)a = v`
unfoldable pub store16 : Memory → ℕ → ℕ → Memory
unfolding store
store16 m a v = store (store m a (v % 2 ^ 8)) (a + 1) (v / 2 ^ 8 % 2 ^ 8)

-- `*(uint32_t *)a = v`
unfoldable pub store32 : Memory → ℕ → ℕ → Memory
unfolding store16
store32 m a v = store16 (store16 m a (v % 2 ^ 16)) (a + 2) (v / 2 ^ 16)

-- every cell holds a byte
abbrev pub IsBytes : Memory → Type 0
IsBytes m = (a : ℕ) → m a < 256

abbrev pub u8 : ℕ → ℕ
u8 n = n % 2 ^ 8

abbrev pub u32 : ℕ → ℕ
u32 n = n % 2 ^ 32

pub store_self : (m : Memory) (a v : ℕ) → store m a v a ≡ v
unfolding store
store_self m a v = ground arith

pub store_ne : (m : Memory) (a v x : ℕ) → x ≢ a → store m a v x ≡ m x
unfolding store
store_ne m a v x h = ground arith

pub store-IsBytes : (m : Memory) (a v : ℕ) → IsBytes m → v < 256 → IsBytes (store m a v)
unfolding store
store-IsBytes m a v b h x = ground (arith, b x)

pub load16-store16 : (m : Memory) (a v : ℕ) → v < 2 ^ 16 → load16 (store16 m a v) a ≡ v
unfolding load16 store16 store
load16-store16 m a v h = ground arith

pub store16_ne : (m : Memory) (a v x : ℕ) → (x < a) ⊎ (a + 2 ≤ x) → store16 m a v x ≡ m x
unfolding store16 store
store16_ne m a v x h = ground arith

pub load32-store32 : (m : Memory) (a v : ℕ) → v < 2 ^ 32 → load32 (store32 m a v) a ≡ v
unfolding load32 store32 store16 store
load32-store32 m a v h = ground arith

pub store32_ne : (m : Memory) (a v x : ℕ) → (x < a) ⊎ (a + 4 ≤ x) → store32 m a v x ≡ m x
unfolding store32 store16 store
store32_ne m a v x h = ground arith
