-- ===== src/Bitopts/Laws.antt =====
-- lib/bitopts.c: the single-bit operations against the view of a bitmap as a sequence of bits.
use thunix.Base.{
  ℕ, ◌-◌, ◌/◌, ◌%◌, ◌^◌, ◌<◌, bit_and, bit_or, ◌≡◌, refl, ◌≢◌, Bool, true, ◌&&◌, arith, ltb, ◌==◌,
  if◌then◌else◌, ==_iff, test_up_to, test_up_to-at, Memory, store, IsBytes, store_ne, store-IsBytes,
}
use thunix.Bitopts.{mask, byte_of, set_bit, clear_bit, test_bit}

-- digit `k` of a byte
abbrev pub digit : ℕ → ℕ → ℕ
digit b k = (b / 2 ^ k) % 2

-- bit `nr` of the bitmap at `addr`
abbrev pub bit : Memory → ℕ → ℕ → ℕ
bit m addr nr = digit (m (byte_of addr nr)) (nr % 8)

all3 : (ℕ → ℕ → ℕ → Bool) → Bool
unfolding test_up_to
all3 p = test_up_to 256 (λ b. test_up_to 8 (λ k. test_up_to 8 (λ j. p b k j)))

all3_sound :
    (p : ℕ → ℕ → ℕ → Bool) (b k j : ℕ) → all3 p ≡ true → b < 256 → k < 8 → j < 8 → p b k j ≡ true
unfolding all3
all3_sound p b k j h hb hk hj =
    test_up_to-at 8 (p b k) j
      (test_up_to-at 8 (λ k. test_up_to 8 (p b k)) k
        (test_up_to-at 256 (λ b. test_up_to 8 (λ k. test_up_to 8 (p b k))) b h hb) hk)
      hj

abbrev or_test : ℕ → ℕ → ℕ → Bool
or_test b k j = digit (bit_or b (2 ^ k)) j == (if k == j then 1 else digit b j)

or_table : all3 or_test ≡ true
unfolding all3
or_table = refl

abbrev and_not_test : ℕ → ℕ → ℕ → Bool
and_not_test b k j = digit (bit_and b (2 ^ 32 - 1 - 2 ^ k)) j == (if k == j then 0 else digit b j)

and_not_table : all3 and_not_test ≡ true
unfolding all3
and_not_table = refl

abbrev size_test : ℕ → ℕ → ℕ → Bool
size_test b k j = ltb (bit_or b (2 ^ k)) 256 && ltb (bit_and b (2 ^ 32 - 1 - 2 ^ k)) 256

size_table : all3 size_test ≡ true
unfolding all3
size_table = refl

abbrev and_test : ℕ → ℕ → ℕ → Bool
and_test b k j = bit_and (2 ^ k) b == (if digit b k == 0 then 0 else 2 ^ k)

and_table : all3 and_test ≡ true
unfolding all3
and_table = refl

module _ (b k j : ℕ) (hb : b < 256) (hk : k < 8) (hj : j < 8) where
  digit-or : digit (bit_or b (2 ^ k)) j ≡ (if k == j then 1 else digit b j)
  digit-or = (==_iff _ _).0 (all3_sound or_test b k j or_table hb hk hj)

  digit-and_not : digit (bit_and b (2 ^ 32 - 1 - 2 ^ k)) j ≡ (if k == j then 0 else digit b j)
  digit-and_not = (==_iff _ _).0 (all3_sound and_not_test b k j and_not_table hb hk hj)

bytes-lt :
    (b k : ℕ) → b < 256 → k < 8 → (bit_or b (2 ^ k) < 256) × (bit_and b (2 ^ 32 - 1 - 2 ^ k) < 256)
bytes-lt b k hb hk = ground (arith, all3_sound size_test b k 0 size_table)

and-digit : (b k : ℕ) → b < 256 → k < 8 → bit_and (2 ^ k) b ≡ (if digit b k == 0 then 0 else 2 ^ k)
and-digit b k hb hk = (==_iff _ _).0 (all3_sound and_test b k 0 and_table hb hk (omega arith))

-- Two bit numbers are one where byte and digit agree.
same_bit : (addr i j : ℕ) → byte_of addr i ≡ byte_of addr j → i % 8 ≡ j % 8 → i ≡ j
same_bit addr i j p q = omega arith

-- `test_bit` returns 0 for a clear bit, and the bit's mask for a set one.
pub test_bit_lem :
    (m : Memory) (addr nr : ℕ)
    → IsBytes m
    → test_bit m addr nr ≡ (if bit m addr nr == 0 then 0 else mask nr)
unfolding test_bit
test_bit_lem m addr nr b = and-digit (m (byte_of addr nr)) (nr % 8) (b _) (omega arith)

module _ (m : Memory) (addr nr : ℕ) (b : IsBytes m) where
  pub bit-set_bit :
      (j : ℕ) → bit (set_bit m addr nr).1 addr j ≡ (if j == nr then 1 else bit m addr j)
  unfolding set_bit store
  bit-set_bit j = ground (
    arith,
    digit-or (m (byte_of addr nr)) (nr % 8) (j % 8) (b _) (omega arith) (omega arith),
    same_bit addr j nr,
  )

  pub bit-clear_bit :
      (j : ℕ) → bit (clear_bit m addr nr).1 addr j ≡ (if j == nr then 0 else bit m addr j)
  unfolding clear_bit store
  bit-clear_bit j = ground (
    arith,
    digit-and_not (m (byte_of addr nr)) (nr % 8) (j % 8) (b _) (omega arith) (omega arith),
    same_bit addr j nr,
  )

  pub set_bit-IsBytes : IsBytes (set_bit m addr nr).1
  unfolding set_bit
  set_bit-IsBytes =
      store-IsBytes m _ _ b (bytes-lt (m (byte_of addr nr)) (nr % 8) (b _) (omega arith)).0

  pub clear_bit-IsBytes : IsBytes (clear_bit m addr nr).1
  unfolding clear_bit
  clear_bit-IsBytes =
      store-IsBytes m _ _ b (bytes-lt (m (byte_of addr nr)) (nr % 8) (b _) (omega arith)).1

  -- `set_bit` returns what `test_bit` returned before it. Afterwards `test_bit` finds the bit set,
  -- finds every other bit of the bitmap as before, and no byte but the bit's own has changed.
  pub set_bit_lem :
      let (retval, m') = set_bit m addr nr in
      (retval ≡ test_bit m addr nr)
      × ((j : ℕ) → test_bit m' addr j ≡ (if j == nr then mask nr else test_bit m addr j))
      × ((x : ℕ) → x ≢ byte_of addr nr → m' x ≡ m x)
  set_bit_lem = (
    unfold set_bit test_bit in refl,
    λ j. ground (
      arith,
      test_bit_lem m addr j b,
      test_bit_lem (set_bit m addr nr).1 addr j set_bit-IsBytes,
      bit-set_bit j,
    ),
    unfold set_bit in λ x ne. store_ne m _ _ x ne,
  )

  -- `clear_bit` returns what `test_bit` returned before it. Afterwards `test_bit` finds the bit
  -- clear, finds every other bit of the bitmap as before, and no byte but the bit's own has changed.
  pub clear_bit_lem :
      let (retval, m') = clear_bit m addr nr in
      (retval ≡ test_bit m addr nr)
      × ((j : ℕ) → test_bit m' addr j ≡ (if j == nr then 0 else test_bit m addr j))
      × ((x : ℕ) → x ≢ byte_of addr nr → m' x ≡ m x)
  clear_bit_lem = (
    unfold clear_bit test_bit in refl,
    λ j. ground (
      arith,
      test_bit_lem m addr j b,
      test_bit_lem (clear_bit m addr nr).1 addr j clear_bit-IsBytes,
      bit-clear_bit j,
    ),
    unfold clear_bit in λ x ne. store_ne m _ _ x ne,
  )
