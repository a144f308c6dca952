-- ===== src/Bitopts/Search.antt =====
-- lib/bitopts.c: `find_first_zero` against the bits of the bitmap.
use thunix.Base.{
  ℕ, zero, suc, ◌+◌, ◌-◌, ◌*◌, ◌/◌, ◌%◌, ◌^◌, ◌≤◌, ◌<◌, ◌≡◌, refl, ap, ◌∙◌, ◌≢◌, ◌⊎◌, inl, inr,
  Bool, true, false, ◌||◌, not, some, arith, ◌==◌, ==_iff, Bool-cases, test_up_to, test_up_to-at,
  Memory, load32, IsBytes, u32,
}
use native.Mathlib.Nat.{one-le-pow}
use native.Mathlib.Decide.{dec_lt}
use thunix.Bitopts.{mask, byte_of, test_bit, minus_one, scan_word, search_words, find_first_zero}
use thunix.Bitopts.Laws.{bit, digit, test_bit_lem}

-- digit `k` of a byte that is not 255 is 0 for some `k`, and of 255 for none
full_table : test_up_to 8 (λ k. digit 255 k == 1) ≡ true
unfolding test_up_to
full_table = refl

digit-full : (k : ℕ) → k < 8 → digit 255 k ≡ 1
digit-full k h = (==_iff _ _).0 (test_up_to-at 8 (λ k. digit 255 k == 1) k full_table h)

load32-full :
    (m : Memory) (p : ℕ)
    → IsBytes m
    → load32 m p ≡ 0xffff_ffff
    → (m p ≡ 255) × (m (p + 1) ≡ 255) × (m (p + 2) ≡ 255) × (m (p + 3) ≡ 255)
unfolding load32
load32-full m p b h = omega (arith, b p, b (p + 1), b (p + 2), b (p + 3))

byte_in_word : (p i : ℕ) → i < 32 → (i / 8 ≡ 0) ⊎ (i / 8 ≡ 1) ⊎ (i / 8 ≡ 2) ⊎ (i / 8 ≡ 3)
byte_in_word p i h = omega arith

-- A word with every bit set.
bit_of_full : (m : Memory) (p i : ℕ) → IsBytes m → load32 m p ≡ 0xffff_ffff → i < 32 → bit m p i ≡ 1
bit_of_full m p i b h hi =
    ground (arith, load32-full m p b h, digit-full (i % 8) (omega arith), byte_in_word p i hi)

-- A byte with all eight bits set is 255.
abbrev full_test : ℕ → Bool
full_test b = (b == 255) || not (test_up_to 8 (λ k. digit b k == 1))

full_bytes : test_up_to 256 full_test ≡ true
unfolding test_up_to
full_bytes = refl

test_up_to-built : (n : ℕ) (p : ℕ → Bool) → ((x : ℕ) → x < n → p x ≡ true) → test_up_to n p ≡ true
unfolding test_up_to
test_up_to-built zero p h = refl
test_up_to-built (suc n) p h =
    ground (arith, h n (omega arith), test_up_to-built n p (λ x hx. h x (omega arith)))

byte_of_digits : (b : ℕ) → b < 256 → ((k : ℕ) → k < 8 → digit b k ≡ 1) → b ≡ 255
byte_of_digits b hb h = ground (
  arith,
  test_up_to-at 256 full_test b full_bytes hb,
  test_up_to-built 8 (λ k. digit b k == 1) (λ k hk. (==_iff _ _).1 (h k hk)),
)

full_of_bits :
    (m : Memory) (p : ℕ) → IsBytes m → ((i : ℕ) → i < 32 → bit m p i ≡ 1) → load32 m p ≡ 0xffff_ffff
unfolding load32
full_of_bits m p b h = omega (
  arith,
  byte 0 (omega arith) (p + 0) (omega arith),
  byte 1 (omega arith) (p + 1) (omega arith),
  byte 2 (omega arith) (p + 2) (omega arith),
  byte 3 (omega arith) (p + 3) (omega arith),
  ap m zero_eq,
)
  where
    zero_eq : p + 0 ≡ p
    zero_eq = omega arith

    byte : (q : ℕ) → q < 4 → (a : ℕ) → a ≡ p + q → m a ≡ 255
    byte q hq a e = byte_of_digits (m a) (b a) (λ k hk. ground (arith, h (8 * q + k) (omega arith)))

mask-pos : (i : ℕ) → mask i ≢ 0
mask-pos i h = absurd (pow_ne (i % 8) h)
  where
    pow_ne : (k : ℕ) → 2 ^ k ≢ 0
    pow_ne k e = omega (arith, one-le-pow k 2 (omega arith))

-- What scanning bits `i` up to 31 of the word at `p` finds.
data Scanned (m : Memory) (p block i r : ℕ) : Type 0 where
  found :
      (j : ℕ)
      → i ≤ j
      → j < 32
      → bit m p j ≡ 0
      → ((k : ℕ) → i ≤ k → k < j → bit m p k ≡ 1)
      → r ≡ u32 (block + j)
      → Scanned m p block i r
  full : ((k : ℕ) → i ≤ k → k < 32 → bit m p k ≡ 1) → r ≡ minus_one → Scanned m p block i r

digit-cases : (b k : ℕ) → (digit b k ≡ 0) ⊎ (digit b k ≡ 1)
digit-cases b k = omega arith

scan_word-Scanned :
    (m : Memory) (p block : ℕ) (left i : ℕ)
    → IsBytes m
    → i + left ≡ 32
    → Scanned m p block i (scan_word m p block left i)
unfolding scan_word
scan_word-Scanned m p block zero i b e = full (λ k h h'. absurd (omega arith)) refl
scan_word-Scanned m p block (suc left) i b e = elim (digit-cases (m (byte_of p i)) (i % 8)) [
  | inl z ↦
      rw (zero_test z) (found i (omega arith) (omega arith) z (λ k h h'. absurd (omega arith)) refl)
  | inr o ↦ rw (one_test o) (extend o (scan_word-Scanned m p block left (i + 1) b (omega arith)))
]
  where
    zero_test : bit m p i ≡ 0 → (test_bit m p i == 0) ≡ true
    zero_test z = ground (arith, test_bit_lem m p i b)

    one_test : bit m p i ≡ 1 → (test_bit m p i == 0) ≡ false
    one_test o = ground (arith, test_bit_lem m p i b, mask-pos i)

    below : bit m p i ≡ 1 → (k : ℕ) → i ≤ k → (i + 1 ≤ k → bit m p k ≡ 1) → bit m p k ≡ 1
    below o k h rest = ground arith

    extend : {r : ℕ} → bit m p i ≡ 1 → Scanned m p block (i + 1) r → Scanned m p block i r
    extend o (found j lo hi z ones e) =
        found j (omega arith) hi z (λ k h h'. below o k h (λ g. ones k g h')) e
    extend o (full ones e) = full (λ k h h'. below o k h (λ g. ones k g h')) e

-- `r` is the first clear bit of the `n` bits at `buf`, or `-1` where all of them are set.
pub data IsFirstZero (m : Memory) (buf n r : ℕ) : Type 0 where
  at : r < n → bit m buf r ≡ 0 → ((k : ℕ) → k < r → bit m buf k ≡ 1) → IsFirstZero m buf n r
  none_clear : r ≡ minus_one → ((k : ℕ) → k < n → bit m buf k ≡ 1) → IsFirstZero m buf n r

-- Bit `32 * w + i` of the bitmap is bit `i` of its word `w`.
bit-word : (m : Memory) (buf w i : ℕ) → bit m buf (32 * w + i) ≡ bit m (buf + 4 * w) i
bit-word m buf w i = rw (byte_eq, digit_eq)
  where
    byte_eq : byte_of buf (32 * w + i) ≡ byte_of (buf + 4 * w) i
    byte_eq = omega arith

    digit_eq : (32 * w + i) % 8 ≡ i % 8
    digit_eq = omega arith

module _ (m : Memory) (buf words : ℕ) (b : IsBytes m) (small : 32 * words < minus_one) where
  bit_at : (w k : ℕ) → 32 * w ≤ k → bit m buf k ≡ bit m (buf + 4 * w) (k - 32 * w)
  bit_at w k h = ap (bit m buf) split ∙ bit-word m buf w (k - 32 * w)
    where
      split : k ≡ 32 * w + (k - 32 * w)
      split = omega arith

  -- the bits below word `w` are set
  Below : ℕ → Type 0
  Below w = (k : ℕ) → k < 32 * w → bit m buf k ≡ 1

  Below-suc : (w : ℕ) → Below w → ((i : ℕ) → i < 32 → bit m (buf + 4 * w) i ≡ 1) → Below (w + 1)
  unfolding Below
  Below-suc w below ones k h = elim (dec_lt k (32 * w)) [
    | yes p ↦ below k p
    | no p ↦ bit_at w k (omega arith) ∙ ones (k - 32 * w) (omega arith)
  ]

  first_of_word :
      (w r : ℕ)
      → w < words
      → Below w
      → load32 m (buf + 4 * w) ≢ 0xffff_ffff
      → Scanned m (buf + 4 * w) (32 * w) 0 r
      → IsFirstZero m buf (32 * words) r
  unfolding Below
  first_of_word w r hw below some_clear (found j lo hi z ones e) = rw at_r (
      at (omega arith) (bit-word m buf w j ∙ z) (λ k h. elim (dec_lt k (32 * w)) [
        | yes p ↦ below k p
        | no p ↦ bit_at w k (omega arith) ∙ ones (k - 32 * w) (omega arith) (omega arith)
      ]))
    where
      at_r : r ≡ 32 * w + j
      at_r = omega arith
  first_of_word w r hw below some_clear (full ones e) =
      absurd (some_clear (full_of_bits m (buf + 4 * w) b (λ i h. ones i (omega arith) h)))

  stop_at :
      (w p block : ℕ)
      → w < words
      → p ≡ buf + 4 * w
      → block ≡ 32 * w
      → Below w
      → load32 m p ≢ 0xffff_ffff
      → IsFirstZero m buf (32 * words) (scan_word m p block 32 0)
  stop_at w p block hw hp hb below ne =
      rw (hp, hb)
        (first_of_word w (scan_word m (buf + 4 * w) (32 * w) 32 0) hw below (rw hp at ne)
          (scan_word-Scanned m (buf + 4 * w) (32 * w) 32 0 b (omega arith)))

  full_word :
      (w p : ℕ) → p ≡ buf + 4 * w → (load32 m p == 0xffff_ffff) ≡ true → Below w → Below (w + 1)
  full_word w p hp all below =
      Below-suc w below (λ i h. bit_of_full m (buf + 4 * w) i b (rw (← hp) ((==_iff _ _).0 all)) h)

  search_lem :
      (fuel w p block : ℕ)
      → w ≤ words
      → p ≡ buf + 4 * w
      → block ≡ 32 * w
      → 4 * (words - w) < fuel
      → Below w
      → (r : ℕ) × (search_words m (buf + 4 * words) fuel p block ≡ some r)
        × IsFirstZero m buf (32 * words) r
  unfolding search_words Below
  search_lem zero w p block hw hp hb hf below = absurd (omega arith)
  search_lem (suc fuel) w p block hw hp hb hf below =
      elim (Bool-cases (load32 m p == 0xffff_ffff)) [
        | inl all ↦ elim (dec_lt w words) [
          | yes in_range ↦
              let (r, e, first) =
                search_lem fuel (w + 1) (p + 4) (u32 (block + 32)) (omega arith) (omega arith)
                  (omega arith) (omega arith) (full_word w p hp all below) in
              (r, ground arith, first)
          | no past ↦ (minus_one, ground arith, none_clear refl (λ k h. below k (omega arith)))
        ]
        | inr some_clear ↦ elim (dec_lt w words) [
          | yes in_range ↦ (
            scan_word m p block 32 0,
            ground arith,
            stop_at w p block in_range hp hb below (ground arith),
          )
          | no past ↦ (minus_one, ground arith, none_clear refl (λ k h. below k (omega arith)))
        ]
      ]

  -- A bitmap of `words` 32-bit words, fewer than 2^32 bits: `find_first_zero` returns, and its
  -- result is the number of the first clear bit, or `-1` exactly when all bits are set.
  pub find_first_zero_lem :
      (r : ℕ) × (find_first_zero m buf (buf + 4 * words) ≡ some r)
      × IsFirstZero m buf (32 * words) r
  unfolding find_first_zero Below
  find_first_zero_lem =
      search_lem (buf + 4 * words - buf + 1) 0 buf 0 (omega arith) (omega arith) (omega arith)
        (omega arith) (λ k h. absurd (omega arith))
