-- ===== src/Strings/Blocks.antt =====
-- lib/string.c: what the block operations leave at each address.
use thunix.Base.{
  ℕ, zero, suc, ◌+◌, ◌-◌, ◌*◌, ◌/◌, ◌%◌, ◌^◌, ◌≤◌, ◌<◌, ◌≡◌, refl, ◌≢◌, ◌⊎◌, inl, inr, Bool, ◌&&◌,
  arith, ltb, leb, ◌==◌, if◌then◌else◌, ==_iff, Bool-cases, Memory, store, u8,
}
use thunix.Base.Int.{sub_ℕ, ◌-ℤ◌, pos, ℤ}
use thunix.Strings.{memset, memset_word, copy_up, copy_down, memcpy, memmove, memcmp}

-- `x` lies in the `n` bytes from `a`
abbrev pub within : ℕ → ℕ → ℕ → Bool
within a n x = leb a x && ltb x (a + n)

-- memory after `n` bytes from `src` have been copied to `dest` all at once
abbrev pub copied : Memory → ℕ → ℕ → ℕ → Memory
copied m dest src n x = if within dest n x then m (src + (x - dest)) else m x

same_place : (d s x : ℕ) → d < x → s + 1 + (x - (d + 1)) ≡ s + (x - d)
same_place d s x h = omega arith

pub copy_up_lem :
    (n : ℕ) (m : Memory) (d s x : ℕ) → (d ≤ s) ⊎ (s + n ≤ d) → copy_up m d s n x ≡ copied m d s n x
unfolding copy_up store
copy_up_lem zero m d s x h = ground arith
copy_up_lem (suc n) m d s x h =
    ground (arith, copy_up_lem n (store m d (m s)) (d + 1) (s + 1) x (omega arith))

pub copy_down_lem :
    (n : ℕ) (m : Memory) (d s x : ℕ) → s ≤ d → copy_down m (d + n) (s + n) n x ≡ copied m d s n x
unfolding copy_down store
copy_down_lem zero m d s x h = ground arith
copy_down_lem (suc n) m d s x h =
    rw (down_one d n, down_one s n)
      (ground (arith, copy_down_lem n (store m (d + n) (m (s + n))) d s x h))
  where
    down_one : (a k : ℕ) → a + suc k - 1 ≡ a + k
    down_one a k = omega arith

-- `memset` writes `c`, as a byte, to each of the `n` bytes from `s`, and nothing else.
pub memset_lem :
    (n : ℕ) (m : Memory) (s c x : ℕ) → memset m s c n x ≡ (if within s n x then u8 c else m x)
unfolding memset store
memset_lem zero m s c x = ground arith
memset_lem (suc n) m s c x = ground (arith, memset_lem n (store m s (u8 c)) (s + 1) c x)

-- The word is stored `n` times from `s` on, its low byte first, and nothing else changes.
pub memset_word_lem :
    (n : ℕ) (m : Memory) (s word x : ℕ)
    → memset_word m s word n x ≡ (
        if within s (2 * n) x
        then (if (x - s) % 2 == 0 then u8 word else u8 (word / 2 ^ 8))
        else m x)
unfolding memset_word store
memset_word_lem zero m s word x = ground arith
memset_word_lem (suc n) m s word x = ground (
  arith,
  memset_word_lem n (store (store m s (u8 word)) (s + 1) (u8 (word / 2 ^ 8))) (s + 2) word x,
)

-- `memcpy` copies the block as it was, where `dest` does not lie inside the source behind its
-- first byte, and changes no other byte.
pub memcpy_lem :
    (m : Memory) (dest src n x : ℕ)
    → (dest ≤ src) ⊎ (src + n ≤ dest)
    → memcpy m dest src n x ≡ copied m dest src n x
unfolding memcpy
memcpy_lem m dest src n x h = copy_up_lem n m dest src x h

-- `memmove` copies the block as it was, however the two blocks overlap, and changes no other byte.
pub memmove_lem : (m : Memory) (dest src n x : ℕ) → memmove m dest src n x ≡ copied m dest src n x
unfolding memmove
memmove_lem m dest src n x = elim (Bool-cases (leb dest src)) [
  | inl up ↦ rw up (copy_up_lem n m dest src x (ground arith))
  | inr down ↦ rw down (copy_down_lem n m dest src x (ground arith))
]

-- What `memcmp` reports of two blocks: 0 if all bytes agree, and else the difference of the first
-- two that do not.
pub data Compared (m : Memory) (cs ct n : ℕ) (res : ℤ) : Type 0 where
  same : ((i : ℕ) → i < n → m (cs + i) ≡ m (ct + i)) → res ≡ pos 0 → Compared m cs ct n res
  differ :
      (k : ℕ)
      → k < n
      → ((i : ℕ) → i < k → m (cs + i) ≡ m (ct + i))
      → m (cs + k) ≢ m (ct + k)
      → res ≡ sub_ℕ (m (cs + k)) (m (ct + k))
      → Compared m cs ct n res

Compared-suc :
    (m : Memory) (cs ct n : ℕ) (res : ℤ)
    → m cs ≡ m ct
    → Compared m (cs + 1) (ct + 1) n res
    → Compared m cs ct (suc n) res
Compared-suc m cs ct n res e (same agree r) = same (λ i h. ground (arith, agree (i - 1))) r
Compared-suc m cs ct n res e (differ k hk agree ne r) =
    differ (suc k) (omega arith) (λ i h. ground (arith, agree (i - 1))) (ground arith)
      (ground arith)

pub memcmp_lem : (n : ℕ) (m : Memory) (cs ct : ℕ) → Compared m cs ct n (memcmp m cs ct n)
unfolding memcmp ◌-ℤ◌
memcmp_lem zero m cs ct = same (λ i h. absurd (omega arith)) refl
memcmp_lem (suc n) m cs ct = elim (Bool-cases (m cs == m ct)) [
  | inl e ↦ rw e (Compared-suc m cs ct n _ ((==_iff _ _).0 e) (memcmp_lem n m (cs + 1) (ct + 1)))
  | inr e ↦
      rw e (differ 0 (omega arith) (λ i h. absurd (omega arith)) (ground arith) (ground arith))
]
