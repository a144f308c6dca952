-- ===== src/Cache/Again.antt =====
-- fs/cache.c: the block that `get_cache_block` returned last is the freshest, and is returned again.
use thunix.Base.{ℕ, zero, suc, ◌≡◌, inl, inr, Bool, some, arith, ◌==◌, Bool-cases, Option-cases}
use thunix.Cache.{Ptr, head, Cache, find, unlink, append, get_cache_block}

module _ {D : Type 0} where
  -- `p` is the freshest entry and holds block `b`
  pub record IsFreshest (c : Cache D) (b : ℕ) (p : Ptr) : Type 0 where
    pub freshest : c.prev head ≡ p
    pub names : c.block p ≡ b

  find-block : (c : Cache D) (b left : ℕ) (cs p : Ptr) → find c b left cs ≡ some p → c.block p ≡ b
  unfolding find
  find-block c b zero cs p e = ground arith
  find-block c b (suc left) cs p e = ground (arith, find-block c b left (c.prev cs) p)

  append-IsFreshest :
      (c : Cache D) (last cs : Ptr) (b : ℕ) (p : Ptr)
      → some cs ≡ some p
      → c.block cs ≡ b
      → IsFreshest (append c last cs) b p
  unfolding append
  append-IsFreshest c last cs b p s e = record { freshest = ground arith; names = ground arith }

  -- An entry that `get_cache_block` returns is the freshest afterwards, and holds the block asked for.
  pub get_cache_block-IsFreshest :
      (bread : ℕ → Bool × D) (c : Cache D) (b : ℕ) (p : Ptr)
      → (get_cache_block bread c b).0 ≡ some p
      → IsFreshest (get_cache_block bread c b).1 b p
  unfolding get_cache_block unlink
  get_cache_block-IsFreshest bread c b = elim (Bool-cases (c.block (c.prev head) == b)) [
    | inl e ↦ rw e (λ p h. record { freshest = ground arith; names = ground arith })
    | inr e ↦ rw e (elim (Option-cases (find c b c.entries (c.prev head))) [
      | inl f ↦ rw f (elim (Bool-cases (bread b).0) [
        | inl failed ↦ rw failed (λ p h. absurd (ground arith))
        | inr ok ↦ rw ok (λ p h. append-IsFreshest _ _ _ b p h (ground arith))
      ])
      | inr (cs, f) ↦ rw f (λ p h. append-IsFreshest _ _ _ b p h (find-block c b _ _ cs f))
    ])
  ]

  pub IsFreshest-get_cache_block :
      (bread : ℕ → Bool × D) (c : Cache D) (b : ℕ) (p : Ptr)
      → IsFreshest c b p
      → get_cache_block bread c b ≡ (some p, c)
  unfolding get_cache_block
  IsFreshest-get_cache_block bread c b p f = ground (arith, f.freshest, f.names)
