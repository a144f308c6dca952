-- ===== src/Cache/Buffers.antt =====
-- fs/cache.c: what holds of every buffer of the cache stays so when blocks are read.
use thunix.Base.{ℕ, inl, inr, Bool, Option, ◌==◌, if-cases, Option-cases}
use thunix.Cache.{Ptr, head, Cache, update, find, unlink, append, get_cache_block}

module _ {D : Type 0} (P : D → Type 0) where
  update-all :
      (f : Ptr → D) (p : Ptr) (d : D) → P d → ((q : Ptr) → P (f q)) → (q : Ptr) → P (update f p d q)
  update-all f p d new old q = if-cases P (q == p) (λ _. new) (λ _. old q)

  -- A property of all buffers, and of whatever a read leaves in one, holds of all buffers behind
  -- `get_cache_block` too.
  pub get_cache_block-all :
      (bread : ℕ → Bool × D) (c : Cache D) (block : ℕ)
      → ((b : ℕ) → P (bread b).1)
      → ((p : Ptr) → P (c.buffer p))
      → (p : Ptr) → P ((get_cache_block bread c block).1.buffer p)
  unfolding get_cache_block unlink append
  get_cache_block-all bread c block reads all p =
      if-cases Q (c.block (c.prev head) == block) (λ _. all p)
        (λ _. elim (Option-cases (find c block c.entries (c.prev head))) [
          | inr (cs, e) ↦ rw e (all p)
          | inl e ↦ rw e (if-cases Q (bread block).0 (λ _. read) (λ _. read))
        ])
    where
      Q : Option Ptr × Cache D → Type 0
      Q out = P (out.1.buffer p)

      read : P (update c.buffer (c.next head) (bread block).1 p)
      read = update-all c.buffer (c.next head) (bread block).1 (reads block) all p
