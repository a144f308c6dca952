-- ===== src/Cache/Coherent.antt =====
-- fs/cache.c: what a caller of `get_cache_block` reads, where the disk holds `disk b` in block `b`.
use thunix.Base.{
  ℕ, ◌<◌, ◌≡◌, refl, ap, inl, inr, Bool, false, Option, none, some, List, [], ◌∷◌, arith, ◌==◌,
  ==_iff, Bool-cases, length,
}
use thunix.Cache.{Ptr, Cache, get_cache_block}
use thunix.Cache.Spec.{Lru, pick, drop_last, get, get-hit, get-loaded}
use thunix.Cache.Refine.{IsRing, view}
use thunix.Cache.Get.{Refines, get_cache_block-Refines}

module _ {D : Type 0} (disk : ℕ → D) where
  -- every entry holds its block's contents
  abbrev pub Coherent : Lru D → Type 0
  Coherent [] = Unit {0}
  Coherent ((k, d) ∷ l) = (d ≡ disk k) × Coherent l

  -- every read succeeds, and leaves the block's contents in the buffer
  abbrev pub Reads : (ℕ → Bool × D) → Type 0
  Reads bread = (b : ℕ) → bread b ≡ (false, disk b)

  -- What `pick` finds in a coherent list is what the disk holds.
  data Picked (b : ℕ) (l : Lru D) : Type 0 where
    missing : pick b l ≡ none → Picked b l
    found :
        (d : D) (rest : Lru D) → pick b l ≡ some (d, rest) → d ≡ disk b → Coherent rest → Picked b l

  Picked-cons :
      (b k : ℕ) (d : D) (l : Lru D)
      → (k == b) ≡ false
      → d ≡ disk k
      → Picked b l
      → Picked b ((k, d) ∷ l)
  unfolding pick
  Picked-cons b k d l ne q (missing p) = missing (rw (ne, p))
  Picked-cons b k d l ne q (found e rest p q' h) = found e ((k, d) ∷ rest) (rw (ne, p)) q' (q, h)

  pick-Picked : (b : ℕ) (l : Lru D) → Coherent l → Picked b l
  unfolding pick
  pick-Picked b [] h = missing refl
  pick-Picked b ((k, d) ∷ l) (q, h) = elim (Bool-cases (k == b)) [
    | inl same ↦ found d l (rw (same, pick)) (rw (← (==_iff k b).0 same) q) h
    | inr other ↦ Picked-cons b k d l other q (pick-Picked b l h)
  ]

  drop_last-Coherent : (l : Lru D) → Coherent l → Coherent (drop_last l)
  unfolding drop_last
  drop_last-Coherent [] h = h
  drop_last-Coherent (e ∷ []) h = tt
  drop_last-Coherent (e ∷ (e' ∷ l)) h = (h.0, drop_last-Coherent (e' ∷ l) h.1)

  get-Coherent :
      (bread : ℕ → Bool × D) (b : ℕ) (l : Lru D)
      → Reads bread
      → Coherent l
      → ((get bread l b).0 ≡ some (disk b)) × Coherent (get bread l b).1
  get-Coherent bread b l r h = go (pick-Picked b l h)
    where
      go : Picked b l → ((get bread l b).0 ≡ some (disk b)) × Coherent (get bread l b).1
      go (missing p) =
          rw (get-loaded bread l b (disk b) p (r b)) (refl, (refl, drop_last-Coherent l h))
      go (found d rest p q c) = rw (get-hit bread l b d rest p) (ap some q, (q, c))

  -- A coherent cache of at least two entries, on a disk whose reads succeed: `get_cache_block`
  -- returns an entry of the block asked for that holds the block's contents, and leaves a coherent
  -- cache of the same number of entries.
  pub get_cache_block-Coherent :
      (bread : ℕ → Bool × D) (c : Cache D) (l : List Ptr) (b : ℕ)
      → Reads bread
      → IsRing c l
      → 1 < length l
      → Coherent (view c.block c.buffer l)
      → let (r, c') = get_cache_block bread c b in
        (p : Ptr) × (order : List Ptr) × (r ≡ some p)
        × (c'.block p ≡ b)
        × (c'.buffer p ≡ disk b)
        × IsRing c' order
        × (length order ≡ length l)
        × Coherent (view c'.block c'.buffer order)
  get_cache_block-Coherent bread c l b reads ring size h =
      go (get_cache_block bread c b) (get_cache_block-Refines bread c b l ring size)
        (get-Coherent bread b (view c.block c.buffer l) reads h)
    where
      go :
          (out : Option Ptr × Cache D)
          → Refines c l bread b out
          → ((get bread (view c.block c.buffer l) b).0 ≡ some (disk b))
            × Coherent (get bread (view c.block c.buffer l) b).1
          → (p : Ptr) × (order : List Ptr) × (out.0 ≡ some p)
            × (out.1.block p ≡ b)
            × (out.1.buffer p ≡ disk b)
            × IsRing out.1 order
            × (length order ≡ length l)
            × Coherent (view out.1.block out.1.buffer order)
      go (none, c') s (e, k) = absurd (ground (arith, s.reply))
      go (some p, c') s (e, k) = (
        p,
        s.order,
        refl,
        s.names p refl,
        ground (arith, s.reply),
        s.ring,
        s.same_size,
        rw s.shows k,
      )
