-- ===== src/Cache/Init.antt =====
-- fs/cache.c: `cache_init` sets up the ring.
use thunix.Base.{
  ℕ, zero, suc, ◌+◌, ◌-◌, ◌/◌, ◌^◌, ◌≤◌, ◌<◌, ◌≡◌, refl, ap, List, [], ◌∷◌, arith, ltb,
  if◌then◌else◌, length,
}
use native.Mathlib.Numerals.{add-one}
use thunix.Cache.{
  Ptr, head, Cache, update, no_block, cache_size, max_cache_entries, init_entries, cache_init,
}
use thunix.Cache.Ring.{◌∉◌, Distinct, Chain, frame}
use thunix.Cache.Refine.{IsRing}

-- the entries `i - 1` down to 0
abbrev pub below : ℕ → List Ptr
below zero = []
below (suc i) = i ∷ below i

has-below : (y i : ℕ) → i ≤ y → y ∉ below i
has-below y zero h = refl
has-below y (suc i) h = ground (arith, has-below y i)

below-Distinct : (i : ℕ) → Distinct (below i)
below-Distinct zero = tt
below-Distinct (suc i) = (has-below i i (omega arith), below-Distinct i)

length-below : (i : ℕ) → length (below i) ≡ i
length-below zero = refl
length-below (suc i) = ap suc (length-below i)

-- the value of `prev` at entry `i`
abbrev before : ℕ → Ptr
before zero = head
before (suc j) = j

module _ {D : Type 0} where
  -- what the loop has linked behind it when it reaches entry `i`, seen from the freshest entry
  abbrev Half : Cache D → ℕ → Type 0
  Half c zero = Unit {0}
  Half c (suc j) = Chain c.prev c.next j (below j) head

  -- the loop's invariant at entry `i` of `n`
  record Inv (c : Cache D) (n i : ℕ) : Type 0 where
    half : Half c i
    first : c.prev head ≡ n - 1
    last : c.next (n - 1) ≡ head
    unused : (p : Ptr) → p < i → c.block p ≡ no_block
    entries : c.entries ≡ n

  abbrev visit : Cache D → ℕ → Cache D
  visit c i = record c {
    block = update c.block i no_block;
    prev = update c.prev i (before i);
    next = update c.next (before i) i;
  }

  visit-Half : (c : Cache D) (i : ℕ) → i < head → Half c i → Half (visit c i) (i + 1)
  visit-Half c i h v = rw add-one (go c i h v)
    where
      go : (c : Cache D) (i : ℕ) → i < head → Half c i → Half (visit c i) (suc i)
      go c zero h v = ground arith
      go c (suc j) h v = (
        ground arith,
        ground arith,
        frame c.prev c.next _ _ j (below j) head (λ y m. ground (arith, has-below (suc j) j))
            (λ y m. ground (arith, has-below j j)) v,
      )

  visit-Inv : (c : Cache D) (n i : ℕ) → i < n → n ≤ head → Inv c n i → Inv (visit c i) n (i + 1)
  visit-Inv c n i h small v = record {
    half = visit-Half c i (omega arith) v.half;
    first = ground (arith, v.first);
    last = go i h;
    unused = λ p hp. ground (arith, v.unused p);
    entries = v.entries;
  }
    where
      go : (i : ℕ) → i < n → (visit c i).next (n - 1) ≡ head
      go zero h = ground (arith, v.last)
      go (suc j) h = ground (arith, v.last)

  init_entries-Inv :
      (left : ℕ) (c : Cache D) (n i : ℕ)
      → i + left ≡ n
      → n ≤ head
      → Inv c n i
      → (b : Ptr) → b ≡ before i
      → Inv (init_entries left i b c) n n
  unfolding init_entries
  init_entries-Inv zero c n i e small v b eb = let e' : i ≡ n = omega arith in rw e' at v
  init_entries-Inv (suc left) c n i e small v b eb = rw eb (
      init_entries-Inv left (visit c i) n (i + 1) (omega arith) small
        (visit-Inv c n i (omega arith) small v) i (rw add-one refl))

  Inv-IsRing : (c : Cache D) (n : ℕ) → 0 < n → n ≤ head → Inv c n n → IsRing c (below n)
  Inv-IsRing c zero h small v = absurd (omega arith)
  Inv-IsRing c (suc j) h small v = record {
    chain = (ground (arith, v.first), ground (arith, v.last), v.half);
    apart = has-below head (suc j) (omega arith);
    distinct = below-Distinct (suc j);
    count = omega (arith, v.entries, length-below j);
  }

  -- the call with the number of entries worked out
  ring_of : Cache D → ℕ → Cache D
  ring_of c n = init_entries n 0 head (record c {
    entries = n;
    prev = update c.prev head (n - 1);
    next = update c.next (n - 1) head;
  })

  ring_of-Inv : (c : Cache D) (n : ℕ) → n ≤ head → Inv (ring_of c n) n n
  unfolding ring_of
  ring_of-Inv c n small =
      init_entries-Inv n _ n 0 (omega arith) small
        (record {
          half = tt;
          first = ground arith;
          last = ground arith;
          unused = λ p h. absurd (omega arith);
          entries = refl;
        })
        head refl

  -- Unless the blocks are larger than the whole cache, `cache_init` leaves a ring of all the entries
  -- from the last to the first, at most 64, none of which holds a block, whatever was there before.
  pub cache_init-IsRing :
      (block_shift : ℕ) (c : Cache D)
      → 0 < cache_size / 2 ^ block_shift
      → let c' = cache_init block_shift c in
        IsRing c' (below c'.entries)
        × (c'.entries ≤ max_cache_entries)
        × ((p : Ptr) → p < c'.entries → c'.block p ≡ no_block)
  unfolding cache_init ring_of
  cache_init-IsRing block_shift c h =
      done
        (if ltb max_cache_entries (cache_size / 2 ^ block_shift)
          then max_cache_entries
          else cache_size / 2 ^ block_shift)
        (ground arith) (ground arith)
    where
      done :
          (n : ℕ)
          → 0 < n
          → n ≤ head
          → IsRing (ring_of c n) (below (ring_of c n).entries)
            × ((ring_of c n).entries ≤ max_cache_entries)
            × ((p : Ptr) → p < (ring_of c n).entries → (ring_of c n).block p ≡ no_block)
      done n pos small =
          let v = ring_of-Inv c n small in
          rw v.entries (Inv-IsRing (ring_of c n) n pos small v, small, v.unused)
