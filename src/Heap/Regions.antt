-- ===== src/Heap/Regions.antt =====
-- mm/malloc.c: the regions of the heap as a list of headers, and what one change does to it.
use mathlib.Core.List.{Memᴰ}
use thunix.Base.{ℕ, ◌+◌, ◌≤◌, ◌≡◌, refl, sym, ap, ◌∙◌, ◌⊎◌, inl, inr, List, [], ◌∷◌, arith}
use thunix.Heap.{Heap, header, memory, mem_end, get_next}

-- The regions `rs` lie one behind the other from `a` to `mem_end`, and each header names the region
-- before it, the first `p`.
abbrev pub Tiles : Heap → ℕ → ℕ → List ℕ → Type 0
Tiles h p a [] = a ≡ mem_end
Tiles h p a (r ∷ rs) = (r ≡ a) × (h.prev a ≡ p) × (header ≤ h.size a) × Tiles h a (a + h.size a) rs

-- a heap with the regions `rs`
abbrev pub IsHeap : Heap → List ℕ → Type 0
IsHeap h rs = Tiles h 0 memory rs

pub Tiles-le : (rs : List ℕ) (h : Heap) (p a : ℕ) → Tiles h p a rs → a ≤ mem_end
Tiles-le [] h p a t = omega (arith, t)
Tiles-le (r ∷ rs) h p a (e, _, small, t) = omega (arith, small, Tiles-le rs h a (a + h.size a) t)

-- where a region lies
pub region_bounds :
    (rs : List ℕ) (h : Heap) (p a r : ℕ)
    → Tiles h p a rs
    → Memᴰ r rs
    → (a ≤ r) × (header ≤ h.size r) × (r + h.size r ≤ mem_end)
region_bounds [] h p a r t m = elim m [ ]
region_bounds (x ∷ rs) h p a r (e, _, small, t) (Memᴰ.head e') =
    rw (e', e) (omega arith, small, Tiles-le rs h a (a + h.size a) t)
region_bounds (x ∷ rs) h p a r (e, _, small, t) (Memᴰ.tail m) =
    let (low, ok, high) = region_bounds rs h a (a + h.size a) r t m in
    (omega (arith, low, small), ok, high)

-- Regions do not overlap.
pub regions_apart :
    (rs : List ℕ) (h : Heap) (p a r s : ℕ)
    → Tiles h p a rs
    → Memᴰ r rs
    → Memᴰ s rs
    → (r ≡ s) ⊎ ((r + h.size r ≤ s) ⊎ (s + h.size s ≤ r))
regions_apart [] h p a r s t m m' = elim m [ ]
regions_apart (x ∷ rs) h p a r s (e, _, small, t) (Memᴰ.head e1) (Memᴰ.head e2) = inl (e1 ∙ sym e2)
regions_apart (x ∷ rs) h p a r s (e, _, small, t) (Memᴰ.head e1) (Memᴰ.tail m) =
    rw (e1, e) (inr (inl (region_bounds rs h a (a + h.size a) s t m).0))
regions_apart (x ∷ rs) h p a r s (e, _, small, t) (Memᴰ.tail m) (Memᴰ.head e2) =
    rw (e2, e) (inr (inr (region_bounds rs h a (a + h.size a) r t m).0))
regions_apart (x ∷ rs) h p a r s (e, _, small, t) (Memᴰ.tail m) (Memᴰ.tail m') =
    regions_apart rs h a (a + h.size a) r s t m m'

-- Only the headers of the regions matter.
pub Tiles-frame :
    (rs : List ℕ) (h h' : Heap) (p a : ℕ)
    → ((r : ℕ) → Memᴰ r rs → (h'.size r ≡ h.size r) × (h'.prev r ≡ h.prev r))
    → Tiles h p a rs
    → Tiles h' p a rs
Tiles-frame [] h h' p a f t = t
Tiles-frame (r ∷ rs) h h' p a f (e, before, small, t) =
    let (same_size, same_prev) : (h'.size a ≡ h.size a) × (h'.prev a ≡ h.prev a) = at_a in
    (
      e,
      same_prev ∙ before,
      rw same_size small,
      rw same_size (Tiles-frame rs h h' a (a + h.size a) (λ x m. f x (Memᴰ.tail m)) t),
    )
  where
    at_a : (h'.size a ≡ h.size a) × (h'.prev a ≡ h.prev a)
    at_a = rw (← e) (f r (Memᴰ.head refl))

-- What lies behind a region: the end of the heap, or a region that names it.
pub data Behind (h : Heap) (rs : List ℕ) (r : ℕ) : Type 0 where
  last : r + h.size r ≡ mem_end → get_next h r ≡ 0 → Behind h rs r
  before :
      Memᴰ (r + h.size r) rs
      → get_next h r ≡ r + h.size r
      → h.prev (r + h.size r) ≡ r
      → Behind h rs r

first_next : (rs : List ℕ) (h : Heap) (a : ℕ) → Tiles h a (a + h.size a) rs → Behind h rs a
unfolding get_next
first_next [] h a e = last e (ground arith)
first_next (s ∷ rs) h a (e, e', small, t) =
    before (Memᴰ.head (sym e))
      (ground (arith, Tiles-le rs h (a + h.size a) (a + h.size a + h.size (a + h.size a)) t)) e'

Behind-tail : (h : Heap) (x : ℕ) (rs : List ℕ) (r : ℕ) → Behind h rs r → Behind h (x ∷ rs) r
Behind-tail h x rs r (last e n) = last e n
Behind-tail h x rs r (before m n e) = before (Memᴰ.tail m) n e

pub region-Behind :
    (rs : List ℕ) (h : Heap) (p a r : ℕ) → Tiles h p a rs → Memᴰ r rs → Behind h rs r
region-Behind [] h p a r t m = elim m [ ]
region-Behind (x ∷ rs) h p a r (e, _, _, t) (Memᴰ.head e') =
    Behind-tail h x rs r (rw (e', e) (first_next rs h a t))
region-Behind (x ∷ rs) h p a r (e, _, _, t) (Memᴰ.tail m) =
    Behind-tail h x rs r (region-Behind rs h a (a + h.size a) r t m)

-- What lies ahead of a region: nothing, or the region it names.
pub region-ahead :
    (rs : List ℕ) (h : Heap) (p a r : ℕ)
    → Tiles h p a rs
    → Memᴰ r rs
    → ((r ≡ a) × (h.prev r ≡ p)) ⊎ (Memᴰ (h.prev r) rs × (h.prev r + h.size (h.prev r) ≡ r))
region-ahead [] h p a r t m = elim m [ ]
region-ahead (x ∷ rs) h p a r (e, e', _, t) (Memᴰ.head e'') = inl (e'' ∙ e, rw (e'', e) e')
region-ahead (x ∷ rs) h p a r (e, e', _, t) (Memᴰ.tail m) =
    elim (region-ahead rs h a (a + h.size a) r t m) [
      | inl (at, named) ↦ inr (Memᴰ.head (named ∙ sym e), ap (λ q. q + h.size q) named ∙ sym at)
      | inr (m', end) ↦ inr (Memᴰ.tail m', end)
    ]
