-- ===== src/Heap/Roundtrip.antt =====
-- mm/malloc.c: `malloc_init`, `malloc` and `free` together.
use mathlib.Core.List.{Memᴰ}
use thunix.Base.{
  ℕ, ◌+◌, ◌-◌, ◌≤◌, ◌<◌, ◌≡◌, refl, sym, ◌∙◌, ◌≢◌, inr, true, false, some, [], ◌∷◌, arith,
}
use thunix.Heap.{
  Heap, header, memory, mem_size, get_next, malloc_init, malloc, free_ptr, size_needed,
}
use thunix.Heap.Regions.{IsHeap}
use thunix.Heap.Cut.{insert_after, remove}
use thunix.Heap.Merge.{next_inside}
use thunix.Heap.Freed.{Freed}
use thunix.Heap.Free.{freed, owner, is_free, free_ptr_lem}
use thunix.Heap.Allocate.{taken}
use thunix.Heap.Malloc.{from, first_fit, malloc_fit_lem}

-- The heap of `malloc_init` is one region.
pub malloc_init-IsHeap : (h : Heap) → IsHeap (malloc_init h) (memory ∷ [])
unfolding malloc_init
malloc_init-IsHeap h = (refl, refl, omega arith, refl)

init_fit :
    (h : Heap) (needed : ℕ)
    → needed ≤ mem_size
    → first_fit (malloc_init h) needed (from (malloc_init h).next_start (memory ∷ [])) ≡ some memory
unfolding malloc_init first_fit from
init_fit h needed fits = ground (arith, fits)

init_start : (h : Heap) → Memᴰ (malloc_init h).next_start (memory ∷ [])
unfolding malloc_init
init_start h = Memᴰ.head refl

init_size : (h : Heap) → (malloc_init h).size memory ≡ mem_size
unfolding malloc_init
init_size h = refl

init_taken :
    (h : Heap) (needed : ℕ)
    → header < mem_size - needed
    → taken (malloc_init h) (memory ∷ []) needed memory ≡ memory ∷ (memory + needed) ∷ []
unfolding malloc_init taken insert_after
init_taken h needed wide = ground (arith, wide)

-- what `free` makes of two regions of which the second is free
free_first :
    (g : Heap) (n : ℕ)
    → IsHeap g (memory ∷ n ∷ [])
    → g.free memory ≡ 0
    → g.free n ≢ 0
    → IsHeap (free_ptr g (memory + header)) (memory ∷ [])
      × ((free_ptr g (memory + header)).free memory ≢ 0)
unfolding freed owner remove
free_first g n (a, b, c, (d, e, f, k)) used free_n =
    (rw regions_is at result.heap, rw owner_is at result.owned)
  where
    next_is : get_next g memory ≡ n
    next_is = next_inside g memory (omega (arith, k, f)) ∙ sym d

    result :
        Freed g
          (freed g (memory ∷ n ∷ []) memory)
          (owner g memory)
          memory
          (free_ptr g (memory + header))
    result =
        free_ptr_lem g (memory ∷ n ∷ []) memory (a, b, c, (d, e, f, k)) (Memᴰ.head refl) used
          (inr (λ e'. omega (arith, e', next_is, d)))

    first : is_free g (g.prev memory) ≡ false
    first = rw b refl

    next_free : is_free g (get_next g memory) ≡ true
    next_free = rw next_is (ground (arith, d, free_n))

    regions_is : freed g (memory ∷ n ∷ []) memory ≡ memory ∷ []
    regions_is = rw (first, next_free, next_is) (ground (arith, d, c))

    owner_is : owner g memory ≡ memory
    owner_is = rw first refl

-- On a fresh heap, `malloc` of a size that leaves room for another region succeeds with the first
-- bytes, and `free` of what it returns leaves one region again, a free one.
pub malloc-free_ptr :
    (h : Heap) (fuel size : ℕ)
    → 1 < fuel
    → header < mem_size - size_needed size
    → (g : Heap) × (malloc fuel (malloc_init h) size ≡ some (memory + header, g))
      × IsHeap (free_ptr g (memory + header)) (memory ∷ [])
      × ((free_ptr g (memory + header)).free memory ≢ 0)
malloc-free_ptr h fuel size enough wide =
    let (g, is, _, _, t) =
      malloc_fit_lem (malloc_init h) (memory ∷ []) fuel size memory (malloc_init-IsHeap h)
        (init_start h) enough (init_fit h (size_needed size) (omega (arith, wide))) in
    let (heap, free) =
      free_first g (memory + size_needed size) (rw (init_taken h (size_needed size) wide) at t.heap)
        t.used (t.rest (rw (init_size h) wide)) in
    (g, is, heap, free)
