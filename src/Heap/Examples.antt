-- ===== src/Heap/Examples.antt =====
-- mm/malloc.c at concrete heaps.
use mathlib.Core.List.{Memᴰ}
use thunix.Base.{ℕ, ◌+◌, ◌-◌, ◌≤◌, ◌≡◌, refl, ◌≢◌, inl, some, List, [], ◌∷◌, arith}
use thunix.Heap.{
  Heap, header, memory, mem_size, get_next, find_free, malloc_init, malloc, free_ptr, size_needed,
  put,
}
use thunix.Heap.Regions.{IsHeap}
use thunix.Heap.Cut.{remove}
use thunix.Heap.Freed.{Freed}
use thunix.Heap.Free.{freed, owner, free_ptr_lem}
use thunix.Heap.Allocate.{Taken}
use thunix.Heap.Malloc.{
  from, first_fit, find_free-first_fit, malloc_fit_lem, malloc_none_lem, malloc_reused_lem,
}
use thunix.Heap.Roundtrip.{malloc-free_ptr}

abbrev nothing : ℕ → ℕ
nothing x = 0

-- a region of 64 bytes that is free, one of 32 that is in use, and the rest, which is free
abbrev three : Heap
three = record {
  prev = put (put nothing 0x800040 memory) 0x800060 0x800040;
  size = put (put (put nothing memory 64) 0x800040 32) 0x800060 (mem_size - 96);
  free = put (put nothing memory 1) 0x800060 1;
  next_start = memory;
}

abbrev three_regions : List ℕ
three_regions = memory ∷ 0x800040 ∷ 0x800060 ∷ []

three-IsHeap : IsHeap three three_regions
three-IsHeap = (refl, refl, omega arith, (refl, refl, omega arith, (refl, refl, omega arith, refl)))

-- the same regions, where the last one is in use too
abbrev used_up : Heap
used_up = record three { free = put nothing memory 1; next_start = 0x800040 }

used_up-IsHeap : IsHeap used_up three_regions
used_up-IsHeap =
    (refl, refl, omega arith, (refl, refl, omega arith, (refl, refl, omega arith, refl)))

-- ten bytes fit into the first region
malloc_fit_example :
    (g : Heap) × (malloc 4 three 10 ≡ some (memory + header, g))
    × (three.free memory ≢ 0)
    × (10 + header ≤ g.size memory)
    × Taken three three_regions (size_needed 10) memory g
unfolding first_fit from
malloc_fit_example =
    malloc_fit_lem three three_regions 4 10 memory three-IsHeap (Memᴰ.head refl) (omega arith) refl

malloc_none_result : malloc 4 used_up 100 ≡ some (0, used_up)
unfolding first_fit from
malloc_none_result =
    malloc_none_lem used_up three_regions 4 100 used_up-IsHeap (Memᴰ.tail (Memᴰ.head refl))
      (omega arith) refl (omega arith)

-- the region at `next_start` is in use, and `malloc` returns it for ten bytes
malloc_reused_example :
    (used_up.free 0x800040 ≡ 0) × ((g : Heap) × (malloc 4 used_up 10 ≡ some (0x800040 + header, g)))
unfolding first_fit from
malloc_reused_example =
    malloc_reused_lem used_up three_regions 4 10 used_up-IsHeap (Memᴰ.tail (Memᴰ.head refl))
      (omega arith) refl (omega arith)

-- `free` of the region in the middle, between two free ones
free_ptr_example :
    Freed three
      (freed three three_regions 0x800040)
      (owner three 0x800040)
      0x800040
      (free_ptr three (0x800040 + header))
free_ptr_example =
    free_ptr_lem three three_regions 0x800040 three-IsHeap (Memᴰ.tail (Memᴰ.head refl)) refl
      (inl (λ e. omega (arith, e)))

free_ptr_result :
    (freed three three_regions 0x800040 ≡ memory ∷ []) × (owner three 0x800040 ≡ memory)
unfolding freed owner get_next remove
free_ptr_result = (refl, refl)

malloc-free_ptr_example :
    (g : Heap) × (malloc 2 (malloc_init used_up) 1000 ≡ some (memory + header, g))
    × IsHeap (free_ptr g (memory + header)) (memory ∷ [])
    × ((free_ptr g (memory + header)).free memory ≢ 0)
malloc-free_ptr_example = malloc-free_ptr used_up 2 1000 (omega arith) (omega arith)

find_free-first_fit_example :
    find_free 4 three memory 100 ≡ some (first_fit three 100 three_regions)
find_free-first_fit_example =
    find_free-first_fit (0x800040 ∷ 0x800060 ∷ []) 4 three 0 memory memory 100 three-IsHeap
      (omega arith) (omega arith)
