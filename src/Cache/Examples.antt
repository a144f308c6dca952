-- ===== src/Cache/Examples.antt =====
-- fs/cache.c with three entries, on a disk whose block `b` holds `b + 100`.
use thunix.Base.{
  ℕ, ◌+◌, ◌-◌, ◌≤◌, ◌<◌, ◌≡◌, refl, Bool, false, some, List, [], ◌∷◌, arith, ◌==◌, if◌then◌else◌,
  length,
}
use thunix.Cache.{Ptr, head, Cache, no_block, max_cache_entries, cache_init, get_cache_block}
use thunix.Cache.Refine.{IsRing, view}
use thunix.Cache.Get.{Refines, get_cache_block-Refines}
use thunix.Cache.Coherent.{Coherent, get_cache_block-Coherent}
use thunix.Cache.Init.{below, cache_init-IsRing}

abbrev disk : ℕ → ℕ
disk b = b + 100

abbrev bread : ℕ → Bool × ℕ
bread b = (false, disk b)

-- block `i` in entry `i`, entry 2 the freshest
abbrev three : Cache ℕ
three = record {
  entries = 3;
  block = λ p. p;
  prev = λ p. if p == head then 2 else if p == 0 then head else p - 1;
  next = λ p. if p == head then 0 else if p == 2 then head else p + 1;
  buffer = λ p. disk p;
}

abbrev order : List Ptr
order = 2 ∷ 1 ∷ 0 ∷ []

three-IsRing : IsRing three order
three-IsRing = record {
  chain = (refl, refl, (refl, refl, (refl, refl, (refl, refl))));
  apart = refl;
  distinct = (refl, (refl, (refl, tt)));
  count = refl;
}

abbrev blank : Cache ℕ
blank = record { entries = 0; block = λ p. 0; prev = λ p. 0; next = λ p. 0; buffer = λ p. 0 }

get_cache_block-Refines_example : Refines three order bread 7 (get_cache_block bread three 7)
get_cache_block-Refines_example =
    get_cache_block-Refines bread three 7 order three-IsRing (omega arith)

get_cache_block-Coherent_example :
    let (r, c') = get_cache_block bread three 1 in
    (p : Ptr) × (l : List Ptr) × (r ≡ some p)
    × (c'.block p ≡ 1)
    × (c'.buffer p ≡ disk 1)
    × IsRing c' l
    × (length l ≡ length order)
    × Coherent disk (view c'.block c'.buffer l)
get_cache_block-Coherent_example =
    get_cache_block-Coherent disk bread three order 1 (λ b. refl) three-IsRing (omega arith)
      (refl, (refl, (refl, tt)))

cache_init-IsRing_example :
    let c' = cache_init 12 blank in
    IsRing c' (below c'.entries)
    × (c'.entries ≤ max_cache_entries)
    × ((p : Ptr) → p < c'.entries → c'.block p ≡ no_block)
cache_init-IsRing_example = cache_init-IsRing 12 blank (omega arith)
