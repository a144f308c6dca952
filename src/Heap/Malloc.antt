-- ===== src/Heap/Malloc.antt =====
-- mm/malloc.c, `malloc`: the region it finds, and what it leaves of the regions.
use mathlib.Core.List.{Memᴰ}
use mathlib.Core.Option.{some-injective, none-ne-some}
use thunix.Base.{
  ℕ, zero, suc, ◌+◌, ◌≤◌, ◌<◌, ◌≡◌, refl, sym, ap, ◌∙◌, ◌≢◌, inl, inr, true, false, ◌&&◌, not,
  Option, none, some, List, [], ◌∷◌, arith, leb, ◌==◌, if◌then◌else◌, Bool-cases, length,
}
use thunix.Heap.{Heap, header, memory, get_next, find_free, allocate, found_or, malloc, size_needed}
use thunix.Heap.Regions.{Tiles, IsHeap, Tiles-le, region_bounds}
use thunix.Heap.Allocate.{Taken, allocate-Taken, allocate-small}
use thunix.Heap.Merge.{next_inside, next_end}

-- the regions from `s` on
unfoldable pub from : ℕ → List ℕ → List ℕ
from s [] = []
from s (r ∷ rs) = if r == s then r ∷ rs else from s rs

-- the first of the regions that is free and large enough
unfoldable pub first_fit : Heap → ℕ → List ℕ → Option ℕ
first_fit h needed [] = none
first_fit h needed (r ∷ rs) =
    if not (h.free r == 0) && leb needed (h.size r) then some r else first_fit h needed rs

find_free-none : (fuel : ℕ) (h : Heap) (needed : ℕ) → find_free (suc fuel) h 0 needed ≡ some none
unfolding find_free
find_free-none fuel h needed = refl

find_free-step :
    (fuel : ℕ) (h : Heap) (a needed : ℕ) (found : Option ℕ)
    → 0 < a
    → find_free fuel h (get_next h a) needed ≡ some found
    → find_free (suc fuel) h a needed
      ≡ some (if not (h.free a == 0) && leb needed (h.size a) then some a else found)
unfolding find_free
find_free-step fuel h a needed found some_a e = rw (is_some, e) (ground arith)
  where
    is_some : (a == 0) ≡ false
    is_some = ground (arith, some_a)

-- With more fuel than there are regions left, the search from a region on ends, and it finds the first
-- that is free and large enough, if any.
pub find_free-first_fit :
    (rs : List ℕ) (fuel : ℕ) (h : Heap) (p a r needed : ℕ)
    → Tiles h p a (r ∷ rs)
    → 0 < a
    → length (r ∷ rs) < fuel
    → find_free fuel h a needed ≡ some (first_fit h needed (r ∷ rs))
unfolding first_fit
find_free-first_fit rs zero h p a r needed t some_a enough = absurd (omega (arith, enough))
find_free-first_fit [] (suc zero) h p a r needed t some_a enough = absurd (omega (arith, enough))
find_free-first_fit [] (suc (suc fuel)) h p a r needed (e, e', small, t) some_a enough = rw e (
    find_free-step (suc fuel) h a needed none some_a
      (rw (next_end h a t) (find_free-none fuel h needed)))
find_free-first_fit (s ∷ rs) (suc fuel) h p a r needed (e, e', small, (e2, e2', small2, t)) some_a
      enough =
    rw e (
      find_free-step fuel h a needed _ some_a (
        rw (next_inside h a (omega (arith, small2, Tiles-le rs h _ _ t))) (
          find_free-first_fit rs fuel h a (a + h.size a) s needed (e2, e2', small2, t)
            (omega (arith, some_a)) (omega (arith, enough)))))

-- the regions from one of them on are laid out like the others
from-Tiles :
    (rs : List ℕ) (h : Heap) (p a s : ℕ)
    → Tiles h p a rs
    → Memᴰ s rs
    → (p' : ℕ) × (rs' : List ℕ) × (from s rs ≡ s ∷ rs')
      × Tiles h p' s (s ∷ rs')
      × (length rs' < length rs)
unfolding from
from-Tiles [] h p a s t m = elim m [ ]
from-Tiles (r ∷ rs) h p a s (e, before, small, t) (Memᴰ.head e') =
    (p, rs, rw is (rw e' refl), rw (e', e) (refl, before, small, t), omega arith)
  where
    is : (r == s) ≡ true
    is = ground (arith, e')
from-Tiles (r ∷ rs) h p a s (e, before, small, t) (Memᴰ.tail m) =
    let (p', rs', e', t', low) = from-Tiles rs h a (a + h.size a) s t m in
    (p', rs', rw other e', t', omega (arith, low))
  where
    other : (r == s) ≡ false
    other = ground (arith, e, small, region_bounds rs h a (a + h.size a) s t m)

from-Memᴰ : (rs : List ℕ) (s x : ℕ) → Memᴰ x (from s rs) → Memᴰ x rs
unfolding from
from-Memᴰ [] s x m = m
from-Memᴰ (r ∷ rs) s x m = elim (Bool-cases (r == s)) [
  | inl is ↦ rw is at m
  | inr other ↦ Memᴰ.tail (from-Memᴰ rs s x (rw other at m))
]

first_fit-some :
    (rs : List ℕ) (h : Heap) (needed good : ℕ)
    → first_fit h needed rs ≡ some good
    → Memᴰ good rs × (h.free good ≢ 0) × (needed ≤ h.size good)
unfolding first_fit
first_fit-some [] h needed good e = absurd (none-ne-some _ e)
first_fit-some (r ∷ rs) h needed good e =
    elim (Bool-cases (not (h.free r == 0) && leb needed (h.size r))) [
      | inl fits ↦
          let same = some-injective _ _ (rw fits at e) in
          rw (← same) (Memᴰ.head refl, ground (arith, fits), ground (arith, fits))
      | inr unfit ↦
          let (m, free, large) = first_fit-some rs h needed good (rw unfit at e) in
          (Memᴰ.tail m, free, large)
    ]

first_fit-none :
    (r : ℕ) (rs : List ℕ) (h : Heap) (needed : ℕ)
    → first_fit h needed (r ∷ rs) ≡ none
    → needed ≤ h.size r
    → h.free r ≡ 0
unfolding first_fit
first_fit-none r rs h needed e large =
    elim (Bool-cases (not (h.free r == 0) && leb needed (h.size r))) [
      | inl fits ↦ absurd (none-ne-some _ (sym (rw fits at e)))
      | inr unfit ↦ ground (arith, unfit, large)
    ]

malloc-first_fit :
    (h : Heap) (rs : List ℕ) (fuel size : ℕ)
    → IsHeap h rs
    → Memᴰ h.next_start rs
    → length rs < fuel
    → malloc fuel h size
      ≡ some (
          allocate h
            (found_or h.next_start (first_fit h (size_needed size) (from h.next_start rs)))
            (size_needed size))
unfolding malloc
malloc-first_fit h rs fuel size t m enough =
    let (p, rs', e, t', low) = from-Tiles rs h 0 memory h.next_start t m in
    let (high, _, _) = region_bounds rs h 0 memory h.next_start t m in
    rw
      (
        find_free-first_fit rs' fuel h p h.next_start h.next_start (size_needed size) t'
            (omega (arith, high)) (omega (arith, low, enough)),
        e,
      )
      refl

malloc-allocate :
    (h : Heap) (rs : List ℕ) (fuel size : ℕ) (found : Option ℕ)
    → IsHeap h rs
    → Memᴰ h.next_start rs
    → length rs < fuel
    → first_fit h (size_needed size) (from h.next_start rs) ≡ found
    → malloc fuel h size ≡ some (allocate h (found_or h.next_start found) (size_needed size))
malloc-allocate h rs fuel size found t m enough is =
    malloc-first_fit h rs fuel size t m enough
    ∙ ap (λ o. some (allocate h (found_or h.next_start o) (size_needed size))) is

-- `malloc` with enough fuel for the regions `rs`, where a region from `next_start` on is free and
-- large enough: it returns the bytes behind the header of the first such region. The region was free
-- and is in use now, and it holds the bytes asked for.
pub malloc_fit_lem :
    (h : Heap) (rs : List ℕ) (fuel size good : ℕ)
    → IsHeap h rs
    → Memᴰ h.next_start rs
    → length rs < fuel
    → first_fit h (size_needed size) (from h.next_start rs) ≡ some good
    → (g : Heap) × (malloc fuel h size ≡ some (good + header, g))
      × (h.free good ≢ 0)
      × (size + header ≤ g.size good)
      × Taken h rs (size_needed size) good g
malloc_fit_lem h rs fuel size good t m enough found =
    let (m', free, large) = first_fit-some (from h.next_start rs) h (size_needed size) good found in
    let (address, taken) =
      allocate-Taken h rs (size_needed size) good t (from-Memᴰ rs h.next_start good m')
        (omega arith) large in
    (
      (allocate h good (size_needed size)).1,
      rw (← address) (malloc-allocate h rs fuel size (some good) t m enough found),
      free,
      omega (arith, taken.large),
      taken,
    )

-- Where no free region from `next_start` on is large enough, and the region at `next_start` is too
-- small itself, `malloc` returns NULL and changes nothing.
pub malloc_none_lem :
    (h : Heap) (rs : List ℕ) (fuel size : ℕ)
    → IsHeap h rs
    → Memᴰ h.next_start rs
    → length rs < fuel
    → first_fit h (size_needed size) (from h.next_start rs) ≡ none
    → h.size h.next_start < size_needed size
    → malloc fuel h size ≡ some (0, h)
malloc_none_lem h rs fuel size t m enough nothing low =
    malloc-allocate h rs fuel size none t m enough nothing
    ∙ ap some (allocate-small h h.next_start (size_needed size) low)

-- Where no free region from `next_start` on is large enough, but the region at `next_start` is large
-- enough, `malloc` returns that region although it is in use.
pub malloc_reused_lem :
    (h : Heap) (rs : List ℕ) (fuel size : ℕ)
    → IsHeap h rs
    → Memᴰ h.next_start rs
    → length rs < fuel
    → first_fit h (size_needed size) (from h.next_start rs) ≡ none
    → size_needed size ≤ h.size h.next_start
    → (h.free h.next_start ≡ 0)
      × ((g : Heap) × (malloc fuel h size ≡ some (h.next_start + header, g)))
malloc_reused_lem h rs fuel size t m enough nothing large =
    let (p, rs', e, _, _) = from-Tiles rs h 0 memory h.next_start t m in
    let (address, _) =
      allocate-Taken h rs (size_needed size) h.next_start t m (omega arith) large in
    (
      first_fit-none h.next_start rs' h (size_needed size) (rw e at nothing) large,
      (
        (allocate h h.next_start (size_needed size)).1,
        rw (← address) (malloc-allocate h rs fuel size none t m enough nothing),
      ),
    )
