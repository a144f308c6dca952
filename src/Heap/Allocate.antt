-- ===== src/Heap/Allocate.antt =====
-- mm/malloc.c, `malloc` from the end of its loop: what taking a region leaves of the regions.
use mathlib.Core.List.{Memᴰ}
use thunix.Base.{
  ℕ, ◌+◌, ◌-◌, ◌≤◌, ◌<◌, ◌≡◌, refl, ap, ◌∙◌, ◌≢◌, true, false, List, arith, ltb, leb, ◌==◌,
  if◌then◌else◌, if-cases,
}
use thunix.Heap.{Heap, header, memory, mem_end, get_next, set_prev, allocate, split, put}
use thunix.Heap.Regions.{IsHeap, Tiles-frame, region_bounds, regions_apart}
use thunix.Heap.Cut.{Cut, insert_after, Tiles-Cut}
use thunix.Heap.Merge.{
  NextAt, next-NextAt, next_inside, set_prev-size, set_prev-free, set_prev-other, set_prev-next,
}

-- The rest of a region becomes a region of its own where it can hold more than a header.
unfoldable pub taken : Heap → List ℕ → ℕ → ℕ → List ℕ
taken h rs needed good =
    if leb (h.size good - needed) header then rs else insert_after good (good + needed) rs

-- `g` is `h` with its region `good` in use; only the rest of it may be a new region, a free one.
pub record Taken (h : Heap) (rs : List ℕ) (needed good : ℕ) (g : Heap) : Type 0 where
  pub heap : IsHeap g (taken h rs needed good)
  pub used : g.free good ≡ 0
  pub large : needed ≤ g.size good
  pub rest : header < h.size good - needed → g.free (good + needed) ≢ 0
  pub others : (x : ℕ) → Memᴰ x rs → x ≢ good → (g.free x ≡ h.free x) × (g.size x ≡ h.size x)

-- a region is not inside another one
outside :
    (h : Heap) (rs : List ℕ) (needed good x : ℕ)
    → IsHeap h rs
    → Memᴰ good rs
    → header ≤ needed
    → needed < h.size good
    → Memᴰ x rs
    → x ≢ good + needed
outside h rs needed good x t m big fits m' e =
    let (_, small, _) = region_bounds rs h 0 memory x t m' in
    absurd (omega (arith, regions_apart rs h 0 memory good x t m m', small))

-- the rest too small for a header
whole-Taken :
    (h g : Heap) (rs : List ℕ) (needed good : ℕ)
    → IsHeap h rs
    → Memᴰ good rs
    → header ≤ needed
    → needed < h.size good
    → h.size good - needed ≤ header
    → g.prev ≡ h.prev
    → g.free ≡ put h.free good 0
    → ((x : ℕ)
        → g.size x ≡ put (put h.size (good + needed) (h.size good - needed)) good (h.size good) x)
    → Taken h rs needed good g
unfolding taken
whole-Taken h g rs needed good t m big fits tight prevs frees sizes = record {
  heap = rw no_rest (Tiles-frame rs h g 0 memory (λ x m'. (size_at x m', ap (λ f. f x) prevs)) t);
  used = rw frees (ground arith);
  large = rw (sizes good) (ground (arith, fits));
  rest = λ wide. absurd (omega (arith, wide, tight));
  others = λ x m' other. (rw frees (ground (arith, other)), size_at x m');
}
  where
    no_rest : leb (h.size good - needed) header ≡ true
    no_rest = ground (arith, tight)

    size_at : (x : ℕ) → Memᴰ x rs → g.size x ≡ h.size x
    size_at x m' = rw (sizes x) (ground (arith, outside h rs needed good x t m big fits m'))

-- the heap where the rest becomes a region
abbrev cut_heap : Heap → ℕ → ℕ → Heap
cut_heap h good needed =
    let n = good + needed in
    let h3 = record h {
      prev = put h.prev n good;
      size = put (put h.size good needed) n (h.size good - needed);
      free = put (put h.free good 0) n 1;
      next_start = n;
    } in
    set_prev h3 (get_next h3 n) n

cut_heap-Cut :
    (h : Heap) (needed good : ℕ)
    → header ≤ needed
    → needed < h.size good
    → header < h.size good - needed
    → good + h.size good ≤ mem_end
    → Cut h (cut_heap h good needed) good (good + needed)
cut_heap-Cut h needed good big fits wide inside = record {
  start = rw size_is (ground (arith, big));
  front = rw size_is (ground (arith, big));
  back = rw size_is (ground (arith, wide));
  whole = rw size_is (ground (arith, big, fits));
  sizes = λ x other other'. rw size_is (ground (arith, other, other'));
  prevs = λ x other other'.
      set_prev-other h3 next end n x at (λ e. other' (e ∙ end_is)) ∙ ground (arith, other);
  prev_n = set_prev-other h3 next end n n at (omega (arith, end_is, fits)) ∙ ground arith;
  prev_next = λ low. rw (← end_is) (set_prev-next h3 next end n at (omega (arith, low, end_is)));
}
  where
    n : ℕ
    n = good + needed

    h3 : Heap
    h3 = record h {
      prev = put h.prev n good;
      size = put (put h.size good needed) n (h.size good - needed);
      free = put (put h.free good 0) n 1;
      next_start = n;
    }

    next : ℕ
    next = get_next h3 n

    end : ℕ
    end = n + h3.size n

    end_is : end ≡ good + h.size good
    end_is = ground (arith, fits)

    at : NextAt next end
    at = next-NextAt h3 n (ground (arith, wide)) (omega (arith, end_is, inside))

    size_is : (set_prev h3 next n).size ≡ h3.size
    size_is = set_prev-size h3 next n

cut_heap-Taken :
    (h : Heap) (rs : List ℕ) (needed good : ℕ)
    → IsHeap h rs
    → Memᴰ good rs
    → header ≤ needed
    → needed < h.size good
    → header < h.size good - needed
    → Taken h rs needed good (cut_heap h good needed)
unfolding taken
cut_heap-Taken h rs needed good t m big fits wide = record {
  heap = rw some_rest (Tiles-Cut rs h g 0 memory good (good + needed) cut t m);
  used = rw free_is (ground (arith, big));
  large = omega (arith, cut.start);
  rest = λ _. rw free_is (ground arith);
  others = λ x m' other. (
    rw free_is (ground (arith, other, outside h rs needed good x t m big fits m')),
    cut.sizes x other (outside h rs needed good x t m big fits m'),
  );
}
  where
    g : Heap
    g = cut_heap h good needed

    cut : Cut h g good (good + needed)
    cut = cut_heap-Cut h needed good big fits wide (region_bounds rs h 0 memory good t m).2

    some_rest : leb (h.size good - needed) header ≡ false
    some_rest = ground (arith, wide)

    free_is : g.free ≡ put (put h.free good 0) (good + needed) 1
    free_is = set_prev-free _ _ (good + needed)

split-Taken :
    (h : Heap) (rs : List ℕ) (needed good : ℕ)
    → IsHeap h rs
    → Memᴰ good rs
    → header ≤ needed
    → needed < h.size good
    → Taken h rs needed good (split h good needed)
unfolding split
split-Taken h rs needed good t m big fits = rw next_is (
    if-cases (Taken h rs needed good) (good + needed == 0)
      (λ none. absurd (ground (arith, none, big)))
      (λ _.
        if-cases (Taken h rs needed good) (leb (h.size good - needed) header)
          (λ tight.
            whole-Taken h _ rs needed good t m big fits (ground (arith, tight)) refl refl
              (λ x. ground arith))
          (λ wide. cut_heap-Taken h rs needed good t m big fits (ground (arith, wide)))))
  where
    inside : good + h.size good ≤ mem_end
    inside = (region_bounds rs h 0 memory good t m).2

    next_is :
        get_next (record h { free = put h.free good 0; size = put h.size good needed }) good
        ≡ good + needed
    next_is = next_inside _ good (ground (arith, fits, inside)) ∙ ground arith

exact-Taken :
    (h : Heap) (rs : List ℕ) (needed good : ℕ)
    → IsHeap h rs
    → h.size good ≡ needed
    → Taken h rs needed good
        (record (record h { free = put h.free good 0 }) { next_start = get_next h good })
unfolding taken
exact-Taken h rs needed good t exact = record {
  heap = rw no_rest (
      Tiles-frame rs h (record h { free = put h.free good 0; next_start = get_next h good }) 0
        memory (λ x m. (refl, refl)) t);
  used = ground arith;
  large = omega (arith, exact);
  rest = λ wide. absurd (omega (arith, wide, exact));
  others = λ x m' other. (ground (arith, other), refl);
}
  where
    no_rest : leb (h.size good - needed) header ≡ true
    no_rest = ground (arith, exact)

pub allocate-Taken :
    (h : Heap) (rs : List ℕ) (needed good : ℕ)
    → IsHeap h rs
    → Memᴰ good rs
    → header ≤ needed
    → needed ≤ h.size good
    → ((allocate h good needed).0 ≡ good + header)
      × Taken h rs needed good (allocate h good needed).1
unfolding allocate
allocate-Taken h rs needed good t m big fits =
    if-cases P (ltb (h.size good) needed) (λ low. absurd (ground (arith, low, fits)))
      (λ _.
        if-cases P (h.size good == needed)
          (λ exact. (refl, exact-Taken h rs needed good t (ground (arith, exact))))
          (λ more. (refl, split-Taken h rs needed good t m big (ground (arith, more, fits)))))
  where
    P : ℕ × Heap → Type 0
    P (a, g) = (a ≡ good + header) × Taken h rs needed good g

pub allocate-small :
    (h : Heap) (good needed : ℕ) → h.size good < needed → allocate h good needed ≡ (0, h)
unfolding allocate
allocate-small h good needed low = rw is refl
  where
    is : ltb (h.size good) needed ≡ true
    is = ground (arith, low)
