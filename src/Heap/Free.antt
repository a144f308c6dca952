-- ===== src/Heap/Free.antt =====
-- mm/malloc.c, `free`: the regions it leaves, and which of them are free.
use mathlib.Core.List.{Memᴰ}
use thunix.Base.{
  ℕ, ◌+◌, ◌-◌, ◌≡◌, refl, sym, ◌≢◌, ◌⊎◌, inl, inr, Bool, true, false, ◌&&◌, not, List, arith, ltb,
  ◌==◌, if◌then◌else◌, if-cases, zero-cases,
}
use thunix.Heap.{
  Heap, header, memory, get_next, free_ptr, merge, lower_start, try_merge_front, try_merge_back,
}
use thunix.Heap.Regions.{IsHeap, Tiles-frame, region_bounds, region-Behind, Behind, region-ahead}
use thunix.Heap.Freed.{
  mark, Freed, Freed-mark, Beside-mark, IsHeap-mark, mark-Freed, merge_back-Freed,
  merge_front-Freed, merge_both-Freed,
}
use thunix.Heap.Cut.{remove}
use thunix.Heap.Merge.{Beside}

-- whether the region `r` exists and is free
abbrev pub is_free : Heap → ℕ → Bool
is_free h r = not (r == 0) && not (h.free r == 0)

-- the regions once `mm` is free: `mm` goes to a free region before it, a free region behind it to `mm`
unfoldable pub freed : Heap → List ℕ → ℕ → List ℕ
freed h rs mm =
    let ahead = if is_free h (h.prev mm) then remove mm rs else rs in
    if is_free h (get_next h mm) then remove (get_next h mm) ahead else ahead

-- the region that `mm` is a part of from then on
unfoldable pub owner : Heap → ℕ → ℕ
owner h mm = if is_free h (h.prev mm) then h.prev mm else mm

lower_start-Freed :
    (h : Heap) (rs : List ℕ) (o mm : ℕ) (q : ℕ × Heap)
    → Freed h rs o mm (q.1)
    → Freed h rs o mm (lower_start q)
unfolding lower_start
lower_start-Freed h rs o mm (r, g) d =
    if-cases (Freed h rs o mm) (ltb r g.next_start)
      (λ _. record {
        heap = Tiles-frame rs g (record g { next_start = r }) 0 memory (λ x m. (refl, refl)) d.heap;
        owned = d.owned;
        others = d.others;
      })
      (λ _. d)

ahead_Beside :
    (h : Heap) (rs : List ℕ) (mm : ℕ)
    → IsHeap h rs
    → Memᴰ mm rs
    → h.prev mm ≢ 0
    → Memᴰ (h.prev mm) rs × Beside h (h.prev mm) mm
ahead_Beside h rs mm t m some_prev = elim (region-ahead rs h 0 memory mm t m) [
  | inl (_, none_prev) ↦ absurd (some_prev none_prev)
  | inr (m', end) ↦
      let (_, small, fits) = region_bounds rs h 0 memory mm t m in
      let (_, small', _) = region_bounds rs h 0 memory (h.prev mm) t m' in
      (m', record { next = sym end; small = small'; small' = small; fits = fits })
]

behind_Beside :
    (h : Heap) (rs : List ℕ) (mm : ℕ)
    → IsHeap h rs
    → Memᴰ mm rs
    → get_next h mm ≢ 0
    → Beside h mm (get_next h mm)
behind_Beside h rs mm t m some_next = elim (region-Behind rs h 0 memory mm t m) [
  | Behind.last _ none_next ↦ absurd (some_next none_next)
  | Behind.before m' at _ ↦
      let (_, small, _) = region_bounds rs h 0 memory mm t m in
      let (_, small', fits) = region_bounds rs h 0 memory (mm + h.size mm) t m' in
      rw at (record { next = refl; small = small; small' = small'; fits = fits })
]

try_merge_back-Freed :
    (h : Heap) (rs : List ℕ) (mm : ℕ)
    → IsHeap h rs
    → Memᴰ mm rs
    → is_free h (h.prev mm) ≡ false
    → get_next h mm ≢ 0
    → Freed h (freed h rs mm) (owner h mm) mm (try_merge_back h mm).1
unfolding try_merge_back freed owner
try_merge_back-Freed h rs mm t m no_prev some_next = rw no_prev (
    if-cases (Freed h _ mm mm) ((mark h mm).free next == 0)
      (λ used. rw (not_free used) (mark-Freed h rs mm t))
      (λ free_next. rw (free free_next) (
        Freed-mark h (remove next rs) mm mm _ (
          merge_back-Freed (mark h mm) rs mm next (IsHeap-mark h rs mm t) m
            (Beside-mark h mm mm next b)))))
  where
    next : ℕ
    next = get_next h mm

    b : Beside h mm next
    b = behind_Beside h rs mm t m some_next

    not_free : ((mark h mm).free next == 0) ≡ true → is_free h next ≡ false
    not_free used = ground (arith, used, b.next, b.small)

    free : ((mark h mm).free next == 0) ≡ false → is_free h next ≡ true
    free is = ground (arith, is, b.next, b.small, some_next)

try_merge_front-Freed :
    (h : Heap) (rs : List ℕ) (mm : ℕ)
    → IsHeap h rs
    → Memᴰ mm rs
    → h.prev mm ≢ 0
    → get_next h mm ≡ 0
    → Freed h (freed h rs mm) (owner h mm) mm (try_merge_front h mm).1
unfolding try_merge_front freed owner
try_merge_front-Freed h rs mm t m some_prev no_next =
    if-cases (λ (q : ℕ × Heap). Freed h (freed h rs mm) (owner h mm) mm (q.1))
      ((mark h mm).free (h.prev mm) == 0) (λ used. rw (none, not_free used) (mark-Freed h rs mm t))
      (λ free_prev.
        rw (none, free free_prev)
          (Freed-mark h (remove mm rs) (h.prev mm) mm _ (
            merge_front-Freed (mark h mm) rs mm (h.prev mm) (IsHeap-mark h rs mm t) m'
              (Beside-mark h mm (h.prev mm) mm b) (ground (arith, free_prev)))))
  where
    none : is_free h (get_next h mm) ≡ false
    none = rw no_next refl

    m' : Memᴰ (h.prev mm) rs
    m' = (ahead_Beside h rs mm t m some_prev).0

    b : Beside h (h.prev mm) mm
    b = (ahead_Beside h rs mm t m some_prev).1

    not_free : ((mark h mm).free (h.prev mm) == 0) ≡ true → is_free h (h.prev mm) ≡ false
    not_free used = ground (arith, used, b.next, b.small)

    free : ((mark h mm).free (h.prev mm) == 0) ≡ false → is_free h (h.prev mm) ≡ true
    free is = ground (arith, is, b.next, b.small, some_prev)

-- between two regions
merge_mid-Freed :
    (h : Heap) (rs : List ℕ) (mm : ℕ)
    → IsHeap h rs
    → Memᴰ mm rs
    → h.prev mm ≢ 0
    → get_next h mm ≢ 0
    → Freed h (freed h rs mm) (owner h mm) mm (merge h mm).1
unfolding merge freed owner
merge_mid-Freed h rs mm t m some_prev some_next =
    if-cases P (h.prev mm == 0) (λ none. absurd (ground (arith, none, some_prev)))
      (λ _.
        if-cases P (get_next h mm == 0) (λ none. absurd (ground (arith, none, some_next)))
          (λ _.
            if-cases P (not (h.free (h.prev mm) == 0))
              (λ free_prev.
                if-cases Q (h.free (get_next h mm) == 0)
                  (λ used.
                    rw (prev_is _ free_prev, next_is _ used)
                      (merge_front-Freed h rs mm (h.prev mm) t m' b (ground (arith, free_prev))))
                  (λ free_next.
                    rw (prev_is _ free_prev, next_is _ free_next)
                      (merge_both-Freed h rs mm (h.prev mm) (get_next h mm) t m' b b'
                        (ground (arith, free_prev)))))
              (λ used_prev.
                if-cases P (h.free (get_next h mm) == 0)
                  (λ used. rw (prev_is _ used_prev, next_is _ used) (mark-Freed h rs mm t))
                  (λ free_next.
                    rw (prev_is _ used_prev, next_is _ free_next)
                      (merge_back-Freed h rs mm (get_next h mm) t m b')))))
  where
    P : ℕ × Heap → Type 0
    P q = Freed h (freed h rs mm) (owner h mm) mm (q.1)

    Q : Heap → Type 0
    Q g = Freed h (freed h rs mm) (owner h mm) mm g

    m' : Memᴰ (h.prev mm) rs
    m' = (ahead_Beside h rs mm t m some_prev).0

    b : Beside h (h.prev mm) mm
    b = (ahead_Beside h rs mm t m some_prev).1

    b' : Beside h mm (get_next h mm)
    b' = behind_Beside h rs mm t m some_next

    has_prev : (h.prev mm == 0) ≡ false
    has_prev = ground (arith, some_prev)

    has_next : (get_next h mm == 0) ≡ false
    has_next = ground (arith, some_next)

    prev_is : (c : Bool) → not (h.free (h.prev mm) == 0) ≡ c → is_free h (h.prev mm) ≡ c
    prev_is c e = rw has_prev e

    next_is : (c : Bool) → (h.free (get_next h mm) == 0) ≡ c → is_free h (get_next h mm) ≡ not c
    next_is c e = rw (has_next, e) refl

merge_first : (h : Heap) (mm : ℕ) → h.prev mm ≡ 0 → merge h mm ≡ try_merge_back h mm
unfolding merge
merge_first h mm e = rw e refl

merge_last :
    (h : Heap) (mm : ℕ) → h.prev mm ≢ 0 → get_next h mm ≡ 0 → merge h mm ≡ try_merge_front h mm
unfolding merge
merge_last h mm some_prev e =
    if-cases (λ (q : ℕ × Heap). q ≡ try_merge_front h mm) (h.prev mm == 0)
      (λ none. absurd (ground (arith, none, some_prev))) (λ _. rw e refl)

merge-Freed :
    (h : Heap) (rs : List ℕ) (mm : ℕ)
    → IsHeap h rs
    → Memᴰ mm rs
    → (h.prev mm ≢ 0) ⊎ (get_next h mm ≢ 0)
    → Freed h (freed h rs mm) (owner h mm) mm (merge h mm).1
merge-Freed h rs mm t m beside = elim (zero-cases (h.prev mm)) [
  | inl p ↦
      rw (merge_first h mm p)
        (try_merge_back-Freed h rs mm t m (rw p refl) (ground (arith, p, beside)))
  | inr p ↦ elim (zero-cases (get_next h mm)) [
    | inl n ↦ rw (merge_last h mm p n) (try_merge_front-Freed h rs mm t m p n)
    | inr n ↦ merge_mid-Freed h rs mm t m p n
  ]
]

-- `free` of a region in use, on a heap with the regions `rs` of which it is not the only one: it goes
-- to the region before it where that is free, and it takes in the region behind it where that is
-- free; the heap then has the regions `freed`. The region that `mm` is a part of is free, and no
-- other region's mark changes.
pub free_ptr_lem :
    (h : Heap) (rs : List ℕ) (mm : ℕ)
    → IsHeap h rs
    → Memᴰ mm rs
    → h.free mm ≡ 0
    → (h.prev mm ≢ 0) ⊎ (get_next h mm ≢ 0)
    → Freed h (freed h rs mm) (owner h mm) mm (free_ptr h (mm + header))
unfolding free_ptr
free_ptr_lem h rs mm t m used beside =
    rw (same, used) (lower_start-Freed h _ _ mm (merge h mm) (merge-Freed h rs mm t m beside))
  where
    same : mm + header - header ≡ mm
    same = omega arith

-- `free` of a region that is free already changes nothing.
pub free_ptr-again : (h : Heap) (mm : ℕ) → h.free mm ≡ 1 → free_ptr h (mm + header) ≡ h
unfolding free_ptr
free_ptr-again h mm free = ground (arith, free)
