-- ===== src/Page/Laws.antt =====
-- mm/mm.c: which page is given out, and what giving out and taking back do to the map.
use thunix.Base.{
  ℕ, zero, suc, ◌+◌, ◌-◌, ◌*◌, ◌/◌, ◌^◌, ◌≤◌, ◌<◌, ◌≡◌, refl, ◌≢◌, inl, inr, false, ◌&&◌, arith,
  ltb, leb, ◌==◌, if◌then◌else◌, ==_iff, Bool-cases, u8,
}
use native.Mathlib.Decide.{dec_lt}
use thunix.Page.{
  pg_pages, used, Pages, Outcome, done, panic, put, scan_down, get_free_page, free_page, fill_used,
  clear_from, mem_init,
}

-- `i` is the greatest number from `n` down to 1 at which the map is 0, or 0 if there is none.
record IsTop (map : ℕ → ℕ) (n i : ℕ) : Type 0 where
  bound : i ≤ n
  free : i ≢ 0 → map i ≡ 0
  above : (j : ℕ) → i < j → j ≤ n → map j ≢ 0

scan_down-IsTop : (map : ℕ → ℕ) (n : ℕ) → IsTop map n (scan_down map n)
unfolding scan_down
scan_down-IsTop map zero = record {
  bound = omega arith;
  free = λ h. absurd (h refl);
  above = λ j h k. absurd (omega arith);
}
scan_down-IsTop map (suc n) = elim (Bool-cases (map (suc n) == 0)) [
  | inl z ↦
      rw (z, scan_down)
        (record {
          bound = omega arith;
          free = λ h. (==_iff _ _).0 z;
          above = λ j h k. absurd (omega arith);
        })
  | inr o ↦
      let v = scan_down-IsTop map n in
      rw (o, scan_down)
        (record {
          bound = omega (arith, v.bound);
          free = v.free;
          above = λ j h k. ground (arith, v.above j);
        })
]

-- What `get_free_page` does: it gives out the highest page whose count is 0, with a count of 1 and
-- no other count changed, or it panics because every page from 1 to `PG_PAGES` is in use. The range
-- takes in `PG_PAGES` itself, which lies behind the map.
pub data Allocated (s : Pages) : Outcome ℕ → Type 0 where
  page :
      (i : ℕ) (s' : Pages)
      → 0 < i
      → i ≤ pg_pages
      → s.mem_map i ≡ 0
      → ((j : ℕ) → i < j → j ≤ pg_pages → s.mem_map j ≢ 0)
      → s'.mem_map i ≡ 1
      → ((j : ℕ) → j ≢ i → s'.mem_map j ≡ s.mem_map j)
      → s'.high_memory ≡ s.high_memory
      → Allocated s (done (i * 2 ^ 12) s')
  full : ((j : ℕ) → 0 < j → j ≤ pg_pages → s.mem_map j ≢ 0) → Allocated s panic

not_zero : (i : ℕ) → (suc i == 0) ≡ false
not_zero i = ground arith

-- `get_free_page` gives out the highest page that is free, or panics exactly when none is.
pub get_free_page_lem : (s : Pages) → Allocated s (get_free_page s)
unfolding get_free_page
get_free_page_lem s = go (scan_down s.mem_map pg_pages) (scan_down-IsTop s.mem_map pg_pages)
  where
    go :
        (i : ℕ)
        → IsTop s.mem_map pg_pages i
        → Allocated s (if i == 0 then panic else done (i * 2 ^ 12) (put s i (u8 (s.mem_map i + 1))))
    go zero v = full (λ j h k. v.above j h k)
    go (suc i) v = rw (not_zero i) (
        page (suc i) _ (omega arith) v.bound (v.free (omega arith)) v.above
          (ground (arith, v.free (omega arith))) (λ j ne. ground arith) refl)

IsTop-end : (map : ℕ → ℕ) (n i : ℕ) → map n ≡ 0 → IsTop map n i → i ≡ n
IsTop-end map n i h v = elim (dec_lt i n) [
  | yes p ↦ absurd (v.above n p (omega arith) h)
  | no p ↦ omega (arith, v.bound)
]

-- The byte behind the map counts as a page: where it is 0, `get_free_page` gives out the address
-- just past the 32 MB of memory.
pub get_free_page_past_end :
    (s : Pages) → s.mem_map pg_pages ≡ 0 → (s' : Pages) × (get_free_page s ≡ done 0x2000000 s')
unfolding get_free_page
get_free_page_past_end s h = (put s pg_pages (u8 (s.mem_map pg_pages + 1)), rw top refl)
  where
    top : scan_down s.mem_map pg_pages ≡ pg_pages
    top =
        IsTop-end s.mem_map pg_pages (scan_down s.mem_map pg_pages) h
          (scan_down-IsTop s.mem_map pg_pages)

done-injective :
    {A : Type 0} (x y : A) (s t : Pages) → Outcome.done x s ≡ done y t → (x ≡ y) × (s ≡ t)
done-injective x y s t e = (cc, cc)

free_given :
    (s s' : Pages) (a : ℕ)
    → a < s.high_memory
    → (o : Outcome ℕ) → Allocated s o
    → o ≡ done a s'
    → (s'' : Pages) × (free_page s' a ≡ done tt s'')
      × ((j : ℕ) → s''.mem_map j ≡ s.mem_map j)
      × (s''.high_memory ≡ s.high_memory)
unfolding free_page
free_given s s' a h _ (full all) e = absurd (cc)
free_given s s' a h _ (page i t pos top z up one same high) e =
    let (ea, es) = done-injective (i * 2 ^ 12) a t s' e in
    rw (← es)
      (put t i (t.mem_map i - 1), rw (← ea) (ground arith), λ j. ground (arith, same j), high)

-- A page that `get_free_page` has given out can be freed as long as it lies below the end of
-- memory, and then every count is what it was before.
pub free_page-get_free_page :
    (s s' : Pages) (a : ℕ)
    → get_free_page s ≡ done a s'
    → a < s.high_memory
    → (s'' : Pages) × (free_page s' a ≡ done tt s'')
      × ((j : ℕ) → s''.mem_map j ≡ s.mem_map j)
      × (s''.high_memory ≡ s.high_memory)
free_page-get_free_page s s' a e h = free_given s s' a h (get_free_page s) (get_free_page_lem s) e

fill_used_lem :
    (left i : ℕ) (map : ℕ → ℕ) (j : ℕ)
    → fill_used left i map j ≡ (if leb i j && ltb j (i + left) then used else map j)
unfolding fill_used
fill_used_lem zero i map j = ground arith
fill_used_lem (suc left) i map j =
    ground (arith, fill_used_lem left (i + 1) (λ k. if k == i then used else map k) j)

clear_from_lem :
    (left i : ℕ) (map : ℕ → ℕ) (j : ℕ)
    → clear_from left i map j ≡ (if leb i j && ltb j (i + left) then 0 else map j)
unfolding clear_from
clear_from_lem zero i map j = ground arith
clear_from_lem (suc left) i map j =
    ground (arith, clear_from_lem left (i + 1) (λ k. if k == i then 0 else map k) j)

-- `mem_init` frees exactly the pages from that of `start_mem` on, as many as fit below `end_mem`,
-- marks all others of the map as used, and leaves the bytes behind the map as they were.
pub mem_init_lem :
    (start_mem end_mem : ℕ) (s : Pages) (j : ℕ)
    → let first = start_mem / 2 ^ 12 in
      let count = (end_mem - start_mem) / 2 ^ 12 in
      (mem_init start_mem end_mem s).mem_map j ≡ (
        if leb first j && ltb j (first + count)
        then 0
        else if ltb j pg_pages
        then used
        else s.mem_map j)
unfolding mem_init
mem_init_lem start_mem end_mem s j = rw (clear_from_lem, fill_used_lem) (ground arith)
