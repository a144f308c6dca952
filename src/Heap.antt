-- ===== src/Heap.antt =====
-- mm/malloc.c and include/malloc.h: the heap, a run of regions from `memory` to `mem_end`, each with
-- its header at its start. A header is its address; its fields are functions of the address, since no
-- two headers overlap and a caller keeps to the bytes behind its header. NULL is 0. A size is an
-- `int` that is not negative.
pub mod Allocate
pub mod Cut
mod Examples
pub mod Free
pub mod Freed
pub mod Malloc
pub mod Merge
pub mod Regions
pub mod Roundtrip
use mathlib.Core.Option
use thunix.Base.{
  ℕ, zero, suc, ◌+◌, ◌-◌, ◌*◌, ◌/◌, ◌&&◌, not, Option, none, some, ltb, leb, ◌==◌, if◌then◌else◌,
  u32,
}

-- `sizeof(struct mem_struct)`
abbrev pub header : ℕ
header = 12

abbrev pub mem_size : ℕ
mem_size = 0x100000

abbrev pub memory : ℕ
memory = 0x800000

abbrev pub mem_end : ℕ
mem_end = memory + mem_size

-- the fields of every `struct mem_struct`, and `next_start`
pub record Heap : Type 0 where
  pub prev : ℕ → ℕ
  pub size : ℕ → ℕ
  pub free : ℕ → ℕ
  pub next_start : ℕ

abbrev pub put : (ℕ → ℕ) → ℕ → ℕ → ℕ → ℕ
put f a v b = if b == a then v else f b

unfoldable pub get_next : Heap → ℕ → ℕ
get_next h mm = let next = u32 (mm + h.size mm) in if leb mem_end next then 0 else next

-- `if (next) next->prev = mm;`
unfoldable pub set_prev : Heap → ℕ → ℕ → Heap
set_prev h next mm = if next == 0 then h else record h { prev = put h.prev next mm }

pub merge_front : Heap → ℕ → ℕ → Heap
merge_front h mm prev =
    let next = get_next h mm in
    set_prev (record h { size = put h.size prev (h.size prev + h.size mm) }) next prev

pub merge_back : Heap → ℕ → ℕ → Heap
merge_back h mm next =
    let h1 = record h { free = put h.free mm 1 } in
    let h2 = record h1 { size = put h1.size mm (h1.size mm + h1.size next) } in
    set_prev h2 (get_next h2 next) mm

pub merge_both : Heap → ℕ → ℕ → ℕ → Heap
merge_both h mm prev next =
    let h1 = record h { size = put h.size prev (h.size prev + (h.size mm + h.size next)) } in
    set_prev h1 (get_next h1 next) prev

-- the result is the region that `mm` has become a part of
pub try_merge_front : Heap → ℕ → ℕ × Heap
try_merge_front h mm =
    let h1 = record h { free = put h.free mm 1 } in
    if h1.free (h1.prev mm) == 0 then (mm, h1) else (h1.prev mm, merge_front h1 mm (h1.prev mm))

pub try_merge_back : Heap → ℕ → ℕ × Heap
try_merge_back h mm =
    let next = get_next h mm in
    let h1 = record h { free = put h.free mm 1 } in
    (mm, if h1.free next == 0 then h1 else merge_back h1 mm next)

-- `(size + sizeof(struct mem_struct) + 3) & ~3`
abbrev pub size_needed : ℕ → ℕ
size_needed size = (size + header + 3) / 4 * 4

-- the loop of `malloc` from `next` on: the region found, or none. The outer `none` is for fuel that
-- has run out.
unfoldable pub find_free : ℕ → Heap → ℕ → ℕ → Option (Option ℕ)
find_free zero h next needed = none
find_free (suc fuel) h next needed =
    let rest = find_free fuel h (get_next h next) needed in
    if next == 0
    then some none
    else if not (h.free next == 0) && leb needed (h.size next)
    then some (some next)
    else rest

-- `malloc` from where the rest of the region `good` has to be found a place
unfoldable pub split : Heap → ℕ → ℕ → Heap
split h good needed =
    let size = h.size good in
    let h1 = record h { free = put h.free good 0; size = put h.size good needed } in
    let next = get_next h1 good in
    let h2 = record h1 { size = put h1.size next (size - needed) } in
    let whole = record h2 { size = put h2.size good size } in
    let h3 = record h2 {
      prev = put h2.prev next good;
      free = put h2.free next 1;
      next_start = next;
    } in
    if next == 0
    then record h1 { next_start = memory }
    else if leb (size - needed) header
    then record whole { next_start = get_next whole good }
    else set_prev h3 (get_next h3 next) next

-- `malloc` from the end of its loop
unfoldable pub allocate : Heap → ℕ → ℕ → ℕ × Heap
allocate h good needed =
    if ltb (h.size good) needed
    then (0, h)
    else if h.size good == needed
    then (
      good + header,
      record (record h { free = put h.free good 0 }) { next_start = get_next h good },
    )
    else (good + header, split h good needed)

-- `good` is `next_start` where the loop finds nothing.
abbrev pub found_or : ℕ → Option ℕ → ℕ
found_or start none = start
found_or start (some a) = a

pub malloc : ℕ → Heap → ℕ → Option (ℕ × Heap)
malloc fuel h size =
    Option.map (λ found. allocate h (found_or h.next_start found) (size_needed size))
      (find_free fuel h h.next_start (size_needed size))

-- `if (mm < next_start) next_start = mm;`
lower_start : ℕ × Heap → Heap
lower_start (mm, h) = if ltb mm h.next_start then record h { next_start = mm } else h

-- `mm` stays where `merge_front` and `merge_both` give it up to `prev`.
merge : Heap → ℕ → ℕ × Heap
merge h mm =
    let prev = h.prev mm in
    let next = get_next h mm in
    if prev == 0
    then try_merge_back h mm
    else if next == 0
    then try_merge_front h mm
    else if not (h.free prev == 0)
    then (mm, if h.free next == 0 then merge_front h mm prev else merge_both h mm prev next)
    else if h.free next == 0
    then (mm, record h { free = put h.free mm 1 })
    else (mm, merge_back h mm next)

-- `free`; C has no function of a field's name
pub free_ptr : Heap → ℕ → Heap
free_ptr h ptr = let mm = ptr - header in if h.free mm == 1 then h else lower_start (merge h mm)

pub malloc_init : Heap → Heap
malloc_init h = record h {
  prev = put h.prev memory 0;
  size = put h.size memory mem_size;
  free = put h.free memory 1;
  next_start = memory;
}
