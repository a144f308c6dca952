-- ===== src/Page.antt =====
-- mm/mm.c: the map of physical pages, `mem_map`, with a count of users for each page.
pub mod Laws
pub mod Put
pub mod Setup
pub mod Shared
pub mod Tables
mod Examples
use thunix.Base.{ℕ, zero, suc, ◌+◌, ◌-◌, ◌*◌, ◌/◌, ◌^◌, leb, ◌==◌, if◌then◌else◌, u8}

abbrev pub pg_pages : ℕ
pg_pages = 8192

-- the mark of a page that is never given out
abbrev pub used : ℕ
used = 100

abbrev pub low_mem : ℕ
low_mem = 0x100000

-- `mem_map`, a byte for each page, and `HIGH_MEMORY`. `mem_map pg_pages` is the byte that lies
-- behind the array, which `get_free_page` reads and may write.
pub record Pages : Type 0 where
  pub mem_map : ℕ → ℕ
  pub high_memory : ℕ

-- What a call comes to: a result, or the end of the kernel in `panic`.
pub data Outcome (A : Type 0) : Type 0 where
  done : A → Pages → Outcome A
  panic : Outcome A

abbrev pub put : Pages → ℕ → ℕ → Pages
put s i v = record s { mem_map = λ j. if j == i then v else s.mem_map j }

-- `for (i=PG_PAGES; i>0; i--) if (mem_map[i] == 0) break;` from `i` on
scan_down : (ℕ → ℕ) → ℕ → ℕ
scan_down map zero = 0
scan_down map (suc i) = let rest = scan_down map i in if map (suc i) == 0 then suc i else rest

-- `oom` panics, so `return 0` is not reached.
pub get_free_page : Pages → Outcome ℕ
get_free_page s =
    let i = scan_down s.mem_map pg_pages in
    if i == 0 then panic else done (i * 2 ^ 12) (put s i (u8 (s.mem_map i + 1)))

-- `if (mem_map[addr]--) return;` and the two panics
pub free_page : Pages → ℕ → Outcome (Unit {0})
free_page s addr =
    let i = addr / 2 ^ 12 in
    if leb s.high_memory addr
    then panic
    else if s.mem_map i == 0
    then panic
    else done tt (put s i (s.mem_map i - 1))

-- `for (i=0 ; i<PG_PAGES ; i++) mem_map[i] = USED;`
fill_used : ℕ → ℕ → (ℕ → ℕ) → ℕ → ℕ
fill_used zero i map = map
fill_used (suc left) i map = fill_used left (i + 1) (λ j. if j == i then used else map j)

-- `while (end_mem-->0) mem_map[i++]=0;`
clear_from : ℕ → ℕ → (ℕ → ℕ) → ℕ → ℕ
clear_from zero i map = map
clear_from (suc left) i map = clear_from left (i + 1) (λ j. if j == i then 0 else map j)

-- `mem_init` up to `setup_page`, with the globals `start_mem` and `end_mem` as arguments
pub mem_init : ℕ → ℕ → Pages → Pages
mem_init start_mem end_mem s = record s {
  mem_map =
      clear_from ((end_mem - start_mem) / 2 ^ 12) (start_mem / 2 ^ 12)
        (fill_used pg_pages 0 s.mem_map);
  high_memory = end_mem;
}
