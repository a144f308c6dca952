-- ===== src/Page/Examples.antt =====
-- mm/mm.c with the kernel's own bounds: memory from 8 MB to 32 MB is given out.
use thunix.Base.{ℕ, ◌+◌, ◌*◌, ◌^◌, ◌≡◌, refl, ◌&&◌, some, arith, ltb, leb, ◌==◌, if◌then◌else◌}
use thunix.Page.{pg_pages, used, Pages, done, scan_down, get_free_page, free_page, mem_init}
use thunix.Page.Tables.{pg_dir, page_of, put_page, setup_page}
use thunix.Page.Setup.{translate, setup_page_lem}
use thunix.Page.Put.{IsFrame, Put, put_page_lem}
use thunix.Page.Shared.{Owned, un_wp_page, un_wp_page_lem}
use thunix.Page.Laws.{
  Allocated, get_free_page_lem, get_free_page_past_end, free_page-get_free_page, mem_init_lem,
}

-- only page 3000 is free
abbrev pages : Pages
pages = record { mem_map = λ j. if j == 3000 then 0 else used; high_memory = 0x2000000 }

-- nothing in use, and a 0 behind the map
abbrev empty : Pages
empty = record { mem_map = λ j. 0; high_memory = 0x2000000 }

get_free_page_lem_example : Allocated pages (get_free_page pages)
get_free_page_lem_example = get_free_page_lem pages

get_free_page_past_end_example : (s' : Pages) × (get_free_page empty ≡ done 0x2000000 s')
get_free_page_past_end_example = get_free_page_past_end empty refl

mem_init_lem_example : (mem_init 0x800000 0x2000000 empty).mem_map 2048 ≡ (
    if leb 2048 2048 && ltb 2048 (2048 + 6144)
    then 0
    else if ltb 2048 pg_pages
    then used
    else empty.mem_map 2048)
mem_init_lem_example = mem_init_lem 0x800000 0x2000000 empty 2048

abbrev taken : Pages
taken = record pages { mem_map = λ j. if j == 3000 then 1 else pages.mem_map j }

get_free_page-pages : get_free_page pages ≡ done (3000 * 2 ^ 12) taken
unfolding get_free_page scan_down
get_free_page-pages = refl

free_page-get_free_page_example :
    (s'' : Pages) × (free_page taken (3000 * 2 ^ 12) ≡ done tt s'')
    × ((j : ℕ) → s''.mem_map j ≡ pages.mem_map j)
    × (s''.high_memory ≡ 0x2000000)
free_page-get_free_page_example =
    free_page-get_free_page pages taken (3000 * 2 ^ 12) get_free_page-pages (omega arith)

-- the page 0x900000 used once, and its table at 0x801000
abbrev framed : Pages
framed = record {
  mem_map = λ j. if j == 2304 then 1 else if j == 3000 then 0 else used;
  high_memory = 0x2000000;
}

abbrev tables : ℕ → ℕ
tables a = if a == 4 then 0x801007 else 0

framed-IsFrame : IsFrame framed 0x900000
framed-IsFrame = record { whole = omega arith; low = omega arith; high = omega arith; count = refl }

setup_page_lem_example : translate pg_dir (setup_page (λ a. 0)) 0x1234567 ≡ some (page_of 0x1234567)
setup_page_lem_example = setup_page_lem (λ a. 0) 0x1234567 (omega arith)

put_page_lem_example :
    Put 0x900000 0x400000 tables framed (put_page 0x900000 0x400000 tables framed)
put_page_lem_example =
    put_page_lem 0x900000 0x400000 tables framed framed-IsFrame (λ present. omega arith)

-- the same page with two users, which the entry at 0x801000 may only read
abbrev shared : Pages
shared = record framed { mem_map = λ j. if j == 2304 then 2 else framed.mem_map j }

abbrev read_only : ℕ → ℕ
read_only a = if a == 0x801000 then 0x900005 else 7

un_wp_page_lem_example : Owned 0x801000 read_only shared (un_wp_page 0x801000 read_only shared)
un_wp_page_lem_example =
    un_wp_page_lem 0x801000 read_only shared (λ e. omega (arith, e)) (λ e. omega (arith, e))
