-- ===== src/Page/Tables.antt =====
-- mm/mm.c: the page directory and the page tables. The memory that they lie in is a function from the
-- addresses of 32-bit words, multiples of 4, to the words. The flush of the processor's cache of pages
-- is left out.
use thunix.Base.{
  ℕ, zero, suc, ◌+◌, ◌-◌, ◌*◌, ◌/◌, ◌%◌, ◌^◌, ◌≡◌, ◌≢◌, ◌||◌, not, arith, ltb, ◌==◌, if◌then◌else◌,
  u32,
}
use thunix.Page.{Pages, Outcome, done, panic, low_mem, pg_pages, get_free_page, free_page}

abbrev pub pg_size : ℕ
pg_size = 4096

abbrev pub pg_dir : ℕ
pg_dir = 0x800000

abbrev pub pg_table : ℕ
pg_table = pg_dir + pg_size

-- `*a = v`
unfoldable pub set_word : (ℕ → ℕ) → ℕ → ℕ → ℕ → ℕ
set_word word a v x = if x == a then v else word x

pub set_word_self : (word : ℕ → ℕ) (a v : ℕ) → set_word word a v a ≡ v
unfolding set_word
set_word_self word a v = ground arith

pub set_word_ne : (word : ℕ → ℕ) (a v x : ℕ) → x ≢ a → set_word word a v x ≡ word x
unfolding set_word
set_word_ne word a v x ne = ground (arith, ne)

-- `n | 7`, `n & ~2`, `n | 2` and `0xfffff000 & n`
abbrev pub or_7 : ℕ → ℕ
or_7 n = n / 8 * 8 + 7

abbrev pub without_2 : ℕ → ℕ
without_2 n = n - n / 2 % 2 * 2

abbrev pub or_2 : ℕ → ℕ
or_2 n = n + (1 - n / 2 % 2) * 2

abbrev pub page_of : ℕ → ℕ
page_of n = n / pg_size * pg_size

-- `(address>>20) & 0xffc`, the address of an entry of the directory, and `(address>>10) & 0xffc`, the
-- place of an entry in its table
abbrev pub dir_entry : ℕ → ℕ
dir_entry address = address / 2 ^ 22 % 1024 * 4

abbrev pub table_entry : ℕ → ℕ
table_entry address = address / 2 ^ 12 % 1024 * 4

-- a loop that fills entries from `at` on with one page after the other
unfoldable pub fill_entries : ℕ → ℕ → ℕ → (ℕ → ℕ) → ℕ → ℕ
unfolding set_word
fill_entries zero at address word = word
fill_entries (suc left) at address word =
    fill_entries left (at + 4) (address + pg_size) (set_word word at (or_7 address))

-- `for (; i<1024;i++) pg_dir[i] = 6;`
unfoldable pub fill_absent : ℕ → ℕ → (ℕ → ℕ) → ℕ → ℕ
unfolding set_word
fill_absent zero at word = word
fill_absent (suc left) at word = fill_absent left (at + 4) (set_word word at 6)

-- `setup_page`, up to the registers
unfoldable pub setup_page : (ℕ → ℕ) → ℕ → ℕ
unfolding fill_entries fill_absent
setup_page word =
    let tables = fill_entries pg_pages pg_table 0 word in
    fill_absent (1024 - 8) (pg_dir + 4 * 8) (fill_entries 8 pg_dir pg_table tables)

-- the words, besides the map of pages; a panic is `panic`
pub record Tabled (A : Type 0) : Type 0 where
  pub result : A
  pub word : ℕ → ℕ

-- `put_page`, with the table at `table`
unfoldable pub put_entry : ℕ → ℕ → (ℕ → ℕ) → Pages → ℕ → Outcome (Tabled ℕ)
unfolding set_word
put_entry page address word s table =
    done (record { result = page; word = set_word word (table + table_entry address) (or_7 page) })
      s

-- with a new table, which is not cleared
unfoldable pub put_table : ℕ → ℕ → (ℕ → ℕ) → Outcome ℕ → Outcome (Tabled ℕ)
unfolding put_entry set_word
put_table page address word panic = panic
put_table page address word (done tmp s) =
    if tmp == 0
    then done (record { result = 0; word = word }) s
    else put_entry page address (set_word word (dir_entry address) (or_7 tmp)) s tmp

-- `put_page`
unfoldable pub put_page : ℕ → ℕ → (ℕ → ℕ) → Pages → Outcome (Tabled ℕ)
unfolding put_table put_entry
put_page page address word s =
    let entry = word (dir_entry address) in
    if ltb page low_mem || ltb s.high_memory page
    then panic
    else if not (s.mem_map (page / 2 ^ 12) == 1)
    then panic
    else if entry % 2 == 1
    then put_entry page address word s (page_of entry)
    else put_table page address word (get_free_page s)

-- `get_empty_page`, behind `get_free_page`: `oom` panics.
unfoldable pub put_empty : ℕ → (ℕ → ℕ) → Outcome ℕ → Outcome (Tabled (Unit {0}))
unfolding put_page
put_empty address word panic = panic
put_empty address word (done tmp s) = elim (put_page tmp address word s) [
  | panic ↦ panic
  | done out s1 ↦
      if tmp == 0 || out.result == 0
      then panic
      else done (record { result = tt; word = out.word }) s1
]

unfoldable pub get_empty_page : ℕ → (ℕ → ℕ) → Pages → Outcome (Tabled (Unit {0}))
unfolding put_empty
get_empty_page address word s = put_empty address word (get_free_page s)

-- the words and the map
abbrev pub Freed : Type 0
Freed = Outcome (ℕ → ℕ)

-- the pages of a table, with `left` entries left at `at`
unfoldable pub free_entries : ℕ → ℕ → (ℕ → ℕ) → Pages → Freed
unfolding set_word
free_entries zero at word s = done word s
free_entries (suc left) at word s = elim (free_page s (page_of (word at))) [
  | panic ↦ if word at % 2 == 1 then panic else free_entries left (at + 4) (set_word word at 0) s
  | done _ s1 ↦ free_entries left (at + 4) (set_word word at 0) (if word at % 2 == 1 then s1 else s)
]

-- the table itself, once its pages are free
unfoldable pub free_table : ℕ → Freed → Freed
unfolding set_word
free_table dir panic = panic
free_table dir (done word s) = elim (free_page s (page_of (word dir))) [
  | panic ↦ panic
  | done _ s1 ↦ done (set_word word dir 0) s1
]

-- the loop of `free_page_tables`, from the entry at `dir` on
unfoldable pub free_tables : ℕ → ℕ → (ℕ → ℕ) → Pages → Freed
unfolding free_table free_entries
free_tables zero dir word s = done word s
free_tables (suc size) dir word s =
    elim (if word dir % 2 == 1
      then free_table dir (free_entries 1024 (page_of (word dir)) word s)
      else done word s) [ panic ↦ panic | done word1 s1 ↦ free_tables size (dir + 4) word1 s1 ]

-- `free_page_tables`
unfoldable pub free_page_tables : ℕ → ℕ → (ℕ → ℕ) → Pages → Freed
unfolding free_tables
free_page_tables from size word s =
    let freed = free_tables (u32 (size + 0x3fffff) / 2 ^ 22) (dir_entry from) word s in
    if not (from % 2 ^ 22 == 0) then panic else if from == 0 then panic else freed
