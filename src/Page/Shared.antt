-- ===== src/Page/Shared.antt =====
-- mm/mm.c: pages that several tables share: `copy_page_tables`, `un_wp_page`, `do_wp_page` and `setp`.
use thunix.Base.{
  ℕ, zero, suc, ◌+◌, ◌-◌, ◌*◌, ◌/◌, ◌%◌, ◌^◌, ◌≤◌, ◌<◌, ◌≡◌, refl, sym, ap, ◌∙◌, ◌≢◌, ◌⊎◌, true,
  false, ◌&&◌, ◌||◌, not, arith, ltb, leb, ◌==◌, if◌then◌else◌, if-cases, u8, u32,
}
use thunix.Page.{Pages, Outcome, done, panic, put, low_mem, pg_pages, get_free_page}
use thunix.Page.Laws.{Allocated, get_free_page_lem}
use thunix.Page.Tables.{
  pg_size, set_word, set_word_self, set_word_ne, or_2, or_7, without_2, page_of, dir_entry,
  table_entry, Freed,
}

-- one entry copied without its write bit, and counted where its page is in main memory
unfoldable pub copy_entry : ℕ → ℕ → (ℕ → ℕ) → Pages → (ℕ → ℕ) × Pages
unfolding set_word
copy_entry from to word s =
    let this_page = without_2 (word from) in
    let copied = set_word word to this_page in
    let i = this_page / 2 ^ 12 in
    if word from % 2 == 0
    then (word, s)
    else if ltb low_mem this_page
    then (set_word copied from this_page, put s i (u8 (s.mem_map i + 1)))
    else (copied, s)

unfoldable pub copy_entries : ℕ → ℕ → ℕ → (ℕ → ℕ) → Pages → (ℕ → ℕ) × Pages
unfolding copy_entry
copy_entries zero from to word s = (word, s)
copy_entries (suc nr) from to word s =
    let (word1, s1) = copy_entry from to word s in copy_entries nr (from + 4) (to + 4) word1 s1

-- one table, at the entries `from_dir` and `to_dir` of the directory; the new table is not cleared
unfoldable pub copy_table : ℕ → ℕ → ℕ → (ℕ → ℕ) → Outcome ℕ → Freed
unfolding copy_entries set_word
copy_table nr from_dir to_dir word panic = panic
copy_table nr from_dir to_dir word (done table s) =
    let out =
      copy_entries nr (page_of (word from_dir)) table (set_word word to_dir (or_7 table)) s in
    done out.0 out.1

-- the loop over the directory
unfoldable pub copy_tables : ℕ → ℕ → ℕ → ℕ → (ℕ → ℕ) → Pages → Freed
unfolding copy_table
copy_tables zero nr from_dir to_dir word s = done word s
copy_tables (suc ndir) nr from_dir to_dir word s =
    elim (if word to_dir % 2 == 1
      then panic
      else if word from_dir % 2 == 0
      then done word s
      else copy_table nr from_dir to_dir word (get_free_page s)) [
        | panic ↦ panic
        | done word1 s1 ↦ copy_tables ndir nr (from_dir + 4) (to_dir + 4) word1 s1
      ]

-- `copy_page_tables`: `get_free_page` panics where it has no page, so -1 is not returned.
unfoldable pub copy_page_tables : ℕ → ℕ → ℕ → (ℕ → ℕ) → Pages → Freed
unfolding copy_tables
copy_page_tables from to size word s =
    let copied =
      copy_tables (u32 (size + 0x3fffff) / 2 ^ 22) (if from == 0 then 0xa0 else 1024)
        (dir_entry from) (dir_entry to) word s in
    if not (from % 2 ^ 22 == 0) || not (to % 2 ^ 22 == 0) then panic else copied

-- `copy_page`: 1024 words
unfoldable pub copy_page : ℕ → ℕ → (ℕ → ℕ) → ℕ → ℕ
copy_page from to word x =
    if leb to x && ltb x (to + pg_size) then word (from + (x - to)) else word x

-- `un_wp_page`, with the new page
unfoldable pub own_page : ℕ → (ℕ → ℕ) → Outcome ℕ → Freed
unfolding copy_page set_word
own_page entry word panic = panic
own_page entry word (done new_page s) =
    let old_page = page_of (word entry) in
    let i = old_page / 2 ^ 12 in
    let left = if leb low_mem old_page then put s i (u8 (s.mem_map i + 255)) else s in
    if new_page == 0
    then panic
    else done (copy_page old_page new_page (set_word word entry (or_7 new_page))) left

-- `un_wp_page`, for the table entry at the address `entry`
unfoldable pub un_wp_page : ℕ → (ℕ → ℕ) → Pages → Freed
unfolding own_page
un_wp_page entry word s =
    let old_page = page_of (word entry) in
    if leb low_mem old_page && (s.mem_map (old_page / 2 ^ 12) == 1)
    then done (set_word word entry (or_2 (word entry))) s
    else own_page entry word (get_free_page s)

unfoldable pub do_wp_page : ℕ → (ℕ → ℕ) → Pages → Freed
unfolding un_wp_page
do_wp_page address word s =
    un_wp_page (page_of (word (dir_entry address)) + table_entry address) word s

-- `setp`
unfoldable pub setp : ℕ → (ℕ → ℕ) → ℕ → ℕ
unfolding set_word
setp address word =
    let marked = set_word word (dir_entry address) (or_7 (word (dir_entry address))) in
    let table = page_of (marked (dir_entry address)) in set_word marked table (or_7 (marked table))

-- What `un_wp_page` comes to: the page, of main memory, had no other user and can be written now; or it
-- is below main memory or had other users, and the entry has a page of its own that can be written, with what the old page held, whose count is one less; or no page
-- is free.
pub data Owned (entry : ℕ) (word : ℕ → ℕ) (s : Pages) : Freed → Type 0 where
  sole :
      (word' : ℕ → ℕ)
      → low_mem ≤ page_of (word entry)
      → s.mem_map (page_of (word entry) / 2 ^ 12) ≡ 1
      → page_of (word' entry) ≡ page_of (word entry)
      → word' entry / 2 % 2 ≡ 1
      → ((x : ℕ) → x ≢ entry → word' x ≡ word x)
      → Owned entry word s (done word' s)
  copied :
      (word' : ℕ → ℕ) (s' : Pages) (i : ℕ)
      → (low_mem ≤ page_of (word entry) → s.mem_map (page_of (word entry) / 2 ^ 12) ≢ 1)
      → s.mem_map i ≡ 0
      → page_of (word' entry) ≡ i * pg_size
      → word' entry / 2 % 2 ≡ 1
      → ((k : ℕ)
          → k < pg_size
          → page_of (word entry) + k ≢ entry
          → word' (i * pg_size + k) ≡ word (page_of (word entry) + k))
      → ((x : ℕ) → x ≢ entry → (x < i * pg_size) ⊎ (i * pg_size + pg_size ≤ x) → word' x ≡ word x)
      → s'.mem_map i ≡ 1
      → (low_mem ≤ page_of (word entry)
          → s'.mem_map (page_of (word entry) / 2 ^ 12)
            ≡ u8 (s.mem_map (page_of (word entry) / 2 ^ 12) + 255))
      → Owned entry word s (done word' s')
  none_free :
      (low_mem ≤ page_of (word entry) → s.mem_map (page_of (word entry) / 2 ^ 12) ≢ 1)
      → ((j : ℕ) → 0 < j → j ≤ pg_pages → s.mem_map j ≢ 0)
      → Owned entry word s panic

copy_page_outside :
    (from to : ℕ) (word : ℕ → ℕ) (x : ℕ)
    → (x < to) ⊎ (to + pg_size ≤ x)
    → copy_page from to word x ≡ word x
unfolding copy_page
copy_page_outside from to word x out = ground (arith, out)

copy_page_inside :
    (from to : ℕ) (word : ℕ → ℕ) (k : ℕ)
    → k < pg_size
    → copy_page from to word (to + k) ≡ word (from + k)
unfolding copy_page
copy_page_inside from to word k low = rw (inside, same) refl
  where
    inside : (leb to (to + k) && ltb (to + k) (to + pg_size)) ≡ true
    inside = ground (arith, low)

    same : from + (to + k - to) ≡ from + k
    same = omega arith

own_page-Owned :
    (entry : ℕ) (word : ℕ → ℕ) (s : Pages) (got : Outcome ℕ)
    → s.mem_map (entry / 2 ^ 12) ≢ 0
    → s.mem_map (page_of (word entry) / 2 ^ 12) ≢ 0
    → (low_mem ≤ page_of (word entry) → s.mem_map (page_of (word entry) / 2 ^ 12) ≢ 1)
    → Allocated s got
    → Owned entry word s (own_page entry word got)
unfolding own_page
own_page-Owned entry word s _ used_there used_old shared (Allocated.full none_left) =
    none_free shared none_left
own_page-Owned entry word s _ used_there used_old shared
      (Allocated.page i s' some_page in_map was_free highest counted others high) =
    let old = page_of (word entry) in
    let set = set_word word entry (or_7 (i * 2 ^ 12)) in
    let left =
      if leb low_mem old
      then put s' (old / 2 ^ 12) (u8 (s'.mem_map (old / 2 ^ 12) + 255))
      else s' in
    rw (not_null) (
      copied (copy_page old (i * 2 ^ 12) set) left i shared was_free
        (ap page_of at_entry ∙ omega arith) (ap (λ w. w / 2 % 2) at_entry ∙ omega arith)
        (λ k low elsewhere.
          copy_page_inside old (i * 2 ^ 12) set k low
          ∙ set_word_ne word entry (or_7 (i * 2 ^ 12)) (old + k) elsewhere)
        (λ x other out.
          copy_page_outside old (i * 2 ^ 12) set x out
          ∙ set_word_ne word entry (or_7 (i * 2 ^ 12)) x other)
        (ground (arith, counted, not_old))
        (λ main. ground (arith, main, others (old / 2 ^ 12) (λ e. not_old (sym e)))))
  where
    not_null : (i * 2 ^ 12 == 0) ≡ false
    not_null = ground (arith, some_page)

    not_old : i ≢ page_of (word entry) / 2 ^ 12
    not_old e = used_old (ap s.mem_map (sym e) ∙ was_free)

    not_there : i ≢ entry / 2 ^ 12
    not_there e = used_there (ap s.mem_map (sym e) ∙ was_free)

    at_entry :
        copy_page
          (page_of (word entry))
          (i * 2 ^ 12)
          (set_word word entry (or_7 (i * 2 ^ 12)))
          entry
        ≡ or_7 (i * 2 ^ 12)
    at_entry =
        copy_page_outside (page_of (word entry)) (i * 2 ^ 12)
          (set_word word entry (or_7 (i * 2 ^ 12))) entry (omega (arith, not_there))
        ∙ set_word_self word entry (or_7 (i * 2 ^ 12))

-- For a table entry in a page that is in use, whose own page is in use: `un_wp_page` gives the entry the
-- right to write. Where the page is of main memory and has no other user, the entry keeps it, and no
-- other word changes; else, and only else, the entry has a free page, which holds what the old page
-- held, but for the entry itself, and has one user, no word outside that page but the entry changes, and
-- a page of main memory has one user less; or it panics, where no page is free.
pub un_wp_page_lem :
    (entry : ℕ) (word : ℕ → ℕ) (s : Pages)
    → s.mem_map (entry / 2 ^ 12) ≢ 0
    → s.mem_map (page_of (word entry) / 2 ^ 12) ≢ 0
    → Owned entry word s (un_wp_page entry word s)
unfolding un_wp_page
un_wp_page_lem entry word s used_there used_old =
    if-cases (Owned entry word s)
      (leb low_mem (page_of (word entry)) && (s.mem_map (page_of (word entry) / 2 ^ 12) == 1))
      (λ only.
        sole (set_word word entry (or_2 (word entry))) (ground (arith, only)) (ground (arith, only))
          (ap page_of (set_word_self word entry (or_2 (word entry))) ∙ omega arith)
          (ap (λ w. w / 2 % 2) (set_word_self word entry (or_2 (word entry))) ∙ omega arith)
          (λ x other. set_word_ne word entry (or_2 (word entry)) x other))
      (λ several.
        own_page-Owned entry word s (get_free_page s) used_there used_old
          (λ main. ground (arith, several, main)) (get_free_page_lem s))
