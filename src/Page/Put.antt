-- ===== src/Page/Put.antt =====
-- mm/mm.c, `put_page` and `get_empty_page`: what they do to the addresses that are found, where the
-- directory is at 0, as the code takes it to be.
use thunix.Base.{
  ℕ, ◌+◌, ◌*◌, ◌/◌, ◌%◌, ◌^◌, ◌≤◌, ◌<◌, ◌≡◌, refl, sym, ap, ◌∙◌, ◌≢◌, inl, inr, false, ◌||◌, not,
  some, arith, ltb, ◌==◌, ==_iff, Bool-cases, if-cases, set,
}
use thunix.Page.{Pages, Outcome, done, panic, low_mem, pg_pages, get_free_page}
use thunix.Page.Laws.{Allocated, get_free_page_lem}
use thunix.Page.Tables.{
  Tabled, pg_size, set_word, set_word_self, set_word_ne, or_7, page_of, dir_entry, table_entry,
  put_entry, put_table, put_page,
}
use thunix.Page.Setup.{translate, found}

-- a whole page of main memory, used once
pub record IsFrame (s : Pages) (page : ℕ) : Type 0 where
  pub whole : page % pg_size ≡ 0
  pub low : low_mem ≤ page
  pub high : page ≤ s.high_memory
  pub count : s.mem_map (page / 2 ^ 12) ≡ 1

-- What `put_page` comes to: in the directory at 0 the address is found on the page, and where it had a table that no other
-- entry of the directory has, every address on another page is found where it was; in a directory
-- elsewhere, which is not the table written to, every address that has a table behind page 0, other
-- than that one, is found where it was; or there is neither a table nor a free page for one.
pub data Put (page address : ℕ) (word : ℕ → ℕ) (s : Pages) : Outcome (Tabled ℕ) → Type 0 where
  mapped :
      (word' : ℕ → ℕ) (s' : Pages)
      → translate 0 word' address ≡ some page
      → (word (dir_entry address) % 2 ≡ 1
          → ((b : ℕ)
              → dir_entry b ≢ dir_entry address
              → page_of (word (dir_entry b)) ≢ page_of (word (dir_entry address)))
          → (b : ℕ) → (dir_entry b ≡ dir_entry address → table_entry b ≢ table_entry address)
          → translate 0 word' b ≡ translate 0 word b)
      → ((d b : ℕ)
          → d % pg_size ≡ 0
          → pg_size ≤ d
          → d ≢ page_of (word' (dir_entry address))
          → pg_size ≤ page_of (word (d + dir_entry b))
          → page_of (word (d + dir_entry b)) ≢ page_of (word' (dir_entry address))
          → translate d word' b ≡ translate d word b)
      → Put page address word s (done (record { result = page; word = word' }) s')
  none_free :
      word (dir_entry address) % 2 ≡ 0
      → ((j : ℕ) → 0 < j → j ≤ pg_pages → s.mem_map j ≢ 0)
      → Put page address word s panic

-- the entry written into a table behind the directory
entry_found :
    (page address : ℕ) (word : ℕ → ℕ) (entry table : ℕ)
    → page % pg_size ≡ 0
    → word (dir_entry address) ≡ entry
    → entry % 2 ≡ 1
    → table ≡ page_of entry
    → pg_size ≤ table
    → translate 0 (set_word word (table + table_entry address) (or_7 page)) address ≡ some page
entry_found page address word entry table whole at present is behind =
    found 0 (set_word word (table + table_entry address) (or_7 page)) address entry (or_7 page)
      (set_word_ne word (table + table_entry address) (or_7 page) (0 + dir_entry address)
          (omega (arith, behind))
        ∙ ap word (omega arith)
        ∙ at)
      present
      (ap (set_word word (table + table_entry address) (or_7 page)) (omega (arith, is))
        ∙ set_word_self word (table + table_entry address) (or_7 page))
      (omega arith)
    ∙ ap some (omega (arith, whole))

other_kept :
    (page address : ℕ) (word : ℕ → ℕ)
    → pg_size ≤ page_of (word (dir_entry address))
    → ((b : ℕ)
        → dir_entry b ≢ dir_entry address
        → page_of (word (dir_entry b)) ≢ page_of (word (dir_entry address)))
    → (b : ℕ) → (dir_entry b ≡ dir_entry address → table_entry b ≢ table_entry address)
    → translate 0
        (set_word word (page_of (word (dir_entry address)) + table_entry address) (or_7 page))
        b
      ≡ translate 0 word b
unfolding translate
other_kept page address word behind own b apart =
    let at = page_of (word (dir_entry address)) + table_entry address in
    rw
      (
        set_word_ne word at (or_7 page) (0 + dir_entry b) (omega (arith, behind)),
        set_word_ne word at (or_7 page) (page_of (word (0 + dir_entry b)) + table_entry b)
            elsewhere,
      )
      refl
  where
    plus_zero : word (0 + dir_entry b) ≡ word (dir_entry b)
    plus_zero = ap word (omega arith)

    elsewhere :
        page_of (word (0 + dir_entry b)) + table_entry b
        ≢ page_of (word (dir_entry address)) + table_entry address
    elsewhere q = elim (Bool-cases (dir_entry b == dir_entry address)) [
      | inl same ↦
          let here : dir_entry b ≡ dir_entry address = (==_iff _ _).0 same in
          apart here (omega (arith, q, plus_zero, ap word here))
      | inr other ↦ own b (λ e. ground (arith, other, e)) (omega (arith, q, plus_zero))
    ]

-- where nothing changes but page 0 and `table`, a directory behind them finds an address where it did
elsewhere_kept :
    (word word' : ℕ → ℕ) (table d b : ℕ)
    → ((x : ℕ) → pg_size ≤ x → page_of x ≢ table → word' x ≡ word x)
    → d % pg_size ≡ 0
    → pg_size ≤ d
    → d ≢ table
    → pg_size ≤ page_of (word (d + dir_entry b))
    → page_of (word (d + dir_entry b)) ≢ table
    → translate d word' b ≡ translate d word b
unfolding translate
elsewhere_kept word word' table d b kept whole behind other table_behind other_table =
    rw
      (
        kept (d + dir_entry b) (omega (arith, behind)) (omega (arith, whole, other)),
        kept (page_of (word (d + dir_entry b)) + table_entry b) (omega (arith, table_behind))
            (omega (arith, other_table)),
      )
      refl

-- the same, once an entry of the directory at 0 may have been written, and one of its table has
entry_elsewhere :
    (address : ℕ) (word set : ℕ → ℕ) (entry table at d b : ℕ)
    → ((x : ℕ) → x ≢ dir_entry address → set x ≡ word x)
    → set (dir_entry address) ≡ entry
    → table ≡ page_of entry
    → pg_size ≤ table
    → d % pg_size ≡ 0
    → pg_size ≤ d
    → d ≢ page_of (set_word set (table + table_entry address) at (dir_entry address))
    → pg_size ≤ page_of (word (d + dir_entry b))
    → page_of (word (d + dir_entry b))
      ≢ page_of (set_word set (table + table_entry address) at (dir_entry address))
    → translate d (set_word set (table + table_entry address) at) b ≡ translate d word b
entry_elsewhere address word set entry table at d b same here is above whole behind other
      table_behind other_table =
    elsewhere_kept word (set_word set (table + table_entry address) at) table d b
      (λ x far out.
        set_word_ne set (table + table_entry address) at x (omega (arith, out, is))
        ∙ same x (omega (arith, far)))
      whole behind (λ e. other (e ∙ sym in_table)) table_behind
      (λ e. other_table (e ∙ sym in_table))
  where
    in_table : page_of (set_word set (table + table_entry address) at (dir_entry address)) ≡ table
    in_table =
        ap page_of (
          set_word_ne set (table + table_entry address) at (dir_entry address)
            (omega (arith, above))
          ∙ here)
        ∙ sym is

put_table-Put :
    (page address : ℕ) (word : ℕ → ℕ) (s : Pages) (got : Outcome ℕ)
    → page % pg_size ≡ 0
    → word (dir_entry address) % 2 ≡ 0
    → Allocated s got
    → Put page address word s (put_table page address word got)
unfolding put_table put_entry
put_table-Put page address word s _ whole absent (Allocated.full none_left) =
    none_free absent none_left
put_table-Put page address word s _ whole absent
      (Allocated.page i s' some_page in_map was_free highest counted others high) =
    rw (not_null) (
      mapped _ s'
        (entry_found page address (set_word word (dir_entry address) (or_7 (i * 2 ^ 12)))
          (or_7 (i * 2 ^ 12)) (i * 2 ^ 12) whole
          (set_word_self word (dir_entry address) (or_7 (i * 2 ^ 12))) (omega arith) frame
          (omega (arith, some_page)))
        (λ present. absurd (omega (arith, absent, present)))
        (λ d b.
          entry_elsewhere address word (set_word word (dir_entry address) (or_7 (i * 2 ^ 12)))
            (or_7 (i * 2 ^ 12)) (i * 2 ^ 12) (or_7 page) d b
            (set_word_ne word (dir_entry address) (or_7 (i * 2 ^ 12)))
            (set_word_self word (dir_entry address) (or_7 (i * 2 ^ 12))) frame
            (omega (arith, some_page))))
  where
    not_null : (i * 2 ^ 12 == 0) ≡ false
    not_null = ground (arith, some_page)

    frame : i * 2 ^ 12 ≡ page_of (or_7 (i * 2 ^ 12))
    frame = omega arith

-- For a whole page of main memory that is used once, in the directory at address 0, which is the one
-- that the code takes, though the processor's is at `PG_DIR`, where a table that the address has there
-- lies behind that directory: `put_page` returns the page, and afterwards the address is found on it in
-- the directory at 0, and where it had a table there that no other entry has, every address on another
-- page is found there where it was; in a directory at another page, the processor's too, which is not
-- the table written to, every address whose table is neither that one nor in page 0 is found where it
-- was; or it panics, where the address has no table and no page is free.
pub put_page_lem :
    (page address : ℕ) (word : ℕ → ℕ) (s : Pages)
    → IsFrame s page
    → (word (dir_entry address) % 2 ≡ 1 → pg_size ≤ page_of (word (dir_entry address)))
    → Put page address word s (put_page page address word s)
unfolding put_page put_entry
put_page_lem page address word s frame behind =
    rw (in_memory, counted)
      (if-cases (Put page address word s) (word (dir_entry address) % 2 == 1)
        (λ present.
          mapped _ s
            (entry_found page address word (word (dir_entry address))
              (page_of (word (dir_entry address))) frame.whole refl ((==_iff _ _).0 present) refl
              (behind ((==_iff _ _).0 present)))
            (λ _ own b apart.
              other_kept page address word (behind ((==_iff _ _).0 present)) own b apart)
            (λ d b.
              entry_elsewhere address word word (word (dir_entry address))
                (page_of (word (dir_entry address))) (or_7 page) d b (λ x _. refl) refl refl
                (behind ((==_iff _ _).0 present))))
        (λ absent.
          put_table-Put page address word s (get_free_page s) frame.whole (ground (arith, absent))
            (get_free_page_lem s)))
  where
    in_memory : (ltb page low_mem || ltb s.high_memory page) ≡ false
    in_memory = ground (arith, frame.low, frame.high)

    counted : not (s.mem_map (page / 2 ^ 12) == 1) ≡ false
    counted = ground (arith, frame.count)
