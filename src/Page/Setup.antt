-- ===== src/Page/Setup.antt =====
-- mm/mm.c, `setup_page`: the tables that it fills.
use thunix.Base.{
  ℕ, zero, suc, ◌+◌, ◌-◌, ◌*◌, ◌/◌, ◌%◌, ◌^◌, ◌≤◌, ◌<◌, ◌≡◌, refl, ap, ◌∙◌, ◌⊎◌, inl, inr, Option,
  none, some, arith, ◌==◌, if◌then◌else◌,
}
use thunix.Page.{pg_pages}
use thunix.Page.Tables.{
  pg_size, pg_dir, pg_table, set_word, or_7, page_of, dir_entry, table_entry, fill_entries,
  fill_absent, setup_page,
}

-- What the processor finds for an address, with the directory at `dir`: the page, or none.
unfoldable pub translate : ℕ → (ℕ → ℕ) → ℕ → Option ℕ
translate dir word address =
    let entry = word (dir + dir_entry address) in
    let page = word (page_of entry + table_entry address) in
    if entry % 2 == 0 then none else if page % 2 == 0 then none else some (page_of page)

fill_entries_outside :
    (left at address : ℕ) (word : ℕ → ℕ) (a : ℕ)
    → (a < at) ⊎ (at + 4 * left ≤ a)
    → fill_entries left at address word a ≡ word a
unfolding fill_entries set_word
fill_entries_outside zero at address word a out = refl
fill_entries_outside (suc left) at address word a out =
    fill_entries_outside left (at + 4) (address + pg_size) (set_word word at (or_7 address)) a
      (omega (arith, out))
    ∙ ground (arith, out)

fill_entries_inside :
    (left at address : ℕ) (word : ℕ → ℕ) (i : ℕ)
    → i < left
    → fill_entries left at address word (at + 4 * i) ≡ or_7 (address + i * pg_size)
unfolding fill_entries set_word
fill_entries_inside zero at address word i inside = absurd (omega (arith, inside))
fill_entries_inside (suc left) at address word zero inside =
    fill_entries_outside left (at + 4) (address + pg_size) (set_word word at (or_7 address))
      (at + 4 * 0) (omega arith)
    ∙ ground arith
fill_entries_inside (suc left) at address word (suc i) inside =
    rw (place, value)
      (fill_entries_inside left (at + 4) (address + pg_size) (set_word word at (or_7 address)) i
        (omega (arith, inside)))
  where
    place : at + 4 * suc i ≡ at + 4 + 4 * i
    place = omega arith

    value : address + suc i * pg_size ≡ address + pg_size + i * pg_size
    value = omega arith

fill_absent_outside :
    (left at : ℕ) (word : ℕ → ℕ) (a : ℕ)
    → (a < at) ⊎ (at + 4 * left ≤ a)
    → fill_absent left at word a ≡ word a
unfolding fill_absent set_word
fill_absent_outside zero at word a out = refl
fill_absent_outside (suc left) at word a out =
    fill_absent_outside left (at + 4) (set_word word at 6) a (omega (arith, out))
    ∙ ground (arith, out)

-- the directory's entries, and those of the tables
setup_dir :
    (word : ℕ → ℕ) (k : ℕ)
    → k < 8
    → setup_page word (pg_dir + 4 * k) ≡ or_7 (pg_table + k * pg_size)
unfolding setup_page
setup_dir word k low =
    fill_absent_outside (1024 - 8) (pg_dir + 4 * 8)
      (fill_entries 8 pg_dir pg_table (fill_entries pg_pages pg_table 0 word)) (pg_dir + 4 * k)
      (inl (omega (arith, low)))
    ∙ fill_entries_inside 8 pg_dir pg_table (fill_entries pg_pages pg_table 0 word) k low

setup_table :
    (word : ℕ → ℕ) (i : ℕ) → i < pg_pages → setup_page word (pg_table + 4 * i) ≡ or_7 (i * pg_size)
unfolding setup_page
setup_table word i low =
    fill_absent_outside (1024 - 8) (pg_dir + 4 * 8)
      (fill_entries 8 pg_dir pg_table (fill_entries pg_pages pg_table 0 word)) (pg_table + 4 * i)
      (inr (omega arith))
    ∙ fill_entries_outside 8 pg_dir pg_table (fill_entries pg_pages pg_table 0 word)
        (pg_table + 4 * i) (inr (omega arith))
    ∙ fill_entries_inside pg_pages pg_table 0 word i low
    ∙ ap (λ n. or_7 n) zero_plus
  where
    zero_plus : 0 + i * pg_size ≡ i * pg_size
    zero_plus = omega arith

pub found :
    (dir : ℕ) (word : ℕ → ℕ) (address entry page : ℕ)
    → word (dir + dir_entry address) ≡ entry
    → entry % 2 ≡ 1
    → word (page_of entry + table_entry address) ≡ page
    → page % 2 ≡ 1
    → translate dir word address ≡ some (page_of page)
unfolding translate
found dir word address entry page e present e' present' = rw (e, e', present, present') refl

-- Whatever the memory held before: once `setup_page` has filled the directory at `PG_DIR` and its
-- tables, every address below 32 MB is found on its own page.
pub setup_page_lem :
    (word : ℕ → ℕ) (address : ℕ)
    → address < 2 ^ 25
    → translate pg_dir (setup_page word) address ≡ some (page_of address)
setup_page_lem word address low =
    found pg_dir (setup_page word) address (or_7 (pg_table + address / 2 ^ 22 * pg_size))
      (or_7 (address / 2 ^ 12 * pg_size))
      (ap (setup_page word) (omega (arith, low))
        ∙ setup_dir word (address / 2 ^ 22) (omega (arith, low)))
      (omega arith)
      (ap (setup_page word) table ∙ setup_table word (address / 2 ^ 12) (omega (arith, low)))
      (omega arith)
    ∙ ap some (omega arith)
  where
    table :
        page_of (or_7 (pg_table + address / 2 ^ 22 * pg_size)) + table_entry address
        ≡ pg_table + 4 * (address / 2 ^ 12)
    table = omega (arith, low)
