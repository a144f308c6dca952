-- ===== src/Cache.antt =====
-- fs/cache.c and include/cache.h: the block cache, a ring of entries linked both ways through
-- `cache_head`, from the stalest entry (`head->next`) to the freshest (`head->prev`).
pub mod Again
pub mod Buffers
pub mod Coherent
pub mod Get
pub mod Init
pub mod Ring
pub mod Refine
pub mod Spec
mod Examples
use thunix.Base.{
  ℕ, zero, suc, ◌+◌, ◌-◌, ◌*◌, ◌/◌, ◌^◌, ◌<◌, Bool, Option, none, some, ltb, ◌==◌, if◌then◌else◌,
}

-- a `struct cache_struct *`: the entry `&cache[i]` is `i`, and `&cache_head` is `head`
abbrev pub Ptr : Type 0
Ptr = ℕ

abbrev pub max_cache_entries : ℕ
max_cache_entries = 64

abbrev pub head : Ptr
head = max_cache_entries

abbrev pub cache_size : ℕ
cache_size = 32 * 2 ^ 10

-- The fields of all entries, and `cache_entries`. `buffer` is what `*cs->data` holds: each entry
-- has a buffer of its own, so the pointer itself is left out.
pub record Cache (D : Type 0) : Type 0 where
  pub entries : ℕ
  pub block : Ptr → ℕ
  pub prev : Ptr → Ptr
  pub next : Ptr → Ptr
  pub buffer : Ptr → D

abbrev pub update {ℓ} : {A : Type ℓ} → (Ptr → A) → Ptr → A → Ptr → A
update f p a q = if q == p then a else f q

-- `-1` in the `uint32_t` of a block number
abbrev pub no_block : ℕ
no_block = 2 ^ 32 - 1

module _ {D : Type 0} where
  -- the loop of `cache_init`, with `left` rounds left: `cur = &cache[i]`
  init_entries : ℕ → ℕ → Ptr → Cache D → Cache D
  init_entries zero i before c = c
  init_entries (suc left) i before c = init_entries left (i + 1) i (record c {
    block = update c.block i no_block;
    prev = update c.prev i before;
    next = update c.next before i;
  })

  -- `c` is what the statics hold before.
  pub cache_init : ℕ → Cache D → Cache D
  unfolding init_entries
  cache_init block_shift c =
      let wanted = cache_size / 2 ^ block_shift in
      let entries = if ltb max_cache_entries wanted then max_cache_entries else wanted in
      init_entries entries 0 head (record c {
        entries = entries;
        prev = update c.prev head (entries - 1);
        next = update c.next (entries - 1) head;
      })

  -- `for (i = 0; i < cache_entries; i++) if (cs->block == block) break; else cs = cs->prev;`
  -- with `left` rounds left; `none` where the loop ends with `i == cache_entries`
  pub find : Cache D → ℕ → ℕ → Ptr → Option Ptr
  find c block zero cs = none
  find c block (suc left) cs =
      let rest = find c block left (c.prev cs) in if c.block cs == block then some cs else rest

  -- `remove cs from current position in list`
  pub unlink : Cache D → Ptr → Cache D
  unlink c cs =
      let c1 = record c { next = update c.next (c.prev cs) (c.next cs) } in
      record c1 { prev = update c1.prev (c1.next cs) (c1.prev cs) }

  -- `add to just before head node`; `last` is `head->prev` as it was on entry
  pub append : Cache D → Ptr → Ptr → Cache D
  append c last cs =
      let c1 = record c { next = update c.next last cs } in
      let c2 = record c1 { prev = update c1.prev cs last } in
      let c3 = record c2 { prev = update c2.prev head cs } in
      record c3 { next = update c3.next cs head }

  -- `get_cache_block`. `bread b` is what `tfs_bread` of block `b` does: whether it failed, and what
  -- it leaves in the buffer. The result is `cs`, or `none` for NULL.
  unfoldable pub get_cache_block : (ℕ → Bool × D) → Cache D → ℕ → Option Ptr × Cache D
  unfolding find unlink append
  get_cache_block bread c block =
      let last = c.prev head in
      if c.block last == block then (some last, c) else elim (find c block c.entries last) [
        | some cs ↦ (some cs, append (unlink c cs) last cs)
        | none ↦
            let cs = c.next head in
            let (failed, contents) = bread block in
            let filled = record c { buffer = update c.buffer cs contents } in
            let loaded = record filled { block = update c.block cs block } in
            if failed then (none, filled) else (some cs, append (unlink loaded cs) last cs)
      ]
