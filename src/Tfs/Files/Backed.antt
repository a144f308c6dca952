-- ===== src/Tfs/Files/Backed.antt =====
-- The block cache over the disk, as the operations on files use it: each block that is asked for is
-- found, with the contents that the disk holds in it.
use thunix.Base.{ℕ, ◌<◌, ◌≡◌, refl, ap, false, Option, some, List, length}
use thunix.Base.Int.{pos}
use thunix.Cache.{Ptr, Cache, get_cache_block}
use thunix.Cache.Coherent.{Coherent, get_cache_block-Coherent}
use thunix.Cache.Refine.{IsRing, view}
use thunix.Tfs.{Block, Floppy, SbInfo, State, tfs_bread, cached_read, get_block, is_zero}

-- What `get_cache_block` comes to where it keeps `Inv` and finds `contents`.
pub data Gives (dev : Floppy) (sbi : SbInfo) (Inv : State dev → Type 0) (contents : Block)
    : Option Ptr × State dev → Type 0 where
  gives :
      (p : Ptr) (s : State dev)
      → Inv s
      → ((x : ℕ) → x < sbi.s_block_size → s.cache.buffer p x ≡ contents x)
      → Gives dev sbi Inv contents (some p, s)

-- The states in which every block can be had, with `contents` of it.
pub record Backed (dev : Floppy) (sbi : SbInfo) (contents : ℕ → Block) : Type 1 where
  pub Inv : State dev → Type 0
  pub get : (s : State dev) (b : ℕ) → Inv s → Gives dev sbi Inv (contents b) (get_block dev sbi s b)

-- On a drive whose reads of `disk` succeed and leave the same in the buffer whatever it held before,
-- a coherent cache of at least two entries backs the files.
module _ (dev : Floppy) (sbi : SbInfo) (disk : dev.Disk) (contents : ℕ → Block)
    (reads : (b : ℕ) (buf : Block) → tfs_bread dev disk sbi b buf ≡ (pos 0, contents b)) where
  pub record IsCoherent (s : State dev) : Type 0 where
    pub order : List Ptr
    pub ring : IsRing s.cache order
    pub size : 1 < length order
    pub coherent : Coherent contents (view s.cache.block s.cache.buffer order)
    pub same_disk : s.disk ≡ disk

  cached_read-contents :
      (s : State dev) (b : ℕ)
      → s.disk ≡ disk
      → cached_read dev s.disk sbi s.cache b ≡ (false, contents b)
  unfolding cached_read is_zero
  cached_read-contents s b e = rw (e, reads b (s.cache.buffer (s.cache.next 64))) refl

  gives-IsCoherent :
      (s : State dev) (b : ℕ) (out : Option Ptr × Cache Block) (p : Ptr)
      → s.disk ≡ disk
      → out.0 ≡ some p
      → out.1.buffer p ≡ contents b
      → (order : List Ptr) → IsRing out.1 order
      → 1 < length order
      → Coherent contents (view out.1.block out.1.buffer order)
      → Gives dev sbi IsCoherent (contents b) (out.0, record s { cache = out.1 })
  gives-IsCoherent s b out p e r found order ring size coherent = rw r (
      gives p (record s { cache = out.1 })
        (record { order = order; ring = ring; size = size; coherent = coherent; same_disk = e })
        (λ x _. ap (λ block. block x) found))

  pub get_block-IsCoherent :
      (s : State dev) (b : ℕ)
      → IsCoherent s
      → Gives dev sbi IsCoherent (contents b) (get_block dev sbi s b)
  unfolding get_block
  get_block-IsCoherent s b inv =
      let (p, order, r, _, found, ring, same_size, coherent) =
        get_cache_block-Coherent contents (cached_read dev s.disk sbi s.cache) s.cache inv.order b
          (λ b'. cached_read-contents s b' inv.same_disk) inv.ring inv.size inv.coherent in
      gives-IsCoherent s b (get_cache_block (cached_read dev s.disk sbi s.cache) s.cache b) p
        inv.same_disk r found order ring (rw same_size inv.size) coherent

  abbrev pub coherent_cache : Backed dev sbi contents
  coherent_cache = record { Inv = IsCoherent; get = get_block-IsCoherent }
