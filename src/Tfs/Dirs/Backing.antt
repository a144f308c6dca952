-- ===== src/Tfs/Dirs/Backing.antt =====
-- The block cache over a disk of bytes: a coherent cache, all of whose buffers hold bytes.
use thunix.Base.{ℕ, ◌≡◌, Option, IsBytes}
use thunix.Base.Int.{pos}
use thunix.Cache.{Ptr}
use thunix.Cache.Buffers.{get_cache_block-all}
use thunix.Tfs.{Block, Floppy, SbInfo, State, tfs_bread, cached_read, get_block}
use thunix.Tfs.Files.Backed.{Gives, gives, Backed, IsCoherent, get_block-IsCoherent}

module _ (dev : Floppy) (sbi : SbInfo) (disk : dev.Disk) (contents : ℕ → Block)
    (reads : (b : ℕ) (buf : Block) → tfs_bread dev disk sbi b buf ≡ (pos 0, contents b))
    (bytes : (b : ℕ) → IsBytes (contents b)) where
  abbrev pub HoldsBytes : State dev → Type 0
  HoldsBytes s = IsCoherent dev sbi disk contents reads s × ((p : Ptr) → IsBytes (s.cache.buffer p))

  Gives-HoldsBytes :
      (block : Block) (out : Option Ptr × State dev)
      → Gives dev sbi (IsCoherent dev sbi disk contents reads) block out
      → ((p : Ptr) → IsBytes (out.1.cache.buffer p))
      → Gives dev sbi HoldsBytes block out
  Gives-HoldsBytes block _ (gives p s inv found) all = gives p s (inv, all) found

  pub get_block-HoldsBytes :
      (s : State dev) (b : ℕ)
      → HoldsBytes s
      → Gives dev sbi HoldsBytes (contents b) (get_block dev sbi s b)
  unfolding get_block cached_read
  get_block-HoldsBytes s b (inv, all) =
      Gives-HoldsBytes (contents b) (get_block dev sbi s b)
        (get_block-IsCoherent dev sbi disk contents reads s b inv)
        (get_cache_block-all IsBytes (cached_read dev s.disk sbi s.cache) s.cache b
          (λ b'. rw (inv.same_disk, reads b' (s.cache.buffer (s.cache.next 64))) (bytes b')) all)

  abbrev pub byte_cache : Backed dev sbi contents
  byte_cache = record { Inv = HoldsBytes; get = get_block-HoldsBytes }
