-- ===== src/Tfs/Dirs/Overlay.antt =====
-- fs/tfs/dir.c: a block seen in memory, and an entry's word wherever its block lies.
use thunix.Base.{ℕ, ◌+◌, ◌-◌, ◌<◌, ◌≡◌, refl, ap, ◌∙◌, true, arith, leb, Memory, load32}
use thunix.Tfs.{Block}
use thunix.Tfs.Dirs.{overlay}

pub overlay_at :
    (m : Memory) (base : ℕ) (block : Block) (x : ℕ) → overlay m base block (base + x) ≡ block x
overlay_at m base block x = rw (there, back) refl
  where
    there : leb base (base + x) ≡ true
    there = ground arith

    back : base + x - base ≡ x
    back = omega arith

pub overlay_below :
    (m : Memory) (base : ℕ) (block : Block) (x : ℕ) → x < base → overlay m base block x ≡ m x
overlay_below m base block x low = ground (arith, low)

-- the word of an entry, wherever its block lies
pub load32-same :
    (m m' : Memory) (a b : ℕ)
    → ((i : ℕ) → i < 4 → m' (b + i) ≡ m (a + i))
    → load32 m' b ≡ load32 m a
unfolding load32
load32-same m m' a b same =
    omega (arith, zeroth, same 1 (omega arith), same 2 (omega arith), same 3 (omega arith))
  where
    zeroth : m' b ≡ m a
    zeroth = ap m' (omega arith) ∙ same 0 (omega arith) ∙ ap m (omega arith)
