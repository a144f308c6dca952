-- ===== src/Fd.antt =====
-- kernel/fd.c, `lba_to_chs`: where a sector lies on the disk. The rest of the driver works through I/O
-- ports, interrupts and DMA.
mod Examples
use thunix.Base.{ℕ, ◌+◌, ◌-◌, ◌*◌, ◌/◌, ◌%◌, ◌≤◌, ◌<◌, ◌≡◌, arith}
use native.Mathlib.Nat.{div-add-mod', mod-lt}

-- `struct floppy_struct`
pub record FloppyStruct : Type 0 where
  pub sector : ℕ
  pub head : ℕ
  pub track : ℕ

-- the head, the track and the sector of `line_sector`
pub record Chs : Type 0 where
  pub on_head : ℕ
  pub on_track : ℕ
  pub at_sector : ℕ

-- `lba_to_chs`
unfoldable pub lba_to_chs : FloppyStruct → ℕ → Chs
lba_to_chs floppy line_sector = record {
  at_sector = line_sector % floppy.sector + 1;
  on_head = line_sector / floppy.sector % floppy.head;
  on_track = line_sector / floppy.sector / floppy.head;
}

-- For a disk with heads and sectors: `lba_to_chs` gives a head and a sector, counted from 1, that the
-- disk has, and all sectors before it, track by track and head by head, are as many as the number it was
-- given.
pub lba_to_chs_lem :
    (floppy : FloppyStruct) (line_sector : ℕ)
    → 0 < floppy.sector
    → 0 < floppy.head
    → let chs = lba_to_chs floppy line_sector in
      (chs.on_head < floppy.head)
      × (0 < chs.at_sector)
      × (chs.at_sector ≤ floppy.sector)
      × ((chs.on_track * floppy.head + chs.on_head) * floppy.sector + (chs.at_sector - 1)
          ≡ line_sector)
unfolding lba_to_chs
lba_to_chs_lem floppy line_sector sectors heads = (
  mod-lt (line_sector / floppy.sector) heads,
  omega arith,
  omega (arith, mod-lt line_sector sectors),
  rw (div-add-mod' (line_sector / floppy.sector) floppy.head, one_less)
      (div-add-mod' line_sector floppy.sector),
)
  where
    one_less : line_sector % floppy.sector + 1 - 1 ≡ line_sector % floppy.sector
    one_less = omega arith
