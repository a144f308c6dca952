-- ===== src/Fd/Examples.antt =====
-- kernel/fd.c: a disk of 80 tracks.
use thunix.Base.{◌+◌, ◌-◌, ◌*◌, ◌≤◌, ◌<◌, ◌≡◌, arith}
use thunix.Fd.{FloppyStruct, lba_to_chs, lba_to_chs_lem}

abbrev floppy : FloppyStruct
floppy = record { sector = 18; head = 2; track = 80 }

lba_to_chs_lem_example :
    let chs = lba_to_chs floppy 853 in
    (chs.on_head < 2)
    × (0 < chs.at_sector)
    × (chs.at_sector ≤ 18)
    × ((chs.on_track * 2 + chs.on_head) * 18 + (chs.at_sector - 1) ≡ 853)
lba_to_chs_lem_example = lba_to_chs_lem floppy 853 (omega arith) (omega arith)
