-- ===== src/MemOps/Tests.antt =====
-- Overlapping copies in a memory that holds at each address the address itself.
use bloreos.Base.{◌+◌, ◌-◌, ◌≡◌, Ram, if◌then◌else◌}
use bloreos.MemOps.{memmove}
use bloreos.MemOps.Copy.{inside, memmove_lem}

abbrev counting : Ram
counting a = a

memmove_lem_example :
    memmove counting 12 10 5 14
    ≡ (if inside 12 5 14 then counting (10 + (14 - 12)) else counting 14)
memmove_lem_example = memmove_lem counting 12 10 5 14
