-- ===== src/Slob/Twice.antt =====
-- The pages that src/mem.c gives to kalloc and the free list that slob_init of src/alloc/slob.c builds.
use bloreos.Base.{ℕ, ◌+◌, ◌*◌, ◌≡◌, true, List, [], ◌∷◌, ◌==◌}
use bloreos.Boot.{Region, usable}
use bloreos.Boot.Free.{first_page}
use bloreos.Slob.{Slob}

-- The usable regions start on page boundaries, counted from the lowest address.
abbrev pub Aligned : ℕ → List Region → Type 0
Aligned lowest [] = Unit {0}
Aligned lowest (r ∷ rs) =
    ((r.kind == usable) ≡ true → r.base ≡ lowest + first_page lowest r * 4096) × Aligned lowest rs
