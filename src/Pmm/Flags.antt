-- ===== src/Pmm/Flags.antt =====
-- Reserving and releasing a run of pages, of src/mem.c, as changes of the flags.
use bloreos.Base.{
  ℕ, zero, suc, ◌+◌, ◌≡◌, Bool, true, false, ◌&&◌, arith, ltb, leb, if◌then◌else◌, Ram,
}
use bloreos.Bitmap.{bitmap_test, bitmap_on, bitmap_off}
use bloreos.Bitmap.Laws.{
  IsBytes, bitmap_on-IsBytes, bitmap_off-IsBytes, bitmap_test-on, bitmap_test-off,
}
use bloreos.Pmm.{reserve_pages, release_pages}

-- i is one of the n pages from start.
abbrev pub among : ℕ → ℕ → ℕ → Bool
among start n i = leb start i && ltb i (start + n)

pub reserve_pages_lem :
    (n : ℕ) (m : Ram) (start i : ℕ)
    → IsBytes m
    → bitmap_test (reserve_pages m start n) i ≡ (if among start n i then true else bitmap_test m i)
unfolding reserve_pages
reserve_pages_lem zero m start i h = ground arith
reserve_pages_lem (suc n) m start i h = ground (
  arith,
  reserve_pages_lem n (bitmap_on m start) (start + 1) i (bitmap_on-IsBytes m start h),
  bitmap_test-on m start i h,
)

pub reserve_pages-IsBytes :
    (n : ℕ) (m : Ram) (start : ℕ) → IsBytes m → IsBytes (reserve_pages m start n)
unfolding reserve_pages
reserve_pages-IsBytes zero m start h = h
reserve_pages-IsBytes (suc n) m start h =
    reserve_pages-IsBytes n (bitmap_on m start) (start + 1) (bitmap_on-IsBytes m start h)

pub release_pages_lem :
    (n : ℕ) (m : Ram) (start i : ℕ)
    → IsBytes m
    → bitmap_test (release_pages m start n) i ≡ (if among start n i then false else bitmap_test m i)
unfolding release_pages
release_pages_lem zero m start i h = ground arith
release_pages_lem (suc n) m start i h = ground (
  arith,
  release_pages_lem n (bitmap_off m start) (start + 1) i (bitmap_off-IsBytes m start h),
  bitmap_test-off m start i h,
)

pub release_pages-IsBytes :
    (n : ℕ) (m : Ram) (start : ℕ) → IsBytes m → IsBytes (release_pages m start n)
unfolding release_pages
release_pages-IsBytes zero m start h = h
release_pages-IsBytes (suc n) m start h =
    release_pages-IsBytes n (bitmap_off m start) (start + 1) (bitmap_off-IsBytes m start h)
