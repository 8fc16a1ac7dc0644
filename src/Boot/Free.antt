-- ===== src/Boot/Free.antt =====
-- Which pages `_get_free_pages` marks free, and how many it counts.
use bloreos.Base.{
  ℕ, ◌+◌, ◌-◌, ◌/◌, ◌%◌, ◌^◌, ◌≡◌, refl, Bool, false, ◌&&◌, ◌||◌, List, [], ◌∷◌, arith, ◌==◌,
  if◌then◌else◌, Bool-cases, inl, inr, u64,
}
use bloreos.Bitmap.{bitmap_test}
use bloreos.Bitmap.Laws.{IsBytes}
use bloreos.Pmm.{page_size}
use bloreos.Pmm.Flags.{among, release_pages_lem, release_pages-IsBytes}
use bloreos.Boot.{Region, Map, usable, free_region, get_free_pages}

-- The pages of one region, counted from the lowest address.
abbrev pub first_page : ℕ → Region → ℕ
first_page lowest r = u64 (r.base + 2 ^ 64 - lowest) / page_size

-- Page i lies in a usable region.
abbrev pub is_usable_page : ℕ → List Region → ℕ → Bool
is_usable_page lowest [] i = false
is_usable_page lowest (r ∷ rs) i =
    ((r.kind == usable) && among (first_page lowest r) (r.length / page_size) i)
    || is_usable_page lowest rs i

abbrev pub usable_pages : List Region → ℕ
usable_pages [] = 0
usable_pages (r ∷ rs) = (if r.kind == usable then r.length / page_size else 0) + usable_pages rs

free_region-IsBytes :
    (s : Map) (r : Region) → IsBytes s.page_bitmap → IsBytes (free_region s r).page_bitmap
unfolding free_region
free_region-IsBytes s r b i = ground (
  arith,
  b i,
  release_pages-IsBytes (r.length / page_size) s.page_bitmap (first_page s.lowest_address r) b i,
)

free_region_flags :
    (s : Map) (r : Region) (i : ℕ)
    → IsBytes s.page_bitmap
    → bitmap_test (free_region s r).page_bitmap i ≡ (
        if (r.kind == usable) && among (first_page s.lowest_address r) (r.length / page_size) i
        then false
        else bitmap_test s.page_bitmap i)
unfolding free_region
free_region_flags s r i b = elim (Bool-cases (r.kind == usable)) [
  | inl u ↦ ground (
    arith,
    release_pages_lem (r.length / page_size) s.page_bitmap (first_page s.lowest_address r) i b,
  )
  | inr n ↦ ground arith
]

free_region_rest :
    (s : Map) (r : Region)
    → ((free_region s r).lowest_address ≡ s.lowest_address)
      × ((free_region s r).num_pages_available % 2 ^ 64
          ≡ (s.num_pages_available + (if r.kind == usable then r.length / page_size else 0))
            % 2 ^ 64)
unfolding free_region
free_region_rest s r = ground arith

-- `_get_free_pages` clears the flags of exactly the pages that lie in usable regions, leaves every
-- other flag as it was, and adds the number of those pages, modulo 2^64, to num_pages_available.
pub get_free_pages_lem :
    (rs : List Region) (s : Map)
    → IsBytes s.page_bitmap
    → ((i : ℕ)
        → bitmap_test (get_free_pages rs s).page_bitmap i
          ≡ (if is_usable_page s.lowest_address rs i then false else bitmap_test s.page_bitmap i))
      × ((get_free_pages rs s).num_pages_available % 2 ^ 64
          ≡ (s.num_pages_available + usable_pages rs) % 2 ^ 64)
unfolding get_free_pages
get_free_pages_lem [] s b = (λ i. refl, omega arith)
get_free_pages_lem (r ∷ rs) s b =
    let (flags, count) = get_free_pages_lem rs (free_region s r) (free_region-IsBytes s r b) in
    (
      λ i. ground (arith, flags i, free_region_flags s r i b, free_region_rest s r),
      ground (arith, count, free_region_rest s r),
    )
