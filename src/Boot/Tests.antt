-- ===== src/Boot/Tests.antt =====
-- A memory map of one reserved and two usable regions.
use bloreos.Boot.EntryMap.{create_page_bitmap-flags}
use bloreos.Base.{
  ℕ, ◌+◌, ◌^◌, ◌%◌, ◌≡◌, refl, false, leb, ltb, ◌==◌, ◌||◌, ◌*◌, ◌/◌, List, [], ◌∷◌, arith,
  if◌then◌else◌,
}
use bloreos.Bitmap.{bitmap_test}
use bloreos.Bitmap.Laws.{IsBytes}
use bloreos.Boot.{
  Region, Map, align_up, carve, keep, create_page_bitmap, memmap_alloc, get_free_pages,
}
use bloreos.Boot.Regions.{Alloced, memmap_alloc-Alloced}
use bloreos.Boot.Free.{get_free_pages_lem, is_usable_page, usable_pages}

abbrev three_regions : List Region
three_regions =
    record { base = 0; length = 0x1000; kind = 1 }
    ∷ record { base = 0x1000; length = 0x2000; kind = 0 }
    ∷ record { base = 0x10000; length = 0x8000; kind = 0 }
    ∷ []

abbrev started : Map
started = record {
  regions = three_regions;
  max_pages_available = 10;
  total_memory_bytes = 0xa000;
  highest_address = 0x18000;
  lowest_address = 0x1000;
  num_pages_in_map = 23;
  num_pages_available = 0;
  vmm_higher_half_offset = 0;
  page_bitmap = λ i. 0xff;
  entry_map = λ i. 0;
}

all_ones-IsBytes : IsBytes started.page_bitmap
all_ones-IsBytes a = omega arith

memmap_alloc-Alloced_example : Alloced started (align_up 9000) (memmap_alloc started (λ a. 7) 9000)
memmap_alloc-Alloced_example =
    memmap_alloc-Alloced started (λ a. 7) 9000 (omega arith, (omega arith, (omega arith, tt)))

get_free_pages_lem_example :
    ((i : ℕ)
      → bitmap_test (get_free_pages three_regions started).page_bitmap i ≡ (
          if is_usable_page started.lowest_address three_regions i
          then false
          else bitmap_test started.page_bitmap i))
    × ((get_free_pages three_regions started).num_pages_available % 2 ^ 64
        ≡ (started.num_pages_available + usable_pages three_regions) % 2 ^ 64)
get_free_pages_lem_example = get_free_pages_lem three_regions started all_ones-IsBytes

-- A map of 32769 pages, of which the last has no flag.
abbrev one_page_more : Map
one_page_more = record started { num_pages_in_map = 32769 }

create_page_bitmap-flags_example :
    (create_page_bitmap one_page_more (λ i. 7)).page_bitmap (32768 / 8) ≡ (
      if (32769 % 32768 == 0) || leb 8 (32769 % 32768) || ltb 32768 (32769 / 32768 * 32768)
      then 0xff
      else 7)
unfolding carve keep
create_page_bitmap-flags_example =
    create_page_bitmap-flags one_page_more (λ i. 7) 0x1000 32768
      (record { base = 0; length = 0x1000; kind = 1 }
        ∷ record { base = 0x2000; length = 0x1000; kind = 0 }
        ∷ record { base = 0x10000; length = 0x8000; kind = 0 }
        ∷ [])
      (omega arith) refl (omega arith)
