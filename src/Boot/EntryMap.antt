-- ===== src/Boot/EntryMap.antt =====
-- The sizes of the two tables of src/mem.c, and _create_entry_map, which nothing calls.
use bloreos.Base.{
  ℕ, ◌+◌, ◌-◌, ◌*◌, ◌/◌, ◌%◌, ◌^◌, ◌<◌, ◌≡◌, refl, ap, subst, List, Option, some, none, Ram, u64,
  arith, leb, ltb, ◌==◌, ◌||◌, if◌then◌else◌, ◌∙◌,
}
use bloreos.MemOps.{memset}
use bloreos.MemOps.Copy.{memset_lem}
use bloreos.Pmm.{page_size}
use bloreos.Boot.{
  Region, Map, align_up, carve, create_page_bitmap, memmap_taken, memmap_alloc, word32,
}

abbrev pub entry_map_size : Map → ℕ
entry_map_size s = align_up (u64 (4 * s.num_pages_in_map))

-- _create_entry_map; where no region is large enough the pointer stays as it was.
unfoldable pub entry_map_taken : Map → Ram → ℕ → Option (ℕ × List Region) → Map
entry_map_taken s before size none = s
entry_map_taken s before size (some (a, rs)) = record s {
  entry_map = word32 (memset before 0 0 size);
  regions = rs;
  max_pages_available = u64 (s.max_pages_available + 2 ^ 64 - size / page_size);
}

unfoldable pub create_entry_map : Map → Ram → Map
unfolding entry_map_taken carve
create_entry_map s before =
    entry_map_taken s before (entry_map_size s) (carve (entry_map_size s) s.regions)

align_up_twice : (n : ℕ) → n < 2 ^ 63 → align_up (align_up n) ≡ align_up n
unfolding align_up
align_up_twice n small = omega (arith, small)

same_map :
    (s u : Map) (before bytes : Ram) (a size : ℕ) (o : Option (ℕ × List Region))
    → memmap_taken s before size o ≡ some (a, bytes, u)
    → entry_map_taken s before size o ≡ record u { entry_map = word32 bytes }
unfolding memmap_taken entry_map_taken
same_map s u before bytes a size none e = absurd cc
same_map s u before bytes a size (some (b, rs)) e =
    let u' = record s {
      regions = rs;
      max_pages_available = u64 (s.max_pages_available + 2 ^ 64 - size / page_size);
    } in
    let same : u' ≡ u = cc in
    let same_bytes : memset before 0 0 size ≡ bytes = cc in rw (← same, ← same_bytes) refl

-- Where memmap_alloc, which kmem_init calls for the entry map, finds a region, _create_entry_map leaves
-- the same map with the same zeroed table.
pub create_entry_map-memmap_alloc :
    (s u : Map) (before bytes : Ram) (a : ℕ)
    → 4 * s.num_pages_in_map < 2 ^ 63
    → memmap_alloc s before (entry_map_size s) ≡ some (a, bytes, u)
    → create_entry_map s before ≡ record u { entry_map = word32 bytes }
unfolding create_entry_map memmap_alloc
create_entry_map-memmap_alloc s u before bytes a small e =
    same_map s u before bytes a (entry_map_size s) (carve (entry_map_size s) s.regions) (
      subst (λ z. memmap_taken s before z (carve z s.regions) ≡ some (a, bytes, u))
        (align_up_twice (u64 (4 * s.num_pages_in_map)) (omega (arith, small))) e)

-- The bytes of as many whole pages as the bitmap is given: those of one flag for each page of the map,
-- rounded down to a byte and then up to pages of 4096.
abbrev pub bitmap_bytes : ℕ → ℕ
bitmap_bytes pages = (pages / 8 + 4095) / 4096 * 4096

bitmap_size_lem : (pages : ℕ) → pages < 2 ^ 52 → align_up (pages / 8) ≡ bitmap_bytes pages
unfolding align_up
bitmap_size_lem pages small = omega (arith, small)

bitmap_byte :
    (before : Ram) (pages i : ℕ)
    → i < pages
    → memset before 0 0xff (bitmap_bytes pages) (i / 8) ≡ (
        if (pages % 32768 == 0) || leb 8 (pages % 32768) || ltb i (pages / 32768 * 32768)
        then 0xff
        else before (i / 8))
bitmap_byte before pages i inside_map =
    memset_lem before 0 0xff (bitmap_bytes pages) (i / 8) ∙ ground (arith, inside_map)

create_page_bitmap_made :
    (s : Map) (before : Ram) (a : ℕ) (rs : List Region)
    → carve (align_up (s.num_pages_in_map / 8)) s.regions ≡ some (a, rs)
    → (create_page_bitmap s before).page_bitmap
      ≡ memset before 0 0xff (align_up (s.num_pages_in_map / 8))
unfolding create_page_bitmap
create_page_bitmap_made s before a rs e = rw (create_page_bitmap, e) refl

-- If the map has fewer than 2^52 pages and a usable region has room for the bitmap, _create_page_bitmap
-- sets the flag of every page of the map, unless the number of pages is 1 to 7 more than a multiple of
-- 32768: then the last 1 to 7 have no byte in the bitmap, whose size is rounded down to bytes before it
-- is rounded up to pages, and the byte behind its end is left as it was.
pub create_page_bitmap-flags :
    (s : Map) (before : Ram) (a i : ℕ) (rs : List Region)
    → s.num_pages_in_map < 2 ^ 52
    → carve (bitmap_bytes s.num_pages_in_map) s.regions ≡ some (a, rs)
    → i < s.num_pages_in_map
    → (create_page_bitmap s before).page_bitmap (i / 8) ≡ (
        if (s.num_pages_in_map % 32768 == 0)
          || leb 8 (s.num_pages_in_map % 32768)
          || ltb i (s.num_pages_in_map / 32768 * 32768)
        then 0xff
        else before (i / 8))
create_page_bitmap-flags s before a i rs small room inside_map =
    let size = bitmap_size_lem s.num_pages_in_map small in
    let made = create_page_bitmap_made s before a rs (ap (λ n. carve n s.regions) size ∙ room) in
    ap (λ (m : Ram). m (i / 8)) (made ∙ ap (memset before 0 0xff) size)
    ∙ bitmap_byte before s.num_pages_in_map i inside_map
