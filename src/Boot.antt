-- ===== src/Boot.antt =====
-- Start of the physical memory manager, src/mem.c: the statistics of the memory map, the space
-- taken from it for the flags and the entries, and the pages that are marked free. The map is
-- the bootloader's list of regions, which this code shrinks in place.
pub mod Regions
pub mod Free
pub mod EntryMap
pub mod Dump
mod Tests
use bloreos.Base.{
  ℕ, zero, suc, ◌+◌, ◌-◌, ◌*◌, ◌/◌, ◌^◌, Bool, true, false, ◌&&◌, Option, none, some, List, [], ◌∷◌,
  ltb, leb, ◌==◌, if◌then◌else◌, Ram, u64,
}
use bloreos.MemOps.{memset}
use bloreos.Bitmap.{bitmap_off}
use bloreos.Pmm.{page_size, release_pages}

-- `struct limine_memmap_entry`, its `type` as `kind`
pub record Region : Type 0 where
  pub base : ℕ
  pub length : ℕ
  pub kind : ℕ

-- LIMINE_MEMMAP_USABLE
abbrev pub usable : ℕ
usable = 0

-- The variables of mem.c while the manager starts.
pub record Map : Type 0 where
  pub regions : List Region
  pub max_pages_available : ℕ
  pub total_memory_bytes : ℕ
  pub highest_address : ℕ
  pub lowest_address : ℕ
  pub num_pages_in_map : ℕ
  pub num_pages_available : ℕ
  pub vmm_higher_half_offset : ℕ
  pub page_bitmap : Ram
  pub entry_map : Ram

-- ALIGN_UP(val, PAGE_SIZE)
unfoldable pub align_up : ℕ → ℕ
align_up val = u64 (u64 (val + page_size + 2 ^ 64 - 1) / page_size * page_size)

-- One turn of the loop of `_init_stats`.
unfoldable pub stats_region : Map → Region → Map
stats_region s r =
    if r.kind == usable
    then record s {
      total_memory_bytes = u64 (s.total_memory_bytes + r.length);
      max_pages_available = u64 (s.max_pages_available + r.length / page_size);
      highest_address =
          (let top = u64 (r.base + r.length) in
            if ltb top s.highest_address then s.highest_address else top);
      lowest_address =
          (if s.lowest_address == 0
            then r.base
            else (if ltb s.lowest_address r.base then s.lowest_address else r.base));
    }
    else s

unfoldable pub stats_regions : List Region → Map → Map
unfolding stats_region
stats_regions [] s = s
stats_regions (r ∷ rs) s = stats_regions rs (stats_region s r)

-- `_init_stats`; the bootloader's answers are the regions and the offset.
unfoldable pub init_stats : List Region → ℕ → Map → Map
unfolding stats_regions
init_stats regions offset s =
    let t =
      stats_regions regions (record s { regions = regions; vmm_higher_half_offset = offset }) in
    record t { num_pages_in_map = u64 (t.highest_address + 2 ^ 64 - t.lowest_address) / page_size }

-- The loop that `memmap_alloc`, `_create_page_bitmap` and `_create_entry_map` share: the first
-- usable region of at least `size` bytes gives up its first `size` bytes. The result is their
-- address and the regions left.
unfoldable pub keep : Region → Option (ℕ × List Region) → Option (ℕ × List Region)
keep r none = none
keep r (some (a, rs)) = some (a, r ∷ rs)

-- The two tests of the loop.
abbrev pub fits : ℕ → Region → Bool
fits size r = r.kind == usable && leb size r.length

unfoldable pub carve : ℕ → List Region → Option (ℕ × List Region)
unfolding keep
carve size [] = none
carve size (r ∷ rs) =
    if fits size r
    then some (r.base, record r { length = r.length - size; base = u64 (r.base + size) } ∷ rs)
    else keep r (carve size rs)

unfoldable pub memmap_taken : Map → Ram → ℕ → Option (ℕ × List Region) → Option (ℕ × Ram × Map)
memmap_taken s before size none = none
memmap_taken s before size (some (a, rs)) = some (
  u64 (a + s.vmm_higher_half_offset),
  memset before 0 0 size,
  record s {
    regions = rs;
    max_pages_available = u64 (s.max_pages_available + 2 ^ 64 - size / page_size);
  },
)

-- `memmap_alloc`: the address handed out, the zeroed bytes there (`before` is what they were), and
-- the map. `none`: the CPU is stopped.
unfoldable pub memmap_alloc : Map → Ram → ℕ → Option (ℕ × Ram × Map)
unfolding carve memmap_taken
memmap_alloc s before length =
    let size = align_up length in memmap_taken s before size (carve size s.regions)

-- `_create_page_bitmap`: every flag of its bytes is set. Where no region is large enough the
-- pointer stays as it was.
unfoldable pub create_page_bitmap : Map → Ram → Map
unfolding carve
create_page_bitmap s before =
    let size = align_up (s.num_pages_in_map / 8) in
    elim (carve size s.regions) [
      | none ↦ s
      | some (a, rs) ↦ record s {
        page_bitmap = memset before 0 0xff size;
        regions = rs;
        max_pages_available = u64 (s.max_pages_available + 2 ^ 64 - size / page_size);
      }
    ]

-- The i-th uint32_t of an array of bytes.
unfoldable pub word32 : Ram → ℕ → ℕ
word32 m i = m (4 * i) + 2 ^ 8 * m (4 * i + 1) + 2 ^ 16 * m (4 * i + 2) + 2 ^ 24 * m (4 * i + 3)

-- One turn of the loop of `_get_free_pages`.
unfoldable pub free_region : Map → Region → Map
free_region s r =
    if r.kind == usable
    then (let start_bit = u64 (r.base + 2 ^ 64 - s.lowest_address) / page_size in
        let pages_free = r.length / page_size in
        record s {
          page_bitmap = release_pages s.page_bitmap start_bit pages_free;
          num_pages_available = u64 (s.num_pages_available + pages_free);
        })
    else s

-- `_get_free_pages`
unfoldable pub get_free_pages : List Region → Map → Map
unfolding free_region
get_free_pages [] s = s
get_free_pages (r ∷ rs) s = get_free_pages rs (free_region s r)

-- `kmem_init`; `none`: the CPU is stopped.
unfoldable pub kmem_init : List Region → ℕ → Ram → Ram → Map → Option Map
unfolding init_stats create_page_bitmap memmap_alloc get_free_pages
kmem_init regions offset bits_before entries_before s =
    let t = create_page_bitmap (init_stats regions offset s) bits_before in
    elim (memmap_alloc t entries_before (align_up (u64 (4 * t.num_pages_in_map)))) [
      | none ↦ none
      | some (a, bytes, u) ↦ some (get_free_pages u.regions (record u { entry_map = word32 bytes }))
    ]
