-- ===== src/Pmm.antt =====
-- The physical memory manager of src/mem.c: page allocation. The flags and the entries are arrays
-- of their own here, indexed from `page_bitmap` and `entry_map`.
pub mod Search
pub mod Flags
pub mod Alloc
pub mod Free
mod Tests
use bloreos.Base.{
  ℕ, zero, suc, ◌+◌, ◌-◌, ◌*◌, ◌/◌, ◌%◌, ◌^◌, Bool, true, false, not, Option, none, some, ◌==◌, leb,
  if◌then◌else◌, Ram, update, u32, u64,
}
use bloreos.Atomic.{Outcome, returns, spins, halts, spinlock_lock, spinlock_unlock}
use bloreos.Bitmap.{bitmap_test, bitmap_on, bitmap_off}

-- PAGE_SIZE
abbrev pub page_size : ℕ
page_size = 4096

-- The variables that kalloc and kfree work on.
pub record Pmm : Type 0 where
  pub lock : ℕ
  pub max_pages_available : ℕ
  pub lowest_address : ℕ
  pub page_bitmap : Ram
  pub vmm_higher_half_offset : ℕ
  pub allocation_cursor : ℕ
  pub num_pages_available : ℕ
  pub entry_map : Ram

unfoldable pub get_addr_from_page : Pmm → ℕ → ℕ
get_addr_from_page p page = u64 (p.lowest_address + page * page_size + p.vmm_higher_half_offset)

unfoldable pub get_page_from_addr : Pmm → ℕ → ℕ
get_page_from_addr p addr =
    u64 (addr + 2 ^ 64 - p.lowest_address + 2 ^ 64 - p.vmm_higher_half_offset) / page_size

-- for (i = start; i < start + pages; i++) bitmap_on(page_bitmap, i)
unfoldable pub reserve_pages : Ram → ℕ → ℕ → Ram
reserve_pages m start zero = m
reserve_pages m start (suc pages) = reserve_pages (bitmap_on m start) (start + 1) pages

-- for (i = start; i < start + pages; i++) bitmap_off(page_bitmap, i)
unfoldable pub release_pages : Ram → ℕ → ℕ → Ram
release_pages m start zero = m
release_pages m start (suc pages) = release_pages (bitmap_off m start) (start + 1) pages

-- The local variables of kalloc's loop, and the cursor.
pub record Scan : Type 0 where
  pub cursor : ℕ
  pub start_alloc_page : ℕ
  pub allocated_pages : ℕ
  pub looped : Bool
  pub allocating : Bool

-- The first half of the loop's body: what page_state does to the run being collected.
unfoldable pub collect : Bool → Scan → Scan
collect page_state s =
    if not s.allocating
    then (if not page_state
        then record s { start_alloc_page = s.cursor; allocating = true; allocated_pages = 1 }
        else s)
    else (if page_state
        then record s { allocating = false }
        else record s { allocated_pages = u64 (s.allocated_pages + 1) })

-- How the loop ends: a run, with its first page; the `break`; or not within the fuel.
pub data Found : Type 0 where
  run : Scan → Found
  no_run : Scan → Found
  unfinished : Found

-- allocation_cursor++, going round at the number of pages
abbrev pub advance : ℕ → ℕ → ℕ
advance max c = if u64 (c + 1) == max then 0 else u64 (c + 1)

-- The second half of the loop's body; `next` is the rest of the loop.
unfoldable pub forward : ℕ → ℕ → (Scan → Found) → Scan → Found
forward max pages next t =
    let c = advance max t.cursor in
    let on = next (record t { cursor = c }) in
    let again = next (record t { cursor = c; looped = true; allocating = false }) in
    if t.allocated_pages == pages
    then run (record t { cursor = c })
    else if u64 (t.cursor + 1) == max
    then (if t.looped then no_run (record t { cursor = c }) else again)
    else on

-- `while (true)` of kalloc, over the flags, the number of pages and the number wanted.
unfoldable pub find_run : Ram → ℕ → ℕ → ℕ → Scan → Found
unfolding collect forward
find_run m max pages zero s = unfinished
find_run m max pages (suc fuel) s =
    forward max pages (find_run m max pages fuel) (collect (bitmap_test m s.cursor) s)

-- Two rounds through the pages are the most that the loop makes.
abbrev pub enough : ℕ → ℕ
enough max = 2 * max + 1

abbrev pub first_scan : ℕ → Scan
first_scan cursor = record {
  cursor = cursor;
  start_alloc_page = 0;
  allocated_pages = 0;
  looped = false;
  allocating = false;
}

-- DIV_ROUNDUP(numBytes, PAGE_SIZE)
abbrev pub pages_for : ℕ → ℕ
pages_for numBytes = u64 (numBytes + page_size + 2 ^ 64 - 1) / page_size

-- What kalloc does with the outcome of its loop; `none` is NULL.
abbrev pub kalloc_end : Pmm → Found → Outcome Pmm (Option ℕ)
kalloc_end p (run t) =
    returns
      (record p {
        lock = spinlock_unlock p.lock;
        page_bitmap = reserve_pages p.page_bitmap t.start_alloc_page t.allocated_pages;
        allocation_cursor = t.cursor;
        num_pages_available = u64 (p.num_pages_available + 2 ^ 64 - t.allocated_pages);
        entry_map = update p.entry_map t.start_alloc_page (u32 t.allocated_pages);
      })
      (some (get_addr_from_page p t.start_alloc_page))
kalloc_end p (no_run t) =
    returns (record p { lock = spinlock_unlock p.lock; allocation_cursor = t.cursor }) none
kalloc_end p unfinished = spins

unfoldable pub kalloc : Pmm → ℕ → Outcome Pmm (Option ℕ)
unfolding spinlock_lock spinlock_unlock
kalloc p numBytes = elim (spinlock_lock p.lock) [
  | none ↦ spins
  | some held ↦
      let max = p.max_pages_available in
      kalloc_end (record p { lock = held })
        (find_run p.page_bitmap max (pages_for numBytes) (enough max)
          (first_scan p.allocation_cursor))
]

unfoldable pub kpalloc : Pmm → ℕ → Outcome Pmm (Option ℕ)
kpalloc p numPages = kalloc p (u64 (page_size * numPages))

unfoldable pub kfree : Pmm → ℕ → Outcome Pmm (Option ℕ)
unfolding spinlock_lock spinlock_unlock
kfree p ptr = elim (spinlock_lock p.lock) [
  | none ↦ spins
  | some held ↦
      let page_index = get_page_from_addr p ptr in
      if leb p.max_pages_available page_index
      then halts (record p { lock = held })
      else returns
          (record p {
            lock = spinlock_unlock held;
            page_bitmap = release_pages p.page_bitmap page_index (p.entry_map page_index);
            entry_map = update p.entry_map page_index 0;
          })
          none
]
