-- ===== src/Pmm/Alloc.antt =====
-- kalloc of src/mem.c as an operation on the set of reserved pages.
use bloreos.Base.{
  ℕ, ◌+◌, ◌-◌, ◌/◌, ◌≤◌, ◌<◌, ◌^◌, ◌≡◌, refl, Bool, true, false, Option, none, some, arith, ◌==◌,
  if◌then◌else◌, u64,
}
use bloreos.Atomic.{Outcome, returns, spins, halts, faults, spinlock_unlock}
use bloreos.Bitmap.{bitmap_test}
use bloreos.Bitmap.Laws.{IsBytes}
use bloreos.Pmm.{
  Pmm, Found, run, no_run, unfinished, find_run, first_scan, pages_for, enough, kalloc_end, kalloc,
  get_addr_from_page,
}
use bloreos.Pmm.Search.{
  IsFree, Looping, find_run-Sound, find_run-NotMissed, rounds_left, Sound, NotMissed,
}
use bloreos.Pmm.Flags.{among, reserve_pages_lem, reserve_pages-IsBytes}

pub record IsValid (p : Pmm) : Type 0 where
  pub unlocked : p.lock ≡ 0
  pub cursor_in : p.allocation_cursor < p.max_pages_available
  pub small : p.max_pages_available < 2 ^ 32
  pub bytes : IsBytes p.page_bitmap
  pub low_word : p.lowest_address < 2 ^ 64
  pub offset_word : p.vmm_higher_half_offset < 2 ^ 64

abbrev pub reserved : Pmm → ℕ → Bool
reserved p i = bitmap_test p.page_bitmap i

-- kalloc gave the run of `pages` pages from `start`.
pub record Granted (p : Pmm) (pages : ℕ) (p' : Pmm) (addr : ℕ) : Type 0 where
  pub start : ℕ
  pub addressed : addr ≡ get_addr_from_page p start
  pub inside : start + pages ≤ p.max_pages_available
  pub was_free : (i : ℕ) → start ≤ i → i < start + pages → reserved p i ≡ false
  pub flags : (i : ℕ) → reserved p' i ≡ (if among start pages i then true else reserved p i)
  pub entries : (i : ℕ) → p'.entry_map i ≡ (if i == start then pages else p.entry_map i)
  pub available : p'.num_pages_available ≡ u64 (p.num_pages_available + 2 ^ 64 - pages)
  pub valid : IsValid p'
  pub same_max : p'.max_pages_available ≡ p.max_pages_available
  pub same_low : p'.lowest_address ≡ p.lowest_address
  pub same_offset : p'.vmm_higher_half_offset ≡ p.vmm_higher_half_offset

-- kalloc gave NULL: nothing changed but the cursor, and no run of that many free pages was there.
pub record Refused (p : Pmm) (pages : ℕ) (p' : Pmm) : Type 0 where
  pub same_flags : (i : ℕ) → reserved p' i ≡ reserved p i
  pub same_entries : (i : ℕ) → p'.entry_map i ≡ p.entry_map i
  pub same_available : p'.num_pages_available ≡ p.num_pages_available
  pub none_there :
      (a : ℕ) → a + pages ≤ p.max_pages_available → ¬ IsFree p.page_bitmap a (a + pages)
  pub valid : IsValid p'

abbrev pub Kalloced : Pmm → ℕ → Outcome Pmm (Option ℕ) → Type 0
Kalloced p pages (returns p' (some addr)) = Granted p pages p' addr
Kalloced p pages (returns p' none) = Refused p pages p'
Kalloced p pages spins = ⊥
Kalloced p pages (halts p') = ⊥
Kalloced p pages faults = ⊥

module _ (p : Pmm) (v : IsValid p) (pages : ℕ) (few : pages < 2 ^ 32) where
  kalloc_end-Kalloced :
      (held : ℕ) (f : Found)
      → Sound p.page_bitmap p.max_pages_available pages f
      → ((a : ℕ)
          → a + pages ≤ p.max_pages_available
          → IsFree p.page_bitmap a (a + pages)
          → NotMissed f)
      → Kalloced p pages (kalloc_end (record p { lock = held }) f)
  unfolding spinlock_unlock get_addr_from_page
  kalloc_end-Kalloced held (run t) s c = record {
    start = t.start_alloc_page;
    addressed = refl;
    inside = s.inside;
    was_free = s.all_free;
    flags = λ i. ground (
      arith,
      s.count,
      reserve_pages_lem t.allocated_pages p.page_bitmap t.start_alloc_page i v.bytes,
    );
    entries = λ i. ground (arith, s.count);
    available = ground (arith, s.count);
    valid = record {
      unlocked = refl;
      cursor_in = s.next_in;
      small = v.small;
      bytes = reserve_pages-IsBytes t.allocated_pages p.page_bitmap t.start_alloc_page v.bytes;
      low_word = v.low_word;
      offset_word = v.offset_word;
    };
    same_max = refl;
    same_low = refl;
    same_offset = refl;
  }
  kalloc_end-Kalloced held (no_run t) s c = record {
    same_flags = λ i. refl;
    same_entries = λ i. refl;
    same_available = refl;
    none_there = c;
    valid = record {
      unlocked = refl;
      cursor_in = s;
      small = v.small;
      bytes = v.bytes;
      low_word = v.low_word;
      offset_word = v.offset_word;
    };
  }
  kalloc_end-Kalloced held unfinished s c = s

kalloc_open :
    (p : Pmm) (n : ℕ)
    → p.lock ≡ 0
    → kalloc p n
      ≡ kalloc_end
          (record p { lock = 1 })
          (find_run p.page_bitmap p.max_pages_available
            (pages_for n)
            (enough p.max_pages_available)
            (first_scan p.allocation_cursor))
unfolding kalloc
kalloc_open p n e = ground arith

pages_for_lem : (n : ℕ) → n < 2 ^ 43 → pages_for n ≡ (n + 4095) / 4096
pages_for_lem n h = omega arith

first_scan-Looping :
    (p : Pmm) (pages : ℕ)
    → IsValid p
    → 0 < pages
    → Looping p.page_bitmap p.max_pages_available pages (first_scan p.allocation_cursor)
first_scan-Looping p pages v pos = record {
  cursor_in = v.cursor_in;
  short = pos;
  contiguous = λ a. cc;
  free = λ a. cc;
}

-- kalloc of at least one byte and fewer than 2^43, asked of a well-formed manager, always returns. If
-- it returns an address, that is the address of the first of the fewest pages that hold the bytes;
-- these pages were all free and lie among the first max_pages_available pages, which is the number of
-- usable pages and not the number of pages that the map has; they alone are newly reserved, the entry
-- of the first one records their number, and the manager stays well formed. If it returns NULL,
-- nothing is reserved and there is no run of that many free pages among the first
-- max_pages_available; pages behind those are never looked at, free or not.
pub kalloc-Kalloced :
    (p : Pmm) (n : ℕ) → IsValid p → 0 < n → n < 2 ^ 43 → Kalloced p ((n + 4095) / 4096) (kalloc p n)
kalloc-Kalloced p n v pos small =
    let pages = (n + 4095) / 4096 in
    let l = first_scan-Looping p pages v (omega arith) in
    let max_word : p.max_pages_available < 2 ^ 64 = omega arith in
    let less : pages < 2 ^ 64 = omega arith in
    let fuel : rounds_left p.max_pages_available (first_scan p.allocation_cursor)
        < enough p.max_pages_available =
      omega arith in
    rw (kalloc_open p n v.unlocked, pages_for_lem n small)
      (kalloc_end-Kalloced p v pages (omega arith) 1 _
        (find_run-Sound p.page_bitmap p.max_pages_available pages max_word (omega arith) less
          (enough p.max_pages_available) (first_scan p.allocation_cursor) fuel l)
        (λ a room free.
          find_run-NotMissed p.page_bitmap p.max_pages_available pages max_word (omega arith) less a
            room free (enough p.max_pages_available) (first_scan p.allocation_cursor) fuel l
            (λ o. cc)))
