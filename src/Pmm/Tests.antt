-- ===== src/Pmm/Tests.antt =====
-- The page allocator on a machine with eight pages, of which the first is taken.
use bloreos.Base.{
  ℕ, ◌+◌, ◌-◌, ◌/◌, ◌^◌, ◌≡◌, refl, Option, some, none, ◌==◌, if◌then◌else◌, Ram, arith, u64,
}
use bloreos.Atomic.{Outcome, returns, spins, halts, faults, spinlock_lock, spinlock_unlock}
use bloreos.Bitmap.{bitmap_test, test_byte}
use bloreos.Bitmap.Laws.{IsBytes}
use bloreos.Pmm.{Pmm, kalloc, kfree, find_run, collect, forward, get_addr_from_page, reserve_pages}
use bloreos.Pmm.Alloc.{IsValid, Kalloced, reserved, kalloc-Kalloced}
use bloreos.Pmm.Free.{kfree-kalloc}

abbrev first_taken : Ram
first_taken a = if a == 0 then 1 else 0

abbrev eight_pages : Pmm
eight_pages = record {
  lock = 0;
  max_pages_available = 8;
  lowest_address = 0x100000;
  page_bitmap = first_taken;
  vmm_higher_half_offset = 0;
  allocation_cursor = 0;
  num_pages_available = 7;
  entry_map = λ i. 0;
}

first_taken-IsBytes : IsBytes first_taken
first_taken-IsBytes a = ground arith

eight_pages-IsValid : IsValid eight_pages
eight_pages-IsValid = record {
  unlocked = refl;
  cursor_in = omega arith;
  small = omega arith;
  bytes = first_taken-IsBytes;
  low_word = omega arith;
  offset_word = omega arith;
}

kalloc-Kalloced_example : Kalloced eight_pages ((5000 + 4095) / 4096) (kalloc eight_pages 5000)
kalloc-Kalloced_example =
    kalloc-Kalloced eight_pages 5000 eight_pages-IsValid (omega arith) (omega arith)

abbrev state_of : Outcome Pmm (Option ℕ) → Pmm
state_of (returns p a) = p
state_of spins = eight_pages
state_of (halts p) = p
state_of faults = eight_pages

-- The manager after two pages were given.
abbrev two_given : Pmm
two_given = state_of (kalloc eight_pages 5000)

gives_two : kalloc eight_pages 5000 ≡ returns two_given (some 0x101000)
unfolding kalloc find_run collect forward get_addr_from_page bitmap_test test_byte spinlock_lock
    spinlock_unlock reserve_pages
gives_two = refl

kfree-kalloc_example :
    (p'' : Pmm) × (kfree two_given 0x101000 ≡ returns p'' none)
    × IsValid p''
    × ((i : ℕ) → reserved p'' i ≡ reserved eight_pages i)
    × (p''.num_pages_available
        ≡ u64 (eight_pages.num_pages_available + 2 ^ 64 - (5000 + 4095) / 4096))
kfree-kalloc_example =
    kfree-kalloc eight_pages two_given 5000 0x101000 eight_pages-IsValid (omega arith) (omega arith)
      gives_two
