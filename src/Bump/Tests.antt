-- ===== src/Bump/Tests.antt =====
-- A request of 7096 bytes, and then one of 2000 bytes, of eight free pages.
use bloreos.Base.{ℕ, ◌+◌, ◌<◌, ◌≡◌, refl, arith}
use bloreos.Atomic.{
  Outcome, returns, spins, halts, faults, and_then, spinlock_lock, spinlock_unlock,
}
use bloreos.Bitmap.{bitmap_test, test_byte}
use bloreos.Pmm.{kalloc, kpalloc, find_run, collect, forward, get_addr_from_page, reserve_pages}
use bloreos.Bump.{Bump, kpalloc_here, bump_malloc}
use bloreos.Bump.Overrun.{paged, bump_malloc_overruns}

abbrev fresh : Bump
fresh = record {
  cursor = 0;
  offset = 0;
  pmm = record {
    lock = 0;
    max_pages_available = 8;
    lowest_address = 0x100000;
    page_bitmap = λ a. 0;
    vmm_higher_half_offset = 0;
    allocation_cursor = 0;
    num_pages_available = 8;
    entry_map = λ i. 0;
  };
}

abbrev state_of : Outcome Bump ℕ → Bump
state_of (returns b a) = b
state_of spins = fresh
state_of (halts b) = b
state_of faults = fresh

abbrev after_first : Bump
after_first = state_of (bump_malloc fresh 7096)

first_served : bump_malloc fresh 7096 ≡ returns after_first 0x100000
unfolding bump_malloc kpalloc_here and_then kpalloc kalloc find_run collect forward
    get_addr_from_page bitmap_test test_byte spinlock_lock spinlock_unlock reserve_pages
first_served = refl

second_request :
    (b'' : Bump) × (bump_malloc after_first 2000 ≡ returns b'' (0x100000 + 7096))
    × (0x100000 + paged 7096 < 0x100000 + 7096 + 2000)
second_request =
    bump_malloc_overruns fresh after_first 7096 2000 0x100000 (omega arith) (omega arith)
      (omega arith) first_served (omega arith) (omega arith)
