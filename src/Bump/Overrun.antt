-- ===== src/Bump/Overrun.antt =====
-- After a request of several pages the allocator believes that the last page has as many bytes left
-- as it has used, and used as many as it has left.
use bloreos.Base.{ℕ, ◌+◌, ◌-◌, ◌*◌, ◌/◌, ◌≤◌, ◌<◌, ◌^◌, ◌≡◌, ◌≢◌, arith, u16, u64}
use bloreos.Atomic.{returns, and_then}
use bloreos.Bump.{Bump, ensure_cursor, ensure_room, reserve, bump_malloc}

-- The pages that a request of n bytes takes, in bytes.
abbrev pub paged : ℕ → ℕ
paged n = (n + 4095) / 4096 * 4096

after_pages :
    (b b' : Bump) (n start : ℕ)
    → 4096 < n
    → n < 2 ^ 43
    → bump_malloc b n ≡ returns b' start
    → (b'.cursor ≡ u64 (start + n)) × (b'.offset ≡ paged n - n)
unfolding bump_malloc and_then
after_pages b b' n start big small e = ground arith

within :
    (b : Bump) (r c : ℕ)
    → b.cursor ≡ c
    → c ≢ 0
    → b.offset < 4096
    → 0 < r
    → r + b.offset ≤ 4096
    → (b' : Bump) × (bump_malloc b r ≡ returns b' c)
unfolding bump_malloc ensure_cursor ensure_room reserve and_then
within b r c e n o pos room =
    (record b { cursor = u64 (b.cursor + r); offset = u16 (b.offset + r) }, ground arith)

-- After a request of n bytes in several pages, a request of r bytes is served from the last of those
-- pages whenever r is at most the bytes used in it, also where r is more than the bytes left in it.
-- The memory handed out then ends past the end of the pages that were allocated.
pub bump_malloc_overruns :
    (b b' : Bump) (n r start : ℕ)
    → 4096 < n
    → n < 2 ^ 43
    → start + paged n < 2 ^ 64
    → bump_malloc b n ≡ returns b' start
    → paged n - n < r
    → r + (paged n - n) ≤ 4096
    → (b'' : Bump) × (bump_malloc b' r ≡ returns b'' (start + n))
      × (start + paged n < start + n + r)
bump_malloc_overruns b b' n r start big small fits e more room =
    let (c, o) = after_pages b b' n start big small e in
    let (b'', served) =
      within b' r (start + n) (omega arith) (omega arith) (omega arith) (omega arith)
        (omega arith) in
    (b'', served, omega arith)
