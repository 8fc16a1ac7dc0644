-- ===== src/Bump.antt =====
-- src/alloc/bump.c, the other allocator (src/include/alloc.h selects the SLOB): pages are taken
-- from kpalloc and handed out from front to back.
pub mod Overrun
mod Tests
use bloreos.Base.{
  ℕ, ◌+◌, ◌-◌, ◌*◌, ◌/◌, ◌^◌, Bool, true, false, Option, none, some, ltb, ◌==◌, if◌then◌else◌, u16,
  u64,
}
use bloreos.Atomic.{Outcome, returns, spins, halts, faults, and_then}
use bloreos.Pmm.{Pmm, page_size, pages_for, kpalloc}

-- `_cursor` and `_offset`, beside the page allocator.
pub record Bump : Type 0 where
  pub cursor : ℕ
  pub offset : ℕ
  pub pmm : Pmm

-- A pointer is a number, NULL is 0.
abbrev pub pointer : Option ℕ → ℕ
pointer none = 0
pointer (some a) = a

unfoldable pub kpalloc_here : Bump → ℕ → Outcome Bump ℕ
kpalloc_here b pages = elim (kpalloc b.pmm pages) [
  | returns p a ↦ returns (record b { pmm = p }) (pointer a)
  | spins ↦ spins
  | halts p ↦ halts (record b { pmm = p })
  | faults ↦ faults
]

-- `_cursor = kpalloc(1); _offset = 0;`
unfoldable pub new_page : Bump → Outcome Bump ℕ
unfolding kpalloc_here and_then
new_page b = and_then (kpalloc_here b 1) (λ b' a. returns (record b' { cursor = a; offset = 0 }) a)

-- The two tests that may ask for a new page.
unfoldable pub ensure_cursor : Bump → Outcome Bump ℕ
unfolding new_page
ensure_cursor b = if b.cursor == 0 then new_page b else returns b b.cursor

unfoldable pub ensure_room : ℕ → Bump → Outcome Bump ℕ
unfolding new_page
ensure_room size b =
    if ltb (u64 (page_size + 2 ^ 64 - b.offset)) size then new_page b else returns b b.cursor

unfoldable pub reserve : ℕ → Bump → Outcome Bump ℕ
reserve size b =
    returns (record b { cursor = u64 (b.cursor + size); offset = u16 (b.offset + size) }) b.cursor

unfoldable pub bump_malloc : Bump → ℕ → Outcome Bump ℕ
unfolding kpalloc_here ensure_cursor ensure_room reserve and_then
bump_malloc b size =
    let numPages = pages_for size in
    if ltb 1 numPages
    then and_then (kpalloc_here b numPages) (λ b' start.
      returns
        (record b' {
          offset = u16 (numPages * page_size + 2 ^ 64 - size);
          cursor = u64 (start + size);
        })
        start)
    else and_then (ensure_cursor b)
        (λ b1 _. and_then (ensure_room size b1) (λ b2 _. reserve size b2))

-- No frees.
unfoldable pub bump_free : Bump → ℕ → Bump
bump_free b ptr = b
