-- ===== src/Pmm/Free.antt =====
-- kfree of src/mem.c, after a kalloc.
use bloreos.Base.{ℕ, ◌+◌, ◌-◌, ◌/◌, ◌<◌, ◌^◌, ◌≡◌, refl, none, some, arith, update, u64}
use bloreos.Atomic.{returns}
use bloreos.Pmm.{Pmm, kalloc, kfree, get_addr_from_page, get_page_from_addr, release_pages}
use bloreos.Pmm.Flags.{release_pages_lem, release_pages-IsBytes}
use bloreos.Pmm.Alloc.{IsValid, reserved, Granted, kalloc-Kalloced}

get_page-get_addr :
    (p p' : Pmm) (start : ℕ)
    → start < 2 ^ 32
    → p.lowest_address < 2 ^ 64
    → p.vmm_higher_half_offset < 2 ^ 64
    → p'.lowest_address ≡ p.lowest_address
    → p'.vmm_higher_half_offset ≡ p.vmm_higher_half_offset
    → get_page_from_addr p' (get_addr_from_page p start) ≡ start
unfolding get_page_from_addr get_addr_from_page
get_page-get_addr p p' start s l o el eo = omega arith

kfree_open :
    (p : Pmm) (addr start : ℕ)
    → p.lock ≡ 0
    → get_page_from_addr p addr ≡ start
    → start < p.max_pages_available
    → kfree p addr
      ≡ returns
          (record p {
            lock = 0;
            page_bitmap = release_pages p.page_bitmap start (p.entry_map start);
            entry_map = update p.entry_map start 0;
          })
          none
unfolding kfree
kfree_open p addr start l e h = ground arith

kfree-Granted :
    (p p' : Pmm) (pages addr : ℕ)
    → IsValid p
    → 0 < pages
    → Granted p pages p' addr
    → (p'' : Pmm) × (kfree p' addr ≡ returns p'' none)
      × IsValid p''
      × ((i : ℕ) → reserved p'' i ≡ reserved p i)
      × (p''.num_pages_available ≡ u64 (p.num_pages_available + 2 ^ 64 - pages))
kfree-Granted p p' pages addr v pos g =
    let known : p'.entry_map g.start ≡ pages = ground (arith, g.entries g.start) in
    let page : get_page_from_addr p' addr ≡ g.start = rw g.addressed (
      get_page-get_addr p p' g.start (ground (arith, g.inside)) v.low_word v.offset_word g.same_low
        g.same_offset) in
    (
      record p' {
        lock = 0;
        page_bitmap = release_pages p'.page_bitmap g.start (p'.entry_map g.start);
        entry_map = update p'.entry_map g.start 0;
      },
      kfree_open p' addr g.start g.valid.unlocked page (omega (arith, g.inside, g.same_max)),
      record {
        unlocked = refl;
        cursor_in = g.valid.cursor_in;
        small = g.valid.small;
        bytes = release_pages-IsBytes (p'.entry_map g.start) p'.page_bitmap g.start g.valid.bytes;
        low_word = g.valid.low_word;
        offset_word = g.valid.offset_word;
      },
      λ i. ground (
        arith,
        known,
        release_pages_lem (p'.entry_map g.start) p'.page_bitmap g.start i g.valid.bytes,
        g.flags i,
        g.was_free i,
      ),
      g.available,
    )

-- kfree of the address that kalloc returned makes every page as free or reserved as it was before
-- the kalloc. The count num_pages_available does not come back: it stays lower by the pages of the
-- allocation.
pub kfree-kalloc :
    (p p' : Pmm) (n addr : ℕ)
    → IsValid p
    → 0 < n
    → n < 2 ^ 43
    → kalloc p n ≡ returns p' (some addr)
    → (p'' : Pmm) × (kfree p' addr ≡ returns p'' none)
      × IsValid p''
      × ((i : ℕ) → reserved p'' i ≡ reserved p i)
      × (p''.num_pages_available ≡ u64 (p.num_pages_available + 2 ^ 64 - (n + 4095) / 4096))
kfree-kalloc p p' n addr v pos small e =
    kfree-Granted p p' ((n + 4095) / 4096) addr v (omega arith)
      (rw e at (kalloc-Kalloced p n v pos small))
