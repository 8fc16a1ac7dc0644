-- ===== src/Slob/Laws.antt =====
-- slob_malloc and slob_free, as operations on the bytes that the free list holds.
use bloreos.Base.{
  ℕ, ◌+◌, ◌-◌, ◌≤◌, ◌<◌, ◌^◌, ◌≡◌, refl, ap, ◌∙◌, ◌≢◌, true, false, Option, none, some, List, ◌∷◌,
  arith, if◌then◌else◌, Ram, update, update_ne, u64,
}
use bloreos.Atomic.{Outcome, returns, spins, halts, faults}
use bloreos.Boot.{Map}
use bloreos.Boot.Regions.{inside}
use bloreos.Slob.{
  SlobEntry, Slob, header_size, entry_size, take_entry, hand_out, slob_search, slob_malloc,
  give_back, slob_free,
}
use bloreos.Slob.Held.{times_held, EntriesEnd, has_entry, Taken, take_entry-Taken}

pub record IsValid (s : Slob) : Type 0 where
  pub started : s.init ≡ 1
  pub ends : EntriesEnd s.entries
  pub once : (x : ℕ) → times_held s.entries x ≤ 1
  pub offset_word : s.memory.vmm_higher_half_offset < 2 ^ 64

-- slob_malloc gave the stretch of size + 8 bytes at the physical address `start`.
pub record Given (s : Slob) (size : ℕ) (s' : Slob) (ptr : ℕ) : Type 0 where
  pub start : ℕ
  pub points : ptr ≡ u64 (start + header_size + s.memory.vmm_higher_half_offset)
  pub ends : start + (size + header_size) < 2 ^ 64
  pub headers :
      s'.heap ≡ update s.heap (u64 (start + s.memory.vmm_higher_half_offset)) (size + header_size)
  pub same_memory : s'.memory ≡ s.memory
  pub had_room : has_entry size s.entries ≡ true
  pub held :
      (x : ℕ)
      → times_held s.entries x
        ≡ times_held s'.entries x + (if inside start (size + header_size) x then 1 else 0)
  pub valid : IsValid s'

abbrev pub Malloced : Slob → ℕ → Outcome Slob (Option ℕ) → Type 0
Malloced s size (returns s' (some ptr)) = Given s size s' ptr
Malloced s size (returns s' none) = (s' ≡ s) × (has_entry size s.entries ≡ false)
Malloced s size spins = ⊥
Malloced s size (halts s') = ⊥
Malloced s size faults = ⊥

hand_out-Malloced :
    (s : Slob) (size : ℕ) (o : Option (ℕ × List SlobEntry))
    → IsValid s
    → size + header_size < 2 ^ 64
    → Taken size s.entries o
    → Malloced s size (hand_out s size o)
unfolding hand_out
hand_out-Malloced s size none v small t = (refl, t)
hand_out-Malloced s size (some (a, es)) v small t = record {
  start = a;
  points = refl;
  ends = t.2;
  headers = let e : u64 (header_size + size) ≡ size + header_size = omega arith in rw e;
  same_memory = refl;
  had_room = t.0;
  held = t.3;
  valid = record {
    started = v.started;
    ends = t.1;
    once = λ x. omega (arith, t.3 x, v.once x);
    offset_word = v.offset_word;
  };
}

slob_malloc_open :
    (s : Slob) (before : Ram) (size : ℕ)
    → s.init ≡ 1
    → slob_malloc s before size ≡ hand_out s size (take_entry size s.entries)
unfolding slob_malloc slob_search
slob_malloc_open s before size e = ground arith

-- slob_malloc from a well-formed free list, of a size that with the eight bytes of the header stays
-- below 2^64, returns. NULL means that no entry has the size and eight
-- bytes more, and changes nothing. A pointer stands eight bytes behind the start of a stretch of
-- that many bytes, whose header records the length; the free list loses those bytes and no others,
-- and stays well formed.
pub slob_malloc-Malloced :
    (s : Slob) (before : Ram) (size : ℕ)
    → IsValid s
    → size + header_size < 2 ^ 64
    → Malloced s size (slob_malloc s before size)
slob_malloc-Malloced s before size v small = rw (slob_malloc_open s before size v.started) (
    hand_out-Malloced s size (take_entry size s.entries) v small
      (take_entry-Taken size s.entries small v.ends))

-- The length bytes from the physical address `start` are in nobody's hands but the caller's.
pub record IsLive (s : Slob) (start length : ℕ) : Type 0 where
  pub header : s.heap (u64 (start + s.memory.vmm_higher_half_offset)) ≡ length
  pub ends : start + length < 2 ^ 64
  pub some_bytes : header_size ≤ length
  pub not_held : (x : ℕ) → inside start length x ≡ true → times_held s.entries x ≡ 0

-- slob_free took back the bytes, and kept 32 others at `node` for the new entry and its header.
pub record Freed (s : Slob) (start length : ℕ) (s' : Slob) : Type 0 where
  pub node : ℕ
  pub held :
      (x : ℕ)
      → times_held s'.entries x + (if inside node (entry_size + header_size) x then 1 else 0)
        ≡ times_held s.entries x + (if inside start length x then 1 else 0)
  pub node_held :
      (x : ℕ) → inside node (entry_size + header_size) x ≡ true → times_held s.entries x ≡ 1
  pub valid : IsValid s'

module _ (s s' : Slob) (start length ptr : ℕ) (v : IsValid s) (l : IsLive s start length)
    (g : Given s entry_size s' ptr) where
  offset_kept : s'.memory.vmm_higher_half_offset ≡ s.memory.vmm_higher_half_offset
  offset_kept = ap (λ (m : Map). m.vmm_higher_half_offset) g.same_memory

  node_elsewhere : start ≢ g.start
  node_elsewhere e = omega (arith, l.not_held start (ground arith), here)
    where
      here : 1 ≤ times_held s.entries start
      here = ground (arith, g.held start)

  base_back :
      u64
        (u64 (start + s.memory.vmm_higher_half_offset) + 2 ^ 64 - s'.memory.vmm_higher_half_offset)
      ≡ start
  base_back = omega (arith, offset_kept, l.ends, v.offset_word)

  header_kept : s'.heap (u64 (start + s.memory.vmm_higher_half_offset)) ≡ length
  header_kept =
      ap (λ (h : Ram). h (u64 (start + s.memory.vmm_higher_half_offset))) g.headers
      ∙ update_ne s.heap (u64 (g.start + s.memory.vmm_higher_half_offset))
          (u64 (start + s.memory.vmm_higher_half_offset)) (entry_size + header_size)
          (λ e. node_elsewhere (omega (arith, e, l.ends, g.ends, v.offset_word)))
      ∙ l.header

  back : SlobEntry
  back = record {
    node = ptr;
    base =
        u64 (
          u64 (start + s.memory.vmm_higher_half_offset)
          + 2 ^ 64
          - s'.memory.vmm_higher_half_offset);
    length = s'.heap (u64 (start + s.memory.vmm_higher_half_offset));
  }

  give_back-Freed :
      (s'' : Slob) × (give_back
          (u64 (start + s.memory.vmm_higher_half_offset))
          (returns s' (some ptr))
        ≡ returns s'' none)
      × Freed s start length s''
  unfolding give_back back
  give_back-Freed = (
    record s' { entries = back ∷ s'.entries },
    refl,
    record {
      node = g.start;
      held = λ x. rw (base_back, header_kept) (omega (arith, g.held x));
      node_held = λ x h. ground (arith, g.held x, v.once x);
      valid = record {
        started = g.valid.started;
        ends = (rw (base_back, header_kept) l.ends, g.valid.ends);
        once = λ x. rw (base_back, header_kept) (ground (arith, l.not_held x, g.held x, v.once x));
        offset_word = g.valid.offset_word;
      };
    },
  )

header_of :
    (s : Slob) (start : ℕ) {length : ℕ}
    → IsValid s
    → IsLive s start length
    → u64 (u64 (start + header_size + s.memory.vmm_higher_half_offset) + 2 ^ 64 - header_size)
      ≡ u64 (start + s.memory.vmm_higher_half_offset)
header_of s start v l = omega arith

-- slob_free of a live block, where some entry has room for a node of 32 bytes, returns: the free
-- list gains exactly the bytes of the block, loses exactly the 32 bytes of the node, which it held
-- before, and stays well formed.
pub slob_free-Freed :
    (s : Slob) (before : Ram) (start length : ℕ)
    → IsValid s
    → IsLive s start length
    → has_entry entry_size s.entries ≡ true
    → (s' : Slob) × (slob_free s before
          (u64 (start + header_size + s.memory.vmm_higher_half_offset))
        ≡ returns s' none)
      × Freed s start length s'
unfolding slob_free
slob_free-Freed s before start length v l room = rw (header_of s start v l) (
    finish (slob_malloc s before entry_size)
      (slob_malloc-Malloced s before entry_size v (omega arith)))
  where
    finish :
        (o : Outcome Slob (Option ℕ))
        → Malloced s entry_size o
        → (s' : Slob) × (give_back (u64 (start + s.memory.vmm_higher_half_offset)) o
            ≡ returns s' none)
          × Freed s start length s'
    finish (returns s' (some ptr)) g = give_back-Freed s s' start length ptr v l g
    finish (returns s' none) g = cc
    finish spins g = absurd g
    finish (halts s') g = absurd g
    finish faults g = absurd g
