-- ===== src/Queue.antt =====
-- src/include/queue.h and src/lib/queue.c: the circular queue. Every function takes the queue that
-- its pointer points to, and hands it back.
pub mod Fifo
pub mod Refine
mod Tests
use bloreos.Base.{
  ℕ, ◌+◌, ◌-◌, ◌^◌, Bool, true, false, Option, none, some, List, ◌==◌, if◌then◌else◌, get_or, set,
  u32,
}
use bloreos.Atomic.{Outcome, returns, spins, halts, spinlock_lock, spinlock_unlock}

-- `CQueue_t`. A bool or a lock is the byte that it occupies.
pub record CQueue : Type 0 where
  pub read_i : ℕ
  pub write_i : ℕ
  pub buff : List ℕ
  pub len : ℕ
  pub num_items : ℕ
  pub lock : ℕ

-- `cqueue_create`: `buff` and `lock` are what malloc's memory happens to hold, since only the five
-- other fields are assigned.
unfoldable pub cqueue_create : List ℕ → ℕ → ℕ → CQueue
cqueue_create buff lock len = record {
  read_i = 0;
  write_i = 0;
  buff = buff;
  len = len;
  num_items = 0;
  lock = lock;
}

-- The two cursors go round in the same way.
abbrev pub advance : ℕ → ℕ → ℕ
advance len i = let next = u32 (i + 1) in if next == len then 0 else next

-- The body of `cqueue_write` with the lock held.
abbrev pub write_held : CQueue → ℕ → CQueue × Bool
write_held q val =
    if q.num_items == q.len then (record q { lock = spinlock_unlock q.lock }, false) else (
      record q {
        buff = set q.buff q.write_i val;
        write_i = advance q.len q.write_i;
        lock = spinlock_unlock q.lock;
        num_items = u32 (q.num_items + 1);
      },
      true,
    )

unfoldable pub cqueue_write : CQueue → ℕ → Outcome CQueue Bool
unfolding spinlock_lock spinlock_unlock
cqueue_write q val = elim (spinlock_lock q.lock) [
  | none ↦ spins
  | some held ↦ let (q', b) = write_held (record q { lock = held }) val in returns q' b
]

-- The body of `cqueue_read` with the lock held. `num_items--` runs at `num_items != 0` only.
abbrev pub read_held : CQueue → Outcome CQueue ℕ
read_held q =
    if q.num_items == 0
    then halts q
    else returns
        (record q {
          read_i = advance q.len q.read_i;
          num_items = q.num_items - 1;
          lock = spinlock_unlock q.lock;
        })
        (get_or q.buff q.read_i 0)

unfoldable pub cqueue_read : CQueue → Outcome CQueue ℕ
unfolding spinlock_lock spinlock_unlock
cqueue_read q = elim (spinlock_lock q.lock) [
  | none ↦ spins
  | some held ↦ read_held (record q { lock = held })
]
