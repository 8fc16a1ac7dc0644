-- ===== src/Atomic.antt =====
-- src/include/atomic.h: the spinlock, a byte that is 0 when free; and how a call can end.
use bloreos.Base.{ℕ, Option, none, some, ◌==◌, if◌then◌else◌}

-- A call returns with the new state, never ends (it waits for a lock that nobody will release, or
-- loops for ever), stops the CPU (`hcf`), leaving the state as it is, or writes through a null
-- pointer.
pub data Outcome (S : Type 0) (A : Type 0) : Type 0 where
  returns : S → A → Outcome S A
  spins : Outcome S A
  halts : S → Outcome S A
  faults : Outcome S A

-- `while (__sync_lock_test_and_set(&lock, 1));` with nobody else running: the lock is taken if it
-- was free, and the loop does not end if it was not.
unfoldable pub spinlock_lock : ℕ → Option ℕ
spinlock_lock lock = if lock == 0 then some 1 else none

unfoldable pub spinlock_unlock : ℕ → ℕ
spinlock_unlock lock = 0

-- Sequencing: the rest runs where the call returns.
unfoldable pub and_then : {S A B : Type 0} → Outcome S A → (S → A → Outcome S B) → Outcome S B
and_then (returns s a) k = k s a
and_then spins k = spins
and_then (halts s) k = halts s
and_then faults k = faults
