-- ===== src/Kernel/Run.antt =====
-- Runs of the loop of src/kernel.c with the interrupts of src/idt.c.
use bloreos.Base.{
  ℕ, ◌≡◌, refl, ap, sym, ◌∙◌, Bool, List, [], ◌∷◌, ◌++◌, append-nil, append_assoc, some, u8, not,
  length, ◌==◌,
}
use bloreos.Atomic.{returns, spins, spinlock_lock}
use bloreos.Queue.{CQueue, cqueue_write}
use bloreos.Queue.Refine.{IsValid, contents, cqueue_write_refines}
use bloreos.Lapic.{lapic_eoi}
use bloreos.Kernel.{
  Kernel, Event, pressed, Step, checking, fetching, fetch, handle_keyboard, after_write,
}
use bloreos.Kernel.Passes.{taken, read, IsRunning, step-Passes, fetch-returns, pushed_lem}

pub data Run : Kernel → List Event → Kernel → Type 0 where
  stop : {k : Kernel} → Run k [] k
  next :
      {k k' k'' : Kernel} {e : Event} {es : List Event}
      → Step k e k'
      → Run k' es k''
      → Run k (e ∷ es) k''

-- The keys that the queue took, and the codes that the loop read, in a whole run.
abbrev pub all_taken : List Event → List ℕ
all_taken [] = []
all_taken (e ∷ es) = taken e ++ all_taken es

abbrev pub all_read : List Event → List ℕ
all_read [] = []
all_read (e ∷ es) = read e ++ all_read es

-- In every run of the loop and the interrupts, in any order, the queue stays well formed and is never
-- read empty, and the keys that were in it, with those that it took, are the codes that the loop
-- read, in the same order, with those that are still in it.
pub keys_in_order :
    (k k' : Kernel) (es : List Event)
    → IsRunning k
    → Run k es k'
    → IsRunning k' × (contents k.q_keyboard ++ all_taken es ≡ all_read es ++ contents k'.q_keyboard)
keys_in_order k _ _ v stop = (v, append-nil (contents k.q_keyboard))
keys_in_order k k'' _ v (next {k' = k'} {e = e} {es = es} s r) =
    let p = step-Passes k k' e v s in
    let (v', rest) = keys_in_order k' k'' es p.running r in
    (
      v',
      sym (append_assoc (contents k.q_keyboard) (taken e) (all_taken es))
          ∙ ap (λ c. c ++ all_taken es) p.order
          ∙ append_assoc (read e) (contents k'.q_keyboard) (all_taken es)
          ∙ ap (λ c. read e ++ c) rest
          ∙ sym (append_assoc (read e) (all_read es) (contents k''.q_keyboard)),
    )

-- However the loop and the interrupts have run since a check on a well-formed queue, where the loop is
-- inside the `if` its read returns, although keys may have come since the test: the queue is not empty
-- and its lock is free. The code read is the next of the keys that were in the queue at first or that
-- it has taken since, after those read before.
pub Run-fetch :
    (k k' : Kernel) (es : List Event)
    → IsValid k.q_keyboard
    → k.place ≡ checking
    → Run k es k'
    → k'.place ≡ fetching
    → (k'' : Kernel) × (code : ℕ) × (fetch k' ≡ returns k'' code)
      × (contents k.q_keyboard ++ all_taken es ≡ all_read es ++ (code ∷ contents k''.q_keyboard))
Run-fetch k k' es valid at run inside =
    let (v, order) = keys_in_order k k' es (record { queue = valid; item = λ i. absurd cc }) run in
    let (k'', code, done, passes) = fetch-returns k' v inside in
    (
      k'',
      code,
      done,
      order ∙ ap (λ c. all_read es ++ c) (sym (append-nil (contents k'.q_keyboard)) ∙ passes.order),
    )

free_lem : (lock : ℕ) → lock ≡ 0 → spinlock_lock lock ≡ some 1
unfolding spinlock_lock
free_lem lock free = rw free refl

held_lem : (q : CQueue) (x : ℕ) → cqueue_write (record q { lock = 1 }) x ≡ spins
unfolding cqueue_write
held_lem q x = refl

-- However the loop and the interrupts have run since a check on a well-formed queue, the keyboard's
-- handler returns between any two steps of the loop, acknowledges the interrupt, and puts the key
-- behind those that wait, or drops it exactly if the queue is full. Inside the loop's read, once that
-- has taken the lock, the handler would spin for ever, which is why the loop disables interrupts there.
pub Run-handle_keyboard :
    (k k' : Kernel) (es : List Event) (key : ℕ)
    → IsValid k.q_keyboard
    → k.place ≡ checking
    → Run k es k'
    → ((q : CQueue) × (b : Bool) × (handle_keyboard key k'
          ≡ returns (record k' { q_keyboard = q; lapic = lapic_eoi k'.lapic }) b)
        × (contents k'.q_keyboard ++ taken (pressed (u8 key) b) ≡ contents q)
        × (b ≡ not (length (contents k'.q_keyboard) == k'.q_keyboard.len)))
      × ((held : ℕ) × (spinlock_lock k'.q_keyboard.lock ≡ some held)
          × (handle_keyboard key (record k' { q_keyboard = record k'.q_keyboard { lock = held } })
              ≡ spins))
unfolding handle_keyboard after_write
Run-handle_keyboard k k' es key valid at run =
    let (v, order) = keys_in_order k k' es (record { queue = valid; item = λ i. absurd cc }) run in
    let (q', b, done, valid', same, pushed) = cqueue_write_refines k'.q_keyboard (u8 key) v.queue in
    let (order', kept) =
      pushed_lem k'.q_keyboard.len (u8 key) (contents k'.q_keyboard) (contents q') b pushed in
    (
      (q', b, ap (after_write k') done, order', kept),
      (
        1,
        free_lem k'.q_keyboard.lock v.queue.unlocked,
        ap (after_write (record k' { q_keyboard = record k'.q_keyboard { lock = 1 } }))
            (held_lem k'.q_keyboard (u8 key)),
      ),
    )
