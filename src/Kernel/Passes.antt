-- ===== src/Kernel/Passes.antt =====
-- What a step of the loop of src/kernel.c, or an interrupt of src/idt.c, does to the queue.
use bloreos.Base.{
  ℕ, ◌≡◌, ◌≢◌, refl, ap, sym, subst, ◌∙◌, Bool, true, false, List, [], ◌∷◌, ◌++◌, append-nil,
  Option, some, none, ltb, ◌==◌, Ram, ◌>>=◌, arith, u8, not, length, length-append, Bool-cases, inl,
  inr,
}
use bloreos.Atomic.{Outcome, returns, spins, halts, faults}
use bloreos.Queue.{CQueue}
use bloreos.Queue.Fifo
use bloreos.Queue.Refine.{
  IsValid, contents, length-contents, cqueue_read_refines, cqueue_write_refines,
}
use bloreos.Lapic.{lapic_eoi}
use bloreos.Terminal.{Terminal}
use bloreos.Kernel.{
  Kernel, checking, fetching, handling, check, after_read, after_write, fetch, key_event, handle,
  handle_keyboard, handle_timer, handle_lapic_timer, Event, silent, pressed, fetched, Step, checks,
  fetches, handles, keyboard, timer, lapic_timer,
}

-- The keys that the queue took, and the codes that the loop read.
abbrev pub taken : Event → List ℕ
taken silent = []
taken (pressed key true) = key ∷ []
taken (pressed key false) = []
taken (fetched code) = []

abbrev pub read : Event → List ℕ
read silent = []
read (pressed key b) = []
read (fetched code) = code ∷ []

-- The queue is well formed, and where the loop is about to read it has an item.
pub record IsRunning (k : Kernel) : Type 0 where
  pub queue : IsValid k.q_keyboard
  pub item : k.place ≡ fetching → k.q_keyboard.num_items ≢ 0

-- A step keeps that, and the order of the keys.
pub record Passes (k : Kernel) (e : Event) (k' : Kernel) : Type 0 where
  pub running : IsRunning k'
  pub order : contents k.q_keyboard ++ taken e ≡ read e ++ contents k'.q_keyboard

-- Where a call of the same function returned.
abbrev state_of : {S A : Type 0} → S → Outcome S A → S
state_of d (returns s a) = s
state_of d spins = d
state_of d (halts s) = d
state_of d faults = d

abbrev value_of : {S A : Type 0} → A → Outcome S A → A
value_of d (returns s a) = a
value_of d spins = d
value_of d (halts s) = d
value_of d faults = d

check-Passes : (k : Kernel) → IsRunning k → Passes k silent (check k)
unfolding check
check-Passes k v = elim (Bool-cases (ltb 0 k.q_keyboard.num_items)) [
  | inl full ↦ rw full (record {
    running = record { queue = v.queue; item = λ at. ground (arith, full) };
    order = append-nil (contents k.q_keyboard);
  })
  | inr empty ↦ rw empty (record {
    running = record { queue = v.queue; item = λ at. absurd cc };
    order = append-nil (contents k.q_keyboard);
  })
]

popped_lem : (s s' : List ℕ) (x : ℕ) → Fifo.pop s ≡ some (s', x) → s ++ [] ≡ x ∷ s'
unfolding Fifo.pop
popped_lem [] s' x e = cc
popped_lem (c ∷ s) s' x e = append-nil (c ∷ s) ∙ cc

-- A running loop that is about to read does read: the queue is not empty, its lock is free, and the
-- code read is the oldest one.
pub fetch-returns :
    (k : Kernel)
    → IsRunning k
    → k.place ≡ fetching
    → (k' : Kernel) × (code : ℕ) × (fetch k ≡ returns k' code) × Passes k (fetched code) k'
unfolding fetch after_read
fetch-returns k v at =
    let (q', x, done, valid, same, popped) = cqueue_read_refines k.q_keyboard v.queue (v.item at) in
    (
      record k { place = handling x; q_keyboard = q' },
      x,
      ap (after_read k) done,
      record {
        running = record { queue = valid; item = λ at. absurd cc };
        order = popped_lem (contents k.q_keyboard) (contents q') x popped;
      },
    )

pub pushed_lem :
    (cap key : ℕ) (s s' : List ℕ) (b : Bool)
    → (s', b) ≡ Fifo.push cap s key
    → (s ++ taken (pressed key b) ≡ s') × (b ≡ not (length s == cap))
unfolding Fifo.push
pushed_lem cap key s s' b e = elim (Bool-cases (length s == cap)) [
  | inl full ↦
      let e' : (s', b) ≡ (s, false) = e ∙ rw full refl in
      let b' : b ≡ false = ap (λ p. p.1) e' in
      (rw b' (append-nil s ∙ sym (ap (λ p. p.0) e')), rw full b')
  | inr room ↦
      let e' : (s', b) ≡ (s ++ (key ∷ []), true) = e ∙ rw room refl in
      let b' : b ≡ true = ap (λ p. p.1) e' in (rw b' (sym (ap (λ p. p.0) e')), rw room b')
]

push_keeps :
    (q q' : CQueue) (key : ℕ) (b : Bool)
    → q.num_items ≢ 0
    → contents q ++ taken (pressed key b) ≡ contents q'
    → q'.num_items ≢ 0
push_keeps q q' key b item e = omega (
  arith,
  item,
  length-contents q,
  length-contents q',
  ap length e,
  length-append (contents q) (taken (pressed key b)),
)

-- The keyboard's handler returns whatever the loop is doing, and keeps the key exactly if the queue
-- is not full.
pub handle_keyboard-returns :
    (k : Kernel) (key : ℕ)
    → IsRunning k
    → (k' : Kernel) × (b : Bool) × (handle_keyboard key k ≡ returns k' b)
      × Passes k (pressed (u8 key) b) k'
      × (b ≡ not (length (contents k.q_keyboard) == k.q_keyboard.len))
unfolding handle_keyboard after_write
handle_keyboard-returns k key v =
    let (q', b, done, valid, same, pushed) = cqueue_write_refines k.q_keyboard (u8 key) v.queue in
    let (order, kept) =
      pushed_lem k.q_keyboard.len (u8 key) (contents k.q_keyboard) (contents q') b pushed in
    (
      record k { q_keyboard = q'; lapic = lapic_eoi k.lapic },
      b,
      ap (after_write k) done,
      record {
        running = record {
          queue = valid;
          item = λ at. push_keeps k.q_keyboard q' (u8 key) b (v.item at) order;
        };
        order = order;
      },
      kept,
    )

handle-Passes :
    (k k' : Kernel) (stacks : ℕ → Ram) (code : ℕ)
    → IsRunning k
    → handle stacks code k ≡ some k'
    → Passes k silent k'
unfolding handle
handle-Passes k k' stacks code v e =
    done (key_event stacks k.kernel_timer_secs (k.scancode_map code) k.terminal) e
  where
    done :
        (o : Option Terminal)
        → (o >>= λ t. some (record k { place = checking; terminal = t })) ≡ some k'
        → Passes k silent k'
    done none e = absurd cc
    done (some t) e =
        let k'' = record k { place = checking; terminal = t } in
        let same : k'' ≡ k' = cc in
        subst (λ k'. Passes k silent k') same
          (record {
            running = record { queue = v.queue; item = λ at. absurd cc };
            order = append-nil (contents k.q_keyboard);
          })

-- The handlers of the timers leave the loop and the queue as they are.
timer-Passes : (k : Kernel) → IsRunning k → Passes k silent (handle_timer k)
unfolding handle_timer
timer-Passes k v = record {
  running = record { queue = v.queue; item = v.item };
  order = append-nil (contents k.q_keyboard);
}

lapic_timer-Passes : (k : Kernel) → IsRunning k → Passes k silent (handle_lapic_timer k)
unfolding handle_lapic_timer
lapic_timer-Passes k v = record {
  running = record { queue = v.queue; item = v.item };
  order = append-nil (contents k.q_keyboard);
}

pub step-Passes : (k k' : Kernel) (e : Event) → IsRunning k → Step k e k' → Passes k e k'
step-Passes k _ _ v (checks at) = check-Passes k v
step-Passes k k' _ v (fetches code at e) =
    let (k'', x, done, passes) = fetch-returns k v at in
    let same : returns k'' x ≡ returns k' code = sym done ∙ e in
    subst (λ o. Passes k (fetched (value_of 0 o)) (state_of k o)) same passes
step-Passes k k' _ v (handles stacks code at e) = handle-Passes k k' stacks code v e
step-Passes k k' _ v (keyboard key b e) =
    let (k'', b'', done, passes, kept) = handle_keyboard-returns k key v in
    let same : returns k'' b'' ≡ returns k' b = sym done ∙ e in
    subst (λ o. Passes k (pressed (u8 key) (value_of false o)) (state_of k o)) same passes
step-Passes k _ _ v timer = timer-Passes k v
step-Passes k _ _ v lapic_timer = lapic_timer-Passes k v
