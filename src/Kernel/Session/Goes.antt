-- ===== src/Kernel/Session/Goes.antt =====
-- What a step of src/kernel.c's loop, or an interrupt of src/idt.c, does to the keys that wait and to
-- the input.
use bloreos.Base.{
  ℕ, ◌≡◌, refl, ap, sym, subst, ◌∙◌, Bool, true, false, List, [], ◌∷◌, ◌++◌, some, Ram, u8,
  append-nil, append_assoc, arith,
}
use bloreos.Queue.Refine.{contents}
use bloreos.Kernel.{
  Kernel, handling, check, handle, handle_timer, handle_lapic_timer, Event, silent, pressed,
  fetched, Step, checks, fetches, handles, keyboard, timer, lapic_timer,
}
use bloreos.Kernel.Passes.{taken, read, IsRunning, Passes, step-Passes}
use bloreos.Kernel.Session.{in_hand, waiting, all_bytes, edit_all, Session}
use bloreos.Kernel.Session.Untouched.{
  Untouched, Untouched-AtPrompt, checked, fetched_lem, keyboard_lem, timer_lem, lapic_timer_lem,
}
use bloreos.Kernel.Session.Handled.{handled}

all_bytes-append :
    (s s' : List ℕ) → all_bytes s ≡ true → all_bytes s' ≡ true → all_bytes (s ++ s') ≡ true
all_bytes-append [] s' h h' = h'
all_bytes-append (c ∷ s) s' h h' = ground (arith, h, all_bytes-append s s' (ground (arith, h)) h')

all_bytes-taken : (key : ℕ) (b : Bool) → all_bytes (taken (pressed (u8 key) b)) ≡ true
all_bytes-taken key true = ground arith
all_bytes-taken key false = refl

-- A step with its event: the codes that it handled, which were the first that waited, and the session
-- afterwards.
pub record Goes (k : Kernel) (s : List ℕ) (e : Event) (k' : Kernel) : Type 0 where
  pub done : List ℕ
  pub order : waiting k ++ taken e ≡ done ++ waiting k'
  pub session : Session k' (edit_all done s)

-- A step that handles no event.
pub waits-Session :
    (k k' : Kernel) (s : List ℕ) (e : Event)
    → Session k s
    → Passes k e k'
    → Untouched k k'
    → all_bytes (taken e) ≡ true
    → in_hand k.place ++ read e ≡ in_hand k'.place
    → (waiting k ++ taken e ≡ waiting k') × Session k' s
waits-Session k k' s e v p u bytes hand =
    let order : waiting k ++ taken e ≡ waiting k' =
      append_assoc (in_hand k.place) (contents k.q_keyboard) (taken e)
      ∙ ap (λ c. in_hand k.place ++ c) p.order
      ∙ sym (append_assoc (in_hand k.place) (read e) (contents k'.q_keyboard))
      ∙ ap (λ c. c ++ contents k'.q_keyboard) hand in
    (
      order,
      record {
        running = p.running;
        prompt = Untouched-AtPrompt k k' s u v.prompt;
        fits = v.fits;
        keys = ap all_bytes (sym order) ∙ all_bytes-append (waiting k) (taken e) v.keys bytes;
      },
    )

waits-Goes :
    (k k' : Kernel) (s : List ℕ) (e : Event)
    → Session k s
    → Passes k e k'
    → Untouched k k'
    → all_bytes (taken e) ≡ true
    → in_hand k.place ++ read e ≡ in_hand k'.place
    → Goes k s e k'
waits-Goes k k' s e v p u bytes hand =
    let (order, session) = waits-Session k k' s e v p u bytes hand in
    record { done = []; order = order; session = session }

handle-Goes :
    (stacks : ℕ → Ram) (code : ℕ) (k k' : Kernel) (s : List ℕ)
    → k.place ≡ handling code
    → Session k s
    → handle stacks code k ≡ some k'
    → IsRunning k'
    → Goes k s silent k'
handle-Goes stacks code k k' s at v e running =
    let keys : all_bytes (in_hand (handling code) ++ contents k.q_keyboard) ≡ true =
      subst (λ p. all_bytes (in_hand p ++ contents k.q_keyboard) ≡ true) at v.keys in
    let (prompt, fits, place, queue) =
      handled stacks code k k' s v.prompt v.fits (ground (arith, keys)) e in
    let left : waiting k' ≡ contents k.q_keyboard = rw (place, queue) refl in
    record {
      done = code ∷ [];
      order =
          append-nil (waiting k)
          ∙ ap (λ p. in_hand p ++ contents k.q_keyboard) at
          ∙ ap (λ c. code ∷ c) (sym left);
      session = record {
        running = running;
        prompt = prompt;
        fits = fits;
        keys = ap all_bytes left ∙ ground (arith, keys);
      };
    }

pub step-Goes : (k k' : Kernel) (s : List ℕ) (e : Event) → Session k s → Step k e k' → Goes k s e k'
step-Goes k _ s _ v (checks at) =
    let (u, nothing) = checked k in
    waits-Goes k (check k) s silent v (step-Passes k (check k) silent v.running (checks at)) u refl
      (ap (λ p. in_hand p ++ []) at ∙ sym nothing)
step-Goes k k' s _ v (fetches code at e) =
    let (u, place) = fetched_lem k k' code e in
    waits-Goes k k' s (fetched code) v
      (step-Passes k k' (fetched code) v.running (fetches code at e)) u refl (rw (at, place) refl)
step-Goes k k' s _ v (handles stacks code at e) =
    handle-Goes stacks code k k' s at v e
      (step-Passes k k' silent v.running (handles stacks code at e)).running
step-Goes k k' s _ v (keyboard key b e) =
    let (u, place) = keyboard_lem k k' key b e in
    waits-Goes k k' s (pressed (u8 key) b) v
      (step-Passes k k' (pressed (u8 key) b) v.running (keyboard key b e)) u (all_bytes-taken key b)
      (rw place (append-nil (in_hand k.place)))
step-Goes k _ s _ v timer =
    let (u, place) = timer_lem k in
    waits-Goes k (handle_timer k) s silent v (step-Passes k (handle_timer k) silent v.running timer)
      u refl (append-nil (in_hand k.place) ∙ ap in_hand (sym place))
step-Goes k _ s _ v lapic_timer =
    let (u, place) = lapic_timer_lem k in
    waits-Goes k (handle_lapic_timer k) s silent v
      (step-Passes k (handle_lapic_timer k) silent v.running lapic_timer) u refl
      (append-nil (in_hand k.place) ∙ ap in_hand (sym place))
