-- ===== src/Kernel/Session/Holding.antt =====
-- How the loop of src/kernel.c comes to hold the first key that waits, and handles it.
use bloreos.Base.{
  ℕ, ◌<◌, ◌≡◌, ◌≢◌, refl, ap, sym, ◌∙◌, true, false, ltb, List, [], ◌∷◌, ◌++◌, append-nil, some,
  Ram, length, arith,
}
use bloreos.Queue.Refine.{contents}
use bloreos.Atomic.{returns}
use bloreos.Kernel.{
  Kernel, Place, checking, fetching, handling, check, fetch, handle, silent, fetched, checks,
  handles,
}
use bloreos.Kernel.Passes.{step-Passes, fetch-returns}
use bloreos.Kernel.Progress.{input_after}
use bloreos.Kernel.Prompt.{keyboard_table, is_empty_enter, handle-AtPrompt}
use bloreos.Kernel.Session.{in_hand, all_bytes, waiting, Session}
use bloreos.Kernel.Session.Untouched.{checked, fetched_lem}
use bloreos.Kernel.Session.Goes.{waits-Session}
use bloreos.Kernel.Session.Handled.{handled}

check_full : (k : Kernel) → k.q_keyboard.num_items ≢ 0 → (check k).place ≡ fetching
unfolding check
check_full k h = let full : ltb 0 k.q_keyboard.num_items ≡ true = ground (arith, h) in rw full refl

check_queue : (k : Kernel) → (check k).q_keyboard ≡ k.q_keyboard
unfolding check
check_queue k = refl

pub waiting_at :
    (k : Kernel) (p : Place) → k.place ≡ p → waiting k ≡ in_hand p ++ contents k.q_keyboard
waiting_at k p at = ap (λ p. in_hand p ++ contents k.q_keyboard) at

-- A check where an item waits.
pub check_round :
    (k : Kernel) (s : List ℕ)
    → Session k s
    → k.place ≡ checking
    → k.q_keyboard.num_items ≢ 0
    → ((check k).place ≡ fetching) × (waiting (check k) ≡ waiting k) × Session (check k) s
check_round k s v at item =
    let (u, nothing) = checked k in
    let (order, session) =
      waits-Session k (check k) s silent v (step-Passes k (check k) silent v.running (checks at)) u
        refl (ap (λ p. in_hand p ++ []) at ∙ sym nothing) in
    (check_full k item, sym order ∙ append-nil (waiting k), session)

pub fetch_round :
    (k : Kernel) (s : List ℕ)
    → Session k s
    → k.place ≡ fetching
    → (k' : Kernel) × (code : ℕ) × (fetch k ≡ returns k' code)
      × (k'.place ≡ handling code)
      × (waiting k' ≡ waiting k)
      × Session k' s
fetch_round k s v at =
    let (k', code, done, passes) = fetch-returns k v.running at in
    let (u, place) = fetched_lem k k' code done in
    let (order, session) =
      waits-Session k k' s (fetched code) v passes u refl (rw (at, place) refl) in
    (k', code, done, place, sym order ∙ append-nil (waiting k), session)

pub handle_round :
    (stacks : ℕ → Ram) (code : ℕ) (codes s : List ℕ) (k : Kernel)
    → Session k s
    → k.place ≡ handling code
    → waiting k ≡ code ∷ codes
    → length s < 255
    → is_empty_enter (keyboard_table code) s ≡ false
    → (k' : Kernel) × (handle stacks code k ≡ some k')
      × (k'.place ≡ checking)
      × (waiting k' ≡ codes)
      × Session k' (input_after (keyboard_table code) s)
handle_round stacks code codes s k v at keys small enter =
    let bytes : all_bytes (code ∷ codes) ≡ true = ap all_bytes (sym keys) ∙ v.keys in
    let byte : code < 256 = ground (arith, bytes) in
    let (k', done, place, queue, prompt) =
      handle-AtPrompt stacks code s k v.prompt byte small enter in
    let first : code ∷ codes ≡ code ∷ contents k.q_keyboard =
      sym keys ∙ waiting_at k (handling code) at in
    let rest : codes ≡ contents k.q_keyboard = cc in
    let left : waiting k' ≡ codes = waiting_at k' checking place ∙ ap contents queue ∙ sym rest in
    (
      k',
      done,
      place,
      left,
      record {
        running = (step-Passes k k' silent v.running (handles stacks code at done)).running;
        prompt = prompt;
        fits = (handled stacks code k k' s v.prompt v.fits byte done).1;
        keys = ap all_bytes left ∙ ground (arith, bytes);
      },
    )
