-- ===== src/Kernel/Session/Drains.antt =====
-- The loop of src/kernel.c handles every key that waits when no interrupt comes.
use bloreos.Base.{
  ℕ, suc, ◌+◌, ◌*◌, ◌≤◌, ◌<◌, ◌≡◌, ◌≢◌, refl, ap, sym, subst, ◌∙◌, Bool, true, false, ltb, not,
  ◌&&◌, List, [], ◌∷◌, some, Ram, length, arith, ◌>>=◌,
}
use bloreos.Queue.Refine.{contents, length-contents}
use bloreos.Kernel.{Kernel, Place, checking, fetching, handling, check, loop, step_at, returned}
use bloreos.Kernel.Progress.{input_after}
use bloreos.Kernel.Prompt.{keyboard_table, is_empty_enter}
use bloreos.Kernel.Session.{edit_all, waiting, Session}
use bloreos.Kernel.Session.Holding.{check_round, fetch_round, handle_round, waiting_at}

-- The events of the codes find fewer than 255 characters, and Enter at least one.
abbrev pub all_passable : List ℕ → List ℕ → Bool
all_passable [] s = true
all_passable (code ∷ codes) s =
    ltb (length s) 255
    && not (is_empty_enter (keyboard_table code) s)
    && all_passable codes (input_after (keyboard_table code) s)

-- With nothing that waits the loop is at its check.
at_check : (k : Kernel) (s : List ℕ) → Session k s → waiting k ≡ [] → k.place ≡ checking
at_check k s v empty = at_place k.place refl
  where
    at_place : (p : Place) → k.place ≡ p → k.place ≡ checking
    at_place checking at = at
    at_place fetching at =
        let none_left : k.q_keyboard.num_items ≡ 0 =
          sym (length-contents k.q_keyboard) ∙ ap length (sym (waiting_at k fetching at) ∙ empty) in
        absurd (v.running.item at none_left)
    at_place (handling c) at =
        let some_left : c ∷ contents k.q_keyboard ≡ [] =
          sym (waiting_at k (handling c) at) ∙ empty in
        absurd cc

-- At most so many steps of the loop bring it to its check with the codes handled.
abbrev Drained : (ℕ → ℕ → Ram) → List ℕ → List ℕ → ℕ → Kernel → Type 0
Drained stacks codes s most k =
    (n : ℕ) × (k' : Kernel) × (n ≤ most)
    × (loop n stacks k ≡ some k')
    × (k'.place ≡ checking)
    × (waiting k' ≡ [])
    × Session k' (edit_all codes s)

one_more :
    (stacks : ℕ → ℕ → Ram) (codes s : List ℕ) (m most : ℕ) (k k1 : Kernel) (p : Place)
    → m < most
    → k.place ≡ p
    → step_at (stacks 0) k p ≡ some k1
    → Drained (λ i. stacks (i + 1)) codes s m k1
    → Drained stacks codes s most k
unfolding loop
one_more stacks codes s m most k k1 p less at e (n, k', low, ran, place, empty, v) = (
  suc n,
  k',
  omega arith,
  subst (λ q. (step_at (stacks 0) k q >>= loop n (λ i. stacks (i + 1))) ≡ some k') (sym at)
      (rw e ran),
  place,
  empty,
  v,
)

module _ (code : ℕ) (codes s : List ℕ) (small : length s < 255)
    (enter : is_empty_enter (keyboard_table code) s ≡ false)
    (others : (stacks : ℕ → ℕ → Ram) (k : Kernel)
      → Session k (input_after (keyboard_table code) s)
      → waiting k ≡ codes
      → Drained stacks codes (input_after (keyboard_table code) s) (3 * length codes) k) where
  from_handling :
      (stacks : ℕ → ℕ → Ram) (k : Kernel) (c : ℕ)
      → Session k s
      → waiting k ≡ code ∷ codes
      → k.place ≡ handling c
      → Drained stacks (code ∷ codes) s (3 * length codes + 1) k
  unfolding step_at
  from_handling stacks k c v keys at =
      let same : c ∷ contents k.q_keyboard ≡ code ∷ codes =
        sym (waiting_at k (handling c) at) ∙ keys in
      let same_code : c ≡ code = cc in
      let held = at ∙ ap handling same_code in
      let (k', done, place, rest, session) =
        handle_round (stacks 0) code codes s k v held keys small enter in
      one_more stacks (code ∷ codes) s (3 * length codes) (3 * length codes + 1) k k'
        (handling code) (omega arith) held done (others (λ i. stacks (i + 1)) k' session rest)

  from_fetching :
      (stacks : ℕ → ℕ → Ram) (k : Kernel)
      → Session k s
      → waiting k ≡ code ∷ codes
      → k.place ≡ fetching
      → Drained stacks (code ∷ codes) s (3 * length codes + 2) k
  unfolding step_at
  from_fetching stacks k v keys at =
      let (k', c, done, place, same, session) = fetch_round k s v at in
      one_more stacks (code ∷ codes) s (3 * length codes + 1) (3 * length codes + 2) k k' fetching
        (omega arith) at (ap returned done)
        (from_handling (λ i. stacks (i + 1)) k' c session (same ∙ keys) place)

  from_checking :
      (stacks : ℕ → ℕ → Ram) (k : Kernel)
      → Session k s
      → waiting k ≡ code ∷ codes
      → k.place ≡ checking
      → Drained stacks (code ∷ codes) s (3 * length (code ∷ codes)) k
  unfolding step_at
  from_checking stacks k v keys at =
      let item : k.q_keyboard.num_items ≢ 0 =
        omega (
          arith,
          length-contents k.q_keyboard,
          ap length (sym (waiting_at k checking at) ∙ keys),
        ) in
      let (place, same, session) = check_round k s v at item in
      one_more stacks (code ∷ codes) s (3 * length codes + 2) (3 * length (code ∷ codes)) k
        (check k) checking (omega arith) at refl
        (from_fetching (λ i. stacks (i + 1)) (check k) session (same ∙ keys) place)

  from_anywhere :
      (stacks : ℕ → ℕ → Ram) (k : Kernel) (p : Place)
      → k.place ≡ p
      → Session k s
      → waiting k ≡ code ∷ codes
      → Drained stacks (code ∷ codes) s (3 * length (code ∷ codes)) k
  from_anywhere stacks k checking at v keys = from_checking stacks k v keys at
  from_anywhere stacks k fetching at v keys =
      let (n, k', low, ran, place, empty, v') = from_fetching stacks k v keys at in
      (n, k', omega arith, ran, place, empty, v')
  from_anywhere stacks k (handling c) at v keys =
      let (n, k', low, ran, place, empty, v') = from_handling stacks k c v keys at in
      (n, k', omega arith, ran, place, empty, v')

-- From every session, wherever the loop is, if every event of the codes that wait finds fewer than 255
-- characters of input, and Enter at least one, the loop without interrupts handles the event of each of
-- these codes, in order, and is back at its check with nothing that waits after at most three steps for
-- each; the input is what the events make of it. What the stack holds at each of the steps is left open.
-- Enter on an empty input is not covered.
pub drain-Session :
    (stacks : ℕ → ℕ → Ram) (codes s : List ℕ) (k : Kernel)
    → Session k s
    → waiting k ≡ codes
    → all_passable codes s ≡ true
    → (n : ℕ) × (k' : Kernel) × (n ≤ 3 * length codes)
      × (loop n stacks k ≡ some k')
      × (k'.place ≡ checking)
      × (waiting k' ≡ [])
      × Session k' (edit_all codes s)
unfolding loop
drain-Session stacks [] s k v empty ok = (0, k, omega arith, refl, at_check k s v empty, empty, v)
drain-Session stacks (code ∷ codes) s k v keys ok =
    from_anywhere code codes s (ground (arith, ok)) (ground (arith, ok))
      (λ stacks k v keys.
        drain-Session stacks codes (input_after (keyboard_table code) s) k v keys
          (ground (arith, ok)))
      stacks k k.place refl v keys
