-- ===== src/Kernel/Session/Runs.antt =====
-- Whole runs of src/kernel.c's loop and the interrupts of src/idt.c from a session.
use bloreos.Base.{ℕ, ◌≡◌, refl, ap, sym, subst, ◌∙◌, List, [], ◌∷◌, ◌++◌, append-nil, append_assoc}
use bloreos.Kernel.{Kernel, Event}
use bloreos.Kernel.Passes.{taken}
use bloreos.Kernel.Run.{Run, stop, next, all_taken}
use bloreos.Kernel.Progress.{input_after}
use bloreos.Kernel.Prompt.{keyboard_table}
use bloreos.Kernel.Session.{waiting, edit_all, Session}
use bloreos.Kernel.Session.Goes.{step-Goes}

edit_all-append : (a b s : List ℕ) → edit_all (a ++ b) s ≡ edit_all b (edit_all a s)
edit_all-append [] b s = refl
edit_all-append (c ∷ a) b s = edit_all-append a b (input_after (keyboard_table c) s)

-- In every run of the loop and the interrupts from a session, in any order, the session goes on: the
-- queue stays well formed, the next character fits on the screen, and the input stands in its array.
-- The keys that waited at the start and those that the queue took since are, in their order, the codes
-- whose events the loop has handled and then those that wait still; and the input is what those events,
-- one after the other, make of the input at the start, as an editor of a list of characters.
pub Run-Session :
    (k k' : Kernel) (s : List ℕ) (es : List Event)
    → Session k s
    → Run k es k'
    → (done : List ℕ) × (waiting k ++ all_taken es ≡ done ++ waiting k')
      × Session k' (edit_all done s)
Run-Session k _ s _ v stop = ([], append-nil (waiting k), v)
Run-Session k k'' s _ v (next {k' = k'} {e = e} {es = es} step run) =
    let g = step-Goes k k' s e v step in
    let (done, order, session) = Run-Session k' k'' (edit_all g.done s) es g.session run in
    (
      g.done ++ done,
      sym (append_assoc (waiting k) (taken e) (all_taken es))
          ∙ ap (λ c. c ++ all_taken es) g.order
          ∙ append_assoc g.done (waiting k') (all_taken es)
          ∙ ap (λ c. g.done ++ c) order
          ∙ sym (append_assoc g.done done (waiting k'')),
      subst (Session k'') (sym (edit_all-append g.done done s)) session,
    )
