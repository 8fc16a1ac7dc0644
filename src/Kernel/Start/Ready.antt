-- ===== src/Kernel/Start/Ready.antt =====
-- How src/kernel.c finds things at the first check of its loop.
use bloreos.Base.{
  ℕ, ◌≤◌, ◌<◌, ◌^◌, ◌≡◌, refl, ap, sym, subst, ◌∙◌, true, List, [], ◌++◌, Option, some, none, Ram,
  length, arith,
}
use bloreos.Ps2.{Io, ps2_init, ps2_setup, followed_by}
use bloreos.Ps2.Keys.{KeyTable, key_map, register_keys}
use bloreos.Ps2.Table.{no_keys}
use bloreos.Queue.Refine.{cqueue_create-IsValid}
use bloreos.Terminal.{Terminal}
use bloreos.Terminal.InScreen.{InScreen}
use bloreos.Kernel.{Kernel, Event}
use bloreos.Kernel.Run.{Run, all_taken}
use bloreos.Kernel.Prompt.{keyboard_table}
use bloreos.Kernel.Session.{all_bytes, waiting, edit_all, Session}
use bloreos.Kernel.Session.Runs.{Run-Session}
use bloreos.Kernel.Start.{Given, cold_terminal, Starts}
use bloreos.Kernel.Start.Console.{all_low, term_init_lem, set_up-InScreen, Prints-StaysIn}

-- What ps2_init leaves in the table.
ps2_init_lem :
    (s s' : Io) (keys : KeyTable)
    → ps2_init no_keys s ≡ some (keys, s')
    → keys.scancode_map ≡ keyboard_table
unfolding ps2_init followed_by
ps2_init_lem s s' keys e = done (ps2_setup s) e
  where
    done :
        (o : Option Io)
        → followed_by {B = KeyTable × Io} o (λ s. some (register_keys key_map no_keys, s))
          ≡ some (keys, s')
        → keys.scancode_map ≡ keyboard_table
    done none e = absurd cc
    done (some s1) e =
        let made : register_keys key_map no_keys ≡ keys = cc in
        ap (λ (k : KeyTable). k.scancode_map) (sym made)

-- A queue of malloc's memory, in which the byte of the lock is 0, and a screen of up to 2^31 - 1 pixels
-- each way, wide enough for a glyph and higher than the fonts.
pub record IsSuited (e : Given) : Type 0 where
  pub queue : length e.queue_memory ≡ 200
  pub lock : e.queue_lock ≡ 0
  pub wide : 9 ≤ e.frame.width
  pub narrow : e.frame.width < 2 ^ 31
  pub fonts : all_low e.frame.height e.modules ≡ true
  pub low : e.frame.height < 2 ^ 31

-- Where the start of kernel_main gets to its loop, if malloc gave the queue 200 words and a lock byte
-- that happens to be 0, which cqueue_create does not set, and the screen is 9 to 2^31 - 1 pixels wide,
-- lower than 2^31 and higher than every font that is loaded, the loop finds a session with an empty
-- input, and no key waits.
pub Starts-Session :
    (e : Given) (k : Kernel) → IsSuited e → Starts e k → Session k [] × (waiting k ≡ [])
Starts-Session e k suited started =
    let (file, low, made) =
      term_init_lem e.frame e.modules (cold_terminal e.screen_memory) started.screen1 suited.fonts
        started.term in
    let (ready, text) =
      set_up-InScreen (record (cold_terminal e.screen_memory) { frame = e.frame; font = file }) refl
        refl suited.wide suited.narrow low suited.low in
    let greeted = Prints-StaysIn (subst InScreen (sym made) ready) started.greeting in
    let reported = Prints-StaysIn greeted.screen started.reports in
    let closed = Prints-StaysIn reported.screen started.closing in
    let input : started.screen5.input_str ≡ (λ i. 0) =
      closed.input
      ∙ reported.input
      ∙ greeted.input
      ∙ ap (λ (t : Terminal). t.input_str) made
      ∙ text in
    let (queue, empty) =
      cqueue_create-IsValid e.queue_memory e.queue_lock 200 (omega arith) (omega arith) suited.queue
        suited.lock in
    subst (λ k. Session k [] × (waiting k ≡ [])) (sym started.at_loop)
      (
        record {
          running = record { queue = queue; item = λ at. absurd cc };
          prompt = record {
            table = ps2_init_lem started.port3 started.port4 started.keys started.ps2;
            screen = closed.screen;
            input = ap (λ (m : Ram). m 0) input;
            typed = refl;
            seconds = omega arith;
          };
          fits = omega arith;
          keys = ap all_bytes empty;
        },
        empty,
      )

-- If the start of kernel_main gets to its loop, malloc gave the queue 200 words and a lock byte that
-- happens to be 0, which cqueue_create does not set, and the screen is 9 to 2^31 - 1 pixels wide, lower
-- than 2^31 and higher than every font that is loaded, then in every run of the loop and the interrupts
-- from there, in any order, the keys that the queue took are, in their order, the codes whose events the
-- loop has handled and then those that wait still; and the input is what the events of the handled codes
-- make of an empty input, as an editor of a list of characters.
pub start-typed :
    (e : Given) (k k' : Kernel) (es : List Event)
    → IsSuited e
    → Starts e k
    → Run k es k'
    → (done : List ℕ) × (all_taken es ≡ done ++ waiting k') × Session k' (edit_all done [])
start-typed e k k' es suited started run =
    let (session, empty) = Starts-Session e k suited started in
    let (done, order, session') = Run-Session k k' [] es session run in
    (done, ap (λ w. w ++ all_taken es) (sym empty) ∙ order, session')
