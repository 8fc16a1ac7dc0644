-- ===== src/Kernel/Session/Tests.antt =====
-- A session with the code of a key in the queue.
use bloreos.Base.{ℕ, ◌≤◌, ◌≡◌, refl, some, List, [], ◌∷◌, ◌++◌, arith}
use bloreos.Ps2.Keys.{register_keys}
use bloreos.Kernel.{Kernel, checking, handling, loop}
use bloreos.Kernel.Run.{all_taken}
use bloreos.Kernel.Tests.{
  kernel, one_read, with_queue, shown, zeros, is_running, key_between, terminal-InScreen,
}
use bloreos.Kernel.Session.{waiting, edit_all, Session}
use bloreos.Kernel.Session.Runs.{Run-Session}
use bloreos.Kernel.Session.Drains.{drain-Session}

started : Session (kernel checking) []
started = record {
  running = is_running checking;
  prompt = record {
    table = refl;
    screen = terminal-InScreen;
    input = refl;
    typed = refl;
    seconds = omega arith;
  };
  fits = omega arith;
  keys = refl;
}

Run-Session_example :
    (done : List ℕ) × (waiting (kernel checking) ++ all_taken shown
      ≡ done ++ waiting (with_queue (handling 30) one_read))
    × Session (with_queue (handling 30) one_read) (edit_all done [])
Run-Session_example =
    Run-Session (kernel checking) (with_queue (handling 30) one_read) [] shown started key_between

drain-Session_example :
    (n : ℕ) × (k' : Kernel) × (n ≤ 3)
    × (loop n (λ i n. zeros) (kernel checking) ≡ some k')
    × (k'.place ≡ checking)
    × (waiting k' ≡ [])
    × Session k' (edit_all (30 ∷ []) [])
unfolding register_keys
drain-Session_example =
    drain-Session (λ i n. zeros) (30 ∷ []) [] (kernel checking) started refl refl
