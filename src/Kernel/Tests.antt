-- ===== src/Kernel/Tests.antt =====
-- The loop with a queue of two words, of which one holds the code of a key.
use bloreos.Base.{
  ℕ, ◌≡◌, refl, Bool, true, not, ◌==◌, List, [], ◌∷◌, ◌++◌, some, Ram, arith, u8, length, codes,
}
use bloreos.Atomic.{returns, spins, spinlock_lock}
use bloreos.Cpu.{Cpuid, get_cpu_vendor}
use bloreos.Str.Format.{text_arg}
use bloreos.Terminal.Input.{string_at}
use bloreos.Kernel.Report.{vendor_line}
use bloreos.Queue.{CQueue, cqueue_read, cqueue_write}
use bloreos.Queue.Refine.{IsValid, contents}
use bloreos.Terminal.{Terminal}
use bloreos.Lapic.{lapic_eoi}
use bloreos.Terminal.InScreen.{InScreen}
use bloreos.Kernel.Prompt.{keyboard_table, AtPrompt}
use bloreos.Kernel.{
  Kernel, Place, checking, fetching, handling, check, after_read, after_write, fetch,
  handle_keyboard, Event, silent, pressed, fetched, checks, fetches, keyboard,
}
use bloreos.Kernel.Passes.{IsRunning, taken}
use bloreos.Kernel.Run.{Run, stop, next, Run-fetch, Run-handle_keyboard}

abbrev pub zeros : Ram
zeros a = 0

abbrev terminal : Terminal
terminal = record {
  mem = zeros;
  frame = record { address = 0; width = 20; height = 20; pitch = 80 };
  font = record { magic = 0x0436; char_height = 9; glyph_data = zeros };
  max_rows = 2;
  max_cols = 2;
  glyph_width = 9;
  glyph_height = 10;
  is_ready = true;
  fgcolor = 0;
  bgcolor = 0;
  render_x = 0;
  render_y = 0;
  input_render_x = 0;
  input_render_y = 0;
  cursor_x = 0;
  cursor_y = 0;
  input_str = zeros;
  cursor_lock = 0;
  cursor_visible = true;
}

pub terminal-InScreen : InScreen terminal
terminal-InScreen = record {
  ready = refl;
  cell = refl;
  narrow = omega arith;
  low = omega arith;
  x_in = omega arith;
  y_in = omega arith;
}

abbrev pub one_key : CQueue
one_key = record { read_i = 1; write_i = 0; buff = 0 ∷ 30 ∷ []; len = 2; num_items = 1; lock = 0 }

abbrev pub kernel : Place → Kernel
kernel place = record {
  place = place;
  q_keyboard = one_key;
  scancode_map = keyboard_table;
  terminal = terminal;
  kernel_timer_secs = 0;
  hpet = record { base_addr = 0; frequency = 0; ticks = 0; device = zeros };
  lapic = record {
    apic_base = 0;
    lapic_id = 0;
    vmm_higher_half_offset = 0;
    device = zeros;
    interrupts = true;
  };
}

one_key-IsValid : IsValid one_key
one_key-IsValid = ground arith

abbrev about_to_read : Kernel
about_to_read = kernel fetching

pub is_running : (place : Place) → IsRunning (kernel place)
is_running place = record { queue = one_key-IsValid; item = λ at. omega arith }

abbrev two_keys : CQueue
two_keys = record { read_i = 1; write_i = 1; buff = 31 ∷ 30 ∷ []; len = 2; num_items = 2; lock = 0 }

abbrev pub one_read : CQueue
one_read = record { read_i = 0; write_i = 1; buff = 31 ∷ 30 ∷ []; len = 2; num_items = 1; lock = 0 }

abbrev pub with_queue : Place → CQueue → Kernel
with_queue place q = record (kernel place) {
  q_keyboard = q;
  lapic = lapic_eoi (kernel place).lapic;
}

-- A key comes between the check and the read.
abbrev pub shown : List Event
shown = silent ∷ pressed (u8 31) true ∷ fetched 30 ∷ []

pub key_between : Run (kernel checking) shown (with_queue (handling 30) one_read)
unfolding check fetch after_read cqueue_read handle_keyboard after_write cqueue_write
key_between = next {k' = kernel fetching} (checks refl) (
    next {k' = with_queue fetching two_keys} (keyboard 31 true refl)
      (next {k' = with_queue (handling 30) one_read} (fetches 30 refl refl) stop))

-- A key comes between the check and the read.
key_before :
    Run (kernel checking) (silent ∷ pressed (u8 31) true ∷ []) (with_queue fetching two_keys)
unfolding check handle_keyboard after_write cqueue_write
key_before =
    next {k' = kernel fetching} (checks refl)
      (next {k' = with_queue fetching two_keys} (keyboard 31 true refl) stop)

Run-fetch_example :
    (k'' : Kernel) × (code : ℕ) × (fetch (with_queue fetching two_keys) ≡ returns k'' code)
    × (contents one_key ++ (31 ∷ []) ≡ code ∷ contents k''.q_keyboard)
Run-fetch_example =
    Run-fetch (kernel checking) (with_queue fetching two_keys) (silent ∷ pressed (u8 31) true ∷ [])
      one_key-IsValid refl key_before refl

Run-handle_keyboard_example :
    ((q : CQueue) × (b : Bool) × (handle_keyboard 32 (with_queue fetching two_keys)
        ≡ returns
            (record (with_queue fetching two_keys) {
              q_keyboard = q;
              lapic = lapic_eoi (lapic_eoi (kernel checking).lapic);
            })
            b)
      × (contents two_keys ++ taken (pressed (u8 32) b) ≡ contents q)
      × (b ≡ not (length (contents two_keys) == 2)))
    × ((held : ℕ) × (spinlock_lock 0 ≡ some held)
        × (handle_keyboard 32 (record (with_queue fetching two_keys) {
          q_keyboard = record two_keys { lock = held };
        })
            ≡ spins))
Run-handle_keyboard_example =
    Run-handle_keyboard (kernel checking) (with_queue fetching two_keys)
      (silent ∷ pressed (u8 31) true ∷ []) 32 one_key-IsValid refl key_before

empty_input : AtPrompt (kernel (handling 30)) []
empty_input = record {
  table = refl;
  screen = terminal-InScreen;
  input = refl;
  typed = refl;
  seconds = omega arith;
}

abbrev intel : Cpuid
intel n level = record { eax = 22; ebx = 0x756e6547; ecx = 0x6c65746e; edx = 0x49656e69 }

intel_vendor :
    vendor_line intel 0 ≡ (codes "CPU Vendor: %s\n", text_arg (codes "GenuineIntel") ∷ [])
unfolding vendor_line get_cpu_vendor string_at
intel_vendor = refl
