-- ===== src/Kernel/Start/Tests.antt =====
-- The start on a machine where nothing is printed, and the press of a key.
mod Machine
mod Parts
use bloreos.Base.{
  ℕ, ◌*◌, ◌^◌, ◌≡◌, refl, true, List, [], ◌∷◌, ◌++◌, Ram, Option, some, none, if◌then◌else◌, ltb,
  ◌==◌, arith,
}
use bloreos.Atomic.{Outcome, returns, spins, halts, faults}
use bloreos.Ps2.{Io, ps2_init}
use bloreos.Ps2.Table.{no_keys}
use bloreos.Ps2.Keys.{KeyTable}
use bloreos.Serial.{init_serial, pit_disable_timer}
use bloreos.Kprintf.{port_com1}
use bloreos.Terminal.{Terminal, Module, font_path}
use bloreos.Terminal.Print.{term_init}
use bloreos.Boot.{Map, memmap_alloc, kmem_init, align_up}
use bloreos.Slob.{Slob, slob_init}
use bloreos.Acpi.{Acpi, no_acpi, acpi_init}
use bloreos.Ioapic.{Ioapics, ioapic_redirect_irq}
use bloreos.Hpet.{Hpet, wait_counter, hpet_sleep_counter, hpet_init}
use bloreos.Lapic.{Lapic, lapic_timer_init, lapic_init}
use bloreos.Pci.{pci_init}
use bloreos.Idt.{keyboard_vector, idt_init}
use bloreos.Gdt.{init_gdt}
use bloreos.Cpu.{cpu_init}
use bloreos.Cpu.Control.{is_paging_enabled, get_cr4, cpu_get_address_widths}
use bloreos.Vm.{vm_init}
use bloreos.Nvme.{nvme_init}
use bloreos.Kernel.Run.{Run, stop, next, all_taken}
use bloreos.Kernel.Session.{waiting, edit_all, Session}
use bloreos.Kernel.{
  Kernel, checking, check, after_write, handle_keyboard, Event, pressed, silent, keyboard, checks,
}
use bloreos.Queue.{cqueue_create, cqueue_write}
use bloreos.Kernel.Start.{
  Given, Starts, quiet, cold_terminal, cold_slob, cold_hpet, cold_lapic, pci_window,
  bsp_lapic_id_unset,
}
use bloreos.Kernel.Start.Ready.{IsSuited, Starts-Session, start-typed}
use bloreos.Kernel.Start.Tests.Machine.{tables, zeros, given}
use bloreos.Kernel.Start.Tests.Parts.{
  some_or, state_or, port_after_serial, first_screen, map, kmem, serial, term, heap, slob, acpi,
  acpi_found, timers, hpet, locals, lapic, pci, port_before_ps2, keyboard_set, ps2, routed,
  keyboard_routed,
}

abbrev kernel : Kernel
kernel = record {
  place = checking;
  q_keyboard = cqueue_create given.queue_memory given.queue_lock 200;
  scancode_map = keyboard_set.0.scancode_map;
  terminal = first_screen;
  kernel_timer_secs = 0;
  hpet = locals.0;
  lapic = locals.1;
}

started : Starts given kernel
unfolding cpu_init
started = record {
  supported = refl;
  answer = 0;
  port1 = port_after_serial;
  serial = serial;
  screen1 = first_screen;
  term = term;
  port2 = port_after_serial;
  screen2 = first_screen;
  greeting = quiet;
  gdt = init_gdt given.gdt;
  gdt_set = refl;
  idt = idt_init given.isr_thunks given.isr_timer given.isr_ps2 given.isr_lapic_timer;
  idt_set = refl;
  map = map;
  kmem = kmem;
  heap = heap;
  slob = slob;
  acpi = acpi;
  entry = 3;
  tables = acpi_found;
  timer = timers.0;
  routed = timers.1;
  hpet = hpet;
  cpus = cpu_init given.bsp_lapic_id given.cpu_count;
  cpu = refl;
  timer' = locals.0;
  local = locals.1;
  lapic = lapic;
  devices = [];
  pci = pci;
  controller =
      nvme_init given.latch (pci_window given.tables map.vmm_higher_half_offset acpi) []
        given.tables;
  nvme = refl;
  port3 = port_before_ps2;
  screen3 = first_screen;
  reports = quiet;
  keys = keyboard_set.0;
  port4 = keyboard_set.1;
  ps2 = ps2;
  routed' = routed;
  gsi = 0;
  keyboard = keyboard_routed;
  widths =
      vm_init (is_paging_enabled given.control) (get_cr4 given.control)
        (cpu_get_address_widths given.cpuid given.ecx);
  vm = refl;
  port5 = keyboard_set.1;
  screen5 = first_screen;
  closing = quiet;
  at_loop = refl;
}

suited : IsSuited given
suited = record {
  queue = refl;
  lock = refl;
  wide = omega arith;
  narrow = omega arith;
  fonts = refl;
  low = omega arith;
}

Starts-Session_example : Session kernel [] × (waiting kernel ≡ [])
Starts-Session_example = Starts-Session given kernel suited started

-- The key `a` is pressed before the first check.
abbrev one_pressed : Kernel
one_pressed = state_or kernel (handle_keyboard 30 kernel)

abbrev a_pressed : List Event
a_pressed = pressed 30 true ∷ silent ∷ []

pressed-Run : Run kernel a_pressed (check one_pressed)
unfolding handle_keyboard after_write cqueue_write cqueue_create
pressed-Run =
    next {k' = one_pressed} (keyboard {k = kernel} {k' = one_pressed} 30 true refl)
      (next (checks refl) stop)

start-typed_example :
    (done : List ℕ) × (all_taken a_pressed ≡ done ++ waiting (check one_pressed))
    × Session (check one_pressed) (edit_all done [])
start-typed_example =
    start-typed given kernel (check one_pressed) a_pressed suited started pressed-Run
