-- ===== src/Kernel/Start.antt =====
-- The start of kernel_main in src/kernel.c, up to the loop: the order of the parts, what they hand to
-- each other and what of them the loop works on. What the parts print is left open: any calls of
-- kprintf and term_fgcolor that return. An interrupt that comes before the loop is taken to come at its
-- first check.
pub mod Console
pub mod Ready
mod Tests
use bloreos.Base.{ℕ, ◌+◌, ◌≡◌, Bool, true, false, List, [], ◌∷◌, Option, some, none, Ram}
use bloreos.Atomic.{Outcome, returns}
use bloreos.Gdt.{GdtEntry, init_gdt}
use bloreos.Idt.{Idt, idt_init, timer_vector, keyboard_vector}
use bloreos.Str.Format.{Arg}
use bloreos.Ps2.{Io, ps2_init}
use bloreos.Ps2.Keys.{KeyTable}
use bloreos.Ps2.Table.{no_keys}
use bloreos.Serial.{init_serial, pit_disable_timer}
use bloreos.Kprintf.{port_com1, kprintf}
use bloreos.Terminal.{Terminal, Frame, Font, Module, term_fgcolor, term_default_fgcolor}
use bloreos.Terminal.Print.{term_init}
use bloreos.Boot.{Region, Map, kmem_init}
use bloreos.Slob.{Slob, slob_init}
use bloreos.Acpi.{Acpi, no_acpi, acpi_init, word64}
use bloreos.Ioapic.{Ioapics, ioapic_redirect_irq}
use bloreos.Hpet.{Hpet, hpet_init}
use bloreos.Cpu.{Cpus, Cpuid, cpu_init}
use bloreos.Cpu.Control.{Control, is_paging_enabled, get_cr4, cpu_get_address_widths}
use bloreos.Lapic.{Lapic, lapic_init}
use bloreos.Pci.{Window, PciDevice, pci_init}
use bloreos.Nvme.{Controller, nvme_init}
use bloreos.Queue.{cqueue_create}
use bloreos.Vm.{Widths, vm_init}
use bloreos.Kernel.{Kernel, checking}

-- What the machine, the bootloader and the linker give to the kernel, and what memory held before.
pub record Given : Type 0 where
  pub revision_supported : Bool
  pub port : Io
  pub frame : Frame
  pub modules : List Module
  pub screen_memory : Ram
  pub gdt : ℕ → GdtEntry
  pub isr_thunks : ℕ → ℕ
  pub isr_timer : ℕ
  pub isr_ps2 : ℕ
  pub isr_lapic_timer : ℕ
  pub regions : List Region
  pub hhdm_offset : ℕ
  pub map : Map
  pub bitmap_before : Ram
  pub entries_before : Ram
  pub slob_before : Ram
  pub heap : Ram
  pub tables : Ram
  pub rsdp : ℕ
  pub ioapics : Ioapics
  pub pci_memory : ℕ → Bool
  pub hpet_device : ℕ → ℕ
  pub bsp_lapic_id : ℕ
  pub cpu_count : ℕ
  pub apic_base_msr : ℕ
  pub polls : ℕ
  pub counter : ℕ → ℕ
  pub timer_count : ℕ
  pub lapic_device : ℕ → ℕ
  pub latch : ℕ → ℕ
  pub queue_memory : List ℕ
  pub queue_lock : ℕ
  pub control : Control
  pub cpuid : Cpuid
  pub ecx : ℕ

-- The globals of src/terminal.c as the program is loaded.
abbrev pub cold_terminal : Ram → Terminal
cold_terminal mem = record {
  mem = mem;
  frame = record { address = 0; width = 0; height = 0; pitch = 0 };
  font = record { magic = 0; char_height = 0; glyph_data = mem };
  max_rows = 0;
  max_cols = 0;
  glyph_width = 0;
  glyph_height = 0;
  is_ready = false;
  fgcolor = term_default_fgcolor;
  bgcolor = 0;
  render_x = 0;
  render_y = 0;
  input_render_x = 0;
  input_render_y = 0;
  cursor_x = 0;
  cursor_y = 0;
  input_str = λ i. 0;
  cursor_lock = 0;
  cursor_visible = false;
}

abbrev pub cold_hpet : (ℕ → ℕ) → Hpet
cold_hpet device = record { base_addr = 0; frequency = 0; ticks = 0; device = device }

-- After kmem_init; the interrupts are enabled when lapic_init is called.
abbrev pub cold_lapic : ℕ → (ℕ → ℕ) → Lapic
cold_lapic offset device = record {
  apic_base = 0;
  lapic_id = 0;
  vmm_higher_half_offset = offset;
  device = device;
  interrupts = true;
}

abbrev pub cold_slob : Ram → Map → Slob
cold_slob heap map = record { init = 0; entries = []; heap = heap; memory = map }

-- What src/pci.c reads of the MCFG: mmio_base at byte 44 and start at byte 54.
unfoldable pub pci_window : Ram → ℕ → Acpi → Window
pci_window m offset acpi = record {
  mmio_base = word64 m (acpi.mcfg + 44);
  start = m (acpi.mcfg + 54);
  vmm_higher_half_offset = offset;
}

-- Any calls of kprintf and term_fgcolor, one after the other, that return.
pub data Prints (s' : Io) (t' : Terminal) : Io → Terminal → Type 0 where
  quiet : Prints s' t' s' t'
  coloured :
      {s : Io} {t : Terminal} (color : ℕ) → Prints s' t' s (term_fgcolor color t) → Prints s' t' s t
  printed :
      {s s1 : Io} {t t1 : Terminal} (stack below : Ram) (format : List ℕ) (args : List Arg)
      → kprintf stack below format args s t ≡ some (s1, t1)
      → Prints s' t' s1 t1
      → Prints s' t' s t

-- hpet_init runs before cpu_init has set bsp_lapic_id.
abbrev pub bsp_lapic_id_unset : ℕ
bsp_lapic_id_unset = 0

-- kernel_main gets from its first line to the loop, in which its state is then k. The parts stand in
-- the order of their calls.
pub record Starts (e : Given) (k : Kernel) : Type 0 where
  pub supported : e.revision_supported ≡ true
  pub answer : ℕ
  pub port1 : Io
  pub serial : init_serial port_com1 e.port ≡ some (answer, port1)
  pub screen1 : Terminal
  pub term : term_init e.frame e.modules (cold_terminal e.screen_memory) ≡ returns screen1 tt
  pub port2 : Io
  pub screen2 : Terminal
  pub greeting : Prints port2 screen2 port1 screen1
  pub gdt : ℕ → GdtEntry
  pub gdt_set : gdt ≡ init_gdt e.gdt
  pub idt : Idt
  pub idt_set : idt ≡ idt_init e.isr_thunks e.isr_timer e.isr_ps2 e.isr_lapic_timer
  pub map : Map
  pub kmem : kmem_init e.regions e.hhdm_offset e.bitmap_before e.entries_before e.map ≡ some map
  pub heap : Slob
  pub slob : slob_init (cold_slob e.heap map) e.slob_before ≡ returns heap none
  pub acpi : Acpi
  pub entry : ℕ
  pub tables : acpi_init e.tables map.vmm_higher_half_offset e.rsdp no_acpi ≡ returns acpi entry
  pub timer : Hpet
  pub routed : Ioapics
  pub hpet :
      hpet_init e.tables acpi e.ioapics bsp_lapic_id_unset map.vmm_higher_half_offset
        (cold_hpet e.hpet_device)
      ≡ returns (timer, routed) tt
  pub cpus : Cpus
  pub cpu : cpus ≡ cpu_init e.bsp_lapic_id e.cpu_count
  pub timer' : Hpet
  pub local : Lapic
  pub lapic :
      lapic_init e.polls e.counter e.timer_count e.apic_base_msr timer
        (cold_lapic map.vmm_higher_half_offset e.lapic_device)
      ≡ some (timer', local)
  pub devices : List PciDevice
  pub pci :
      pci_init e.tables (pci_window e.tables map.vmm_higher_half_offset acpi) e.pci_memory []
      ≡ some devices
  pub controller : Option Controller
  pub nvme :
      controller
      ≡ nvme_init e.latch (pci_window e.tables map.vmm_higher_half_offset acpi) devices e.tables
  pub port3 : Io
  pub screen3 : Terminal
  pub reports : Prints port3 screen3 (pit_disable_timer port2) screen2
  pub keys : KeyTable
  pub port4 : Io
  pub ps2 : ps2_init no_keys port3 ≡ some (keys, port4)
  pub routed' : Ioapics
  pub gsi : ℕ
  pub keyboard :
      ioapic_redirect_irq e.tables acpi routed cpus.bsp_lapic_id keyboard_vector 1 true
      ≡ returns routed' gsi
  pub widths : Widths
  pub vm :
      widths
      ≡ vm_init
          (is_paging_enabled e.control)
          (get_cr4 e.control)
          (cpu_get_address_widths e.cpuid e.ecx)
  pub port5 : Io
  pub screen5 : Terminal
  pub closing : Prints port5 screen5 port4 screen3
  pub at_loop : k ≡ record {
    place = checking;
    q_keyboard = cqueue_create e.queue_memory e.queue_lock 200;
    scancode_map = keys.scancode_map;
    terminal = screen5;
    kernel_timer_secs = 0;
    hpet = timer';
    lapic = local;
  }
