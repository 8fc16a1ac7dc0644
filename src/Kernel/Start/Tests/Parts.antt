-- ===== src/Kernel/Start/Tests/Parts.antt =====
-- What the parts of the start make of that machine.
use bloreos.Base.{◌≡◌, refl, true, [], Option, some, none}
use bloreos.Atomic.{Outcome, returns, spins, halts, faults}
use bloreos.Ps2.{Io, ps2_init}
use bloreos.Ps2.Table.{no_keys}
use bloreos.Ps2.Keys.{KeyTable}
use bloreos.Serial.{init_serial, pit_disable_timer}
use bloreos.Kprintf.{port_com1}
use bloreos.Terminal.{Terminal}
use bloreos.Terminal.Print.{term_init}
use bloreos.Boot.{Map, memmap_alloc, kmem_init, align_up}
use bloreos.Slob.{Slob, slob_init}
use bloreos.Acpi.{Acpi, no_acpi, acpi_init}
use bloreos.Ioapic.{Ioapics, ioapic_redirect_irq}
use bloreos.Hpet.{Hpet, wait_counter, hpet_sleep_counter, hpet_init}
use bloreos.Lapic.{Lapic, lapic_timer_init, lapic_init}
use bloreos.Pci.{pci_init}
use bloreos.Idt.{keyboard_vector}
use bloreos.Kernel.Start.{
  cold_terminal, cold_slob, cold_hpet, cold_lapic, pci_window, bsp_lapic_id_unset,
}
use bloreos.Kernel.Start.Tests.Machine.{zeros, given}

abbrev pub some_or : {A : Type 0} → A → Option A → A
some_or d none = d
some_or d (some a) = a

abbrev pub state_or : {S A : Type 0} → S → Outcome S A → S
state_or d (returns s a) = s
state_or d spins = d
state_or d (halts s) = d
state_or d faults = d

abbrev pub port_after_serial : Io
port_after_serial = (some_or (0, given.port) (init_serial port_com1 given.port)).1

abbrev pub first_screen : Terminal
first_screen =
    state_or (cold_terminal zeros)
      (term_init given.frame given.modules (cold_terminal given.screen_memory))

abbrev pub map : Map
map =
    some_or given.map
      (kmem_init given.regions given.hhdm_offset given.bitmap_before given.entries_before given.map)

pub kmem :
    kmem_init given.regions given.hhdm_offset given.bitmap_before given.entries_before given.map
    ≡ some map
unfolding kmem_init align_up
kmem = refl

pub serial : init_serial port_com1 given.port ≡ some (0, port_after_serial)
unfolding init_serial
serial = refl

pub term :
    term_init given.frame given.modules (cold_terminal given.screen_memory)
    ≡ returns first_screen tt
unfolding term_init
term = refl

abbrev pub heap : Slob
heap = state_or (cold_slob given.heap map) (slob_init (cold_slob given.heap map) given.slob_before)

pub slob : slob_init (cold_slob given.heap map) given.slob_before ≡ returns heap none
unfolding slob_init memmap_alloc kmem_init align_up
slob = refl

abbrev pub acpi : Acpi
acpi = state_or no_acpi (acpi_init given.tables map.vmm_higher_half_offset given.rsdp no_acpi)

pub acpi_found :
    acpi_init given.tables map.vmm_higher_half_offset given.rsdp no_acpi ≡ returns acpi 3
unfolding acpi_init kmem_init align_up
acpi_found = refl

abbrev pub timers : Hpet × Ioapics
timers =
    state_or (cold_hpet given.hpet_device, given.ioapics)
      (hpet_init given.tables acpi given.ioapics bsp_lapic_id_unset map.vmm_higher_half_offset
        (cold_hpet given.hpet_device))

pub hpet :
    hpet_init given.tables acpi given.ioapics bsp_lapic_id_unset map.vmm_higher_half_offset
      (cold_hpet given.hpet_device)
    ≡ returns (timers.0, timers.1) tt
unfolding hpet_init ioapic_redirect_irq acpi_init kmem_init align_up
hpet = refl

abbrev pub locals : Hpet × Lapic
locals =
    some_or (timers.0, cold_lapic map.vmm_higher_half_offset given.lapic_device)
      (lapic_init given.polls given.counter given.timer_count given.apic_base_msr timers.0
        (cold_lapic map.vmm_higher_half_offset given.lapic_device))

pub lapic :
    lapic_init given.polls given.counter given.timer_count given.apic_base_msr timers.0
      (cold_lapic map.vmm_higher_half_offset given.lapic_device)
    ≡ some (locals.0, locals.1)
unfolding lapic_init lapic_timer_init hpet_sleep_counter wait_counter hpet_init ioapic_redirect_irq
    acpi_init kmem_init align_up
lapic = refl

pub pci :
    pci_init given.tables
      (pci_window given.tables map.vmm_higher_half_offset acpi)
      given.pci_memory
      []
    ≡ some []
unfolding pci_init pci_window acpi_init kmem_init align_up
pci = refl

abbrev pub port_before_ps2 : Io
port_before_ps2 = pit_disable_timer port_after_serial

abbrev pub keyboard_set : KeyTable × Io
keyboard_set = some_or (no_keys, port_before_ps2) (ps2_init no_keys port_before_ps2)

pub ps2 : ps2_init no_keys port_before_ps2 ≡ some (keyboard_set.0, keyboard_set.1)
unfolding ps2_init pit_disable_timer init_serial
ps2 = refl

abbrev pub routed : Ioapics
routed =
    state_or timers.1
      (ioapic_redirect_irq given.tables acpi timers.1 given.bsp_lapic_id keyboard_vector 1 true)

pub keyboard_routed :
    ioapic_redirect_irq given.tables acpi timers.1 given.bsp_lapic_id keyboard_vector 1 true
    ≡ returns routed 0
unfolding ioapic_redirect_irq acpi_init kmem_init align_up hpet_init
keyboard_routed = refl
