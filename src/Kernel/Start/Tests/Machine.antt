-- ===== src/Kernel/Start/Tests/Machine.antt =====
-- A machine with a screen of 20 by 20 pixels, an I/O APIC, an HPET, a PCI bus where nothing answers and
-- a keyboard controller that is always ready.
use bloreos.Base.{◌*◌, ◌^◌, true, List, [], ◌∷◌, ◌++◌, Ram, if◌then◌else◌, ltb, ◌==◌}
use bloreos.Terminal.{Module, font_path}
use bloreos.Kernel.Start.{Given}

-- The RSDP at 256, the XSDT at 512 and its three tables from 768 on; the configuration space of PCI
-- holds ones.
abbrev pub tables : Ram
tables a =
    if a == 271
    then 2
    else if a == 281
    then 2
    else if a == 516
    then 60
    else if a == 549
    then 3
    else if a == 557
    then 4
    else if a == 565
    then 5
    else if a == 768
    then b'H'
    else if a == 769
    then b'P'
    else if a == 770
    then b'E'
    else if a == 771
    then b'T'
    else if a == 1024
    then b'M'
    else if a == 1025
    then b'C'
    else if a == 1026
    then b'F'
    else if a == 1027
    then b'G'
    else if a == 1070
    then 1
    else if a == 1280
    then b'A'
    else if a == 1281
    then b'P'
    else if a == 1282
    then b'I'
    else if a == 1283
    then b'C'
    else if a == 1284
    then 56
    else if a == 1324
    then 1
    else if a == 1325
    then 12
    else if ltb a 65536
    then 0
    else 255

abbrev pub zeros : Ram
zeros a = 0

abbrev pub twenty_times : {A : Type 0} → A → List A
twenty_times a = a ∷ a ∷ a ∷ a ∷ a ∷ a ∷ a ∷ a ∷ a ∷ a ∷ a ∷ a ∷ a ∷ a ∷ a ∷ a ∷ a ∷ a ∷ a ∷ a ∷ []

abbrev pub hundred_times : {A : Type 0} → A → List A
hundred_times a =
    twenty_times a ++ twenty_times a ++ twenty_times a ++ twenty_times a ++ twenty_times a

abbrev pub font : Module
font = record {
  path = font_path;
  file = record { magic = 0x0436; char_height = 9; glyph_data = zeros };
}

abbrev pub given : Given
given = record {
  revision_supported = true;
  port = record { answers = 0xae ∷ 0 ∷ 0 ∷ 0 ∷ 0 ∷ 1 ∷ 0 ∷ 0 ∷ 0 ∷ 0 ∷ 0 ∷ []; effects = [] };
  frame = record { address = 0; width = 20; height = 20; pitch = 80 };
  modules = font ∷ [];
  screen_memory = zeros;
  gdt = λ i. record {
    limit_low = 0;
    base_low = 0;
    base_middle = 0;
    access = 0;
    granularity = 0;
    base_high = 0;
  };
  isr_thunks = λ i. i;
  isr_timer = 100;
  isr_ps2 = 101;
  isr_lapic_timer = 102;
  regions = record { base = 0x10000; length = 0x10000; kind = 0 } ∷ [];
  hhdm_offset = 0;
  map = record {
    regions = [];
    max_pages_available = 0;
    total_memory_bytes = 0;
    highest_address = 0;
    lowest_address = 0;
    num_pages_in_map = 0;
    num_pages_available = 0;
    vmm_higher_half_offset = 0;
    page_bitmap = zeros;
    entry_map = zeros;
  };
  bitmap_before = zeros;
  entries_before = zeros;
  slob_before = zeros;
  heap = zeros;
  tables = tables;
  rsdp = 256;
  ioapics = record { version = λ p. 23 * 2 ^ 16; writes = [] };
  pci_memory = λ n. true;
  hpet_device = λ a. 100000000 * 2 ^ 32;
  bsp_lapic_id = 1;
  cpu_count = 2;
  apic_base_msr = 0xfee00900;
  polls = 5;
  counter = λ i. i * 500000;
  timer_count = 4294966295;
  lapic_device = zeros;
  latch = λ v. v;
  queue_memory = hundred_times 0 ++ hundred_times 0;
  queue_lock = 0;
  control = record { cr0 = 0x80000001; cr3 = 0; cr4 = 0x20; interrupts = true; idtr = 0 };
  cpuid = λ n level. record { eax = 0x3024; ebx = 0; ecx = 0; edx = 0 };
  ecx = 0;
}
