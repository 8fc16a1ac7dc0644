-- ===== src/Lib.antt =====
-- A verification library for BloreOS, a small x86-64 kernel in C. It models the parts of the kernel
-- that carry its logic, definition by definition from the source, and proves what makes them correct.
--
-- The parts, the files that model them, and how they fit together:
--   Base        tests, arrays, a memory of bytes (a function from addresses), and laws of bits; it
--               stands for no file of the kernel.
--   Atomic      src/include/atomic.h, the spinlock, and Outcome, the ways in which a call can end:
--               it returns, waits for ever (`spins`), stops the CPU as `hcf` of src/kernel.h does
--               (`halts`), or reads or writes through NULL (`faults`).
--   Bitmap      src/include/bitmap.h.
--   MemOps      memcpy, memset, memmove and memcmp of src/mem.c.
--   Pmm         kalloc, kpalloc and kfree of src/mem.c over the flags of Bitmap. `find_run` is the loop
--               of kalloc, `collect` and `forward` its two halves. Pmm/Search has the laws of the loop,
--               Pmm/Alloc those of kalloc, Pmm/Free those of kfree.
--   Boot        the start of src/mem.c (_init_stats, memmap_alloc, _create_page_bitmap,
--               _get_free_pages, kmem_init) over the list of regions that the bootloader gives;
--               Boot/EntryMap has _create_entry_map and the sizes of the tables, Boot/Dump the printing
--               of memory.
--   Slob        src/alloc/slob.c, which starts from the same regions. Slob/Held says which bytes a free
--               list holds, Slob/Twice which of them kalloc has as well.
--   Bump        src/alloc/bump.c, a client of Pmm.
--   Vm          src/vm.c.
--   Gdt, Idt    src/gdt.c and src/idt.c with their headers; Gdt/Reload loads the segment registers.
--   Queue       src/lib/queue.c; Queue/Fifo is the abstract queue that it implements.
--   Str         src/lib/str.c: Str/Numbers the conversions of numbers, Str/Binary the binary text,
--               Str/Alphabet which characters they write, Str/Format vsnprintf, Str strlen and strcmp.
--   Ps2         src/drivers/ps2.c; Ps2/Keys has the key map.
--   Acpi        src/acpi.c; Acpi/Layout has the packed structures of its header.
--   Ioapic      src/ioapic.c, which works on the lists that Acpi leaves.
--   Pci         src/pci.c; Pci/Scan has the laws of the scan, Pci/Address those of the places in the
--               configuration space.
--   Terminal    src/terminal.c over the frame buffer in memory: Terminal/Draw the glyphs, the cursor and
--               the input line, Terminal/Print tprintf and term_init, Terminal/Input the keys and the
--               commands. The laws of drawing are in Terminal/Kept, of scrolling in Terminal/Scroll, of
--               printing in Terminal/Lines and Terminal/InScreen, of the keys in Terminal/Edit,
--               Terminal/Timed, Terminal/Enter and Terminal/Typed; Terminal/StaysIn and Terminal/Room
--               say what holds of every call that returns, whatever it prints.
--   Serial      src/serial.c and src/pit.c.
--   Kprintf     kprintf of src/lib/str.c, which calls Str, Serial and Terminal; Kprintf/Lines is a
--               sequence of its calls.
--   Nvme        src/drivers/nvme.c, a client of Pci.
--   Hpet        src/hpet.c, which redirects its interrupt through Ioapic.
--   Lapic       src/lapic.c, which calibrates its timer against Hpet.
--   Cpu         src/include/cpu.h, src/include/cpuid.h and src/cpu.c; Cpu/Control has the control
--               registers and the interrupt flag, Cpu/Handlers src/isr_ps2.S and src/isr_faults.S,
--               Cpu/Awake the start of another core.
--   Kernel      the loop of src/kernel.c as a step relation, whose other steps are the interrupt
--               handlers of src/idt.c; it joins Queue, Ps2, Terminal, Hpet and Lapic. The
--               laws of a step are in Kernel/Passes, of runs in Kernel/Run, of the key events in
--               Kernel/Progress and Kernel/Prompt. Kernel/Session is the invariant of all of it, with
--               the keys that wait and the input as a list of characters; Kernel/Session/Runs and
--               Kernel/Session/Drains have its laws; `loop` is the loop without interrupts. Kernel/Start is the sequence of parts before the
--               loop, which joins all the components above, and Kernel/Start/Ready the session that it
--               leaves. Kernel/Report is report_cpu_details.
-- Each component's theorems stand in child modules named for what they prove, and its witnesses in its
-- child Tests.
--
-- State is passed explicitly: a function takes the record of the variables that the C function works
-- on and gives back the new one. Numbers are natural numbers, and the wrap-around of the machine's
-- words is written out (u8, u16, u32, u64). Memory is a function from addresses to bytes or words.
-- Arguments of the definitions stand for what the source does not contain: the bootloader's memory
-- map and its frame buffer and font, the answers of devices to port reads, the readings of counters and
-- version registers, whether malloc has memory for a PCI record, what a register makes of a value, what the stack and new memory held before, the
-- linker's addresses, and what cpuid and rdmsr report. Kernel/Start collects them in one record.
--
-- Loops are by structural recursion or on fuel. kalloc is given twice the number of pages and one more
-- rounds, which its search never uses up; a conversion of a number is given 64 rounds, one for each
-- digit of a 64-bit number in base 2; the walk over a MADT is given one more round than the table has
-- bytes, and vsnprintf one more than the format has.
-- A loop that waits for a device has the answers as an argument, or a number of readings that it looks
-- at. The buffers of tprintf and kprintf have 256 bytes, and their loops a round for each.
--
-- Not modelled: printing inside the other functions, which the start of the kernel leaves open as any
-- calls of kprintf that return; an interrupt during the start, which counts as one at the first check of
-- the loop; the actions of other cores, so that a lock that is taken stays taken; the access to rax, and the ports of 16 and 32 bits, which nothing uses.
-- src/include/limine.h is the bootloader's, apart from the records that the kernel reads.
pub mod Base
pub mod Bitmap
pub mod Queue
pub mod MemOps
pub mod Atomic
pub mod Pmm
pub mod Boot
pub mod Slob
pub mod Bump
pub mod Vm
pub mod Gdt
pub mod Idt
pub mod Str
pub mod Ps2
pub mod Acpi
pub mod Ioapic
pub mod Pci
pub mod Terminal
pub mod Serial
pub mod Nvme
pub mod Kprintf
pub mod Hpet
pub mod Lapic
pub mod Cpu
pub mod Kernel
