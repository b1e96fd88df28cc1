-- ===== src/Lib.antt =====
-- Chestnut-64, a small 64-bit kernel for virtual machines (kern/).
--
-- The parts that are modelled, and how they interact. The boot loader's memory map leads
-- kern/mm/allocator.cc to the physical pages, which it hands out one by one or in runs. The slab
-- allocator of kern/mm/uslab.cc takes single pages from it and cuts them into objects, and its
-- `Alloc` and `Free` send large requests to the page allocator. Both keep their pages and slabs on
-- the intrusive lists of kern/libc/list.h. Vectors (kern/libc/vector.h) live on `Alloc`, and copy
-- with the functions of kern/libc/string.c. The page table (kern/page-table.cc) maps the ranges
-- of the memory map in tables whose pages come from the page allocator. The tables of the firmware
-- (kern/acpi.cc) name the processors, which `BootSmp` starts by commands of the local APIC
-- (kern/apic.h), and the I/O APICs; the clocks (kern/kvm-clock.cc) set the timer. An interrupt
-- enters by a gate (kern/irqs.cc), whose wrapper saves the registers and calls the handlers. All
-- parts print to the console (kern/console.cc). The scheduler (kern/scheduler.cc) is a queue on the
-- lists, and not part of the build yet.
--
-- Files and code.
--   Base        Boolean tests, lists over native numbers, bits of numbers.
--   Links       `ListNode` (kern/libc/list.h): a memory of `prev` and `next` fields by address;
--               Links/Ring says that a ring of nodes is in it.
--   Pages       `MemPages` (kern/mm/allocator.h, kern/mm/allocator.cc): the free list, `AllocPage`,
--               `FreePage`, `AllocPages`, `FreePages`; Pages/Setup has `Init` and
--               `CollectAvailable` over the entries of kern/multiboot2.h.
--   Slab        kern/mm/uslab.cc: the interface that `MemCache` asks of a slab, with its promise;
--               Slab/FreeStack (`FreeListSlab`), Slab/Bitmap (`BitmapSlab`) and Slab/Meta
--               (`MetaSlab`) keep it; Slab/Cache is `MemCache` over any slab that does, and
--               Slab/Cache/Addresses its promise in addresses; Slab/Heap puts a cache together
--               with `meta_slab_cache`, where its slabs come from; Slab/Globals has the global
--               caches, and Slab/SizeClass `FitGlobalMemCache` with the ways of `Alloc` and `Free`.
--   Bytes       `memcpy`, `memmove` and `memset` (kern/libc/string.c).
--   Strings     the functions on strings and `memcmp` (kern/libc/string.c), kern/libc/ctype.h.
--   Vector      `BaseVector` and `Vector<T>` (kern/libc/vector.h, kern/libc/vector.cc).
--   Clock       kern/kvm-clock.cc: `BootClock` beside a host that writes, `ProcessorNano`, the
--               first loop of `BootTime` (Clock/Sample), and its compare and swap as steps of
--               several callers.
--   Apic        kern/apic.h, kern/apic.cc: interrupt commands, and `IoApic::Init`; Apic/Group is
--               `Acpi::InitIoApics` (kern/acpi.cc).
--   LocalApic   the registers of kern/apic.h and `LocalApic::InitCpu` (kern/apic.cc).
--   Irqs        kern/irqs.cc, kern/irqs.h: `IrqVector::InstallIrqFunction`, the chains of handlers
--               (Irqs/Chain), `Setup` (Irqs/Setup), and the pushes and pops of
--               `InterruptWrapper` over `Context` of kern/thread.h (Irqs/Context).
--   PageTable   kern/page-table.h, kern/page-table.cc: entries, and `MapPagesToPageTable`;
--               PageTable/Walk has the tables in memory, `AllocateOrPresent` and `MapPage`, and
--               PageTable/Walk/Tree the walk of the processor; PageTable/Kernel is
--               `InitBootPageTable`, the loop of `MapPagesToPageTable` and `InitKernelPageTable`.
--   Console     kern/console.cc, kern/console.h, kern/terminal.cc, kern/terminal.h:
--               Console/Format is `vprintf`, Console/Screen `VGABuffer::WriteByte` with the drawing
--               of `Terminal`, Console/Terminal its objects, Console/Sources `Console` with its
--               sources and `SerialPort`.
--   Acpi        kern/acpi.cc: the search and the tables; Acpi/Madt says what the entries are in
--               memory, Acpi/Smp is `BootSmp`.
--   Scheduler   kern/scheduler.cc over the lists of Links.
--   Thread      `SaveContext` and `RestoreContext` (kern/thread.cc) as instructions.
--   Ports       the PCI registers of kern/io-ports.h.
--   Processor   kern/cpu.h, kern/cpu.cc: model specific registers, with those of kern/apic.cc and
--               of the clocks.
--   Boot        `ParseMultibootInfo` (kern/main.cc).
--
-- Conventions. Numbers are natural numbers, and a sum of the code that can wrap has its `% 2 ^ w`.
-- A pointer is its address. A failed `kassert` or an access that C++ leaves open is `none`; only
-- the write of `Setup` behind the end of its array is recorded, by its index, and the `int` lengths
-- of `memcpy` and `memmove` are taken to wrap around. What a
-- function gets from another allocator or from hardware is an argument of it: the addresses that
-- `Allocate` would get for a new slab, the memory for a larger array, the results of
-- `__builtin_ctzl` and `__builtin_clz` at 0, the registers of an I/O APIC, the host's record of
-- the time, the number of the processor, and the register that the compiler takes for the operand
-- of `SaveContext` or `RestoreContext`. The hypotheses on them say what those promise.
--
-- Bounds. Loops over arrays recur on the number of rounds. `boot_clock`, `map_pages` and the
-- functions on strings recur on fuel: the first waits for its host, and its fuel is enough as soon
-- as a round is undisturbed; the second needs a round for each page of the range at most, the last
-- ones a round for each byte. The loops over the tables of the firmware and the tags of the boot
-- loader need a round for each entry; the wait of `BootSmp` needs as many as the started processor
-- takes. `vprintf` has 64 rounds for a number, of which 20 are enough. The queues of `MemCache`
-- are lists of nodes, for which the rings of Links stand in the code. The wait of `BootTime` for its
-- host is as that of `boot_clock`, and `map_range` needs a round for each page like `map_pages`.
--
-- Not modelled: `CreateNew`, which no code calls; the translation of addresses behind
-- `MapPagesToPageTable` with large pages, and the dump of a page table; the threads of kern/thread.cc
-- but for their context; the state of the floating point unit; inline assembly that only waits,
-- halts or loads a register of the processor, and the assembly files; kern/multiboot2.h but for the
-- tags that are read, since it is the header of the boot loader; messages that are only printed.
pub mod Base
pub mod Links
pub mod Pages
pub mod Slab
pub mod Bytes
pub mod Vector
pub mod Clock
pub mod Apic
pub mod PageTable
pub mod LocalApic
pub mod Strings
pub mod Irqs
pub mod Console
pub mod Acpi
pub mod Scheduler
pub mod Thread
pub mod Boot
pub mod Ports
pub mod Processor
