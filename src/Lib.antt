-- ===== src/Lib.antt =====
-- SeliOS, a small 32-bit x86 kernel in C: a boot path, a frame allocator, paging, threads, a text
-- screen, a RAM disk behind a virtual file system, and a shell. This library models its core logic
-- and proves what each part does.
--
-- Files, by the part of src/kernel that they model:
-- - Memory: memory.c, the bitmap of physical frames (set_bit, clear_bit, test_bit, allocate_frame,
--   free_frame, init_memory). Memory/Frames, Memory/Allocate and Memory/Init hold the proofs.
-- - CString: string.c (strncpy, strcmp, strcpy) and memcpy of memory.c. CString/Text says what text
--   an array holds, CString/Compare and CString/Copy hold the proofs.
-- - Fs: fs.h, the nodes of the virtual file system, and in Fs/Dispatch fs.c, the calls through their
--   function pointers (read_fs, write_fs, open_fs, close_fs, readdir_fs, finddir_fs).
--   Fs/Dispatch/Mounted says what a mounted disk is and that no access to it faults.
-- - Initrd: initrd.c and initrd.h, the RAM disk (initialize_initrd; initrd_read, initrd_readdir and
--   initrd_finddir are read, readdir and finddir). Initrd/Mount, Initrd/Read and Initrd/Find hold the
--   proofs. Initrd/Image is tools/make_initrd.c, the program that packs the image of the disk;
--   Initrd/Image/Layout and Initrd/Image/Fields say where the fields lie, and
--   Initrd/Image/RoundTrip mounts the image.
-- - Screen: utils.c and utils.h, the text screen. putchar_color is scroll followed by draw or
--   send_char. Screen/Bounds, Screen/Scroll, Screen/Hex, Screen/Total and Screen/Plain hold the proofs.
-- - Terminal: terminal.c, the shell (init_terminal; terminal_handle_scan is handle_scan, with one
--   function for each kind of key; terminal_run_command is run_command, with one function for each
--   command). Terminal/Line has the proofs on the typed line, Terminal/Commands those on the choice of
--   the command, Terminal/Ready those on what a command keeps, Terminal/Enter and Terminal/Keys the
--   invariant of the key handler, and Terminal/Open the opening of the shell. Terminal/Samples has
--   data for tests.
-- - Thread: thread.c and the part of switch_task.s that touches a thread. Thread/Walk, Thread/Ring and
--   Thread/Frame hold the proofs.
-- - Paging: map_page and init_paging of paging.c, the kernel's directory and its one page table.
--   Paging/Map holds the walk of the processor and the proofs on map_page, Paging/Identity those on
--   init_paging. Paging/User has map_user_page and create_user_page_directory, over a memory of words:
--   Paging/User/Window is about writes through a page of the kernel, Paging/User/Create about a new
--   directory, Paging/User/View says what a program sees, Paging/User/Page and Paging/User/Table are about
--   the two steps of map_user_page, and Paging/User/Extends and Paging/User/Refine about what is kept and
--   what is seen; Paging/User/Fresh is about a new directory in that view. Memory/Room counts the free
--   frames, and Memory/Samples has bitmaps for tests.
-- - Process: process.c, create_process over the heap, the frames and the tables. Process/Load,
--   Process/Pages and Process/Program are about the pages of the program, Process/Bytes, Process/Copy and
--   Process/Steady about the copy of its bytes, and Process/Create and Process/Result about the whole.
-- - Tasks: program.c, the two threads of the matrix, and what runs in between. Tasks/Live and
--   Tasks/Matrix hold the proofs.
-- - Interrupt: interrupt_handler.c and keyboard.c, with the state of the whole machine. deliver
--   lets an interrupt through the three gates that idt.c sets. Interrupt/Live says in which states
--   the handlers run to their end, Interrupt/Handled says what an interrupt does, Interrupt/Trace
--   is about every history of them, Interrupt/Quiet about those while the shell is closed;
--   Interrupt/Samples has data for tests.
-- - Alloc: alloc.c, the heap (malloc, free, morecore). Alloc/Search is about the place of a
--   freed block, Alloc/Insert about the joins with its neighbours, and Alloc/Free about the free
--   list as a whole; Alloc/Walk is about the search for a block, Alloc/Take about its removal,
--   Alloc/Malloc about both; Alloc/Round is about a search in vain, Alloc/Pages about the pages
--   that are mapped, Alloc/Fill about the block they become, Alloc/Grow about morecore and malloc
--   after it, and Alloc/Short about the case that the frames run out. Alloc/Give is about the
--   block that is given, and Alloc/Back about malloc and free in turn. Alloc/Sample has a heap for
--   tests.
-- - Kmain: kmain.c, from the boot loader to the loop that waits for interrupts. Kmain/Mount,
--   Kmain/Wait, Kmain/Start and Kmain/Live hold the proofs.
-- - Serial, Pic, Timer, Gdt, Idt: serial.c, pic.c, timer.c, gdt.c and idt.c. Port is outb of io.h.
-- - Prelude: shared names, arrays, bits, integers and string literals.
--
-- The parts work together as in the code: the shell calls the screen, the string routines and the
-- file system; the file system calls the RAM disk; the RAM disk calls the string routines. An
-- interrupt calls the shell, the threads and the interrupt controllers, and kmain starts them all.
--
-- Conventions. Numbers are natural numbers, and where the C sum or product of a machine word can
-- wrap, `% 2 ^ w` says so. A C array is a list of its elements, and a read or a write outside it is
-- the fault `none`. The VGA memory and the stacks are functions from the address, so that a write
-- outside what is meant is stored, and the theorems say where none is. Writes to ports are listed in
-- order. What `malloc` returns is a parameter, `none` for NULL, and so are the addresses that the
-- linker chooses, the status bytes of the serial port and what an uninitialised array holds.
--
-- Fuel and bounds. The loops of the frame allocator, the scroll and the hexadecimal digits run for
-- the number of rounds of the C loop. The loop of `ls` has one round more than the RAM disk has
-- files, since readdir answers NULL from that number on. The wait of the serial port runs over the
-- status bytes that are given.
--
-- The loop of the packer over the chunks of a file has one round more than the file has bytes. The
-- loops of kmain run over the list of interrupts that come.
-- The walks of malloc and free over the free list run on fuel; two rounds over the list are shown to be
-- enough for free, and for malloc where a block is big enough; three rounds are where the heap grows.
--
-- The copy of a program runs for the number of its bytes, and the loops over its pages for their number;
-- two free frames for each page, one for the page and one for a table, are shown to be enough.
--
-- Not modelled: multiboot.h is a copy of another project's header. Of the processor the model has
-- port writes, the walk of the page tables, the load of CR3 and the stack pointer of a thread
-- switch alone: lgdt, lidt, ltr, cli and sti are left out, and an interrupt is handled as one step,
-- also where it switches threads, between two rounds of a thread. The processor's buffer of
-- translations is not modelled: every access walks the tables, and the theorems on map_user_page
-- and create_process hold of a processor that keeps no translation across a change of a table,
-- since the code has no invlpg. A program's access asks for the user bit and the write bit in both
-- tables, the kernel's for present entries. Also after CR3 is loaded the kernel's own addresses go
-- through the kernel's own tables, as in a directory that shares its upper entries. The headers of
-- the heap are known by their virtual address, so that the theorems where the heap grows ask for an
-- end of at most 0xC0500000, up to which no page of the kernel from 0xC0100000 on is mapped anew.
-- The module is read through the tables of init_paging, which map the first 4 MiB. Nothing in the
-- repository calls create_process.
pub mod Prelude
pub mod Memory
pub mod CString
pub mod Fs
pub mod Initrd
pub mod Port
pub mod Serial
pub mod Pic
pub mod Timer
pub mod Gdt
pub mod Idt
pub mod Screen
pub mod Terminal
pub mod Thread
pub mod Interrupt
pub mod Tasks
pub mod Kmain
pub mod Alloc
pub mod Paging
pub mod Process
