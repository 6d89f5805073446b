-- ===== src/Kmain/Tests.antt =====
-- A kernel at boot, with an image of one empty file and one that is missing.
use seli_os.Gdt.{GdtEntry}
use seli_os.Idt.{IdtEntry}
use seli_os.Initrd.Image.{FileHeader, Files}
use seli_os.Initrd.Image.Fields.{image, main-image}
use seli_os.Interrupt.{Machine, Outside, CpuState, Event, run}
use seli_os.Interrupt.Live.{IsLive, IsSound}
use seli_os.Interrupt.Handled.{Trace}
use seli_os.Interrupt.Quiet.{IsWaiting, tick_event, key_event}
use seli_os.Kmain.{Kernel, Linked, MultibootInfo, Allocated, kmain}
use seli_os.Kmain.Start.{image_module}
use seli_os.Kmain.Live.{IsBootable, kmain-run}
use seli_os.Serial.Output.{ready_count-replicate}
use seli_os.Terminal.Samples.{shell, shell-IsReady}
use seli_os.Thread.{Thread, Threads}
use seli_os.Prelude.{
  ℕ, ◌+◌, ◌^◌, ◌≤◌, ◌≡◌, inl, inr, length, refl, false, none, some, List, [], ◌∷◌, ◌++◌, replicate,
  length-replicate, arith,
}

abbrev cell : Thread
cell = record { esp = 0; next_thread = none }

abbrev name_cell : List ℕ
name_cell = replicate 128 9

abbrev header : FileHeader
header = record { magic_number = 77; file_length = 0; starting_offset = 0; file_name = name_cell }

abbrev rootfs : Files
rootfs path = none

abbrev linked : Linked
linked = record {
  kernel_physical_start = 0x100000;
  kernel_physical_end = 0x110000;
  page_directory_physical = 0x105000;
  gdt_address = 0xC0106000;
  tss_address = 0xC0107000;
  idt_address = 0xC0108000;
  handler_32 = 0xC0101000;
  handler_33 = 0xC0101010;
  handler_128 = 0xC0101020;
  task_a = 0xC0102000;
  task_b = 0xC0103000;
}

abbrev info : MultibootInfo
info = record {
  mem_lower = 640;
  mem_upper = 0xFC00;
  mods_count = 1;
  mod_start = 0x120000;
  module_bytes = image rootfs header header refl refl;
}

abbrev given : Allocated
given = record {
  malloc_root = some name_cell;
  malloc_files = λ n. some (name_cell ∷ name_cell ∷ []);
  thread_a = some cell;
  stack_a = some 0xC0400000;
  thread_b = some cell;
  stack_b = some 0xC0402000;
}

abbrev gate : IdtEntry
gate = record { base_low = 0; sel = 0; always0 = 0; flags = 0; base_high = 0 }

abbrev segment : GdtEntry
segment = record {
  limit_low = 0;
  base_low = 0;
  base_middle = 0;
  access = 0;
  granularity = 0;
  base_high = 0;
}

abbrev threads : Threads
threads = record { heap = cell ∷ []; current_thread = none; words = λ a. 0 }

abbrev machine : Machine
machine = record { terminal = shell false; threads = threads; keyboard_port = 0; esp = 0x7000 }

abbrev kernel : Kernel
kernel = record {
  machine = machine;
  paging = record { page_directory = λ i. 0; first_page_table = λ i. 0; table_physical = 0x104000 };
  cr3 = 0;
  gdt_entries = replicate 6 segment;
  gdt = record { size = 0; address = 0 };
  idt_entries = replicate 256 gate;
  idt = record { size = 0; address = 0 };
  bitmap = replicate 4096 0;
}

machine-IsWaiting : IsWaiting threads machine
machine-IsWaiting = record {
  ready = shell-IsReady false;
  closed = record { shell = refl; calm = refl };
  same = refl;
}

module_length : length info.module_bytes ≡ 284
module_length = refl

module_small : 0x120000 + length info.module_bytes ≤ 2 ^ 22
module_small = omega (arith, module_length)

kernel-IsBootable : IsBootable linked info given kernel
kernel-IsBootable = record {
  gdt_size = refl;
  idt_size = length-replicate {A = IdtEntry} 256 gate;
  idt_entry = gate;
  handlers = (omega arith, omega arith, omega arith);
  port = omega (arith, ready_count-replicate 40);
  bitmap = length-replicate {A = ℕ} 4096 0;
  ram = omega arith;
  order = omega arith;
  kernel = omega arith;
  shell = machine-IsWaiting;
  some_thread = omega arith;
  loaded =
      image_module rootfs header header name_cell (name_cell ∷ name_cell ∷ []) (omega arith)
        (main-image rootfs header header refl refl (omega arith)) refl refl (omega arith) refl refl
        refl refl (refl, (refl, tt));
  mapped = module_small;
  table = 0x104;
  table_is = refl;
  page = 0x100;
  page_is = refl;
  low = omega arith;
  thread_a = cell;
  thread_a_is = refl;
  stack_a = 0xC0400000;
  stack_a_is = refl;
  thread_b = cell;
  thread_b_is = refl;
  stack_b = 0xC0402000;
  stack_b_is = refl;
}

abbrev no_registers : CpuState
no_registers = record { ebx = 0; eax = 0 }

abbrev event : ℕ → ℕ → Event
event intr_no scan_code = record { intr_no = intr_no; cpu = no_registers; scan_code = scan_code }

abbrev outside : Outside
outside = record { bytes_at = λ address. b'H' ∷ b'i' ∷ 0 ∷ []; local = replicate 256 0 }

outside-IsSound : IsSound outside
outside-IsSound = record {
  terminated = λ address. (b'H' ∷ b'i' ∷ [], refl);
  size = length-replicate {A = ℕ} 256 0;
}

-- A tick and a key, then Enter, then a key and a tick.
kmain-run_example :
    (k' : Kernel) × (m : Machine) × (kmain outside linked info given
        ((event 32 0 ∷ event 33 0x1E ∷ []) ++ (event 33 0x1C ∷ event 33 0x1E ∷ event 32 0 ∷ []))
        kernel
      ≡ some (k', event 33 0x1E ∷ event 32 0 ∷ []))
    × (run outside (event 33 0x1E ∷ event 32 0 ∷ []) k'.machine ≡ some m)
    × IsLive m
    × Trace outside (event 33 0x1E ∷ event 32 0 ∷ []) k'.machine m
kmain-run_example =
    kmain-run linked info given kernel outside (event 32 0 ∷ event 33 0x1E ∷ []) (event 33 0x1C)
      (event 33 0x1E ∷ event 32 0 ∷ []) kernel-IsBootable outside-IsSound
      (tick_event refl, (key_event refl (omega arith) (λ e. ground arith), tt)) refl refl
      ((inr (inl refl), omega arith), ((inl refl, omega arith), tt))
