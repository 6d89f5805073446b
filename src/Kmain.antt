-- ===== src/Kmain.antt =====
-- src/kernel/kmain.c: what the kernel does from the boot loader to the loop that waits for interrupts.
-- The instructions that load CR3 and CR0, and `sti`, are not modelled, except for the value of CR3.
pub mod Mount
pub mod Wait
pub mod Start
pub mod Live
mod Tests
use seli_os.Fs.{FsNode}
use seli_os.Gdt.{GdtEntry, GdtPointer, init_gdt}
use seli_os.Idt.{IdtEntry, IdtPointer, init_idt}
use seli_os.Initrd.{Region, initialize_initrd}
use seli_os.Interrupt.{Machine, Outside, Event, on_terminal, send, deliver}
use seli_os.Memory.{Bitmap, allocate_frame, init_memory}
use seli_os.Paging.{Paging, init_paging}
use seli_os.Paging.Map.{resolve}
use seli_os.Pic.{pic_init}
use seli_os.Screen.{Screen, device_fb, device_serial, printf, clear_screen, print_lock_screen}
use seli_os.Serial.{serial_init}
use seli_os.Terminal.{Terminal, init_terminal, print}
use seli_os.Thread.{Thread, init_threads, create_thread}
use seli_os.Timer.{init_timer}
use seli_os.Prelude.{
  ℕ, ◌+◌, ◌-◌, ◌*◌, ◌%◌, ◌^◌, Bool, false, ◌==◌, Option, none, some, List, [], ◌∷◌, ltb,
  if◌then◌else◌, ◌>>=◌,
}
use seli_os.Prelude.Strings.{c_str}

-- The kernel's globals and tables.
pub record Kernel : Type 0 where
  pub machine : Machine
  pub paging : Paging
  pub cr3 : ℕ
  pub gdt_entries : List GdtEntry
  pub gdt : GdtPointer
  pub idt_entries : List IdtEntry
  pub idt : IdtPointer
  pub bitmap : Bitmap

-- Addresses that the linker chooses.
pub record Linked : Type 0 where
  pub kernel_physical_start : ℕ
  pub kernel_physical_end : ℕ
  pub page_directory_physical : ℕ
  pub gdt_address : ℕ
  pub tss_address : ℕ
  pub idt_address : ℕ
  pub handler_32 : ℕ
  pub handler_33 : ℕ
  pub handler_128 : ℕ
  pub task_a : ℕ
  pub task_b : ℕ

-- The fields of the boot loader's `multiboot_info_t` that are read. `mod_start` is that of the first
-- module, and `module_bytes` is what memory holds from that physical address on. Where the boot loader has put the
-- information itself is not modelled.
pub record MultibootInfo : Type 0 where
  pub mem_lower : ℕ
  pub mem_upper : ℕ
  pub mods_count : ℕ
  pub mod_start : ℕ
  pub module_bytes : List ℕ

-- What the calls of `malloc` return, in order: for the root and the files of the disk, and for each
-- of the two threads.
pub record Allocated : Type 0 where
  pub malloc_root : Option (List ℕ)
  pub malloc_files : ℕ → Option (List (List ℕ))
  pub thread_a : Option Thread
  pub stack_a : Option ℕ
  pub thread_b : Option Thread
  pub stack_b : Option ℕ

abbrev pub on_screen : (Screen → Option Screen) → Machine → Option Machine
on_screen f m = on_terminal (λ t. f t.screen >>= λ s. some (record t { screen = s })) m

-- `while (!shell_active) hlt`: one interrupt in each round, and the interrupts that are left. It is
-- `none` if the history ends before the shell is opened.
pub wait_shell : Outside → List Event → Machine → Option (Machine × List Event)
wait_shell out [] m = if m.terminal.shell_active then some (m, []) else none
wait_shell out (e ∷ events) m =
    let next = deliver out e m >>= wait_shell out events in
    if m.terminal.shell_active then some (m, e ∷ events) else next

-- The bytes of memory from a physical address on, as far as the kernel finds them behind the addresses
-- from `virtual_address` on.
pub reachable : Paging → ℕ → ℕ → List ℕ → List ℕ
reachable p virtual_address physical_address [] = []
reachable p virtual_address physical_address (byte ∷ bytes) =
    let rest = reachable p (virtual_address + 1) (physical_address + 1) bytes in
    if leads_to (resolve p virtual_address) physical_address then byte ∷ rest else []
  where
    leads_to : Option ℕ → ℕ → Bool
    leads_to none a = false
    leads_to (some b) a = b == a

-- Mounts the first module that the boot loader has put into memory. A byte of it that the tables do not
-- lead to is out of reach, and reading it is a fault.
pub mount_module : Paging → MultibootInfo → Allocated → Terminal → Option Terminal
mount_module paging info given t =
    if ltb 0 info.mods_count
    then (do
      let initrd_location = (info.mod_start + 0xC0000000) % 2 ^ 32
      printed ← print (c_str "Initrd loaded at memory address...\n") t
      let blob : Region = record {
        base = initrd_location;
        bytes = reachable paging initrd_location info.mod_start info.module_bytes;
      }
      disk ←
          initialize_initrd blob initrd_location printed.disk.dirent given.malloc_root
            given.malloc_files
      some (record printed { fs_root = some disk.root; disk = disk }))
    else print (c_str "ERROR: No GRUB modules loaded!\n") t

-- The two threads next to the main one, and the timer.
pub start_threads : Linked → Allocated → Machine → Option Machine
start_threads linked given m = do
  main_thread ← init_threads m.threads
  one ← create_thread linked.task_a given.thread_a given.stack_a main_thread
  two ← create_thread linked.task_b given.thread_b given.stack_b one
  sent ← init_timer 100
  some (send sent (record m { threads = two }))

-- The devices and the tables, up to the message on the serial port.
pub start_devices : Linked → Kernel → Option Kernel
start_devices linked k = do
  let (paging, cr3) =
      init_paging linked.kernel_physical_start linked.kernel_physical_end
        linked.page_directory_physical k.paging
  (gdt, gdt_entries) ← init_gdt linked.gdt_address linked.tss_address k.gdt_entries
  (idt, idt_entries) ←
      init_idt linked.idt_address linked.handler_32 linked.handler_33 linked.handler_128
        k.idt_entries
  machine ←
      on_screen (printf device_serial (c_str "SeliOS Serial Router is ONLINE!\n"))
        (send pic_init (send serial_init k.machine))
  some (record k {
    machine = machine;
    paging = paging;
    cr3 = cr3;
    gdt = gdt;
    gdt_entries = gdt_entries;
    idt = idt;
    idt_entries = idt_entries;
  })

-- The sizes, the frame allocator, and the two frames that are taken and not used.
pub start_memory : Linked → MultibootInfo → Kernel → Option Kernel
start_memory linked info k = do
  let kernel_size = (linked.kernel_physical_end + 2 ^ 32 - linked.kernel_physical_start) % 2 ^ 32
  let total_ram_bytes = (info.mem_lower + info.mem_upper) * 1024 % 2 ^ 32
  initial ←
      init_memory total_ram_bytes linked.kernel_physical_start linked.kernel_physical_end k.bitmap
  (frame1, bitmap1) ← allocate_frame initial
  (frame2, bitmap2) ← allocate_frame bitmap1
  let t = k.machine.terminal
  some (record k {
    bitmap = bitmap2;
    machine = record k.machine {
      terminal = record t { total_ram_bytes = total_ram_bytes; kernel_size = kernel_size };
    };
  })

-- The shell, from the lock screen to the loop that handles interrupts for ever.
pub start_shell :
    Outside
    → Linked
    → Paging
    → MultibootInfo
    → Allocated
    → List Event
    → Machine
    → Option (Machine × List Event)
start_shell out linked paging info given events m = do
  locked ← on_screen (λ s. print_lock_screen (clear_screen s)) m
  (opened, later) ← wait_shell out events locked
  mounted ← on_terminal (mount_module paging info given) opened
  ready ← on_terminal init_terminal mounted
  started ← start_threads linked given ready
  some (started, later)

pub kmain :
    Outside
    → Linked
    → MultibootInfo
    → Allocated
    → List Event
    → Kernel
    → Option (Kernel × List Event)
kmain out linked info given events k = do
  devices ← start_devices linked k
  memory ← start_memory linked info devices
  (machine, later) ← start_shell out linked memory.paging info given events memory.machine
  some (record memory { machine = machine }, later)
