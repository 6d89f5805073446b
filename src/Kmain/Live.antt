-- ===== src/Kmain/Live.antt =====
-- The kernel boots into a state in which it handles every interrupt.
use seli_os.Kmain.Wait.{AllQuiet, wait_shell-IsOpened}
use seli_os.Kmain.Start.{IsFlat, IsLoaded, mount_module-IsReady, start_threads-IsRing}
use seli_os.Gdt.Laws.{init_gdt_total}
use seli_os.Idt.{IdtEntry}
use seli_os.Idt.Laws.{init_idt_lem}
use seli_os.Interrupt.{Machine, Outside, Event, send, run}
use seli_os.Interrupt.Live.{IsLive, IsSound}
use seli_os.Interrupt.Handled.{AllExpected, Trace}
use seli_os.Interrupt.Trace.{run-IsLive}
use seli_os.Interrupt.Quiet.{
  IsWaiting, on_terminal-some, drawn-IsWaiting, send-IsWaiting, send-serial_status,
}
use seli_os.Kmain.{
  Kernel, Linked, MultibootInfo, Allocated, on_screen, mount_module, start_devices, start_memory,
  start_shell, kmain,
}
use seli_os.Memory.{bitmap_size}
use seli_os.Memory.Allocate.{allocate_frame_total}
use seli_os.Memory.Init.{init_memory-IsInit}
use seli_os.Paging.{Paging, init_paging}
use seli_os.Paging.Map.{resolve}
use seli_os.Paging.Identity.{init_paging-resolve}
use mathlib.Core.Path.{subst}
use seli_os.Pic.{pic_init}
use seli_os.Screen.{Screen, device_serial, printf, print_lock_screen, clear_screen}
use seli_os.Screen.Total.{printf_serial_total, print_lock_screen_total}
use seli_os.Serial.{serial_init}
use seli_os.Serial.Output.{ready_count}
use seli_os.Terminal.{init_terminal}
use seli_os.Terminal.Keys.{Keeps-IsReady}
use seli_os.Terminal.Open.{init_terminal-IsReady}
use seli_os.Thread.{Thread}
use seli_os.Prelude.{
  ℕ, ◌+◌, ◌-◌, ◌*◌, ◌/◌, ◌%◌, ◌^◌, ◌≤◌, ◌<◌, ◌≡◌, refl, sym, ap, ◌∙◌, Option, some, List, ◌∷◌, ◌++◌,
  arith, length, ◌>>=◌,
}
use seli_os.Prelude.Strings.{c_str, letters}

-- What `kmain` finds: tables of their sizes, a serial port that gets ready for each byte of the
-- message, at most 128 MiB of RAM with the kernel inside the frames of the bitmap, the kernel from the
-- start of a page on and the module in the first 4 MiB, which is all that the kernel maps, an aligned
-- page table, a closed shell with cleared globals, and memory for the two threads.
pub record IsBootable (linked : Linked) (info : MultibootInfo) (given : Allocated) (k : Kernel)
    : Type 0 where
  pub gdt_size : length k.gdt_entries ≡ 6
  pub idt_size : length k.idt_entries ≡ 256
  pub idt_entry : IdtEntry
  pub handlers :
      (linked.handler_32 < 2 ^ 32) × (linked.handler_33 < 2 ^ 32) × (linked.handler_128 < 2 ^ 32)
  pub port : 32 ≤ ready_count k.machine.terminal.screen.serial_status
  pub bitmap : length k.bitmap ≡ bitmap_size
  pub ram : (info.mem_lower + info.mem_upper) * 1024 % 2 ^ 32 / 4096 ≤ bitmap_size * 8
  pub order : linked.kernel_physical_start ≤ linked.kernel_physical_end
  pub kernel : (linked.kernel_physical_end + 4095) / 4096 < bitmap_size * 8
  pub shell : IsWaiting k.machine.threads k.machine
  pub some_thread : 0 < length k.machine.threads.heap
  pub loaded : IsLoaded info given
  pub mapped : info.mod_start + length info.module_bytes ≤ 2 ^ 22
  pub table : ℕ
  pub table_is : k.paging.table_physical ≡ table * 2 ^ 12
  pub page : ℕ
  pub page_is : linked.kernel_physical_start ≡ page * 2 ^ 12
  pub low : linked.kernel_physical_end ≤ 2 ^ 22
  pub thread_a : Thread
  pub thread_a_is : given.thread_a ≡ some thread_a
  pub stack_a : ℕ
  pub stack_a_is : given.stack_a ≡ some stack_a
  pub thread_b : Thread
  pub thread_b_is : given.thread_b ≡ some thread_b
  pub stack_b : ℕ
  pub stack_b_is : given.stack_b ≡ some stack_b

on_screen-some :
    (f : Screen → Option Screen) (m : Machine) {s : Screen}
    → f m.terminal.screen ≡ some s
    → on_screen f m ≡ some (record m { terminal = record m.terminal { screen = s } })
on_screen-some f m e = on_terminal-some _ m (rw e refl)

module _ (linked : Linked) (info : MultibootInfo) (given : Allocated) (k : Kernel)
    (boot : IsBootable linked info given k) where
  paging-IsFlat :
      IsFlat
        (init_paging linked.kernel_physical_start linked.kernel_physical_end
          linked.page_directory_physical k.paging).0
  paging-IsFlat = λ a small.
      let below = boot.order in
      let start = boot.page_is in
      ap
        (λ s.
          resolve
            (init_paging s linked.kernel_physical_end linked.page_directory_physical k.paging).0
            (0xC0000000 + a))
        start
      ∙ (init_paging-resolve boot.page linked.kernel_physical_end linked.page_directory_physical
          boot.table k.paging boot.table_is (omega arith) boot.low a small).1

  start_devices-IsWaiting :
      (k' : Kernel) × (start_devices linked k ≡ some k')
      × IsWaiting k.machine.threads k'.machine
      × (k'.bitmap ≡ k.bitmap)
      × IsFlat k'.paging
  unfolding start_devices
  start_devices-IsWaiting =
      let (h32, h33, h128) = boot.handlers in
      let (gdt, gdt_entries, gdt_e) =
        init_gdt_total linked.gdt_address linked.tss_address k.gdt_entries boot.gdt_size in
      let (idt_entries, idt_e, _, _, _, _) =
        init_idt_lem linked.idt_address linked.handler_32 linked.handler_33 linked.handler_128
          k.idt_entries boot.idt_entry boot.idt_size h32 h33 h128 in
      let m = send pic_init (send serial_init k.machine) in
      let waiting = send-IsWaiting pic_init _ (send-IsWaiting serial_init k.machine boot.shell) in
      let port = boot.port in
      let reports = ap ready_count (
        send-serial_status pic_init (send serial_init k.machine)
        ∙ send-serial_status serial_init k.machine) in
      let (s, shown) =
        printf_serial_total (c_str "SeliOS Serial Router is ONLINE!\n")
          (letters "SeliOS Serial Router is ONLINE!\n") m.terminal.screen refl (omega arith) in
      let paged =
        init_paging linked.kernel_physical_start linked.kernel_physical_end
          linked.page_directory_physical k.paging in
      (
        record k {
          machine = record m { terminal = record m.terminal { screen = s } };
          paging = paged.0;
          cr3 = paged.1;
          gdt = gdt;
          gdt_entries = gdt_entries;
          idt = record { size = 2047; address = linked.idt_address };
          idt_entries = idt_entries;
        },
        rw
            (
              gdt_e,
              ◌>>=◌,
              idt_e,
              ◌>>=◌,
              on_screen-some (printf device_serial (c_str "SeliOS Serial Router is ONLINE!\n")) m
                  shown,
            )
            refl,
        drawn-IsWaiting m s waiting,
        refl,
        paging-IsFlat,
      )

  start_memory-IsWaiting :
      (d : Kernel)
      → IsWaiting k.machine.threads d.machine
      → d.bitmap ≡ k.bitmap
      → (k' : Kernel) × (start_memory linked info d ≡ some k')
        × IsWaiting k.machine.threads k'.machine
        × (k'.paging ≡ d.paging)
  unfolding start_memory
  start_memory-IsWaiting d waiting same =
      let (b0, e0, is) =
        init_memory-IsInit ((info.mem_lower + info.mem_upper) * 1024 % 2 ^ 32)
          linked.kernel_physical_start linked.kernel_physical_end d.bitmap
          (ap length same ∙ boot.bitmap) boot.ram boot.order boot.kernel in
      let (f1, b1, e1, l1) = allocate_frame_total b0 is.same_length in
      let (f2, b2, e2, l2) = allocate_frame_total b1 l1 in
      let t = d.machine.terminal in
      let closed = waiting.closed in
      let total = (info.mem_lower + info.mem_upper) * 1024 % 2 ^ 32 in
      let size = (linked.kernel_physical_end + 2 ^ 32 - linked.kernel_physical_start) % 2 ^ 32 in
      (
        record d {
          bitmap = b2;
          machine = record d.machine {
            terminal = record t { total_ram_bytes = total; kernel_size = size };
          };
        },
        rw (e0, ◌>>=◌, e1, ◌>>=◌, e2) refl,
        record {
          ready = Keeps-IsReady waiting.ready (record {
            shell = refl;
            buffer = refl;
            count = refl;
            root = refl;
            files = refl;
            disk = refl;
            mounted = λ o. o;
          });
          closed = record { shell = closed.shell; calm = closed.calm };
          same = waiting.same;
        },
        refl,
      )

  module _ (out : Outside) (before : List Event) (enter : Event) (after : List Event)
      (quiet : AllQuiet before) (keyboard : enter.intr_no ≡ 33) (key : enter.scan_code ≡ 0x1C) where
    start_shell-IsLive :
        (p : Paging) (m : Machine)
        → IsFlat p
        → IsWaiting k.machine.threads m
        → (m' : Machine) × (start_shell out linked p info given (before ++ (enter ∷ after)) m
            ≡ some (m', after))
          × IsLive m'
    unfolding start_shell
    start_shell-IsLive p m flat waiting =
        let (s, locked_e) = print_lock_screen_total (clear_screen m.terminal.screen) in
        let locked = record m { terminal = record m.terminal { screen = s } } in
        let (o, wait_e, opened) =
          wait_shell-IsOpened out before enter after locked (drawn-IsWaiting m s waiting) quiet
            keyboard key in
        let (t1, mount_e, ready1) =
          mount_module-IsReady p info given o.terminal flat boot.mapped boot.loaded opened.ready in
        let (t2, init_e, ready2) = init_terminal-IsReady t1 ready1 in
        let some_thread : 0 < length o.threads.heap =
          omega (arith, boot.some_thread, ap (λ h. length h.heap) opened.same) in
        let (m', start_e, live) =
          start_threads-IsRing linked given (record o { terminal = t2 }) boot.thread_a boot.thread_b
            boot.stack_a boot.stack_b boot.thread_a_is boot.stack_a_is boot.thread_b_is
            boot.stack_b_is some_thread ready2 opened.byte in
        (
          m',
          rw
              (
                on_screen-some (λ s. print_lock_screen (clear_screen s)) m locked_e,
                ◌>>=◌,
                wait_e,
                ◌>>=◌,
                on_terminal-some (mount_module p info given) o mount_e,
                ◌>>=◌,
                on_terminal-some init_terminal (record o { terminal = t1 }) init_e,
                ◌>>=◌,
                start_e,
              )
              refl,
          live,
        )

    kmain-IsLive :
        (k' : Kernel) × (kmain out linked info given (before ++ (enter ∷ after)) k
          ≡ some (k', after))
        × IsLive k'.machine
    unfolding kmain
    kmain-IsLive =
        let (d, devices_e, waiting, same, flat) = start_devices-IsWaiting in
        let (n, memory_e, waiting', paged) = start_memory-IsWaiting d waiting same in
        let (m', shell_e, live) =
          start_shell-IsLive n.paging n.machine (subst IsFlat (sym paged) flat) waiting' in
        (record n { machine = m' }, rw (devices_e, ◌>>=◌, memory_e, ◌>>=◌, shell_e) refl, live)

-- From a bootable state the kernel boots and keeps running: whatever ticks and other keys come before
-- the first pressed Enter, `kmain` gets through every step of its start (tables, serial message,
-- allocator, lock screen, RAM disk, shell, threads, timer), and after it every history of ticks, keys
-- and system calls whose scan codes are bytes is handled to its end. After each of these interrupts the
-- shell is ready and the threads are in a ring; each tick was acknowledged to the first controller and
-- turned the threads if the matrix ran, and each key was handled by the shell and then acknowledged,
-- and each system call did what its number says.
-- This is provided that the strings that system calls name are terminated and the local buffer of `cat`
-- has 256 bytes.
pub kmain-run :
    (linked : Linked) (info : MultibootInfo) (given : Allocated) (k : Kernel) (out : Outside)
    (before : List Event) (enter : Event) (after : List Event)
    → IsBootable linked info given k
    → IsSound out
    → AllQuiet before
    → enter.intr_no ≡ 33
    → enter.scan_code ≡ 0x1C
    → AllExpected after
    → (k' : Kernel) × (m : Machine) × (kmain out linked info given (before ++ (enter ∷ after)) k
        ≡ some (k', after))
      × (run out after k'.machine ≡ some m)
      × IsLive m
      × Trace out after k'.machine m
kmain-run linked info given k out before enter after boot sound quiet keyboard key expected =
    let (k', kmain_e, live) =
      kmain-IsLive linked info given k boot out before enter after quiet keyboard key in
    let (m, run_e, live', trace) = run-IsLive out after k'.machine sound expected live in
    (k', m, kmain_e, run_e, live', trace)
