-- ===== src/Interrupt.antt =====
-- src/kernel/interrupt_handler.c and keyboard.c: what the kernel does on an interrupt, over the
-- shell, the threads and the interrupt controllers.
pub mod Live
pub mod Handled
pub mod Trace
pub mod Quiet
pub mod Samples
mod Tests
use seli_os.Pic.{pic_acknowledge}
use seli_os.Port.{Sent}
use seli_os.Terminal.{Terminal, handle_scan, print}
use seli_os.Thread.{Threads, thread_yield}
use seli_os.Prelude.{
  ℕ, Bool, ◌&&◌, ◌||◌, Option, none, some, List, [], ◌∷◌, ◌++◌, leb, ◌==◌, if◌then◌else◌, ◌>>=◌,
}
use seli_os.Prelude.Strings.{c_str}

-- The kernel's globals, the byte that the keyboard's port gives next, and the processor's stack
-- pointer where `switch_task` saves it.
pub record Machine : Type 0 where
  pub terminal : Terminal
  pub threads : Threads
  pub keyboard_port : ℕ
  pub esp : ℕ

-- What is given from outside: the bytes at an address, and what `cat` finds in its local buffer.
pub record Outside : Type 0 where
  pub bytes_at : ℕ → List ℕ
  pub local : List ℕ

-- The registers that `interrupt_handler` looks at.
pub record CpuState : Type 0 where
  pub ebx : ℕ
  pub eax : ℕ

pub on_terminal : (Terminal → Option Terminal) → Machine → Option Machine
on_terminal f m = do terminal ← f m.terminal; some (record m { terminal = terminal })

-- Port writes in order, behind those of the screen.
pub send : List Sent → Machine → Machine
send out m =
    let t = m.terminal in
    let s = t.screen in
    record m { terminal = record t { screen = record s { sent = s.sent ++ out } } }

pub read_scan_code : Machine → ℕ
read_scan_code m = m.keyboard_port

pub keyboard_handler : List ℕ → Machine → Option Machine
keyboard_handler local m = on_terminal (handle_scan local (read_scan_code m)) m

pub yield : Machine → Option Machine
yield m = do
  (threads, esp) ← thread_yield m.esp m.threads
  some (record m { threads = threads; esp = esp })

-- The switch on `eax` of interrupt 128.
pub system_call : Outside → CpuState → Machine → Option Machine
system_call out cpu m =
    if cpu.eax == 1
    then on_terminal (print (out.bytes_at cpu.ebx)) m
    else if cpu.eax == 2
    then some m
    else if cpu.eax == 3
    then yield m
    else on_terminal (print (c_str "Unknown system call!\n")) m

-- The timer's tick switches threads while the matrix runs.
pub tick : Machine → Option Machine
tick m = if m.terminal.matrix_active then yield m else some m

pub hardware : Outside → ℕ → Machine → Option Machine
hardware out intr_no m =
    if intr_no == 0
    then some m
    else if intr_no == 33
    then (do m' ← keyboard_handler out.local m; some (send (pic_acknowledge intr_no) m'))
    else if leb 32 intr_no && leb intr_no 47
    then (let acknowledged = send (pic_acknowledge intr_no) m in
        if intr_no == 32 then tick acknowledged else some acknowledged)
    else some m

pub interrupt_handler : Outside → CpuState → ℕ → Machine → Option Machine
interrupt_handler out cpu intr_no m = do
  called ← if intr_no == 128 then system_call out cpu m else some m
  hardware out intr_no called

-- One interrupt: its number, the registers at the time and the byte at the keyboard's port.
pub record Event : Type 0 where
  pub intr_no : ℕ
  pub cpu : CpuState
  pub scan_code : ℕ

-- `init_idt` sets these three gates.
pub has_gate : ℕ → Bool
has_gate intr_no = intr_no == 32 || intr_no == 33 || intr_no == 128

-- An interrupt goes through its gate. `none` for a number without one: the processor finds no gate for
-- the fault that follows either, and resets.
pub deliver : Outside → Event → Machine → Option Machine
deliver out e m =
    let handled =
      interrupt_handler out e.cpu e.intr_no (record m { keyboard_port = e.scan_code }) in
    if has_gate e.intr_no then handled else none

-- The `hlt` loop of `kmain`: one interrupt after the other.
pub run : Outside → List Event → Machine → Option Machine
run out [] m = some m
run out (e ∷ events) m = deliver out e m >>= run out events
