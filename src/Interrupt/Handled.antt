-- ===== src/Interrupt/Handled.antt =====
-- What the kernel does on an interrupt, and on a history of them.
use seli_os.Interrupt.{Machine, Outside, CpuState, Event}
use seli_os.Interrupt.Live.{IsLive}
use seli_os.Terminal.{Terminal, handle_scan, print}
use seli_os.Thread.{thread_yield}
use seli_os.Prelude.{◌<◌, ◌≡◌, ◌≢◌, ◌⊎◌, some, List, [], ◌∷◌, ◌++◌, if◌then◌else◌}
use seli_os.Prelude.Strings.{c_str}

-- An interrupt that has a gate: a tick of the timer, a key or a system call. The keyboard's port gives a
-- byte.
abbrev pub IsExpected : Event → Type 0
IsExpected e = ((e.intr_no ≡ 32) ⊎ (e.intr_no ≡ 33) ⊎ (e.intr_no ≡ 128)) × (e.scan_code < 256)

abbrev pub AllExpected : List Event → Type 0
AllExpected [] = Unit
AllExpected (e ∷ events) = IsExpected e × AllExpected events

-- The terminal after one byte more was sent: the end of interrupt, 0x20, to the first controller at
-- port 0x20.
abbrev pub acknowledged : Terminal → Terminal
acknowledged t =
    let s = t.screen in record t { screen = record s { sent = s.sent ++ ((0x20, 0x20) ∷ []) } }

-- What a system call makes of a state: it prints the string at `ebx`, does nothing, turns the threads,
-- or prints that it is unknown.
pub data Called (out : Outside) (cpu : CpuState) (m m' : Machine) : Type 0 where
  call_print :
      cpu.eax ≡ 1
      → print (out.bytes_at cpu.ebx) m.terminal ≡ some m'.terminal
      → m'.threads ≡ m.threads
      → Called out cpu m m'
  call_read : cpu.eax ≡ 2 → m' ≡ m → Called out cpu m m'
  call_yield :
      cpu.eax ≡ 3
      → m'.terminal ≡ m.terminal
      → thread_yield m.esp m.threads ≡ some (m'.threads, m'.esp)
      → Called out cpu m m'
  call_unknown :
      cpu.eax ≢ 1
      → cpu.eax ≢ 2
      → cpu.eax ≢ 3
      → print (c_str "Unknown system call!\n") m.terminal ≡ some m'.terminal
      → m'.threads ≡ m.threads
      → Called out cpu m m'

-- What an interrupt makes of a state. A tick is acknowledged, and turns the threads if the matrix runs;
-- a key is handled by the shell and acknowledged after that, and leaves the threads as they were; a
-- system call is not acknowledged.
pub data Handled (out : Outside) (e : Event) (m m' : Machine) : Type 0 where
  ticked :
      e.intr_no ≡ 32
      → m'.terminal ≡ acknowledged m.terminal
      → (if m.terminal.matrix_active then thread_yield m.esp m.threads else some (m.threads, m.esp))
        ≡ some (m'.threads, m'.esp)
      → Handled out e m m'
  typed :
      (t : Terminal)
      → e.intr_no ≡ 33
      → handle_scan out.local e.scan_code m.terminal ≡ some t
      → m'.terminal ≡ acknowledged t
      → m'.threads ≡ m.threads
      → Handled out e m m'
  called :
      e.intr_no ≡ 128
      → Called out e.cpu (record m { keyboard_port = e.scan_code }) m'
      → Handled out e m m'

-- Each interrupt of the history was handled, and the kernel was ready after each.
pub data Trace (out : Outside) : List Event → Machine → Machine → Type 0 where
  at_end : {m : Machine} → Trace out [] m m
  handled :
      {e : Event} {events : List Event} {m k n : Machine}
      → Handled out e m k
      → IsLive k
      → Trace out events k n
      → Trace out (e ∷ events) m n
