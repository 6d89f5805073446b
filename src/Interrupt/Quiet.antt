-- ===== src/Interrupt/Quiet.antt =====
-- What interrupts do while the shell is closed.
use seli_os.Interrupt.{
  Machine, Outside, Event, on_terminal, send, read_scan_code, keyboard_handler, tick, hardware,
  interrupt_handler, deliver, has_gate,
}
use seli_os.Pic.{pic_acknowledge}
use seli_os.Terminal.{Terminal, handle_scan}
use seli_os.Screen.{Screen}
use seli_os.Port.{Sent}
use seli_os.Thread.{Threads}
use seli_os.Terminal.Enter.{IsReady}
use seli_os.Terminal.Keys.{Keeps-IsReady, closed_key}
use seli_os.Terminal.Ready.{screen-Keeps}
use seli_os.Terminal.Open.{enter_scan_closed, opened-IsReady}
use seli_os.Terminal.Line.{handle_scan_key, handle_scan_release}
use seli_os.Prelude.{
  ℕ, ◌+◌, ◌-◌, ◌<◌, ◌≡◌, ◌≢◌, refl, sym, ap, ◌∙◌, inl, inr, true, false, Bool-cases, Option, some,
  List, ◌++◌, arith, ltb,
}

pub record IsClosed (t : Terminal) : Type 0 where
  pub shell : t.shell_active ≡ false
  pub calm : t.matrix_active ≡ false

-- A tick of the timer, or a key other than a pressed Enter.
pub data Quiet (e : Event) : Type 0 where
  tick_event : e.intr_no ≡ 32 → Quiet e
  key_event : e.intr_no ≡ 33 → e.scan_code < 256 → e.scan_code ≢ 0x1C → Quiet e

closed_scan_code :
    (local : List ℕ) (scancode : ℕ) (t : Terminal)
    → IsClosed t
    → scancode < 256
    → scancode ≢ 0x1C
    → handle_scan local scancode t ≡ some t
closed_scan_code local scancode t closed byte other = elim (Bool-cases (ltb scancode 128)) [
  | inl down ↦ closed_key local scancode t closed.calm closed.shell (ground arith) other
  | inr up ↦
      let e : 128 + (scancode - 128) ≡ scancode = ground arith in
      ap (λ c. handle_scan local c t) (sym e)
      ∙ handle_scan_release local (scancode - 128) t (omega arith)
]

abbrev pub scanned : Event → Machine → Machine
scanned e m = record m { keyboard_port = e.scan_code }

-- It is acknowledged, and leaves all else as it was.
pub deliver-Quiet :
    (out : Outside) (e : Event) (m : Machine)
    → IsClosed m.terminal
    → Quiet e
    → deliver out e m ≡ some (send (pic_acknowledge e.intr_no) (scanned e m))
unfolding deliver has_gate interrupt_handler hardware tick keyboard_handler read_scan_code
    on_terminal send
deliver-Quiet out e m closed (tick_event timer) = let calm = closed.calm in rw (timer, calm) refl
deliver-Quiet out e m closed (key_event keyboard byte other) =
    let same = closed_scan_code out.local e.scan_code m.terminal closed byte other in
    rw (keyboard, same) refl

abbrev pub opened : Terminal → Terminal
opened t = record t { enter_pressed = true; shell_active = true }

-- A pressed Enter opens the shell.
pub deliver-opened :
    (out : Outside) (e : Event) (m : Machine)
    → IsClosed m.terminal
    → e.intr_no ≡ 33
    → e.scan_code ≡ 0x1C
    → deliver out e m
      ≡ some
          (send (pic_acknowledge e.intr_no) (record (scanned e m) { terminal = opened m.terminal }))
unfolding deliver has_gate interrupt_handler hardware keyboard_handler read_scan_code on_terminal
deliver-opened out e m closed keyboard enter =
    let calm = closed.calm in
    let shut = closed.shell in
    rw
      (
        keyboard,
        enter,
        handle_scan_key out.local 0x1C m.terminal calm (omega arith),
        enter_scan_closed out.local m.terminal shut,
      )
      refl

-- The shell is closed and ready, and the threads are these.
pub record IsWaiting (threads : Threads) (m : Machine) : Type 0 where
  pub ready : IsReady m.terminal
  pub closed : IsClosed m.terminal
  pub same : m.threads ≡ threads

pub on_terminal-some :
    (f : Terminal → Option Terminal) (m : Machine) {t : Terminal}
    → f m.terminal ≡ some t
    → on_terminal f m ≡ some (record m { terminal = t })
unfolding on_terminal
on_terminal-some f m e = rw e refl

pub send-serial_status :
    (out : List Sent) (m : Machine)
    → (send out m).terminal.screen.serial_status ≡ m.terminal.screen.serial_status
unfolding send
send-serial_status out m = refl

pub drawn-IsWaiting :
    {threads : Threads} (m : Machine) (s : Screen)
    → IsWaiting threads m
    → IsWaiting threads (record m { terminal = record m.terminal { screen = s } })
drawn-IsWaiting m s waiting =
    let closed = waiting.closed in
    record {
      ready = Keeps-IsReady waiting.ready (screen-Keeps m.terminal s);
      closed = record { shell = closed.shell; calm = closed.calm };
      same = waiting.same;
    }

pub send-IsWaiting :
    {threads : Threads} (out : List Sent) (m : Machine)
    → IsWaiting threads m
    → IsWaiting threads (send out m)
unfolding send
send-IsWaiting out m waiting =
    let s = m.terminal.screen in drawn-IsWaiting m (record s { sent = s.sent ++ out }) waiting

pub deliver-IsWaiting :
    {threads : Threads} (out : Outside) (e : Event) (m : Machine)
    → IsWaiting threads m
    → Quiet e
    → (k : Machine) × (deliver out e m ≡ some k) × IsWaiting threads k
deliver-IsWaiting out e m waiting quiet = (
  send (pic_acknowledge e.intr_no) (scanned e m),
  deliver-Quiet out e m waiting.closed quiet,
  send-IsWaiting (pic_acknowledge e.intr_no) (scanned e m)
      (record { ready = waiting.ready; closed = waiting.closed; same = waiting.same }),
)

-- The shell has just been opened.
pub record IsOpened (threads : Threads) (m : Machine) : Type 0 where
  pub ready : IsReady m.terminal
  pub open_shell : m.terminal.shell_active ≡ true
  pub same : m.threads ≡ threads
  pub byte : m.keyboard_port < 256

pub deliver-IsOpened :
    {threads : Threads} (out : Outside) (e : Event) (m : Machine)
    → IsWaiting threads m
    → e.intr_no ≡ 33
    → e.scan_code ≡ 0x1C
    → (k : Machine) × (deliver out e m ≡ some k) × IsOpened threads k
unfolding send
deliver-IsOpened out e m waiting keyboard enter = (
  send (pic_acknowledge e.intr_no) (record (scanned e m) { terminal = opened m.terminal }),
  deliver-opened out e m waiting.closed keyboard enter,
  record {
    ready =
        Keeps-IsReady (opened-IsReady m.terminal waiting.ready)
          (screen-Keeps (opened m.terminal) _);
    open_shell = refl;
    same = waiting.same;
    byte = omega (arith, enter);
  },
)
