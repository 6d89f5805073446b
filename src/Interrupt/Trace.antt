-- ===== src/Interrupt/Trace.antt =====
-- The kernel handles every history of interrupts to its end, and acknowledges what the controllers sent.
use seli_os.Interrupt.{
  on_terminal, Machine, Outside, CpuState, Event, send, read_scan_code, keyboard_handler,
  system_call, tick, hardware, interrupt_handler, has_gate, deliver, run,
}
use seli_os.Interrupt.Live.{IsLive, IsSound, send-IsLive, yield_lem, on_terminal_run}
use seli_os.Interrupt.Handled.{
  IsExpected, AllExpected, acknowledged, Called, call_print, call_read, call_yield, call_unknown,
  Handled, ticked, typed, called, Trace, at_end, handled,
}
use seli_os.Pic.{pic_acknowledge}
use seli_os.Pic.Laws.{pic_acknowledge_timer, pic_acknowledge_keyboard}
use seli_os.CString.Text.{text, c_str-text}
use seli_os.Terminal.{Terminal, handle_scan, print}
use seli_os.Terminal.Enter.{IsReady}
use seli_os.Terminal.Ready.{print-Keeps}
use seli_os.Prelude.Strings.{c_str}
use seli_os.Terminal.Keys.{Keeps-IsReady, handle_scan-IsReady}
use seli_os.Thread.{thread_yield}
use seli_os.Prelude.{
  ℕ, ◌<◌, ◌≡◌, ==_iff, arith, ◌==◌, inl, inr, refl, ap, ◌∙◌, Bool, true, false, some, List, [], ◌∷◌,
  if◌then◌else◌, ◌>>=◌, Bool-cases,
}

scanned-IsLive :
    (b : ℕ) (m : Machine) → b < 256 → IsLive m → IsLive (record m { keyboard_port = b })
scanned-IsLive b m byte live = record {
  ready = live.ready;
  current = live.current;
  next = live.next;
  rest = live.rest;
  ring = live.ring;
  byte = byte;
}

taken : {A : Type 0} {b : Bool} {x z : A} (y : A) → b ≡ true → x ≡ z → (if b then x else y) ≡ z
taken y b_is e = rw b_is e

passed : {A : Type 0} {b : Bool} {y z : A} (x : A) → b ≡ false → y ≡ z → (if b then x else y) ≡ z
passed x b_is e = rw b_is e

terminal-IsLive :
    (m : Machine) (t : Terminal) → IsLive m → IsReady t → IsLive (record m { terminal = t })
terminal-IsLive m t live ready = record {
  ready = ready;
  current = live.current;
  next = live.next;
  rest = live.rest;
  ring = live.ring;
  byte = live.byte;
}

module _ (out : Outside) (sound : IsSound out) (cpu : CpuState) (m : Machine)
    (live : IsLive m) where
  timer_lem :
      (k : Machine) × (interrupt_handler out cpu 32 m ≡ some k)
      × IsLive k
      × (k.terminal ≡ acknowledged m.terminal)
      × ((if m.terminal.matrix_active
            then thread_yield m.esp m.threads
            else some (m.threads, m.esp))
          ≡ some (k.threads, k.esp))
  unfolding interrupt_handler hardware tick send
  timer_lem =
      let a = send (pic_acknowledge 32) m in
      let live_a = send-IsLive (pic_acknowledge 32) m live in
      let byte_sent : a.terminal ≡ acknowledged m.terminal =
        ap (λ sent. (send sent m).terminal) pic_acknowledge_timer in
      elim (Bool-cases m.terminal.matrix_active) [
        | inl active ↦
            let (k, e, live', same, turned) = yield_lem a live_a in
            (k, taken _ active e, live', same ∙ byte_sent, taken _ active turned)
        | inr calm ↦ (a, passed _ calm refl, live_a, byte_sent, passed _ calm refl)
      ]

  keyboard_lem :
      (k : Machine) × (t : Terminal) × (interrupt_handler out cpu 33 m ≡ some k)
      × IsLive k
      × (handle_scan out.local m.keyboard_port m.terminal ≡ some t)
      × (k.terminal ≡ acknowledged t)
      × (k.threads ≡ m.threads)
  unfolding interrupt_handler hardware keyboard_handler read_scan_code send
  keyboard_lem =
      let (t, scan_e, ready) =
        handle_scan-IsReady out.local m.keyboard_port m.terminal sound.size live.byte live.ready in
      let typed_m = record m { terminal = t } in
      let run_e = on_terminal_run (handle_scan out.local m.keyboard_port) m t scan_e in
      (
        send (pic_acknowledge 33) typed_m,
        t,
        rw run_e refl,
        send-IsLive (pic_acknowledge 33) typed_m (terminal-IsLive m t live ready),
        scan_e,
        ap (λ sent. (send sent typed_m).terminal) pic_acknowledge_keyboard,
        refl,
      )

  print_lem :
      (str u : List ℕ)
      → text str ≡ some u
      → (k : Machine) × (on_terminal (print str) m ≡ some k)
        × IsLive k
        × (print str m.terminal ≡ some k.terminal)
        × (k.threads ≡ m.threads)
  print_lem str u e =
      let (t, run_e, kept) = print-Keeps str u m.terminal e in
      (
        record m { terminal = t },
        on_terminal_run (print str) m t run_e,
        terminal-IsLive m t live (Keeps-IsReady live.ready kept),
        run_e,
        refl,
      )

  system_call_lem : (k : Machine) × (system_call out cpu m ≡ some k) × IsLive k × Called out cpu m k
  unfolding system_call
  system_call_lem = elim (Bool-cases (cpu.eax == 1)) [
    | inl first ↦
        let (u, e) = sound.terminated cpu.ebx in
        let (k, run_e, live', printed, same) = print_lem (out.bytes_at cpu.ebx) u e in
        (k, taken _ first run_e, live', call_print ((==_iff cpu.eax 1).0 first) printed same)
    | inr not_first ↦ elim (Bool-cases (cpu.eax == 2)) [
      | inl second ↦ (
        m,
        passed _ not_first (taken _ second refl),
        live,
        call_read ((==_iff cpu.eax 2).0 second) refl,
      )
      | inr not_second ↦ elim (Bool-cases (cpu.eax == 3)) [
        | inl third ↦
            let (k, run_e, live', same, turned) = yield_lem m live in
            (
              k,
              passed _ not_first (passed _ not_second (taken _ third run_e)),
              live',
              call_yield ((==_iff cpu.eax 3).0 third) same turned,
            )
        | inr not_third ↦
            let (u, e) = c_str-text "Unknown system call!\n" in
            let (k, run_e, live', printed, same) = print_lem (c_str "Unknown system call!\n") u e in
            (
              k,
              passed _ not_first (passed _ not_second (passed _ not_third run_e)),
              live',
              call_unknown (λ e. ground arith) (λ e. ground arith) (λ e. ground arith) printed same,
            )
      ]
    ]
  ]

  call_lem :
      (k : Machine) × (interrupt_handler out cpu 128 m ≡ some k) × IsLive k × Called out cpu m k
  unfolding interrupt_handler hardware
  call_lem =
      let (k, e, live', did) = system_call_lem in
      (k, ap (λ o. o >>= hardware out 128) e, live', did)

deliver_run :
    (out : Outside) (e : Event) (m k : Machine) (n : ℕ)
    → e.intr_no ≡ n
    → has_gate n ≡ true
    → interrupt_handler out e.cpu n (record m { keyboard_port = e.scan_code }) ≡ some k
    → deliver out e m ≡ some k
unfolding deliver
deliver_run out e m k n same gate handled_e = rw (same, gate) handled_e

pub deliver-Handled :
    (out : Outside) (e : Event) (m : Machine)
    → IsSound out
    → IsExpected e
    → IsLive m
    → (k : Machine) × (deliver out e m ≡ some k) × IsLive k × Handled out e m k
unfolding has_gate
deliver-Handled out e m sound (which, byte) live =
    let m₀ = record m { keyboard_port = e.scan_code } in
    let live₀ = scanned-IsLive e.scan_code m byte live in
    elim which [
      | inl timer ↦
          let (k, run_e, live', sent, turned) = timer_lem out sound e.cpu m₀ live₀ in
          (k, deliver_run out e m k 32 timer refl run_e, live', ticked timer sent turned)
      | inr (inl keyboard) ↦
          let (k, t, run_e, live', scan_e, sent, same) = keyboard_lem out sound e.cpu m₀ live₀ in
          (
            k,
            deliver_run out e m k 33 keyboard refl run_e,
            live',
            typed t keyboard scan_e sent same,
          )
      | inr (inr call) ↦
          let (k, run_e, live', call_e) = call_lem out sound e.cpu m₀ live₀ in
          (k, deliver_run out e m k 128 call refl run_e, live', called call call_e)
    ]

-- Where the shell is ready and the running thread is in a ring of at least two, every history of ticks,
-- keys and system calls, in any order, whose scan codes are bytes, is handled to its end: no handler
-- follows a null pointer or leaves the input buffer, a string or the disk, the kernel is in such a state
-- after each interrupt, and it has acknowledged each tick and each key, provided that the strings that
-- system calls name are terminated and the local buffer of `cat` has 256 bytes. Where on or behind the
-- screen the handlers write is not covered.
pub run-IsLive :
    (out : Outside) (events : List Event) (m : Machine)
    → IsSound out
    → AllExpected events
    → IsLive m
    → (m' : Machine) × (run out events m ≡ some m') × IsLive m' × Trace out events m m'
unfolding run
run-IsLive out [] m sound expected live = (m, refl, live, at_end)
run-IsLive out (e ∷ events) m sound (next, expected) live =
    let (k, first, live', did) = deliver-Handled out e m sound next live in
    let (n, rest, last, trace) = run-IsLive out events k sound expected live' in
    (n, ap (λ o. o >>= run out events) first ∙ rest, last, handled did live' trace)
