-- ===== src/Kmain/Wait.antt =====
-- The kernel waits at the lock screen until Enter is pressed.
use seli_os.Interrupt.{Machine, Outside, Event, deliver}
use seli_os.Interrupt.Quiet.{Quiet, IsWaiting, IsOpened, deliver-IsWaiting, deliver-IsOpened}
use seli_os.Kmain.{wait_shell}
use seli_os.Thread.{Threads}
use seli_os.Prelude.{
  ◌≡◌, refl, ap, ◌∙◌, Bool, true, false, some, List, [], ◌∷◌, ◌++◌, if◌then◌else◌, ◌>>=◌,
}

-- The history before the Enter that opens the shell: ticks and other keys.
abbrev pub AllQuiet : List Event → Type 0
AllQuiet [] = Unit {0}
AllQuiet (e ∷ events) = Quiet e × AllQuiet events

not_taken : {A : Type 0} {b : Bool} (x : A) {y : A} → b ≡ false → (if b then x else y) ≡ y
not_taken x e = rw e refl

wait_shell_open :
    (out : Outside) (events : List Event) (m : Machine)
    → m.terminal.shell_active ≡ true
    → wait_shell out events m ≡ some (m, events)
unfolding wait_shell
wait_shell_open out [] m e = rw e refl
wait_shell_open out (event ∷ events) m e = rw e refl

wait_shell_step :
    (out : Outside) (e : Event) (events : List Event) (m k : Machine)
    → m.terminal.shell_active ≡ false
    → deliver out e m ≡ some k
    → wait_shell out (e ∷ events) m ≡ wait_shell out events k
unfolding wait_shell
wait_shell_step out e events m k closed step =
    not_taken _ closed ∙ ap (λ o. o >>= wait_shell out events) step

-- The wait for the shell ends with the first pressed Enter.
pub wait_shell-IsOpened :
    {threads : Threads} (out : Outside) (before : List Event) (enter : Event) (after : List Event)
    (m : Machine)
    → IsWaiting threads m
    → AllQuiet before
    → enter.intr_no ≡ 33
    → enter.scan_code ≡ 0x1C
    → (k : Machine) × (wait_shell out (before ++ (enter ∷ after)) m ≡ some (k, after))
      × IsOpened threads k
wait_shell-IsOpened out [] enter after m waiting quiet keyboard key =
    let (k, step, opened) = deliver-IsOpened out enter m waiting keyboard key in
    (
      k,
      wait_shell_step out enter after m k waiting.closed.shell step
          ∙ wait_shell_open out after k opened.open_shell,
      opened,
    )
wait_shell-IsOpened out (e ∷ before) enter after m waiting (calm, quiet) keyboard key =
    let (m', step, waiting') = deliver-IsWaiting out e m waiting calm in
    let (k, run_e, opened) =
      wait_shell-IsOpened out before enter after m' waiting' quiet keyboard key in
    (k, wait_shell_step out e _ m m' waiting.closed.shell step ∙ run_e, opened)
