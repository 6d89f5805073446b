-- ===== src/Tasks/Live.antt =====
-- Interrupts and rounds of the threads in any order.
use seli_os.Interrupt.{Machine, Outside, Event}
use seli_os.Interrupt.Handled.{IsExpected, Handled}
use seli_os.Interrupt.Trace.{deliver-Handled}
use seli_os.Interrupt.Live.{IsLive, IsSound, Handles, print-IsLive, yield-IsLive, choose}
use seli_os.Tasks.{Step, interrupt, round_a, round_b, task_a, task_b, step, run_steps}
use seli_os.Prelude.{◌≡◌, refl, ap, ◌∙◌, some, List, [], ◌∷◌, ◌>>=◌}
use seli_os.Prelude.Strings.{c_str}

-- Each interrupt is one that has a gate, with a byte at the keyboard's port.
abbrev pub AllExpected : List Step → Type 0
AllExpected [] = Unit
AllExpected (interrupt e ∷ steps) = IsExpected e × AllExpected steps
AllExpected (_ ∷ steps) = AllExpected steps

-- Each step was done, and the kernel was ready after each.
pub data Trace (out : Outside) : List Step → Machine → Machine → Type 0 where
  at_end : {m : Machine} → Trace out [] m m
  handled :
      {e : Event} {steps : List Step} {m k n : Machine}
      → Handled out e m k
      → IsLive k
      → Trace out steps k n
      → Trace out (interrupt e ∷ steps) m n
  ran_a :
      {steps : List Step} {m k n : Machine}
      → task_a m ≡ some k
      → IsLive k
      → Trace out steps k n
      → Trace out (round_a ∷ steps) m n
  ran_b :
      {steps : List Step} {m k n : Machine}
      → task_b m ≡ some k
      → IsLive k
      → Trace out steps k n
      → Trace out (round_b ∷ steps) m n

task_a-IsLive : (m : Machine) → IsLive m → Handles (task_a m)
unfolding task_a
task_a-IsLive m live =
    choose m.terminal.matrix_active (print-IsLive (c_str "\u{2}1   \u{7}") _ m live refl)
      (yield-IsLive m live)

task_b-IsLive : (m : Machine) → IsLive m → Handles (task_b m)
unfolding task_b
task_b-IsLive m live =
    choose m.terminal.matrix_active (print-IsLive (c_str "\u{2}  0 \u{7}") _ m live refl)
      (yield-IsLive m live)

after :
    (out : Outside) (s : Step) (steps : List Step) (m k : Machine)
    → step out s m ≡ some k
    → run_steps out (s ∷ steps) m ≡ run_steps out steps k
unfolding run_steps
after out s steps m k first = ap (λ o. o >>= run_steps out steps) first

-- Where the shell is ready and the running thread is in a ring of at least two, ticks, keys, system
-- calls and rounds of `task_a` and `task_b` in any order, a round of the matrix in between or a
-- thread that yields at once, all run to their end. The kernel is in such a state after each of
-- them. Each tick was acknowledged to the first controller and turned the threads if the matrix
-- ran, and each key was handled by the shell and then acknowledged, and each system call did what
-- its number says. This is provided that the scan codes are bytes, the strings that system calls
-- name are terminated and the local buffer of `cat` has 256 bytes.
pub run_steps-IsLive :
    (out : Outside) (steps : List Step) (m : Machine)
    → IsSound out
    → AllExpected steps
    → IsLive m
    → (m' : Machine) × (run_steps out steps m ≡ some m') × IsLive m' × Trace out steps m m'
unfolding run_steps step
run_steps-IsLive out [] m sound expected live = (m, refl, live, at_end)
run_steps-IsLive out (interrupt e ∷ steps) m sound (next, expected) live =
    let (k, first, live', did) = deliver-Handled out e m sound next live in
    let (n, rest, last, trace) = run_steps-IsLive out steps k sound expected live' in
    (n, after out (interrupt e) steps m k first ∙ rest, last, handled did live' trace)
run_steps-IsLive out (round_a ∷ steps) m sound expected live =
    let (k, first, live') = task_a-IsLive m live in
    let (n, rest, last, trace) = run_steps-IsLive out steps k sound expected live' in
    (n, after out round_a steps m k first ∙ rest, last, ran_a first live' trace)
run_steps-IsLive out (round_b ∷ steps) m sound expected live =
    let (k, first, live') = task_b-IsLive m live in
    let (n, rest, last, trace) = run_steps-IsLive out steps k sound expected live' in
    (n, after out round_b steps m k first ∙ rest, last, ran_b first live' trace)
