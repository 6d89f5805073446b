-- ===== src/Tasks.antt =====
-- src/program.c: the two threads of the matrix. A round is the body of a thread's endless loop. In the
-- model an interrupt comes between two rounds, never within one, and the loop that only delays has no
-- effect.
pub mod Live
pub mod Matrix
mod Tests
use seli_os.Interrupt.{Machine, Outside, Event, on_terminal, yield, deliver}
use seli_os.Terminal.{print}
use seli_os.Prelude.{Option, some, List, [], ◌∷◌, if◌then◌else◌, ◌>>=◌}
use seli_os.Prelude.Strings.{c_str}

pub task_a : Machine → Option Machine
task_a m =
    if m.terminal.matrix_active then on_terminal (print (c_str "\u{2}1   \u{7}")) m else yield m

pub task_b : Machine → Option Machine
task_b m =
    if m.terminal.matrix_active then on_terminal (print (c_str "\u{2}  0 \u{7}")) m else yield m

-- What happens next: an interrupt, or a round of one of the threads.
pub data Step : Type 0 where
  interrupt : Event → Step
  round_a round_b : Step

pub step : Outside → Step → Machine → Option Machine
step out (interrupt e) m = deliver out e m
step out round_a m = task_a m
step out round_b m = task_b m

pub run_steps : Outside → List Step → Machine → Option Machine
run_steps out [] m = some m
run_steps out (s ∷ steps) m = step out s m >>= run_steps out steps
