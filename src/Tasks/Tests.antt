-- ===== src/Tasks/Tests.antt =====
-- The two threads and the keyboard in turns.
use seli_os.Interrupt.{Machine}
use seli_os.Interrupt.Live.{IsLive}
use seli_os.Interrupt.Samples.{machine, machine-IsLive, outside, outside-IsSound}
use seli_os.Screen.{Screen}
use seli_os.Screen.Plain.{IsShown}
use seli_os.Tasks.{Step, interrupt, round_a, round_b, task_a, task_b, run_steps}
use seli_os.Tasks.Live.{AllExpected, Trace, run_steps-IsLive}
use seli_os.Tasks.Matrix.{with_screen, task-matrix}
use seli_os.Prelude.{◌≡◌, inl, inr, refl, true, some, List, [], ◌∷◌, arith}

abbrev history : List Step
history =
    round_a
    ∷ interrupt (record { intr_no = 33; cpu = record { ebx = 0; eax = 0 }; scan_code = 0x1E })
    ∷ round_b
    ∷ interrupt (record { intr_no = 32; cpu = record { ebx = 0; eax = 0 }; scan_code = 0 })
    ∷ round_a
    ∷ []

history-AllExpected : AllExpected history
history-AllExpected = ((inr (inl refl), omega arith), ((inl refl, omega arith), tt))

run_steps-IsLive_example :
    (m' : Machine) × (run_steps outside history machine ≡ some m')
    × IsLive m'
    × Trace outside history machine m'
run_steps-IsLive_example =
    run_steps-IsLive outside history machine outside-IsSound history-AllExpected machine-IsLive

abbrev matrix : Machine
matrix = let t = machine.terminal in record machine { terminal = record t { matrix_active = true } }

task-matrix_example :
    ((s : Screen) × (task_a matrix ≡ some (with_screen s matrix))
      × (let screen = matrix.terminal.screen in
          IsShown (b'1' ∷ b' ' ∷ b' ' ∷ b' ' ∷ []) (record screen { active_fg = 2 }) s))
    × ((s : Screen) × (task_b matrix ≡ some (with_screen s matrix))
        × (let screen = matrix.terminal.screen in
            IsShown (b' ' ∷ b' ' ∷ b'0' ∷ b' ' ∷ []) (record screen { active_fg = 2 }) s))
task-matrix_example = task-matrix matrix refl (omega arith)
