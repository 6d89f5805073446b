-- ===== src/Tasks/Matrix.antt =====
-- What a round of the matrix does.
use seli_os.Interrupt.{Machine, on_terminal, yield}
use seli_os.Interrupt.Live.{on_terminal_run}
use seli_os.Terminal.Ready.{print_run}
use seli_os.Terminal.{print}
use seli_os.Screen.{Screen, device_fb, printf}
use seli_os.Screen.Plain.{IsShown, printf_green}
use seli_os.Tasks.{task_a, task_b}
use seli_os.Prelude.{ℕ, ◌+◌, ◌≤◌, ◌≡◌, ap, ◌∙◌, true, some, List, [], ◌∷◌, arith, if◌then◌else◌}
use seli_os.Prelude.Strings.{c_str}

-- The machine with another screen, which goes on in light grey.
abbrev pub with_screen : Screen → Machine → Machine
with_screen s m =
    let t = m.terminal in record m { terminal = record t { screen = record s { active_fg = 7 } } }

shows :
    (str : List ℕ) (m : Machine) (s : Screen)
    → printf device_fb str m.terminal.screen ≡ some (record s { active_fg = 7 })
    → on_terminal (print str) m ≡ some (with_screen s m)
shows str m s run =
    let t = m.terminal in
    on_terminal_run (print str) m (record t { screen = record s { active_fg = 7 } })
      (print_run str t (record s { active_fg = 7 }) run)

-- While the matrix runs and four cells are left from the cursor on, a round of `task_a` writes
-- "1   " into them and a round of `task_b` "  0 ", in green on the current background, and
-- changes no other byte of the VGA memory; printing goes on in light grey, and the threads, the
-- stack and the shell are as they were.
pub task-matrix :
    (m : Machine)
    → m.terminal.matrix_active ≡ true
    → m.terminal.screen.cursor_pos + 4 ≤ 2000
    → ((s : Screen) × (task_a m ≡ some (with_screen s m))
        × (let screen = m.terminal.screen in
            IsShown (b'1' ∷ b' ' ∷ b' ' ∷ b' ' ∷ []) (record screen { active_fg = 2 }) s))
      × ((s : Screen) × (task_b m ≡ some (with_screen s m))
          × (let screen = m.terminal.screen in
              IsShown (b' ' ∷ b' ' ∷ b'0' ∷ b' ' ∷ []) (record screen { active_fg = 2 }) s))
unfolding task_a task_b
task-matrix m active room =
    let (s, run, is) =
      printf_green (b'1' ∷ b' ' ∷ b' ' ∷ b' ' ∷ []) m.terminal.screen
        (omega arith, (omega arith, (omega arith, (omega arith, tt)))) room in
    let (s', run', is') =
      printf_green (b' ' ∷ b' ' ∷ b'0' ∷ b' ' ∷ []) m.terminal.screen
        (omega arith, (omega arith, (omega arith, (omega arith, tt)))) room in
    (
      (
        s,
        ap (λ t. if t then on_terminal (print (c_str "\u{2}1   \u{7}")) m else yield m) active
            ∙ shows (c_str "\u{2}1   \u{7}") m s run,
        is,
      ),
      (
        s',
        ap (λ t. if t then on_terminal (print (c_str "\u{2}  0 \u{7}")) m else yield m) active
            ∙ shows (c_str "\u{2}  0 \u{7}") m s' run',
        is',
      ),
    )
