-- ===== src/Timer/Tests.antt =====
-- The timer at 100 Hz.
use seli_os.Port.{Sent}
use seli_os.Timer.{init_timer, reload, reload-init_timer}
use seli_os.Prelude.{◌/◌, ◌≡◌, ◌↔◌, ◌≤◌, some, List, arith}

reload-init_timer_example :
    (sent : List Sent) × (init_timer 100 ≡ some sent)
    × ((19 ≤ 100) ↔ (reload sent ≡ some (1193180 / 100)))
reload-init_timer_example = reload-init_timer 100 (omega arith)
