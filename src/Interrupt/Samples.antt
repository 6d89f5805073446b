-- ===== src/Interrupt/Samples.antt =====
-- Two threads, an empty disk and strings of two characters.
use seli_os.Interrupt.{Machine, Outside}
use seli_os.Interrupt.Live.{IsLive, IsSound}
use seli_os.Terminal.Samples.{shell, shell-IsReady}
use seli_os.Thread.{Threads}
use seli_os.Prelude.{refl, true, some, [], ◌∷◌, replicate, length-replicate, arith, ℕ}

abbrev pub pair : Threads
pair = record {
  heap =
      record { esp = 0; next_thread = some 1 } ∷ record { esp = 0x8000; next_thread = some 0 } ∷ [];
  current_thread = some 0;
  words = λ a. 0;
}

abbrev pub machine : Machine
machine = record { terminal = shell true; threads = pair; keyboard_port = 0; esp = 0x7000 }

pub machine-IsLive : IsLive machine
machine-IsLive = record {
  ready = shell-IsReady true;
  current = 0;
  next = 1;
  rest = [];
  ring = record { here = refl; walk = (refl, refl); once = (((λ e. ground arith), tt), (tt, tt)) };
  byte = omega arith;
}

abbrev pub outside : Outside
outside = record { bytes_at = λ address. b'H' ∷ b'i' ∷ 0 ∷ []; local = replicate 256 0 }

pub outside-IsSound : IsSound outside
outside-IsSound = record {
  terminated = λ address. (b'H' ∷ b'i' ∷ [], refl);
  size = length-replicate {A = ℕ} 256 0;
}
