-- ===== src/Thread/Tests.antt =====
-- Two threads, and one alone.
use seli_os.Thread.{
  Thread, Threads, create_thread, create_user_thread, thread_yield, push_words, thread_frame,
}
use seli_os.Thread.Ring.{
  IsRing, esp_of, thread_yield-IsRing, thread_yield_alone, create_thread-IsRing,
}
use seli_os.Thread.Frame.{Pops, create_user_thread-Pops}
use seli_os.Prelude.{ℕ, ◌+◌, ◌%◌, ◌^◌, ◌≡◌, refl, none, some, [], ◌∷◌, arith}

abbrev cell : Thread
cell = record { esp = 0; next_thread = none }

abbrev alone : Threads
alone = record {
  heap = record { esp = 0; next_thread = some 0 } ∷ [];
  current_thread = some 0;
  words = λ a. 0;
}

abbrev pair : Threads
pair = record {
  heap =
      record { esp = 0; next_thread = some 1 } ∷ record { esp = 0x8000; next_thread = some 0 } ∷ [];
  current_thread = some 0;
  words = λ a. 0;
}

alone-IsRing : IsRing alone 0 []
alone-IsRing = record { here = refl; walk = refl; once = (tt, tt) }

pair-IsRing : IsRing pair 0 (1 ∷ [])
pair-IsRing = record {
  here = refl;
  walk = (refl, refl);
  once = (((λ e. ground arith), tt), (tt, tt));
}

thread_yield-IsRing_example :
    (s : Threads) × (loaded : ℕ) × (thread_yield 0x7000 pair ≡ some (s, loaded))
    × IsRing s 1 (0 ∷ [])
    × (esp_of s.heap 0 ≡ some 0x7000)
    × (esp_of pair.heap 1 ≡ some loaded)
thread_yield-IsRing_example = thread_yield-IsRing 0x7000 pair 0 1 [] pair-IsRing

thread_yield_alone_example :
    (s : Threads) × (thread_yield 0x7000 alone ≡ some (s, 0)) × (esp_of s.heap 0 ≡ some 0x7000)
thread_yield_alone_example = thread_yield_alone 0x7000 alone 0 0 alone-IsRing refl

create_thread-IsRing_example :
    (s : Threads) × (create_thread 0x1234 (some cell) (some 0x9000) pair ≡ some s)
    × IsRing s 0 (2 ∷ 1 ∷ [])
    × (esp_of s.heap 2
        ≡ some (push_words (thread_frame 0x1234) pair.words ((0x9000 + 4096) % 2 ^ 32)).1)
    × (s.words ≡ (push_words (thread_frame 0x1234) pair.words ((0x9000 + 4096) % 2 ^ 32)).0)
create_thread-IsRing_example = create_thread-IsRing 0x1234 cell 0x9000 pair 0 (1 ∷ []) pair-IsRing

create_user_thread-Pops_example :
    (s : Threads) × (esp : ℕ) × (create_user_thread 0x1234 (some cell) (some 0x9000) pair ≡ some s)
    × (esp_of s.heap 2 ≡ some esp)
    × Pops s.words esp (0 ∷ 0 ∷ 0 ∷ 0 ∷ 0 ∷ 0 ∷ 0 ∷ 0x1234 ∷ [])
    × Pops s.words (esp + 32) (0x1B ∷ 0x202 ∷ (0x9000 + 4096) ∷ 0x23 ∷ [])
create_user_thread-Pops_example =
    create_user_thread-Pops 0x1234 cell 0x9000 pair 0 (1 ∷ []) pair-IsRing (omega arith)
