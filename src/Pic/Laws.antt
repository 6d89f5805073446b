-- ===== src/Pic/Laws.antt =====
-- Which controllers hear of the end of an interrupt.
use seli_os.Pic.{pic1_command, pic2_command, pic_ack, pic_acknowledge}
use seli_os.Port.{Sent}
use seli_os.Prelude.{
  ℕ, ◌<◌, ◌≤◌, ◌≡◌, refl, ◌↔◌, Bool, true, List, [], ◌∷◌, arith, ◌==◌, ◌&&◌, ◌||◌,
}

-- A command is among the writes.
abbrev pub sends : ℕ → List Sent → Bool
sends port [] = Bool.false
sends port ((p, byte) ∷ rest) = (p == port && byte == pic_ack) || sends port rest

-- `pic_acknowledge` sends the end of interrupt to the first controller exactly for the interrupts
-- 32 to 47 that the two controllers raise, and to the second exactly for its own, 40 to 47.
pub pic_acknowledge-sends :
    (interrupt : ℕ)
    → ((sends pic1_command (pic_acknowledge interrupt) ≡ true)
        ↔ ((32 ≤ interrupt) × (interrupt < 48)))
      × ((sends pic2_command (pic_acknowledge interrupt) ≡ true)
          ↔ ((40 ≤ interrupt) × (interrupt < 48)))
unfolding pic_acknowledge
pic_acknowledge-sends interrupt =
    ((λ h. ground arith, λ h. ground arith), (λ h. ground arith, λ h. ground arith))

-- A tick and a key of the first controller: the end of interrupt goes to it alone.
pub pic_acknowledge_timer : pic_acknowledge 32 ≡ (0x20, 0x20) ∷ []
unfolding pic_acknowledge
pic_acknowledge_timer = refl

pub pic_acknowledge_keyboard : pic_acknowledge 33 ≡ (0x20, 0x20) ∷ []
unfolding pic_acknowledge
pic_acknowledge_keyboard = refl
