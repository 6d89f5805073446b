-- ===== src/Pic.antt =====
-- src/kernel/pic.c: the two interrupt controllers.
pub mod Laws
mod Tests
use seli_os.Port.{Sent, outb}
use seli_os.Prelude.{ℕ, ◌||◌, List, [], ◌∷◌, ◌++◌, ltb, leb, if◌then◌else◌}

abbrev pub pic1_command : ℕ
pic1_command = 0x20

abbrev pub pic1_data : ℕ
pic1_data = 0x21

abbrev pub pic2_command : ℕ
pic2_command = 0xA0

abbrev pub pic2_data : ℕ
pic2_data = 0xA1

abbrev pub pic1_start_interrupt : ℕ
pic1_start_interrupt = 0x20

abbrev pub pic2_start_interrupt : ℕ
pic2_start_interrupt = 0x28

abbrev pub pic2_end_interrupt : ℕ
pic2_end_interrupt = 0x2F

abbrev pub pic_ack : ℕ
pic_ack = 0x20

pub pic_init : List Sent
pic_init =
    outb pic1_command 0x11
    ∷ outb pic2_command 0x11
    ∷ outb pic1_data pic1_start_interrupt
    ∷ outb pic2_data pic2_start_interrupt
    ∷ outb pic1_data 0x04
    ∷ outb pic2_data 0x02
    ∷ outb pic1_data 0x01
    ∷ outb pic2_data 0x01
    ∷ []

pub pic_acknowledge : ℕ → List Sent
pic_acknowledge interrupt =
    if ltb interrupt pic1_start_interrupt || ltb pic2_end_interrupt interrupt
    then []
    else (if leb pic2_start_interrupt interrupt then outb pic2_command pic_ack ∷ [] else [])
      ++ (outb pic1_command pic_ack ∷ [])
