-- ===== src/Screen.antt =====
-- src/kernel/utils.c: the text screen. The VGA memory is a function from the byte index: it goes
-- on behind the 4000 bytes that are shown, so a write there is stored and not a fault.
pub mod Bounds
pub mod Scroll
pub mod Hex
pub mod Total
pub mod Plain
mod Tests
use seli_os.Port.{Sent, outb}
use seli_os.Serial.{serial_write_char}
use seli_os.Prelude.{
  ℕ, zero, suc, ◌+◌, ◌-◌, ◌*◌, ◌/◌, ◌%◌, ◌^◌, bit_and, bit_or, Bool, not, ◌&&◌, Option, none, some,
  List, [], ◌∷◌, ◌++◌, ltb, leb, ◌==◌, if◌then◌else◌, ◌>>=◌, get_or,
}
use seli_os.Prelude.Strings.{c_str}
use Prim.Native.String.{String}

abbrev pub default_fg : ℕ
default_fg = 15

abbrev pub default_bg : ℕ
default_bg = 1

-- `DEVICE_FB` is 0 and `DEVICE_SERIAL` 1; any other number is no device.
pub data Device : Type 0 where
  device_fb device_serial other_device : Device

-- The globals of utils.c, with the writes to ports so far and the status bytes that the serial
-- port will report.
pub record Screen : Type 0 where
  pub fb : ℕ → ℕ
  pub cursor_pos : ℕ
  pub active_fg : ℕ
  pub active_bg : ℕ
  pub sent : List Sent
  pub serial_status : List ℕ

abbrev pub store : (ℕ → ℕ) → ℕ → ℕ → ℕ → ℕ
store fb i v j = if i == j then v else fb j

pub fb_move_cursor : Screen → ℕ → Screen
fb_move_cursor s pos =
    let p = pos % 2 ^ 16 in
    record s {
      sent =
          s.sent
          ++ (outb 0x3D4 14
              ∷ outb 0x3D5 (bit_and (p / 2 ^ 8) 0x00FF)
              ∷ outb 0x3D4 15
              ∷ outb 0x3D5 (bit_and p 0x00FF)
              ∷ []);
    }

pub attribute : ℕ → ℕ → ℕ
attribute fg bg = bit_or (bit_and bg 0x0F * 2 ^ 4) (bit_and fg 0x0F)

pub write_cell : (ℕ → ℕ) → ℕ → ℕ → ℕ → ℕ → ℕ → ℕ
write_cell fb i c fg bg = store (store fb i c) (i + 1) (attribute fg bg)

pub fb_write_cell : Screen → ℕ → ℕ → ℕ → ℕ → Screen
fb_write_cell s i c fg bg = record s { fb = write_cell s.fb i c fg bg }

-- The first loop of the scroll at cell `i`, with `left` cells to go.
pub scroll_up : ℕ → ℕ → (ℕ → ℕ) → ℕ → ℕ
scroll_up zero i fb = fb
scroll_up (suc left) i fb =
    let char = store fb (i * 2) (fb ((i + 80) * 2)) in
    scroll_up left (i + 1) (store char (i * 2 + 1) (char ((i + 80) * 2 + 1)))

-- `for (; rounds; i++) fb_write_cell(i * 2, ' ', fg, bg)`
pub blank_cells : ℕ → ℕ → ℕ → ℕ → (ℕ → ℕ) → ℕ → ℕ
blank_cells zero i fg bg fb = fb
blank_cells (suc left) i fg bg fb =
    blank_cells left (i + 1) fg bg (write_cell fb (i * 2) b' ' fg bg)

pub scrolled : Screen → ℕ → ℕ → Screen
scrolled s fg bg = record s {
  fb = blank_cells 80 (24 * 80) fg bg (scroll_up (24 * 80) 0 s.fb);
  cursor_pos = 24 * 80;
}

pub scroll : Screen → ℕ → ℕ → Screen
scroll s fg bg = if leb 2000 s.cursor_pos then scrolled s fg bg else s

-- The part of `putchar_color` that draws on the screen. It runs with `cursor_pos` below 2000, so the
-- sums do not wrap.
pub draw : Screen → ℕ → ℕ → ℕ → Screen
draw s c fg bg =
    let moved =
      if c == b'\n'
      then record s { cursor_pos = (s.cursor_pos / 80 + 1) * 80 }
      else record (fb_write_cell s (s.cursor_pos * 2) c fg bg) { cursor_pos = s.cursor_pos + 1 } in
    fb_move_cursor moved moved.cursor_pos

-- The part that calls `serial_write_char`.
pub send_char : ℕ → Screen → Option Screen
send_char c s = do
  (sent, later) ← serial_write_char c s.serial_status
  some (record s { sent = s.sent ++ sent; serial_status = later })

-- `none` if the serial port does not get ready in the status bytes given.
pub putchar_color : Device → ℕ → ℕ → ℕ → Screen → Option Screen
putchar_color dev c fg bg s =
    let s' = scroll s fg bg in
    elim dev [
      | device_fb ↦ some (draw s' c fg bg)
      | device_serial ↦ send_char c s'
      | other_device ↦ some s'
    ]

-- A byte between 1 and 15, but for the newline, switches the colour.
abbrev pub is_colour : ℕ → Bool
is_colour c = leb 1 c && leb c 15 && not (c == b'\n')

pub putchar : Device → ℕ → Screen → Option Screen
putchar dev c s =
    if is_colour c
    then some (record s { active_fg = c })
    else putchar_color dev c s.active_fg s.active_bg s

-- Over what is left of the string; the end of the array before a zero byte is a fault.
pub printf : Device → List ℕ → Screen → Option Screen
printf dev [] s = none
printf dev (zero ∷ str) s = some s
printf dev (suc c ∷ str) s = putchar dev (suc c) s >>= printf dev str

-- `printf_color` does by hand what `putchar` does, between saving and restoring the colours.
pub printf_color_loop : Device → List ℕ → Screen → Option Screen
printf_color_loop dev [] s = none
printf_color_loop dev (zero ∷ str) s = some s
printf_color_loop dev (suc c ∷ str) s =
    (if is_colour (suc c)
      then some (record s { active_fg = suc c })
      else putchar_color dev (suc c) s.active_fg s.active_bg s)
    >>= printf_color_loop dev str

pub printf_color : Device → List ℕ → ℕ → ℕ → Screen → Option Screen
printf_color dev str fg bg s = do
  s' ← printf_color_loop dev str (record s { active_fg = fg; active_bg = bg })
  some (record s' { active_fg = s.active_fg; active_bg = s.active_bg })

abbrev pub hex_chars : List ℕ
hex_chars =
    b'0' ∷ b'1' ∷ b'2' ∷ b'3' ∷ b'4' ∷ b'5' ∷ b'6' ∷ b'7' ∷ b'8' ∷ b'9' ∷ b'A' ∷ b'B' ∷ b'C' ∷ b'D'
    ∷ b'E' ∷ b'F' ∷ []

-- The loop of `print_hex`: the digits fill the string from its end, `acc` holds those written.
pub hex_digits : ℕ → ℕ → List ℕ → List ℕ
hex_digits zero num acc = acc
hex_digits (suc left) num acc =
    hex_digits left (num / 2 ^ 4) (get_or hex_chars (bit_and num 0x0F) 0 ∷ acc)

pub hex_str : ℕ → List ℕ
hex_str num = b'0' ∷ b'x' ∷ hex_digits 8 num (0 ∷ [])

pub print_hex : ℕ → Screen → Option Screen
print_hex num = printf device_fb (hex_str num)

pub clear_screen : Screen → Screen
clear_screen s =
    fb_move_cursor
      (record s {
        active_fg = default_fg;
        active_bg = default_bg;
        fb = blank_cells 2000 0 default_fg default_bg s.fb;
        cursor_pos = 0;
      })
      0

-- The strings of `print_lock_screen` in order.
abbrev pub lock_lines : List String
lock_lines =
    "\n\n\n\n\n" ∷ "                ßßßÛÛÜ         °°°              ßßßÛÛÜ  ßßßÛÛÜ\n"
    ∷ "               °°° ÛÛÛ         ±±±       ÜÜÜ   °°° ÛÛÛ °°° ÛÛÛ\n"
    ∷ "               ±±±             ²²²       ßßß   ±±± ÛÛÛ ±±±    \n"
    ∷ "               ß²²ÜÜÜ  ÜÛÛßÛÛÜ ÛÛÛ      ßÛÛÛ   ²²² ÛÛÛ ß²²ÜÜÜ \n"
    ∷ "                   ÛÛÛ ÛÛÛ ÛÛÛ ÛÛÛ       ÛÛÛ   ÛÛÛ ÛÛÛ     ÛÛÛ\n"
    ∷ "                   ÛÛÛ ÛÛÛßßßß ÛÛÛ       ÛÛÛ   ÛÛÛ ÛÛÛ     ÛÛÛ\n"
    ∷ "               ÜÜÜ ÛÛÛ ÛÛÛ ÛÛÛ ÛÛÛ ÜÜÜ   ÛÛÛ   ÛÛÛ ÛÛÛ ÜÜÜ ÛÛÛ\n"
    ∷ "               ÛÛÛ ÛÛÛ ÛÛÛ ÛÛÛ ÛÛÛ ÛÛÛ   ÛÛÛ   ÛÛÛ ÛÛÛ ÛÛÛ ÛÛÛ\n"
    ∷ "               ßÛÛÜÛÛß ßÛÛÜÛÛß ßÛÛÜÛÛß ÜÜÛÛÛÜÜ ßÛÛÜÛÛß ßÛÛÜÛÛß\n"
    ∷ "                         Ûß      ßÛ                           \n"
    ∷ "                         Ü       Ü                            \n" ∷ "\n\n\n\n"
    ∷ "                                        \n[ Press ENTER to access terminal ]\u{7}      \n"
    ∷ []

-- `printf_color(DEVICE_FB, line, DEFAULT_FG, DEFAULT_BG)` for each line in turn.
pub print_lines : List String → Screen → Option Screen
print_lines [] s = some s
print_lines (line ∷ lines) s =
    printf_color device_fb (c_str line) default_fg default_bg s >>= print_lines lines

pub print_lock_screen : Screen → Option Screen
unfolding print_lines
print_lock_screen = print_lines lock_lines
