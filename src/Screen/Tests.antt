-- ===== src/Screen/Tests.antt =====
-- The text screen at concrete states.
use seli_os.Screen.{Screen, device_fb, printf, printf_color, scrolled, hex_str}
use seli_os.Screen.Bounds.{StaysInside, printf-StaysInside}
use seli_os.Screen.Plain.{IsShown, printf_plain, with_colours, printf_color-printf}
use mathlib.Core.Option
use seli_os.Screen.Scroll.{blank, scrolled_lem}
use seli_os.Screen.Hex.{read_hex, read_hex-hex_str}
use seli_os.Prelude.{ℕ, ◌+◌, ◌≡◌, refl, some, List, [], ◌∷◌, arith, length, ltb, if◌then◌else◌}

abbrev full_screen : Screen
full_screen = record {
  fb = λ i. i;
  cursor_pos = 2000;
  active_fg = 15;
  active_bg = 1;
  sent = [];
  serial_status = [];
}

printf-StaysInside_example :
    (s : Screen) × (printf device_fb (b'h' ∷ 10 ∷ b'i' ∷ 0 ∷ []) full_screen ≡ some s)
    × StaysInside full_screen s
printf-StaysInside_example =
    printf-StaysInside (b'h' ∷ 10 ∷ b'i' ∷ 0 ∷ []) (b'h' ∷ 10 ∷ b'i' ∷ []) full_screen refl
      (omega arith)

scrolled_lem_example :
    ((scrolled full_screen 15 1).cursor_pos ≡ 1920)
    × ((j : ℕ)
        → (scrolled full_screen 15 1).fb j
          ≡ (if ltb j 3840 then j + 160 else if ltb j 4000 then blank 15 1 j else j))
scrolled_lem_example = scrolled_lem full_screen 15 1

read_hex-hex_str_example :
    (digits : List ℕ) × (hex_str 0xC0FFEE ≡ b'0' ∷ b'x' ∷ digits)
    × (length digits ≡ 9)
    × (read_hex 0 digits ≡ some 0xC0FFEE)
read_hex-hex_str_example = read_hex-hex_str 0xC0FFEE (omega arith)

printf_plain_example :
    (s : Screen) × (printf device_fb
        (b'h' ∷ b'i' ∷ 10 ∷ 0 ∷ [])
        (record full_screen { cursor_pos = 1998 })
      ≡ printf device_fb (10 ∷ 0 ∷ []) s)
    × IsShown (b'h' ∷ b'i' ∷ []) (record full_screen { cursor_pos = 1998 }) s
printf_plain_example =
    printf_plain (b'h' ∷ b'i' ∷ []) (10 ∷ 0 ∷ []) (record full_screen { cursor_pos = 1998 })
      (omega arith, (omega arith, tt)) (omega arith)

printf_color-printf_example :
    printf_color device_fb (b'h' ∷ 7 ∷ b'i' ∷ 0 ∷ []) 2 4 full_screen
    ≡ Option.map
        (with_colours 15 1)
        (printf device_fb (b'h' ∷ 7 ∷ b'i' ∷ 0 ∷ []) (with_colours 2 4 full_screen))
printf_color-printf_example =
    printf_color-printf device_fb (b'h' ∷ 7 ∷ b'i' ∷ 0 ∷ []) 2 4 full_screen
