-- ===== src/Screen/Total.antt =====
-- Printing a terminated string on the screen never faults.
use seli_os.CString.Text.{text, text_uncons, text_cons, c_str-text}
use seli_os.Port.{outb}
use seli_os.Serial.{serial_com1_base}
use seli_os.Serial.Output.{ready_count, write_char_ready}
use seli_os.Screen.{
  Screen, device_fb, device_serial, default_fg, default_bg, printf, print_hex, hex_digits, hex_str,
  printf_color, printf_color_loop, print_lines, print_lock_screen, lock_lines, is_colour, putchar,
  putchar_color, draw, scroll, scrolled, send_char,
}
use seli_os.Prelude.Strings.{c_str}
use Prim.Native.String.{String}
use seli_os.Screen.Bounds.{putchar_fb}
use seli_os.Prelude.{
  ℕ, zero, suc, ◌/◌, ◌^◌, ◌≤◌, ◌<◌, ◌≡◌, refl, ap, ◌∙◌, some, List, [], ◌∷◌, ◌++◌, ◌>>=◌,
  Bool-cases, inl, inr, arith, length,
}

pub printf_total :
    (str u : List ℕ) (s : Screen)
    → text str ≡ some u
    → (s' : Screen) × (printf device_fb str s ≡ some s')
unfolding printf
printf_total [] u s e = absurd (cc)
printf_total (zero ∷ str) u s e = (s, refl)
printf_total (suc c ∷ str) u s e =
    let (u', e', same) = text_uncons c str u e in
    let (s1, put) = putchar_fb (suc c) s in
    let (s2, rest) = printf_total str u' s1 e' in (s2, rw put rest)

text-hex_digits :
    (left num : ℕ) (acc u : List ℕ)
    → text acc ≡ some u
    → (u' : List ℕ) × (text (hex_digits left num acc) ≡ some u')
unfolding hex_digits
text-hex_digits zero num acc u e = (u, e)
text-hex_digits (suc left) num acc u e =
    let (u', e') = text_cons _ acc u e in text-hex_digits left (num / 2 ^ 4) _ u' e'

pub print_hex_total : (num : ℕ) (s : Screen) → (s' : Screen) × (print_hex num s ≡ some s')
unfolding print_hex hex_str
print_hex_total num s =
    let (u, e) = text-hex_digits 8 num (0 ∷ []) [] refl in
    let (u1, e1) = text_cons b'x' (hex_digits 8 num (0 ∷ [])) u e in
    let (u2, e2) = text_cons b'0' (b'x' ∷ hex_digits 8 num (0 ∷ [])) u1 e1 in
    printf_total (hex_str num) u2 s e2

printf_color_loop_total :
    (str u : List ℕ) (s : Screen)
    → text str ≡ some u
    → (s' : Screen) × (printf_color_loop device_fb str s ≡ some s')
unfolding printf_color_loop putchar_color
printf_color_loop_total [] u s e = absurd (cc)
printf_color_loop_total (zero ∷ str) u s e = (s, refl)
printf_color_loop_total (suc c ∷ str) u s e =
    let (u', e', same) = text_uncons c str u e in
    elim (Bool-cases (is_colour (suc c))) [
      | inl colour ↦
          let (s2, rest) = printf_color_loop_total str u' (record s { active_fg = suc c }) e' in
          (s2, rw colour rest)
      | inr drawn ↦
          let s1 = draw (scroll s s.active_fg s.active_bg) (suc c) s.active_fg s.active_bg in
          let (s2, rest) = printf_color_loop_total str u' s1 e' in (s2, rw drawn rest)
    ]

printf_color_total :
    (str u : List ℕ) (fg bg : ℕ) (s : Screen)
    → text str ≡ some u
    → (s' : Screen) × (printf_color device_fb str fg bg s ≡ some s')
unfolding printf_color
printf_color_total str u fg bg s e =
    let (s1, run) = printf_color_loop_total str u (record s { active_fg = fg; active_bg = bg }) e in
    (record s1 { active_fg = s.active_fg; active_bg = s.active_bg }, rw run refl)

print_lines_total :
    (lines : List String) (s : Screen) → (s' : Screen) × (print_lines lines s ≡ some s')
unfolding print_lines
print_lines_total [] s = (s, refl)
print_lines_total (line ∷ lines) s =
    let (u, e) = c_str-text line in
    let (s1, run) = printf_color_total (c_str line) u default_fg default_bg s e in
    let (s2, rest) = print_lines_total lines s1 in
    (s2, ap (λ o. o >>= print_lines lines) run ∙ rest)

pub print_lock_screen_total : (s : Screen) → (s' : Screen) × (print_lock_screen s ≡ some s')
unfolding print_lock_screen
print_lock_screen_total s = print_lines_total lock_lines s

send_char_ready :
    (c : ℕ) (s : Screen)
    → 0 < ready_count s.serial_status
    → (s' : Screen) × (send_char c s ≡ some s')
      × (ready_count s.serial_status ≡ suc (ready_count s'.serial_status))
unfolding send_char
send_char_ready c s h =
    let (later, e, count) = write_char_ready c s.serial_status h in
    (
      record s { sent = s.sent ++ (outb serial_com1_base c ∷ []); serial_status = later },
      rw e refl,
      count,
    )

scroll-serial_status : (s : Screen) (fg bg : ℕ) → (scroll s fg bg).serial_status ≡ s.serial_status
unfolding scroll scrolled
scroll-serial_status s fg bg = ground arith

-- The text goes out if the serial port gets ready as often as the text has bytes.
pub printf_serial_total :
    (str u : List ℕ) (s : Screen)
    → text str ≡ some u
    → length u ≤ ready_count s.serial_status
    → (s' : Screen) × (printf device_serial str s ≡ some s')
unfolding printf putchar putchar_color
printf_serial_total [] u s e h = absurd (cc)
printf_serial_total (zero ∷ str) u s e h = (s, refl)
printf_serial_total (suc c ∷ str) u s e h =
    let (u', e', same) = text_uncons c str u e in
    let long = ap (length {A = ℕ}) same in
    elim (Bool-cases (is_colour (suc c))) [
      | inl colour ↦
          let (s2, rest) =
            printf_serial_total str u' (record s { active_fg = suc c }) e' (omega arith) in
          (s2, rw colour rest)
      | inr sent ↦
          let s0 = scroll s s.active_fg s.active_bg in
          let kept = ap ready_count (scroll-serial_status s s.active_fg s.active_bg) in
          let (s1, run, count) = send_char_ready (suc c) s0 (omega arith) in
          let (s2, rest) = printf_serial_total str u' s1 e' (omega arith) in
          (s2, rw (sent, run) rest)
    ]
