-- ===== src/Screen/Bounds.antt =====
-- The cursor stays on the screen, and nothing is stored outside the 4000 bytes that are shown.
use mathlib.Core.Path.{subst}
use seli_os.Screen.{
  Screen, Device, device_fb, device_serial, other_device, write_cell, scroll_up, blank_cells,
  scrolled, scroll, fb_move_cursor, fb_write_cell, draw, send_char, putchar_color, putchar, printf,
  printf_color_loop, printf_color, clear_screen, is_colour,
}
use seli_os.CString.Text.{text, text_uncons}
use seli_os.Serial.{serial_write_char}
use seli_os.Port.{Sent}
use seli_os.Prelude.{
  ℕ, zero, suc, ◌+◌, ◌*◌, ◌≤◌, ◌<◌, ◌≡◌, refl, sym, ap, fun_ext, ◌∙◌, inl, inr, Option, none, some,
  List, [], ◌∷◌, ◌++◌, arith, leb, ◌>>=◌, Bool-cases, eq_of_some,
}

-- Memory from byte 4000 on, which is not shown, is left alone.
abbrev pub SameBeyond : (ℕ → ℕ) → (ℕ → ℕ) → Type 0
SameBeyond fb fb' = (j : ℕ) → 4000 ≤ j → fb' j ≡ fb j

scroll_up-SameBeyond :
    (left i : ℕ) (fb : ℕ → ℕ) → i + left ≤ 2000 → SameBeyond fb (scroll_up left i fb)
unfolding scroll_up
scroll_up-SameBeyond zero i fb h j far = refl
scroll_up-SameBeyond (suc left) i fb h j far =
    scroll_up-SameBeyond left (i + 1) _ (omega arith) j far ∙ ground arith

blank_cells-SameBeyond :
    (left i fg bg : ℕ) (fb : ℕ → ℕ) → i + left ≤ 2000 → SameBeyond fb (blank_cells left i fg bg fb)
unfolding blank_cells write_cell
blank_cells-SameBeyond zero i fg bg fb h j far = refl
blank_cells-SameBeyond (suc left) i fg bg fb h j far =
    blank_cells-SameBeyond left (i + 1) fg bg _ (omega arith) j far ∙ ground arith

-- The cursor of `s'` is on the screen or just behind it, and unseen memory is that of `s`.
pub record StaysInside (s s' : Screen) : Type 0 where
  pub cursor : s'.cursor_pos ≤ 2000
  pub beyond : SameBeyond s.fb s'.fb

pub StaysInside-trans : {s t u : Screen} → StaysInside s t → StaysInside t u → StaysInside s u
StaysInside-trans h k = record {
  cursor = k.cursor;
  beyond = λ j far. k.beyond j far ∙ h.beyond j far;
}

scrolled-SameBeyond : (s : Screen) (fg bg : ℕ) → SameBeyond s.fb (scrolled s fg bg).fb
unfolding scrolled
scrolled-SameBeyond s fg bg j far =
    blank_cells-SameBeyond 80 (24 * 80) fg bg (scroll_up (24 * 80) 0 s.fb) (omega arith) j far
    ∙ scroll_up-SameBeyond (24 * 80) 0 s.fb (omega arith) j far

cursor_pos-scrolled : (s : Screen) (fg bg : ℕ) → (scrolled s fg bg).cursor_pos ≡ 24 * 80
unfolding scrolled
cursor_pos-scrolled s fg bg = refl

scroll-StaysInside :
    (s : Screen) (fg bg : ℕ)
    → ((scroll s fg bg).cursor_pos < 2000) × SameBeyond s.fb (scroll s fg bg).fb
unfolding scroll
scroll-StaysInside s fg bg = elim (Bool-cases (leb 2000 s.cursor_pos)) [
  | inl full ↦ rw full (omega (arith, cursor_pos-scrolled s fg bg), scrolled-SameBeyond s fg bg)
  | inr room ↦ rw room (ground arith, λ j far. refl)
]

draw-StaysInside : (s : Screen) (c fg bg : ℕ) → s.cursor_pos < 2000 → StaysInside s (draw s c fg bg)
unfolding draw fb_move_cursor fb_write_cell write_cell
draw-StaysInside s c fg bg h = record { cursor = ground arith; beyond = λ j far. ground arith }

send_char-same :
    (c : ℕ) (s s' : Screen)
    → send_char c s ≡ some s'
    → (s'.fb ≡ s.fb) × (s'.cursor_pos ≡ s.cursor_pos)
unfolding send_char
send_char-same c s s' e = sent_same (serial_write_char c s.serial_status) e
  where
    sent_same :
        (m : Option (List Sent × List ℕ))
        → (m >>= λ (out, later). some (record s { sent = s.sent ++ out; serial_status = later }))
          ≡ some s'
        → (s'.fb ≡ s.fb) × (s'.cursor_pos ≡ s.cursor_pos)
    sent_same none e = absurd (cc)
    sent_same (some (out, later)) e =
        (ap (λ t. t.fb) (eq_of_some (sym e)), ap (λ t. t.cursor_pos) (eq_of_some (sym e)))

-- From any cursor at all, `putchar_color`, if the device gets ready, leaves the cursor on the
-- screen or just behind it, and stores nothing outside the shown memory.
pub putchar_color-StaysInside :
    (dev : Device) (c fg bg : ℕ) (s s' : Screen)
    → putchar_color dev c fg bg s ≡ some s'
    → StaysInside s s'
unfolding putchar_color
putchar_color-StaysInside device_fb c fg bg s s' e =
    let (room, same) = scroll-StaysInside s fg bg in
    let drawn = draw-StaysInside (scroll s fg bg) c fg bg room in
    subst (StaysInside s) (eq_of_some e)
      (record { cursor = drawn.cursor; beyond = λ j far. drawn.beyond j far ∙ same j far })
putchar_color-StaysInside device_serial c fg bg s s' e =
    let (room, same) = scroll-StaysInside s fg bg in
    let (fb, cursor) = send_char-same c (scroll s fg bg) s' e in
    record { cursor = omega arith; beyond = λ j far. ap (λ f. f j) fb ∙ same j far }
putchar_color-StaysInside other_device c fg bg s s' e =
    let (room, same) = scroll-StaysInside s fg bg in
    subst (StaysInside s) (eq_of_some e) (record { cursor = omega arith; beyond = same })

-- A byte written by `putchar` keeps a cursor that is on the screen there.
pub putchar-StaysInside :
    (dev : Device) (c : ℕ) (s s' : Screen)
    → s.cursor_pos ≤ 2000
    → putchar dev c s ≡ some s'
    → StaysInside s s'
unfolding putchar
putchar-StaysInside dev c s s' h e = elim (Bool-cases (is_colour c)) [
  | inl colour ↦
      subst (StaysInside s) (eq_of_some (rw colour at e))
        (record { cursor = h; beyond = λ j far. refl })
  | inr other ↦ putchar_color-StaysInside dev c s.active_fg s.active_bg s s' (rw other at e)
]

putchar_color_fb :
    (c fg bg : ℕ) (s : Screen) → (s' : Screen) × (putchar_color device_fb c fg bg s ≡ some s')
unfolding putchar_color
putchar_color_fb c fg bg s = (draw (scroll s fg bg) c fg bg, refl)

pub putchar_fb : (c : ℕ) (s : Screen) → (s' : Screen) × (putchar device_fb c s ≡ some s')
unfolding putchar
putchar_fb c s = elim (Bool-cases (is_colour c)) [
  | inl colour ↦ (record s { active_fg = c }, rw colour refl)
  | inr other ↦ rw other (putchar_color_fb c s.active_fg s.active_bg s)
]

-- On the screen `printf` of a terminated string, from a cursor on the screen or just behind it,
-- always returns; it leaves the cursor on the screen or just behind it, and stores nothing
-- outside the shown memory.
pub printf-StaysInside :
    (str t : List ℕ) (s : Screen)
    → text str ≡ some t
    → s.cursor_pos ≤ 2000
    → (s' : Screen) × (printf device_fb str s ≡ some s') × StaysInside s s'
unfolding printf
printf-StaysInside [] t s e h = absurd (cc)
printf-StaysInside (zero ∷ str) t s e h = (s, refl, record { cursor = h; beyond = λ j far. refl })
printf-StaysInside (suc c ∷ str) t s e h =
    let (t', e', same) = text_uncons c str t e in
    let (s1, put) = putchar_fb (suc c) s in
    let first = putchar-StaysInside device_fb (suc c) s s1 h put in
    let (s2, rest, inside) = printf-StaysInside str t' s1 e' first.cursor in
    (s2, rw put rest, StaysInside-trans first inside)

-- One round of `printf_color` is `putchar`.
printf_color_loop-eq-printf :
    (dev : Device) (str : List ℕ) (s : Screen) → printf_color_loop dev str s ≡ printf dev str s
unfolding printf_color_loop printf putchar
printf_color_loop-eq-printf dev [] s = refl
printf_color_loop-eq-printf dev (zero ∷ str) s = refl
printf_color_loop-eq-printf dev (suc c ∷ str) s =
    ap (λ k. putchar dev (suc c) s >>= k) (fun_ext (printf_color_loop-eq-printf dev str))

-- `printf_color` on the screen, of a terminated string and from a cursor on the screen or just
-- behind it, returns with the colours that were active before, whatever colour bytes the string
-- holds, leaves the cursor on the screen or just behind it, and stores nothing outside the shown
-- memory.
pub printf_color-StaysInside :
    (str t : List ℕ) (fg bg : ℕ) (s : Screen)
    → text str ≡ some t
    → s.cursor_pos ≤ 2000
    → (s' : Screen) × (printf_color device_fb str fg bg s ≡ some s')
      × StaysInside s s'
      × (s'.active_fg ≡ s.active_fg)
      × (s'.active_bg ≡ s.active_bg)
unfolding printf_color
printf_color-StaysInside str t fg bg s e h =
    let coloured = record s { active_fg = fg; active_bg = bg } in
    let (s', run, inside) = printf-StaysInside str t coloured e h in
    (
      record s' { active_fg = s.active_fg; active_bg = s.active_bg },
      rw (printf_color_loop-eq-printf device_fb str coloured, run) refl,
      record { cursor = inside.cursor; beyond = inside.beyond },
      refl,
      refl,
    )

-- `clear_screen` puts the cursor at the start from anywhere, and stores nothing outside the shown
-- memory.
pub clear_screen-StaysInside :
    (s : Screen) → StaysInside s (clear_screen s) × ((clear_screen s).cursor_pos ≡ 0)
unfolding clear_screen fb_move_cursor
clear_screen-StaysInside s = (
  record { cursor = omega arith; beyond = blank_cells-SameBeyond 2000 0 15 1 s.fb (omega arith) },
  refl,
)
