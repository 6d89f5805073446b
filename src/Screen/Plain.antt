-- ===== src/Screen/Plain.antt =====
-- Text without colours and newlines, and the colours of `printf_color`.
use seli_os.Screen.{
  Screen, Device, device_fb, is_colour, attribute, write_cell, fb_write_cell, fb_move_cursor,
  scroll, draw, putchar_color, putchar, printf, printf_color_loop, printf_color,
}
use mathlib.Core.Option
use mathlib.Core.Path.{fun_ext}
use seli_os.Prelude.{
  ℕ, zero, suc, ◌+◌, ◌*◌, ◌≤◌, ◌<◌, ◌≡◌, ◌≢◌, ◌⊎◌, refl, ap, ◌∙◌, inl, inr, Option, none, some,
  List, [], ◌∷◌, ◌++◌, arith, length, get_or, leb, ◌==◌, ◌>>=◌, false, ==_of_ne, ==_self,
}

abbrev pub AllPlain : List ℕ → Type 0
AllPlain [] = Unit
AllPlain (c ∷ l) = (16 ≤ c) × AllPlain l

-- The screen after one character.
shown : ℕ → Screen → Screen
shown c s =
    fb_move_cursor
      (record s {
        fb = write_cell s.fb (s.cursor_pos * 2) c s.active_fg s.active_bg;
        cursor_pos = s.cursor_pos + 1;
      })
      (s.cursor_pos + 1)

scroll_plain : (s : Screen) (fg bg : ℕ) → s.cursor_pos < 2000 → scroll s fg bg ≡ s
unfolding scroll
scroll_plain s fg bg room = let full : leb 2000 s.cursor_pos ≡ false = ground arith in rw full refl

draw_plain : (c : ℕ) (s : Screen) → 16 ≤ c → draw s c s.active_fg s.active_bg ≡ shown c s
unfolding draw fb_write_cell shown
draw_plain c s plain = let line : (c == b'\n') ≡ false = ground arith in rw line refl

putchar_plain :
    (c : ℕ) (s : Screen) → 16 ≤ c → s.cursor_pos < 2000 → putchar device_fb c s ≡ some (shown c s)
unfolding putchar putchar_color
putchar_plain c s plain room =
    let colour : is_colour c ≡ false = ground arith in
    rw colour (
      ap (λ t. some (draw t c s.active_fg s.active_bg))
        (scroll_plain s s.active_fg s.active_bg room)
      ∙ ap some (draw_plain c s plain))

-- The colours and the cells that a text leaves.
pub record IsShown (l : List ℕ) (s s' : Screen) : Type 0 where
  pub cursor : s'.cursor_pos ≡ s.cursor_pos + length l
  pub foreground : s'.active_fg ≡ s.active_fg
  pub background : s'.active_bg ≡ s.active_bg
  pub chars : (i : ℕ) → i < length l → s'.fb (2 * (s.cursor_pos + i)) ≡ get_or l i 0
  pub colours :
      (i : ℕ)
      → i < length l
      → s'.fb (2 * (s.cursor_pos + i) + 1) ≡ attribute s.active_fg s.active_bg
  pub outside :
      (a : ℕ) → (a < 2 * s.cursor_pos) ⊎ (2 * (s.cursor_pos + length l) ≤ a) → s'.fb a ≡ s.fb a

shown_char : (c : ℕ) (s : Screen) → (shown c s).fb (2 * s.cursor_pos) ≡ c
unfolding shown write_cell fb_move_cursor
shown_char c s =
    let here = ==_self (s.cursor_pos * 2) in
    let odd = ==_of_ne (s.cursor_pos * 2 + 1) (s.cursor_pos * 2) (λ e. omega arith) in
    let at : 2 * s.cursor_pos ≡ s.cursor_pos * 2 = omega arith in rw (at, odd, here) refl

shown_colour :
    (c : ℕ) (s : Screen) → (shown c s).fb (2 * s.cursor_pos + 1) ≡ attribute s.active_fg s.active_bg
unfolding shown write_cell fb_move_cursor
shown_colour c s =
    let here = ==_self (s.cursor_pos * 2 + 1) in
    let at : 2 * s.cursor_pos + 1 ≡ s.cursor_pos * 2 + 1 = omega arith in rw (at, here) refl

shown_elsewhere :
    (c a : ℕ) (s : Screen)
    → a ≢ 2 * s.cursor_pos
    → a ≢ 2 * s.cursor_pos + 1
    → (shown c s).fb a ≡ s.fb a
unfolding shown write_cell fb_move_cursor
shown_elsewhere c a s ne ne' =
    let first = ==_of_ne (s.cursor_pos * 2 + 1) a (λ e. ne' (omega arith)) in
    let second = ==_of_ne (s.cursor_pos * 2) a (λ e. ne (omega arith)) in rw (first, second) refl

shown_cursor : (c : ℕ) (s : Screen) → (shown c s).cursor_pos ≡ s.cursor_pos + 1
unfolding shown fb_move_cursor
shown_cursor c s = refl

shown_foreground : (c : ℕ) (s : Screen) → (shown c s).active_fg ≡ s.active_fg
unfolding shown fb_move_cursor
shown_foreground c s = refl

shown_background : (c : ℕ) (s : Screen) → (shown c s).active_bg ≡ s.active_bg
unfolding shown fb_move_cursor
shown_background c s = refl

-- The first character, and the rest behind it.
module _ (c : ℕ) (l : List ℕ) (s s' : Screen) (rest : IsShown l (shown c s) s') where
  first_kept : (a : ℕ) → a < 2 * s.cursor_pos + 2 → s'.fb a ≡ (shown c s).fb a
  first_kept a low = let moved = shown_cursor c s in rest.outside a (inl (omega arith))

  cons_char : (i : ℕ) → i < suc (length l) → s'.fb (2 * (s.cursor_pos + i)) ≡ get_or (c ∷ l) i 0
  cons_char zero small =
      ap s'.fb {x = 2 * (s.cursor_pos + 0)} {y = 2 * s.cursor_pos} (omega arith)
      ∙ first_kept (2 * s.cursor_pos) (omega arith)
      ∙ shown_char c s
  cons_char (suc i) small =
      let moved = shown_cursor c s in
      ap s'.fb {y = 2 * ((shown c s).cursor_pos + i)} (omega arith) ∙ rest.chars i (omega arith)

  cons_colour :
      (i : ℕ)
      → i < suc (length l)
      → s'.fb (2 * (s.cursor_pos + i) + 1) ≡ attribute s.active_fg s.active_bg
  cons_colour zero small =
      ap s'.fb {x = 2 * (s.cursor_pos + 0) + 1} {y = 2 * s.cursor_pos + 1} (omega arith)
      ∙ first_kept (2 * s.cursor_pos + 1) (omega arith)
      ∙ shown_colour c s
  cons_colour (suc i) small =
      let moved = shown_cursor c s in
      ap s'.fb {y = 2 * ((shown c s).cursor_pos + i) + 1} (omega arith)
      ∙ rest.colours i (omega arith)
      ∙ ap (λ fg. attribute fg (shown c s).active_bg) (shown_foreground c s)
      ∙ ap (attribute s.active_fg) (shown_background c s)

  cons_outside :
      (a : ℕ)
      → (a < 2 * s.cursor_pos) ⊎ (2 * (s.cursor_pos + suc (length l)) ≤ a)
      → s'.fb a ≡ s.fb a
  cons_outside a out =
      let moved = shown_cursor c s in
      elim out [
        | inl low ↦
            rest.outside a (inl (omega arith))
            ∙ shown_elsewhere c a s (λ e. omega arith) (λ e. omega arith)
        | inr high ↦
            rest.outside a (inr (omega arith))
            ∙ shown_elsewhere c a s (λ e. omega arith) (λ e. omega arith)
      ]

  IsShown-cons : IsShown (c ∷ l) s s'
  IsShown-cons = record {
    cursor = (let moved = shown_cursor c s in let there = rest.cursor in omega arith);
    foreground = rest.foreground ∙ shown_foreground c s;
    background = rest.background ∙ shown_background c s;
    chars = cons_char;
    colours = cons_colour;
    outside = cons_outside;
  }

-- Where a text of characters from 16 on fits between the cursor and the end of the 2000 cells,
-- `printf` to the screen puts each of them in its cell in the current colours, moves the cursor
-- behind the last one, keeps the colours and changes no other byte of the VGA memory, and goes
-- on with the rest of the string.
pub printf_plain :
    (l rest : List ℕ) (s : Screen)
    → AllPlain l
    → s.cursor_pos + length l ≤ 2000
    → (s' : Screen) × (printf device_fb (l ++ rest) s ≡ printf device_fb rest s') × IsShown l s s'
unfolding printf
printf_plain [] rest s plain room = (
  s,
  refl,
  record {
    cursor = omega arith;
    foreground = refl;
    background = refl;
    chars = λ i small. absurd (omega arith);
    colours = λ i small. absurd (omega arith);
    outside = λ a out. refl;
  },
)
printf_plain (zero ∷ l) rest s (plain, later) room = absurd (omega arith)
printf_plain (suc c ∷ l) rest s (plain, later) room =
    let moved = shown_cursor (suc c) s in
    let (s', run, shown_rest) = printf_plain l rest (shown (suc c) s) later (omega arith) in
    (
      s',
      ap (λ o. o >>= printf device_fb (l ++ rest)) (putchar_plain (suc c) s plain (omega arith))
          ∙ run,
      IsShown-cons (suc c) l s s' shown_rest,
    )

printf_color_loop_lem :
    (dev : Device) (str : List ℕ) (s : Screen) → printf_color_loop dev str s ≡ printf dev str s
unfolding printf_color_loop printf putchar
printf_color_loop_lem dev [] s = refl
printf_color_loop_lem dev (zero ∷ str) s = refl
printf_color_loop_lem dev (suc c ∷ str) s =
    ap (λ k. putchar dev (suc c) s >>= k) (fun_ext (printf_color_loop_lem dev str))

abbrev pub with_colours : ℕ → ℕ → Screen → Screen
with_colours fg bg s = record s { active_fg = fg; active_bg = bg }

-- On every device, screen and string, `printf_color` is `printf` in the given colours, with the colours
-- from before put back; it fails where that `printf` fails.
pub printf_color-printf :
    (dev : Device) (str : List ℕ) (fg bg : ℕ) (s : Screen)
    → printf_color dev str fg bg s
      ≡ Option.map (with_colours s.active_fg s.active_bg) (printf dev str (with_colours fg bg s))
unfolding printf_color
printf_color-printf dev str fg bg s =
    ap (λ o. o >>= λ s'. some (with_colours s.active_fg s.active_bg s'))
      (printf_color_loop_lem dev str (with_colours fg bg s))
    ∙ bind_some (with_colours s.active_fg s.active_bg) (printf dev str (with_colours fg bg s))
  where
    bind_some :
        (f : Screen → Screen) (o : Option Screen) → (o >>= λ s'. some (f s')) ≡ Option.map f o
    bind_some f none = refl
    bind_some f (some x) = refl

-- A text that is green, with light grey from there on.
pub printf_green :
    (l : List ℕ) (s : Screen)
    → AllPlain l
    → s.cursor_pos + length l ≤ 2000
    → (s' : Screen) × (printf device_fb (2 ∷ (l ++ (7 ∷ (0 ∷ [])))) s
        ≡ some (record s' { active_fg = 7 }))
      × IsShown l (record s { active_fg = 2 }) s'
unfolding printf putchar
printf_green l s plain room =
    let (s', run, is) = printf_plain l (7 ∷ (0 ∷ [])) (record s { active_fg = 2 }) plain room in
    (s', run, is)
