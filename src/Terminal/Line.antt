-- ===== src/Terminal/Line.antt =====
-- The line that is typed: the input buffer against a plain line editor.
use seli_os.Screen.Bounds.{putchar_fb}
use seli_os.Terminal.{
  Terminal, translate, erase_cell, matrix_scan, handle_scan, enter_scan, backspace_scan,
  character_scan,
}
use seli_os.Prelude.{
  ℕ, suc, ◌+◌, ◌-◌, ◌≤◌, ◌<◌, ◌≡◌, refl, sym, ap, ◌∙◌, ◌≢◌, inl, inr, true, false, not, ◌&&◌, some,
  List, [], ◌∷◌, ◌++◌, arith, length, set?, ltb, ◌==◌, if◌then◌else◌, ◌>>=◌, bit_and, Bool-cases,
  all_below, of_all_below, length-append,
}
use seli_os.CString.Text.{set?-append}

-- No byte of the line is the terminator.
abbrev pub NoZero : List ℕ → Type 0
NoZero [] = Unit {0}
NoZero (c ∷ cs) = (c ≢ 0) × NoZero cs

-- The shell runs, and its 256 bytes of input begin with `line`, which is shorter.
pub record IsEditing (t : Terminal) (line : List ℕ) : Type 0 where
  pub shell : t.shell_active ≡ true
  pub rest : List ℕ
  pub buffer : t.input_buffer ≡ line ++ rest
  pub size : length line + length rest ≡ 256
  pub count : t.buffer_len ≡ length line
  pub room : length line ≤ 255
  pub no_zero : NoZero line

-- The line without its last byte.
abbrev pub init : List ℕ → List ℕ
init [] = []
init (x ∷ []) = []
init (x ∷ y ∷ line) = x ∷ init (y ∷ line)

-- What a key other than Enter does to the line, by the scancode.
pub edit : ℕ → List ℕ → List ℕ
edit scancode line =
    if scancode == 0x0E
    then init line
    else if not (translate scancode == 0) && ltb (length line) 255
    then line ++ (translate scancode ∷ [])
    else line

NoZero-append : (line : List ℕ) (c : ℕ) → NoZero line → c ≢ 0 → NoZero (line ++ (c ∷ []))
NoZero-append [] c h ne = (ne, tt)
NoZero-append (x ∷ line) c (nx, h) ne = (nx, NoZero-append line c h ne)

append_one : (line rest : List ℕ) (c : ℕ) → (line ++ (c ∷ [])) ++ rest ≡ line ++ (c ∷ rest)
append_one [] rest c = refl
append_one (x ∷ line) rest c = ap (λ l. x ∷ l) (append_one line rest c)

-- A non-empty line with its last byte taken off.
unsnoc :
    (line : List ℕ)
    → 0 < length line
    → NoZero line
    → (last : ℕ) × (line ≡ init line ++ (last ∷ []))
      × NoZero (init line)
      × (length line ≡ suc (length (init line)))
unsnoc [] h ok = absurd (omega arith)
unsnoc (x ∷ []) h ok = (x, refl, tt, refl)
unsnoc (x ∷ y ∷ line) h (nx, ok) =
    let (last, e, ok', n) = unsnoc (y ∷ line) (omega arith) ok in
    (last, ap (λ l. x ∷ l) e, (nx, ok'), ap suc n)

pub cells_left :
    (line rest : List ℕ)
    → length line + length rest ≡ 256
    → length line ≤ 255
    → (x : ℕ) × (rest' : List ℕ) × (rest ≡ x ∷ rest')
cells_left line [] e h = absurd (omega arith)
cells_left line (x ∷ rest') e h = (x, rest', refl)

character_scan-edit :
    (scancode : ℕ) (t : Terminal) (line : List ℕ)
    → IsEditing t line
    → scancode ≢ 0x0E
    → (t' : Terminal) × (character_scan scancode t ≡ some t') × IsEditing t' (edit scancode line)
unfolding character_scan edit
character_scan-edit scancode t line h other =
    let not_back : (scancode == 0x0E) ≡ false = ground arith in
    let count = h.count in
    elim (Bool-cases (not (translate scancode == 0) && ltb (length line) 255)) [
      | inl stored ↦
          let (x, rest', e) = cells_left line h.rest h.size h.room in
          let (s, put) = putchar_fb (translate scancode) t.screen in
          let at : set? t.input_buffer t.buffer_len (translate scancode)
              ≡ some (line ++ (translate scancode ∷ rest')) =
            rw (h.buffer, e) (set?-append line x (translate scancode) rest' t.buffer_len h.count) in
          (
            record t {
              input_buffer = line ++ (translate scancode ∷ rest');
              buffer_len = t.buffer_len + 1;
              screen = s;
            },
            rw (h.shell, count, stored) (rw (← count, at, ◌>>=◌, put) refl),
            rw (not_back, stored)
                (record {
                  shell = h.shell;
                  rest = rest';
                  buffer = sym (append_one line rest' (translate scancode));
                  size =
                      omega
                        (arith, h.size, ap length e, length-append line (translate scancode ∷ []));
                  count = omega (arith, length-append line (translate scancode ∷ []));
                  room = ground (arith, length-append line (translate scancode ∷ []));
                  no_zero = NoZero-append line (translate scancode) h.no_zero (ground arith);
                }),
          )
      | inr ignored ↦ (t, rw (h.shell, count, ignored) refl, rw (not_back, ignored) h)
    ]

nothing : (line : List ℕ) → length line ≤ 0 → line ≡ []
nothing [] h = refl
nothing (x ∷ line) h = absurd (omega arith)

backspace_scan-edit :
    (t : Terminal) (line : List ℕ)
    → IsEditing t line
    → (t' : Terminal) × (backspace_scan t ≡ some t') × IsEditing t' (edit 0x0E line)
unfolding backspace_scan edit
backspace_scan-edit t line h =
    let count = h.count in
    elim (Bool-cases (ltb 0 (length line))) [
      | inl some_left ↦
          let (last, e, ok, n) = unsnoc line (ground arith) h.no_zero in
          let cells : t.input_buffer ≡ init line ++ (last ∷ h.rest) =
            h.buffer ∙ ap (λ l. l ++ h.rest) e ∙ append_one (init line) h.rest last in
          let at : set? t.input_buffer (length line - 1) 0 ≡ some (init line ++ (0 ∷ h.rest)) =
            rw cells (set?-append (init line) last 0 h.rest (length line - 1) (omega arith)) in
          (
            record t {
              buffer_len = t.buffer_len - 1;
              input_buffer = init line ++ (0 ∷ h.rest);
              screen = erase_cell t.screen;
            },
            rw (count, some_left, h.shell, at) refl,
            record {
              shell = h.shell;
              rest = 0 ∷ h.rest;
              buffer = refl;
              size = omega (arith, h.size);
              count = omega arith;
              room = omega (arith, h.room);
              no_zero = ok;
            },
          )
      | inr none_left ↦
          let empty : line ≡ [] = nothing line (ground arith) in
          (
            t,
            rw (count, none_left) refl,
            rw empty (record {
              shell = h.shell;
              rest = h.rest;
              buffer = h.buffer ∙ ap (λ l. l ++ h.rest) empty;
              size = omega (arith, h.size, ap length empty);
              count = omega (arith, ap length empty);
              room = omega arith;
              no_zero = tt;
            }),
          )
    ]

pub pressed : (scancode : ℕ) → scancode < 128 → (bit_and scancode 0x80 == 0) ≡ true
unfolding all_below
pressed scancode h = of_all_below 128 scancode (λ c. bit_and c 0x80 == 0) refl h

pub handle_scan_key :
    (local : List ℕ) (scancode : ℕ) (t : Terminal)
    → t.matrix_active ≡ false
    → scancode < 128
    → handle_scan local scancode t ≡ (
        if scancode == 0x1C
        then enter_scan local t
        else if scancode == 0x0E
        then backspace_scan t
        else character_scan scancode t)
unfolding handle_scan
handle_scan_key local scancode t calm down = ground (arith, pressed scancode down)

-- While the shell runs and the matrix does not, every key but Enter does to the input buffer what
-- the line editor does to the line, and the handler does not fault.
pub handle_scan-edit :
    (local : List ℕ) (scancode : ℕ) (t : Terminal) (line : List ℕ)
    → IsEditing t line
    → t.matrix_active ≡ false
    → scancode < 128
    → scancode ≢ 0x1C
    → (t' : Terminal) × (handle_scan local scancode t ≡ some t') × IsEditing t' (edit scancode line)
handle_scan-edit local scancode t line h calm down other =
    let not_enter : (scancode == 0x1C) ≡ false = ground arith in
    elim (Bool-cases (scancode == 0x0E)) [
      | inl back ↦
          let (t', run, h') = backspace_scan-edit t line h in
          let e : scancode ≡ 0x0E = ground arith in
          (t', handle_scan_key local scancode t calm down ∙ rw (not_enter, back) run, rw e h')
      | inr key ↦
          let (t', run, h') = character_scan-edit scancode t line h (ground arith) in
          (t', handle_scan_key local scancode t calm down ∙ rw (not_enter, key) run, h')
    ]

-- While the matrix runs, a key other than `q` changes nothing.
pub handle_scan_in_matrix :
    (local : List ℕ) (scancode : ℕ) (t : Terminal)
    → t.matrix_active ≡ true
    → translate scancode ≢ b'q'
    → handle_scan local scancode t ≡ some t
unfolding handle_scan matrix_scan
handle_scan_in_matrix local scancode t running other = ground arith

-- A release code changes nothing, in any state.
pub handle_scan_release :
    (local : List ℕ) (key : ℕ) (t : Terminal) → key < 128 → handle_scan local (128 + key) t ≡ some t
unfolding handle_scan all_below
handle_scan_release local key t h =
    let e = of_all_below 128 key (λ c. not (bit_and (128 + c) 0x80 == 0)) refl h in rw e refl
