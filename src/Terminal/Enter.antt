-- ===== src/Terminal/Enter.antt =====
-- What Enter makes of the shell.
use seli_os.CString.Text.{text, text-suc, set?-append}
use seli_os.Fs.Dispatch.Mounted.{IsMounted}
use seli_os.Screen.Bounds.{putchar_fb}
use seli_os.Terminal.{Terminal, prompt, enter_scan, enter_line, run_command, empty_line}
use seli_os.Terminal.Line.{IsEditing, NoZero, cells_left}
use seli_os.Terminal.Ready.{Yields, Yields-bind, Keeps, Keeps-refl, prompt-Keeps, run_command-Keeps}
use seli_os.Prelude.{
  ℕ, zero, suc, ◌≡◌, refl, ap, ◌∙◌, inl, inr, Bool, true, false, some, List, [], ◌∷◌, ◌++◌, arith,
  length, set, set?, set?-eq-set, length-set, length-append, ltb, if◌then◌else◌, ◌>>=◌, Bool-cases,
}

-- The input buffer holds a line, also before the shell is opened, and the disk is mounted.
pub record IsReady (t : Terminal) : Type 0 where
  pub line : List ℕ
  pub typed : IsEditing (record t { shell_active = true }) line
  pub mounted : IsMounted t.disk

-- What is left of that while a command runs.
pub record HasRoom (t : Terminal) : Type 0 where
  pub size : length t.input_buffer ≡ 256
  pub mounted : IsMounted t.disk

Keeps-HasRoom : {t u : Terminal} → HasRoom t → Keeps t u → HasRoom u
Keeps-HasRoom r k = record { size = ap length k.buffer ∙ r.size; mounted = k.mounted r.mounted }

text-line : (line rest : List ℕ) → NoZero line → text (line ++ (0 ∷ rest)) ≡ some line
text-line [] rest ok = refl
text-line (zero ∷ line) rest (ne, ok) = absurd (ne refl)
text-line (suc c ∷ line) rest (ne, ok) =
    text-suc c (line ++ (0 ∷ rest)) line (text-line line rest ok)

pub empty_line-IsReady : (t : Terminal) → HasRoom t → Yields (empty_line t) IsReady
unfolding empty_line
empty_line-IsReady t r =
    let size = r.size in
    let cleared = set?-eq-set t.input_buffer 0 0 (omega arith) in
    (
      record t { buffer_len = 0; input_buffer = set t.input_buffer 0 0 },
      rw cleared refl,
      record {
        line = [];
        typed = record {
          shell = refl;
          rest = set t.input_buffer 0 0;
          buffer = refl;
          size = omega (arith, length-set t.input_buffer 0 0);
          count = refl;
          room = omega arith;
          no_zero = tt;
        };
        mounted = r.mounted;
      },
    )

-- The prompt, where the shell is open, and a fresh line.
finish-IsReady :
    (b : Bool) (t : Terminal)
    → HasRoom t
    → Yields ((if b then prompt t else some t) >>= empty_line) IsReady
finish-IsReady true t r =
    Yields-bind (prompt t) empty_line (Keeps t) IsReady (prompt-Keeps t)
      λ u k. empty_line-IsReady u (Keeps-HasRoom r k)
finish-IsReady false t r = empty_line-IsReady t r

run_if-Keeps :
    (b : Bool) (local cmd s : List ℕ) (t : Terminal)
    → length local ≡ 256
    → IsMounted t.disk
    → text cmd ≡ some s
    → Yields (if b then run_command local cmd t else some t) (Keeps t)
run_if-Keeps true local cmd s t size m e = run_command-Keeps local cmd s t size m e
run_if-Keeps false local cmd s t size m e = (t, refl, Keeps-refl t)

enter_line-IsReady :
    (local : List ℕ) (t : Terminal)
    → length local ≡ 256
    → IsReady t
    → Yields (enter_line local t) IsReady
unfolding enter_line
enter_line-IsReady local t size ready =
    let typed = ready.typed in
    let line = ready.line in
    let (x, rest, e) = cells_left line typed.rest typed.size typed.room in
    let (s, put) = putchar_fb b'\n' t.screen in
    let at : set? t.input_buffer t.buffer_len 0 ≡ some (line ++ (0 ∷ rest)) =
      rw (typed.buffer, e) (set?-append line x 0 rest t.buffer_len typed.count) in
    let ended = record t { screen = s; input_buffer = line ++ (0 ∷ rest) } in
    let room : HasRoom ended = record {
      size = omega (arith, typed.size, ap length e, length-append line (0 ∷ rest));
      mounted = ready.mounted;
    } in
    rw (put, ◌>>=◌, at, ◌>>=◌)
      (Yields-bind _ _ (Keeps ended) IsReady
        (run_if-Keeps (ltb 0 t.buffer_len) local _ line ended size ready.mounted
          (text-line line rest typed.no_zero))
        λ u k. finish-IsReady u.shell_active u (Keeps-HasRoom room k))

enter_scan-open :
    (local : List ℕ) (t : Terminal)
    → t.shell_active ≡ true
    → enter_scan local t ≡ enter_line local t
unfolding enter_scan
enter_scan-open local t e = ground arith

enter_scan-closed :
    (local : List ℕ) (t : Terminal)
    → t.shell_active ≡ false
    → enter_scan local t ≡ some (record t { enter_pressed = true; shell_active = true })
unfolding enter_scan
enter_scan-closed local t e = ground arith

pub enter_scan-IsReady :
    (local : List ℕ) (t : Terminal)
    → length local ≡ 256
    → IsReady t
    → Yields (enter_scan local t) IsReady
enter_scan-IsReady local t size ready = elim (Bool-cases t.shell_active) [
  | inl opened ↦
      let (u, e, r) = enter_line-IsReady local t size ready in
      (u, enter_scan-open local t opened ∙ e, r)
  | inr closed ↦
      let typed = ready.typed in
      (
        record t { enter_pressed = true; shell_active = true },
        enter_scan-closed local t closed,
        record {
          line = ready.line;
          typed = record {
            shell = refl;
            rest = typed.rest;
            buffer = typed.buffer;
            size = typed.size;
            count = typed.count;
            room = typed.room;
            no_zero = typed.no_zero;
          };
          mounted = ready.mounted;
        },
      )
]
