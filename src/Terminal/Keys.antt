-- ===== src/Terminal/Keys.antt =====
-- The key handler keeps the shell ready, whatever key comes.
use seli_os.Terminal.Enter.{IsReady, enter_scan-IsReady}
use seli_os.Fs.Dispatch.Mounted.{IsMounted}
use seli_os.Screen.{Screen}
use seli_os.Terminal.{
  Terminal, translate, prompt, clear, handle_scan, matrix_scan, backspace_scan, character_scan,
  erase_cell,
}
use seli_os.Terminal.Line.{
  IsEditing, pressed, handle_scan_key, handle_scan-edit, handle_scan_release,
}
use seli_os.Terminal.Ready.{
  Yields, Yields-bind, Keeps, Keeps-trans, prompt-Keeps, show-Keeps, clear-Keeps,
}
use mathlib.Core.Path.{subst}
use seli_os.Prelude.{
  ℕ, ◌+◌, ◌-◌, ◌<◌, ◌≡◌, ◌≢◌, refl, sym, ap, ◌∙◌, inl, inr, Bool, true, false, Option, none, some,
  List, arith, length, set?, ltb, ◌==◌, if◌then◌else◌, ◌>>=◌, Bool-cases, eq_of_some, not, ◌&&◌,
}

-- The line editor while the shell is closed.
closed_scan :
    (scancode : ℕ) (t : Terminal)
    → t.shell_active ≡ false
    → (backspace_scan t ≡ some t) × (character_scan scancode t ≡ some t)
unfolding backspace_scan character_scan
closed_scan scancode t e = (ground arith, ground arith)

stored-disk :
    (t u : Terminal) (o : Option (List ℕ)) (n : ℕ) (m : Option Screen)
    → ◌>>=◌ o (λ b. m >>= λ s. some (record t { input_buffer = b; buffer_len = n; screen = s }))
      ≡ some u
    → u.disk ≡ t.disk
stored-disk t u none n m e = absurd (cc)
stored-disk t u (some b) n none e = absurd (cc)
stored-disk t u (some b) n (some s) e = ap (λ v. v.disk) (eq_of_some (sym e))

-- The keys of the line editor leave the disk alone.
character_scan-disk :
    (scancode : ℕ) (t u : Terminal) → character_scan scancode t ≡ some u → u.disk ≡ t.disk
unfolding character_scan
character_scan-disk scancode t u e =
    elim (Bool-cases (t.shell_active && not (translate scancode == 0) && ltb t.buffer_len 255)) [
      | inl stored ↦ stored-disk t u _ _ _ (rw stored at e)
      | inr ignored ↦ ap (λ v. v.disk) (eq_of_some (sym (rw ignored at e)))
    ]

backspace_scan-disk : (t u : Terminal) → backspace_scan t ≡ some u → u.disk ≡ t.disk
unfolding backspace_scan
backspace_scan-disk t u e = elim (Bool-cases (ltb 0 t.buffer_len && t.shell_active)) [
  | inl erased ↦
      stored-disk t u (set? t.input_buffer (t.buffer_len - 1) 0) (t.buffer_len - 1)
        (some (erase_cell t.screen)) (rw erased at e)
  | inr empty ↦ ap (λ v. v.disk) (eq_of_some (sym (rw empty at e)))
]

pub Keeps-IsReady : {t u : Terminal} → IsReady t → Keeps t u → IsReady u
Keeps-IsReady ready k =
    let typed = ready.typed in
    record {
      line = ready.line;
      typed = record {
        shell = refl;
        rest = typed.rest;
        buffer = k.buffer ∙ typed.buffer;
        size = typed.size;
        count = k.count ∙ typed.count;
        room = typed.room;
        no_zero = typed.no_zero;
      };
      mounted = k.mounted ready.mounted;
    }

prompt_if-IsReady :
    (b : Bool) (t : Terminal) → IsReady t → Yields (if b then prompt t else some t) IsReady
prompt_if-IsReady true t ready = let (u, e, k) = prompt-Keeps t in (u, e, Keeps-IsReady ready k)
prompt_if-IsReady false t ready = (t, refl, ready)

matrix_scan-IsReady :
    (scancode : ℕ) (t : Terminal) → IsReady t → Yields (matrix_scan scancode t) IsReady
unfolding matrix_scan
matrix_scan-IsReady scancode t ready =
    let halted = record t { matrix_active = false } in
    let cleared = clear halted in
    let ready' : IsReady cleared = Keeps-IsReady ready (
      Keeps-trans
        (record {
          shell = refl;
          buffer = refl;
          count = refl;
          root = refl;
          files = refl;
          disk = refl;
          mounted = λ m. m;
        })
        (clear-Keeps halted)) in
    elim (Bool-cases (translate scancode == b'q')) [
      | inl quit ↦ rw quit (
          Yields-bind _ _ (Keeps cleared) IsReady
            (show-Keeps "\n\u{b}[ Concurrency Engine Halted ]\u{7}\n\n" cleared)
            λ u k. prompt_if-IsReady u.shell_active u (Keeps-IsReady ready' k))
      | inr other ↦ rw other (t, refl, ready)
    ]

handle_scan-disk :
    (local : List ℕ) (scancode : ℕ) (t u : Terminal)
    → t.matrix_active ≡ false
    → scancode < 128
    → scancode ≢ 0x1C
    → handle_scan local scancode t ≡ some u
    → u.disk ≡ t.disk
handle_scan-disk local scancode t u calm down other e =
    let key = sym (handle_scan_key local scancode t calm down) ∙ e in
    let not_enter : (scancode == 0x1C) ≡ false = ground arith in
    elim (Bool-cases (scancode == 0x0E)) [
      | inl back ↦ backspace_scan-disk t u (rw (not_enter, back) at key)
      | inr plain ↦ character_scan-disk scancode t u (rw (not_enter, plain) at key)
    ]

IsReady-IsEditing :
    (t : Terminal) (ready : IsReady t) → t.shell_active ≡ true → IsEditing t ready.line
IsReady-IsEditing t ready opened =
    let typed = ready.typed in
    record {
      shell = opened;
      rest = typed.rest;
      buffer = typed.buffer;
      size = typed.size;
      count = typed.count;
      room = typed.room;
      no_zero = typed.no_zero;
    }

IsEditing-IsReady : (t : Terminal) (line : List ℕ) → IsEditing t line → IsMounted t.disk → IsReady t
IsEditing-IsReady t line h m = record {
  line = line;
  typed = record {
    shell = refl;
    rest = h.rest;
    buffer = h.buffer;
    size = h.size;
    count = h.count;
    room = h.room;
    no_zero = h.no_zero;
  };
  mounted = m;
}

pub closed_key :
    (local : List ℕ) (scancode : ℕ) (t : Terminal)
    → t.matrix_active ≡ false
    → t.shell_active ≡ false
    → scancode < 128
    → scancode ≢ 0x1C
    → handle_scan local scancode t ≡ some t
closed_key local scancode t calm closed down other =
    let (back, plain) = closed_scan scancode t closed in
    let not_enter : (scancode == 0x1C) ≡ false = ground arith in
    handle_scan_key local scancode t calm down ∙ ground arith

edited-IsReady :
    (local : List ℕ) (scancode : ℕ) (t : Terminal)
    → IsReady t
    → t.matrix_active ≡ false
    → scancode < 128
    → scancode ≢ 0x1C
    → Yields (handle_scan local scancode t) IsReady
edited-IsReady local scancode t ready calm down other = elim (Bool-cases t.shell_active) [
  | inl opened ↦
      let (u, e, h) =
        handle_scan-edit local scancode t ready.line (IsReady-IsEditing t ready opened) calm down
          other in
      (
        u,
        e,
        IsEditing-IsReady u _ h (
            subst IsMounted (sym (handle_scan-disk local scancode t u calm down other e))
              ready.mounted),
      )
  | inr closed ↦ (t, closed_key local scancode t calm closed down other, ready)
]

handle_scan-matrix_scan :
    (local : List ℕ) (scancode : ℕ) (t : Terminal)
    → t.matrix_active ≡ true
    → scancode < 128
    → handle_scan local scancode t ≡ matrix_scan scancode t
unfolding handle_scan
handle_scan-matrix_scan local scancode t running down = ground (arith, pressed scancode down)

pressed-IsReady :
    (local : List ℕ) (scancode : ℕ) (t : Terminal)
    → length local ≡ 256
    → IsReady t
    → scancode < 128
    → Yields (handle_scan local scancode t) IsReady
pressed-IsReady local scancode t size ready down = elim (Bool-cases t.matrix_active) [
  | inl running ↦
      let (u, e, r) = matrix_scan-IsReady scancode t ready in
      (u, handle_scan-matrix_scan local scancode t running down ∙ e, r)
  | inr calm ↦ elim (Bool-cases (scancode == 0x1C)) [
    | inl enter ↦
        let (u, e, r) = enter_scan-IsReady local t size ready in
        (u, handle_scan_key local scancode t calm down ∙ rw enter e, r)
    | inr other ↦ edited-IsReady local scancode t ready calm down (λ same. ground arith)
  ]
]

-- Every key in every state with a line of input and a mounted disk is handled to its end, and leaves
-- such a state: the shell closed or open, the matrix running or not, and whatever line Enter runs.
pub handle_scan-IsReady :
    (local : List ℕ) (scancode : ℕ) (t : Terminal)
    → length local ≡ 256
    → scancode < 256
    → IsReady t
    → (t' : Terminal) × (handle_scan local scancode t ≡ some t') × IsReady t'
handle_scan-IsReady local scancode t size byte ready = elim (Bool-cases (ltb scancode 128)) [
  | inl down ↦ pressed-IsReady local scancode t size ready (ground arith)
  | inr up ↦
      let e : 128 + (scancode - 128) ≡ scancode = ground arith in
      (
        t,
        ap (λ c. handle_scan local c t) (sym e)
            ∙ handle_scan_release local (scancode - 128) t (omega arith),
        ready,
      )
]
