-- ===== src/Terminal/Commands.antt =====
-- Which command a line runs.
use seli_os.CString.Text.{text, text_uncons}
use seli_os.CString.Compare.{IsOrder, strcmp-IsOrder}
use seli_os.Terminal.Line.{NoZero}
use seli_os.Initrd.{is_zero_ℤ}
use seli_os.Initrd.Find.{is_zero_iff}
use seli_os.Terminal.{
  Terminal, clear, help_command, whoami_command, memory_command, selifetch_command, ls_command,
  cat_command, matrix_command, unknown_command, is_command, starts_with, run_command,
  when◌then◌else◌,
}
use seli_os.Prelude.{
  ℕ, zero, suc, ◌≡◌, refl, ap, ap₂, length, ◌∙◌, ◌≢◌, inl, inr, Bool, true, false, ◌&&◌, Option,
  some, List, [], ◌∷◌, ◌++◌, arith, drop, ◌==◌, if◌then◌else◌, ◌>>=◌, Bool-cases,
}
use seli_os.Prelude.Int.{ℤ}
use seli_os.Prelude.Strings.{letters, c_str}
use Prim.Native.String.{String}

abbrev pub equal : List ℕ → List ℕ → Bool
equal [] [] = true
equal [] (b ∷ t) = false
equal (a ∷ s) [] = false
equal (a ∷ s) (b ∷ t) = a == b && equal s t

equal_eq : (s t : List ℕ) → equal s t ≡ true → s ≡ t
equal_eq [] [] h = refl
equal_eq [] (b ∷ t) h = absurd (ground arith)
equal_eq (a ∷ s) [] h = absurd (ground arith)
equal_eq (a ∷ s) (b ∷ t) h = ground (arith, equal_eq s t)

equal_self : (s : List ℕ) → equal s s ≡ true
equal_self [] = refl
equal_self (a ∷ s) = ground (arith, equal_self s)

is_zero-equal :
    (s t : List ℕ) (r : Option ℤ)
    → IsOrder s t r
    → ◌>>=◌ r (λ d. some (is_zero_ℤ d)) ≡ some (equal s t)
is_zero-equal s t r order = elim (Bool-cases (equal s t)) [
  | inl same ↦
      let zero_difference = order.equal.1 (equal_eq s t same) in
      rw (order.returns, ◌>>=◌, zero_difference, same) refl
  | inr differ ↦
      rw (order.returns, differ)
        (ap some (elim (Bool-cases (is_zero_ℤ order.difference)) [
          | inl z ↦
              let e = order.equal.0 (is_zero_iff order.difference z) in
              let self = equal_self t in absurd (cc)
          | inr nz ↦ nz
        ]))
]

is_command-equal :
    (cmd s : List ℕ) (name : String)
    → text cmd ≡ some s
    → text (c_str name) ≡ some (letters name)
    → is_command cmd name ≡ some (equal s (letters name))
unfolding is_command
is_command-equal cmd s name e e' =
    is_zero-equal s (letters name) _ (strcmp-IsOrder cmd (c_str name) s (letters name) e e')

abbrev pub begins : List ℕ → List ℕ → Bool
begins s [] = true
begins [] (p ∷ ps) = false
begins (c ∷ s) (p ∷ ps) = c == p && begins s ps

starts_with-begins :
    (cmd s p : List ℕ) → text cmd ≡ some s → NoZero p → starts_with cmd p ≡ some (begins s p)
unfolding starts_with
starts_with-begins cmd s [] e ok = refl
starts_with-begins [] s (p ∷ ps) e ok = absurd (cc)
starts_with-begins (zero ∷ cmd) s (zero ∷ ps) e (ne, ok) = absurd (ne refl)
starts_with-begins (zero ∷ cmd) s (suc p ∷ ps) e ok =
    let empty : s ≡ [] = cc in rw empty (ground arith)
starts_with-begins (suc c ∷ cmd) s (p ∷ ps) e (ne, ok) =
    let (s', e', same) = text_uncons c cmd s e in
    elim (Bool-cases (suc c == p)) [
      | inl next ↦ rw (same, next) (starts_with-begins cmd s' ps e' ok)
      | inr stop ↦ rw (same, stop) refl
    ]

-- The commands that are compared as a whole, with what they run.
pub data Command : String → (Terminal → Option Terminal) → Type 0 where
  help : Command "help" help_command
  clear_screen : Command "clear" (λ t. some (clear t))
  whoami : Command "whoami" whoami_command
  memory : Command "memory" memory_command
  selifetch : Command "selifetch" selifetch_command
  ls : Command "ls" ls_command
  matrix : Command "matrix" matrix_command

abbrev pub cat_prefix : List ℕ
cat_prefix = b'c' ∷ b'a' ∷ b't' ∷ b' ' ∷ []

when-if :
    {o : Option Bool} {r r' : Option Terminal} (b : Bool) (a : Option Terminal)
    → o ≡ some b
    → r ≡ r'
    → (when o then a else r) ≡ (if b then a else r')
when-if true a e same = rw e refl
when-if false a e same = rw e same

pub run_command-tests :
    (local cmd s : List ℕ) (t : Terminal)
    → text cmd ≡ some s
    → run_command local cmd t ≡ (
        if equal s (letters "help")
        then help_command t
        else if equal s (letters "clear")
        then some (clear t)
        else if equal s (letters "whoami")
        then whoami_command t
        else if equal s (letters "memory")
        then memory_command t
        else if equal s (letters "selifetch")
        then selifetch_command t
        else if equal s (letters "ls")
        then ls_command t
        else if begins s cat_prefix
        then cat_command local (drop 4 cmd) t
        else if equal s (letters "matrix")
        then matrix_command t
        else unknown_command cmd t)
unfolding run_command
run_command-tests local cmd s t e =
    let test : (name : String)
        → text (c_str name) ≡ some (letters name)
        → is_command cmd name ≡ some (equal s (letters name)) =
      λ name ok. is_command-equal cmd s name e ok in
    let cat = starts_with-begins cmd s cat_prefix e (
      (λ z. ground arith),
      ((λ z. ground arith), ((λ z. ground arith), ((λ z. ground arith), tt))),
    ) in
    when-if _ _ (test "help" refl) (
      when-if _ _ (test "clear" refl) (
        when-if _ _ (test "whoami" refl) (
          when-if _ _ (test "memory" refl) (
            when-if _ _ (test "selifetch" refl) (
              when-if _ _ (test "ls" refl)
                (when-if _ _ cat (when-if _ _ (test "matrix" refl) refl)))))))

-- A terminated line that is the name of a command runs that command, and nothing else.
pub run_command-Command :
    {name : String} {action : Terminal → Option Terminal} (local cmd : List ℕ) (t : Terminal)
    → Command name action
    → text cmd ≡ some (letters name)
    → run_command local cmd t ≡ action t
run_command-Command local cmd t help e = run_command-tests local cmd (letters "help") t e
run_command-Command local cmd t clear_screen e = run_command-tests local cmd (letters "clear") t e
run_command-Command local cmd t whoami e = run_command-tests local cmd (letters "whoami") t e
run_command-Command local cmd t memory e = run_command-tests local cmd (letters "memory") t e
run_command-Command local cmd t selifetch e = run_command-tests local cmd (letters "selifetch") t e
run_command-Command local cmd t ls e = run_command-tests local cmd (letters "ls") t e
run_command-Command local cmd t matrix e = run_command-tests local cmd (letters "matrix") t e

pub text-drop : (p xs s : List ℕ) → text xs ≡ some (p ++ s) → text (drop (length p) xs) ≡ some s
text-drop [] xs s e = e
text-drop (c ∷ p) [] s e = absurd (cc)
text-drop (c ∷ p) (zero ∷ xs) s e = absurd (cc)
text-drop (c ∷ p) (suc x ∷ xs) s e =
    let (s', e', same) = text_uncons x xs (c ∷ p ++ s) e in
    let tail : s' ≡ p ++ s = cc in text-drop p xs s (e' ∙ ap some tail)

pub begins_split : (s p : List ℕ) → begins s p ≡ true → (file : List ℕ) × (s ≡ p ++ file)
begins_split s [] h = (s, refl)
begins_split [] (p ∷ ps) h = absurd (ground arith)
begins_split (c ∷ s) (p ∷ ps) h =
    let (file, e) = begins_split s ps (ground arith) in (file, ap₂ ◌∷◌ (ground arith) e)

-- A line that begins with `cat ` runs `cat` on the text that follows.
pub run_command-cat_command :
    (local cmd file : List ℕ) (t : Terminal)
    → text cmd ≡ some (letters "cat " ++ file)
    → (text (drop 4 cmd) ≡ some file) × (run_command local cmd t ≡ cat_command local (drop 4 cmd) t)
run_command-cat_command local cmd file t e =
    (text-drop cat_prefix cmd file e, run_command-tests local cmd (letters "cat " ++ file) t e)

differs : (s t : List ℕ) → s ≢ t → equal s t ≡ false
differs s t ne = elim (Bool-cases (equal s t)) [
  | inl same ↦ absurd (ne (equal_eq s t same))
  | inr apart ↦ apart
]

-- A line that is no command's name and does not begin with `cat ` is reported as unknown.
pub run_command-unknown_command :
    (local cmd s : List ℕ) (t : Terminal)
    → text cmd ≡ some s
    → ((name : String) (action : Terminal → Option Terminal)
        → Command name action
        → s ≢ letters name)
    → ((file : List ℕ) → s ≢ letters "cat " ++ file)
    → run_command local cmd t ≡ unknown_command cmd t
run_command-unknown_command local cmd s t e no_name no_cat =
    run_command-tests local cmd s t e
    ∙ rw
        (
          differs s (letters "help") (no_name "help" _ help),
          differs s (letters "clear") (no_name "clear" _ clear_screen),
          differs s (letters "whoami") (no_name "whoami" _ whoami),
          differs s (letters "memory") (no_name "memory" _ memory),
          differs s (letters "selifetch") (no_name "selifetch" _ selifetch),
          differs s (letters "ls") (no_name "ls" _ ls),
          no_prefix,
          differs s (letters "matrix") (no_name "matrix" _ matrix),
        )
        refl
  where
    no_prefix : begins s cat_prefix ≡ false
    no_prefix = elim (Bool-cases (begins s cat_prefix)) [
      | inl yes_prefix ↦
          let (file, is) = begins_split s cat_prefix yes_prefix in absurd (no_cat file is)
      | inr apart ↦ apart
    ]
