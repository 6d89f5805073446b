-- ===== src/Terminal/Ready.antt =====
-- The shell never faults: every key in every state that it can be in.
use seli_os.CString.Text.{c_str-text, text, text_of_zero}
use seli_os.Fs.{FsNode}
use seli_os.Initrd.{Disk}
use seli_os.Fs.Dispatch.Mounted.{
  IsMounted, readdir_fs-IsMounted, finddir_fs-IsMounted, read_fs-IsMounted,
}
use seli_os.Screen.{printf, device_fb, Screen}
use seli_os.Screen.Total.{printf_total, print_hex_total}
use seli_os.Terminal.{
  Terminal, print, print_all, print_number, clear, prompt, help_command, whoami_command,
  memory_command, selifetch_command, list_files, print_entry, ls_from, ls_command, cat_file,
  cat_found, cat_from, cat_command, matrix_command, unknown_command, run_command,
}
use seli_os.Terminal.Commands.{
  equal, begins, begins_split, cat_prefix, text-drop, run_command-tests,
}
use seli_os.Prelude.{
  ℕ, zero, suc, ◌+◌, ◌≤◌, ◌<◌, ◌≡◌, refl, ap, ◌∙◌, inl, inr, Bool, true, false, Option, none, some,
  List, [], ◌∷◌, arith, drop, length, set, get_elem?, set?-eq-set, get_elem?-set_self,
  if◌then◌else◌, ◌>>=◌,
}
use seli_os.Prelude.Strings.{c_str, letters}
use Prim.Native.String.{String}

-- A computation that does not fault, with what holds of its result.
abbrev pub Yields : Option Terminal → (Terminal → Type 0) → Type 0
Yields o P = (t : Terminal) × (o ≡ some t) × P t

pub Yields-bind :
    (o : Option Terminal) (k : Terminal → Option Terminal) (P Q : Terminal → Type 0)
    → Yields o P
    → ((t : Terminal) → P t → Yields (k t) Q)
    → Yields (o >>= k) Q
Yields-bind o k P Q (t, e, h) next = let (u, e', h') = next t h in (u, rw e e', h')

-- What every command leaves as it was.
pub record Keeps (t t' : Terminal) : Type 0 where
  pub shell : t'.shell_active ≡ t.shell_active
  pub buffer : t'.input_buffer ≡ t.input_buffer
  pub count : t'.buffer_len ≡ t.buffer_len
  pub root : t'.fs_root ≡ t.fs_root
  pub files : t'.disk.num_files ≡ t.disk.num_files
  pub disk : t'.disk ≡ record t.disk { dirent = t'.disk.dirent }
  pub mounted : IsMounted t.disk → IsMounted t'.disk

pub Keeps-refl : (t : Terminal) → Keeps t t
Keeps-refl t = record {
  shell = refl;
  buffer = refl;
  count = refl;
  root = refl;
  files = refl;
  disk = refl;
  mounted = λ m. m;
}

pub Keeps-trans : {t u v : Terminal} → Keeps t u → Keeps u v → Keeps t v
Keeps-trans {t} {u} {v} h k = record {
  shell = k.shell ∙ h.shell;
  buffer = k.buffer ∙ h.buffer;
  count = k.count ∙ h.count;
  root = k.root ∙ h.root;
  files = k.files ∙ h.files;
  disk = k.disk ∙ ap {A = Disk} (λ d. record d { dirent = v.disk.dirent }) h.disk;
  mounted = λ m. k.mounted (h.mounted m);
}

-- `t` and then `k`, where `k` keeps what its argument has.
pub Keeps-bind :
    {t : Terminal} (o : Option Terminal) (k : Terminal → Option Terminal)
    → Yields o (Keeps t)
    → ((u : Terminal) → Keeps t u → Yields (k u) (Keeps u))
    → Yields (o >>= k) (Keeps t)
Keeps-bind {t} o k first next =
    Yields-bind o k (Keeps t) (Keeps t) first
      λ u kept. let (v, e, h) = next u kept in (v, e, Keeps-trans kept h)

pub screen-Keeps : (t : Terminal) (s : Screen) → Keeps t (record t { screen = s })
screen-Keeps t s = record {
  shell = refl;
  buffer = refl;
  count = refl;
  root = refl;
  files = refl;
  disk = refl;
  mounted = λ m. m;
}

pub print_run :
    (str : List ℕ) (t : Terminal) (s : Screen)
    → printf device_fb str t.screen ≡ some s
    → print str t ≡ some (record t { screen = s })
unfolding print
print_run str t s e = rw e refl

pub print-Keeps :
    (str u : List ℕ) (t : Terminal) → text str ≡ some u → Yields (print str t) (Keeps t)
unfolding print
print-Keeps str u t e =
    let (s, run) = printf_total str u t.screen e in
    (record t { screen = s }, rw run refl, screen-Keeps t s)

pub show-Keeps : (s : String) (t : Terminal) → Yields (print (c_str s) t) (Keeps t)
show-Keeps s t = let (u, e) = c_str-text s in print-Keeps (c_str s) u t e

pub print_all-Keeps : (strs : List String) (t : Terminal) → Yields (print_all strs t) (Keeps t)
unfolding print_all
print_all-Keeps [] t = (t, refl, Keeps-refl t)
print_all-Keeps (s ∷ strs) t =
    Keeps-bind (print (c_str s) t) (print_all strs) (show-Keeps s t) λ u k. print_all-Keeps strs u

print_number-Keeps : (n : ℕ) (t : Terminal) → Yields (print_number n t) (Keeps t)
unfolding print_number
print_number-Keeps n t =
    let (s, run) = print_hex_total n t.screen in
    (record t { screen = s }, rw run refl, screen-Keeps t s)

pub clear-Keeps : (t : Terminal) → Keeps t (clear t)
unfolding clear
clear-Keeps t = screen-Keeps t _

pub prompt-Keeps : (t : Terminal) → Yields (prompt t) (Keeps t)
unfolding prompt
prompt-Keeps t = show-Keeps "selith@SeliOS / # " t

memory_command-Keeps : (t : Terminal) → Yields (memory_command t) (Keeps t)
unfolding memory_command
memory_command-Keeps t = Keeps-bind _ _ (print_all-Keeps _ t) λ t1 k1.
    Keeps-bind _ _ (print_number-Keeps t.total_ram_bytes t1) λ t2 k2.
      Keeps-bind _ _ (print_all-Keeps _ t2)
        λ t3 k3. Keeps-bind _ _ (print_number-Keeps t.kernel_size t3) λ t4 k4. print_all-Keeps _ t4

matrix_command-Keeps : (t : Terminal) → Yields (matrix_command t) (Keeps t)
unfolding matrix_command
matrix_command-Keeps t = Keeps-bind _ _ (print_all-Keeps _ t) λ u k. (
  record u { matrix_active = true },
  refl,
  record {
    shell = refl;
    buffer = refl;
    count = refl;
    root = refl;
    files = refl;
    disk = refl;
    mounted = λ m. m;
  },
)

-- A piece of text between two literals, as `ls`, `cat` and an unknown command print it.
framed-Keeps :
    (before after : String) (str s : List ℕ) (t : Terminal)
    → text str ≡ some s
    → Yields
        (print (c_str before) t >>= λ t1. print str t1 >>= λ t2. print (c_str after) t2)
        (Keeps t)
framed-Keeps before after str s t e =
    Keeps-bind _ _ (show-Keeps before t)
      λ t1 k1. Keeps-bind _ _ (print-Keeps str s t1 e) λ t2 k2. show-Keeps after t2

unknown_command-Keeps :
    (cmd s : List ℕ) (t : Terminal) → text cmd ≡ some s → Yields (unknown_command cmd t) (Keeps t)
unfolding unknown_command
unknown_command-Keeps cmd s t e =
    framed-Keeps "\u{c}Error: Unknown command executable '" "'.\n\u{7}" cmd s t e

cat_file-Keeps :
    (local : List ℕ) (j : ℕ) (node : FsNode) (t : Terminal)
    → length local ≡ 256
    → IsMounted t.disk
    → j < t.disk.num_files
    → get_elem? t.disk.file_nodes j ≡ some node
    → Yields (cat_file local node t) (Keeps t)
unfolding cat_file
cat_file-Keeps local j node t size m lt at =
    let (n, out, run, short, same) =
      read_fs-IsMounted t.disk j node 255 local m lt at (omega arith) (omega arith) in
    let capped = set?-eq-set out n 0 (omega arith) in
    let (s, e) = text_of_zero (set out n 0) n (get_elem?-set_self out n 0 (omega arith)) in
    rw (run, ◌>>=◌, capped, ◌>>=◌)
      (Keeps-bind _ _ (print-Keeps (set out n 0) s t e) λ u k. show-Keeps "\n" u)

cat_found-Keeps :
    (local filename s : List ℕ) (t : Terminal) (found : Option ℕ)
    → length local ≡ 256
    → IsMounted t.disk
    → text filename ≡ some s
    → ((j : ℕ)
        → found ≡ some j
        → (j < t.disk.num_files) × (node : FsNode) × (get_elem? t.disk.file_nodes j ≡ some node))
    → Yields (cat_found local filename found t) (Keeps t)
unfolding cat_found
cat_found-Keeps local filename s t none size m e ok =
    framed-Keeps "Îrror: File '" "' not found in root directory.\u{7}\n" filename s t e
cat_found-Keeps local filename s t (some j) size m e ok =
    let (lt, node, at) = ok j refl in rw at (cat_file-Keeps local j node t size m lt at)

cat_from-Keeps :
    (root : Option FsNode) (local filename s : List ℕ) (t : Terminal)
    → length local ≡ 256
    → IsMounted t.disk
    → text filename ≡ some s
    → Yields (cat_from root local filename t) (Keeps t)
unfolding cat_from
cat_from-Keeps none local filename s t size m e = (t, refl, Keeps-refl t)
cat_from-Keeps (some root) local filename s t size m e =
    elim (finddir_fs-IsMounted t.disk root filename s m e) [
      | inl absent ↦
          rw absent (cat_found-Keeps local filename s t none size m e (λ j wrong. absurd (cc)))
      | inr (j, node, lt, there, at) ↦ rw there (
          cat_found-Keeps local filename s t (some j) size m e
            (λ i same. let index : i ≡ j = cc in rw index (lt, node, at)))
    ]

list_files-Keeps :
    (fuel i : ℕ) (root : FsNode) (t : Terminal)
    → IsMounted t.disk
    → i ≤ t.disk.num_files
    → t.disk.num_files < fuel + i
    → Yields (list_files fuel i root t) (Keeps t)
unfolding list_files print_entry
list_files-Keeps zero i root t m inside enough = absurd (omega arith)
list_files-Keeps (suc fuel) i root t m inside enough = elim (readdir_fs-IsMounted t.disk root i m) [
  | inl end ↦ rw end (record t { disk = t.disk }, refl, Keeps-refl t)
  | inr (entry, s, named, lt, run, m') ↦
      let t' = record t { disk = record t.disk { dirent = entry } } in
      let kept : Keeps t t' = record {
        shell = refl;
        buffer = refl;
        count = refl;
        root = refl;
        files = refl;
        disk = refl;
        mounted = λ _. m';
      } in
      let (u, e, k) : Yields (print_entry entry t' >>= list_files fuel (i + 1) root) (Keeps t') =
        Keeps-bind _ _ (framed-Keeps "  \u{b}" "\u{7}\n" entry.name s t' named) λ t1 k1.
          list_files-Keeps fuel (i + 1) root t1 (k1.mounted m')
            (let files = k1.files in omega arith) (let files = k1.files in omega arith) in
      rw run (u, e, Keeps-trans kept k)
]

ls_from-Keeps :
    (root : Option FsNode) (t : Terminal) → IsMounted t.disk → Yields (ls_from root t) (Keeps t)
unfolding ls_from
ls_from-Keeps none t m = show-Keeps "\u{c}VFS not mounted.\u{7}\n" t
ls_from-Keeps (some root) t m =
    list_files-Keeps (suc t.disk.num_files) 0 root t m (omega arith) (omega arith)

help_command-Keeps : (t : Terminal) → Yields (help_command t) (Keeps t)
unfolding help_command
help_command-Keeps t = print_all-Keeps _ t

whoami_command-Keeps : (t : Terminal) → Yields (whoami_command t) (Keeps t)
unfolding whoami_command
whoami_command-Keeps t = print_all-Keeps _ t

selifetch_command-Keeps : (t : Terminal) → Yields (selifetch_command t) (Keeps t)
unfolding selifetch_command
selifetch_command-Keeps t = print_all-Keeps _ t

-- Every line that is terminated runs to its end on a mounted disk, whatever it says; it leaves the
-- input line, the state of the shell, the mounted root and the disk as they were, all but the
-- directory entry `dirent` that `ls` fills: every field of every file node and every byte of the disk's
-- image is the same.
pub run_command-Keeps :
    (local cmd s : List ℕ) (t : Terminal)
    → length local ≡ 256
    → IsMounted t.disk
    → text cmd ≡ some s
    → Yields (run_command local cmd t) (Keeps t)
unfolding ls_command cat_command
run_command-Keeps local cmd s t size m e = rw (run_command-tests local cmd s t e) (
    choice (equal s (letters "help")) (help_command-Keeps t) (
      choice (equal s (letters "clear")) (clear t, refl, clear-Keeps t)
        (choice (equal s (letters "whoami")) (whoami_command-Keeps t) (
          choice (equal s (letters "memory")) (memory_command-Keeps t) (
            choice (equal s (letters "selifetch")) (selifetch_command-Keeps t) (
              choice (equal s (letters "ls")) (ls_from-Keeps t.fs_root t m) (
                choose (begins s cat_prefix)
                  (λ cat.
                    let (file, is) = begins_split s cat_prefix cat in
                    cat_from-Keeps t.fs_root local (drop 4 cmd) file t size m
                      (text-drop cat_prefix cmd file (e ∙ ap some is)))
                  (choice (equal s (letters "matrix")) (matrix_command-Keeps t)
                    (unknown_command-Keeps cmd s t e)))))))))
  where
    choice :
        {a r : Option Terminal} (b : Bool)
        → Yields a (Keeps t)
        → Yields r (Keeps t)
        → Yields (if b then a else r) (Keeps t)
    choice true x y = x
    choice false x y = y

    choose :
        {a r : Option Terminal} (b : Bool)
        → (b ≡ true → Yields a (Keeps t))
        → Yields r (Keeps t)
        → Yields (if b then a else r) (Keeps t)
    choose true x y = x refl
    choose false x y = y
