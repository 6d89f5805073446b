-- ===== src/Terminal/Open.antt =====
-- The shell is opened: the first Enter, the disk that is mounted behind it, and the first prompt.
use seli_os.Fs.{FsNode}
use seli_os.Fs.Dispatch.Mounted.{IsMounted}
use seli_os.Initrd.{Disk}
use seli_os.Terminal.{Terminal, enter_scan, init_terminal, print_all, empty_line, clear}
use seli_os.Terminal.Enter.{IsReady, HasRoom, empty_line-IsReady}
use seli_os.Terminal.Ready.{Yields, Yields-bind, Keeps, Keeps-trans, clear-Keeps, print_all-Keeps}
use seli_os.Prelude.{ℕ, ◌≡◌, refl, ap, ◌∙◌, true, false, Option, some, List, length, length-append}

pub enter_scan_closed :
    (local : List ℕ) (t : Terminal)
    → t.shell_active ≡ false
    → enter_scan local t ≡ some (record t { enter_pressed = true; shell_active = true })
unfolding enter_scan
enter_scan_closed local t closed = rw closed refl

pub opened-IsReady :
    (t : Terminal) → IsReady t → IsReady (record t { enter_pressed = true; shell_active = true })
opened-IsReady t ready =
    let typed = ready.typed in
    record {
      line = ready.line;
      typed = record {
        shell = refl;
        rest = typed.rest;
        buffer = typed.buffer;
        size = typed.size;
        count = typed.count;
        room = typed.room;
        no_zero = typed.no_zero;
      };
      mounted = ready.mounted;
    }

pub remounted-IsReady :
    (t : Terminal) (root : Option FsNode) (d : Disk)
    → IsReady t
    → IsMounted d
    → IsReady (record t { fs_root = root; disk = d })
remounted-IsReady t root d ready m =
    let typed = ready.typed in
    record {
      line = ready.line;
      typed = record {
        shell = refl;
        rest = typed.rest;
        buffer = typed.buffer;
        size = typed.size;
        count = typed.count;
        room = typed.room;
        no_zero = typed.no_zero;
      };
      mounted = m;
    }

HasRoom-clear : {t u : Terminal} → IsReady t → Keeps t u → HasRoom u
HasRoom-clear ready k =
    let typed = ready.typed in
    record {
      size = ap length (k.buffer ∙ typed.buffer) ∙ length-append ready.line typed.rest ∙ typed.size;
      mounted = k.mounted ready.mounted;
    }

-- The greeting is printed, and the shell waits for a line.
pub init_terminal-IsReady : (t : Terminal) → IsReady t → Yields (init_terminal t) IsReady
unfolding init_terminal
init_terminal-IsReady t ready =
    Yields-bind (print_all _ (clear t)) empty_line (Keeps (clear t)) IsReady
      (print_all-Keeps _ (clear t))
      λ u k. empty_line-IsReady u (HasRoom-clear ready (Keeps-trans (clear-Keeps t) k))
