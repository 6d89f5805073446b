-- ===== src/Interrupt/Live.antt =====
-- The states in which the kernel handles interrupts, and what keeps them.
use seli_os.CString.Text.{text}
use seli_os.Interrupt.{Machine, Outside, on_terminal, send, yield}
use seli_os.Port.{Sent}
use seli_os.Terminal.{Terminal, print}
use seli_os.Terminal.Enter.{IsReady}
use seli_os.Terminal.Keys.{Keeps-IsReady}
use seli_os.Terminal.Ready.{print-Keeps}
use seli_os.Thread.{Threads, thread_yield}
use seli_os.Thread.Ring.{IsRing, thread_yield-IsRing}
use seli_os.Prelude.{
  ℕ, ◌<◌, ◌≡◌, refl, Bool, true, false, Option, some, List, [], ◌∷◌, ◌++◌, length, if◌then◌else◌,
}

-- The shell is ready, the running thread is in a ring with at least one more, and the keyboard's port
-- gives a byte.
pub record IsLive (m : Machine) : Type 0 where
  pub ready : IsReady m.terminal
  pub current : ℕ
  pub next : ℕ
  pub rest : List ℕ
  pub ring : IsRing m.threads current (next ∷ rest)
  pub byte : m.keyboard_port < 256

-- What the kernel relies on: the strings that system calls name are terminated, and the local buffer
-- of `cat` has its 256 bytes.
pub record IsSound (out : Outside) : Type 0 where
  pub terminated : (address : ℕ) → (s : List ℕ) × (text (out.bytes_at address) ≡ some s)
  pub size : length out.local ≡ 256

abbrev pub Handles : Option Machine → Type 0
Handles o = (m : Machine) × (o ≡ some m) × IsLive m

pub on_terminal_run :
    (f : Terminal → Option Terminal) (m : Machine) (t : Terminal)
    → f m.terminal ≡ some t
    → on_terminal f m ≡ some (record m { terminal = t })
unfolding on_terminal
on_terminal_run f m t e = rw e refl

on_terminal-IsLive :
    (f : Terminal → Option Terminal) (m : Machine)
    → IsLive m
    → (t : Terminal) × (f m.terminal ≡ some t) × IsReady t
    → Handles (on_terminal f m)
on_terminal-IsLive f m live (t, e, ready) = (
  record m { terminal = t },
  on_terminal_run f m t e,
  record {
    ready = ready;
    current = live.current;
    next = live.next;
    rest = live.rest;
    ring = live.ring;
    byte = live.byte;
  },
)

pub print-IsLive :
    (str s : List ℕ) (m : Machine)
    → IsLive m
    → text str ≡ some s
    → Handles (on_terminal (print str) m)
print-IsLive str s m live e =
    let (t, run_e, kept) = print-Keeps str s m.terminal e in
    on_terminal-IsLive (print str) m live (t, run_e, Keeps-IsReady live.ready kept)

pub send-IsLive : (out : List Sent) (m : Machine) → IsLive m → IsLive (send out m)
unfolding send
send-IsLive out m live = record {
  ready = Keeps-IsReady live.ready (record {
    shell = refl;
    buffer = refl;
    count = refl;
    root = refl;
    files = refl;
    disk = refl;
    mounted = λ d. d;
  });
  current = live.current;
  next = live.next;
  rest = live.rest;
  ring = live.ring;
  byte = live.byte;
}

turned :
    (threads : Threads) (next current : ℕ) (rest : List ℕ)
    → IsRing threads next (rest ++ (current ∷ []))
    → (n : ℕ) × (others : List ℕ) × IsRing threads next (n ∷ others)
turned threads next current [] ring = (current, [], ring)
turned threads next current (r ∷ rest) ring = (r, rest ++ (current ∷ []), ring)

-- The threads turn, and nothing else.
pub yield_lem :
    (m : Machine)
    → IsLive m
    → (k : Machine) × (yield m ≡ some k)
      × IsLive k
      × (k.terminal ≡ m.terminal)
      × (thread_yield m.esp m.threads ≡ some (k.threads, k.esp))
unfolding yield
yield_lem m live =
    let (threads, loaded, e, ring, saved, was) =
      thread_yield-IsRing m.esp m.threads live.current live.next live.rest live.ring in
    let (n, others, ring') = turned threads live.next live.current live.rest ring in
    (
      record m { threads = threads; esp = loaded },
      rw e refl,
      record {
        ready = live.ready;
        current = live.next;
        next = n;
        rest = others;
        ring = ring';
        byte = live.byte;
      },
      refl,
      e,
    )

pub yield-IsLive : (m : Machine) → IsLive m → Handles (yield m)
yield-IsLive m live = let (k, e, live', _, _) = yield_lem m live in (k, e, live')

pub choose :
    {x y : Option Machine} (b : Bool) → Handles x → Handles y → Handles (if b then x else y)
choose true h k = h
choose false h k = k
