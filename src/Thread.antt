-- ===== src/Thread.antt =====
-- src/kernel/thread.c, with the part of switch_task.s that touches a thread. A `thread_t` is known by
-- its index in the list of all that exist: `main_thread` is 0 and the fresh ones follow. The stacks
-- lie in a memory of words, a function from the address.
pub mod Walk
pub mod Ring
pub mod Frame
mod Tests
use seli_os.Prelude.{
  ℕ, ◌+◌, ◌-◌, ◌%◌, ◌^◌, Option, none, some, List, [], ◌∷◌, ◌++◌, length, get_elem?, set?, ◌==◌,
  if◌then◌else◌, ◌>>=◌,
}

pub record Thread : Type 0 where
  pub esp : ℕ
  pub next_thread : Option ℕ

pub record Threads : Type 0 where
  pub heap : List Thread
  pub current_thread : Option ℕ
  pub words : ℕ → ℕ

pub init_threads : Threads → Option Threads
init_threads s = do
  heap ← set? s.heap 0 (record { esp = 0; next_thread = some 0 })
  some (record s { heap = heap; current_thread = some 0 })

-- `*(--stack_top) = word` for each word in turn.
pub push_words : List ℕ → (ℕ → ℕ) → ℕ → (ℕ → ℕ) × ℕ
push_words [] words top = (words, top)
push_words (w ∷ ws) words top =
    let below = (top + 2 ^ 32 - 4) % 2 ^ 32 in
    push_words ws (λ a. if a == below then w else words a) below

abbrev seven_registers : List ℕ
seven_registers = 0 ∷ 0 ∷ 0 ∷ 0 ∷ 0 ∷ 0 ∷ 0 ∷ []

abbrev pub thread_frame : ℕ → List ℕ
thread_frame thread_function = thread_function ∷ seven_registers

abbrev pub user_frame : ℕ → ℕ → List ℕ
user_frame kernel_stack thread_function =
    0x23 ∷ (kernel_stack + 4096) % 2 ^ 32 ∷ 0x202 ∷ 0x1B ∷ thread_function ∷ seven_registers

-- `new_thread->next_thread = current_thread->next_thread; current_thread->next_thread = new_thread`
-- for the fresh thread behind the heap.
pub link : Threads → ℕ → ℕ → (ℕ → ℕ) → Option Threads
link s current esp words = do
  thread ← get_elem? s.heap current
  heap ← set? s.heap current (record thread { next_thread = some (length s.heap) })
  some (record s {
    heap = heap ++ (record { esp = esp; next_thread = thread.next_thread } ∷ []);
    words = words;
  })

-- What the two calls of `malloc` return is given: `none` is NULL, which the code writes through.
-- The first is the fresh `thread_t` with what it holds, the second the address of the stack.
pub create_thread : ℕ → Option Thread → Option ℕ → Threads → Option Threads
create_thread thread_function malloc_thread malloc_stack s = do
  new_thread ← malloc_thread
  stack ← malloc_stack
  let (words, esp) = push_words (thread_frame thread_function) s.words ((stack + 4096) % 2 ^ 32)
  current ← s.current_thread
  link s current esp words

-- The very first thread points to itself.
pub enqueue : Threads → Option ℕ → ℕ → (ℕ → ℕ) → Option Threads
enqueue s none esp words = some (record {
  heap = s.heap ++ (record { esp = esp; next_thread = some (length s.heap) } ∷ []);
  current_thread = some (length s.heap);
  words = words;
})
enqueue s (some current) esp words = link s current esp words

pub create_user_thread : ℕ → Option Thread → Option ℕ → Threads → Option Threads
create_user_thread thread_function malloc_thread malloc_stack s = do
  new_thread ← malloc_thread
  kernel_stack ← malloc_stack
  let (words, esp) =
      push_words (user_frame kernel_stack thread_function) s.words ((kernel_stack + 4096) % 2 ^ 32)
  enqueue s s.current_thread esp words

-- `esp` is the stack pointer that `switch_task` stores for the old thread; the result has the one
-- that it loads. The argument `current_thread->esp` is read before the call.
pub thread_yield : ℕ → Threads → Option (Threads × ℕ)
thread_yield esp s = do
  old ← s.current_thread
  old_thread ← get_elem? s.heap old
  next ← old_thread.next_thread
  next_thread ← get_elem? s.heap next
  heap ← set? s.heap old (record old_thread { esp = esp })
  some (record s { heap = heap; current_thread = some next }, next_thread.esp)
