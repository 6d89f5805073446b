-- ===== src/Thread/Ring.antt =====
-- The run queue is a ring.
use seli_os.Thread.{
  Thread, Threads, init_threads, link, enqueue, create_thread, create_user_thread, thread_yield,
  push_words, thread_frame, user_frame,
}
use seli_os.Thread.Walk.{
  next_of, Walk, Distinct, found, first, Walk-same, Walk-snoc, Distinct-rotate, next_of-saved,
  get_elem?-append_left, get_elem?-last, Walk-NotIn, Walk-tail,
}
use seli_os.Prelude.{
  ℕ, ◌+◌, ◌%◌, ◌^◌, ◌<◌, ◌≡◌, refl, sym, ap, ◌∙◌, ◌≢◌, Option, some, List, [], ◌∷◌, ◌++◌, arith,
  length, get_elem?, get_elem?-set_ne, get_elem?-set_self, set, set?-eq-set, length-set, ◌>>=◌,
  eq_of_some,
}

-- The run queue: `current` runs, the threads of `rest` come after it in this order, and then
-- `current` again.
pub record IsRing (s : Threads) (current : ℕ) (rest : List ℕ) : Type 0 where
  pub here : s.current_thread ≡ some current
  pub walk : Walk s.heap current rest current
  pub once : Distinct (current ∷ rest)

abbrev pub esp_of : List Thread → ℕ → Option ℕ
esp_of h i = get_elem? h i >>= λ thread. some thread.esp

-- `thread_yield` in a ring of at least two threads gives the processor to the next thread: it stores
-- the stack pointer of the old one, loads that of the next, and turns the ring by one place, so that
-- the old thread is the last to run again.
pub thread_yield-IsRing :
    (esp : ℕ) (s : Threads) (current next : ℕ) (rest : List ℕ)
    → IsRing s current (next ∷ rest)
    → (s' : Threads) × (loaded : ℕ) × (thread_yield esp s ≡ some (s', loaded))
      × IsRing s' next (rest ++ (current ∷ []))
      × (esp_of s'.heap current ≡ some esp)
      × (esp_of s.heap next ≡ some loaded)
unfolding thread_yield
thread_yield-IsRing esp s current next rest ring =
    let (here_next, walk) = ring.walk in
    let here = ring.here in
    let (thread, at, pointer, lt) = found s.heap current next here_next in
    let (j, e) = first s.heap next rest current walk in
    let (next_thread, at', pointer', lt') = found s.heap next j e in
    let saved : Thread = record { esp = esp; next_thread = some next } in
    let heap = set s.heap current saved in
    let same : (j : ℕ) → j < length s.heap → next_of heap j ≡ next_of s.heap j =
      λ j lt_j. next_of-saved s.heap current thread saved j at lt (sym pointer) in
    (
      record s { heap = heap; current_thread = some next },
      next_thread.esp,
      rw (here, ◌>>=◌, at, ◌>>=◌, pointer, ◌>>=◌, at', ◌>>=◌, set?-eq-set s.heap current saved lt)
          refl,
      record {
        here = refl;
        walk =
            Walk-snoc heap next rest current next
              (Walk-same s.heap heap next rest current same walk) (same current lt ∙ here_next);
        once = Distinct-rotate current (next ∷ rest) ring.once;
      },
      rw (get_elem?-set_self s.heap current saved lt) refl,
      rw at' refl,
    )

-- In a ring of one thread `thread_yield` loads the stack pointer that was stored before the call,
-- not the one that the call stores.
pub thread_yield_alone :
    (esp : ℕ) (s : Threads) (current stale : ℕ)
    → IsRing s current []
    → esp_of s.heap current ≡ some stale
    → (s' : Threads) × (thread_yield esp s ≡ some (s', stale)) × (esp_of s'.heap current ≡ some esp)
unfolding thread_yield
thread_yield_alone esp s current stale ring old =
    let here = ring.here in
    let (thread, at, pointer, lt) = found s.heap current current ring.walk in
    let saved : Thread = record { esp = esp; next_thread = some current } in
    let e : thread.esp ≡ stale = eq_of_some (rw at at old) in
    (
      record s { heap = set s.heap current saved; current_thread = some current },
      rw (here, ◌>>=◌, at, ◌>>=◌, pointer, ◌>>=◌, at, ◌>>=◌, set?-eq-set s.heap current saved lt, e)
          refl,
      rw (get_elem?-set_self s.heap current saved lt) refl,
    )

link-IsRing :
    (s : Threads) (current esp : ℕ) (words : ℕ → ℕ) (rest : List ℕ)
    → IsRing s current rest
    → (s' : Threads) × (link s current esp words ≡ some s')
      × IsRing s' current (length s.heap ∷ rest)
      × (esp_of s'.heap (length s.heap) ≡ some esp)
      × (s'.words ≡ words)
unfolding link
link-IsRing s current esp words rest ring =
    let here = ring.here in
    let (j, e) = first s.heap current rest current ring.walk in
    let (thread, at, pointer, lt) = found s.heap current j e in
    let n = length s.heap in
    let linked = record thread { next_thread = some n } in
    let fresh : Thread = record { esp = esp; next_thread = thread.next_thread } in
    let heap = set s.heap current linked in
    let grown = length-set s.heap current linked in
    let last : get_elem? (heap ++ (fresh ∷ [])) n ≡ some fresh =
      get_elem?-last heap fresh n (sym grown) in
    let at_current : next_of (heap ++ (fresh ∷ [])) current ≡ some n =
      rw
        (
          get_elem?-append_left heap fresh current (omega arith),
          get_elem?-set_self s.heap current linked lt,
        )
        refl in
    let same : (j : ℕ)
        → j < length s.heap
        → current ≢ j
        → next_of (heap ++ (fresh ∷ [])) j ≡ next_of s.heap j =
      λ j lt_j ne.
        rw
          (
            get_elem?-append_left heap fresh j (omega arith),
            get_elem?-set_ne s.heap current j linked ne,
          )
          refl in
    let copied : next_of (heap ++ (fresh ∷ [])) n ≡ next_of s.heap current = rw (last, at) refl in
    let (out, distinct) = ring.once in
    (
      record s { heap = heap ++ (fresh ∷ []); words = words },
      rw (at, ◌>>=◌, set?-eq-set s.heap current linked lt) refl,
      record {
        here = here;
        walk = (
          at_current,
          Walk-tail s.heap (heap ++ (fresh ∷ [])) current n rest same copied out ring.walk,
        );
        once = (
          ((λ equal. absurd (omega arith)), out),
          (Walk-NotIn s.heap current rest current ring.walk, distinct),
        );
      },
      rw last refl,
      refl,
    )

-- With memory for the thread and its stack, `create_thread` in a ring puts the new thread right
-- behind the current one, keeps the order of the others, and pushes its first frame on the fresh
-- stack.
pub create_thread-IsRing :
    (thread_function : ℕ) (cell : Thread) (stack : ℕ) (s : Threads) (current : ℕ) (rest : List ℕ)
    → IsRing s current rest
    → (s' : Threads) × (create_thread thread_function (some cell) (some stack) s ≡ some s')
      × IsRing s' current (length s.heap ∷ rest)
      × (esp_of s'.heap (length s.heap)
          ≡ some (push_words (thread_frame thread_function) s.words ((stack + 4096) % 2 ^ 32)).1)
      × (s'.words ≡ (push_words (thread_frame thread_function) s.words ((stack + 4096) % 2 ^ 32)).0)
unfolding create_thread
create_thread-IsRing thread_function cell stack s current rest ring =
    let here = ring.here in
    let pushed = push_words (thread_frame thread_function) s.words ((stack + 4096) % 2 ^ 32) in
    let (s', run, ring', esp, words) = link-IsRing s current pushed.1 pushed.0 rest ring in
    (s', ap (λ o. o >>= λ c. link s c pushed.1 pushed.0) here ∙ run, ring', esp, words)

-- With memory for the thread and its stack, `create_user_thread` in a ring puts the new thread
-- right behind the current one, keeps the order of the others, and pushes the frame of a thread
-- for ring 3 on the fresh stack.
pub create_user_thread-IsRing :
    (thread_function : ℕ) (cell : Thread) (stack : ℕ) (s : Threads) (current : ℕ) (rest : List ℕ)
    → IsRing s current rest
    → (s' : Threads) × (create_user_thread thread_function (some cell) (some stack) s ≡ some s')
      × IsRing s' current (length s.heap ∷ rest)
      × (esp_of s'.heap (length s.heap)
          ≡ some
              (push_words (user_frame stack thread_function) s.words ((stack + 4096) % 2 ^ 32)).1)
      × (s'.words
          ≡ (push_words (user_frame stack thread_function) s.words ((stack + 4096) % 2 ^ 32)).0)
unfolding create_user_thread enqueue
create_user_thread-IsRing thread_function cell stack s current rest ring =
    let here = ring.here in
    let pushed = push_words (user_frame stack thread_function) s.words ((stack + 4096) % 2 ^ 32) in
    let (s', run, ring', esp, words) = link-IsRing s current pushed.1 pushed.0 rest ring in
    (s', ap (λ o. enqueue s o pushed.1 pushed.0) here ∙ run, ring', esp, words)

-- `init_threads` makes the main thread a ring of its own.
pub init_threads-IsRing :
    (s : Threads) → 0 < length s.heap → (s' : Threads) × (init_threads s ≡ some s') × IsRing s' 0 []
unfolding init_threads
init_threads-IsRing s some_thread =
    let main_thread : Thread = record { esp = 0; next_thread = some 0 } in
    (
      record s { heap = set s.heap 0 main_thread; current_thread = some 0 },
      rw (set?-eq-set s.heap 0 main_thread some_thread) refl,
      record {
        here = refl;
        walk = rw (get_elem?-set_self s.heap 0 main_thread some_thread) refl;
        once = (tt, tt);
      },
    )
