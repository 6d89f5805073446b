-- ===== src/Thread/Frame.antt =====
-- The stack that a new thread starts on, against the seven `pop`s and the `ret` of switch_task.s.
use seli_os.Thread.{
  Thread, Threads, create_thread, create_user_thread, push_words, thread_frame, user_frame,
}
use seli_os.Thread.Ring.{IsRing, esp_of, create_thread-IsRing, create_user_thread-IsRing}
use seli_os.Prelude.{
  ℕ, zero, suc, ◌+◌, ◌-◌, ◌*◌, ◌%◌, ◌^◌, ◌≤◌, ◌<◌, ◌≡◌, refl, ap, ◌∙◌, some, List, [], ◌∷◌, arith,
  length, get_or,
}

esp-push_words :
    (ws : List ℕ) (m : ℕ → ℕ) (top : ℕ)
    → 4 * length ws ≤ top
    → top < 2 ^ 32
    → (push_words ws m top).1 ≡ top - 4 * length ws
unfolding push_words
esp-push_words [] m top room word = omega arith
esp-push_words (w ∷ ws) m top room word =
    esp-push_words ws _ ((top + 2 ^ 32 - 4) % 2 ^ 32) (omega arith) (omega arith) ∙ omega arith

push_words_above :
    (ws : List ℕ) (m : ℕ → ℕ) (top a : ℕ)
    → 4 * length ws ≤ top
    → top < 2 ^ 32
    → top ≤ a
    → (push_words ws m top).0 a ≡ m a
unfolding push_words
push_words_above [] m top a room word above = refl
push_words_above (w ∷ ws) m top a room word above =
    push_words_above ws _ ((top + 2 ^ 32 - 4) % 2 ^ 32) a (omega arith) (omega arith) (omega arith)
    ∙ ground arith

-- The words lie below the top, the first the highest.
push_words_at :
    (ws : List ℕ) (m : ℕ → ℕ) (top i : ℕ)
    → 4 * length ws ≤ top
    → top < 2 ^ 32
    → i < length ws
    → (push_words ws m top).0 (top - 4 * suc i) ≡ get_or ws i 0
unfolding push_words
push_words_at [] m top i room word lt = absurd (omega arith)
push_words_at (w ∷ ws) m top zero room word lt =
    push_words_above ws _ ((top + 2 ^ 32 - 4) % 2 ^ 32) (top - 4) (omega arith) (omega arith)
      (omega arith)
    ∙ ground arith
push_words_at (w ∷ ws) m top (suc i) room word lt =
    let below : (top + 2 ^ 32 - 4) % 2 ^ 32 ≡ top - 4 = omega arith in
    ap (push_words (w ∷ ws) m top).0 {x = top - 4 * suc (suc i)}
      {y = (top + 2 ^ 32 - 4) % 2 ^ 32 - 4 * suc i} (omega arith)
    ∙ push_words_at ws _ ((top + 2 ^ 32 - 4) % 2 ^ 32) i (omega arith) (omega arith) (omega arith)

-- What successive `pop`s from address `a` on get.
abbrev pub Pops : (ℕ → ℕ) → ℕ → List ℕ → Type 0
Pops m a [] = Unit {0}
Pops m a (w ∷ ws) = (m a ≡ w) × Pops m (a + 4) ws

push_words_found :
    (ws : List ℕ) (m : ℕ → ℕ) (top : ℕ)
    → 4 * length ws ≤ top
    → top < 2 ^ 32
    → (i a : ℕ) → i < length ws
    → a + 4 * suc i ≡ top
    → (push_words ws m top).0 a ≡ get_or ws i 0
push_words_found ws m top room word i a lt e =
    ap (push_words ws m top).0 {x = a} {y = top - 4 * suc i} (omega arith)
    ∙ push_words_at ws m top i room word lt

-- In a ring, with memory for the thread and for a stack that ends below 2^32, the first switch to
-- a thread that `create_thread` made pops seven zero registers and returns into its function.
pub create_thread-Pops :
    (thread_function : ℕ) (cell : Thread) (stack : ℕ) (s : Threads) (current : ℕ) (rest : List ℕ)
    → IsRing s current rest
    → stack + 4096 < 2 ^ 32
    → (s' : Threads) × (esp : ℕ) × (create_thread thread_function (some cell) (some stack) s
        ≡ some s')
      × (esp_of s'.heap (length s.heap) ≡ some esp)
      × Pops s'.words esp (0 ∷ 0 ∷ 0 ∷ 0 ∷ 0 ∷ 0 ∷ 0 ∷ thread_function ∷ [])
create_thread-Pops f cell stack s current rest ring word =
    let (s', run, ring', at, words) = create_thread-IsRing f cell stack s current rest ring in
    let top : ℕ = (stack + 4096) % 2 ^ 32 in
    let frame = thread_frame f in
    let esp = (push_words frame s.words top).1 in
    let base = esp-push_words frame s.words top (omega arith) (omega arith) in
    let get = push_words_found frame s.words top (omega arith) (omega arith) in
    (
      s',
      esp,
      run,
      at,
      rw words (
        get 7 esp (omega arith) (omega arith),
        (
          get 6 (esp + 4) (omega arith) (omega arith),
          (
            get 5 (esp + 4 + 4) (omega arith) (omega arith),
            (
              get 4 (esp + 4 + 4 + 4) (omega arith) (omega arith),
              (
                get 3 (esp + 4 + 4 + 4 + 4) (omega arith) (omega arith),
                (
                  get 2 (esp + 4 + 4 + 4 + 4 + 4) (omega arith) (omega arith),
                  (
                    get 1 (esp + 4 + 4 + 4 + 4 + 4 + 4) (omega arith) (omega arith),
                    (get 0 (esp + 4 + 4 + 4 + 4 + 4 + 4 + 4) (omega arith) (omega arith), tt),
                  ),
                ),
              ),
            ),
          ),
        ),
      ),
    )

-- In a ring, with memory for the thread and for a stack that ends below 2^32, the first switch to
-- a thread of `create_user_thread` pops seven zero registers, and its `ret` takes the function
-- alone: the code segment 0x1B, the flags, the stack pointer and the stack segment of the frame
-- for `iret` stay on the stack.
pub create_user_thread-Pops :
    (thread_function : ℕ) (cell : Thread) (stack : ℕ) (s : Threads) (current : ℕ) (rest : List ℕ)
    → IsRing s current rest
    → stack + 4096 < 2 ^ 32
    → (s' : Threads) × (esp : ℕ) × (create_user_thread thread_function (some cell) (some stack) s
        ≡ some s')
      × (esp_of s'.heap (length s.heap) ≡ some esp)
      × Pops s'.words esp (0 ∷ 0 ∷ 0 ∷ 0 ∷ 0 ∷ 0 ∷ 0 ∷ thread_function ∷ [])
      × Pops s'.words (esp + 32) (0x1B ∷ 0x202 ∷ (stack + 4096) ∷ 0x23 ∷ [])
create_user_thread-Pops f cell stack s current rest ring word =
    let (s', run, ring', at, words) = create_user_thread-IsRing f cell stack s current rest ring in
    let top : ℕ = (stack + 4096) % 2 ^ 32 in
    let frame = user_frame stack f in
    let esp = (push_words frame s.words top).1 in
    let base = esp-push_words frame s.words top (omega arith) (omega arith) in
    let get = push_words_found frame s.words top (omega arith) (omega arith) in
    (
      s',
      esp,
      run,
      at,
      rw words (
        get 11 esp (omega arith) (omega arith),
        (
          get 10 (esp + 4) (omega arith) (omega arith),
          (
            get 9 (esp + 4 + 4) (omega arith) (omega arith),
            (
              get 8 (esp + 4 + 4 + 4) (omega arith) (omega arith),
              (
                get 7 (esp + 4 + 4 + 4 + 4) (omega arith) (omega arith),
                (
                  get 6 (esp + 4 + 4 + 4 + 4 + 4) (omega arith) (omega arith),
                  (
                    get 5 (esp + 4 + 4 + 4 + 4 + 4 + 4) (omega arith) (omega arith),
                    (get 4 (esp + 4 + 4 + 4 + 4 + 4 + 4 + 4) (omega arith) (omega arith), tt),
                  ),
                ),
              ),
            ),
          ),
        ),
      ),
      rw words (
        get 3 (esp + 32) (omega arith) (omega arith),
        (
          get 2 (esp + 32 + 4) (omega arith) (omega arith),
          (
            get 1 (esp + 32 + 4 + 4) (omega arith) (omega arith) ∙ omega arith,
            (get 0 (esp + 32 + 4 + 4 + 4) (omega arith) (omega arith), tt),
          ),
        ),
      ),
    )
