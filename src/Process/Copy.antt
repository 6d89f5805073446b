-- ===== src/Process/Copy.antt =====
-- The bytes of the program go to its pages.
use seli_os.Paging.Map.{resolve}
use seli_os.Paging.User.{Space}
use seli_os.Paging.User.View.{walk, kernel_walk-walk}
use seli_os.Process.{physical, copy_program, byte_at, put_byte}
use seli_os.Process.Bytes.{put_byte_self, put_byte_word, put_byte_other}
use mathlib.Core.Path.{subst}
use seli_os.Prelude.{
  ℕ, zero, suc, ◌+◌, ◌*◌, ◌/◌, ◌%◌, ◌^◌, ◌≤◌, ◌<◌, ◌≡◌, ◌≢◌, refl, sym, ap, ◌∙◌, inl, inr, some,
  arith, ◌==◌, ◌>>=◌, Bool-cases, ==_iff, lt→ltb, le→ltb,
}

physical_user :
    (d : ℕ) (s : Space) (w a : ℕ)
    → w < 0xC0000000
    → walk s.memory d w ≡ some a
    → physical (d * 2 ^ 12) s w ≡ some a
unfolding physical
physical_user d s w a user open_page =
    let frame : d * 2 ^ 12 / 2 ^ 12 ≡ d = omega arith in
    rw (lt→ltb w 0xC0000000 user, frame) (kernel_walk-walk s.memory d w a open_page)

physical_kernel :
    (cr3 : ℕ) (s : Space) (w : ℕ) → 0xC0000000 ≤ w → physical cr3 s w ≡ resolve s.paging w
unfolding physical
physical_kernel cr3 s w high = rw (le→ltb w 0xC0000000 high) refl

-- Where the bytes are and where they go. A byte that is written moves nothing else.
module _ (s : Space) (d size source : ℕ) (from to : ℕ → ℕ) (user : size ≤ 0xC0000000)
    (reads : (i : ℕ)
      → i < size
      → (0xC0000000 ≤ (source + i) % 2 ^ 32)
        × (resolve s.paging ((source + i) % 2 ^ 32) ≡ some (from i)))
    (writes : (i : ℕ) → i < size → walk s.memory d i ≡ some (to i))
    (distinct : (i j : ℕ) → i < size → j < size → to i ≡ to j → i ≡ j)
    (apart : (i j : ℕ) → i < size → j < size → to i ≢ from j)
    (steady : (memory : ℕ → ℕ)
      → ((a : ℕ) → ((i : ℕ) → i < size → to i / 4 * 4 ≢ a) → memory a ≡ s.memory a)
      → (w : ℕ) → w < 0xC0000000
      → walk memory d w ≡ walk s.memory d w) where
  -- After `i` bytes.
  record Copied (i : ℕ) (memory : ℕ → ℕ) : Type 0 where
    outside : (a : ℕ) → ((i : ℕ) → i < size → to i / 4 * 4 ≢ a) → memory a ≡ s.memory a
    done : (j : ℕ) → j < i → byte_at memory (to j) ≡ byte_at s.memory (from j)
    others : (a : ℕ) → ((j : ℕ) → j < size → to j ≢ a) → byte_at memory a ≡ byte_at s.memory a

  Copied-suc :
      (i m : ℕ) (memory : ℕ → ℕ)
      → i < size
      → m ≡ i + 1
      → Copied i memory
      → Copied m (put_byte memory (to i) (byte_at memory (from i)))
  Copied-suc i m memory small e copied = record {
    outside = λ a out.
        put_byte_word memory (to i) (byte_at memory (from i)) a (out i small)
        ∙ copied.outside a out;
    done = λ j before. elim (Bool-cases (j == i)) [
      | inl same ↦
          let is_i = (==_iff j i).0 same in
          ap (λ k. byte_at (put_byte memory (to i) (byte_at memory (from i))) (to k)) is_i
          ∙ put_byte_self memory (to i) (byte_at memory (from i)) (omega arith)
          ∙ copied.others (from i) (λ k small'. apart k i small' small)
          ∙ ap (λ k. byte_at s.memory (from k)) (sym is_i)
      | inr other ↦
          let ne : j ≢ i = λ e. ground arith in
          put_byte_other memory (to i) (byte_at memory (from i)) (to j) (omega arith)
            (λ same. ne (sym (distinct i j small (omega arith) same)))
          ∙ copied.done j (omega arith)
    ];
    others = λ a out.
        put_byte_other memory (to i) (byte_at memory (from i)) a (omega arith) (out i small)
        ∙ copied.others a out;
  }

  copy_step :
      (left i : ℕ) (memory : ℕ → ℕ)
      → i < size
      → Copied i memory
      → copy_program (suc left) i source (d * 2 ^ 12) (record s { memory = memory })
        ≡ copy_program left
            (i + 1)
            source
            (d * 2 ^ 12)
            (record s { memory = put_byte memory (to i) (byte_at memory (from i)) })
  unfolding copy_program
  copy_step left i memory small copied =
      let here = record s { memory = memory } in
      let next = λ (x y : ℕ).
        copy_program left (i + 1) source (d * 2 ^ 12)
          (record s { memory = put_byte memory y (byte_at memory x) }) in
      let (high, read) = reads i small in
      let found = physical_kernel (d * 2 ^ 12) here ((source + i) % 2 ^ 32) high ∙ read in
      let goes =
        physical_user d here i (to i) (omega arith)
          (steady memory copied.outside i (omega arith) ∙ writes i small) in
      ap (λ o. o >>= λ x. physical (d * 2 ^ 12) here i >>= next x) found
      ∙ ap (λ o. o >>= next (from i)) goes

  copy_loop :
      (left i : ℕ) (memory : ℕ → ℕ)
      → i + left ≡ size
      → Copied i memory
      → (memory' : ℕ → ℕ) × (copy_program left i source (d * 2 ^ 12) (record s { memory = memory })
          ≡ some (record s { memory = memory' }))
        × Copied size memory'
  unfolding copy_program
  copy_loop zero i memory e copied =
      (memory, refl, subst (λ k. Copied k memory) {x = i} {y = size} (omega arith) copied)
  copy_loop (suc left) i memory e copied =
      let (memory', run, all) =
        copy_loop left (i + 1) (put_byte memory (to i) (byte_at memory (from i))) (omega arith)
          (Copied-suc i (i + 1) memory (omega arith) refl copied) in
      (memory', copy_step left i memory (omega arith) copied ∙ run, all)

  pub copy_program_lem :
      (memory : ℕ → ℕ) × (copy_program size 0 source (d * 2 ^ 12) s
        ≡ some (record s { memory = memory }))
      × ((i : ℕ) → i < size → byte_at memory (to i) ≡ byte_at s.memory (from i))
      × ((w : ℕ) → w < 0xC0000000 → walk memory d w ≡ walk s.memory d w)
  copy_program_lem =
      let (memory, run, copied) = copy_loop size 0 s.memory (omega arith) (record {
        outside = λ a out. refl;
        done = λ j before. absurd (omega arith);
        others = λ a out. refl;
      }) in
      (memory, run, copied.done, steady memory copied.outside)
