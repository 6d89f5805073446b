-- ===== src/Memory/Samples.antt =====
-- Bitmaps for tests: no frame free, all free but frame 0, and frame 1 alone free.
use seli_os.Memory.{Bitmap}
use seli_os.Memory.Frames.{used}
use seli_os.Memory.Room.{count, count_none, count_below, free_frames, allocate_frame_free}
use seli_os.Prelude.{
  ℕ, zero, suc, ◌/◌, ◌%◌, ◌≤◌, ◌<◌, ◌≡◌, ◌≢◌, ◌+◌, ◌*◌, ◌∙◌, inl, inr, true, Bool-cases, ==_iff,
  length-replicate, refl, ap, not, arith, ◌∷◌, replicate, get_or, ◌==◌,
}
use seli_os.Prelude.Bits.{digit}

abbrev pub no_frames : Bitmap
no_frames = replicate 4096 255

abbrev pub most_frames : Bitmap
most_frames = 1 ∷ replicate 4095 0

full_byte : (k : ℕ) → k < 8 → digit k 255 ≡ 1
unfolding digit
full_byte zero h = refl
full_byte (suc zero) h = refl
full_byte (suc (suc zero)) h = refl
full_byte (suc (suc (suc zero))) h = refl
full_byte (suc (suc (suc (suc zero)))) h = refl
full_byte (suc (suc (suc (suc (suc zero))))) h = refl
full_byte (suc (suc (suc (suc (suc (suc zero)))))) h = refl
full_byte (suc (suc (suc (suc (suc (suc (suc zero))))))) h = refl
full_byte (suc (suc (suc (suc (suc (suc (suc (suc k)))))))) h = absurd (omega arith)

get_or-replicate_below : (n i a : ℕ) → i < n → get_or (replicate n a) i 0 ≡ a
get_or-replicate_below zero i a h = absurd (omega arith)
get_or-replicate_below (suc n) zero a h = refl
get_or-replicate_below (suc n) (suc i) a h = get_or-replicate_below n i a (omega arith)

pub none_free : free_frames no_frames ≡ 0
none_free =
    count_none (λ j. not (used no_frames j)) 32768
      (λ j h.
        ap (λ byte. not (digit (j % 8) byte == 1))
          (get_or-replicate_below 4096 (j / 8) 255 (omega arith))
        ∙ ap (λ d. not (d == 1)) (full_byte (j % 8) (omega arith)))

seven_frames : count (λ j. not (used most_frames j)) 8 ≡ 7
unfolding digit count
seven_frames = refl

pub seven_free : 7 ≤ free_frames most_frames
seven_free =
    omega (arith, seven_frames, count_below (λ j. not (used most_frames j)) 32760 8 32768 refl)

-- Frame 1 alone is free.
abbrev pub one_left : Bitmap
one_left = 253 ∷ replicate 4095 255

first_byte : (k : ℕ) → k < 8 → k ≢ 1 → (digit k 253 == 1) ≡ true
unfolding digit
first_byte zero h ne = refl
first_byte (suc zero) h ne = absurd (ne refl)
first_byte (suc (suc zero)) h ne = refl
first_byte (suc (suc (suc zero))) h ne = refl
first_byte (suc (suc (suc (suc zero)))) h ne = refl
first_byte (suc (suc (suc (suc (suc zero))))) h ne = refl
first_byte (suc (suc (suc (suc (suc (suc zero)))))) h ne = refl
first_byte (suc (suc (suc (suc (suc (suc (suc zero))))))) h ne = refl
first_byte (suc (suc (suc (suc (suc (suc (suc (suc k)))))))) h ne = absurd (omega arith)

in_byte : (q k : ℕ) → q < 4096 → k < 8 → q * 8 + k ≢ 1 → (digit k (get_or one_left q 0) == 1) ≡ true
in_byte zero k small below ne = first_byte k below (λ e. ne (omega arith))
in_byte (suc q) k small below ne =
    ap (λ byte. digit k byte == 1) (get_or-replicate_below 4095 q 255 (omega arith))
    ∙ ap (λ d. d == 1) (full_byte k below)

one_left-used : (j : ℕ) → j < 32768 → j ≢ 1 → used one_left j ≡ true
one_left-used j small ne =
    in_byte (j / 8) (j % 8) (omega arith) (omega arith) (λ e. ne (omega arith))

first_two : count (λ j. not (used one_left j)) 2 ≡ 1
unfolding digit count
first_two = refl

pub one_free : free_frames one_left ≡ 1
one_free =
    let some_left : 1 ≤ free_frames one_left =
      omega (arith, first_two, count_below (λ j. not (used one_left j)) 32766 2 32768 refl) in
    let (t, b, found, inside, unused, updated, one_less, below) =
      allocate_frame_free one_left (ap suc (length-replicate {A = ℕ} 4095 255)) some_left in
    let only : t ≡ 1 = elim (Bool-cases (t == 1)) [
      | inl same ↦ (==_iff t 1).0 same
      | inr other ↦
          let busy : used one_left t ≡ true = one_left-used t inside (λ e. ground arith) in
          absurd (cc)
    ] in
    let busy_now : (j : ℕ) → j < 32768 → used b j ≡ true = λ j h.
      updated.frames j ∙ elim (Bool-cases (t == j)) [
        | inl here ↦ rw here refl
        | inr other ↦ rw other (one_left-used j h (λ e. ground arith))
      ] in
    let none_left : free_frames b ≡ 0 =
      count_none (λ j. not (used b j)) 32768 (λ j h. ap not (busy_now j h)) in
    omega (arith, one_less, none_left)
