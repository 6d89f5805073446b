-- ===== src/Memory/Allocate.antt =====
-- What `allocate_frame` and `free_frame` do to the set of used frames.
use mathlib.Core.Path.{subst, sym}
use seli_os.Memory.{Bitmap, bitmap_size, allocate_loop, allocate_frame, free_frame}
use seli_os.Prelude.{
  ℕ, zero, suc, ◌+◌, ◌*◌, ◌/◌, ◌%◌, ◌^◌, ◌≤◌, ◌<◌, ◌≡◌, refl, ◌∙◌, ap, inl, inr, true, false,
  Option, some, arith, length, ◌==◌, Bool-cases, ==_iff, ◌≢◌, ltb,
}
use seli_os.Memory.Frames.{
  used, IsUpdated, mark, test_bit-used, set_bit-eq-mark, used-mark, length-mark,
  clear_bit-IsUpdated,
}

-- What `allocate_frame` answers when it looks at the frames from `i` up to `n`.
pub data Allocated (b : Bitmap) (i n : ℕ) (r : Option (ℕ × Bitmap)) : Type 0 where
  full : ((j : ℕ) → i ≤ j → j < n → used b j ≡ true) → r ≡ some (0, b) → Allocated b i n r
  lowest :
      (f : ℕ) (b' : Bitmap)
      → i ≤ f
      → f < n
      → used b f ≡ false
      → ((j : ℕ) → i ≤ j → j < f → used b j ≡ true)
      → IsUpdated b f true b'
      → r ≡ some (f * 4096, b')
      → Allocated b i n r

allocate_taken :
    (left i : ℕ) (b : Bitmap)
    → i < length b * 8
    → used b i ≡ true
    → allocate_loop (suc left) i b ≡ allocate_loop left (i + 1) b
unfolding allocate_loop
allocate_taken left i b h taken = rw (test_bit-used b i h, taken)

allocate_free :
    (left i : ℕ) (b : Bitmap)
    → i < length b * 8
    → used b i ≡ false
    → allocate_loop (suc left) i b ≡ some (i * 4096 % 2 ^ 32, mark b i)
unfolding allocate_loop
allocate_free left i b h free = rw (test_bit-used b i h, free, set_bit-eq-mark b i h)

Allocated-suc :
    {b : Bitmap} {i n : ℕ} {r : Option (ℕ × Bitmap)}
    → used b i ≡ true
    → Allocated b (i + 1) n r
    → Allocated b i n r
Allocated-suc {b} {i} {n} {r} taken (full all e) = full from_here e
  where
    from_here : (j : ℕ) → i ≤ j → j < n → used b j ≡ true
    from_here j lo hi = elim (Bool-cases (i == j)) [
      | inl here ↦ rw (← (==_iff i j).0 here) taken
      | inr later ↦ all j (ground arith) hi
    ]
Allocated-suc {b} {i} {n} {r} taken (lowest f b' lo hi free below is e) =
    lowest f b' (omega arith) hi free from_here is e
  where
    from_here : (j : ℕ) → i ≤ j → j < f → used b j ≡ true
    from_here j lo' hi' = elim (Bool-cases (i == j)) [
      | inl here ↦ rw (← (==_iff i j).0 here) taken
      | inr later ↦ below j (ground arith) hi'
    ]

allocate_loop-Allocated :
    (left i n : ℕ) (b : Bitmap)
    → i + left ≡ n
    → n ≤ length b * 8
    → n ≤ 2 ^ 20
    → Allocated b i n (allocate_loop left i b)
unfolding allocate_loop
allocate_loop-Allocated zero i n b e h small = full (λ j lo hi. absurd (omega arith)) refl
allocate_loop-Allocated (suc left) i n b e h small = elim (Bool-cases (used b i)) [
  | inl taken ↦
      rw (allocate_taken left i b (omega arith) taken)
        (Allocated-suc taken (allocate_loop-Allocated left (i + 1) n b (omega arith) h small))
  | inr free ↦
      lowest i (mark b i) (omega arith) (omega arith) free (λ j lo hi. absurd (omega arith))
        (record {
          same_length = length-mark b i (omega arith);
          frames = used-mark b i (omega arith);
        })
        (allocate_free left i b (omega arith) free
          ∙ ap (λ (t : ℕ). some (t, mark b i)) (omega arith))
]

-- On the whole bitmap `allocate_frame` never faults: it returns 0 and changes nothing if every
-- frame is used, and otherwise takes the lowest free frame, marks that one alone as used, and
-- returns its address.
pub allocate_frame-Allocated :
    (b : Bitmap) → length b ≡ bitmap_size → Allocated b 0 (bitmap_size * 8) (allocate_frame b)
unfolding allocate_frame
allocate_frame-Allocated b h =
    allocate_loop-Allocated (bitmap_size * 8) 0 (bitmap_size * 8) b (omega arith) (omega arith)
      (omega arith)

free_after :
    {b : Bitmap} {n : ℕ} {r : Option (ℕ × Bitmap)} (b' : Bitmap) (address : ℕ)
    → n ≤ length b * 8
    → address ≢ 0
    → r ≡ some (address, b')
    → Allocated b 0 n r
    → (b'' : Bitmap) × (free_frame b' address ≡ some b'') × ((j : ℕ) → used b'' j ≡ used b j)
unfolding free_frame
free_after b' address h ne e (full all e') = absurd (ne (cc))
free_after {b} {n} b' address h ne e (lowest f b1 lo hi free below is e') =
    let moved : b1 ≡ b' = cc in
    let at : address ≡ f * 4096 = cc in
    let same : length b1 ≡ length b = is.same_length in
    let frames = is.frames in
    let there : f < length b' * 8 = rw (← moved, same) (omega arith) in
    let here : address / 4096 ≡ f = omega arith in
    let (b'', e'', is'') = clear_bit-IsUpdated b' f there in
    (b'', rw (here) e'', λ j. ground (arith, is''.frames j, frames j, ap (λ t. used t j) moved))

-- On the whole bitmap, freeing the address that `allocate_frame` returned, if that is not 0,
-- makes that frame free again and gives every other frame back its state from before the
-- allocation.
pub free_frame-allocate :
    (b b' : Bitmap) (address : ℕ)
    → length b ≡ bitmap_size
    → address ≢ 0
    → allocate_frame b ≡ some (address, b')
    → (b'' : Bitmap) × (free_frame b' address ≡ some b'') × ((j : ℕ) → used b'' j ≡ used b j)
free_frame-allocate b b' address h ne e =
    free_after b' address (omega arith) ne e (allocate_frame-Allocated b h)

-- The allocator always answers, if only with address 0.
pub allocate_frame_total :
    (b : Bitmap)
    → length b ≡ bitmap_size
    → (address : ℕ) × (b' : Bitmap) × (allocate_frame b ≡ some (address, b'))
      × (length b' ≡ bitmap_size)
allocate_frame_total b h = from (allocate_frame-Allocated b h)
  where
    from :
        Allocated b 0 (bitmap_size * 8) (allocate_frame b)
        → (address : ℕ) × (b' : Bitmap) × (allocate_frame b ≡ some (address, b'))
          × (length b' ≡ bitmap_size)
    from (full none_free e) = (0, b, e, h)
    from (lowest f b' lo hi unused before is e) = (f * 4096, b', e, is.same_length ∙ h)

-- The lowest free frame is the one that is given out.
pub allocate_frame_at :
    (b : Bitmap) (f : ℕ)
    → length b ≡ bitmap_size
    → f < bitmap_size * 8
    → used b f ≡ false
    → ((j : ℕ) → j < f → used b j ≡ true)
    → (b' : Bitmap) × (allocate_frame b ≡ some (f * 4096, b')) × IsUpdated b f true b'
allocate_frame_at b f h inside unused below = from (allocate_frame-Allocated b h)
  where
    from :
        Allocated b 0 (bitmap_size * 8) (allocate_frame b)
        → (b' : Bitmap) × (allocate_frame b ≡ some (f * 4096, b')) × IsUpdated b f true b'
    from (full none_free e) = let busy = none_free f (omega arith) inside in absurd (cc)
    from (lowest g b' lo hi free_g before is e) = elim (Bool-cases (f == g)) [
      | inl same ↦
          let equal : g ≡ f = sym ((==_iff f g).0 same) in
          (
            b',
            subst (λ k. allocate_frame b ≡ some (k * 4096, b')) equal e,
            subst (λ k. IsUpdated b k true b') equal is,
          )
      | inr other ↦ elim (Bool-cases (ltb f g)) [
        | inl earlier ↦ let busy = before f (omega arith) (ground arith) in absurd (cc)
        | inr later ↦ let busy = below g (ground arith) in absurd (cc)
      ]
    ]
