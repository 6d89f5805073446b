-- ===== src/Memory/Room.antt =====
-- How many frames are free, and that `allocate_frame` takes one of them.
use seli_os.Memory.{Bitmap, bitmap_size, allocate_frame}
use seli_os.Memory.Frames.{IsUpdated, used}
use seli_os.Memory.Allocate.{Allocated, full, lowest, allocate_frame-Allocated}
use seli_os.Prelude.{
  ℕ, zero, suc, ◌+◌, ◌*◌, ◌≤◌, ◌<◌, ◌≡◌, refl, sym, ◌∙◌, inl, inr, Bool, true, false, not, some,
  arith, length, ◌==◌, if◌then◌else◌, Bool-cases, ==_iff, ap,
}

-- How many of the numbers below `n` pass the test.
unfoldable pub count : (ℕ → Bool) → ℕ → ℕ
count p zero = 0
count p (suc n) = let below = count p n in if p n then suc below else below

abbrev pub free_frames : Bitmap → ℕ
free_frames b = count (λ j. not (used b j)) (bitmap_size * 8)

pub count_none : (p : ℕ → Bool) (n : ℕ) → ((j : ℕ) → j < n → p j ≡ false) → count p n ≡ 0
unfolding count
count_none p zero all = refl
count_none p (suc n) all = rw (all n (omega arith)) (count_none p n (λ j h. all j (omega arith)))

count_same : (p q : ℕ → Bool) (n : ℕ) → ((j : ℕ) → j < n → p j ≡ q j) → count p n ≡ count q n
unfolding count
count_same p q zero same = refl
count_same p q (suc n) same =
    rw (same n (omega arith), count_same p q n (λ j h. same j (omega arith))) refl

count_update :
    (p q : ℕ → Bool) (t n : ℕ)
    → t < n
    → p t ≡ true
    → ((j : ℕ) → q j ≡ (if t == j then false else p j))
    → count p n ≡ suc (count q n)
unfolding count
count_update p q t zero h passes updated = absurd (omega arith)
count_update p q t (suc n) h passes updated = elim (Bool-cases (t == n)) [
  | inl same ↦
      let here : p n ≡ true = ap p (sym ((==_iff t n).0 same)) ∙ passes in
      let there : q n ≡ false = updated n ∙ rw same refl in
      rw (here, there) (ap suc (count_same p q n (λ j small. sym (updated j ∙ ground arith))))
  | inr other ↦
      let kept : q n ≡ p n = updated n ∙ rw other refl in
      let rest = count_update p q t n (ground arith) passes updated in
      rw (kept, rest) (ground arith)
]

-- A frame that is taken is one free frame less.
pub free_frames-IsUpdated :
    (b b' : Bitmap) (t : ℕ)
    → t < bitmap_size * 8
    → used b t ≡ false
    → IsUpdated b t true b'
    → free_frames b ≡ suc (free_frames b')
free_frames-IsUpdated b b' t inside unused is =
    count_update (λ j. not (used b j)) (λ j. not (used b' j)) t (bitmap_size * 8) inside
      (ap not unused) (λ j. ap not (is.frames j) ∙ ground arith)

-- Where a frame is free, one is given out, and one less is free afterwards.
pub allocate_frame_free :
    (b : Bitmap)
    → length b ≡ bitmap_size
    → 0 < free_frames b
    → (t : ℕ) × (b' : Bitmap) × (allocate_frame b ≡ some (t * 4096, b'))
      × (t < bitmap_size * 8)
      × (used b t ≡ false)
      × IsUpdated b t true b'
      × (free_frames b ≡ suc (free_frames b'))
      × ((j : ℕ) → j < t → used b j ≡ true)
allocate_frame_free b size room = from (allocate_frame-Allocated b size)
  where
    from :
        Allocated b 0 (bitmap_size * 8) (allocate_frame b)
        → (t : ℕ) × (b' : Bitmap) × (allocate_frame b ≡ some (t * 4096, b'))
          × (t < bitmap_size * 8)
          × (used b t ≡ false)
          × IsUpdated b t true b'
          × (free_frames b ≡ suc (free_frames b'))
          × ((j : ℕ) → j < t → used b j ≡ true)
    from (full all e) =
        let none_free =
          count_none (λ j. not (used b j)) (bitmap_size * 8)
            (λ j h. ap not (all j (omega arith) h)) in
        absurd (omega arith)
    from (lowest f b' lo hi unused below is e) = (
      f,
      b',
      e,
      hi,
      unused,
      is,
      free_frames-IsUpdated b b' f hi unused is,
      λ j h. below j (omega arith) h,
    )

-- Where frame 0 is in use, a frame that is free is not frame 0.
pub used-pos : (b : Bitmap) (f : ℕ) → used b 0 ≡ true → used b f ≡ false → 0 < f
used-pos b f zero_used unused = elim (Bool-cases (f == 0)) [
  | inl same ↦ (let busy = ap (used b) ((==_iff f 0).0 same) in absurd (cc))
  | inr other ↦ ground arith
]

pub count_below : (p : ℕ → Bool) (k n m : ℕ) → k + n ≡ m → count p n ≤ count p m
unfolding count
count_below p zero n m e = let same : n ≡ m = omega arith in omega (arith, ap (count p) same)
count_below p (suc k) n zero e = absurd (omega arith)
count_below p (suc k) n (suc m) e = let below = count_below p k n m (omega arith) in ground arith

allocate_frame_full_from :
    (b : Bitmap)
    → free_frames b ≡ 0
    → Allocated b 0 (bitmap_size * 8) (allocate_frame b)
    → allocate_frame b ≡ some (0, b)
allocate_frame_full_from b none_free (full all e) = e
allocate_frame_full_from b none_free (lowest f b' lo hi unused below is e) =
    let one = free_frames-IsUpdated b b' f hi unused is in absurd (omega arith)

-- Where no frame is free, the answer is address 0.
pub allocate_frame_full :
    (b : Bitmap) → length b ≡ bitmap_size → free_frames b ≡ 0 → allocate_frame b ≡ some (0, b)
allocate_frame_full b size none_free =
    allocate_frame_full_from b none_free (allocate_frame-Allocated b size)
