-- ===== src/Process/Pages.antt =====
-- The loop of `create_process` over the pages of the program.
use seli_os.Memory.{Bitmap, allocate_frame}
use seli_os.Memory.Frames.{used}
use seli_os.Memory.Room.{free_frames}
use seli_os.Paging.User.{Space, map_user_page}
use seli_os.Paging.User.View.{walk, with_page, IsPrivate}
use seli_os.Paging.User.Extends.{Extends, Extends-IsPrivate, Extends-trans}
use seli_os.Process.{map_code}
use seli_os.Process.Load.{page_lem}
use native.Mathlib.Nat.{mod-eq_of_lt}
use mathlib.Core.Path.{subst}
use seli_os.Prelude.{
  ℕ, zero, suc, ◌+◌, ◌*◌, ◌/◌, ◌%◌, ◌^◌, ◌≤◌, ◌<◌, ◌≡◌, ◌≢◌, refl, sym, ap, ◌∙◌, inl, inr, Option,
  some, arith, ◌==◌, if◌then◌else◌, ◌>>=◌, Bool, Bool-cases, ==_iff, ==_self, ==_of_ne, true, false,
}

-- The first `n` pages of the program are on frames of their own, which were free in `s0`, and the rest
-- of its addresses are as they were in `s0`.
pub record Pages (s0 : Space) (d n : ℕ) (s : Space) : Type 0 where
  pub extends : Extends s0 d (2 * n) s
  pub frame : ℕ → ℕ
  pub seen :
      (w : ℕ) → w < n * 4096 → walk s.memory d w ≡ some (frame (w / 2 ^ 12) * 2 ^ 12 + w % 2 ^ 12)
  pub private : (i : ℕ) → i < n → IsPrivate s d (frame i)
  pub fresh : (i : ℕ) → i < n → used s0.bitmap (frame i) ≡ false
  pub distinct : (i j : ℕ) → i < n → j < n → frame i ≡ frame j → i ≡ j
  pub beyond : (w : ℕ) → n * 4096 ≤ w → w < 0xC0000000 → walk s.memory d w ≡ walk s0.memory d w

-- One page more.
module _ (s0 s s' : Space) (d n f : ℕ) (pages : Pages s0 d n s) (ext : Extends s d 2 s')
    (unused : used s.bitmap f ≡ false) (private : IsPrivate s' d f)
    (view : (w : ℕ)
      → w < 0xC0000000
      → walk s'.memory d w ≡ with_page n (f * 2 ^ 12) (walk s.memory d) w)
    (room : (n + 1) * 4096 ≤ 0xC0000000) where
  frames : ℕ → ℕ
  frames i = if i == n then f else pages.frame i

  frames_here : frames n ≡ f
  unfolding frames
  frames_here = rw (==_self n) refl

  frames_before : (i : ℕ) → i < n → frames i ≡ pages.frame i
  unfolding frames
  frames_before i small = rw (==_of_ne i n (λ e. omega arith)) refl

  was_free : (j : ℕ) → used s.bitmap j ≡ false → used s0.bitmap j ≡ false
  was_free j free = elim (Bool-cases (used s0.bitmap j)) [
    | inl busy ↦ (let still = pages.extends.still j busy in absurd (cc))
    | inr e ↦ e
  ]

  new_frame : (i : ℕ) → i < n → pages.frame i ≢ f
  new_frame i small same =
      let busy = sym (ap (used s.bitmap) same) ∙ (pages.private i small).taken in absurd (cc)

  view_here :
      (w : ℕ)
      → w / 2 ^ 12 ≡ n
      → w < 0xC0000000
      → walk s'.memory d w ≡ some (f * 2 ^ 12 + w % 2 ^ 12)
  view_here w here user = view w user ∙ rw (here, ==_self n) refl

  view_other : (w : ℕ) → w / 2 ^ 12 ≢ n → w < 0xC0000000 → walk s'.memory d w ≡ walk s.memory d w
  view_other w other user = view w user ∙ rw (==_of_ne (w / 2 ^ 12) n other) refl

  frames_distinct : (m : ℕ) → m ≡ n + 1 → (i j : ℕ) → i < m → j < m → frames i ≡ frames j → i ≡ j
  frames_distinct m e i j hi hj same = elim (Bool-cases (i == n)) [
    | inl last ↦
        let is_n = (==_iff i n).0 last in
        elim (Bool-cases (j == n)) [
          | inl last' ↦ is_n ∙ sym ((==_iff j n).0 last')
          | inr before ↦ absurd (
              new_frame j (ground arith)
                (sym (frames_before j (ground arith)) ∙ sym same ∙ ap frames is_n ∙ frames_here))
        ]
    | inr before ↦ elim (Bool-cases (j == n)) [
      | inl last ↦ absurd (
          new_frame i (ground arith) (
            sym (frames_before i (ground arith))
            ∙ same
            ∙ ap frames ((==_iff j n).0 last)
            ∙ frames_here))
      | inr before' ↦
          pages.distinct i j (ground arith) (ground arith)
            (sym (frames_before i (ground arith)) ∙ same ∙ frames_before j (ground arith))
    ]
  ]

  pub Pages-suc : (m : ℕ) → m ≡ n + 1 → Pages s0 d m s'
  Pages-suc m e = record {
    extends =
        subst (λ k. Extends s0 d k s') {x = 2 * n + 2} {y = 2 * m} (omega arith)
          (Extends-trans pages.extends ext);
    frame = frames;
    seen = λ w small. elim (Bool-cases (w / 2 ^ 12 == n)) [
      | inl same ↦
          let here = (==_iff (w / 2 ^ 12) n).0 same in
          view_here w here (omega arith)
          ∙ ap (λ k. some (k * 2 ^ 12 + w % 2 ^ 12)) (sym (ap frames here ∙ frames_here))
      | inr other ↦
          let ne : w / 2 ^ 12 ≢ n = λ e. ground arith in
          view_other w ne (omega arith)
          ∙ pages.seen w (omega arith)
          ∙ ap (λ k. some (k * 2 ^ 12 + w % 2 ^ 12))
              (sym (frames_before (w / 2 ^ 12) (omega arith)))
    ];
    private = λ i small. elim (Bool-cases (i == n)) [
      | inl same ↦ rw ((==_iff i n).0 same, frames_here) private
      | inr other ↦
          rw (frames_before i (ground arith))
            (Extends-IsPrivate (pages.frame i) ext (pages.private i (ground arith)))
    ];
    fresh = λ i small. elim (Bool-cases (i == n)) [
      | inl same ↦ rw ((==_iff i n).0 same, frames_here) (was_free f unused)
      | inr other ↦ rw (frames_before i (ground arith)) (pages.fresh i (ground arith))
    ];
    distinct = frames_distinct m e;
    beyond =
        λ w far user. view_other w (λ here. omega arith) user ∙ pages.beyond w (omega arith) user;
  }

map_code_step :
    (left i f : ℕ) (b : Bitmap) (s mapped : Space) (r : Option (Bool × Space))
    → i * 4096 < 2 ^ 32
    → 0 < f
    → allocate_frame s.bitmap ≡ some (f * 2 ^ 12, b)
    → map_user_page 0xC0500000 (i * 4096) (f * 2 ^ 12) (record s { bitmap = b }) ≡ some mapped
    → map_code left (i + 1) mapped ≡ r
    → map_code (suc left) i s ≡ r
unfolding map_code
map_code_step left i f b s mapped r small pos found run rest =
    ap (λ o. o >>= after) found
    ∙ rw (==_of_ne (f * 2 ^ 12) 0 (λ e. omega arith), mod-eq_of_lt small)
        (ap (λ o. o >>= map_code left (i + 1)) run ∙ rest)
  where
    after : ℕ × Bitmap → Option (Bool × Space)
    after (frame, bitmap) =
        let taken = record s { bitmap = bitmap } in
        let more = (do
          mapped ← map_user_page 0xC0500000 (i * 4096 % 2 ^ 32) frame taken
          map_code left (i + 1) mapped) in
        if frame == 0 then some (false, taken) else more

-- Enough free frames for the pages that are left and their tables.
pub map_code_lem :
    (s0 : Space) (d left n total : ℕ) (s : Space)
    → Pages s0 d n s
    → used s0.bitmap 0 ≡ true
    → n + left ≡ total
    → total * 4096 ≤ 0xC0000000
    → 2 * left ≤ free_frames s.bitmap
    → (s' : Space) × (map_code left n s ≡ some (true, s'))
      × Pages s0 d total s'
      × (free_frames s.bitmap ≤ 2 * left + free_frames s'.bitmap)
unfolding map_code
map_code_lem s0 d zero n total s pages zero_used e fits room =
    (s, refl, subst (λ k. Pages s0 d k s) {x = n} {y = total} (omega arith) pages, omega arith)
map_code_lem s0 d (suc left) n total s pages zero_used e fits room =
    let (f, b, next, found, run, some_frame, unused, ext, private, view) =
      page_lem s d (n * 4096) n (omega arith) pages.extends.directory
        (pages.extends.still 0 zero_used) (omega arith) (omega arith) in
    let used_up = ext.room in
    let next_pages =
      Pages-suc s0 s next d n f pages ext unused private view (omega arith) (n + 1) refl in
    let (s', rest, loaded, left_over) =
      map_code_lem s0 d left (n + 1) total next next_pages zero_used (omega arith) fits
        (omega arith) in
    (
      s',
      map_code_step left n f b s next (some (true, s')) (omega arith) some_frame found run rest,
      loaded,
      omega arith,
    )
