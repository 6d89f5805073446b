-- ===== src/Process/Load.antt =====
-- The loops of `create_process` over the pages of the program.
use seli_os.Memory.{Bitmap, bitmap_size, allocate_frame}
use seli_os.Memory.Frames.{IsUpdated, used}
use seli_os.Memory.Room.{free_frames, allocate_frame_free, free_frames-IsUpdated, used-pos}
use seli_os.Paging.User.{Space, map_user_page}
use seli_os.Paging.User.View.{entry, walk, with_page, Leads, IsUserDirectory, IsPrivate}
use seli_os.Paging.User.Extends.{Extends, Extends-IsPrivate, Extends-trans}
use seli_os.Paging.User.Refine.{map_user_page-with_page}
use seli_os.Prelude.{
  ℕ, ◌*◌, ◌/◌, ◌^◌, ◌≤◌, ◌<◌, ◌≡◌, ◌≢◌, refl, ap, ◌∙◌, inl, inr, some, arith, ==_self, ==_of_ne,
  true, false,
}

-- A frame is taken and nothing is mapped.
module _ (s : Space) (d f : ℕ) (b : Bitmap) (is : IsUserDirectory s d)
    (unused : used s.bitmap f ≡ false) (inside : f < bitmap_size * 8)
    (updated : IsUpdated s.bitmap f true b) where
  abbrev with_frame : Space
  with_frame = record s { bitmap = b }

  used-ne : (j : ℕ) → used s.bitmap j ≡ true → f ≢ j
  used-ne j busy same = let free = ap (used s.bitmap) same in absurd (cc)

  with_frame-used : (j : ℕ) → used s.bitmap j ≡ true → used b j ≡ true
  with_frame-used j busy = updated.frames j ∙ rw (==_of_ne f j (used-ne j busy)) busy

  with_frame-Leads : (i : ℕ) → i < 768 → Leads with_frame d (entry s.memory d i)
  with_frame-Leads i small = elim (is.leads i small) [
    | inl even ↦ inl even
    | inr (t, at, busy, in_range, not_d) ↦ inr (t, at, with_frame-used t busy, in_range, not_d)
  ]

  with_frame-Extends : Extends s d 1 with_frame
  with_frame-Extends = record {
    directory = record {
      one = is.one;
      size = updated.same_length ∙ is.size;
      window = is.window;
      taken = with_frame-used d is.taken;
      leads = with_frame-Leads;
      apart = is.apart;
    };
    still = with_frame-used;
    tables = λ i t small e. inl e;
    kept = λ u k private small. refl;
    kernel = λ w a off off' at. at;
    room = (let less = free_frames-IsUpdated s.bitmap b f inside unused updated in omega arith);
  }

  with_frame-IsPrivate : IsPrivate with_frame d f
  with_frame-IsPrivate = record {
    taken = updated.frames f ∙ rw (==_self f) refl;
    not_d = used-ne d is.taken;
    no_table = λ i small e. elim (is.leads i small) [
      | inl even ↦ absurd (omega arith)
      | inr (t, at, busy, in_range, not_d) ↦ absurd (used-ne t busy (omega arith))
    ];
  }

-- One more page, on a frame that was free.
pub page_lem :
    (s : Space) (d v page : ℕ)
    → v / 2 ^ 12 ≡ page
    → IsUserDirectory s d
    → used s.bitmap 0 ≡ true
    → v < 0xC0000000
    → 2 ≤ free_frames s.bitmap
    → (f : ℕ) × (b : Bitmap) × (s' : Space) × (allocate_frame s.bitmap ≡ some (f * 2 ^ 12, b))
      × (map_user_page 0xC0500000 v (f * 2 ^ 12) (record s { bitmap = b }) ≡ some s')
      × (0 < f)
      × (used s.bitmap f ≡ false)
      × Extends s d 2 s'
      × IsPrivate s' d f
      × ((w : ℕ)
          → w < 0xC0000000
          → walk s'.memory d w ≡ with_page page (f * 2 ^ 12) (walk s.memory d) w)
page_lem s d v page at is zero_used user room =
    let (f, b, found, inside, unused, updated, one_less, below) =
      allocate_frame_free s.bitmap is.size (omega arith) in
    let took = with_frame-Extends s d f b is unused inside updated in
    let left = took.room in
    let (s', run, ext, view) =
      map_user_page-with_page (record s { bitmap = b }) d v f took.directory user
        (inr (omega arith)) in
    (
      f,
      b,
      s',
      found,
      run,
      used-pos s.bitmap f zero_used unused,
      unused,
      Extends-trans took ext,
      Extends-IsPrivate f ext (with_frame-IsPrivate s d f b is unused inside updated),
      λ w small. view w small ∙ ap (λ p. with_page p (f * 2 ^ 12) (walk s.memory d) w) at,
    )
