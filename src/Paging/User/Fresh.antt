-- ===== src/Paging/User/Fresh.antt =====
-- A new directory as a program sees it.
use seli_os.Memory.{bitmap_size}
use seli_os.Memory.Frames.{used}
use seli_os.Memory.Room.{
  free_frames, allocate_frame_free, free_frames-IsUpdated, used-pos, allocate_frame_full,
}
use seli_os.Paging.Map.{OneTable, resolve-map_page_other, map_page-OneTable}
use seli_os.Paging.User.{Space, create_user_page_directory}
use seli_os.Paging.User.Window.{workbench}
use seli_os.Paging.User.Create.{create_user_page_directory_lem}
use seli_os.Paging.User.Extends.{Extends}
use seli_os.Paging.User.View.{entry, kernel_walk}
use seli_os.Paging.User.Page.{slots_apart}
use seli_os.Prelude.{
  ℕ, ◌+◌, ◌*◌, ◌/◌, ◌%◌, ◌^◌, ◌≤◌, ◌<◌, ◌≡◌, ◌≢◌, refl, sym, ap, ◌∙◌, inl, some, none, arith, ◌>>=◌,
  ==_self, true, false, length, lt→ltb, le→ltb,
}

no_table : (n t : ℕ) → n ≡ 0 → n ≢ t * 2 ^ 12 + 7
no_table n t zero e = omega arith

zero_even : (n : ℕ) → n ≡ 0 → n % 2 ≢ 1
zero_even n zero odd = omega arith

unmapped :
    (memory : ℕ → ℕ) (d w : ℕ) → entry memory d (w / 2 ^ 22) ≡ 0 → kernel_walk memory d w ≡ none
unmapped memory d w zero = rw zero refl

-- Where the bitmap has its full length, frame 0 is in use and some frame is free, and every
-- directory entry of the kernel is absent or leads to its one table,
-- `create_user_page_directory` faults nowhere and takes one free frame `f`, which is not 0, for
-- the directory that it returns. The directory stands at 0xC0500000, `map_user_page` can give it
-- pages, and it maps no user address; its user entries are 0, its entries above are those of the
-- kernel, no word outside it is changed, and the kernel's addresses off the pages of 0xC0500000
-- and 0xC0600000 resolve as before.
pub create_user_page_directory-IsUserDirectory :
    (s : Space)
    → OneTable s.paging
    → length s.bitmap ≡ bitmap_size
    → used s.bitmap 0 ≡ true
    → 0 < free_frames s.bitmap
    → (f : ℕ) × (s' : Space) × (create_user_page_directory s ≡ some (f * 2 ^ 12, s'))
      × (0 < f)
      × (used s.bitmap f ≡ false)
      × Extends s f 1 s'
      × ((w : ℕ) → w < 0xC0000000 → kernel_walk s'.memory f w ≡ none)
      × ((j : ℕ) → j < 768 → entry s'.memory f j ≡ 0)
      × ((j : ℕ) → 768 ≤ j → j < 1024 → entry s'.memory f j ≡ s'.paging.page_directory j)
      × ((u k : ℕ) → u ≢ f → k < 1024 → entry s'.memory u k ≡ entry s.memory u k)
create_user_page_directory-IsUserDirectory s one size zero_used room =
    let (f, b, found, inside, unused, updated, one_less, below) =
      allocate_frame_free s.bitmap size room in
    let some_frame = used-pos s.bitmap f zero_used unused in
    let (s', run, is, mapped, filled, kept) =
      create_user_page_directory_lem s f one size some_frame inside unused below in
    let empty : (i : ℕ) → i < 768 → entry s'.memory f i ≡ 0 =
      λ i user. filled i (omega arith) ∙ rw (lt→ltb i 768 user) refl in
    let others : (u k : ℕ) → u ≢ f → k < 1024 → entry s'.memory u k ≡ entry s.memory u k =
      λ u k ne small.
        kept (u * 2 ^ 12 + 4 * k) (λ j small' e. slots_apart u f k j ne small small' e) in
    (
      f,
      s',
      run,
      some_frame,
      unused,
      record {
        directory = record {
          one = rw mapped (map_page-OneTable s.paging one 0xC0500000 f);
          size = is.same_length ∙ size;
          window = rw mapped (workbench s.paging f one);
          taken = is.frames f ∙ rw (==_self f) refl;
          leads = λ i user. inl (ap (λ e. e % 2) (empty i user));
          apart = λ i j user user' odd same.
              absurd (zero_even (entry s'.memory f i) (empty i user) odd);
        };
        tables = λ i t user e. absurd (no_table (entry s'.memory f i) t (empty i user) e);
        still = λ j taken. is.frames j ∙ ground arith;
        kept = λ u k private small. others u k private.not_d small;
        kernel = λ w a off off' at.
            rw mapped (resolve-map_page_other s.paging one 0xC0500000 f w a off at);
        room =
            (let less = free_frames-IsUpdated s.bitmap s'.bitmap f inside unused is in omega arith);
      },
      (λ w small. unmapped s'.memory f w (empty (w / 2 ^ 22) (omega arith))),
      empty,
      (λ j high small.
          filled j small ∙ rw (le→ltb j 768 high) (ap (λ p. p.page_directory j) (sym mapped))),
      others,
    )

-- Where no frame is free, the address of the directory is 0, and nothing is changed.
pub create_user_page_directory_full :
    (s : Space)
    → length s.bitmap ≡ bitmap_size
    → free_frames s.bitmap ≡ 0
    → create_user_page_directory s ≡ some (0, s)
unfolding create_user_page_directory
create_user_page_directory_full s size none_free =
    let found = allocate_frame_full s.bitmap size none_free in rw (found, ◌>>=◌) refl
