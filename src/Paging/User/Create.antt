-- ===== src/Paging/User/Create.antt =====
-- A new directory for a user program.
use seli_os.Memory.{Bitmap, bitmap_size, allocate_frame}
use seli_os.Memory.Frames.{IsUpdated, used}
use seli_os.Memory.Allocate.{allocate_frame_at}
use seli_os.Paging.User.{Space, fill_words, clone_directory, create_user_page_directory}
use seli_os.Paging.User.Window.{fill_words_lem, workbench, ltb-le}
use seli_os.Paging.{map_page}
use seli_os.Paging.Map.{OneTable}
use seli_os.Prelude.{
  ℕ, ◌+◌, ◌*◌, ◌^◌, ◌<◌, ◌≡◌, ◌≢◌, refl, ap, ◌∙◌, inl, inr, some, arith, length, true, false, ltb,
  if◌then◌else◌, ◌>>=◌, Bool-cases, ==_of_ne, ltb→lt,
}

clone_directory_run :
    (s : Space) (zeros memory : ℕ → ℕ)
    → fill_words 1024 0 (λ i. 0) 0xC0500000 s ≡ some (record s { memory = zeros })
    → fill_words 256 768 s.paging.page_directory 0xC0500000 (record s { memory = zeros })
      ≡ some (record s { memory = memory })
    → clone_directory s ≡ some (record s { memory = memory })
unfolding clone_directory
clone_directory_run s zeros memory zero_run copy_run =
    ap (λ o. o >>= λ z. fill_words 256 768 z.paging.page_directory 0xC0500000 z) zero_run ∙ copy_run

create_run :
    (s : Space) (f : ℕ) (b : Bitmap) (memory : ℕ → ℕ)
    → f ≢ 0
    → allocate_frame s.bitmap ≡ some (f, b)
    → clone_directory
        (record { paging = map_page 0xC0500000 f s.paging; bitmap = b; memory = s.memory })
      ≡ some (record { paging = map_page 0xC0500000 f s.paging; bitmap = b; memory = memory })
    → create_user_page_directory s
      ≡ some (f, record { paging = map_page 0xC0500000 f s.paging; bitmap = b; memory = memory })
unfolding create_user_page_directory
create_run s f b memory ne found cloned =
    let taken = ==_of_ne f 0 ne in rw (found, ◌>>=◌, taken, cloned) refl

-- If `f` is the lowest free frame, and not frame 0, and where every directory entry of the kernel is
-- absent or leads to its one table, `create_user_page_directory` faults nowhere: it marks frame `f` as
-- used, maps it to 0xC0500000 and returns its address, fills it with zero for the entries below 768 and with the kernel's
-- entries from there on, as they are after the frame was mapped to 0xC0500000, and changes no other
-- word of memory.
pub create_user_page_directory_lem :
    (s : Space) (f : ℕ)
    → OneTable s.paging
    → length s.bitmap ≡ bitmap_size
    → 0 < f
    → f < bitmap_size * 8
    → used s.bitmap f ≡ false
    → ((j : ℕ) → j < f → used s.bitmap j ≡ true)
    → (s' : Space) × (create_user_page_directory s ≡ some (f * 2 ^ 12, s'))
      × IsUpdated s.bitmap f true s'.bitmap
      × (s'.paging ≡ map_page 0xC0500000 (f * 2 ^ 12) s.paging)
      × ((j : ℕ)
          → j < 1024
          → s'.memory (f * 2 ^ 12 + 4 * j) ≡ (
              if ltb j 768
              then 0
              else (map_page 0xC0500000 (f * 2 ^ 12) s.paging).page_directory j))
      × ((a : ℕ) → ((j : ℕ) → j < 1024 → a ≢ f * 2 ^ 12 + 4 * j) → s'.memory a ≡ s.memory a)
create_user_page_directory_lem s f one size some_frame inside unused below =
    let (b, found, updated) = allocate_frame_at s.bitmap f size inside unused below in
    let paging = map_page 0xC0500000 (f * 2 ^ 12) s.paging in
    let mapped : Space = record { paging = paging; bitmap = b; memory = s.memory } in
    let leads = workbench s.paging f one in
    let (zeros, zero_run, zeroed, zero_kept) =
      fill_words_lem mapped (λ i. 0) 0xC0500000 f leads 1024 0 s.memory (omega arith) in
    let (memory, copy_run, copied, copy_kept) =
      fill_words_lem mapped paging.page_directory 0xC0500000 f leads 256 768 zeros (omega arith) in
    (
      record mapped { memory = memory },
      create_run s (f * 2 ^ 12) b memory (λ e. omega arith) found
          (clone_directory_run mapped zeros memory zero_run copy_run),
      updated,
      refl,
      (λ j small. elim (Bool-cases (ltb j 768)) [
        | inl low ↦
            let below = ltb→lt j 768 low in
            rw low (
              copy_kept (f * 2 ^ 12 + 4 * j) (λ k lo hi e. omega arith)
              ∙ zeroed j (omega arith) (omega arith))
        | inr high ↦ rw high (copied j (ltb-le j 768 high) (omega arith))
      ]),
      λ a apart.
          copy_kept a (λ j lo hi. apart j (omega arith))
          ∙ zero_kept a (λ j lo hi. apart j (omega arith)),
    )
