-- ===== src/Paging/User/Refine.antt =====
-- `map_user_page` and `create_user_page_directory` as operations on the address space of a program.
use seli_os.Memory.{Bitmap, allocate_frame}
use seli_os.Memory.Frames.{used}
use seli_os.Memory.Room.{free_frames, allocate_frame_free}
use seli_os.Paging.{put, map_page, pd_index}
use seli_os.Paging.Map.{resolve-map_page_other}
use seli_os.Paging.User.{Space, store_word, fill_words, add_table, set_page, map_user_page}
use seli_os.Paging.User.Window.{fill_words_lem}
use seli_os.Paging.User.Extends.{Extends, Extends-weaken, Extends-trans}
use seli_os.Paging.User.View.{entry, walk, with_page, IsUserDirectory}
use seli_os.Paging.User.Page.{
  bit_or-flags, window_kept, workbench_table, store_word_run, entry_run, set_page_run, with_entry,
  walk-set_page, with_entry-IsUserDirectory, entry_kept, page_elsewhere,
}
use seli_os.Paging.User.Table.{
  linked, linked-IsUserDirectory, walk-add_table, entry_here, still_used, linked-tables, table_kept,
}
use seli_os.Prelude.{
  ℕ, ◌+◌, ◌*◌, ◌/◌, ◌%◌, ◌^◌, ◌<◌, ◌≡◌, ◌≢◌, ◌⊎◌, refl, sym, ap, ◌∙◌, inl, inr, Option, some, arith,
  bit_and, bit_or, ◌==◌, if◌then◌else◌, ◌>>=◌,
}
use seli_os.Prelude.Bits.{bit_and-ones}

add_table_run :
    (s : Space) (i t physical : ℕ) (b : Bitmap) (zeros : ℕ → ℕ)
    → allocate_frame s.bitmap ≡ some (t * 2 ^ 12, b)
    → fill_words 1024 0
        (λ j. 0)
        0xC0600000
        (record {
          paging = map_page 0xC0600000 (t * 2 ^ 12) s.paging;
          bitmap = b;
          memory = s.memory;
        })
      ≡ some (record {
        paging = map_page 0xC0600000 (t * 2 ^ 12) s.paging;
        bitmap = b;
        memory = zeros;
      })
    → store_word
        (0xC0500000 + 4 * i)
        (bit_or (t * 2 ^ 12) 7)
        (record { paging = map_page 0xC0600000 (t * 2 ^ 12) s.paging; bitmap = b; memory = zeros })
      ≡ some (record {
        paging = map_page 0xC0600000 (t * 2 ^ 12) s.paging;
        bitmap = b;
        memory = put zeros physical (t * 2 ^ 12 + 7);
      })
    → add_table 0xC0500000 i s
      ≡ some (record {
        paging = map_page 0xC0600000 (t * 2 ^ 12) s.paging;
        bitmap = b;
        memory = put zeros physical (t * 2 ^ 12 + 7);
      })
unfolding add_table
add_table_run s i t physical b zeros found zero_run link_run =
    ap (λ o. o >>= fresh) found
    ∙ ap (λ o. o >>= λ z. store_word (0xC0500000 + 4 * i) (bit_or (t * 2 ^ 12) 7) z) zero_run
    ∙ link_run
  where
    fresh : ℕ × Bitmap → Option Space
    fresh (new_table_phys, bitmap) = do
      zeroed ←
          fill_words 1024 0 (λ j. 0) 0xC0600000
            (record s { bitmap = bitmap; paging = map_page 0xC0600000 new_table_phys s.paging })
      store_word (0xC0500000 + 4 * i) (bit_or new_table_phys 7) zeroed

-- A fresh table changes nothing that a program sees, and the entry leads to it.
add_table_lem :
    (s : Space) (d i : ℕ)
    → IsUserDirectory s d
    → i < 768
    → entry s.memory d i % 2 ≡ 0
    → 0 < free_frames s.bitmap
    → (s' : Space) × (t : ℕ) × (add_table 0xC0500000 i s ≡ some s')
      × Extends s d 1 s'
      × (entry s'.memory d i ≡ t * 2 ^ 12 + 7)
      × (t < 2 ^ 20)
      × (t ≢ d)
      × ((w : ℕ) → w < 0xC0000000 → walk s'.memory d w ≡ walk s.memory d w)
add_table_lem s d i is user absent room =
    let (t, b, found, inside, unused, updated, one_less, below) =
      allocate_frame_free s.bitmap is.size room in
    let fresh : Space = record {
      paging = map_page 0xC0600000 (t * 2 ^ 12) s.paging;
      bitmap = b;
      memory = s.memory;
    } in
    let (zeros, zero_run, zeroed, kept) =
      fill_words_lem fresh (λ j. 0) 0xC0600000 t
        (λ j small. workbench_table s.paging t j is.one small) 1024 0 s.memory (omega arith) in
    let empty = λ (j : ℕ) (small : j < 1024). zeroed j (omega arith) small in
    let only =
      λ (a : ℕ) (out : (j : ℕ) → j < 1024 → a ≢ t * 2 ^ 12 + 4 * j). kept a (λ j lo hi. out j hi) in
    let in_range : t < 2 ^ 20 = omega arith in
    let not_d : t ≢ d = λ same. (let busy = ap (used s.bitmap) same ∙ is.taken in absurd (cc)) in
    (
      linked s d i t b zeros is user absent unused in_range updated empty only,
      t,
      add_table_run s i t (d * 2 ^ 12 + 4 * i) b zeros found zero_run (
          ap (λ v. store_word (0xC0500000 + 4 * i) v (record fresh { memory = zeros }))
            (bit_or-flags t)
          ∙ store_word_run (record fresh { memory = zeros }) (0xC0500000 + 4 * i) (t * 2 ^ 12 + 7)
              (d * 2 ^ 12 + 4 * i) (window_kept s.paging d t is.one is.window i (omega arith))),
      record {
        directory =
            linked-IsUserDirectory s d i t b zeros is user absent unused in_range updated empty
              only;
        still = still_used s d i t b zeros is user absent unused in_range updated empty only;
        tables = linked-tables s d i t b zeros is user absent unused in_range updated empty only;
        kept = λ u k private small.
            table_kept s d i t b zeros is user absent unused in_range updated empty only u k
              private.taken (λ e. private.not_d (sym e)) small;
        kernel = λ w a off off' at. resolve-map_page_other s.paging is.one 0xC0600000 t w a off' at;
        room = omega arith;
      },
      entry_here s d i t b zeros is user absent unused in_range updated empty only,
      in_range,
      not_d,
      walk-add_table s d i t b zeros is user absent unused in_range updated empty only,
    )

module _ (s : Space) (d v physical : ℕ) (is : IsUserDirectory s d) (small : v < 2 ^ 32) where
  abbrev after : ℕ → Option Space
  after entry = do
    linked ← if bit_and entry 0x1 == 0 then add_table 0xC0500000 (v / 2 ^ 22) s else some s
    set_page 0xC0500000 v physical linked

  map_run : map_user_page 0xC0500000 v physical s ≡ after (entry s.memory d (v / 2 ^ 22))
  unfolding map_user_page pd_index
  map_run = ap (λ o. o >>= after) (entry_run s d v is small)

  map_run_present :
      entry s.memory d (v / 2 ^ 22) % 2 ≡ 1
      → map_user_page 0xC0500000 v physical s ≡ set_page 0xC0500000 v physical s
  map_run_present odd = map_run ∙ rw (bit_and-ones 1 (entry s.memory d (v / 2 ^ 22)), odd) refl

  map_run_absent :
      (s' : Space)
      → entry s.memory d (v / 2 ^ 22) % 2 ≡ 0
      → add_table 0xC0500000 (v / 2 ^ 22) s ≡ some s'
      → map_user_page 0xC0500000 v physical s ≡ set_page 0xC0500000 v physical s'
  map_run_absent s' even added =
      map_run
      ∙ rw (bit_and-ones 1 (entry s.memory d (v / 2 ^ 22)), even)
          (ap (λ o. o >>= set_page 0xC0500000 v physical) added)

-- The entry of a page whose table is there.
set_page_lem :
    (s : Space) (d v f t : ℕ)
    → IsUserDirectory s d
    → v < 0xC0000000
    → entry s.memory d (v / 2 ^ 22) ≡ t * 2 ^ 12 + 7
    → t < 2 ^ 20
    → t ≢ d
    → (set_page 0xC0500000 v (f * 2 ^ 12) s ≡ some (with_entry s v f t))
      × Extends s d 0 (with_entry s v f t)
      × ((w : ℕ)
          → w < 0xC0000000
          → walk (with_entry s v f t).memory d w
            ≡ with_page (v / 2 ^ 12) (f * 2 ^ 12) (walk s.memory d) w)
set_page_lem s d v f t is user there in_range not_d = (
  set_page_run s d v f t is user there in_range,
  record {
    directory = with_entry-IsUserDirectory s d v f t is user there not_d;
    still = λ j h. h;
    tables =
        λ i u small e. inl (sym (entry_kept s d v f t is user there not_d i (omega arith)) ∙ e);
    kept = λ u k private small. page_elsewhere s d v f t is user there not_d u k small (λ same.
        private.no_table (v / 2 ^ 22) (omega arith) (there ∙ ap (λ x. x * 2 ^ 12 + 7) same));
    kernel = λ w a off off' at. resolve-map_page_other s.paging is.one 0xC0600000 t w a off' at;
    room = omega arith;
  },
  walk-set_page s d v f t is user there not_d,
)

-- If the directory in frame `d` stands at 0xC0500000, with the tables of its user entries apart
-- and in use, the kernel's own directory entries are absent or lead to its one table, the bitmap
-- has its full length, and the directory has a table for the page or a frame is free, then
-- `map_user_page` of a user address to frame `f` faults nowhere. Afterwards the program, at the
-- lowest privilege, may read and write frame `f` at the page of that address, and at every other
-- user address what it could before. The conditions on the directory, the tables and the bitmap
-- hold again; no frame is given back, at most one is taken, and a new table stands on a frame that
-- was free; the frames in use that are neither the directory nor a table keep their words, and the
-- kernel's addresses off the pages of 0xC0500000 and 0xC0600000 resolve as before. This is of the
-- tables in memory, on a processor that keeps no translation across a change of a table.
pub map_user_page-with_page :
    (s : Space) (d v f : ℕ)
    → IsUserDirectory s d
    → v < 0xC0000000
    → (entry s.memory d (v / 2 ^ 22) % 2 ≡ 1) ⊎ (0 < free_frames s.bitmap)
    → (s' : Space) × (map_user_page 0xC0500000 v (f * 2 ^ 12) s ≡ some s')
      × Extends s d 1 s'
      × ((w : ℕ)
          → w < 0xC0000000
          → walk s'.memory d w ≡ with_page (v / 2 ^ 12) (f * 2 ^ 12) (walk s.memory d) w)
map_user_page-with_page s d v f is user room = elim (is.leads (v / 2 ^ 22) (omega arith)) [
  | inr (t, there, taken, in_range, not_d) ↦
      let (set, ext, view) = set_page_lem s d v f t is user there in_range not_d in
      (
        with_entry s v f t,
        map_run_present s d v (f * 2 ^ 12) is (omega arith) (omega arith) ∙ set,
        Extends-weaken ext,
        view,
      )
  | inl even ↦
      let some_free : 0 < free_frames s.bitmap = elim room [
        | inl odd ↦ absurd (omega arith)
        | inr free ↦ free
      ] in
      let (s', t, added, ext, there, in_range, not_d, same) =
        add_table_lem s d (v / 2 ^ 22) is (omega arith) even some_free in
      let (set, ext', view) = set_page_lem s' d v f t ext.directory user there in_range not_d in
      (
        with_entry s' v f t,
        map_run_absent s d v (f * 2 ^ 12) is (omega arith) s' even added ∙ set,
        Extends-trans ext ext',
        λ w small.
            view w small
            ∙ ap (λ o. if w / 2 ^ 12 == v / 2 ^ 12 then some (f * 2 ^ 12 + w % 2 ^ 12) else o)
                (same w small),
      )
]
