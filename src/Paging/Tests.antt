-- ===== src/Paging/Tests.antt =====
-- A page table at physical address 0x5000.
use seli_os.Paging.{Paging, map_page, init_paging}
use seli_os.Paging.Map.{resolve, OneTable, map_page-OneTable, resolve-map_page}
use seli_os.Paging.Identity.{init_paging-resolve}
use seli_os.Memory.Frames.{used}
use seli_os.Prelude.Bits.{digit}
use seli_os.Paging.User.{Space, create_user_page_directory, map_user_page}
use seli_os.Paging.User.View.{entry, walk, kernel_walk, with_page, IsUserDirectory}
use seli_os.Paging.User.Extends.{Extends}
use seli_os.Paging.User.Window.{workbench}
use seli_os.Paging.User.Refine.{map_user_page-with_page}
use seli_os.Paging.User.Fresh.{create_user_page_directory-IsUserDirectory}
use seli_os.Memory.Room.{count, count_below}
use seli_os.Prelude.{
  ℕ, ◌<◌, ◌≢◌, some, ◌∷◌, replicate, length-replicate, ◌+◌, ◌*◌, ◌%◌, ◌^◌, ◌≡◌, refl, inl, inr,
  arith, not, false, none, ◌≤◌, ◌/◌,
}

-- Every directory entry is present.
abbrev booted : Paging
booted = record {
  page_directory = λ i. 0x5003;
  first_page_table = λ i. 0x7003;
  table_physical = 0x5000;
}

booted-OneTable : OneTable booted
booted-OneTable = record { frame = 5; aligned = refl; entries = λ i. inr refl }

-- The page at 0xC0500000 is that of the kernel at 0xC0100000.
resolve-map_page_example :
    resolve (map_page 0xC0500000 (0x300 * 2 ^ 12) booted) 0xC0100000
    ≡ some (0x300 * 2 ^ 12 + 0xC0100000 % 2 ^ 12)
resolve-map_page_example =
    resolve-map_page booted booted-OneTable 0xC0500000 0x300 0xC0100000 (inr refl) refl

init_paging-resolve_example :
    (resolve (init_paging (0x100 * 2 ^ 12) 0x180000 0x4000 booted).0 0x123456 ≡ some 0x123456)
    × (resolve (init_paging (0x100 * 2 ^ 12) 0x180000 0x4000 booted).0 (0xC0000000 + 0x123456)
        ≡ some 0x123456)
init_paging-resolve_example =
    init_paging-resolve 0x100 0x180000 0x4000 5 booted refl (omega arith) (omega arith) 0x123456
      (omega arith)

-- Frame 0 is in use, and frame 1 is the lowest free one.
abbrev space : Space
space = record { paging = booted; bitmap = 1 ∷ replicate 4095 0; memory = λ a. 9 }

-- Frames 0 and 1 are in use, and frame 1 is a directory without entries.
abbrev user_space : Space
user_space = record {
  paging = map_page 0xC0500000 (1 * 2 ^ 12) booted;
  bitmap = 3 ∷ replicate 4095 0;
  memory = λ a. 0;
}

user_space-IsUserDirectory : IsUserDirectory user_space 1
unfolding digit
user_space-IsUserDirectory = record {
  one = map_page-OneTable booted booted-OneTable 0xC0500000 1;
  size = omega (arith, length-replicate {A = ℕ} 4095 0);
  window = workbench booted 1 booted-OneTable;
  taken = refl;
  leads = λ i user. inl refl;
  apart = λ i j user user' odd same. absurd (omega arith);
}

six_free : count (λ j. not (used user_space.bitmap j)) 8 ≡ 6
unfolding digit count
six_free = refl

map_user_page-with_page_example :
    (s : Space) × (map_user_page 0xC0500000 0xBFFFF000 (0x300 * 2 ^ 12) user_space ≡ some s)
    × Extends user_space 1 1 s
    × ((w : ℕ)
        → w < 0xC0000000
        → walk s.memory 1 w
          ≡ with_page (0xBFFFF000 / 2 ^ 12) (0x300 * 2 ^ 12) (walk user_space.memory 1) w)
map_user_page-with_page_example =
    map_user_page-with_page user_space 1 0xBFFFF000 0x300 user_space-IsUserDirectory (omega arith) (
      inr (
        omega
          (arith, six_free, count_below (λ j. not (used user_space.bitmap j)) 32760 8 32768 refl)))

create_user_page_directory-IsUserDirectory_example :
    (f : ℕ) × (s : Space) × (create_user_page_directory user_space ≡ some (f * 2 ^ 12, s))
    × (0 < f)
    × (used user_space.bitmap f ≡ false)
    × Extends user_space f 1 s
    × ((w : ℕ) → w < 0xC0000000 → kernel_walk s.memory f w ≡ none)
    × ((j : ℕ) → j < 768 → entry s.memory f j ≡ 0)
    × ((j : ℕ) → 768 ≤ j → j < 1024 → entry s.memory f j ≡ s.paging.page_directory j)
    × ((u k : ℕ) → u ≢ f → k < 1024 → entry s.memory u k ≡ 0)
unfolding digit
create_user_page_directory-IsUserDirectory_example =
    create_user_page_directory-IsUserDirectory user_space
      (map_page-OneTable booted booted-OneTable 0xC0500000 1)
      (omega (arith, length-replicate {A = ℕ} 4095 0)) refl
      (omega
        (arith, six_free, count_below (λ j. not (used user_space.bitmap j)) 32760 8 32768 refl))
