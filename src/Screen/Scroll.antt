-- ===== src/Screen/Scroll.antt =====
-- The scroll of `putchar_color` and the blanking loops, cell by cell.
use seli_os.Screen.{Screen, write_cell, attribute, scroll_up, blank_cells, scrolled}
use seli_os.Prelude.{
  ℕ, zero, suc, ◌+◌, ◌*◌, ◌%◌, ◌≡◌, refl, ◌∙◌, ◌&&◌, arith, ltb, leb, ◌==◌, if◌then◌else◌,
}

-- The in-place copy reads only bytes that it has not written: from `i` on, each byte below the end
-- takes the byte one row further.
scroll_up_lem :
    (left i n : ℕ) (fb : ℕ → ℕ)
    → i + left ≡ n
    → (j : ℕ)
    → scroll_up left i fb j ≡ (if leb (i * 2) j && ltb j (n * 2) then fb (j + 160) else fb j)
unfolding scroll_up
scroll_up_lem zero i n fb e j = ground arith
scroll_up_lem (suc left) i n fb e j = scroll_up_lem left (i + 1) n _ (omega arith) j ∙ ground arith

-- A blanked cell holds a space and its attribute.
abbrev pub blank : ℕ → ℕ → ℕ → ℕ
blank fg bg j = if j % 2 == 0 then b' ' else attribute fg bg

blank_cells_lem :
    (left i n fg bg : ℕ) (fb : ℕ → ℕ)
    → i + left ≡ n
    → (j : ℕ)
    → blank_cells left i fg bg fb j
      ≡ (if leb (i * 2) j && ltb j (n * 2) then blank fg bg j else fb j)
unfolding blank_cells write_cell
blank_cells_lem zero i n fg bg fb e j = ground arith
blank_cells_lem (suc left) i n fg bg fb e j =
    blank_cells_lem left (i + 1) n fg bg _ (omega arith) j ∙ ground arith

-- A full screen scrolls by one row: rows 0 to 23 are the former rows 1 to 24, the last row is
-- blank, memory behind the screen is as before, and the cursor stands at the start of the last row.
pub scrolled_lem :
    (s : Screen) (fg bg : ℕ)
    → ((scrolled s fg bg).cursor_pos ≡ 1920)
      × ((j : ℕ)
          → (scrolled s fg bg).fb j
            ≡ (if ltb j 3840 then s.fb (j + 160) else if ltb j 4000 then blank fg bg j else s.fb j))
unfolding scrolled
scrolled_lem s fg bg = (
  refl,
  λ j. ground (
    arith,
    blank_cells_lem 80 (24 * 80) 2000 fg bg (scroll_up (24 * 80) 0 s.fb) refl j,
    scroll_up_lem (24 * 80) 0 1920 s.fb refl j,
  ),
)
