-- ===== src/Paging/Map.antt =====
-- What the processor finds for an address when it walks the two tables.
use seli_os.Paging.{Paging, pd_index, pt_index, map_page}
use seli_os.Prelude.{
  ℕ, ◌+◌, ◌*◌, ◌/◌, ◌%◌, ◌^◌, ◌≡◌, ◌≢◌, refl, ap, ◌∙◌, ◌⊎◌, inl, inr, ◌&&◌, Option, none, some,
  arith, bit_and, bit_or, ◌==◌, if◌then◌else◌, Bool-cases, ==_self, ==_iff,
}
use seli_os.Prelude.Bits.{bit_and-ones, bit_or-shifted}

-- The walk: a present directory entry that leads to the one table, and a present entry there.
abbrev pub resolve : Paging → ℕ → Option ℕ
resolve p address =
    let entry = p.page_directory (address / 2 ^ 22) in
    let page = p.first_page_table (address / 2 ^ 12 % 2 ^ 10) in
    if entry % 2 == 1 && entry / 2 ^ 12 == p.table_physical / 2 ^ 12 && page % 2 == 1
    then some (page / 2 ^ 12 * 2 ^ 12 + address % 2 ^ 12)
    else none

-- Every directory entry is absent or leads to the one table.
pub record OneTable (p : Paging) : Type 0 where
  pub frame : ℕ
  pub aligned : p.table_physical ≡ frame * 2 ^ 12
  pub entries : (i : ℕ) → (p.page_directory i % 2 ≡ 0) ⊎ (p.page_directory i ≡ frame * 2 ^ 12 + 3)

flagged : (frame : ℕ) → bit_or (frame * 2 ^ 12) 3 ≡ frame * 2 ^ 12 + 3
flagged frame = bit_or-shifted 12 frame 3 (omega arith)

pub pt_index_lem : (address : ℕ) → pt_index address ≡ address / 2 ^ 12 % 2 ^ 10
unfolding pt_index
pt_index_lem address = bit_and-ones 10 (address / 2 ^ 12)

low_bit : (n : ℕ) → bit_and n 0x1 ≡ n % 2
low_bit n = bit_and-ones 1 n

walked :
    (table frame offset : ℕ)
    → (if (table * 2 ^ 12 + 3) % 2 == 1
          && (table * 2 ^ 12 + 3) / 2 ^ 12 == table * 2 ^ 12 / 2 ^ 12
          && (frame * 2 ^ 12 + 3) % 2 == 1
        then some ((frame * 2 ^ 12 + 3) / 2 ^ 12 * 2 ^ 12 + offset)
        else none)
      ≡ some (frame * 2 ^ 12 + offset)
walked table frame offset = ground arith

module _ (p : Paging) (one : OneTable p) (v frame : ℕ) where
  abbrev present : ℕ
  present = one.frame * 2 ^ 12 + 3

  directory_elsewhere :
      (i : ℕ)
      → i ≢ v / 2 ^ 22
      → (map_page v (frame * 2 ^ 12) p).page_directory i ≡ p.page_directory i
  unfolding map_page pd_index
  directory_elsewhere i other =
      elim (Bool-cases (bit_and (p.page_directory (v / 2 ^ 22)) 0x1 == 0)) [
        | inl absent ↦ rw absent (ground arith)
        | inr there ↦ rw there refl
      ]

  directory_here : (map_page v (frame * 2 ^ 12) p).page_directory (v / 2 ^ 22) ≡ present
  unfolding map_page pd_index
  directory_here =
      let low = low_bit (p.page_directory (v / 2 ^ 22)) in
      elim (Bool-cases (bit_and (p.page_directory (v / 2 ^ 22)) 0x1 == 0)) [
        | inl absent ↦
            rw (absent, ==_self (v / 2 ^ 22)) (ap (λ a. bit_or a 3) one.aligned ∙ flagged one.frame)
        | inr there ↦
            rw there
              (elim (one.entries (v / 2 ^ 22)) [ inl even ↦ absurd (ground arith) | inr is ↦ is ])
      ]

  pub entry_of :
      (i : ℕ)
      → (i ≡ v / 2 ^ 22) ⊎ (p.page_directory i % 2 ≡ 1)
      → (map_page v (frame * 2 ^ 12) p).page_directory i ≡ present
  entry_of i here = elim (Bool-cases (i == v / 2 ^ 22)) [
    | inl same ↦
        ap (map_page v (frame * 2 ^ 12) p).page_directory ((==_iff i (v / 2 ^ 22)).0 same)
        ∙ directory_here
    | inr other ↦
        let apart : i ≢ v / 2 ^ 22 = λ e. ground arith in
        directory_elsewhere i apart ∙ elim here [
          | inl e ↦ absurd (apart e)
          | inr odd ↦ elim (one.entries i) [ inl even ↦ absurd (omega arith) | inr is ↦ is ]
        ]
  ]

  table_kept : (map_page v (frame * 2 ^ 12) p).table_physical ≡ p.table_physical
  unfolding map_page
  table_kept = refl

  -- `map_page` keeps every directory entry absent or on the one table.
  pub map_page-OneTable : OneTable (map_page v (frame * 2 ^ 12) p)
  unfolding map_page
  map_page-OneTable = record {
    frame = one.frame;
    aligned = table_kept ∙ one.aligned;
    entries = λ i. elim (Bool-cases (i == v / 2 ^ 22)) [
      | inl same ↦ inr (entry_of i (inl ((==_iff i (v / 2 ^ 22)).0 same)))
      | inr other ↦ rw (directory_elsewhere i (λ e. ground arith)) (one.entries i)
    ];
  }

  pub page_at :
      (w : ℕ)
      → w / 2 ^ 12 % 2 ^ 10 ≡ v / 2 ^ 12 % 2 ^ 10
      → (map_page v (frame * 2 ^ 12) p).first_page_table (w / 2 ^ 12 % 2 ^ 10) ≡ frame * 2 ^ 12 + 3
  unfolding map_page
  page_at w same = rw (pt_index_lem v, same, ==_self (v / 2 ^ 12 % 2 ^ 10)) (flagged frame)

  pub page_elsewhere :
      (i : ℕ)
      → i ≢ v / 2 ^ 12 % 2 ^ 10
      → (map_page v (frame * 2 ^ 12) p).first_page_table i ≡ p.first_page_table i
  unfolding map_page
  page_elsewhere i other = rw (pt_index_lem v) (ground arith)

  table_of : (map_page v (frame * 2 ^ 12) p).table_physical ≡ one.frame * 2 ^ 12
  unfolding map_page
  table_of = one.aligned

  -- Where every directory entry is absent or leads to the one table, after `map_page` to a
  -- page-aligned frame the address that was mapped, and every other address whose directory entry
  -- was present and that lies in the same page of its 4 MiB, resolves to that frame.
  pub resolve-map_page :
      (w : ℕ)
      → (w / 2 ^ 22 ≡ v / 2 ^ 22) ⊎ (p.page_directory (w / 2 ^ 22) % 2 ≡ 1)
      → w / 2 ^ 12 % 2 ^ 10 ≡ v / 2 ^ 12 % 2 ^ 10
      → resolve (map_page v (frame * 2 ^ 12) p) w ≡ some (frame * 2 ^ 12 + w % 2 ^ 12)
  resolve-map_page w here same =
      rw (entry_of (w / 2 ^ 22) here, page_at w same, table_of)
        (walked one.frame frame (w % 2 ^ 12))

  -- Where every directory entry is absent or leads to the one table, `map_page` to a page-aligned
  -- frame leaves an address in another page of its 4 MiB, if it resolved before, at what it
  -- resolved to.
  pub resolve-map_page_other :
      (w a : ℕ)
      → w / 2 ^ 12 % 2 ^ 10 ≢ v / 2 ^ 12 % 2 ^ 10
      → resolve p w ≡ some a
      → resolve (map_page v (frame * 2 ^ 12) p) w ≡ some a
  resolve-map_page_other w a other before =
      let odd : p.page_directory (w / 2 ^ 22) % 2 ≡ 1 = ground arith in
      let kept = entry_of (w / 2 ^ 22) (inr odd) in
      let was : p.page_directory (w / 2 ^ 22) ≡ present = elim (one.entries (w / 2 ^ 22)) [
        | inl even ↦ absurd (omega arith)
        | inr is ↦ is
      ] in
      rw (kept, page_elsewhere (w / 2 ^ 12 % 2 ^ 10) other, table_kept) (rw was at before)
