-- ===== src/Paging/User/Table.antt =====
-- `add_table`: a fresh, empty table for an entry of the directory that has none.
use seli_os.Memory.{Bitmap}
use seli_os.Memory.Frames.{IsUpdated, used}
use seli_os.Paging.{put, map_page}
use seli_os.Paging.Map.{map_page-OneTable}
use seli_os.Paging.User.{Space}
use seli_os.Paging.User.Window.{put_self, put_other}
use seli_os.Paging.User.View.{entry, walk, Leads, IsUserDirectory}
use seli_os.Paging.User.Page.{slots_apart, window_kept, walk_at, walk_absent, leaf}
use seli_os.Prelude.{
  ℕ, ◌+◌, ◌*◌, ◌/◌, ◌%◌, ◌^◌, ◌<◌, ◌≡◌, ◌≢◌, ◌⊎◌, refl, sym, ap, ◌∙◌, inl, inr, arith, ◌==◌,
  Bool-cases, ==_iff, ==_self, ==_of_ne, true, false,
}

fresh_unique : (t u : ℕ) → t * 2 ^ 12 + 7 ≡ u * 2 ^ 12 + 7 → t ≡ u
fresh_unique t u e = omega arith

module _ (s : Space) (d i t : ℕ) (b : Bitmap) (zeros : ℕ → ℕ) (is : IsUserDirectory s d)
    (user : i < 768) (absent : entry s.memory d i % 2 ≡ 0) (unused : used s.bitmap t ≡ false)
    (inside : t < 2 ^ 20) (updated : IsUpdated s.bitmap t true b)
    (zeroed : (j : ℕ) → j < 1024 → zeros (t * 2 ^ 12 + 4 * j) ≡ 0)
    (kept : (a : ℕ) → ((j : ℕ) → j < 1024 → a ≢ t * 2 ^ 12 + 4 * j) → zeros a ≡ s.memory a) where
  abbrev pub linked : Space
  linked = record {
    paging = map_page 0xC0600000 (t * 2 ^ 12) s.paging;
    bitmap = b;
    memory = put zeros (d * 2 ^ 12 + 4 * i) (t * 2 ^ 12 + 7);
  }

  used-ne : (u : ℕ) → used s.bitmap u ≡ true → t ≢ u
  used-ne u taken same = let free = ap (used s.bitmap) same in absurd (cc)

  pub still_used : (u : ℕ) → used s.bitmap u ≡ true → used b u ≡ true
  still_used u taken = updated.frames u ∙ rw (==_of_ne t u (used-ne u taken)) taken

  now_used : used b t ≡ true
  now_used = updated.frames t ∙ rw (==_self t) refl

  pub entry_here : entry linked.memory d i ≡ t * 2 ^ 12 + 7
  entry_here = put_self zeros (d * 2 ^ 12 + 4 * i) (t * 2 ^ 12 + 7)

  frame_kept : (u k : ℕ) → used s.bitmap u ≡ true → k < 1024 → entry zeros u k ≡ entry s.memory u k
  frame_kept u k taken small =
      kept (u * 2 ^ 12 + 4 * k)
        (λ j small' e. slots_apart t u j k (used-ne u taken) small' small (sym e))

  entry_beside : (j : ℕ) → j < 768 → j ≢ i → entry linked.memory d j ≡ entry s.memory d j
  entry_beside j small ne =
      put_other zeros (d * 2 ^ 12 + 4 * i) (d * 2 ^ 12 + 4 * j) (t * 2 ^ 12 + 7)
        (λ e. ne (omega arith))
      ∙ frame_kept d j is.taken (omega arith)

  pub table_kept :
      (u k : ℕ)
      → used s.bitmap u ≡ true
      → d ≢ u
      → k < 1024
      → entry linked.memory u k ≡ entry s.memory u k
  table_kept u k taken ne small =
      put_other zeros (d * 2 ^ 12 + 4 * i) (u * 2 ^ 12 + 4 * k) (t * 2 ^ 12 + 7)
        (slots_apart d u i k ne (omega arith) small)
      ∙ frame_kept u k taken small

  table_empty : (k : ℕ) → k < 1024 → entry linked.memory t k ≡ 0
  table_empty k small =
      put_other zeros (d * 2 ^ 12 + 4 * i) (t * 2 ^ 12 + 4 * k) (t * 2 ^ 12 + 7)
        (slots_apart d t i k (λ e. used-ne d is.taken (sym e)) (omega arith) small)
      ∙ zeroed k small

  linked-Leads : (j : ℕ) → j < 768 → Leads linked d (entry linked.memory d j)
  linked-Leads j small = elim (Bool-cases (j == i)) [
    | inl same ↦ inr (
      t,
      ap (entry linked.memory d) ((==_iff j i).0 same) ∙ entry_here,
      now_used,
      inside,
      used-ne d is.taken,
    )
    | inr other ↦
        let same = entry_beside j small (λ e. ground arith) in
        elim (is.leads j small) [
          | inl even ↦ inl (ap (λ e. e % 2) same ∙ even)
          | inr (u, at, taken, in_range, not_d) ↦
              inr (u, same ∙ at, still_used u taken, in_range, not_d)
        ]
  ]

  fresh_apart : (j : ℕ) → j < 768 → entry s.memory d j ≢ t * 2 ^ 12 + 7
  fresh_apart j small e = elim (is.leads j small) [
    | inl even ↦ absurd (omega arith)
    | inr (u, at, taken, in_range, not_d) ↦ absurd (used-ne u taken (omega arith))
  ]

  linked-apart :
      (j k : ℕ)
      → j < 768
      → k < 768
      → entry linked.memory d j % 2 ≡ 1
      → entry linked.memory d j ≡ entry linked.memory d k
      → j ≡ k
  linked-apart j k small small' odd e = elim (Bool-cases (j == i)) [
    | inl same ↦ elim (Bool-cases (k == i)) [
      | inl same' ↦ (==_iff j i).0 same ∙ sym ((==_iff k i).0 same')
      | inr other ↦ absurd (
          fresh_apart k small' (
            sym (entry_beside k small' (λ e. ground arith))
            ∙ sym e
            ∙ ap (entry linked.memory d) ((==_iff j i).0 same)
            ∙ entry_here))
    ]
    | inr other ↦ elim (Bool-cases (k == i)) [
      | inl same ↦ absurd (
          fresh_apart j small (
            sym (entry_beside j small (λ e. ground arith))
            ∙ e
            ∙ ap (entry linked.memory d) ((==_iff k i).0 same)
            ∙ entry_here))
      | inr other' ↦
          let j_kept = entry_beside j small (λ e. ground arith) in
          let k_kept = entry_beside k small' (λ e. ground arith) in
          is.apart j k small small' (sym (ap (λ e. e % 2) j_kept) ∙ odd) (sym j_kept ∙ e ∙ k_kept)
    ]
  ]

  pub linked-tables :
      (j u : ℕ)
      → j < 768
      → entry linked.memory d j ≡ u * 2 ^ 12 + 7
      → (entry s.memory d j ≡ u * 2 ^ 12 + 7) ⊎ (used s.bitmap u ≡ false)
  linked-tables j u small e = elim (Bool-cases (j == i)) [
    | inl same ↦
        let is_t : t ≡ u =
          fresh_unique t u
            (sym entry_here ∙ sym (ap (entry linked.memory d) ((==_iff j i).0 same)) ∙ e) in
        inr (ap (used s.bitmap) (sym is_t) ∙ unused)
    | inr other ↦ inl (sym (entry_beside j small (λ e. ground arith)) ∙ e)
  ]

  pub linked-IsUserDirectory : IsUserDirectory linked d
  linked-IsUserDirectory = record {
    one = map_page-OneTable s.paging is.one 0xC0600000 t;
    size = updated.same_length ∙ is.size;
    window = window_kept s.paging d t is.one is.window;
    taken = still_used d is.taken;
    leads = linked-Leads;
    apart = linked-apart;
  }

  -- A table without entries maps nothing.
  pub walk-add_table : (w : ℕ) → w < 0xC0000000 → walk linked.memory d w ≡ walk s.memory d w
  walk-add_table w small = elim (Bool-cases (w / 2 ^ 22 == i)) [
    | inl same ↦
        let here = (==_iff (w / 2 ^ 22) i).0 same in
        walk_at linked.memory d w t (ap (entry linked.memory d) here ∙ entry_here)
        ∙ ap (λ p. leaf p w) (table_empty (w / 2 ^ 12 % 2 ^ 10) (omega arith))
        ∙ sym (walk_absent s.memory d w (ap (λ k. entry s.memory d k % 2) here ∙ absent))
    | inr other ↦
        let e = entry_beside (w / 2 ^ 22) (omega arith) (λ e. ground arith) in
        elim (is.leads (w / 2 ^ 22) (omega arith)) [
          | inl even ↦
              walk_absent linked.memory d w (ap (λ e. e % 2) e ∙ even)
              ∙ sym (walk_absent s.memory d w even)
          | inr (u, at, taken, in_range, not_d) ↦
              walk_at linked.memory d w u (e ∙ at)
              ∙ ap (λ p. leaf p w)
                  (table_kept u (w / 2 ^ 12 % 2 ^ 10) taken (λ e. not_d (sym e)) (omega arith))
              ∙ sym (walk_at s.memory d w u at)
        ]
  ]
