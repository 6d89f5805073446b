-- ===== src/Paging/Identity.antt =====
-- The identity map that `init_paging` sets up.
use seli_os.Paging.{Paging, map_page, map_pages, init_paging}
use seli_os.Paging.Map.{resolve, OneTable, map_page-OneTable, page_at, page_elsewhere, entry_of}
use seli_os.Prelude.{
  ℕ, zero, suc, ◌+◌, ◌-◌, ◌*◌, ◌/◌, ◌%◌, ◌^◌, ◌≤◌, ◌<◌, ◌≡◌, refl, sym, ap, ◌∙◌, inl, inr, some,
  max, arith, ◌==◌, Bool-cases, ==_iff,
}

-- The first `n` pages of the table lead to the frames of the same number.
record IsFlat (p : Paging) (n : ℕ) : Type 0 where
  one : OneTable p
  pages : (i : ℕ) → i < n → p.first_page_table i ≡ i * 2 ^ 12 + 3

-- Present directory entries stay present.
KeepsPresent : Paging → Paging → Type 0
KeepsPresent p p' = (i : ℕ) → p.page_directory i % 2 ≡ 1 → p'.page_directory i % 2 ≡ 1

map_page-IsFlat :
    (p : Paging) (v frame n m : ℕ)
    → IsFlat p n
    → v / 2 ^ 12 % 2 ^ 10 ≡ frame
    → frame ≤ n
    → m ≤ max n (frame + 1)
    → IsFlat (map_page v (frame * 2 ^ 12) p) m × KeepsPresent p (map_page v (frame * 2 ^ 12) p)
unfolding KeepsPresent
map_page-IsFlat p v frame n m flat index next small = (
  record {
    one = map_page-OneTable p flat.one v frame;
    pages = λ i below. elim (Bool-cases (i == frame)) [
      | inl same ↦
          let e = (==_iff i frame).0 same in
          ap (map_page v (frame * 2 ^ 12) p).first_page_table (e ∙ sym index)
          ∙ page_at p flat.one v frame v refl
          ∙ omega arith
      | inr other ↦
          page_elsewhere p flat.one v frame i (λ e. ground arith) ∙ flat.pages i (ground arith)
    ];
  },
  λ i odd. omega (arith, entry_of p flat.one v frame i (inr odd)),
)

map_pages-IsFlat :
    (left k n m s addr : ℕ) (p : Paging)
    → addr ≡ k * 2 ^ 12
    → k ≤ n
    → k + left ≤ 2 ^ 10
    → m ≤ max n (k + left)
    → s < 2 ^ 10
    → IsFlat p n
    → IsFlat (map_pages left addr (s * 2 ^ 22) p) m
      × KeepsPresent p (map_pages left addr (s * 2 ^ 22) p)
unfolding map_pages KeepsPresent
map_pages-IsFlat zero k n m s addr p e start last small word flat =
    (record { one = flat.one; pages = λ i below. flat.pages i (omega arith) }, λ i odd. odd)
map_pages-IsFlat (suc left) k n m s addr p e start last small word flat =
    let v : ℕ = (k * 2 ^ 12 + s * 2 ^ 22) % 2 ^ 32 in
    let (flat1, keep1) =
      map_page-IsFlat p v k n (max n (k + 1)) flat (omega arith) start (omega arith) in
    let (flat2, keep2) =
      map_pages-IsFlat left (k + 1) (max n (k + 1)) m s (k * 2 ^ 12 + 4096)
        (map_page v (k * 2 ^ 12) p) (omega arith) (omega arith) (omega arith) (omega arith) word
        flat1 in
    rw e (flat2, λ i odd. keep2 i (keep1 i odd))

-- A flat table resolves the first 4 MiB to themselves from every present directory entry.
resolve-IsFlat :
    (p : Paging) (s a w : ℕ)
    → w ≡ s * 2 ^ 22 + a
    → IsFlat p (2 ^ 10)
    → p.page_directory s % 2 ≡ 1
    → a < 2 ^ 22
    → resolve p w ≡ some a
resolve-IsFlat p s a w e flat odd small =
    let entry : p.page_directory s ≡ flat.one.frame * 2 ^ 12 + 3 = elim (flat.one.entries s) [
      | inl even ↦ absurd (omega arith)
      | inr is ↦ is
    ] in
    let at : w / 2 ^ 22 ≡ s = omega arith in
    let index : w / 2 ^ 12 % 2 ^ 10 ≡ a / 2 ^ 12 = omega arith in
    let aligned = flat.one.aligned in
    rw (at, index, entry, flat.pages (a / 2 ^ 12) (omega arith), aligned) (ground arith)

identity_loop :
    (left : ℕ) (p : Paging)
    → OneTable p
    → left < 2 ^ 10
    → IsFlat (map_pages (suc left) 0 0 p) (suc left)
      × ((map_pages (suc left) 0 0 p).page_directory 0 % 2 ≡ 1)
unfolding map_pages KeepsPresent
identity_loop left p one small =
    let empty : IsFlat p 0 = record { one = one; pages = λ i below. absurd (omega arith) } in
    let (flat, keep) = map_page-IsFlat p 0 0 0 1 empty (omega arith) (omega arith) (omega arith) in
    let low : (map_page 0 0 p).page_directory 0 % 2 ≡ 1 =
      omega (arith, entry_of p one 0 0 0 (inl (omega arith))) in
    let (flat', keep') =
      map_pages-IsFlat left 1 1 (suc left) 0 4096 (map_page 0 0 p) (omega arith) (omega arith)
        (omega arith) (omega arith) (omega arith) flat in
    (flat', keep' 0 low)

-- With an aligned page table, and a kernel that starts at a page and ends inside the first 4 MiB,
-- `init_paging` makes each byte of the first 4 MiB of physical memory visible at its own address
-- and at the same distance from 0xC0000000.
pub init_paging-resolve :
    (k phys_end directory_physical frame : ℕ) (p : Paging)
    → p.table_physical ≡ frame * 2 ^ 12
    → k * 2 ^ 12 ≤ phys_end
    → phys_end ≤ 2 ^ 22
    → (a : ℕ) → a < 2 ^ 22
    → (resolve (init_paging (k * 2 ^ 12) phys_end directory_physical p).0 a ≡ some a)
      × (resolve (init_paging (k * 2 ^ 12) phys_end directory_physical p).0 (0xC0000000 + a)
          ≡ some a)
unfolding init_paging KeepsPresent
init_paging-resolve k phys_end directory_physical frame p aligned below top a small =
    let cleared = record p { page_directory = λ i. 0 } in
    let one : OneTable cleared = record {
      frame = frame;
      aligned = aligned;
      entries = λ i. inl refl;
    } in
    let (flat, low) = identity_loop 1023 cleared one (omega arith) in
    let identity = map_pages 1024 0 0 cleared in
    let (flat', keep') =
      map_page-IsFlat identity 0xC00B8000 0xB8 (2 ^ 10) (2 ^ 10) flat (omega arith) (omega arith)
        (omega arith) in
    let high : (map_page 0xC00B8000 (0xB8 * 2 ^ 12) identity).page_directory 768 % 2 ≡ 1 =
      omega (arith, entry_of identity flat.one 0xC00B8000 0xB8 768 (inl (omega arith))) in
    let (flat'', keep'') =
      map_pages-IsFlat ((phys_end - k * 2 ^ 12 + 4095) / 4096) k (2 ^ 10) (2 ^ 10) 768 (k * 2 ^ 12)
        (map_page 0xC00B8000 (0xB8 * 2 ^ 12) identity) refl (omega arith) (omega arith)
        (omega arith) (omega arith) flat' in
    (
      resolve-IsFlat _ 0 a a (omega arith) flat'' (keep'' 0 (keep' 0 low)) small,
      resolve-IsFlat _ 768 a (0xC0000000 + a) (omega arith) flat'' (keep'' 768 high) small,
    )
