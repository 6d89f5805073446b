-- ===== src/Alloc/Insert.antt =====
-- What `free` makes of the free list.
use seli_os.Alloc.{Heap, header_plus, set_field}
use seli_os.Alloc.Walk.{any_fit}
use seli_os.Alloc.Search.{Chain, Behind, here}
use seli_os.Prelude.{
  ℕ, ◌+◌, ◌*◌, ◌%◌, ◌^◌, ◌≤◌, ◌<◌, ◌≡◌, ◌≢◌, ◌⊎◌, refl, sym, ◌∙◌, inl, inr, Bool, true, false, ◌&&◌,
  ◌||◌, length, suc, List, [], ◌∷◌, arith, ltb, leb, ◌==◌, if◌then◌else◌, Bool-cases,
}

-- Each block ends before the next one begins, with a gap between the two, and the last one below 2^32.
abbrev pub Apart : Heap → ℕ → List ℕ → Type 0
Apart h a [] = a + 8 * h.size a < 2 ^ 32
Apart h a (b ∷ rest) = (a + 8 * h.size a < b) × Apart h b rest

-- Address `x` lies in block `a`.
abbrev pub inside : Heap → ℕ → ℕ → Bool
inside h a x = leb a x && ltb x (a + 8 * h.size a)

-- Address `x` lies in a block of the list.
abbrev pub covers : Heap → ℕ → List ℕ → ℕ → Bool
covers h a [] x = inside h a x
covers h a (b ∷ rest) x = inside h a x || covers h b rest x

-- Block `q` is put in front of block `n`, or joined with it.
abbrev pub attach : ℕ → ℕ → Heap → Heap
attach q n h =
    if header_plus q (h.size q) == n
    then record h {
      size = set_field h.size q ((h.size q + h.size n) % 2 ^ 32);
      ptr = set_field h.ptr q (h.ptr n);
    }
    else record h { ptr = set_field h.ptr q n }

-- The two lists have the same fields but for block `q`.
pub record Same (h h' : Heap) (q : ℕ) : Type 0 where
  pub base : h'.base ≡ h.base
  pub ptr : (y : ℕ) → y ≢ q → h'.ptr y ≡ h.ptr y
  pub size : (y : ℕ) → y ≢ q → h'.size y ≡ h.size y

pub attach-Same : (q n : ℕ) (h : Heap) → Same h (attach q n h) q
attach-Same q n h = elim (Bool-cases (header_plus q (h.size q) == n)) [
  | inl joined ↦
      rw joined (record { base = refl; ptr = λ y ne. ground arith; size = λ y ne. ground arith })
  | inr apart ↦ rw apart (record { base = refl; ptr = λ y ne. ground arith; size = λ y ne. refl })
]

-- The two heaps have the same frames, tables and end.
pub record SameFrames (h h' : Heap) : Type 0 where
  pub bitmap : h'.bitmap ≡ h.bitmap
  pub paging : h'.paging ≡ h.paging
  pub heap_end : h'.heap_end ≡ h.heap_end

attach-SameFrames : (q n : ℕ) (h : Heap) → SameFrames h (attach q n h)
attach-SameFrames q n h = elim (Bool-cases (header_plus q (h.size q) == n)) [
  | inl joined ↦ rw joined (record { bitmap = refl; paging = refl; heap_end = refl })
  | inr apart ↦ rw apart (record { bitmap = refl; paging = refl; heap_end = refl })
]

pub attached-SameFrames : (bp p n : ℕ) (h : Heap) → SameFrames h (attach p bp (attach bp n h))
attached-SameFrames bp p n h =
    let one = attach-SameFrames bp n h in
    let two = attach-SameFrames p bp (attach bp n h) in
    record {
      bitmap = two.bitmap ∙ one.bitmap;
      paging = two.paging ∙ one.paging;
      heap_end = two.heap_end ∙ one.heap_end;
    }

-- They have the same fields above `q`.
pub record Over (h h' : Heap) (q : ℕ) : Type 0 where
  pub base : h'.base ≡ h.base
  pub ptr : (y : ℕ) → q < y → h'.ptr y ≡ h.ptr y
  pub size : (y : ℕ) → q < y → h'.size y ≡ h.size y

Same-Over : {h h' : Heap} {q : ℕ} → Same h h' q → Over h h' q
Same-Over same = record {
  base = same.base;
  ptr = λ y over. same.ptr y (λ e. omega arith);
  size = λ y over. same.size y (λ e. omega arith);
}

-- A list whose blocks lie above `q` is the same after a change up to `q`.
module _ {h h' : Heap} {q : ℕ} (same : Over h h' q) where
  pub Chain-Over : (a : ℕ) (rest : List ℕ) → q < a → Chain h a rest → Chain h' a rest
  Chain-Over a [] over chain = same.ptr a over ∙ chain ∙ sym same.base
  Chain-Over a (b ∷ rest) over (next, order, chain) =
      (same.ptr a over ∙ next, order, Chain-Over b rest (omega arith) chain)

  pub Apart-Over :
      (a : ℕ) (rest : List ℕ) → q < a → Chain h a rest → Apart h a rest → Apart h' a rest
  Apart-Over a [] over chain end = let size = same.size a over in omega arith
  Apart-Over a (b ∷ rest) over (next, order, chain) (end, apart) =
      let size = same.size a over in (omega arith, Apart-Over b rest (omega arith) chain apart)

  pub covers-Over :
      (a : ℕ) (rest : List ℕ) (x : ℕ)
      → q < a
      → Chain h a rest
      → covers h' a rest x ≡ covers h a rest x
  covers-Over a [] x over chain = let size = same.size a over in rw size refl
  covers-Over a (b ∷ rest) x over (next, order, chain) =
      let size = same.size a over in rw (size, covers-Over b rest x (omega arith) chain) refl

fits_first : (h : Heap) (m n : ℕ) (rest : List ℕ) → m ≤ h.size n → any_fit h m (n ∷ rest) ≡ true
fits_first h m n rest le = ground arith

-- The list behind `q` after it was attached to block `n`.
record Attached (h h' : Heap) (q n : ℕ) (rest : List ℕ) : Type 0 where
  list : List ℕ
  chain : Chain h' q list
  apart : Apart h' q list
  short : length list ≤ suc (length rest)
  grows : h.size q ≤ h'.size q
  fits : (m : ℕ) → m ≤ h.size n → (m ≤ h'.size q) ⊎ (any_fit h' m list ≡ true)
  covered : (x : ℕ) → covers h' q list x ≡ inside h q x || covers h n rest x

pub Apart-end : (h : Heap) (a : ℕ) (rest : List ℕ) → Apart h a rest → a + 8 * h.size a < 2 ^ 32
Apart-end h a [] end = end
Apart-end h a (b ∷ rest) (end, apart) = omega (arith, Apart-end h b rest apart)

module _ {h h' : Heap} {q n : ℕ} (same : Same h h' q) (order : q < n)
    (end : q + 8 * h.size q ≤ n) where
  joined-Attached :
      (rest : List ℕ)
      → h'.ptr q ≡ h.ptr n
      → h'.size q ≡ h.size q + h.size n
      → q + 8 * h.size q ≡ n
      → Chain h n rest
      → Apart h n rest
      → Attached h h' q n rest
  joined-Attached [] ptr size meets chain apart = record {
    list = [];
    chain = ptr ∙ chain ∙ sym same.base;
    apart = omega arith;
    short = omega arith;
    grows = omega arith;
    fits = λ m le. inl (omega arith);
    covered = λ x. rw size (ground arith);
  }
  joined-Attached (c ∷ rest) ptr size meets (next, above, chain) (before, apart) = record {
    list = c ∷ rest;
    chain = (ptr ∙ next, omega arith, Chain-Over (Same-Over same) c rest (omega arith) chain);
    apart = (omega arith, Apart-Over (Same-Over same) c rest (omega arith) chain apart);
    short = omega arith;
    grows = omega arith;
    fits = λ m le. inl (omega arith);
    covered = λ x.
        let kept = covers-Over (Same-Over same) c rest x (omega arith) chain in
        rw (size, kept) (three_parts x (h.size q) (h.size n) (covers h c rest x) meets);
  }
    where
      three_parts :
          (x s t : ℕ) (others : Bool)
          → q + 8 * s ≡ n
          → ((leb q x && ltb x (q + 8 * (s + t))) || others)
            ≡ ((leb q x && ltb x (q + 8 * s)) || ((leb n x && ltb x (n + 8 * t)) || others))
      three_parts x s t true e = ground arith
      three_parts x s t false e = ground arith

  spaced-Attached :
      (rest : List ℕ)
      → h'.ptr q ≡ n
      → h'.size q ≡ h.size q
      → q + 8 * h.size q ≢ n
      → Chain h n rest
      → Apart h n rest
      → Attached h h' q n rest
  spaced-Attached rest ptr size spaced chain apart = record {
    list = n ∷ rest;
    chain = (ptr, order, Chain-Over (Same-Over same) n rest order chain);
    apart = (omega (arith, spaced), Apart-Over (Same-Over same) n rest order chain apart);
    short = omega arith;
    grows = omega arith;
    fits = λ m le.
        inr (fits_first h' m n rest (let kept = same.size n (λ e. omega arith) in omega arith));
    covered =
        λ x. let kept = covers-Over (Same-Over same) n rest x order chain in rw (size, kept) refl;
  }

attach-Attached :
    (q n : ℕ) (rest : List ℕ) (h : Heap)
    → q < n
    → q + 8 * h.size q ≤ n
    → Chain h n rest
    → Apart h n rest
    → Attached h (attach q n h) q n rest
attach-Attached q n rest h order end chain apart =
    let last = Apart-end h n rest apart in
    let same = attach-Same q n h in
    elim (Bool-cases (header_plus q (h.size q) == n)) [
      | inl joined ↦
          joined-Attached same order end rest (rw joined (ground arith)) (rw joined (ground arith))
            (ground arith) chain apart
      | inr other ↦
          spaced-Attached same order end rest (rw other (ground arith)) (rw other refl)
            (λ meets. ground arith) chain apart
    ]

-- Block `y` and the block `bp` do not overlap.
abbrev pub Clear : Heap → ℕ → ℕ → Type 0
Clear h bp y = ((y < bp) × (y + 8 * h.size y ≤ bp)) ⊎ ((bp < y) × (bp + 8 * h.size bp ≤ y))

abbrev pub Disjoint : Heap → ℕ → ℕ → List ℕ → Type 0
Disjoint h bp a [] = Clear h bp a
Disjoint h bp a (b ∷ rest) = Clear h bp a × Disjoint h bp b rest

-- The list from `p` on, after block `bp` was put into it, and the blocks that it had.
pub record Inserted (h h' : Heap) (bp p : ℕ) (a : ℕ) (rest : List ℕ) : Type 0 where
  pub list : List ℕ
  pub later : List ℕ
  pub chain : Chain h' a list
  pub apart : Apart h' a list
  pub covered : (x : ℕ) → covers h' a list x ≡ covers h a rest x || inside h bp x
  pub short : length list ≤ suc (length rest)
  pub fits : (m : ℕ) → m ≤ h.size bp → (m ≤ h'.size a) ⊎ (any_fit h' m list ≡ true)
  pub place : Behind a list p later

-- `free` changes the fields of the block and of its lower neighbour alone.
pub record Kept (h h' : Heap) (bp p : ℕ) : Type 0 where
  pub base : h'.base ≡ h.base
  pub ptr : (y : ℕ) → y ≢ p → y ≢ bp → h'.ptr y ≡ h.ptr y
  pub size : (y : ℕ) → y ≢ p → y ≢ bp → h'.size y ≡ h.size y

pub attach-Kept : (bp p n : ℕ) (h : Heap) → Kept h (attach p bp (attach bp n h)) bp p
attach-Kept bp p n h =
    let one = attach-Same bp n h in
    let two = attach-Same p bp (attach bp n h) in
    record {
      base = two.base ∙ one.base;
      ptr = λ y ne ne'. two.ptr y ne ∙ one.ptr y ne';
      size = λ y ne ne'. two.size y ne ∙ one.size y ne';
    }

-- In front of the base there is nothing to join with.
attach_last :
    (q : ℕ) (h : Heap)
    → h.base < q
    → q + 8 * h.size q < 2 ^ 32
    → (Chain (attach q h.base h) q []) × ((attach q h.base h).size q ≡ h.size q)
attach_last q h low end =
    let other : (header_plus q (h.size q) == h.base) ≡ false = ground arith in
    (rw other (ground arith), rw other refl)

swapped : (a b c : Bool) → (a || (b || c)) ≡ ((a || c) || b)
swapped true b c = refl
swapped false true true = refl
swapped false true false = refl
swapped false false true = refl
swapped false false false = refl

module _ (h : Heap) (bp p : ℕ) (below : p < bp) (before : p + 8 * h.size p ≤ bp) where
  pub insert_last :
      h.base < bp
      → bp + 8 * h.size bp < 2 ^ 32
      → Inserted h (attach p bp (attach bp h.base h)) bp p p []
  insert_last low end =
      let (chain, size) = attach_last bp h low end in
      let h1 = attach bp h.base h in
      let same = attach-Same bp h.base h in
      let size_p = same.size p (λ e. omega arith) in
      let done = attach-Attached p bp [] h1 below (omega arith) chain (omega arith) in
      record {
        list = done.list;
        later = done.list;
        chain = done.chain;
        apart = done.apart;
        covered = λ x. done.covered x ∙ rw (size, size_p) refl;
        short = done.short;
        fits = λ m le. done.fits m (omega arith);
        place = here;
      }

  pub insert_middle :
      (b : ℕ) (rest : List ℕ)
      → bp < b
      → bp + 8 * h.size bp ≤ b
      → Chain h b rest
      → Apart h b rest
      → Inserted h (attach p bp (attach bp b h)) bp p p (b ∷ rest)
  insert_middle b rest above after chain apart =
      let h1 = attach bp b h in
      let same = attach-Same bp b h in
      let size_p = same.size p (λ e. omega arith) in
      let one = attach-Attached bp b rest h above after chain apart in
      let done = attach-Attached p bp one.list h1 below (omega arith) one.chain one.apart in
      record {
        list = done.list;
        later = done.list;
        chain = done.chain;
        apart = done.apart;
        covered = λ x.
            let behind = one.covered x in
            done.covered x
            ∙ rw (size_p, behind) (swapped (inside h p x) (inside h bp x) (covers h b rest x));
        short = (let fewer = one.short in let few = done.short in omega arith);
        fits = λ m le. (let grown = one.grows in done.fits m (omega arith));
        place = here;
      }
