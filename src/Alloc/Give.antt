-- ===== src/Alloc/Give.antt =====
-- The block that `malloc` gives.
use mathlib.Core.Path.{subst}
use seli_os.Alloc.{Heap, header_plus, set_field, take_block}
use seli_os.Alloc.Insert.{SameFrames, Apart, Apart-end, covers, inside}
use seli_os.Alloc.Search.{Chain, Behind, here, there, Behind-le, Behind-Chain}
use seli_os.Alloc.Take.{Taken, Under, grouped, unlinked, unlinked-Taken, cut-Taken}
use seli_os.Prelude.{
  ℕ, ◌+◌, ◌-◌, ◌*◌, ◌^◌, ◌≤◌, ◌<◌, ◌≡◌, refl, sym, ap, ◌∙◌, inl, inr, true, false, List, ◌∷◌, arith,
  ◌==◌, Bool-cases,
}

-- The part of the list in front of the block stays.
lifted-Taken :
    {h h' : Heap} {n block a prev : ℕ} {rest later : List ℕ}
    → Behind a rest prev later
    → Under h h' prev
    → Chain h a rest
    → Apart h a rest
    → Taken h h' n block prev prev later
    → Taken h h' n block prev a rest
lifted-Taken here under chain apart taken = taken
lifted-Taken {h} {h'} {n} {block} {a} (there {b} {rest} is) under (next, order, chain)
      (before, apart) taken =
    let low = Behind-le h is chain in
    let done = lifted-Taken is under chain apart taken in
    let size = under.size a (omega arith) in
    record {
      list = b ∷ done.list;
      later = done.later;
      chain = (under.ptr a (omega arith) ∙ next, order, done.chain);
      apart = (omega arith, done.apart);
      size = done.size;
      covered = λ x.
          let behind = done.covered x in
          rw (size, behind) (grouped (inside h a x) (covers h' b done.list x) (inside h' block x));
      place = there done.place;
      above = done.above;
      word = done.word;
      clear = (
        let over = Behind-le h is chain in
            let beyond = done.above in inl (omega arith, omega arith),
        done.clear,
      );
      short = (let fewer = done.short in omega arith);
    }

Apart-Behind :
    (h : Heap) {a p : ℕ} {rest later : List ℕ}
    → Behind a rest p later
    → Apart h a rest
    → Apart h p later
Apart-Behind h here apart = apart
Apart-Behind h (there is) (end, apart) = Apart-Behind h is apart

-- What a call gives: the address behind the header of `block`, which has `n` units and is no longer in
-- the free list.
pub record Gives (h : Heap) (n : ℕ) (a : ℕ) (rest : List ℕ) (r : ℕ × Heap) : Type 0 where
  pub block : ℕ
  pub prev : ℕ
  pub address : r.0 ≡ block + 8
  pub base : r.1.base ≡ h.base
  pub freep : r.1.freep ≡ prev
  pub kept : r.1.size a ≡ h.size a
  pub taken : Taken h r.1 n block prev a rest

module _ (h : Heap) (n : ℕ) (some_units : 0 < n) where
  exact-Gives :
      {a prev b : ℕ} {rest later : List ℕ}
      → Behind a rest prev (b ∷ later)
      → Chain h a rest
      → Apart h a rest
      → h.size b ≡ n
      → Gives h n a rest (b + 8, unlinked h n prev b)
  exact-Gives {prev} {b} {later} is chain apart exact = record {
    block = b;
    prev = prev;
    address = refl;
    base = refl;
    freep = refl;
    kept = refl;
    taken =
        lifted-Taken is (record { ptr = λ y low. ground arith; size = λ y low. refl }) chain apart
          (unlinked-Taken h n prev b later (Behind-Chain h is chain) (Apart-Behind h is apart)
            exact);
  }

  abbrev cut : ℕ → ℕ → Heap
  cut prev b = record h {
    size = set_field (set_field h.size b (h.size b - n)) (b + 8 * (h.size b - n)) n;
    freep = prev;
  }

  cut-Gives :
      {a prev b : ℕ} {rest later : List ℕ}
      → Behind a rest prev (b ∷ later)
      → Chain h a rest
      → Apart h a rest
      → n < h.size b
      → Gives h n a rest (b + 8 * (h.size b - n) + 8, cut prev b)
  cut-Gives {a} {prev} {b} {rest} {later} is chain apart big =
      let t = b + 8 * (h.size b - n) in
      let (next, order, chain') = Behind-Chain h is chain in
      record {
        block = t;
        prev = prev;
        address = refl;
        base = refl;
        freep = refl;
        kept = let low = Behind-le h is chain in ground arith;
        taken =
            lifted-Taken is (record { ptr = λ y low. refl; size = λ y low. ground arith }) chain
              apart
              (cut-Taken {h = h} {h' = cut prev b} {n = n} {a = prev} {b = b} {t = t} refl
                (omega arith)
                (record { base = refl; ptr = λ y over. refl; size = λ y over. ground arith }) refl
                refl (ground arith) (ground arith) (ground arith) later some_units big
                (Behind-Chain h is chain) (Apart-Behind h is apart));
      }

  take_block_exact :
      (prev b : ℕ)
      → b + 8 * h.size b < 2 ^ 32
      → h.size b ≡ n
      → take_block n prev b h ≡ (b + 8, unlinked h n prev b)
  unfolding take_block
  take_block_exact prev b end exact =
      let same : (h.size b == n) ≡ true = ground arith in
      rw same (ap (λ k. (k, unlinked h n prev b)) {x = header_plus b 1} {y = b + 8} (omega arith))

  take_block_tail :
      (prev b : ℕ)
      → b + 8 * h.size b < 2 ^ 32
      → n < h.size b
      → take_block n prev b h ≡ (b + 8 * (h.size b - n) + 8, cut prev b)
  unfolding take_block
  take_block_tail prev b end big =
      let other : (h.size b == n) ≡ false = ground arith in
      let result : ℕ → ℕ × Heap = λ k. (
        header_plus k 1,
        record h { size = set_field (set_field h.size b (h.size b - n)) k n; freep = prev },
      ) in
      rw other (
        ap result {x = header_plus b (h.size b - n)} {y = b + 8 * (h.size b - n)} (omega arith)
        ∙ ap (λ k. (k, cut prev b)) {x = header_plus (b + 8 * (h.size b - n)) 1}
            {y = b + 8 * (h.size b - n) + 8} (omega arith))

  pub take_block-Gives :
      {a prev b : ℕ} {rest later : List ℕ}
      → Behind a rest prev (b ∷ later)
      → Chain h a rest
      → Apart h a rest
      → n ≤ h.size b
      → Gives h n a rest (take_block n prev b h)
  take_block-Gives {a} {prev} {b} {rest} {later} is chain apart big =
      let (before, apart_b) = Apart-Behind h is apart in
      let end = Apart-end h b later apart_b in
      elim (Bool-cases (h.size b == n)) [
        | inl exact ↦
            subst (Gives h n a rest) (sym (take_block_exact prev b end (ground arith)))
              (exact-Gives is chain apart (ground arith))
        | inr other ↦
            let more : n < h.size b = ground arith in
            subst (Gives h n a rest) (sym (take_block_tail prev b end more))
              (cut-Gives is chain apart more)
      ]

-- No frame is touched.
pub take_block-SameFrames : (n prev b : ℕ) (h : Heap) → SameFrames h (take_block n prev b h).1
unfolding take_block
take_block-SameFrames n prev b h = elim (Bool-cases (h.size b == n)) [
  | inl exact ↦ rw exact (record { bitmap = refl; paging = refl; heap_end = refl })
  | inr other ↦ rw other (record { bitmap = refl; paging = refl; heap_end = refl })
]
