-- ===== src/Alloc/Walk.antt =====
-- How the loop of `malloc` goes over the free list.
use seli_os.Alloc.{Heap, malloc_loop, take_block}
use seli_os.Alloc.Search.{Chain, Behind, here, there, Behind-le, Behind-Chain, Behind-length}
use seli_os.Prelude.{
  ℕ, zero, suc, ◌+◌, ◌-◌, ◌*◌, ◌≤◌, ◌<◌, ◌≡◌, ◌≢◌, refl, ap, ◌∙◌, inl, inr, Bool, true, false, ◌||◌,
  Option, some, List, [], ◌∷◌, arith, length, ltb, leb, ◌==◌, ==_of_ne, Bool-cases,
}

-- A block of the list is big enough.
abbrev pub any_fit : Heap → ℕ → List ℕ → Bool
any_fit h n [] = false
any_fit h n (b ∷ rest) = leb n (h.size b) || any_fit h n rest

-- The loop takes from block `b`, behind `prev`, which is big enough.
pub record Takes (h : Heap) (n : ℕ) (a : ℕ) (rest : List ℕ) (r : Option (ℕ × Heap)) : Type 0 where
  pub prev : ℕ
  pub block : ℕ
  pub later : List ℕ
  pub place : Behind a rest prev (block ∷ later)
  pub big : n ≤ h.size block
  pub result : r ≡ some (take_block n prev block h)

Behind-trans :
    {a b p : ℕ} {rest more later : List ℕ}
    → Behind a rest b more
    → Behind b more p later
    → Behind a rest p later
Behind-trans here is = is
Behind-trans (there before) is = there (Behind-trans before is)

module _ (h : Heap) (n : ℕ) where
  pub skip :
      (a b fuel : ℕ)
      → h.ptr a ≡ b
      → leb n (h.size b) ≡ false
      → (b == h.freep) ≡ false
      → malloc_loop (suc fuel) n a (h.ptr a) h ≡ malloc_loop fuel n b (h.ptr b) h
  unfolding malloc_loop
  skip a b fuel next small not_freep = rw (next, small, not_freep) refl

  -- Up to a block that is big enough, with no `freep` in between.
  walk_to :
      {a prev b : ℕ} {rest later : List ℕ} (fuel : ℕ)
      → Behind a rest prev (b ∷ later)
      → Chain h a rest
      → n ≤ h.size b
      → ((c : ℕ) → a < c → c ≤ prev → c ≢ h.freep)
      → length rest < fuel
      → Takes h n a rest (malloc_loop fuel n a (h.ptr a) h)
  unfolding malloc_loop
  walk_to zero is chain big passed enough = absurd (omega arith)
  walk_to {a} {b} {later} (suc fuel) here (next, order, chain) big passed enough = record {
    prev = a;
    block = b;
    later = later;
    place = here;
    big = big;
    result = let fits : leb n (h.size b) ≡ true = ground arith in rw (next, fits) refl;
  }
  walk_to {a} {prev} (suc fuel) (there {b = c} {rest = more} is) (next, order, chain) big passed
        enough =
      elim (Bool-cases (leb n (h.size c))) [
        | inl fits ↦ record {
          prev = a;
          block = c;
          later = more;
          place = here;
          big = ground arith;
          result = rw (next, fits) refl;
        }
        | inr small ↦
            let low = Behind-le h is chain in
            let not_freep : (c == h.freep) ≡ false = ==_of_ne c h.freep (passed c order low) in
            let on =
              walk_to fuel is chain big (λ d above below. passed d (omega arith) below)
                (omega arith) in
            record {
              prev = on.prev;
              block = on.block;
              later = on.later;
              place = there on.place;
              big = on.big;
              result = skip a c fuel next small not_freep ∙ on.result;
            }
      ]

  -- Over blocks that are too small, to the end of the list and on to the base.
  pub walk_past :
      (a : ℕ) (rest : List ℕ) (fuel m : ℕ)
      → Chain h a rest
      → h.freep ≤ a
      → h.base ≢ h.freep
      → h.size h.base < n
      → any_fit h n rest ≡ false
      → m ≡ length rest + 1 + fuel
      → malloc_loop m n a (h.ptr a) h ≡ malloc_loop fuel n h.base (h.ptr h.base) h
  unfolding malloc_loop
  walk_past a rest fuel zero chain low other empty none_fits e = absurd (omega arith)
  walk_past a [] fuel (suc m) chain low other empty none_fits e =
      let small : leb n (h.size h.base) ≡ false = ground arith in
      let not_freep = ==_of_ne h.base h.freep other in
      rw (chain, small, not_freep)
        (ap (λ k. malloc_loop k n h.base (h.ptr h.base) h) {x = m} {y = fuel} (omega arith))
  walk_past a (b ∷ rest) fuel (suc m) (next, order, chain) low other empty none_fits e =
      let small : leb n (h.size b) ≡ false = ground arith in
      let others : any_fit h n rest ≡ false = ground arith in
      let not_freep = ==_of_ne b h.freep (λ same. omega arith) in
      rw (next, small, not_freep)
        (walk_past b rest fuel m chain (omega arith) other empty others (omega arith))

  -- A block that is big enough shows in the test.
  any_fit-true :
      {a prev b : ℕ} {rest later : List ℕ}
      → Behind a rest prev (b ∷ later)
      → n ≤ h.size b
      → any_fit h n rest ≡ true
  any_fit-true here big = ground arith
  any_fit-true (there is) big = let rest = any_fit-true is big in ground arith

  fitting :
      (a : ℕ) (rest : List ℕ)
      → any_fit h n rest ≡ true
      → (prev : ℕ) × (b : ℕ) × (later : List ℕ) × Behind a rest prev (b ∷ later) × (n ≤ h.size b)
  fitting a [] e = cc
  fitting a (b ∷ rest) e = elim (Bool-cases (leb n (h.size b))) [
    | inl fits ↦ (a, b, rest, here, ground arith)
    | inr small ↦
        let (prev, c, later, is, big) = fitting b rest (ground arith) in
        (prev, c, later, there is, big)
  ]

  -- What lies at or above `p` lies behind it.
  Behind-above :
      {a p q : ℕ} {rest later more : List ℕ}
      → Behind a rest p later
      → Behind a rest q more
      → Chain h a rest
      → p ≤ q
      → Behind p later q more
  Behind-above here second chain le = second
  Behind-above (there is) here (next, order, chain) le =
      let low = Behind-le h is chain in absurd (omega arith)
  Behind-above (there is) (there is') (next, order, chain) le = Behind-above is is' chain le

  -- A fitting block of which none lies behind `freep` comes before it.
  missed :
      {prev b : ℕ} {rest more : List ℕ} (later : List ℕ)
      → Behind h.base rest prev (b ∷ more)
      → (h.freep ≤ prev → Behind h.freep later prev (b ∷ more))
      → n ≤ h.size b
      → any_fit h n later ≡ false
      → prev < h.freep
  missed {prev} later at behind big far = elim (Bool-cases (ltb prev h.freep)) [
    | inl below ↦ ground arith
    | inr above ↦ let seen = any_fit-true (behind (ground arith)) big in absurd (cc)
  ]

  -- If a block of the list is big enough, the loop of `malloc`, which begins behind `freep`, takes from
  -- such a block.
  pub malloc_loop-Takes :
      (rest later : List ℕ) (fuel : ℕ)
      → Chain h h.base rest
      → Behind h.base rest h.freep later
      → h.size h.base < n
      → any_fit h n rest ≡ true
      → 2 * length rest + 2 ≤ fuel
      → Takes h n h.base rest (malloc_loop fuel n h.freep (h.ptr h.freep) h)
  malloc_loop-Takes rest later fuel chain is empty some_fits enough =
      let short = Behind-length is in
      elim (Bool-cases (any_fit h n later)) [
        | inl near ↦
            let (prev, b, more, at, big) = fitting h.freep later near in
            let took =
              walk_to fuel at (Behind-Chain h is chain) big (λ c above below same. omega arith)
                (omega arith) in
            record {
              prev = took.prev;
              block = took.block;
              later = took.later;
              place = Behind-trans is took.place;
              big = took.big;
              result = took.result;
            }
        | inr far ↦
            let (prev, b, more, at, big) = fitting h.base rest some_fits in
            let before : prev < h.freep = missed later at (Behind-above is at chain) big far in
            let other : h.base ≢ h.freep = λ same. omega (arith, Behind-le h at chain, before) in
            let took =
              walk_to (fuel - (length later + 1)) at chain big (λ c above below same. omega arith)
                (omega arith) in
            record {
              prev = took.prev;
              block = took.block;
              later = took.later;
              place = took.place;
              big = took.big;
              result =
                  walk_past h.freep later (fuel - (length later + 1)) fuel (Behind-Chain h is chain)
                    (omega arith) other empty far (omega arith)
                  ∙ took.result;
            }
      ]
