-- ===== src/Alloc/Search.antt =====
-- Where `free` puts a block in the free list.
use seli_os.Alloc.{Heap, search}
use seli_os.Prelude.{
  ℕ, zero, suc, ◌+◌, ◌-◌, ◌*◌, ◌≤◌, ◌<◌, ◌≡◌, ◌≢◌, refl, sym, ap, ◌∙◌, inl, inr, some, List, [],
  ◌∷◌, arith, length, ltb, if◌then◌else◌, Bool-cases,
}

-- The free list from block `a` on: the blocks of `rest` in the order of their addresses, and then the
-- list's base again.
abbrev pub Chain : Heap → ℕ → List ℕ → Type 0
Chain h a [] = h.ptr a ≡ h.base
Chain h a (b ∷ rest) = (h.ptr a ≡ b) × (a < b) × Chain h b rest

-- `p` is `a` or a block of the list behind it, and `later` is what is behind `p`.
pub data Behind : ℕ → List ℕ → ℕ → List ℕ → Type 0 where
  here : {a : ℕ} {rest : List ℕ} → Behind a rest a rest
  there : {a b p : ℕ} {rest later : List ℕ} → Behind b rest p later → Behind a (b ∷ rest) p later

abbrev pub NotIn : ℕ → List ℕ → Type 0
NotIn bp [] = Unit {0}
NotIn bp (b ∷ rest) = (b ≢ bp) × NotIn bp rest

-- The last block below `bp`.
abbrev pub gap : ℕ → ℕ → List ℕ → ℕ
gap bp a [] = a
gap bp a (b ∷ rest) = if ltb b bp then gap bp b rest else a

pub Behind-le :
    (h : Heap) {a p : ℕ} {rest later : List ℕ} → Behind a rest p later → Chain h a rest → a ≤ p
Behind-le h here chain = omega arith
Behind-le h (there is) (next, order, chain) = omega (arith, Behind-le h is chain)

pub Behind-Chain :
    (h : Heap) {a p : ℕ} {rest later : List ℕ}
    → Behind a rest p later
    → Chain h a rest
    → Chain h p later
Behind-Chain h here chain = chain
Behind-Chain h (there is) (next, order, chain) = Behind-Chain h is chain

pub Behind-length :
    {a p : ℕ} {rest later : List ℕ} → Behind a rest p later → length later ≤ length rest
Behind-length here = omega arith
Behind-length (there is) = omega (arith, Behind-length is)

module _ (h : Heap) (bp : ℕ) (above : h.base < bp) where
  search_below :
      (a : ℕ) (rest : List ℕ) (fuel : ℕ)
      → Chain h a rest
      → h.base ≤ a
      → a < bp
      → NotIn bp rest
      → length rest < fuel
      → search fuel bp a h ≡ some (gap bp a rest)
  unfolding search
  search_below a [] zero chain low below out enough = absurd (omega arith)
  search_below a [] (suc fuel) chain low below out enough = rw chain (ground arith)
  search_below a (b ∷ rest) zero chain low below out enough = absurd (omega arith)
  search_below a (b ∷ rest) (suc fuel) (next, order, chain) low below (ne, out) enough =
      elim (Bool-cases (ltb b bp)) [
        | inl lower ↦
            let later =
              search_below b rest fuel chain (omega arith) (ground arith) out (omega arith) in
            rw next (ground (arith, later))
        | inr higher ↦ rw next (ground arith)
      ]

  -- Above `bp` the search goes on to the end of the list, and from there to its base.
  search_above :
      (a : ℕ) (rest : List ℕ) (fuel n : ℕ)
      → Chain h a rest
      → h.base < bp
      → bp < a
      → n ≡ length rest + 1 + fuel
      → search n bp a h ≡ search fuel bp h.base h
  unfolding search
  search_above a rest fuel zero chain low over e = absurd (omega arith)
  search_above a [] fuel (suc n) chain low over e =
      let same = ap (λ k. search k bp h.base h) {x = n} {y = fuel} (omega arith) in
      rw chain (ground (arith, same))
  search_above a (b ∷ rest) fuel (suc n) (next, order, chain) low over e =
      let later = search_above b rest fuel n chain low (omega arith) (omega arith) in
      rw next (ground (arith, later))

  Behind-NotIn :
      {a p : ℕ} {rest later : List ℕ} → Behind a rest p later → NotIn bp rest → NotIn bp later
  Behind-NotIn here out = out
  Behind-NotIn (there is) (ne, out) = Behind-NotIn is out

  gap-Behind :
      {a p : ℕ} {rest later : List ℕ}
      → Behind a rest p later
      → Chain h a rest
      → p < bp
      → gap bp a rest ≡ gap bp p later
  gap-Behind here chain below = refl
  gap-Behind (there is) (next, order, chain) below =
      let low = Behind-le h is chain in let rest = gap-Behind is chain below in ground arith

  Behind-ne :
      {a p : ℕ} {rest later : List ℕ} → Behind a rest p later → a ≢ bp → NotIn bp rest → p ≢ bp
  Behind-ne here ne out = ne
  Behind-ne (there is) ne (ne', out) = Behind-ne is ne' out

  -- On a free list in the order of the addresses the loop of `free` ends, wherever `freep` points to,
  -- within two rounds over the list, and finds the last free block below the one that is freed, which
  -- lies above the base and is not free.
  pub search-gap :
      (rest later : List ℕ) (fuel : ℕ)
      → Chain h h.base rest
      → NotIn bp rest
      → Behind h.base rest h.freep later
      → 2 * length rest + 2 ≤ fuel
      → search fuel bp h.freep h ≡ some (gap bp h.base rest)
  search-gap rest later fuel chain out is enough = elim (Bool-cases (ltb h.freep bp)) [
    | inl below ↦
        let short = Behind-length is in
        search_below h.freep later fuel (Behind-Chain h is chain) (Behind-le h is chain)
          (ground arith) (Behind-NotIn is out) (omega arith)
        ∙ ap some (sym (gap-Behind is chain (ground arith)))
    | inr over ↦
        let short = Behind-length is in
        let other = Behind-ne is (λ e. ground arith) out in
        search_above h.freep later (fuel - (length later + 1)) fuel (Behind-Chain h is chain) above
          (ground arith) (omega arith)
        ∙ search_below h.base rest (fuel - (length later + 1)) chain (omega arith) above out
            (omega arith)
  ]
