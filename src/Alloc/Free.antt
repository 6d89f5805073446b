-- ===== src/Alloc/Free.antt =====
-- `free` keeps the free list, and gives it the bytes of the block.
use mathlib.Core.Path.{subst}
use seli_os.Alloc.{Heap, header_plus, search, join_upper, join_lower, free}
use seli_os.Alloc.Insert.{
  Apart, Clear, Disjoint, Inserted, attach, SameFrames, attached-SameFrames, attach-Kept,
  attach-Same, covers, inside, insert_last, insert_middle,
}
use seli_os.Alloc.Walk.{any_fit}
use seli_os.Alloc.Search.{Chain, Behind, there, NotIn, gap, search-gap}
use seli_os.Prelude.{
  ℕ, ◌+◌, ◌-◌, ◌*◌, ◌%◌, ◌^◌, ◌≤◌, ◌<◌, ◌≡◌, ◌≢◌, refl, sym, ap, ◌∙◌, inl, inr, Bool, true, false,
  ◌||◌, Option, some, List, [], ◌∷◌, arith, length, suc, ltb, leb, ◌==◌, ◌>>=◌, Bool-cases,
}

-- The free list: the blocks above the base in the order of their addresses, apart from each other,
-- with no block right behind another, which would have been joined with it, and with `freep` at one of them or at the base, which has no
-- units of its own.
pub record IsFreeList (h : Heap) (rest : List ℕ) : Type 0 where
  pub chain : Chain h h.base rest
  pub apart : Apart h h.base rest
  pub later : List ℕ
  pub place : Behind h.base rest h.freep later
  pub empty : h.size h.base ≡ 0

Clear-below : (h : Heap) (bp a : ℕ) → Clear h bp a → a < bp → a + 8 * h.size a ≤ bp
Clear-below h bp a (inl (lower, end)) below = end
Clear-below h bp a (inr (higher, end)) below = absurd (omega arith)

Clear-above : (h : Heap) (bp a : ℕ) → Clear h bp a → bp ≤ a → (bp < a) × (bp + 8 * h.size bp ≤ a)
Clear-above h bp a (inl (lower, end)) above = absurd (omega arith)
Clear-above h bp a (inr (higher, end)) above = (higher, end)

Clear-ne : (h : Heap) (bp a : ℕ) → Clear h bp a → a ≢ bp
Clear-ne h bp a (inl (lower, end)) e = omega arith
Clear-ne h bp a (inr (higher, end)) e = omega arith

Disjoint-head : (h : Heap) (bp b : ℕ) (rest : List ℕ) → Disjoint h bp b rest → Clear h bp b
Disjoint-head h bp b [] clear = clear
Disjoint-head h bp b (c ∷ rest) (clear, others) = clear

Disjoint-NotIn : (h : Heap) (bp a : ℕ) (rest : List ℕ) → Disjoint h bp a rest → NotIn bp rest
Disjoint-NotIn h bp a [] clear = tt
Disjoint-NotIn h bp a (b ∷ rest) (clear, others) =
    (Clear-ne h bp b (Disjoint-head h bp b rest others), Disjoint-NotIn h bp b rest others)

gap-le : (h : Heap) (bp a : ℕ) (rest : List ℕ) → Chain h a rest → a ≤ gap bp a rest
gap-le h bp a [] chain = omega arith
gap-le h bp a (b ∷ rest) (next, order, chain) = let low = gap-le h bp b rest chain in ground arith

module _ (h : Heap) (bp : ℕ) (low : h.base < bp) (end : bp + 8 * h.size bp < 2 ^ 32) where
  abbrev inserted : ℕ → Heap
  inserted p = attach p bp (attach bp (h.ptr p) h)

  insert_behind :
      (a b p : ℕ) (rest : List ℕ)
      → h.ptr a ≡ b
      → a < b
      → b ≤ p
      → a < bp
      → Apart h a (b ∷ rest)
      → Inserted h (inserted p) bp p b rest
      → Inserted h (inserted p) bp p a (b ∷ rest)
  insert_behind a b p rest next order over below (before, apart) done =
      let kept = attach-Kept bp p (h.ptr p) h in
      let size = kept.size a (λ e. omega arith) (λ e. omega arith) in
      record {
        list = b ∷ done.list;
        later = done.later;
        chain = (kept.ptr a (λ e. omega arith) (λ e. omega arith) ∙ next, order, done.chain);
        apart = (omega arith, done.apart);
        covered = λ x.
            let behind = done.covered x in
            rw (size, behind) (grouped (inside h a x) (covers h b rest x) (inside h bp x));
        short = (let few = done.short in omega arith);
        fits = λ m le. inr (elim (done.fits m le) [
          | inl here ↦ (let big : leb m ((inserted p).size b) ≡ true = ground arith in rw big refl)
          | inr later ↦ rw later (||_true (leb m ((inserted p).size b)))
        ]);
        place = there done.place;
      }
    where
      ||_true : (a : Bool) → (a || true) ≡ true
      ||_true true = refl
      ||_true false = refl

      grouped : (a b c : Bool) → (a || (b || c)) ≡ ((a || b) || c)
      grouped true b c = refl
      grouped false b c = refl

  insert_at :
      (a : ℕ) (rest : List ℕ)
      → a < bp
      → Chain h a rest
      → Apart h a rest
      → Disjoint h bp a rest
      → Inserted h (inserted (gap bp a rest)) bp (gap bp a rest) a rest
  insert_at a [] below chain apart clear =
      subst (λ n. Inserted h (attach a bp (attach bp n h)) bp a a []) (sym chain)
        (insert_last h bp a below (Clear-below h bp a clear below) low end)
  insert_at a (b ∷ rest) below (next, order, chain) (before, apart) (clear, others) =
      elim (Bool-cases (ltb b bp)) [
        | inl lower ↦
            let done = insert_at b rest (ground arith) chain apart others in
            rw lower (
              insert_behind a b (gap bp b rest) rest next order (gap-le h bp b rest chain) below
                (before, apart) done)
        | inr higher ↦
            let (above, after) =
              Clear-above h bp b (Disjoint-head h bp b rest others) (ground arith) in
            rw higher (
              subst (λ n. Inserted h (attach a bp (attach bp n h)) bp a a (b ∷ rest)) (sym next)
                (insert_middle h bp a below (Clear-below h bp a clear below) b rest above after
                  chain apart))
      ]

-- The base never grows.
base-empty :
    (h : Heap) (bp p n : ℕ)
    → h.base < bp
    → bp < 2 ^ 32
    → h.base ≤ p
    → h.size h.base ≡ 0
    → (attach p bp (attach bp n h)).size h.base ≡ 0
base-empty h bp p n low word le empty = elim (Bool-cases (ltb h.base p)) [
  | inl below ↦ (attach-Kept bp p n h).size h.base (λ e. ground arith) (λ e. omega arith) ∙ empty
  | inr above ↦
      let here : h.base ≡ p = ground arith in
      subst (λ q. (attach q bp (attach bp n h)).size h.base ≡ 0) here
        (at_base (attach bp n h) ((attach-Same bp n h).size h.base (λ e. omega arith) ∙ empty))
]
  where
    at_base : (h1 : Heap) → h1.size h.base ≡ 0 → (attach h.base bp h1).size h.base ≡ 0
    at_base h1 none_here =
        let other : (header_plus h.base (h1.size h.base) == bp) ≡ false = ground arith in
        rw other none_here

-- The list does not depend on `freep`.
module _ (h : Heap) (p : ℕ) where
  abbrev moved : Heap
  moved = record h { freep = p }

  Chain-moved : (a : ℕ) (rest : List ℕ) → Chain h a rest → Chain moved a rest
  Chain-moved a [] chain = chain
  Chain-moved a (b ∷ rest) (next, order, chain) = (next, order, Chain-moved b rest chain)

  Apart-moved : (a : ℕ) (rest : List ℕ) → Apart h a rest → Apart moved a rest
  Apart-moved a [] end = end
  Apart-moved a (b ∷ rest) (end, apart) = (end, Apart-moved b rest apart)

  covers-moved : (a : ℕ) (rest : List ℕ) (x : ℕ) → covers moved a rest x ≡ covers h a rest x
  covers-moved a [] x = refl
  covers-moved a (b ∷ rest) x = ap (λ c. inside h a x || c) (covers-moved b rest x)

-- The two joins, with the neighbour as it was before.
free_joins :
    (fuel bp p : ℕ) (h : Heap)
    → bp + 8 < 2 ^ 32
    → search fuel bp h.freep h ≡ some p
    → free fuel (bp + 8) h ≡ some (moved (attach p bp (attach bp (h.ptr p) h)) p)
unfolding free join_upper join_lower
free_joins fuel bp p h word found =
    let finish : ℕ → Option ℕ → Option Heap =
      λ b o. o >>= λ q. some (record (join_lower b q (join_upper b q h)) { freep = q }) in
    let header : (bp + 8 + 2 ^ 32 - 8) % 2 ^ 32 ≡ bp = omega arith in
    ap (λ b. finish b (search fuel b h.freep h)) header ∙ ap (finish bp) found

any_fit-moved : (h : Heap) (p m : ℕ) (rest : List ℕ) → any_fit (moved h p) m rest ≡ any_fit h m rest
any_fit-moved h p m [] = refl
any_fit-moved h p m (b ∷ rest) = ap (λ c. leb m (h.size b) || c) (any_fit-moved h p m rest)

-- `free`, and that the block, alone or joined, is in the list for every request that it fits.
pub free_fits :
    (h : Heap) (bp fuel : ℕ) (rest : List ℕ)
    → IsFreeList h rest
    → h.base < bp
    → bp + 8 < 2 ^ 32
    → bp + 8 * h.size bp < 2 ^ 32
    → Disjoint h bp h.base rest
    → 2 * length rest + 2 ≤ fuel
    → (h' : Heap) × (list : List ℕ) × (free fuel (bp + 8) h ≡ some h')
      × IsFreeList h' list
      × ((x : ℕ) → covers h' h'.base list x ≡ covers h h.base rest x || inside h bp x)
      × ((m : ℕ) → 0 < m → m ≤ h.size bp → any_fit h' m list ≡ true)
      × (h'.base ≡ h.base)
      × (length list ≤ suc (length rest))
      × SameFrames h h'
free_fits h bp fuel rest is low word end clear enough =
    let p = gap bp h.base rest in
    let found =
      search-gap h bp low rest is.later fuel is.chain (Disjoint-NotIn h bp h.base rest clear)
        is.place enough in
    let done = insert_at h bp low end h.base rest low is.chain is.apart clear in
    let joined = attach p bp (attach bp (h.ptr p) h) in
    let base = (attach-Kept bp p (h.ptr p) h).base in
    let same = attached-SameFrames bp p (h.ptr p) h in
    (
      moved joined p,
      done.list,
      free_joins fuel bp p h word found,
      record {
        chain =
            subst (λ a. Chain (moved joined p) a done.list) (sym base)
              (Chain-moved joined p h.base done.list done.chain);
        apart =
            subst (λ a. Apart (moved joined p) a done.list) (sym base)
              (Apart-moved joined p h.base done.list done.apart);
        later = done.later;
        place = subst (λ a. Behind a done.list p done.later) (sym base) done.place;
        empty =
            ap joined.size base
            ∙ base-empty h bp p (h.ptr p) low (omega arith) (gap-le h bp h.base rest is.chain)
                is.empty;
      },
      λ x.
          ap (λ a. covers (moved joined p) a done.list x) base
          ∙ covers-moved joined p h.base done.list x
          ∙ done.covered x,
      λ m some_units le. elim (done.fits m le) [
        | inl base_fits ↦
            (let nothing =
                base-empty h bp p (h.ptr p) low (omega arith) (gap-le h bp h.base rest is.chain)
                  is.empty in
              absurd (omega arith))
        | inr fit ↦ any_fit-moved joined p m done.list ∙ fit
      ],
      base,
      done.short,
      record { bitmap = same.bitmap; paging = same.paging; heap_end = same.heap_end },
    )

-- `free` of a block above the base that overlaps no free block ends within two rounds over the free
-- list, and leaves a free list again, in the order of the addresses and with no two adjacent blocks,
-- which covers exactly the bytes that it covered before and those of the block, header included.
pub free-IsFreeList :
    (h : Heap) (bp fuel : ℕ) (rest : List ℕ)
    → IsFreeList h rest
    → h.base < bp
    → bp + 8 < 2 ^ 32
    → bp + 8 * h.size bp < 2 ^ 32
    → Disjoint h bp h.base rest
    → 2 * length rest + 2 ≤ fuel
    → (h' : Heap) × (list : List ℕ) × (free fuel (bp + 8) h ≡ some h')
      × IsFreeList h' list
      × ((x : ℕ) → covers h' h'.base list x ≡ covers h h.base rest x || inside h bp x)
free-IsFreeList h bp fuel rest is low word end clear enough =
    let (h', list, run, is', covered, fits, base, short, same) =
      free_fits h bp fuel rest is low word end clear enough in
    (h', list, run, is', covered)
