-- ===== src/Alloc/Round.antt =====
-- The loop of `malloc` where no block is big enough: once around the free list, and then `morecore`.
use seli_os.Alloc.{Heap, morecore, malloc_loop}
use seli_os.Alloc.Search.{Chain, Behind, here, there, Behind-le, Behind-length, Behind-Chain}
use seli_os.Alloc.Free.{IsFreeList}
use seli_os.Alloc.Walk.{any_fit, skip, walk_past}
use seli_os.Prelude.{
  ℕ, zero, suc, ◌+◌, ◌-◌, ◌≤◌, ◌<◌, ◌≡◌, ◌≢◌, refl, sym, ap, ◌∙◌, inl, inr, true, false, Option,
  some, List, [], ◌∷◌, arith, length, leb, ◌==◌, if◌then◌else◌, ◌>>=◌, ==_of_ne, ==_self, ==_iff,
  Bool-cases,
}

-- The branch that grows the heap, with the fuel that is left.
pub grow : ℕ → ℕ → Heap → Option (ℕ × Heap)
grow left n h = do
  (q, grown) ← morecore left n h
  let again = malloc_loop left n q (grown.ptr q) grown
  if q == 0 then some (0, grown) else again

module _ (h : Heap) (n : ℕ) where
  at_freep :
      (a b fuel : ℕ)
      → h.ptr a ≡ b
      → leb n (h.size b) ≡ false
      → b ≡ h.freep
      → malloc_loop (suc fuel) n a (h.ptr a) h ≡ grow fuel n h
  unfolding malloc_loop grow
  at_freep a b fuel next small at =
      let stops : (b == h.freep) ≡ true = ap (λ k. k == h.freep) at ∙ ==_self h.freep in
      rw (next, small, stops) refl

  -- From a block below `freep` up to it.
  walk_up :
      {a p : ℕ} {rest later : List ℕ} (fuel m : ℕ)
      → Behind a rest p later
      → p ≡ h.freep
      → a < p
      → Chain h a rest
      → any_fit h n rest ≡ false
      → m + length later ≡ length rest + fuel
      → malloc_loop m n a (h.ptr a) h ≡ grow fuel n h
  walk_up fuel m here is below chain none_fits e = absurd (omega arith)
  walk_up fuel zero (there is) at below chain none_fits e =
      let short = Behind-length is in absurd (omega arith)
  walk_up {a} {p} fuel (suc m) (there {b} here) at below (next, order, chain) none_fits e =
      let small : leb n (h.size b) ≡ false = ground arith in
      ap (λ k. malloc_loop (suc k) n a (h.ptr a) h) {x = m} {y = fuel} (omega arith)
      ∙ at_freep a b fuel next small at
  walk_up {a} {p} fuel (suc m) (there {b} (there {b = c} {rest = more} is)) at below
        (next, order, chain) none_fits e =
      let small : leb n (h.size b) ≡ false = ground arith in
      let others : any_fit h n (c ∷ more) ≡ false = ground arith in
      let (next', order', chain') = chain in
      let low = Behind-le h is chain' in
      skip h n a b m next small (==_of_ne b h.freep (λ same. omega arith))
      ∙ walk_up fuel m (there is) at (omega arith) chain others (omega arith)

  -- From the base around to the base.
  walk_home :
      (a : ℕ) (rest : List ℕ) (fuel m : ℕ)
      → Chain h a rest
      → h.freep ≡ h.base
      → h.base ≤ a
      → h.size h.base < n
      → any_fit h n rest ≡ false
      → m ≡ length rest + 1 + fuel
      → malloc_loop m n a (h.ptr a) h ≡ grow fuel n h
  walk_home a rest fuel zero chain home low empty none_fits e = absurd (omega arith)
  walk_home a [] fuel (suc m) chain home low empty none_fits e =
      let small : leb n (h.size h.base) ≡ false = ground arith in
      ap (λ k. malloc_loop (suc k) n a (h.ptr a) h) {x = m} {y = fuel} (omega arith)
      ∙ at_freep a h.base fuel chain small (sym home)
  walk_home a (b ∷ rest) fuel (suc m) (next, order, chain) home low empty none_fits e =
      let small : leb n (h.size b) ≡ false = ground arith in
      let others : any_fit h n rest ≡ false = ground arith in
      skip h n a b m next small (==_of_ne b h.freep (λ same. omega arith))
      ∙ walk_home b rest fuel m chain home (omega arith) empty others (omega arith)

any_fit-Behind :
    (h : Heap) (n : ℕ) {a p : ℕ} {rest later : List ℕ}
    → Behind a rest p later
    → any_fit h n rest ≡ false
    → any_fit h n later ≡ false
any_fit-Behind h n here none_fits = none_fits
any_fit-Behind h n (there is) none_fits = any_fit-Behind h n is (ground arith)

-- Where no block is big enough, the loop asks `morecore` after one round.
pub malloc_loop_round :
    (h : Heap) (n fuel m : ℕ) (rest : List ℕ)
    → IsFreeList h rest
    → 0 < n
    → any_fit h n rest ≡ false
    → m ≡ length rest + 1 + fuel
    → malloc_loop m n h.freep (h.ptr h.freep) h ≡ grow fuel n h
malloc_loop_round h n fuel m rest is some_units none_fits e =
    let low = Behind-le h is.place is.chain in
    let empty = is.empty in
    elim (Bool-cases (h.freep == h.base)) [
      | inl same ↦
          let home = (==_iff h.freep h.base).0 same in
          ap (λ a. malloc_loop m n a (h.ptr a) h) home
          ∙ walk_home h n h.base rest fuel m is.chain home (omega arith) (omega arith) none_fits e
      | inr other ↦
          let ahead : h.base < h.freep = ground arith in
          let short = Behind-length is.place in
          let left = length rest - length is.later + fuel in
          walk_past h n h.freep is.later left m (Behind-Chain h is.place is.chain) (omega arith)
            (λ same. omega arith) (omega arith) (any_fit-Behind h n is.place none_fits)
            (omega arith)
          ∙ walk_up h n fuel left is.place refl ahead is.chain none_fits (omega arith)
    ]

pub grow_run :
    (left n : ℕ) (h g : Heap)
    → morecore left n h ≡ some (g.freep, g)
    → g.freep ≢ 0
    → grow left n h ≡ malloc_loop left n g.freep (g.ptr g.freep) g
unfolding grow
grow_run left n h g more ne = rw (more, ◌>>=◌, ==_of_ne g.freep 0 ne) refl

pub grow_null :
    (left n : ℕ) (h g : Heap) → morecore left n h ≡ some (0, g) → grow left n h ≡ some (0, g)
unfolding grow
grow_null left n h g more = rw (more, ◌>>=◌) refl
