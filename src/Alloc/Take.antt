-- ===== src/Alloc/Take.antt =====
-- `malloc` takes a block out of the free list, and only that.
use seli_os.Alloc.{Heap, set_field}
use seli_os.Alloc.Insert.{
  Apart, Over, Chain-Over, Apart-Over, covers-Over, covers, inside, Disjoint, Apart-end,
}
use seli_os.Alloc.Search.{Chain, Behind, here}
use seli_os.Prelude.{
  ℕ, ◌+◌, ◌-◌, ◌*◌, ◌≤◌, ◌<◌, ◌^◌, ◌≡◌, inl, inr, length, refl, sym, ◌∙◌, Bool, true, false, ◌&&◌,
  ◌||◌, List, [], ◌∷◌, arith, ltb, leb, ==_self,
}

-- The list from `a` on, after `block` of `n` units was taken out of it.
pub record Taken (h h' : Heap) (n block prev : ℕ) (a : ℕ) (rest : List ℕ) : Type 0 where
  pub list : List ℕ
  pub later : List ℕ
  pub chain : Chain h' a list
  pub apart : Apart h' a list
  pub size : h'.size block ≡ n
  pub covered : (x : ℕ) → covers h a rest x ≡ covers h' a list x || inside h' block x
  pub place : Behind a list prev later
  pub above : prev < block
  pub word : block + 8 * n < 2 ^ 32
  pub clear : Disjoint h' block a list
  pub short : length list ≤ length rest

-- The fields below `a` are the same.
pub record Under (h h' : Heap) (a : ℕ) : Type 0 where
  pub ptr : (y : ℕ) → y < a → h'.ptr y ≡ h.ptr y
  pub size : (y : ℕ) → y < a → h'.size y ≡ h.size y

-- A block that ends in front of the list.
Disjoint-above :
    (h : Heap) (q c : ℕ) (rest : List ℕ)
    → q < c
    → q + 8 * h.size q ≤ c
    → Chain h c rest
    → Apart h c rest
    → Disjoint h q c rest
Disjoint-above h q c [] low end chain apart = inr (low, end)
Disjoint-above h q c (d ∷ rest) low end (next, order, chain) (before, apart) =
    (inr (low, end), Disjoint-above h q d rest (omega arith) (omega arith) chain apart)

moved_last : (a b c : Bool) → (a || (b || c)) ≡ ((a || c) || b)
moved_last true b c = refl
moved_last false true true = refl
moved_last false true false = refl
moved_last false false true = refl
moved_last false false false = refl

pub grouped : (a b c : Bool) → (a || (b || c)) ≡ ((a || b) || c)
grouped true b c = refl
grouped false b c = refl

module _ (h : Heap) (n a b : ℕ) where
  abbrev pub unlinked : Heap
  unlinked = record h { ptr = set_field h.ptr a (h.ptr b); freep = a }

  unlinked-Over : Over h unlinked a
  unlinked-Over = record { base = refl; ptr = λ y over. ground arith; size = λ y over. refl }

  -- The whole block.
  pub unlinked-Taken :
      (later : List ℕ)
      → Chain h a (b ∷ later)
      → Apart h a (b ∷ later)
      → h.size b ≡ n
      → Taken h unlinked n b a a (b ∷ later)
  unlinked-Taken [] (next, order, chain) (before, apart) exact = record {
    list = [];
    later = [];
    chain = (let same = ==_self a in rw same refl) ∙ chain;
    apart = omega arith;
    size = exact;
    covered = λ x. refl;
    place = here;
    above = order;
    word = omega arith;
    clear = inl (order, omega arith);
    short = omega arith;
  }
  unlinked-Taken (c ∷ later) (next, order, (next', order', chain)) (before, (after, apart)) exact =
      record {
        list = c ∷ later;
        later = c ∷ later;
        chain = (
          (let same = ==_self a in rw same refl) ∙ next',
          omega arith,
          Chain-Over unlinked-Over c later (omega arith) chain,
        );
        apart = (omega arith, Apart-Over unlinked-Over c later (omega arith) chain apart);
        size = exact;
        covered = λ x.
            let kept = covers-Over unlinked-Over c later x (omega arith) chain in
            rw kept (moved_last (inside h a x) (inside h b x) (covers h c later x));
        place = here;
        above = order;
        word = (let last = Apart-end h c later apart in omega arith);
        clear = (
          inl (order, omega arith),
          Disjoint-above unlinked b c later order' (omega arith)
              (Chain-Over unlinked-Over c later (omega arith) chain)
              (Apart-Over unlinked-Over c later (omega arith) chain apart),
        );
        short = omega arith;
      }

-- The tail end of a block: the front keeps the rest.
two_parts :
    (b s n x : ℕ)
    → n ≤ s
    → (leb b x && ltb x (b + 8 * s)) ≡ (
        (leb b x && ltb x (b + 8 * (s - n)))
        || (leb (b + 8 * (s - n)) x && ltb x (b + 8 * (s - n) + 8 * n)))
two_parts b s n x le = ground arith

split_around : (a b c t : Bool) → (a || ((b || t) || c)) ≡ ((a || (b || c)) || t)
split_around true b c t = refl
split_around false true c t = refl
split_around false false true true = refl
split_around false false true false = refl
split_around false false false true = refl
split_around false false false false = refl

split_last : (a b t : Bool) → (a || (b || t)) ≡ ((a || b) || t)
split_last true b t = refl
split_last false b t = refl

module _ {h h' : Heap} {n a b t : ℕ} (tail : t ≡ b + 8 * (h.size b - n)) (fits : n ≤ h.size b)
    (over : Over h h' t) (ptr_a : h'.ptr a ≡ h.ptr a) (ptr_b : h'.ptr b ≡ h.ptr b)
    (size_a : h'.size a ≡ h.size a) (size_b : h'.size b ≡ h.size b - n)
    (size_t : h'.size t ≡ n) where
  inside_parts : (x : ℕ) → inside h b x ≡ inside h' b x || inside h' t x
  inside_parts x = rw (size_b, size_t, tail) (two_parts b (h.size b) n x fits)

  pub cut-Taken :
      (later : List ℕ)
      → 0 < n
      → n < h.size b
      → Chain h a (b ∷ later)
      → Apart h a (b ∷ later)
      → Taken h h' n t a a (b ∷ later)
  cut-Taken [] some_units more (next, order, chain) (before, apart) = record {
    list = b ∷ [];
    later = b ∷ [];
    chain = (ptr_a ∙ next, order, ptr_b ∙ chain ∙ sym over.base);
    apart = (omega arith, omega arith);
    size = size_t;
    covered = λ x.
        let parts = inside_parts x in
        rw (parts, size_a) (split_last (inside h a x) (inside h' b x) (inside h' t x));
    place = here;
    above = omega arith;
    word = omega arith;
    clear = (inl (omega arith, omega arith), inl (omega arith, omega arith));
    short = omega arith;
  }
  cut-Taken (c ∷ later) some_units more (next, order, (next', order', chain))
        (before, (after, apart)) =
      record {
        list = b ∷ c ∷ later;
        later = b ∷ c ∷ later;
        chain = (
          ptr_a ∙ next,
          order,
          (ptr_b ∙ next', order', Chain-Over over c later (omega arith) chain),
        );
        apart = (omega arith, (omega arith, Apart-Over over c later (omega arith) chain apart));
        size = size_t;
        covered = λ x.
            let parts = inside_parts x in
            let kept = covers-Over over c later x (omega arith) chain in
            rw (parts, size_a, kept)
              (split_around (inside h a x) (inside h' b x) (covers h c later x) (inside h' t x));
        place = here;
        above = omega arith;
        word = (let last = Apart-end h c later apart in omega arith);
        clear = (
          inl (omega arith, omega arith),
          (
            inl (omega arith, omega arith),
            Disjoint-above h' t c later (omega arith) (omega arith)
                (Chain-Over over c later (omega arith) chain)
                (Apart-Over over c later (omega arith) chain apart),
          ),
        );
        short = omega arith;
      }
