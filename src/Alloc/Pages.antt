-- ===== src/Alloc/Pages.antt =====
-- The pages that `morecore` puts behind the heap.
use seli_os.Alloc.{Heap}
use seli_os.Memory.{Bitmap}
use seli_os.Memory.Frames.{used, IsUpdated}
use seli_os.Memory.Room.{free_frames}
use seli_os.Paging.{Paging, map_page}
use seli_os.Paging.Map.{OneTable, resolve, resolve-map_page, resolve-map_page_other}
use seli_os.Prelude.{
  ℕ, zero, suc, ◌+◌, ◌*◌, ◌/◌, ◌%◌, ◌^◌, ◌≤◌, ◌<◌, ◌≡◌, ◌≢◌, ◌⊎◌, refl, sym, ap, ◌∙◌, inl, inr,
  Bool, true, false, some, arith, ◌==◌, if◌then◌else◌, Bool-cases, ==_self,
}

-- The heap with more frames behind its end.
abbrev pub extended : Heap → Bitmap → Paging → ℕ → Heap
extended h b p e = record h { bitmap = b; paging = p; heap_end = e }

-- From a heap that ends at page `first` behind 0xC0400000, `n` frames were taken and mapped behind the
-- end, in order. The frames were free and are in use, no two of them are the same, and no other frame
-- was given back. The addresses off those pages of their 4 MiB resolve as before: those of the kernel from
-- 0xC0100000 on, and those of the heap below its old end.
pub record GrownBy (h : Heap) (first n : ℕ) (b : Bitmap) (p : Paging) : Type 0 where
  pub frame : ℕ → ℕ
  pub mapped :
      (j i : ℕ)
      → j < n
      → i < 4096
      → resolve p (h.heap_end + 4096 * j + i) ≡ some (frame j * 4096 + i)
  pub fresh : (j : ℕ) → j < n → used h.bitmap (frame j) ≡ false
  pub taken : (j : ℕ) → j < n → used b (frame j) ≡ true
  pub distinct : (i j : ℕ) → i < n → j < n → frame i ≡ frame j → i ≡ j
  pub still : (k : ℕ) → used h.bitmap k ≡ true → used b k ≡ true
  pub count : free_frames h.bitmap ≡ n + free_frames b
  pub one : OneTable p
  pub kept :
      (w a : ℕ)
      → (w / 2 ^ 12 % 2 ^ 10 < first) ⊎ (first + n ≤ w / 2 ^ 12 % 2 ^ 10)
      → resolve h.paging w ≡ some a
      → resolve p w ≡ some a

pub grown_none : (h : Heap) (first : ℕ) → OneTable h.paging → GrownBy h first 0 h.bitmap h.paging
grown_none h first one = record {
  frame = λ j. 0;
  mapped = λ j i low small. absurd (omega arith);
  fresh = λ j low. absurd (omega arith);
  taken = λ j low. absurd (omega arith);
  distinct = λ i j low low' e. absurd (omega arith);
  still = λ k busy. busy;
  count = omega arith;
  one = one;
  kept = λ w a outside e. e;
}

shifted : ℕ → (ℕ → ℕ) → ℕ → ℕ
shifted f frame zero = f
shifted f frame (suc j) = frame j

-- One frame more in front.
module _ (h : Heap) (first f n : ℕ) (b b' : Bitmap) (p : Paging) (one : OneTable h.paging)
    (at : h.heap_end ≡ 0xC0400000 + 4096 * first) (low : first + suc n ≤ 256)
    (unused : used h.bitmap f ≡ false) (updated : IsUpdated h.bitmap f true b)
    (one_less : free_frames h.bitmap ≡ suc (free_frames b)) where
  abbrev pub next : Heap
  next = extended h b (map_page h.heap_end (f * 4096) h.paging) (h.heap_end + 4096)

  module _ (later : GrownBy next (first + 1) n b' p) where
    was_free : (k : ℕ) → used b k ≡ false → (used h.bitmap k ≡ false) × (k ≢ f)
    was_free k free = elim (Bool-cases (f == k)) [
      | inl same ↦ let now : used b k ≡ true = updated.frames k ∙ rw same refl in absurd (cc)
      | inr other ↦ (
        sym (updated.frames k ∙ rw other refl) ∙ free,
        λ e. (let again : (f == k) ≡ true = rw e (==_self f) in absurd (cc)),
      )
    ]

    busy : used b f ≡ true
    busy = updated.frames f ∙ rw (==_self f) refl

    still_used : (k : ℕ) → used h.bitmap k ≡ true → used b k ≡ true
    still_used k before = updated.frames k ∙ rw before (always (f == k))
      where
        always : (c : Bool) → (if c then true else true) ≡ true
        always true = refl
        always false = refl

    first_page : (w i : ℕ) → i < 4096 → w ≡ h.heap_end + i → resolve p w ≡ some (f * 4096 + i)
    first_page w i small is =
        let page = resolve-map_page h.paging one h.heap_end f w (inl (omega arith)) (omega arith) in
        let offset : w % 2 ^ 12 ≡ i = omega arith in
        later.kept w (f * 4096 + i) (inl (omega arith))
          (page ∙ ap (λ k. some (f * 4096 + k)) offset)

    mapped_at :
        (j i : ℕ)
        → j < suc n
        → i < 4096
        → resolve p (h.heap_end + 4096 * j + i) ≡ some (shifted f later.frame j * 4096 + i)
    unfolding shifted
    mapped_at zero i inside small = first_page (h.heap_end + 4096 * 0 + i) i small (omega arith)
    mapped_at (suc j) i inside small =
        ap (resolve p) {x = h.heap_end + 4096 * suc j + i} {y = h.heap_end + 4096 + 4096 * j + i}
          (omega arith)
        ∙ later.mapped j i (omega arith) small

    fresh_at : (j : ℕ) → j < suc n → used h.bitmap (shifted f later.frame j) ≡ false
    unfolding shifted
    fresh_at zero inside = unused
    fresh_at (suc j) inside = (was_free (later.frame j) (later.fresh j (omega arith))).0

    taken_at : (j : ℕ) → j < suc n → used b' (shifted f later.frame j) ≡ true
    unfolding shifted
    taken_at zero inside = later.still f busy
    taken_at (suc j) inside = later.taken j (omega arith)

    distinct_at :
        (i j : ℕ)
        → i < suc n
        → j < suc n
        → shifted f later.frame i ≡ shifted f later.frame j
        → i ≡ j
    unfolding shifted
    distinct_at zero zero hi hj e = refl
    distinct_at zero (suc j) hi hj e =
        absurd ((was_free (later.frame j) (later.fresh j (omega arith))).1 (sym e))
    distinct_at (suc i) zero hi hj e =
        absurd ((was_free (later.frame i) (later.fresh i (omega arith))).1 e)
    distinct_at (suc i) (suc j) hi hj e = ap suc (later.distinct i j (omega arith) (omega arith) e)

    kept_at :
        (w a : ℕ)
        → (w / 2 ^ 12 % 2 ^ 10 < first) ⊎ (first + suc n ≤ w / 2 ^ 12 % 2 ^ 10)
        → resolve h.paging w ≡ some a
        → resolve p w ≡ some a
    kept_at w a outside before =
        later.kept w a
          (elim outside [ inl below ↦ inl (omega arith) | inr above ↦ inr (omega arith) ])
          (resolve-map_page_other h.paging one h.heap_end f w a
            (λ e. elim outside [ inl below ↦ omega arith | inr above ↦ omega arith ]) before)

    pub grown_more : GrownBy h first (suc n) b' p
    grown_more = record {
      frame = shifted f later.frame;
      mapped = mapped_at;
      fresh = fresh_at;
      taken = taken_at;
      distinct = distinct_at;
      still = λ k before. later.still k (still_used k before);
      count = (let rest = later.count in omega arith);
      one = later.one;
      kept = kept_at;
    }
