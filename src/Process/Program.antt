-- ===== src/Process/Program.antt =====
-- The address space of a program with its pages and its stack.
use seli_os.Memory.{Bitmap, allocate_frame}
use seli_os.Memory.Frames.{used}
use seli_os.Memory.Room.{free_frames}
use seli_os.Paging.User.{Space, map_user_page}
use seli_os.Paging.User.View.{walk, IsUserDirectory, IsPrivate}
use seli_os.Paging.User.Extends.{Extends, Extends-IsPrivate, Extends-trans}
use seli_os.Process.{map_code, map_stack}
use seli_os.Process.Load.{page_lem}
use seli_os.Process.Pages.{Pages, map_code_lem}
use seli_os.Prelude.{
  ℕ, ◌+◌, ◌*◌, ◌/◌, ◌%◌, ◌^◌, ◌≤◌, ◌<◌, ◌≡◌, ◌≢◌, refl, sym, ap, ◌∙◌, Option, some, none, arith,
  ◌>>=◌, inl, ==_of_ne, true, false, ◌==◌, if◌then◌else◌,
}

abbrev pub stack_page : ℕ
stack_page = 0xBFFFF

-- The program sees its first `n` pages and its stack, each on a frame of its own that was free in `s0`,
-- and nothing else.
pub record IsLoaded (s0 : Space) (d n : ℕ) (s : Space) : Type 0 where
  pub extends : Extends s0 d (2 * n + 2) s
  pub frame : ℕ → ℕ
  pub stack : ℕ
  pub seen :
      (w : ℕ) → w < n * 4096 → walk s.memory d w ≡ some (frame (w / 2 ^ 12) * 2 ^ 12 + w % 2 ^ 12)
  pub stack_seen :
      (w : ℕ) → w / 2 ^ 12 ≡ stack_page → walk s.memory d w ≡ some (stack * 2 ^ 12 + w % 2 ^ 12)
  pub nothing_else : (w : ℕ) → n * 4096 ≤ w → w / 2 ^ 12 < stack_page → walk s.memory d w ≡ none
  pub private : (i : ℕ) → i < n → IsPrivate s d (frame i)
  pub fresh : (i : ℕ) → i < n → used s0.bitmap (frame i) ≡ false
  pub distinct : (i j : ℕ) → i < n → j < n → frame i ≡ frame j → i ≡ j
  pub stack_apart : (i : ℕ) → i < n → frame i ≢ stack

map_stack_run :
    (f : ℕ) (b : Bitmap) (s : Space) (r : Option Space)
    → allocate_frame s.bitmap ≡ some (f * 2 ^ 12, b)
    → map_user_page 0xC0500000 0xBFFFF000 (f * 2 ^ 12) (record s { bitmap = b }) ≡ r
    → map_stack s ≡ r
unfolding map_stack
map_stack_run f b s r found run = ap (λ o. o >>= after) found ∙ run
  where
    after : ℕ × Bitmap → Option Space
    after (stack_frame, bitmap) =
        map_user_page 0xC0500000 0xBFFFF000 stack_frame (record s { bitmap = bitmap })

-- From a directory without pages.
pub load_pages_lem :
    (s0 : Space) (d n : ℕ)
    → IsUserDirectory s0 d
    → ((w : ℕ) → w < 0xC0000000 → walk s0.memory d w ≡ none)
    → used s0.bitmap 0 ≡ true
    → n ≤ stack_page
    → 2 * n + 2 ≤ free_frames s0.bitmap
    → (s1 : Space) × (s2 : Space) × (map_code n 0 s0 ≡ some (true, s1))
      × (map_stack s1 ≡ some s2)
      × IsLoaded s0 d n s2
load_pages_lem s0 d n is empty zero_used fits room =
    let start : Pages s0 d 0 s0 = record {
      extends = record {
        directory = is;
        still = λ j h. h;
        tables = λ i t small e. inl e;
        kept = λ u k private small. refl;
        kernel = λ w a off off' at. at;
        room = omega arith;
      };
      frame = λ i. 0;
      seen = λ w small. absurd (omega arith);
      private = λ i small. absurd (omega arith);
      fresh = λ i small. absurd (omega arith);
      distinct = λ i j small. absurd (omega arith);
      beyond = λ w far user. refl;
    } in
    let (s1, run, pages, left) =
      map_code_lem s0 d n 0 n s0 start zero_used (omega arith) (omega arith) (omega arith) in
    let (f, b, s2, found, mapped, some_frame, unused, ext, private, view) =
      page_lem s1 d 0xBFFFF000 stack_page refl pages.extends.directory
        (pages.extends.still 0 zero_used) (omega arith) (omega arith) in
    let beside : (w : ℕ) → w / 2 ^ 12 < stack_page → walk s2.memory d w ≡ walk s1.memory d w =
      λ w low.
        view w (omega arith)
        ∙ ap (λ t. if t then some (f * 2 ^ 12 + w % 2 ^ 12) else walk s1.memory d w)
            (==_of_ne (w / 2 ^ 12) stack_page (λ e. omega arith)) in
    (
      s1,
      s2,
      run,
      map_stack_run f b s1 (some s2) found mapped,
      record {
        extends = Extends-trans pages.extends ext;
        frame = pages.frame;
        stack = f;
        seen = λ w small. beside w (omega arith) ∙ pages.seen w small;
        stack_seen = λ w at.
            view w (omega arith)
            ∙ ap (λ t. if t then some (f * 2 ^ 12 + w % 2 ^ 12) else walk s1.memory d w)
                (ap (λ k. k == stack_page) at);
        nothing_else =
            λ w far low. beside w low ∙ pages.beyond w far (omega arith) ∙ empty w (omega arith);
        private = λ i small. Extends-IsPrivate (pages.frame i) ext (pages.private i small);
        fresh = pages.fresh;
        distinct = pages.distinct;
        stack_apart = λ i small same.
            (let busy = sym (ap (used s1.bitmap) same) ∙ (pages.private i small).taken in
              absurd (cc));
      },
    )
