-- ===== src/Process/Create.antt =====
-- `create_process` from the call of `malloc` to the program in its pages.
use seli_os.Memory.Frames.{used}
use seli_os.Memory.Room.{free_frames}
use seli_os.Paging.Map.{resolve}
use seli_os.Paging.User.{Space}
use seli_os.Paging.User.View.{entry, walk, IsPrivate}
use seli_os.Paging.User.Extends.{Extends}
use seli_os.Process.{map_code, map_stack, copy_program, load_program, byte_at}
use seli_os.Process.Copy.{copy_program_lem}
use seli_os.Process.Program.{stack_page, load_pages_lem}
use seli_os.Process.Steady.{place, pages-steady, place-distinct}
use seli_os.Prelude.{
  ℕ, ◌+◌, ◌*◌, ◌/◌, ◌%◌, ◌^◌, ◌≤◌, ◌<◌, ◌≡◌, ◌≢◌, refl, sym, ap, ◌∙◌, inl, inr, none, some, arith,
  true, false, Bool-cases, ◌>>=◌,
}

-- The program that the boot loader left at a physical address: the kernel reaches it 0xC0000000 higher,
-- off the two pages that it uses for other frames, and its frames are marked as used.
pub record IsModule (s : Space) (module_phys_addr module_size : ℕ) : Type 0 where
  pub low : module_phys_addr + module_size ≤ 0x40000000
  pub reached :
      (i : ℕ)
      → i < module_size
      → resolve s.paging (0xC0000000 + (module_phys_addr + i)) ≡ some (module_phys_addr + i)
  pub off_first : (i : ℕ) → i < module_size → (module_phys_addr + i) / 2 ^ 12 % 2 ^ 10 ≢ 0x100
  pub off_second : (i : ℕ) → i < module_size → (module_phys_addr + i) / 2 ^ 12 % 2 ^ 10 ≢ 0x200
  pub reserved : (i : ℕ) → i < module_size → used s.bitmap ((module_phys_addr + i) / 2 ^ 12) ≡ true

-- The program, at the lowest privilege, may read and write its `n` pages, with the bytes of the module in
-- them, and its stack, each on a frame of its own, and no other address below the stack's page.
pub record IsProgram (s : Space) (d n module_phys_addr module_size : ℕ) (memory : ℕ → ℕ)
    : Type 0 where
  pub frame : ℕ → ℕ
  pub stack : ℕ
  pub seen : (w : ℕ) → w < n * 4096 → walk memory d w ≡ some (place frame w)
  pub stack_seen :
      (w : ℕ) → w / 2 ^ 12 ≡ stack_page → walk memory d w ≡ some (stack * 2 ^ 12 + w % 2 ^ 12)
  pub nothing_else : (w : ℕ) → n * 4096 ≤ w → w / 2 ^ 12 < stack_page → walk memory d w ≡ none
  pub fresh : (i : ℕ) → i < n → used s.bitmap (frame i) ≡ false
  pub distinct : (i j : ℕ) → i < n → j < n → frame i ≡ frame j → i ≡ j
  pub stack_apart : (i : ℕ) → i < n → frame i ≢ stack
  pub bytes :
      (i : ℕ)
      → i < module_size
      → byte_at memory (place frame i) ≡ byte_at s.memory (module_phys_addr + i)

load_program_run :
    (module_phys_addr module_size n source cr3 : ℕ) (s s1 s2 s3 : Space)
    → (module_size + 4095) % 2 ^ 32 / 4096 ≡ n
    → (module_phys_addr + 0xC0000000) % 2 ^ 32 ≡ source
    → map_code n 0 s ≡ some (true, s1)
    → map_stack s1 ≡ some s2
    → copy_program module_size 0 source cr3 s2 ≡ some s3
    → load_program module_phys_addr module_size cr3 s ≡ some (true, s3)
unfolding load_program
load_program_run module_phys_addr module_size n source cr3 s s1 s2 s3 pages at code stack copied =
    rw (pages, at, code, ◌>>=◌, stack, copied) refl

pages_of : ℕ → ℕ
pages_of module_size = (module_size + 4095) / 4096

-- A word of the module is as it was, whatever is mapped.
module _ (s0 s s2 : Space) (d m module_phys_addr module_size : ℕ)
    (module_is : IsModule s0 module_phys_addr module_size) (free : used s0.bitmap d ≡ false)
    (first : Extends s0 d 1 s) (later : Extends s d m s2)
    (empty : (j : ℕ) → j < 768 → entry s.memory d j ≡ 0)
    (others : (u k : ℕ) → u ≢ d → k < 1024 → entry s.memory u k ≡ entry s0.memory u k) (i : ℕ)
    (inside : i < module_size) where
  abbrev address : ℕ
  address = module_phys_addr + i

  module_frame : address / 2 ^ 12 ≢ d
  module_frame same =
      let busy = sym (ap (used s0.bitmap) same) ∙ module_is.reserved i inside in absurd (cc)

  module-IsPrivate : IsPrivate s d (address / 2 ^ 12)
  module-IsPrivate = record {
    taken = first.still (address / 2 ^ 12) (module_is.reserved i inside);
    not_d = module_frame;
    no_table = λ j small e. (let none_yet = empty j small in omega arith);
  }

  module_word : s2.memory (address / 4 * 4) ≡ s0.memory (address / 4 * 4)
  module_word =
      let at : address / 4 * 4 ≡ address / 2 ^ 12 * 2 ^ 12 + 4 * (address % 2 ^ 12 / 4) =
        omega arith in
      rw at (
        later.kept (address / 2 ^ 12) (address % 2 ^ 12 / 4) module-IsPrivate (omega arith)
        ∙ others (address / 2 ^ 12) (address % 2 ^ 12 / 4) module_frame (omega arith))

  pub module_byte : byte_at s2.memory address ≡ byte_at s0.memory address
  module_byte = ap (λ word. word / 256 ^ (address % 4) % 256) module_word

  pub module_reached : resolve s2.paging (0xC0000000 + address) ≡ some address
  module_reached =
      let off : (0xC0000000 + address) / 2 ^ 12 % 2 ^ 10 ≢ 0x100 =
        λ e. module_is.off_first i inside (omega arith) in
      let off' : (0xC0000000 + address) / 2 ^ 12 % 2 ^ 10 ≢ 0x200 =
        λ e. module_is.off_second i inside (omega arith) in
      later.kernel (0xC0000000 + address) address off off'
        (first.kernel (0xC0000000 + address) address off off' (module_is.reached i inside))

  -- The pages of the program are on other frames.
  pub module_apart : (f w : ℕ) → used s0.bitmap f ≡ false → f * 2 ^ 12 + w % 2 ^ 12 ≢ address
  module_apart f w unused e =
      let here : f ≡ address / 2 ^ 12 = omega arith in
      let busy = ap (used s0.bitmap) here ∙ module_is.reserved i inside in absurd (cc)

was_free :
    {s s' : Space} {d n : ℕ}
    → Extends s d n s'
    → (j : ℕ) → used s'.bitmap j ≡ false
    → used s.bitmap j ≡ false
was_free {s} ext j unused = elim (Bool-cases (used s.bitmap j)) [
  | inl busy ↦ (let still = ext.still j busy in absurd (cc))
  | inr free ↦ free
]

source_at :
    (base size i : ℕ)
    → base + size ≤ 0x40000000
    → i < size
    → ((base + 0xC0000000) % 2 ^ 32 + i) % 2 ^ 32 ≡ 0xC0000000 + (base + i)
source_at base size i low inside = omega arith

pub load_program_lem :
    (s0 s : Space) (d module_phys_addr module_size : ℕ)
    → IsModule s0 module_phys_addr module_size
    → used s0.bitmap d ≡ false
    → Extends s0 d 1 s
    → ((w : ℕ) → w < 0xC0000000 → walk s.memory d w ≡ none)
    → ((j : ℕ) → j < 768 → entry s.memory d j ≡ 0)
    → ((u k : ℕ) → u ≢ d → k < 1024 → entry s.memory u k ≡ entry s0.memory u k)
    → used s0.bitmap 0 ≡ true
    → module_size ≤ 0xBFFFF000
    → 2 * ((module_size + 4095) / 4096) + 3 ≤ free_frames s0.bitmap
    → (s' : Space) × (load_program module_phys_addr module_size (d * 2 ^ 12) s ≡ some (true, s'))
      × IsProgram s0 d ((module_size + 4095) / 4096) module_phys_addr module_size s'.memory
load_program_lem s0 s d base size module_is free first nothing empty others zero_used fits room =
    let left = first.room in
    let n = (size + 4095) / 4096 in
    let (s1, s2, code, stack, loaded) =
      load_pages_lem s d n first.directory nothing (first.still 0 zero_used) (omega arith)
        (omega arith) in
    let (memory, copied, bytes, steady) =
      copy_program_lem s2 d size ((base + 0xC0000000) % 2 ^ 32) (λ i. base + i) (place loaded.frame)
        (omega arith)
        (λ i inside.
          let at : ((base + 0xC0000000) % 2 ^ 32 + i) % 2 ^ 32 ≡ 0xC0000000 + (base + i) =
            source_at base size i module_is.low inside in
          (
            rw at (omega arith),
            rw at (
                module_reached s0 s s2 d (2 * n + 2) base size module_is free first loaded.extends
                  empty others i inside),
          ))
        (λ i inside. loaded.seen i (omega arith))
        (place-distinct s s2 d n size loaded (omega arith))
        (λ i j hi hj.
          module_apart s0 s s2 d (2 * n + 2) base size module_is free first loaded.extends empty
            others j hj (loaded.frame (i / 2 ^ 12)) i
            (was_free first (loaded.frame (i / 2 ^ 12)) (loaded.fresh (i / 2 ^ 12) (omega arith))))
        (pages-steady s s2 d n size loaded (omega arith)) in
    (
      record s2 { memory = memory },
      load_program_run base size n ((base + 0xC0000000) % 2 ^ 32) (d * 2 ^ 12) s s1 s2
          (record s2 { memory = memory }) (omega arith) refl code stack copied,
      record {
        frame = loaded.frame;
        stack = loaded.stack;
        seen = λ w small. steady w (omega arith) ∙ loaded.seen w small;
        stack_seen = λ w at. steady w (omega arith) ∙ loaded.stack_seen w at;
        nothing_else = λ w far low. steady w (omega arith) ∙ loaded.nothing_else w far low;
        fresh = λ i small. was_free first (loaded.frame i) (loaded.fresh i small);
        distinct = loaded.distinct;
        stack_apart = loaded.stack_apart;
        bytes = λ i inside.
            bytes i inside
            ∙ module_byte s0 s s2 d (2 * n + 2) base size module_is free first loaded.extends empty
                others i inside;
      },
    )
