-- ===== src/Paging/User/Extends.antt =====
-- What the operations on the directory of a program keep.
use seli_os.Memory.Frames.{used}
use seli_os.Memory.Room.{free_frames}
use seli_os.Paging.Map.{resolve}
use seli_os.Paging.User.{Space}
use seli_os.Paging.User.View.{entry, IsUserDirectory, IsPrivate}
use seli_os.Prelude.{
  ℕ, ◌+◌, ◌*◌, ◌/◌, ◌%◌, ◌^◌, ◌≤◌, ◌<◌, ◌≡◌, ◌≢◌, ◌⊎◌, ◌∙◌, inl, inr, some, arith, Bool-cases, true,
  false,
}

-- What a space keeps while pages are mapped: the directory, the frames in use, the tables but for fresh
-- ones, the words of all other frames in use, the kernel's addresses but for the pages of 0xC0500000 and
-- 0xC0600000, and all but `n` of the free frames.
pub record Extends (s : Space) (d n : ℕ) (s' : Space) : Type 0 where
  pub directory : IsUserDirectory s' d
  pub still : (j : ℕ) → used s.bitmap j ≡ true → used s'.bitmap j ≡ true
  pub tables :
      (i t : ℕ)
      → i < 768
      → entry s'.memory d i ≡ t * 2 ^ 12 + 7
      → (entry s.memory d i ≡ t * 2 ^ 12 + 7) ⊎ (used s.bitmap t ≡ false)
  pub kept : (u k : ℕ) → IsPrivate s d u → k < 1024 → entry s'.memory u k ≡ entry s.memory u k
  pub kernel :
      (w a : ℕ)
      → w / 2 ^ 12 % 2 ^ 10 ≢ 0x100
      → w / 2 ^ 12 % 2 ^ 10 ≢ 0x200
      → resolve s.paging w ≡ some a
      → resolve s'.paging w ≡ some a
  pub room : free_frames s.bitmap ≤ n + free_frames s'.bitmap

pub Extends-IsPrivate :
    {s s' : Space} {d n : ℕ} (f : ℕ) → Extends s d n s' → IsPrivate s d f → IsPrivate s' d f
Extends-IsPrivate f ext private = record {
  taken = ext.still f private.taken;
  not_d = private.not_d;
  no_table = λ i small e. elim (ext.tables i f small e) [
    | inl before ↦ private.no_table i small before
    | inr unused ↦ (let busy = private.taken in absurd (cc))
  ];
}

pub Extends-trans :
    {s s1 s2 : Space} {d m n : ℕ} → Extends s d m s1 → Extends s1 d n s2 → Extends s d (m + n) s2
Extends-trans {s} first second = record {
  directory = second.directory;
  still = λ j h. second.still j (first.still j h);
  tables = λ i t small e. elim (second.tables i t small e) [
    | inl before ↦ first.tables i t small before
    | inr unused ↦ inr (elim (Bool-cases (used s.bitmap t)) [
      | inl busy ↦ (let still = first.still t busy in absurd (cc))
      | inr free ↦ free
    ])
  ];
  kept = λ u k private small.
      second.kept u k (Extends-IsPrivate u first private) small ∙ first.kept u k private small;
  kernel = λ w a off off' at. second.kernel w a off off' (first.kernel w a off off' at);
  room = (let a = first.room in let b = second.room in omega arith);
}

pub Extends-weaken : {s s' : Space} {d : ℕ} → Extends s d 0 s' → Extends s d 1 s'
Extends-weaken ext = record {
  directory = ext.directory;
  still = ext.still;
  tables = ext.tables;
  kept = ext.kept;
  kernel = ext.kernel;
  room = (let a = ext.room in omega arith);
}
