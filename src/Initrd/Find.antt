-- ===== src/Initrd/Find.antt =====
-- `initrd_finddir` and `initrd_readdir` over a table of named nodes.
use seli_os.CString.Text.{text, text_again}
use seli_os.CString.Compare.{strcmp-IsOrder}
use seli_os.CString.Copy.{strcpy-text}
use seli_os.Fs.{FsNode, Dirent}
use seli_os.Initrd.{Disk, is_zero_ℤ, finddir_loop, finddir, readdir}
use seli_os.Prelude.{
  ℕ, zero, suc, ◌+◌, ◌≤◌, ◌<◌, ◌≡◌, refl, sym, ap, ◌≢◌, inl, inr, true, false, Option, none, some,
  List, ◌∷◌, ◌++◌, arith, length, length-append, length-drop, get_elem?, leb, ◌==◌, drop, ◌>>=◌,
  Bool-cases, ==_iff,
}
use seli_os.Prelude.Int.{ℤ, pos, negsuc}

-- `names j` is the text of the name of node `j`.
pub record IsNamed (d : Disk) (names : ℕ → List ℕ) : Type 0 where
  pub entry :
      (j : ℕ)
      → j < d.num_files
      → (node : FsNode) × (get_elem? d.file_nodes j ≡ some node) × (text node.name ≡ some (names j))

-- What a search for `s` among the names from `i` up to `n` answers.
pub data Found (names : ℕ → List ℕ) (s : List ℕ) (i n : ℕ) (r : Option (Option ℕ)) : Type 0 where
  missing : ((j : ℕ) → i ≤ j → j < n → names j ≢ s) → r ≡ some none → Found names s i n r
  first :
      (f : ℕ)
      → i ≤ f
      → f < n
      → names f ≡ s
      → ((j : ℕ) → i ≤ j → j < f → names j ≢ s)
      → r ≡ some (some f)
      → Found names s i n r

Found-suc :
    {names : ℕ → List ℕ} {s : List ℕ} {i n : ℕ} {r : Option (Option ℕ)}
    → names i ≢ s
    → Found names s (i + 1) n r
    → Found names s i n r
Found-suc {names} {s} {i} {n} ne (missing none_of e) = missing here_too e
  where
    here_too : (j : ℕ) → i ≤ j → j < n → names j ≢ s
    here_too j lo hi = elim (Bool-cases (i == j)) [
      | inl here ↦ rw (← (==_iff i j).0 here) ne
      | inr later ↦ none_of j (ground arith) hi
    ]
Found-suc {names} {s} {i} ne (first f lo hi is before e) = first f (omega arith) hi is here_too e
  where
    here_too : (j : ℕ) → i ≤ j → j < f → names j ≢ s
    here_too j lo' hi' = elim (Bool-cases (i == j)) [
      | inl here ↦ rw (← (==_iff i j).0 here) ne
      | inr later ↦ before j (ground arith) hi'
    ]

pub is_zero_iff : (r : ℤ) → is_zero_ℤ r ≡ true → r ≡ pos 0
is_zero_iff (pos n) h = ap pos (ground arith)
is_zero_iff (negsuc n) h = absurd (cc)

not_zero : (r : ℤ) → is_zero_ℤ r ≡ false → r ≢ pos 0
not_zero (pos n) h e = ground arith
not_zero (negsuc n) h e = cc

module _ {d : Disk} {names : ℕ → List ℕ} (is : IsNamed d names) (name s : List ℕ)
    (t : text name ≡ some s) where
  finddir_loop-Found :
      (left i : ℕ)
      → i + left ≡ d.num_files
      → Found names s i d.num_files (finddir_loop d name left i)
  unfolding finddir_loop
  finddir_loop-Found zero i e = missing (λ j lo hi. absurd (omega arith)) refl
  finddir_loop-Found (suc left) i e =
      let (node, at, named) = is.entry i (omega arith) in
      let order = strcmp-IsOrder name node.name s (names i) t named in
      let answer = order.returns in
      elim (Bool-cases (is_zero_ℤ order.difference)) [
        | inl hit ↦
            let same : names i ≡ s = sym (order.equal.0 (is_zero_iff order.difference hit)) in
            first i (omega arith) (omega arith) same (λ j lo hi. absurd (omega arith))
              (rw (at, ◌>>=◌, answer, ◌>>=◌, hit) refl)
        | inr miss ↦
            let differ : names i ≢ s =
              λ e. not_zero order.difference miss (order.equal.1 (sym e)) in
            rw (at, ◌>>=◌, answer, ◌>>=◌, miss)
              (Found-suc differ (finddir_loop-Found left (i + 1) (omega arith)))
      ]

  -- `initrd_finddir` faults on no table of terminated names: it returns the first node whose name
  -- is the text asked for, and NULL exactly when no node has that name.
  pub finddir-Found : Found names s 0 d.num_files (finddir d name)
  unfolding finddir
  finddir-Found = finddir_loop-Found d.num_files 0 (omega arith)

module _ {d : Disk} {names : ℕ → List ℕ} (is : IsNamed d names) where
  -- Below the number of files `initrd_readdir` answers an entry with the text and the number of
  -- that node, if the static entry has room; it changes nothing but that entry.
  pub readdir_lem :
      (index : ℕ)
      → index < d.num_files
      → length (names index) < length d.dirent.name
      → (entry : Dirent) × (readdir d index ≡ some (some entry, record d { dirent = entry }))
        × (text entry.name ≡ some (names index))
        × (length entry.name ≡ length d.dirent.name)
        × (node : FsNode) × (get_elem? d.file_nodes index ≡ some node)
        × (entry.inode ≡ node.inode)
  unfolding readdir
  readdir_lem index inside room =
      let (node, at, named) = is.entry index inside in
      let copied = strcpy-text d.dirent.name node.name (names index) named room in
      let below : leb d.num_files index ≡ false = ground arith in
      (
        record {
          name = names index ++ (0 ∷ drop (length (names index) + 1) d.dirent.name);
          inode = node.inode;
        },
        rw (below, at, ◌>>=◌, copied) refl,
        text_again node.name (names index) _ named,
        omega (
          arith,
          length-append (names index) (0 ∷ drop (length (names index) + 1) d.dirent.name),
          length-drop (length (names index) + 1) d.dirent.name,
        ),
        node,
        at,
        refl,
      )

pub readdir_end : (d : Disk) (index : ℕ) → d.num_files ≤ index → readdir d index ≡ some (none, d)
unfolding readdir
readdir_end d index h = ground arith
