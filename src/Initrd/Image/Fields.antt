-- ===== src/Initrd/Image/Fields.antt =====
-- The image of the two files, and what `initialize_initrd` reads in it.
use mathlib.Core.List.{append_assoc, append-nil}
use seli_os.CString.Copy.{strcpy-text}
use seli_os.CString.Text.{text_take, Readable}
use seli_os.Fs.{FsNode}
use seli_os.Initrd.{Region, Disk, bytes_from, load32, header_address}
use seli_os.Initrd.Find.{IsNamed, Found, missing, first}
use seli_os.Initrd.Image.{FileHeader, Files, dump_file_data, header_bytes, word, main}
use seli_os.Initrd.Image.Layout.{
  file, dump_file_data_lem, get_file_size_lem, drop-drop, drop_past, bytes_from-drop, load32-word,
  byte_at-file, HeaderAt, drop-HeaderAt,
}
use seli_os.Initrd.Mount.{IsHeaders, IsFileNode}
use seli_os.Initrd.Read.{FileAt}
use seli_os.Prelude.{
  ℕ, zero, suc, ◌+◌, ◌%◌, ◌^◌, ◌<◌, ◌≡◌, ◌≢◌, refl, sym, ap, ◌∙◌, inl, inr, Bool-cases, true,
  Option, some, List, [], ◌∷◌, ◌++◌, arith, length, length-append, length-drop, drop, get_elem?,
  ltb, ◌==◌, ==_iff, ◌>>=◌,
}
use seli_os.Prelude.Strings.{c_str, letters}

abbrev pub hello_path : List ℕ
hello_path = c_str "rootfs/hello.txt"

abbrev pub test_path : List ℕ
test_path = c_str "rootfs/test.txt"

-- A header as `main` fills it in.
abbrev filled : FileHeader → List ℕ → ℕ → ℕ → FileHeader
filled h name size offset = record h {
  file_name = name ++ (0 ∷ drop (length name + 1) h.file_name);
  file_length = size;
  starting_offset = offset;
}

abbrev image_of : FileHeader → FileHeader → List ℕ → List ℕ → List ℕ
image_of h0 h1 hello test = word 2 ++ (header_bytes h0 ++ (header_bytes h1 ++ (hello ++ test)))

filled-length :
    (h : FileHeader) (name : List ℕ) (size offset : ℕ)
    → length h.file_name ≡ 128
    → length name < 128
    → length (filled h name size offset).file_name ≡ 128
filled-length h name size offset long short = omega (
  arith,
  length-append name (0 ∷ drop (length name + 1) h.file_name),
  length-drop (length name + 1) h.file_name,
)

dumped :
    (files : Files) (table : List ℕ)
    → dump_file_data files test_path (dump_file_data files hello_path table)
      ≡ table ++ (file files hello_path ++ file files test_path)
dumped files table =
    dump_file_data_lem files test_path (dump_file_data files hello_path table)
    ∙ ap (λ l. l ++ file files test_path) (dump_file_data_lem files hello_path table)
    ∙ append_assoc table (file files hello_path) (file files test_path)

abbrev pub pick {ℓ} : {A : Type ℓ} → A → A → ℕ → A
pick a b zero = a
pick a b (suc i) = b

-- A name that one node before the end has, and no node before it, is found there.
pub answer_at :
    {names : ℕ → List ℕ} {s : List ℕ} {n : ℕ} {r : Option (Option ℕ)} (i : ℕ)
    → i < n
    → names i ≡ s
    → ((j : ℕ) → j < i → names j ≢ s)
    → Found names s 0 n r
    → r ≡ some (some i)
answer_at i below here before (missing none_of e) = absurd (none_of i (omega arith) below here)
answer_at i below here before (first f lo hi is earlier e) = elim (Bool-cases (f == i)) [
  | inl same ↦ e ∙ ap (λ k. some (some k)) ((==_iff f i).0 same)
  | inr other ↦ elim (Bool-cases (ltb f i)) [
    | inl lower ↦ absurd (before f (ground arith) is)
    | inr higher ↦ absurd (earlier i (omega arith) (ground arith) here)
  ]
]

module _ (files : Files) (h0 h1 : FileHeader) (long0 : length h0.file_name ≡ 128)
    (long1 : length h1.file_name ≡ 128) where
  abbrev hello : List ℕ
  hello = file files hello_path

  abbrev test : List ℕ
  test = file files test_path

  abbrev header0 : FileHeader
  header0 = filled h0 (letters "hello.txt") (length hello) 284

  abbrev header1 : FileHeader
  header1 = filled h1 (letters "test.txt") (length test) (284 + length hello)

  abbrev pub image : List ℕ
  image = image_of header0 header1 hello test

  pub main-image : 284 + length hello + length test < 2 ^ 32 → main files true h0 h1 ≡ some image
  unfolding main
  main-image small =
      let name0 =
        strcpy-text h0.file_name (c_str "hello.txt") (letters "hello.txt") refl (omega arith) in
      let name1 =
        strcpy-text h1.file_name (c_str "test.txt") (letters "test.txt") refl (omega arith) in
      let size0 = get_file_size_lem files hello_path (omega arith) in
      let size1 = get_file_size_lem files test_path (omega arith) in
      let offset1 : (284 + length hello) % 2 ^ 32 ≡ 284 + length hello = omega arith in
      rw (name0, ◌>>=◌, name1, ◌>>=◌, size0, size1, offset1)
        (ap some (
          dumped files (word 2 ++ (header_bytes header0 ++ header_bytes header1))
          ∙ ap (λ l. word 2 ++ l)
              (append_assoc (header_bytes header0) (header_bytes header1) (hello ++ test))))

  module _ (base : ℕ) (small : base + 284 + length hello + length test < 2 ^ 32) where
    abbrev pub blob : Region
    blob = record { base = base; bytes = image }

    first_header : HeaderAt image 4 header0 (header_bytes header1 ++ (hello ++ test))
    first_header =
        drop-HeaderAt image 4 header0 (header_bytes header1 ++ (hello ++ test))
          (filled-length h0 (letters "hello.txt") (length hello) 284 long0 (omega arith)) refl

    second_header : HeaderAt image 144 header1 (hello ++ test)
    second_header =
        drop-HeaderAt image 144 header1 (hello ++ test)
          (filled-length h1 (letters "test.txt") (length test) (284 + length hello) long1
            (omega arith))
          first_header.end_at

    -- Both headers lie where `initialize_initrd` looks for them.
    pub place : (i : ℕ) → i < 2 → header_address base i ≡ base + pick 4 144 i
    place zero below = omega arith
    place (suc zero) below = omega arith
    place (suc (suc i)) below = absurd (omega arith)

    abbrev sizes : ℕ → ℕ
    sizes = pick (length hello) (length test)

    abbrev names : ℕ → List ℕ
    names = pick (letters "hello.txt") (letters "test.txt")

    size_at : (i : ℕ) → i < 2 → load32 blob (header_address base i + 4) ≡ some (sizes i)
    size_at zero below =
        ap (load32 blob) {x = header_address base 0 + 4} {y = base + 8} (omega arith)
        ∙ load32-word base 8 image (length hello) _ (omega arith) first_header.length_at
    size_at (suc zero) below =
        ap (load32 blob) {x = header_address base 1 + 4} {y = base + 148} (omega arith)
        ∙ load32-word base 148 image (length test) _ (omega arith) second_header.length_at
    size_at (suc (suc i)) below = absurd (omega arith)

    name_from :
        (i : ℕ)
        → i < 2
        → (rest : List ℕ) × (bytes_from blob (header_address base i + 12) ≡ names i ++ (0 ∷ rest))
    name_from zero below = (
      drop 10 h0.file_name ++ (header_bytes header1 ++ (hello ++ test)),
      ap (bytes_from blob) {x = header_address base 0 + 12} {y = base + 16} (omega arith)
          ∙ bytes_from-drop base 16 image
          ∙ first_header.name_at,
    )
    name_from (suc zero) below = (
      drop 9 h1.file_name ++ (hello ++ test),
      ap (bytes_from blob) {x = header_address base 1 + 12} {y = base + 156} (omega arith)
          ∙ bytes_from-drop base 156 image
          ∙ second_header.name_at,
    )
    name_from (suc (suc i)) below = absurd (omega arith)

    readable : (i : ℕ) (rest : List ℕ) → i < 2 → Readable 127 (names i ++ (0 ∷ rest))
    readable zero rest below = tt
    readable (suc zero) rest below = tt
    readable (suc (suc i)) rest below = absurd (omega arith)

    taken : (i : ℕ) (rest : List ℕ) → i < 2 → text_take 127 (names i ++ (0 ∷ rest)) ≡ names i
    taken zero rest below = refl
    taken (suc zero) rest below = refl
    taken (suc (suc i)) rest below = absurd (omega arith)

    pub image-IsHeaders : IsHeaders blob base 2 sizes
    image-IsHeaders = record {
      lengths = size_at;
      names = λ i below. let (rest, e) = name_from i below in rw e (readable i rest below);
    }

    pub first-FileAt : (d : Disk) → d.blob ≡ blob → d.blob_start ≡ base → FileAt d 0 hello
    first-FileAt d b l = record {
      offset = 284;
      length_field = rw (b, l) (size_at 0 (omega arith));
      offset_field =
          rw (b, l)
            (ap (load32 blob) {x = header_address base 0 + 8} {y = base + 12} (omega arith)
              ∙ load32-word base 12 image 284 _ (omega arith) first_header.offset_at);
      fits = rw l (omega arith);
      bytes = λ j inside.
          rw (b, l) (byte_at-file base 284 image hello test j inside second_header.end_at);
    }

    pub second-FileAt : (d : Disk) → d.blob ≡ blob → d.blob_start ≡ base → FileAt d 1 test
    second-FileAt d b l = record {
      offset = 284 + length hello;
      length_field = rw (b, l) (size_at 1 (omega arith));
      offset_field =
          rw (b, l)
            (ap (load32 blob) {x = header_address base 1 + 8} {y = base + 152} (omega arith)
              ∙ load32-word base 152 image (284 + length hello) _ (omega arith)
                  second_header.offset_at);
      fits = rw l (omega arith);
      bytes = λ j inside.
          rw (b, l) (byte_at-file base (284 + length hello) image test [] j inside behind);
    }
      where
        behind : drop (284 + length hello) image ≡ test ++ []
        behind =
            drop-drop 284 (length hello) (284 + length hello) image refl
            ∙ ap (drop (length hello)) second_header.end_at
            ∙ drop_past (length hello) hello test refl
            ∙ sym (append-nil test)

    pub names-IsNamed :
        (d : Disk)
        → d.num_files ≡ 2
        → ((i : ℕ)
            → i < 2
            → (node : FsNode) × (get_elem? d.file_nodes i ≡ some node)
              × IsFileNode blob base i (sizes i) node)
        → IsNamed d names
    names-IsNamed d count nodes = record {
      entry = λ j below.
          let inside : j < 2 = rw (← count) below in
          let (node, at, is) = nodes j inside in
          let (rest, e) = name_from j inside in
          (node, at, is.named ∙ ap (λ l. some (text_take 127 l)) e ∙ ap some (taken j rest inside));
    }
