-- ===== src/Initrd/Image/RoundTrip.antt =====
-- The image that make_initrd packs is the RAM disk that the kernel mounts.
use seli_os.Initrd.Image.Fields.{
  answer_at, blob, first-FileAt, hello_path, image, image-IsHeaders, main-image, names-IsNamed,
  pick, second-FileAt, test_path,
}
use mathlib.Core.Path.{subst}
use seli_os.Fs.{FsNode, Dirent}
use seli_os.Initrd.{Disk, load32, read, finddir, initialize_initrd}
use seli_os.Initrd.Find.{IsNamed, finddir-Found}
use seli_os.Initrd.Image.{FileHeader, Files, main}
use seli_os.Initrd.Image.Layout.{file, load32-word}
use seli_os.Initrd.Mount.{Cells, initialize_initrd-IsFileNode}
use seli_os.Initrd.Read.{FileAt, read_whole}
use seli_os.Prelude.{
  ℕ, zero, suc, ◌+◌, ◌^◌, ◌<◌, ◌≡◌, ◌≢◌, refl, sym, ap, ◌∙◌, true, Option, some, List, [], ◌∷◌,
  ◌++◌, arith, length, get_elem?,
}
use seli_os.Prelude.Strings.{c_str, letters}

-- The disk finds the name at place `i`, and reads the content of that file into the buffer.
pub record Serves (d : Disk) (i : ℕ) (name content buffer : List ℕ) : Type 0 where
  pub found : finddir d (name ++ (0 ∷ [])) ≡ some (some i)
  pub node : FsNode
  pub there : get_elem? d.file_nodes i ≡ some node
  pub size : node.len ≡ length content
  pub whole : read d node 0 (length content) buffer ≡ some (length content, content)

-- What the kernel has when the image is mounted.
pub record IsImage (files : Files) (old : Dirent) (d : Disk) : Type 0 where
  pub two : d.num_files ≡ 2
  pub entry : d.dirent ≡ old
  pub named : IsNamed d (pick (letters "hello.txt") (letters "test.txt"))
  pub nodes :
      (i : ℕ)
      → i < 2
      → (node : FsNode) × (get_elem? d.file_nodes i ≡ some node)
        × (node.inode ≡ i)
        × (node.len ≡ pick (length (file files hello_path)) (length (file files test_path)) i)
  pub hello_at : FileAt d 0 (file files hello_path)
  pub test_at : FileAt d 1 (file files test_path)

module _ (files : Files) (h0 h1 : FileHeader) (base : ℕ) (old : Dirent) (root_cell : List ℕ)
    (malloc_files : ℕ → Option (List (List ℕ))) (storage : List (List ℕ)) where
  pub main-IsImage :
      length h0.file_name ≡ 128
      → length h1.file_name ≡ 128
      → base + 284 + length (file files hello_path) + length (file files test_path) < 2 ^ 32
      → length root_cell ≡ 128
      → malloc_files 2 ≡ some storage
      → length storage ≡ 2
      → Cells storage
      → (bytes : List ℕ) × (main files true h0 h1 ≡ some bytes)
        × (d : Disk) × (initialize_initrd
              (record { base = base; bytes = bytes })
              base
              old
              (some root_cell)
              malloc_files
            ≡ some d)
        × IsImage files old d
  main-IsImage l0 l1 small root mem count cells =
      let (d, mounted, two, (b, l, entry), nodes) =
        initialize_initrd-IsFileNode (image-IsHeaders files h0 h1 l0 l1 base small) old root_cell
          malloc_files storage
          (ap (load32 (blob files h0 h1 l0 l1 base small)) {x = base} {y = base + 0} (omega arith)
            ∙ load32-word base 0 (image files h0 h1 l0 l1) 2 _ (omega arith) refl)
          root mem count cells in
      (
        image files h0 h1 l0 l1,
        main-image files h0 h1 l0 l1 (omega arith),
        d,
        mounted,
        record {
          two = two;
          entry = entry;
          named = names-IsNamed files h0 h1 l0 l1 base small d two nodes;
          nodes = λ i below. let (node, at, is) = nodes i below in (node, at, is.number, is.size);
          hello_at = first-FileAt files h0 h1 l0 l1 base small d b l;
          test_at = second-FileAt files h0 h1 l0 l1 base small d b l;
        },
      )

served :
    (d : Disk) (i : ℕ) (name content buffer : List ℕ) (node : FsNode)
    → finddir d (name ++ (0 ∷ [])) ≡ some (some i)
    → get_elem? d.file_nodes i ≡ some node
    → node.inode ≡ i
    → node.len ≡ length content
    → FileAt d i content
    → length buffer ≡ length content
    → Serves d i name content buffer
served d i name content buffer node found at number size file same = record {
  found = found;
  node = node;
  there = at;
  size = size;
  whole = read_whole node buffer (subst (λ k. FileAt d k content) (sym number) file) same;
}

-- The image that make_initrd packs is what the kernel mounts: if the name fields have 128 bytes, the image, loaded at address `base`,
-- ends below 2^32, and there is memory for the root and two nodes, then `initialize_initrd` succeeds on
-- it, `initrd_finddir` finds hello.txt and test.txt at nodes 0 and 1, and `initrd_read` into a buffer of
-- the file's size gives back each file byte by byte. A file that cannot be opened counts as empty.
pub main-Serves :
    (files : Files) (h0 h1 : FileHeader) (base : ℕ) (old : Dirent) (root_cell : List ℕ)
    (malloc_files : ℕ → Option (List (List ℕ))) (storage : List (List ℕ)) (buffer0 buffer1 : List ℕ)
    → length h0.file_name ≡ 128
    → length h1.file_name ≡ 128
    → base + 284 + length (file files hello_path) + length (file files test_path) < 2 ^ 32
    → length root_cell ≡ 128
    → malloc_files 2 ≡ some storage
    → length storage ≡ 2
    → Cells storage
    → length buffer0 ≡ length (file files hello_path)
    → length buffer1 ≡ length (file files test_path)
    → (bytes : List ℕ) × (main files true h0 h1 ≡ some bytes)
      × (d : Disk) × (initialize_initrd
            (record { base = base; bytes = bytes })
            base
            old
            (some root_cell)
            malloc_files
          ≡ some d)
      × Serves d 0 (letters "hello.txt") (file files hello_path) buffer0
      × Serves d 1 (letters "test.txt") (file files test_path) buffer1
main-Serves files h0 h1 base old root_cell malloc_files storage buffer0 buffer1 l0 l1 small root mem
      count cells same0 same1 =
    let (bytes, packed, d, mounted, is) =
      main-IsImage files h0 h1 base old root_cell malloc_files storage l0 l1 small root mem count
        cells in
    let two = is.two in
    let (node0, at0, number0, size0) = is.nodes 0 (omega arith) in
    let (node1, at1, number1, size1) = is.nodes 1 (omega arith) in
    (
      bytes,
      packed,
      d,
      mounted,
      served d 0 (letters "hello.txt") (file files hello_path) buffer0 node0
          (answer_at 0 (omega arith) refl (λ j h. absurd (omega arith))
            (finddir-Found is.named (c_str "hello.txt") (letters "hello.txt") refl))
          at0 number0 size0 is.hello_at same0,
      served d 1 (letters "test.txt") (file files test_path) buffer1 node1
          (answer_at 1 (omega arith) refl other_name
            (finddir-Found is.named (c_str "test.txt") (letters "test.txt") refl))
          at1 number1 size1 is.test_at same1,
    )
  where
    other_name :
        (j : ℕ) → j < 1 → pick (letters "hello.txt") (letters "test.txt") j ≢ letters "test.txt"
    other_name zero h e = cc
    other_name (suc j) h e = absurd (omega arith)
