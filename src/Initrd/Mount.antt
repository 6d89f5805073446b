-- ===== src/Initrd/Mount.antt =====
-- `initialize_initrd`: the table of nodes that it builds from the headers of the blob.
use mathlib.Core.Path.{subst}
use mathlib.Core.List.{append_assoc}
use seli_os.CString.Text.{text, text_take, Readable, text-text_take, set?-append}
use seli_os.CString.Copy.{strncpy_lem, length-text_take-le}
use seli_os.Fs.{FsNode, Dirent, initrd_read, initrd_readdir, initrd_finddir}
use seli_os.Initrd.{
  Region, Disk, bytes_from, load32, header_address, node_name, root_node, file_node, populate,
  initialize_initrd,
}
use seli_os.Prelude.{
  ℕ, zero, suc, ◌+◌, ◌-◌, ◌<◌, ◌≡◌, refl, sym, ap, ◌∙◌, Option, none, some, List, [], ◌∷◌, ◌++◌,
  arith, length, get_elem?, drop, replicate, set?, length-append, length-replicate, length-drop,
  ◌>>=◌,
}

-- Behind some zero bytes stands one more.
zeros : (m : ℕ) (rest : List ℕ) → (more : List ℕ) × (replicate m 0 ++ (0 ∷ rest) ≡ 0 ∷ more)
zeros zero rest = (rest, refl)
zeros (suc m) rest = (replicate m 0 ++ (0 ∷ rest), refl)

one_left : (xs : List ℕ) → length xs ≡ 1 → (x : ℕ) × (xs ≡ x ∷ [])
one_left [] e = absurd (omega arith)
one_left (x ∷ []) e = (x, refl)
one_left (x ∷ y ∷ xs) e = absurd (omega arith)

-- A name of at most 127 bytes of the header's text, always terminated.
node_name-text :
    (storage source : List ℕ)
    → length storage ≡ 128
    → Readable 127 source
    → (name : List ℕ) × (node_name storage source ≡ some name)
      × (text name ≡ some (text_take 127 source))
unfolding node_name
node_name-text storage source h r =
    let k = length (text_take 127 source) in
    let (x, last) = one_left (drop 127 storage) (omega (arith, length-drop {0} 127 storage)) in
    let (more, zs) = zeros (127 - k) [] in
    let front = text_take 127 source ++ replicate (127 - k) 0 in
    let long : 127 ≡ length front = omega (
      arith,
      length-append {0} (text_take 127 source) (replicate (127 - k) 0),
      length-replicate {0} {A = ℕ} (127 - k) 0,
      length-text_take-le 127 source,
    ) in
    (
      text_take 127 source ++ (0 ∷ more),
      ap (λ o. o >>= λ name. set? name 127 0) (strncpy_lem storage source 127 r (omega arith))
          ∙ ap (λ d. set? (text_take 127 source ++ (replicate (127 - k) 0 ++ d)) 127 0) last
          ∙ ap (λ l. set? l 127 0) (sym (append_assoc (text_take 127 source) _ (x ∷ [])))
          ∙ set?-append front x 0 [] 127 long
          ∙ ap some (
              append_assoc (text_take 127 source) _ (0 ∷ [])
              ∙ ap (λ d. text_take 127 source ++ d) zs),
      text-text_take 127 source more,
    )

-- The headers of files `i` and up, `left` of them, can be read: the length and 127 name bytes.
pub record IsHeaders (blob : Region) (location n : ℕ) (lens : ℕ → ℕ) : Type 0 where
  pub lengths : (i : ℕ) → i < n → load32 blob (header_address location i + 4) ≡ some (lens i)
  pub names : (i : ℕ) → i < n → Readable 127 (bytes_from blob (header_address location i + 12))

abbrev pub Cells : List (List ℕ) → Type 0
Cells [] = Unit {0}
Cells (cell ∷ rest) = (length cell ≡ 128) × Cells rest

-- The node of file `i`, as `initialize_initrd` fills it in.
pub record IsFileNode (blob : Region) (location i file_length : ℕ) (node : FsNode) : Type 0 where
  pub named :
      text node.name ≡ some (text_take 127 (bytes_from blob (header_address location i + 12)))
  pub is_file : node.flags ≡ 1
  pub size : node.len ≡ file_length
  pub number : node.inode ≡ i
  pub readable : node.read ≡ some initrd_read
  pub read_only : node.write ≡ none
  pub no_directory : (node.readdir ≡ none) × (node.finddir ≡ none)

file_node-IsFileNode :
    (blob : Region) (location i file_length : ℕ) (cell : List ℕ)
    → length cell ≡ 128
    → Readable 127 (bytes_from blob (header_address location i + 12))
    → load32 blob (header_address location i + 4) ≡ some file_length
    → (node : FsNode) × (file_node blob location i cell ≡ some node)
      × IsFileNode blob location i file_length node
unfolding file_node
file_node-IsFileNode blob location i file_length cell h r l =
    let (name, made, named) =
      node_name-text cell (bytes_from blob (header_address location i + 12)) h r in
    (
      record {
        name = name;
        flags = 1;
        len = file_length;
        inode = i;
        read = some initrd_read;
        write = none;
        open_fn = none;
        close = none;
        readdir = none;
        finddir = none;
      },
      rw (made, ◌>>=◌, l) refl,
      record {
        named = named;
        is_file = refl;
        size = refl;
        number = refl;
        readable = refl;
        read_only = refl;
        no_directory = (refl, refl);
      },
    )

module _ {blob : Region} {location n : ℕ} {lens : ℕ → ℕ} (is : IsHeaders blob location n lens) where
  populate-IsFileNode :
      (left i : ℕ) (storage : List (List ℕ))
      → i + left ≡ n
      → length storage ≡ left
      → Cells storage
      → (nodes : List FsNode) × (populate blob location left i storage ≡ some nodes)
        × ((j : ℕ)
            → j < left
            → (node : FsNode) × (get_elem? nodes j ≡ some node)
              × IsFileNode blob location (i + j) (lens (i + j)) node)
  unfolding populate
  populate-IsFileNode zero i storage e h c = ([], refl, λ j below. absurd (omega arith))
  populate-IsFileNode (suc left) i [] e h c = absurd (omega arith)
  populate-IsFileNode (suc left) i (cell ∷ storage) e h (long, c) =
      let (node, made, is_node) =
        file_node-IsFileNode blob location i (lens i) cell long (is.names i (omega arith))
          (is.lengths i (omega arith)) in
      let (nodes, rest, all) =
        populate-IsFileNode left (i + 1) storage (omega arith) (omega arith) c in
      (node ∷ nodes, rw (made, ◌>>=◌, rest) refl, λ j. place node nodes is_node all j)
    where
      place :
          (node : FsNode) (nodes : List FsNode)
          → IsFileNode blob location i (lens i) node
          → ((j : ℕ)
              → j < left
              → (node : FsNode) × (get_elem? nodes j ≡ some node)
                × IsFileNode blob location (i + 1 + j) (lens (i + 1 + j)) node)
          → (j : ℕ) → j < suc left
          → (m : FsNode) × (get_elem? (node ∷ nodes) j ≡ some m)
            × IsFileNode blob location (i + j) (lens (i + j)) m
      place node nodes first all zero below =
          let same : i ≡ i + 0 = omega arith in
          (node, refl, subst (λ k. IsFileNode blob location k (lens k) node) same first)
      place node nodes first all (suc j) below =
          let (m, at, is_m) = all j (omega arith) in
          let same : i + 1 + j ≡ i + suc j = omega arith in
          (m, at, subst (λ k. IsFileNode blob location k (lens k) m) same is_m)

  -- `initialize_initrd` over a blob whose header fields can be read, with memory for the root and
  -- for as many nodes as the blob counts, mounts every file: node `i` is a read-only file with
  -- number `i`, the length of header `i`, and the first 127 bytes of its name; the disk keeps the
  -- blob, its address and the old directory entry.
  pub initialize_initrd-IsFileNode :
      (old : Dirent) (root_cell : List ℕ) (malloc_files : ℕ → Option (List (List ℕ)))
      (storage : List (List ℕ))
      → load32 blob location ≡ some n
      → length root_cell ≡ 128
      → malloc_files n ≡ some storage
      → length storage ≡ n
      → Cells storage
      → (d : Disk) × (initialize_initrd blob location old (some root_cell) malloc_files ≡ some d)
        × (d.num_files ≡ n)
        × ((d.blob ≡ blob) × (d.blob_start ≡ location) × (d.dirent ≡ old))
        × ((i : ℕ)
            → i < n
            → (node : FsNode) × (get_elem? d.file_nodes i ≡ some node)
              × IsFileNode blob location i (lens i) node)
  unfolding initialize_initrd root_node
  initialize_initrd-IsFileNode old root_cell malloc_files storage count root mem h c =
      let (name, made, named) =
        node_name-text root_cell (b'i' ∷ b'n' ∷ b'i' ∷ b't' ∷ b'r' ∷ b'd' ∷ 0 ∷ []) root tt in
      let (nodes, rest, all) = populate-IsFileNode n 0 storage (omega arith) h c in
      (
        record {
          blob = blob;
          blob_start = location;
          root = record {
            name = name;
            flags = 2;
            len = 0;
            inode = 0;
            read = none;
            write = none;
            open_fn = none;
            close = none;
            readdir = some initrd_readdir;
            finddir = some initrd_finddir;
          };
          file_nodes = nodes;
          num_files = n;
          dirent = old;
        },
        rw (count, ◌>>=◌, made, ◌>>=◌, mem, ◌>>=◌, rest) refl,
        refl,
        (refl, refl, refl),
        λ i below.
            let (m, at, is_m) = all i below in
            let same : 0 + i ≡ i = omega arith in
            (m, at, subst (λ k. IsFileNode blob location k (lens k) m) same is_m),
      )
