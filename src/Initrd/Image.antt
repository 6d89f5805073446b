-- ===== src/Initrd/Image.antt =====
-- tools/make_initrd.c: the program that packs the files of the RAM disk into its image.
pub mod Layout
pub mod Fields
pub mod RoundTrip
use seli_os.CString.{strcpy}
use seli_os.Prelude.{
  ℕ, zero, suc, ◌+◌, ◌*◌, ◌/◌, ◌%◌, ◌^◌, Bool, Option, none, some, List, [], ◌∷◌, ◌++◌, length,
  take, drop, ◌==◌, if◌then◌else◌, ◌>>=◌,
}
use seli_os.Prelude.Strings.{c_str}

-- What `fopen` and `fread` give for a path: `none` if the file cannot be opened.
abbrev pub Files : Type 0
Files = List ℕ → Option (List ℕ)

-- `ftell` at the end of the file, as an `unsigned int`.
pub get_file_size : Files → List ℕ → ℕ
get_file_size files filename = elim (files filename) [
  | none ↦ 0
  | some content ↦ length content % 2 ^ 32
]

-- The loop over the chunks of a file: `left` bounds the rounds, of which each but the last moves at
-- least one byte.
pub dump_chunks : ℕ → List ℕ → List ℕ → List ℕ
dump_chunks zero rest output = output
dump_chunks (suc left) rest output =
    let chunk = take 4096 rest in
    let more = dump_chunks left (drop 4096 rest) (output ++ chunk) in
    if length chunk == 0 then output else more

-- The output file with the data behind it.
pub dump_file_data : Files → List ℕ → List ℕ → List ℕ
unfolding dump_chunks
dump_file_data files filename output = elim (files filename) [
  | none ↦ output
  | some content ↦ dump_chunks (length content + 1) content output
]

-- A 32-bit number as `fwrite` puts it on the host, least significant byte first.
abbrev pub word : ℕ → List ℕ
word n = n % 256 ∷ n / 2 ^ 8 % 256 ∷ n / 2 ^ 16 % 256 ∷ n / 2 ^ 24 % 256 ∷ []

pub record FileHeader : Type 0 where
  pub magic_number : ℕ
  pub file_length : ℕ
  pub starting_offset : ℕ
  pub file_name : List ℕ

abbrev pub header_bytes : FileHeader → List ℕ
header_bytes h =
    word h.magic_number ++ (word h.file_length ++ (word h.starting_offset ++ h.file_name))

-- The image; `none` is EXIT_FAILURE. `can_create` is whether `fopen` gives the output file,
-- and `header0` and `header1` are what the local array holds before it is filled in. The
-- host's `strcpy` is the function of CString.
pub main : Files → Bool → FileHeader → FileHeader → Option (List ℕ)
unfolding get_file_size dump_file_data
main files can_create header0 header1 =
    if can_create
    then (do
      let offset = 4 + 2 * 140
      name0 ← strcpy header0.file_name (c_str "hello.txt")
      let h0 : FileHeader = record header0 {
        file_name = name0;
        file_length = get_file_size files (c_str "rootfs/hello.txt");
        starting_offset = offset % 2 ^ 32;
      }
      name1 ← strcpy header1.file_name (c_str "test.txt")
      let h1 : FileHeader = record header1 {
        file_name = name1;
        file_length = get_file_size files (c_str "rootfs/test.txt");
        starting_offset = (offset + h0.file_length) % 2 ^ 32;
      }
      let table = word 2 ++ (header_bytes h0 ++ header_bytes h1)
      some (
          dump_file_data files (c_str "rootfs/test.txt")
            (dump_file_data files (c_str "rootfs/hello.txt") table)))
    else none
