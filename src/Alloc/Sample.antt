-- ===== src/Alloc/Sample.antt =====
-- A heap with one free block of 512 units, the first 4 MiB mapped.
use seli_os.Memory.{Bitmap}
use seli_os.Alloc.{Heap, set_field, start_list, take_block, malloc_loop, malloc}
use seli_os.Prelude.{◌+◌, ◌*◌, ◌≡◌, refl, some}

abbrev pub sample : Bitmap → Heap
sample frames = record {
  ptr = set_field (set_field (λ x. 0) 0xC0110000 0xC0120000) 0xC0120000 0xC0110000;
  size = set_field (λ x. 0) 0xC0120000 512;
  base = 0xC0110000;
  freep = 0xC0110000;
  heap_end = 0xC0402000;
  bitmap = frames;
  paging = record {
    page_directory = λ i. 0x5003;
    first_page_table = λ i. i * 4096 + 3;
    table_physical = 0x5000;
  };
}

-- 16 bytes take 3 units off the end of the block.
abbrev pub sample_taken : Bitmap → Heap
sample_taken frames =
    let h = sample frames in
    record h { size = set_field (set_field h.size 0xC0120000 509) 0xC0120FE8 3 }

pub sample_run :
    (frames : Bitmap) → malloc 4 16 (sample frames) ≡ some (0xC0120FF0, sample_taken frames)
unfolding start_list take_block malloc_loop malloc
sample_run frames = refl
