-- ===== src/Process/Tests.antt =====
-- A program of five bytes at 0x300000.
use seli_os.Alloc.Sample.{sample}
use seli_os.Memory.{Bitmap}
use seli_os.Process.{Host}
use seli_os.Prelude.{◌∷◌, ◌++◌, replicate}

-- Frames 0 and 0x300 are in use.
abbrev frames : Bitmap
frames = 1 ∷ (replicate 95 0 ++ (1 ∷ replicate 3999 0))

abbrev host : Bitmap → Host
host b = record { heap = sample b; memory = λ a. a; page_directory = λ p. 0; cr3 = 0x4000 }
