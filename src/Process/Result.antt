-- ===== src/Process/Result.antt =====
-- What `create_process` returns.
use seli_os.Alloc.{Heap}
use seli_os.Paging.{put}
use seli_os.Paging.User.{Space}
use seli_os.Process.{Host, with_space}
use seli_os.Prelude.{ℕ}

-- The state after the directory is made.
abbrev entered : Host → Heap → ℕ → ℕ → Space → Host
entered h heap p directory space = record (with_space space (record h { heap = heap })) {
  page_directory = put h.page_directory p directory;
  cr3 = directory;
}
