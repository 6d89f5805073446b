-- ===== src/Kmain/Start.antt =====
-- The RAM disk is mounted and the threads are started.
use seli_os.Initrd.{initialize_initrd}
use seli_os.Initrd.Image.{FileHeader, Files, main}
use seli_os.Initrd.Image.Fields.{hello_path, test_path}
use seli_os.Initrd.Image.RoundTrip.{main-IsImage}
use seli_os.Initrd.Image.Layout.{file}
use seli_os.Initrd.Mount.{Cells}
use seli_os.Interrupt.{Machine, send}
use seli_os.Interrupt.Live.{IsLive, send-IsLive}
use seli_os.Kmain.{Linked, MultibootInfo, Allocated, reachable, mount_module, start_threads}
use seli_os.Kmain.Mount.{IsImage-IsMounted}
use seli_os.Paging.{Paging}
use seli_os.Paging.Map.{resolve}
use seli_os.Terminal.{Terminal}
use seli_os.Terminal.Enter.{IsReady}
use seli_os.Terminal.Keys.{Keeps-IsReady}
use seli_os.Terminal.Open.{remounted-IsReady}
use seli_os.Terminal.Ready.{Yields, show-Keeps}
use seli_os.Thread.{Thread}
use seli_os.Timer.{reload-init_timer}
use seli_os.Thread.Ring.{init_threads-IsRing, create_thread-IsRing}
use seli_os.Prelude.{
  ℕ, ◌+◌, ◌%◌, ◌^◌, ◌≤◌, ◌<◌, ◌≡◌, refl, sym, ap, ==_self, ap₂, ◌∙◌, eq_of_some, true, ltb, some,
  List, [], ◌∷◌, arith, length, ◌>>=◌,
}

-- What the boot loader has put into memory: no module, or the image that make_initrd packs from
-- `files`, with memory for its nodes.
pub data IsLoaded (info : MultibootInfo) (given : Allocated) : Type 0 where
  no_module : info.mods_count ≡ 0 → IsLoaded info given
  image_module :
      (files : Files) (h0 h1 : FileHeader) (root_cell : List ℕ) (storage : List (List ℕ))
      → 0 < info.mods_count
      → main files true h0 h1 ≡ some info.module_bytes
      → length h0.file_name ≡ 128
      → length h1.file_name ≡ 128
      → (info.mod_start + 0xC0000000) % 2 ^ 32
          + 284
          + length (file files hello_path)
          + length (file files test_path)
        < 2 ^ 32
      → given.malloc_root ≡ some root_cell
      → length root_cell ≡ 128
      → given.malloc_files 2 ≡ some storage
      → length storage ≡ 2
      → Cells storage
      → IsLoaded info given

-- Each byte of the first 4 MiB is found 0xC0000000 higher.
abbrev pub IsFlat : Paging → Type 0
IsFlat p = (a : ℕ) → a < 2 ^ 22 → resolve p (0xC0000000 + a) ≡ some a

reachable_low :
    (p : Paging) (a v : ℕ) (bytes : List ℕ)
    → IsFlat p
    → v ≡ 0xC0000000 + a
    → a + length bytes ≤ 2 ^ 22
    → reachable p v a bytes ≡ bytes
unfolding reachable
reachable_low p a v [] flat at low = refl
reachable_low p a v (byte ∷ bytes) flat at low =
    let here : resolve p v ≡ some a = ap (resolve p) at ∙ flat a (omega arith) in
    let rest = reachable_low p (a + 1) (v + 1) bytes flat (omega arith) (omega arith) in
    rw (here, ==_self a, rest) refl

module_seen :
    (p : Paging) (info : MultibootInfo)
    → IsFlat p
    → info.mod_start + length info.module_bytes ≤ 2 ^ 22
    → reachable p ((info.mod_start + 0xC0000000) % 2 ^ 32) info.mod_start info.module_bytes
      ≡ info.module_bytes
module_seen p info flat mapped =
    reachable_low p info.mod_start ((info.mod_start + 0xC0000000) % 2 ^ 32) info.module_bytes flat
      (omega arith) mapped

pub mount_module-IsReady :
    (p : Paging) (info : MultibootInfo) (given : Allocated) (t : Terminal)
    → IsFlat p
    → info.mod_start + length info.module_bytes ≤ 2 ^ 22
    → IsLoaded info given
    → IsReady t
    → Yields (mount_module p info given t) IsReady
unfolding mount_module
mount_module-IsReady p info given t flat mapped (no_module none_loaded) ready =
    let (u, e, k) = show-Keeps "ERROR: No GRUB modules loaded!\n" t in
    (u, rw none_loaded e, Keeps-IsReady ready k)
mount_module-IsReady p info given t flat mapped
      (image_module files h0 h1 root_cell storage some_module packed l0 l1 small root l mem count
        cells)
      ready =
    let location = (info.mod_start + 0xC0000000) % 2 ^ 32 in
    let (u, e, k) = show-Keeps "Initrd loaded at memory address...\n" t in
    let (bytes, packed', d, mounted, is) =
      main-IsImage files h0 h1 location u.disk.dirent root_cell given.malloc_files storage l0 l1
        small l mem count cells in
    let loaded : ltb 0 info.mods_count ≡ true = ground arith in
    let seen : reachable p location info.mod_start info.module_bytes ≡ info.module_bytes =
      module_seen p info flat mapped in
    let bytes_are : reachable p location info.mod_start info.module_bytes ≡ bytes =
      seen ∙ eq_of_some (sym packed ∙ packed') in
    let start =
      ap₂
        (λ b r.
          initialize_initrd (record { base = location; bytes = b }) location u.disk.dirent r
            given.malloc_files)
        bytes_are root
      ∙ mounted in
    let room = (k.mounted ready.mounted).entry in
    (
      record u { fs_root = some d.root; disk = d },
      rw (loaded, e, ◌>>=◌, start) refl,
      remounted-IsReady u (some d.root) d (Keeps-IsReady ready k)
          (IsImage-IsMounted files u.disk.dirent d is room),
    )

-- The three threads are a ring, whatever the thread cells held.
pub start_threads-IsRing :
    (linked : Linked) (given : Allocated) (m : Machine) (a b : Thread) (stack_a stack_b : ℕ)
    → given.thread_a ≡ some a
    → given.stack_a ≡ some stack_a
    → given.thread_b ≡ some b
    → given.stack_b ≡ some stack_b
    → 0 < length m.threads.heap
    → IsReady m.terminal
    → m.keyboard_port < 256
    → (k : Machine) × (start_threads linked given m ≡ some k) × IsLive k
unfolding start_threads
start_threads-IsRing linked given m a b stack_a stack_b ta sa tb sb some_thread ready byte =
    let (s0, e0, ring0) = init_threads-IsRing m.threads some_thread in
    let (s1, e1, ring1, _, _) = create_thread-IsRing linked.task_a a stack_a s0 0 [] ring0 in
    let (s2, e2, ring2, _, _) =
      create_thread-IsRing linked.task_b b stack_b s1 0 (length s0.heap ∷ []) ring1 in
    let (sent, timer, _) = reload-init_timer 100 (omega arith) in
    (
      send sent (record m { threads = s2 }),
      rw (e0, ◌>>=◌, ta, sa, e1, ◌>>=◌, tb, sb, e2, ◌>>=◌, timer) refl,
      send-IsLive sent (record m { threads = s2 })
          (record {
            ready = ready;
            current = 0;
            next = length s1.heap;
            rest = length s0.heap ∷ [];
            ring = ring2;
            byte = byte;
          }),
    )
