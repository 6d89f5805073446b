-- ===== src/Kmain/Mount.antt =====
-- The RAM disk that make_initrd packs is a mounted disk for the shell.
use seli_os.Fs.{FsNode, Dirent}
use seli_os.Fs.Dispatch.Mounted.{IsMounted}
use seli_os.Initrd.{Disk}
use seli_os.Initrd.Image.{Files}
use seli_os.Initrd.Image.Fields.{pick}
use seli_os.Initrd.Image.RoundTrip.{IsImage}
use seli_os.Initrd.Read.{FileAt}
use mathlib.Core.Path.{subst}
use seli_os.Prelude.{
  ℕ, zero, suc, ◌<◌, ◌≡◌, sym, ap, ◌∙◌, some, List, arith, length, get_elem?, eq_of_some,
}
use seli_os.Prelude.Strings.{letters}

short : (j : ℕ) → j < 2 → length (pick (letters "hello.txt") (letters "test.txt") j) < 128
short zero h = omega arith
short (suc zero) h = omega arith
short (suc (suc j)) h = absurd (omega arith)

module _ (files : Files) (old : Dirent) (d : Disk) (is : IsImage files old d) where
  content_at : (j : ℕ) → j < 2 → (content : List ℕ) × FileAt d j content
  content_at zero h = (_, is.hello_at)
  content_at (suc zero) h = (_, is.test_at)
  content_at (suc (suc j)) h = absurd (omega arith)

  content_of_node :
      (j : ℕ) (node : FsNode)
      → j < 2
      → get_elem? d.file_nodes j ≡ some node
      → (content : List ℕ) × FileAt d node.inode content
  content_of_node j node below at =
      let (same, at', number, size) = is.nodes j below in
      let (content, there) = content_at j below in
      let equal : node ≡ same = eq_of_some (sym at ∙ at') in
      (content, subst (λ k. FileAt d k content) (sym (ap (λ n. n.inode) equal ∙ number)) there)

  pub IsImage-IsMounted : length old.name ≡ 128 → IsMounted d
  IsImage-IsMounted size =
      let two = is.two in
      record {
        names = pick (letters "hello.txt") (letters "test.txt");
        named = is.named;
        short = λ j below. short j (omega arith);
        entry = ap (λ e. length e.name) is.entry ∙ size;
        content = λ j node below at. content_of_node j node (omega arith) at;
      }
