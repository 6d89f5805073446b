-- ===== src/CString/Tests.antt =====
-- The string routines at concrete arrays.
use seli_os.CString.{strcmp}
use seli_os.CString.Compare.{IsOrder, strcmp-IsOrder}
use seli_os.Prelude.{ℕ, refl, List, [], ◌∷◌}

abbrev ls_line : List ℕ
ls_line = b'l' ∷ b's' ∷ 0 ∷ 7 ∷ []

abbrev cat_line : List ℕ
cat_line = b'c' ∷ b'a' ∷ b't' ∷ 0 ∷ []

strcmp-IsOrder_example :
    IsOrder (b'l' ∷ b's' ∷ []) (b'c' ∷ b'a' ∷ b't' ∷ []) (strcmp ls_line cat_line)
strcmp-IsOrder_example =
    strcmp-IsOrder ls_line cat_line (b'l' ∷ b's' ∷ []) (b'c' ∷ b'a' ∷ b't' ∷ []) refl refl

abbrev three : List ℕ
three = 1 ∷ 2 ∷ 3 ∷ []
