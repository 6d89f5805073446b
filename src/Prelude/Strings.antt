-- ===== src/Prelude/Strings.antt =====
-- C string literals: the codes of the characters, with the zero byte behind them.
use Prim.Native.Nat.{ℕ}
use Prim.Native.Char.{code}
use Prim.Native.String.{String}
use mathlib.Core.List.{List, [], ◌∷◌}

abbrev pub letters : String → List ℕ
letters String.[] = []
letters (String.◌∷◌ c s) = code c ∷ letters s

abbrev pub c_str : String → List ℕ
c_str String.[] = 0 ∷ []
c_str (String.◌∷◌ c s) = code c ∷ c_str s
