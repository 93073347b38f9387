-- ===== src/Prelude/Texts.antt =====
-- Python strings: their code points, their length, and the tests on whole texts.
use Prim.Native.Char.{code}
use Prim.Native.String.{String, ◌++◌ as append}
use Prim.Native.Nat.{ℕ}
use mathlib.Core.List.{List, [], ◌∷◌}
use call_agent.Prelude.Lists.{length}

-- `String` has its own `[]` and `∷`.
abbrev pub codes : String → List ℕ
codes String.[] = []
codes (String.◌∷◌ c s) = code c ∷ codes s

-- `len(s)`
abbrev pub len : String → ℕ
len s = length (codes s)

-- `a + b`
abbrev pub concat : String → String → String
concat a b = append a b
