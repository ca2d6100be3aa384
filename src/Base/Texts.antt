-- ===== src/Base/Texts.antt =====
-- Texts as lists of bytes.
use Prim.Native.Char.{code}
use Prim.Native.Nat.{ℕ}
use Prim.Native.String.{String}
use mathlib.Core.List.{List, [], ◌∷◌}

-- The bytes of a text in ASCII.
abbrev pub codes : String → List ℕ
codes String.[] = []
codes (String.◌∷◌ c s) = code c ∷ codes s
