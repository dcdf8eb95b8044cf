-- ===== src/Prelude/Text.antt =====
-- Texts as the code points that Python iterates over.
use Prim.Native.Nat.{ℕ}
use Prim.Native.Char.{code}
use Prim.Native.String.{String}
use mathlib.Core.Bool.{Bool}
use mathlib.Core.List.{List, [], ◌∷◌}
use fetch_now.Prelude.Tests.{◌==◌}
use fetch_now.Prelude.Lists.{any}

abbrev pub codes : String → List ℕ
codes String.[] = []
codes (String.◌∷◌ c s) = code c ∷ codes s

-- `chr(c) in s`
abbrev pub has_code : ℕ → List ℕ → Bool
has_code c s = any (λ d. d == c) s
