-- ===== src/Prelude/Texts.antt =====
-- Boolean tests on texts.
use Prim.Native.Nat.{ℕ, Ordering}
use Prim.Native.String
use Prim.Native.String.{String}
use Prim.Native.Char.{code}
use mathlib.Core.Bool.{Bool, true, false, ◌&&◌}
use mathlib.Core.List.{List, [], ◌∷◌}
use condrun.Prelude.Tests.{leb}

abbrev pub same : String → String → Bool
same s t = elim (String.compare s t) [ Ordering.eq ↦ true | _ ↦ false ]

-- `str::contains`
abbrev pub contains : String → String → Bool
contains s t = leb (String.find s t) (String.len s)

abbrev pub all_same : List String → List String → Bool
all_same [] [] = true
all_same [] (t ∷ ts) = false
all_same (s ∷ ss) [] = false
all_same (s ∷ ss) (t ∷ ts) = same s t && all_same ss ts

-- Every test passes.
abbrev pub every : List Bool → Bool
every [] = true
every (b ∷ bs) = b && every bs

-- The code points of a text: its bytes, if it is ASCII.
abbrev pub codes : String → List ℕ
codes String.[] = []
codes (String.◌∷◌ c s) = code c ∷ codes s
