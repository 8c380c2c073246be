-- ===== src/Prelude/Text.antt =====
-- Go's strings: sequences of bytes.
use Prim.Native.Nat.{ℕ}
use Prim.Native.Char.{code}
use Prim.Native.String.{String}
use mathlib.Core.Bool.{Bool, true, false}
use mathlib.Core.List.{List, [], ◌∷◌}
use native.Mathlib.Decide.{ℕ_discrete}

abbrev pub Str : Type 0
Str = List ℕ

-- The bytes of an ASCII text.
abbrev pub codes : String → Str
codes String.[] = []
codes (String.◌∷◌ c s) = code c ∷ codes s

unfoldable pub Str-discrete : Discrete Str
unfolding ℕ_discrete
Str-discrete = hlevel ℕ_discrete

abbrev pub str_eq : Str → Str → Bool
str_eq s t = elim (Str-discrete s t) [ yes _ ↦ true | no _ ↦ false ]
