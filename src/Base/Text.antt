-- ===== src/Base/Text.antt =====
-- Python's texts: `+`, `split(":")` and `endswith`.
use Prim.Native.Nat.{ℕ, ◌-◌}
use Prim.Native.Char.{Char, code}
use Prim.Native.String
use Prim.Native.String.{String, len, slice}
use mathlib.Core.Bool.{Bool, ◌&&◌}
use mathlib.Core.List.{List, [], ◌∷◌}
use feast.Base.Equality.{if◌then◌else◌, ◌==◌, nat_eq, string_eq, leb}

-- `s + t`
unfoldable pub str_concat : String → String → String
str_concat s t = String.◌++◌ s t

abbrev pub prepend : Char → List String → List String
prepend c [] = String.◌∷◌ c String.[] ∷ []
prepend c (s ∷ rest) = String.◌∷◌ c s ∷ rest

-- `s.split(sep)` for a separator of one character, by its number
unfoldable pub split_on : ℕ → String → List String
split_on sep String.[] = String.[] ∷ []
split_on sep (String.◌∷◌ c s) =
    let rest = split_on sep s in if code c == sep then String.[] ∷ rest else prepend c rest

-- `s.endswith(t)`
unfoldable pub ends_with : String → String → Bool
ends_with s t = leb (len t) (len s) && slice s (len s - len t) (len s) == t
