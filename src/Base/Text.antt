-- ===== src/Base/Text.antt =====
-- `strings.Split` and `strings.Join` at a separator of one character, over Go strings of code points.
use Prim.Native.Char.{Char, code}
use Prim.Native.String.{String, [], ◌∷◌, ◌++◌}
use mathlib.Core.Logic.{◌≢◌}
use mathlib.Core.List.{List, [], ◌∷◌}
use karlon.Base.Tests.{nat_eq, if◌then◌else◌}

-- the words before the first separator and behind it: a word is closed when the separator comes
unfoldable pub prepend : Char → List String → List String
prepend c [] = (c ∷ []) ∷ []
prepend c (w ∷ ws) = (c ∷ w) ∷ ws

-- `strings.Split(s, sep)`
unfoldable pub split : Char → String → List String
split sep [] = [] ∷ []
split sep (c ∷ s) =
    let rest = split sep s in if nat_eq (code c) (code sep) then [] ∷ rest else prepend c rest

-- `strings.Join(ws, sep)`
unfoldable pub join : String → List String → String
join sep [] = []
join sep (w ∷ []) = w
join sep (w ∷ (v ∷ ws)) = w ++ (sep ++ join sep (v ∷ ws))

-- a text without the separator
abbrev pub Lacks : Char → String → Type 0
Lacks sep [] = Unit
Lacks sep (c ∷ s) = (code c ≢ code sep) × Lacks sep s

-- `fmt.Sprintf` of a format that joins texts
unfoldable pub sprint : List String → String
sprint [] = ""
sprint (w ∷ ws) = w ++ sprint ws
