-- ===== src/Common/Text.antt =====
-- What the program uses of Go's package `strings`.
use Prim.Native.Char.{code}
use Prim.Native.Nat.{ℕ}
use Prim.Native.String.{String}
use mathlib.Core.Bool.{Bool, false, ◌&&◌, ◌||◌}
use mathlib.Core.List.{List, [], ◌∷◌}
use text.Mathlib.Text.{◌==◌}
use dashboard_site.Common.Tests.{leb, eqb, if◌then◌else◌}

-- unicode.IsSpace
is_space : ℕ → Bool
is_space c =
    (leb 9 c && leb c 13)
    || eqb c 32
    || eqb c 0x85
    || eqb c 0xA0
    || eqb c 0x1680
    || (leb 0x2000 c && leb c 0x200A)
    || eqb c 0x2028
    || eqb c 0x2029
    || eqb c 0x202F
    || eqb c 0x205F
    || eqb c 0x3000

trim_left : String → String
unfolding is_space
trim_left String.[] = ""
trim_left (String.◌∷◌ c s) =
    let rest = trim_left s in if is_space (code c) then rest else String.◌∷◌ c s

trim_right : String → String
unfolding is_space
trim_right String.[] = ""
trim_right (String.◌∷◌ c s) =
    let rest = trim_right s in if rest == "" && is_space (code c) then "" else String.◌∷◌ c rest

-- strings.TrimSpace
unfoldable pub trim_space : String → String
unfolding trim_left trim_right
trim_space s = trim_right (trim_left s)

-- slices.Contains, and the loops that search a slice of strings
unfoldable pub contains : String → List String → Bool
contains s [] = false
contains s (x ∷ xs) = x == s || contains s xs

-- The loop of `dedupe` of internal/models/user.go; `keys` holds the entries seen. The keys of a Go
-- map that is filled from a slice are the same.
unfoldable pub dedupe_from : List String → List String → List String
dedupe_from keys [] = []
dedupe_from keys (entry ∷ rest) =
    let old = dedupe_from keys rest in
    let new = entry ∷ dedupe_from (entry ∷ keys) rest in if contains entry keys then old else new

unfoldable pub dedupe : List String → List String
unfolding dedupe_from
dedupe = dedupe_from []
