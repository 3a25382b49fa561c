-- ===== src/Prelude/Text/Defs.antt =====
-- Bytes, literals, and the functions of `strings`.
use Prim.Native.Char.{code}
use Prim.Native.String.{String}
use Prim.Native.Nat.{ℕ}
use mathlib.Core.Bool.{Bool, true, false, ◌&&◌}
use mathlib.Core.List.{List, [], ◌∷◌, ◌++◌}
use net_drive.Prelude.Tests.{eqb, ltb, if◌then◌else◌}
use net_drive.Prelude.Lists.{length, drop}

abbrev pub Text : Type 0
Text = List ℕ

-- The bytes of an ASCII literal.
abbrev pub codes : String → Text
codes String.[] = []
codes (String.◌∷◌ c s) = code c ∷ codes s

abbrev pub slash : ℕ
slash = 47

abbrev pub is_empty : Text → Bool
is_empty [] = true
is_empty (c ∷ s) = false

-- strings.HasPrefix(s, prefix)
unfoldable pub has_prefix : Text → Text → Bool
has_prefix s [] = true
has_prefix [] (p ∷ ps) = false
has_prefix (c ∷ s) (p ∷ ps) = eqb c p && has_prefix s ps

-- strings.TrimPrefix(s, prefix)
unfoldable pub trim_prefix : Text → Text → Text
unfolding has_prefix
trim_prefix s prefix = if has_prefix s prefix then drop (length prefix) s else s

-- strings.Trim(s, "/"), on the left, on the right and on both sides
unfoldable pub trim_left : Text → Text
trim_left [] = []
trim_left (c ∷ s) = let rest = trim_left s in if eqb c slash then rest else c ∷ s

unfoldable pub trim_right : Text → Text
trim_right [] = []
trim_right (c ∷ s) = elim (trim_right s) [
  | [] ↦ if eqb c slash then [] else c ∷ []
  | d ∷ t ↦ c ∷ d ∷ t
]

unfoldable pub trim : Text → Text
unfolding trim_left trim_right
trim s = trim_right (trim_left s)

-- strings.Contains(s, "/")
unfoldable pub has_slash : Text → Bool
has_slash [] = false
has_slash (c ∷ s) = if eqb c slash then true else has_slash s

-- strings.Split(s, "/")
unfoldable pub split : Text → List Text
split [] = [] ∷ []
split (c ∷ s) =
    let parts = split s in
    if eqb c slash
    then [] ∷ parts
    else elim parts [ [] ↦ (c ∷ []) ∷ [] | part ∷ rest ↦ (c ∷ part) ∷ rest ]

-- strings.Join(parts, "/")
unfoldable pub join : List Text → Text
join [] = []
join (part ∷ []) = part
join (part ∷ next ∷ rest) = part ++ (slash ∷ join (next ∷ rest))

-- Go's `s >= t` on strings
unfoldable pub text_geb : Text → Text → Bool
text_geb s [] = true
text_geb [] (d ∷ t) = false
text_geb (c ∷ s) (d ∷ t) = if ltb d c then true else eqb c d && text_geb s t
