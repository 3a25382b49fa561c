-- ===== src/Prelude/Text/Paths.antt =====
-- path/filepath on Unix, where the separator is `/` and ToSlash changes nothing.
use mathlib.Core.Bool.{Bool}
use mathlib.Core.List.{List, [], ◌∷◌, ◌++◌, reverse}
use net_drive.Prelude.Tests.{eqb, if◌then◌else◌}
use net_drive.Prelude.Equality.{◌==◌, text_eq, text_beq}
use net_drive.Prelude.Text.Defs.{
  Text, codes, slash, is_empty, has_prefix, has_slash, split, join, trim_right,
}

-- One element of Clean; the elements kept so far are listed last first.
unfoldable pub clean_part : Bool → List Text → Text → List Text
clean_part rooted out [] = out
clean_part rooted [] (c ∷ s) =
    if (c ∷ s) == codes "."
    then []
    else if (c ∷ s) == codes ".."
    then (if rooted then [] else (c ∷ s) ∷ [])
    else (c ∷ s) ∷ []
clean_part rooted (top ∷ out) (c ∷ s) =
    if (c ∷ s) == codes "."
    then top ∷ out
    else if (c ∷ s) == codes ".."
    then (if top == codes ".." then (c ∷ s) ∷ top ∷ out else out)
    else (c ∷ s) ∷ top ∷ out

unfoldable pub clean_parts : Bool → List Text → List Text → List Text
unfolding clean_part
clean_parts rooted out [] = reverse out
clean_parts rooted out (part ∷ rest) = clean_parts rooted (clean_part rooted out part) rest

-- filepath.Clean
unfoldable pub clean : Text → Text
unfolding clean_parts text_beq has_prefix split join
clean path =
    let rooted = has_prefix path (slash ∷ []) in
    let body = join (clean_parts rooted [] (split path)) in
    if rooted then slash ∷ body else if is_empty body then codes "." else body

-- filepath.Join(a, b)
unfoldable pub join_path : Text → Text → Text
unfolding clean
join_path [] [] = []
join_path [] (c ∷ b) = clean (c ∷ b)
join_path (c ∷ a) [] = clean (c ∷ a)
join_path (c ∷ a) (d ∷ b) = clean ((c ∷ a) ++ (slash ∷ d ∷ b))

-- path[:i+1] and path[i+1:] for the last `/` at i
unfoldable pub to_last_slash : Text → Text
to_last_slash [] = []
to_last_slash (c ∷ s) = elim (to_last_slash s) [
  | [] ↦ if eqb c slash then c ∷ [] else []
  | d ∷ t ↦ c ∷ d ∷ t
]

unfoldable pub after_last_slash : Text → Text
unfolding has_slash
after_last_slash [] = []
after_last_slash (c ∷ s) =
    let rest = after_last_slash s in if has_slash s then rest else if eqb c slash then s else c ∷ s

-- filepath.Dir
unfoldable pub dir : Text → Text
unfolding to_last_slash clean
dir path = clean (to_last_slash path)

-- filepath.Base
unfoldable pub base : Text → Text
unfolding trim_right after_last_slash
base [] = codes "."
base (c ∷ s) = elim (trim_right (c ∷ s)) [ [] ↦ slash ∷ [] | d ∷ t ↦ after_last_slash (d ∷ t) ]
