-- ===== src/Mount/Path.antt =====
-- internal/platform/windows/path.go: the normal form of a path. strings.TrimSpace is that of ASCII.
use net_drive.Prelude.{
  ℕ, Bool, false, Option, none, some, List, [], ◌∷◌, ◌++◌, eqb, leb, if◌then◌else◌, ◌||◌, ◌&&◌,
  ◌==◌, text_eq, text_beq,
}
use net_drive.Prelude.Text.{Text, codes, slash, is_empty, trim, trim_prefix, split, join}
use net_drive.Prelude.Text.Paths.{clean}

abbrev pub backslash : ℕ
backslash = 92

unfoldable pub is_space : ℕ → Bool
is_space c = eqb c 32 || (leb 9 c && leb c 13)

unfoldable pub skip_space : Text → Text
unfolding is_space
skip_space [] = []
skip_space (c ∷ s) = let rest = skip_space s in if is_space c then rest else c ∷ s

unfoldable pub drop_space : Text → Text
unfolding is_space
drop_space [] = []
drop_space (c ∷ s) = elim (drop_space s) [
  | [] ↦ if is_space c then [] else c ∷ []
  | d ∷ t ↦ c ∷ d ∷ t
]

-- strings.TrimSpace
unfoldable pub trim_space : Text → Text
unfolding skip_space drop_space
trim_space s = drop_space (skip_space s)

-- strings.ReplaceAll(s, "\\", "/")
unfoldable pub to_slashes : Text → Text
to_slashes [] = []
to_slashes (c ∷ s) = (if eqb c backslash then slash else c) ∷ to_slashes s

-- The loop over the parts; `none` where one of them is `..`.
unfoldable pub keep_parts : List Text → Option (List Text)
unfolding text_beq
keep_parts [] = some []
keep_parts (part ∷ parts) =
    let rest = keep_parts parts in
    if is_empty part || part == codes "."
    then rest
    else if part == codes ".."
    then none
    else elim rest [ none ↦ none | some kept ↦ some (part ∷ kept) ]

unfoldable pub rooted : List Text → Text
unfolding join clean
rooted [] = slash ∷ []
rooted (part ∷ parts) = slash ∷ clean (join (part ∷ parts))

-- NormalizeMountPath; `none` where the path climbs up.
unfoldable pub normalize_mount_path : Text → Option Text
unfolding text_beq trim_space to_slashes trim_prefix split keep_parts rooted
normalize_mount_path input =
    let replaced = to_slashes (trim_space input) in
    if is_empty replaced || replaced == codes "."
    then some (slash ∷ [])
    else elim (keep_parts (split (trim_prefix replaced (slash ∷ [])))) [
      | none ↦ none
      | some parts ↦ some (rooted parts)
    ]

unfoldable pub split_mount_path : Text → Option (List Text)
unfolding normalize_mount_path
split_mount_path input = elim (normalize_mount_path input) [
  | none ↦ none
  | some path ↦ if path == slash ∷ [] then some [] else some (split (trim_prefix path (slash ∷ [])))
]

unfoldable pub path_or : Text → Option Text → Text
path_or other none = other
path_or other (some path) = path

unfoldable pub join_child : Text → Text → Text
unfolding text_beq
join_child parent child =
    if is_empty child
    then parent
    else if parent == slash ∷ []
    then slash ∷ child
    else parent ++ (slash ∷ child)

unfoldable pub join_mount_path : Text → Text → Text
unfolding normalize_mount_path path_or join_child trim_space to_slashes trim
join_mount_path parent name =
    let parent' = path_or (slash ∷ []) (normalize_mount_path parent) in
    let joined = join_child parent' (trim (to_slashes (trim_space name))) in
    path_or joined (normalize_mount_path joined)

unfoldable pub is_root_path : Text → Bool
unfolding normalize_mount_path text_beq
is_root_path input = elim (normalize_mount_path input) [
  | none ↦ false
  | some path ↦ path == slash ∷ []
]
