-- ===== src/Backend/Profile.antt =====
-- internal/server/editor_profile.go: which directories and files are worth a prefetch.
use net_drive.Prelude.{
  ◌*◌, Bool, true, false, List, [], ◌∷◌, ◌++◌, ◌||◌, ◌&&◌, not, leb, ltb, ◌+◌, eqb, if◌then◌else◌,
  ◌==◌, text_eq, ok, err,
}
use net_drive.Prelude.Text.{Text, codes, has_prefix, is_empty}
use net_drive.Prelude.Text.Paths.{base, join_path}
use net_drive.Protocol.{NodeInfo, FileType, file, directory}
use net_drive.Backend.Defs.{WorkspaceProfile, Os}

-- membership in a set of names
unfoldable pub has_name : List Text → Text → Bool
has_name [] name = false
has_name (n ∷ names) name = n == name || has_name names name

-- strings.ToLower, on ASCII
unfoldable pub to_lower : Text → Text
to_lower [] = []
to_lower (c ∷ s) = (if leb 65 c && leb c 90 then c + 32 else c) ∷ to_lower s

-- strings.Contains(s, part)
unfoldable pub contains : Text → Text → Bool
unfolding has_prefix
contains [] part = is_empty part
contains (c ∷ s) part = has_prefix (c ∷ s) part || contains s part

-- filepath.Ext of a name without `/`: from its last dot on
unfoldable pub ext : Text → Text
ext [] = []
ext (c ∷ s) = let rest = ext s in if is_empty rest then (if eqb c 46 then c ∷ s else []) else rest

unfoldable pub default_workspace_profile : WorkspaceProfile
default_workspace_profile = record {
  hot_dirs =
      codes ".git"
      ∷ codes ".vscode"
      ∷ codes "src"
      ∷ codes "cmd"
      ∷ codes "internal"
      ∷ codes "pkg"
      ∷ codes "include"
      ∷ codes "lib"
      ∷ [];
  hot_files =
      codes "package.json"
      ∷ codes "tsconfig.json"
      ∷ codes "go.mod"
      ∷ codes "Cargo.toml"
      ∷ codes "pyproject.toml"
      ∷ codes ".gitignore"
      ∷ codes "README.md"
      ∷ codes "README"
      ∷ [];
  ignore_dirs =
      codes "node_modules"
      ∷ codes "dist"
      ∷ codes "build"
      ∷ codes "target"
      ∷ codes ".venv"
      ∷ codes "__pycache__"
      ∷ [];
  small_file_threshold = 256 * 1024;
}

abbrev pub candidate_dirs : List Text
candidate_dirs =
    codes "web"
    ∷ codes "app"
    ∷ codes "apps"
    ∷ codes "services"
    ∷ codes "configs"
    ∷ codes "config"
    ∷ codes "scripts"
    ∷ codes "test"
    ∷ codes "tests"
    ∷ []

abbrev pub candidate_files : List Text
candidate_files =
    codes "pnpm-lock.yaml"
    ∷ codes "yarn.lock"
    ∷ codes "package-lock.json"
    ∷ codes "requirements.txt"
    ∷ codes "Makefile"
    ∷ codes "Taskfile.yml"
    ∷ []

module _ {W : Type 0} (os : Os W) where
  -- the candidates that exist under the root, and are directories or not, as asked
  unfoldable pub existing : W → Text → Bool → List Text → List Text
  existing w root dirs [] = []
  existing w root dirs (name ∷ names) =
      let rest = existing w root dirs names in
      elim (os.stat w (join_path root name)) [
        | err e ↦ rest
        | ok info ↦ if (if dirs then info.is_dir else not info.is_dir) then name ∷ rest else rest
      ]

  unfoldable pub infer_workspace_profile : W → Text → WorkspaceProfile
  unfolding default_workspace_profile existing
  infer_workspace_profile w root =
      let profile = default_workspace_profile in
      record profile {
        hot_dirs = existing w root true candidate_dirs ++ profile.hot_dirs;
        hot_files = existing w root false candidate_files ++ profile.hot_files;
      }

abbrev pub small_extensions : List Text
small_extensions =
    codes ".json"
    ∷ codes ".ts"
    ∷ codes ".tsx"
    ∷ codes ".js"
    ∷ codes ".jsx"
    ∷ codes ".py"
    ∷ codes ".go"
    ∷ codes ".c"
    ∷ codes ".cc"
    ∷ codes ".cpp"
    ∷ codes ".h"
    ∷ codes ".hpp"
    ∷ codes ".rs"
    ∷ codes ".md"
    ∷ codes ".toml"
    ∷ codes ".yml"
    ∷ codes ".yaml"
    ∷ codes ".txt"
    ∷ codes ".lock"
    ∷ []

unfoldable pub is_hot_dir : WorkspaceProfile → Text → Bool
unfolding has_name
is_hot_dir p name = has_name p.hot_dirs name

unfoldable pub is_hot_file : WorkspaceProfile → Text → Bool
unfolding has_name
is_hot_file p name = has_name p.hot_files name

unfoldable pub is_file : FileType → Bool
is_file file = true
is_file directory = false

unfoldable pub is_small_file_candidate : WorkspaceProfile → Text → NodeInfo → Bool
unfolding is_file is_hot_file
is_small_file_candidate p rel_path info =
    if not (is_file info.file_type)
    then false
    else if ltb p.small_file_threshold info.size
    then false
    else if is_hot_file p (base rel_path)
    then true
    else has_name small_extensions (to_lower (ext (base rel_path)))
