-- ===== src/Materialize/Defs.antt =====
-- internal/materialize/materialize.go: the local file system and the state of a copy.
use net_drive.Prelude.{
  ℕ, Bool, true, false, Option, none, some, List, [], ◌∷◌, eqb, if◌then◌else◌, ◌||◌, ◌==◌, text_eq,
  Result, ok, err,
}
use net_drive.Prelude.Steps.{Steps}
use net_drive.Prelude.Text.{Text, codes, is_empty, has_slash, has_prefix}
use net_drive.Mount.Path.{trim_space, backslash}
use net_drive.Mount.Defs.{Mount, MountError}

-- A time that was parsed: whether it is the zero time, and its nanoseconds.
pub record ModTime : Type 0 where
  pub is_zero : Bool
  pub nanoseconds : ℕ

-- os.File: the name that it was created with, and its number.
pub record LocalFile : Type 0 where
  pub name : Text
  pub fd : ℕ

-- The context and the operating system, with the state D and errors X.
pub record LocalDisk (D X : Type 0) : Type 0 where
  pub ctx_err : D → Option X
  pub mkdir_all : Text → D → Option X × D
  pub create : Text → D → Result X ℕ × D
  -- the number of bytes written
  pub write : LocalFile → Text → D → Result X ℕ × D
  pub close : LocalFile → D → Option X × D
  pub chtimes : Text → ModTime → D → D

pub data NameError : Type 0 where
  empty_name invalid_name has_separator : NameError

pub data SyncError (E X : Type 0) : Type 0 where
  no_local_path : SyncError E X
  of_mount : MountError E → SyncError E X
  of_disk : X → SyncError E X
  bad_name : Text → NameError → SyncError E X
  -- not an error of the code: the rounds that the model allows were not enough
  unfinished : SyncError E X

pub record Copy (N D : Type 0) : Type 0 where
  pub mount : Mount N
  pub disk : D

abbrev pub Task : Type 0 → Type 0 → Type 0 → Type 0 → Type 0 → Type 0
Task N D E X A = Steps (Copy N D) (SyncError E X) A

pub record Stats : Type 0 where
  pub directories : ℕ
  pub files : ℕ
  pub bytes : ℕ

pub record Materializer : Type 0 where
  pub read_length : ℕ
  pub max_entries : ℕ
  pub preserve_time : Bool

-- New
unfoldable pub new_materializer : ℕ → ℕ → Materializer
new_materializer read_length max_entries = record {
  read_length = if eqb read_length 0 then 1_048_576 else read_length;
  max_entries = if eqb max_entries 0 then 128 else max_entries;
  preserve_time = true;
}

-- strings.Contains(s, `\\`): two backslashes, since the literal is a raw one
unfoldable pub has_two_backslashes : Text → Bool
unfolding has_prefix
has_two_backslashes [] = false
has_two_backslashes (c ∷ s) =
    has_prefix (c ∷ s) (backslash ∷ backslash ∷ []) || has_two_backslashes s

unfoldable pub check_local_name : Text → Result NameError Text
check_local_name name =
    if is_empty name
    then err empty_name
    else if name == codes "." || name == codes ".."
    then err invalid_name
    else if has_slash name || has_two_backslashes name
    then err has_separator
    else ok name

unfoldable pub validate_local_name : Text → Result NameError Text
unfolding check_local_name trim_space
validate_local_name name = check_local_name (trim_space name)

-- The first of the formats that fits. A time that is missing is the zero time.
unfoldable pub first_format : List (Text → Option ModTime) → Text → Option ModTime
first_format [] value = none
first_format (parse ∷ layouts) value =
    let rest = first_format layouts value in elim (parse value) [ none ↦ rest | some t ↦ some t ]

unfoldable pub parse_mod_time : List (Text → Option ModTime) → Text → Option ModTime
unfolding first_format trim_space
parse_mod_time layouts value =
    let value' = trim_space value in
    if is_empty value'
    then some (record { is_zero = true; nanoseconds = 0 })
    else first_format layouts value'
