-- ===== src/Winclient/Store.antt =====
-- internal/winclientstore/store.go: the profiles of the desktop application, kept in a file. A range
-- over a map goes through the representation from its end. The calls of os, filepath, time and
-- encoding/json, and the mount point of DefaultConfig, are a parameter. A version is a natural
-- number.
pub mod Calls
pub mod Loading
pub mod Maps
pub mod Saving
use net_drive.Prelude.{
  ℕ, Bool, true, false, Option, none, some, List, [], ◌∷◌, ltb, if◌then◌else◌, not, text_eq, Result,
  ok, err,
}
use net_drive.Prelude.Map.{Map, empty, binding, get, insert, keys}
use net_drive.Prelude.Text.{Text, codes, is_empty, text_geb}
use net_drive.Mount.Path.{trim_space}
use net_drive.Winclient.{Config, normalized}

abbrev schema_version : ℕ
schema_version = 2

pub record Settings : Type 0 where
  pub default_workspace : Text
  pub auto_reconnect : Bool
  pub launch_on_login : Bool

pub record WorkspaceMeta : Type 0 where
  pub display_name : Text
  pub auto_mount : Bool
  pub last_used_at : Text

abbrev pub no_meta : WorkspaceMeta
no_meta = record { display_name = []; auto_mount = false; last_used_at = [] }

pub record State : Type 0 where
  pub version : ℕ
  pub active_profile : Text
  pub profiles : Map Text Config
  pub settings : Settings
  pub workspace_meta : Map Text WorkspaceMeta

pub data StoreError (X : Type 0) : Type 0 where
  no_config_dir read_failed create_failed write_failed replace_failed : X → StoreError X
  no_store_path no_profile_name encode_failed decode_failed : StoreError X

-- What the code takes of its libraries, with the state D of the file system and its errors X.
pub record Libraries (D X : Type 0) : Type 0 where
  pub read_file : Text → D → Result X Text
  pub is_not_exist : X → Bool
  pub mkdir_all : Text → D → Option X × D
  pub write_file : Text → Text → D → Option X × D
  pub rename : Text → Text → D → Option X × D
  pub dir : Text → Text
  pub marshal : State → Option Text
  -- json.Unmarshal into a value
  pub unmarshal : Text → State → Option State
  -- a time in the format of RFC 3339, in UTC
  pub utc : Text → Option Text
  pub default_mount_point : Text

unfoldable pub default_path :
    {X : Type 0} → Text → Result X Text → (Text → Text → Text) → Result (StoreError X) Text
unfolding trim_space
default_path override config_dir join =
    if not (is_empty (trim_space override)) then ok (trim_space override) else elim config_dir [
      | err e ↦ err (no_config_dir e)
      | ok d ↦ ok (join (join d (codes "developer-mount")) (codes "win32-client.json"))
    ]

unfoldable pub default_state : State
default_state = record {
  version = schema_version;
  active_profile = [];
  profiles = empty;
  settings = record { default_workspace = []; auto_reconnect = false; launch_on_login = false };
  workspace_meta = empty;
}

-- sort.Strings
unfoldable pub insert_name : Text → List Text → List Text
unfolding text_geb
insert_name name [] = name ∷ []
insert_name name (next ∷ names) =
    let rest = insert_name name names in
    if text_geb next name then name ∷ next ∷ names else next ∷ rest

unfoldable pub sort_names : List Text → List Text
unfolding insert_name
sort_names [] = []
sort_names (name ∷ names) = insert_name name (sort_names names)

unfoldable pub sorted_profile_names : State → List Text
unfolding sort_names keys
sorted_profile_names state = sort_names (keys state.profiles)

-- The first of them, or the empty text.
unfoldable pub first_profile : State → Text
unfolding sorted_profile_names
first_profile state = elim (sorted_profile_names state) [ [] ↦ [] | name ∷ _ ↦ name ]

module _ {D X : Type 0} (lib : Libraries D X) where
  unfoldable pub normalize_timestamp : Text → Text
  unfolding trim_space
  normalize_timestamp value =
      let value' = trim_space value in
      if is_empty value' then [] else elim (lib.utc value') [ none ↦ [] | some t ↦ t ]

  unfoldable pub normalize_workspace_meta : WorkspaceMeta → WorkspaceMeta
  unfolding trim_space normalize_timestamp
  normalize_workspace_meta meta = record meta {
    display_name = trim_space meta.display_name;
    last_used_at = normalize_timestamp meta.last_used_at;
  }

  -- The loop of normalizeState over the profiles: the profiles, and what is known of each.
  unfoldable pub normalize_profiles : Map Text Config → Map Text Config
  unfolding trim_space insert normalized
  normalize_profiles empty = empty
  normalize_profiles (binding name config rest) =
      let others = normalize_profiles rest in
      if is_empty (trim_space name)
      then others
      else insert others (trim_space name) (normalized lib.default_mount_point config)

  unfoldable pub normalize_metas : Map Text WorkspaceMeta → Map Text Config → Map Text WorkspaceMeta
  unfolding trim_space insert get normalize_workspace_meta
  normalize_metas metas empty = empty
  normalize_metas metas (binding name config rest) =
      let others = normalize_metas metas rest in
      let meta : WorkspaceMeta = elim (get metas (trim_space name)) [
        | none ↦ no_meta
        | some m ↦ m
      ] in
      if is_empty (trim_space name)
      then others
      else insert others (trim_space name) (normalize_workspace_meta meta)

  -- The active profile, if there is still one of that name.
  unfoldable pub keep_active : Map Text Config → Text → Text
  unfolding get
  keep_active profiles active = elim (get profiles active) [ none ↦ [] | some _ ↦ active ]

  unfoldable pub choose_default : State → Text → Text
  unfolding first_profile
  choose_default state default_workspace =
      if not (is_empty default_workspace)
      then default_workspace
      else if not (is_empty state.active_profile)
      then state.active_profile
      else first_profile state

  unfoldable pub normalize_state : State → State
  unfolding trim_space normalize_profiles normalize_metas keep_active choose_default
  normalize_state state =
      let profiles' = normalize_profiles state.profiles in
      let state' = record state {
        version = if ltb state.version schema_version then schema_version else state.version;
        profiles = profiles';
        workspace_meta = normalize_metas state.workspace_meta state.profiles;
        active_profile = keep_active profiles' state.active_profile;
      } in
      record state' {
        settings = record state.settings {
          default_workspace = choose_default state' (trim_space state.settings.default_workspace);
        };
      }
