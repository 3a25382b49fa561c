-- ===== src/Winclient/Store/Calls.antt =====
-- internal/winclientstore/store.go: the calls of a Store at a path.
use net_drive.Prelude.{
  Option, none, some, [], ◌∷◌, ◌++◌, if◌then◌else◌, ◌==◌, text_eq, text_beq, Result, ok, err,
}
use net_drive.Prelude.Map.{delete, insert}
use net_drive.Prelude.Steps.{Steps, ◌>>=◌, ◌>>◌, return, fail, on_option}
use net_drive.Prelude.Text.{Text, codes, is_empty}
use net_drive.Mount.Path.{trim_space}
use net_drive.Winclient.{Config, normalized, is_blank}
use net_drive.Winclient.Store.{
  State, WorkspaceMeta, no_meta, StoreError, Libraries, read_failed, create_failed, write_failed,
  replace_failed, no_store_path, no_profile_name, encode_failed, decode_failed, default_state,
  first_profile, normalize_workspace_meta, normalize_state,
}

module _ {D X : Type 0} (lib : Libraries D X) where
  -- The part of Load after ReadFile.
  unfoldable pub decode : Text → Result (StoreError X) State
  unfolding default_state normalize_state
  decode content =
      if is_empty content then ok default_state else elim (lib.unmarshal content default_state) [
        | none ↦ err decode_failed
        | some state ↦ ok (normalize_state lib state)
      ]

  unfoldable pub load : Text → D → Result (StoreError X) State
  unfolding default_state is_blank decode
  load path d = if is_blank path then ok default_state else elim (lib.read_file path d) [
    | err e ↦ if lib.is_not_exist e then ok default_state else err (read_failed e)
    | ok content ↦ decode content
  ]

  unfoldable pub on_disk :
      (D → Option X × D) → (X → StoreError X) → Steps D (StoreError X) (Unit {0})
  on_disk op failed d =
      let (e, d') = op d in elim e [ none ↦ (ok tt, d') | some x ↦ (err (failed x), d') ]

  abbrev pub tmp_path : Text → Text
  tmp_path path = path ++ codes ".tmp"

  -- The payload, through a file that takes the place of the store.
  unfoldable pub replace : Text → Text → Steps D (StoreError X) (Unit {0})
  unfolding on_disk ◌>>◌
  replace path payload =
      on_disk (lib.write_file (tmp_path path) (payload ++ (10 ∷ []))) write_failed
      >> on_disk (lib.rename (tmp_path path) path) replace_failed

  unfoldable pub save : Text → State → Steps D (StoreError X) (Unit {0})
  unfolding is_blank normalize_state on_disk replace ◌>>◌ on_option fail
  save path state =
      if is_blank path
      then fail no_store_path
      else (on_disk (lib.mkdir_all (lib.dir path)) create_failed
          >> on_option (lib.marshal (normalize_state lib state)) (fail encode_failed)
              (replace path))

  -- The state of SaveWorkspace before it is saved.
  unfoldable pub with_workspace : Text → Config → WorkspaceMeta → State → State
  unfolding insert is_blank normalized normalize_workspace_meta
  with_workspace name config meta state = record state {
    profiles = insert state.profiles name (normalized lib.default_mount_point config);
    workspace_meta = insert state.workspace_meta name (normalize_workspace_meta lib meta);
    active_profile = name;
    settings = record state.settings {
      default_workspace =
          if is_blank state.settings.default_workspace
          then name
          else state.settings.default_workspace;
    };
  }

  -- The state of DeleteProfile before it is saved.
  unfoldable pub without_profile : Text → State → State
  unfolding delete first_profile text_beq
  without_profile name state =
      let state' = record state {
        profiles = delete state.profiles name;
        workspace_meta = delete state.workspace_meta name;
      } in
      let active =
        if state.active_profile == name then first_profile state' else state.active_profile in
      record state' {
        active_profile = active;
        settings = record state.settings {
          default_workspace =
              if state.settings.default_workspace == name
              then active
              else state.settings.default_workspace;
        };
      }

  -- What SaveWorkspace and DeleteProfile share: Load, a change, and Save.
  unfoldable pub change : (State → State) → Text → Steps D (StoreError X) State
  unfolding load save ◌>>=◌ ◌>>◌ return
  change f path = (λ d. (load path d, d)) >>= λ state. save path (f state) >> return (f state)

  unfoldable pub save_workspace :
      Text → Text → Config → WorkspaceMeta → Steps D (StoreError X) State
  unfolding trim_space fail change with_workspace
  save_workspace path name config meta =
      if is_empty (trim_space name)
      then fail no_profile_name
      else change (with_workspace (trim_space name) config meta) path

  unfoldable pub save_profile : Text → Text → Config → Steps D (StoreError X) State
  unfolding save_workspace
  save_profile path name config = save_workspace path name config no_meta

  unfoldable pub delete_profile : Text → Text → Steps D (StoreError X) State
  unfolding trim_space fail change without_profile
  delete_profile path name =
      if is_empty (trim_space name)
      then fail no_profile_name
      else change (without_profile (trim_space name)) path
