-- ===== src/Tests/Mount.antt =====
-- Paths, and a mount with one open file.
use net_drive.Prelude.{
  ◌+◌, ◌<◌, ℕ, ◌≡◌, refl, eqb, true, false, none, some, List, [], ◌∷◌, ◌++◌, ok, err, arith, All,
  if◌then◌else◌, nat_eq,
}
use net_drive.Prelude.Words.{u64_mod}
use net_drive.Prelude.Map
use net_drive.Prelude.Map.{get-empty, get-insert}
use net_drive.Prelude.Text.{Text, codes, slash, join}
use net_drive.Protocol.{NodeInfo, FileType}
use net_drive.Mount.Path.{normalize_mount_path, backslash}
use net_drive.Mount.Shape.{IsName, normalize_mount_path-IsName}
use net_drive.Mount.Defs.{ProtocolClient, Mount, LocalHandle, Options, new_mount}
use net_drive.Mount.Volume.{add_file, close}
use net_drive.Mount.HandleIds.{IsValid, add_file-IsValid}
use net_drive.Mount.Sessions.{new_mount-IsValid, close_lem, opens, run_call, run_call-IsValid}

abbrev windows_path : Text
windows_path = codes "src" ++ (backslash ∷ codes "./a")

windows_path_test : normalize_mount_path windows_path ≡ some (codes "/src/a")
unfolding normalize_mount_path
windows_path_test = refl

climbing_test : normalize_mount_path (codes "a/../../b") ≡ none
unfolding normalize_mount_path
climbing_test = refl

-- A space before the last separator stays, and is lost when the result is normalised again.
space_test :
    (normalize_mount_path (codes "/a /") ≡ some (codes "/a "))
    × (normalize_mount_path (codes "/a ") ≡ some (codes "/a"))
unfolding normalize_mount_path
space_test = (refl, refl)

normalize_mount_path-IsName_example :
    (parts : List Text) × All IsName parts × (codes "/src/a" ≡ slash ∷ join parts)
normalize_mount_path-IsName_example =
    normalize_mount_path-IsName windows_path (codes "/src/a") windows_path_test

abbrev node : NodeInfo
node = record {
  node_id = 2;
  parent_node_id = 1;
  name = codes "a";
  file_type = FileType.file;
  size = 3;
  mode = 420;
  mod_time = [];
}

abbrev pub remote : ProtocolClient ℕ Text
remote = record {
  lookup = λ parent name n. (ok node, n);
  get_attr = λ id n. (ok node, n);
  open_dir = λ id n. (err [], n);
  read_dir = λ id c k n. (err [], n);
  close_dir = λ id n. (err [], n);
  open_read = λ id n. (ok (2001, 3), n);
  read = λ id o k n. (err [], n);
  close_handle = λ id n. (err (codes "lost"), n);
}

abbrev pub options : Options
options = record {
  root_node_id = 0;
  volume_name = [];
  read_only = true;
  case_sensitive = false;
  read_dir_batch_size = 0;
}

abbrev pub handle : LocalHandle
handle = record {
  handle_id = 1;
  remote_id = 2001;
  path = codes "/a";
  info = record {
    path = codes "/a";
    node_id = 2;
    parent_node_id = 1;
    name = codes "a";
    is_directory = false;
    size = 3;
    mode = 420;
    mod_time = [];
  };
}

abbrev unused : Mount ℕ
unused = new_mount 0 options

abbrev pub mounted : Mount ℕ
mounted = add_file handle unused

has_room : unused.next_local_handle + 1 < u64_mod
has_room = unfold new_mount in omega arith

mounted-IsValid : IsValid mounted
mounted-IsValid = add_file-IsValid handle unused (new_mount-IsValid 0 options, has_room)

close_lem_example :
    (Map.get (close remote 1 mounted).1.file_handles 1
      ≡ (if eqb 1 1 then none else Map.get mounted.file_handles 1))
    × (Map.get (close remote 1 mounted).1.directory_handles 1
        ≡ (if eqb 1 1 then none else Map.get mounted.directory_handles 1))
close_lem_example = close_lem remote 1 1 mounted mounted-IsValid

run_call-IsValid_example : IsValid (run_call remote (opens (codes "/a")) mounted)
run_call-IsValid_example =
    run_call-IsValid remote (opens (codes "/a")) mounted mounted-IsValid
      (unfold add_file new_mount in omega arith)
