-- ===== src/Tests/Native.antt =====
-- Listing a directory of two entries by calls that have room for one.
use net_drive.Prelude.{
  ℕ, ◌≡◌, refl, sym, subst, Bool, true, false, not, Option, none, some, List, [], ◌∷◌, ok, nat_eq,
  text_eq, select,
}
use net_drive.Prelude.Map
use net_drive.Prelude.Map.{get-insert}
use net_drive.Prelude.Steps.{◌>>=◌, ◌>>◌, get_state, modify, on_option, return}
use net_drive.Prelude.Text.{Text, codes, is_empty, text_geb}
use net_drive.Protocol.{DirEntry, FileType}
use net_drive.Backend.Profile.{to_lower}
use net_drive.Mount.Path.{join_mount_path}
use net_drive.Mount.Defs.{ProtocolClient, FileInfo, LocalHandle, Mount, MountError, new_mount}
use net_drive.Mount.Volume.{add_directory, child_node}
use net_drive.Winfsp.Callbacks.{Callbacks}
use net_drive.Winfsp.Native.Calls.{Registry}
use net_drive.Winfsp.Native.Listing.{collect, fill_buffer, is_after, go_read_directory}
use net_drive.Winfsp.Native.Markers.{IsAscending}
use net_drive.Winfsp.Native.Enumeration.{enumerate, Steady, enumerate_all}
use net_drive.Tests.Mount.{remote, options}

abbrev dir_entry : ℕ → Text → DirEntry
dir_entry id name = record {
  node_id = id;
  name = name;
  file_type = FileType.file;
  size = 0;
  mode = 420;
  mod_time = [];
}

-- A server whose directory has these entries.
abbrev serving : List DirEntry → ProtocolClient ℕ Text
serving entries = record remote {
  read_dir = λ id c k n. (ok (record { entries = entries; next_cookie = 0; eof = true }), n);
}

abbrev small_letters_first : List DirEntry
small_letters_first = dir_entry 2 (codes "a") ∷ dir_entry 3 (codes "B") ∷ []

-- the order of the server
abbrev capitals_first : List DirEntry
capitals_first = dir_entry 3 (codes "B") ∷ dir_entry 2 (codes "a") ∷ []

abbrev directory : LocalHandle
directory = record {
  handle_id = 1;
  remote_id = 3001;
  path = codes "/";
  info = record {
    path = codes "/";
    node_id = 1;
    parent_node_id = 1;
    name = [];
    is_directory = true;
    size = 0;
    mode = 0;
    mod_time = [];
  };
}

abbrev info : ℕ → Text → FileInfo
info id name = record {
  path = 47 ∷ name;
  node_id = id;
  parent_node_id = 1;
  name = name;
  is_directory = false;
  size = 0;
  mode = 420;
  mod_time = [];
}

abbrev unused : Mount ℕ
unused = new_mount 0 options

abbrev with_directory : Callbacks ℕ
with_directory = record { mount = add_directory directory unused; handles = Map.empty }

-- room for one entry and the mark
abbrev one_fits : List FileInfo → Option FileInfo → Bool
one_fits [] e = true
one_fits (x ∷ out) none = true
one_fits (x ∷ out) (some e) = false

abbrev message : MountError Text → Text
message e = []

-- The callbacks after one call: the mount has cached the paths.
abbrev read_once : Callbacks ℕ
read_once = record with_directory {
  mount = record (add_directory directory unused) {
    path_cache =
        Map.insert
          (Map.insert unused.path_cache (codes "/a") (child_node 1 (dir_entry 2 (codes "a"))))
          (codes "/B") (child_node 1 (dir_entry 3 (codes "B")));
  };
}

abbrev entries : List FileInfo
entries = info 2 (codes "a") ∷ info 3 (codes "B") ∷ []

collected :
    collect (serving small_letters_first) message 1 1 0 read_once ≡ some (ok entries, read_once)
unfolding collect ◌>>=◌ ◌>>◌ get_state modify on_option return Map.get Map.insert add_directory
    new_mount net_drive.Mount.Volume.read_directory child_node join_mount_path
collected = refl

abbrev IsReadOnce : Callbacks ℕ → Type 0
IsReadOnce c = c ≡ read_once

steady : Steady (serving small_letters_first) message 1 1 entries IsReadOnce
steady = record {
  again = λ c p. (
    read_once,
    subst
        (λ x. collect (serving small_letters_first) message 1 1 0 x ≡ some (ok entries, read_once))
        (sym p) collected,
    refl,
  );
}

abbrev registry : Registry ℕ
registry = Map.insert Map.empty 7 read_once

ascending : IsAscending entries
ascending = unfold text_geb to_lower in ((refl, tt), (tt, tt))

enumerate_all_example :
    enumerate (serving small_letters_first) message one_fits 1 7 1 3 registry []
    ≡ some (select (λ e. not (is_empty e.name)) entries)
enumerate_all_example =
    enumerate_all (serving small_letters_first) message one_fits 1 7 1 entries IsReadOnce steady
      ascending (λ e. refl) registry read_once (get-insert Map.empty 7 read_once 7) refl

-- In the order of the server, the entry after the capital is never listed.
lost_test :
    enumerate (serving capitals_first) message one_fits 1 7 1 3 registry []
    ≡ some (info 3 (codes "B") ∷ [])
unfolding enumerate go_read_directory fill_buffer is_after text_geb to_lower collect ◌>>=◌ ◌>>◌
    get_state modify on_option return Map.get Map.insert add_directory new_mount child_node
    net_drive.Mount.Volume.read_directory join_mount_path
lost_test = refl
