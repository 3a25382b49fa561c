-- ===== src/Tests/Handles.antt =====
-- Two open files of one backend.
use net_drive.Prelude.{
  ◌≡◌, eqb, refl, true, false, none, some, List, [], ◌∷◌, if◌then◌else◌, nat_eq, ok, text_beq,
}
use net_drive.Prelude.Map
use net_drive.Prelude.Text.{Text, codes, has_slash, trim_prefix}
use net_drive.Prelude.Text.Paths.{join_path, base}
use net_drive.Backend.Defs.{MetadataBackend, FileHandle, Server}
use net_drive.Backend.Entries.{empty_backend}
use net_drive.Backend.Files.{add_handle}
use net_drive.Backend.Handles.{at, close_handle}
use net_drive.Backend.OpenTables.{tables_of}
use net_drive.Backend.Isolation.{close_handle_lem}
use net_drive.Backend.FileCalls.{
  FileCall, reads, writes, truncates, marks, flushes, closes, run_calls, run_calls-other,
}
use net_drive.Backend.Looks.{snapshots, run_look, run_look_lem}
use net_drive.Protocol.{NodeInfo, FileType}
use net_drive.Backend.Defs.{
  ◌>>=◌, ◌>>◌, return, fail, of_result, get_backend, get_world, modify, call, on_result, on_option,
  attempt,
}
use net_drive.Backend.Profile.{is_file, is_hot_dir, is_small_file_candidate}
use net_drive.Backend.Nodes.{is_valid_single_name, node_by_id, abs_path, ensure_node, add_node}
use net_drive.Backend.Cache.{
  is_negative_cached, fresh, cached_node_info, store_node_info, node_info_from_os_info,
  upsert_cached_dir_snapshot, invalidate_entry,
}
use net_drive.Backend.Refresh.{ensure, modify_now, node_info_for_path, look, stat}
use net_drive.Backend.Files.{create_file, finish_create, new_handle}
use net_drive.Tests.Disk.{disk, root}

abbrev two_handles : MetadataBackend
two_handles =
    (add_handle (add_handle (empty_backend root) 2 1 (codes "a") 3 3 true).0 2 1 (codes "a") 3 3
      false).0

abbrev pub start : Server Text
start = record { backend = two_handles; world = codes "abc" }

abbrev first_handle : FileHandle
first_handle = record {
  id = 2001;
  node_id = 2;
  parent_id = 1;
  rel_path = codes "a";
  file = 3;
  size = 3;
  writable = true;
  delete_on_close = false;
}

first_found : Map.get start.backend.handles 2001 ≡ some first_handle
unfolding add_handle empty_backend Map.get Map.insert Map.delete
first_found = refl

close_handle_lem_example :
    Map.get (close_handle disk 2001 start).1.backend.handles 2002
    ≡ (if eqb 2001 2002 then none else Map.get start.backend.handles 2002)
close_handle_lem_example = close_handle_lem disk start 2001 first_handle 2002 first_found

abbrev calls : List FileCall
calls =
    writes (at 1) (codes "xy") ∷ flushes ∷ truncates 2 ∷ marks true ∷ reads (at 0) 2 ∷ closes ∷ []

run_calls-other_example :
    Map.get (run_calls disk calls 2001 start).backend.handles 2002
    ≡ Map.get start.backend.handles 2002
run_calls-other_example = run_calls-other disk calls start 2001 2002 refl

run_look_lem_example :
    (tables_of (run_look disk (snapshots 3 1 true) start).backend ≡ tables_of start.backend)
    × ((run_look disk (snapshots 3 1 true) start).world ≡ codes "abc")
run_look_lem_example = run_look_lem disk (snapshots 3 1 true) start

abbrev pub b_info : NodeInfo
b_info = record {
  node_id = 2;
  parent_node_id = 1;
  name = codes "b";
  file_type = FileType.file;
  size = 3;
  mode = 420;
  mod_time = [];
}

pub create_test : (create_file disk 1 (codes "b") false start).0 ≡ ok (b_info, 2003)
unfolding create_file finish_create new_handle add_handle empty_backend Map.get Map.insert
    Map.delete ◌>>=◌ ◌>>◌ return fail of_result get_backend get_world modify call on_result ensure
    modify_now is_valid_single_name node_by_id node_info_for_path abs_path is_file ensure_node
    store_node_info node_info_from_os_info upsert_cached_dir_snapshot invalidate_entry text_beq
    has_slash look is_negative_cached fresh on_option cached_node_info attempt stat trim_prefix
    is_hot_dir is_small_file_candidate join_path add_node base
create_test = refl
