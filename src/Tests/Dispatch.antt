-- ===== src/Tests/Dispatch.antt =====
-- A server with an empty journal, and requests to it.
use net_drive.Prelude.{◌≡◌, refl, true, false, [], ◌∷◌, if◌then◌else◌, arith, ok, err}
use net_drive.Prelude.Text.{Text, codes}
use net_drive.Protocol.{ErrorCode}
use net_drive.Journal.{Watch, new_journal_broker, poll_events, watch_matches}
use net_drive.Journal.Numbering.{Refines, Refines-new}
use net_drive.Dispatch.Defs.{Site, Services, create_file, flush, create_resp}
use net_drive.Dispatch.Defs.{◌>>=◌, ◌>>◌, return, refuse, try_backend, publish}
use net_drive.Dispatch.Errors.{call_backend, or_backend_error, backend_error_code}
use net_drive.Dispatch.Bulk.{serve_create_file, serve_flush, announce_created}
use net_drive.Backend.Recovery.{handle_snapshot}
use net_drive.Backend.Nodes.{handle_by_id}
use net_drive.Backend.Files
use net_drive.Backend.Files.{handle, add_handle}
use net_drive.Backend.Entries.{empty_backend}
use net_drive.Prelude.Map
use net_drive.Dispatch.Serve.{serve}
use net_drive.Dispatch.Silent.{log_of}
use net_drive.Dispatch.Logs.{HasLogged}
use net_drive.Dispatch.History.{serve-HasLogged, serve-err}
use net_drive.Dispatch.Delivery.{serve_create_file-poll_events, stamped_event, path_of_node}
use net_drive.Tests.Disk.{disk}
use net_drive.Tests.Handles.{start, b_info, create_test}

abbrev pub services : Services Text
services = record { os = disk; now_text = λ w. []; message = λ e. []; depth = λ w. 9 }

abbrev pub site : Site Text
site = record { server = start; journal = new_journal_broker 16 }

serve-HasLogged_example :
    HasLogged 2 [] (serve services (create_file 1 (codes "b") false) site).1.journal
serve-HasLogged_example =
    serve-HasLogged services (create_file 1 (codes "b") false) site [] (Refines-new 16)
      (omega arith)

flush_refused : (serve services (flush 7) site).0 ≡ err ErrorCode.invalid_handle
unfolding serve serve_flush call_backend or_backend_error try_backend ◌>>=◌ refuse
    backend_error_code handle_snapshot handle handle_by_id add_handle empty_backend Map.get
    Map.insert Map.delete net_drive.Backend.Defs.◌>>=◌
flush_refused = refl

serve-err_example : log_of (serve services (flush 7) site).1.journal ≡ log_of site.journal
serve-err_example = serve-err services (flush 7) site ErrorCode.invalid_handle flush_refused

abbrev root_watch : Watch
root_watch = record { id = 5001; node_id = 1; rel_path = []; recursive = true; acked_seq = 0 }

created : (serve_create_file services 1 (codes "b") false site).0 ≡ ok (create_resp b_info 2003)
unfolding serve_create_file call_backend or_backend_error try_backend announce_created ◌>>=◌ ◌>>◌
    return publish
created = rw (create_test, ◌>>=◌) refl

serve_create_file-poll_events_example :
    let journal = (serve_create_file services 1 (codes "b") false site).1.journal in
    let server = (Files.create_file disk 1 (codes "b") false start).1 in
    (time : Text) × (let e = stamped_event [] b_info (path_of_node services 2 server) time in
      Refines journal (e ∷ [])
      × ((poll_events journal root_watch 0 9).events
          ≡ (if watch_matches root_watch e then e ∷ [] else [])))
serve_create_file-poll_events_example =
    serve_create_file-poll_events services 1 (codes "b") false site [] b_info 2003 root_watch 9
      (Refines-new 16) (omega arith) (omega arith) (omega arith) created
