-- ===== src/Dispatch/History.antt =====
-- The requests of internal/server/server.go, next to the list of all events ever appended.
use net_drive.Prelude.{
  ℕ, ◌+◌, ◌<◌, ◌≡◌, Bool, true, false, List, [], ◌∷◌, Result, ok, err, arith, length, if◌then◌else◌,
}
use net_drive.Prelude.Words.{u64_mod}
use net_drive.Prelude.Text.{Text}
use net_drive.Protocol.{ErrorCode, WatchEvent, EventType, RecoverHandleSpec}
use net_drive.Backend.Defs.{BackendError}
use net_drive.Backend.Recovery.{HandleSnapshot}
use net_drive.Journal.Numbering.{Refines}
use net_drive.Dispatch.Defs
use net_drive.Dispatch.Defs.{
  Site, Handler, ◌>>=◌, ◌>>◌, return, publish, Services, Request, Response,
}
use net_drive.Dispatch.Metadata.{
  serve_lookup, serve_get_attr, serve_open_dir, serve_read_dir, serve_close_dir, serve_rename,
}
use net_drive.Dispatch.Bulk.{
  serve_open, serve_create_file, announce_created, serve_read, serve_write, serve_flush,
  serve_truncate, serve_set_delete_on_close, serve_close, publish_file, publish_close,
}
use net_drive.Dispatch.Events.{serve_subscribe, serve_poll, serve_ack, serve_resync}
use net_drive.Dispatch.Recovery.{
  serve_recover_handles, serve_revalidate, serve_resubscribe, recover_all, revalidate_all,
}
use net_drive.Dispatch.Serve.{serve}
use net_drive.Dispatch.Silent.{
  log_of, IsSilent, IsSilent-bind, IsSilent-return, IsSilent-call_backend, IsSilent-try_backend,
  silent_rules,
}
use net_drive.Dispatch.Logs.{
  HasLogged, Adds, Logs, Adds-return, Adds-publish, Adds-then, Logs-bind, Adds-Logs, IsSilent-Logs,
  Logs-more,
}

module _ {W : Type 0} (v : Services W) where
  Logs-serve_rename :
      (src_parent : ℕ) (src_name : Text) (dst_parent : ℕ) (dst_name : Text) (replace : Bool)
      → Logs 2 (serve_rename v src_parent src_name dst_parent dst_name replace)
  unfolding serve_rename
  Logs-serve_rename src_parent src_name dst_parent dst_name replace =
      Logs-bind 2 _ _ (IsSilent-call_backend _) (λ src_path.
        Logs-bind 2 _ _ (IsSilent-call_backend _) (λ dst_path.
          Logs-bind 2 _ _ (IsSilent-call_backend _) (λ entry. Adds-Logs 2 _ (
            Adds-then 1 1 _ _ (Adds-publish v _)
              (Adds-then 1 0 _ _ (Adds-publish v _) (Adds-return _))))))

  Logs-serve_create_file :
      (parent : ℕ) (name : Text) (overwrite : Bool)
      → Logs 1 (serve_create_file v parent name overwrite)
  unfolding serve_create_file announce_created
  Logs-serve_create_file parent name overwrite =
      Logs-bind 1 _ _ (IsSilent-call_backend _) (λ created.
        Logs-bind 1 _ _ (IsSilent-try_backend _)
          (λ found. Adds-Logs 1 _ (Adds-then 1 0 _ _ (Adds-publish v _) (Adds-return _))))

  Adds-publish_file :
      (kind : EventType) (snapshot : HandleSnapshot) → Adds 1 (publish_file v kind snapshot)
  unfolding publish_file
  Adds-publish_file kind snapshot = Adds-publish v _

  Logs-serve_flush : (id : ℕ) → Logs 1 (serve_flush v id)
  unfolding serve_flush ◌>>◌
  Logs-serve_flush id = Logs-bind 1 _ _ (IsSilent-call_backend _) (λ snapshot.
      Logs-bind 1 _ _ (IsSilent-call_backend _)
        (λ u. Adds-Logs 1 _ (Adds-then 1 0 _ _ (Adds-publish_file _ snapshot) (Adds-return _))))

  Logs-serve_truncate : (id size : ℕ) → Logs 1 (serve_truncate v id size)
  unfolding serve_truncate
  Logs-serve_truncate id size = Logs-bind 1 _ _ (IsSilent-call_backend _) (λ snapshot.
      Logs-bind 1 _ _ (IsSilent-call_backend _)
        (λ size'. Adds-Logs 1 _ (Adds-then 1 0 _ _ (Adds-publish_file _ snapshot) (Adds-return _))))

  Logs-publish_close :
      (r : Result BackendError HandleSnapshot) (a : Response)
      → Logs 1 (publish_close v r >> return a)
  unfolding publish_close
  Logs-publish_close (err e) a =
      Logs-more 0 1 _ (omega arith)
        (Adds-Logs 0 _ (Adds-then 0 0 _ _ (Adds-return _) (Adds-return _)))
  Logs-publish_close (ok snapshot) a =
      elim snapshot.delete_on_close
        as (λ b.
          Logs 1
            ((if b then publish_file v EventType.deleted snapshot else return tt) >> return a)) [
              | true ↦
                  Adds-Logs 1 _ (Adds-then 1 0 _ _ (Adds-publish_file _ snapshot) (Adds-return _))
              | false ↦
                  Logs-more 0 1 _ (omega arith)
                    (Adds-Logs 0 _ (Adds-then 0 0 _ _ (Adds-return _) (Adds-return _)))
            ]

  Logs-serve_close : (id : ℕ) → Logs 1 (serve_close v id)
  unfolding serve_close ◌>>◌
  Logs-serve_close id =
      Logs-bind 1 _ _ (IsSilent-try_backend _)
        (λ snapshot. Logs-bind 1 _ _ (IsSilent-call_backend _) (λ u. Logs-publish_close snapshot _))

  IsSilent-recover_all : (specs : List RecoverHandleSpec) → IsSilent (recover_all v specs)
  unfolding recover_all
  IsSilent-recover_all [] = IsSilent-return []
  IsSilent-recover_all (spec ∷ specs) =
      IsSilent-bind _ _ (IsSilent-try_backend _)
        (λ opened. IsSilent-bind _ _ (IsSilent-recover_all specs) (λ results. IsSilent-return _))

  IsSilent-revalidate_all : (ids : List ℕ) → IsSilent (revalidate_all v ids)
  unfolding revalidate_all
  IsSilent-revalidate_all [] = IsSilent-return []
  IsSilent-revalidate_all (id ∷ ids) =
      IsSilent-bind _ _ (IsSilent-try_backend _)
        (λ answer. IsSilent-bind _ _ (IsSilent-revalidate_all ids) (λ entries. IsSilent-return _))

  ruleset rules = (silent_rules, IsSilent-recover_all, IsSilent-revalidate_all)

  Logs-serve : (q : Request) → Logs 2 (serve v q)
  unfolding serve serve_lookup serve_get_attr serve_open_dir serve_read_dir serve_close_dir
      serve_open serve_read serve_write serve_set_delete_on_close serve_subscribe serve_poll
      serve_ack serve_resync serve_recover_handles serve_revalidate serve_resubscribe
  Logs-serve (Defs.lookup p n) = IsSilent-Logs 2 _ (search rules depth 20)
  Logs-serve (Defs.get_attr id) = IsSilent-Logs 2 _ (search rules depth 20)
  Logs-serve (Defs.open_dir id) = IsSilent-Logs 2 _ (search rules depth 20)
  Logs-serve (Defs.close_dir id) = IsSilent-Logs 2 _ (search rules depth 20)
  Logs-serve (Defs.read_dir id c n) = IsSilent-Logs 2 _ (search rules depth 20)
  Logs-serve (Defs.rename p n p' n' r) = Logs-serve_rename p n p' n' r
  Logs-serve (Defs.open_file id w t) = IsSilent-Logs 2 _ (search rules depth 20)
  Logs-serve (Defs.create_file p n o) = Logs-more 1 2 _ (omega arith) (Logs-serve_create_file p n o)
  Logs-serve (Defs.read_file id o n) = IsSilent-Logs 2 _ (search rules depth 20)
  Logs-serve (Defs.write_file id o b) = IsSilent-Logs 2 _ (search rules depth 20)
  Logs-serve (Defs.flush id) = Logs-more 1 2 _ (omega arith) (Logs-serve_flush id)
  Logs-serve (Defs.close_file id) = Logs-more 1 2 _ (omega arith) (Logs-serve_close id)
  Logs-serve (Defs.truncate id n) = Logs-more 1 2 _ (omega arith) (Logs-serve_truncate id n)
  Logs-serve (Defs.set_delete_on_close id b) = IsSilent-Logs 2 _ (search rules depth 20)
  Logs-serve (Defs.subscribe id r) = IsSilent-Logs 2 _ (search rules depth 20)
  Logs-serve (Defs.poll_events id a n) = IsSilent-Logs 2 _ (search rules depth 20)
  Logs-serve (Defs.ack_events id n) = IsSilent-Logs 2 _ (search rules depth 20)
  Logs-serve (Defs.resync id) = IsSilent-Logs 2 _ (search rules depth 20)
  Logs-serve (Defs.recover_handles l) = IsSilent-Logs 2 _ (search rules depth 20)
  Logs-serve (Defs.revalidate l) = IsSilent-Logs 2 _ (search rules depth 20)
  Logs-serve (Defs.resubscribe l) = IsSilent-Logs 2 _ (search rules depth 20)

  -- Whatever the request and the operating system, the journal after it still lists the end of
  -- the history of all events, which has grown by at most two, if the counter of events does not
  -- wrap around.
  pub serve-HasLogged :
      (q : Request) (s : Site W) (history : List WatchEvent)
      → Refines s.journal history
      → length history + 2 < u64_mod
      → HasLogged 2 history (serve v q s).1.journal
  serve-HasLogged q = (Logs-serve q).logs

  -- A request that is answered with an error has appended no event: the events, their counter and
  -- the retention of the journal are as before it.
  pub serve-err :
      (q : Request) (s : Site W) (code : ErrorCode)
      → (serve v q s).0 ≡ err code
      → log_of (serve v q s).1.journal ≡ log_of s.journal
  serve-err q = (Logs-serve q).on_error
