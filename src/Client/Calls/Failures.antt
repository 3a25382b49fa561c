-- ===== src/Client/Calls/Failures.antt =====
-- internal/clientcore: what a call that fails leaves of a client's state and of its session.
use net_drive.Prelude.{ℕ, ◌≡◌, refl, sym, ap, ◌∙◌, Result, ok, err, err-ne-ok}
use net_drive.Prelude.Text.{Text}
use net_drive.Client.Tracking.{RuntimeState}
use net_drive.Client.Wire.{Client, CallError}
use net_drive.Dispatch.Defs.{Request}
use net_drive.Dispatch.Defs
use net_drive.Protocol.Channel
use net_drive.Protocol.Opcode
use net_drive.Client.Calls.Defs.{
  ControlRequest, SessionResp, Services, Call, ◌>>=◌, ◌>>◌, return, fail, attempt, get,
  set_session_id, remember, request_decode,
}
use net_drive.Client.Calls.Session.{create_session, resume_session, finish_resume}
use net_drive.Client.Calls.Files
use net_drive.Client.Calls.Names
use net_drive.Client.Calls.Watches
use net_drive.Client.Calls.Rules.{
  IsAtomic, IsAtomic-finish, Succeeds-return, known, LooksOnly-request_decode, call_rules,
}

module _ {N : Type 0} (v : Services N) where
  -- The call of a client that sends a request.
  unfoldable pub call_of : Request → Call N (Unit {0})
  call_of (Defs.lookup p n) = Names.lookup v p n >> return tt
  call_of (Defs.get_attr id) = Names.get_attr v id >> return tt
  call_of (Defs.open_dir id) = Names.open_dir v id >> return tt
  call_of (Defs.close_dir id) = Names.close_dir v id >> return tt
  call_of (Defs.read_dir id c n) = Names.read_dir v id c n >> return tt
  call_of (Defs.rename p n p' n' r) = Names.rename v p n p' n' r >> return tt
  call_of (Defs.open_file id w t) = Files.open_handle v id w t >> return tt
  call_of (Defs.create_file p n o) = Files.create v p n o >> return tt
  call_of (Defs.read_file id o n) = Files.read v id o n >> return tt
  call_of (Defs.write_file id o b) = Files.write v id o b >> return tt
  call_of (Defs.flush id) = Files.flush v id
  call_of (Defs.close_file id) = Files.close_handle v id
  call_of (Defs.truncate id n) = Files.truncate v id n >> return tt
  call_of (Defs.set_delete_on_close id b) = Files.set_delete_on_close v id b
  call_of (Defs.subscribe id r) = Watches.subscribe v id r >> return tt
  call_of (Defs.poll_events id a n) = Watches.poll_events v id a n >> return tt
  call_of (Defs.ack_events id n) = Watches.ack_events v id n >> return tt
  call_of (Defs.resync id) = Watches.resync v id >> return tt
  call_of (Defs.recover_handles l) = Watches.recover_handles v l >> return tt
  call_of (Defs.revalidate l) = Watches.revalidate_nodes v l >> return tt
  call_of (Defs.resubscribe l) = Watches.resubscribe_watches v l >> return tt

  IsAtomic-call_of : (q : Request) → IsAtomic (call_of q)
  unfolding call_of Names.lookup Names.get_attr Names.open_dir Names.close_dir Names.read_dir
      Names.rename Files.open_handle Files.create Files.read Files.write Files.flush
      Files.close_handle Files.truncate Files.set_delete_on_close Watches.subscribe
      Watches.poll_events Watches.ack_events Watches.resync Watches.recover_handles
      Watches.revalidate_nodes Watches.resubscribe_watches
  IsAtomic-call_of (Defs.lookup p n) =
      IsAtomic-finish _ _ (search call_rules depth 20) (Succeeds-return tt)
  IsAtomic-call_of (Defs.get_attr id) =
      IsAtomic-finish _ _ (search call_rules depth 20) (Succeeds-return tt)
  IsAtomic-call_of (Defs.open_dir id) =
      IsAtomic-finish _ _ (search call_rules depth 20) (Succeeds-return tt)
  IsAtomic-call_of (Defs.close_dir id) =
      IsAtomic-finish _ _ (search call_rules depth 20) (Succeeds-return tt)
  IsAtomic-call_of (Defs.read_dir id c n) =
      IsAtomic-finish _ _ (search call_rules depth 20) (Succeeds-return tt)
  IsAtomic-call_of (Defs.rename p n p' n' r) =
      IsAtomic-finish _ _ (search call_rules depth 20) (Succeeds-return tt)
  IsAtomic-call_of (Defs.open_file id w t) =
      IsAtomic-finish _ _ (search call_rules depth 20) (Succeeds-return tt)
  IsAtomic-call_of (Defs.create_file p n o) =
      IsAtomic-finish _ _ (search call_rules depth 20) (Succeeds-return tt)
  IsAtomic-call_of (Defs.read_file id o n) =
      IsAtomic-finish _ _ (search call_rules depth 20) (Succeeds-return tt)
  IsAtomic-call_of (Defs.write_file id o b) =
      IsAtomic-finish _ _ (search call_rules depth 20) (Succeeds-return tt)
  IsAtomic-call_of (Defs.flush id) = search call_rules depth 20
  IsAtomic-call_of (Defs.close_file id) = search call_rules depth 20
  IsAtomic-call_of (Defs.truncate id n) =
      IsAtomic-finish _ _ (search call_rules depth 20) (Succeeds-return tt)
  IsAtomic-call_of (Defs.set_delete_on_close id b) = search call_rules depth 20
  IsAtomic-call_of (Defs.subscribe id r) =
      IsAtomic-finish _ _ (search call_rules depth 20) (Succeeds-return tt)
  IsAtomic-call_of (Defs.poll_events id a n) =
      IsAtomic-finish _ _ (search call_rules depth 20) (Succeeds-return tt)
  IsAtomic-call_of (Defs.ack_events id n) =
      IsAtomic-finish _ _ (search call_rules depth 20) (Succeeds-return tt)
  IsAtomic-call_of (Defs.resync id) =
      IsAtomic-finish _ _ (search call_rules depth 20) (Succeeds-return tt)
  IsAtomic-call_of (Defs.recover_handles l) =
      IsAtomic-finish _ _ (search call_rules depth 20) (Succeeds-return tt)
  IsAtomic-call_of (Defs.revalidate l) =
      IsAtomic-finish _ _ (search call_rules depth 20) (Succeeds-return tt)
  IsAtomic-call_of (Defs.resubscribe l) =
      IsAtomic-finish _ _ (search call_rules depth 20) (Succeeds-return tt)

  -- Whatever a call of a client asks for, if it fails, for whatever reason, then the client tracks
  -- the same handles, cursors, watches and nodes as before and has the same session.
  pub call_of-err :
      (q : Request) (c : Client N) (e : CallError)
      → (call_of q c).0 ≡ err e
      → known (call_of q c).1 ≡ known c
  call_of-err q = (IsAtomic-call_of q).at

  IsAtomic-create_session :
      (instance_id : Text) (lease : ℕ) → IsAtomic (create_session v instance_id lease)
  unfolding create_session
  IsAtomic-create_session instance_id lease = search call_rules depth 20

  finish_resume-err :
      (prev : ℕ) (instance_id : Text) (r : Result CallError SessionResp) (c : Client N)
      (e : CallError)
      → (finish_resume v prev instance_id r c).0 ≡ err e
      → known (finish_resume v prev instance_id r c).1 ≡ (c.state, prev)
  unfolding finish_resume ◌>>=◌ ◌>>◌ set_session_id remember return fail
  finish_resume-err prev instance_id (err e') c e failed = refl
  finish_resume-err prev instance_id (ok resp) c e failed = absurd (err-ne-ok (sym failed))

  -- A ResumeSession that fails gives the client the session back that it had, and changes nothing
  -- else of what it knows.
  pub resume_session-err :
      (session_id : ℕ) (instance_id : Text) (c : Client N) (e : CallError)
      → (resume_session v session_id instance_id c).0 ≡ err e
      → known (resume_session v session_id instance_id c).1 ≡ known c
  unfolding resume_session ◌>>=◌ ◌>>◌ get set_session_id attempt
  resume_session-err session_id instance_id c e failed =
      let asked : Client N = record c { session_id = session_id } in
      let ask : Call N SessionResp =
        request_decode v Channel.control Opcode.resume_session_req
          (v.control (ControlRequest.resume_session session_id instance_id)) v.session_resp in
      let (r, c') = ask asked in
      finish_resume-err c.session_id instance_id r c' e failed
      ∙ ap (λ (k : RuntimeState × ℕ). (k.0, c.session_id))
          ((LooksOnly-request_decode v _ _ _ _).at asked)
