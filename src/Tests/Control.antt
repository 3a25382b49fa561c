-- ===== src/Tests/Control.antt =====
-- A connection with and without the token, and one new session.
use net_drive.Prelude.{ℕ, ◌≡◌, refl, true, false, some, List, [], ◌∷◌, text_beq, nat_eq}
use net_drive.Prelude.Map.{get-empty}
use net_drive.Prelude.Text.{codes}
use net_drive.Protocol.{Header}
use net_drive.Protocol.Channel
use net_drive.Protocol.Opcode
use net_drive.Prelude.Words.{next_u64}
use net_drive.Session.{Session, new_session_manager}
use net_drive.Protocol.{session_expired}
use net_drive.Control.{
  ConnectionState, Request, hello, auth, create_session, resume_session, new_connection, route,
  serve_create, session_info, refused, dispatch_control, is_session_channel,
}
use net_drive.Control.Access.{
  serve_all, serve_all-denies, WithoutToken, carries_token, route-create,
}

abbrev token : List ℕ
token = codes "devmount-dev-token"

abbrev guesses : List (ℕ × Request)
guesses =
    (1, hello (some (1 ∷ [])))
    ∷ (2, auth (some (codes "dev-token", codes "guess")))
    ∷ (3, create_session (some (codes "c1", 30)))
    ∷ (4, resume_session (some (1001, codes "c1")))
    ∷ []

serve_all-denies_example :
    ((serve_all token new_connection new_session_manager guesses).0.authenticated ≡ false)
    × ((serve_all token new_connection new_session_manager guesses).1 ≡ new_session_manager)
unfolding WithoutToken carries_token text_beq new_connection new_session_manager
serve_all-denies_example =
    serve_all-denies token new_connection new_session_manager guesses
      (refl, (refl, (refl, (refl, tt)))) refl get-empty

login_test :
    (serve_all token new_connection new_session_manager (
      (1, hello (some (1 ∷ [])))
      ∷ (2, auth (some (codes "dev-token", token)))
      ∷ [])).0.authenticated
    ≡ true
unfolding serve_all dispatch_control text_beq
login_test = refl

abbrev developer : ConnectionState
developer = record { hello_done = true; authenticated = true; principal_id = codes "developer" }

abbrev get_attr : Header
get_attr = record {
  magic = codes "DMNT";
  version = 1;
  header_length = 32;
  channel = Channel.metadata;
  opcode = 22;
  flags = 1;
  request_id = 7;
  session_id = 1001;
  payload_length = 0;
}

route-create_example :
    ((s : Session) × ((serve_create developer new_session_manager 0 (some (codes "c1", 0))).2
        ≡ session_info Opcode.create_session_resp s)
      × (s.id ≡ next_u64 new_session_manager.next_id)
      × (s.lease_seconds ≡ 30))
    × (route
          (serve_create developer new_session_manager 0 (some (codes "c1", 0))).1
          30_000_000_001
          get_attr
        ≡ refused session_expired)
unfolding is_session_channel
route-create_example =
    route-create developer new_session_manager 0 30_000_000_001 0 (codes "c1") get_attr refl
      (unfold new_session_manager in refl) refl
