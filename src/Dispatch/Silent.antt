-- ===== src/Dispatch/Silent.antt =====
-- Handlers of internal/server/server.go and the list of events in the journal: rules for those that
-- append none.
use net_drive.Prelude.{◌≡◌, refl, ◌∙◌, ℕ, Result, ok, err, List}
use net_drive.Protocol.{ErrorCode, WatchEvent}
use net_drive.Backend.Defs.{BackendError, M}
use net_drive.Journal.{Journal, JournalError}
use net_drive.Dispatch.Defs.{
  Handler, ◌>>=◌, ◌>>◌, return, refuse, try_backend, get_journal, put_watches, Services,
}
use net_drive.Dispatch.Errors.{or_backend_error, or_watch_error, call_backend}
use net_drive.Dispatch.Events.{paths_now, depth_now}

-- What Append changes.
abbrev pub log_of : Journal → ℕ × ℕ × List WatchEvent
log_of j = (j.retention, j.next_seq, j.events)

pub record IsSilent {W A : Type 0} (m : Handler W A) : Type 0 where
  pub at : (s : _) → log_of (m s).1.journal ≡ log_of s.journal

module _ {W A : Type 0} where
  pub IsSilent-return : (a : A) → IsSilent {W = W} (return a)
  unfolding return
  IsSilent-return a = record { at = λ s. refl }

  pub IsSilent-refuse : (code : ErrorCode) → IsSilent {W = W} (refuse {A = A} code)
  unfolding refuse
  IsSilent-refuse code = record { at = λ s. refl }

  pub IsSilent-try_backend : (m : M W A) → IsSilent (try_backend m)
  unfolding try_backend
  IsSilent-try_backend m = record { at = λ s. refl }

  pub IsSilent-or_backend_error :
      (r : Result BackendError A) → IsSilent {W = W} (or_backend_error r)
  unfolding or_backend_error
  IsSilent-or_backend_error (ok a) = IsSilent-return a
  IsSilent-or_backend_error (err e) = IsSilent-refuse _

  pub IsSilent-or_watch_error : (r : Result JournalError A) → IsSilent {W = W} (or_watch_error r)
  unfolding or_watch_error
  IsSilent-or_watch_error (ok a) = IsSilent-return a
  IsSilent-or_watch_error (err e) = IsSilent-refuse _

module _ {W A B : Type 0} where
  silent_next :
      (r : Result ErrorCode A) (s : _) (f : A → Handler W B)
      → ((a : A) → IsSilent (f a))
      → log_of (((λ s'. (r, s')) >>= f) s).1.journal ≡ log_of s.journal
  unfolding ◌>>=◌
  silent_next (err code) s f h = refl
  silent_next (ok a) s f h = (h a).at s

  pub IsSilent-bind :
      (m : Handler W A) (f : A → Handler W B)
      → IsSilent m
      → ((a : A) → IsSilent (f a))
      → IsSilent (m >>= f)
  unfolding ◌>>=◌
  IsSilent-bind m f km kf = record {
    at = λ s. let (r, s') = m s in silent_next r s' f kf ∙ km.at s;
  }

  pub IsSilent-then :
      (m : Handler W A) (n : Handler W B) → IsSilent m → IsSilent n → IsSilent (m >> n)
  unfolding ◌>>◌
  IsSilent-then m n km kn = IsSilent-bind m (λ _. n) km (λ _. kn)

module _ {W : Type 0} where
  pub IsSilent-get_journal : IsSilent {W = W} get_journal
  unfolding get_journal
  IsSilent-get_journal = record { at = λ s. refl }

  pub IsSilent-put_watches : (j : Journal) → IsSilent {W = W} (put_watches j)
  unfolding put_watches
  IsSilent-put_watches j = record { at = λ s. refl }

  pub IsSilent-paths_now : (v : Services W) → IsSilent (paths_now v)
  unfolding paths_now
  IsSilent-paths_now v = record { at = λ s. refl }

  pub IsSilent-depth_now : (v : Services W) → IsSilent (depth_now v)
  unfolding depth_now
  IsSilent-depth_now v = record { at = λ s. refl }

  pub IsSilent-call_backend : {A : Type 0} (m : M W A) → IsSilent (call_backend m)
  unfolding call_backend
  IsSilent-call_backend m =
      IsSilent-bind _ _ (IsSilent-try_backend m) (λ r. IsSilent-or_backend_error r)

pub ruleset silent_rules = (
  IsSilent-return, IsSilent-refuse, IsSilent-try_backend, IsSilent-or_backend_error,
  IsSilent-or_watch_error, IsSilent-bind, IsSilent-then, IsSilent-get_journal, IsSilent-put_watches,
  IsSilent-paths_now, IsSilent-depth_now, IsSilent-call_backend,
)
