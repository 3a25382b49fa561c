-- ===== src/Dispatch/Errors.antt =====
-- internal/server/server.go: which code an error of the backend or of the journal is answered with.
use net_drive.Prelude.{Bool, true, false, if◌then◌else◌, Result, ok, err}
use net_drive.Prelude.Text.{codes}
use net_drive.Protocol.{ErrorCode}
use net_drive.Journal.{JournalError, watch_not_found, backend}
use net_drive.Backend.Defs.{BackendError, M, other}
use net_drive.Backend.Profile.{to_lower, contains}
use net_drive.Backend.Refresh.{is_not_dir}
use net_drive.Dispatch.Defs.{Handler, ◌>>=◌, return, refuse, try_backend}

unfoldable pub is_dir : BackendError → Bool
is_dir BackendError.is_dir = true
is_dir (other message) = contains (to_lower message) (codes "is a directory")
is_dir _ = false

-- the default of the switch, after the tests of errors.Is
unfoldable pub text_code : BackendError → ErrorCode
unfolding is_not_dir is_dir
text_code e =
    if is_not_dir e
    then ErrorCode.not_dir
    else if is_dir e
    then ErrorCode.is_dir
    else ErrorCode.internal

-- writeBackendError
unfoldable pub backend_error_code : BackendError → ErrorCode
unfolding text_code
backend_error_code BackendError.not_exist = ErrorCode.not_found
backend_error_code BackendError.already_exists = ErrorCode.already_exists
backend_error_code BackendError.exist = ErrorCode.already_exists
backend_error_code BackendError.invalid_handle = ErrorCode.invalid_handle
backend_error_code BackendError.access_denied = ErrorCode.access_denied
backend_error_code e = text_code e

-- writeWatchError
unfoldable pub watch_error_code : JournalError → ErrorCode
unfolding backend_error_code
watch_error_code watch_not_found = ErrorCode.watch_not_found
watch_error_code (backend e) = backend_error_code e

module _ {W : Type 0} where
  unfoldable pub or_backend_error : {A : Type 0} → Result BackendError A → Handler W A
  or_backend_error (ok a) = return a
  or_backend_error (err e) = refuse (backend_error_code e)

  unfoldable pub or_watch_error : {A : Type 0} → Result JournalError A → Handler W A
  or_watch_error (ok a) = return a
  or_watch_error (err e) = refuse (watch_error_code e)

  -- a call of the backend; an error of it is the answer
  unfoldable pub call_backend : {A : Type 0} → M W A → Handler W A
  unfolding or_backend_error
  call_backend m = try_backend m >>= or_backend_error
