-- ===== src/Winfsp/Status.antt =====
-- internal/winfsp/status.go: the status codes of Windows. `message` is the text of an error.
use net_drive.Prelude.{ℕ, if◌then◌else◌, ◌||◌}
use net_drive.Prelude.Text.{Text, codes}
use net_drive.Backend.Profile.{contains}
use net_drive.Mount.Defs.{MountError}

pub data NtStatus : Type 0 where
  success object_name_not_found object_path_not_found access_denied : NtStatus
  invalid_handle file_is_a_directory not_a_directory internal_error : NtStatus

-- the numbers of the constants
unfoldable pub number : NtStatus → ℕ
number NtStatus.success = 0
number NtStatus.object_name_not_found = 3_221_225_524
number NtStatus.object_path_not_found = 3_221_225_530
number NtStatus.access_denied = 3_221_225_506
number NtStatus.invalid_handle = 3_221_225_480
number NtStatus.file_is_a_directory = 3_221_225_658
number NtStatus.not_a_directory = 3_221_225_731
number NtStatus.internal_error = 3_221_225_701

unfoldable pub status_of_text : Text → NtStatus
status_of_text msg =
    if contains msg (codes "ERR_NOT_FOUND") || contains msg (codes "not found")
    then NtStatus.object_name_not_found
    else if contains msg (codes "ERR_NOT_DIR")
    then NtStatus.not_a_directory
    else if contains msg (codes "ERR_IS_DIR")
    then NtStatus.file_is_a_directory
    else if contains msg (codes "ERR_INVALID_HANDLE") || contains msg (codes "invalid handle")
    then NtStatus.invalid_handle
    else if contains msg (codes "ERR_ACCESS_DENIED")
    then NtStatus.access_denied
    else if contains msg (codes "invalid path")
    then NtStatus.object_path_not_found
    else NtStatus.internal_error

-- mapError of an error that is not nil
unfoldable pub map_error : {E : Type 0} → (MountError E → Text) → MountError E → NtStatus
unfolding status_of_text
map_error message MountError.invalid_handle = NtStatus.invalid_handle
map_error message MountError.is_directory = NtStatus.file_is_a_directory
map_error message MountError.not_directory = NtStatus.not_a_directory
map_error message MountError.invalid_path = status_of_text (message MountError.invalid_path)
map_error message (MountError.remote e) = status_of_text (message (MountError.remote e))
map_error message (MountError.lookup_failed path e) =
    status_of_text (message (MountError.lookup_failed path e))
