-- ===== src/Protocol/Errors.antt =====
-- internal/protocol/types.go: the codes of an error answer.
pub data ErrorCode : Type 0 where
  invalid_request unsupported_version unsupported_op auth_required session_expired : ErrorCode
  session_not_found capability_mismatch not_found already_exists not_dir is_dir : ErrorCode
  invalid_handle access_denied watch_not_found recovery_failed internal : ErrorCode
