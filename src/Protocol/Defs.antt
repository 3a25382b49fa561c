-- ===== src/Protocol/Defs.antt =====
-- internal/protocol/types.go: the frame header.
use net_drive.Prelude.{ℕ}
use net_drive.Prelude.Text.{Text, codes}

abbrev pub magic : Text
magic = codes "DMNT"

abbrev pub version : ℕ
version = 1

abbrev pub header_length : ℕ
header_length = 32

pub record Header : Type 0 where
  pub magic : Text
  pub version : ℕ
  pub header_length : ℕ
  pub channel : ℕ
  pub opcode : ℕ
  pub flags : ℕ
  pub request_id : ℕ
  pub session_id : ℕ
  pub payload_length : ℕ
