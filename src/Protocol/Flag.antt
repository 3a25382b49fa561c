-- ===== src/Protocol/Flag.antt =====
-- internal/protocol/types.go: the header flags that the code sets or tests.
use net_drive.Prelude.{ℕ}

abbrev pub request : ℕ
request = 1

abbrev pub response : ℕ
response = 2

abbrev pub error : ℕ
error = 4
