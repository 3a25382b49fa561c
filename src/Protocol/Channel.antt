-- ===== src/Protocol/Channel.antt =====
-- internal/protocol/types.go: the channels. `bulk` is ChannelData.
use net_drive.Prelude.{ℕ}

abbrev pub control : ℕ
control = 1

abbrev pub metadata : ℕ
metadata = 2

abbrev pub bulk : ℕ
bulk = 3

abbrev pub events : ℕ
events = 4

abbrev pub recovery : ℕ
recovery = 5
