-- ===== src/Protocol/Opcode.antt =====
-- internal/protocol/types.go: the opcodes.
use net_drive.Prelude.{ℕ}

abbrev pub hello_req : ℕ
hello_req = 1

abbrev pub hello_resp : ℕ
hello_resp = 2

abbrev pub auth_req : ℕ
auth_req = 3

abbrev pub auth_resp : ℕ
auth_resp = 4

abbrev pub create_session_req : ℕ
create_session_req = 5

abbrev pub create_session_resp : ℕ
create_session_resp = 6

abbrev pub resume_session_req : ℕ
resume_session_req = 7

abbrev pub resume_session_resp : ℕ
resume_session_resp = 8

abbrev pub heartbeat_req : ℕ
heartbeat_req = 9

abbrev pub heartbeat_resp : ℕ
heartbeat_resp = 10

abbrev pub error_resp : ℕ
error_resp = 11

abbrev pub lookup_req : ℕ
lookup_req = 20

abbrev pub lookup_resp : ℕ
lookup_resp = 21

abbrev pub get_attr_req : ℕ
get_attr_req = 22

abbrev pub get_attr_resp : ℕ
get_attr_resp = 23

abbrev pub open_dir_req : ℕ
open_dir_req = 24

abbrev pub open_dir_resp : ℕ
open_dir_resp = 25

abbrev pub read_dir_req : ℕ
read_dir_req = 26

abbrev pub read_dir_resp : ℕ
read_dir_resp = 27

abbrev pub rename_req : ℕ
rename_req = 28

abbrev pub rename_resp : ℕ
rename_resp = 29

abbrev pub close_dir_req : ℕ
close_dir_req = 30

abbrev pub close_dir_resp : ℕ
close_dir_resp = 31

abbrev pub open_req : ℕ
open_req = 40

abbrev pub open_resp : ℕ
open_resp = 41

abbrev pub create_req : ℕ
create_req = 42

abbrev pub create_resp : ℕ
create_resp = 43

abbrev pub read_req : ℕ
read_req = 44

abbrev pub read_resp : ℕ
read_resp = 45

abbrev pub write_req : ℕ
write_req = 46

abbrev pub write_resp : ℕ
write_resp = 47

abbrev pub flush_req : ℕ
flush_req = 48

abbrev pub flush_resp : ℕ
flush_resp = 49

abbrev pub truncate_req : ℕ
truncate_req = 50

abbrev pub truncate_resp : ℕ
truncate_resp = 51

abbrev pub set_delete_on_close_req : ℕ
set_delete_on_close_req = 52

abbrev pub set_delete_on_close_resp : ℕ
set_delete_on_close_resp = 53

abbrev pub close_req : ℕ
close_req = 54

abbrev pub close_resp : ℕ
close_resp = 55

abbrev pub subscribe_req : ℕ
subscribe_req = 60

abbrev pub subscribe_resp : ℕ
subscribe_resp = 61

abbrev pub poll_events_req : ℕ
poll_events_req = 62

abbrev pub poll_events_resp : ℕ
poll_events_resp = 63

abbrev pub ack_events_req : ℕ
ack_events_req = 64

abbrev pub ack_events_resp : ℕ
ack_events_resp = 65

abbrev pub resync_req : ℕ
resync_req = 66

abbrev pub resync_resp : ℕ
resync_resp = 67

abbrev pub recover_handles_req : ℕ
recover_handles_req = 70

abbrev pub recover_handles_resp : ℕ
recover_handles_resp = 71

abbrev pub revalidate_req : ℕ
revalidate_req = 72

abbrev pub revalidate_resp : ℕ
revalidate_resp = 73

abbrev pub resubscribe_req : ℕ
resubscribe_req = 74

abbrev pub resubscribe_resp : ℕ
resubscribe_resp = 75
