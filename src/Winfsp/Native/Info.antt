-- ===== src/Winfsp/Native/Info.antt =====
-- internal/winfsp/dispatcher_native_windows.go: what the driver is told of a file. `parse_nano` and
-- `parse_plain` are time.Parse with the formats RFC3339Nano and RFC3339.
use net_drive.Prelude.{
  ℕ, ◌+◌, ◌-◌, ◌%◌, Bool, true, Option, none, some, eqb, ltb, if◌then◌else◌, length,
}
use net_drive.Prelude.Words.{u64_mod}
use net_drive.Prelude.Text.{Text, is_empty}
use net_drive.Mount.Path.{trim_space}
use net_drive.Mount.Defs.{FileInfo}
use net_drive.Winfsp.Status.{NtStatus}

-- A time: whether it is the zero time, and uint64 of its hundreds of nanoseconds since 1970.
pub record Instant : Type 0 where
  pub is_zero : Bool
  pub ticks : ℕ

pub record NativeFileInfo : Type 0 where
  pub file_attributes : ℕ
  pub allocation_size : ℕ
  pub file_size : ℕ
  pub creation_time : ℕ
  pub last_access_time : ℕ
  pub last_write_time : ℕ
  pub change_time : ℕ
  pub index_number : ℕ

unfoldable pub windows_file_time : Instant → ℕ
windows_file_time t = if t.is_zero then 0 else (t.ticks + 116_444_736_000_000_000) % u64_mod

unfoldable pub time_or : ℕ → Option Instant → ℕ
unfolding windows_file_time
time_or other none = other
time_or other (some t) = windows_file_time t

module _ (parse_nano parse_plain : Text → Option Instant) where
  unfoldable pub parse_mod_time : Text → ℕ
  unfolding trim_space time_or
  parse_mod_time value = if is_empty (trim_space value) then 0 else elim (parse_nano value) [
    | none ↦ time_or 0 (parse_plain value)
    | some t ↦ windows_file_time t
  ]

-- The attributes 1, for reading only, and 16, for a directory.
unfoldable pub file_attributes : FileInfo → Bool → ℕ
file_attributes info read_only =
    (if read_only then 1 else 0) + (if info.is_directory then 16 else 0)

unfoldable pub round_up : ℕ → ℕ → ℕ
round_up v unit =
    if eqb v 0
    then v
    else if eqb unit 0
    then v
    else if eqb (v % unit) 0
    then v
    else (v + (unit - v % unit)) % u64_mod

module _ (parse_nano parse_plain : Text → Option Instant) where
  unfoldable pub native_file_info : FileInfo → Bool → NativeFileInfo
  unfolding file_attributes round_up parse_mod_time
  native_file_info info read_only =
      let size = if info.is_directory then 0 else info.size in
      let time = parse_mod_time parse_nano parse_plain info.mod_time in
      record {
        file_attributes = file_attributes info read_only;
        allocation_size = round_up size 4096;
        file_size = size;
        creation_time = time;
        last_access_time = time;
        last_write_time = time;
        change_time = time;
        index_number = info.node_id;
      }

-- A status of the callbacks, or the one for a buffer that is too small.
pub data DriverStatus : Type 0 where
  of_status : NtStatus → DriverStatus
  buffer_too_small : DriverStatus

-- copySecurityDescriptor: the status, the size stored, and the bytes stored. `room` is the size
-- that the caller gives, where there is one, and `convert` the system's reading of a descriptor.
module _ (convert : Text → Option Text) where
  unfoldable pub copy_bytes : Bool → ℕ → Option Text → DriverStatus × Option ℕ × Option Text
  copy_bytes has_buffer room none = (of_status NtStatus.internal_error, none, none)
  copy_bytes has_buffer room (some bytes) =
      let n = length bytes in
      if (if has_buffer then ltb room n else true)
      then (buffer_too_small, some n, none)
      else (of_status NtStatus.success, some n, some bytes)

  unfoldable pub copy_security_descriptor :
      Text → Bool → Option ℕ → DriverStatus × Option ℕ × Option Text
  unfolding copy_bytes trim_space
  copy_security_descriptor sddl has_buffer none = (of_status NtStatus.internal_error, none, none)
  copy_security_descriptor sddl has_buffer (some room) =
      if is_empty (trim_space sddl)
      then (of_status NtStatus.success, some 0, none)
      else copy_bytes has_buffer room (convert sddl)
