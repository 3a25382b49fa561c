-- ===== src/Winfsp/Native/Names.antt =====
-- internal/winfsp/dispatcher_native_windows.go: the driver's calls that reach the server, and those
-- for security descriptors.
use net_drive.Prelude.{
  ℕ, Bool, Option, none, some, true, ok, err, if◌then◌else◌, ◌||◌, ltb, take, length, nat_eq,
}
use net_drive.Prelude.Text.{Text}
use net_drive.Backend.Handles.{Offset}
use net_drive.Mount.Path.{normalize_mount_path, join_mount_path}
use net_drive.Mount.Defs.{ProtocolClient, FileInfo, LocalHandle, MountError}
use net_drive.Winfsp.Status.{NtStatus}
use net_drive.Winfsp.Callbacks
use net_drive.Winfsp.Callbacks.{Callbacks, Answer}
use net_drive.Winfsp.Security.{NativeSecurityDescriptor, get_security_by_name, get_security}
use net_drive.Winfsp.Native.Info.{
  NativeFileInfo, file_attributes, DriverStatus, of_status, copy_security_descriptor,
}
use net_drive.Winfsp.Native.Calls.{Registry, Stored, with_fs, with_status, on_path}

-- goCreate never succeeds.
unfoldable pub created : Answer (Unit {0}) → Answer (Unit {0})
created (err s) = err s
created (ok u) = err NtStatus.access_denied

-- The path given, or that of the handle where the pointer is null.
unfoldable pub handle_path : Answer FileInfo → Option Text
handle_path (err s) = none
handle_path (ok info) = some info.path

unfoldable pub resolve_path : {N : Type 0} → Callbacks N → ℕ → Option Text → Option Text
unfolding handle_path normalize_mount_path
resolve_path c id none = handle_path (Callbacks.get_file_info_by_handle id c).0
resolve_path c id (some name) = normalize_mount_path name

-- (status, handle and attributes)
unfoldable pub opened :
    (FileInfo → NativeFileInfo) → Answer LocalHandle → Stored (ℕ × NativeFileInfo)
opened fill (err s) = (s, none)
opened fill (ok h) = (NtStatus.success, some (h.handle_id, fill h.info))

-- The bytes that are stored; their number is stored too.
unfoldable pub cut_to : ℕ → Answer (Text × Bool) → Stored Text
cut_to size (err s) = (s, none)
cut_to size (ok (bytes, eof)) =
    (NtStatus.success, some (if ltb size (length bytes) then take size bytes else bytes))

unfoldable pub stored : {A : Type 0} → Answer A → Stored A
stored (err s) = (s, none)
stored (ok a) = (NtStatus.success, some a)

module _ {N E : Type 0} (client : ProtocolClient N E) (message : MountError E → Text) where
  unfoldable pub go_create : Registry N → ℕ → Text → NtStatus × Registry N
  unfolding with_status on_path created
  go_create r fs name =
      with_status r fs
        (on_path name (λ path c. let (a, c') = Callbacks.create path c in (created a, c')))

  unfoldable pub go_can_delete : Registry N → ℕ → ℕ → Option Text → NtStatus × Registry N
  unfolding with_status resolve_path
  go_can_delete r fs id name = with_status {A = Unit {0}} r fs (λ c. elim (resolve_path c id name) [
    | none ↦ (err NtStatus.object_path_not_found, c)
    | some path ↦ Callbacks.can_delete client message path c
  ])

  unfoldable pub open_by_kind :
      Text → Bool → Answer FileInfo × Callbacks N → Answer LocalHandle × Callbacks N
  open_by_kind path wants_directory (err s, c) = (err s, c)
  open_by_kind path wants_directory (ok info, c) =
      if info.is_directory || wants_directory
      then Callbacks.open_directory client message path c
      else Callbacks.open_file client message path c

  unfoldable pub go_open :
      (FileInfo → NativeFileInfo)
      → Registry N
      → ℕ
      → Text
      → Bool
      → Stored (ℕ × NativeFileInfo) × Registry N
  unfolding with_fs on_path open_by_kind opened
  go_open fill r fs name wants_directory =
      with_fs r fs (NtStatus.internal_error, none)
        (λ c.
          let (a, c') =
            on_path name
              (λ path c.
                open_by_kind path wants_directory (Callbacks.get_file_info client message path c))
              c in
          (opened fill a, c'))

  unfoldable pub go_close : Registry N → ℕ → ℕ → Registry N
  unfolding with_status
  go_close r fs id = (with_status r fs (Callbacks.close client message id)).1

  unfoldable pub go_read : Registry N → ℕ → ℕ → Offset → ℕ → Stored Text × Registry N
  unfolding with_fs cut_to
  go_read r fs id offset size =
      with_fs r fs (NtStatus.internal_error, none)
        (λ c. let (a, c') = Callbacks.read client message id offset size c in (cut_to size a, c'))

  -- The attributes of the child of an open directory.
  unfoldable pub child_info : Text → Answer FileInfo × Callbacks N → Answer FileInfo × Callbacks N
  unfolding join_mount_path
  child_info name (err s, c) = (err s, c)
  child_info name (ok parent, c) =
      Callbacks.get_file_info client message (join_mount_path parent.path name) c

  unfoldable pub go_get_dir_info_by_name : Registry N → ℕ → ℕ → Text → Stored FileInfo × Registry N
  unfolding with_fs child_info stored
  go_get_dir_info_by_name r fs id name =
      with_fs r fs (NtStatus.internal_error, none)
        (λ c.
          let (a, c') = child_info name (Callbacks.get_file_info_by_handle id c) in (stored a, c'))

-- The descriptors. `convert` is the system's reading of one.
module _ (convert : Text → Option Text) where
  unfoldable pub copied :
      Bool
      → Option ℕ
      → Answer (NativeSecurityDescriptor × Text)
      → DriverStatus × Option ℕ × Option Text
  unfolding copy_security_descriptor
  copied has_buffer room (err s) = (of_status s, none, none)
  copied has_buffer room (ok (d, text)) = copy_security_descriptor convert d.sddl has_buffer room

  unfoldable pub go_get_security :
      {N : Type 0}
      → Registry N
      → ℕ
      → ℕ
      → Bool
      → Option ℕ
      → (DriverStatus × Option ℕ × Option Text) × Registry N
  unfolding with_fs copied get_security
  go_get_security r fs id has_buffer room =
      with_fs r fs (of_status NtStatus.internal_error, none, none)
        (λ c. let (a, c') = get_security id c in (copied has_buffer room a, c'))

-- The attributes of a path are stored where they are asked for and can be read.
unfoldable pub attributes_of : Answer FileInfo → Option ℕ
unfolding file_attributes
attributes_of (err s) = none
attributes_of (ok info) = some (file_attributes info true)

module _ {N E : Type 0} (client : ProtocolClient N E) (message : MountError E → Text)
    (convert : Text → Option Text) where
  unfoldable pub store_attributes : Text → Bool → Callbacks N → Option ℕ × Callbacks N
  unfolding attributes_of
  store_attributes path wanted c =
      if wanted
      then (let (a, c') = Callbacks.get_file_info client message path c in (attributes_of a, c'))
      else (none, c)

  unfoldable pub descriptor_by_name :
      Text
      → Bool
      → Bool
      → Option ℕ
      → Answer (NativeSecurityDescriptor × Text) × Callbacks N
      → ((DriverStatus × Option ℕ × Option Text) × Option ℕ) × Callbacks N
  unfolding store_attributes copied
  descriptor_by_name path wanted has_buffer room (err s, c) = (((of_status s, none, none), none), c)
  descriptor_by_name path wanted has_buffer room (ok d, c) =
      let (attributes, c') = store_attributes path wanted c in
      ((copied convert has_buffer room (ok d), attributes), c')

  -- (descriptor, attributes)
  unfoldable pub go_get_security_by_name :
      Registry N
      → ℕ
      → Text
      → Bool
      → Bool
      → Option ℕ
      → ((DriverStatus × Option ℕ × Option Text) × Option ℕ) × Registry N
  unfolding with_fs descriptor_by_name get_security_by_name normalize_mount_path
  go_get_security_by_name r fs name wanted has_buffer room =
      with_fs r fs ((of_status NtStatus.internal_error, none, none), none)
        (λ c. elim (normalize_mount_path name) [
          | none ↦ (((of_status NtStatus.object_path_not_found, none, none), none), c)
          | some path ↦
              descriptor_by_name path wanted has_buffer room
                (get_security_by_name client message path c)
        ])
