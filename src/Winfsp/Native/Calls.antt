-- ===== src/Winfsp/Native/Calls.antt =====
-- internal/winfsp/dispatcher_native_windows.go: the driver's calls on handles. A registry keeps the
-- callbacks of each file system by its number.
use net_drive.Prelude.{ℕ, Bool, Option, none, some, ok, err, if◌then◌else◌, nat_eq}
use net_drive.Prelude.Map
use net_drive.Prelude.Map.{Map}
use net_drive.Prelude.Text.{Text}
use net_drive.Mount.Path.{normalize_mount_path}
use net_drive.Mount.Defs.{FileInfo}
use net_drive.Winfsp.Status.{NtStatus}
use net_drive.Winfsp.Callbacks
use net_drive.Winfsp.Callbacks.{Callbacks, Answer}
use net_drive.Winfsp.Native.Info.{NativeFileInfo}

abbrev pub Registry : Type 0 → Type 0
Registry N = Map ℕ (Callbacks N)

-- A status, and what is stored where there is something to store.
abbrev pub Stored : Type 0 → Type 0
Stored A = NtStatus × Option A

unfoldable pub status : {A : Type 0} → Answer A → NtStatus
status (err s) = s
status (ok a) = NtStatus.success

-- The attributes of a handle as they are stored after a call that succeeded, if the pointer is
-- not null.
unfoldable pub restored :
    Bool → (FileInfo → NativeFileInfo) → Answer FileInfo → Option NativeFileInfo
restored wanted fill (err s) = none
restored wanted fill (ok info) = if wanted then some (fill info) else none

unfoldable pub fill_answer : (FileInfo → NativeFileInfo) → Answer FileInfo → Stored NativeFileInfo
fill_answer fill (err s) = (s, none)
fill_answer fill (ok info) = (NtStatus.success, some (fill info))

-- the number that Write returns beside its status
unfoldable pub written : Answer ℕ → ℕ
written (err s) = 0
written (ok n) = n

module _ {N : Type 0} where
  -- A call on a file system, with its answer where there is none of that number.
  unfoldable pub with_fs :
      {A : Type 0} → Registry N → ℕ → A → (Callbacks N → A × Callbacks N) → A × Registry N
  with_fs r fs missing f = elim (Map.get r fs) [
    | none ↦ (missing, r)
    | some c ↦ let (a, c') = f c in (a, Map.insert r fs c')
  ]

  -- A call that answers with a status alone.
  unfoldable pub with_status :
      {A : Type 0} → Registry N → ℕ → (Callbacks N → Answer A × Callbacks N) → NtStatus × Registry N
  unfolding with_fs status
  with_status r fs f =
      with_fs r fs NtStatus.internal_error (λ c. let (a, c') = f c in (status a, c'))

  -- A call on a path that is read from a pointer.
  unfoldable pub on_path :
      {A : Type 0}
      → Text
      → (Text → Callbacks N → Answer A × Callbacks N)
      → Callbacks N
      → Answer A × Callbacks N
  unfolding normalize_mount_path
  on_path name f c = elim (normalize_mount_path name) [
    | none ↦ (err NtStatus.object_path_not_found, c)
    | some path ↦ f path c
  ]

  -- goCleanup and goClose answer nothing.
  unfoldable pub go_cleanup : Registry N → ℕ → ℕ → Registry N
  unfolding with_status
  go_cleanup r fs id = (with_status r fs (Callbacks.cleanup id)).1

  unfoldable pub go_rename : Registry N → ℕ → ℕ → Text → NtStatus × Registry N
  unfolding with_status on_path
  go_rename r fs id new_name = with_status r fs (on_path new_name (Callbacks.rename id))

  unfoldable pub go_set_security : Registry N → ℕ → ℕ → NtStatus × Registry N
  unfolding with_status
  go_set_security r fs id = with_status r fs (Callbacks.set_security id)

  unfoldable pub go_set_delete : Registry N → ℕ → ℕ → Bool → NtStatus × Registry N
  unfolding with_status
  go_set_delete r fs id delete_file =
      with_status r fs (Callbacks.set_delete_on_close id delete_file)

  unfoldable pub then_info :
      {A : Type 0}
      → Bool
      → (FileInfo → NativeFileInfo)
      → ℕ
      → Answer A × Callbacks N
      → Stored NativeFileInfo × Callbacks N
  unfolding restored
  then_info wanted fill id (err s, c) = ((s, none), c)
  then_info wanted fill id (ok a, c) =
      ((NtStatus.success, restored wanted fill (Callbacks.get_file_info_by_handle id c).0), c)

module _ {N : Type 0} (fill : FileInfo → NativeFileInfo) where
  -- Calls that may store the attributes of the handle afterwards: `wanted` tells if the pointer is
  -- not null.
  unfoldable pub go_overwrite : Registry N → ℕ → ℕ → Bool → Stored NativeFileInfo × Registry N
  unfolding with_fs then_info
  go_overwrite r fs id wanted =
      with_fs r fs (NtStatus.internal_error, none)
        (λ c. then_info wanted fill id (Callbacks.overwrite id c))

  -- (status, bytes written, attributes); the number of bytes is not stored without a file system
  unfoldable pub go_write :
      Registry N → ℕ → ℕ → Bool → (Stored NativeFileInfo × Option ℕ) × Registry N
  unfolding with_fs then_info written
  go_write r fs id wanted =
      with_fs r fs ((NtStatus.internal_error, none), none)
        (λ c.
          let (stored, c') = then_info wanted fill id (Callbacks.write id c) in
          ((stored, some (written (Callbacks.write id c).0)), c'))

  -- A flush without a handle is one of the whole volume.
  unfoldable pub go_flush : Registry N → ℕ → Option ℕ → Bool → Stored NativeFileInfo × Registry N
  unfolding with_fs then_info
  go_flush r fs none wanted =
      with_fs r fs (NtStatus.internal_error, none) (λ c. ((NtStatus.success, none), c))
  go_flush r fs (some id) wanted =
      with_fs r fs (NtStatus.internal_error, none)
        (λ c. then_info wanted fill id (Callbacks.flush id c))

  unfoldable pub go_set_basic_info : Registry N → ℕ → ℕ → Bool → Stored NativeFileInfo × Registry N
  unfolding with_fs then_info
  go_set_basic_info r fs id wanted =
      with_fs r fs (NtStatus.internal_error, none)
        (λ c. then_info wanted fill id (Callbacks.set_basic_info id c))

  unfoldable pub go_set_file_size : Registry N → ℕ → ℕ → Bool → Stored NativeFileInfo × Registry N
  unfolding with_fs then_info
  go_set_file_size r fs id wanted =
      with_fs r fs (NtStatus.internal_error, none)
        (λ c. then_info wanted fill id (Callbacks.set_file_size id c))

  unfoldable pub go_get_file_info : Registry N → ℕ → ℕ → Stored NativeFileInfo × Registry N
  unfolding with_fs fill_answer
  go_get_file_info r fs id =
      with_fs r fs (NtStatus.internal_error, none)
        (λ c. let (a, c') = Callbacks.get_file_info_by_handle id c in (fill_answer fill a, c'))
