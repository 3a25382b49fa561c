-- ===== src/Winfsp/Callbacks.antt =====
-- internal/winfsp/callbacks.go and adapter/adapter.go: the callbacks, and what they remember of
-- each handle. Security descriptors are left out.
use net_drive.Prelude.{
  ℕ, Bool, true, false, none, some, List, Result, ok, err, nat_eq, if◌then◌else◌,
}
use net_drive.Prelude.Map
use net_drive.Prelude.Map.{Map}
use net_drive.Prelude.Text.{Text, is_empty}
use net_drive.Backend.Handles.{Offset}
use net_drive.Mount.Defs.{ProtocolClient, FileInfo, LocalHandle, Mount, MountError}
use net_drive.Mount.Volume
use net_drive.Winfsp.Status.{NtStatus, map_error}

pub record HandleState : Type 0 where
  pub info : FileInfo
  pub delete_on_close : Bool
  pub cleaned : Bool
  pub flushed : Bool

pub record Callbacks (N : Type 0) : Type 0 where
  pub mount : Mount N
  pub handles : Map ℕ HandleState

-- A callback's value where it succeeds, or else its status.
abbrev pub Answer : Type 0 → Type 0
Answer A = Result NtStatus A

module _ {N : Type 0} where
  -- a callback that needs a handle it remembers
  unfoldable pub on_handle :
      {A : Type 0}
      → Callbacks N
      → ℕ
      → (HandleState → Answer A × Callbacks N)
      → Answer A × Callbacks N
  on_handle c id f = elim (Map.get c.handles id) [
    | none ↦ (err NtStatus.invalid_handle, c)
    | some h ↦ f h
  ]

  unfoldable pub put_handle : Callbacks N → ℕ → HandleState → Callbacks N
  put_handle c id h = record c { handles = Map.insert c.handles id h }

  -- a callback that a read-only volume denies
  unfoldable pub deny : {A : Type 0} → Callbacks N → ℕ → Answer A × Callbacks N
  unfolding on_handle
  deny c id = on_handle c id (λ h. (err NtStatus.access_denied, c))

  unfoldable pub create : Text → Callbacks N → Answer (Unit {0}) × Callbacks N
  create path c =
      (err (if is_empty path then NtStatus.object_path_not_found else NtStatus.access_denied), c)

  unfoldable pub overwrite : ℕ → Callbacks N → Answer (Unit {0}) × Callbacks N
  unfolding deny
  overwrite id c = deny c id

  -- the bytes written are 0
  unfoldable pub write : ℕ → Callbacks N → Answer ℕ × Callbacks N
  unfolding deny
  write id c = deny c id

  unfoldable pub set_basic_info : ℕ → Callbacks N → Answer (Unit {0}) × Callbacks N
  unfolding deny
  set_basic_info id c = deny c id

  unfoldable pub set_file_size : ℕ → Callbacks N → Answer (Unit {0}) × Callbacks N
  unfolding deny
  set_file_size id c = deny c id

  unfoldable pub set_security : ℕ → Callbacks N → Answer (Unit {0}) × Callbacks N
  unfolding deny
  set_security id c = deny c id

  unfoldable pub rename : ℕ → Text → Callbacks N → Answer (Unit {0}) × Callbacks N
  unfolding on_handle
  rename id new_path c = on_handle c id (λ h. (
    err (if is_empty new_path then NtStatus.object_path_not_found else NtStatus.access_denied),
    c,
  ))

  unfoldable pub cleanup : ℕ → Callbacks N → Answer (Unit {0}) × Callbacks N
  unfolding on_handle put_handle
  cleanup id c = on_handle c id (λ h. (ok tt, put_handle c id (record h { cleaned = true })))

  unfoldable pub flush : ℕ → Callbacks N → Answer (Unit {0}) × Callbacks N
  unfolding on_handle put_handle
  flush id c = on_handle c id (λ h. (ok tt, put_handle c id (record h { flushed = true })))

  unfoldable pub get_file_info_by_handle : ℕ → Callbacks N → Answer FileInfo × Callbacks N
  unfolding on_handle
  get_file_info_by_handle id c = on_handle c id (λ h. (ok h.info, c))

  -- the handle remembers the wish, and a true one is denied
  unfoldable pub set_delete_on_close : ℕ → Bool → Callbacks N → Answer (Unit {0}) × Callbacks N
  unfolding on_handle put_handle
  set_delete_on_close id enabled c = on_handle c id (λ h. (
    if enabled then err NtStatus.access_denied else ok tt,
    put_handle c id (record h { delete_on_close = enabled }),
  ))

module _ {N E : Type 0} (client : ProtocolClient N E) (message : MountError E → Text) where
  unfoldable pub status_of : {A : Type 0} → Result (MountError E) A → Answer A
  unfolding map_error
  status_of (ok a) = ok a
  status_of (err e) = err (map_error message e)

  unfoldable pub get_file_info : Text → Callbacks N → Answer FileInfo × Callbacks N
  unfolding status_of
  get_file_info path c =
      let (r, m) = Volume.get_attr client path c.mount in (status_of r, record c { mount = m })

  unfoldable pub denied : {A : Type 0} → Answer FileInfo → Answer A
  denied (err status) = err status
  denied (ok info) = err NtStatus.access_denied

  unfoldable pub can_delete : Text → Callbacks N → Answer (Unit {0}) × Callbacks N
  unfolding get_file_info denied
  can_delete path c = let (r, c') = get_file_info path c in (denied r, c')

  -- trackHandle of a handle that was opened
  unfoldable pub track : Answer LocalHandle → Callbacks N → Callbacks N
  unfolding put_handle
  track (err status) c = c
  track (ok h) c =
      put_handle c h.handle_id
        (record { info = h.info; delete_on_close = false; cleaned = false; flushed = false })

  unfoldable pub open_file : Text → Callbacks N → Answer LocalHandle × Callbacks N
  unfolding status_of track
  open_file path c =
      let (r, m) = Volume.open_file client path c.mount in
      (status_of r, track (status_of r) (record c { mount = m }))

  unfoldable pub open_directory : Text → Callbacks N → Answer LocalHandle × Callbacks N
  unfolding status_of track
  open_directory path c =
      let (r, m) = Volume.open_directory client path c.mount in
      (status_of r, track (status_of r) (record c { mount = m }))

  unfoldable pub read_directory :
      ℕ → ℕ → ℕ → Callbacks N → Answer (List FileInfo × ℕ × Bool) × Callbacks N
  unfolding status_of
  read_directory id cookie n c =
      let (r, m) = Volume.read_directory client id cookie n c.mount in
      (status_of r, record c { mount = m })

  unfoldable pub read : ℕ → Offset → ℕ → Callbacks N → Answer (Text × Bool) × Callbacks N
  unfolding status_of
  read id offset n c =
      let (r, m) = Volume.read client id offset n c.mount in (status_of r, record c { mount = m })

  -- The handle is forgotten only if the mount's Close returned no error.
  unfoldable pub finish_close : ℕ → Answer (Unit {0}) → Callbacks N → Callbacks N
  finish_close id (err status) c = c
  finish_close id (ok u) c = record c { handles = Map.delete c.handles id }

  unfoldable pub close : ℕ → Callbacks N → Answer (Unit {0}) × Callbacks N
  unfolding status_of finish_close
  close id c =
      let (r, m) = Volume.close client id c.mount in
      (status_of r, finish_close id (status_of r) (record c { mount = m }))
