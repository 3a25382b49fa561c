-- ===== src/Winfsp/Native/Listing.antt =====
-- internal/winfsp/dispatcher_native_windows.go: goReadDirectory. `fits` is the driver's
-- FspFileSystemAddDirInfo, which puts an entry, or with `none` the mark of the end, behind what is
-- in the buffer, or refuses it where there is no room. strings.ToLower is that of ASCII.
use net_drive.Prelude.{
  ℕ, zero, suc, Bool, true, false, Option, none, some, List, [], ◌∷◌, ◌++◌, ok, err, not, ◌||◌,
  ◌&&◌, if◌then◌else◌, nat_eq,
}
use net_drive.Prelude.Map
use net_drive.Prelude.Text.{Text, is_empty, text_geb}
use net_drive.Backend.Profile.{to_lower}
use net_drive.Mount.Path.{trim_space}
use net_drive.Mount.Defs.{ProtocolClient, FileInfo, MountError}
use net_drive.Winfsp.Status.{NtStatus}
use net_drive.Winfsp.Callbacks.{Callbacks, Answer, read_directory, open_directory, close}
use net_drive.Winfsp.Native.Calls.{Registry}

abbrev pub Collected : Type 0 → Type 0
Collected N = Option (Answer (List FileInfo) × Callbacks N)

unfoldable pub prepend : {N : Type 0} → List FileInfo → Collected N → Collected N
prepend entries none = none
prepend entries (some (err s, c)) = some (err s, c)
prepend entries (some (ok more, c)) = some (ok (entries ++ more), c)

-- An entry that comes after the marker, by the lower case of their names.
unfoldable pub is_after : Text → FileInfo → Bool
is_after marker e =
    not (is_empty e.name)
    && not (not (is_empty marker) && text_geb (to_lower marker) (to_lower e.name))

module _ (fits : List FileInfo → Option FileInfo → Bool) where
  -- The loop of goReadDirectory: the entries in the buffer, and whether it was gone through to the
  -- end.
  unfoldable pub fill_buffer : Text → List FileInfo → List FileInfo → List FileInfo × Bool
  fill_buffer marker [] out = (out, true)
  fill_buffer marker (e ∷ entries) out =
      let skip = fill_buffer marker entries out in
      let more = fill_buffer marker entries (out ++ (e ∷ [])) in
      if is_after marker e then (if fits out (some e) then more else (out, false)) else skip

-- The status, the entries in the buffer, and whether the end of the directory was marked in it.
pub record DirectoryAnswer : Type 0 where
  pub status : NtStatus
  pub entries : List FileInfo
  pub complete : Bool

module _ {N E : Type 0} (client : ProtocolClient N E) (message : MountError E → Text) where
  -- collectDirectoryEntries asks for pages until one is the last; `none` where so many pages were
  -- not enough.
  unfoldable pub collect : ℕ → ℕ → ℕ → Callbacks N → Collected N
  unfolding read_directory prepend
  collect zero id cookie c = none
  collect (suc pages) id cookie c =
      let (r, c') = read_directory client message id cookie 256 c in
      elim r [
        | err s ↦ some (err s, c')
        | ok (entries, next, eof) ↦
            let rest = collect pages id next c' in
            if eof then some (ok entries, c') else prepend entries rest
      ]

  unfoldable pub listed :
      (List FileInfo → Option FileInfo → Bool) → Text → Answer (List FileInfo) → DirectoryAnswer
  unfolding fill_buffer
  listed fits marker (err s) = record { status = s; entries = []; complete = false }
  listed fits marker (ok entries) =
      let (out, through) = fill_buffer fits marker entries [] in
      record { status = NtStatus.success; entries = out; complete = through && fits out none }

  unfoldable pub go_read_directory :
      (List FileInfo → Option FileInfo → Bool)
      → ℕ
      → Registry N
      → ℕ
      → ℕ
      → Text
      → Option (DirectoryAnswer × Registry N)
  unfolding collect listed
  go_read_directory fits pages r fs id marker = elim (Map.get r fs) [
    | none ↦ some (record { status = NtStatus.internal_error; entries = []; complete = false }, r)
    | some c ↦ elim (collect pages id 0 c) [
      | none ↦ none
      | some (a, c') ↦ some (listed fits marker a, Map.insert r fs c')
    ]
  ]

  -- Whether the root has an entry with a name; the handle of the root is closed again.
  unfoldable pub has_visible : List FileInfo → Bool
  unfolding trim_space
  has_visible [] = false
  has_visible (e ∷ entries) = not (is_empty (trim_space e.name)) || has_visible entries

  unfoldable pub visible_of : Answer (List FileInfo) → Answer Bool
  unfolding has_visible
  visible_of (err s) = err s
  visible_of (ok entries) = ok (has_visible entries)

  unfoldable pub root_has_visible_entries : ℕ → Callbacks N → Option (Answer Bool × Callbacks N)
  unfolding open_directory collect close visible_of
  root_has_visible_entries pages c =
      let (opened, c') = open_directory client message (47 ∷ []) c in
      elim opened [
        | err s ↦ some (err s, c')
        | ok h ↦ elim (collect pages h.handle_id 0 c') [
          | none ↦ none
          | some (a, c'') ↦ some (visible_of a, (close client message h.handle_id c'').1)
        ]
      ]
