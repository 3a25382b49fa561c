-- ===== src/Mount/Sessions.antt =====
-- Sequences of calls on a mount of internal/mountcore/mount.go.
use net_drive.Prelude.{
  none-ne-some, ℕ, ◌+◌, ◌<◌, ◌≡◌, refl, ◌∙◌, none, some, nat_eq, ◌==◌, Option-cases, Bool-cases,
  eqb_iff, subst, sym, inl, inr, if◌then◌else◌,
}
use net_drive.Prelude.Words.{u64_mod}
use net_drive.Prelude.Map
use net_drive.Prelude.Map.{get-delete, get-empty}
use net_drive.Prelude.Steps.{◌>>=◌, ◌>>◌, get_state, modify, fail, on_option}
use net_drive.Prelude.Text.{Text}
use net_drive.Backend.Handles.{Offset}
use net_drive.Mount.Defs.{ProtocolClient, LocalHandle, Mount, Options, new_mount}
use net_drive.Mount.Volume.{
  ask, lookup, get_attr, open_file, open_directory, read_directory, read, close,
}
use net_drive.Mount.HandleIds.{
  IsValid, Leads-lookup, Leads-get_attr, Leads-open_file, Leads-open_directory,
  Leads-read_directory, Leads-read, Leads-close,
}

pub new_mount-IsValid : {N : Type 0} (net : N) (o : Options) → IsValid (new_mount net o)
unfolding new_mount
new_mount-IsValid net o = record {
  file_below = λ j le. get-empty j;
  directory_below = λ j le. get-empty j;
  apart = λ j. inl (get-empty j);
}

untouched :
    (t : Map.Map ℕ LocalHandle) (id j : ℕ)
    → Map.get t id ≡ none
    → Map.get t j ≡ (if id == j then none else Map.get t j)
untouched t id j e = elim (Bool-cases (id == j)) [
  | inl here ↦ rw here (subst (λ k. Map.get t k ≡ none) ((eqb_iff id j).0 here) e)
  | inr there ↦ rw there refl
]

no_directory :
    {N : Type 0} (id : ℕ) (m : Mount N) (h : LocalHandle)
    → IsValid m
    → Map.get m.file_handles id ≡ some h
    → Map.get m.directory_handles id ≡ none
no_directory id m h v found = elim (v.apart id) [
  | inl e ↦ absurd (none-ne-some (sym e ∙ found))
  | inr e ↦ e
]

module _ {N E : Type 0} (client : ProtocolClient N E) where
  -- Close of a handle that a mount gave: afterwards no file and no directory has its number,
  -- whatever the server answers, and all other handles are as before.
  pub close_lem :
      (id j : ℕ) (m : Mount N)
      → IsValid m
      → (Map.get (close client id m).1.file_handles j
          ≡ (if id == j then none else Map.get m.file_handles j))
        × (Map.get (close client id m).1.directory_handles j
            ≡ (if id == j then none else Map.get m.directory_handles j))
  unfolding close ask get_state modify fail on_option ◌>>=◌ ◌>>◌
  close_lem id j m v = elim (Option-cases (Map.get m.file_handles id)) [
    | inl no_file ↦ elim (Option-cases (Map.get m.directory_handles id)) [
      | inl no_dir ↦
          rw (no_file, no_dir, on_option)
            (untouched m.file_handles id j no_file, untouched m.directory_handles id j no_dir)
      | inr (h, dir) ↦
          rw (no_file, dir, on_option)
            (untouched m.file_handles id j no_file, get-delete m.directory_handles id j)
    ]
    | inr (h, found) ↦
        rw (found, on_option)
          (
            get-delete m.file_handles id j,
            untouched m.directory_handles id j (no_directory id m h v found),
          )
  ]

-- A call on a mount.
pub data MountCall : Type 0 where
  looks_up gets_attr opens opens_directory : Text → MountCall
  reads_directory : ℕ → ℕ → ℕ → MountCall
  reads : ℕ → Offset → ℕ → MountCall
  closes : ℕ → MountCall

module _ {N E : Type 0} (client : ProtocolClient N E) where
  -- The mount after a call, whatever it returns.
  unfoldable pub run_call : MountCall → Mount N → Mount N
  run_call (looks_up path) m = (lookup client path m).1
  run_call (gets_attr path) m = (get_attr client path m).1
  run_call (opens path) m = (open_file client path m).1
  run_call (opens_directory path) m = (open_directory client path m).1
  run_call (reads_directory id cookie n) m = (read_directory client id cookie n m).1
  run_call (reads id offset n) m = (read client id offset n m).1
  run_call (closes id) m = (close client id m).1

  -- Any call on a mount, whether it succeeds or fails and whatever the server answers, keeps the
  -- numbers of its handles apart: no handle has a number that is still to be given, and no file
  -- has the number of a directory, as long as the counter of handles does not wrap around.
  pub run_call-IsValid :
      (c : MountCall) (m : Mount N)
      → IsValid m
      → m.next_local_handle + 1 < u64_mod
      → IsValid (run_call c m)
  unfolding run_call
  run_call-IsValid (looks_up path) m v room = ((Leads-lookup client path).at m (v, room)).0
  run_call-IsValid (gets_attr path) m v room = ((Leads-get_attr client path).at m (v, room)).0
  run_call-IsValid (opens path) m v room = (Leads-open_file client path).at m (v, room)
  run_call-IsValid (opens_directory path) m v room =
      (Leads-open_directory client path).at m (v, room)
  run_call-IsValid (reads_directory id cookie n) m v room =
      ((Leads-read_directory client id cookie n).at m (v, room)).0
  run_call-IsValid (reads id offset n) m v room = ((Leads-read client id offset n).at m (v, room)).0
  run_call-IsValid (closes id) m v room = ((Leads-close client id).at m (v, room)).0
