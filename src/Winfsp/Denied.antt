-- ===== src/Winfsp/Denied.antt =====
-- internal/winfsp/callbacks.go: the callbacks that ask for a change.
use net_drive.Prelude.{
  ℕ, Bool, true, false, ◌≡◌, refl, ap, ◌∙◌, ok, err, ◌==◌, ==_iff, nat_eq, Option, none, some,
  Option-cases, ◌⊎◌, inl, inr, if◌then◌else◌, arith,
}
use net_drive.Prelude.Map
use net_drive.Prelude.Map.{get-insert}
use net_drive.Prelude.Text.{Text}
use net_drive.Mount.Defs.{ProtocolClient, FileInfo, MountError}
use net_drive.Winfsp.Status.{NtStatus}
use net_drive.Winfsp.Callbacks.{
  HandleState, Callbacks, Answer, on_handle, deny, create, overwrite, write, set_basic_info,
  set_file_size, set_security, rename, can_delete, denied, get_file_info, set_delete_on_close,
  put_handle,
}

-- A callback that asks for a change of the volume.
pub data Change : Type 0 where
  creates : Text → Change
  overwrites writes sets_basic_info sets_file_size sets_security : ℕ → Change
  renames : ℕ → Text → Change
  deletes : Text → Change
  -- SetDeleteOnClose: the wish to delete the file at the close, or its withdrawal
  wants_delete_on_close : ℕ → Bool → Change

-- The status of an answer.
abbrev pub forget : {A : Type 0} → Answer A → Answer (Unit {0})
forget (err status) = err status
forget (ok a) = ok tt

module _ {N E : Type 0} (client : ProtocolClient N E) (message : MountError E → Text) where
  unfoldable pub run_change : Change → Callbacks N → Answer (Unit {0}) × Callbacks N
  run_change (creates path) c = create path c
  run_change (overwrites id) c = overwrite id c
  run_change (writes id) c = let (r, c') = write id c in (forget r, c')
  run_change (sets_basic_info id) c = set_basic_info id c
  run_change (sets_file_size id) c = set_file_size id c
  run_change (sets_security id) c = set_security id c
  run_change (renames id new_path) c = rename id new_path c
  run_change (deletes path) c = can_delete client message path c
  run_change (wants_delete_on_close id enabled) c = set_delete_on_close id enabled c

-- What is remembered of a handle after such a callback: at most the wish to delete it.
abbrev pub remembered : Change → ℕ → HandleState → HandleState
remembered (wants_delete_on_close id enabled) j h =
    if id == j then record h { delete_on_close = enabled } else h
remembered _ j h = h

abbrev pub each : (HandleState → HandleState) → Option HandleState → Option HandleState
each f none = none
each f (some h) = some (f h)

each-same : (o : Option HandleState) → o ≡ each (λ h. h) o
each-same none = refl
each-same (some h) = refl

-- An answer that fails.
abbrev IsDenied : {A : Type 0} → Answer A → Type 0
IsDenied answer = (status : NtStatus) × (answer ≡ err status)

module _ {N : Type 0} (c : Callbacks N) where
  on_handle-IsDenied :
      {A : Type 0} (id : ℕ) (f : HandleState → Answer A × Callbacks N)
      → ((h : HandleState) → IsDenied (f h).0)
      → IsDenied (on_handle c id f).0
  unfolding on_handle
  on_handle-IsDenied id f h = elim (Option-cases (Map.get c.handles id)) [
    | inl e ↦ rw (e, on_handle) (NtStatus.invalid_handle, refl)
    | inr (state, e) ↦ rw (e, on_handle) (h state)
  ]

  on_handle-handles :
      {A : Type 0} (id : ℕ) (f : HandleState → Answer A × Callbacks N)
      → ((h : HandleState) → (f h).1.handles ≡ c.handles)
      → (on_handle c id f).1.handles ≡ c.handles
  unfolding on_handle
  on_handle-handles id f h = elim (Option-cases (Map.get c.handles id)) [
    | inl e ↦ rw (e, on_handle) refl
    | inr (state, e) ↦ rw (e, on_handle) (h state)
  ]

  deny-IsDenied : (A : Type 0) (id : ℕ) → IsDenied (deny {A = A} c id).0
  unfolding deny
  deny-IsDenied A id = on_handle-IsDenied id _ (λ h. (NtStatus.access_denied, refl))

  deny-handles : (A : Type 0) (id : ℕ) → (deny {A = A} c id).1.handles ≡ c.handles
  unfolding deny
  deny-handles A id = on_handle-handles id _ (λ h. refl)

  set_delete_on_close-handles :
      (id : ℕ) (enabled : Bool) (j : ℕ)
      → Map.get (set_delete_on_close id enabled c).1.handles j
        ≡ each (remembered (wants_delete_on_close id enabled) j) (Map.get c.handles j)
  unfolding set_delete_on_close on_handle put_handle
  set_delete_on_close-handles id enabled j = elim (Option-cases (Map.get c.handles id)) [
    | inl e ↦ ground (arith, ==_iff id j)
    | inr (h, e) ↦
        ground
          (arith, get-insert c.handles id (record h { delete_on_close = enabled }) j, ==_iff id j)
  ]

module _ {N E : Type 0} (client : ProtocolClient N E) (message : MountError E → Text) where
  denied-IsDenied : (r : Answer FileInfo) → IsDenied (denied client message {A = Unit {0}} r)
  unfolding denied
  denied-IsDenied (err status) = (status, refl)
  denied-IsDenied (ok info) = (NtStatus.access_denied, refl)

  forget-IsDenied : {A : Type 0} (r : Answer A) → IsDenied r → IsDenied (forget r)
  forget-IsDenied r (status, e) = (status, ap forget e)

  -- A withdrawal of the wish to delete is all that can succeed.
  run_change-cases :
      (x : Change) (c : Callbacks N)
      → IsDenied (run_change client message x c).0
        ⊎ ((id : ℕ) × (x ≡ wants_delete_on_close id false))
  unfolding run_change create overwrite write set_basic_info set_file_size set_security rename
      can_delete set_delete_on_close
  run_change-cases (creates path) c = inl (_, refl)
  run_change-cases (overwrites id) c = inl (deny-IsDenied c _ id)
  run_change-cases (writes id) c = inl (forget-IsDenied _ (deny-IsDenied c ℕ id))
  run_change-cases (sets_basic_info id) c = inl (deny-IsDenied c _ id)
  run_change-cases (sets_file_size id) c = inl (deny-IsDenied c _ id)
  run_change-cases (sets_security id) c = inl (deny-IsDenied c _ id)
  run_change-cases (renames id new_path) c = inl (on_handle-IsDenied c id _ (λ h. (_, refl)))
  run_change-cases (deletes path) c = inl (denied-IsDenied (get_file_info client message path c).0)
  run_change-cases (wants_delete_on_close id true) c =
      inl (on_handle-IsDenied c id _ (λ h. (_, refl)))
  run_change-cases (wants_delete_on_close id false) c = inr (id, refl)

  run_change-handles :
      (x : Change) (c : Callbacks N) (j : ℕ)
      → Map.get (run_change client message x c).1.handles j
        ≡ each (remembered x j) (Map.get c.handles j)
  unfolding run_change create overwrite write set_basic_info set_file_size set_security rename
      can_delete get_file_info
  run_change-handles (creates path) c j = each-same _
  run_change-handles (overwrites id) c j = ap (λ m. Map.get m j) (deny-handles c _ id) ∙ each-same _
  run_change-handles (writes id) c j = ap (λ m. Map.get m j) (deny-handles c ℕ id) ∙ each-same _
  run_change-handles (sets_basic_info id) c j =
      ap (λ m. Map.get m j) (deny-handles c _ id) ∙ each-same _
  run_change-handles (sets_file_size id) c j =
      ap (λ m. Map.get m j) (deny-handles c _ id) ∙ each-same _
  run_change-handles (sets_security id) c j =
      ap (λ m. Map.get m j) (deny-handles c _ id) ∙ each-same _
  run_change-handles (renames id new_path) c j =
      ap (λ m. Map.get m j) (on_handle-handles c id _ (λ h. refl)) ∙ each-same _
  run_change-handles (deletes path) c j = each-same _
  run_change-handles (wants_delete_on_close id enabled) c j =
      set_delete_on_close-handles c id enabled j

  -- No callback that asks for a change succeeds, whatever the server would answer: creating,
  -- overwriting, writing, renaming, deleting, setting attributes, a size or security, and asking
  -- for deletion at the close all end with an error status. Only the withdrawal of such a request
  -- can succeed. The handles that are open stay open, and what is remembered of them stays as it
  -- was, but for the wish to delete the named handle's file, which is kept also when it is denied.
  pub run_change-err :
      (x : Change) (c : Callbacks N)
      → (((status : NtStatus) × ((run_change client message x c).0 ≡ err status))
          ⊎ ((id : ℕ) × (x ≡ wants_delete_on_close id false)))
        × ((j : ℕ)
            → Map.get (run_change client message x c).1.handles j
              ≡ each (remembered x j) (Map.get c.handles j))
  run_change-err x c = (run_change-cases x c, run_change-handles x c)
