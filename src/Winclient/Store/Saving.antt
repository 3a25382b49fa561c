-- ===== src/Winclient/Store/Saving.antt =====
-- internal/winclientstore/store.go: what Load finds after SaveWorkspace.
use net_drive.Prelude.{
  ◌≡◌, refl, sym, ap, ◌∙◌, subst, false, Option, none, some, [], ◌∷◌, ◌++◌, Bool-cases, inl, inr,
  if◌then◌else◌, ◌==◌, ==_iff, text_eq, Result, ok, err,
}
use net_drive.Prelude.Map.{get}
use net_drive.Prelude.Steps.{Steps, ◌>>◌, return, fail, on_option}
use net_drive.Prelude.Steps.Success.{bind-ok, then-ok, option-ok}
use net_drive.Prelude.Text.{Text, is_empty}
use net_drive.Mount.Path.{trim_space}
use net_drive.Winclient.{Config, normalized, is_blank}
use net_drive.Winclient.Store.{
  State, WorkspaceMeta, StoreError, Libraries, create_failed, write_failed, replace_failed,
  encode_failed, default_state, normalize_state,
}
use net_drive.Winclient.Store.Maps.{IsNormal}
use net_drive.Winclient.Store.Loading.{
  load-IsNormal, with_workspace-IsNormal, load-ok, get-normalize_state-again,
  active-normalize_state-again, get-with_workspace, active-with_workspace,
}
use net_drive.Winclient.Store.Calls.{
  on_disk, tmp_path, load, replace, save, with_workspace, change, save_workspace,
}

module _ {D X : Type 0} (lib : Libraries D X) where
  on_disk-ok :
      (op : D → Option X × D) (f : X → StoreError X) (d : D) (u : Unit {0}) (d' : D)
      → on_disk lib op f d ≡ (ok u, d')
      → op d ≡ (none, d')
  unfolding on_disk
  on_disk-ok op f d u d' h = go (op d) h
    where
      go :
          (p : Option X × D)
          → ◌≡◌ {A = Result (StoreError X) (Unit {0}) × D}
              (elim p.0 [ none ↦ (ok tt, p.1) | some x ↦ (err (f x), p.1) ])
              (ok u, d')
          → p ≡ (none, d')
      go (none, e) h = ap (λ q. (none, q.1)) h
      go (some x, e) h = absurd (cc (ap (λ p. p.0) h))

module _ {D X : Type 0} (lib : Libraries D X) (path : Text)
    (replaced : (content : Text) (d d1 d2 : D)
      → lib.write_file (tmp_path lib path) content d ≡ (none, d1)
      → lib.rename (tmp_path lib path) path d1 ≡ (none, d2)
      → lib.read_file path d2 ≡ ok content) where
  replace-ok :
      (content : Text) (d : D) (u : Unit {0}) (d' : D)
      → replace lib path content d ≡ (ok u, d')
      → lib.read_file path d' ≡ ok (content ++ (10 ∷ []))
  unfolding replace
  replace-ok content d u d' h =
      let content' = content ++ (10 ∷ []) in
      let write = lib.write_file (tmp_path lib path) content' in
      let rename = lib.rename (tmp_path lib path) path in
      let (u1, d1, written, renamed) =
        then-ok (on_disk lib write write_failed) (on_disk lib rename replace_failed) d u d' h in
      replaced content' d d1 d' (on_disk-ok lib write write_failed d u1 d1 written)
        (on_disk-ok lib rename replace_failed d1 u d' renamed)

  -- A Save that succeeds leaves the payload of the normalised state in the file.
  save-ok :
      (s : State) (d : D) (u : Unit {0}) (d' : D)
      → save lib path s d ≡ (ok u, d')
      → (is_blank path ≡ false)
        × (payload : Text) × (lib.marshal (normalize_state lib s) ≡ some payload)
        × (lib.read_file path d' ≡ ok (payload ++ (10 ∷ [])))
  unfolding save fail
  save-ok s d u d' h = elim (Bool-cases (is_blank path)) [
    | inl e ↦ absurd (cc (ap (λ p. p.0) (rw e at h)))
    | inr e ↦
        let made = on_disk lib (lib.mkdir_all (lib.dir path)) create_failed in
        let encoded = lib.marshal (normalize_state lib s) in
        let (u1, d1, _, rest) =
          then-ok made (on_option encoded (fail encode_failed) (replace lib path)) d u d'
            (rw e at h) in
        let (payload, json, written) =
          option-ok encoded encode_failed (replace lib path) d1 u d' rest in
        (e, payload, json, replace-ok payload d1 u d' written)
  ]

  abbrev save_and_return : (State → State) → State → Steps D (StoreError X) State
  save_and_return f state = save lib path (f state) >> return (f state)

  change-ok :
      (f : State → State) (d : D) (s : State) (d' : D)
      → change lib f path d ≡ (ok s, d')
      → (before : State) × (u : Unit {0}) × (load lib path d ≡ ok before)
        × (s ≡ f before)
        × (save lib path s d ≡ (ok u, d'))
  unfolding change return
  change-ok f d s d' h =
      let (before, d1, loaded, saved) =
        bind-ok (λ d. (load lib path d, d)) (save_and_return f) d s d' h in
      let (u, d2, saved', returned) =
        then-ok (save lib path (f before)) (return (f before)) d1 s d' saved in
      (before, u, ap (λ p. p.0) loaded, cc (ap (λ p. p.0) returned), cc)

  -- With `decoded`, SaveWorkspace and Load.
  saved-loaded :
      (name : Text) (c : Config) (meta : WorkspaceMeta) (d : D) (s : State) (d' : D)
      → is_empty (trim_space name) ≡ false
      → change lib (with_workspace lib (trim_space name) c meta) path d ≡ (ok s, d')
      → ((payload : Text)
          → lib.marshal (normalize_state lib s) ≡ some payload
          → (s' : State) × (lib.unmarshal (payload ++ (10 ∷ [])) default_state ≡ some s')
            × (s'.active_profile ≡ (normalize_state lib s).active_profile)
            × ((k : Text) → get s'.profiles k ≡ get (normalize_state lib s).profiles k))
      → (before after : State) × (load lib path d ≡ ok before)
        × (load lib path d' ≡ ok after)
        × (after.active_profile ≡ trim_space name)
        × ((k : Text)
            → get after.profiles k ≡ (
                if trim_space name == k
                then some (normalized lib.default_mount_point c)
                else get before.profiles k))
  saved-loaded name c meta d s d' e h decoded =
      let name' = trim_space name in
      let c' = normalized lib.default_mount_point c in
      let (before, u, loaded, changed, saved) = change-ok _ d s d' h in
      let (blank, payload, json, written) = save-ok s d u d' saved in
      let (s', read, active, same) = decoded payload json in
      let normal =
        subst (λ t. IsNormal lib t.profiles) (sym changed)
          (with_workspace-IsNormal lib name c meta before e
            (load-IsNormal lib path d before loaded)) in
      let found : (k : Text)
          → get s.profiles k ≡ (if name' == k then some c' else get before.profiles k) =
        λ k. ap (λ t. get t.profiles k) changed ∙ get-with_workspace lib name' c meta before k in
      (
        before,
        normalize_state lib s',
        loaded,
        load-ok lib path payload d' s' blank written read,
        active-normalize_state-again lib s s' name' c' normal
            (ap (λ t. t.active_profile) changed ∙ active-with_workspace lib name' c meta before)
            (rw ((==_iff name' name').1 refl) at (found name')) active same,
        λ k. get-normalize_state-again lib s s' k normal same ∙ found k,
      )

  -- SaveWorkspace, when it succeeds, and a Load right after it: where a file that was written beside
  -- the store and moved to its place is then read, and json decodes what it encoded, the profiles
  -- loaded are those that a Load before it found, with the configuration under the trimmed name,
  -- normalised, and this is the active profile.
  pub save_workspace-load :
      (name : Text) (c : Config) (meta : WorkspaceMeta) (d : D) (s : State) (d' : D)
      → save_workspace lib path name c meta d ≡ (ok s, d')
      → ((payload : Text)
          → lib.marshal (normalize_state lib s) ≡ some payload
          → (s' : State) × (lib.unmarshal (payload ++ (10 ∷ [])) default_state ≡ some s')
            × (s'.active_profile ≡ (normalize_state lib s).active_profile)
            × ((k : Text) → get s'.profiles k ≡ get (normalize_state lib s).profiles k))
      → (before after : State) × (load lib path d ≡ ok before)
        × (load lib path d' ≡ ok after)
        × (after.active_profile ≡ trim_space name)
        × ((k : Text)
            → get after.profiles k ≡ (
                if trim_space name == k
                then some (normalized lib.default_mount_point c)
                else get before.profiles k))
  unfolding save_workspace fail
  save_workspace-load name c meta d s d' h decoded =
      elim (Bool-cases (is_empty (trim_space name))) [
        | inl e ↦ absurd (cc (ap (λ p. p.0) (rw e at h)))
        | inr e ↦ saved-loaded name c meta d s d' e (rw e at h) decoded
      ]
