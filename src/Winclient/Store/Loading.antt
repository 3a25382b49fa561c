-- ===== src/Winclient/Store/Loading.antt =====
-- internal/winclientstore/store.go: what Load returns.
use net_drive.Prelude.{
  ◌≡◌, refl, subst, ap, ◌∙◌, sym, false, none, some, [], ◌∷◌, ◌++◌, Bool-cases, inl, inr,
  if◌then◌else◌, ◌==◌, text_eq, Result, ok, err,
}
use net_drive.Prelude.Map.{Map, get, get-insert}
use net_drive.Prelude.Text.{Text, is_empty}
use net_drive.Mount.Path.{trim_space}
use net_drive.Winclient.{Config, normalized, is_blank}
use net_drive.Winclient.Normal.{normalized-again, trim_space-again}
use net_drive.Winclient.Store.{
  State, WorkspaceMeta, StoreError, Libraries, read_failed, decode_failed, default_state,
  keep_active, normalize_profiles, normalize_state,
}
use net_drive.Winclient.Store.Maps.{
  IsNormal, Found-empty, Found-insert, normalize_profiles-IsNormal, get-normalize_profiles-IsNormal,
}
use net_drive.Winclient.Store.Calls.{decode, load, with_workspace}

module _ {D X : Type 0} (lib : Libraries D X) where
  -- What Load returns, if it does, has profiles that are normal.
  abbrev Normal : Result (StoreError X) State → Type 0
  Normal (err e) = Unit {0}
  Normal (ok s) = IsNormal lib s.profiles

  default_state-IsNormal : IsNormal lib default_state.profiles
  unfolding default_state
  default_state-IsNormal = Found-empty _

  normalize_state-IsNormal : (s : State) → IsNormal lib (normalize_state lib s).profiles
  unfolding normalize_state
  normalize_state-IsNormal s = normalize_profiles-IsNormal lib s.profiles

  decode-Normal : (content : Text) → Normal (decode lib content)
  unfolding decode
  decode-Normal [] = default_state-IsNormal
  decode-Normal (c ∷ content) =
      elim (lib.unmarshal (c ∷ content) default_state)
        as (λ o.
          Normal (elim o [ none ↦ err decode_failed | some s ↦ ok (normalize_state lib s) ])) [
            | none ↦ tt
            | some s ↦ normalize_state-IsNormal s
          ]

  load-Normal : (path : Text) (d : D) → Normal (load lib path d)
  unfolding load
  load-Normal path d = elim (Bool-cases (is_blank path)) [
    | inl e ↦ rw e default_state-IsNormal
    | inr e ↦ rw e (read-Normal (lib.read_file path d))
  ]
    where
      read-Normal :
          (r : Result X Text)
          → Normal (elim r [
            | err x ↦ if lib.is_not_exist x then ok default_state else err (read_failed x)
            | ok content ↦ decode lib content
          ])
      read-Normal (ok content) = decode-Normal content
      read-Normal (err x) = elim (Bool-cases (lib.is_not_exist x)) [
        | inl e ↦ rw e default_state-IsNormal
        | inr e ↦ rw e tt
      ]

  pub load-IsNormal :
      (path : Text) (d : D) (s : State) → load lib path d ≡ ok s → IsNormal lib s.profiles
  load-IsNormal path d s h = subst Normal h (load-Normal path d)

  pub with_workspace-IsNormal :
      (name : Text) (c : Config) (meta : WorkspaceMeta) (s : State)
      → is_empty (trim_space name) ≡ false
      → IsNormal lib s.profiles
      → IsNormal lib (with_workspace lib (trim_space name) c meta s).profiles
  unfolding with_workspace
  with_workspace-IsNormal name c meta s e h =
      Found-insert s.profiles (trim_space name) (normalized lib.default_mount_point c)
        ((trim_space-again name, e), normalized-again lib.default_mount_point c) h

  -- A successful Load of a path that is not blank normalises what json finds in the file.
  pub load-ok :
      (path content : Text) (d : D) (s : State)
      → is_blank path ≡ false
      → lib.read_file path d ≡ ok (content ++ (10 ∷ []))
      → lib.unmarshal (content ++ (10 ∷ [])) default_state ≡ some s
      → load lib path d ≡ ok (normalize_state lib s)
  unfolding load decode
  load-ok path content d s blank read json = rw (blank, read) (more content json)
    where
      more :
          (content : Text)
          → lib.unmarshal (content ++ (10 ∷ [])) default_state ≡ some s
          → decode lib (content ++ (10 ∷ [])) ≡ ok (normalize_state lib s)
      more [] json = rw json refl
      more (c ∷ content) json = rw json refl

  pub keep_active-found :
      (m : Map Text Config) (k : Text) (c : Config) → get m k ≡ some c → keep_active lib m k ≡ k
  unfolding keep_active
  keep_active-found m k c h = rw (h, keep_active) refl

  get-normalize_state :
      (s : State) (k : Text)
      → IsNormal lib s.profiles
      → get (normalize_state lib s).profiles k ≡ get s.profiles k
  unfolding normalize_state
  get-normalize_state s k h = get-normalize_profiles-IsNormal lib s.profiles k h

  -- `s'` stands for what json makes of a normalised state.
  pub get-normalize_state-again :
      (s s' : State) (k : Text)
      → IsNormal lib s.profiles
      → ((j : Text) → get s'.profiles j ≡ get (normalize_state lib s).profiles j)
      → get (normalize_state lib s').profiles k ≡ get s.profiles k
  get-normalize_state-again s s' k h same =
      get-normalize_state s' k (λ j c e. normalize_state-IsNormal s j c (sym (same j) ∙ e))
      ∙ same k
      ∙ get-normalize_state s k h

  active-normalize_state :
      (s : State) (k : Text) (c : Config)
      → s.active_profile ≡ k
      → get (normalize_state lib s).profiles k ≡ some c
      → (normalize_state lib s).active_profile ≡ k
  unfolding normalize_state
  active-normalize_state s k c a h =
      ap (keep_active lib (normalize_profiles lib s.profiles)) a
      ∙ keep_active-found (normalize_profiles lib s.profiles) k c h

  pub active-normalize_state-again :
      (s s' : State) (k : Text) (c : Config)
      → IsNormal lib s.profiles
      → s.active_profile ≡ k
      → get s.profiles k ≡ some c
      → s'.active_profile ≡ (normalize_state lib s).active_profile
      → ((j : Text) → get s'.profiles j ≡ get (normalize_state lib s).profiles j)
      → (normalize_state lib s').active_profile ≡ k
  active-normalize_state-again s s' k c h a found active same =
      active-normalize_state s' k c
        (active ∙ active-normalize_state s k c a (get-normalize_state s k h ∙ found))
        (get-normalize_state-again s s' k h same ∙ found)

  pub get-with_workspace :
      (name : Text) (c : Config) (meta : WorkspaceMeta) (s : State) (k : Text)
      → get (with_workspace lib name c meta s).profiles k
        ≡ (if name == k then some (normalized lib.default_mount_point c) else get s.profiles k)
  unfolding with_workspace
  get-with_workspace name c meta s k =
      get-insert s.profiles name (normalized lib.default_mount_point c) k

  pub active-with_workspace :
      (name : Text) (c : Config) (meta : WorkspaceMeta) (s : State)
      → (with_workspace lib name c meta s).active_profile ≡ name
  unfolding with_workspace
  active-with_workspace name c meta s = refl
