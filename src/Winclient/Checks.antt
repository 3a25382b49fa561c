-- ===== src/Winclient/Checks.antt =====
-- internal/winclient/config.go: what Validate can find in a configuration that Normalized has
-- filled.
use net_drive.Prelude.{
  ℕ, ◌≡◌, refl, true, false, Option, none, some, [], ◌∷◌, eqb, Bool-cases, inl, inr, if◌then◌else◌,
  text_eq, not,
}
use net_drive.Prelude.Text.{Text, slash, is_empty, has_prefix}
use net_drive.Mount.Path.{trim_space, skip_space, drop_space, is_space}
use net_drive.Winclient.{
  Operation, Config, ConfigError, bad_host_backend, bad_operation, is_blank, or_default, or_number,
  default_config, rooted_path, validate_mount_point, normalized, is_known, is_host_backend,
  check_rest, check, validate, needs_local_path,
}

pub is_blank-or_default :
    (s default : Text) → is_blank default ≡ false → is_blank (or_default s default) ≡ false
unfolding or_default
is_blank-or_default s default h = elim (Bool-cases (is_blank s)) [
  | inl e ↦ rw e h
  | inr e ↦ rw (e, or_default) e
]

or_number-filled : (n default : ℕ) → eqb default 0 ≡ false → eqb (or_number n default) 0 ≡ false
unfolding or_number
or_number-filled n default h = elim (Bool-cases (eqb n 0)) [
  | inl e ↦ rw e h
  | inr e ↦ rw (e, or_number) e
]

is_blank-slash : (s : Text) → is_blank (slash ∷ s) ≡ false
unfolding is_blank trim_space skip_space drop_space is_space
is_blank-slash s =
    elim (drop_space s)
      as (λ t.
        is_empty
          (elim t [ [] ↦ if is_space slash then [] else slash ∷ [] | d ∷ t' ↦ slash ∷ d ∷ t' ])
        ≡ false) [ [] ↦ refl | d ∷ t ↦ refl ]

pub is_blank-rooted_path :
    (path : Text) → is_blank path ≡ false → is_blank (rooted_path path) ≡ false
unfolding rooted_path
is_blank-rooted_path path h = elim (Bool-cases (has_prefix path (slash ∷ []))) [
  | inl e ↦ rw (e, rooted_path) h
  | inr e ↦ rw (e, rooted_path) (is_blank-slash path)
]

pub has_prefix-rooted_path : (path : Text) → has_prefix (rooted_path path) (slash ∷ []) ≡ true
unfolding rooted_path has_prefix
has_prefix-rooted_path path = elim (Bool-cases (has_prefix path (slash ∷ []))) [
  | inl e ↦ rw (e, rooted_path) e
  | inr e ↦ rw (e, rooted_path) refl
]

-- The checks of the backend and of the operation alone.
abbrev pub check_choice : Operation → Text → Option ConfigError
check_choice op backend =
    if not (is_host_backend backend)
    then some bad_host_backend
    else if is_known op
    then none
    else some bad_operation

check_rest_lem :
    (op : Operation) (c : Config)
    → is_blank c.volume_prefix ≡ false
    → is_blank c.path ≡ false
    → has_prefix c.path (slash ∷ []) ≡ true
    → is_blank c.local_path ≡ false
    → check_rest op c ≡ check_choice op c.host_backend
unfolding check_rest
check_rest_lem op c prefix path root local = elim (Bool-cases (needs_local_path op)) [
  | inl e ↦ rw (prefix, path, root, local, e, check_rest) refl
  | inr e ↦ rw (prefix, path, root, e, check_rest) refl
]

on_none :
    {r r' : Option ConfigError} (e : Option ConfigError)
    → r ≡ r'
    → elim e [ some e' ↦ some e' | none ↦ r ] ≡ elim e [ some e' ↦ some e' | none ↦ r' ]
on_none none h = h
on_none (some e) h = refl

-- Validate finds fault with the mount point, then with the host backend, then with the operation,
-- and with nothing else: every other field is filled before it is tested, so the tests for a
-- missing address, token, client instance, lease, volume prefix, path or local path never fail.
pub validate_lem :
    (default_mount_point : Text) (c : Config) (op : Operation)
    → validate default_mount_point c op
      ≡ elim (validate_mount_point (normalized default_mount_point c).mount_point) [
        | some e ↦ some e
        | none ↦ check_choice op (normalized default_mount_point c).host_backend
      ]
unfolding validate check normalized default_config
validate_lem dm c op =
    let d = default_config dm in
    let path = or_default c.path d.path in
    rw
      (
        is_blank-or_default c.addr d.addr refl,
        is_blank-or_default c.token d.token refl,
        is_blank-or_default c.client_instance_id d.client_instance_id refl,
        or_number-filled c.lease_seconds 30 refl,
      )
      (on_none (validate_mount_point (normalized dm c).mount_point) (
        check_rest_lem op (normalized dm c)
          (is_blank-or_default c.volume_prefix d.volume_prefix refl)
          (is_blank-rooted_path path (is_blank-or_default c.path d.path refl))
          (has_prefix-rooted_path path) (is_blank-or_default c.local_path d.local_path refl)))
