-- ===== src/Winclient.antt =====
-- internal/winclient/config.go: the configuration of a mount, and its checks. strings.TrimSpace,
-- ToLower and ToUpper are those of ASCII. The mount point of DefaultConfig, which depends on the
-- drives of the machine, is a parameter.
pub mod Checks
pub mod Normal
pub mod Store
use net_drive.Prelude.{
  ℕ, ◌+◌, ◌-◌, Bool, true, false, Option, none, some, List, [], ◌∷◌, ◌++◌, eqb, leb, if◌then◌else◌,
  ◌||◌, ◌&&◌, not, ◌==◌, text_eq, text_beq,
}
use net_drive.Prelude.Text.{Text, codes, slash, is_empty, has_prefix}
use net_drive.Backend.Profile.{to_lower}
use net_drive.Mount.Path.{trim_space, backslash}

pub data Operation : Type 0 where
  mount volume get_attr read_dir read materialize : Operation
  other : Text → Operation

-- The fields that Normalized and Validate use.
pub record Config : Type 0 where
  pub addr : Text
  pub token : Text
  pub client_instance_id : Text
  pub lease_seconds : ℕ
  pub mount_point : Text
  pub volume_prefix : Text
  pub path : Text
  pub local_path : Text
  pub host_backend : Text
  pub length : ℕ
  pub max_entries : ℕ

pub data ConfigError : Type 0 where
  no_addr no_token no_client_instance_id no_lease no_mount_point : ConfigError
  bad_mount_point no_volume_prefix no_path path_not_rooted bad_host_backend : ConfigError
  no_local_path bad_operation : ConfigError

unfoldable pub default_config : Text → Config
default_config mount_point = record {
  addr = codes "127.0.0.1:17890";
  token = codes "devmount-dev-token";
  client_instance_id = codes "win32-test-ui";
  lease_seconds = 30;
  mount_point = mount_point;
  volume_prefix = codes "devmount";
  path = codes "/";
  local_path = codes "devmount-local";
  host_backend = codes "auto";
  length = 64;
  max_entries = 32;
}

unfoldable pub is_blank : Text → Bool
unfolding trim_space
is_blank s = is_empty (trim_space s)

unfoldable pub or_default : Text → Text → Text
unfolding is_blank
or_default s default = if is_blank s then default else s

unfoldable pub or_number : ℕ → ℕ → ℕ
or_number n default = if eqb n 0 then default else n

unfoldable pub normalize_host_backend : Text → Text
unfolding to_lower trim_space text_beq
normalize_host_backend value =
    let value' = trim_space (to_lower value) in
    if is_empty value' || value' == codes "auto" then codes "auto" else value'

unfoldable pub is_alpha : ℕ → Bool
is_alpha c = (leb 97 c && leb c 122) || (leb 65 c && leb c 90)

unfoldable pub is_path_separator : ℕ → Bool
is_path_separator c = eqb c backslash || eqb c slash

abbrev pub colon : ℕ
colon = 58

unfoldable pub to_upper : ℕ → ℕ
to_upper c = if leb 97 c && leb c 122 then c - 32 else c

unfoldable pub all_separators : Text → Bool
unfolding is_path_separator
all_separators [] = true
all_separators (c ∷ s) = is_path_separator c && all_separators s

unfoldable pub drive_of : Text → Text
unfolding is_alpha all_separators to_upper
drive_of [] = []
drive_of (c ∷ []) = c ∷ []
drive_of (c ∷ k ∷ rest) =
    if is_alpha c && eqb k colon && all_separators rest
    then to_upper c ∷ colon ∷ []
    else c ∷ k ∷ rest

unfoldable pub normalize_mount_point : Text → Text
unfolding trim_space drive_of
normalize_mount_point value = drive_of (trim_space value)

unfoldable pub is_drive : Text → Bool
unfolding is_alpha
is_drive [] = false
is_drive (c ∷ []) = false
is_drive (c ∷ k ∷ []) = is_alpha c && eqb k colon
is_drive (c ∷ k ∷ d ∷ rest) = false

unfoldable pub is_local_absolute : Text → Bool
unfolding is_alpha is_path_separator
is_local_absolute [] = false
is_local_absolute (c ∷ []) = false
is_local_absolute (c ∷ k ∷ []) = false
is_local_absolute (c ∷ k ∷ d ∷ rest) = is_alpha c && eqb k colon && is_path_separator d

-- isLikelyAbsoluteMountDir
unfoldable pub is_likely_absolute : Text → Bool
unfolding is_local_absolute has_prefix
is_likely_absolute value =
    is_local_absolute value
    || has_prefix value (backslash ∷ backslash ∷ [])
    || has_prefix value (slash ∷ [])

unfoldable pub validate_mount_point : Text → Option ConfigError
unfolding normalize_mount_point is_drive is_likely_absolute
validate_mount_point value =
    let value' = normalize_mount_point value in
    if is_empty value'
    then some no_mount_point
    else if is_drive value' || is_likely_absolute value'
    then none
    else some bad_mount_point

unfoldable pub rooted_path : Text → Text
unfolding has_prefix
rooted_path path = if has_prefix path (slash ∷ []) then path else slash ∷ path

module _ (default_mount_point : Text) where
  unfoldable pub normalized : Config → Config
  unfolding default_config or_default or_number rooted_path normalize_mount_point
      normalize_host_backend
  normalized c =
      let defaults = default_config default_mount_point in
      record {
        addr = or_default c.addr defaults.addr;
        token = or_default c.token defaults.token;
        client_instance_id = or_default c.client_instance_id defaults.client_instance_id;
        lease_seconds = or_number c.lease_seconds defaults.lease_seconds;
        mount_point = normalize_mount_point (or_default c.mount_point defaults.mount_point);
        volume_prefix = or_default c.volume_prefix defaults.volume_prefix;
        path = rooted_path (or_default c.path defaults.path);
        local_path = or_default c.local_path defaults.local_path;
        host_backend = normalize_host_backend c.host_backend;
        length = or_number c.length defaults.length;
        max_entries = or_number c.max_entries defaults.max_entries;
      }

unfoldable pub is_known : Operation → Bool
is_known (other name) = false
is_known _ = true

unfoldable pub needs_local_path : Operation → Bool
needs_local_path materialize = true
needs_local_path _ = false

unfoldable pub is_host_backend : Text → Bool
unfolding text_beq
is_host_backend value =
    value == codes "auto" || value == codes "preflight" || value == codes "dispatcher-v1"

-- The tests of Validate that come after that of the mount point.
unfoldable pub check_rest : Operation → Config → Option ConfigError
unfolding is_blank has_prefix is_host_backend needs_local_path is_known
check_rest op c =
    if is_blank c.volume_prefix
    then some no_volume_prefix
    else if is_blank c.path
    then some no_path
    else if not (has_prefix c.path (slash ∷ []))
    then some path_not_rooted
    else if not (is_host_backend c.host_backend)
    then some bad_host_backend
    else if needs_local_path op && is_blank c.local_path
    then some no_local_path
    else if is_known op
    then none
    else some bad_operation

unfoldable pub check : Operation → Config → Option ConfigError
unfolding is_blank validate_mount_point check_rest
check op c =
    if is_blank c.addr
    then some no_addr
    else if is_blank c.token
    then some no_token
    else if is_blank c.client_instance_id
    then some no_client_instance_id
    else if eqb c.lease_seconds 0
    then some no_lease
    else elim (validate_mount_point c.mount_point) [ some e ↦ some e | none ↦ check_rest op c ]

-- Validate; `none` where the configuration is accepted.
unfoldable pub validate : Text → Config → Operation → Option ConfigError
unfolding check normalized
validate default_mount_point c op = check op (normalized default_mount_point c)
