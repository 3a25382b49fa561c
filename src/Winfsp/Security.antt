-- ===== src/Winfsp/Security.antt =====
-- internal/winfsp/security_descriptor.go, and the callbacks of callbacks.go that return what it
-- makes.
use net_drive.Prelude.{ℕ, Bool, true, false, List, [], ◌∷◌, ◌++◌, ok, err, if◌then◌else◌}
use net_drive.Prelude.Text.{Text, codes, is_empty}
use net_drive.Mount.Defs.{ProtocolClient, FileInfo, MountError}
use net_drive.Winfsp.Callbacks.{HandleState, Callbacks, Answer, on_handle, get_file_info}

pub record NativeSecurityDescriptor : Type 0 where
  pub path : Text
  pub sddl : Text
  pub owner : Text
  pub group : Text
  pub access : List Text
  pub read_only : Bool
  pub directory : Bool
  pub handle_bound : Bool
  pub delete_on_close : Bool
  pub cleanup_state : Text
  pub flush_state : Text
  pub source : Text

pub record SecurityDescriptorOptions : Type 0 where
  pub handle_bound : Bool
  pub delete_on_close : Bool
  pub cleaned : Bool
  pub flushed : Bool
  pub source : Text

unfoldable pub sddl_of : Bool → Text
sddl_of true = codes "O:BAG:BAD:PAI(A;OICI;FA;;;SY)(A;OICI;FA;;;BA)(A;OICI;FR;;;WD)"
sddl_of false = codes "O:BAG:BAD:PAI(A;;FA;;;SY)(A;;FA;;;BA)(A;;FR;;;WD)"

unfoldable pub access_of : Bool → List Text
access_of true =
    codes "system:full(inherit)"
    ∷ codes "administrators:full(inherit)"
    ∷ codes "world:read(inherit)"
    ∷ []
access_of false = codes "system:full" ∷ codes "administrators:full" ∷ codes "world:read" ∷ []

unfoldable pub default_descriptor : FileInfo → SecurityDescriptorOptions → NativeSecurityDescriptor
unfolding sddl_of access_of
default_descriptor info opts = record {
  path = info.path;
  sddl = sddl_of info.is_directory;
  owner = codes "BA";
  group = codes "BA";
  access = access_of info.is_directory;
  read_only = true;
  directory = info.is_directory;
  handle_bound = opts.handle_bound;
  delete_on_close = opts.delete_on_close;
  cleanup_state =
      if opts.cleaned
      then (if opts.delete_on_close
          then codes "delete-on-close-denied"
          else codes "cleanup-complete")
      else codes "active";
  flush_state = if opts.flushed then codes "flushed" else codes "not-flushed";
  source =
      if is_empty opts.source
      then (if opts.handle_bound then codes "by-handle" else codes "by-name")
      else opts.source;
}

-- strings.Join(parts, ",")
unfoldable pub join_comma : List Text → Text
join_comma [] = []
join_comma (part ∷ []) = part
join_comma (part ∷ next ∷ rest) = part ++ (44 ∷ join_comma (next ∷ rest))

unfoldable pub part_if : Bool → Text → List Text → List Text
part_if true part parts = part ∷ parts
part_if false part parts = parts

unfoldable pub part_of : Text → List Text → List Text
part_of [] parts = parts
part_of (c ∷ s) parts = (c ∷ s) ∷ parts

unfoldable pub summary : NativeSecurityDescriptor → Text
unfolding join_comma part_if part_of
summary d =
    let states = part_of d.cleanup_state (part_of d.flush_state []) in
    let bound =
      part_if d.handle_bound (codes "handle")
        (part_if d.delete_on_close (codes "delete-on-close") states) in
    let kind = if d.directory then codes "directory" else codes "file" in
    join_comma ((d.owner ++ (47 ∷ d.group)) ∷ part_if d.read_only (codes "readonly") (kind ∷ bound))

-- A SecurityInfo is a descriptor and its summary.
unfoldable pub security_info : NativeSecurityDescriptor → NativeSecurityDescriptor × Text
unfolding summary
security_info d = (d, summary d)

unfoldable pub options_by_name : SecurityDescriptorOptions
options_by_name = record {
  handle_bound = false;
  delete_on_close = false;
  cleaned = false;
  flushed = false;
  source = codes "by-name";
}

unfoldable pub options_by_handle : HandleState → SecurityDescriptorOptions
options_by_handle h = record {
  handle_bound = true;
  delete_on_close = h.delete_on_close;
  cleaned = h.cleaned;
  flushed = h.flushed;
  source = codes "by-handle";
}

unfoldable pub describe : Answer FileInfo → Answer (NativeSecurityDescriptor × Text)
unfolding security_info default_descriptor options_by_name
describe (err status) = err status
describe (ok info) = ok (security_info (default_descriptor info options_by_name))

module _ {N E : Type 0} (client : ProtocolClient N E) (message : MountError E → Text) where
  unfoldable pub get_security_by_name :
      Text → Callbacks N → Answer (NativeSecurityDescriptor × Text) × Callbacks N
  unfolding get_file_info describe
  get_security_by_name path c =
      let (r, c') = get_file_info client message path c in (describe r, c')

unfoldable pub get_security :
    {N : Type 0} → ℕ → Callbacks N → Answer (NativeSecurityDescriptor × Text) × Callbacks N
unfolding on_handle security_info default_descriptor options_by_handle
get_security id c =
    on_handle c id (λ h. (ok (security_info (default_descriptor h.info (options_by_handle h))), c))
