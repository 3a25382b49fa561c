-- ===== src/Tests/Materialize.antt =====
-- A copy of one remote file, on a local system that lists the paths of its calls.
use net_drive.Prelude.{ℕ, ◌≡◌, refl, true, none, List, [], ◌∷◌, ◌++◌, ok, All, length, text_beq}
use net_drive.Prelude.Text.{Text, codes, has_slash}
use net_drive.Prelude.Text.Paths.{dir}
use net_drive.Mount.Path.{backslash}
use net_drive.Mount.Defs.{ProtocolClient, new_mount}
use net_drive.Materialize.Defs.{
  LocalDisk, Copy, Materializer, new_materializer, validate_local_name, has_two_backslashes,
}
use net_drive.Materialize.Sync.{sync}
use net_drive.Materialize.Keeps.{Below, IsKept}
use net_drive.Materialize.Below.{sync-IsKept}
use net_drive.Tests.Mount.{remote, options}

-- A path below the root, or the directory that holds such a path.
data Touches (root : Text) : Text → Type 0 where
  below : {path : Text} → Below root path → Touches root path
  holds : {path : Text} → Below root path → Touches root (dir path)

abbrev listing : LocalDisk (List Text) Text
listing = record {
  ctx_err = λ d. none;
  mkdir_all = λ path d. (none, path ∷ d);
  create = λ path d. (ok 3, path ∷ d);
  write = λ f bytes d. (ok (length bytes), f.name ∷ d);
  close = λ f d. (none, f.name ∷ d);
  chtimes = λ path t d. path ∷ d;
}

abbrev serving : ProtocolClient ℕ Text
serving = record remote { read = λ id o k n. (ok (codes "abc", true), n) }

abbrev IsTouched : List Text → Type 0
IsTouched d = All (Touches (codes "out/a")) d

listing-IsKept : IsKept listing (codes "out/a") IsTouched
listing-IsKept = record {
  makes = λ path b d h. (below b, h);
  makes_parent = λ path b d h. (holds b, h);
  creates = λ path b d h. (below b, h);
  writes = λ f b bytes d h. (below b, h);
  closes = λ f b d h. (below b, h);
  touches = λ path b t d h. (below b, h);
}

abbrev copier : Materializer
copier = new_materializer 0 0

abbrev nothing_yet : Copy ℕ (List Text)
nothing_yet = record { mount = new_mount 0 options; disk = [] }

sync-IsKept_example :
    IsTouched (sync serving listing [] copier 2 (codes "/a") (codes "out/a") nothing_yet).1.disk
sync-IsKept_example =
    sync-IsKept serving listing [] copier IsTouched 2 (codes "/a") (codes "out/a") nothing_yet
      listing-IsKept tt

-- A single backslash passes, and leads above the local path on Windows.
backslash_test :
    validate_local_name (codes ".." ++ (backslash ∷ codes "a"))
    ≡ ok (codes ".." ++ (backslash ∷ codes "a"))
unfolding validate_local_name text_beq has_slash has_two_backslashes
backslash_test = refl
