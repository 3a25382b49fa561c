-- ===== src/Materialize/Keeps.antt =====
-- internal/materialize/materialize.go: what lies below a local path, and tasks that keep a property
-- of the local files.
use net_drive.Prelude.{◌≡◌, ◌≢◌, false, Option, ok, Result, arith, ==_iff, subst, text_eq}
use net_drive.Prelude.Steps.{◌>>=◌, ◌>>◌, return, fail}
use net_drive.Prelude.Steps.Leads.{Leads, Leads-return, Leads-fail, Leads-bind, Leads-then}
use net_drive.Prelude.Text.{Text, codes, is_empty, has_slash}
use net_drive.Prelude.Text.Paths.{dir, join_path}
use net_drive.Mount.Defs.{Method}
use net_drive.Materialize.Defs.{ModTime, LocalFile, LocalDisk, SyncError, Task, check_local_name}
use net_drive.Materialize.Sync.{on_mount, on_disk, on_disk_error, finally}

-- A name that is one element of a path, and leads nowhere else.
pub record IsLocalName (name : Text) : Type 0 where
  pub not_empty : is_empty name ≡ false
  pub not_dot : name ≢ codes "."
  pub not_dots : name ≢ codes ".."
  pub no_slash : has_slash name ≡ false

-- The root of a copy, and what is reached from it by joining such names.
pub data Below (root : Text) : Text → Type 0 where
  here : Below root root
  inside :
      {path name : Text} → Below root path → IsLocalName name → Below root (join_path path name)

pub check_local_name-IsLocalName :
    (name name' : Text) → check_local_name name ≡ ok name' → IsLocalName name'
unfolding check_local_name
check_local_name-IsLocalName name name' h =
    let dot = ==_iff name (codes ".") in
    let dots = ==_iff name (codes "..") in
    let same : name ≡ name' = ground (arith, dot, dots) in
    subst IsLocalName same (record {
      not_empty = ground (arith, dot, dots);
      not_dot = λ e. ground (arith, dot.1 e);
      not_dots = λ e. ground (arith, dots.1 e);
      no_slash = ground (arith, dot, dots);
    })

-- What is kept by making and changing whatever lies below a root, and by making the directory that
-- holds it, where `P` is any property of the local files.
pub record IsKept {D X : Type 0} (disk : LocalDisk D X) (root : Text) (P : D → Type 0)
    : Type 0 where
  pub makes : (path : Text) → Below root path → (d : D) → P d → P (disk.mkdir_all path d).1
  pub makes_parent :
      (path : Text) → Below root path → (d : D) → P d → P (disk.mkdir_all (dir path) d).1
  pub creates : (path : Text) → Below root path → (d : D) → P d → P (disk.create path d).1
  pub writes :
      (f : LocalFile)
      → Below root f.name
      → (bytes : Text) (d : D) → P d
      → P (disk.write f bytes d).1
  pub closes : (f : LocalFile) → Below root f.name → (d : D) → P d → P (disk.close f d).1
  pub touches :
      (path : Text) → Below root path → (t : ModTime) (d : D) → P d → P (disk.chtimes path t d)

module _ {N D E X : Type 0} (P : D → Type 0) where
  -- A task that keeps P.
  abbrev pub Keeps : {A : Type 0} → Task N D E X A → Type 0
  Keeps m = Leads (λ s. P s.disk) (λ s. P s.disk) m

  pub Keeps-on_mount : {A : Type 0} (f : Method N E A) → Keeps (on_mount f)
  unfolding on_mount
  Keeps-on_mount f = record { at = λ s h. h }

  pub Keeps-on_disk :
      {A : Type 0} (f : D → Result X A × D) → ((d : D) → P d → P (f d).1) → Keeps (on_disk f)
  unfolding on_disk
  Keeps-on_disk f h = record { at = λ s. h s.disk }

  pub Keeps-on_disk_error :
      (f : D → Option X × D) → ((d : D) → P d → P (f d).1) → Keeps (on_disk_error f)
  unfolding on_disk_error
  Keeps-on_disk_error f h = record { at = λ s. h s.disk }

  pub Keeps-finally :
      {A B : Type 0} (m : Task N D E X A) (last : Task N D E X B)
      → Keeps m
      → Keeps last
      → Keeps (finally m last)
  unfolding finally
  Keeps-finally m last hm hl = record { at = λ s h. hl.at (m s).1 (hm.at s h) }

  pub Keeps-bind :
      {A B : Type 0} (m : Task N D E X A) (f : A → Task N D E X B)
      → Keeps m
      → ((a : A) → Keeps (f a))
      → Keeps (m >>= f)
  Keeps-bind m f hm hf = Leads-bind m f (λ s h. h) hm hf

  pub Keeps-then :
      {A B : Type 0} (m : Task N D E X A) (n : Task N D E X B) → Keeps m → Keeps n → Keeps (m >> n)
  Keeps-then m n hm hn = Leads-then m n (λ s h. h) hm hn

  pub Keeps-return : {A : Type 0} (a : A) → Keeps (return a)
  Keeps-return a = Leads-return a (λ s h. h)

  pub Keeps-fail : {A : Type 0} (e : SyncError E X) → Keeps {A = A} (fail e)
  Keeps-fail e = Leads-fail e (λ s h. h)
