-- ===== src/Materialize/Below.antt =====
-- internal/materialize/materialize.go: where a copy writes.
use net_drive.Prelude.{
  ℕ, zero, suc, ◌+◌, ◌≡◌, refl, Option, none, some, List, [], ◌∷◌, ◌||◌, ok, err, Result,
}
use net_drive.Prelude.Steps.{◌>>=◌, return, fail}
use net_drive.Prelude.Steps.Leads.{Leads-if}
use net_drive.Prelude.Text.{Text, is_empty}
use net_drive.Prelude.Text.Paths.{join_path}
use net_drive.Mount.Path.{trim_space}
use net_drive.Mount.Defs.{ProtocolClient, FileInfo, LocalHandle}
use net_drive.Materialize.Defs.{
  ModTime, LocalFile, LocalDisk, NameError, Copy, Task, Stats, Materializer, validate_local_name,
  check_local_name, parse_mod_time,
}
use net_drive.Materialize.Sync.{
  check_name, check_context, close_remote, write_part, copy_parts, set_times, fill_file,
  create_file, sync_file, sync_entries, sync_directory, sync_pages, sync, add_stats,
}
use net_drive.Materialize.Keeps.{
  IsLocalName, Below, here, inside, check_local_name-IsLocalName, IsKept, Keeps, Keeps-on_mount,
  Keeps-on_disk, Keeps-on_disk_error, Keeps-finally, Keeps-bind, Keeps-then, Keeps-return,
  Keeps-fail,
}

module _ {N D E X : Type 0} (client : ProtocolClient N E) (disk : LocalDisk D X)
    (layouts : List (Text → Option ModTime)) (o : Materializer) (root : Text) (P : D → Type 0)
    (kept : IsKept disk root P) where
  Keeps-check_context : Keeps {N = N} {E = E} P (check_context client disk layouts o)
  unfolding check_context
  Keeps-check_context = Keeps-on_disk_error P _ (λ d h. h)

  Keeps-close_remote : (h : LocalHandle) → Keeps P (close_remote client disk layouts o h)
  unfolding close_remote
  Keeps-close_remote h = Keeps-on_mount P _

  Keeps-write_part :
      (f : LocalFile) (bytes : Text)
      → Below root f.name
      → Keeps P (write_part client disk layouts o f bytes)
  unfolding write_part
  Keeps-write_part f [] b = Keeps-return P 0
  Keeps-write_part f (c ∷ bytes) b = Keeps-on_disk P _ (kept.writes f b (c ∷ bytes))

  Keeps-copy_parts :
      (rounds : ℕ) (h : LocalHandle) (f : LocalFile) (offset : ℕ)
      → Below root f.name
      → Keeps P (copy_parts client disk layouts o rounds h f offset)
  unfolding copy_parts
  Keeps-copy_parts zero h f offset b = Keeps-fail P _
  Keeps-copy_parts (suc rounds) h f offset b = Keeps-then P _ _ Keeps-check_context (
      Keeps-bind P _ _ (Keeps-on_mount P _) (λ part.
        Keeps-bind P _ _ (Keeps-write_part f part.0 b) (λ n.
          Leads-if (part.1 || is_empty part.0) _ _ (Keeps-return P (offset + n))
            (Keeps-copy_parts rounds h f (offset + n) b))))

  Keeps-set_times :
      (path : Text) (t : Option ModTime)
      → Below root path
      → Keeps {N = N} {E = E} P (set_times client disk layouts o path t)
  unfolding set_times
  Keeps-set_times path none b = Keeps-return P tt
  Keeps-set_times path (some t) b =
      Leads-if t.is_zero _ _ (Keeps-return P tt)
        (Keeps-on_disk P (λ d. (ok tt, disk.chtimes path t d)) (kept.touches path b t))

  Keeps-fill_file :
      (rounds : ℕ) (h : LocalHandle) (f : LocalFile) (path : Text) (info : FileInfo)
      → Below root f.name
      → Below root path
      → Keeps P (fill_file client disk layouts o rounds h f path info)
  unfolding fill_file
  Keeps-fill_file rounds h f path info bf b =
      Keeps-bind P _ _ (Keeps-copy_parts rounds h f 0 bf) (λ bytes.
        Keeps-then P _ _ (Keeps-on_disk_error P _ (kept.closes f bf)) (
          Keeps-then P _ _
            (Leads-if o.preserve_time _ _
              (Keeps-set_times path (parse_mod_time layouts info.mod_time) b) (Keeps-return P tt))
            (Keeps-return P _)))

  Keeps-create_file :
      (rounds : ℕ) (h : LocalHandle) (path : Text) (info : FileInfo)
      → Below root path
      → Keeps P (create_file client disk layouts o rounds h path info)
  unfolding create_file
  Keeps-create_file rounds h path info b =
      Keeps-bind P _ _ (Keeps-on_disk P _ (kept.creates path b)) (λ fd.
        let f : LocalFile = record { name = path; fd = fd } in
        Keeps-finally P _ _ (Keeps-fill_file rounds h f path info b b)
          (Keeps-on_disk_error P (disk.close f) (kept.closes f b)))

  Keeps-sync_file :
      (rounds : ℕ) (remote_path path : Text) (info : FileInfo)
      → Below root path
      → Keeps P (sync_file client disk layouts o rounds remote_path path info)
  unfolding sync_file
  Keeps-sync_file rounds remote_path path info b = Keeps-then P _ _ Keeps-check_context (
      Keeps-then P _ _ (Keeps-on_disk_error P _ (kept.makes_parent path b)) (
        Keeps-bind P _ _ (Keeps-on_mount P _) (λ h.
          Keeps-finally P _ _ (Keeps-create_file rounds h path info b) (Keeps-close_remote h))))

  -- What follows the check of a name may use what the check says.
  Keeps-check_name :
      {A : Type 0} (entry : FileInfo) (name : Text) (r : Result NameError Text)
      (f : Text → Task N D E X A)
      → check_local_name name ≡ r
      → ((name' : Text) → IsLocalName name' → Keeps P (f name'))
      → Keeps P (check_name entry r >>= f)
  unfolding check_name ◌>>=◌ return fail
  Keeps-check_name entry name (err e) f same hf = record { at = λ s h. h }
  Keeps-check_name entry name (ok name') f same hf = record {
    at = (hf name' (check_local_name-IsLocalName name name' same)).at;
  }

  Keeps-sync_entries :
      (copy : FileInfo → Text → Task N D E X Stats) (path : Text) (entries : List FileInfo)
      (stats : Stats)
      → ((e : FileInfo) (p : Text) → Below root p → Keeps P (copy e p))
      → Below root path
      → Keeps P (sync_entries copy path entries stats)
  unfolding sync_entries validate_local_name
  Keeps-sync_entries copy path [] stats hc b = Keeps-return P stats
  Keeps-sync_entries copy path (entry ∷ entries) stats hc b =
      Keeps-check_name entry (trim_space entry.name) _ _ refl (λ name local.
        Keeps-bind P _ _ (hc entry (join_path path name) (inside b local))
          (λ more. Keeps-sync_entries copy path entries (add_stats stats more) hc b))

  mutual
    unfolding sync_directory sync_pages

    Keeps-sync_directory :
        (rounds : ℕ) (remote_path path : Text)
        → Below root path
        → Keeps P (sync_directory client disk layouts o rounds remote_path path)
    Keeps-sync_directory zero remote_path path b = Keeps-fail P _
    Keeps-sync_directory (suc rounds) remote_path path b = Keeps-then P _ _ Keeps-check_context (
        Keeps-then P _ _ (Keeps-on_disk_error P _ (kept.makes path b)) (
          Keeps-bind P _ _ (Keeps-on_mount P _) (λ h.
            Keeps-finally P _ _ (Keeps-sync_pages rounds h path 0 _ b) (Keeps-close_remote h))))

    Keeps-sync_pages :
        (rounds : ℕ) (h : LocalHandle) (path : Text) (cookie : ℕ) (stats : Stats)
        → Below root path
        → Keeps P (sync_pages client disk layouts o rounds h path cookie stats)
    Keeps-sync_pages zero h path cookie stats b = Keeps-fail P _
    Keeps-sync_pages (suc rounds) h path cookie stats b = Keeps-then P _ _ Keeps-check_context (
        Keeps-bind P _ _ (Keeps-on_mount P _) (λ page.
          Keeps-bind P _ _
            (Keeps-sync_entries _ path page.0 stats
              (λ e p below.
                Leads-if e.is_directory _ _ (Keeps-sync_directory rounds e.path p below)
                  (Keeps-sync_file rounds e.path p e below))
              b)
            (λ stats'.
              Leads-if page.2 _ _ (Keeps-return P stats')
                (Keeps-sync_pages rounds h path page.1 stats' b))))

  Keeps-sync :
      (rounds : ℕ) (remote_path : Text)
      → Keeps P (sync client disk layouts o rounds remote_path root)
  unfolding sync
  Keeps-sync rounds remote_path = Leads-if (is_empty (trim_space root)) _ _ (Keeps-fail P _) (
      Keeps-then P _ _ Keeps-check_context (
        Keeps-bind P _ _ (Keeps-on_mount P _) (λ info.
          Leads-if info.is_directory _ _ (Keeps-sync_directory rounds info.path root here)
            (Keeps-sync_file rounds info.path root info here))))

-- Whatever the server and the local system answer, and whether Sync succeeds or fails: whatever is
-- kept by making and changing what lies at or below the local path, and by making the directories
-- that hold such a thing, is kept by Sync. A path lies below another if it is reached by joining
-- names that are not empty, `.` or `..`, and have no `/` in them.
pub sync-IsKept :
    {N D E X : Type 0} (client : ProtocolClient N E) (disk : LocalDisk D X)
    (layouts : List (Text → Option ModTime)) (o : Materializer) (P : D → Type 0) (rounds : ℕ)
    (remote_path local_path : Text) (s : Copy N D)
    → IsKept disk local_path P
    → P s.disk
    → P (sync client disk layouts o rounds remote_path local_path s).1.disk
sync-IsKept client disk layouts o P rounds remote_path local_path s kept =
    (Keeps-sync client disk layouts o local_path P kept rounds remote_path).at s
