-- ===== src/Materialize/Sync.antt =====
-- internal/materialize/materialize.go: Sync, syncDirectory and syncFile. The loops over pages and
-- over parts of a file, and the descent into directories, are bounded by rounds.
use net_drive.Prelude.{
  ℕ, zero, suc, ◌+◌, Option, none, some, List, [], ◌∷◌, if◌then◌else◌, ◌||◌, ok, err, Result,
}
use net_drive.Prelude.Steps.{◌>>=◌, ◌>>◌, return, fail}
use net_drive.Prelude.Text.{Text, is_empty}
use net_drive.Prelude.Text.Paths.{dir, join_path}
use net_drive.Backend.Handles.{at}
use net_drive.Mount.Path.{trim_space}
use net_drive.Mount.Defs.{ProtocolClient, FileInfo, LocalHandle, MountError, Method}
use net_drive.Mount.Volume
use net_drive.Materialize.Defs.{
  ModTime, LocalFile, LocalDisk, NameError, SyncError, no_local_path, of_mount, of_disk, bad_name,
  unfinished, Task, Stats, Materializer, validate_local_name, parse_mod_time,
}

module _ {E X : Type 0} where
  unfoldable pub mount_result : {A : Type 0} → Result (MountError E) A → Result (SyncError E X) A
  mount_result (err e) = err (of_mount e)
  mount_result (ok a) = ok a

  unfoldable pub disk_result : {A : Type 0} → Result X A → Result (SyncError E X) A
  disk_result (err x) = err (of_disk x)
  disk_result (ok a) = ok a

  -- an error that may be nil
  unfoldable pub disk_error : Option X → Result (SyncError E X) (Unit {0})
  disk_error none = ok tt
  disk_error (some x) = err (of_disk x)

module _ {N D E X : Type 0} where
  -- A call of the mount.
  unfoldable pub on_mount : {A : Type 0} → Method N E A → Task N D E X A
  unfolding mount_result
  on_mount f s = let (r, m) = f s.mount in (mount_result r, record s { mount = m })

  -- A call of the operating system.
  unfoldable pub on_disk : {A : Type 0} → (D → Result X A × D) → Task N D E X A
  unfolding disk_result
  on_disk f s = let (r, d) = f s.disk in (disk_result r, record s { disk = d })

  unfoldable pub on_disk_error : (D → Option X × D) → Task N D E X (Unit {0})
  unfolding disk_error
  on_disk_error f s = let (e, d) = f s.disk in (disk_error e, record s { disk = d })

  -- `defer` of a call whose error is dropped
  unfoldable pub finally : {A B : Type 0} → Task N D E X A → Task N D E X B → Task N D E X A
  finally m last s = let (r, s') = m s in (r, (last s').1)

  unfoldable pub check_name : FileInfo → Result NameError Text → Task N D E X Text
  check_name entry (err e) = fail (bad_name entry.path e)
  check_name entry (ok name) = return name

module _ {N D E X : Type 0} (client : ProtocolClient N E) (disk : LocalDisk D X)
    (layouts : List (Text → Option ModTime)) (o : Materializer) where
  -- ctx.Err()
  unfoldable pub check_context : Task N D E X (Unit {0})
  unfolding on_disk_error
  check_context = on_disk_error (λ d. (disk.ctx_err d, d))

  unfoldable pub close_remote : LocalHandle → Task N D E X (Unit {0})
  unfolding on_mount
  close_remote h = on_mount (Volume.close client h.handle_id)

  -- A part of a file that is not empty is written; the number of bytes written.
  unfoldable pub write_part : LocalFile → Text → Task N D E X ℕ
  unfolding on_disk
  write_part f [] = return 0
  write_part f (c ∷ bytes) = on_disk (disk.write f (c ∷ bytes))

  -- The loop of syncFile, with the offset; the bytes written.
  unfoldable pub copy_parts : ℕ → LocalHandle → LocalFile → ℕ → Task N D E X ℕ
  unfolding check_context on_mount write_part
  copy_parts zero h f offset = fail unfinished
  copy_parts (suc rounds) h f offset = do
    check_context
    part ← on_mount (Volume.read client h.handle_id (at offset) o.read_length)
    n ← write_part f part.0
    if part.1 || is_empty part.0 then return (offset + n) else copy_parts rounds h f (offset + n)

  unfoldable pub set_times : Text → Option ModTime → Task N D E X (Unit {0})
  unfolding on_disk
  set_times path none = return tt
  set_times path (some t) =
      if t.is_zero then return tt else on_disk (λ d. (ok tt, disk.chtimes path t d))

  unfoldable pub fill_file : ℕ → LocalHandle → LocalFile → Text → FileInfo → Task N D E X Stats
  unfolding copy_parts on_disk_error set_times parse_mod_time
  fill_file rounds h f path info = do
    bytes ← copy_parts rounds h f 0
    on_disk_error (disk.close f)
    (if o.preserve_time then set_times path (parse_mod_time layouts info.mod_time) else return tt)
    return (record { directories = 0; files = 1; bytes = bytes })

  unfoldable pub create_file : ℕ → LocalHandle → Text → FileInfo → Task N D E X Stats
  unfolding on_disk fill_file on_disk_error finally
  create_file rounds h path info = do
    fd ← on_disk (disk.create path)
    let f : LocalFile = record { name = path; fd = fd }
    finally (fill_file rounds h f path info) (on_disk_error (disk.close f))

  unfoldable pub sync_file : ℕ → Text → Text → FileInfo → Task N D E X Stats
  unfolding check_context on_disk_error on_mount create_file finally close_remote
  sync_file rounds remote_path local_path info = do
    check_context
    on_disk_error (disk.mkdir_all (dir local_path))
    h ← on_mount (Volume.open_file client remote_path)
    finally (create_file rounds h local_path info) (close_remote h)

unfoldable pub add_stats : Stats → Stats → Stats
add_stats s t = record {
  directories = s.directories + t.directories;
  files = s.files + t.files;
  bytes = s.bytes + t.bytes;
}

module _ {N D E X : Type 0} where
  -- The entries of a page. `child` copies one to a local path.
  unfoldable pub sync_entries :
      (FileInfo → Text → Task N D E X Stats) → Text → List FileInfo → Stats → Task N D E X Stats
  unfolding check_name validate_local_name join_path add_stats
  sync_entries child local_path [] stats = return stats
  sync_entries child local_path (entry ∷ entries) stats = do
    name ← check_name entry (validate_local_name entry.name)
    more ← child entry (join_path local_path name)
    sync_entries child local_path entries (add_stats stats more)

module _ {N D E X : Type 0} (client : ProtocolClient N E) (disk : LocalDisk D X)
    (layouts : List (Text → Option ModTime)) (o : Materializer) where
  unfoldable mutual
    unfolding check_context on_disk_error on_mount finally close_remote sync_entries sync_file

    pub sync_directory : ℕ → Text → Text → Task N D E X Stats
    sync_directory zero remote_path local_path = fail unfinished
    sync_directory (suc rounds) remote_path local_path = do
      check_context client disk layouts o
      on_disk_error (disk.mkdir_all local_path)
      h ← on_mount (Volume.open_directory client remote_path)
      finally (sync_pages rounds h local_path 0 (record { directories = 1; files = 0; bytes = 0 }))
          (close_remote client disk layouts o h)

    -- The loop of syncDirectory.
    pub sync_pages : ℕ → LocalHandle → Text → ℕ → Stats → Task N D E X Stats
    sync_pages zero h local_path cookie stats = fail unfinished
    sync_pages (suc rounds) h local_path cookie stats = do
      check_context client disk layouts o
      page ← on_mount (Volume.read_directory client h.handle_id cookie o.max_entries)
      stats' ←
          sync_entries
            (λ entry path.
              if entry.is_directory
              then sync_directory rounds entry.path path
              else sync_file client disk layouts o rounds entry.path path entry)
            local_path page.0 stats
      if page.2 then return stats' else sync_pages rounds h local_path page.1 stats'

  unfoldable pub sync : ℕ → Text → Text → Task N D E X Stats
  unfolding check_context on_mount sync_directory sync_file trim_space
  sync rounds remote_path local_path =
      if is_empty (trim_space local_path) then fail no_local_path else do
        check_context client disk layouts o
        info ← on_mount (Volume.get_attr client remote_path)
        if info.is_directory
            then sync_directory rounds info.path local_path
            else sync_file client disk layouts o rounds info.path local_path info
