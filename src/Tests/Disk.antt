-- ===== src/Tests/Disk.antt =====
-- A disk with the directory /srv and one file in it, as an operating system.
use net_drive.Prelude.{
  ℕ, ◌+◌, Bool, true, false, none, [], ◌∷◌, ◌++◌, length, take, drop, leb, if◌then◌else◌, ◌==◌,
  text_eq, ok, err,
}
use net_drive.Prelude.Text.{Text, codes}
use net_drive.Backend.Defs.{Os, FileInfo, full, at_eof, not_exist, not_dir}

abbrev pub root : Text
root = codes "/srv"

abbrev info : Text → Bool → ℕ → FileInfo
info name is_dir size = record {
  name = name;
  is_dir = is_dir;
  size = size;
  mode = 420;
  mod_time = [];
}

-- The world is the contents of the file, which is open as number 3.
abbrev pub disk : Os Text
disk = record {
  now = λ w. 0;
  stat = λ w path.
      if path == root
      then ok (info root true 0)
      else if path == codes "/srv/a"
      then ok (info (codes "a") false (length w))
      else err not_exist;
  read_dir = λ w path. if path == root then ok ((codes "a", false) ∷ []) else err not_dir;
  read_file = λ w path. if path == codes "/srv/a" then ok w else err not_exist;
  open_file = λ w path mode. (ok 3, w);
  read_at = λ w f offset size.
      (take size (drop offset w), if leb (offset + size) (length w) then full else at_eof);
  write_at = λ w f offset bytes.
      ((length bytes, none), take offset w ++ (bytes ++ drop (offset + length bytes) w));
  sync = λ w f. (none, w);
  file_stat = λ w f. ok (info (codes "a") false (length w));
  truncate = λ w f size. (none, take size w);
  close = λ w f. (none, w);
  remove = λ w path. (none, []);
  rename = λ w old new. (none, w);
}
