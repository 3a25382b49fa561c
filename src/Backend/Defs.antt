-- ===== src/Backend/Defs.antt =====
-- internal/server/metadata_backend.go and metadata_cache.go: the state of the backend, and the
-- calls of the operating system, which are a parameter. Counters and timings are left out.
use net_drive.Prelude.{ℕ, Bool, Option, none, some, List, Result, ok, err, nat_eq}
use net_drive.Prelude.Map.{Map}
use net_drive.Prelude.Text.{Text}
use net_drive.Protocol.{NodeInfo, DirEntry}

pub record NodeRecord : Type 0 where
  pub id : ℕ
  pub parent_id : ℕ
  pub rel_path : Text

pub record DirCursor : Type 0 where
  pub id : ℕ
  pub node_id : ℕ
  pub entries : List DirEntry

-- `file` names an open file of the operating system.
pub record FileHandle : Type 0 where
  pub id : ℕ
  pub node_id : ℕ
  pub parent_id : ℕ
  pub rel_path : Text
  pub file : ℕ
  pub size : ℕ
  pub writable : Bool
  pub delete_on_close : Bool

-- What a cache holds, and until when, in nanoseconds.
pub record Cached {ℓ} (A : Type ℓ) : Type ℓ where
  pub value : A
  pub expires_at : ℕ

pub record WorkspaceProfile : Type 0 where
  pub hot_dirs : List Text
  pub hot_files : List Text
  pub ignore_dirs : List Text
  pub small_file_threshold : ℕ

pub record MetadataBackend : Type 0 where
  pub root_path : Text
  pub cache_ttl : ℕ
  pub next_node_id : ℕ
  pub next_cursor_id : ℕ
  pub next_handle_id : ℕ
  pub profile : WorkspaceProfile
  pub nodes_by_id : Map ℕ NodeRecord
  pub nodes_by_path : Map Text ℕ
  pub cursors : Map ℕ DirCursor
  pub handles : Map ℕ FileHandle
  pub attr_cache : Map Text (Cached NodeInfo)
  pub negative_cache : Map Text (Cached (Unit {0}))
  pub dir_snapshots : Map ℕ (Cached (List DirEntry))
  pub small_file_cache : Map Text (Cached Text)

-- The first three are those that os.IsNotExist, os.IsExist and os.IsPermission recognise.
pub data BackendError : Type 0 where
  not_exist exist permission : BackendError
  invalid_handle already_exists not_dir is_dir access_denied : BackendError
  invalid_offset : BackendError
  other : Text → BackendError

pub record FileInfo : Type 0 where
  pub name : Text
  pub is_dir : Bool
  pub size : ℕ
  pub mode : ℕ
  pub mod_time : Text

-- How os.OpenFile is called: O_RDONLY, O_RDWR with or without O_TRUNC, and O_CREATE|O_RDWR with
-- O_TRUNC or with O_EXCL.
pub data OpenMode : Type 0 where
  read_only read_write read_write_truncate create_truncate create_exclusive : OpenMode

-- How File.ReadAt ends.
pub data ReadStatus : Type 0 where
  full at_eof : ReadStatus
  failed : BackendError → ReadStatus

-- The operating system, with its state W. A call that can change W returns the new one.
pub record Os (W : Type 0) : Type 0 where
  pub now : W → ℕ
  pub stat : W → Text → Result BackendError FileInfo
  -- names, each with whether it is a directory
  pub read_dir : W → Text → Result BackendError (List (Text × Bool))
  pub read_file : W → Text → Result BackendError Text
  pub open_file : W → Text → OpenMode → Result BackendError ℕ × W
  pub read_at : W → ℕ → ℕ → ℕ → Text × ReadStatus
  -- how many bytes were written, and the error
  pub write_at : W → ℕ → ℕ → Text → (ℕ × Option BackendError) × W
  pub sync : W → ℕ → Option BackendError × W
  pub file_stat : W → ℕ → Result BackendError FileInfo
  pub truncate : W → ℕ → ℕ → Option BackendError × W
  pub close : W → ℕ → Option BackendError × W
  pub remove : W → Text → Option BackendError × W
  pub rename : W → Text → Text → Option BackendError × W

pub record Server (W : Type 0) : Type 0 where
  pub backend : MetadataBackend
  pub world : W

-- A method of the backend: what it changed stays changed when it fails.
abbrev pub M : Type 0 → Type 0 → Type 0
M W A = Server W → Result BackendError A × Server W

module _ {W : Type 0} where
  infixl 4 ◌>>=◌ ◌>>◌
  unfoldable pub ◌>>=◌ : {A B : Type 0} → M W A → (A → M W B) → M W B
  ◌>>=◌ m next s = let (r, s') = m s in elim r [ err e ↦ (err e, s') | ok a ↦ next a s' ]

  unfoldable pub ◌>>◌ : {A B : Type 0} → M W A → M W B → M W B
  unfolding ◌>>=◌
  ◌>>◌ m next = m >>= λ _. next

  unfoldable pub return : {A : Type 0} → A → M W A
  return a s = (ok a, s)

  unfoldable pub fail : {A : Type 0} → BackendError → M W A
  fail e s = (err e, s)

  -- the result, whether or not it is an error
  unfoldable pub attempt : {A : Type 0} → M W A → M W (Result BackendError A)
  attempt m s = let (r, s') = m s in (ok r, s')

  unfoldable pub of_result : {A : Type 0} → Result BackendError A → M W A
  of_result r s = (r, s)

  unfoldable pub get_backend : M W MetadataBackend
  get_backend s = (ok s.backend, s)

  unfoldable pub get_world : M W W
  get_world s = (ok s.world, s)

  unfoldable pub modify : (MetadataBackend → MetadataBackend) → M W (Unit {0})
  modify f s = (ok tt, record s { backend = f s.backend })

  -- a call of the operating system
  unfoldable pub call : {A : Type 0} → (W → A × W) → M W A
  call f s = let (a, w) = f s.world in (ok a, record s { world = w })

  unfoldable pub on_option : {A B : Type 0} → Option A → M W B → (A → M W B) → M W B
  on_option none m f = m
  on_option (some a) m f = f a

  unfoldable pub on_result :
      {A B : Type 0} → Result BackendError A → (BackendError → M W B) → (A → M W B) → M W B
  on_result (err e) f g = f e
  on_result (ok a) f g = g a
