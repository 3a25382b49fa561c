-- ===== src/Tests/Store.antt =====
-- A store of profiles on a disk with two files, and a save of a workspace.
use net_drive.Prelude.{
  ◌≡◌, refl, ap, ◌∙◌, sym, true, Option, none, some, some-inj, [], ◌∷◌, ◌++◌, if◌then◌else◌, ◌==◌,
  text_eq, text_beq, Result, ok, err,
}
use net_drive.Prelude.Map.{empty, binding, get}
use net_drive.Prelude.Text.{Text, codes}
use net_drive.Mount.Path.{trim_space}
use net_drive.Winclient.{Config, normalized}
use net_drive.Runtime.Defs.{no_config}
use net_drive.Winclient.Store.{State, Libraries, no_meta, default_state, normalize_state}
use net_drive.Winclient.Store.Calls.{load, save_workspace, with_workspace}
use net_drive.Winclient.Store.Saving.{save_workspace-load}

data Missing : Type 0 where
  missing : Missing

-- the store and the file beside it
record Disk : Type 0 where
  store : Option Text
  beside : Option Text

abbrev read : Option Text → Result Missing Text
read none = err missing
read (some content) = ok content

abbrev move : Option Text → Option Text → Option Missing × Disk
move store none = (some missing, record { store = store; beside = none })
move store (some content) = (none, record { store = some content; beside = none })

-- Every state is encoded alike, and decoded to the one given.
abbrev library : State → Libraries Disk Missing
library kept = record {
  read_file = λ path d. read d.store;
  is_not_exist = λ e. true;
  mkdir_all = λ path d. (none, d);
  write_file = λ path content d. (none, record d { beside = some content });
  rename = λ old new d. move d.store d.beside;
  dir = λ path. codes ".";
  marshal = λ s. some (codes "{}");
  unmarshal = λ content s. if content == (codes "{}" ++ (10 ∷ [])) then some kept else none;
  utc = λ s. some s;
  default_mount_point = codes "M:";
}

move-read :
    (content : Text) (store : Option Text) (d1 d2 : Disk)
    → ◌≡◌ {A = Option Missing × Disk}
        (none, record { store = store; beside = some content })
        (none, d1)
    → move d1.store d1.beside ≡ (none, d2)
    → read d2.store ≡ ok content
move-read content store d1 d2 h k =
    sym (ap (λ p. read p.1.store) (ap (λ p. move p.1.store p.1.beside) h ∙ k))

abbrev written : Config
written = record no_config { mount_point = codes "z:"; path = codes "docs" }

-- the state that SaveWorkspace saves, and what json makes of it
abbrev saved : State
saved = with_workspace (library default_state) (codes "dev") written no_meta default_state

abbrev kept : State
kept = normalize_state (library default_state) saved

abbrev lib : Libraries Disk Missing
lib = library kept

kept_test : kept ≡ normalize_state lib saved
unfolding normalize_state default_state
kept_test = refl

abbrev no_store : Disk
no_store = record { store = none; beside = none }

abbrev stored : Disk
stored = record { store = some (codes "{}" ++ (10 ∷ [])); beside = none }

saves_test :
    save_workspace lib (codes "c.json") (codes " dev ") written no_meta no_store
    ≡ (ok saved, stored)
unfolding save_workspace with_workspace
saves_test = refl

chosen_test : (normalize_state lib saved).settings.default_workspace ≡ codes "dev"
unfolding normalize_state with_workspace default_state
chosen_test = refl

-- A blank name is dropped, and the first of the others is the default.
first_test :
    (normalize_state lib (record default_state {
      profiles =
          binding
            (codes " b")
            written
            (binding (codes " ") written (binding (codes "a ") written empty));
    })).settings.default_workspace
    ≡ codes "a"
unfolding normalize_state default_state
first_test = refl

decodes :
    (payload : Text)
    → lib.marshal (normalize_state lib saved) ≡ some payload
    → lib.unmarshal (payload ++ (10 ∷ [])) default_state ≡ some kept
unfolding text_beq
decodes payload e = ap (λ p. lib.unmarshal (p ++ (10 ∷ [])) default_state) (sym (some-inj e))

save_workspace-load_example :
    (before after : State) × (load lib (codes "c.json") no_store ≡ ok before)
    × (load lib (codes "c.json") stored ≡ ok after)
    × (after.active_profile ≡ trim_space (codes " dev "))
    × ((k : Text)
        → get after.profiles k ≡ (
            if trim_space (codes " dev ") == k
            then some (normalized lib.default_mount_point written)
            else get before.profiles k))
save_workspace-load_example =
    save_workspace-load lib (codes "c.json")
      (λ content d d1 d2 h k. move-read content d.store d1 d2 h k) (codes " dev ") written no_meta
      no_store saved stored saves_test
      (λ payload e. (
        kept,
        decodes payload e,
        ap (λ s. s.active_profile) kept_test,
        λ k. ap (λ s. get s.profiles k) kept_test,
      ))
