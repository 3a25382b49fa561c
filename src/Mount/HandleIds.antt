-- ===== src/Mount/HandleIds.antt =====
-- The handles of internal/mountcore/mount.go: files and directories share one counter.
use net_drive.Prelude.{
  ℕ, ◌+◌, ◌<◌, ◌≤◌, ◌≡◌, ◌∙◌, none, List, [], ◌∷◌, Result, arith, nat_eq, ◌⊎◌, inl, inr, ◌==◌,
  Bool-cases,
}
use net_drive.Prelude.Words.{u64_mod}
use net_drive.Prelude.Map
use net_drive.Prelude.Map.{get-insert, get-delete, get-empty}
use net_drive.Prelude.Steps.{modify}
use net_drive.Prelude.Steps.Leads.{
  Leads, Leads-then_rest, Leads-return, Leads-bind, Leads-then, leads_rules,
}
use net_drive.Prelude.Text.{Text}
use net_drive.Protocol.{NodeInfo, DirEntry}
use net_drive.Backend.Handles.{Offset}
use net_drive.Mount.Defs.{ProtocolClient, LocalHandle, Mount, MountError}
use net_drive.Mount.Volume.{
  ask, cache_path, add_file, add_directory, walk, resolve_normal, resolve_path, lookup, get_attr,
  open_file, open_directory, cache_entries, read_directory, read, close,
}

-- No handle has a number that is still to be given, and no file has a directory's number.
pub record IsValid {N : Type 0} (m : Mount N) : Type 0 where
  pub file_below : (j : ℕ) → m.next_local_handle ≤ j → Map.get m.file_handles j ≡ none
  pub directory_below : (j : ℕ) → m.next_local_handle ≤ j → Map.get m.directory_handles j ≡ none
  pub apart : (j : ℕ) → (Map.get m.file_handles j ≡ none) ⊎ (Map.get m.directory_handles j ≡ none)

-- The counter can be advanced once more.
abbrev pub HasRoom : {N : Type 0} → Mount N → Type 0
HasRoom m = IsValid m × (m.next_local_handle + 1 < u64_mod)

pub add_file-IsValid :
    {N : Type 0} (h : LocalHandle) (m : Mount N) → HasRoom m → IsValid (add_file h m)
unfolding add_file
add_file-IsValid h m (v, room) = record {
  file_below = λ j le.
      get-insert m.file_handles m.next_local_handle h j
      ∙ ground (arith, v.file_below j (omega arith));
  directory_below = λ j le. v.directory_below j (omega arith);
  apart = λ j. elim (Bool-cases (m.next_local_handle == j)) [
    | inl new ↦ inr (v.directory_below j (ground (arith, new)))
    | inr old ↦ elim (v.apart j) [
      | inl e ↦ inl (get-insert m.file_handles m.next_local_handle h j ∙ rw old e)
      | inr e ↦ inr e
    ]
  ];
}

add_directory-IsValid :
    {N : Type 0} (h : LocalHandle) (m : Mount N) → HasRoom m → IsValid (add_directory h m)
unfolding add_directory
add_directory-IsValid h m (v, room) = record {
  file_below = λ j le. v.file_below j (omega arith);
  directory_below = λ j le.
      get-insert m.directory_handles m.next_local_handle h j
      ∙ ground (arith, v.directory_below j (omega arith));
  apart = λ j. elim (Bool-cases (m.next_local_handle == j)) [
    | inl new ↦ inl (v.file_below j (ground (arith, new)))
    | inr old ↦ elim (v.apart j) [
      | inl e ↦ inl e
      | inr e ↦ inr (get-insert m.directory_handles m.next_local_handle h j ∙ rw old e)
    ]
  ];
}

-- A table from which a handle was deleted has no new handle in it.
get-delete-none :
    (t : Map.Map ℕ LocalHandle) (id j : ℕ) → Map.get t j ≡ none → Map.get (Map.delete t id) j ≡ none
get-delete-none t id j e = get-delete t id j ∙ ground (arith, e)

delete_file-IsValid :
    {N : Type 0} (id : ℕ) (m : Mount N)
    → HasRoom m
    → HasRoom (record m { file_handles = Map.delete m.file_handles id })
delete_file-IsValid id m (v, room) = (
  record {
    file_below = λ j le. get-delete-none m.file_handles id j (v.file_below j le);
    directory_below = v.directory_below;
    apart = λ j. elim (v.apart j) [
      | inl e ↦ inl (get-delete-none m.file_handles id j e)
      | inr e ↦ inr e
    ];
  },
  room,
)

delete_directory-IsValid :
    {N : Type 0} (id : ℕ) (m : Mount N)
    → HasRoom m
    → HasRoom (record m { directory_handles = Map.delete m.directory_handles id })
delete_directory-IsValid id m (v, room) = (
  record {
    file_below = v.file_below;
    directory_below = λ j le. get-delete-none m.directory_handles id j (v.directory_below j le);
    apart = λ j. elim (v.apart j) [
      | inl e ↦ inl e
      | inr e ↦ inr (get-delete-none m.directory_handles id j e)
    ];
  },
  room,
)

module _ {N : Type 0} where
  same : (m : Mount N) → HasRoom m → HasRoom m
  same m h = h

  less : (m : Mount N) → HasRoom m → IsValid m
  less m h = h.0

module _ {N E : Type 0} where
  Leads-ask :
      {A : Type 0} (wrap : E → MountError E) (f : N → Result E A × N)
      → Leads HasRoom HasRoom (ask wrap f)
  unfolding ask
  Leads-ask wrap f = record {
    at = λ m (v, room). (
      record { file_below = v.file_below; directory_below = v.directory_below; apart = v.apart },
      room,
    );
  }

  Leads-cache_path :
      (path : Text) (entry : NodeInfo)
      → Leads (HasRoom {N = N}) HasRoom (cache_path {E = E} path entry)
  unfolding cache_path modify
  Leads-cache_path path entry = record {
    at = λ m (v, room). (
      record { file_below = v.file_below; directory_below = v.directory_below; apart = v.apart },
      room,
    );
  }

ruleset rules = (leads_rules, same, less, Leads-ask, Leads-cache_path)

module _ {N E : Type 0} (client : ProtocolClient N E) where
  Leads-walk :
      (parts : List Text) (path : Text) (current : NodeInfo)
      → Leads HasRoom HasRoom (walk client parts path current)
  unfolding walk
  Leads-walk [] path current = Leads-return current same
  Leads-walk (part ∷ parts) path current =
      let rest : (next : Text) (entry : NodeInfo)
          → Leads HasRoom HasRoom (walk client parts next entry) =
        λ next entry. Leads-walk parts next entry in
      search (rules, rest) depth 20

  Leads-resolve_path : (input : Text) → Leads HasRoom HasRoom (resolve_path client input)
  unfolding resolve_path resolve_normal
  Leads-resolve_path input = search (rules, Leads-walk) depth 20

  pub Leads-lookup : (input : Text) → Leads HasRoom HasRoom (lookup client input)
  unfolding lookup
  Leads-lookup input = search (rules, Leads-resolve_path) depth 20

  pub Leads-get_attr : (input : Text) → Leads HasRoom HasRoom (get_attr client input)
  unfolding get_attr
  Leads-get_attr input = search (rules, Leads-resolve_path) depth 20

  Leads-cache_entries :
      (h : LocalHandle) (entries : List DirEntry)
      → Leads HasRoom HasRoom (cache_entries client h entries)
  unfolding cache_entries
  Leads-cache_entries h [] = Leads-return [] same
  Leads-cache_entries h (e ∷ entries) =
      Leads-then _ _ same (Leads-cache_path _ _)
        (Leads-bind _ _ same (Leads-cache_entries h entries) (λ infos. Leads-return _ same))

  pub Leads-open_file : (input : Text) → Leads HasRoom IsValid (open_file client input)
  unfolding open_file
  Leads-open_file input = search (rules, Leads-get_attr, Leads-then_rest, add_file-IsValid) depth 20

  pub Leads-open_directory : (input : Text) → Leads HasRoom IsValid (open_directory client input)
  unfolding open_directory
  Leads-open_directory input =
      search (rules, Leads-get_attr, Leads-then_rest, add_directory-IsValid) depth 20

  pub Leads-read_directory :
      (id cookie n : ℕ) → Leads HasRoom HasRoom (read_directory client id cookie n)
  unfolding read_directory
  Leads-read_directory id cookie n = search (rules, Leads-cache_entries) depth 20

  pub Leads-read :
      (id : ℕ) (offset : Offset) (n : ℕ) → Leads HasRoom HasRoom (read client id offset n)
  unfolding read
  Leads-read id offset n = search rules depth 20

  pub Leads-close : (id : ℕ) → Leads HasRoom HasRoom (close client id)
  unfolding close
  Leads-close id = search (rules, delete_file-IsValid, delete_directory-IsValid) depth 20
