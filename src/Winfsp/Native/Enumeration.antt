-- ===== src/Winfsp/Native/Enumeration.antt =====
-- internal/winfsp/dispatcher_native_windows.go: a directory that is listed by several calls of
-- goReadDirectory. Each call gives the last name of the one before as its marker, until the end is
-- marked.
use net_drive.Prelude.{
  ℕ, zero, suc, ◌≤◌, ◌<◌, ◌≡◌, refl, ap, ap₂, ◌∙◌, subst, Bool, true, false, Option, none, some,
  List, [], ◌∷◌, ◌++◌, ok, not, if◌then◌else◌, nat_eq, arith, length, select, length-append, sym,
  Bool-cases, inl, inr,
}
use mathlib.Core.List.{append-nil}
use net_drive.Prelude.Map
use net_drive.Prelude.Map.{get-insert}
use net_drive.Prelude.Text.{Text, is_empty}
use net_drive.Mount.Defs.{ProtocolClient, FileInfo, MountError}
use net_drive.Winfsp.Callbacks.{Callbacks}
use net_drive.Winfsp.Native.Calls.{Registry}
use net_drive.Winfsp.Native.Listing.{is_after, collect, listed, go_read_directory}
use net_drive.Winfsp.Native.Markers.{
  last_name, IsAscending, select-last_name, everything, beginning, fill_buffer-Filled,
}

module _ {N E : Type 0} (client : ProtocolClient N E) (message : MountError E → Text)
    (fits : List FileInfo → Option FileInfo → Bool) (pages fs id : ℕ) where
  -- The entries that so many calls list, from a marker; `none` where they do not reach the end.
  unfoldable pub enumerate : ℕ → Registry N → Text → Option (List FileInfo)
  enumerate zero r marker = none
  enumerate (suc calls) r marker =
      elim (go_read_directory client message fits pages r fs id marker) [
        | none ↦ none
        | some (a, r') ↦
            let rest = enumerate calls r' (last_name a.entries marker) in
            if a.complete
            then some a.entries
            else elim rest [ none ↦ none | some more ↦ some (a.entries ++ more) ]
      ]

-- The callbacks of states in which the directory reads the same: every call collects the entries,
-- and leads to such a state again.
pub record Steady {N E : Type 0} (client : ProtocolClient N E) (message : MountError E → Text)
    (pages id : ℕ) (entries : List FileInfo) (P : Callbacks N → Type 0) : Type 0 where
  pub again :
      (c : Callbacks N)
      → P c
      → (c' : Callbacks N) × (collect client message pages id 0 c ≡ some (ok entries, c')) × P c'

length-select :
    (q : FileInfo → Bool) (entries : List FileInfo) → length (select q entries) ≤ length entries
length-select q [] = omega arith
length-select q (e ∷ entries) = ground (arith, length-select q entries)

select-named :
    (entries : List FileInfo)
    → select (is_after []) entries ≡ select (λ e. not (is_empty e.name)) entries
unfolding is_after
select-named [] = refl
select-named (e ∷ entries) = ground (arith, select-named entries)

module _ {N E : Type 0} (client : ProtocolClient N E) (message : MountError E → Text)
    (fits : List FileInfo → Option FileInfo → Bool) (pages fs id : ℕ)
    (entries : List FileInfo) where
  go_read_directory-listed :
      (r : Registry N) (marker : Text) (c c' : Callbacks N)
      → Map.get r fs ≡ some c
      → collect client message pages id 0 c ≡ some (ok entries, c')
      → go_read_directory client message fits pages r fs id marker
        ≡ some (listed client message fits marker (ok entries), Map.insert r fs c')
  unfolding go_read_directory
  go_read_directory-listed r marker c c' at same = rw (at, go_read_directory) (rw same)

  shorter :
      (p : List FileInfo) (e : FileInfo) (q after : List FileInfo) (calls : ℕ)
      → after ≡ p ++ (e ∷ q)
      → fits [] (some e) ≡ true
      → fits p (some e) ≡ false
      → length after < suc calls
      → length (e ∷ q) < calls
  shorter [] e q after calls split room full few = absurd (ground arith)
  shorter (x ∷ p) e q after calls split room full few =
      omega (arith, ap length split, length-append p (e ∷ q))

  -- Where the mark does not fit, there is an entry before it.
  unmarked :
      (found : List FileInfo) (calls : ℕ)
      → fits [] none ≡ true
      → fits found none ≡ false
      → length found < suc calls
      → 0 < calls
  unmarked [] calls room full few = absurd (ground arith)
  unmarked (x ∷ found) calls room full few = omega arith

  module _ (P : Callbacks N → Type 0) where
    enumerate-from :
        Steady client message pages id entries P
        → IsAscending entries
        → ((e : Option FileInfo) → fits [] e ≡ true)
        → (calls : ℕ) (r : Registry N) (marker : Text) (c : Callbacks N) → Map.get r fs ≡ some c
        → P c
        → length (select (is_after marker) entries) < calls
        → enumerate client message fits pages fs id calls r marker
          ≡ some (select (is_after marker) entries)
    unfolding enumerate listed
    enumerate-from steady up room zero r marker c at p few = absurd (omega arith)
    enumerate-from steady up room (suc calls) r marker c at p few =
        let (c', same, p') = steady.again c p in
        rw (go_read_directory-listed r marker c c' at same, enumerate)
          (elim (fill_buffer-Filled fits marker entries []) [
            | everything all end ↦
                elim (Bool-cases (fits (select (is_after marker) entries) none)) [
                  | inl marked ↦ rw (end, all, marked) refl
                  | inr full ↦
                      let found = select (is_after marker) entries in
                      let left : select (is_after (last_name found marker)) entries ≡ [] =
                        select-last_name marker entries found [] up (sym (append-nil found)) in
                      rw (end, all, full)
                        (rw
                          (enumerate-from steady up room calls (Map.insert r fs c')
                            (last_name found marker) c' (get-insert r fs c' fs ∙ ground arith) p'
                            (subst (λ (l : List FileInfo). length l < calls) (sym left)
                              (unmarked found calls (room none) full few)))
                          (ap some (ap₂ (λ l k. l ++ k) all left ∙ append-nil found)))
                ]
            | beginning done e q split full some_of more ↦
                let left : select (is_after (last_name done marker)) entries ≡ e ∷ q =
                  select-last_name marker entries done (e ∷ q) up split in
                rw (more, some_of)
                  (rw
                    (enumerate-from steady up room calls (Map.insert r fs c')
                      (last_name done marker) c' (get-insert r fs c' fs ∙ ground arith) p'
                      (subst (λ (l : List FileInfo). length l < calls) (sym left)
                        (shorter done e q _ calls split (room (some e)) full few)))
                    (ap some (ap₂ (λ l k. l ++ k) some_of left ∙ sym split)))
          ])

    -- A directory that stays as it is and has names that strictly ascend in lower case, listed by
    -- as many calls of goReadDirectory as it has entries and one more, where each call continues
    -- after the last name of the one before and an empty buffer has room for any entry and for the
    -- mark of the end: the calls reach the end, and list the entries that have a name, all of them
    -- in order and each once.
    pub enumerate_all :
        Steady client message pages id entries P
        → IsAscending entries
        → ((e : Option FileInfo) → fits [] e ≡ true)
        → (r : Registry N) (c : Callbacks N) → Map.get r fs ≡ some c
        → P c
        → enumerate client message fits pages fs id (suc (length entries)) r []
          ≡ some (select (λ e. not (is_empty e.name)) entries)
    enumerate_all steady up room r c at p =
        rw
          (enumerate-from steady up room (suc (length entries)) r [] c at p
            (omega (arith, length-select (is_after []) entries)))
          (ap some (select-named entries))
