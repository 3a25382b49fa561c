-- ===== src/Winfsp/Native/Markers.antt =====
-- internal/winfsp/dispatcher_native_windows.go: what goReadDirectory skips for a marker, and what it
-- puts into the buffer.
use net_drive.Prelude.{
  ◌≡◌, refl, sym, ap, ◌∙◌, subst, Bool, true, false, Option, some, List, [], ◌∷◌, ◌++◌, arith,
  select, Bool-cases, inl, inr,
}
use mathlib.Core.List.{append_assoc, append-nil}
use net_drive.Prelude.Text.{Text, is_empty, text_geb}
use net_drive.Backend.Profile.{to_lower}
use net_drive.Directory.Order.{Before, Before-trans, text_geb_refl, text_geb_total}
use net_drive.Mount.Defs.{FileInfo}
use net_drive.Winfsp.Native.Listing.{is_after, fill_buffer}

abbrev pub last_name : List FileInfo → Text → Text
last_name [] other = other
last_name (e ∷ entries) other = last_name entries e.name

-- Names in strictly ascending order of their lower case.
abbrev pub AllBelow : Text → List FileInfo → Type 0
AllBelow name [] = Unit
AllBelow name (e ∷ entries) = Before (to_lower name) (to_lower e.name) × AllBelow name entries

abbrev pub IsAscending : List FileInfo → Type 0
IsAscending [] = Unit
IsAscending (e ∷ entries) = AllBelow e.name entries × IsAscending entries

is_after-name : (marker : Text) (e : FileInfo) → is_after marker e ≡ true → is_empty e.name ≡ false
unfolding is_after
is_after-name marker e h = ground arith

is_after-Before :
    (marker : Text) (e : FileInfo)
    → is_after marker e ≡ true
    → is_empty marker ≡ false
    → Before (to_lower marker) (to_lower e.name)
unfolding is_after
is_after-Before marker e h k = ground arith

-- What does not come after a marker.
not-is_after :
    (marker : Text) (e : FileInfo)
    → is_empty marker ≡ false
    → text_geb (to_lower marker) (to_lower e.name) ≡ true
    → is_after marker e ≡ false
unfolding is_after
not-is_after marker e h k = ground arith

-- Behind an entry that comes after the marker, the entry's name is as good a marker.
is_after-eq :
    (marker : Text) (e y : FileInfo)
    → is_after marker e ≡ true
    → Before (to_lower e.name) (to_lower y.name)
    → is_after e.name y ≡ is_after marker y
unfolding is_after
is_after-eq marker e y h below =
    ground (arith, Before-trans (to_lower marker) (to_lower e.name) (to_lower y.name))

select-is_after-eq :
    (marker : Text) (e : FileInfo) (entries : List FileInfo)
    → is_after marker e ≡ true
    → AllBelow e.name entries
    → select (is_after e.name) entries ≡ select (is_after marker) entries
select-is_after-eq marker e [] h below = refl
select-is_after-eq marker e (y ∷ entries) h below =
    ground (arith, is_after-eq marker e y h below.0, select-is_after-eq marker e entries h below.1)

-- The first entry that comes after a marker.
select-first :
    (marker name : Text) (entries : List FileInfo) (e : FileInfo) (rest : List FileInfo)
    → AllBelow name entries
    → select (is_after marker) entries ≡ e ∷ rest
    → (is_after marker e ≡ true) × Before (to_lower name) (to_lower e.name)
select-first marker name [] e rest below h = absurd (ground arith)
select-first marker name (y ∷ entries) e rest below h = elim (Bool-cases (is_after marker y)) [
  | inl after ↦ ground arith
  | inr before ↦ select-first marker name entries e rest below.1 (ground arith)
]

select-next :
    (marker : Text) (entries : List FileInfo) (e : FileInfo) (rest : List FileInfo)
    → IsAscending entries
    → select (is_after marker) entries ≡ e ∷ rest
    → select (is_after e.name) entries ≡ rest
select-next marker [] e rest up h = absurd (ground arith)
select-next marker (y ∷ entries) e rest up h = elim (Bool-cases (is_after marker y)) [
  | inl after ↦
      let first : (y ≡ e) × (select (is_after marker) entries ≡ rest) = ground arith in
      let self = not-is_after y.name y (is_after-name marker y after) (text_geb_refl _) in
      subst (λ (x : FileInfo). select (is_after x.name) (y ∷ entries) ≡ rest) first.0
        (rw self (select-is_after-eq marker y entries after up.0 ∙ first.1))
  | inr before ↦
      let h' : select (is_after marker) entries ≡ e ∷ rest = ground arith in
      let (after, below) = select-first marker y.name entries e rest up.0 h' in
      let earlier =
        not-is_after e.name y (is_after-name marker e after)
          (text_geb_total (to_lower y.name) (to_lower e.name) below) in
      rw earlier (select-next marker entries e rest up.1 h')
]

-- After the last of the entries that come first, the others are left.
pub select-last_name :
    (marker : Text) (entries p rest : List FileInfo)
    → IsAscending entries
    → select (is_after marker) entries ≡ p ++ rest
    → select (is_after (last_name p marker)) entries ≡ rest
select-last_name marker entries [] rest up h = h
select-last_name marker entries (e ∷ p) rest up h =
    select-last_name e.name entries p rest up (select-next marker entries e (p ++ rest) up h)

-- What one call leaves in the buffer: all that come after the marker, or so many of them that the
-- next does not fit.
pub data Filled (fits : List FileInfo → Option FileInfo → Bool) (after out : List FileInfo)
    (r : List FileInfo × Bool) : Type 0 where
  everything : r.0 ≡ out ++ after → r.1 ≡ true → Filled fits after out r
  beginning :
      (p : List FileInfo) (e : FileInfo) (q : List FileInfo)
      → after ≡ p ++ (e ∷ q)
      → fits (out ++ p) (some e) ≡ false
      → r.0 ≡ out ++ p
      → r.1 ≡ false
      → Filled fits after out r

module _ (fits : List FileInfo → Option FileInfo → Bool) (marker : Text) where
  Filled-cons :
      (e : FileInfo) (after out : List FileInfo) (r : List FileInfo × Bool)
      → Filled fits after (out ++ (e ∷ [])) r
      → Filled fits (e ∷ after) out r
  Filled-cons e after out r (everything same end) =
      everything (same ∙ append_assoc out (e ∷ []) after) end
  Filled-cons e after out r (beginning p x q split full same end) =
      beginning (e ∷ p) x q (ap (λ l. e ∷ l) split)
        (subst (λ l. fits l (some x) ≡ false) (append_assoc out (e ∷ []) p) full)
        (same ∙ append_assoc out (e ∷ []) p) end

  pub fill_buffer-Filled :
      (entries out : List FileInfo)
      → Filled fits (select (is_after marker) entries) out (fill_buffer fits marker entries out)
  unfolding fill_buffer
  fill_buffer-Filled [] out = everything (sym (append-nil out)) refl
  fill_buffer-Filled (e ∷ entries) out = elim (Bool-cases (is_after marker e)) [
    | inl after ↦ elim (Bool-cases (fits out (some e))) [
      | inl room ↦
          rw (after, room) (Filled-cons e _ out _ (fill_buffer-Filled entries (out ++ (e ∷ []))))
      | inr full ↦
          rw (after, full)
            (beginning [] e (select (is_after marker) entries) refl
              (subst (λ l. fits l (some e) ≡ false) (sym (append-nil out)) full)
              (sym (append-nil out)) refl)
    ]
    | inr before ↦ rw before (fill_buffer-Filled entries out)
  ]
