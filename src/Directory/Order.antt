-- ===== src/Directory/Order.antt =====
-- The order of names, and directories sorted by it.
use net_drive.Prelude.{◌≡◌, refl, true, false, arith, List, [], ◌∷◌, text_eq}
use net_drive.Prelude.Text.{Text, text_geb}
use net_drive.Protocol.{DirEntry}

pub text_geb_refl : (s : Text) → text_geb s s ≡ true
unfolding text_geb
text_geb_refl [] = refl
text_geb_refl (c ∷ s) = ground (arith, text_geb_refl s)

pub text_geb_trans :
    (s t u : Text) → text_geb s t ≡ true → text_geb t u ≡ true → text_geb s u ≡ true
unfolding text_geb
text_geb_trans s t [] h k = refl
text_geb_trans s [] (e ∷ u) h k = absurd (ground arith)
text_geb_trans [] (d ∷ t) (e ∷ u) h k = absurd (ground arith)
text_geb_trans (c ∷ s) (d ∷ t) (e ∷ u) h k = ground (arith, text_geb_trans s t u)

pub text_geb_antisym : (s t : Text) → text_geb s t ≡ true → text_geb t s ≡ true → s ≡ t
unfolding text_geb
text_geb_antisym [] [] h k = refl
text_geb_antisym [] (d ∷ t) h k = absurd (ground arith)
text_geb_antisym (c ∷ s) [] h k = absurd (ground arith)
text_geb_antisym (c ∷ s) (d ∷ t) h k = ground (arith, text_geb_antisym s t)

pub text_geb_total : (s t : Text) → text_geb s t ≡ false → text_geb t s ≡ true
unfolding text_geb
text_geb_total s [] h = absurd (ground arith)
text_geb_total [] (d ∷ t) h = refl
text_geb_total (c ∷ s) (d ∷ t) h = ground (arith, text_geb_total s t)

-- s comes strictly before t.
abbrev pub Before : Text → Text → Type 0
Before s t = text_geb s t ≡ false

abbrev pub AllAfter : Text → List DirEntry → Type 0
AllAfter name [] = Unit
AllAfter name (x ∷ entries) = Before name x.name × AllAfter name entries

-- Each name comes strictly before all that follow it.
abbrev pub IsSorted : List DirEntry → Type 0
IsSorted [] = Unit
IsSorted (x ∷ entries) = AllAfter x.name entries × IsSorted entries

pub Before-trans : (s t u : Text) → Before s t → Before t u → Before s u
Before-trans s t u h k = ground (
  arith,
  text_geb_trans t s u,
  text_geb_total s t h,
  text_geb_trans t u s,
  text_geb_total t u k,
  text_geb_trans s u t,
)

pub AllAfter-trans :
    (s t : Text) (entries : List DirEntry) → Before s t → AllAfter t entries → AllAfter s entries
AllAfter-trans s t [] h a = tt
AllAfter-trans s t (x ∷ entries) h a =
    (Before-trans s t x.name h a.0, AllAfter-trans s t entries h a.1)
