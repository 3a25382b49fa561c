-- ===== src/Winclient/Store/Maps.antt =====
-- internal/winclientstore/store.go: the profiles of a state that is normalised.
use net_drive.Prelude.{
  ◌≡◌, refl, sym, ap, ◌∙◌, subst, false, Option, none, some, some-inj, none-ne-some, Bool-cases,
  inl, inr, ◌==◌, ==_iff, text_eq, All,
}
use net_drive.Prelude.Map.{Map, empty, binding, get, insert, keys, get-insert}
use net_drive.Prelude.Text.{Text, is_empty}
use net_drive.Mount.Path.{trim_space}
use net_drive.Winclient.{Config, normalized}
use net_drive.Winclient.Normal.{normalized-again, trim_space-again}
use net_drive.Winclient.Store.{Libraries, normalize_profiles}

-- What holds of a binding that is found in a map.
abbrev pub Found : (Text → Config → Type 0) → Map Text Config → Type 0
Found P m = (k : Text) (c : Config) → get m k ≡ some c → P k c

pub Found-empty : (P : Text → Config → Type 0) → Found P empty
unfolding get
Found-empty P k c h = absurd (none-ne-some h)

pub Found-insert :
    {P : Text → Config → Type 0} (m : Map Text Config) (k : Text) (c : Config)
    → P k c
    → Found P m
    → Found P (insert m k c)
Found-insert {P = P} m k c p hm j c' h = elim (Bool-cases (k == j)) [
  | inl e ↦
      subst (λ i. P i c') ((==_iff k j).0 e)
        (subst (P k) (some-inj (sym (rw e at (get-insert m k c j)) ∙ h)) p)
  | inr e ↦ hm j c' (sym (rw e at (get-insert m k c j)) ∙ h)
]

-- A name that is trimmed, and a configuration that is normalised.
abbrev pub IsName : Text → Type 0
IsName k = (trim_space k ≡ k) × (is_empty k ≡ false)

get-here : (k : Text) (c : Config) (rest : Map Text Config) → get (binding k c rest) k ≡ some c
unfolding get
get-here k c rest = rw ((==_iff k k).1 refl) refl

-- A binding that is found under each key says something of all the keys.
All-keys : {P : Text → Type 0} (m : Map Text Config) → Found (λ k c. P k) m → All P (keys m)
unfolding keys get
All-keys empty h = tt
All-keys {P = P} (binding k c rest) h = (
  h k c (get-here k c rest),
  All-keys rest (λ j c' e. elim (Bool-cases (k == j)) [
    | inl same ↦ subst P ((==_iff k j).0 same) (h k c (get-here k c rest))
    | inr other ↦ h j c' (rw other e)
  ]),
)

IsName-trim_space : (k : Text) → is_empty (trim_space k) ≡ false → IsName (trim_space k)
IsName-trim_space k h = (trim_space-again k, h)

on_found :
    {f : Config → Config} (o : Option Config)
    → ((c : Config) → o ≡ some c → f c ≡ c)
    → elim o [ none ↦ none | some c ↦ some (f c) ] ≡ o
on_found none h = refl
on_found (some c) h = ap some (h c refl)

module _ {D X : Type 0} (lib : Libraries D X) where
  abbrev pub IsNormal : Map Text Config → Type 0
  IsNormal = Found (λ k c. IsName k × (normalized lib.default_mount_point c ≡ c))

  pub normalize_profiles-IsNormal : (m : Map Text Config) → IsNormal (normalize_profiles lib m)
  unfolding normalize_profiles
  normalize_profiles-IsNormal empty = Found-empty _
  normalize_profiles-IsNormal (binding k c rest) = elim (Bool-cases (is_empty (trim_space k))) [
    | inl e ↦ rw e (normalize_profiles-IsNormal rest)
    | inr e ↦ rw e (
        Found-insert (normalize_profiles lib rest) (trim_space k)
          (normalized lib.default_mount_point c)
          (IsName-trim_space k e, normalized-again lib.default_mount_point c)
          (normalize_profiles-IsNormal rest))
  ]

  -- The loop over names that are trimmed normalises what is found under each of them.
  get-normalize_profiles :
      (m : Map Text Config) (k : Text)
      → All IsName (keys m)
      → get (normalize_profiles lib m) k
        ≡ elim (get m k) [ none ↦ none | some c ↦ some (normalized lib.default_mount_point c) ]
  unfolding normalize_profiles get keys
  get-normalize_profiles empty k names = refl
  get-normalize_profiles (binding j c rest) k ((trimmed, filled), names) =
      let c' = normalized lib.default_mount_point c in
      let more = get-normalize_profiles rest k names in
      rw (trimmed, filled)
        (get-insert (normalize_profiles lib rest) j c' k
          ∙ elim (Bool-cases (j == k)) [ inl e ↦ rw e refl | inr e ↦ rw e more ])

  -- Normalising profiles that are normal keeps what is found under each name.
  pub get-normalize_profiles-IsNormal :
      (m : Map Text Config) (k : Text) → IsNormal m → get (normalize_profiles lib m) k ≡ get m k
  get-normalize_profiles-IsNormal m k h =
      get-normalize_profiles m k (All-keys m (λ j c e. (h j c e).0))
      ∙ on_found (get m k) (λ c e. (h k c e).1)
