-- ===== src/Winclient/Normal.antt =====
-- internal/winclient/config.go: normalising a configuration again changes nothing.
use net_drive.Prelude.{
  ℕ, ◌≡◌, refl, true, false, [], ◌∷◌, eqb, leb, Bool-cases, inl, inr, if◌then◌else◌, text_eq, ap₂,
  arith, ◌==◌, ◌||◌, ◌&&◌, ap, ◌∙◌, sym, length, ◌≤◌, ◌+◌, ◌⊎◌, text_beq,
}
use net_drive.Prelude.Text.{Text, codes, slash, is_empty, has_prefix}
use net_drive.Backend.Profile.{to_lower}
use net_drive.Mount.Path.{trim_space, skip_space, drop_space, is_space}
use net_drive.Winclient.Checks.{is_blank-or_default, is_blank-rooted_path, has_prefix-rooted_path}
use net_drive.Winclient.{
  Config, is_blank, or_default, or_number, default_config, rooted_path, normalized,
  normalize_host_backend, normalize_mount_point, drive_of, is_alpha, all_separators, to_upper,
  colon,
}

skip_space-again : (s : Text) → skip_space (skip_space s) ≡ skip_space s
unfolding skip_space
skip_space-again [] = refl
skip_space-again (c ∷ s) = elim (Bool-cases (is_space c)) [
  | inl e ↦ rw e (skip_space-again s)
  | inr e ↦ rw (e, e)
]

-- one character before a text of which the end is trimmed
abbrev drop_before : ℕ → Text → Text
drop_before c = elim [ [] ↦ if is_space c then [] else c ∷ [] | d ∷ t ↦ c ∷ d ∷ t ]

drop_before-again :
    (c : ℕ) (t : Text) → drop_space t ≡ t → drop_space (drop_before c t) ≡ drop_before c t
unfolding drop_space
drop_before-again c [] h = elim (Bool-cases (is_space c)) [ inl e ↦ rw e | inr e ↦ rw (e, e) ]
drop_before-again c (d ∷ t) h = λ i. drop_before c (h i)

drop_space-again : (s : Text) → drop_space (drop_space s) ≡ drop_space s
unfolding drop_space
drop_space-again [] = refl
drop_space-again (c ∷ s) = drop_before-again c (drop_space s) (drop_space-again s)

-- What begins with no space still does after the end is trimmed.
skip-before :
    (c : ℕ) (t : Text) → is_space c ≡ false → skip_space (drop_before c t) ≡ drop_before c t
unfolding skip_space
skip-before c [] h = rw (h, h)
skip-before c (d ∷ t) h = rw h

length-skip_space : (s : Text) → length (skip_space s) ≤ length s
unfolding skip_space
length-skip_space [] = omega arith
length-skip_space (c ∷ s) = elim (Bool-cases (is_space c)) [
  | inl e ↦ rw e (omega (arith, length-skip_space s))
  | inr e ↦ rw e (omega arith)
]

skip_space-shorter : (c : ℕ) (s : Text) → is_space c ≡ true → skip_space s ≡ c ∷ s → ⊥
skip_space-shorter c s e h = absurd (omega (arith, ap length h, length-skip_space s))

skip_space-drop_space : (s : Text) → skip_space s ≡ s → skip_space (drop_space s) ≡ drop_space s
unfolding drop_space skip_space
skip_space-drop_space [] h = refl
skip_space-drop_space (c ∷ s) h = elim (Bool-cases (is_space c)) [
  | inl e ↦ absurd (skip_space-shorter c s e (rw e at h))
  | inr e ↦ skip-before c (drop_space s) e
]

pub trim_space-again : (s : Text) → trim_space (trim_space s) ≡ trim_space s
unfolding trim_space
trim_space-again s =
    ap drop_space (skip_space-drop_space (skip_space s) (skip_space-again s))
    ∙ drop_space-again (skip_space s)

-- strings.ToLower moves no space.
lower : ℕ → ℕ
lower c = if leb 65 c && leb c 90 then c + 32 else c

is_space-lower : (c : ℕ) → is_space (lower c) ≡ is_space c
unfolding is_space lower
is_space-lower c = ground arith

lower-again : (c : ℕ) → lower (lower c) ≡ lower c
unfolding lower
lower-again c = ground arith

to_lower-again : (s : Text) → to_lower (to_lower s) ≡ to_lower s
unfolding to_lower lower
to_lower-again [] = refl
to_lower-again (c ∷ s) = ap₂ (λ a t. a ∷ t) (lower-again c) (to_lower-again s)

to_lower-skip_space : (s : Text) → to_lower (skip_space s) ≡ skip_space (to_lower s)
unfolding to_lower skip_space lower
to_lower-skip_space [] = refl
to_lower-skip_space (c ∷ s) = elim (Bool-cases (is_space c)) [
  | inl e ↦ rw (e, is_space-lower c ∙ e) (to_lower-skip_space s)
  | inr e ↦ rw (e, is_space-lower c ∙ e) refl
]

to_lower-drop_before :
    (c : ℕ) (t : Text) → to_lower (drop_before c t) ≡ drop_before (lower c) (to_lower t)
unfolding to_lower lower
to_lower-drop_before c [] = elim (Bool-cases (is_space c)) [
  | inl e ↦ rw (e, is_space-lower c ∙ e) refl
  | inr e ↦ rw (e, is_space-lower c ∙ e) refl
]
to_lower-drop_before c (d ∷ t) = refl

to_lower-drop_space : (s : Text) → to_lower (drop_space s) ≡ drop_space (to_lower s)
unfolding to_lower drop_space lower
to_lower-drop_space [] = refl
to_lower-drop_space (c ∷ s) =
    to_lower-drop_before c (drop_space s) ∙ ap (drop_before (lower c)) (to_lower-drop_space s)

to_lower-trim_space : (s : Text) → to_lower (trim_space s) ≡ trim_space (to_lower s)
unfolding trim_space
to_lower-trim_space s = to_lower-drop_space (skip_space s) ∙ ap drop_space (to_lower-skip_space s)

-- NormalizeHostBackend on a text in lower case with no space around it.
abbrev or_auto : Text → Text
or_auto v = if is_empty v || v == codes "auto" then codes "auto" else v

to_lower-or_auto : (v : Text) → to_lower v ≡ v → to_lower (or_auto v) ≡ or_auto v
unfolding to_lower
to_lower-or_auto v h = elim (Bool-cases (is_empty v || v == codes "auto")) [
  | inl e ↦ rw e refl
  | inr e ↦ rw e h
]

trim_space-or_auto : (v : Text) → trim_space v ≡ v → trim_space (or_auto v) ≡ or_auto v
unfolding trim_space skip_space drop_space is_space
trim_space-or_auto v h = elim (Bool-cases (is_empty v || v == codes "auto")) [
  | inl e ↦ rw e refl
  | inr e ↦ rw e h
]

or_auto-again : (v : Text) → or_auto (or_auto v) ≡ or_auto v
unfolding text_beq
or_auto-again v = elim (Bool-cases (is_empty v || v == codes "auto")) [
  | inl e ↦ rw e refl
  | inr e ↦ rw (e, e) refl
]

normalize_host_backend-again :
    (s : Text) → normalize_host_backend (normalize_host_backend s) ≡ normalize_host_backend s
unfolding normalize_host_backend
normalize_host_backend-again s =
    let v = trim_space (to_lower s) in
    ap or_auto (
      ap trim_space
        (to_lower-or_auto v (to_lower-trim_space (to_lower s) ∙ ap trim_space (to_lower-again s)))
      ∙ trim_space-or_auto v (trim_space-again (to_lower s)))
    ∙ or_auto-again v

or_default-again : (s d : Text) → or_default (or_default s d) d ≡ or_default s d
unfolding or_default
or_default-again s d = elim (Bool-cases (is_blank s)) [
  | inl e ↦ rw e (elim (Bool-cases (is_blank d)) [ inl b ↦ rw b | inr b ↦ rw b ])
  | inr e ↦ rw (e, e)
]

or_number-again : (n d : ℕ) → or_number (or_number n d) d ≡ or_number n d
unfolding or_number
or_number-again n d = ground arith

-- A drive letter.
is_alpha-to_upper :
    (c : ℕ)
    → is_alpha c ≡ true
    → (is_alpha (to_upper c) ≡ true)
      × (to_upper (to_upper c) ≡ to_upper c)
      × (is_space (to_upper c) ≡ false)
unfolding is_alpha to_upper is_space
is_alpha-to_upper c h = (ground arith, ground arith, ground arith)

-- What NormalizeMountPoint makes of a trimmed text: the same, or a drive.
drive_of-cases :
    (t : Text)
    → (drive_of t ≡ t) ⊎ ((c : ℕ) × (is_alpha c ≡ true) × (drive_of t ≡ to_upper c ∷ colon ∷ []))
unfolding drive_of
drive_of-cases [] = inl refl
drive_of-cases (c ∷ []) = inl refl
drive_of-cases (c ∷ k ∷ rest) =
    elim (Bool-cases (is_alpha c && eqb k colon && all_separators rest)) [
      | inl e ↦ inr (c, ground arith, rw e)
      | inr e ↦ inl (rw e)
    ]

trim_space-drive : (u : ℕ) → is_space u ≡ false → trim_space (u ∷ colon ∷ []) ≡ u ∷ colon ∷ []
unfolding trim_space skip_space drop_space
trim_space-drive u e = rw e refl

drive_of-drive : (c : ℕ) → is_alpha c ≡ true → drive_of (c ∷ colon ∷ []) ≡ to_upper c ∷ colon ∷ []
unfolding drive_of all_separators
drive_of-drive c h = rw h refl

-- A drive is its own normal form.
normalize_mount_point-drive :
    (c : ℕ)
    → is_alpha c ≡ true
    → normalize_mount_point (to_upper c ∷ colon ∷ []) ≡ to_upper c ∷ colon ∷ []
unfolding normalize_mount_point
normalize_mount_point-drive c h =
    let (alpha, again, space) = is_alpha-to_upper c h in
    ap drive_of (trim_space-drive (to_upper c) space)
    ∙ drive_of-drive (to_upper c) alpha
    ∙ ap (λ u. u ∷ colon ∷ []) again

normalize_mount_point-cases :
    (s : Text)
    → (normalize_mount_point s ≡ trim_space s)
      ⊎ ((c : ℕ) × (is_alpha c ≡ true) × (normalize_mount_point s ≡ to_upper c ∷ colon ∷ []))
unfolding normalize_mount_point
normalize_mount_point-cases s = drive_of-cases (trim_space s)

pub normalize_mount_point-again :
    (s : Text) → normalize_mount_point (normalize_mount_point s) ≡ normalize_mount_point s
unfolding normalize_mount_point
normalize_mount_point-again s = elim (normalize_mount_point-cases s) [
  | inl e ↦ ap normalize_mount_point e ∙ ap drive_of (trim_space-again s)
  | inr (c, h, e) ↦ ap normalize_mount_point e ∙ normalize_mount_point-drive c h ∙ sym e
]

is_blank-normalize_mount_point :
    (s : Text) → is_blank s ≡ false → is_blank (normalize_mount_point s) ≡ false
unfolding is_blank
is_blank-normalize_mount_point s b = elim (normalize_mount_point-cases s) [
  | inl e ↦ ap is_blank e ∙ ap is_empty (trim_space-again s) ∙ b
  | inr (c, h, e) ↦
      let (_, _, space) = is_alpha-to_upper c h in
      ap is_blank e ∙ ap is_empty (trim_space-drive (to_upper c) space)
]

or_default-cases :
    (s d : Text)
    → ((is_blank s ≡ true) × (or_default s d ≡ d)) ⊎ ((is_blank s ≡ false) × (or_default s d ≡ s))
unfolding or_default
or_default-cases s d = elim (Bool-cases (is_blank s)) [
  | inl e ↦ inl (e, rw e refl)
  | inr e ↦ inr (e, rw e refl)
]

-- A default is filled in only once.
filled_mount_point-again :
    (s d : Text)
    → normalize_mount_point (or_default (normalize_mount_point (or_default s d)) d)
      ≡ normalize_mount_point (or_default s d)
filled_mount_point-again s d =
    let m = normalize_mount_point (or_default s d) in
    elim (or_default-cases m d) [
      | inr (_, e) ↦ ap normalize_mount_point e ∙ normalize_mount_point-again (or_default s d)
      | inl (b, e) ↦ elim (or_default-cases s d) [
        | inl (_, e') ↦ ap normalize_mount_point (e ∙ sym e')
        | inr (b', e') ↦ absurd (
            cc (
              sym (ap is_blank (ap normalize_mount_point e') ∙ is_blank-normalize_mount_point s b')
              ∙ b))
      ]
    ]

or_default-filled : (s d : Text) → is_blank s ≡ false → or_default s d ≡ s
unfolding or_default
or_default-filled s d h = rw h refl

rooted_path-rooted : (s : Text) → has_prefix s (slash ∷ []) ≡ true → rooted_path s ≡ s
unfolding rooted_path
rooted_path-rooted s h = rw h refl

rooted_path-again : (s : Text) → rooted_path (rooted_path s) ≡ rooted_path s
rooted_path-again s = rooted_path-rooted (rooted_path s) (has_prefix-rooted_path s)

filled_path-again :
    (s d : Text)
    → is_blank d ≡ false
    → rooted_path (or_default (rooted_path (or_default s d)) d) ≡ rooted_path (or_default s d)
filled_path-again s d h =
    ap rooted_path (
      or_default-filled (rooted_path (or_default s d)) d
        (is_blank-rooted_path (or_default s d) (is_blank-or_default s d h)))
    ∙ rooted_path-again (or_default s d)

-- Normalising a configuration that is normalised already changes nothing, whatever the mount point
-- of the defaults is.
pub normalized-again :
    (default_mount_point : Text) (c : Config)
    → normalized default_mount_point (normalized default_mount_point c)
      ≡ normalized default_mount_point c
unfolding normalized default_config
normalized-again m c =
    let d = default_config m in
    λ i. record {
      addr = or_default-again c.addr d.addr i;
      token = or_default-again c.token d.token i;
      client_instance_id = or_default-again c.client_instance_id d.client_instance_id i;
      lease_seconds = or_number-again c.lease_seconds 30 i;
      mount_point = filled_mount_point-again c.mount_point m i;
      volume_prefix = or_default-again c.volume_prefix d.volume_prefix i;
      path = filled_path-again c.path d.path refl i;
      local_path = or_default-again c.local_path d.local_path i;
      host_backend = normalize_host_backend-again c.host_backend i;
      length = or_number-again c.length 64 i;
      max_entries = or_number-again c.max_entries 32 i;
    }
