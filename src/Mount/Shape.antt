-- ===== src/Mount/Shape.antt =====
-- The results of NormalizeMountPath in internal/platform/windows/path.go.
use net_drive.Prelude.{
  none-ne-some, some-inj, ℕ, ◌≡◌, refl, sym, ap, subst, ◌∙◌, Bool, true, false, Option, none, some,
  List, [], ◌∷◌, ◌++◌, arith, eqb, if◌then◌else◌, ◌||◌, ◌==◌, ◌⊎◌, text_eq, Bool-cases, inl, inr,
  All,
}
use mathlib.Core.List.{reverse, reverse-cons, append-nil, append_assoc}
use net_drive.Prelude.Text.{Text, codes, slash, is_empty, has_prefix, trim_prefix, split, join}
use net_drive.Prelude.Text.Paths.{clean, clean_part, clean_parts}
use net_drive.Mount.Path.{
  backslash, to_slashes, trim_space, keep_parts, rooted, normalize_mount_path,
}

-- No byte of the text is c.
abbrev pub Lacks : ℕ → Text → Type 0
Lacks c s = All (λ d. eqb d c ≡ false) s

-- A name in a directory: not empty, `.` or `..`, and with no separator of either kind.
pub record IsName (part : Text) : Type 0 where
  pub filled : is_empty part ≡ false
  pub not_here : (part == codes ".") ≡ false
  pub not_up : (part == codes "..") ≡ false
  pub no_slash : Lacks slash part
  pub no_backslash : Lacks backslash part

to_slashes-Lacks : (s : Text) → Lacks backslash (to_slashes s)
unfolding to_slashes
to_slashes-Lacks [] = tt
to_slashes-Lacks (c ∷ s) = (ground arith, to_slashes-Lacks s)

push-Lacks :
    (d c : ℕ) (b : Bool) (parts : List Text)
    → (b ≡ false → eqb c d ≡ false)
    → All (Lacks d) parts
    → All (Lacks d) (
        if b
        then [] ∷ parts
        else (elim parts [ [] ↦ (c ∷ []) ∷ [] | part ∷ rest ↦ (c ∷ part) ∷ rest ]))
push-Lacks d c true parts h lacks = (tt, lacks)
push-Lacks d c false [] h lacks = ((h refl, tt), tt)
push-Lacks d c false (part ∷ rest) h lacks = ((h refl, lacks.0), lacks.1)

split-Lacks-slash : (s : Text) → All (Lacks slash) (split s)
unfolding split
split-Lacks-slash [] = (tt, tt)
split-Lacks-slash (c ∷ s) =
    push-Lacks slash c (eqb c slash) (split s) (λ e. e) (split-Lacks-slash s)

split-Lacks : (d : ℕ) (s : Text) → Lacks d s → All (Lacks d) (split s)
unfolding split
split-Lacks d [] h = (tt, tt)
split-Lacks d (c ∷ s) h = push-Lacks d c (eqb c slash) (split s) (λ e. h.0) (split-Lacks d s h.1)

trim_prefix-Lacks : (d : ℕ) (s : Text) → Lacks d s → Lacks d (trim_prefix s (slash ∷ []))
unfolding trim_prefix has_prefix
trim_prefix-Lacks d [] h = tt
trim_prefix-Lacks d (c ∷ s) h = elim (Bool-cases (eqb c slash)) [
  | inl e ↦ rw e h.1
  | inr e ↦ rw e h
]

-- One round of the loop over the parts, by its tests and the result of the other rounds.
keep_one :
    (part : Text) (kept : List Text) (b b' : Bool) (rest : Option (List Text))
    → (if b
        then rest
        else if b'
        then none
        else (elim rest [ none ↦ none | some l ↦ some (part ∷ l) ]))
      ≡ some kept
    → (rest ≡ some kept)
      ⊎ ((l : List Text) × (b ≡ false) × (b' ≡ false) × (rest ≡ some l) × (part ∷ l ≡ kept))
keep_one part kept true b' rest e = inl e
keep_one part kept false true rest e = absurd (none-ne-some e)
keep_one part kept false false none e = absurd (none-ne-some e)
keep_one part kept false false (some l) e = inr (l, refl, refl, refl, some-inj e)

IsName-of_tests :
    (part : Text)
    → (is_empty part || part == codes ".") ≡ false
    → (part == codes "..") ≡ false
    → Lacks slash part
    → Lacks backslash part
    → IsName part
IsName-of_tests part e e' h h' = record {
  filled = ground (arith, e);
  not_here = ground (arith, e);
  not_up = e';
  no_slash = h;
  no_backslash = h';
}

-- What the loop over the parts keeps.
keep_parts-IsName :
    (parts kept : List Text)
    → All (Lacks slash) parts
    → All (Lacks backslash) parts
    → keep_parts parts ≡ some kept
    → All IsName kept
unfolding keep_parts
keep_parts-IsName [] kept h h' e = subst (All IsName) (some-inj e) tt
keep_parts-IsName (part ∷ parts) kept h h' e =
    elim (keep_one part kept (is_empty part || part == codes ".") (part == codes "..")
      (keep_parts parts) e) [
        | inl rest ↦ keep_parts-IsName parts kept h.1 h'.1 rest
        | inr (l, tests, test, rest, made) ↦
            subst (All IsName) made
              (IsName-of_tests part tests test h.0 h'.0, keep_parts-IsName parts l h.1 h'.1 rest)
      ]

clean_part-IsName :
    (out : List Text) (part : Text) → IsName part → clean_part false out part ≡ part ∷ out
unfolding clean_part
clean_part-IsName out [] name = absurd (ground (arith, name.filled))
clean_part-IsName [] (c ∷ s) name = rw (name.not_here, name.not_up) refl
clean_part-IsName (top ∷ out) (c ∷ s) name = rw (name.not_here, name.not_up) refl

clean_parts-IsName :
    (out parts : List Text) → All IsName parts → clean_parts false out parts ≡ reverse out ++ parts
unfolding clean_parts
clean_parts-IsName out [] names = sym (append-nil (reverse out))
clean_parts-IsName out (part ∷ parts) names = rw (clean_part-IsName out part names.0) (
    clean_parts-IsName (part ∷ out) parts names.1
    ∙ ap (λ l. l ++ parts) (reverse-cons part out)
    ∙ append_assoc (reverse out) (part ∷ []) parts)

split-name :
    (s rest : Text) (parts : List Text) (p : Text)
    → Lacks slash s
    → split rest ≡ p ∷ parts
    → split (s ++ rest) ≡ (s ++ p) ∷ parts
unfolding split
split-name [] rest parts p h e = e
split-name (c ∷ s) rest parts p h e = rw (h.0, split-name s rest parts p h.1 e) refl

split-join :
    (part : Text) (parts : List Text)
    → All IsName (part ∷ parts)
    → split (join (part ∷ parts)) ≡ part ∷ parts
unfolding join split
split-join part [] names =
    subst (λ s. split s ≡ s ∷ []) (append-nil part) (split-name part [] [] [] names.0.no_slash refl)
split-join part (next ∷ parts) names =
    split-name part (slash ∷ join (next ∷ parts)) (next ∷ parts) [] names.0.no_slash
      (rw (split-join next parts names.1) refl)
    ∙ rw (append-nil part) refl

unrooted :
    (part : Text) (parts : List Text)
    → IsName part
    → has_prefix (join (part ∷ parts)) (slash ∷ []) ≡ false
unfolding has_prefix join
unrooted [] parts name = absurd (ground (arith, name.filled))
unrooted (c ∷ s) [] name = rw name.no_slash.0 refl
unrooted (c ∷ s) (next ∷ parts) name = rw name.no_slash.0 refl

join-filled :
    (part : Text) (parts : List Text) → IsName part → is_empty (join (part ∷ parts)) ≡ false
unfolding join
join-filled [] parts name = absurd (ground (arith, name.filled))
join-filled (c ∷ s) [] name = refl
join-filled (c ∷ s) (next ∷ parts) name = refl

rooted-IsName : (parts : List Text) → All IsName parts → rooted parts ≡ slash ∷ join parts
unfolding rooted clean join
rooted-IsName [] names = refl
rooted-IsName (part ∷ parts) names =
    rw
      (
        unrooted part parts names.0,
        split-join part parts names,
        clean_parts-IsName [] (part ∷ parts) names,
        join-filled part parts names.0,
      )
      refl

-- The two ways in which a path is made.
made_of_names :
    (b : Bool) (o : Option (List Text)) (path : Text)
    → ((parts : List Text) → o ≡ some parts → All IsName parts)
    → (if b then some (slash ∷ []) else (elim o [ none ↦ none | some parts ↦ some (rooted parts) ]))
      ≡ some path
    → (parts : List Text) × All IsName parts × (path ≡ slash ∷ join parts)
unfolding join
made_of_names true o path h e = ([], tt, sym (some-inj e))
made_of_names false none path h e = absurd (none-ne-some e)
made_of_names false (some parts) path h e =
    (parts, h parts refl, sym (some-inj e) ∙ rooted-IsName parts (h parts refl))

-- A path that NormalizeMountPath accepts becomes `/` and names joined by `/`: none of them is
-- empty, `.` or `..`, or has a separator of either kind in it, so the path never leads above the
-- root.
pub normalize_mount_path-IsName :
    (input path : Text)
    → normalize_mount_path input ≡ some path
    → (parts : List Text) × All IsName parts × (path ≡ slash ∷ join parts)
unfolding normalize_mount_path
normalize_mount_path-IsName input path e =
    let replaced = to_slashes (trim_space input) in
    let body = trim_prefix replaced (slash ∷ []) in
    made_of_names (is_empty replaced || replaced == codes ".") (keep_parts (split body)) path
      (λ parts kept.
        keep_parts-IsName (split body) parts (split-Lacks-slash body)
          (split-Lacks backslash body
            (trim_prefix-Lacks backslash replaced (to_slashes-Lacks (trim_space input))))
          kept)
      e
