-- ===== src/Directory/Paging.antt =====
-- ReadDir of internal/server/metadata_backend.go, for a client that follows NextCookie until EOF.
use net_drive.Prelude.{
  ℕ, zero, suc, ◌-◌, ◌^◌, ◌≤◌, ◌<◌, ◌≡◌, refl, sym, ap, ◌∙◌, arith, leb, List, [], ◌∷◌, ◌++◌,
  if◌then◌else◌, length, take, drop, take-append-drop, Bool-cases, inl, inr,
}
use net_drive.Protocol.{DirEntry}
use net_drive.Directory.{read_page}

-- The entries of the pages from `cookie` on, with fuel for the number of calls.
unfoldable pub read_all : ℕ → List DirEntry → ℕ → ℕ → List DirEntry
read_all zero entries cookie max_entries = []
read_all (suc fuel) entries cookie max_entries =
    let page = read_page entries cookie max_entries in
    let rest = read_all fuel entries page.next_cookie max_entries in
    page.entries ++ (if page.eof then [] else rest)

drop-take-append-drop {ℓ} :
    {A : Type ℓ} (m n : ℕ) (xs : List A) → m ≤ n → drop m (take n xs) ++ drop n xs ≡ drop m xs
drop-take-append-drop zero n xs h = take-append-drop n xs
drop-take-append-drop (suc m) zero xs h = absurd (omega arith)
drop-take-append-drop (suc m) (suc n) [] h = refl
drop-take-append-drop (suc m) (suc n) (x ∷ xs) h = drop-take-append-drop m n xs (omega arith)

drop_all {ℓ} : {A : Type ℓ} (n : ℕ) (xs : List A) → length xs ≤ n → drop n xs ≡ []
drop_all zero [] h = refl
drop_all zero (x ∷ xs) h = absurd (omega arith)
drop_all (suc n) [] h = refl
drop_all (suc n) (x ∷ xs) h = drop_all n xs (omega arith)

module _ (entries : List DirEntry) (cookie max_entries : ℕ) (le : cookie ≤ length entries)
    (small : length entries < 2 ^ 63) where
  page_entries :
      (read_page entries cookie max_entries).entries
      ≡ drop cookie (take (read_page entries cookie max_entries).next_cookie entries)
  unfolding read_page
  page_entries =
      ap (λ k. drop k (take (read_page entries cookie max_entries).next_cookie entries))
        (ground arith)

  -- A page ends within the directory, and moves on unless the cookie is at the end.
  next_cookie_bounds :
      (cookie ≤ (read_page entries cookie max_entries).next_cookie)
      × ((read_page entries cookie max_entries).next_cookie ≤ length entries)
      × (cookie < length entries → cookie < (read_page entries cookie max_entries).next_cookie)
  unfolding read_page
  next_cookie_bounds = ground arith

  eof_lem :
      (read_page entries cookie max_entries).eof
      ≡ leb (length entries) (read_page entries cookie max_entries).next_cookie
  unfolding read_page
  eof_lem = refl

-- Following NextCookie from any cookie within the directory returns, in order and each once, the
-- entries from that cookie on; one call for each entry is enough, and one call more.
pub read_all_lem :
    (fuel : ℕ) (entries : List DirEntry) (cookie max_entries : ℕ)
    → cookie ≤ length entries
    → length entries < 2 ^ 63
    → length entries - cookie < fuel
    → read_all fuel entries cookie max_entries ≡ drop cookie entries
unfolding read_all
read_all_lem zero entries cookie max_entries le small enough = absurd (omega arith)
read_all_lem (suc fuel) entries cookie max_entries le small enough =
    let next = (read_page entries cookie max_entries).next_cookie in
    let bounds = next_cookie_bounds entries cookie max_entries le small in
    rw (page_entries entries cookie max_entries le small)
      (elim (Bool-cases (leb (length entries) next)) [
        | inl last ↦
            rw (eof_lem entries cookie max_entries le small, last)
              (ap (◌++◌ (drop cookie (take next entries)))
                  (sym (drop_all next entries (ground arith)))
                ∙ drop-take-append-drop cookie next entries bounds.0)
        | inr more ↦
            rw (eof_lem entries cookie max_entries le small, more)
              (ap (◌++◌ (drop cookie (take next entries))) (
                  read_all_lem fuel entries next max_entries bounds.1 small
                    (ground (arith, bounds.0, bounds.2)))
                ∙ drop-take-append-drop cookie next entries bounds.0)
      ])
