-- ===== src/Prelude/Map.antt =====
-- Go's maps. The representation, a list of bindings, is seen only here: the other modules have
-- the laws, and run the operations in tests.
use Prim.Native.Nat.{ℕ}
use mathlib.Core.List.{List, [], ◌∷◌}
use net_drive.Prelude.Tests.{leb, if◌then◌else◌}
use net_drive.Prelude.Equality.{Eq, ◌==◌, ==_iff}
use mathlib.Core.Path.{◌≡◌, refl}
use mathlib.Core.Option.{Option, none, some}
use native.Mathlib.Omega.{arith}

pub data Map {ℓ κ} (K : Type ℓ) (V : Type κ) : Type (ℓ ⊔ κ) where
  empty : Map K V
  binding : K → V → Map K V → Map K V

module _ {ℓ κ} {K : Type ℓ} {V : Type κ} ⦃e : Eq K⦄ where
  -- v, ok := m[k]
  unfoldable pub get : Map K V → K → Option V
  get empty k = none
  get (binding j v rest) k = if j == k then some v else get rest k

  -- delete(m, k)
  unfoldable pub delete : Map K V → K → Map K V
  delete empty k = empty
  delete (binding j v rest) k =
      let others = delete rest k in if j == k then others else binding j v others

  -- m[k] = v
  unfoldable pub insert : Map K V → K → V → Map K V
  unfolding delete
  insert m k v = binding k v (delete m k)

  pub get-empty : (k : K) → get empty k ≡ none
  unfolding get
  get-empty k = refl

  pub get-delete : (m : Map K V) (k j : K) → get (delete m k) j ≡ (if k == j then none else get m j)
  unfolding get delete
  get-delete empty k j = ground arith
  get-delete (binding i v rest) k j =
      ground (arith, get-delete rest k j, ==_iff i k, ==_iff i j, ==_iff k j)

  pub get-insert :
      (m : Map K V) (k : K) (v : V) (j : K)
      → get (insert m k v) j ≡ (if k == j then some v else get m j)
  unfolding get insert
  get-insert m k v j = simp get-delete (ground arith)

pub ruleset map_laws = (get-empty, get-insert, get-delete)

-- the keys, in the order of the representation, where Go's range has any order
unfoldable pub keys {ℓ κ} : {K : Type ℓ} {V : Type κ} → Map K V → List K
keys empty = []
keys (binding k v rest) = k ∷ keys rest

-- slices.Sort of numbers
unfoldable pub insert_key : ℕ → List ℕ → List ℕ
insert_key n [] = n ∷ []
insert_key n (m ∷ l) = let rest = insert_key n l in if leb n m then n ∷ m ∷ l else m ∷ rest

unfoldable pub sort_keys : List ℕ → List ℕ
unfolding insert_key
sort_keys [] = []
sort_keys (n ∷ l) = insert_key n (sort_keys l)
