-- ===== src/HashMap.antt =====
-- `std::collections::HashMap` as an association list with its latest binding first. The source
-- never relies on the iteration order.
pub mod Laws
pub mod Sizes
use secure_connect_connector.Base.{
  Bool, Key, List, Option, [], if◌then◌else◌, is_some, none, not, some, ◌==◌, ◌∷◌,
}

abbrev pub HashMap {ℓ κ} : Type ℓ → Type κ → Type (ℓ ⊔ κ)
HashMap K V = List (K × V)

-- `HashSet` is a map to the unit type.
abbrev pub HashSet {ℓ} : Type ℓ → Type ℓ
HashSet K = HashMap K (Unit {0})

module _ {ℓ κ} {K : Type ℓ} {V : Type κ} where
  unfoldable pub retain : (K → V → Bool) → HashMap K V → HashMap K V
  retain p [] = []
  retain p ((k, v) ∷ m) = if p k v then (k, v) ∷ retain p m else retain p m

  -- `for value in map.values_mut()`
  unfoldable pub map_values : (V → V) → HashMap K V → HashMap K V
  map_values f [] = []
  map_values f ((k, v) ∷ m) = (k, f v) ∷ map_values f m

  module _ ⦃key : Key K⦄ where
    unfoldable pub get : K → HashMap K V → Option V
    get k [] = none
    get k ((j, v) ∷ m) = if j == k then some v else get k m

    abbrev pub contains_key : K → HashMap K V → Bool
    contains_key k m = is_some (get k m)

    unfoldable pub remove : K → HashMap K V → HashMap K V
    remove k m = retain (λ j _. not (j == k)) m

    unfoldable pub insert : K → V → HashMap K V → HashMap K V
    unfolding remove
    insert k v m = (k, v) ∷ remove k m
