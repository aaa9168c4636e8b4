-- ===== src/HashMap/Laws.antt =====
-- What a lookup sees after each change of a map.
use secure_connect_connector.Base.{
  Bool, Key, Option, [], arith, if◌then◌else◌, none, refl, some, ◌==◌, ◌∷◌, ◌≡◌,
}
use secure_connect_connector.HashMap.{HashMap, get, insert, map_values, remove, retain}

module _ {ℓ κ} {K : Type ℓ} {V : Type κ} ⦃key : Key K⦄ where
  -- Each key is bound at most once.
  abbrev pub IsUnique : HashMap K V → Type κ
  IsUnique [] = Unit
  IsUnique ((k, v) ∷ m) = (get k m ≡ none) × IsUnique m

  pub get-remove :
      (k j : K) (m : HashMap K V) → get j (remove k m) ≡ (if k == j then none else get j m)
  unfolding get remove retain
  get-remove k j [] = ground arith
  get-remove k j ((i, v) ∷ m) = ground (arith, get-remove k j m)

  pub get-insert :
      (k j : K) (v : V) (m : HashMap K V)
      → get j (insert k v m) ≡ (if k == j then some v else get j m)
  unfolding get insert
  get-insert k j v m = ground (arith, get-remove k j m)

  pub retain-none :
      (p : K → V → Bool) (k : K) (m : HashMap K V) → get k m ≡ none → get k (retain p m) ≡ none
  unfolding get retain
  retain-none p k [] h = refl
  retain-none p k ((i, v) ∷ m) h = ground (arith, retain-none p k m)

  abbrev keep_if : (K → V → Bool) → K → Option V → Option V
  keep_if p k none = none
  keep_if p k (some v) = if p k v then some v else none

  pub get-retain :
      (p : K → V → Bool) (k : K) (m : HashMap K V)
      → IsUnique m
      → get k (retain p m) ≡ keep_if p k (get k m)
  unfolding get retain
  get-retain p k [] u = refl
  get-retain p k ((i, v) ∷ m) u = ground (arith, get-retain p k m, retain-none p i m)

  pub retain-IsUnique : (p : K → V → Bool) (m : HashMap K V) → IsUnique m → IsUnique (retain p m)
  unfolding retain
  retain-IsUnique p [] u = tt
  retain-IsUnique p ((i, v) ∷ m) u = ground (arith, retain-IsUnique p m, retain-none p i m)

  pub remove-IsUnique : (k : K) (m : HashMap K V) → IsUnique m → IsUnique (remove k m)
  unfolding remove
  remove-IsUnique k m u = retain-IsUnique _ m u

  pub insert-IsUnique : (k : K) (v : V) (m : HashMap K V) → IsUnique m → IsUnique (insert k v m)
  unfolding insert
  insert-IsUnique k v m u = ground (arith, get-remove k k m, remove-IsUnique k m u)

  pub get-map_values :
      (f : V → V) (k : K) (m : HashMap K V)
      → get k (map_values f m) ≡ elim (get k m) [ none ↦ none | some v ↦ some (f v) ]
  unfolding get map_values
  get-map_values f k [] = refl
  get-map_values f k ((i, v) ∷ m) = ground (arith, get-map_values f k m)

  pub map_values-IsUnique : (f : V → V) (m : HashMap K V) → IsUnique m → IsUnique (map_values f m)
  unfolding map_values
  map_values-IsUnique f [] u = tt
  map_values-IsUnique f ((i, v) ∷ m) u =
      ground (arith, get-map_values f i m, map_values-IsUnique f m u.1)

  pub get-retain_keys :
      (p : K → Bool) (k : K) (m : HashMap K V)
      → get k (retain (λ j _. p j) m) ≡ (if p k then get k m else none)
  unfolding get retain
  get-retain_keys p k [] = ground arith
  get-retain_keys p k ((i, v) ∷ m) = ground (arith, get-retain_keys p k m)
