-- ===== src/HashMap/Sizes.antt =====
-- How the size of a map changes.
use secure_connect_connector.Base.{
  Bool, Key, [], arith, length, not, true, ◌+◌, ◌<◌, ◌==◌, ◌∷◌, ◌≡◌, ◌≤◌,
}
use secure_connect_connector.HashMap.{HashMap, contains_key, get, insert, remove, retain}

module _ {ℓ κ} {K : Type ℓ} {V : Type κ} where
  pub length-retain-le : (p : K → V → Bool) (m : HashMap K V) → length (retain p m) ≤ length m
  unfolding retain
  length-retain-le p [] = omega arith
  length-retain-le p ((k, v) ∷ m) = ground (arith, length-retain-le p m)

  module _ ⦃key : Key K⦄ where
    pub length-remove-le : (k : K) (m : HashMap K V) → length (remove k m) ≤ length m
    unfolding remove
    length-remove-le k m = length-retain-le _ m

    pub length-remove-lt :
        (k : K) (m : HashMap K V) → contains_key k m ≡ true → length (remove k m) < length m
    unfolding get remove retain
    length-remove-lt k [] h = cc
    length-remove-lt k ((i, v) ∷ m) h =
        ground (arith, length-remove-lt k m, length-retain-le (λ (j : K) (w : V). not (j == k)) m)

    pub length-insert-le : (k : K) (v : V) (m : HashMap K V) → length (insert k v m) ≤ length m + 1
    unfolding insert
    length-insert-le k v m = omega (arith, length-remove-le k m)

    pub length-insert_present :
        (k : K) (v : V) (m : HashMap K V)
        → contains_key k m ≡ true
        → length (insert k v m) ≤ length m
    unfolding insert
    length-insert_present k v m h = omega (arith, length-remove-lt k m h)
