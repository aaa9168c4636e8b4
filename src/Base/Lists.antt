-- ===== src/Base/Lists.antt =====
-- Lists measured by native numbers, and membership as a test.
use Prim.Native.Nat.{ℕ, zero, suc, ◌+◌}
use mathlib.Core.Path.{◌≡◌, refl}
use mathlib.Core.Bool.{Bool, false, ◌||◌}
use mathlib.Core.List.{List, [], ◌∷◌, ◌++◌}
use native.Mathlib.Omega.{arith}
use secure_connect_connector.Base.Keys.{Key, ◌==◌}
use secure_connect_connector.Base.Tests.{if◌then◌else◌}

module _ {ℓ} {A : Type ℓ} where
  abbrev pub length : List A → ℕ
  length [] = 0
  length (x ∷ xs) = suc (length xs)

  abbrev pub take : ℕ → List A → List A
  take zero xs = []
  take (suc n) [] = []
  take (suc n) (x ∷ xs) = x ∷ take n xs

  abbrev pub drop : ℕ → List A → List A
  drop zero xs = xs
  drop (suc n) [] = []
  drop (suc n) (x ∷ xs) = drop n xs

  -- The elements that pass a Boolean test: `Vec::retain`, `Iterator::filter`.
  unfoldable pub filter_list : (A → Bool) → List A → List A
  filter_list p [] = []
  filter_list p (x ∷ xs) = if p x then x ∷ filter_list p xs else filter_list p xs

  pub length-append : (xs ys : List A) → length (xs ++ ys) ≡ length xs + length ys
  length-append [] ys = omega arith
  length-append (x ∷ xs) ys = omega (arith, length-append xs ys)

module _ {ℓ} {K : Type ℓ} ⦃key : Key K⦄ where
  unfoldable pub elem : K → List K → Bool
  elem k [] = false
  elem k (x ∷ xs) = x == k || elem k xs

  -- No element stands twice.
  abbrev pub IsDistinct : List K → Type 0
  IsDistinct [] = Unit
  IsDistinct (x ∷ xs) = (elem x xs ≡ false) × IsDistinct xs

  pub elem-append : (k : K) (xs ys : List K) → elem k (xs ++ ys) ≡ (elem k xs || elem k ys)
  unfolding elem
  elem-append k [] ys = refl
  elem-append k (x ∷ xs) ys = ground (arith, elem-append k xs ys)

  pub IsDistinct-append :
      (x : K) (xs : List K) → IsDistinct xs → elem x xs ≡ false → IsDistinct (xs ++ x ∷ [])
  unfolding elem
  IsDistinct-append x [] d e = (refl, tt)
  IsDistinct-append x (y ∷ xs) d e =
      ground (arith, IsDistinct-append x xs d.1, elem-append y xs (x ∷ []))
