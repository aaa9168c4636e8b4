-- ===== src/Sorting.antt =====
-- `slice::sort` and `Vec::dedup` of the standard library, and the orders of `str` and of the pairs
-- that the source sorts. By total orders any sort gives the same list, a stable one or not.
pub mod Orders
pub mod Laws
use Prim.Native.String.{String}
use mathlib.Core.List.{foldr}
use secure_connect_connector.Base.{Bool, Key, List, [], false, if◌then◌else◌, true, ◌==◌, ◌∷◌, ◌≡◌}

pub record Order {ℓ} (A : Type ℓ) : Type ℓ where
  pub le : A → A → Bool
  pub total : (a b : A) → le a b ≡ false → le b a ≡ true
  pub trans : (a b c : A) → le a b ≡ true → le b c ≡ true → le a c ≡ true
  pub antisym : (a b : A) → le a b ≡ true → le b a ≡ true → a ≡ b

module _ {ℓ} {A : Type ℓ} ⦃order : Order A⦄ where
  unfoldable pub insert_sorted : A → List A → List A
  insert_sorted a [] = a ∷ []
  insert_sorted a (b ∷ bs) = if order.le a b then a ∷ b ∷ bs else b ∷ insert_sorted a bs

  unfoldable pub sort : List A → List A
  unfolding insert_sorted
  sort = foldr insert_sorted []

module _ {ℓ} {A : Type ℓ} ⦃key : Key A⦄ where
  -- Of equal neighbours the first stays.
  unfoldable pub dedup : List A → List A
  dedup [] = []
  dedup (a ∷ []) = a ∷ []
  dedup (a ∷ b ∷ bs) = let rest = dedup (b ∷ bs) in if a == b then rest else a ∷ rest
