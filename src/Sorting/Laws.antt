-- ===== src/Sorting/Laws.antt =====
-- Sorting depends on the elements alone, not on their order, and loses none.
use mathlib.Core.List.{Perm}
use mathlib.Core.List.Perm as Perm
use secure_connect_connector.Sorting.{Order, dedup, insert_sorted, sort}
use secure_connect_connector.Base.{
  Bool-cases, IsDistinct, Key, List, [], ap, arith, elem, false, inl, inr, refl, true, ◌==◌, ◌||◌,
  ◌∙◌, ◌∷◌, ◌≡◌,
}

module _ {ℓ} {A : Type ℓ} ⦃order : Order A⦄ where
  order_refl : (a : A) → order.le a a ≡ true
  order_refl a = elim (Bool-cases (order.le a a)) [ inl e ↦ e | inr e ↦ order.total a a e ]

  insert_sorted_comm :
      (a b : A) (xs : List A)
      → insert_sorted a (insert_sorted b xs) ≡ insert_sorted b (insert_sorted a xs)
  unfolding insert_sorted
  insert_sorted_comm a b [] = ground (arith, order.total a b, order.total b a, order.antisym a b)
  insert_sorted_comm a b (x ∷ xs) = ground (
    arith,
    order.total a b,
    order.total b a,
    order.antisym a b,
    order.trans a b x,
    order.trans b a x,
    order.total a x,
    order.total b x,
    order.trans a x b,
    order.trans b x a,
    insert_sorted_comm a b xs,
  )

  pub sort-eq_of_perm : IsSet (List A) → {xs ys : List A} → Perm xs ys → sort xs ≡ sort ys
  unfolding sort
  sort-eq_of_perm set p = Perm.foldr-eq set insert_sorted insert_sorted_comm p []

module _ {ℓ} {A : Type ℓ} ⦃order : Order A⦄ ⦃key : Key A⦄ where
  elem-insert_sorted : (k a : A) (xs : List A) → elem k (insert_sorted a xs) ≡ (a == k || elem k xs)
  unfolding insert_sorted elem
  elem-insert_sorted k a [] = refl
  elem-insert_sorted k a (x ∷ xs) = ground (arith, elem-insert_sorted k a xs)

  pub elem-sort : (k : A) (xs : List A) → elem k (sort xs) ≡ elem k xs
  unfolding sort elem
  elem-sort k [] = refl
  elem-sort k (x ∷ xs) = elem-insert_sorted k x (sort xs) ∙ ap (λ b. x == k || b) (elem-sort k xs)

  -- Each element is at most those after it.
  abbrev pub AllAbove : A → List A → Type 0
  AllAbove a [] = Unit
  AllAbove a (x ∷ xs) = (order.le a x ≡ true) × AllAbove a xs

  abbrev pub IsSorted : List A → Type 0
  IsSorted [] = Unit
  IsSorted (x ∷ xs) = AllAbove x xs × IsSorted xs

  AllAbove-trans : (a b : A) (xs : List A) → order.le a b ≡ true → AllAbove b xs → AllAbove a xs
  AllAbove-trans a b [] h all = tt
  AllAbove-trans a b (x ∷ xs) h all = (order.trans a b x h all.0, AllAbove-trans a b xs h all.1)

  AllAbove-insert_sorted :
      (a b : A) (xs : List A)
      → order.le a b ≡ true
      → AllAbove a xs
      → AllAbove a (insert_sorted b xs)
  unfolding insert_sorted
  AllAbove-insert_sorted a b [] h all = (h, tt)
  AllAbove-insert_sorted a b (x ∷ xs) h all = elim (Bool-cases (order.le b x)) [
    | inl e ↦ rw e (h, all)
    | inr e ↦ rw e (all.0, AllAbove-insert_sorted a b xs h all.1)
  ]

  insert_sorted-IsSorted : (a : A) (xs : List A) → IsSorted xs → IsSorted (insert_sorted a xs)
  unfolding insert_sorted
  insert_sorted-IsSorted a [] s = (tt, tt)
  insert_sorted-IsSorted a (x ∷ xs) s = elim (Bool-cases (order.le a x)) [
    | inl e ↦ rw e ((e, AllAbove-trans a x xs e s.0), s)
    | inr e ↦
        rw e
          (AllAbove-insert_sorted x a xs (order.total a x e) s.0, insert_sorted-IsSorted a xs s.1)
  ]

  pub sort-IsSorted : (xs : List A) → IsSorted (sort xs)
  unfolding sort
  sort-IsSorted [] = tt
  sort-IsSorted (x ∷ xs) = insert_sorted-IsSorted x (sort xs) (sort-IsSorted xs)

  pub elem-dedup : (k : A) (xs : List A) → elem k (dedup xs) ≡ elem k xs
  unfolding dedup elem
  elem-dedup k [] = refl
  elem-dedup k (x ∷ []) = refl
  elem-dedup k (x ∷ y ∷ ys) = ground (arith, elem-dedup k (y ∷ ys))

  not_elem_above :
      (a b : A) (xs : List A)
      → order.le a b ≡ true
      → (a == b) ≡ false
      → AllAbove b xs
      → elem a (b ∷ xs) ≡ false
  unfolding elem
  not_elem_above a b [] h ne all = ground arith
  not_elem_above a b (x ∷ xs) h ne all =
      ground (arith, order.antisym a b h, not_elem_above a b xs h ne all.1)

  pub dedup-IsDistinct : (xs : List A) → IsSorted xs → IsDistinct (dedup xs)
  unfolding dedup elem
  dedup-IsDistinct [] s = tt
  dedup-IsDistinct (x ∷ []) s = (refl, tt)
  dedup-IsDistinct (x ∷ y ∷ ys) s = ground (
    arith,
    dedup-IsDistinct (y ∷ ys) s.1,
    elem-dedup x (y ∷ ys),
    not_elem_above x y ys s.0.0,
    s.1.0,
  )
