-- ===== src/QueryExecutor/Compare/Sorting.antt =====
-- Insertion sort keeps the elements and orders them.
use loxim_stats.Base.{
  suc, ◌≡◌, refl, ap, ◌∙◌, Bool, List, [], ◌∷◌, length, arith, map, Bool-cases, inl, inr,
}
use mathlib.Core.List.{Perm}
use mathlib.Core.List.Perm
use loxim_stats.QueryExecutor.Compare.{insert_sorted, sort}

module _ {ℓ} {A : Type ℓ} where
  pub length-insert_sorted :
      (less : A → A → Bool) (x : A) (xs : List A)
      → length (insert_sorted less x xs) ≡ suc (length xs)
  unfolding insert_sorted
  length-insert_sorted less x [] = refl
  length-insert_sorted less x (y ∷ ys) = ground (arith, length-insert_sorted less x ys)

  pub length-sort : (less : A → A → Bool) (xs : List A) → length (sort less xs) ≡ length xs
  unfolding sort
  length-sort less [] = refl
  length-sort less (x ∷ xs) =
      length-insert_sorted less x (sort less xs) ∙ ap suc (length-sort less xs)

module _ {ℓ κ} {A : Type ℓ} {B : Type κ} (f : A → B) (less : B → B → Bool) where
  insert_sorted-map :
      (x : A) (xs : List A)
      → insert_sorted less (f x) (map f xs) ≡ map f (insert_sorted (λ a b. less (f a) (f b)) x xs)
  unfolding insert_sorted
  insert_sorted-map x [] = refl
  insert_sorted-map x (y ∷ ys) = ground (arith, insert_sorted-map x ys)

  -- Sorting images is sorting by what the images are compared by.
  pub sort-map : (xs : List A) → sort less (map f xs) ≡ map f (sort (λ a b. less (f a) (f b)) xs)
  unfolding sort
  sort-map [] = refl
  sort-map (x ∷ xs) =
      ap (insert_sorted less (f x)) (sort-map xs)
      ∙ insert_sorted-map x (sort (λ a b. less (f a) (f b)) xs)

module _ {A : Type 0} (less : A → A → Bool) where
  insert_sorted-Perm : (x : A) (xs : List A) → Perm (x ∷ xs) (insert_sorted less x xs)
  unfolding insert_sorted
  insert_sorted-Perm x [] = Perm.refl (x ∷ [])
  insert_sorted-Perm x (y ∷ ys) = elim (Bool-cases (less y x)) [
    | inl e ↦ rw e (Perm.trans (Perm.swap y x ys) (Perm.cons y (insert_sorted-Perm x ys)))
    | inr e ↦ rw e (Perm.refl (x ∷ y ∷ ys))
  ]

  pub sort-Perm : (xs : List A) → Perm xs (sort less xs)
  unfolding sort
  sort-Perm [] = Perm.refl []
  sort-Perm (x ∷ xs) = Perm.trans (Perm.cons x (sort-Perm xs)) (insert_sorted-Perm x (sort less xs))
