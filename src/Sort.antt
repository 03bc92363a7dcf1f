-- ===== src/Sort.antt =====
-- `sort_unstable_by_key` of the standard library. The source calls it where equal keys are either
-- refused afterwards or cannot occur, so a stable order among them is as good as any.
pub mod Increasing
pub mod Distinct
use coupery_ksnf.Base.{Bool, true, false, List, [], ◌∷◌, if◌then◌else◌}
use mathlib.Core.List.{Memᴰ}
use mathlib.Core.List.Memᴰ.{head, tail}
use coupery_ksnf.Order.{Key, ◌<?◌}

module _ {ℓ κ} {A : Type ℓ} {K : Type κ} ⦃k : Key K⦄ (key : A → K) where
  unfoldable pub insert_sorted : A → List A → List A
  insert_sorted x [] = x ∷ []
  insert_sorted x (y ∷ ys) = if key y <? key x then y ∷ insert_sorted x ys else x ∷ y ∷ ys

  unfoldable pub sort_by_key : List A → List A
  unfolding insert_sorted
  sort_by_key [] = []
  sort_by_key (x ∷ xs) = insert_sorted x (sort_by_key xs)

  insert_sorted-Mem : (x a : A) (xs : List A) → Memᴰ a (insert_sorted x xs) → Memᴰ a (x ∷ xs)
  unfolding insert_sorted
  insert_sorted-Mem x a [] h = h
  insert_sorted-Mem x a (y ∷ ys) h = by_test (key y <? key x) (insert_sorted-Mem x a ys) h
    where
      by_test :
          (before : Bool)
          → (Memᴰ a (insert_sorted x ys) → Memᴰ a (x ∷ ys))
          → Memᴰ a (if before then y ∷ insert_sorted x ys else x ∷ y ∷ ys)
          → Memᴰ a (x ∷ y ∷ ys)
      by_test true ih (head is) = tail (head is)
      by_test true ih (tail m) = elim (ih m) [ head is ↦ head is | tail later ↦ tail (tail later) ]
      by_test false ih m = m

  -- Sorting adds no element.
  pub sort_by_key-Mem : (a : A) (xs : List A) → Memᴰ a (sort_by_key xs) → Memᴰ a xs
  unfolding sort_by_key
  sort_by_key-Mem a [] h = h
  sort_by_key-Mem a (x ∷ xs) h = elim (insert_sorted-Mem x a (sort_by_key xs) h) [
    | head is ↦ head is
    | tail m ↦ tail (sort_by_key-Mem a xs m)
  ]
