-- ===== src/Sort/Increasing.antt =====
-- Lists in the order of a numeric key, as sorting and the checks for duplicates leave them.
use coupery_ksnf.Base.{
  ℕ, suc, ◌≤◌, ◌<◌, ◌≡◌, refl, sym, ◌∙◌, ap, subst, some, List, [], ◌∷◌, length, find, All, arith,
  inl, inr, Bool-cases, ltb, ◌==◌,
}
use mathlib.Core.List.{Memᴰ}
use mathlib.Core.List.Memᴰ.{head, tail}
use coupery_ksnf.Order.{nat_key}
use coupery_ksnf.Sort.{insert_sorted, sort_by_key}

module _ {A : Type 0} where
  pub All-map {κ ρ} :
      {P : A → Type κ} {Q : A → Type ρ} (f : (a : A) → P a → Q a) (xs : List A)
      → All P xs
      → All Q xs
  All-map f [] h = tt
  All-map f (x ∷ xs) (p, rest) = (f x p, All-map f xs rest)

  pub All-Mem {κ} : (P : A → Type κ) (a : A) (xs : List A) → All P xs → Memᴰ a xs → P a
  All-Mem P a [] h m = elim m [ ]
  All-Mem P a (x ∷ xs) (p, rest) (head is) = subst P (sym is) p
  All-Mem P a (x ∷ xs) (p, rest) (tail m) = All-Mem P a xs rest m

module _ {A : Type 0} (key : A → ℕ) where
  -- In the order of the keys, with or without equal ones.
  abbrev pub Ascending : List A → Type 0
  Ascending [] = Unit
  Ascending (x ∷ xs) = All (λ y. key x ≤ key y) xs × Ascending xs

  abbrev pub Increasing : List A → Type 0
  Increasing [] = Unit
  Increasing (x ∷ xs) = All (λ y. key x < key y) xs × Increasing xs

  insert_sorted-All {κ} :
      (P : A → Type κ) (x : A) (xs : List A) → P x → All P xs → All P (insert_sorted key x xs)
  unfolding insert_sorted
  insert_sorted-All P x [] p rest = (p, tt)
  insert_sorted-All P x (y ∷ ys) p (q, rest) = elim (Bool-cases (ltb (key y) (key x))) [
    | inl before ↦ rw before (q, insert_sorted-All P x ys p rest)
    | inr after ↦ rw after (p, (q, rest))
  ]

  insert_sorted-Ascending :
      (x : A) (xs : List A) → Ascending xs → Ascending (insert_sorted key x xs)
  unfolding insert_sorted
  insert_sorted-Ascending x [] h = (tt, tt)
  insert_sorted-Ascending x (y ∷ ys) (above, rest) = elim (Bool-cases (ltb (key y) (key x))) [
    | inl before ↦
        rw before (insert_sorted-All _ x ys (ground arith) above, insert_sorted-Ascending x ys rest)
    | inr after ↦
        let le : key x ≤ key y = ground arith in
        rw after ((le, All-map (λ z h. omega (arith, le, h)) ys above), (above, rest))
  ]

  pub sort_by_key-Ascending : (xs : List A) → Ascending (sort_by_key key xs)
  unfolding sort_by_key
  sort_by_key-Ascending [] = tt
  sort_by_key-Ascending (x ∷ xs) =
      insert_sorted-Ascending x (sort_by_key key xs) (sort_by_key-Ascending xs)

  pub sort_by_key-All {κ} : (P : A → Type κ) (xs : List A) → All P xs → All P (sort_by_key key xs)
  unfolding sort_by_key
  sort_by_key-All P [] h = tt
  sort_by_key-All P (x ∷ xs) (p, rest) =
      insert_sorted-All P x (sort_by_key key xs) p (sort_by_key-All P xs rest)

  length-insert_sorted : (x : A) (xs : List A) → length (insert_sorted key x xs) ≡ suc (length xs)
  unfolding insert_sorted
  length-insert_sorted x [] = refl
  length-insert_sorted x (y ∷ ys) = ground (arith, length-insert_sorted x ys)

  pub length-sort_by_key : (xs : List A) → length (sort_by_key key xs) ≡ length xs
  unfolding sort_by_key
  length-sort_by_key [] = refl
  length-sort_by_key (x ∷ xs) =
      length-insert_sorted x (sort_by_key key xs) ∙ ap suc (length-sort_by_key xs)

  insert_sorted-front :
      (x : A) (xs : List A) → All (λ y. key x < key y) xs → insert_sorted key x xs ≡ x ∷ xs
  unfolding insert_sorted
  insert_sorted-front x [] h = refl
  insert_sorted-front x (y ∷ ys) (lt, rest) = ground arith

  -- Sorting an increasing list changes nothing.
  pub sort_by_key-Increasing : (xs : List A) → Increasing xs → sort_by_key key xs ≡ xs
  unfolding sort_by_key
  sort_by_key-Increasing [] h = refl
  sort_by_key-Increasing (x ∷ xs) (above, rest) =
      ap (insert_sorted key x) (sort_by_key-Increasing xs rest) ∙ insert_sorted-front x xs above

  -- In an increasing list a search for the key of an element finds that element.
  pub find-Increasing :
      (a : A) (xs : List A) → Increasing xs → Memᴰ a xs → find (λ y. key y == key a) xs ≡ some a
  find-Increasing a [] h m = elim m [ ]
  find-Increasing a (x ∷ xs) (above, rest) (head is) = ground (arith, is)
  find-Increasing a (x ∷ xs) (above, rest) (tail m) =
      let later : key x < key a = All-Mem (λ y. key x < key y) a xs above m in
      ground (arith, later, find-Increasing a xs rest m)
