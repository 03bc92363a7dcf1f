-- ===== src/Map.antt =====
-- `BTreeMap` and `BTreeSet` of the standard library: association lists in the order of the keys.
use coupery_ksnf.Base.{
  ◌≡◌, refl, ◌≢◌, Bool, false, ◌||◌, Option, none, some, List, [], ◌∷◌, arith, if◌then◌else◌,
}
use coupery_ksnf.Order.{Key, ◌==◌, ◌<?◌}

abbrev pub Map {ℓ κ} : Type ℓ → Type κ → Type (ℓ ⊔ κ)
Map K V = List (K × V)

module _ {ℓ κ} {K : Type ℓ} ⦃k : Key K⦄ {V : Type κ} where
  abbrev pub lookup : K → Map K V → Option V
  lookup a [] = none
  lookup a ((b, v) ∷ m) = if a == b then some v else lookup a m

  abbrev pub insert : K → V → Map K V → Map K V
  insert a v [] = (a, v) ∷ []
  insert a v ((b, w) ∷ m) =
      if a == b then (a, v) ∷ m else if a <? b then (a, v) ∷ (b, w) ∷ m else (b, w) ∷ insert a v m

  abbrev pub contains_key : K → Map K V → Bool
  contains_key a [] = false
  contains_key a ((b, v) ∷ m) = a == b || contains_key a m

  -- `BTreeMap::remove`, less the value that it returns.
  abbrev pub remove : K → Map K V → Map K V
  remove a [] = []
  remove a ((b, v) ∷ m) = if a == b then remove a m else (b, v) ∷ remove a m

  pub lookup-remove :
      (a b : K) (m : Map K V) → lookup a (remove b m) ≡ (if a == b then none else lookup a m)
  lookup-remove a b [] = ground (arith, k.beq_iff a b)
  lookup-remove a b ((c, w) ∷ m) =
      ground (arith, k.beq_iff a b, k.beq_iff b c, k.beq_iff a c, lookup-remove a b m)

  pub lookup-insert :
      (a b : K) (v : V) (m : Map K V)
      → lookup a (insert b v m) ≡ (if a == b then some v else lookup a m)
  lookup-insert a b v [] = refl
  lookup-insert a b v ((c, w) ∷ m) =
      ground (arith, k.beq_iff a b, k.beq_iff b c, k.beq_iff a c, lookup-insert a b v m)

  pub lookup-insert_self : (a : K) (v : V) (m : Map K V) → lookup a (insert a v m) ≡ some v
  lookup-insert_self a v m = ground (arith, lookup-insert a a v m, k.beq_iff a a)

  pub lookup-insert_ne :
      (a b : K) (v : V) (m : Map K V) → a ≢ b → lookup a (insert b v m) ≡ lookup a m
  lookup-insert_ne a b v m h = ground (arith, lookup-insert a b v m, k.beq_iff a b)

module _ {ℓ} {K : Type ℓ} ⦃k : Key K⦄ where
  abbrev pub contains : K → List K → Bool
  contains a [] = false
  contains a (b ∷ s) = a == b || contains a s

  -- `BTreeSet::insert`, less the flag that it returns, which is `not (contains a s)`.
  abbrev pub set_insert : K → List K → List K
  set_insert a [] = a ∷ []
  set_insert a (b ∷ s) = if a == b then b ∷ s else if a <? b then a ∷ b ∷ s else b ∷ set_insert a s

  pub contains-set_insert :
      (a b : K) (s : List K) → contains a (set_insert b s) ≡ (a == b || contains a s)
  contains-set_insert a b [] = refl
  contains-set_insert a b (c ∷ s) =
      ground (arith, k.beq_iff a b, k.beq_iff b c, k.beq_iff a c, contains-set_insert a b s)
