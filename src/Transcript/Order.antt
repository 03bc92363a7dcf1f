-- ===== src/Transcript/Order.antt =====
-- The checks of the order of slots in transcript.rs, against the order itself.
use coupery_ksnf.Base.{ℕ, ◌<◌, ◌≡◌, ◌↔◌, refl, List, [], ◌∷◌, arith}
use coupery_ksnf.Order.{nat_key}
use coupery_ksnf.Outcome.{ok}
use coupery_ksnf.Sort.Increasing.{Increasing, All-map}
use coupery_ksnf.Transcript.Root.{ensure_sorted}

module _ {A : Type 0} (slot : A → ℕ) where
  Increasing-passes : (xs : List A) → Increasing slot xs → ensure_sorted slot xs ≡ ok tt
  unfolding ensure_sorted
  Increasing-passes [] h = refl
  Increasing-passes (x ∷ []) h = refl
  Increasing-passes (x ∷ y ∷ rest) ((lt, more), later) =
      ground (arith, Increasing-passes (y ∷ rest) later)

  passes-Increasing : (xs : List A) → ensure_sorted slot xs ≡ ok tt → Increasing slot xs
  unfolding ensure_sorted
  passes-Increasing [] h = tt
  passes-Increasing (x ∷ []) h = (tt, tt)
  passes-Increasing (x ∷ y ∷ rest) h =
      let lt : slot x < slot y = ground (arith) in
      let passed : ensure_sorted slot (y ∷ rest) ≡ ok tt = ground arith in
      let (above, later) = passes-Increasing (y ∷ rest) passed in
      ((lt, All-map (λ z k. omega (arith, lt, k)) rest above), (above, later))

  -- The check of neighbouring slots passes exactly if every slot of the list is below all that come
  -- after it, so that no two are equal.
  pub ensure_sorted_iff : (xs : List A) → (ensure_sorted slot xs ≡ ok tt) ↔ Increasing slot xs
  ensure_sorted_iff xs = (passes-Increasing xs, Increasing-passes xs)
