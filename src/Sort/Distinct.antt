-- ===== src/Sort/Distinct.antt =====
-- The checks for equal neighbours and duplicates after sorting, in signing.rs and support.rs: a
-- list that passes is increasing.
use coupery_ksnf.Base.{
  ℕ, ◌≤◌, ◌<◌, ◌≡◌, ◌≢◌, refl, sym, ◌∙◌, ap, ◌||◌, Bool, true, false, List, [], ◌∷◌, ◌++◌, All, any,
  arith, ◌==◌,
}
use coupery_ksnf.Order.{nat_key}
use coupery_ksnf.Outcome.{ok}
use coupery_ksnf.Profile.{Profile}
use coupery_ksnf.Sort.{sort_by_key}
use coupery_ksnf.Sort.Increasing.{Ascending, Increasing, All-map, sort_by_key-Ascending}
use coupery_ksnf.Support.{DeviceParticipant, reject_duplicate_devices}
use coupery_ksnf.Signing.{has_adjacent}

module _ (P : Profile) where
  module _ {A : Type 0} (key : A → ℕ) where
    has_adjacent-Increasing :
        (xs : List A) → Ascending key xs → has_adjacent P key xs ≡ false → Increasing key xs
    unfolding has_adjacent
    has_adjacent-Increasing [] h none_equal = tt
    has_adjacent-Increasing (x ∷ []) h none_equal = (tt, tt)
    has_adjacent-Increasing (x ∷ y ∷ rest) ((le, more), (above, tail_h)) none_equal =
        let lt : key x < key y = ground arith in
        let later : has_adjacent P key (y ∷ rest) ≡ false = ground arith in
        (
          (lt, All-map (λ z h. omega (arith, lt, h)) rest above),
          has_adjacent-Increasing (y ∷ rest) (above, tail_h) later,
        )

    pub sort_by_key-has_adjacent :
        (xs : List A)
        → has_adjacent P key (sort_by_key key xs) ≡ false
        → Increasing key (sort_by_key key xs)
    sort_by_key-has_adjacent xs h =
        has_adjacent-Increasing (sort_by_key key xs) (sort_by_key-Ascending key xs) h

    pub Increasing-has_adjacent : (xs : List A) → Increasing key xs → has_adjacent P key xs ≡ false
    unfolding has_adjacent
    Increasing-has_adjacent [] h = refl
    Increasing-has_adjacent (x ∷ []) h = refl
    Increasing-has_adjacent (x ∷ y ∷ rest) ((lt, more), later) =
        ground (arith, Increasing-has_adjacent (y ∷ rest) later)

  any-append :
      {A : Type 0} (p : A → Bool) (xs : List A) (x : A) → any p (xs ++ x ∷ []) ≡ (any p xs || p x)
  any-append p [] x = ground arith
  any-append p (y ∷ ys) x = ground (arith, any-append p ys x)

  reject_duplicate_devices-step :
      (prior : List (DeviceParticipant P)) (p : DeviceParticipant P)
      (ps : List (DeviceParticipant P))
      → reject_duplicate_devices P prior (p ∷ ps) ≡ ok tt
      → (any (λ q. q.device == p.device) prior ≡ false)
        × (reject_duplicate_devices P (prior ++ p ∷ []) ps ≡ ok tt)
  unfolding reject_duplicate_devices
  reject_duplicate_devices-step prior p ps h = ground arith

  -- No later element has the device of one before.
  reject_duplicate_devices-ne :
      (d : ℕ) (prior xs : List (DeviceParticipant P))
      → any (λ q. q.device == d) prior ≡ true
      → reject_duplicate_devices P prior xs ≡ ok tt
      → All (λ x. d ≢ x.device) xs
  reject_duplicate_devices-ne d prior [] held h = tt
  reject_duplicate_devices-ne d prior (p ∷ ps) held h =
      let (apart, later) = reject_duplicate_devices-step prior p ps h in
      (
        λ same. cc (sym held ∙ ap (λ e. any (λ q. q.device == e) prior) same ∙ apart),
        reject_duplicate_devices-ne d (prior ++ p ∷ []) ps
            (ground (arith, any-append (λ q. q.device == d) prior p)) later,
      )

  All-lt :
      (d : ℕ) (xs : List (DeviceParticipant P))
      → All (λ x. d ≤ x.device) xs
      → All (λ x. d ≢ x.device) xs
      → All (λ x. d < x.device) xs
  All-lt d [] le ne = tt
  All-lt d (x ∷ xs) (le, later) (ne, rest) = (omega (arith, le, ne), All-lt d xs later rest)

  pub reject_duplicate_devices-Increasing :
      (prior xs : List (DeviceParticipant P))
      → Ascending (λ p. p.device) xs
      → reject_duplicate_devices P prior xs ≡ ok tt
      → Increasing (λ p. p.device) xs
  reject_duplicate_devices-Increasing prior [] up h = tt
  reject_duplicate_devices-Increasing prior (p ∷ ps) (above, up) h =
      let (apart, later) = reject_duplicate_devices-step prior p ps h in
      (
        All-lt p.device ps above (
            reject_duplicate_devices-ne p.device (prior ++ p ∷ []) ps
              (ground (arith, any-append (λ q. q.device == p.device) prior p)) later),
        reject_duplicate_devices-Increasing (prior ++ p ∷ []) ps up later,
      )
