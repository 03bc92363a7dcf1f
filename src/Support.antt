-- ===== src/Support.antt =====
-- support.rs: the accepted inner and outer supports with their Lagrange rows. The source searches
-- the sorted participants by bisection; in a sorted list of distinct keys that finds what a scan
-- finds, and `new` makes them so. Indexing past the row's end would panic: `new` makes the row as
-- long as the list of participants, and the models return `length_mismatch` there.
pub mod Order
use coupery_ksnf.Base.{
  ℕ, Bool, true, false, List, [], ◌∷◌, ◌++◌, map, any, find, position, get_elem?, ◌==◌,
  if◌then◌else◌,
}
use coupery_ksnf.Order.{nat_key}
use coupery_ksnf.Sort.{sort_by_key}
use coupery_ksnf.Outcome.{
  Result, ok, err, ◌>>=◌, ◌>>◌, fail_if, or_fail, empty_input, duplicate_participant,
  duplicate_slot, participant_not_found, length_mismatch,
}
use coupery_ksnf.Profile.{Profile}
use coupery_ksnf.Shamir.{lagrange_at_zero}

module _ (P : Profile) where
  open P use {Scalar, Element, mul_scalar}

  pub record DeviceParticipant : Type 0 where
    pub device : ℕ
    pub node : Scalar
    pub share : Element

  pub record PersonParticipant : Type 0 where
    pub person : ℕ
    pub slot : ℕ
    pub node : Scalar
    pub member : Element

  pub record OuterCoefficient : Type 0 where
    pub person : ℕ
    pub slot : ℕ
    pub member : Element
    pub scalar : Scalar

  pub record SourceWeight : Type 0 where
    pub device : ℕ
    pub scalar : Scalar

  pub record InnerSupport : Type 0 where
    pub participants : List DeviceParticipant
    pub coefficients : List Scalar

  pub record OuterSupport : Type 0 where
    pub participants : List PersonParticipant
    pub coefficients : List Scalar

  -- `reject_duplicate_devices`, from the index at which `prior` ends.
  unfoldable pub reject_duplicate_devices :
      List DeviceParticipant → List DeviceParticipant → Result (Unit {0})
  reject_duplicate_devices prior [] = ok tt
  reject_duplicate_devices prior (p ∷ ps) =
      let rest = reject_duplicate_devices (prior ++ p ∷ []) ps in
      if any (λ q. q.device == p.device) prior then err duplicate_participant else rest

  unfoldable pub reject_duplicate_people :
      List PersonParticipant → List PersonParticipant → Result (Unit {0})
  reject_duplicate_people prior [] = ok tt
  reject_duplicate_people prior (p ∷ ps) =
      let rest = reject_duplicate_people (prior ++ p ∷ []) ps in
      if any (λ q. q.slot == p.slot) prior
      then err duplicate_slot
      else if any (λ q. q.person == p.person) prior
      then err duplicate_participant
      else rest

  abbrev pub is_empty : {A : Type 0} → List A → Bool
  is_empty [] = true
  is_empty (x ∷ xs) = false

  -- `InnerSupport::new`
  unfoldable pub inner_support : List DeviceParticipant → Result InnerSupport
  inner_support given = do
    fail_if (is_empty given) empty_input
    let participants = sort_by_key (λ p. p.device) given
    reject_duplicate_devices [] participants
    coefficients ← lagrange_at_zero P (map (λ p. p.node) participants)
    ok (record { participants = participants; coefficients = coefficients })

  -- `OuterSupport::new`
  unfoldable pub outer_support : List PersonParticipant → Result OuterSupport
  outer_support given = do
    fail_if (is_empty given) empty_input
    let participants = sort_by_key (λ p. p.slot) given
    reject_duplicate_people [] participants
    coefficients ← lagrange_at_zero P (map (λ p. p.node) participants)
    ok (record { participants = participants; coefficients = coefficients })

  -- `InnerSupport::participant`
  unfoldable pub inner_participant : InnerSupport → ℕ → Result DeviceParticipant
  inner_participant s device =
      or_fail (find (λ p. p.device == device) s.participants) participant_not_found

  -- `InnerSupport::coefficient`, less the device that it repeats.
  unfoldable pub inner_coefficient : InnerSupport → ℕ → Result Scalar
  inner_coefficient s device = do
    index ← or_fail (position (λ p. p.device == device) s.participants) participant_not_found
    or_fail (get_elem? s.coefficients index) length_mismatch

  -- `OuterSupport::participant`
  unfoldable pub outer_participant : OuterSupport → ℕ → Result PersonParticipant
  outer_participant s slot =
      or_fail (find (λ p. p.slot == slot) s.participants) participant_not_found

  -- `OuterSupport::coefficient`
  unfoldable pub outer_coefficient : OuterSupport → ℕ → Result OuterCoefficient
  outer_coefficient s person = do
    index ← or_fail (position (λ p. p.person == person) s.participants) participant_not_found
    participant ← or_fail (get_elem? s.participants index) length_mismatch
    scalar ← or_fail (get_elem? s.coefficients index) length_mismatch
    ok (record {
      person = person;
      slot = participant.slot;
      member = participant.member;
      scalar = scalar;
    })

  -- `InnerSupport::source_weight`
  unfoldable pub inner_source_weight : InnerSupport → ℕ → Result SourceWeight
  unfolding inner_coefficient
  inner_source_weight s device = do
    scalar ← inner_coefficient s device
    ok (record { device = device; scalar = scalar })

  -- `OuterSupport::source_weight`
  unfoldable pub outer_source_weight : OuterSupport → ℕ → InnerSupport → ℕ → Result SourceWeight
  unfolding inner_coefficient outer_coefficient
  outer_source_weight s person inner device = do
    outer ← outer_coefficient s person
    scalar ← inner_coefficient inner device
    ok (record { device = device; scalar = mul_scalar outer.scalar scalar })
