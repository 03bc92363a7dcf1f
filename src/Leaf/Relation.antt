-- ===== src/Leaf/Relation.antt =====
-- The step relation of a `LeafRegistry`: the changes that a call may make.
use coupery_ksnf.Base.{◌+◌, ◌^◌, ◌<◌, ◌≤◌, ◌≡◌, Option, none, some, ◌⊎◌}
use coupery_ksnf.Order.{nat_key}
use coupery_ksnf.Outcome.{Result, ok}
use coupery_ksnf.Types.{LeafAttempt}
use coupery_ksnf.Profile.{Profile}
use coupery_ksnf.Support.{OuterSupport}
use coupery_ksnf.Transcript.{MemberReservation}
use coupery_ksnf.Leaf.State.{LeafRegistry, Live}
use coupery_ksnf.Leaf.Session.{with_live}
use coupery_ksnf.Leaf.Reserve.{validate_reservation}
use coupery_ksnf.Leaf.Stages.{LiveStep, Back, put, gone}
use coupery_ksnf.Leaf.Outcome.{StepOutcome, refused, failed, done, with_live-StepOutcome}

module _ (P : Profile) where
  -- A newly reserved attempt.
  pub record Reserved (r : LeafRegistry P) (l : Live P) : Type 0 where
    pub numbered : l.attempt ≡ record { device = r.device; sequence = r.next_sequence }
    pub counted : r.next_sequence + 1 < 2 ^ 64
    pub reservation : MemberReservation P
    pub kept : l.reservation ≡ some reservation
    pub outer : OuterSupport P
    pub valid : validate_reservation P r reservation outer ≡ ok l.vault
    pub uncommitted : l.commit ≡ none
    pub unrevealed : l.reveal ≡ none
    pub unfixed : l.fix ≡ none

  -- New keys for the same device, with the counter kept.
  pub record Rekeyed (r r' : LeafRegistry P) : Type 0 where
    pub device : r'.device ≡ r.device
    pub counter : r'.next_sequence ≡ r.next_sequence
    pub identity : r'.identity_key ≡ r.identity_key
    pub inner_epoch : r.inner_epoch ≤ r'.inner_epoch
    pub live : (r'.live ≡ none) ⊎ (r'.live ≡ r.live)

  pub data Change (r r' : LeafRegistry P) : Type 0 where
    unchanged : r' ≡ r → Change r r'
    opened :
        (l : Live P)
        → r.live ≡ none
        → Reserved r l
        → r' ≡ record r { live = some l; next_sequence = r.next_sequence + 1 }
        → Change r r'
    stepped :
        (l l' : Live P)
        → r.live ≡ some l
        → LiveStep P l l'
        → r' ≡ record r { live = some l' }
        → Change r r'
    closed : (l : Live P) → r.live ≡ some l → r' ≡ record r { live = none } → Change r r'
    rekeyed : (s : LeafRegistry P) → Rekeyed r s → r' ≡ s → Change r r'

  -- A step that puts back what a `LiveStep` allows makes a change.
  StepOutcome-Change :
      {A : Type 0} (r r' : LeafRegistry P) (attempt : LeafAttempt)
      (step : LeafRegistry P → Live P → Result (A × Option (Live P))) (result : Result A)
      → StepOutcome P r attempt step result r'
      → ((l : Live P) (a : A) (back : Option (Live P))
          → l.attempt ≡ attempt
          → step (record r { live = none }) l ≡ ok (a, back)
          → Back P l back)
      → Change r r'
  StepOutcome-Change r r' attempt step result (refused e others is kept) back = unchanged kept
  StepOutcome-Change r r' attempt step result (failed l e live named bad is dropped) back =
      closed l live dropped
  StepOutcome-Change r r' attempt step result (done l a left live named good is put_back) back =
      elim (back l a left named good) [
        | put l' is_put by ↦ stepped l l' live by (cc)
        | gone is_gone ↦ closed l live (cc)
      ]

  module _ (r : LeafRegistry P) where
    pub with_live-Change :
        {A : Type 0} (attempt : LeafAttempt)
        (step : LeafRegistry P → Live P → Result (A × Option (Live P)))
        → ((l : Live P) (a : A) (back : Option (Live P))
            → l.attempt ≡ attempt
            → step (record r { live = none }) l ≡ ok (a, back)
            → Back P l back)
        → Change r (with_live P r attempt step).1
    with_live-Change attempt step back =
        StepOutcome-Change r _ attempt step _ (with_live-StepOutcome P r attempt step) back
