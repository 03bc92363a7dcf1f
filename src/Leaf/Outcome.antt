-- ===== src/Leaf/Outcome.antt =====
-- What an operation of leaf.rs on the live attempt ends in.
use coupery_ksnf.Base.{
  ◌≡◌, false, Option, none, some, arith, inl, inr, Bool-cases, Option-cases, ◌==◌,
}
use coupery_ksnf.Order.{nat_key}
use coupery_ksnf.Outcome.{
  Error, Result, ok, err, Result-cases, attempt_closed, wrong_stage, busy, attempt_mismatch,
}
use coupery_ksnf.Types.{LeafAttempt, attempt_eq, attempt_eq_iff}
use coupery_ksnf.Profile.{Profile}
use coupery_ksnf.Leaf.State.{LeafRegistry, Live, take_live, is_closed}
use coupery_ksnf.Leaf.Session.{with_live}

module _ (P : Profile) where
  -- What an operation on the live attempt may end in.
  pub data StepOutcome {A : Type 0} (r : LeafRegistry P) (attempt : LeafAttempt)
      (step : LeafRegistry P → Live P → Result (A × Option (Live P))) (result : Result A)
      (r' : LeafRegistry P) : Type 0 where
    refused :
        (e : Error)
        → ((l : Live P) → r.live ≡ some l → attempt_eq l.attempt attempt ≡ false)
        → result ≡ err e
        → r' ≡ r
        → StepOutcome r attempt step result r'
    failed :
        (l : Live P) (e : Error)
        → r.live ≡ some l
        → l.attempt ≡ attempt
        → step (record r { live = none }) l ≡ err e
        → result ≡ err e
        → r' ≡ record r { live = none }
        → StepOutcome r attempt step result r'
    done :
        (l : Live P) (a : A) (back : Option (Live P))
        → r.live ≡ some l
        → l.attempt ≡ attempt
        → step (record r { live = none }) l ≡ ok (a, back)
        → result ≡ ok a
        → r' ≡ record r { live = back }
        → StepOutcome r attempt step result r'

  module _ {A : Type 0} (r : LeafRegistry P) (attempt : LeafAttempt)
      (step : LeafRegistry P → Live P → Result (A × Option (Live P))) where
    pub with_live-StepOutcome :
        StepOutcome r attempt step (with_live P r attempt step).0 (with_live P r attempt step).1
    unfolding with_live take_live is_closed
    with_live-StepOutcome = elim (Bool-cases (is_closed P r attempt)) [
      | inl closed ↦ refused attempt_closed (λ l live. ground arith) (ground arith) (ground arith)
      | inr unclosed ↦ elim (Option-cases r.live) [
        | inl idle ↦ refused wrong_stage (λ l live. cc) (ground arith) (ground arith)
        | inr (l, live) ↦ elim (Bool-cases (attempt_eq l.attempt attempt)) [
          | inr other ↦ elim (Bool-cases (attempt.device == r.device)) [
            | inl ours ↦ refused busy (λ k live_k. ground arith) (ground arith) (ground arith)
            | inr theirs ↦
                refused attempt_mismatch (λ k live_k. ground arith) (ground arith) (ground arith)
          ]
          | inl same ↦ elim (Result-cases (step (record r { live = none }) l)) [
            | inl ((a, back), good) ↦
                done l a back live ((attempt_eq_iff l.attempt attempt).0 same) good (ground arith)
                  (ground arith)
            | inr (e, bad) ↦
                failed l e live ((attempt_eq_iff l.attempt attempt).0 same) bad (ground arith)
                  (ground arith)
          ]
        ]
      ]
    ]
