-- ===== src/Leaf/Once.antt =====
-- An attempt of leaf.rs is numbered once, answered once and closed by its first error.
use coupery_ksnf.Base.{
  ℕ, ◌≡◌, refl, sym, ◌∙◌, ap, subst, Bool, true, Option, none, some, List, arith,
}
use mathlib.Core.Option.{some-injective}
use coupery_ksnf.Outcome.{Result, ok, err, attempt_closed}
use coupery_ksnf.Types.{LeafAttempt, KeyEpoch, attempt_eq_iff}
use coupery_ksnf.Profile.{Profile}
use coupery_ksnf.Signing.{NoncePair, Nonce}
use coupery_ksnf.Auth.{Delivery}
use coupery_ksnf.Leaf.State.{LeafRegistry, Live, ResponseMode, is_closed, take_live}
use coupery_ksnf.Leaf.Session.{
  ResponseInputs, with_live, commit, commit_step, reveal, reveal_step, fix, fix_step, respond_with,
  respond_step, close,
}
use coupery_ksnf.Leaf.Install.{DeviceGenesisParts, new}
use coupery_ksnf.Leaf.Outcome.{StepOutcome, refused, failed, done, with_live-StepOutcome}
use coupery_ksnf.Leaf.SessionChange.{respond_step-gone}
use coupery_ksnf.Leaf.History.{
  Reach, Valid, idle, holds, Reach-Valid, initial-Valid, closed_forever,
}
use coupery_ksnf.Leaf.Alive.{idle-is_closed}

module _ (P : Profile) where
  -- Whatever operation is tried on a closed attempt, it is refused and changes nothing.
  closed-with_live :
      {A : Type 0} (r : LeafRegistry P) (attempt : LeafAttempt)
      (step : LeafRegistry P → Live P → Result (A × Option (Live P)))
      → is_closed P r attempt ≡ true
      → with_live P r attempt step ≡ (err attempt_closed, r)
  unfolding with_live take_live
  closed-with_live r attempt step h = ground arith

  closed-close :
      (r : LeafRegistry P) (attempt : LeafAttempt)
      → is_closed P r attempt ≡ true
      → close P r attempt ≡ (err attempt_closed, r)
  unfolding close
  closed-close r attempt h = ground arith

  -- A valid registry has closed each attempt of its device below the counter that is not live.
  gone-is_closed :
      (r s : LeafRegistry P) (l : Live P)
      → Valid P r
      → r.live ≡ some l
      → s ≡ record r { live = none }
      → is_closed P s l.attempt ≡ true
  gone-is_closed r s l (idle none_live) live is = cc
  gone-is_closed r s l (holds k holds_k device below sound) live is =
      let same_k : k ≡ l = some-injective _ _ (sym holds_k ∙ live) in
      subst (λ x. is_closed P x l.attempt ≡ true) (sym is)
        (idle-is_closed P (record r { live = none }) l.attempt refl
          (ap (λ x. x.attempt.device) (sym same_k) ∙ device)
          (omega (arith, below, ap (λ x. x.attempt.sequence) same_k)))

  -- The result is a success, or the attempt is closed.
  abbrev pub ok_or_closed : {A : Type 0} → Result A → LeafRegistry P → LeafAttempt → Bool
  ok_or_closed (ok a) r attempt = true
  ok_or_closed (err e) r attempt = is_closed P r attempt

  StepOutcome-closes :
      {A : Type 0} (r r' : LeafRegistry P) (l : Live P)
      (step : LeafRegistry P → Live P → Result (A × Option (Live P))) (result : Result A)
      → Valid P r
      → r.live ≡ some l
      → StepOutcome P r l.attempt step result r'
      → ok_or_closed result r' l.attempt ≡ true
  StepOutcome-closes r r' l step result valid live (refused e others is kept) =
      absurd (ground (arith, others l live, (attempt_eq_iff l.attempt l.attempt).1 refl))
  StepOutcome-closes r r' l step result valid live (failed m e m_live named bad is dropped) =
      subst (λ x. ok_or_closed x r' l.attempt ≡ true) (sym is)
        (gone-is_closed r r' l valid live dropped)
  StepOutcome-closes r r' l step result valid live (done m a back m_live named good is put_back) =
      ap (λ x. ok_or_closed x r' l.attempt) is

  StepOutcome-ends :
      {A : Type 0} (r r' : LeafRegistry P) (l : Live P)
      (step : LeafRegistry P → Live P → Result (A × Option (Live P))) (result : Result A)
      → Valid P r
      → r.live ≡ some l
      → ((s : LeafRegistry P) (m : Live P) (a : A) (back : Option (Live P))
          → step s m ≡ ok (a, back)
          → back ≡ none)
      → StepOutcome P r l.attempt step result r'
      → is_closed P r' l.attempt ≡ true
  StepOutcome-ends r r' l step result valid live drops (refused e others is kept) =
      absurd (ground (arith, others l live, (attempt_eq_iff l.attempt l.attempt).1 refl))
  StepOutcome-ends r r' l step result valid live drops (failed m e m_live named bad is dropped) =
      gone-is_closed r r' l valid live dropped
  StepOutcome-ends r r' l step result valid live drops
        (done m a back m_live named good is put_back) =
      gone-is_closed r r' l valid live (
        put_back
        ∙ ap {A = Option (Live P)} {B = LeafRegistry P} (λ b. record r { live = b })
            (drops _ m a back good))

  module _ {A : Type 0} (r0 r : LeafRegistry P) (parts : DeviceGenesisParts P) (e : KeyEpoch)
      (l : Live P) (genesis : new P parts e ≡ ok r0) (reach : Reach P A r0 r)
      (live : r.live ≡ some l) where
    valid : Valid P r
    valid = Reach-Valid P reach (initial-Valid P r0 parts e genesis)

    closes :
        {C : Type 0} (step : LeafRegistry P → Live P → Result (C × Option (Live P)))
        → ok_or_closed (with_live P r l.attempt step).0 (with_live P r l.attempt step).1 l.attempt
          ≡ true
    closes step =
        StepOutcome-closes r _ l step _ valid live (with_live-StepOutcome P r l.attempt step)

    pub respond-closes :
        {B : Type 0} (mode : ResponseMode) (answer : ResponseInputs P → List ℕ → Result B)
        → is_closed P (respond_with P r l.attempt mode answer).1 l.attempt ≡ true
    unfolding respond_with
    respond-closes mode answer =
        StepOutcome-ends r _ l (respond_step P mode answer) _ valid live
          (respond_step-gone P r mode answer)
          (with_live-StepOutcome P r l.attempt (respond_step P mode answer))

    -- In a registry that genesis and any calls have led to, an operation on the live attempt
    -- succeeds or closes the attempt, and a response closes it in either case.
    pub error_closes :
        {B : Type 0} (reservation : List ℕ) (nonce : Nonce P)
        (commitments : List (Delivery P.Scalar)) (openings : List (Delivery (NoncePair P)))
        (mode : ResponseMode) (answer : ResponseInputs P → List ℕ → Result B)
        → (ok_or_closed
              (commit P r l.attempt reservation nonce).0
              (commit P r l.attempt reservation nonce).1
              l.attempt
            ≡ true)
          × (ok_or_closed
                (reveal P r l.attempt commitments).0
                (reveal P r l.attempt commitments).1
                l.attempt
              ≡ true)
          × (ok_or_closed (fix P r l.attempt openings).0 (fix P r l.attempt openings).1 l.attempt
              ≡ true)
          × (is_closed P (respond_with P r l.attempt mode answer).1 l.attempt ≡ true)
    unfolding commit reveal fix
    error_closes reservation nonce commitments openings mode answer = (
      closes (λ _. commit_step P l.attempt reservation nonce),
      closes (λ _. reveal_step P l.attempt commitments),
      closes (λ _. fix_step P l.attempt openings),
      respond-closes mode answer,
    )

  -- After a response to an attempt, whether it succeeded or not, and then any calls, every
  -- operation on the attempt is refused as closed and changes nothing: an attempt is answered
  -- once. The registry comes from genesis by any calls, and the attempt is live in it.
  pub answers_once :
      {A B C : Type 0} (r0 r s : LeafRegistry P) (parts : DeviceGenesisParts P) (e : KeyEpoch)
      (l : Live P) (mode mode' : ResponseMode) (answer : ResponseInputs P → List ℕ → Result B)
      (again : ResponseInputs P → List ℕ → Result C) (reservation : List ℕ) (nonce : Nonce P)
      (commitments : List (Delivery P.Scalar)) (openings : List (Delivery (NoncePair P)))
      → new P parts e ≡ ok r0
      → Reach P A r0 r
      → r.live ≡ some l
      → Reach P A (respond_with P r l.attempt mode answer).1 s
      → (respond_with P s l.attempt mode' again ≡ (err attempt_closed, s))
        × (commit P s l.attempt reservation nonce ≡ (err attempt_closed, s))
        × (reveal P s l.attempt commitments ≡ (err attempt_closed, s))
        × (fix P s l.attempt openings ≡ (err attempt_closed, s))
        × (close P s l.attempt ≡ (err attempt_closed, s))
  unfolding respond_with commit reveal fix
  answers_once r0 r s parts e l mode mode' answer again reservation nonce commitments openings
        genesis reach live later =
      let gone =
        closed_forever P _ s l.attempt later
          (respond-closes r0 r parts e l genesis reach live mode answer) in
      (
        closed-with_live s l.attempt (respond_step P mode' again) gone,
        closed-with_live s l.attempt (λ _. commit_step P l.attempt reservation nonce) gone,
        closed-with_live s l.attempt (λ _. reveal_step P l.attempt commitments) gone,
        closed-with_live s l.attempt (λ _. fix_step P l.attempt openings) gone,
        closed-close s l.attempt gone,
      )
