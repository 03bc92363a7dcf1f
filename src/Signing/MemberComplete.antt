-- ===== src/Signing/MemberComplete.antt =====
-- `aggregate_member` of signing.rs accepts the responses of `respond_device`.
use coupery_ksnf.Base.{ℕ, suc, ◌<◌, ◌≡◌, refl, sym, ◌∙◌, ap, subst, false, List, length, All, arith}
use coupery_ksnf.Order.{nat_key}
use coupery_ksnf.Sort.{sort_by_key}
use coupery_ksnf.Sort.Increasing.{Increasing, length-sort_by_key}
use coupery_ksnf.Sort.Distinct.{Increasing-has_adjacent}
use coupery_ksnf.Outcome.{ok}
use coupery_ksnf.Profile.{Profile}
use coupery_ksnf.Shamir.{from_scalar}
use coupery_ksnf.Support.{DeviceParticipant, InnerSupport, inner_support}
use coupery_ksnf.Support.Order.{inner_support-Increasing}
use coupery_ksnf.Signing.{
  DeviceNonce, DeviceNonceSet, DeviceResponse, MemberResponse, bind_pair, device_nonce_set,
  has_adjacent,
}
use coupery_ksnf.Signing.Schnorr.{verify_member}
use coupery_ksnf.Signing.Algebra.{GroupLaws, equation-verify_member}
use coupery_ksnf.Signing.Context.{context_binding}
use coupery_ksnf.Signing.Respond.{validate_member_inputs}
use coupery_ksnf.Signing.Aggregate.{sum_devices, aggregate_member}
use coupery_ksnf.Signing.MemberSum.{
  weighted_shares, nonce_sums, RoundsPass, none_left, round, SumHolds, sum_devices-SumHolds,
}
use coupery_ksnf.Signing.MemberRounds.{
  device_nonce_set-NoncesMade, All-Memᴰ, Responses, Responses-pass,
}
use coupery_ksnf.Transcript.{MemberTranscript, SigningContext}

module _ (P : Profile) where
  open P use {Scalar, Element, zero_scalar, add_element, scale, mul_scalar, identity, generator}

  module _ (l : GroupLaws P) (support : InnerSupport P) (nonces : DeviceNonceSet P)
      (binding c outer : Scalar) where
    -- The responses have the devices of the participants, in their order.
    RoundsPass-All :
        (n : ℕ) (ps : List (DeviceParticipant P)) (es : List (DeviceNonce P))
        (rs : List (DeviceResponse P))
        → RoundsPass P l support nonces binding c outer ps es rs
        → All (λ p. n < p.device) ps
        → All (λ r. n < r.attempt.device) rs
    RoundsPass-All n _ _ _ none_left h = tt
    RoundsPass-All n _ _ _ (round k rest) (lt, above) =
        (omega (arith, lt, k.named), RoundsPass-All n _ _ _ rest above)

    RoundsPass-Increasing :
        (ps : List (DeviceParticipant P)) (es : List (DeviceNonce P)) (rs : List (DeviceResponse P))
        → RoundsPass P l support nonces binding c outer ps es rs
        → Increasing (λ p. p.device) ps
        → Increasing (λ r. r.attempt.device) rs
    RoundsPass-Increasing _ _ _ none_left h = tt
    RoundsPass-Increasing _ _ _ (round {p = p} {r = r} {ps = ps} {rs = rs} k rest) (above, later) =
        (
          subst (λ n. All (λ x. n < x.attempt.device) rs) (sym k.named)
              (RoundsPass-All p.device ps _ rs rest above),
          RoundsPass-Increasing _ _ _ rest later,
        )

    RoundsPass-length :
        (ps : List (DeviceParticipant P)) (es : List (DeviceNonce P)) (rs : List (DeviceResponse P))
        → RoundsPass P l support nonces binding c outer ps es rs
        → length rs ≡ length ps
    RoundsPass-length _ _ _ none_left = refl
    RoundsPass-length _ _ _ (round k rest) = ap suc (RoundsPass-length _ _ _ rest)

    SumHolds-start :
        SumHolds P l support nonces binding c outer zero_scalar (identity, identity) identity
    unfolding from_scalar
    SumHolds-start =
        l.scale-zero generator
        ∙ sym (
            ap (λ x. add_element (add_element identity x) (scale identity (mul_scalar c outer)))
              (l.scale-identity binding)
            ∙ ap (λ x. add_element (add_element identity identity) x)
                (l.scale-identity (mul_scalar c outer))
            ∙ ap (λ x. add_element x identity) (l.identity-add identity)
            ∙ l.identity-add identity)

  sum_verifies :
      (out : Scalar) (nonces : DeviceNonceSet P) (binding weight : Scalar) (member : Element)
      (sums : Element × Element)
      → sums.0 ≡ nonces.aggregate.hiding
      → sums.1 ≡ nonces.aggregate.binding
      → from_scalar P out
        ≡ add_element (add_element sums.0 (scale sums.1 binding)) (scale member weight)
      → from_scalar P out ≡ add_element (bind_pair P nonces.aggregate binding) (scale member weight)
  unfolding bind_pair
  sum_verifies out nonces binding weight member sums hiding binds holds =
      holds
      ∙ ap (λ x. add_element (add_element x (scale sums.1 binding)) (scale member weight)) hiding
      ∙ ap
          (λ x.
            add_element (add_element nonces.aggregate.hiding (scale x binding))
              (scale member weight))
          binds

  aggregated :
      (transcript : MemberTranscript P) (signing : SigningContext P) (nonces : DeviceNonceSet P)
      (responses : List (DeviceResponse P)) (binding out : Scalar)
      → validate_member_inputs P transcript signing nonces ≡ ok tt
      → context_binding P signing transcript.opening.body.outer.slot ≡ ok binding
      → length responses ≡ length transcript.opening.body.inner.participants
      → has_adjacent P (λ r. r.attempt.device) (sort_by_key (λ r. r.attempt.device) responses)
        ≡ false
      → sum_devices P transcript.opening.body.inner nonces binding signing.challenge
          transcript.opening.body.outer.scalar zero_scalar
          (sort_by_key (λ r. r.attempt.device) responses)
          transcript.opening.body.inner.participants
        ≡ ok out
      → verify_member P out nonces.aggregate binding signing.challenge
          transcript.opening.body.outer.scalar transcript.opening.body.member
        ≡ ok tt
      → aggregate_member P transcript signing nonces responses
        ≡ ok (record { slot = transcript.opening.body.outer.slot; scalar = out })
  unfolding aggregate_member
  aggregated transcript signing nonces responses binding out valid bound many apart sums_to
        verified =
      ground arith

  -- The group being a commutative group on which the scalars act: if every device of a support
  -- that `InnerSupport::new` made has responded with `respond_device`, each to the nonces that
  -- `DeviceNonceSet::new` made, and the weighted shares of the support sum to the member's point,
  -- then `aggregate_member` accepts the responses in any order: no check of it fails. Its response
  -- is of the transcript's slot and passes the check that `aggregate_signature` makes of it.
  pub aggregate_member_completes :
      (l : GroupLaws P) (transcript : MemberTranscript P) (signing : SigningContext P)
      (nonces : DeviceNonceSet P) (devices : List (DeviceParticipant P))
      (entries : List (DeviceNonce P)) (responses : List (DeviceResponse P)) (binding : Scalar)
      → inner_support P devices ≡ ok transcript.opening.body.inner
      → device_nonce_set P transcript.opening.body.inner entries ≡ ok nonces
      → validate_member_inputs P transcript signing nonces ≡ ok tt
      → context_binding P signing transcript.opening.body.outer.slot ≡ ok binding
      → weighted_shares P transcript.opening.body.inner identity
          transcript.opening.body.inner.participants
        ≡ ok transcript.opening.body.member
      → Responses P transcript signing nonces transcript.opening.body.inner.participants
          (sort_by_key (λ r. r.attempt.device) responses)
      → (response : MemberResponse P) × (aggregate_member P transcript signing nonces responses
          ≡ ok response)
        × (response.slot ≡ transcript.opening.body.outer.slot)
        × (verify_member P response.scalar nonces.aggregate binding signing.challenge
              transcript.opening.body.outer.scalar transcript.opening.body.member
            ≡ ok tt)
  aggregate_member_completes l transcript signing nonces devices entries responses binding supported
        committed valid bound shared answers =
      let body = transcript.opening.body in
      let sorted = sort_by_key (λ r. r.attempt.device) responses in
      let ordered = inner_support-Increasing P devices body.inner supported in
      let made = device_nonce_set-NoncesMade P body.inner entries nonces committed in
      let passes =
        Responses-pass P transcript signing nonces l binding made ordered bound
          body.inner.participants nonces.entries sorted (All-Memᴰ P body.inner.participants)
          (All-Memᴰ P nonces.entries) made.many made.same answers in
      let (out, sums_to, holds) =
        sum_devices-SumHolds P l body.inner nonces binding signing.challenge body.outer.scalar
          body.inner.participants nonces.entries sorted zero_scalar (identity, identity) identity
          body.member passes
          (SumHolds-start l body.inner nonces binding signing.challenge body.outer.scalar) shared in
      let verified =
        equation-verify_member P out nonces.aggregate binding signing.challenge body.outer.scalar
          body.member
          (sum_verifies out nonces binding (mul_scalar signing.challenge body.outer.scalar)
            body.member (nonce_sums P (identity, identity) nonces.entries) made.hiding made.binding
            holds) in
      let increasing =
        RoundsPass-Increasing l body.inner nonces binding signing.challenge body.outer.scalar _ _
          sorted passes ordered in
      let many =
        sym (length-sort_by_key (λ r. r.attempt.device) responses)
        ∙ RoundsPass-length l body.inner nonces binding signing.challenge body.outer.scalar _ _
            sorted passes in
      let apart = Increasing-has_adjacent P (λ r. r.attempt.device) sorted increasing in
      let response : MemberResponse P = record { slot = body.outer.slot; scalar = out } in
      (
        response,
        aggregated transcript signing nonces responses binding out valid bound many apart sums_to
            verified,
        refl,
        verified,
      )
