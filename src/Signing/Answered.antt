-- ===== src/Signing/Answered.antt =====
-- What a response of `respond_device` of signing.rs gives `aggregate_member` to check.
use coupery_ksnf.Base.{ℕ, ◌≡◌, sym, ◌∙◌, ap, subst, not, arith}
use coupery_ksnf.Order.{nat_key}
use coupery_ksnf.Outcome.{
  ok, >>=-passed, fail_if-passed, ok-injective, share_mismatch, nonce_mismatch,
}
use coupery_ksnf.Profile.{Profile}
use coupery_ksnf.Shamir.{from_scalar}
use coupery_ksnf.Support.{DeviceParticipant, InnerSupport, inner_participant, inner_coefficient}
use coupery_ksnf.Signing.{
  NoncePair, Nonce, DeviceNonceSet, DeviceResponse, pair_eq, bind_pair, nonce_commitments,
  nonce_respond, set_nonce, set_attempt,
}
use coupery_ksnf.Signing.Schnorr.{verify_device}
use coupery_ksnf.Signing.Algebra.{
  GroupLaws, nonce_respond_equation, equation-verify_device, nonce_commitments-pair,
}
use coupery_ksnf.Signing.Context.{context_binding}
use coupery_ksnf.Signing.Respond.{validate_member_inputs, respond_device}
use coupery_ksnf.Transcript.Equal.{pair_eq-same}
use coupery_ksnf.Transcript.{MemberTranscript, SigningContext}

module _ (P : Profile) (transcript : MemberTranscript P) (signing : SigningContext P)
    (nonces : DeviceNonceSet P) where
  open P use {Scalar, element_eq, mul_scalar, add_element, scale}

  abbrev support : InnerSupport P
  support = transcript.opening.body.inner

  abbrev outer : Scalar
  outer = transcript.opening.body.outer.scalar

  -- The device's response is checked against what the support, the nonces and the context hold of
  -- the device, and passes.
  pub record Answered (device : ℕ) (r : DeviceResponse P) : Type 0 where
    pub participant : DeviceParticipant P
    pub pair : NoncePair P
    pub coefficient : Scalar
    pub binding : Scalar
    pub in_support : inner_participant P support device ≡ ok participant
    pub committed : set_nonce P nonces device ≡ ok pair
    pub attempted : set_attempt P nonces device ≡ ok r.attempt
    pub weighed : inner_coefficient P support device ≡ ok coefficient
    pub bound : context_binding P signing transcript.opening.body.outer.slot ≡ ok binding
    pub passes :
        verify_device P r.scalar pair binding signing.challenge
          (mul_scalar coefficient outer)
          participant.share
        ≡ ok tt

  pub respond_device-Answered :
      (l : GroupLaws P) (nonce : Nonce P) (device : ℕ) (share : Scalar) (r : DeviceResponse P)
      → respond_device P nonce transcript signing nonces device share ≡ ok r
      → Answered device r
  unfolding respond_device
  respond_device-Answered l nonce device share r h =
      let (u, valid, h1) = >>=-passed (validate_member_inputs P transcript signing nonces) _ h in
      let (participant, in_support, h2) = >>=-passed (inner_participant P support device) _ h1 in
      let (own, h3) =
        fail_if-passed (not (element_eq participant.share (from_scalar P share))) share_mismatch _
          h2 in
      let (pair, public, h4) = >>=-passed (nonce_commitments P nonce) _ h3 in
      let (held, committed, h5) = >>=-passed (set_nonce P nonces device) _ h4 in
      let (same, h6) = fail_if-passed (not (pair_eq P pair held)) nonce_mismatch _ h5 in
      let (coefficient, weighed, h7) = >>=-passed (inner_coefficient P support device) _ h6 in
      let (binding, bound, h8) =
        >>=-passed (context_binding P signing transcript.opening.body.outer.slot) _ h7 in
      let (attempt, attempted, h9) = >>=-passed (set_attempt P nonces device) _ h8 in
      let k = mul_scalar coefficient outer in
      let scalar = nonce_respond P nonce binding signing.challenge k share in
      let share_is : participant.share ≡ from_scalar P share =
        (P.element_eq_iff participant.share (from_scalar P share)).0 (ground (arith, own)) in
      let pair_is : held
          ≡ record { hiding = from_scalar P nonce.hiding; binding = from_scalar P nonce.binding } =
        sym (pair_eq-same P pair held (ground (arith, same)))
        ∙ nonce_commitments-pair P nonce pair public in
      subst (Answered device) (ok-injective _ _ h9) (record {
        participant = participant;
        pair = held;
        coefficient = coefficient;
        binding = binding;
        in_support = in_support;
        committed = committed;
        attempted = attempted;
        weighed = weighed;
        bound = bound;
        passes =
            equation-verify_device P scalar held binding signing.challenge k participant.share (
              nonce_respond_equation P l nonce binding signing.challenge k share
              ∙ ap
                  (λ p.
                    add_element (bind_pair P p binding)
                      (scale (from_scalar P share) (mul_scalar signing.challenge k)))
                  (sym pair_is)
              ∙ ap
                  (λ x.
                    add_element (bind_pair P held binding)
                      (scale x (mul_scalar signing.challenge k)))
                  (sym share_is));
      })
