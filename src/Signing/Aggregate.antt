-- ===== src/Signing/Aggregate.antt =====
-- `aggregate_member` and `aggregate_signature` of signing.rs.
use coupery_ksnf.Base.{◌||◌, not, List, ◌∷◌, length, ◌==◌}
use coupery_ksnf.Order.{nat_key}
use coupery_ksnf.Sort.{sort_by_key}
use coupery_ksnf.Outcome.{
  Result, ok, ◌>>=◌, ◌>>◌, fail_if, support_mismatch, duplicate_participant, duplicate_slot,
  attempt_mismatch,
}
use coupery_ksnf.Types.{attempt_eq}
use coupery_ksnf.Profile.{Profile}
use coupery_ksnf.Support.{
  DeviceParticipant, PersonParticipant, InnerSupport, OuterSupport, inner_coefficient,
  outer_coefficient,
}
use coupery_ksnf.Signing.{
  DeviceNonceSet, DeviceResponse, MemberResponse, Signature, has_adjacent, set_nonce, set_attempt,
}
use coupery_ksnf.Signing.Schnorr.{verify_device, verify_member, signature_verify}
use coupery_ksnf.Signing.Context.{context_binding}
use coupery_ksnf.Signing.Respond.{validate_member_inputs}
use coupery_ksnf.Transcript.{RootEntry, MemberTranscript, SigningContext}
use coupery_ksnf.Transcript.Root.{package_validate_support}

module _ (P : Profile) where
  open P use {Scalar, zero_scalar, add_scalar, mul_scalar}

  -- The loop of `aggregate_member`, over the responses and the participants, from a sum.
  unfoldable pub sum_devices :
      InnerSupport P
      → DeviceNonceSet P
      → Scalar
      → Scalar
      → Scalar
      → Scalar
      → List (DeviceResponse P)
      → List (DeviceParticipant P)
      → Result Scalar
  sum_devices support nonces binding c outer sum (partial ∷ rest) (participant ∷ participants) = do
    fail_if (not (partial.attempt.device == participant.device)) support_mismatch
    attempt ← set_attempt P nonces partial.attempt.device
    fail_if (not (attempt_eq partial.attempt attempt)) attempt_mismatch
    inner ← inner_coefficient P support partial.attempt.device
    nonce ← set_nonce P nonces partial.attempt.device
    verify_device P partial.scalar nonce binding c (mul_scalar inner outer) participant.share
    sum_devices support nonces binding c outer (add_scalar sum partial.scalar) rest participants
  sum_devices support nonces binding c outer sum _ _ = ok sum

  -- `aggregate_member`
  unfoldable pub aggregate_member :
      MemberTranscript P
      → SigningContext P
      → DeviceNonceSet P
      → List (DeviceResponse P)
      → Result (MemberResponse P)
  unfolding sum_devices
  aggregate_member transcript signing nonces responses = do
    validate_member_inputs P transcript signing nonces
    let body = transcript.opening.body
    fail_if (not (length responses == length body.inner.participants)) support_mismatch
    let sorted = sort_by_key (λ r. r.attempt.device) responses
    fail_if (has_adjacent P (λ r. r.attempt.device) sorted) duplicate_participant
    binding ← context_binding P signing body.outer.slot
    response ←
        sum_devices body.inner nonces binding signing.challenge body.outer.scalar zero_scalar sorted
          body.inner.participants
    verify_member P response nonces.aggregate binding signing.challenge body.outer.scalar
        body.member
    ok (record { slot = body.outer.slot; scalar = response })

  -- The loop of `aggregate_signature`, over the responses, the participants and the entries.
  unfoldable pub sum_members :
      SigningContext P
      → OuterSupport P
      → Scalar
      → List (MemberResponse P)
      → List (PersonParticipant P)
      → List (RootEntry P)
      → Result Scalar
  sum_members signing support sum (partial ∷ rest) (participant ∷ participants) (entry ∷ entries) =
      do
        fail_if
            (not (partial.slot == participant.slot)
              || not (entry.committed.slot == participant.slot))
            support_mismatch
        coefficient ← outer_coefficient P support participant.person
        binding ← context_binding P signing partial.slot
        verify_member P partial.scalar entry.nonce binding signing.challenge coefficient.scalar
            participant.member
        sum_members signing support (add_scalar sum partial.scalar) rest participants entries
  sum_members signing support sum _ _ _ = ok sum

  -- `aggregate_signature`
  unfoldable pub aggregate_signature :
      SigningContext P → OuterSupport P → List (MemberResponse P) → Result (Signature P)
  unfolding sum_members
  aggregate_signature signing support responses = do
    package_validate_support P signing.root support
    fail_if (not (length responses == length support.participants)) support_mismatch
    let sorted = sort_by_key (λ r. r.slot) responses
    fail_if (has_adjacent P (λ r. r.slot) sorted) duplicate_slot
    response ←
        sum_members signing support zero_scalar sorted support.participants signing.root.entries
    let signature : Signature P = record { nonce = signing.nonce; response = response }
    signature_verify P signature signing.root.key signing.root.message
    ok signature
