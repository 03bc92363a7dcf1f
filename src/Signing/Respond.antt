-- ===== src/Signing/Respond.antt =====
-- `respond_device` of signing.rs.
use coupery_ksnf.Base.{ℕ, Bool, ◌&&◌, not, length, list_eq, ◌==◌}
use coupery_ksnf.Order.{nat_key}
use coupery_ksnf.Outcome.{
  Result, ok, ◌>>=◌, ◌>>◌, fail_if, invalid_transcript, support_mismatch, nonce_mismatch,
  share_mismatch,
}
use coupery_ksnf.Profile.{Profile}
use coupery_ksnf.Auth.{bytes_eq}
use coupery_ksnf.Shamir.{from_scalar}
use coupery_ksnf.Support.{InnerSupport, inner_participant, inner_coefficient}
use coupery_ksnf.Signing.{
  Nonce, DeviceNonceSet, DeviceResponse, pair_eq, nonce_commitments, nonce_respond, same_devices,
  set_nonce, set_attempt,
}
use coupery_ksnf.Signing.Context.{context_binding}
use coupery_ksnf.Transcript.{RootEntry, RootPackage, MemberTranscript, SigningContext}
use coupery_ksnf.Transcript.Body.{record_eq}
use coupery_ksnf.Transcript.Root.{package_entry, context_eq}

module _ (P : Profile) where
  open P use {Scalar, Element, element_eq, mul_scalar}

  abbrev pub entry_eq : RootEntry P → RootEntry P → Bool
  entry_eq e f = record_eq P e.committed f.committed && pair_eq P e.nonce f.nonce

  -- The derived `PartialEq` of `RootPackage`.
  unfoldable pub package_eq : RootPackage P → RootPackage P → Bool
  package_eq p q =
      element_eq p.key q.key
      && (bytes_eq p.message q.message
          && (context_eq P p.context q.context && list_eq entry_eq p.entries q.entries))

  -- `DeviceNonceSet::validate_support`
  unfoldable pub nonces_validate_support : DeviceNonceSet P → InnerSupport P → Result (Unit {0})
  nonces_validate_support nonces support =
      fail_if
        (not (
          length nonces.entries == length support.participants
          && same_devices P nonces.entries support.participants))
        support_mismatch

  -- `validate_member_inputs`
  unfoldable pub validate_member_inputs :
      MemberTranscript P → SigningContext P → DeviceNonceSet P → Result (Unit {0})
  unfolding package_eq nonces_validate_support
  validate_member_inputs transcript signing nonces = do
    fail_if (not (package_eq transcript.root signing.root)) invalid_transcript
    nonces_validate_support nonces transcript.opening.body.inner
    entry ← package_entry P transcript.root transcript.opening.body.outer.slot
    fail_if (not (pair_eq P entry.nonce nonces.aggregate)) nonce_mismatch

  -- `respond_device`
  unfoldable pub respond_device :
      Nonce P
      → MemberTranscript P
      → SigningContext P
      → DeviceNonceSet P
      → ℕ
      → Scalar
      → Result (DeviceResponse P)
  unfolding validate_member_inputs
  respond_device nonce transcript signing nonces device share = do
    validate_member_inputs transcript signing nonces
    participant ← inner_participant P transcript.opening.body.inner device
    fail_if (not (element_eq participant.share (from_scalar P share))) share_mismatch
    pair ← nonce_commitments P nonce
    held ← set_nonce P nonces device
    fail_if (not (pair_eq P pair held)) nonce_mismatch
    inner ← inner_coefficient P transcript.opening.body.inner device
    binding ← context_binding P signing transcript.opening.body.outer.slot
    attempt ← set_attempt P nonces device
    ok (record {
      attempt = attempt;
      scalar =
          nonce_respond P nonce binding signing.challenge
            (mul_scalar inner transcript.opening.body.outer.scalar) share;
    })
