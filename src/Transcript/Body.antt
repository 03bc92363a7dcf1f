-- ===== src/Transcript/Body.antt =====
-- `MemberBody` and `MemberRecord` of transcript.rs: their constructors and their parsers.
use coupery_ksnf.Base.{ℕ, Bool, ◌&&◌, ◌||◌, not, List, [], ◌∷◌, list_eq, ◌==◌}
use coupery_ksnf.Order.{nat_key}
use coupery_ksnf.Outcome.{
  Result, ok, ◌>>=◌, ◌>>◌, fail_if, participant_mismatch, support_mismatch, invalid_transcript,
  coefficient_mismatch,
}
use coupery_ksnf.Types.{KeyEpoch}
use coupery_ksnf.Profile.{Profile}
use coupery_ksnf.Support.{
  DeviceParticipant, InnerSupport, OuterSupport, OuterCoefficient, inner_support, inner_coefficient,
  outer_coefficient,
}
use coupery_ksnf.Reader.{read_all}
use coupery_ksnf.Transcript.{MemberBody, MemberRecord}
use coupery_ksnf.Transcript.Read.{BodyFields, decode_body}

module _ (P : Profile) where
  open P use {Scalar, Element, scalar_eq, element_eq}

  -- `MemberBody::new`
  unfoldable pub body_new :
      Element → Element → KeyEpoch → InnerSupport P → OuterCoefficient P → Result (MemberBody P)
  body_new identity member epoch inner outer = do
    fail_if (not (epoch.anchor.person == outer.person)) participant_mismatch
    fail_if (not (element_eq member outer.member)) support_mismatch
    ok (record {
      identity = identity;
      member = member;
      epoch = epoch;
      inner = inner;
      outer = outer;
    })

  -- The derived `PartialEq` of `DeviceParticipant`.
  abbrev pub participant_eq : DeviceParticipant P → DeviceParticipant P → Bool
  participant_eq p q =
      p.device == q.device && (scalar_eq p.node q.node && element_eq p.share q.share)

  abbrev pub participants_of : List (DeviceParticipant P × Scalar) → List (DeviceParticipant P)
  participants_of [] = []
  participants_of ((p, c) ∷ ds) = p ∷ participants_of ds

  -- The loop over the participants and the encoded coefficients.
  unfoldable pub check_coefficients :
      InnerSupport P
      → List (DeviceParticipant P)
      → List (DeviceParticipant P × Scalar)
      → Result (Unit {0})
  check_coefficients inner (p ∷ ps) ((_, encoded) ∷ ds) = do
    coefficient ← inner_coefficient P inner p.device
    fail_if (not (scalar_eq coefficient encoded)) coefficient_mismatch
    check_coefficients inner ps ds
  check_coefficients inner _ _ = ok tt

  -- `MemberBody::from_bytes`, after `finish`.
  unfoldable pub accept_body : BodyFields P → OuterSupport P → Result (MemberBody P)
  unfolding body_new
  accept_body fields outer_support = do
    let encoded_order = participants_of fields.devices
    inner ← inner_support P encoded_order
    fail_if (not (list_eq participant_eq inner.participants encoded_order)) invalid_transcript
    check_coefficients inner inner.participants fields.devices
    outer ← outer_coefficient P outer_support fields.person
    fail_if (not (outer.slot == fields.slot) || not (scalar_eq outer.scalar fields.scalar))
        coefficient_mismatch
    body_new fields.identity fields.member fields.epoch inner outer

  -- `MemberBody::from_bytes`
  unfoldable pub body_from_bytes : List ℕ → OuterSupport P → Result (MemberBody P)
  unfolding accept_body
  body_from_bytes bytes outer_support = do
    fields ← read_all (decode_body P) bytes
    accept_body fields outer_support

  -- `PartialEq` of `MemberRecord`.
  abbrev pub record_eq : MemberRecord P → MemberRecord P → Bool
  record_eq r s =
      r.slot == s.slot && (element_eq r.member s.member && scalar_eq r.commitment s.commitment)
