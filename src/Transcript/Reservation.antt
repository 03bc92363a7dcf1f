-- ===== src/Transcript/Reservation.antt =====
-- `MemberOpening`, `MemberReservation` and `MemberTranscript` of transcript.rs.
use coupery_ksnf.Base.{ℕ, ◌||◌, not, List, ◌==◌}
use coupery_ksnf.Order.{nat_key}
use coupery_ksnf.Profile.{Profile}
use coupery_ksnf.Outcome.{Result, ok, ◌>>=◌, ◌>>◌, fail_if, invalid_transcript, commitment_mismatch}
use coupery_ksnf.Support.{OuterSupport}
use coupery_ksnf.Reader.{read_all}
use coupery_ksnf.Transcript.{
  RootPrepackage, RootPackage, MemberRecord, MemberOpening, MemberReservation, MemberTranscript,
}
use coupery_ksnf.Transcript.Write.{commit_body}
use coupery_ksnf.Transcript.Body.{record_eq}
use coupery_ksnf.Transcript.Root.{
  validate_records, prepackage_record, package_prepackage, prepackage_eq,
}
use coupery_ksnf.Transcript.Frames.{ReservationFields, decode_reservation}

module _ (P : Profile) where
  -- `MemberOpening::record`
  abbrev pub opening_record : MemberOpening P → Result (MemberRecord P)
  opening_record o = commit_body P o.body o.salt

  -- `MemberReservation::new`
  unfoldable pub reservation_new :
      RootPrepackage P → MemberOpening P → OuterSupport P → Result (MemberReservation P)
  reservation_new prepackage opening outer_support = do
    validate_records P prepackage.records outer_support
    let body = opening.body
    fail_if
        (not (body.epoch.outer == prepackage.context.epoch)
          || not (body.epoch.anchor.vault == prepackage.context.vault))
        invalid_transcript
    held ← prepackage_record P prepackage body.outer.slot
    own ← opening_record opening
    fail_if (not (record_eq P held own)) commitment_mismatch
    ok (record { prepackage = prepackage; opening = opening })

  -- `MemberReservation::from_bytes`, after `finish`.
  unfoldable pub accept_fields :
      ReservationFields P → OuterSupport P → Result (MemberReservation P × (ℕ × ℕ))
  unfolding reservation_new
  accept_fields fields outer_support = do
    reservation ← reservation_new fields.prepackage fields.opening outer_support
    fail_if (not (reservation.opening.body.outer.slot == fields.slot)) invalid_transcript
    ok (reservation, (fields.session, fields.expiry))

  -- `MemberReservation::from_bytes`
  unfoldable pub reservation_from_bytes :
      List ℕ → OuterSupport P → Result (MemberReservation P × (ℕ × ℕ))
  unfolding accept_fields
  reservation_from_bytes bytes outer_support = do
    fields ← read_all (decode_reservation P outer_support) bytes
    accept_fields fields outer_support

  -- `MemberTranscript::finalize`
  unfoldable pub transcript_finalize :
      RootPackage P → MemberReservation P → Result (MemberTranscript P)
  unfolding prepackage_eq
  transcript_finalize root reservation = do
    fail_if (not (prepackage_eq P (package_prepackage P root) reservation.prepackage))
        invalid_transcript
    ok (record { root = root; opening = reservation.opening })

  -- `MemberTranscript::new`
  unfoldable pub transcript_new :
      RootPackage P → MemberOpening P → OuterSupport P → Result (MemberTranscript P)
  unfolding reservation_new transcript_finalize
  transcript_new root opening outer_support = do
    reservation ← reservation_new (package_prepackage P root) opening outer_support
    transcript_finalize root reservation
