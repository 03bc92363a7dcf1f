-- ===== src/Leaf/Tests/Wire.antt =====
-- `reserve` and `respond` of leaf.rs in the run over the integers modulo 7.
use coupery_ksnf.Base.{ℕ, ◌≡◌, refl, none, some, List, [], ◌∷◌}
use coupery_ksnf.Order.{nat_key}
use coupery_ksnf.Outcome.{Result, ok, err}
use coupery_ksnf.Encoding.{put_bytes, count_u16, to_be_bytes}
use coupery_ksnf.Decoding.{get_number, get_bytes, read_slice, finish, from_be_bytes}
use coupery_ksnf.Sort.{sort_by_key, insert_sorted}
use coupery_ksnf.Shamir.{
  from_scalar, point_new, node_new, signing_share, evaluate_commitments, lagrange_at_zero,
  validate_support, validate_from, products, lagrange_rows,
}
use coupery_ksnf.Support.{
  inner_participant, inner_coefficient, outer_coefficient, inner_support, reject_duplicate_devices,
}
use coupery_ksnf.Signing.{
  bind_pair, nonce_commitments, nonce_respond, set_nonce, set_attempt, same_devices,
}
use coupery_ksnf.Signing.Context.{bindings_of, bound_pairs, signing_context, context_binding}
use coupery_ksnf.Signing.Schnorr.{binding_factor, challenge, aggregate_nonce, bound_sum}
use coupery_ksnf.Signing.Respond.{
  respond_device, validate_member_inputs, package_eq, nonces_validate_support,
}
use coupery_ksnf.Reader.{
  read_many, read_all, get_scalar, get_point, get_element, put_element, point_from_bytes,
  element_from_bytes, element_read, expect_version, ◌>>=◌,
}
use coupery_ksnf.Transcript.{RootPackage}
use coupery_ksnf.Transcript.Write.{
  reservation_to_bytes, prepackage_to_bytes, opening_to_bytes, package_to_bytes, encode_root_prefix,
  encode_root_context, encode_record, encode_public, binding_preimage, commit_body, body_to_bytes,
  encode_participants, encode_participant, encode_key_epoch,
}
use coupery_ksnf.Transcript.Read.{
  decode_package, decode_prepackage, decode_root_prefix, decode_protocol, decode_root_context,
  decode_public, decode_entries, decode_record, decode_body, decode_participant, decode_key_epoch,
}
use coupery_ksnf.Transcript.Body.{body_from_bytes, accept_body, body_new, check_coefficients}
use coupery_ksnf.Transcript.Root.{
  package_from_bytes, prepackage_from_bytes, ensure_sorted, package_entry, prepackage_eq,
  prepackage_record, validate_records, same_members,
}
use coupery_ksnf.Transcript.Frames.{decode_reservation, decode_opening, opening_from_bytes}
use coupery_ksnf.Transcript.Reservation.{
  transcript_finalize, reservation_from_bytes, accept_fields, reservation_new,
}
use coupery_ksnf.Leaf.Session.{respond_with, respond_step, with_live}
use coupery_ksnf.Leaf.State.{
  LeafRegistry, take_live, is_closed, plain_binding, epoch, issue_attempt,
}
use coupery_ksnf.Leaf.Reserve.{
  reserve_with, reserved_live, accept_reservation, validate_reservation, validate_inner_support,
  validate_outer_support, check_devices, check_people,
}
use coupery_ksnf.Leaf.Wire.{
  answer_root, respond, Answers, respond-Answers, parse_reservation, reserve, Reserved,
  reserve-Reserved,
}
use coupery_ksnf.Leaf.Tests.Attempt.{Reach-ready, ready_live}
use coupery_ksnf.Leaf.Tests as Run

abbrev root : RootPackage Run.small
root = record {
  key = 5;
  message = 9 ∷ [];
  context = record { vault = 4; epoch = 1; ceremony = 3 };
  entries =
      record { committed = record { slot = 1; member = 5; commitment = 5 }; nonce = Run.pair } ∷ [];
}

-- The value of a result that is known to be one.
abbrev value : Result (List ℕ) → List ℕ
value (ok bytes) = bytes
value (err e) = []

unfoldable root_bytes : List ℕ
unfolding package_to_bytes encode_root_prefix put_bytes count_u16 to_be_bytes encode_root_context
    encode_record encode_public
root_bytes = value (package_to_bytes Run.small root)

responds :
    respond Run.small Run.ready Run.attempt root_bytes
    ≡ (ok (record { attempt = Run.attempt; scalar = 1 }), Run.staged none)
unfolding root_bytes respond respond_with respond_step with_live take_live is_closed answer_root
    package_from_bytes package_to_bytes encode_root_prefix put_bytes count_u16 to_be_bytes
    encode_root_context encode_record encode_public read_all decode_package decode_root_prefix
    decode_protocol decode_root_context decode_public decode_entries decode_record read_many
    get_scalar get_point point_from_bytes expect_version get_number get_bytes read_slice finish
    from_be_bytes ◌>>=◌ ensure_sorted transcript_finalize prepackage_eq signing_context bindings_of
    bound_pairs binding_preimage binding_factor aggregate_nonce bound_sum challenge bind_pair
    respond_device validate_member_inputs nonces_validate_support package_eq package_entry
    same_devices inner_participant inner_coefficient from_scalar nonce_commitments point_new
    set_nonce set_attempt context_binding nonce_respond signing_share
responds = refl

respond-Answers_example :
    Answers Run.small Run.ready ready_live root_bytes (record { attempt = Run.attempt; scalar = 1 })
respond-Answers_example =
    respond-Answers Run.small Run.first Run.ready (Run.staged none) Run.parts Run.first_epoch
      ready_live root_bytes (record { attempt = Run.attempt; scalar = 1 }) Run.genesis Reach-ready
      refl responds

unfoldable reservation_bytes : List ℕ
unfolding reservation_to_bytes prepackage_to_bytes opening_to_bytes body_to_bytes encode_root_prefix
    encode_participants encode_participant encode_key_epoch put_element inner_coefficient put_bytes
    count_u16 to_be_bytes encode_root_context encode_record
reservation_bytes = value (reservation_to_bytes Run.small Run.reservation 30 100)

abbrev reserved : LeafRegistry Run.small
reserved = record Run.first {
  live = some (
      reserved_live Run.small Run.attempt 30 reservation_bytes plain_binding
        (Run.reservation, 100, 4));
  next_sequence = 1;
}

reserves :
    reserve Run.small Run.first 30 50 reservation_bytes Run.outer ≡ (ok Run.attempt, reserved)
unfolding reservation_bytes reserve parse_reservation reserve_with accept_reservation
    validate_reservation validate_inner_support validate_outer_support check_devices check_people
    epoch issue_attempt evaluate_commitments from_scalar signing_share inner_participant
    outer_coefficient reservation_from_bytes accept_fields reservation_new validate_records
    same_members prepackage_record commit_body reservation_to_bytes prepackage_to_bytes
    opening_to_bytes body_to_bytes encode_root_prefix encode_participants encode_participant
    encode_key_epoch put_element inner_coefficient put_bytes count_u16 to_be_bytes
    encode_root_context encode_record read_all decode_reservation prepackage_from_bytes
    decode_prepackage decode_root_prefix decode_protocol decode_root_context decode_record read_many
    get_scalar get_point point_from_bytes get_element element_from_bytes element_read expect_version
    get_number get_bytes read_slice finish from_be_bytes ◌>>=◌ ensure_sorted opening_from_bytes
    decode_opening body_from_bytes accept_body body_new check_coefficients decode_body
    decode_participant decode_key_epoch inner_support lagrange_at_zero reject_duplicate_devices
    sort_by_key insert_sorted validate_support validate_from products lagrange_rows node_new
reserves = refl

reserve-Reserved_example :
    Reserved Run.small Run.first reserved Run.attempt 30 50 reservation_bytes Run.outer
reserve-Reserved_example =
    reserve-Reserved Run.small Run.first reserved Run.attempt 30 50 reservation_bytes Run.outer refl
      reserves
