-- ===== src/Transcript/Tests.antt =====
-- transcript.rs run on the group of order three: a vault of two people, the first of whom signs
-- with two devices, and the theorems about its reservation and its root package there.
use coupery_ksnf.Base.{◌↔◌, ℕ, ◌≡◌, refl, List, [], ◌∷◌, arith}
use coupery_ksnf.Outcome.{Result, ok, err}
use coupery_ksnf.Types.{KeyEpoch}
use coupery_ksnf.Ternary.{r0, r1, r2, ternary, ternary_codec}
use coupery_ksnf.Encoding.{put_bytes, count_u16, to_be_bytes}
use coupery_ksnf.Sort.{sort_by_key, insert_sorted}
use coupery_ksnf.Shamir.{
  node_new, lagrange_at_zero, validate_support, validate_from, products, lagrange_rows,
}
use coupery_ksnf.Support.{
  DeviceParticipant, InnerSupport, OuterSupport, OuterCoefficient, inner_support, outer_coefficient,
  inner_coefficient, reject_duplicate_devices,
}
use coupery_ksnf.Signing.{has_adjacent}
use coupery_ksnf.Reader.{put_element}
use coupery_ksnf.Transcript.{
  RootContext, MemberRecord, MemberBody, MemberNonce, RootPrepackage, RootPackage, MemberOpening,
  MemberReservation,
}
use coupery_ksnf.Transcript.Write.{
  encode_root_prefix, prepackage_to_bytes, opening_to_bytes, reservation_to_bytes, package_to_bytes,
  body_to_bytes, encode_participants, encode_participant, encode_record, encode_public,
  encode_key_epoch, encode_root_context, commit_body,
}
use coupery_ksnf.Transcript.Body.{body_new}
use coupery_ksnf.Transcript.Root.{
  ensure_sorted, validate_records, same_members, prepackage_new, prepackage_record,
  package_finalize, join_nonces, package_from_bytes, package_prepackage,
}
use coupery_ksnf.Transcript.Reservation.{
  reservation_new, reservation_from_bytes, transcript_finalize,
}
use coupery_ksnf.Transcript.Order.{ensure_sorted_iff}
use coupery_ksnf.Sort.Increasing.{Increasing}
use coupery_ksnf.Transcript.Finalize.{
  package_finalize-transcript, package_from_bytes-package_finalize,
}
use coupery_ksnf.Transcript.ReservationRoundTrip.{
  PrepackageMade, BodyMade, reservation_from_bytes-reservation_to_bytes,
}

abbrev pub devices : List (DeviceParticipant ternary)
devices =
    record { device = 9; node = r2; share = r0 } ∷ record { device = 8; node = r1; share = r2 } ∷ []

abbrev pub inner : InnerSupport ternary
inner = record {
  participants =
      record { device = 8; node = r1; share = r2 }
      ∷ record { device = 9; node = r2; share = r0 }
      ∷ [];
  coefficients = r2 ∷ r2 ∷ [];
}

abbrev pub people : OuterSupport ternary
people = record {
  participants =
      record { person = 6; slot = 0; node = r1; member = r1 }
      ∷ record { person = 7; slot = 1; node = r2; member = r1 }
      ∷ [];
  coefficients = r2 ∷ r2 ∷ [];
}

abbrev pub own : OuterCoefficient ternary
own = record { person = 6; slot = 0; member = r1; scalar = r2 }

abbrev key_epoch : KeyEpoch
key_epoch = record {
  outer = 1;
  inner = 1;
  anchor = record { vault = 4; person = 6; identity = 20; member = 21 };
}

abbrev body : MemberBody ternary
body = record { identity = r2; member = r1; epoch = key_epoch; inner = inner; outer = own }

abbrev pub opening : MemberOpening ternary
opening = record { body = body; salt = r2 }

abbrev pub root_context : RootContext
root_context = record { vault = 4; epoch = 1; ceremony = 12 }

abbrev pub message : List ℕ
message = 104 ∷ 105 ∷ []

abbrev pub own_record : MemberRecord ternary
own_record = record { slot = 0; member = r1; commitment = r1 }

abbrev pub other_record : MemberRecord ternary
other_record = record { slot = 1; member = r1; commitment = r0 }

abbrev pub prepackage : RootPrepackage ternary
prepackage = record {
  key = r1;
  message = message;
  context = root_context;
  records = own_record ∷ other_record ∷ [];
}

abbrev reservation : MemberReservation ternary
reservation = record { prepackage = prepackage; opening = opening }

pub inner_made : inner_support ternary devices ≡ ok inner
unfolding inner_support lagrange_at_zero reject_duplicate_devices sort_by_key insert_sorted
    validate_support validate_from products lagrange_rows
inner_made = refl

own_made : outer_coefficient ternary people 6 ≡ ok own
unfolding outer_coefficient
own_made = refl

pub prepackage_made :
    prepackage_new ternary r1 message root_context people (other_record ∷ own_record ∷ [])
    ≡ ok prepackage
unfolding prepackage_new validate_records same_members prepackage_to_bytes encode_root_prefix
    put_bytes count_u16 to_be_bytes sort_by_key insert_sorted has_adjacent
prepackage_made = refl

reservation_made : reservation_new ternary prepackage opening people ≡ ok reservation
unfolding reservation_new validate_records same_members prepackage_record commit_body put_bytes
    body_to_bytes encode_participants encode_participant encode_key_epoch put_element
    inner_coefficient count_u16 to_be_bytes
reservation_made = refl

body_made : body_new ternary r2 r1 key_epoch inner own ≡ ok body
unfolding body_new
body_made = refl

prepackage-Made : PrepackageMade ternary ternary_codec people prepackage
prepackage-Made = record {
  given = other_record ∷ own_record ∷ [];
  made = prepackage_made;
  key = refl;
  context = (omega arith, omega arith, omega arith);
  records = ((omega arith, refl), ((omega arith, refl), tt));
}

body-Made : BodyMade ternary ternary_codec people body
unfolding node_new
body-Made = record {
  given = devices;
  inner_made = inner_made;
  outer_made = own_made;
  made = body_made;
  identity = refl;
  member = refl;
  epoch = (omega arith, omega arith, omega arith, omega arith, omega arith, omega arith);
  devices = ((omega arith, refl), ((omega arith, refl), tt));
  person = omega arith;
  slot = omega arith;
}

-- The value of a result that is known to be one.
abbrev value : Result (List ℕ) → List ℕ
value (ok bytes) = bytes
value (err e) = []

unfoldable reservation_bytes : List ℕ
unfolding reservation_to_bytes prepackage_to_bytes opening_to_bytes body_to_bytes encode_root_prefix
    encode_participants encode_participant encode_key_epoch put_element inner_coefficient put_bytes
    count_u16 to_be_bytes encode_root_context encode_record
reservation_bytes = value (reservation_to_bytes ternary reservation 30 100)

spelled : reservation_to_bytes ternary reservation 30 100 ≡ ok reservation_bytes
unfolding reservation_bytes reservation_to_bytes prepackage_to_bytes opening_to_bytes body_to_bytes
    encode_root_prefix encode_participants encode_participant encode_key_epoch put_element
    inner_coefficient put_bytes count_u16 to_be_bytes encode_root_context encode_record
spelled = refl

reservation_from_bytes-reservation_to_bytes_example :
    reservation_from_bytes ternary reservation_bytes people ≡ ok (reservation, (30, 100))
reservation_from_bytes-reservation_to_bytes_example =
    reservation_from_bytes-reservation_to_bytes ternary ternary_codec people reservation 30 100
      reservation_bytes prepackage-Made body-Made reservation_made (omega arith) (omega arith)
      spelled

abbrev pub nonces : List (MemberNonce ternary)
nonces =
    record { slot = 1; nonce = record { hiding = r1; binding = r1 } }
    ∷ record { slot = 0; nonce = record { hiding = r2; binding = r2 } }
    ∷ []

abbrev pub root : RootPackage ternary
root = record {
  key = r1;
  message = message;
  context = root_context;
  entries =
      record { committed = own_record; nonce = record { hiding = r2; binding = r2 } }
      ∷ record { committed = other_record; nonce = record { hiding = r1; binding = r1 } }
      ∷ [];
}

pub finalizes : package_finalize ternary prepackage people nonces ≡ ok root
unfolding package_finalize validate_records same_members join_nonces package_to_bytes
    encode_root_prefix put_bytes count_u16 to_be_bytes sort_by_key insert_sorted has_adjacent
finalizes = refl

package_finalize-transcript_example :
    (package_prepackage ternary root ≡ prepackage)
    × (transcript_finalize ternary root reservation
        ≡ ok (record { root = root; opening = opening }))
package_finalize-transcript_example =
    package_finalize-transcript ternary reservation people nonces root finalizes

unfoldable package_bytes : List ℕ
unfolding package_to_bytes encode_root_prefix put_bytes count_u16 to_be_bytes encode_root_context
    encode_record encode_public
package_bytes = value (package_to_bytes ternary root)

package_spelled : package_to_bytes ternary root ≡ ok package_bytes
unfolding package_bytes package_to_bytes encode_root_prefix put_bytes count_u16 to_be_bytes
    encode_root_context encode_record encode_public
package_spelled = refl

package_from_bytes-package_finalize_example : package_from_bytes ternary package_bytes ≡ ok root
package_from_bytes-package_finalize_example =
    package_from_bytes-package_finalize ternary ternary_codec prepackage people nonces root
      package_bytes prepackage-Made ((refl, refl), ((refl, refl), tt)) finalizes package_spelled

ensure_sorted_iff_example :
    (ensure_sorted (λ r. r.slot) prepackage.records ≡ ok tt)
    ↔ Increasing (λ r. r.slot) prepackage.records
ensure_sorted_iff_example = ensure_sorted_iff (λ r. r.slot) prepackage.records
