-- ===== src/Signing/Tests.antt =====
-- signing.rs run on the group of order three: the two devices of one person respond, in the wrong
-- order, to the root package of the tests of transcript.rs; with the other person's response a
-- signature is made.
use coupery_ksnf.Base.{arith, ℕ, ◌≡◌, refl, List, [], ◌∷◌}
use coupery_ksnf.Order.{nat_key}
use coupery_ksnf.Outcome.{ok}
use coupery_ksnf.Types.{LeafAttempt}
use coupery_ksnf.Ternary.{Residue, r0, r1, r2, ternary, ternary_codec, ternary_laws}
use coupery_ksnf.Encoding.{put_bytes, count_u16, to_be_bytes}
use coupery_ksnf.Sort.{sort_by_key, insert_sorted}
use coupery_ksnf.Shamir.{from_scalar, point_new}
use coupery_ksnf.Support.{inner_coefficient, inner_participant, outer_coefficient}
use coupery_ksnf.Signing.{
  Nonce, DeviceNonce, DeviceNonceSet, DeviceResponse, MemberResponse, Signature, bind_pair,
  device_nonce_set, sum_nonce_pairs, same_devices, has_adjacent, nonce_commitments, nonce_respond,
  set_nonce, set_attempt,
}
use coupery_ksnf.Signing.Schnorr.{
  binding_factor, challenge, aggregate_nonce, bound_sum, verify_member, signature_verify,
}
use coupery_ksnf.Signing.Context.{bindings_of, bound_pairs, signing_context, context_binding}
use coupery_ksnf.Signing.Respond.{
  respond_device, validate_member_inputs, nonces_validate_support, package_eq,
}
use coupery_ksnf.Signing.Aggregate.{aggregate_member, aggregate_signature}
use coupery_ksnf.Signing.MemberSum.{weighted_shares}
use coupery_ksnf.Signing.MemberRounds.{Responses, done, responds}
use coupery_ksnf.Signing.MemberComplete.{aggregate_member_completes}
use coupery_ksnf.Signing.OuterSum.{weighted_members, MembersPass, all_passed, member_passed}
use coupery_ksnf.Signing.SignatureComplete.{aggregate_signature_completes}
use coupery_ksnf.Signing.Wire.{
  device_response_to_bytes, device_response_try_from, member_response_to_bytes,
  member_response_try_from, try_from-responses,
}
use coupery_ksnf.Transcript.{MemberTranscript, SigningContext}
use coupery_ksnf.Transcript.Write.{
  binding_preimage, package_to_bytes, encode_root_prefix, encode_root_context, encode_record,
  encode_public,
}
use coupery_ksnf.Transcript.Root.{package_entry}
use coupery_ksnf.Transcript.Tests.{
  devices, inner, inner_made, people, root, opening, prepackage, prepackage_made, nonces, finalizes,
  message, root_context, own_record, other_record,
}

abbrev transcript : MemberTranscript ternary
transcript = record { root = root; opening = opening }

abbrev signing : SigningContext ternary
signing = record { root = root; bindings = (0, r0) ∷ (1, r1) ∷ []; nonce = r1; challenge = r2 }

context_made : signing_context ternary root ≡ ok signing
unfolding signing_context bindings_of bound_pairs binding_preimage binding_factor package_to_bytes
    encode_root_prefix encode_root_context encode_record encode_public put_bytes count_u16
    to_be_bytes aggregate_nonce bound_sum challenge bind_pair
context_made = refl

abbrev attempt : ℕ → LeafAttempt
attempt device = record { device = device; sequence = 3 }

abbrev device_nonce : ℕ → DeviceNonce ternary
device_nonce device = record {
  attempt = attempt device;
  nonce = record { hiding = r1; binding = r1 };
}

abbrev device_nonces : DeviceNonceSet ternary
device_nonces = record {
  entries = device_nonce 8 ∷ device_nonce 9 ∷ [];
  aggregate = record { hiding = r2; binding = r2 };
}

nonces_made :
    device_nonce_set ternary inner (device_nonce 9 ∷ device_nonce 8 ∷ []) ≡ ok device_nonces
unfolding device_nonce_set sum_nonce_pairs same_devices has_adjacent sort_by_key insert_sorted
nonces_made = refl

shared : weighted_shares ternary inner r0 inner.participants ≡ ok r1
unfolding weighted_shares inner_coefficient
shared = refl

members_shared : weighted_members ternary people r0 people.participants ≡ ok r1
unfolding weighted_members outer_coefficient
members_shared = refl

abbrev secret : Nonce ternary
secret = record { hiding = r1; binding = r1 }

abbrev response : ℕ → Residue → DeviceResponse ternary
response device scalar = record { attempt = attempt device; scalar = scalar }

responds_8 :
    respond_device ternary secret transcript signing device_nonces 8 r2 ≡ ok (response 8 r2)
unfolding respond_device validate_member_inputs nonces_validate_support package_eq package_entry
    same_devices inner_participant inner_coefficient from_scalar nonce_commitments point_new
    set_nonce set_attempt context_binding nonce_respond
responds_8 = refl

responds_9 :
    respond_device ternary secret transcript signing device_nonces 9 r0 ≡ ok (response 9 r1)
unfolding respond_device validate_member_inputs nonces_validate_support package_eq package_entry
    same_devices inner_participant inner_coefficient from_scalar nonce_commitments point_new
    set_nonce set_attempt context_binding nonce_respond
responds_9 = refl

valid : validate_member_inputs ternary transcript signing device_nonces ≡ ok tt
unfolding validate_member_inputs nonces_validate_support package_eq package_entry same_devices
valid = refl

bound : context_binding ternary signing 0 ≡ ok r0
unfolding context_binding
bound = refl

abbrev responses : List (DeviceResponse ternary)
responses = response 9 r1 ∷ response 8 r2 ∷ []

all_respond :
    Responses ternary transcript signing device_nonces inner.participants
      (sort_by_key (λ r. r.attempt.device) responses)
unfolding sort_by_key insert_sorted
all_respond = responds secret r2 responds_8 (responds secret r0 responds_9 done)

aggregate_member_completes_example :
    (response : MemberResponse ternary) × (aggregate_member ternary transcript signing device_nonces
        responses
      ≡ ok response)
    × (response.slot ≡ 0)
    × (verify_member ternary response.scalar device_nonces.aggregate r0 r2 r2 r1 ≡ ok tt)
aggregate_member_completes_example =
    aggregate_member_completes ternary ternary_laws transcript signing device_nonces devices
      (device_nonce 9 ∷ device_nonce 8 ∷ []) responses r0 inner_made nonces_made valid bound shared
      all_respond

abbrev member_responses : List (MemberResponse ternary)
member_responses = record { slot = 1; scalar = r0 } ∷ record { slot = 0; scalar = r0 } ∷ []

all_pass :
    MembersPass ternary signing people people.participants root.entries
      (sort_by_key (λ r. r.slot) member_responses)
unfolding sort_by_key insert_sorted outer_coefficient context_binding verify_member from_scalar
    bind_pair
all_pass =
    member_passed
      (record {
        slot = refl;
        coefficient = record { person = 6; slot = 0; member = r1; scalar = r2 };
        weighed = refl;
        binding = r0;
        bound = refl;
        passes = refl;
      })
      (member_passed
        (record {
          slot = refl;
          coefficient = record { person = 7; slot = 1; member = r1; scalar = r2 };
          weighed = refl;
          binding = r1;
          bound = refl;
          passes = refl;
        })
        all_passed)

aggregate_signature_completes_example :
    (signature : Signature ternary) × (aggregate_signature ternary signing people member_responses
      ≡ ok signature)
    × (signature.nonce ≡ r1)
    × (signature_verify ternary signature r1 message ≡ ok tt)
aggregate_signature_completes_example =
    aggregate_signature_completes ternary ternary_laws r1 message root_context people
      (other_record ∷ own_record ∷ []) prepackage nonces root signing member_responses
      prepackage_made finalizes context_made members_shared all_pass

abbrev device_response : DeviceResponse ternary
device_response = response 9 r1

abbrev member_response : MemberResponse ternary
member_response = record { slot = 1; scalar = r2 }

try_from-responses_example :
    (device_response_try_from ternary (device_response_to_bytes ternary device_response)
      ≡ ok device_response)
    × (member_response_try_from ternary (member_response_to_bytes ternary member_response)
        ≡ ok member_response)
try_from-responses_example =
    try_from-responses ternary ternary_codec device_response member_response refl (omega arith)
      (omega arith) (omega arith)
