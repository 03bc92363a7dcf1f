-- ===== src/Leaf/Tests.antt =====
-- A small group to run leaf.rs on, the integers modulo 7, with a device that signs alone, and the
-- theorems about leaf.rs at the states of one run.
mod Attempt
mod Activation
mod Journal
mod Durable
mod Material
mod Wire
use coupery_ksnf.Base.{
  ℕ, suc, ◌+◌, ◌-◌, ◌*◌, ◌%◌, ◌^◌, ◌≡◌, refl, Bool, true, false, Option, none, some, List, [], ◌∷◌,
  ◌++◌, ltb, ==_iff, ◌==◌, if◌then◌else◌,
}
use coupery_ksnf.Outcome.{Result, ok, err}
use coupery_ksnf.Types.{LeafAttempt, KeyEpoch, AnchorId}
use coupery_ksnf.Profile.{Profile, PointRead, identity_element, malformed, point}
use coupery_ksnf.Support.{
  InnerSupport, OuterSupport, DeviceParticipant, PersonParticipant, OuterCoefficient,
}
use coupery_ksnf.Signing.{
  NoncePair, Nonce, nonce_commitments, has_adjacent, device_nonce_set, same_devices,
  sum_nonce_pairs,
}
use coupery_ksnf.Encoding.{put_bytes, count_u16, to_be_bytes}
use coupery_ksnf.Sort.{sort_by_key, insert_sorted}
use coupery_ksnf.Auth.{
  Delivery, view_new, view_entries, view_commitment, commitment_view_bytes, encode_view_prefix,
  encode_commitments, opening_view_bytes, encode_openings, nonce_commitment, verify_openings,
  verify_entries, device_nonces,
}
use coupery_ksnf.Transcript.{
  MemberReservation, MemberBody, MemberRecord, RootContext, RootPrepackage, MemberOpening,
}
use coupery_ksnf.Leaf.State.{
  LeafRegistry, Live, CommitState, RevealState, FixedState, take_live, is_closed, VaultState,
  IdentityMap, MemberMap, OuterMap, ResponseBinding, ResponseMode, plain, plain_binding, epoch,
  issue_attempt,
}
use coupery_ksnf.Leaf.Session.{
  ResponseInputs, commit, commit_step, commit_from, commit_state, reveal, reveal_step, reveal_from,
  reveal_first, fix, fix_step, fix_from, fix_first, respond_with, respond_step, with_live,
}
use coupery_ksnf.Leaf.Install.{DeviceGenesisParts, new, validate_genesis_epoch}
use coupery_ksnf.Leaf.Reserve.{reserve_with, accept_reservation, validate_reservation}
use coupery_ksnf.Leaf.Reserve.{
  check_devices, check_people, validate_inner_support, validate_outer_support,
}
use coupery_ksnf.Shamir.{evaluate_commitments, from_scalar, signing_share, point_new}
use coupery_ksnf.Support.{inner_participant, inner_coefficient, outer_coefficient}

-- The sum of the bytes, as a hash.
abbrev sum7 : List ℕ → ℕ
sum7 [] = 1
sum7 (b ∷ bs) = (b + sum7 bs) % 7

abbrev scalar7 : List ℕ → Option ℕ
scalar7 (s ∷ []) = if ltb s 7 then some s else none
scalar7 _ = none

abbrev point7 : List ℕ → PointRead ℕ
point7 (e ∷ []) = if e == 0 then identity_element else if ltb e 7 then point e else malformed
point7 _ = malformed

abbrev small : Profile
small = record {
  Scalar = ℕ;
  Element = ℕ;
  scalar_eq = λ a b. a == b;
  scalar_eq_iff = ==_iff;
  element_eq = λ a b. a == b;
  element_eq_iff = ==_iff;
  zero_scalar = 0;
  one_scalar = 1;
  add_scalar = λ a b. (a + b) % 7;
  sub_scalar = λ a b. (a + (7 - b)) % 7;
  mul_scalar = λ a b. (a * b) % 7;
  invert = λ a. if a == 0 then none else some (a ^ 5 % 7);
  identity = 0;
  generator = 1;
  add_element = λ a b. (a + b) % 7;
  scale = λ a b. (a * b) % 7;
  hash_to_scalar = λ d bytes. ok (sum7 bytes);
  encode_scalar = λ s. s ∷ [];
  encode_point = λ e. e ∷ [];
  decode_scalar = scalar7;
  decode_point = point7;
  challenge = λ nonce key message. ok (sum7 (nonce ++ (key ++ message)));
  protocol_id = 75 ∷ 83 ∷ [];
  wire_id = 1;
}

abbrev first_epoch : KeyEpoch
first_epoch = record {
  outer = 1;
  inner = 1;
  anchor = record { vault = 4; person = 6; identity = 20; member = 21 };
}

abbrev parts : DeviceGenesisParts small
parts = record {
  vault = 4;
  person = 6;
  device = 8;
  outer_node = 1;
  node = 1;
  identity_map = record { commitments = 2 ∷ []; devices = (8, 1, 2) ∷ [] };
  member_map = record { commitments = 5 ∷ [] };
  outer_map = record { commitments = 5 ∷ []; people = (6, 1, 5) ∷ [] };
  identity_key = 2;
  member_point = 5;
  vault_key = 5;
  identity_share = 2;
  anchor = 3;
}

abbrev first : LeafRegistry small
first = record {
  device = 8;
  person = 6;
  node = 1;
  identity_map = record { commitments = 2 ∷ []; devices = (8, 1, 2) ∷ [] };
  identity_key = 2;
  identity_share = 2;
  inner_epoch = 1;
  identity_handle = 20;
  vaults =
      (
        4,
        record {
          outer_node = 1;
          outer_epoch = 1;
          member_handle = 21;
          member_point = 5;
          vault_key = 5;
          anchor = 3;
          member_map = record { commitments = 5 ∷ [] };
          outer_map = record { commitments = 5 ∷ []; people = (6, 1, 5) ∷ [] };
        },
      )
      ∷ [];
  live = none;
  next_sequence = 0;
}

genesis : new small parts first_epoch ≡ ok first
unfolding new validate_genesis_epoch
genesis = refl

abbrev inner : InnerSupport small
inner = record {
  participants = record { device = 8; node = 1; share = 5 } ∷ [];
  coefficients = 1 ∷ [];
}

abbrev outer : OuterSupport small
outer = record {
  participants = record { person = 6; slot = 1; node = 1; member = 5 } ∷ [];
  coefficients = 1 ∷ [];
}

abbrev reservation : MemberReservation small
reservation = record {
  prepackage = record {
    key = 5;
    message = 9 ∷ [];
    context = record { vault = 4; epoch = 1; ceremony = 3 };
    records = record { slot = 1; member = 5; commitment = 5 } ∷ [];
  };
  opening = record {
    body = record {
      identity = 2;
      member = 5;
      epoch = first_epoch;
      inner = inner;
      outer = record { person = 6; slot = 1; member = 5; scalar = 1 };
    };
    salt = 4;
  };
}

abbrev bytes : List ℕ
bytes = 1 ∷ 2 ∷ []

abbrev attempt : LeafAttempt
attempt = record { device = 8; sequence = 0 }

abbrev reserved : LeafRegistry small
reserved = record first {
  live = some (record {
    attempt = attempt;
    session = 30;
    vault = 4;
    expiry = 100;
    reservation_bytes = bytes;
    response = plain_binding;
    reservation = some reservation;
    commit = none;
    reveal = none;
    fix = none;
  });
  next_sequence = 1;
}

reserves :
    reserve_with small first 30 50 bytes plain_binding outer (ok (reservation, 30, 100))
    ≡ (ok attempt, reserved)
unfolding reserve_with accept_reservation validate_reservation validate_inner_support
    validate_outer_support check_devices check_people epoch issue_attempt evaluate_commitments
    from_scalar signing_share inner_participant inner_coefficient outer_coefficient
reserves = refl

abbrev nonce : Nonce small
nonce = record { hiding = 1; binding = 2 }

abbrev pair : NoncePair small
pair = record { hiding = 1; binding = 2 }

abbrev fixed_commit : CommitState small
fixed_commit = record { nonce = some nonce; pair = pair; commitment = 1 }

-- The live attempt with these stages.
abbrev live_with :
    Option (CommitState small) → Option (RevealState small) → Option (FixedState small) → Live small
live_with c v f = record {
  attempt = attempt;
  session = 30;
  vault = 4;
  expiry = 100;
  reservation_bytes = bytes;
  response = plain_binding;
  reservation = some reservation;
  commit = c;
  reveal = v;
  fix = f;
}

abbrev staged : Option (Live small) → LeafRegistry small
staged live = record reserved { live = live }

commits :
    commit small reserved attempt bytes nonce
    ≡ (ok 1, staged (some (live_with (some fixed_commit) none none)))
unfolding commit commit_step commit_from commit_state with_live take_live is_closed
    nonce_commitments nonce_commitment from_scalar point_new put_bytes to_be_bytes
commits = refl

abbrev commitment_delivery : Delivery ℕ
commitment_delivery = record {
  sender = attempt;
  receiver = attempt;
  session = 30;
  reservation = bytes;
  payload = 1;
}

abbrev view_prefix : List ℕ
view_prefix =
    1 ∷ to_be_bytes 32 8
    ++ (to_be_bytes 8 0 ++ (to_be_bytes 32 30 ++ (to_be_bytes 4 2 ++ (bytes ++ to_be_bytes 2 1))))

abbrev held_view : RevealState small
held_view = record {
  bytes = view_prefix ++ (to_be_bytes 32 8 ++ (to_be_bytes 8 0 ++ (1 ∷ [])));
  view = record {
    receiver = attempt;
    session = 30;
    reservation = bytes;
    entries = (attempt, 1) ∷ [];
  };
  viewed_pair = pair;
}

reveals :
    reveal small
      (staged (some (live_with (some fixed_commit) none none)))
      attempt
      (commitment_delivery ∷ [])
    ≡ (ok pair, staged (some (live_with (some fixed_commit) (some held_view) none)))
unfolding reveal reveal_step reveal_from reveal_first with_live take_live is_closed view_new
    view_entries view_commitment commitment_view_bytes encode_view_prefix encode_commitments
    inner_participant has_adjacent put_bytes count_u16 to_be_bytes sort_by_key insert_sorted
reveals = refl

abbrev opening_delivery : Delivery (NoncePair small)
opening_delivery = record {
  sender = attempt;
  receiver = attempt;
  session = 30;
  reservation = bytes;
  payload = pair;
}

abbrev fixed_view : FixedState small
fixed_view = record {
  bytes = view_prefix ++ (to_be_bytes 32 8 ++ (to_be_bytes 8 0 ++ (1 ∷ 2 ∷ [])));
  nonces = record { entries = record { attempt = attempt; nonce = pair } ∷ []; aggregate = pair };
}

abbrev ready : LeafRegistry small
ready = staged (some (live_with (some fixed_commit) (some held_view) (some fixed_view)))

fixes :
    fix small
      (staged (some (live_with (some fixed_commit) (some held_view) none)))
      attempt
      (opening_delivery ∷ [])
    ≡ (ok pair, ready)
unfolding fix fix_step fix_from fix_first with_live take_live is_closed view_new view_entries
    view_commitment opening_view_bytes encode_view_prefix encode_openings inner_participant
    has_adjacent put_bytes count_u16 to_be_bytes sort_by_key insert_sorted verify_openings
    verify_entries nonce_commitment device_nonces device_nonce_set same_devices sum_nonce_pairs
fixes = refl

-- The answer is the signing share.
abbrev answer_share : ResponseInputs small → List ℕ → Result ℕ
answer_share inputs _ = ok inputs.share

responds : respond_with small ready attempt plain answer_share ≡ (ok 5, staged none)
unfolding respond_with respond_step with_live take_live is_closed signing_share
responds = refl
