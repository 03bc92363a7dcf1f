-- ===== src/Transcript/Read.antt =====
-- The readers of transcript.rs, up to the checks that follow `finish`.
use coupery_ksnf.Base.{ℕ, ◌&&◌, not, List, [], ◌∷◌, ◌==◌}
use coupery_ksnf.Outcome.{empty_input, protocol_mismatch, length_mismatch, invalid_transcript}
use coupery_ksnf.Order.{nat_key}
use coupery_ksnf.Types.{KeyEpoch}
use coupery_ksnf.Profile.{Profile}
use coupery_ksnf.Decoding.{get_number, get_bytes}
use coupery_ksnf.Auth.{bytes_eq}
use coupery_ksnf.Shamir.{node_new}
use coupery_ksnf.Support.{DeviceParticipant}
use coupery_ksnf.Signing.{NoncePair}
use coupery_ksnf.Reader.{
  Reader, give, lift, reject, ◌>>=◌, ◌>>◌, read_many, get_scalar, get_point, get_element,
  expect_version,
}
use coupery_ksnf.Transcript.{RootContext, MemberRecord, RootEntry, RootPrepackage, RootPackage}

-- `decode_key_epoch`
unfoldable pub decode_key_epoch : Reader KeyEpoch
decode_key_epoch = do
  outer ← get_number 8
  inner ← get_number 8
  vault ← get_number 32
  person ← get_number 32
  identity ← get_number 32
  member ← get_number 32
  give (record {
    outer = outer;
    inner = inner;
    anchor = record { vault = vault; person = person; identity = identity; member = member };
  })

-- `decode_root_context`
unfoldable pub decode_root_context : Reader RootContext
decode_root_context = do
  vault ← get_number 32
  epoch ← get_number 8
  ceremony ← get_number 32
  give (record { vault = vault; epoch = epoch; ceremony = ceremony })

-- What `MemberBody::from_bytes` reads.
pub record BodyFields (P : Profile) : Type 0 where
  pub identity : P.Element
  pub member : P.Element
  pub epoch : KeyEpoch
  pub devices : List (DeviceParticipant P × P.Scalar)
  pub person : ℕ
  pub slot : ℕ
  pub scalar : P.Scalar

module _ (P : Profile) where
  open P use {Scalar, Element, element_eq, protocol_id}

  -- One device of `MemberBody::from_bytes`.
  unfoldable pub decode_participant : Reader (DeviceParticipant P × Scalar)
  decode_participant = do
    device ← get_number 32
    value ← get_scalar P
    node ← lift (node_new P value)
    share ← get_element P
    coefficient ← get_scalar P
    give (record { device = device; node = node; share = share }, coefficient)

  -- `MemberBody::from_bytes`, what it reads.
  unfoldable pub decode_body : Reader (BodyFields P)
  decode_body = do
    expect_version P
    identity ← get_point P
    member ← get_point P
    epoch ← decode_key_epoch
    count ← get_number 2
    reject (count == 0) empty_input
    devices ← read_many count decode_participant
    person ← get_number 32
    slot ← get_number 2
    scalar ← get_scalar P
    give (record {
      identity = identity;
      member = member;
      epoch = epoch;
      devices = devices;
      person = person;
      slot = slot;
      scalar = scalar;
    })

  -- `decode_record`
  unfoldable pub decode_record : Reader (MemberRecord P)
  decode_record = do
    slot ← get_number 2
    member ← get_point P
    commitment ← get_scalar P
    give (record { slot = slot; member = member; commitment = commitment })

  -- `decode_protocol`
  unfoldable pub decode_protocol : Reader (Unit {0})
  decode_protocol = do
    protocol ← get_bytes
    reject (not (bytes_eq protocol protocol_id)) protocol_mismatch

  -- The fields that the two root packages begin with.
  unfoldable pub decode_root_prefix : Reader (Element × (List ℕ × RootContext))
  decode_root_prefix = do
    expect_version P
    key ← get_point P
    message ← get_bytes
    decode_protocol
    context ← decode_root_context
    give (key, (message, context))

  -- `RootPrepackage::from_bytes`, what it reads.
  unfoldable pub decode_prepackage : Reader (RootPrepackage P)
  decode_prepackage = do
    prefix ← decode_root_prefix
    count ← get_number 2
    reject (count == 0) empty_input
    records ← read_many count decode_record
    give (record { key = prefix.0; message = prefix.1.0; context = prefix.1.1; records = records })

  -- One public slot of `RootPackage::from_bytes`.
  unfoldable pub decode_public : Reader (ℕ × (Element × NoncePair P))
  decode_public = do
    slot ← get_number 2
    member ← get_point P
    hiding ← get_point P
    binding ← get_point P
    give (slot, (member, record { hiding = hiding; binding = binding }))

  -- The second loop of `RootPackage::from_bytes`.
  unfoldable pub decode_entries : List (ℕ × (Element × NoncePair P)) → Reader (List (RootEntry P))
  decode_entries [] = give []
  decode_entries ((slot, (member, nonce)) ∷ public) = do
    committed ← decode_record
    reject (not (committed.slot == slot && element_eq committed.member member)) invalid_transcript
    entries ← decode_entries public
    give (record { committed = committed; nonce = nonce } ∷ entries)

  -- `RootPackage::from_bytes`, what it reads.
  unfoldable pub decode_package : Reader (RootPackage P)
  decode_package = do
    prefix ← decode_root_prefix
    public_count ← get_number 2
    reject (public_count == 0) empty_input
    public ← read_many public_count decode_public
    record_count ← get_number 2
    reject (not (public_count == record_count)) length_mismatch
    entries ← decode_entries public
    give (record { key = prefix.0; message = prefix.1.0; context = prefix.1.1; entries = entries })
