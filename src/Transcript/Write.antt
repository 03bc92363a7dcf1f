-- ===== src/Transcript/Write.antt =====
-- The canonical bytes of transcript.rs.
use coupery_ksnf.Base.{ℕ, List, [], ◌∷◌, ◌++◌, length, position, ◌==◌}
use coupery_ksnf.Order.{nat_key}
use coupery_ksnf.Outcome.{Result, ok, ◌>>=◌, or_fail, participant_not_found}
use coupery_ksnf.Types.{KeyEpoch}
use coupery_ksnf.Profile.{Profile, member}
use coupery_ksnf.Encoding.{put_u8, put_u16, put_u64, put_id, put_bytes, count_u16, concat_map}
use coupery_ksnf.Support.{DeviceParticipant, InnerSupport, inner_coefficient}
use coupery_ksnf.Reader.{put_element}
use coupery_ksnf.Transcript.{
  RootContext, MemberBody, MemberRecord, RootEntry, RootPrepackage, RootPackage, MemberOpening,
  MemberReservation,
}

-- `encode_key_epoch`
unfoldable pub encode_key_epoch : KeyEpoch → List ℕ
encode_key_epoch e =
    put_u64 e.outer
    ++ (put_u64 e.inner
        ++ (put_id e.anchor.vault
            ++ (put_id e.anchor.person ++ (put_id e.anchor.identity ++ put_id e.anchor.member))))

-- The root context of `encode_root_prefix`.
unfoldable pub encode_root_context : RootContext → List ℕ
encode_root_context c = put_id c.vault ++ (put_u64 c.epoch ++ put_id c.ceremony)

-- `b"member"`
abbrev pub member_label : List ℕ
member_label = 109 ∷ 101 ∷ 109 ∷ 98 ∷ 101 ∷ 114 ∷ []

module _ (P : Profile) where
  open P use {Scalar, Element, encode_scalar, encode_point, wire_id, protocol_id, hash_to_scalar}

  -- One device of `MemberBody::to_bytes`, with its coefficient.
  unfoldable pub encode_participant : DeviceParticipant P × Scalar → List ℕ
  encode_participant (p, coefficient) =
      put_id p.device
      ++ (encode_scalar p.node ++ (put_element P p.share ++ encode_scalar coefficient))

  -- The loop of `MemberBody::to_bytes`.
  unfoldable pub encode_participants : InnerSupport P → List (DeviceParticipant P) → Result (List ℕ)
  encode_participants inner [] = ok []
  encode_participants inner (p ∷ ps) = do
    coefficient ← inner_coefficient P inner p.device
    rest ← encode_participants inner ps
    ok (encode_participant (p, coefficient) ++ rest)

  -- `MemberBody::to_bytes`
  unfoldable pub body_to_bytes : MemberBody P → Result (List ℕ)
  body_to_bytes b = do
    count ← count_u16 (length b.inner.participants)
    devices ← encode_participants b.inner b.inner.participants
    ok (
        put_u8 wire_id
        ++ (encode_point b.identity
            ++ (encode_point b.member
                ++ (encode_key_epoch b.epoch
                    ++ (put_u16 count
                        ++ (devices
                            ++ (put_id b.outer.person
                                ++ (put_u16 b.outer.slot ++ encode_scalar b.outer.scalar))))))))

  -- `encode_record`
  unfoldable pub encode_record : MemberRecord P → List ℕ
  encode_record r = put_u16 r.slot ++ (encode_point r.member ++ encode_scalar r.commitment)

  -- `MemberRecord::to_bytes`
  unfoldable pub record_to_bytes : MemberRecord P → List ℕ
  record_to_bytes r = put_u8 wire_id ++ encode_record r

  -- `MemberRecord::commit`
  unfoldable pub commit_body : MemberBody P → Scalar → Result (MemberRecord P)
  unfolding body_to_bytes
  commit_body b salt = do
    body ← body_to_bytes b
    label ← put_bytes member_label
    wrapped ← put_bytes body
    commitment ←
        hash_to_scalar member (put_u8 wire_id ++ (label ++ (encode_scalar salt ++ wrapped)))
    ok (record { slot = b.outer.slot; member = b.member; commitment = commitment })

  -- `encode_root_prefix`
  unfoldable pub encode_root_prefix : Element → List ℕ → RootContext → Result (List ℕ)
  encode_root_prefix key message context = do
    signed ← put_bytes message
    protocol ← put_bytes protocol_id
    ok (
        put_u8 wire_id
        ++ (encode_point key ++ (signed ++ (protocol ++ encode_root_context context))))

  -- `RootPrepackage::to_bytes`
  unfoldable pub prepackage_to_bytes : RootPrepackage P → Result (List ℕ)
  unfolding encode_root_prefix
  prepackage_to_bytes p = do
    prefix ← encode_root_prefix p.key p.message p.context
    count ← count_u16 (length p.records)
    ok (prefix ++ (put_u16 count ++ concat_map encode_record p.records))

  -- The public slot of an entry in `RootPackage::to_bytes`.
  unfoldable pub encode_public : RootEntry P → List ℕ
  encode_public e =
      put_u16 e.committed.slot
      ++ (encode_point e.committed.member
          ++ (encode_point e.nonce.hiding ++ encode_point e.nonce.binding))

  abbrev pub records_of : List (RootEntry P) → List (MemberRecord P)
  records_of [] = []
  records_of (e ∷ es) = e.committed ∷ records_of es

  -- `RootPackage::to_bytes`
  unfoldable pub package_to_bytes : RootPackage P → Result (List ℕ)
  unfolding encode_root_prefix
  package_to_bytes p = do
    prefix ← encode_root_prefix p.key p.message p.context
    count ← count_u16 (length p.entries)
    ok (
        prefix
        ++ (put_u16 count
            ++ (concat_map encode_public p.entries
                ++ (put_u16 count ++ concat_map encode_record (records_of p.entries)))))

  -- `RootPackage::binding_preimage`
  unfoldable pub binding_preimage : RootPackage P → ℕ → Result (List ℕ)
  unfolding package_to_bytes
  binding_preimage p slot = do
    index ← or_fail (position (λ e. e.committed.slot == slot) p.entries) participant_not_found
    bytes ← package_to_bytes p
    wrapped ← put_bytes bytes
    place ← count_u16 index
    ok (put_u8 wire_id ++ (wrapped ++ put_u16 place))

  -- `MemberOpening::to_bytes`
  unfoldable pub opening_to_bytes : MemberOpening P → Result (List ℕ)
  unfolding body_to_bytes
  opening_to_bytes o = do
    body ← body_to_bytes o.body
    wrapped ← put_bytes body
    ok (put_u8 wire_id ++ (encode_scalar o.salt ++ wrapped))

  -- `MemberReservation::to_bytes`
  unfoldable pub reservation_to_bytes : MemberReservation P → ℕ → ℕ → Result (List ℕ)
  unfolding prepackage_to_bytes opening_to_bytes
  reservation_to_bytes r session expiry = do
    prepackage ← prepackage_to_bytes r.prepackage
    public ← put_bytes prepackage
    opening ← opening_to_bytes r.opening
    private ← put_bytes opening
    ok (
        put_u8 wire_id
        ++ (public
            ++ (put_u16 r.opening.body.outer.slot
                ++ (private ++ (put_id session ++ put_u64 expiry)))))
