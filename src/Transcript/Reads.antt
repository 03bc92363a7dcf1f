-- ===== src/Transcript/Reads.antt =====
-- The parts of transcript.rs that the writer has written, read back.
use coupery_ksnf.Base.{ℕ, ◌^◌, ◌<◌, ◌≡◌, refl, subst, List, arith}
use coupery_ksnf.Order.{nat_key}
use coupery_ksnf.Outcome.{ok, >>=-passed, ok-injective}
use coupery_ksnf.Types.{KeyEpoch}
use coupery_ksnf.Profile.{Profile}
use coupery_ksnf.Encoding.{put_u16, put_u64, put_id, put_bytes, count_u16}
use coupery_ksnf.Decoding.{get_number, get_bytes}
use coupery_ksnf.Auth.{bytes_eq_iff}
use coupery_ksnf.Reader.Reads.{
  Reads, Reads-bind, Reads-end, Reads-check, Reads-get_number, Reads-get_bytes,
}
use coupery_ksnf.Reader.Elements.{
  CanonicalCodec, IsPoint, Reads-get_scalar, Reads-get_point, Reads-expect_version,
}
use coupery_ksnf.Transcript.{RootContext, MemberRecord, RootEntry}
use coupery_ksnf.Transcript.Write.{
  encode_key_epoch, encode_root_context, encode_record, encode_public, encode_root_prefix,
}
use coupery_ksnf.Transcript.Read.{
  decode_key_epoch, decode_root_context, decode_record, decode_public, decode_protocol,
  decode_root_prefix,
}

-- The identifiers and epochs fit in their widths.
abbrev pub EpochFits : KeyEpoch → Type 0
EpochFits e =
    (e.outer < 2 ^ 64)
    × (e.inner < 2 ^ 64)
    × (e.anchor.vault < 2 ^ 256)
    × (e.anchor.person < 2 ^ 256)
    × (e.anchor.identity < 2 ^ 256)
    × (e.anchor.member < 2 ^ 256)

abbrev pub ContextFits : RootContext → Type 0
ContextFits c = (c.vault < 2 ^ 256) × (c.epoch < 2 ^ 64) × (c.ceremony < 2 ^ 256)

pub Reads-id : (n : ℕ) → n < 2 ^ 256 → Reads (get_number 32) (put_id n) n
Reads-id n h = Reads-get_number 32 n (omega (arith, h))

pub Reads-u64 : (n : ℕ) → n < 2 ^ 64 → Reads (get_number 8) (put_u64 n) n
Reads-u64 n h = Reads-get_number 8 n (omega (arith, h))

pub Reads-u16 : (n : ℕ) → n < 2 ^ 16 → Reads (get_number 2) (put_u16 n) n
Reads-u16 n h = Reads-get_number 2 n (omega (arith, h))

pub count_u16-passed : (n count : ℕ) → count_u16 n ≡ ok count → (count < 2 ^ 16) × (n ≡ count)
unfolding count_u16
count_u16-passed n count h = ground arith

pub Reads-decode_key_epoch :
    (e : KeyEpoch) → EpochFits e → Reads decode_key_epoch (encode_key_epoch e) e
unfolding decode_key_epoch encode_key_epoch
Reads-decode_key_epoch e (outer, inner, vault, person, identity, member) =
    Reads-bind _ (Reads-u64 e.outer outer) (
      Reads-bind _ (Reads-u64 e.inner inner) (
        Reads-bind _ (Reads-id e.anchor.vault vault) (
          Reads-bind _ (Reads-id e.anchor.person person) (
            Reads-bind _ (Reads-id e.anchor.identity identity)
              (Reads-end _ (Reads-id e.anchor.member member))))))

pub Reads-decode_root_context :
    (c : RootContext) → ContextFits c → Reads decode_root_context (encode_root_context c) c
unfolding decode_root_context encode_root_context
Reads-decode_root_context c (vault, epoch, ceremony) =
    Reads-bind _ (Reads-id c.vault vault)
      (Reads-bind _ (Reads-u64 c.epoch epoch) (Reads-end _ (Reads-id c.ceremony ceremony)))

module _ (P : Profile) (c : CanonicalCodec P) where
  open P use {Scalar, Element, protocol_id}

  abbrev pub RecordFits : MemberRecord P → Type 0
  RecordFits r = (r.slot < 2 ^ 16) × IsPoint P r.member

  abbrev pub EntryFits : RootEntry P → Type 0
  EntryFits e = RecordFits e.committed × IsPoint P e.nonce.hiding × IsPoint P e.nonce.binding

  pub Reads-decode_record :
      (r : MemberRecord P) → RecordFits r → Reads (decode_record P) (encode_record P r) r
  unfolding decode_record encode_record
  Reads-decode_record r (slot, member) = Reads-bind _ (Reads-u16 r.slot slot) (
      Reads-bind _ (Reads-get_point P c r.member member)
        (Reads-end _ (Reads-get_scalar P c r.commitment)))

  pub Reads-decode_public :
      (e : RootEntry P)
      → EntryFits e
      → Reads
          (decode_public P)
          (encode_public P e)
          (e.committed.slot, (e.committed.member, e.nonce))
  unfolding decode_public encode_public
  Reads-decode_public e ((slot, member), hiding, binding) =
      Reads-bind _ (Reads-u16 e.committed.slot slot) (
        Reads-bind _ (Reads-get_point P c e.committed.member member) (
          Reads-bind _ (Reads-get_point P c e.nonce.hiding hiding)
            (Reads-end _ (Reads-get_point P c e.nonce.binding binding))))

  Reads-decode_protocol :
      (framed : List ℕ) → put_bytes protocol_id ≡ ok framed → Reads (decode_protocol P) framed tt
  unfolding decode_protocol
  Reads-decode_protocol framed h =
      Reads-check get_bytes _ framed protocol_id tt (Reads-get_bytes protocol_id framed h)
        (ground (arith, (bytes_eq_iff protocol_id protocol_id).1 refl))

  -- A root prefix as the reader sees it.
  pub Reads-decode_root_prefix :
      (key : Element) (message : List ℕ) (context : RootContext) (prefix : List ℕ)
      → IsPoint P key
      → ContextFits context
      → encode_root_prefix P key message context ≡ ok prefix
      → Reads (decode_root_prefix P) prefix (key, (message, context))
  unfolding decode_root_prefix encode_root_prefix
  Reads-decode_root_prefix key message context prefix is_point fits h =
      let (signed, framed, h1) = >>=-passed (put_bytes message) _ h in
      let (protocol, named, h2) = >>=-passed (put_bytes protocol_id) _ h1 in
      subst (λ l. Reads (decode_root_prefix P) l (key, (message, context))) (ok-injective _ _ h2)
        (Reads-bind _ (Reads-expect_version P c) (
          Reads-bind _ (Reads-get_point P c key is_point) (
            Reads-bind _ (Reads-get_bytes message signed framed) (
              Reads-bind _ (Reads-decode_protocol protocol named)
                (Reads-end _ (Reads-decode_root_context context fits))))))
