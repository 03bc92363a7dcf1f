-- ===== src/Signing/Wire.antt =====
-- The fixed-width bytes of the responses of signing.rs. An array's length is part of its type in the
-- source: `TryFrom<&[u8]>` checks it.
use coupery_ksnf.Base.{
  ℕ, ◌^◌, ◌<◌, ◌≡◌, List, ◌++◌, length, length-append, arith, ◌==◌, if◌then◌else◌,
}
use coupery_ksnf.Order.{nat_key}
use coupery_ksnf.Outcome.{Result, ok, err, length_mismatch}
use coupery_ksnf.Profile.{Profile}
use coupery_ksnf.Encoding.{put_u8, put_u16, put_u64, put_id}
use coupery_ksnf.Decoding.{get_number}
use coupery_ksnf.Decoding.RoundTrip.{length-to_be_bytes}
use coupery_ksnf.Signing.{DeviceResponse, MemberResponse}
use coupery_ksnf.Reader.{Reader, give, ◌>>=◌, ◌>>◌, read_all, get_scalar, expect_version}
use coupery_ksnf.Reader.Reads.{Reads-bind, Reads-end, Reads-read_all}
use coupery_ksnf.Reader.Elements.{CanonicalCodec, Reads-get_scalar, Reads-expect_version}
use coupery_ksnf.Transcript.Reads.{Reads-id, Reads-u16, Reads-u64}

module _ (P : Profile) where
  open P use {encode_scalar, wire_id}

  -- `DeviceResponse::to_bytes`
  unfoldable pub device_response_to_bytes : DeviceResponse P → List ℕ
  device_response_to_bytes r =
      put_u8 wire_id
      ++ (put_id r.attempt.device ++ (put_u64 r.attempt.sequence ++ encode_scalar r.scalar))

  -- `DeviceResponse::from_bytes`, what it reads.
  unfoldable pub decode_device_response : Reader (DeviceResponse P)
  decode_device_response = do
    expect_version P
    device ← get_number 32
    sequence ← get_number 8
    scalar ← get_scalar P
    give (record { attempt = record { device = device; sequence = sequence }; scalar = scalar })

  -- `DeviceResponse::from_bytes`
  unfoldable pub device_response_from_bytes : List ℕ → Result (DeviceResponse P)
  device_response_from_bytes bytes = read_all decode_device_response bytes

  -- `TryFrom<&[u8]>` of `DeviceResponse`
  unfoldable pub device_response_try_from : List ℕ → Result (DeviceResponse P)
  device_response_try_from bytes =
      if length bytes == 73 then device_response_from_bytes bytes else err length_mismatch

  -- `MemberResponse::to_bytes`
  unfoldable pub member_response_to_bytes : MemberResponse P → List ℕ
  member_response_to_bytes r = put_u8 wire_id ++ (put_u16 r.slot ++ encode_scalar r.scalar)

  -- `MemberResponse::from_bytes`, what it reads.
  unfoldable pub decode_member_response : Reader (MemberResponse P)
  decode_member_response = do
    expect_version P
    slot ← get_number 2
    scalar ← get_scalar P
    give (record { slot = slot; scalar = scalar })

  -- `MemberResponse::from_bytes`
  unfoldable pub member_response_from_bytes : List ℕ → Result (MemberResponse P)
  member_response_from_bytes bytes = read_all decode_member_response bytes

  -- `TryFrom<&[u8]>` of `MemberResponse`
  unfoldable pub member_response_try_from : List ℕ → Result (MemberResponse P)
  member_response_try_from bytes =
      if length bytes == 35 then member_response_from_bytes bytes else err length_mismatch

  length-device_response :
      (c : CanonicalCodec P) (r : DeviceResponse P)
      → length (encode_scalar P.zero_scalar) ≡ 32
      → length (device_response_to_bytes r) ≡ 73
  unfolding device_response_to_bytes
  length-device_response c r wide =
      let rest = put_u64 r.attempt.sequence ++ encode_scalar r.scalar in
      omega (
        arith,
        wide,
        c.scalar_length r.scalar,
        length-append (put_id r.attempt.device) rest,
        length-append (put_u64 r.attempt.sequence) (encode_scalar r.scalar),
        length-to_be_bytes 32 r.attempt.device,
        length-to_be_bytes 8 r.attempt.sequence,
      )

  length-member_response :
      (c : CanonicalCodec P) (r : MemberResponse P)
      → length (encode_scalar P.zero_scalar) ≡ 32
      → length (member_response_to_bytes r) ≡ 35
  unfolding member_response_to_bytes
  length-member_response c r wide = omega (
    arith,
    wide,
    c.scalar_length r.scalar,
    length-append (put_u16 r.slot) (encode_scalar r.scalar),
    length-to_be_bytes 2 r.slot,
  )

  -- The encodings of the curve packages being canonical, with scalars of 32 bytes, a device's
  -- response whose identifier and sequence fit their widths and a member's response whose slot fits
  -- its width are what their bytes parse to: no check of the parsers, that of the length included,
  -- refuses them.
  pub try_from-responses :
      (c : CanonicalCodec P) (device : DeviceResponse P) (member : MemberResponse P)
      → length (encode_scalar P.zero_scalar) ≡ 32
      → device.attempt.device < 2 ^ 256
      → device.attempt.sequence < 2 ^ 64
      → member.slot < 2 ^ 16
      → (device_response_try_from (device_response_to_bytes device) ≡ ok device)
        × (member_response_try_from (member_response_to_bytes member) ≡ ok member)
  unfolding device_response_try_from device_response_from_bytes device_response_to_bytes
      decode_device_response member_response_try_from member_response_from_bytes
      member_response_to_bytes decode_member_response
  try_from-responses c device member wide device_fits sequence_fits slot_fits =
      let scalar = Reads-get_scalar P c in
      (
        ground (
          arith,
          length-device_response c device wide,
          Reads-read_all (decode_device_response) (device_response_to_bytes device) device (
              Reads-bind _ (Reads-expect_version P c) (
                Reads-bind _ (Reads-id device.attempt.device device_fits) (
                  Reads-bind _ (Reads-u64 device.attempt.sequence sequence_fits)
                    (Reads-end _ (scalar device.scalar))))),
        ),
        ground (
          arith,
          length-member_response c member wide,
          Reads-read_all (decode_member_response) (member_response_to_bytes member) member (
              Reads-bind _ (Reads-expect_version P c) (
                Reads-bind _ (Reads-u16 member.slot slot_fits)
                  (Reads-end _ (scalar member.scalar)))),
        ),
      )
