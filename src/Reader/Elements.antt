-- ===== src/Reader/Elements.antt =====
-- The scalars, points and elements that the writer has written, read back. The encodings of the
-- curve packages are assumed canonical: of one length, and read back as what was written.
use coupery_ksnf.Base.{
  ℕ, zero, suc, ◌<◌, ◌≡◌, refl, ap, subst, true, false, not, some, [], ◌∷◌, length, all, arith, inl,
  inr, Bool-cases, ◌==◌,
}
use coupery_ksnf.Order.{nat_key}
use coupery_ksnf.Outcome.{ok, or_fail, invalid_scalar, fail_if, unsupported_version}
use coupery_ksnf.Profile.{Profile, point}
use coupery_ksnf.Encoding.{put_u8, to_be_bytes}
use coupery_ksnf.Decoding.{read_slice, get_number}
use coupery_ksnf.Shamir.{point_new}
use coupery_ksnf.Reader.{
  get_scalar, get_point, get_element, put_element, zeros, point_from_bytes, element_from_bytes,
  element_read, expect_version,
}
use coupery_ksnf.Reader.Reads.{Reads, Reads-check, Reads-read_slice, Reads-get_number}

pub put_u8_lem : (n : ℕ) → n < 256 → to_be_bytes 1 n ≡ put_u8 n
unfolding to_be_bytes
put_u8_lem n h = ap (λ b. b ∷ []) (omega arith)

module _ (P : Profile) where
  open P use {
    Scalar, Element, zero_scalar, generator, identity, element_eq, encode_scalar, encode_point,
    decode_scalar, decode_point, wire_id,
  }

  -- The encodings of the profile are canonical.
  pub record CanonicalCodec : Type 0 where
    pub scalar_length : (s : Scalar) → length (encode_scalar s) ≡ length (encode_scalar zero_scalar)
    pub scalar_reads : (s : Scalar) → decode_scalar (encode_scalar s) ≡ some s
    pub point_length : (e : Element) → length (encode_point e) ≡ length (encode_point generator)
    pub point_reads :
        (e : Element) → element_eq e identity ≡ false → decode_point (encode_point e) ≡ point e
    pub version_fits : wire_id < 256

  -- An element of the type `Point`.
  abbrev pub IsPoint : Element → Type 0
  IsPoint e = element_eq e identity ≡ false

  module _ (c : CanonicalCodec) where
    pub Reads-get_scalar : (s : Scalar) → Reads (get_scalar P) (encode_scalar s) s
    unfolding get_scalar
    Reads-get_scalar s =
        Reads-check (read_slice (length (encode_scalar zero_scalar)))
          (λ bytes. or_fail (decode_scalar bytes) invalid_scalar) (encode_scalar s) _ s
          (Reads-read_slice _ (encode_scalar s) (c.scalar_length s))
          (ap (λ o. or_fail o invalid_scalar) (c.scalar_reads s))

    pub point_from_bytes-encode_point :
        (e : Element) → IsPoint e → point_from_bytes P (encode_point e) ≡ ok e
    unfolding point_from_bytes point_new
    point_from_bytes-encode_point e h = ground (arith, c.point_length e, c.point_reads e h)

    pub Reads-get_point : (e : Element) → IsPoint e → Reads (get_point P) (encode_point e) e
    unfolding get_point
    Reads-get_point e h =
        Reads-check (read_slice (length (encode_point generator))) (point_from_bytes P)
          (encode_point e) _ e (Reads-read_slice _ (encode_point e) (c.point_length e))
          (point_from_bytes-encode_point e h)

    length-zeros : (n : ℕ) → length (zeros P n) ≡ n
    length-zeros zero = refl
    length-zeros (suc n) = ap suc (length-zeros n)

    all-zeros : (n : ℕ) → all (λ b. b == 0) (zeros P n) ≡ true
    all-zeros zero = refl
    all-zeros (suc n) = all-zeros n

    length-put_element :
        (e : Element) → length (put_element P e) ≡ suc (length (encode_point generator))
    unfolding put_element
    length-put_element e =
        ground (arith, c.point_length e, length-zeros (length (encode_point generator)))

    element_read-put_element : (e : Element) → element_read P (put_element P e) ≡ ok e
    unfolding put_element element_read
    element_read-put_element e = elim (Bool-cases (element_eq e identity)) [
      | inl zero_point ↦ ground (
        arith,
        all-zeros (length (encode_point generator)),
        (P.element_eq_iff e identity).0 zero_point,
      )
      | inr h ↦ ground (arith, point_from_bytes-encode_point e h)
    ]

    element_from_bytes-put_element : (e : Element) → element_from_bytes P (put_element P e) ≡ ok e
    unfolding element_from_bytes
    element_from_bytes-put_element e =
        ground (arith, length-put_element e, element_read-put_element e)

    pub Reads-get_element : (e : Element) → Reads (get_element P) (put_element P e) e
    unfolding get_element
    Reads-get_element e =
        Reads-check (read_slice (suc (length (encode_point generator)))) (element_from_bytes P)
          (put_element P e) _ e (Reads-read_slice _ (put_element P e) (length-put_element e))
          (element_from_bytes-put_element e)

    pub Reads-expect_version : Reads (expect_version P) (put_u8 wire_id) tt
    unfolding expect_version
    Reads-expect_version =
        Reads-check (get_number 1) (λ v. fail_if (not (v == wire_id)) unsupported_version)
          (put_u8 wire_id) wire_id tt
          (subst (λ l. Reads (get_number 1) l wire_id) (put_u8_lem wire_id c.version_fits)
            (Reads-get_number 1 wire_id c.version_fits))
          (ground arith)
