-- ===== src/Reader.antt =====
-- Readers of encoding.rs in sequence: a function on `&mut Decoder` that may fail, and what the
-- profile's scalars, points and tagged elements read as, of encoding.rs and algebra.rs.
pub mod Reads
pub mod Elements
use coupery_ksnf.Base.{
  ℕ, zero, suc, ◌+◌, Bool, true, false, not, Option, none, some, List, [], ◌∷◌, ◌++◌, all, length,
  ◌==◌, if◌then◌else◌,
}
use mathlib.Core.List.{replicate}
use coupery_ksnf.Order.{nat_key}
use coupery_ksnf.Outcome.{
  Error, Result, ok, err, or_fail, fail_if, invalid_scalar, invalid_point, identity_point,
  length_mismatch, invalid_identity, invalid_element_tag, unsupported_version,
}
use coupery_ksnf.Profile.{Profile, PointRead, identity_element, malformed, point}
use coupery_ksnf.Decoding.{Decoder, decoder, read_slice, get_number, finish}
use coupery_ksnf.Shamir.{point_new}

abbrev pub Reader : Type 0 → Type 0
Reader A = Decoder → Result (A × Decoder)

module _ {A : Type 0} where
  pub give : A → Reader A
  give a d = ok (a, d)

  -- A step that reads nothing, and may fail.
  pub lift : Result A → Reader A
  lift r d = elim r [ err e ↦ err e | ok a ↦ ok (a, d) ]

module _ {A B : Type 0} where
  infixl 6 ◌>>=◌ ◌>>◌
  unfoldable pub ◌>>=◌ : Reader A → (A → Reader B) → Reader B
  unfolding give lift
  ◌>>=◌ m f d = elim (m d) [ err e ↦ err e | ok (a, rest) ↦ f a rest ]

  abbrev pub ◌>>◌ : Reader A → Reader B → Reader B
  m >> n = m >>= λ _. n

-- `if failure { return Err(e) }` while reading.
abbrev pub reject : Bool → Error → Reader (Unit {0})
reject failure e = lift (fail_if failure e)

-- `for _ in 0..count`
unfoldable pub read_many : {A : Type 0} → ℕ → Reader A → Reader (List A)
read_many zero m = give []
read_many (suc n) m = do x ← m; xs ← read_many n m; give (x ∷ xs)

-- A reader on a whole input, as `for_profile` and `finish` frame it.
unfoldable pub read_all : {A : Type 0} → Reader A → List ℕ → Result A
read_all m bytes = elim (m (decoder bytes)) [
  | err e ↦ err e
  | ok (a, rest) ↦ elim (finish rest) [ err e ↦ err e | ok u ↦ ok a ]
]

module _ (P : Profile) where
  open P use {
    Scalar, Element, zero_scalar, generator, identity, element_eq, encode_scalar, encode_point,
    decode_scalar, decode_point, wire_id,
  }

  -- `Decoder::get_scalar`; the slice has the length of the array that it becomes.
  unfoldable pub get_scalar : Reader Scalar
  get_scalar = do
    bytes ← read_slice (length (encode_scalar zero_scalar))
    lift (or_fail (decode_scalar bytes) invalid_scalar)

  abbrev pub point_read : PointRead Element → Result Element
  point_read identity_element = err identity_point
  point_read malformed = err invalid_point
  point_read (point e) = point_new P e

  -- `Point::from_bytes`
  unfoldable pub point_from_bytes : List ℕ → Result Element
  unfolding point_new
  point_from_bytes bytes =
      if length bytes == length (encode_point generator)
      then point_read (decode_point bytes)
      else err length_mismatch

  -- `Decoder::get_point`
  unfoldable pub get_point : Reader Element
  get_point = do bytes ← read_slice (length (encode_point generator)); lift (point_from_bytes bytes)

  abbrev pub zeros : ℕ → List ℕ
  zeros zero = []
  zeros (suc n) = 0 ∷ zeros n

  -- `Element::to_bytes`, and `put_element`.
  unfoldable pub put_element : Element → List ℕ
  put_element e =
      if element_eq e identity
      then 0 ∷ zeros (length (encode_point generator))
      else 1 ∷ encode_point e

  -- The tag and the rest of `Element::from_bytes`.
  unfoldable pub element_read : List ℕ → Result Element
  unfolding point_from_bytes
  element_read [] = err length_mismatch
  element_read (tag ∷ bytes) =
      if tag == 0
      then (if all (λ b. b == 0) bytes then ok identity else err invalid_identity)
      else if tag == 1
      then point_from_bytes bytes
      else err invalid_element_tag

  -- `Element::from_bytes`
  unfoldable pub element_from_bytes : List ℕ → Result Element
  element_from_bytes bytes =
      if length bytes == suc (length (encode_point generator))
      then element_read bytes
      else err length_mismatch

  -- `Decoder::get_element`
  unfoldable pub get_element : Reader Element
  get_element = do
    bytes ← read_slice (suc (length (encode_point generator)))
    lift (element_from_bytes bytes)

  -- `expect_version` of transcript.rs
  unfoldable pub expect_version : Reader (Unit {0})
  expect_version = do version ← get_number 1; reject (not (version == wire_id)) unsupported_version
