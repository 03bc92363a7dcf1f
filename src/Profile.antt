-- ===== src/Profile.antt =====
-- profile.rs: the trait `Profile`, by which the crate is generic over its group. The group, its
-- field, the hash to a scalar and the canonical encodings come from frost-core, k256 and
-- curve25519-dalek; they are the fields of a record. Equality is decidable and decided by the
-- libraries' `PartialEq`. Points are elements that are not the identity.
use coupery_ksnf.Base.{ℕ, ◌≡◌, ◌↔◌, Bool, true, Option, List}
use coupery_ksnf.Outcome.{Result}

pub data HashDomain : Type 0 where
  deal member nonce bind : HashDomain

-- What `Group::deserialize` reads: an element, or one of the errors that the crate tells apart.
pub data PointRead (E : Type 0) : Type 0 where
  identity_element malformed : PointRead E
  point : E → PointRead E

pub record Profile : Type 1 where
  pub Scalar : Type 0
  pub Element : Type 0
  pub scalar_eq : Scalar → Scalar → Bool
  pub scalar_eq_iff : (a b : Scalar) → (scalar_eq a b ≡ true) ↔ (a ≡ b)
  pub element_eq : Element → Element → Bool
  pub element_eq_iff : (a b : Element) → (element_eq a b ≡ true) ↔ (a ≡ b)
  pub zero_scalar : Scalar
  pub one_scalar : Scalar
  pub add_scalar : Scalar → Scalar → Scalar
  pub sub_scalar : Scalar → Scalar → Scalar
  pub mul_scalar : Scalar → Scalar → Scalar
  pub invert : Scalar → Option Scalar
  pub identity : Element
  pub generator : Element
  pub add_element : Element → Element → Element
  pub scale : Element → Scalar → Element
  pub hash_to_scalar : HashDomain → List ℕ → Result Scalar
  pub encode_scalar : Scalar → List ℕ
  pub encode_point : Element → List ℕ
  pub decode_scalar : List ℕ → Option Scalar
  pub decode_point : List ℕ → PointRead Element
  pub challenge : List ℕ → List ℕ → List ℕ → Result Scalar
  pub protocol_id : List ℕ
  pub wire_id : ℕ
