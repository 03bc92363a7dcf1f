-- ===== src/Signing/Schnorr.antt =====
-- The plain Schnorr equations of signing.rs.
use coupery_ksnf.Base.{ℕ, List, [], ◌∷◌, if◌then◌else◌}
use coupery_ksnf.Outcome.{
  Result, ok, err, ◌>>=◌, empty_input, identity_nonce, invalid_partial, invalid_signature,
}
use coupery_ksnf.Profile.{Profile, bind}
use coupery_ksnf.Shamir.{from_scalar}
use coupery_ksnf.Signing.{NoncePair, Signature, bind_pair}

module _ (P : Profile) where
  open P use {
    Scalar, Element, element_eq, mul_scalar, identity, add_element, scale, hash_to_scalar,
    encode_point,
  }

  -- `binding_factor`
  unfoldable pub binding_factor : List ℕ → Result Scalar
  binding_factor preimage = hash_to_scalar bind preimage

  -- `challenge`
  unfoldable pub challenge : Element → Element → List ℕ → Result Scalar
  challenge nonce key message = P.challenge (encode_point nonce) (encode_point key) message

  -- The fold of `aggregate_nonce`.
  unfoldable pub bound_sum : Element → List (NoncePair P × Scalar) → Element
  bound_sum sum [] = sum
  bound_sum sum ((pair, factor) ∷ pairs) =
      bound_sum (add_element sum (bind_pair P pair factor)) pairs

  -- `aggregate_nonce`
  unfoldable pub aggregate_nonce : List (NoncePair P × Scalar) → Result Element
  unfolding bound_sum
  aggregate_nonce [] = err empty_input
  aggregate_nonce (p ∷ ps) =
      let aggregate = bound_sum identity (p ∷ ps) in
      if element_eq aggregate identity then err identity_nonce else ok aggregate

  -- `verify_device`
  unfoldable pub verify_device :
      Scalar → NoncePair P → Scalar → Scalar → Scalar → Element → Result (Unit {0})
  verify_device response nonce factor c coefficient share =
      let left = from_scalar P response in
      let right = add_element (bind_pair P nonce factor) (scale share (mul_scalar c coefficient)) in
      if element_eq left right then ok tt else err invalid_partial

  -- `verify_member`, the same equation for a member's point and the outer coefficient.
  unfoldable pub verify_member :
      Scalar → NoncePair P → Scalar → Scalar → Scalar → Element → Result (Unit {0})
  verify_member response nonce factor c outer_coefficient member =
      let left = from_scalar P response in
      let right =
        add_element (bind_pair P nonce factor) (scale member (mul_scalar c outer_coefficient)) in
      if element_eq left right then ok tt else err invalid_partial

  -- `Signature::verify`
  unfoldable pub signature_verify : Signature P → Element → List ℕ → Result (Unit {0})
  signature_verify s key message = do
    c ← challenge s.nonce key message
    let left = from_scalar P s.response
    let right = add_element s.nonce (scale key c)
    if element_eq left right then ok tt else err invalid_signature
