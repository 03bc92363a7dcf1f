-- ===== src/Signing.antt =====
-- signing.rs: nonces and nonce sets. (`Nonce::sample` draws two nonzero scalars from the caller's
-- random generator; the draw is an argument of the operations that use it.)
pub mod Schnorr
pub mod Algebra
pub mod Context
pub mod Wire
pub mod Respond
pub mod Answered
pub mod Aggregate
pub mod MemberSum
pub mod MemberRounds
pub mod MemberComplete
pub mod Bindings
pub mod OuterSum
pub mod SignatureComplete
mod Tests
use coupery_ksnf.Base.{
  ℕ, Bool, true, false, ◌||◌, ◌&&◌, not, List, [], ◌∷◌, find, length, ◌==◌, if◌then◌else◌,
}
use mathlib.Core.List.{foldl}
use coupery_ksnf.Order.{nat_key}
use coupery_ksnf.Sort.{sort_by_key}
use coupery_ksnf.Outcome.{
  Result, ok, err, ◌>>=◌, ◌>>◌, fail_if, or_fail, support_mismatch, duplicate_participant,
  participant_not_found, identity_nonce, zero_nonce,
}
use coupery_ksnf.Types.{LeafAttempt}
use coupery_ksnf.Profile.{Profile}
use coupery_ksnf.Shamir.{from_scalar, point_new}
use coupery_ksnf.Support.{InnerSupport, DeviceParticipant}

module _ (P : Profile) where
  open P use {
    Scalar, Element, scalar_eq, element_eq, zero_scalar, add_scalar, mul_scalar, identity,
    add_element, scale,
  }

  pub record NoncePair : Type 0 where
    pub hiding : Element
    pub binding : Element

  pub record Nonce : Type 0 where
    pub hiding : Scalar
    pub binding : Scalar

  pub record DeviceNonce : Type 0 where
    pub attempt : LeafAttempt
    pub nonce : NoncePair

  pub record DeviceNonceSet : Type 0 where
    pub entries : List DeviceNonce
    pub aggregate : NoncePair

  pub record DeviceResponse : Type 0 where
    pub attempt : LeafAttempt
    pub scalar : Scalar

  pub record MemberResponse : Type 0 where
    pub slot : ℕ
    pub scalar : Scalar

  pub record Signature : Type 0 where
    pub nonce : Element
    pub response : Scalar

  abbrev pub pair_eq : NoncePair → NoncePair → Bool
  pair_eq a b = element_eq a.hiding b.hiding && element_eq a.binding b.binding

  -- `Nonce::new`
  unfoldable pub nonce_new : Scalar → Scalar → Result Nonce
  nonce_new hiding binding =
      if scalar_eq hiding zero_scalar || scalar_eq binding zero_scalar
      then err zero_nonce
      else ok (record { hiding = hiding; binding = binding })

  -- `Nonce::commitments`
  unfoldable pub nonce_commitments : Nonce → Result NoncePair
  nonce_commitments n = do
    hiding ← point_new P (from_scalar P n.hiding)
    binding ← point_new P (from_scalar P n.binding)
    ok (record { hiding = hiding; binding = binding })

  -- `NoncePair::bind`
  unfoldable pub bind_pair : NoncePair → Scalar → Element
  bind_pair n factor = add_element n.hiding (scale n.binding factor)

  -- `Nonce::respond`
  unfoldable pub nonce_respond : Nonce → Scalar → Scalar → Scalar → Scalar → Scalar
  nonce_respond n factor challenge coefficient share =
      add_scalar (add_scalar n.hiding (mul_scalar factor n.binding))
        (mul_scalar (mul_scalar challenge coefficient) share)

  -- `sum_nonce_pairs`
  unfoldable pub sum_nonce_pairs : List DeviceNonce → Result NoncePair
  sum_nonce_pairs entries =
      let sum : Element × Element =
        foldl (λ acc e. (add_element acc.0 e.nonce.hiding, add_element acc.1 e.nonce.binding))
          (identity, identity) entries in
      if element_eq sum.0 identity || element_eq sum.1 identity
      then err identity_nonce
      else ok (record { hiding = sum.0; binding = sum.1 })

  -- `windows(2)` with equal devices.
  unfoldable pub has_adjacent : {A : Type 0} → (A → ℕ) → List A → Bool
  has_adjacent key [] = false
  has_adjacent key (x ∷ []) = false
  has_adjacent key (x ∷ y ∷ rest) = key x == key y || has_adjacent key (y ∷ rest)

  -- The devices of the entries are those of the participants, as far as both go.
  unfoldable pub same_devices : List DeviceNonce → List (DeviceParticipant P) → Bool
  same_devices (e ∷ es) (p ∷ ps) = e.attempt.device == p.device && same_devices es ps
  same_devices _ _ = true

  -- `DeviceNonceSet::new`
  unfoldable pub device_nonce_set : InnerSupport P → List DeviceNonce → Result DeviceNonceSet
  device_nonce_set support given = do
    let entries = sort_by_key (λ e. e.attempt.device) given
    fail_if (not (length entries == length support.participants)) support_mismatch
    fail_if (has_adjacent (λ e. e.attempt.device) entries) duplicate_participant
    fail_if (not (same_devices entries support.participants)) support_mismatch
    aggregate ← sum_nonce_pairs entries
    ok (record { entries = entries; aggregate = aggregate })

  -- `DeviceNonceSet::nonce`
  unfoldable pub set_nonce : DeviceNonceSet → ℕ → Result NoncePair
  set_nonce s device = do
    entry ← or_fail (find (λ e. e.attempt.device == device) s.entries) participant_not_found
    ok entry.nonce

  -- `DeviceNonceSet::attempt`
  unfoldable pub set_attempt : DeviceNonceSet → ℕ → Result LeafAttempt
  set_attempt s device = do
    entry ← or_fail (find (λ e. e.attempt.device == device) s.entries) participant_not_found
    ok entry.attempt
