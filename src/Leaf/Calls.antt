-- ===== src/Leaf/Calls.antt =====
-- The calls on a `LeafRegistry`, the public operations of leaf.rs that change it.
use coupery_ksnf.Base.{ℕ, List}
use coupery_ksnf.Order.{nat_key}
use coupery_ksnf.Outcome.{Result}
use coupery_ksnf.Types.{LeafAttempt, KeyEpoch}
use coupery_ksnf.Profile.{Profile}
use coupery_ksnf.Support.{OuterSupport}
use coupery_ksnf.Signing.{NoncePair, Nonce}
use coupery_ksnf.Auth.{Delivery, AuthenticatedAbort}
use coupery_ksnf.Transcript.{MemberReservation}
use coupery_ksnf.Dealing.{InstalledShare}
use coupery_ksnf.Leaf.State.{LeafRegistry, ResponseMode, ResponseBinding}
use coupery_ksnf.Leaf.Session.{
  ResponseInputs, commit, reveal, fix, respond_with, close, receive_abort, close_expired,
}
use coupery_ksnf.Leaf.Install.{DeviceGenesisParts, add_vault}
use coupery_ksnf.Leaf.Activate.{activate_inner_bundle, activate_outer}
use coupery_ksnf.Leaf.Reserve.{reserve_with}

module _ (P : Profile) where
  -- One call of an operation that changes a registry. Responses are of any type `A`.
  pub data Call (A : Type 0) : Type 0 where
    reserves :
        ℕ
        → ℕ
        → List ℕ
        → ResponseBinding
        → OuterSupport P
        → Result (MemberReservation P × ℕ × ℕ)
        → Call A
    commits : LeafAttempt → List ℕ → Nonce P → Call A
    reveals : LeafAttempt → List (Delivery (P.Scalar)) → Call A
    fixes : LeafAttempt → List (Delivery (NoncePair P)) → Call A
    responds : LeafAttempt → ResponseMode → (ResponseInputs P → List ℕ → Result A) → Call A
    closes : LeafAttempt → Call A
    receives_abort : AuthenticatedAbort → Call A
    expires : ℕ → Call A
    adds_vault : DeviceGenesisParts P → KeyEpoch → Call A
    activates_inner : InstalledShare P → List (KeyEpoch × InstalledShare P) → Call A
    activates_outer : KeyEpoch → InstalledShare P → Call A

  -- The registry after the call.
  unfoldable pub after_call : {A : Type 0} → LeafRegistry P → Call A → LeafRegistry P
  after_call r (reserves session now bytes response outer parsed) =
      (reserve_with P r session now bytes response outer parsed).1
  after_call r (commits attempt reservation nonce) = (commit P r attempt reservation nonce).1
  after_call r (reveals attempt deliveries) = (reveal P r attempt deliveries).1
  after_call r (fixes attempt deliveries) = (fix P r attempt deliveries).1
  after_call r (responds attempt mode answer) = (respond_with P r attempt mode answer).1
  after_call r (closes attempt) = (close P r attempt).1
  after_call r (receives_abort abort) = (receive_abort P r abort).1
  after_call r (expires now) = (close_expired P r now).1
  after_call r (adds_vault parts e) = (add_vault P r parts e).1
  after_call r (activates_inner identity members) = (activate_inner_bundle P r identity members).1
  after_call r (activates_outer e member) = (activate_outer P r e member).1
