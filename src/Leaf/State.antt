-- ===== src/Leaf/State.antt =====
-- The state of leaf.rs, with the maps of genesis.rs that it holds, and the lookups on it. Secret
-- bytes are plain lists; that they are cleared when dropped is not modelled.
use coupery_ksnf.Base.{
  ◌≡◌, arith, refl, ℕ, ◌+◌, ◌^◌, Bool, true, false, ◌&&◌, not, Option, none, some, List, map, ◌==◌,
  ltb, if◌then◌else◌,
}
use coupery_ksnf.Order.{nat_key}
use coupery_ksnf.Map.{Map, lookup}
use coupery_ksnf.Outcome.{
  Result, ok, err, ◌>>=◌, or_fail, busy, attempt_closed, attempt_mismatch, attempt_exhausted,
  wrong_stage, participant_not_found,
}
use coupery_ksnf.Types.{LeafAttempt, attempt_eq, KeyEpoch}
use coupery_ksnf.Profile.{Profile}
use coupery_ksnf.Signing.{NoncePair, Nonce, DeviceNonceSet}
use coupery_ksnf.Auth.{View}
use coupery_ksnf.Transcript.{MemberReservation}

pub data LeafStage : Type 0 where
  reserved committed held fixed : LeafStage

pub data ResponseMode : Type 0 where
  plain taproot : ResponseMode

abbrev pub mode_eq : ResponseMode → ResponseMode → Bool
mode_eq plain plain = true
mode_eq taproot taproot = true
mode_eq _ _ = false

-- The tag is the number that the 32 bytes of the output key spell.
pub record ResponseBinding : Type 0 where
  pub mode : ResponseMode
  pub policy_tag : Option ℕ

abbrev tag_eq : Option ℕ → Option ℕ → Bool
tag_eq none none = true
tag_eq (some a) (some b) = a == b
tag_eq _ _ = false

abbrev pub binding_eq : ResponseBinding → ResponseBinding → Bool
binding_eq a b = mode_eq a.mode b.mode && tag_eq a.policy_tag b.policy_tag

mode_eq_refl : (m : ResponseMode) → mode_eq m m ≡ true
mode_eq_refl plain = refl
mode_eq_refl taproot = refl

tag_eq_refl : (t : Option ℕ) → tag_eq t t ≡ true
tag_eq_refl none = refl
tag_eq_refl (some a) = ground arith

pub binding_eq_refl : (a : ResponseBinding) → binding_eq a a ≡ true
binding_eq_refl a = ground (arith, mode_eq_refl a.mode, tag_eq_refl a.policy_tag)

-- `ResponseBinding::plain`
abbrev pub plain_binding : ResponseBinding
plain_binding = record { mode = plain; policy_tag = none }

module _ (P : Profile) where
  open P use {Scalar, Element}

  pub record IdentityMap : Type 0 where
    pub commitments : List Element
    pub devices : List (ℕ × Scalar × Element)

  pub record MemberMap : Type 0 where
    pub commitments : List Element

  pub record OuterMap : Type 0 where
    pub commitments : List Element
    pub people : List (ℕ × Scalar × Element)

  pub record VaultState : Type 0 where
    pub outer_node : Scalar
    pub outer_epoch : ℕ
    pub member_handle : ℕ
    pub member_point : Element
    pub vault_key : Element
    pub anchor : Scalar
    pub member_map : MemberMap
    pub outer_map : OuterMap

  pub record CommitState : Type 0 where
    pub nonce : Option (Nonce P)
    pub pair : NoncePair P
    pub commitment : Scalar

  pub record RevealState : Type 0 where
    pub bytes : List ℕ
    pub view : View Scalar
    pub viewed_pair : NoncePair P

  pub record FixedState : Type 0 where
    pub bytes : List ℕ
    pub nonces : DeviceNonceSet P

  pub record Live : Type 0 where
    pub attempt : LeafAttempt
    pub session : ℕ
    pub vault : ℕ
    pub expiry : ℕ
    pub reservation_bytes : List ℕ
    pub response : ResponseBinding
    pub reservation : Option (MemberReservation P)
    pub commit : Option CommitState
    pub reveal : Option RevealState
    pub fix : Option FixedState

  pub record LeafRegistry : Type 0 where
    pub device : ℕ
    pub person : ℕ
    pub node : Scalar
    pub identity_map : IdentityMap
    pub identity_key : Element
    pub identity_share : Scalar
    pub inner_epoch : ℕ
    pub identity_handle : ℕ
    pub vaults : Map ℕ VaultState
    pub live : Option Live
    pub next_sequence : ℕ

  -- `Live::stage`
  abbrev pub live_stage : Live → LeafStage
  live_stage l = elim l.fix [
    | some f ↦ fixed
    | none ↦ elim l.reveal [
      | some v ↦ held
      | none ↦ elim l.commit [ some c ↦ committed | none ↦ reserved ]
    ]
  ]

  -- `LeafRegistry::stage`
  pub stage : LeafRegistry → Option LeafStage
  stage r = elim r.live [ none ↦ none | some l ↦ some (live_stage l) ]

  abbrev pub attempt_of : Option Live → Option LeafAttempt
  attempt_of none = none
  attempt_of (some l) = some l.attempt

  -- `LeafRegistry::live_attempt`
  abbrev pub live_attempt : LeafRegistry → Option LeafAttempt
  live_attempt r = attempt_of r.live

  -- `LeafRegistry::live_session`
  abbrev pub live_session : LeafRegistry → Option ℕ
  live_session r = elim r.live [ none ↦ none | some l ↦ some l.session ]

  -- `self.live.is_none_or(|live| live.attempt != attempt)`
  abbrev pub is_not_live : Option Live → LeafAttempt → Bool
  is_not_live none attempt = true
  is_not_live (some l) attempt = not (attempt_eq l.attempt attempt)

  -- `LeafRegistry::is_closed`
  unfoldable pub is_closed : LeafRegistry → LeafAttempt → Bool
  is_closed r attempt =
      attempt.device == r.device
      && (ltb attempt.sequence r.next_sequence && is_not_live r.live attempt)

  -- `LeafRegistry::epoch`
  unfoldable pub epoch : LeafRegistry → ℕ → Result KeyEpoch
  epoch r vault = do
    state ← or_fail (lookup vault r.vaults) participant_not_found
    ok (record {
      outer = state.outer_epoch;
      inner = r.inner_epoch;
      anchor = record {
        vault = vault;
        person = r.person;
        identity = r.identity_handle;
        member = state.member_handle;
      };
    })

  -- `LeafRegistry::vaults`
  pub vaults : LeafRegistry → List ℕ
  vaults r = map (λ v. v.0) r.vaults

  -- `LeafRegistry::issue_attempt`; the sequence is a `u64`.
  unfoldable pub issue_attempt : LeafRegistry → Result LeafAttempt × LeafRegistry
  issue_attempt r =
      if ltb (r.next_sequence + 1) (2 ^ 64)
      then (
        ok (record { device = r.device; sequence = r.next_sequence }),
        record r { next_sequence = r.next_sequence + 1 },
      )
      else (err attempt_exhausted, r)

  -- `LeafRegistry::take_live`
  unfoldable pub take_live : LeafRegistry → LeafAttempt → Result Live × LeafRegistry
  unfolding is_closed
  take_live r attempt = if is_closed r attempt then (err attempt_closed, r) else elim r.live [
    | none ↦ (err wrong_stage, r)
    | some l ↦
        if attempt_eq l.attempt attempt
        then (ok l, record r { live = none })
        else if attempt.device == r.device
        then (err busy, r)
        else (err attempt_mismatch, r)
  ]

  -- `LeafRegistry::close_live`, and `close_vault_live`.
  abbrev pub close_live : LeafRegistry → LeafRegistry
  close_live r = record r { live = none }

  abbrev pub close_vault_live : LeafRegistry → ℕ → LeafRegistry
  close_vault_live r vault = elim r.live [
    | none ↦ r
    | some l ↦ if l.vault == vault then close_live r else r
  ]
