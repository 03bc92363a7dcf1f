-- ===== src/Types.antt =====
-- types.rs and keys.rs: identifiers, attempts, epochs and anchors. Identifiers, epochs, sequences
-- and slots are numbers; their bounds (2^256, 2^64, 2^16) are stated where a result needs them.
use coupery_ksnf.Base.{ℕ, ◌≡◌, ◌↔◌, Bool, true, ◌&&◌, arith, ◌==◌}

pub record LeafAttempt : Type 0 where
  pub device : ℕ
  pub sequence : ℕ

abbrev pub attempt_eq : LeafAttempt → LeafAttempt → Bool
attempt_eq a b = a.device == b.device && a.sequence == b.sequence

pub attempt_eq_iff : (a b : LeafAttempt) → (attempt_eq a b ≡ true) ↔ (a ≡ b)
attempt_eq_iff a b = ground arith

pub record AnchorId : Type 0 where
  pub vault : ℕ
  pub person : ℕ
  pub identity : ℕ
  pub member : ℕ

pub record KeyEpoch : Type 0 where
  pub outer : ℕ
  pub inner : ℕ
  pub anchor : AnchorId

abbrev pub anchor_eq : AnchorId → AnchorId → Bool
anchor_eq a b =
    a.vault == b.vault && a.person == b.person && a.identity == b.identity && a.member == b.member

abbrev pub epoch_eq : KeyEpoch → KeyEpoch → Bool
epoch_eq a b = a.outer == b.outer && a.inner == b.inner && anchor_eq a.anchor b.anchor

pub epoch_eq_iff : (a b : KeyEpoch) → (epoch_eq a b ≡ true) ↔ (a ≡ b)
epoch_eq_iff a b = ground arith
