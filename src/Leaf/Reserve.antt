-- ===== src/Leaf/Reserve.antt =====
-- `LeafRegistry::reserve_with` of leaf.rs with its validation of a reservation. What the closure
-- `parse` returns is an argument (the codec of reservations is in transcript.rs). The source
-- bisects the sorted devices and people of the maps; a scan finds the same entry.
use coupery_ksnf.Base.{
  ℕ, suc, ◌^◌, ◌&&◌, ◌||◌, not, none, some, List, [], ◌∷◌, find, length, ◌==◌, ltb, leb,
  if◌then◌else◌,
}
use coupery_ksnf.Order.{nat_key}
use coupery_ksnf.Map.{lookup}
use coupery_ksnf.Outcome.{
  Result, ok, err, ◌>>=◌, ◌>>◌, fail_if, or_fail, busy, replay_mismatch, epoch_mismatch,
  invalid_transcript, expired, share_mismatch, participant_mismatch, support_mismatch,
  participant_not_found, length_overflow,
}
use coupery_ksnf.Types.{LeafAttempt, epoch_eq}
use coupery_ksnf.Profile.{Profile}
use coupery_ksnf.Shamir.{signing_share, evaluate_commitments, from_scalar}
use coupery_ksnf.Support.{
  InnerSupport, OuterSupport, DeviceParticipant, PersonParticipant, inner_participant,
  inner_coefficient, outer_coefficient,
}
use coupery_ksnf.Auth.{bytes_eq}
use coupery_ksnf.Transcript.{MemberReservation}
use coupery_ksnf.Leaf.State.{
  LeafRegistry, Live, VaultState, ResponseBinding, binding_eq, epoch, issue_attempt,
}

module _ (P : Profile) where
  open P use {Scalar, Element, scalar_eq, element_eq, identity, add_element, scale}

  -- The loop of `validate_inner_support`, with the sum so far.
  unfoldable pub check_devices :
      LeafRegistry P
      → VaultState P
      → InnerSupport P
      → Element
      → List (DeviceParticipant P)
      → Result Element
  check_devices r vault support sum [] = ok sum
  check_devices r vault support sum (p ∷ ps) = do
    entry ← or_fail (find (λ e. e.0 == p.device) r.identity_map.devices) participant_not_found
    fail_if
        (not (scalar_eq p.node entry.1)
          || not (element_eq p.share (evaluate_commitments P vault.member_map.commitments entry.1)))
        share_mismatch
    coefficient ← inner_coefficient P support p.device
    check_devices r vault support (add_element sum (scale p.share coefficient)) ps

  -- `LeafRegistry::validate_inner_support`
  unfoldable pub validate_inner_support :
      LeafRegistry P → VaultState P → InnerSupport P → Result (Unit {0})
  unfolding check_devices
  validate_inner_support r vault support = do
    fail_if (not (length support.participants == length vault.member_map.commitments))
        support_mismatch
    reconstructed ← check_devices r vault support identity support.participants
    if element_eq reconstructed vault.member_point then ok tt else err share_mismatch

  -- The loop of `validate_outer_support` from `index`; a slot is a `u16`.
  unfoldable pub check_people :
      VaultState P → OuterSupport P → ℕ → Element → List (PersonParticipant P) → Result Element
  check_people vault support index sum [] = ok sum
  check_people vault support index sum (p ∷ ps) = do
    fail_if (not (ltb (suc index) (2 ^ 16))) length_overflow
    entry ← or_fail (find (λ e. e.0 == p.person) vault.outer_map.people) participant_not_found
    fail_if
        (not (p.slot == suc index)
          || (not (scalar_eq p.node entry.1)
              || (not (element_eq p.member entry.2)
                  || not (
                      element_eq entry.2
                        (evaluate_commitments P vault.outer_map.commitments entry.1)))))
        share_mismatch
    coefficient ← outer_coefficient P support p.person
    check_people vault support (suc index) (add_element sum (scale entry.2 coefficient.scalar)) ps

  -- `LeafRegistry::validate_outer_support`
  unfoldable pub validate_outer_support : VaultState P → OuterSupport P → Result (Unit {0})
  unfolding check_people
  validate_outer_support vault support = do
    fail_if (not (length support.participants == length vault.outer_map.commitments))
        support_mismatch
    reconstructed ← check_people vault support 0 identity support.participants
    if element_eq reconstructed vault.vault_key then ok tt else err share_mismatch

  -- `LeafRegistry::validate_reservation`
  unfoldable pub validate_reservation :
      LeafRegistry P → MemberReservation P → OuterSupport P → Result ℕ
  unfolding epoch validate_inner_support validate_outer_support
  validate_reservation r reservation outer = do
    let body = reservation.opening.body
    let vault_id = body.epoch.anchor.vault
    vault ← or_fail (lookup vault_id r.vaults) epoch_mismatch
    installed ← epoch P r vault_id
    fail_if (not (epoch_eq body.epoch installed)) epoch_mismatch
    fail_if
        (not (element_eq body.identity r.identity_key)
          || (not (element_eq body.member vault.member_point)
              || not (element_eq reservation.prepackage.key vault.vault_key)))
        invalid_transcript
    validate_inner_support r vault body.inner
    validate_outer_support vault outer
    participant ← inner_participant P body.inner r.device
    fail_if (not (scalar_eq participant.node r.node)) participant_mismatch
    fail_if
        (not (
          element_eq (from_scalar P (signing_share P r.identity_share vault.anchor))
            participant.share))
        share_mismatch
    ok vault_id

  -- The closure of `reserve_with`, from what `parse` returned.
  unfoldable pub accept_reservation :
      LeafRegistry P
      → ℕ
      → ℕ
      → OuterSupport P
      → Result (MemberReservation P × ℕ × ℕ)
      → Result (MemberReservation P × ℕ × ℕ)
  unfolding validate_reservation
  accept_reservation r session now outer parsed = do
    (reservation, parsed_session, expiry) ← parsed
    fail_if (not (parsed_session == session)) invalid_transcript
    fail_if (leb expiry now) expired
    vault ← validate_reservation r reservation outer
    ok (reservation, expiry, vault)

  -- The attempt that a reservation opens.
  abbrev pub reserved_live :
      LeafAttempt → ℕ → List ℕ → ResponseBinding → MemberReservation P × ℕ × ℕ → Live P
  reserved_live attempt session bytes response (reservation, expiry, vault) = record {
    attempt = attempt;
    session = session;
    vault = vault;
    expiry = expiry;
    reservation_bytes = bytes;
    response = response;
    reservation = some reservation;
    commit = none;
    reveal = none;
    fix = none;
  }

  -- `LeafRegistry::reserve_with`
  unfoldable pub reserve_with :
      LeafRegistry P
      → ℕ
      → ℕ
      → List ℕ
      → ResponseBinding
      → OuterSupport P
      → Result (MemberReservation P × ℕ × ℕ)
      → Result LeafAttempt × LeafRegistry P
  unfolding accept_reservation issue_attempt
  reserve_with r session now bytes response outer parsed = elim r.live [
    | some l ↦
        if not (l.session == session)
        then (err busy, r)
        else if bytes_eq l.reservation_bytes bytes && binding_eq l.response response
        then (ok l.attempt, r)
        else (err replay_mismatch, record r { live = none })
    | none ↦ elim (accept_reservation r session now outer parsed) [
      | err e ↦ (err e, r)
      | ok accepted ↦
          let (issued, r') = issue_attempt P r in
          elim issued [
            | err e ↦ (err e, r')
            | ok attempt ↦ (
              ok attempt,
              record r' { live = some (reserved_live attempt session bytes response accepted) },
            )
          ]
    ]
  ]
