-- ===== src/Leaf/Fits.antt =====
-- The reservations that the validation of leaf.rs accepts.
use coupery_ksnf.Base.{ℕ, ◌<◌, ◌≡◌, refl, sym, ◌∙◌, ap, subst, ◌||◌, not, some, arith, ◌==◌, leb}
use coupery_ksnf.Order.{nat_key}
use coupery_ksnf.Map.{lookup}
use coupery_ksnf.Outcome.{
  Result, ok, err, ok-injective, >>=-passed, fail_if-passed, or_fail-passed, invalid_transcript,
  expired, epoch_mismatch, participant_mismatch, share_mismatch,
}
use coupery_ksnf.Types.{epoch_eq, epoch_eq_iff}
use coupery_ksnf.Profile.{Profile}
use coupery_ksnf.Shamir.{from_scalar, signing_share}
use coupery_ksnf.Support.{OuterSupport, DeviceParticipant, inner_participant}
use coupery_ksnf.Transcript.{MemberReservation}
use coupery_ksnf.Leaf.State.{LeafRegistry, VaultState, epoch}
use coupery_ksnf.Leaf.Reserve.{
  accept_reservation, validate_reservation, validate_inner_support, validate_outer_support,
}

module _ (P : Profile) where
  -- The reservation is for the vault's installed epoch and keys, and this device's share of the
  -- signing key is the one that the reservation's support gives it.
  pub record Fits (r : LeafRegistry P) (reservation : MemberReservation P) (outer : OuterSupport P)
      (vault : ℕ) : Type 0 where
    pub named : vault ≡ reservation.opening.body.epoch.anchor.vault
    pub state : VaultState P
    pub found : lookup vault r.vaults ≡ some state
    pub installed : epoch P r vault ≡ ok reservation.opening.body.epoch
    pub identity : reservation.opening.body.identity ≡ r.identity_key
    pub member : reservation.opening.body.member ≡ state.member_point
    pub key : reservation.prepackage.key ≡ state.vault_key
    pub inner_valid : validate_inner_support P r state reservation.opening.body.inner ≡ ok tt
    pub outer_valid : validate_outer_support P state outer ≡ ok tt
    pub participant : DeviceParticipant P
    pub takes_part : inner_participant P reservation.opening.body.inner r.device ≡ ok participant
    pub node : participant.node ≡ r.node
    pub share : from_scalar P (signing_share P r.identity_share state.anchor) ≡ participant.share

  validate_reservation-Fits :
      (r : LeafRegistry P) (reservation : MemberReservation P) (outer : OuterSupport P) (vault : ℕ)
      → validate_reservation P r reservation outer ≡ ok vault
      → Fits r reservation outer vault
  unfolding validate_reservation
  validate_reservation-Fits r reservation outer vault h =
      let body = reservation.opening.body in
      let v = body.epoch.anchor.vault in
      let (state, found, h1) = or_fail-passed (lookup v r.vaults) epoch_mismatch _ h in
      let (installed, is_installed, h2) = >>=-passed (epoch P r v) _ h1 in
      let (same_epoch, h3) =
        fail_if-passed (not (epoch_eq body.epoch installed)) epoch_mismatch _ h2 in
      let (same_keys, h4) =
        fail_if-passed
          (not (P.element_eq body.identity r.identity_key)
            || (not (P.element_eq body.member state.member_point)
                || not (P.element_eq reservation.prepackage.key state.vault_key)))
          invalid_transcript _ h3 in
      let (tt, inner_valid, h5) = >>=-passed (validate_inner_support P r state body.inner) _ h4 in
      let (tt, outer_valid, h6) = >>=-passed (validate_outer_support P state outer) _ h5 in
      let (participant, takes_part, h7) =
        >>=-passed (inner_participant P body.inner r.device) _ h6 in
      let (same_node, h8) =
        fail_if-passed (not (P.scalar_eq participant.node r.node)) participant_mismatch _ h7 in
      let (same_share, h9) =
        fail_if-passed
          (not (
            P.element_eq (from_scalar P (signing_share P r.identity_share state.anchor))
              participant.share))
          share_mismatch _ h8 in
      subst (Fits r reservation outer) (ok-injective _ _ h9) (record {
        named = refl;
        state = state;
        found = found;
        installed =
            is_installed ∙ ap ok (sym ((epoch_eq_iff body.epoch installed).0 (ground arith)));
        identity = (P.element_eq_iff _ _).0 (ground arith);
        member = (P.element_eq_iff _ _).0 (ground arith);
        key = (P.element_eq_iff _ _).0 (ground arith);
        inner_valid = inner_valid;
        outer_valid = outer_valid;
        participant = participant;
        takes_part = takes_part;
        node = (P.scalar_eq_iff _ _).0 (ground arith);
        share = (P.element_eq_iff _ _).0 (ground arith);
      })

  -- What the closure accepts.
  pub record Accepted (r : LeafRegistry P) (session now : ℕ) (outer : OuterSupport P)
      (parsed : Result (MemberReservation P × ℕ × ℕ)) (reservation : MemberReservation P)
      (expiry vault : ℕ) : Type 0 where
    pub reads : parsed ≡ ok (reservation, session, expiry)
    pub in_time : now < expiry
    pub fits : Fits r reservation outer vault

  pub accept_reservation-Accepted :
      (r : LeafRegistry P) (session now : ℕ) (outer : OuterSupport P)
      (parsed : Result (MemberReservation P × ℕ × ℕ)) (accepted : MemberReservation P × ℕ × ℕ)
      → accept_reservation P r session now outer parsed ≡ ok accepted
      → Accepted r session now outer parsed accepted.0 accepted.1 accepted.2
  unfolding accept_reservation
  accept_reservation-Accepted r session now outer (err e) accepted h = cc
  accept_reservation-Accepted r session now outer (ok (reservation, s, expiry)) accepted h =
      let (same_session, h1) = fail_if-passed (not (s == session)) invalid_transcript _ h in
      let (unexpired, h2) = fail_if-passed (leb expiry now) expired _ h1 in
      let (vault, valid, h3) = >>=-passed (validate_reservation P r reservation outer) _ h2 in
      let is : s ≡ session = ground arith in
      subst (λ t. Accepted r session now outer (ok (reservation, s, expiry)) t.0 t.1 t.2)
        (ok-injective _ _ h3)
        (record {
          reads = ap (λ x. ok (reservation, x, expiry)) is;
          in_time = ground arith;
          fits = validate_reservation-Fits r reservation outer vault valid;
        })
