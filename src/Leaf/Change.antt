-- ===== src/Leaf/Change.antt =====
-- Every call on a `LeafRegistry` makes a change of the step relation.
use coupery_ksnf.Base.{
  ℕ, ◌+◌, ◌^◌, ◌≡◌, refl, subst, ◌&&◌, not, none, List, arith, ◌⊎◌, inl, inr, Bool-cases,
  Option-cases, ◌==◌, ltb, leb,
}
use coupery_ksnf.Order.{nat_key}
use coupery_ksnf.Map.{insert}
use coupery_ksnf.Sort.{sort_by_key}
use coupery_ksnf.Outcome.{
  Result, ok, err, ok-injective, Result-cases, >>=-passed, fail_if-passed, invalid_transcript,
  expired,
}
use coupery_ksnf.Types.{KeyEpoch}
use coupery_ksnf.Profile.{Profile}
use coupery_ksnf.Support.{OuterSupport}
use coupery_ksnf.Auth.{bytes_eq}
use coupery_ksnf.Transcript.{MemberReservation}
use coupery_ksnf.Dealing.{InstalledShare}
use coupery_ksnf.Leaf.State.{
  LeafRegistry, ResponseBinding, binding_eq, issue_attempt, close_vault_live,
}
use coupery_ksnf.Leaf.Install.{
  DeviceGenesisParts, add_vault, is_live, differs, vault_state, validate_genesis_epoch,
}
use coupery_ksnf.Leaf.Activate.{
  activate_inner_bundle, activate_outer, accept_bundle, accept_target, install_inner,
}
use coupery_ksnf.Leaf.Reserve.{
  reserve_with, reserved_live, accept_reservation, validate_reservation,
}
use coupery_ksnf.Leaf.Bundles.{accept_bundle-later}
use coupery_ksnf.Leaf.OuterEpochs.{activate_outer-writes}
use coupery_ksnf.Leaf.Calls.{
  Call, reserves, commits, reveals, fixes, responds, closes, receives_abort, expires, adds_vault,
  activates_inner, activates_outer, after_call,
}
use coupery_ksnf.Leaf.Relation.{Change, unchanged, opened, closed, rekeyed}
use coupery_ksnf.Leaf.SessionChange.{
  commit-Change, reveal-Change, fix-Change, respond_with-Change, receive_abort-Change, close-Change,
  close_expired-Change,
}

module _ (P : Profile) where
  module _ (r : LeafRegistry P) where
    accept_reservation-Valid :
        (session now : ℕ) (outer : OuterSupport P) (parsed : Result (MemberReservation P × ℕ × ℕ))
        (reservation : MemberReservation P) (expiry vault : ℕ)
        → accept_reservation P r session now outer parsed ≡ ok (reservation, expiry, vault)
        → validate_reservation P r reservation outer ≡ ok vault
    unfolding accept_reservation
    accept_reservation-Valid session now outer (err e) reservation expiry vault h = cc
    accept_reservation-Valid session now outer (ok (found, s, x)) reservation expiry vault h =
        let (same_session, h1) = fail_if-passed (not (s == session)) invalid_transcript _ h in
        let (unexpired, h2) = fail_if-passed (leb x now) expired _ h1 in
        let (v, valid, h3) = >>=-passed (validate_reservation P r found outer) _ h2 in
        subst (λ acc. validate_reservation P r acc.0 outer ≡ ok acc.2) (ok-injective _ _ h3) valid

    pub reserve_with-Change :
        (session now : ℕ) (bytes : List ℕ) (response : ResponseBinding) (outer : OuterSupport P)
        (parsed : Result (MemberReservation P × ℕ × ℕ))
        → Change P r (reserve_with P r session now bytes response outer parsed).1
    unfolding reserve_with issue_attempt
    reserve_with-Change session now bytes response outer parsed = elim (Option-cases r.live) [
      | inr (l, live) ↦ elim (Bool-cases (l.session == session)) [
        | inr other ↦ unchanged (ground arith)
        | inl mine ↦
            elim (Bool-cases
              (bytes_eq l.reservation_bytes bytes && binding_eq l.response response)) [
                | inl replay ↦ unchanged (ground arith)
                | inr altered ↦ closed l live (ground arith)
              ]
      ]
      | inl idle ↦ elim (Result-cases (accept_reservation P r session now outer parsed)) [
        | inr (e, bad) ↦ unchanged (ground arith)
        | inl ((reservation, expiry, vault), good) ↦
            elim (Bool-cases (ltb (r.next_sequence + 1) (2 ^ 64))) [
              | inr full ↦ unchanged (ground arith)
              | inl free ↦
                  opened
                    (reserved_live P (record { device = r.device; sequence = r.next_sequence })
                      session bytes response (reservation, expiry, vault))
                    idle
                    (record {
                      numbered = refl;
                      counted = ground arith;
                      reservation = reservation;
                      kept = refl;
                      outer = outer;
                      valid =
                          accept_reservation-Valid session now outer parsed reservation expiry vault
                            good;
                      uncommitted = refl;
                      unrevealed = refl;
                      unfixed = refl;
                    })
                    (ground arith)
            ]
      ]
    ]

    add_vault-Change :
        (parts : DeviceGenesisParts P) (e : KeyEpoch) → Change P r (add_vault P r parts e).1
    unfolding add_vault
    add_vault-Change parts e = elim (Bool-cases (is_live P r.live)) [
      | inl busy ↦ unchanged (ground arith)
      | inr idle ↦ elim (Result-cases (validate_genesis_epoch P parts e)) [
        | inr (x, bad) ↦ unchanged (ground arith)
        | inl (u, good) ↦ elim (Bool-cases (differs P r parts e)) [
          | inl other ↦ unchanged (ground arith)
          | inr alike ↦
              rekeyed (record r { vaults = insert parts.vault (vault_state P parts e) r.vaults })
                (record {
                  device = refl;
                  counter = refl;
                  identity = refl;
                  inner_epoch = omega arith;
                  live = inr refl;
                })
                (ground arith)
        ]
      ]
    ]

    activate_inner_bundle-Change :
        (identity : InstalledShare P) (members : List (KeyEpoch × InstalledShare P))
        → Change P r (activate_inner_bundle P r identity members).1
    unfolding activate_inner_bundle
    activate_inner_bundle-Change identity members =
        elim (Result-cases
          (accept_bundle P r identity (sort_by_key (λ m. m.0.anchor.vault) members))) [
            | inr (e, bad) ↦ unchanged (ground arith)
            | inl ((m, inner, anchors), good) ↦
                rekeyed (install_inner P r identity (m, inner, anchors))
                  (record {
                    device = refl;
                    counter = refl;
                    identity = refl;
                    inner_epoch =
                        omega (arith, accept_bundle-later P r identity _ m inner anchors good);
                    live = inl refl;
                  })
                  (ground arith)
          ]

    close_vault_live-live :
        (v : ℕ) → ((close_vault_live P r v).live ≡ none) ⊎ ((close_vault_live P r v).live ≡ r.live)
    close_vault_live-live v = elim (Option-cases r.live) [
      | inl idle ↦ inr (ground arith)
      | inr (l, live) ↦ elim (Bool-cases (l.vault == v)) [
        | inl hit ↦ inl (ground arith)
        | inr miss ↦ inr (ground arith)
      ]
    ]

    activate_outer-Change :
        (e : KeyEpoch) (member : InstalledShare P) → Change P r (activate_outer P r e member).1
    unfolding activate_outer
    activate_outer-Change e member =
        elim (Result-cases (accept_target P r e member member.target)) [
          | inr (x, bad) ↦ unchanged (ground arith)
          | inl (state, good) ↦
              let v = e.anchor.vault in
              let s = record r {
                live = (close_vault_live P r v).live;
                vaults = insert v state r.vaults;
              } in
              rekeyed s
                (record {
                  device = refl;
                  counter = refl;
                  identity = refl;
                  inner_epoch = omega arith;
                  live = close_vault_live-live v;
                })
                (activate_outer-writes P r e member state good)
        ]

  -- Every call makes one of five changes: it leaves the registry as it was, opens the next attempt
  -- of an idle registry for a valid reservation, moves the live attempt one step on (commit, then
  -- reveal, then fix, each with what it must have verified), closes the live attempt, or installs
  -- keys, which keeps the device, the identity key, the counter and an attempt or closes it.
  pub after_call-Change :
      {A : Type 0} (r : LeafRegistry P) (k : Call P A) → Change P r (after_call P r k)
  unfolding after_call
  after_call-Change r (reserves session now bytes response outer parsed) =
      reserve_with-Change r session now bytes response outer parsed
  after_call-Change r (commits attempt reservation nonce) =
      commit-Change P r attempt reservation nonce
  after_call-Change r (reveals attempt deliveries) = reveal-Change P r attempt deliveries
  after_call-Change r (fixes attempt deliveries) = fix-Change P r attempt deliveries
  after_call-Change r (responds attempt mode answer) = respond_with-Change P r attempt mode answer
  after_call-Change r (closes attempt) = close-Change P r attempt
  after_call-Change r (receives_abort abort) = receive_abort-Change P r abort
  after_call-Change r (expires now) = close_expired-Change P r now
  after_call-Change r (adds_vault parts e) = add_vault-Change r parts e
  after_call-Change r (activates_inner identity members) =
      activate_inner_bundle-Change r identity members
  after_call-Change r (activates_outer e member) = activate_outer-Change r e member
