-- ===== src/Leaf/Attempts.antt =====
-- What a reservation that leaf.rs accepts has been checked against, and how attempts are numbered.
use coupery_ksnf.Base.{
  ℕ, ◌+◌, ◌^◌, ◌<◌, ◌≡◌, sym, ◌∙◌, ap, subst, none, some, List, arith, ltb, inl, inr, Bool-cases,
}
use coupery_ksnf.Order.{nat_key}
use coupery_ksnf.Outcome.{Result, ok, Result-cases}
use coupery_ksnf.Types.{LeafAttempt, KeyEpoch}
use coupery_ksnf.Profile.{Profile}
use coupery_ksnf.Support.{OuterSupport}
use coupery_ksnf.Transcript.{MemberReservation}
use coupery_ksnf.Leaf.State.{
  LeafRegistry, Live, ResponseBinding, binding_eq, binding_eq_refl, issue_attempt,
}
use coupery_ksnf.Leaf.Reserve.{reserve_with, reserved_live, accept_reservation}
use coupery_ksnf.Auth.{bytes_eq_iff}
use coupery_ksnf.Leaf.Install.{DeviceGenesisParts, new}
use coupery_ksnf.Leaf.Relation.{Change}
use coupery_ksnf.Leaf.Change.{reserve_with-Change}
use coupery_ksnf.Leaf.History.{
  Reach, Reach-counter, Valid, Reach-Valid, initial-Valid, Change-Valid,
}
use coupery_ksnf.Leaf.Alive.{Reach-Continues, keeps_reservation}
use coupery_ksnf.Leaf.Fits.{Fits, accept_reservation-Accepted}

module _ (P : Profile) where
  -- What a reservation of an idle registry has established, and what it leaves.
  pub record Opening (r r1 : LeafRegistry P) (a : LeafAttempt) (session now : ℕ) (bytes : List ℕ)
      (response : ResponseBinding) (outer : OuterSupport P)
      (parsed : Result (MemberReservation P × ℕ × ℕ)) : Type 0 where
    pub reservation : MemberReservation P
    pub expiry : ℕ
    pub vault : ℕ
    pub reads : parsed ≡ ok (reservation, session, expiry)
    pub in_time : now < expiry
    pub fits : Fits P r reservation outer vault
    pub numbered : a ≡ record { device = r.device; sequence = r.next_sequence }
    pub counted : r.next_sequence + 1 < 2 ^ 64
    pub leaves : r1 ≡ record r {
      live = some (reserved_live P a session bytes response (reservation, expiry, vault));
      next_sequence = r.next_sequence + 1;
    }

  -- A reservation that an idle registry accepts was parsed for this session, expires after now
  -- and fits the registry: the vault's installed epoch and keys, valid supports, and a share of
  -- the device that is its signing share. It takes the next number and becomes the live attempt.
  pub reserve_with-Opening :
      (r r1 : LeafRegistry P) (a : LeafAttempt) (session now : ℕ) (bytes : List ℕ)
      (response : ResponseBinding) (outer : OuterSupport P)
      (parsed : Result (MemberReservation P × ℕ × ℕ))
      → r.live ≡ none
      → reserve_with P r session now bytes response outer parsed ≡ (ok a, r1)
      → Opening r r1 a session now bytes response outer parsed
  unfolding reserve_with issue_attempt
  reserve_with-Opening r r1 a session now bytes response outer parsed idle h =
      elim (Result-cases (accept_reservation P r session now outer parsed)) [
        | inr (e, bad) ↦ ground arith
        | inl (accepted, good) ↦ elim (Bool-cases (ltb (r.next_sequence + 1) (2 ^ 64))) [
          | inr full ↦ ground arith
          | inl free ↦
              let k = accept_reservation-Accepted P r session now outer parsed accepted good in
              record {
                reservation = accepted.0;
                expiry = accepted.1;
                vault = accepted.2;
                reads = k.reads;
                in_time = k.in_time;
                fits = k.fits;
                numbered = ground arith;
                counted = ground arith;
                leaves = ground arith;
              }
        ]
      ]

  -- Two attempts that a device opens one after the other, each while it is idle, have different
  -- numbers: the later one's is larger, whatever calls come between.
  pub attempts_increase :
      {A : Type 0} (r r1 r2 r3 : LeafRegistry P) (a b : LeafAttempt) (session now : ℕ)
      (bytes : List ℕ) (response : ResponseBinding) (outer : OuterSupport P)
      (parsed : Result (MemberReservation P × ℕ × ℕ)) (session' now' : ℕ) (bytes' : List ℕ)
      (response' : ResponseBinding) (outer' : OuterSupport P)
      (parsed' : Result (MemberReservation P × ℕ × ℕ))
      → r.live ≡ none
      → reserve_with P r session now bytes response outer parsed ≡ (ok a, r1)
      → Reach P A r1 r2
      → r2.live ≡ none
      → reserve_with P r2 session' now' bytes' response' outer' parsed' ≡ (ok b, r3)
      → (b.device ≡ a.device) × (a.sequence < b.sequence)
  attempts_increase r r1 r2 r3 a b session now bytes response outer parsed session' now' bytes'
        response' outer' parsed' idle first reach idle' second =
      let o = reserve_with-Opening r r1 a session now bytes response outer parsed idle first in
      let q =
        reserve_with-Opening r2 r3 b session' now' bytes' response' outer' parsed' idle' second in
      let (device, later) = Reach-counter P reach in
      (
        ap (λ x. x.device) q.numbered
            ∙ (device ∙ (ap (λ x. x.device) o.leaves ∙ ap (λ x. x.device) (sym o.numbered))),
        omega (
          arith,
          later,
          ap (λ x. x.sequence) q.numbered,
          ap (λ x. x.sequence) o.numbered,
          ap (λ x. x.next_sequence) o.leaves,
        ),
      )

  reserve_with-live :
      (s : LeafRegistry P) (n : Live P) (a : LeafAttempt) (session now : ℕ) (bytes : List ℕ)
      (response : ResponseBinding) (outer : OuterSupport P)
      (parsed : Result (MemberReservation P × ℕ × ℕ))
      → s.live ≡ some n
      → n.attempt ≡ a
      → n.session ≡ session
      → n.reservation_bytes ≡ bytes
      → n.response ≡ response
      → reserve_with P s session now bytes response outer parsed ≡ (ok a, s)
  unfolding reserve_with
  reserve_with-live s n a session now bytes response outer parsed at named same_session same_bytes
        same_response =
      ground (
        arith,
        (bytes_eq_iff n.reservation_bytes bytes).1 same_bytes,
        binding_eq_refl response,
        ap (λ b. binding_eq b response) same_response,
      )

  -- A reservation that opened an attempt returns that attempt again while it is live, after any
  -- calls, for the same session, bytes and response binding, at any time and with any parse
  -- result and support, and changes nothing. The registry comes from genesis by any calls.
  pub reserve_replay :
      {A : Type 0} (r0 r r1 s : LeafRegistry P) (parts : DeviceGenesisParts P) (e : KeyEpoch)
      (a : LeafAttempt) (session now now' : ℕ) (bytes : List ℕ) (response : ResponseBinding)
      (outer outer' : OuterSupport P) (parsed parsed' : Result (MemberReservation P × ℕ × ℕ))
      (n : Live P)
      → new P parts e ≡ ok r0
      → Reach P A r0 r
      → r.live ≡ none
      → reserve_with P r session now bytes response outer parsed ≡ (ok a, r1)
      → Reach P A r1 s
      → s.live ≡ some n
      → n.attempt ≡ a
      → reserve_with P s session now' bytes response outer' parsed' ≡ (ok a, s)
  reserve_replay r0 r r1 s parts e a session now now' bytes response outer outer' parsed parsed' n
        genesis reach idle h later at named =
      let o = reserve_with-Opening r r1 a session now bytes response outer parsed idle h in
      let valid1 : Valid P r1 =
        Change-Valid P r r1
          (subst (Change P r) (ap (λ t. t.1) h)
            (reserve_with-Change P r session now bytes response outer parsed))
          (Reach-Valid P reach (initial-Valid P r0 parts e genesis)) in
      let moved =
        Reach-Continues P r1 s
          (reserved_live P a session bytes response (o.reservation, o.expiry, o.vault)) n valid1
          (ap (λ x. x.live) o.leaves) later at named in
      let (same_session, same_bytes, same_response, _) = keeps_reservation P moved in
      reserve_with-live s n a session now' bytes response outer' parsed' at named same_session
        same_bytes same_response
