-- ===== src/Leaf/SessionChange.antt =====
-- The operations on the live attempt make changes of the step relation.
use coupery_ksnf.Base.{
  ℕ, ◌≡◌, sym, subst, true, false, ◌||◌, not, Option, none, List, arith, inl, inr, Bool-cases,
  Option-cases, ◌==◌, leb,
}
use coupery_ksnf.Order.{nat_key}
use coupery_ksnf.Map.{lookup}
use coupery_ksnf.Outcome.{
  Result, ok, >>=-passed, fail_if-passed, or_fail-passed, invalid_transcript, protocol_mismatch,
  epoch_mismatch, wrong_stage,
}
use coupery_ksnf.Types.{LeafAttempt, attempt_eq}
use coupery_ksnf.Profile.{Profile}
use coupery_ksnf.Support.{inner_participant}
use coupery_ksnf.Signing.{NoncePair, Nonce}
use coupery_ksnf.Auth.{Delivery, AuthenticatedAbort, bytes_eq}
use coupery_ksnf.Leaf.State.{LeafRegistry, Live, ResponseMode, mode_eq, is_closed}
use coupery_ksnf.Leaf.Session.{
  live_support, ResponseInputs, with_live, commit, commit_step, reveal, reveal_step, fix, fix_step,
  respond_with, respond_step, close, receive_abort, abort_step, other_session, close_expired,
}
use coupery_ksnf.Leaf.Stages.{gone}
use coupery_ksnf.Leaf.Steps.{commit_step-Back, reveal_step-Back, fix_step-Back}
use coupery_ksnf.Leaf.Relation.{Change, unchanged, closed, with_live-Change}

module _ (P : Profile) where
  module _ (r : LeafRegistry P) where
    pub commit-Change :
        (attempt : LeafAttempt) (reservation : List ℕ) (nonce : Nonce P)
        → Change P r (commit P r attempt reservation nonce).1
    unfolding commit
    commit-Change attempt reservation nonce =
        with_live-Change P r attempt (λ _. commit_step P attempt reservation nonce)
          (λ l a back named good.
            commit_step-Back P l reservation nonce a back
              (subst (λ x. commit_step P x reservation nonce l ≡ ok (a, back)) (sym named) good))

    pub reveal-Change :
        (attempt : LeafAttempt) (deliveries : List (Delivery P.Scalar))
        → Change P r (reveal P r attempt deliveries).1
    unfolding reveal
    reveal-Change attempt deliveries =
        with_live-Change P r attempt (λ _. reveal_step P attempt deliveries)
          (λ l a back named good.
            reveal_step-Back P l deliveries a back
              (subst (λ x. reveal_step P x deliveries l ≡ ok (a, back)) (sym named) good))

    pub fix-Change :
        (attempt : LeafAttempt) (deliveries : List (Delivery (NoncePair P)))
        → Change P r (fix P r attempt deliveries).1
    unfolding fix
    fix-Change attempt deliveries =
        with_live-Change P r attempt (λ _. fix_step P attempt deliveries)
          (λ l a back named good.
            fix_step-Back P l deliveries a back
              (subst (λ x. fix_step P x deliveries l ≡ ok (a, back)) (sym named) good))

    pub respond_step-gone :
        {A : Type 0} (mode : ResponseMode) (answer : ResponseInputs P → List ℕ → Result A)
        (s : LeafRegistry P) (l : Live P) (a : A) (back : Option (Live P))
        → respond_step P mode answer s l ≡ ok (a, back)
        → back ≡ none
    unfolding respond_step
    respond_step-gone mode answer s l a back h =
        let (_, h1) = fail_if-passed (not (mode_eq l.response.mode mode)) protocol_mismatch _ h in
        let (fixed, _, h2) = or_fail-passed l.fix wrong_stage _ h1 in
        let (committed, _, h3) = or_fail-passed l.commit wrong_stage _ h2 in
        let (nonce, _, h4) = or_fail-passed committed.nonce wrong_stage _ h3 in
        let (reservation, _, h5) = or_fail-passed l.reservation wrong_stage _ h4 in
        let (vault, _, h6) = or_fail-passed (lookup l.vault s.vaults) epoch_mismatch _ h5 in
        let (output, _, h7) = >>=-passed (answer _ l.reservation_bytes) _ h6 in cc

    pub respond_with-Change :
        {A : Type 0} (attempt : LeafAttempt) (mode : ResponseMode)
        (answer : ResponseInputs P → List ℕ → Result A)
        → Change P r (respond_with P r attempt mode answer).1
    unfolding respond_with
    respond_with-Change attempt mode answer =
        with_live-Change P r attempt (respond_step P mode answer) (λ l a back named good.
          gone (respond_step-gone mode answer (record r { live = none }) l a back good))

    abort_step-gone :
        (abort : AuthenticatedAbort) (l : Live P) (u : Unit {0}) (back : Option (Live P))
        → abort_step P abort l ≡ ok (u, back)
        → back ≡ none
    unfolding abort_step
    abort_step-gone abort l u back h =
        let (support, _, h1) = >>=-passed (live_support P l) _ h in
        let (device, _, h2) = >>=-passed (inner_participant P support abort.sender.device) _ h1 in
        let (_, h3) =
          fail_if-passed
            (not (l.session == abort.session)
              || not (bytes_eq l.reservation_bytes abort.reservation))
            invalid_transcript _ h2 in
        cc

    receive_abort-passes :
        (abort : AuthenticatedAbort)
        → (abort.receiver.device == r.device) ≡ true
        → other_session P r.live abort ≡ false
        → (receive_abort P r abort).1 ≡ (with_live P r abort.receiver (λ _. abort_step P abort)).1
    unfolding receive_abort
    receive_abort-passes abort ours same_session = ground arith

    pub receive_abort-Change : (abort : AuthenticatedAbort) → Change P r (receive_abort P r abort).1
    unfolding receive_abort
    receive_abort-Change abort = elim (Bool-cases (abort.receiver.device == r.device)) [
      | inr other ↦ unchanged (ground arith)
      | inl ours ↦ elim (Bool-cases (other_session P r.live abort)) [
        | inl other ↦ unchanged (ground arith)
        | inr same_session ↦
            subst (Change P r) (sym (receive_abort-passes abort ours same_session)) (
              with_live-Change P r abort.receiver (λ _. abort_step P abort)
                (λ l u back named good. gone (abort_step-gone abort l u back good)))
      ]
    ]

    pub close-Change : (attempt : LeafAttempt) → Change P r (close P r attempt).1
    unfolding close
    close-Change attempt = elim (Bool-cases (is_closed P r attempt)) [
      | inl already ↦ unchanged (ground arith)
      | inr unclosed ↦ elim (Option-cases r.live) [
        | inl idle ↦ unchanged (ground arith)
        | inr (l, live) ↦ elim (Bool-cases (attempt_eq l.attempt attempt)) [
          | inl named ↦ closed l live (ground arith)
          | inr other ↦ unchanged (ground arith)
        ]
      ]
    ]

    pub close_expired-Change : (now : ℕ) → Change P r (close_expired P r now).1
    unfolding close_expired
    close_expired-Change now = elim (Option-cases r.live) [
      | inl idle ↦ unchanged (ground arith)
      | inr (l, live) ↦ elim (Bool-cases (leb l.expiry now)) [
        | inl late ↦ closed l live (ground arith)
        | inr early ↦ unchanged (ground arith)
      ]
    ]
