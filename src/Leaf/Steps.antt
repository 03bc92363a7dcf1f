-- ===== src/Leaf/Steps.antt =====
-- Commit, reveal and fix leave a live attempt as a step of `LiveStep` does.
use coupery_ksnf.Base.{
  ℕ, ◌≡◌, ◌∙◌, refl, sym, ap, subst, false, not, Option, none, some, List, arith,
}
use coupery_ksnf.Order.{nat_key}
use coupery_ksnf.Outcome.{
  ok, >>=-passed, ok-injective, fail_if-passed, or_fail-passed, replay_mismatch, invalid_transcript,
  commitment_mismatch, wrong_stage,
}
use coupery_ksnf.Types.{attempt_eq_iff}
use coupery_ksnf.Profile.{Profile}
use coupery_ksnf.Signing.{NoncePair, Nonce, nonce_commitments}
use coupery_ksnf.Auth.{
  Delivery, View, bytes_eq, bytes_eq_iff, view_new, view_commitment, commitment_view_bytes,
  opening_view_bytes, nonce_commitment, verify_openings,
}
use coupery_ksnf.Leaf.State.{Live, CommitState, RevealState, FixedState}
use coupery_ksnf.Leaf.Session.{
  commit_state, commit_from, commit_step, reveal_first, reveal_from, reveal_step, fix_first,
  fix_from, fix_step, live_support, names_other,
}
use coupery_ksnf.Leaf.Stages.{Committed, same, commits, reveals, fixes, Back, put}

module _ (P : Profile) where
  open P use {Scalar, scalar_eq, scalar_eq_iff}

  commit_state-Committed :
      (l : Live P) (nonce : Nonce P) (c : CommitState P)
      → commit_state P l.attempt l.reservation_bytes nonce ≡ ok c
      → Committed P l c
  unfolding commit_state
  commit_state-Committed l nonce c h =
      let (pair, pair_of, h1) = >>=-passed (nonce_commitments P nonce) _ h in
      let (commitment, hashed, h2) = >>=-passed (nonce_commitment P _ _ pair) _ h1 in
      subst (Committed P l) (ok-injective _ _ h2)
        (record { nonce = nonce; kept = refl; pair_of = pair_of; hashed = hashed })

  commit_from-Back :
      (l : Live P) (nonce : Nonce P) (a : Scalar) (back : Option (Live P))
      (found : Option (CommitState P))
      → l.commit ≡ found
      → commit_from P l.attempt l.reservation_bytes nonce l found ≡ ok (a, back)
      → Back P l back
  unfolding commit_from
  commit_from-Back l nonce a back (some c) is h = put l (cc) (same refl)
  commit_from-Back l nonce a back none is h =
      let (c, made, h1) = >>=-passed (commit_state P l.attempt l.reservation_bytes nonce) _ h in
      put (record l { commit = some c }) (cc)
        (commits c is (commit_state-Committed l nonce c made) refl)

  -- The attempt that a step is given is the live one's.
  module _ (l : Live P) where
    pub commit_step-Back :
        (reservation : List ℕ) (nonce : Nonce P) (a : Scalar) (back : Option (Live P))
        → commit_step P l.attempt reservation nonce l ≡ ok (a, back)
        → Back P l back
    unfolding commit_step
    commit_step-Back reservation nonce a back h =
        let (matches, h1) =
          fail_if-passed (not (bytes_eq l.reservation_bytes reservation)) replay_mismatch _ h in
        let equal : l.reservation_bytes ≡ reservation =
          (bytes_eq_iff l.reservation_bytes reservation).0 (ground arith) in
        commit_from-Back l nonce a back l.commit refl (
          subst (λ bytes. commit_from P l.attempt bytes nonce l l.commit ≡ ok (a, back)) (sym equal)
            h1)

    names_other-no :
        {A : Type 0} (v : View A)
        → names_other P v l.attempt l ≡ false
        → (v.receiver ≡ l.attempt) × (v.session ≡ l.session) × (v.reservation ≡ l.reservation_bytes)
    names_other-no v h = (
      (attempt_eq_iff v.receiver l.attempt).0 (ground arith),
      ground arith,
      (bytes_eq_iff v.reservation l.reservation_bytes).0 (ground arith),
    )

    reveal_first-Back :
        (view : View Scalar) (bytes : List ℕ) (c : CommitState P) (a : NoncePair P)
        (back : Option (Live P))
        → commitment_view_bytes P view ≡ ok bytes
        → l.reveal ≡ none
        → l.commit ≡ some c
        → reveal_first P l.attempt view bytes l c ≡ ok (a, back)
        → Back P l back
    unfolding reveal_first
    reveal_first-Back view bytes c a back printed new committed h =
        let (ours, h1) = fail_if-passed (names_other P view l.attempt l) invalid_transcript _ h in
        let (receiver, session, reservation) = names_other-no view ours in
        let (own, at, h2) = >>=-passed (view_commitment P view l.attempt) _ h1 in
        let (agrees, h3) =
          fail_if-passed (not (scalar_eq own c.commitment)) commitment_mismatch _ h2 in
        let v : RevealState P = record { bytes = bytes; view = view; viewed_pair = c.pair } in
        put (record l { reveal = some v }) (cc)
          (reveals c v new committed
            (record {
              receiver = receiver;
              session = session;
              reservation = reservation;
              own = at ∙ ap ok ((scalar_eq_iff own c.commitment).0 (ground arith));
              pair = refl;
              printed = printed;
            })
            refl)

    reveal_from-Back :
        (view : View Scalar) (bytes : List ℕ) (a : NoncePair P) (back : Option (Live P))
        (found : Option (RevealState P))
        → commitment_view_bytes P view ≡ ok bytes
        → l.reveal ≡ found
        → reveal_from P l.attempt view bytes l found ≡ ok (a, back)
        → Back P l back
    unfolding reveal_from
    reveal_from-Back view bytes a back (some v) printed is h =
        let (matches, h1) = fail_if-passed (not (bytes_eq v.bytes bytes)) replay_mismatch _ h in
        put l (cc) (same refl)
    reveal_from-Back view bytes a back none printed is h =
        let (c, committed, h1) = or_fail-passed l.commit wrong_stage _ h in
        reveal_first-Back view bytes c a back printed is committed h1

    pub reveal_step-Back :
        (deliveries : List (Delivery Scalar)) (a : NoncePair P) (back : Option (Live P))
        → reveal_step P l.attempt deliveries l ≡ ok (a, back)
        → Back P l back
    unfolding reveal_step
    reveal_step-Back deliveries a back h =
        let (support, supported, h1) = >>=-passed (live_support P l) _ h in
        let (view, made, h2) = >>=-passed (view_new P support deliveries) _ h1 in
        let (bytes, printed, h3) = >>=-passed (commitment_view_bytes P view) _ h2 in
        reveal_from-Back view bytes a back l.reveal printed refl h3

    fix_first-Back :
        (view : View (NoncePair P)) (bytes : List ℕ) (v : RevealState P) (a : NoncePair P)
        (back : Option (Live P))
        → opening_view_bytes P view ≡ ok bytes
        → l.fix ≡ none
        → l.reveal ≡ some v
        → fix_first P l.attempt view bytes l v ≡ ok (a, back)
        → Back P l back
    unfolding fix_first
    fix_first-Back view bytes v a back printed new revealed h =
        let (ours, h1) = fail_if-passed (names_other P view l.attempt l) invalid_transcript _ h in
        let (receiver, session, reservation) = names_other-no view ours in
        let (support, supported, h2) = >>=-passed (live_support P l) _ h1 in
        let (nonces, verified, h3) = >>=-passed (verify_openings P view v.view support) _ h2 in
        let f : FixedState P = record { bytes = bytes; nonces = nonces } in
        put (record l { fix = some f }) (cc)
          (fixes v f new revealed
            (record {
              support = support;
              supported = supported;
              view = view;
              receiver = receiver;
              session = session;
              reservation = reservation;
              verified = verified;
              printed = printed;
            })
            refl)

    fix_from-Back :
        (view : View (NoncePair P)) (bytes : List ℕ) (a : NoncePair P) (back : Option (Live P))
        (found : Option (FixedState P))
        → opening_view_bytes P view ≡ ok bytes
        → l.fix ≡ found
        → fix_from P l.attempt view bytes l found ≡ ok (a, back)
        → Back P l back
    unfolding fix_from
    fix_from-Back view bytes a back (some f) printed is h =
        let (matches, h1) = fail_if-passed (not (bytes_eq f.bytes bytes)) replay_mismatch _ h in
        put l (cc) (same refl)
    fix_from-Back view bytes a back none printed is h =
        let (v, revealed, h1) = or_fail-passed l.reveal wrong_stage _ h in
        fix_first-Back view bytes v a back printed is revealed h1

    pub fix_step-Back :
        (deliveries : List (Delivery (NoncePair P))) (a : NoncePair P) (back : Option (Live P))
        → fix_step P l.attempt deliveries l ≡ ok (a, back)
        → Back P l back
    unfolding fix_step
    fix_step-Back deliveries a back h =
        let (support, supported, h1) = >>=-passed (live_support P l) _ h in
        let (view, made, h2) = >>=-passed (view_new P support deliveries) _ h1 in
        let (bytes, printed, h3) = >>=-passed (opening_view_bytes P view) _ h2 in
        fix_from-Back view bytes a back l.fix printed refl h3
