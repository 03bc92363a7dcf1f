-- ===== src/Leaf/ReplayViews.antt =====
-- Exact replays of `LeafRegistry::reveal`.
use coupery_ksnf.Base.{ℕ, ◌≡◌, refl, sym, ◌∙◌, ap, subst, not, Option, none, some, List, arith}
use mathlib.Core.Option.{some-injective}
use coupery_ksnf.Order.{nat_key}
use coupery_ksnf.Outcome.{
  ok, ◌>>=◌, ok-injective, >>=-passed, >>=-ok, or_fail, fail_if-passed, or_fail-passed,
  replay_mismatch, wrong_stage, invalid_transcript, commitment_mismatch,
}
use coupery_ksnf.Types.{LeafAttempt, KeyEpoch}
use coupery_ksnf.Profile.{Profile}
use coupery_ksnf.Support.{InnerSupport}
use coupery_ksnf.Signing.{NoncePair}
use coupery_ksnf.Auth.{
  Delivery, View, bytes_eq, bytes_eq_iff, view_new, view_commitment, commitment_view_bytes,
}
use coupery_ksnf.Leaf.State.{LeafRegistry, Live, CommitState, RevealState}
use coupery_ksnf.Leaf.Session.{
  reveal, reveal_first, reveal_from, reveal_step, live_support, names_other,
}
use coupery_ksnf.Leaf.Install.{DeviceGenesisParts, new}
use coupery_ksnf.Leaf.Relation.{Change}
use coupery_ksnf.Leaf.SessionChange.{reveal-Change}
use coupery_ksnf.Leaf.History.{Reach, Valid, Reach-Valid, initial-Valid, Change-Valid}
use coupery_ksnf.Leaf.Alive.{Reach-Continues, keeps_reveal, keeps_reservation}
use coupery_ksnf.Leaf.Replay.{with_live-Ran, with_live-replays}

module _ (P : Profile) where
  -- What a reveal leaves.
  record Revealing (l : Live P) (bytes : List ℕ) (out : NoncePair P) (back : Option (Live P))
      : Type 0 where
    m : Live P
    is : back ≡ some m
    attempt : m.attempt ≡ l.attempt
    reservation : m.reservation ≡ l.reservation
    x : RevealState P
    cached : m.reveal ≡ some x
    bytes_are : x.bytes ≡ bytes
    value : x.viewed_pair ≡ out

  reveal_first-Revealing :
      (attempt : LeafAttempt) (view : View P.Scalar) (bytes : List ℕ) (l : Live P)
      (c : CommitState P) (out : NoncePair P) (back : Option (Live P))
      → reveal_first P attempt view bytes l c ≡ ok (out, back)
      → Revealing l bytes out back
  unfolding reveal_first
  reveal_first-Revealing attempt view bytes l c out back h =
      let (_, h1) = fail_if-passed (names_other P view attempt l) invalid_transcript _ h in
      let (own, _, h2) = >>=-passed (view_commitment P view attempt) _ h1 in
      let (_, h3) = fail_if-passed (not (P.scalar_eq own c.commitment)) commitment_mismatch _ h2 in
      record {
        m = record l {
          reveal = some (record { bytes = bytes; view = view; viewed_pair = c.pair });
        };
        is = sym (ap (λ t. t.1) (ok-injective _ _ h3));
        attempt = refl;
        reservation = refl;
        x = record { bytes = bytes; view = view; viewed_pair = c.pair };
        cached = refl;
        bytes_are = refl;
        value = ap (λ t. t.0) (ok-injective _ _ h3);
      }

  reveal_from-Revealing :
      (attempt : LeafAttempt) (view : View P.Scalar) (bytes : List ℕ) (l : Live P)
      (found : Option (RevealState P)) (out : NoncePair P) (back : Option (Live P))
      → l.reveal ≡ found
      → reveal_from P attempt view bytes l found ≡ ok (out, back)
      → Revealing l bytes out back
  unfolding reveal_from
  reveal_from-Revealing attempt view bytes l (some v) out back is h =
      let (matches, h1) = fail_if-passed (not (bytes_eq v.bytes bytes)) replay_mismatch _ h in
      record {
        m = l;
        is = sym (ap (λ t. t.1) (ok-injective _ _ h1));
        attempt = refl;
        reservation = refl;
        x = v;
        cached = is;
        bytes_are = (bytes_eq_iff v.bytes bytes).0 (ground arith);
        value = ap (λ t. t.0) (ok-injective _ _ h1);
      }
  reveal_from-Revealing attempt view bytes l none out back is h =
      let (c, _, h1) = or_fail-passed l.commit wrong_stage _ h in
      reveal_first-Revealing attempt view bytes l c out back h1

  -- The view that a reveal has built and printed.
  record Viewed (l : Live P) (deliveries : List (Delivery P.Scalar)) (out : NoncePair P)
      (back : Option (Live P)) : Type 0 where
    support : InnerSupport P
    supported : live_support P l ≡ ok support
    view : View P.Scalar
    built : view_new P support deliveries ≡ ok view
    bytes : List ℕ
    printed : commitment_view_bytes P view ≡ ok bytes
    left : Revealing l bytes out back

  reveal_step-Viewed :
      (attempt : LeafAttempt) (deliveries : List (Delivery P.Scalar)) (l : Live P)
      (out : NoncePair P) (back : Option (Live P))
      → reveal_step P attempt deliveries l ≡ ok (out, back)
      → Viewed l deliveries out back
  unfolding reveal_step
  reveal_step-Viewed attempt deliveries l out back h =
      let (support, supported, h1) = >>=-passed (live_support P l) _ h in
      let (view, built, h2) = >>=-passed (view_new P support deliveries) _ h1 in
      let (bytes, printed, h3) = >>=-passed (commitment_view_bytes P view) _ h2 in
      record {
        support = support;
        supported = supported;
        view = view;
        built = built;
        bytes = bytes;
        printed = printed;
        left = reveal_from-Revealing attempt view bytes l l.reveal out back refl h3;
      }

  reveal_from-replays :
      (attempt : LeafAttempt) (view : View P.Scalar) (bytes : List ℕ) (n : Live P)
      (v : RevealState P) (found : Option (RevealState P))
      → found ≡ some v
      → v.bytes ≡ bytes
      → reveal_from P attempt view bytes n found ≡ ok (v.viewed_pair, some n)
  unfolding reveal_from
  reveal_from-replays attempt view bytes n v none is same = cc
  reveal_from-replays attempt view bytes n v (some w) is same =
      let same_w : w ≡ v = some-injective _ _ is in
      ground (
        arith,
        (bytes_eq_iff w.bytes bytes).1 (ap (λ x. x.bytes) same_w ∙ same),
        ap (λ x. x.viewed_pair) same_w,
      )

  reveal_step-replays :
      (attempt : LeafAttempt) (deliveries : List (Delivery P.Scalar)) (l n : Live P)
      (out : NoncePair P) (back : Option (Live P)) (k : Viewed l deliveries out back)
      → n.reservation ≡ l.reservation
      → n.reveal ≡ some k.left.x
      → reveal_step P attempt deliveries n ≡ ok (out, some n)
  unfolding reveal_step
  reveal_step-replays attempt deliveries l n out back k same_reservation cached =
      >>=-ok (live_support P n) _
        (ap (λ r. or_fail r wrong_stage >>= λ x. ok x.opening.body.inner) same_reservation
          ∙ k.supported)
        (>>=-ok (view_new P k.support deliveries) _ k.built (
          >>=-ok (commitment_view_bytes P k.view) _ k.printed (
            reveal_from-replays attempt k.view k.bytes n k.left.x n.reveal cached k.left.bytes_are
            ∙ ap (λ x. ok (x, some n)) k.left.value)))

  -- A reveal that succeeded returns the same pair for the same deliveries while its attempt is
  -- live, after any calls, and changes nothing.
  pub reveal_replay :
      {A : Type 0} (r0 r r1 s : LeafRegistry P) (parts : DeviceGenesisParts P) (e : KeyEpoch)
      (attempt : LeafAttempt) (deliveries : List (Delivery P.Scalar)) (out : NoncePair P)
      (n : Live P)
      → new P parts e ≡ ok r0
      → Reach P A r0 r
      → reveal P r attempt deliveries ≡ (ok out, r1)
      → Reach P A r1 s
      → s.live ≡ some n
      → n.attempt ≡ attempt
      → reveal P s attempt deliveries ≡ (ok out, s)
  unfolding reveal
  reveal_replay r0 r r1 s parts e attempt deliveries out n genesis reach h later at named =
      let ran = with_live-Ran P r r1 attempt (λ _. reveal_step P attempt deliveries) out h in
      let k = reveal_step-Viewed attempt deliveries ran.l out ran.back ran.stepped in
      let valid1 : Valid P r1 =
        Change-Valid P r r1
          (subst (Change P r) (ap (λ t. t.1) h) (reveal-Change P r attempt deliveries))
          (Reach-Valid P reach (initial-Valid P r0 parts e genesis)) in
      let moved =
        Reach-Continues P r1 s k.left.m n valid1 (ran.leaves ∙ k.left.is) later at
          (named ∙ sym (k.left.attempt ∙ ran.named)) in
      let (_, _, _, reservation) = keeps_reservation P moved in
      with_live-replays P s n attempt (λ _. reveal_step P attempt deliveries) out at named
        (reveal_step-replays attempt deliveries ran.l n out ran.back k
          (reservation ∙ k.left.reservation) (keeps_reveal P k.left.x moved k.left.cached))
