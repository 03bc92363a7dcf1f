-- ===== src/Leaf/ReplayOpenings.antt =====
-- Exact replays of `LeafRegistry::fix`.
use coupery_ksnf.Base.{ℕ, ◌≡◌, refl, sym, ◌∙◌, ap, subst, not, Option, none, some, List, arith}
use mathlib.Core.Option.{some-injective}
use coupery_ksnf.Order.{nat_key}
use coupery_ksnf.Outcome.{
  ok, ◌>>=◌, ok-injective, >>=-passed, >>=-ok, or_fail, fail_if-passed, or_fail-passed,
  replay_mismatch, wrong_stage, invalid_transcript,
}
use coupery_ksnf.Types.{LeafAttempt, KeyEpoch}
use coupery_ksnf.Profile.{Profile}
use coupery_ksnf.Support.{InnerSupport}
use coupery_ksnf.Signing.{NoncePair}
use coupery_ksnf.Auth.{
  Delivery, View, bytes_eq, bytes_eq_iff, view_new, opening_view_bytes, verify_openings,
}
use coupery_ksnf.Leaf.State.{LeafRegistry, Live, RevealState, FixedState}
use coupery_ksnf.Leaf.Session.{
  fix_first, fix_from, fix_step, fix, fix_first, fix_from, fix_step, live_support, names_other,
}
use coupery_ksnf.Leaf.Install.{DeviceGenesisParts, new}
use coupery_ksnf.Leaf.Relation.{Change}
use coupery_ksnf.Leaf.SessionChange.{fix-Change}
use coupery_ksnf.Leaf.History.{Reach, Valid, Reach-Valid, initial-Valid, Change-Valid}
use coupery_ksnf.Leaf.Alive.{Reach-Continues, keeps_fix, keeps_reservation}
use coupery_ksnf.Leaf.Replay.{with_live-Ran, with_live-replays}

module _ (P : Profile) where
  -- What a fixing leaves.
  record Fixing (l : Live P) (bytes : List ℕ) (out : NoncePair P) (back : Option (Live P))
      : Type 0 where
    m : Live P
    is : back ≡ some m
    attempt : m.attempt ≡ l.attempt
    reservation : m.reservation ≡ l.reservation
    x : FixedState P
    cached : m.fix ≡ some x
    bytes_are : x.bytes ≡ bytes
    value : x.nonces.aggregate ≡ out

  fix_first-Fixing :
      (attempt : LeafAttempt) (view : View (NoncePair P)) (bytes : List ℕ) (l : Live P)
      (v : RevealState P) (out : NoncePair P) (back : Option (Live P))
      → fix_first P attempt view bytes l v ≡ ok (out, back)
      → Fixing l bytes out back
  unfolding fix_first
  fix_first-Fixing attempt view bytes l v out back h =
      let (_, h1) = fail_if-passed (names_other P view attempt l) invalid_transcript _ h in
      let (support, _, h2) = >>=-passed (live_support P l) _ h1 in
      let (nonces, _, h3) = >>=-passed (verify_openings P view v.view support) _ h2 in
      record {
        m = record l { fix = some (record { bytes = bytes; nonces = nonces }) };
        is = sym (ap (λ t. t.1) (ok-injective _ _ h3));
        attempt = refl;
        reservation = refl;
        x = record { bytes = bytes; nonces = nonces };
        cached = refl;
        bytes_are = refl;
        value = ap (λ t. t.0) (ok-injective _ _ h3);
      }

  fix_from-Fixing :
      (attempt : LeafAttempt) (view : View (NoncePair P)) (bytes : List ℕ) (l : Live P)
      (found : Option (FixedState P)) (out : NoncePair P) (back : Option (Live P))
      → l.fix ≡ found
      → fix_from P attempt view bytes l found ≡ ok (out, back)
      → Fixing l bytes out back
  unfolding fix_from
  fix_from-Fixing attempt view bytes l (some v) out back is h =
      let (matches, h1) = fail_if-passed (not (bytes_eq v.bytes bytes)) replay_mismatch _ h in
      record {
        m = l;
        is = sym (ap (λ t. t.1) (ok-injective _ _ h1));
        attempt = refl;
        reservation = refl;
        x = v;
        cached = is;
        bytes_are = (bytes_eq_iff v.bytes bytes).0 (ground arith);
        value = ap (λ t. t.0) (ok-injective _ _ h1);
      }
  fix_from-Fixing attempt view bytes l none out back is h =
      let (v, _, h1) = or_fail-passed l.reveal wrong_stage _ h in
      fix_first-Fixing attempt view bytes l v out back h1

  -- The view that a fixing has built and printed.
  record Verified (l : Live P) (deliveries : List (Delivery (NoncePair P))) (out : NoncePair P)
      (back : Option (Live P)) : Type 0 where
    support : InnerSupport P
    supported : live_support P l ≡ ok support
    view : View (NoncePair P)
    built : view_new P support deliveries ≡ ok view
    bytes : List ℕ
    printed : opening_view_bytes P view ≡ ok bytes
    left : Fixing l bytes out back

  fix_step-Verified :
      (attempt : LeafAttempt) (deliveries : List (Delivery (NoncePair P))) (l : Live P)
      (out : NoncePair P) (back : Option (Live P))
      → fix_step P attempt deliveries l ≡ ok (out, back)
      → Verified l deliveries out back
  unfolding fix_step
  fix_step-Verified attempt deliveries l out back h =
      let (support, supported, h1) = >>=-passed (live_support P l) _ h in
      let (view, built, h2) = >>=-passed (view_new P support deliveries) _ h1 in
      let (bytes, printed, h3) = >>=-passed (opening_view_bytes P view) _ h2 in
      record {
        support = support;
        supported = supported;
        view = view;
        built = built;
        bytes = bytes;
        printed = printed;
        left = fix_from-Fixing attempt view bytes l l.fix out back refl h3;
      }

  fix_from-replays :
      (attempt : LeafAttempt) (view : View (NoncePair P)) (bytes : List ℕ) (n : Live P)
      (v : FixedState P) (found : Option (FixedState P))
      → found ≡ some v
      → v.bytes ≡ bytes
      → fix_from P attempt view bytes n found ≡ ok (v.nonces.aggregate, some n)
  unfolding fix_from
  fix_from-replays attempt view bytes n v none is same = cc
  fix_from-replays attempt view bytes n v (some w) is same =
      let same_w : w ≡ v = some-injective _ _ is in
      ground (
        arith,
        (bytes_eq_iff w.bytes bytes).1 (ap (λ x. x.bytes) same_w ∙ same),
        ap (λ x. x.nonces.aggregate) same_w,
      )

  fix_step-replays :
      (attempt : LeafAttempt) (deliveries : List (Delivery (NoncePair P))) (l n : Live P)
      (out : NoncePair P) (back : Option (Live P)) (k : Verified l deliveries out back)
      → n.reservation ≡ l.reservation
      → n.fix ≡ some k.left.x
      → fix_step P attempt deliveries n ≡ ok (out, some n)
  unfolding fix_step
  fix_step-replays attempt deliveries l n out back k same_reservation cached =
      >>=-ok (live_support P n) _
        (ap (λ r. or_fail r wrong_stage >>= λ x. ok x.opening.body.inner) same_reservation
          ∙ k.supported)
        (>>=-ok (view_new P k.support deliveries) _ k.built (
          >>=-ok (opening_view_bytes P k.view) _ k.printed (
            fix_from-replays attempt k.view k.bytes n k.left.x n.fix cached k.left.bytes_are
            ∙ ap (λ x. ok (x, some n)) k.left.value)))

  -- A fixing that succeeded returns the same nonce for the same deliveries while its attempt is
  -- live, after any calls, and changes nothing.
  pub fix_replay :
      {A : Type 0} (r0 r r1 s : LeafRegistry P) (parts : DeviceGenesisParts P) (e : KeyEpoch)
      (attempt : LeafAttempt) (deliveries : List (Delivery (NoncePair P))) (out : NoncePair P)
      (n : Live P)
      → new P parts e ≡ ok r0
      → Reach P A r0 r
      → fix P r attempt deliveries ≡ (ok out, r1)
      → Reach P A r1 s
      → s.live ≡ some n
      → n.attempt ≡ attempt
      → fix P s attempt deliveries ≡ (ok out, s)
  unfolding fix
  fix_replay r0 r r1 s parts e attempt deliveries out n genesis reach h later at named =
      let ran = with_live-Ran P r r1 attempt (λ _. fix_step P attempt deliveries) out h in
      let k = fix_step-Verified attempt deliveries ran.l out ran.back ran.stepped in
      let valid1 : Valid P r1 =
        Change-Valid P r r1
          (subst (Change P r) (ap (λ t. t.1) h) (fix-Change P r attempt deliveries))
          (Reach-Valid P reach (initial-Valid P r0 parts e genesis)) in
      let moved =
        Reach-Continues P r1 s k.left.m n valid1 (ran.leaves ∙ k.left.is) later at
          (named ∙ sym (k.left.attempt ∙ ran.named)) in
      let (_, _, _, reservation) = keeps_reservation P moved in
      with_live-replays P s n attempt (λ _. fix_step P attempt deliveries) out at named
        (fix_step-replays attempt deliveries ran.l n out ran.back k
          (reservation ∙ k.left.reservation) (keeps_fix P k.left.x moved k.left.cached))
