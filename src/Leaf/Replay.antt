-- ===== src/Leaf/Replay.antt =====
-- Exact replays of leaf.rs: a repeated call on a live attempt returns the cached value.
use coupery_ksnf.Base.{ℕ, ◌≡◌, refl, sym, ◌∙◌, ap, subst, not, Option, none, some, List, arith}
use coupery_ksnf.Order.{nat_key}
use coupery_ksnf.Outcome.{Result, ok, ok-injective, >>=-passed, fail_if-passed, replay_mismatch}
use coupery_ksnf.Types.{LeafAttempt, KeyEpoch, attempt_eq_iff}
use coupery_ksnf.Profile.{Profile}
use coupery_ksnf.Signing.{Nonce}
use coupery_ksnf.Auth.{bytes_eq, bytes_eq_iff}
use coupery_ksnf.Leaf.State.{LeafRegistry, Live, CommitState, take_live}
use coupery_ksnf.Leaf.Session.{with_live, commit, commit_state, commit_from, commit_step}
use coupery_ksnf.Leaf.Install.{DeviceGenesisParts, new}
use coupery_ksnf.Leaf.Outcome.{StepOutcome, refused, failed, done, with_live-StepOutcome}
use coupery_ksnf.Leaf.Relation.{Change}
use coupery_ksnf.Leaf.SessionChange.{commit-Change}
use coupery_ksnf.Leaf.History.{Reach, Valid, Reach-Valid, initial-Valid, Change-Valid}
use coupery_ksnf.Leaf.Alive.{Reach-Continues, live-is_closed, keeps_commit, keeps_reservation}

module _ (P : Profile) where
  -- The successful run of a step.
  pub record Ran {A : Type 0} (r r1 : LeafRegistry P) (attempt : LeafAttempt)
      (step : LeafRegistry P → Live P → Result (A × Option (Live P))) (out : A) : Type 0 where
    pub l : Live P
    pub live : r.live ≡ some l
    pub named : l.attempt ≡ attempt
    pub back : Option (Live P)
    pub stepped : step (record r { live = none }) l ≡ ok (out, back)
    pub leaves : r1.live ≡ back

  StepOutcome-Ran :
      {A : Type 0} (r r1 : LeafRegistry P) (attempt : LeafAttempt)
      (step : LeafRegistry P → Live P → Result (A × Option (Live P))) (result : Result A) (out : A)
      → result ≡ ok out
      → StepOutcome P r attempt step result r1
      → Ran r r1 attempt step out
  StepOutcome-Ran r r1 attempt step result out good (refused e others is kept) = cc
  StepOutcome-Ran r r1 attempt step result out good (failed m e m_live named bad is dropped) = cc
  StepOutcome-Ran r r1 attempt step result out good (done m a back m_live named run is put_back) =
      record {
        l = m;
        live = m_live;
        named = named;
        back = back;
        stepped = run ∙ ap (λ x. ok (x, back)) (ok-injective _ _ (sym is ∙ good));
        leaves = ap (λ x. x.live) put_back;
      }

  pub with_live-Ran :
      {A : Type 0} (r r1 : LeafRegistry P) (attempt : LeafAttempt)
      (step : LeafRegistry P → Live P → Result (A × Option (Live P))) (out : A)
      → with_live P r attempt step ≡ (ok out, r1)
      → Ran r r1 attempt step out
  with_live-Ran r r1 attempt step out h =
      StepOutcome-Ran r r1 attempt step _ out (ap (λ t. t.0) h) (
        subst (StepOutcome P r attempt step (with_live P r attempt step).0) (ap (λ t. t.1) h)
          (with_live-StepOutcome P r attempt step))

  -- A step that puts back what it took leaves the registry as it was.
  pub with_live-replays :
      {A : Type 0} (s : LeafRegistry P) (n : Live P) (attempt : LeafAttempt)
      (step : LeafRegistry P → Live P → Result (A × Option (Live P))) (out : A)
      → s.live ≡ some n
      → n.attempt ≡ attempt
      → step (record s { live = none }) n ≡ ok (out, some n)
      → with_live P s attempt step ≡ (ok out, s)
  unfolding with_live take_live
  with_live-replays s n attempt step out live named run =
      let still = live-is_closed P s n attempt live named in
      ground (arith, still, (attempt_eq_iff n.attempt attempt).1 named, run)

  -- What a commit leaves.
  record Cached (l : Live P) (reservation : List ℕ) (out : P.Scalar) (back : Option (Live P))
      : Type 0 where
    m : Live P
    is : back ≡ some m
    attempt : m.attempt ≡ l.attempt
    bytes : m.reservation_bytes ≡ reservation
    c : CommitState P
    committed : m.commit ≡ some c
    value : c.commitment ≡ out

  commit_from-Cached :
      (attempt : LeafAttempt) (reservation : List ℕ) (nonce : Nonce P) (l : Live P)
      (found : Option (CommitState P)) (out : P.Scalar) (back : Option (Live P))
      → l.commit ≡ found
      → l.reservation_bytes ≡ reservation
      → commit_from P attempt reservation nonce l found ≡ ok (out, back)
      → Cached l reservation out back
  unfolding commit_from
  commit_from-Cached attempt reservation nonce l (some c) out back is bytes h = record {
    m = l;
    is = sym (ap (λ t. t.1) (ok-injective _ _ h));
    attempt = refl;
    bytes = bytes;
    c = c;
    committed = is;
    value = ap (λ t. t.0) (ok-injective _ _ h);
  }
  commit_from-Cached attempt reservation nonce l none out back is bytes h =
      let (c, _, h1) = >>=-passed (commit_state P attempt reservation nonce) _ h in
      record {
        m = record l { commit = some c };
        is = sym (ap (λ t. t.1) (ok-injective _ _ h1));
        attempt = refl;
        bytes = bytes;
        c = c;
        committed = refl;
        value = ap (λ t. t.0) (ok-injective _ _ h1);
      }

  commit_step-Cached :
      (attempt : LeafAttempt) (reservation : List ℕ) (nonce : Nonce P) (l : Live P) (out : P.Scalar)
      (back : Option (Live P))
      → commit_step P attempt reservation nonce l ≡ ok (out, back)
      → Cached l reservation out back
  unfolding commit_step
  commit_step-Cached attempt reservation nonce l out back h =
      let (matches, h1) =
        fail_if-passed (not (bytes_eq l.reservation_bytes reservation)) replay_mismatch _ h in
      commit_from-Cached attempt reservation nonce l l.commit out back refl
        ((bytes_eq_iff l.reservation_bytes reservation).0 (ground arith)) h1

  commit_step-replays :
      (attempt : LeafAttempt) (reservation : List ℕ) (nonce : Nonce P) (n : Live P)
      (c : CommitState P)
      → n.reservation_bytes ≡ reservation
      → n.commit ≡ some c
      → commit_step P attempt reservation nonce n ≡ ok (c.commitment, some n)
  unfolding commit_step commit_from
  commit_step-replays attempt reservation nonce n c bytes committed =
      ground (arith, (bytes_eq_iff n.reservation_bytes reservation).1 bytes)

  -- A commit that succeeded returns the same commitment while its attempt is live, after any
  -- calls and whatever nonce the generator would draw, and changes nothing.
  pub commit_replay :
      {A : Type 0} (r0 r r1 s : LeafRegistry P) (parts : DeviceGenesisParts P) (e : KeyEpoch)
      (attempt : LeafAttempt) (reservation : List ℕ) (nonce nonce' : Nonce P) (out : P.Scalar)
      (n : Live P)
      → new P parts e ≡ ok r0
      → Reach P A r0 r
      → commit P r attempt reservation nonce ≡ (ok out, r1)
      → Reach P A r1 s
      → s.live ≡ some n
      → n.attempt ≡ attempt
      → commit P s attempt reservation nonce' ≡ (ok out, s)
  unfolding commit
  commit_replay r0 r r1 s parts e attempt reservation nonce nonce' out n genesis reach h later at
        named =
      let ran = with_live-Ran r r1 attempt (λ _. commit_step P attempt reservation nonce) out h in
      let k = commit_step-Cached attempt reservation nonce ran.l out ran.back ran.stepped in
      let valid1 : Valid P r1 =
        Change-Valid P r r1
          (subst (Change P r) (ap (λ t. t.1) h) (commit-Change P r attempt reservation nonce))
          (Reach-Valid P reach (initial-Valid P r0 parts e genesis)) in
      let moved =
        Reach-Continues P r1 s k.m n valid1 (ran.leaves ∙ k.is) later at
          (named ∙ sym (k.attempt ∙ ran.named)) in
      let (_, bytes, _, _) = keeps_reservation P moved in
      with_live-replays s n attempt (λ _. commit_step P attempt reservation nonce') out at named
        (commit_step-replays attempt reservation nonce' n k.c (bytes ∙ k.bytes)
            (keeps_commit P k.c moved k.committed)
          ∙ ap (λ x. ok (x, some n)) k.value)
