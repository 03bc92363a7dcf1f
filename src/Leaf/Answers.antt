-- ===== src/Leaf/Answers.antt =====
-- `LeafRegistry::respond_with`: what holds whenever a response is given.
use coupery_ksnf.Base.{◌≡◌, sym, ◌∙◌, ap, subst, true, not, Option, none, some, List, ℕ, arith}
use mathlib.Core.Option.{some-injective}
use coupery_ksnf.Order.{nat_key}
use coupery_ksnf.Map.{lookup}
use coupery_ksnf.Outcome.{
  Result, ok, ok-injective, >>=-passed, fail_if-passed, or_fail-passed, protocol_mismatch,
  wrong_stage, epoch_mismatch,
}
use coupery_ksnf.Types.{KeyEpoch}
use coupery_ksnf.Profile.{Profile}
use coupery_ksnf.Signing.{Nonce}
use coupery_ksnf.Transcript.{MemberReservation}
use coupery_ksnf.Leaf.State.{
  LeafRegistry, Live, CommitState, RevealState, FixedState, VaultState, ResponseMode, mode_eq,
}
use coupery_ksnf.Leaf.Session.{ResponseInputs, response_inputs, respond_with, respond_step}
use coupery_ksnf.Leaf.Stages.{Committed, Revealed, Opened}
use coupery_ksnf.Leaf.Sound.{Sound, at_reserved, at_committed, at_held, at_fixed}
use coupery_ksnf.Leaf.Install.{DeviceGenesisParts, new}
use coupery_ksnf.Leaf.Outcome.{StepOutcome, refused, failed, done, with_live-StepOutcome}
use coupery_ksnf.Leaf.History.{Reach, Valid, idle, holds, Reach-Valid, initial-Valid}

module _ (P : Profile) where
  -- The inputs that the stages of an attempt have prepared for its response.
  pub record Prepared {A : Type 0} (r : LeafRegistry P) (l : Live P) (mode : ResponseMode)
      (answer : ResponseInputs P → List ℕ → Result A) (out : A) : Type 0 where
    pub c : CommitState P
    pub v : RevealState P
    pub f : FixedState P
    pub committed : l.commit ≡ some c
    pub commit_ok : Committed P l c
    pub revealed : l.reveal ≡ some v
    pub reveal_ok : Revealed P l c v
    pub fixed : l.fix ≡ some f
    pub fix_ok : Opened P l v f
    pub bound : mode_eq l.response.mode mode ≡ true
    pub reservation : MemberReservation P
    pub reserved : l.reservation ≡ some reservation
    pub vault : VaultState P
    pub found : lookup l.vault r.vaults ≡ some vault
    pub answered :
        answer (response_inputs P r l commit_ok.nonce reservation f vault) l.reservation_bytes
        ≡ ok out

  -- What the step has read, with its nonce.
  record Read {A : Type 0} (r : LeafRegistry P) (l : Live P) (mode : ResponseMode)
      (answer : ResponseInputs P → List ℕ → Result A) (out : A) : Type 0 where
    f : FixedState P
    fixed : l.fix ≡ some f
    c : CommitState P
    committed : l.commit ≡ some c
    nonce : Nonce P
    kept : c.nonce ≡ some nonce
    bound : mode_eq l.response.mode mode ≡ true
    reservation : MemberReservation P
    reserved : l.reservation ≡ some reservation
    vault : VaultState P
    found : lookup l.vault r.vaults ≡ some vault
    answered : answer (response_inputs P r l nonce reservation f vault) l.reservation_bytes ≡ ok out

  respond_step-Read :
      {A : Type 0} (r : LeafRegistry P) (l : Live P) (mode : ResponseMode)
      (answer : ResponseInputs P → List ℕ → Result A) (out : A) (back : Option (Live P))
      → respond_step P mode answer r l ≡ ok (out, back)
      → Read r l mode answer out
  unfolding respond_step
  respond_step-Read r l mode answer out back h =
      let (bound, h1) = fail_if-passed (not (mode_eq l.response.mode mode)) protocol_mismatch _ h in
      let (f, fixed, h2) = or_fail-passed l.fix wrong_stage _ h1 in
      let (c, committed, h3) = or_fail-passed l.commit wrong_stage _ h2 in
      let (nonce, kept, h4) = or_fail-passed c.nonce wrong_stage _ h3 in
      let (reservation, reserved, h5) = or_fail-passed l.reservation wrong_stage _ h4 in
      let (vault, found, h6) = or_fail-passed (lookup l.vault r.vaults) epoch_mismatch _ h5 in
      let (output, answered, h7) = >>=-passed (answer _ l.reservation_bytes) _ h6 in
      record {
        f = f;
        fixed = fixed;
        c = c;
        committed = committed;
        nonce = nonce;
        kept = kept;
        bound = ground arith;
        reservation = reservation;
        reserved = reserved;
        vault = vault;
        found = found;
        answered = answered ∙ ap (λ t. ok t.0) (ok-injective _ _ h7);
      }

  Sound-Prepared :
      {A : Type 0} (r : LeafRegistry P) (l : Live P) (mode : ResponseMode)
      (answer : ResponseInputs P → List ℕ → Result A) (out : A)
      → Sound P l
      → Read r l mode answer out
      → Prepared r l mode answer out
  Sound-Prepared r l mode answer out (at_reserved _ _ unfixed) k = let has = k.fixed in cc
  Sound-Prepared r l mode answer out (at_committed c _ _ _ unfixed) k = let has = k.fixed in cc
  Sound-Prepared r l mode answer out (at_held c v _ _ _ _ unfixed) k = let has = k.fixed in cc
  Sound-Prepared r l mode answer out
        (at_fixed c v f committed commit_ok revealed reveal_ok fixed fix_ok) k =
      let same_c : k.c ≡ c = some-injective _ _ (sym k.committed ∙ committed) in
      let same_f : k.f ≡ f = some-injective _ _ (sym k.fixed ∙ fixed) in
      let same_nonce : k.nonce ≡ commit_ok.nonce =
        some-injective _ _ (sym k.kept ∙ (ap (λ x. x.nonce) same_c ∙ commit_ok.kept)) in
      record {
        c = c;
        v = v;
        f = f;
        committed = committed;
        commit_ok = commit_ok;
        revealed = revealed;
        reveal_ok = reveal_ok;
        fixed = fixed;
        fix_ok = fix_ok;
        bound = k.bound;
        reservation = k.reservation;
        reserved = k.reserved;
        vault = k.vault;
        found = k.found;
        answered =
            subst
              (λ g.
                answer (response_inputs P r l commit_ok.nonce k.reservation g k.vault)
                  l.reservation_bytes
                ≡ ok out)
              same_f
              (subst
                (λ n.
                  answer (response_inputs P r l n k.reservation k.f k.vault) l.reservation_bytes
                  ≡ ok out)
                same_nonce k.answered);
      }

  StepOutcome-Prepared :
      {A : Type 0} (r s : LeafRegistry P) (l : Live P) (mode : ResponseMode)
      (answer : ResponseInputs P → List ℕ → Result A) (out : A) (result : Result A)
      → Valid P r
      → r.live ≡ some l
      → result ≡ ok out
      → StepOutcome P r l.attempt (respond_step P mode answer) result s
      → Prepared r l mode answer out
  unfolding respond_step
  StepOutcome-Prepared r s l mode answer out result (idle none_live) live good o = cc
  StepOutcome-Prepared r s l mode answer out result (holds k at _ _ sound) live good
        (refused e others is kept) =
      cc
  StepOutcome-Prepared r s l mode answer out result (holds k at _ _ sound) live good
        (failed m e m_live named bad is dropped) =
      cc
  StepOutcome-Prepared r s l mode answer out result (holds k at _ _ sound) live good
        (done m a back m_live named step is put_back) =
      let same_k : k ≡ l = some-injective _ _ (sym at ∙ live) in
      let same_m : m ≡ l = some-injective _ _ (sym m_live ∙ live) in
      let same_a : a ≡ out = ok-injective _ _ (sym is ∙ good) in
      Sound-Prepared r l mode answer out (subst (Sound P) same_k sound) (
        respond_step-Read r l mode answer out back (
          subst (λ y. respond_step P mode answer (record r { live = none }) l ≡ ok (y, back)) same_a
            (subst (λ x. respond_step P mode answer (record r { live = none }) x ≡ ok (a, back))
              same_m step)))

  -- A response is given only by an attempt whose stages have run in order: its one nonce has the
  -- committed pair and hash, its commitment view is of this attempt and holds that commitment,
  -- and every opening was verified against that view. The response is computed from that nonce,
  -- those openings and the installed signing share, under the mode that was reserved. The registry
  -- comes from genesis by any calls.
  pub respond_with-Prepared :
      {A B : Type 0} (r0 r s : LeafRegistry P) (parts : DeviceGenesisParts P) (e : KeyEpoch)
      (l : Live P) (mode : ResponseMode) (answer : ResponseInputs P → List ℕ → Result B) (out : B)
      → new P parts e ≡ ok r0
      → Reach P A r0 r
      → r.live ≡ some l
      → respond_with P r l.attempt mode answer ≡ (ok out, s)
      → Prepared r l mode answer out
  unfolding respond_with
  respond_with-Prepared r0 r s parts e l mode answer out genesis reach live h =
      StepOutcome-Prepared r _ l mode answer out _
        (Reach-Valid P reach (initial-Valid P r0 parts e genesis)) live (ap (λ t. t.0) h)
        (with_live-StepOutcome P r l.attempt (respond_step P mode answer))
