-- ===== src/Leaf/Alive.antt =====
-- What becomes of a live attempt: it moves on step by step, or it is closed for good.
use coupery_ksnf.Base.{
  ◌<◌, ◌≡◌, refl, sym, ◌∙◌, ap, subst, true, false, none, some, arith, ◌⊎◌, inl, inr,
}
use mathlib.Core.Option.{some-injective}
use coupery_ksnf.Types.{LeafAttempt, attempt_eq_iff}
use coupery_ksnf.Profile.{Profile}
use coupery_ksnf.Leaf.State.{LeafRegistry, Live, CommitState, RevealState, FixedState, is_closed}
use coupery_ksnf.Leaf.Stages.{LiveStep, same, commits, reveals, fixes}
use coupery_ksnf.Leaf.Sound.{LiveStep-attempt}
use coupery_ksnf.Leaf.Relation.{Change, unchanged, opened, stepped, closed, rekeyed}
use coupery_ksnf.Leaf.Change.{after_call-Change}
use coupery_ksnf.Leaf.History.{Reach, here, next, Valid, idle, holds, Reach-Valid, Change-is_closed}

module _ (P : Profile) where
  pub data Continues (l : Live P) : Live P → Type 0 where
    start : Continues l l
    then_step : {m n : Live P} → Continues l m → LiveStep P m n → Continues l n

  step_keeps :
      {m n : Live P}
      → LiveStep P m n
      → (n.session ≡ m.session)
        × (n.reservation_bytes ≡ m.reservation_bytes)
        × (n.response ≡ m.response)
        × (n.reservation ≡ m.reservation)
  step_keeps (same is) = (
    ap (λ x. x.session) is,
    ap (λ x. x.reservation_bytes) is,
    ap (λ x. x.response) is,
    ap (λ x. x.reservation) is,
  )
  step_keeps (commits c _ _ is) = (
    ap (λ x. x.session) is,
    ap (λ x. x.reservation_bytes) is,
    ap (λ x. x.response) is,
    ap (λ x. x.reservation) is,
  )
  step_keeps (reveals c v _ _ _ is) = (
    ap (λ x. x.session) is,
    ap (λ x. x.reservation_bytes) is,
    ap (λ x. x.response) is,
    ap (λ x. x.reservation) is,
  )
  step_keeps (fixes v f _ _ _ is) = (
    ap (λ x. x.session) is,
    ap (λ x. x.reservation_bytes) is,
    ap (λ x. x.response) is,
    ap (λ x. x.reservation) is,
  )

  module _ {l : Live P} where
    pub keeps_attempt : {m : Live P} → Continues l m → m.attempt ≡ l.attempt
    keeps_attempt start = refl
    keeps_attempt (then_step c step) = LiveStep-attempt P _ _ step ∙ keeps_attempt c

    pub keeps_reservation :
        {m : Live P}
        → Continues l m
        → (m.session ≡ l.session)
          × (m.reservation_bytes ≡ l.reservation_bytes)
          × (m.response ≡ l.response)
          × (m.reservation ≡ l.reservation)
    keeps_reservation start = (refl, refl, refl, refl)
    keeps_reservation (then_step c step) =
        let (s, b, r, o) = keeps_reservation c in
        let (s', b', r', o') = step_keeps step in (s' ∙ s, b' ∙ b, r' ∙ r, o' ∙ o)

    pub keeps_commit :
        {m : Live P} (c : CommitState P) → Continues l m → l.commit ≡ some c → m.commit ≡ some c
    keeps_commit c start h = h
    keeps_commit c (then_step cs (same is)) h = ap (λ x. x.commit) is ∙ keeps_commit c cs h
    keeps_commit c (then_step {m = m} cs (commits d new _ is)) h =
        let old : m.commit ≡ some c = keeps_commit c cs h in cc
    keeps_commit c (then_step cs (reveals d v _ _ _ is)) h =
        ap (λ x. x.commit) is ∙ keeps_commit c cs h
    keeps_commit c (then_step cs (fixes v f _ _ _ is)) h =
        ap (λ x. x.commit) is ∙ keeps_commit c cs h

    pub keeps_reveal :
        {m : Live P} (v : RevealState P) → Continues l m → l.reveal ≡ some v → m.reveal ≡ some v
    keeps_reveal v start h = h
    keeps_reveal v (then_step cs (same is)) h = ap (λ x. x.reveal) is ∙ keeps_reveal v cs h
    keeps_reveal v (then_step cs (commits d _ _ is)) h = ap (λ x. x.reveal) is ∙ keeps_reveal v cs h
    keeps_reveal v (then_step {m = m} cs (reveals d w new _ _ is)) h =
        let old : m.reveal ≡ some v = keeps_reveal v cs h in cc
    keeps_reveal v (then_step cs (fixes w f _ _ _ is)) h =
        ap (λ x. x.reveal) is ∙ keeps_reveal v cs h

    pub keeps_fix :
        {m : Live P} (f : FixedState P) → Continues l m → l.fix ≡ some f → m.fix ≡ some f
    keeps_fix f start h = h
    keeps_fix f (then_step cs (same is)) h = ap (λ x. x.fix) is ∙ keeps_fix f cs h
    keeps_fix f (then_step cs (commits d _ _ is)) h = ap (λ x. x.fix) is ∙ keeps_fix f cs h
    keeps_fix f (then_step cs (reveals d w _ _ _ is)) h = ap (λ x. x.fix) is ∙ keeps_fix f cs h
    keeps_fix f (then_step {m = m} cs (fixes w g new _ _ is)) h =
        let old : m.fix ≡ some f = keeps_fix f cs h in cc

  -- An idle registry has closed each attempt of its device below the counter.
  pub idle-is_closed :
      (r : LeafRegistry P) (attempt : LeafAttempt)
      → r.live ≡ none
      → attempt.device ≡ r.device
      → attempt.sequence < r.next_sequence
      → is_closed P r attempt ≡ true
  unfolding is_closed
  idle-is_closed r attempt idle_now device below = ground arith

  -- The live attempt of a valid registry after one change.
  Change-alive :
      (r s : LeafRegistry P) (l : Live P)
      → Valid P r
      → r.live ≡ some l
      → Change P r s
      → ((m : Live P) × (s.live ≡ some m) × LiveStep P l m) ⊎ (is_closed P s l.attempt ≡ true)
  Change-alive r s l (idle none_live) live change = cc
  Change-alive r s l (holds k holds_k device below sound) live (unchanged is) =
      inl (l, ap (λ x. x.live) is ∙ live, same refl)
  Change-alive r s l (holds k holds_k device below sound) live (opened m was _ is) = cc
  Change-alive r s l (holds k holds_k device below sound) live (stepped a b a_live step is) =
      let same_a : a ≡ l = some-injective _ _ (sym a_live ∙ live) in
      inl (b, ap (λ x. x.live) is, subst (λ x. LiveStep P x b) same_a step)
  Change-alive r s l (holds k holds_k device below sound) live (closed a a_live is) =
      let same_k : k ≡ l = some-injective _ _ (sym holds_k ∙ live) in
      inr (
        subst (λ x. is_closed P x l.attempt ≡ true) (sym is)
          (idle-is_closed (record r { live = none }) l.attempt refl
            (ap (λ x. x.attempt.device) (sym same_k) ∙ device)
            (omega (arith, below, ap (λ x. x.attempt.sequence) same_k))))
  Change-alive r s l (holds k holds_k device below sound) live (rekeyed t rekey is) =
      let same_k : k ≡ l = some-injective _ _ (sym holds_k ∙ live) in
      elim rekey.live [
        | inr kept ↦ inl (l, ap (λ x. x.live) is ∙ (kept ∙ live), same refl)
        | inl dropped ↦ inr (
            subst (λ x. is_closed P x l.attempt ≡ true) (sym is)
              (idle-is_closed t l.attempt dropped
                (ap (λ x. x.attempt.device) (sym same_k) ∙ (device ∙ sym rekey.device))
                (omega (arith, below, rekey.counter, ap (λ x. x.attempt.sequence) same_k))))
      ]

  -- After any calls a live attempt has moved on, or is closed.
  pub Reach-alive :
      {A : Type 0} (r s : LeafRegistry P) (l : Live P)
      → Valid P r
      → r.live ≡ some l
      → Reach P A r s
      → ((m : Live P) × (s.live ≡ some m) × Continues l m) ⊎ (is_closed P s l.attempt ≡ true)
  Reach-alive r _ l valid live here = inl (l, live, start)
  Reach-alive r s l valid live (next {mid = mid} k reach) =
      elim (Reach-alive r mid l valid live reach) [
        | inr gone ↦ inr (Change-is_closed P mid s l.attempt (after_call-Change P mid k) gone)
        | inl (m, at, c) ↦
            elim (Change-alive mid s m (Reach-Valid P reach valid) at (after_call-Change P mid k)) [
              | inl (n, there, step) ↦ inl (n, there, then_step c step)
              | inr gone ↦ inr (subst (λ x. is_closed P s x ≡ true) (keeps_attempt c) gone)
            ]
      ]

  pub live-is_closed :
      (s : LeafRegistry P) (m : Live P) (attempt : LeafAttempt)
      → s.live ≡ some m
      → m.attempt ≡ attempt
      → is_closed P s attempt ≡ false
  unfolding is_closed
  live-is_closed s m attempt there named =
      ground (arith, (attempt_eq_iff m.attempt attempt).1 named)

  -- An attempt that is live both before and after has moved on.
  pub Reach-Continues :
      {A : Type 0} (r s : LeafRegistry P) (l m : Live P)
      → Valid P r
      → r.live ≡ some l
      → Reach P A r s
      → s.live ≡ some m
      → m.attempt ≡ l.attempt
      → Continues l m
  Reach-Continues r s l m valid live reach there named = elim (Reach-alive r s l valid live reach) [
    | inl (n, at, c) ↦ subst (Continues l) (some-injective _ _ (sym at ∙ there)) c
    | inr gone ↦
        let open_still : is_closed P s l.attempt ≡ false =
          live-is_closed s m l.attempt there named in
        cc
  ]
