-- ===== src/Leaf/History.antt =====
-- Histories of calls on a registry, and the invariant of the live attempt.
use coupery_ksnf.Base.{◌<◌, ◌≤◌, ◌≡◌, refl, sym, ◌∙◌, ap, subst, true, none, some, arith, inl, inr}
use mathlib.Core.Option.{some-injective}
use coupery_ksnf.Order.{nat_key}
use coupery_ksnf.Outcome.{ok, ok-injective, >>=-passed}
use coupery_ksnf.Types.{LeafAttempt, KeyEpoch}
use coupery_ksnf.Profile.{Profile}
use coupery_ksnf.Leaf.State.{LeafRegistry, Live, is_closed}
use coupery_ksnf.Leaf.Install.{DeviceGenesisParts, new, validate_genesis_epoch}
use coupery_ksnf.Leaf.Sound.{Sound, at_reserved, LiveStep-Sound, LiveStep-attempt}
use coupery_ksnf.Leaf.Calls.{Call, after_call}
use coupery_ksnf.Leaf.Relation.{Rekeyed, Change, unchanged, opened, stepped, closed, rekeyed}
use coupery_ksnf.Leaf.Change.{after_call-Change}

module _ (P : Profile) where
  -- The registry `s` comes from `r` by calls.
  pub data Reach (A : Type 0) (r : LeafRegistry P) : LeafRegistry P → Type 0 where
    here : Reach A r r
    next : {mid : LeafRegistry P} (k : Call P A) → Reach A r mid → Reach A r (after_call P mid k)

  -- The live attempt is this device's, numbered below the counter, and sound.
  pub data Valid (r : LeafRegistry P) : Type 0 where
    idle : r.live ≡ none → Valid r
    holds :
        (l : Live P)
        → r.live ≡ some l
        → l.attempt.device ≡ r.device
        → l.attempt.sequence < r.next_sequence
        → Sound P l
        → Valid r

  pub initial-Valid :
      (r : LeafRegistry P) (parts : DeviceGenesisParts P) (e : KeyEpoch)
      → new P parts e ≡ ok r
      → Valid r
  unfolding new
  initial-Valid r parts e h =
      let (_, _, h1) = >>=-passed (validate_genesis_epoch P parts e) _ h in
      idle (ap (λ s. s.live) (sym (ok-injective _ _ h1)))

  Rekeyed-Valid : (r t : LeafRegistry P) → Rekeyed P r t → Valid r → Valid t
  Rekeyed-Valid r t k v = elim k.live [
    | inl none_live ↦ idle none_live
    | inr kept ↦ elim v [
      | idle none_live ↦ idle (kept ∙ none_live)
      | holds l holds_l device sequence sound ↦
          holds l (kept ∙ holds_l) (device ∙ sym k.device) (omega (arith, sequence, k.counter))
            sound
    ]
  ]

  pub Change-Valid : (r s : LeafRegistry P) → Change P r s → Valid r → Valid s
  Change-Valid r s (unchanged is) v = subst Valid (sym is) v
  Change-Valid r s (opened l was fresh is) v = subst Valid (sym is) (
      holds l refl (ap (λ a. a.device) fresh.numbered)
        (omega (arith, ap (λ a. a.sequence) fresh.numbered))
        (at_reserved fresh.uncommitted fresh.unrevealed fresh.unfixed))
  Change-Valid r s (stepped l l' live step is) (idle none_live) = cc
  Change-Valid r s (stepped l l' live step is) (holds k holds_k device sequence sound) =
      let same_l : k ≡ l = some-injective _ _ (sym holds_k ∙ live) in
      let named : l'.attempt ≡ k.attempt =
        LiveStep-attempt P l l' step ∙ ap (λ x. x.attempt) (sym same_l) in
      subst Valid (sym is) (
        holds l' refl (ap (λ a. a.device) named ∙ device)
          (omega (arith, ap (λ a. a.sequence) named, sequence))
          (LiveStep-Sound P l l' step (subst (Sound P) same_l sound)))
  Change-Valid r s (closed l live is) v = idle (ap (λ x. x.live) is)
  Change-Valid r s (rekeyed t k is) v = subst Valid (sym is) (Rekeyed-Valid r t k v)

  pub Reach-Valid : {A : Type 0} {r s : LeafRegistry P} → Reach A r s → Valid r → Valid s
  Reach-Valid here v = v
  Reach-Valid (next k reach) v = Change-Valid _ _ (after_call-Change P _ k) (Reach-Valid reach v)

  -- The counter never goes back, and a registry is of one device.
  Change-counter :
      (r s : LeafRegistry P)
      → Change P r s
      → (s.device ≡ r.device) × (r.next_sequence ≤ s.next_sequence)
  Change-counter r s (unchanged is) =
      (ap (λ x. x.device) is, omega (arith, ap (λ x. x.next_sequence) is))
  Change-counter r s (opened l _ _ is) =
      (ap (λ x. x.device) is, omega (arith, ap (λ x. x.next_sequence) is))
  Change-counter r s (stepped l l' _ _ is) =
      (ap (λ x. x.device) is, omega (arith, ap (λ x. x.next_sequence) is))
  Change-counter r s (closed l _ is) =
      (ap (λ x. x.device) is, omega (arith, ap (λ x. x.next_sequence) is))
  Change-counter r s (rekeyed t k is) =
      (ap (λ x. x.device) is ∙ k.device, omega (arith, ap (λ x. x.next_sequence) is, k.counter))

  pub Reach-counter :
      {A : Type 0} {r s : LeafRegistry P}
      → Reach A r s
      → (s.device ≡ r.device) × (r.next_sequence ≤ s.next_sequence)
  Reach-counter here = (refl, omega arith)
  Reach-counter {s = s} (next {mid = mid} k reach) =
      let (device, before) = Reach-counter reach in
      let (device1, after1) = Change-counter mid _ (after_call-Change P mid k) in
      (device1 ∙ device, omega (arith, before, after1))

  pub Change-is_closed :
      (r s : LeafRegistry P) (attempt : LeafAttempt)
      → Change P r s
      → is_closed P r attempt ≡ true
      → is_closed P s attempt ≡ true
  unfolding is_closed
  Change-is_closed r s attempt (unchanged is) h =
      subst (λ x. is_closed P x attempt ≡ true) (sym is) h
  Change-is_closed r s attempt (opened l was fresh is) h =
      subst (λ x. is_closed P x attempt ≡ true) (sym is)
        (ground (arith, ap (λ a. a.sequence) fresh.numbered))
  Change-is_closed r s attempt (stepped l l' live step is) h =
      subst (λ x. is_closed P x attempt ≡ true) (sym is)
        (ground (arith, LiveStep-attempt P l l' step))
  Change-is_closed r s attempt (closed l live is) h =
      subst (λ x. is_closed P x attempt ≡ true) (sym is) (ground arith)
  Change-is_closed r s attempt (rekeyed t k is) h =
      subst (λ x. is_closed P x attempt ≡ true) (sym is)
        (ground (arith, k.live, k.device, k.counter))

  -- A closed attempt stays closed after any calls, whatever they are given.
  pub closed_forever :
      {A : Type 0} (r s : LeafRegistry P) (attempt : LeafAttempt)
      → Reach A r s
      → is_closed P r attempt ≡ true
      → is_closed P s attempt ≡ true
  closed_forever r _ attempt here h = h
  closed_forever r s attempt (next {mid = mid} k reach) h =
      Change-is_closed mid s attempt (after_call-Change P mid k)
        (closed_forever r mid attempt reach h)
