-- ===== src/Store/Registry.antt =====
-- `LeafJournal::from_registry` of leaf/store.rs: the journal of a registry, and its agreement with
-- the registry.
use coupery_ksnf.Base.{
  ℕ, ◌+◌, ◌^◌, ◌<◌, ◌≡◌, refl, sym, ◌∙◌, ap, subst, ◌&&◌, Option, none, some, arith, inl, inr, ◌==◌,
  ltb,
}
use mathlib.Core.Option.{some-injective}
use coupery_ksnf.Outcome.{Result, ok, >>=-passed, ok-injective}
use coupery_ksnf.Types.{LeafAttempt, KeyEpoch}
use coupery_ksnf.Profile.{Profile}
use coupery_ksnf.Leaf.State.{LeafRegistry, Live, attempt_of, is_closed, is_not_live}
use coupery_ksnf.Leaf.Install.{DeviceGenesisParts, new, validate_genesis_epoch}
use coupery_ksnf.Leaf.Sound.{LiveStep-attempt}
use coupery_ksnf.Leaf.Relation.{Rekeyed, Change, unchanged, opened, stepped, closed, rekeyed}
use coupery_ksnf.Leaf.Change.{after_call-Change}
use coupery_ksnf.Leaf.History.{Reach, here, next}
use coupery_ksnf.Store.Journal.{LeafJournal, journal_new, journal_is_closed, not_live}

module _ (P : Profile) where
  -- `LeafJournal::from_registry`
  unfoldable pub from_registry : ℕ → LeafRegistry P → Result LeafJournal
  unfolding journal_new
  from_registry material r = journal_new r.device material r.next_sequence (attempt_of P r.live)

  -- The live attempt is the device's latest.
  pub data Latest (r : LeafRegistry P) : Type 0 where
    idle : r.live ≡ none → Latest r
    holds :
        (l : Live P)
        → r.live ≡ some l
        → l.attempt.device ≡ r.device
        → l.attempt.sequence + 1 ≡ r.next_sequence
        → r.next_sequence < 2 ^ 64
        → Latest r

  Rekeyed-Latest : (r t : LeafRegistry P) → Rekeyed P r t → Latest r → Latest t
  Rekeyed-Latest r t k v = elim k.live [
    | inl dropped ↦ idle dropped
    | inr kept ↦ elim v [
      | idle none_live ↦ idle (kept ∙ none_live)
      | holds l at device latest bound ↦
          holds l (kept ∙ at) (device ∙ sym k.device) (latest ∙ sym k.counter)
            (omega (arith, bound, k.counter))
    ]
  ]

  pub Change-Latest : (r s : LeafRegistry P) → Change P r s → Latest r → Latest s
  Change-Latest r s (unchanged is) v = subst Latest (sym is) v
  Change-Latest r s (opened l was fresh is) v = subst Latest (sym is) (
      holds l refl (ap (λ a. a.device) fresh.numbered) (ap (λ a. a.sequence + 1) fresh.numbered)
        fresh.counted)
  Change-Latest r s (stepped l l' live step is) (idle none_live) = cc
  Change-Latest r s (stepped l l' live step is) (holds k at device latest bound) =
      let same_l : k ≡ l = some-injective _ _ (sym at ∙ live) in
      let named : l'.attempt ≡ k.attempt =
        LiveStep-attempt P l l' step ∙ ap (λ x. x.attempt) (sym same_l) in
      subst Latest (sym is) (
        holds l' refl (ap (λ a. a.device) named ∙ device) (ap (λ a. a.sequence + 1) named ∙ latest)
          bound)
  Change-Latest r s (closed l live is) v = idle (ap (λ x. x.live) is)
  Change-Latest r s (rekeyed t k is) v = subst Latest (sym is) (Rekeyed-Latest r t k v)

  pub Reach-Latest : {A : Type 0} {r s : LeafRegistry P} → Reach P A r s → Latest r → Latest s
  Reach-Latest here v = v
  Reach-Latest (next k reach) v = Change-Latest _ _ (after_call-Change P _ k) (Reach-Latest reach v)

  pub new-Latest :
      (r : LeafRegistry P) (parts : DeviceGenesisParts P) (e : KeyEpoch)
      → new P parts e ≡ ok r
      → Latest r
  unfolding new
  new-Latest r parts e h =
      let (_, _, h1) = >>=-passed (validate_genesis_epoch P parts e) _ h in
      idle (ap (λ s. s.live) (sym (ok-injective _ _ h1)))

  pub Latest-journal :
      (r : LeafRegistry P) (material : ℕ)
      → Latest r
      → from_registry material r
        ≡ ok (record {
          device = r.device;
          material = material;
          next_sequence = r.next_sequence;
          live = attempt_of P r.live;
        })
  unfolding from_registry
  Latest-journal r material (idle none_live) = ground arith
  Latest-journal r material (holds l at device latest bound) = ground arith

  closed-agrees :
      (r : LeafRegistry P) (attempt : LeafAttempt) (live : Option (Live P))
      → (attempt.device == r.device
          && (ltb attempt.sequence r.next_sequence && not_live (attempt_of P live) attempt))
        ≡ (attempt.device == r.device
            && (ltb attempt.sequence r.next_sequence && is_not_live P live attempt))
  closed-agrees r attempt none = refl
  closed-agrees r attempt (some l) = refl

  -- The journal of a registry calls the same attempts closed.
  pub Latest-closed :
      (r : LeafRegistry P) (j : LeafJournal) (material : ℕ) (attempt : LeafAttempt)
      → Latest r
      → from_registry material r ≡ ok j
      → journal_is_closed j attempt ≡ is_closed P r attempt
  unfolding journal_is_closed is_closed
  Latest-closed r j material attempt v h =
      ap
        (λ i.
          attempt.device == i.device
          && (ltb attempt.sequence i.next_sequence && not_live i.live attempt))
        (ok-injective _ _ (sym h ∙ Latest-journal r material v))
      ∙ closed-agrees r attempt r.live

  -- A registry that genesis and any calls have led to has a journal: `LeafJournal::new` accepts
  -- its counter and live attempt. The journal calls an attempt closed exactly if the registry does.
  pub from_registry-agrees :
      {A : Type 0} (r0 r : LeafRegistry P) (parts : DeviceGenesisParts P) (e : KeyEpoch)
      (material : ℕ) (attempt : LeafAttempt)
      → new P parts e ≡ ok r0
      → Reach P A r0 r
      → (j : LeafJournal) × (from_registry material r ≡ ok j)
        × (j.material ≡ material)
        × (journal_is_closed j attempt ≡ is_closed P r attempt)
  from_registry-agrees r0 r parts e material attempt genesis reach =
      let v = Reach-Latest reach (new-Latest r0 parts e genesis) in
      let made = Latest-journal r material v in
      (_, made, refl, Latest-closed r _ material attempt v made)
