-- ===== src/Signing/MemberRounds.antt =====
-- The responses of `respond_device` of signing.rs pass the rounds of `aggregate_member`.
use coupery_ksnf.Base.{
  ℕ, ◌≡◌, refl, sym, ◌∙◌, ap, subst, true, not, some, List, [], ◌∷◌, length, find, All, arith, ◌==◌,
}
use mathlib.Core.List.{Memᴰ}
use mathlib.Core.List.Memᴰ.{head, tail}
use coupery_ksnf.Order.{nat_key}
use coupery_ksnf.Sort.{sort_by_key}
use coupery_ksnf.Sort.Increasing.{Increasing, All-map, find-Increasing}
use coupery_ksnf.Sort.Distinct.{sort_by_key-has_adjacent}
use coupery_ksnf.Outcome.{
  ok, or_fail, >>=-passed, fail_if-passed, ok-injective, support_mismatch, duplicate_participant,
  participant_not_found,
}
use coupery_ksnf.Profile.{Profile}
use coupery_ksnf.Support.{DeviceParticipant, InnerSupport, inner_participant}
use coupery_ksnf.Signing.{
  NoncePair, Nonce, DeviceNonce, DeviceNonceSet, DeviceResponse, device_nonce_set, same_devices,
  has_adjacent, sum_nonce_pairs, set_nonce, set_attempt,
}
use coupery_ksnf.Signing.Schnorr.{verify_device}
use coupery_ksnf.Signing.Algebra.{GroupLaws}
use coupery_ksnf.Signing.Context.{context_binding}
use coupery_ksnf.Signing.Respond.{respond_device}
use coupery_ksnf.Signing.Answered.{Answered, respond_device-Answered}
use coupery_ksnf.Signing.MemberSum.{nonce_sums, RoundPasses, RoundsPass, none_left, round}
use coupery_ksnf.Transcript.{MemberBody, MemberTranscript, SigningContext}

module _ (P : Profile) where
  open P use {Scalar, Element, element_eq, zero_scalar, add_element, scale, mul_scalar, identity}

  -- What `DeviceNonceSet::new` has found.
  pub record NoncesMade (support : InnerSupport P) (nonces : DeviceNonceSet P) : Type 0 where
    pub many : length nonces.entries ≡ length support.participants
    pub increasing : Increasing (λ e. e.attempt.device) nonces.entries
    pub same : same_devices P nonces.entries support.participants ≡ true
    pub hiding : (nonce_sums P (identity, identity) nonces.entries).0 ≡ nonces.aggregate.hiding
    pub binding : (nonce_sums P (identity, identity) nonces.entries).1 ≡ nonces.aggregate.binding

  sum_nonce_pairs-sums :
      (es : List (DeviceNonce P)) (pair : NoncePair P)
      → sum_nonce_pairs P es ≡ ok pair
      → ((nonce_sums P (identity, identity) es).0 ≡ pair.hiding)
        × ((nonce_sums P (identity, identity) es).1 ≡ pair.binding)
  unfolding sum_nonce_pairs
  sum_nonce_pairs-sums es pair h = ground arith

  pub device_nonce_set-NoncesMade :
      (support : InnerSupport P) (given : List (DeviceNonce P)) (nonces : DeviceNonceSet P)
      → device_nonce_set P support given ≡ ok nonces
      → NoncesMade support nonces
  unfolding device_nonce_set
  device_nonce_set-NoncesMade support given nonces h =
      let es = sort_by_key (λ e. e.attempt.device) given in
      let (many, h1) =
        fail_if-passed (not (length es == length support.participants)) support_mismatch _ h in
      let (apart, h2) =
        fail_if-passed (has_adjacent P (λ e. e.attempt.device) es) duplicate_participant _ h1 in
      let (same, h3) =
        fail_if-passed (not (same_devices P es support.participants)) support_mismatch _ h2 in
      let (pair, summed, h4) = >>=-passed (sum_nonce_pairs P es) _ h3 in
      let (hiding, binding) = sum_nonce_pairs-sums es pair summed in
      subst (NoncesMade support) (ok-injective _ _ h4) (record {
        many = ground (arith, many);
        increasing = sort_by_key-has_adjacent P (λ e. e.attempt.device) given apart;
        same = ground (arith, same);
        hiding = hiding;
        binding = binding;
      })

  pub All-Memᴰ : {A : Type 0} (xs : List A) → All (λ x. Memᴰ x xs) xs
  All-Memᴰ [] = tt
  All-Memᴰ (x ∷ xs) = (head refl, All-map (λ y m. tail m) xs (All-Memᴰ xs))

  module _ (transcript : MemberTranscript P) (signing : SigningContext P)
      (nonces : DeviceNonceSet P) where
    -- Each participant's device has responded.
    pub data Responses : List (DeviceParticipant P) → List (DeviceResponse P) → Type 0 where
      done : Responses [] []
      responds :
          {p : DeviceParticipant P} {r : DeviceResponse P} {ps : List (DeviceParticipant P)}
          {rs : List (DeviceResponse P)} (nonce : Nonce P) (share : Scalar)
          → respond_device P nonce transcript signing nonces p.device share ≡ ok r
          → Responses ps rs
          → Responses (p ∷ ps) (r ∷ rs)

    abbrev body : MemberBody P
    body = transcript.opening.body

    module _ (l : GroupLaws P) (binding : Scalar) (made : NoncesMade body.inner nonces)
        (ordered : Increasing (λ p. p.device) body.inner.participants)
        (bound : context_binding P signing body.outer.slot ≡ ok binding) where
      abbrev Passes : DeviceParticipant P → DeviceNonce P → DeviceResponse P → Type 0
      Passes = RoundPasses P l body.inner nonces binding signing.challenge body.outer.scalar

      abbrev AllPass :
          List (DeviceParticipant P) → List (DeviceNonce P) → List (DeviceResponse P) → Type 0
      AllPass = RoundsPass P l body.inner nonces binding signing.challenge body.outer.scalar

      found_entry :
          (e : DeviceNonce P) (device : ℕ)
          → Memᴰ e nonces.entries
          → e.attempt.device ≡ device
          → (set_nonce P nonces device ≡ ok e.nonce) × (set_attempt P nonces device ≡ ok e.attempt)
      unfolding set_nonce set_attempt
      found_entry e device m named =
          let found : find (λ y. y.attempt.device == device) nonces.entries ≡ some e =
            ap (λ d. find (λ y. y.attempt.device == d) nonces.entries) (sym named)
            ∙ find-Increasing (λ y. y.attempt.device) e nonces.entries made.increasing m in
          (ground (arith, found), ground (arith, found))

      found_participant :
          (p : DeviceParticipant P)
          → Memᴰ p body.inner.participants
          → inner_participant P body.inner p.device ≡ ok p
      unfolding inner_participant
      found_participant p m =
          ap (λ o. or_fail o participant_not_found)
            (find-Increasing (λ y. y.device) p body.inner.participants ordered m)

      Answered-Passes :
          (p : DeviceParticipant P) (e : DeviceNonce P) (r : DeviceResponse P)
          → Memᴰ p body.inner.participants
          → Memᴰ e nonces.entries
          → e.attempt.device ≡ p.device
          → Answered P transcript signing nonces p.device r
          → Passes p e r
      Answered-Passes p e r in_support in_nonces named k =
          let (committed, attempted) = found_entry e p.device in_nonces named in
          let same_p : k.participant ≡ p =
            ok-injective _ _ (sym k.in_support ∙ found_participant p in_support) in
          let same_pair : k.pair ≡ e.nonce = ok-injective _ _ (sym k.committed ∙ committed) in
          let same_attempt : r.attempt ≡ e.attempt =
            ok-injective _ _ (sym k.attempted ∙ attempted) in
          let same_binding : k.binding ≡ binding = ok-injective _ _ (sym k.bound ∙ bound) in
          record {
            named = ap (λ a. a.device) same_attempt ∙ named;
            coefficient = k.coefficient;
            attempted = k.attempted;
            weighed = k.weighed;
            committed = committed;
            passes =
                ap
                  (λ q.
                    verify_device P r.scalar e.nonce binding signing.challenge
                      (mul_scalar k.coefficient body.outer.scalar) q.share)
                  (sym same_p)
                ∙ ap
                    (λ n.
                      verify_device P r.scalar n binding signing.challenge
                        (mul_scalar k.coefficient body.outer.scalar) k.participant.share)
                    (sym same_pair)
                ∙ ap
                    (λ b.
                      verify_device P r.scalar k.pair b signing.challenge
                        (mul_scalar k.coefficient body.outer.scalar) k.participant.share)
                    (sym same_binding)
                ∙ k.passes;
          }

      same_devices-step :
          (e : DeviceNonce P) (es : List (DeviceNonce P)) (p : DeviceParticipant P)
          (ps : List (DeviceParticipant P))
          → same_devices P (e ∷ es) (p ∷ ps) ≡ true
          → (e.attempt.device ≡ p.device) × (same_devices P es ps ≡ true)
      unfolding same_devices
      same_devices-step e es p ps h = ground arith

      pub Responses-pass :
          (ps : List (DeviceParticipant P)) (es : List (DeviceNonce P))
          (rs : List (DeviceResponse P))
          → All (λ p. Memᴰ p body.inner.participants) ps
          → All (λ e. Memᴰ e nonces.entries) es
          → length es ≡ length ps
          → same_devices P es ps ≡ true
          → Responses ps rs
          → AllPass ps es rs
      Responses-pass [] [] (r ∷ rs) in_ps in_es many same k = elim k [ ]
      Responses-pass [] (e ∷ es) (r ∷ rs) in_ps in_es many same k = elim k [ ]
      Responses-pass (p ∷ ps) [] [] in_ps in_es many same k = elim k [ ]
      Responses-pass (p ∷ ps) (e ∷ es) [] in_ps in_es many same k = elim k [ ]
      Responses-pass [] [] [] in_ps in_es many same done = none_left
      Responses-pass [] (e ∷ es) [] in_ps in_es many same done = absurd (omega (arith, many))
      Responses-pass (p ∷ ps) [] (r ∷ rs) in_ps in_es many same k = absurd (omega (arith, many))
      Responses-pass (p ∷ ps) (e ∷ es) (r ∷ rs) (in_p, in_ps) (in_e, in_es) many same
            (responds nonce share h rest) =
          let (named, later) = same_devices-step e es p ps same in
          round
            (Answered-Passes p e r in_p in_e named
              (respond_device-Answered P transcript signing nonces l nonce p.device share r h))
            (Responses-pass ps es rs in_ps in_es (omega (arith, many)) later rest)
