-- ===== src/Signing/MemberSum.antt =====
-- The loop of `aggregate_member` of signing.rs on responses that pass: it sums them, and the sum
-- satisfies the member's equation for the sums of the nonces and of the weighted shares.
use coupery_ksnf.Base.{◌≡◌, refl, sym, ◌∙◌, ap, subst, List, [], ◌∷◌, arith}
use mathlib.Core.List.{foldl}
use coupery_ksnf.Order.{nat_key}
use coupery_ksnf.Outcome.{Result, ok, ◌>>=◌, >>=-passed, ok-injective}
use coupery_ksnf.Types.{attempt_eq_iff}
use coupery_ksnf.Profile.{Profile}
use coupery_ksnf.Shamir.{from_scalar}
use coupery_ksnf.Support.{DeviceParticipant, InnerSupport, inner_coefficient}
use coupery_ksnf.Signing.{
  DeviceNonce, DeviceNonceSet, DeviceResponse, bind_pair, set_nonce, set_attempt,
}
use coupery_ksnf.Signing.Schnorr.{verify_device}
use coupery_ksnf.Signing.Algebra.{GroupLaws, equation-add, scale_weight, verify_device-equation}
use coupery_ksnf.Signing.Aggregate.{sum_devices}

module _ (P : Profile) where
  open P use {
    Scalar, Element, zero_scalar, add_scalar, mul_scalar, add_element, scale, identity, generator,
  }

  -- The sum of the participants' shares, each times its coefficient in the support: by Lagrange
  -- interpolation the point that the support shares.
  unfoldable pub weighted_shares :
      InnerSupport P → Element → List (DeviceParticipant P) → Result Element
  weighted_shares support sum [] = ok sum
  weighted_shares support sum (p ∷ ps) = do
    coefficient ← inner_coefficient P support p.device
    weighted_shares support (add_element sum (scale p.share coefficient)) ps

  -- The sums of the nonces, as `sum_nonce_pairs` folds them.
  abbrev pub nonce_sums : Element × Element → List (DeviceNonce P) → Element × Element
  nonce_sums sums es =
      foldl (λ acc e. (add_element acc.0 e.nonce.hiding, add_element acc.1 e.nonce.binding)) sums es

  module _ (l : GroupLaws P) (support : InnerSupport P) (nonces : DeviceNonceSet P)
      (binding c outer : Scalar) where
    -- One round of the loop passes, with the nonce of this entry.
    pub record RoundPasses (p : DeviceParticipant P) (e : DeviceNonce P) (r : DeviceResponse P)
        : Type 0 where
      pub named : r.attempt.device ≡ p.device
      pub coefficient : Scalar
      pub attempted : set_attempt P nonces p.device ≡ ok r.attempt
      pub weighed : inner_coefficient P support p.device ≡ ok coefficient
      pub committed : set_nonce P nonces p.device ≡ ok e.nonce
      pub passes :
          verify_device P r.scalar e.nonce binding c (mul_scalar coefficient outer) p.share ≡ ok tt

    pub data RoundsPass
        : List (DeviceParticipant P) → List (DeviceNonce P) → List (DeviceResponse P) → Type 0 where
      none_left : RoundsPass [] [] []
      round :
          {p : DeviceParticipant P} {e : DeviceNonce P} {r : DeviceResponse P}
          {ps : List (DeviceParticipant P)} {es : List (DeviceNonce P)}
          {rs : List (DeviceResponse P)}
          → RoundPasses p e r
          → RoundsPass ps es rs
          → RoundsPass (p ∷ ps) (e ∷ es) (r ∷ rs)

    -- The response's sum satisfies the member's equation for these sums of nonces and shares.
    abbrev pub SumHolds : Scalar → Element × Element → Element → Type 0
    SumHolds sum sums shares =
        from_scalar P sum
        ≡ add_element (add_element sums.0 (scale sums.1 binding))
            (scale shares (mul_scalar c outer))

    SumHolds-round :
        (sum : Scalar) (sums : Element × Element) (shares : Element) (p : DeviceParticipant P)
        (e : DeviceNonce P) (r : DeviceResponse P) (k : RoundPasses p e r)
        → SumHolds sum sums shares
        → SumHolds
            (add_scalar sum r.scalar)
            (add_element sums.0 e.nonce.hiding, add_element sums.1 e.nonce.binding)
            (add_element shares (scale p.share k.coefficient))
    unfolding from_scalar bind_pair
    SumHolds-round sum sums shares p e r k h =
        l.scale-add_scalar generator sum r.scalar
        ∙ ap (λ x. add_element x (scale generator r.scalar)) h
        ∙ ap
            (λ x.
              add_element
                (add_element (add_element sums.0 (scale sums.1 binding))
                  (scale shares (mul_scalar c outer)))
                x)
            (verify_device-equation P r.scalar e.nonce binding c (mul_scalar k.coefficient outer)
                p.share k.passes
              ∙ ap (λ x. add_element (add_element e.nonce.hiding (scale e.nonce.binding binding)) x)
                  (scale_weight P l p.share c k.coefficient outer))
        ∙ equation-add P l sums.0 sums.1 shares e.nonce.hiding e.nonce.binding
            (scale p.share k.coefficient) binding (mul_scalar c outer)

    sum_devices-round :
        (sum : Scalar) (p : DeviceParticipant P) (e : DeviceNonce P) (r : DeviceResponse P)
        (rs : List (DeviceResponse P)) (ps : List (DeviceParticipant P))
        → RoundPasses p e r
        → sum_devices P support nonces binding c outer sum (r ∷ rs) (p ∷ ps)
          ≡ sum_devices P support nonces binding c outer (add_scalar sum r.scalar) rs ps
    unfolding sum_devices
    sum_devices-round sum p e r rs ps k =
        let named = k.named in
        let attempted = ap (set_attempt P nonces) k.named ∙ k.attempted in
        let weighed = ap (inner_coefficient P support) k.named ∙ k.weighed in
        let committed = ap (set_nonce P nonces) k.named ∙ k.committed in
        let passes = k.passes in ground (arith, (attempt_eq_iff r.attempt r.attempt).1 refl)

    pub sum_devices-SumHolds :
        (ps : List (DeviceParticipant P)) (es : List (DeviceNonce P)) (rs : List (DeviceResponse P))
        (sum : Scalar) (sums : Element × Element) (shares total : Element)
        → RoundsPass ps es rs
        → SumHolds sum sums shares
        → weighted_shares support shares ps ≡ ok total
        → (out : Scalar) × (sum_devices P support nonces binding c outer sum rs ps ≡ ok out)
          × SumHolds out (nonce_sums sums es) total
    unfolding sum_devices weighted_shares
    sum_devices-SumHolds [] [] (r ∷ rs) sum sums shares total k h w = elim k [ ]
    sum_devices-SumHolds [] (e ∷ es) rs sum sums shares total k h w = elim k [ ]
    sum_devices-SumHolds (p ∷ ps) [] rs sum sums shares total k h w = elim k [ ]
    sum_devices-SumHolds (p ∷ ps) (e ∷ es) [] sum sums shares total k h w = elim k [ ]
    sum_devices-SumHolds [] [] [] sum sums shares total none_left h w =
        (sum, refl, subst (SumHolds sum sums) (ok-injective _ _ w) h)
    sum_devices-SumHolds (p ∷ ps) (e ∷ es) (r ∷ rs) sum sums shares total (round k rest) h w =
        let (coefficient, found, w1) = >>=-passed (inner_coefficient P support p.device) _ w in
        let same : coefficient ≡ k.coefficient = ok-injective _ _ (sym found ∙ k.weighed) in
        let (out, sums_to, holds) =
          sum_devices-SumHolds ps es rs (add_scalar sum r.scalar) _
            (add_element shares (scale p.share k.coefficient)) total rest
            (SumHolds-round sum sums shares p e r k h)
            (ap (λ q. weighted_shares support (add_element shares (scale p.share q)) ps) (sym same)
              ∙ w1) in
        (out, sum_devices-round sum p e r rs ps k ∙ sums_to, holds)
