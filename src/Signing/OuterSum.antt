-- ===== src/Signing/OuterSum.antt =====
-- The loop of `aggregate_signature` of signing.rs on responses that pass: it sums them, and the sum
-- satisfies the signature's equation for the sums of the bound nonces and of the weighted members.
use coupery_ksnf.Base.{ℕ, ◌≡◌, refl, sym, ◌∙◌, ap, subst, true, List, [], ◌∷◌, All, arith}
use coupery_ksnf.Order.{nat_key}
use coupery_ksnf.Outcome.{Result, ok, ◌>>=◌, >>=-passed, ok-injective}
use coupery_ksnf.Profile.{Profile}
use coupery_ksnf.Shamir.{from_scalar}
use coupery_ksnf.Support.{PersonParticipant, OuterSupport, OuterCoefficient, outer_coefficient}
use coupery_ksnf.Signing.{MemberResponse, bind_pair}
use coupery_ksnf.Signing.Schnorr.{bound_sum, verify_member}
use coupery_ksnf.Signing.Algebra.{GroupLaws, add_interchange, verify_member-equation}
use coupery_ksnf.Signing.Context.{bindings_of, bound_pairs, context_binding}
use coupery_ksnf.Signing.Aggregate.{sum_members}
use coupery_ksnf.Transcript.{RootEntry, RootPackage, SigningContext}
use coupery_ksnf.Transcript.Write.{binding_preimage, records_of}
use coupery_ksnf.Transcript.Root.{same_members}
use coupery_ksnf.Signing.Schnorr.{binding_factor}

module _ (P : Profile) where
  open P use {Scalar, Element, zero_scalar, add_scalar, mul_scalar, add_element, scale, generator}

  -- The sum of the members' points, each times its coefficient in the support: by Lagrange
  -- interpolation the vault's key.
  unfoldable pub weighted_members :
      OuterSupport P → Element → List (PersonParticipant P) → Result Element
  weighted_members support sum [] = ok sum
  weighted_members support sum (p ∷ ps) = do
    coefficient ← outer_coefficient P support p.person
    weighted_members support (add_element sum (scale p.member coefficient.scalar)) ps

  pub same_members-step :
      (e : RootEntry P) (es : List (RootEntry P)) (p : PersonParticipant P)
      (ps : List (PersonParticipant P))
      → same_members P (records_of P (e ∷ es)) (p ∷ ps) ≡ true
      → (e.committed.slot ≡ p.slot) × (same_members P (records_of P es) ps ≡ true)
  unfolding same_members
  same_members-step e es p ps h = ground arith

  module _ (signing : SigningContext P) (support : OuterSupport P) where
    -- A member's response is of its slot and satisfies the member's equation.
    pub record MemberPasses (p : PersonParticipant P) (e : RootEntry P) (r : MemberResponse P)
        : Type 0 where
      pub slot : r.slot ≡ p.slot
      pub coefficient : OuterCoefficient P
      pub weighed : outer_coefficient P support p.person ≡ ok coefficient
      pub binding : Scalar
      pub bound : context_binding P signing p.slot ≡ ok binding
      pub passes :
          verify_member P r.scalar e.nonce binding signing.challenge coefficient.scalar p.member
          ≡ ok tt

    -- Each participant of the support has responded, in their order.
    pub data MembersPass
        : List (PersonParticipant P) → List (RootEntry P) → List (MemberResponse P) → Type 0 where
      all_passed : MembersPass [] [] []
      member_passed :
          {p : PersonParticipant P} {e : RootEntry P} {r : MemberResponse P}
          {ps : List (PersonParticipant P)} {es : List (RootEntry P)} {rs : List (MemberResponse P)}
          → MemberPasses p e r
          → MembersPass ps es rs
          → MembersPass (p ∷ ps) (e ∷ es) (r ∷ rs)

    module _ (l : GroupLaws P) where
      -- The sum satisfies the signature's equation for this nonce and this key.
      abbrev pub Signs : Scalar → Element → Element → Type 0
      Signs sum nonce key = from_scalar P sum ≡ add_element nonce (scale key signing.challenge)

      Signs-round :
          (sum : Scalar) (nonce key : Element) (p : PersonParticipant P) (e : RootEntry P)
          (r : MemberResponse P) (k : MemberPasses p e r)
          → Signs sum nonce key
          → Signs
              (add_scalar sum r.scalar)
              (add_element nonce (bind_pair P e.nonce k.binding))
              (add_element key (scale p.member k.coefficient.scalar))
      unfolding from_scalar
      Signs-round sum nonce key p e r k h =
          let c = signing.challenge in
          let bound = bind_pair P e.nonce k.binding in
          let weighted = scale p.member k.coefficient.scalar in
          l.scale-add_scalar generator sum r.scalar
          ∙ ap (λ x. add_element x (scale generator r.scalar)) h
          ∙ ap (λ x. add_element (add_element nonce (scale key c)) x)
              (verify_member-equation P r.scalar e.nonce k.binding c k.coefficient.scalar p.member
                  k.passes
                ∙ ap (add_element bound) (l.scale-mul_scalar p.member c k.coefficient.scalar))
          ∙ add_interchange P l nonce (scale key c) bound (scale weighted c)
          ∙ ap (add_element (add_element nonce bound)) (sym (l.scale-add_element key weighted c))

      sum_members-round :
          (sum : Scalar) (p : PersonParticipant P) (e : RootEntry P) (r : MemberResponse P)
          (rs : List (MemberResponse P)) (ps : List (PersonParticipant P)) (es : List (RootEntry P))
          → MemberPasses p e r
          → e.committed.slot ≡ p.slot
          → sum_members P signing support sum (r ∷ rs) (p ∷ ps) (e ∷ es)
            ≡ sum_members P signing support (add_scalar sum r.scalar) rs ps es
      unfolding sum_members
      sum_members-round sum p e r rs ps es k at =
          let slot = k.slot in
          let weighed = k.weighed in
          let bound = ap (context_binding P signing) k.slot ∙ k.bound in
          let passes = k.passes in ground arith

      pub sum_members-Signs :
          (root : RootPackage P) (ps : List (PersonParticipant P)) (es : List (RootEntry P))
          (rs : List (MemberResponse P)) (bs : List (ℕ × Scalar)) (sum : Scalar)
          (nonce key total : Element)
          → MembersPass ps es rs
          → same_members P (records_of P es) ps ≡ true
          → bindings_of P root es ≡ ok bs
          → All (λ b. context_binding P signing b.0 ≡ ok b.1) bs
          → Signs sum nonce key
          → weighted_members support key ps ≡ ok total
          → (out : Scalar) × (sum_members P signing support sum rs ps es ≡ ok out)
            × Signs out (bound_sum P nonce (bound_pairs P es bs)) total
      unfolding sum_members weighted_members bindings_of bound_pairs bound_sum
      sum_members-Signs root [] [] (r ∷ rs) bs sum nonce key total k same made found h w =
          elim k [ ]
      sum_members-Signs root [] (e ∷ es) rs bs sum nonce key total k same made found h w =
          elim k [ ]
      sum_members-Signs root (p ∷ ps) [] rs bs sum nonce key total k same made found h w =
          elim k [ ]
      sum_members-Signs root (p ∷ ps) (e ∷ es) [] bs sum nonce key total k same made found h w =
          elim k [ ]
      sum_members-Signs root [] [] [] bs sum nonce key total all_passed same made found h w =
          (sum, refl, subst (Signs sum nonce) (ok-injective _ _ w) h)
      sum_members-Signs root (p ∷ ps) (e ∷ es) (r ∷ rs) bs sum nonce key total
            (member_passed k rest) same made found h w =
          let (at, later) = same_members-step e es p ps same in
          let (preimage, written, m1) =
            >>=-passed (binding_preimage P root e.committed.slot) _ made in
          let (binding, hashed, m2) = >>=-passed (binding_factor P preimage) _ m1 in
          let (others, bound, m3) = >>=-passed (bindings_of P root es) _ m2 in
          let is : (e.committed.slot, binding) ∷ others ≡ bs = ok-injective _ _ m3 in
          let (own, rest_found) =
            subst (All (λ b. context_binding P signing b.0 ≡ ok b.1)) (sym is) found in
          let same_binding : k.binding ≡ binding =
            ok-injective _ _ (sym k.bound ∙ ap (context_binding P signing) (sym at) ∙ own) in
          let (coefficient, weighed, w1) = >>=-passed (outer_coefficient P support p.person) _ w in
          let same_coefficient : coefficient ≡ k.coefficient =
            ok-injective _ _ (sym weighed ∙ k.weighed) in
          let (out, sums_to, holds) =
            sum_members-Signs root ps es rs others (add_scalar sum r.scalar) _
              (add_element key (scale p.member coefficient.scalar)) total rest later bound
              rest_found
              (subst
                (λ q.
                  Signs (add_scalar sum r.scalar)
                    (add_element nonce (bind_pair P e.nonce k.binding))
                    (add_element key (scale p.member q.scalar)))
                (sym same_coefficient) (Signs-round sum nonce key p e r k h))
              w1 in
          (
            out,
            sum_members-round sum p e r rs ps es k at ∙ sums_to,
            holds
                ∙ ap
                    (λ b.
                      add_element
                        (bound_sum P (add_element nonce (bind_pair P e.nonce b))
                          (bound_pairs P es others))
                        (scale total signing.challenge))
                    same_binding
                ∙ ap
                    (λ q.
                      add_element (bound_sum P nonce (bound_pairs P (e ∷ es) q))
                        (scale total signing.challenge))
                    is,
          )
