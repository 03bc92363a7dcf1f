-- ===== src/Signing/Bindings.antt =====
-- `SigningContext::new` of transcript.rs: what it has found, and the binding of each slot.
use coupery_ksnf.Base.{ℕ, ◌<◌, ◌≡◌, refl, ap, subst, List, [], ◌∷◌, All, arith}
use coupery_ksnf.Order.{nat_key}
use coupery_ksnf.Sort.Increasing.{Increasing, All-map, find-Increasing}
use coupery_ksnf.Outcome.{ok, or_fail, ◌>>=◌, >>=-passed, ok-injective, participant_not_found}
use coupery_ksnf.Profile.{Profile}
use coupery_ksnf.Signing.{NoncePair}
use coupery_ksnf.Signing.Schnorr.{binding_factor, challenge, bound_sum, aggregate_nonce}
use coupery_ksnf.Signing.Context.{bindings_of, bound_pairs, signing_context, context_binding}
use coupery_ksnf.Signing.MemberRounds.{All-Memᴰ}
use coupery_ksnf.Transcript.{RootEntry, RootPackage, SigningContext}
use coupery_ksnf.Transcript.Write.{binding_preimage}

module _ (P : Profile) where
  open P use {Scalar, Element, zero_scalar, add_element, scale, identity, generator}

  -- What `SigningContext::new` has found.
  pub record ContextMade (root : RootPackage P) (signing : SigningContext P) : Type 0 where
    pub of_root : signing.root ≡ root
    pub bound : bindings_of P root root.entries ≡ ok signing.bindings
    pub nonce : signing.nonce ≡ bound_sum P identity (bound_pairs P root.entries signing.bindings)
    pub hashed : challenge P signing.nonce root.key root.message ≡ ok signing.challenge

  aggregate_nonce-sum :
      (pairs : List (NoncePair P × Scalar)) (nonce : Element)
      → aggregate_nonce P pairs ≡ ok nonce
      → nonce ≡ bound_sum P identity pairs
  unfolding aggregate_nonce
  aggregate_nonce-sum [] nonce h = cc
  aggregate_nonce-sum (p ∷ ps) nonce h = ground arith

  pub signing_context-ContextMade :
      (root : RootPackage P) (signing : SigningContext P)
      → signing_context P root ≡ ok signing
      → ContextMade root signing
  unfolding signing_context
  signing_context-ContextMade root signing h =
      let (bs, bound, h1) = >>=-passed (bindings_of P root root.entries) _ h in
      let (nonce, summed, h2) =
        >>=-passed (aggregate_nonce P (bound_pairs P root.entries bs)) _ h1 in
      let (c, hashed, h3) = >>=-passed (challenge P nonce root.key root.message) _ h2 in
      subst (ContextMade root) (ok-injective _ _ h3) (record {
        of_root = refl;
        bound = bound;
        nonce = aggregate_nonce-sum _ nonce summed;
        hashed = hashed;
      })

  bindings_of-step :
      (root : RootPackage P) (e : RootEntry P) (es : List (RootEntry P)) (bs : List (ℕ × Scalar))
      → bindings_of P root (e ∷ es) ≡ ok bs
      → (binding : Scalar) × (rest : List (ℕ × Scalar)) × (bindings_of P root es ≡ ok rest)
        × ((e.committed.slot, binding) ∷ rest ≡ bs)
  unfolding bindings_of
  bindings_of-step root e es bs h =
      let (preimage, written, h1) = >>=-passed (binding_preimage P root e.committed.slot) _ h in
      let (binding, hashed, h2) = >>=-passed (binding_factor P preimage) _ h1 in
      let (rest, bound, h3) = >>=-passed (bindings_of P root es) _ h2 in
      (binding, rest, bound, ok-injective _ _ h3)

  bindings_of-All :
      (root : RootPackage P) (n : ℕ) (es : List (RootEntry P)) (bs : List (ℕ × Scalar))
      → bindings_of P root es ≡ ok bs
      → All (λ e. n < e.committed.slot) es
      → All (λ b. n < b.0) bs
  unfolding bindings_of
  bindings_of-All root n [] bs h above = subst (All (λ b. n < b.0)) (ok-injective _ _ h) tt
  bindings_of-All root n (e ∷ es) bs h (lt, above) =
      let (binding, rest, bound, is) = bindings_of-step root e es bs h in
      subst (All (λ b. n < b.0)) is (lt, bindings_of-All root n es rest bound above)

  pub bindings_of-Increasing :
      (root : RootPackage P) (es : List (RootEntry P)) (bs : List (ℕ × Scalar))
      → bindings_of P root es ≡ ok bs
      → Increasing (λ e. e.committed.slot) es
      → Increasing (λ b. b.0) bs
  unfolding bindings_of
  bindings_of-Increasing root [] bs h up = subst (Increasing (λ b. b.0)) (ok-injective _ _ h) tt
  bindings_of-Increasing root (e ∷ es) bs h (above, up) =
      let (binding, rest, bound, is) = bindings_of-step root e es bs h in
      subst (Increasing (λ b. b.0)) is (
        bindings_of-All root e.committed.slot es rest bound above,
        bindings_of-Increasing root es rest bound up,
      )

  -- Each slot's binding is found.
  pub Increasing-found :
      (signing : SigningContext P)
      → Increasing (λ b. b.0) signing.bindings
      → All (λ b. context_binding P signing b.0 ≡ ok b.1) signing.bindings
  unfolding context_binding
  Increasing-found signing up =
      All-map
        (λ b m.
          ap (λ o. or_fail o participant_not_found >>= (λ x. ok x.1))
            (find-Increasing (λ y. y.0) b signing.bindings up m))
        signing.bindings (All-Memᴰ P signing.bindings)
