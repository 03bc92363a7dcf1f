-- ===== src/Signing/SignatureComplete.antt =====
-- `aggregate_signature` of signing.rs makes a signature that verifies of the members' responses.
use coupery_ksnf.Base.{
  ℕ, suc, ◌<◌, ◌≡◌, refl, sym, ◌∙◌, ap, subst, true, false, List, length, All, arith,
}
use coupery_ksnf.Order.{nat_key}
use coupery_ksnf.Sort.{sort_by_key}
use coupery_ksnf.Sort.Increasing.{Increasing, length-sort_by_key}
use coupery_ksnf.Sort.Distinct.{Increasing-has_adjacent}
use coupery_ksnf.Outcome.{ok}
use coupery_ksnf.Profile.{Profile}
use coupery_ksnf.Shamir.{from_scalar}
use coupery_ksnf.Support.{PersonParticipant, OuterSupport}
use coupery_ksnf.Signing.{MemberResponse, Signature, has_adjacent}
use coupery_ksnf.Signing.Schnorr.{challenge, signature_verify}
use coupery_ksnf.Signing.Algebra.{GroupLaws}
use coupery_ksnf.Signing.Context.{signing_context}
use coupery_ksnf.Signing.Aggregate.{sum_members, aggregate_signature}
use coupery_ksnf.Signing.Bindings.{
  signing_context-ContextMade, bindings_of-Increasing, Increasing-found,
}
use coupery_ksnf.Signing.OuterSum.{
  same_members-step, weighted_members, MembersPass, all_passed, member_passed, sum_members-Signs,
}
use coupery_ksnf.Transcript.{
  RootContext, MemberRecord, MemberNonce, RootEntry, RootPrepackage, RootPackage, SigningContext,
}
use coupery_ksnf.Transcript.Write.{records_of}
use coupery_ksnf.Transcript.Root.{same_members, validate_records, prepackage_new, package_finalize}
use coupery_ksnf.Transcript.Finalize.{package_finalize-Increasing}

module _ (P : Profile) where
  open P use {Scalar, Element, zero_scalar, add_element, scale, identity, generator}

  module _ (signing : SigningContext P) (support : OuterSupport P) where
    MembersPass-length :
        (ps : List (PersonParticipant P)) (es : List (RootEntry P)) (rs : List (MemberResponse P))
        → MembersPass P signing support ps es rs
        → length rs ≡ length ps
    MembersPass-length _ _ _ all_passed = refl
    MembersPass-length _ _ _ (member_passed k rest) = ap suc (MembersPass-length _ _ _ rest)

    MembersPass-All :
        (n : ℕ) (ps : List (PersonParticipant P)) (es : List (RootEntry P))
        (rs : List (MemberResponse P))
        → MembersPass P signing support ps es rs
        → same_members P (records_of P es) ps ≡ true
        → All (λ e. n < e.committed.slot) es
        → All (λ r. n < r.slot) rs
    MembersPass-All n _ _ _ all_passed same h = tt
    MembersPass-All n _ _ _ (member_passed {p = p} {e = e} {r = r} {ps = ps} {es = es} k rest) same
          (lt, above) =
        let (at, later) = same_members-step P e es p ps same in
        let slot = k.slot in
        (omega (arith, lt, at, slot), MembersPass-All n ps es _ rest later above)

    MembersPass-Increasing :
        (ps : List (PersonParticipant P)) (es : List (RootEntry P)) (rs : List (MemberResponse P))
        → MembersPass P signing support ps es rs
        → same_members P (records_of P es) ps ≡ true
        → Increasing (λ e. e.committed.slot) es
        → Increasing (λ r. r.slot) rs
    MembersPass-Increasing _ _ _ all_passed same h = tt
    MembersPass-Increasing _ _ _
          (member_passed {p = p} {e = e} {r = r} {ps = ps} {es = es} {rs = rs} k rest) same
          (above, up) =
        let (at, later) = same_members-step P e es p ps same in
        (
          subst (λ n. All (λ x. n < x.slot) rs) (at ∙ sym k.slot)
              (MembersPass-All e.committed.slot ps es rs rest later above),
          MembersPass-Increasing ps es rs rest later up,
        )

  Signs-start :
      (l : GroupLaws P) (signing : SigningContext P)
      → from_scalar P zero_scalar ≡ add_element identity (scale identity signing.challenge)
  unfolding from_scalar
  Signs-start l signing =
      l.scale-zero generator
      ∙ sym (l.identity-add (scale identity signing.challenge) ∙ l.scale-identity signing.challenge)

  aggregated :
      (signing : SigningContext P) (support : OuterSupport P) (responses : List (MemberResponse P))
      (out : Scalar)
      → validate_records P (records_of P signing.root.entries) support ≡ ok tt
      → length responses ≡ length support.participants
      → has_adjacent P (λ r. r.slot) (sort_by_key (λ r. r.slot) responses) ≡ false
      → sum_members P signing support zero_scalar
          (sort_by_key (λ r. r.slot) responses)
          support.participants
          signing.root.entries
        ≡ ok out
      → signature_verify P
          (record { nonce = signing.nonce; response = out })
          signing.root.key
          signing.root.message
        ≡ ok tt
      → aggregate_signature P signing support responses
        ≡ ok (record { nonce = signing.nonce; response = out })
  unfolding aggregate_signature
  aggregated signing support responses out valid many apart sums_to verified = ground arith

  signs_verifies :
      (s : Signature P) (key : Element) (message : List ℕ) (c : Scalar)
      → challenge P s.nonce key message ≡ ok c
      → from_scalar P s.response ≡ add_element s.nonce (scale key c)
      → signature_verify P s key message ≡ ok tt
  unfolding signature_verify
  signs_verifies s key message c hashed holds =
      let same = (P.element_eq_iff _ _).1 holds in ground (arith, same)

  validate_records-same :
      (records : List (MemberRecord P)) (support : OuterSupport P)
      → validate_records P records support ≡ ok tt
      → same_members P records support.participants ≡ true
  unfolding validate_records
  validate_records-same records support h = ground arith

  -- The group being a commutative group on which the scalars act: if `RootPackage::finalize` made
  -- the root package of what `RootPrepackage::new` made, `SigningContext::new` made its context, the
  -- members' points, weighted by the support, sum to the key, and the responses are, in any order,
  -- one for each participant of the support that satisfies the participant's equation, then
  -- `aggregate_signature` accepts the responses: no check of it fails. Its signature has the
  -- context's nonce and verifies for the key and the message.
  pub aggregate_signature_completes :
      (l : GroupLaws P) (key : Element) (message : List ℕ) (context : RootContext)
      (support : OuterSupport P) (records : List (MemberRecord P)) (prepackage : RootPrepackage P)
      (nonces : List (MemberNonce P)) (root : RootPackage P) (signing : SigningContext P)
      (responses : List (MemberResponse P))
      → prepackage_new P key message context support records ≡ ok prepackage
      → package_finalize P prepackage support nonces ≡ ok root
      → signing_context P root ≡ ok signing
      → weighted_members P support identity support.participants ≡ ok root.key
      → MembersPass P signing support support.participants root.entries
          (sort_by_key (λ r. r.slot) responses)
      → (signature : Signature P) × (aggregate_signature P signing support responses ≡ ok signature)
        × (signature.nonce ≡ signing.nonce)
        × (signature_verify P signature root.key root.message ≡ ok tt)
  aggregate_signature_completes l key message context support records prepackage nonces root signing
        responses prepared finalized made shared passes =
      let (up, valid) =
        package_finalize-Increasing P key message context support records prepackage nonces root
          prepared finalized in
      let k = signing_context-ContextMade P root signing made in
      let sorted = sort_by_key (λ r. r.slot) responses in
      let same = validate_records-same (records_of P root.entries) support valid in
      let found =
        Increasing-found P signing
          (bindings_of-Increasing P root root.entries signing.bindings k.bound up) in
      let (out, sums_to, holds) =
        sum_members-Signs P signing support l root support.participants root.entries sorted
          signing.bindings zero_scalar identity identity root.key passes same k.bound found
          (Signs-start l signing) shared in
      let signature : Signature P = record { nonce = signing.nonce; response = out } in
      let verified =
        signs_verifies signature root.key root.message signing.challenge k.hashed
          (holds ∙ ap (λ n. add_element n (scale root.key signing.challenge)) (sym k.nonce)) in
      let apart =
        Increasing-has_adjacent P (λ r. r.slot) sorted
          (MembersPass-Increasing signing support support.participants root.entries sorted passes
            same up) in
      let many =
        sym (length-sort_by_key (λ r. r.slot) responses)
        ∙ MembersPass-length signing support support.participants root.entries sorted passes in
      (
        signature,
        aggregated signing support responses out
            (subst (λ q. validate_records P (records_of P q.entries) support ≡ ok tt)
              (sym k.of_root) valid)
            many apart
            (subst
              (λ q.
                sum_members P signing support zero_scalar sorted support.participants q.entries
                ≡ ok out)
              (sym k.of_root) sums_to)
            (subst (λ q. signature_verify P signature q.key q.message ≡ ok tt) (sym k.of_root)
              verified),
        refl,
        verified,
      )
