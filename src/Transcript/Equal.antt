-- ===== src/Transcript/Equal.antt =====
-- The derived equalities of transcript.rs and signing.rs decide equality.
use coupery_ksnf.Base.{◌≡◌, refl, true, List, [], ◌∷◌, list_eq, arith}
use coupery_ksnf.Order.{nat_key}
use coupery_ksnf.Profile.{Profile}
use coupery_ksnf.Auth.{bytes_eq_iff}
use coupery_ksnf.Signing.{NoncePair, pair_eq}
use coupery_ksnf.Transcript.{RootContext, MemberRecord, RootPrepackage}
use coupery_ksnf.Transcript.Body.{record_eq}
use coupery_ksnf.Transcript.Root.{context_eq, prepackage_eq}

module _ (P : Profile) where
  record_eq-same : (r s : MemberRecord P) → record_eq P r s ≡ true → r ≡ s
  record_eq-same r s h =
      ground (arith, P.element_eq_iff r.member s.member, P.scalar_eq_iff r.commitment s.commitment)

  records_same : (rs ss : List (MemberRecord P)) → list_eq (record_eq P) rs ss ≡ true → rs ≡ ss
  records_same [] [] h = refl
  records_same [] (s ∷ ss) h = ground arith
  records_same (r ∷ rs) [] h = ground arith
  records_same (r ∷ rs) (s ∷ ss) h = ground (arith, record_eq-same r s, records_same rs ss)

  context_eq-same : (a b : RootContext) → context_eq P a b ≡ true → a ≡ b
  context_eq-same a b h = ground arith

  pub prepackage_eq-same : (p q : RootPrepackage P) → prepackage_eq P p q ≡ true → p ≡ q
  unfolding prepackage_eq
  prepackage_eq-same p q h =
      let context : p.context ≡ q.context = context_eq-same p.context q.context (ground arith) in
      ground (
        arith,
        P.element_eq_iff p.key q.key,
        bytes_eq_iff p.message q.message,
        context,
        records_same p.records q.records,
      )

  pub pair_eq-same : (a b : NoncePair P) → pair_eq P a b ≡ true → a ≡ b
  pair_eq-same a b h =
      ground (arith, P.element_eq_iff a.hiding b.hiding, P.element_eq_iff a.binding b.binding)
