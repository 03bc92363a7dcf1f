-- ===== src/Transcript/Finalize.antt =====
-- `RootPackage::finalize` of transcript.rs: the package keeps its prepackage, reads back from its
-- bytes, and is what the transcript of a reservation of that prepackage accepts.
use coupery_ksnf.Base.{
  ℕ, suc, ◌<◌, ◌≡◌, refl, sym, ◌∙◌, ap, subst, true, not, List, [], ◌∷◌, length, All, list_eq,
  arith, ◌==◌,
}
use coupery_ksnf.Order.{nat_key}
use coupery_ksnf.Sort.{sort_by_key}
use coupery_ksnf.Sort.Increasing.{Increasing, sort_by_key-All}
use coupery_ksnf.Outcome.{
  ok, >>=-passed, fail_if-passed, ok-injective, support_mismatch, duplicate_slot, empty_input,
}
use coupery_ksnf.Profile.{Profile}
use coupery_ksnf.Auth.{bytes_eq_iff}
use coupery_ksnf.Support.{OuterSupport, is_empty}
use coupery_ksnf.Sort.Distinct.{sort_by_key-has_adjacent}
use coupery_ksnf.Signing.{has_adjacent}
use coupery_ksnf.Reader.Elements.{CanonicalCodec, IsPoint}
use coupery_ksnf.Transcript.{
  RootContext, MemberRecord, RootEntry, MemberNonce, RootPrepackage, RootPackage, MemberReservation,
}
use coupery_ksnf.Transcript.Write.{records_of, prepackage_to_bytes, package_to_bytes}
use coupery_ksnf.Transcript.Body.{record_eq}
use coupery_ksnf.Transcript.Root.{
  validate_records, prepackage_new, join_nonces, package_finalize, package_from_bytes,
  package_prepackage, prepackage_eq,
}
use coupery_ksnf.Transcript.Reservation.{transcript_finalize}
use coupery_ksnf.Transcript.Reads.{ContextFits, RecordFits, EntryFits}
use coupery_ksnf.Transcript.RootRoundTrip.{package_from_bytes-package_to_bytes}
use coupery_ksnf.Transcript.ReservationRoundTrip.{PrepackageMade, PrepackageMade-Fits}

module _ (P : Profile) where
  -- The entries that `join_nonces` makes.
  join_nonces-records :
      (rs : List (MemberRecord P)) (ns : List (MemberNonce P)) (es : List (RootEntry P))
      → length ns ≡ length rs
      → join_nonces P rs ns ≡ ok es
      → records_of P es ≡ rs
  unfolding join_nonces
  join_nonces-records [] ns es many h = ap (records_of P) (sym (ok-injective _ _ h))
  join_nonces-records (r ∷ rs) [] es many h = absurd (omega (arith, many))
  join_nonces-records (r ∷ rs) (n ∷ ns) es many h =
      let (same, h1) = fail_if-passed (not (r.slot == n.slot)) support_mismatch _ h in
      let (later, joined, h2) = >>=-passed (join_nonces P rs ns) _ h1 in
      ap (records_of P) (sym (ok-injective _ _ h2))
      ∙ ap (λ l. r ∷ l) (join_nonces-records rs ns later (omega (arith, many)) joined)

  abbrev pub NonceFits : MemberNonce P → Type 0
  NonceFits n = IsPoint P n.nonce.hiding × IsPoint P n.nonce.binding

  -- What `finalize` has found, and the package that it makes.
  record Finalized (prepackage : RootPrepackage P) (given : List (MemberNonce P))
      (root : RootPackage P) : Type 0 where
    many : length (sort_by_key (λ n. n.slot) given) ≡ length prepackage.records
    joined : join_nonces P prepackage.records (sort_by_key (λ n. n.slot) given) ≡ ok root.entries
    kept : package_prepackage P root ≡ prepackage

  package_finalize-Finalized :
      (prepackage : RootPrepackage P) (support : OuterSupport P) (given : List (MemberNonce P))
      (root : RootPackage P)
      → package_finalize P prepackage support given ≡ ok root
      → Finalized prepackage given root
  unfolding package_finalize
  package_finalize-Finalized prepackage support given root h =
      let nonces = sort_by_key (λ n. n.slot) given in
      let (u, valid, h1) = >>=-passed (validate_records P prepackage.records support) _ h in
      let (many, h2) =
        fail_if-passed (not (length nonces == length prepackage.records)) support_mismatch _ h1 in
      let (apart, h3) = fail_if-passed (has_adjacent P (λ n. n.slot) nonces) duplicate_slot _ h2 in
      let (entries, joined, h4) = >>=-passed (join_nonces P prepackage.records nonces) _ h3 in
      let q : RootPackage P = record {
        key = prepackage.key;
        message = prepackage.message;
        context = prepackage.context;
        entries = entries;
      } in
      let (bytes, written, h5) = >>=-passed (package_to_bytes P q) _ h4 in
      let same : length nonces ≡ length prepackage.records = ground arith in
      subst (Finalized prepackage given) (ok-injective q root h5) (record {
        many = same;
        joined = joined;
        kept =
            ap (λ rs. record prepackage { records = rs })
              (join_nonces-records prepackage.records nonces entries same joined);
      })

  records_eq_self : (rs : List (MemberRecord P)) → list_eq (record_eq P) rs rs ≡ true
  records_eq_self [] = refl
  records_eq_self (r ∷ rs) = ground (
    arith,
    (P.element_eq_iff r.member r.member).1 refl,
    (P.scalar_eq_iff r.commitment r.commitment).1 refl,
    records_eq_self rs,
  )

  prepackage_eq_self : (p : RootPrepackage P) → prepackage_eq P p p ≡ true
  unfolding prepackage_eq
  prepackage_eq_self p = ground (
    arith,
    (P.element_eq_iff p.key p.key).1 refl,
    (bytes_eq_iff p.message p.message).1 refl,
    records_eq_self p.records,
  )

  -- A package that `finalize` makes of a reservation's prepackage has that prepackage, and the
  -- transcript of the reservation accepts it.
  pub package_finalize-transcript :
      (reservation : MemberReservation P) (support : OuterSupport P) (given : List (MemberNonce P))
      (root : RootPackage P)
      → package_finalize P reservation.prepackage support given ≡ ok root
      → (package_prepackage P root ≡ reservation.prepackage)
        × (transcript_finalize P root reservation
            ≡ ok (record { root = root; opening = reservation.opening }))
  unfolding transcript_finalize
  package_finalize-transcript reservation support given root h =
      let kept = (package_finalize-Finalized reservation.prepackage support given root h).kept in
      let same : prepackage_eq P (package_prepackage P root) reservation.prepackage ≡ true =
        ap (λ q. prepackage_eq P q reservation.prepackage) kept
        ∙ prepackage_eq_self reservation.prepackage in
      (kept, ground (arith, same))

  All-records :
      (n : ℕ) (es : List (RootEntry P))
      → All (λ r. n < r.slot) (records_of P es)
      → All (λ d. n < d.committed.slot) es
  All-records n [] h = tt
  All-records n (d ∷ ds) (lt, rest) = (lt, All-records n ds rest)

  Increasing-records :
      (es : List (RootEntry P))
      → Increasing (λ r. r.slot) (records_of P es)
      → Increasing (λ e. e.committed.slot) es
  Increasing-records [] h = tt
  Increasing-records (e ∷ es) (above, later) =
      (All-records e.committed.slot es above, Increasing-records es later)

  -- A package that `finalize` makes of what `RootPrepackage::new` made has increasing slots, and its
  -- records are those of the support.
  pub package_finalize-Increasing :
      (key : P.Element) (message : List ℕ) (context : RootContext) (support : OuterSupport P)
      (records : List (MemberRecord P)) (prepackage : RootPrepackage P)
      (given : List (MemberNonce P)) (root : RootPackage P)
      → prepackage_new P key message context support records ≡ ok prepackage
      → package_finalize P prepackage support given ≡ ok root
      → Increasing (λ e. e.committed.slot) root.entries
        × (validate_records P (records_of P root.entries) support ≡ ok tt)
  unfolding prepackage_new package_finalize
  package_finalize-Increasing key message context support records prepackage given root made h =
      let sorted = sort_by_key (λ r. r.slot) records in
      let (filled, h1) = fail_if-passed (is_empty P records) empty_input _ made in
      let (apart, h2) = fail_if-passed (has_adjacent P (λ r. r.slot) sorted) duplicate_slot _ h1 in
      let (u, valid, h3) = >>=-passed (validate_records P sorted support) _ h2 in
      let q : RootPrepackage P = record {
        key = key;
        message = message;
        context = context;
        records = sorted;
      } in
      let (bytes, written, h4) = >>=-passed (prepackage_to_bytes P q) _ h3 in
      let kept =
        ap (λ x. x.records) (package_finalize-Finalized prepackage support given root h).kept in
      let is = ap (λ x. x.records) (ok-injective q prepackage h4) ∙ sym kept in
      (
        Increasing-records root.entries (
            subst (Increasing (λ r. r.slot)) is
              (sort_by_key-has_adjacent P (λ r. r.slot) records apart)),
        subst (λ rs. validate_records P rs support ≡ ok tt) is valid,
      )

  module _ (c : CanonicalCodec P) where
    join_nonces-All :
        (rs : List (MemberRecord P)) (ns : List (MemberNonce P)) (es : List (RootEntry P))
        → All (RecordFits P c) rs
        → All NonceFits ns
        → join_nonces P rs ns ≡ ok es
        → All (EntryFits P c) es
    unfolding join_nonces
    join_nonces-All [] ns es rfits nfits h = subst (All (EntryFits P c)) (ok-injective _ _ h) tt
    join_nonces-All (r ∷ rs) [] es rfits nfits h =
        subst (All (EntryFits P c)) (ok-injective _ _ h) tt
    join_nonces-All (r ∷ rs) (n ∷ ns) es (rfit, rfits) ((hiding, binding), nfits) h =
        let (same, h1) = fail_if-passed (not (r.slot == n.slot)) support_mismatch _ h in
        let (later, joined, h2) = >>=-passed (join_nonces P rs ns) _ h1 in
        subst (All (EntryFits P c)) (ok-injective _ _ h2)
          ((rfit, hiding, binding), join_nonces-All rs ns later rfits nfits joined)

    length-records : (es : List (RootEntry P)) → length (records_of P es) ≡ length es
    length-records [] = refl
    length-records (e ∷ es) = ap suc (length-records es)

    -- A package that `finalize` makes, of a prepackage and nonces that the constructors made and
    -- that fit their widths, is what its bytes parse to.
    pub package_from_bytes-package_finalize :
        (prepackage : RootPrepackage P) (support : OuterSupport P) (given : List (MemberNonce P))
        (root : RootPackage P) (bytes : List ℕ)
        → PrepackageMade P c support prepackage
        → All NonceFits given
        → package_finalize P prepackage support given ≡ ok root
        → package_to_bytes P root ≡ ok bytes
        → package_from_bytes P bytes ≡ ok root
    package_from_bytes-package_finalize prepackage support given root bytes public nonces made h =
        let f = package_finalize-Finalized prepackage support given root made in
        let fits = PrepackageMade-Fits P c support prepackage public in
        let records = ap (λ q. q.records) f.kept in
        package_from_bytes-package_to_bytes P c root bytes
          (record {
            key = subst (IsPoint P) (sym (ap (λ q. q.key) f.kept)) fits.key;
            context = subst ContextFits (sym (ap (λ q. q.context) f.kept)) fits.context;
            entries =
                join_nonces-All prepackage.records _ root.entries fits.records
                  (sort_by_key-All (λ n. n.slot) NonceFits given nonces) f.joined;
            sorted =
                Increasing-records root.entries
                  (subst (Increasing (λ r. r.slot)) (sym records) fits.sorted);
            filled =
                ap (λ n. n == 0) (sym (length-records root.entries))
                ∙ ap (λ rs. length rs == 0) records
                ∙ fits.filled;
          })
          h
