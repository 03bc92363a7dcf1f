-- ===== src/Transcript/RootRoundTrip.antt =====
-- The root prepackage and the root package, read back from their bytes.
use coupery_ksnf.Base.{
  ℕ, ◌≡◌, refl, sym, ◌∙◌, ap, subst, false, List, [], ◌∷◌, length, All, map, arith, ◌==◌,
}
use coupery_ksnf.Order.{nat_key}
use coupery_ksnf.Sort.Increasing.{Increasing}
use coupery_ksnf.Outcome.{ok, >>=-passed, >>=-ok, ok-injective}
use coupery_ksnf.Profile.{Profile}
use coupery_ksnf.Encoding.{count_u16, concat_map}
use coupery_ksnf.Signing.{NoncePair}
use coupery_ksnf.Reader.{read_many, read_all}
use coupery_ksnf.Reader.Reads.{
  Reads, Reads-bind, Reads-end, Reads-reject, Reads-read_many, EachReads, Reads-read_all,
  Reads-give,
}
use coupery_ksnf.Reader.Elements.{CanonicalCodec, IsPoint}
use coupery_ksnf.Transcript.{MemberRecord, RootEntry, RootPrepackage, RootPackage}
use coupery_ksnf.Transcript.Write.{
  encode_record, encode_public, records_of, encode_root_prefix, prepackage_to_bytes,
  package_to_bytes,
}
use coupery_ksnf.Transcript.Read.{
  decode_record, decode_public, decode_entries, decode_prepackage, decode_package,
}
use coupery_ksnf.Transcript.Order.{ensure_sorted_iff}
use coupery_ksnf.Transcript.Root.{prepackage_from_bytes, package_from_bytes}
use coupery_ksnf.Transcript.Reads.{
  ContextFits, RecordFits, EntryFits, Reads-u16, count_u16-passed, Reads-decode_record,
  Reads-decode_public, Reads-decode_root_prefix,
}

module _ (P : Profile) (c : CanonicalCodec P) where
  open P use {Scalar, Element}

  EachReads-records :
      (rs : List (MemberRecord P))
      → All (RecordFits P c) rs
      → EachReads (decode_record P) (encode_record P) rs
  EachReads-records [] h = tt
  EachReads-records (r ∷ rs) (fits, rest) =
      (Reads-decode_record P c r fits, EachReads-records rs rest)

  -- What a prepackage that was made and fits the widths of its fields has.
  pub record PrepackageFits (p : RootPrepackage P) : Type 0 where
    pub key : IsPoint P p.key
    pub context : ContextFits p.context
    pub records : All (RecordFits P c) p.records
    pub sorted : Increasing (λ r. r.slot) p.records
    pub filled : (length p.records == 0) ≡ false

  Reads-decode_prepackage :
      (p : RootPrepackage P) (bytes : List ℕ)
      → PrepackageFits p
      → prepackage_to_bytes P p ≡ ok bytes
      → Reads (decode_prepackage P) bytes p
  unfolding decode_prepackage prepackage_to_bytes
  Reads-decode_prepackage p bytes fits h =
      let (prefix, made, h1) = >>=-passed (encode_root_prefix P p.key p.message p.context) _ h in
      let (count, counted, h2) = >>=-passed (count_u16 (length p.records)) _ h1 in
      let (short, is) = count_u16-passed (length p.records) count counted in
      subst (λ l. Reads (decode_prepackage P) l p) (ok-injective _ _ h2)
        (Reads-bind _
          (Reads-decode_root_prefix P c p.key p.message p.context prefix fits.key fits.context made)
          (Reads-bind _ (Reads-u16 count short) (
            Reads-reject _ _ _ _ _ (ap (λ n. n == 0) (sym is) ∙ fits.filled) (
              Reads-end _ (
                subst
                  (λ n.
                    Reads (read_many n (decode_record P)) (concat_map (encode_record P) p.records)
                      p.records)
                  is
                  (Reads-read_many (decode_record P) (encode_record P) p.records
                    (EachReads-records p.records fits.records)))))))

  pub prepackage_from_bytes-prepackage_to_bytes :
      (p : RootPrepackage P) (bytes : List ℕ)
      → PrepackageFits p
      → prepackage_to_bytes P p ≡ ok bytes
      → prepackage_from_bytes P bytes ≡ ok p
  unfolding prepackage_from_bytes
  prepackage_from_bytes-prepackage_to_bytes p bytes fits h =
      >>=-ok (read_all (decode_prepackage P) bytes) _
        (Reads-read_all (decode_prepackage P) bytes p (Reads-decode_prepackage p bytes fits h))
        (ground (arith, (ensure_sorted_iff (λ r. r.slot) p.records).1 fits.sorted))

  public_of : RootEntry P → ℕ × (Element × NoncePair P)
  public_of e = (e.committed.slot, (e.committed.member, e.nonce))

  Reads-publics :
      (es : List (RootEntry P))
      → All (EntryFits P c) es
      → Reads
          (read_many (length es) (decode_public P))
          (concat_map (encode_public P) es)
          (map public_of es)
  unfolding read_many public_of
  Reads-publics [] h = Reads-give []
  Reads-publics (e ∷ es) (fits, rest) =
      Reads-bind _ (Reads-decode_public P c e fits)
        (Reads-end (λ ys. public_of e ∷ ys) (Reads-publics es rest))

  Reads-decode_entries :
      (es : List (RootEntry P))
      → All (EntryFits P c) es
      → Reads
          (decode_entries P (map public_of es))
          (concat_map (encode_record P) (records_of P es))
          es
  unfolding decode_entries public_of
  Reads-decode_entries [] h = Reads-give []
  Reads-decode_entries (e ∷ es) ((fits, hiding, binding), rest) =
      Reads-bind _ (Reads-decode_record P c e.committed fits) (
        Reads-reject _ _ _ _ _
          (ground (arith, (P.element_eq_iff e.committed.member e.committed.member).1 refl))
          (Reads-end (λ ys. e ∷ ys) (Reads-decode_entries es rest)))

  -- What a package that was made and fits the widths of its fields has.
  pub record PackageFits (p : RootPackage P) : Type 0 where
    pub key : IsPoint P p.key
    pub context : ContextFits p.context
    pub entries : All (EntryFits P c) p.entries
    pub sorted : Increasing (λ e. e.committed.slot) p.entries
    pub filled : (length p.entries == 0) ≡ false

  Reads-decode_package :
      (p : RootPackage P) (bytes : List ℕ)
      → PackageFits p
      → package_to_bytes P p ≡ ok bytes
      → Reads (decode_package P) bytes p
  unfolding decode_package package_to_bytes
  Reads-decode_package p bytes fits h =
      let (prefix, made, h1) = >>=-passed (encode_root_prefix P p.key p.message p.context) _ h in
      let (count, counted, h2) = >>=-passed (count_u16 (length p.entries)) _ h1 in
      let (short, is) = count_u16-passed (length p.entries) count counted in
      subst (λ l. Reads (decode_package P) l p) (ok-injective _ _ h2)
        (Reads-bind _
          (Reads-decode_root_prefix P c p.key p.message p.context prefix fits.key fits.context made)
          (Reads-bind _ (Reads-u16 count short) (
            Reads-reject _ _ _ _ _ (ap (λ n. n == 0) (sym is) ∙ fits.filled) (
              Reads-bind _
                (subst
                  (λ n.
                    Reads (read_many n (decode_public P)) (concat_map (encode_public P) p.entries)
                      (map public_of p.entries))
                  is (Reads-publics p.entries fits.entries))
                (Reads-bind _ (Reads-u16 count short) (
                  Reads-reject _ _ _ _ _ (ground arith)
                    (Reads-end _ (Reads-decode_entries p.entries fits.entries))))))))

  pub package_from_bytes-package_to_bytes :
      (p : RootPackage P) (bytes : List ℕ)
      → PackageFits p
      → package_to_bytes P p ≡ ok bytes
      → package_from_bytes P bytes ≡ ok p
  unfolding package_from_bytes
  package_from_bytes-package_to_bytes p bytes fits h =
      >>=-ok (read_all (decode_package P) bytes) _
        (Reads-read_all (decode_package P) bytes p (Reads-decode_package p bytes fits h))
        (ground (arith, (ensure_sorted_iff (λ e. e.committed.slot) p.entries).1 fits.sorted))
