-- ===== src/Transcript/ReservationRoundTrip.antt =====
-- A reservation made by its constructors, read back from its bytes.
use coupery_ksnf.Base.{
  ℕ, ◌^◌, ◌<◌, ◌≡◌, refl, sym, ◌∙◌, ap, subst, List, [], ◌∷◌, length, All, arith, ◌==◌,
}
use coupery_ksnf.Order.{nat_key}
use coupery_ksnf.Sort.{sort_by_key}
use coupery_ksnf.Sort.Increasing.{Increasing, sort_by_key-All, length-sort_by_key}
use coupery_ksnf.Sort.Distinct.{sort_by_key-has_adjacent}
use coupery_ksnf.Outcome.{
  ok, >>=-passed, >>=-ok, fail_if-passed, ok-injective, empty_input, duplicate_slot,
}
use coupery_ksnf.Profile.{Profile}
use coupery_ksnf.Encoding.{put_bytes}
use coupery_ksnf.Support.{
  DeviceParticipant, OuterSupport, inner_support, outer_coefficient, is_empty,
}
use coupery_ksnf.Support.Order.{inner_support-again, inner_support-All, inner_support-filled}
use coupery_ksnf.Signing.{has_adjacent}
use coupery_ksnf.Reader.{read_all}
use coupery_ksnf.Reader.Reads.{
  Reads, Reads-bind, Reads-end, Reads-lift_bind, Reads-read_all, Reads-get_bytes,
}
use coupery_ksnf.Reader.Elements.{CanonicalCodec, IsPoint, Reads-expect_version}
use coupery_ksnf.Transcript.{MemberRecord, MemberBody, RootPrepackage, MemberReservation}
use coupery_ksnf.Transcript.Write.{prepackage_to_bytes, opening_to_bytes, reservation_to_bytes}
use coupery_ksnf.Transcript.Body.{body_new}
use coupery_ksnf.Transcript.Root.{validate_records, prepackage_new}
use coupery_ksnf.Transcript.Frames.{ReservationFields, decode_reservation}
use coupery_ksnf.Transcript.Reservation.{reservation_new, accept_fields, reservation_from_bytes}
use coupery_ksnf.Transcript.Reads.{
  ContextFits, EpochFits, RecordFits, Reads-id, Reads-u16, Reads-u64,
}
use coupery_ksnf.Transcript.RootRoundTrip.{
  PrepackageFits, prepackage_from_bytes-prepackage_to_bytes,
}
use coupery_ksnf.Transcript.BodyRoundTrip.{
  DeviceFits, BodyFits, opening_from_bytes-opening_to_bytes,
}

module _ (P : Profile) (c : CanonicalCodec P) (outer_support : OuterSupport P) where
  -- `RootPrepackage::new` made the prepackage, of fields that fit their widths.
  pub record PrepackageMade (p : RootPrepackage P) : Type 0 where
    pub given : List (MemberRecord P)
    pub made : prepackage_new P p.key p.message p.context outer_support given ≡ ok p
    pub key : IsPoint P p.key
    pub context : ContextFits p.context
    pub records : All (RecordFits P c) given

  -- `MemberBody::new` made the body of an inner support that `InnerSupport::new` made and of the
  -- outer support's coefficient, of fields that fit their widths.
  pub record BodyMade (b : MemberBody P) : Type 0 where
    pub given : List (DeviceParticipant P)
    pub inner_made : inner_support P given ≡ ok b.inner
    pub outer_made : outer_coefficient P outer_support b.outer.person ≡ ok b.outer
    pub made : body_new P b.identity b.member b.epoch b.inner b.outer ≡ ok b
    pub identity : IsPoint P b.identity
    pub member : IsPoint P b.member
    pub epoch : EpochFits b.epoch
    pub devices : All (DeviceFits P c) given
    pub person : b.outer.person < 2 ^ 256
    pub slot : b.outer.slot < 2 ^ 16

  is_empty-length : {A : Type 0} (xs : List A) → is_empty P xs ≡ (length xs == 0)
  is_empty-length [] = refl
  is_empty-length (x ∷ xs) = ground arith

  pub PrepackageMade-Fits : (p : RootPrepackage P) → PrepackageMade p → PrepackageFits P c p
  unfolding prepackage_new
  PrepackageMade-Fits p k =
      let records = sort_by_key (λ r. r.slot) k.given in
      let (filled, h1) = fail_if-passed (is_empty P k.given) empty_input _ k.made in
      let (apart, h2) = fail_if-passed (has_adjacent P (λ r. r.slot) records) duplicate_slot _ h1 in
      let (u, valid, h3) = >>=-passed (validate_records P records outer_support) _ h2 in
      let q : RootPrepackage P = record p { records = records } in
      let (bytes, written, h4) = >>=-passed (prepackage_to_bytes P q) _ h3 in
      let is : records ≡ p.records = ap (λ x. x.records) (ok-injective q p h4) in
      record {
        key = k.key;
        context = k.context;
        records =
            subst (All (RecordFits P c)) is
              (sort_by_key-All (λ r. r.slot) (RecordFits P c) k.given k.records);
        sorted =
            subst (Increasing (λ r. r.slot)) is
              (sort_by_key-has_adjacent P (λ r. r.slot) k.given apart);
        filled =
            ap (λ rs. length rs == 0) (sym is)
            ∙ ap (λ n. n == 0) (length-sort_by_key (λ r. r.slot) k.given)
            ∙ sym (is_empty-length k.given)
            ∙ filled;
      }

  pub BodyMade-Fits : (b : MemberBody P) → BodyMade b → BodyFits P c b outer_support
  BodyMade-Fits b k = record {
    identity = k.identity;
    member = k.member;
    epoch = k.epoch;
    devices = inner_support-All P (DeviceFits P c) k.given b.inner k.inner_made k.devices;
    person = k.person;
    slot = k.slot;
    filled =
        sym (is_empty-length b.inner.participants)
        ∙ inner_support-filled P k.given b.inner k.inner_made;
    inner_made = inner_support-again P k.given b.inner k.inner_made;
    outer_made = k.outer_made;
    made = k.made;
  }

  abbrev fields_of : MemberReservation P → ℕ → ℕ → ReservationFields P
  fields_of r session expiry = record {
    prepackage = r.prepackage;
    slot = r.opening.body.outer.slot;
    opening = r.opening;
    session = session;
    expiry = expiry;
  }

  Reads-decode_reservation :
      (r : MemberReservation P) (session expiry : ℕ) (bytes : List ℕ)
      → PrepackageMade r.prepackage
      → BodyMade r.opening.body
      → session < 2 ^ 256
      → expiry < 2 ^ 64
      → reservation_to_bytes P r session expiry ≡ ok bytes
      → Reads (decode_reservation P outer_support) bytes (fields_of r session expiry)
  unfolding decode_reservation reservation_to_bytes
  Reads-decode_reservation r session expiry bytes public private session_lt expiry_lt h =
      let (prepackage, w1, h1) = >>=-passed (prepackage_to_bytes P r.prepackage) _ h in
      let (framed, f1, h2) = >>=-passed (put_bytes prepackage) _ h1 in
      let (opening, w2, h3) = >>=-passed (opening_to_bytes P r.opening) _ h2 in
      let (wrapped, f2, h4) = >>=-passed (put_bytes opening) _ h3 in
      let parsed =
        prepackage_from_bytes-prepackage_to_bytes P c r.prepackage prepackage
          (PrepackageMade-Fits r.prepackage public) w1 in
      let opened =
        opening_from_bytes-opening_to_bytes P c r.opening outer_support opening
          (BodyMade-Fits r.opening.body private) w2 in
      subst (λ l. Reads (decode_reservation P outer_support) l (fields_of r session expiry))
        (ok-injective _ _ h4)
        (Reads-bind _ (Reads-expect_version P c) (
          Reads-bind _ (Reads-get_bytes prepackage framed f1) (
            Reads-lift_bind _ _ _ _ _ parsed (
              Reads-bind _ (Reads-u16 r.opening.body.outer.slot private.slot) (
                Reads-bind _ (Reads-get_bytes opening wrapped f2) (
                  Reads-lift_bind _ _ _ _ _ opened (
                    Reads-bind _ (Reads-id session session_lt)
                      (Reads-end _ (Reads-u64 expiry expiry_lt)))))))))

  -- A reservation that the constructors made, of fields that fit their widths, is what its bytes
  -- parse to, with the session and the expiry: nothing that it holds is lost or changed on the way
  -- through the two framed parts, and every check of the parser passes.
  pub reservation_from_bytes-reservation_to_bytes :
      (r : MemberReservation P) (session expiry : ℕ) (bytes : List ℕ)
      → PrepackageMade r.prepackage
      → BodyMade r.opening.body
      → reservation_new P r.prepackage r.opening outer_support ≡ ok r
      → session < 2 ^ 256
      → expiry < 2 ^ 64
      → reservation_to_bytes P r session expiry ≡ ok bytes
      → reservation_from_bytes P bytes outer_support ≡ ok (r, (session, expiry))
  unfolding reservation_from_bytes accept_fields
  reservation_from_bytes-reservation_to_bytes r session expiry bytes public private made session_lt
        expiry_lt h =
      >>=-ok (read_all (decode_reservation P outer_support) bytes) _
        (Reads-read_all _ bytes (fields_of r session expiry)
          (Reads-decode_reservation r session expiry bytes public private session_lt expiry_lt h))
        (ground (arith, made))
