-- ===== src/Transcript/BodyRoundTrip.antt =====
-- The member body and the opening, read back from their bytes.
use coupery_ksnf.Base.{
  ℕ, suc, ◌^◌, ◌<◌, ◌≡◌, refl, sym, ◌∙◌, ap, subst, true, false, List, [], ◌∷◌, ◌++◌, length, All,
  list_eq, arith, ◌==◌,
}
use coupery_ksnf.Order.{nat_key}
use coupery_ksnf.Outcome.{ok, >>=-passed, >>=-ok, ok-injective}
use coupery_ksnf.Profile.{Profile}
use coupery_ksnf.Encoding.{put_bytes, count_u16, concat_map}
use coupery_ksnf.Shamir.{node_new}
use coupery_ksnf.Support.{
  DeviceParticipant, InnerSupport, OuterSupport, inner_support, inner_coefficient,
  outer_coefficient,
}
use coupery_ksnf.Reader.{read_many, read_all}
use coupery_ksnf.Reader.Reads.{
  Reads, Reads-bind, Reads-last, Reads-end, Reads-reject, Reads-lift_bind, Reads-read_many,
  EachReads, Reads-read_all, Reads-give, Reads-get_bytes,
}
use coupery_ksnf.Reader.Elements.{
  CanonicalCodec, IsPoint, Reads-get_scalar, Reads-get_point, Reads-get_element,
  Reads-expect_version,
}
use coupery_ksnf.Transcript.{MemberBody, MemberOpening}
use coupery_ksnf.Transcript.Write.{
  encode_participant, encode_participants, body_to_bytes, opening_to_bytes,
}
use coupery_ksnf.Transcript.Read.{BodyFields, decode_participant, decode_body}
use coupery_ksnf.Transcript.Body.{
  body_new, participant_eq, participants_of, check_coefficients, accept_body, body_from_bytes,
}
use coupery_ksnf.Transcript.Frames.{decode_opening, opening_from_bytes}
use coupery_ksnf.Transcript.Reads.{
  EpochFits, Reads-id, Reads-u16, count_u16-passed, Reads-decode_key_epoch,
}

module _ (P : Profile) (c : CanonicalCodec P) where
  open P use {Scalar, Element}

  -- A device's identifier fits, and its node is not zero.
  abbrev pub DeviceFits : DeviceParticipant P → Type 0
  DeviceFits p = (p.device < 2 ^ 256) × (node_new P p.node ≡ ok p.node)

  Reads-decode_participant :
      (d : DeviceParticipant P × Scalar)
      → DeviceFits d.0
      → Reads (decode_participant P) (encode_participant P d) d
  unfolding decode_participant encode_participant
  Reads-decode_participant (p, coefficient) (device, node) =
      Reads-bind _ (Reads-id p.device device) (
        Reads-bind _ (Reads-get_scalar P c p.node) (
          Reads-lift_bind _ _ _ _ _ node (
            Reads-bind _ (Reads-get_element P c p.share)
              (Reads-end _ (Reads-get_scalar P c coefficient)))))

  -- The devices that `encode_participants` has written, with their coefficients.
  record Written (inner : InnerSupport P) (ps : List (DeviceParticipant P)) (bytes : List ℕ)
      : Type 0 where
    devices : List (DeviceParticipant P × Scalar)
    ordered : participants_of P devices ≡ ps
    spelled : concat_map (encode_participant P) devices ≡ bytes
    many : length devices ≡ length ps
    checked : check_coefficients P inner ps devices ≡ ok tt
    each : EachReads (decode_participant P) (encode_participant P) devices

  encode_participants-Written :
      (inner : InnerSupport P) (ps : List (DeviceParticipant P)) (bytes : List ℕ)
      → All DeviceFits ps
      → encode_participants P inner ps ≡ ok bytes
      → Written inner ps bytes
  unfolding encode_participants check_coefficients
  encode_participants-Written inner [] bytes fits h = record {
    devices = [];
    ordered = refl;
    spelled = ok-injective _ _ h;
    many = refl;
    checked = refl;
    each = tt;
  }
  encode_participants-Written inner (p ∷ ps) bytes (fit, fits) h =
      let (coefficient, found, h1) = >>=-passed (inner_coefficient P inner p.device) _ h in
      let (rest, later, h2) = >>=-passed (encode_participants P inner ps) _ h1 in
      let w = encode_participants-Written inner ps rest fits later in
      record {
        devices = (p, coefficient) ∷ w.devices;
        ordered = ap (λ qs. p ∷ qs) w.ordered;
        spelled =
            ap (λ l. encode_participant P (p, coefficient) ++ l) w.spelled ∙ ok-injective _ _ h2;
        many = ap suc w.many;
        checked = ground (arith, w.checked, (P.scalar_eq_iff coefficient coefficient).1 refl);
        each = (Reads-decode_participant (p, coefficient) fit, w.each);
      }

  Written-Reads :
      {inner : InnerSupport P} {ps : List (DeviceParticipant P)} {bytes : List ℕ} {count : ℕ}
      (w : Written inner ps bytes)
      → length ps ≡ count
      → Reads (read_many count (decode_participant P)) bytes w.devices
  Written-Reads {inner} {ps} {bytes} {count} w is =
      subst (λ l. Reads (read_many count (decode_participant P)) l w.devices) w.spelled
        (subst
          (λ n.
            Reads (read_many n (decode_participant P)) (concat_map (encode_participant P) w.devices)
              w.devices)
          (w.many ∙ is)
          (Reads-read_many (decode_participant P) (encode_participant P) w.devices w.each))

  -- What a body that was made, with the accepted outer support, and fits its fields has.
  pub record BodyFits (b : MemberBody P) (outer_support : OuterSupport P) : Type 0 where
    pub identity : IsPoint P b.identity
    pub member : IsPoint P b.member
    pub epoch : EpochFits b.epoch
    pub devices : All DeviceFits b.inner.participants
    pub person : b.outer.person < 2 ^ 256
    pub slot : b.outer.slot < 2 ^ 16
    pub filled : (length b.inner.participants == 0) ≡ false
    pub inner_made : inner_support P b.inner.participants ≡ ok b.inner
    pub outer_made : outer_coefficient P outer_support b.outer.person ≡ ok b.outer
    pub made : body_new P b.identity b.member b.epoch b.inner b.outer ≡ ok b

  participants_eq_self : (ps : List (DeviceParticipant P)) → list_eq (participant_eq P) ps ps ≡ true
  participants_eq_self [] = refl
  participants_eq_self (p ∷ ps) = ground (
    arith,
    (P.scalar_eq_iff p.node p.node).1 refl,
    (P.element_eq_iff p.share p.share).1 refl,
    participants_eq_self ps,
  )

  abbrev fields_of : MemberBody P → List (DeviceParticipant P × Scalar) → BodyFields P
  fields_of b devices = record {
    identity = b.identity;
    member = b.member;
    epoch = b.epoch;
    devices = devices;
    person = b.outer.person;
    slot = b.outer.slot;
    scalar = b.outer.scalar;
  }

  accept_body-fields :
      (b : MemberBody P) (outer_support : OuterSupport P)
      (devices : List (DeviceParticipant P × Scalar))
      → BodyFits b outer_support
      → participants_of P devices ≡ b.inner.participants
      → check_coefficients P b.inner b.inner.participants devices ≡ ok tt
      → accept_body P (fields_of b devices) outer_support ≡ ok b
  unfolding accept_body
  accept_body-fields b outer_support devices fits ordered checked =
      let inner_made = fits.inner_made in
      let outer_made = fits.outer_made in
      let made = fits.made in
      let same_list = participants_eq_self b.inner.participants in
      rw ordered (ground (arith, (P.scalar_eq_iff b.outer.scalar b.outer.scalar).1 refl))

  Reads-decode_body :
      (b : MemberBody P) (outer_support : OuterSupport P) (bytes : List ℕ)
      → BodyFits b outer_support
      → body_to_bytes P b ≡ ok bytes
      → (devices : List (DeviceParticipant P × Scalar)) × Reads
          (decode_body P)
          bytes
          (fields_of b devices)
        × (accept_body P (fields_of b devices) outer_support ≡ ok b)
  unfolding decode_body body_to_bytes
  Reads-decode_body b outer_support bytes fits h =
      let (count, counted, h1) = >>=-passed (count_u16 (length b.inner.participants)) _ h in
      let (devices, written, h2) =
        >>=-passed (encode_participants P b.inner b.inner.participants) _ h1 in
      let (short, is) = count_u16-passed (length b.inner.participants) count counted in
      let w =
        encode_participants-Written b.inner b.inner.participants devices fits.devices written in
      (
        w.devices,
        subst (λ l. Reads (decode_body P) l (fields_of b w.devices)) (ok-injective _ _ h2)
            (Reads-bind _ (Reads-expect_version P c) (
              Reads-bind _ (Reads-get_point P c b.identity fits.identity) (
                Reads-bind _ (Reads-get_point P c b.member fits.member) (
                  Reads-bind _ (Reads-decode_key_epoch b.epoch fits.epoch) (
                    Reads-bind _ (Reads-u16 count short) (
                      Reads-reject _ _ _ _ _ (ap (λ n. n == 0) (sym is) ∙ fits.filled) (
                        Reads-bind _ (Written-Reads w is) (
                          Reads-bind _ (Reads-id b.outer.person fits.person) (
                            Reads-bind _ (Reads-u16 b.outer.slot fits.slot)
                              (Reads-end _ (Reads-get_scalar P c b.outer.scalar))))))))))),
        accept_body-fields b outer_support w.devices fits w.ordered w.checked,
      )

  pub body_from_bytes-body_to_bytes :
      (b : MemberBody P) (outer_support : OuterSupport P) (bytes : List ℕ)
      → BodyFits b outer_support
      → body_to_bytes P b ≡ ok bytes
      → body_from_bytes P bytes outer_support ≡ ok b
  unfolding body_from_bytes
  body_from_bytes-body_to_bytes b outer_support bytes fits h =
      let (devices, reads, accepted) = Reads-decode_body b outer_support bytes fits h in
      >>=-ok (read_all (decode_body P) bytes) _ (Reads-read_all (decode_body P) bytes _ reads)
        accepted

  pub opening_from_bytes-opening_to_bytes :
      (o : MemberOpening P) (outer_support : OuterSupport P) (bytes : List ℕ)
      → BodyFits o.body outer_support
      → opening_to_bytes P o ≡ ok bytes
      → opening_from_bytes P bytes outer_support ≡ ok o
  unfolding opening_from_bytes opening_to_bytes decode_opening
  opening_from_bytes-opening_to_bytes o outer_support bytes fits h =
      let (body, written, h1) = >>=-passed (body_to_bytes P o.body) _ h in
      let (wrapped, framed, h2) = >>=-passed (put_bytes body) _ h1 in
      Reads-read_all _ bytes o (
        subst (λ l. Reads (decode_opening P outer_support) l o) (ok-injective _ _ h2)
          (Reads-bind _ (Reads-expect_version P c) (
            Reads-bind _ (Reads-get_scalar P c o.salt) (
              Reads-last _ (Reads-get_bytes body wrapped framed) (
                Reads-lift_bind _ _ _ _ _
                  (body_from_bytes-body_to_bytes o.body outer_support body fits written)
                  (Reads-give o))))))
