-- ===== src/Leaf/Wire.antt =====
-- `reserve` and `respond` of leaf.rs: `reserve_with` and `respond_with` with their closures, which
-- parse the bytes of transcript.rs and answer by signing.rs.
use coupery_ksnf.Base.{ℕ, ◌≡◌, sym, ◌∙◌, ap, not, none, some, List, arith}
use coupery_ksnf.Order.{nat_key}
use coupery_ksnf.Outcome.{
  Result, ok, ◌>>=◌, ◌>>◌, fail_if, >>=-passed, fail_if-passed, ok-injective, invalid_transcript,
}
use coupery_ksnf.Types.{LeafAttempt, KeyEpoch}
use coupery_ksnf.Profile.{Profile}
use coupery_ksnf.Auth.{bytes_eq, bytes_eq_iff}
use coupery_ksnf.Support.{OuterSupport}
use coupery_ksnf.Signing.{DeviceNonceSet, DeviceResponse}
use coupery_ksnf.Signing.Context.{signing_context}
use coupery_ksnf.Signing.Respond.{
  respond_device, validate_member_inputs, package_eq, nonces_validate_support,
}
use coupery_ksnf.Transcript.Equal.{pair_eq-same, prepackage_eq-same}
use coupery_ksnf.Transcript.{
  MemberReservation, RootPackage, RootEntry, MemberTranscript, SigningContext,
}
use coupery_ksnf.Transcript.Write.{package_to_bytes, reservation_to_bytes}
use coupery_ksnf.Transcript.Root.{
  package_from_bytes, package_prepackage, package_entry, prepackage_eq,
}
use coupery_ksnf.Transcript.Reservation.{reservation_from_bytes, transcript_finalize}
use coupery_ksnf.Leaf.State.{LeafRegistry, Live, plain, plain_binding}
use coupery_ksnf.Leaf.Session.{ResponseInputs, respond_with}
use coupery_ksnf.Shamir.{signing_share}
use coupery_ksnf.Leaf.Reserve.{reserve_with}
use coupery_ksnf.Leaf.Install.{DeviceGenesisParts, new}
use coupery_ksnf.Leaf.History.{Reach}
use coupery_ksnf.Leaf.Answers.{Prepared, respond_with-Prepared}
use coupery_ksnf.Leaf.Attempts.{Opening, reserve_with-Opening}

module _ (P : Profile) where
  -- The closure of `reserve`.
  unfoldable pub parse_reservation : List ℕ → OuterSupport P → Result (MemberReservation P × ℕ × ℕ)
  parse_reservation bytes outer_support = do
    (reservation, (session, expiry)) ← reservation_from_bytes P bytes outer_support
    spelled ← reservation_to_bytes P reservation session expiry
    fail_if (not (bytes_eq spelled bytes)) invalid_transcript
    ok (reservation, session, expiry)

  -- `LeafRegistry::reserve`
  unfoldable pub reserve :
      LeafRegistry P → ℕ → ℕ → List ℕ → OuterSupport P → Result LeafAttempt × LeafRegistry P
  reserve r session now bytes outer_support =
      reserve_with P r session now bytes plain_binding outer_support
        (parse_reservation bytes outer_support)

  -- The closure of `respond`.
  unfoldable pub answer_root : List ℕ → ResponseInputs P → List ℕ → Result (DeviceResponse P)
  answer_root root_bytes input _ = do
    root ← package_from_bytes P root_bytes
    spelled ← package_to_bytes P root
    fail_if (not (bytes_eq spelled root_bytes)) invalid_transcript
    transcript ← transcript_finalize P root input.reservation
    signing ← signing_context P transcript.root
    respond_device P input.nonce transcript signing input.nonces input.device input.share

  -- `LeafRegistry::respond`
  unfoldable pub respond :
      LeafRegistry P → LeafAttempt → List ℕ → Result (DeviceResponse P) × LeafRegistry P
  respond r attempt root_bytes = respond_with P r attempt plain (answer_root root_bytes)

  -- A reservation that was parsed is spelled by its bytes.
  parse_reservation-spelled :
      (bytes : List ℕ) (outer_support : OuterSupport P) (reservation : MemberReservation P)
      (session expiry : ℕ)
      → parse_reservation bytes outer_support ≡ ok (reservation, session, expiry)
      → (reservation_from_bytes P bytes outer_support ≡ ok (reservation, (session, expiry)))
        × (reservation_to_bytes P reservation session expiry ≡ ok bytes)
  unfolding parse_reservation
  parse_reservation-spelled bytes outer_support reservation session expiry h =
      let (p, read, h1) = >>=-passed (reservation_from_bytes P bytes outer_support) _ h in
      let (spelled, written, h2) = >>=-passed (reservation_to_bytes P p.0 p.1.0 p.1.1) _ h1 in
      let (same, h3) = fail_if-passed (not (bytes_eq spelled bytes)) invalid_transcript _ h2 in
      let is = ok-injective _ _ h3 in
      (
        read ∙ ap (λ q. ok (q.0, (q.1, q.2))) is,
        ap (λ q. reservation_to_bytes P q.0 q.1 q.2) (sym is)
            ∙ written
            ∙ ap ok ((bytes_eq_iff spelled bytes).0 (ground arith)),
      )

  -- What a reservation by `reserve` has established.
  pub record Reserved (r r1 : LeafRegistry P) (a : LeafAttempt) (session now : ℕ) (bytes : List ℕ)
      (outer : OuterSupport P) : Type 0 where
    pub opening :
        Opening P r r1 a session now bytes plain_binding outer (parse_reservation bytes outer)
    pub read :
        reservation_from_bytes P bytes outer ≡ ok (opening.reservation, (session, opening.expiry))
    pub spelled : reservation_to_bytes P opening.reservation session opening.expiry ≡ ok bytes

  -- If an idle registry accepts a reservation by `reserve`, then the bytes are those of one
  -- reservation, of the session and of an expiry after now: they parse to it and it is spelled by
  -- them. It fits the registry, takes the next number and becomes the live attempt.
  pub reserve-Reserved :
      (r r1 : LeafRegistry P) (a : LeafAttempt) (session now : ℕ) (bytes : List ℕ)
      (outer : OuterSupport P)
      → r.live ≡ none
      → reserve r session now bytes outer ≡ (ok a, r1)
      → Reserved r r1 a session now bytes outer
  unfolding reserve
  reserve-Reserved r r1 a session now bytes outer idle h =
      let opening =
        reserve_with-Opening P r r1 a session now bytes plain_binding outer
          (parse_reservation bytes outer) idle h in
      let (read, spelled) =
        parse_reservation-spelled bytes outer opening.reservation session opening.expiry
          opening.reads in
      record { opening = opening; read = read; spelled = spelled }

  -- What a response by `respond` is an answer to.
  pub record Answers (r : LeafRegistry P) (l : Live P) (root_bytes : List ℕ)
      (response : DeviceResponse P) : Type 0 where
    pub prepared : Prepared P r l plain (answer_root root_bytes) response
    pub root : RootPackage P
    pub read : package_from_bytes P root_bytes ≡ ok root
    pub spelled : package_to_bytes P root ≡ ok root_bytes
    pub reserved : package_prepackage P root ≡ prepared.reservation.prepackage
    pub entry : RootEntry P
    pub own : package_entry P root prepared.reservation.opening.body.outer.slot ≡ ok entry
    pub opened : entry.nonce ≡ prepared.f.nonces.aggregate
    pub signing : SigningContext P
    pub hashed : signing_context P root ≡ ok signing
    pub responds :
        respond_device P prepared.commit_ok.nonce
          (record { root = root; opening = prepared.reservation.opening })
          signing
          prepared.f.nonces
          r.device
          (signing_share P r.identity_share prepared.vault.anchor)
        ≡ ok response

  validate_member_inputs-entry :
      (transcript : MemberTranscript P) (signing : SigningContext P) (nonces : DeviceNonceSet P)
      → validate_member_inputs P transcript signing nonces ≡ ok tt
      → (entry : RootEntry P) × (package_entry P transcript.root transcript.opening.body.outer.slot
          ≡ ok entry)
        × (entry.nonce ≡ nonces.aggregate)
  unfolding validate_member_inputs
  validate_member_inputs-entry transcript signing nonces h =
      let (same, h1) =
        fail_if-passed (not (package_eq P transcript.root signing.root)) invalid_transcript _ h in
      let (u, supported, h2) =
        >>=-passed (nonces_validate_support P nonces transcript.opening.body.inner) _ h1 in
      let (entry, own, h3) =
        >>=-passed (package_entry P transcript.root transcript.opening.body.outer.slot) _ h2 in
      (entry, own, pair_eq-same P entry.nonce nonces.aggregate (ground (arith, h3)))

  Prepared-Answers :
      (r : LeafRegistry P) (l : Live P) (root_bytes : List ℕ) (response : DeviceResponse P)
      → Prepared P r l plain (answer_root root_bytes) response
      → Answers r l root_bytes response
  unfolding answer_root transcript_finalize respond_device
  Prepared-Answers r l root_bytes response k =
      let (root, read, h1) = >>=-passed (package_from_bytes P root_bytes) _ k.answered in
      let (bytes, written, h2) = >>=-passed (package_to_bytes P root) _ h1 in
      let (same, h3) = fail_if-passed (not (bytes_eq bytes root_bytes)) invalid_transcript _ h2 in
      let (transcript, joined, h4) = >>=-passed (transcript_finalize P root k.reservation) _ h3 in
      let (kept, h5) =
        fail_if-passed (not (prepackage_eq P (package_prepackage P root) k.reservation.prepackage))
          invalid_transcript _ joined in
      let is = ok-injective _ _ h5 in
      let (signing, hashed, h6) = >>=-passed (signing_context P transcript.root) _ h4 in
      let joined_root = ap (λ t. t.root) is in
      let (u, valid, h7) =
        >>=-passed (validate_member_inputs P transcript signing k.f.nonces) _ h6 in
      let (entry, own, opened) = validate_member_inputs-entry transcript signing k.f.nonces valid in
      record {
        prepared = k;
        root = root;
        read = read;
        spelled = written ∙ ap ok ((bytes_eq_iff bytes root_bytes).0 (ground arith));
        reserved = prepackage_eq-same P _ _ (ground arith);
        entry = entry;
        own = ap (λ t. package_entry P t.root t.opening.body.outer.slot) is ∙ own;
        opened = opened;
        signing = signing;
        hashed = ap (signing_context P) joined_root ∙ hashed;
        responds =
            ap
              (λ t.
                respond_device P k.commit_ok.nonce t signing k.f.nonces r.device
                  (signing_share P r.identity_share k.vault.anchor))
              is
            ∙ h6;
      }

  -- In a registry that genesis and any calls have led to, `respond` answers a root package only if
  -- it is the package of the very reservation that the attempt was opened with: of its key,
  -- message, context and records, spelled by the bytes given, and with the aggregate of the
  -- verified openings as the nonce of the reservation's slot. The answer is `respond_device` of the
  -- nonce that the attempt has committed to and of the installed signing share.
  pub respond-Answers :
      {A : Type 0} (r0 r s : LeafRegistry P) (parts : DeviceGenesisParts P) (e : KeyEpoch)
      (l : Live P) (root_bytes : List ℕ) (response : DeviceResponse P)
      → new P parts e ≡ ok r0
      → Reach P A r0 r
      → r.live ≡ some l
      → respond r l.attempt root_bytes ≡ (ok response, s)
      → Answers r l root_bytes response
  unfolding respond
  respond-Answers r0 r s parts e l root_bytes response genesis reach live h =
      Prepared-Answers r l root_bytes response (
        respond_with-Prepared P r0 r s parts e l plain (answer_root root_bytes) response genesis
          reach live h)
