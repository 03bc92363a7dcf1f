-- ===== src/Auth.antt =====
-- auth.rs: receiver-local authenticated deliveries and the two views that a leaf fixes. The
-- commitment and the opening deliveries differ in their payload only, a scalar and a nonce pair,
-- and so do the constructors of the views; both are one definition over the payload here.
use coupery_ksnf.Base.{
  ℕ, ◌≡◌, ◌↔◌, arith, Bool, true, ◌||◌, not, List, [], ◌∷◌, ◌++◌, find, length, head?, ◌==◌,
  if◌then◌else◌, list_eq,
}
use coupery_ksnf.Order.{nat_key}
use coupery_ksnf.Sort.{sort_by_key}
use coupery_ksnf.Outcome.{
  Result, ok, err, ◌>>=◌, ◌>>◌, fail_if, or_fail, empty_input, support_mismatch,
  duplicate_participant, receiver_mismatch, invalid_transcript, participant_not_found,
  attempt_mismatch, commitment_mismatch,
}
use coupery_ksnf.Types.{LeafAttempt, attempt_eq}
use coupery_ksnf.Profile.{Profile, HashDomain}
use coupery_ksnf.Encoding.{put_u8, put_u64, put_id, put_u16, put_bytes, count_u16}
use coupery_ksnf.Support.{InnerSupport, DeviceParticipant, inner_participant}
use coupery_ksnf.Signing.{NoncePair, DeviceNonce, DeviceNonceSet, device_nonce_set, has_adjacent}

abbrev pub bytes_eq : List ℕ → List ℕ → Bool
bytes_eq = list_eq (λ a b. a == b)

pub bytes_eq_iff : (xs ys : List ℕ) → (bytes_eq xs ys ≡ true) ↔ (xs ≡ ys)
bytes_eq_iff [] [] = ground arith
bytes_eq_iff [] (y ∷ ys) = ground arith
bytes_eq_iff (x ∷ xs) [] = ground arith
bytes_eq_iff (x ∷ xs) (y ∷ ys) = ground (arith, bytes_eq_iff xs ys)

-- `AuthenticatedCommitment` and `AuthenticatedOpening`.
pub record Delivery (A : Type 0) : Type 0 where
  pub sender : LeafAttempt
  pub receiver : LeafAttempt
  pub session : ℕ
  pub reservation : List ℕ
  pub payload : A

pub record AuthenticatedAbort : Type 0 where
  pub sender : LeafAttempt
  pub receiver : LeafAttempt
  pub session : ℕ
  pub reservation : List ℕ

-- `CommitmentView` and `OpeningView`, with the entries as pairs of a sender and a payload.
pub record View (A : Type 0) : Type 0 where
  pub receiver : LeafAttempt
  pub session : ℕ
  pub reservation : List ℕ
  pub entries : List (LeafAttempt × A)

-- `encode_attempt`
abbrev pub encode_attempt : LeafAttempt → List ℕ
encode_attempt a = put_id a.device ++ put_u64 a.sequence

module _ (P : Profile) where
  open P use {Scalar, Element, scalar_eq, hash_to_scalar, encode_scalar, encode_point, wire_id}

  module _ {A : Type 0} where
    -- The loop of the views' constructors over the deliveries and the participants.
    unfoldable pub view_entries :
        Delivery A
        → List (Delivery A)
        → List (DeviceParticipant P)
        → Result (List (LeafAttempt × A))
    view_entries first (d ∷ ds) (p ∷ ps) =
        let rest = view_entries first ds ps in
        if not (d.sender.device == p.device)
        then err support_mismatch
        else if not (attempt_eq d.receiver first.receiver)
        then err receiver_mismatch
        else if not (d.session == first.session) || not (bytes_eq d.reservation first.reservation)
        then err invalid_transcript
        else do entries ← rest; ok ((d.sender, d.payload) ∷ entries)
    view_entries first _ _ = ok []

    -- `CommitmentView::new` and `OpeningView::new`
    unfoldable pub view_new : InnerSupport P → List (Delivery A) → Result (View A)
    view_new support given = do
      let deliveries = sort_by_key (λ d. d.sender.device) given
      first ← or_fail (head? deliveries) empty_input
      _ ← inner_participant P support first.receiver.device
      fail_if (not (length deliveries == length support.participants)) support_mismatch
      fail_if (has_adjacent P (λ d. d.sender.device) deliveries) duplicate_participant
      entries ← view_entries first deliveries support.participants
      ok (record {
        receiver = first.receiver;
        session = first.session;
        reservation = first.reservation;
        entries = entries;
      })

    -- `encode_view_prefix`
    unfoldable pub encode_view_prefix : View A → Result (List ℕ)
    encode_view_prefix v = do
      reservation ← put_bytes v.reservation
      count ← count_u16 (length v.entries)
      ok (
          put_u8 wire_id
          ++ (encode_attempt v.receiver ++ (put_id v.session ++ (reservation ++ put_u16 count))))

  -- `CommitmentView::commitment`
  unfoldable pub view_commitment : View Scalar → LeafAttempt → Result Scalar
  view_commitment v sender = do
    entry ← or_fail (find (λ e. e.0.device == sender.device) v.entries) participant_not_found
    if attempt_eq entry.0 sender then ok entry.1 else err attempt_mismatch

  unfoldable pub encode_commitments : List (LeafAttempt × Scalar) → List ℕ
  encode_commitments [] = []
  encode_commitments ((sender, commitment) ∷ es) =
      encode_attempt sender ++ (encode_scalar commitment ++ encode_commitments es)

  -- `CommitmentView::to_bytes`
  unfoldable pub commitment_view_bytes : View Scalar → Result (List ℕ)
  unfolding encode_commitments
  commitment_view_bytes v = do
    prefix ← encode_view_prefix v
    ok (prefix ++ encode_commitments v.entries)

  unfoldable pub encode_openings : List (LeafAttempt × NoncePair P) → List ℕ
  encode_openings [] = []
  encode_openings ((sender, nonce) ∷ es) =
      encode_attempt sender
      ++ (encode_point nonce.hiding ++ (encode_point nonce.binding ++ encode_openings es))

  -- `OpeningView::to_bytes`
  unfoldable pub opening_view_bytes : View (NoncePair P) → Result (List ℕ)
  unfolding encode_openings
  opening_view_bytes v = do prefix ← encode_view_prefix v; ok (prefix ++ encode_openings v.entries)

  -- `nonce_commitment`; `b"nonce"` is written out.
  unfoldable pub nonce_commitment : LeafAttempt → List ℕ → NoncePair P → Result Scalar
  nonce_commitment attempt reservation nonce = do
    label ← put_bytes (b'n' ∷ b'o' ∷ b'n' ∷ b'c' ∷ b'e' ∷ [])
    framed ← put_bytes reservation
    hash_to_scalar HashDomain.nonce (
        put_u8 wire_id
        ++ (label
            ++ (encode_attempt attempt
                ++ (framed ++ (encode_point nonce.hiding ++ encode_point nonce.binding)))))

  -- The loop of `OpeningView::verify`.
  unfoldable pub verify_entries :
      View Scalar → List ℕ → List (LeafAttempt × NoncePair P) → Result (Unit {0})
  verify_entries commitments reservation [] = ok tt
  verify_entries commitments reservation ((attempt, nonce) ∷ es) =
      let rest = verify_entries commitments reservation es in
      do
        opened ← nonce_commitment attempt reservation nonce
        fixed ← view_commitment commitments attempt
        if scalar_eq opened fixed then rest else err commitment_mismatch

  unfoldable pub device_nonces : List (LeafAttempt × NoncePair P) → List (DeviceNonce P)
  device_nonces [] = []
  device_nonces ((attempt, nonce) ∷ es) =
      record { attempt = attempt; nonce = nonce } ∷ device_nonces es

  -- `OpeningView::verify`
  unfoldable pub verify_openings :
      View (NoncePair P) → View Scalar → InnerSupport P → Result (DeviceNonceSet P)
  unfolding device_nonces
  verify_openings v commitments support = do
    fail_if
        (not (attempt_eq v.receiver commitments.receiver)
          || (not (v.session == commitments.session)
              || not (bytes_eq v.reservation commitments.reservation)))
        invalid_transcript
    verify_entries commitments v.reservation v.entries
    device_nonce_set P support (device_nonces v.entries)
