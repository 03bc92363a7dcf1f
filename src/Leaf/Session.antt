-- ===== src/Leaf/Session.antt =====
-- The operations of leaf.rs on the live attempt. An operation takes the live attempt out of the
-- registry, and an attempt that a step refuses is dropped (`LeafRegistry::fail`): so a step is a
-- function from the live attempt to a result with what is put back, if anything, and an error
-- puts nothing back.
use coupery_ksnf.Base.{
  ℕ, Bool, false, ◌||◌, ◌&&◌, not, Option, none, some, List, ◌==◌, leb, if◌then◌else◌,
}
use coupery_ksnf.Order.{nat_key}
use coupery_ksnf.Map.{lookup}
use coupery_ksnf.Outcome.{
  Result, ok, err, ◌>>=◌, ◌>>◌, fail_if, or_fail, busy, attempt_closed, attempt_mismatch,
  wrong_stage, replay_mismatch, invalid_transcript, commitment_mismatch, protocol_mismatch,
  epoch_mismatch, receiver_mismatch,
}
use coupery_ksnf.Types.{LeafAttempt, attempt_eq}
use coupery_ksnf.Profile.{Profile}
use coupery_ksnf.Shamir.{signing_share}
use coupery_ksnf.Support.{InnerSupport, inner_participant}
use coupery_ksnf.Signing.{NoncePair, Nonce, DeviceNonceSet, nonce_commitments}
use coupery_ksnf.Auth.{
  Delivery, AuthenticatedAbort, View, bytes_eq, view_new, view_commitment, commitment_view_bytes,
  opening_view_bytes, nonce_commitment, verify_openings,
}
use coupery_ksnf.Transcript.{MemberReservation}
use coupery_ksnf.Leaf.State.{
  LeafRegistry, Live, CommitState, RevealState, FixedState, VaultState, ResponseMode, mode_eq,
  take_live, is_closed,
}

module _ (P : Profile) where
  open P use {Scalar, Element, scalar_eq}

  -- `let mut live = self.take_live(attempt)?`, a step, and what it puts back.
  unfoldable pub with_live :
      {A : Type 0}
      → LeafRegistry P
      → LeafAttempt
      → (LeafRegistry P → Live P → Result (A × Option (Live P)))
      → Result A × LeafRegistry P
  unfolding take_live
  with_live r attempt step =
      let (taken, r') = take_live P r attempt in
      elim taken [
        | err e ↦ (err e, r')
        | ok live ↦ elim (step r' live) [
          | err e ↦ (err e, r')
          | ok (a, back) ↦ (ok a, record r' { live = back })
        ]
      ]

  -- The closure in `commit`.
  unfoldable pub commit_state : LeafAttempt → List ℕ → Nonce P → Result (CommitState P)
  commit_state attempt reservation nonce = do
    pair ← nonce_commitments P nonce
    commitment ← nonce_commitment P attempt reservation pair
    ok (record { nonce = some nonce; pair = pair; commitment = commitment })

  -- The cached commitment, or the first of the attempt.
  unfoldable pub commit_from :
      LeafAttempt
      → List ℕ
      → Nonce P
      → Live P
      → Option (CommitState P)
      → Result (Scalar × Option (Live P))
  unfolding commit_state
  commit_from attempt reservation nonce live (some c) = ok (c.commitment, some live)
  commit_from attempt reservation nonce live none = do
    c ← commit_state attempt reservation nonce
    ok (c.commitment, some (record live { commit = some c }))

  unfoldable pub commit_step :
      LeafAttempt → List ℕ → Nonce P → Live P → Result (Scalar × Option (Live P))
  unfolding commit_from
  commit_step attempt reservation nonce live = do
    fail_if (not (bytes_eq live.reservation_bytes reservation)) replay_mismatch
    commit_from attempt reservation nonce live live.commit

  -- `LeafRegistry::commit`; `nonce` is what the generator would draw.
  unfoldable pub commit :
      LeafRegistry P → LeafAttempt → List ℕ → Nonce P → Result Scalar × LeafRegistry P
  unfolding with_live commit_step
  commit r attempt reservation nonce =
      with_live r attempt (λ _. commit_step attempt reservation nonce)

  -- The support that the live reservation names.
  abbrev pub live_support : Live P → Result (InnerSupport P)
  live_support live = do
    reservation ← or_fail live.reservation wrong_stage
    ok reservation.opening.body.inner

  -- The view is of this attempt, session and reservation.
  abbrev pub names_other : {A : Type 0} → View A → LeafAttempt → Live P → Bool
  names_other v attempt live =
      not (attempt_eq v.receiver attempt)
      || (not (v.session == live.session) || not (bytes_eq v.reservation live.reservation_bytes))

  -- The first reveal of an attempt.
  unfoldable pub reveal_first :
      LeafAttempt
      → View Scalar
      → List ℕ
      → Live P
      → CommitState P
      → Result (NoncePair P × Option (Live P))
  reveal_first attempt view bytes live c = do
    fail_if (names_other view attempt live) invalid_transcript
    own ← view_commitment P view attempt
    fail_if (not (scalar_eq own c.commitment)) commitment_mismatch
    ok (
      c.pair,
      some (record live {
        reveal = some (record { bytes = bytes; view = view; viewed_pair = c.pair });
      }),
    )

  -- The cached pair, or the first reveal.
  unfoldable pub reveal_from :
      LeafAttempt
      → View Scalar
      → List ℕ
      → Live P
      → Option (RevealState P)
      → Result (NoncePair P × Option (Live P))
  unfolding reveal_first
  reveal_from attempt view bytes live (some v) = do
    fail_if (not (bytes_eq v.bytes bytes)) replay_mismatch
    ok (v.viewed_pair, some live)
  reveal_from attempt view bytes live none = do
    c ← or_fail live.commit wrong_stage
    reveal_first attempt view bytes live c

  unfoldable pub reveal_step :
      LeafAttempt → List (Delivery Scalar) → Live P → Result (NoncePair P × Option (Live P))
  unfolding reveal_from
  reveal_step attempt deliveries live = do
    support ← live_support live
    view ← view_new P support deliveries
    bytes ← commitment_view_bytes P view
    reveal_from attempt view bytes live live.reveal

  -- `LeafRegistry::reveal`
  unfoldable pub reveal :
      LeafRegistry P → LeafAttempt → List (Delivery Scalar) → Result (NoncePair P) × LeafRegistry P
  unfolding with_live reveal_step
  reveal r attempt deliveries = with_live r attempt (λ _. reveal_step attempt deliveries)

  -- The first fixing of an attempt.
  unfoldable pub fix_first :
      LeafAttempt
      → View (NoncePair P)
      → List ℕ
      → Live P
      → RevealState P
      → Result (NoncePair P × Option (Live P))
  fix_first attempt view bytes live v = do
    fail_if (names_other view attempt live) invalid_transcript
    support ← live_support live
    nonces ← verify_openings P view v.view support
    ok (
      nonces.aggregate,
      some (record live { fix = some (record { bytes = bytes; nonces = nonces }) }),
    )

  -- The cached member nonce, or the first fixing.
  unfoldable pub fix_from :
      LeafAttempt
      → View (NoncePair P)
      → List ℕ
      → Live P
      → Option (FixedState P)
      → Result (NoncePair P × Option (Live P))
  unfolding fix_first
  fix_from attempt view bytes live (some f) = do
    fail_if (not (bytes_eq f.bytes bytes)) replay_mismatch
    ok (f.nonces.aggregate, some live)
  fix_from attempt view bytes live none = do
    v ← or_fail live.reveal wrong_stage
    fix_first attempt view bytes live v

  unfoldable pub fix_step :
      LeafAttempt → List (Delivery (NoncePair P)) → Live P → Result (NoncePair P × Option (Live P))
  unfolding fix_from
  fix_step attempt deliveries live = do
    support ← live_support live
    view ← view_new P support deliveries
    bytes ← opening_view_bytes P view
    fix_from attempt view bytes live live.fix

  -- `LeafRegistry::fix`
  unfoldable pub fix :
      LeafRegistry P
      → LeafAttempt
      → List (Delivery (NoncePair P))
      → Result (NoncePair P) × LeafRegistry P
  unfolding with_live fix_step
  fix r attempt deliveries = with_live r attempt (λ _. fix_step attempt deliveries)

  -- What the response closure of `respond_with` is given, the session and the expiry included.
  pub record ResponseInputs : Type 0 where
    pub nonce : Nonce P
    pub reservation : MemberReservation P
    pub nonces : DeviceNonceSet P
    pub device : ℕ
    pub share : Scalar
    pub session : ℕ
    pub expiry : ℕ

  abbrev pub response_inputs :
      LeafRegistry P
      → Live P
      → Nonce P
      → MemberReservation P
      → FixedState P
      → VaultState P
      → ResponseInputs
  response_inputs r live nonce reservation fixed vault = record {
    nonce = nonce;
    reservation = reservation;
    nonces = fixed.nonces;
    device = r.device;
    share = signing_share P r.identity_share vault.anchor;
    session = live.session;
    expiry = live.expiry;
  }

  unfoldable pub respond_step :
      {A : Type 0}
      → ResponseMode
      → (ResponseInputs → List ℕ → Result A)
      → LeafRegistry P
      → Live P
      → Result (A × Option (Live P))
  respond_step mode answer r live = do
    fail_if (not (mode_eq live.response.mode mode)) protocol_mismatch
    fixed ← or_fail live.fix wrong_stage
    committed ← or_fail live.commit wrong_stage
    nonce ← or_fail committed.nonce wrong_stage
    reservation ← or_fail live.reservation wrong_stage
    vault ← or_fail (lookup live.vault r.vaults) epoch_mismatch
    output ← answer (response_inputs r live nonce reservation fixed vault) live.reservation_bytes
    ok (output, none)

  -- `LeafRegistry::respond_with`; `answer` is its closure.
  unfoldable pub respond_with :
      {A : Type 0}
      → LeafRegistry P
      → LeafAttempt
      → ResponseMode
      → (ResponseInputs → List ℕ → Result A)
      → Result A × LeafRegistry P
  unfolding with_live respond_step
  respond_with r attempt mode answer = with_live r attempt (respond_step mode answer)

  -- `LeafRegistry::close`
  unfoldable pub close : LeafRegistry P → LeafAttempt → Result (Unit {0}) × LeafRegistry P
  close r attempt = if is_closed P r attempt then (err attempt_closed, r) else elim r.live [
    | none ↦ (err wrong_stage, r)
    | some l ↦
        if not (attempt_eq l.attempt attempt)
        then if attempt.device == r.device then (err busy, r) else (err attempt_mismatch, r)
        else (ok tt, record r { live = none })
  ]

  unfoldable pub abort_step : AuthenticatedAbort → Live P → Result (Unit {0} × Option (Live P))
  abort_step abort live = do
    support ← live_support live
    _ ← inner_participant P support abort.sender.device
    fail_if
        (not (live.session == abort.session)
          || not (bytes_eq live.reservation_bytes abort.reservation))
        invalid_transcript
    ok (tt, none)

  -- `self.live.is_some_and(|live| live.attempt == receiver && live.session != session)`
  abbrev pub other_session : Option (Live P) → AuthenticatedAbort → Bool
  other_session none abort = false
  other_session (some l) abort =
      attempt_eq l.attempt abort.receiver && not (l.session == abort.session)

  -- `LeafRegistry::receive_abort`
  unfoldable pub receive_abort :
      LeafRegistry P → AuthenticatedAbort → Result (Unit {0}) × LeafRegistry P
  unfolding with_live abort_step
  receive_abort r abort =
      if not (abort.receiver.device == r.device)
      then (err receiver_mismatch, r)
      else if other_session r.live abort
      then (err invalid_transcript, r)
      else with_live r abort.receiver (λ _. abort_step abort)

  -- `LeafRegistry::close_expired`
  unfoldable pub close_expired : LeafRegistry P → ℕ → Option LeafAttempt × LeafRegistry P
  close_expired r now = elim r.live [
    | none ↦ (none, r)
    | some l ↦ if leb l.expiry now then (some l.attempt, record r { live = none }) else (none, r)
  ]
