-- ===== src/Transcript/Frames.antt =====
-- The readers of transcript.rs that parse a framed part before they go on.
use coupery_ksnf.Base.{ℕ, List}
use coupery_ksnf.Profile.{Profile}
use coupery_ksnf.Outcome.{Result}
use coupery_ksnf.Decoding.{get_number, get_bytes}
use coupery_ksnf.Support.{OuterSupport}
use coupery_ksnf.Reader.{Reader, give, lift, ◌>>=◌, ◌>>◌, read_all, get_scalar, expect_version}
use coupery_ksnf.Transcript.{MemberRecord, RootPrepackage, MemberOpening}
use coupery_ksnf.Transcript.Read.{decode_record}
use coupery_ksnf.Transcript.Body.{body_from_bytes}
use coupery_ksnf.Transcript.Root.{prepackage_from_bytes}

-- What `MemberReservation::from_bytes` reads.
pub record ReservationFields (P : Profile) : Type 0 where
  pub prepackage : RootPrepackage P
  pub slot : ℕ
  pub opening : MemberOpening P
  pub session : ℕ
  pub expiry : ℕ

module _ (P : Profile) where
  -- `MemberOpening::from_bytes`, what it reads.
  unfoldable pub decode_opening : OuterSupport P → Reader (MemberOpening P)
  decode_opening outer_support = do
    expect_version P
    salt ← get_scalar P
    bytes ← get_bytes
    body ← lift (body_from_bytes P bytes outer_support)
    give (record { body = body; salt = salt })

  -- `MemberOpening::from_bytes`
  unfoldable pub opening_from_bytes : List ℕ → OuterSupport P → Result (MemberOpening P)
  opening_from_bytes bytes outer_support = read_all (decode_opening outer_support) bytes

  -- `MemberReservation::from_bytes`, what it reads.
  unfoldable pub decode_reservation : OuterSupport P → Reader (ReservationFields P)
  decode_reservation outer_support = do
    expect_version P
    public ← get_bytes
    prepackage ← lift (prepackage_from_bytes P public)
    slot ← get_number 2
    private ← get_bytes
    opening ← lift (opening_from_bytes private outer_support)
    session ← get_number 32
    expiry ← get_number 8
    give (record {
      prepackage = prepackage;
      slot = slot;
      opening = opening;
      session = session;
      expiry = expiry;
    })

  -- `MemberRecord::from_bytes`
  unfoldable pub record_from_bytes : List ℕ → Result (MemberRecord P)
  record_from_bytes bytes = read_all (do expect_version P; decode_record P) bytes
