-- ===== src/Transcript.antt =====
-- transcript.rs: the member body with its committed record, the root prepackage and package, the
-- reservation, the member transcript, and the context of a signature. Points are elements here. The
-- hazmat and sampling constructors take the salt that they would draw. The source finds a slot by
-- bisection; in the order of distinct slots, which constructors and parsers ensure, that finds what
-- a scan finds.
pub mod Order
pub mod Equal
pub mod Reads
pub mod RootRoundTrip
pub mod BodyRoundTrip
pub mod ReservationRoundTrip
pub mod Finalize
pub mod Tests
pub mod Write
pub mod Read
pub mod Body
pub mod Root
pub mod Frames
pub mod Reservation
use coupery_ksnf.Base.{ℕ, List}
use coupery_ksnf.Profile.{Profile}
use coupery_ksnf.Types.{KeyEpoch}
use coupery_ksnf.Support.{InnerSupport, OuterCoefficient}
use coupery_ksnf.Signing.{NoncePair}

pub record RootContext : Type 0 where
  pub vault : ℕ
  pub epoch : ℕ
  pub ceremony : ℕ

module _ (P : Profile) where
  open P use {Scalar, Element}

  pub record MemberBody : Type 0 where
    pub identity : Element
    pub member : Element
    pub epoch : KeyEpoch
    pub inner : InnerSupport P
    pub outer : OuterCoefficient P

  pub record MemberRecord : Type 0 where
    pub slot : ℕ
    pub member : Element
    pub commitment : Scalar

  -- The source's field `record` is `committed` here.
  pub record RootEntry : Type 0 where
    pub committed : MemberRecord
    pub nonce : NoncePair P

  pub record MemberNonce : Type 0 where
    pub slot : ℕ
    pub nonce : NoncePair P

  pub record RootPrepackage : Type 0 where
    pub key : Element
    pub message : List ℕ
    pub context : RootContext
    pub records : List MemberRecord

  pub record RootPackage : Type 0 where
    pub key : Element
    pub message : List ℕ
    pub context : RootContext
    pub entries : List RootEntry

  pub record MemberOpening : Type 0 where
    pub body : MemberBody
    pub salt : Scalar

  pub record MemberReservation : Type 0 where
    pub prepackage : RootPrepackage
    pub opening : MemberOpening

  pub record MemberTranscript : Type 0 where
    pub root : RootPackage
    pub opening : MemberOpening

  pub record SigningContext : Type 0 where
    pub root : RootPackage
    pub bindings : List (ℕ × Scalar)
    pub nonce : Element
    pub challenge : Scalar
