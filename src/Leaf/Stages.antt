-- ===== src/Leaf/Stages.antt =====
-- The stages of a live attempt (`Live::stage`), with what each stage has established, and the
-- steps of commit, reveal and fix between them.
use coupery_ksnf.Base.{◌≡◌, Option, none, some}
use coupery_ksnf.Order.{nat_key}
use coupery_ksnf.Outcome.{ok}
use coupery_ksnf.Profile.{Profile}
use coupery_ksnf.Support.{InnerSupport}
use coupery_ksnf.Signing.{NoncePair, Nonce, nonce_commitments}
use coupery_ksnf.Auth.{
  View, view_commitment, commitment_view_bytes, opening_view_bytes, nonce_commitment,
  verify_openings,
}
use coupery_ksnf.Leaf.State.{Live, CommitState, RevealState, FixedState}
use coupery_ksnf.Leaf.Session.{live_support}

module _ (P : Profile) where
  open P use {Scalar, scalar_eq, scalar_eq_iff}

  -- The nonce is there, and the pair and the commitment are computed from it.
  pub record Committed (l : Live P) (c : CommitState P) : Type 0 where
    pub nonce : Nonce P
    pub kept : c.nonce ≡ some nonce
    pub pair_of : nonce_commitments P nonce ≡ ok c.pair
    pub hashed : nonce_commitment P l.attempt l.reservation_bytes c.pair ≡ ok c.commitment

  -- The view is of this attempt, session and reservation, and has its own commitment.
  pub record Revealed (l : Live P) (c : CommitState P) (v : RevealState P) : Type 0 where
    pub receiver : v.view.receiver ≡ l.attempt
    pub session : v.view.session ≡ l.session
    pub reservation : v.view.reservation ≡ l.reservation_bytes
    pub own : view_commitment P v.view l.attempt ≡ ok c.commitment
    pub pair : v.viewed_pair ≡ c.pair
    pub printed : commitment_view_bytes P v.view ≡ ok v.bytes

  -- Every opening was verified against the commitment view.
  pub record Opened (l : Live P) (v : RevealState P) (f : FixedState P) : Type 0 where
    pub support : InnerSupport P
    pub supported : live_support P l ≡ ok support
    pub view : View (NoncePair P)
    pub receiver : view.receiver ≡ l.attempt
    pub session : view.session ≡ l.session
    pub reservation : view.reservation ≡ l.reservation_bytes
    pub verified : verify_openings P view v.view support ≡ ok f.nonces
    pub printed : opening_view_bytes P view ≡ ok f.bytes

  -- What a step leaves of the live attempt.
  pub data LiveStep (l l' : Live P) : Type 0 where
    same : l' ≡ l → LiveStep l l'
    commits :
        (c : CommitState P)
        → l.commit ≡ none
        → Committed l c
        → l' ≡ record l { commit = some c }
        → LiveStep l l'
    reveals :
        (c : CommitState P) (v : RevealState P)
        → l.reveal ≡ none
        → l.commit ≡ some c
        → Revealed l c v
        → l' ≡ record l { reveal = some v }
        → LiveStep l l'
    fixes :
        (v : RevealState P) (f : FixedState P)
        → l.fix ≡ none
        → l.reveal ≡ some v
        → Opened l v f
        → l' ≡ record l { fix = some f }
        → LiveStep l l'

  -- What a step puts back, if it succeeds, comes by a step.
  pub data Back (l : Live P) (back : Option (Live P)) : Type 0 where
    put : (l' : Live P) → back ≡ some l' → LiveStep l l' → Back l back
    gone : back ≡ none → Back l back
