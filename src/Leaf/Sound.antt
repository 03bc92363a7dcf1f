-- ===== src/Leaf/Sound.antt =====
-- The invariant of a live attempt: what its stage has established.
use coupery_ksnf.Base.{◌≡◌, refl, sym, ◌∙◌, ap, subst, none, some}
use mathlib.Core.Option.{some-injective}
use coupery_ksnf.Order.{nat_key}
use coupery_ksnf.Profile.{Profile}
use coupery_ksnf.Leaf.State.{Live, CommitState, RevealState, FixedState}
use coupery_ksnf.Leaf.Stages.{Committed, Revealed, Opened, LiveStep, same, commits, reveals, fixes}

module _ (P : Profile) where
  -- What the stages of a live attempt have established.
  pub data Sound (l : Live P) : Type 0 where
    at_reserved : l.commit ≡ none → l.reveal ≡ none → l.fix ≡ none → Sound l
    at_committed :
        (c : CommitState P)
        → l.commit ≡ some c
        → Committed P l c
        → l.reveal ≡ none
        → l.fix ≡ none
        → Sound l
    at_held :
        (c : CommitState P) (v : RevealState P)
        → l.commit ≡ some c
        → Committed P l c
        → l.reveal ≡ some v
        → Revealed P l c v
        → l.fix ≡ none
        → Sound l
    at_fixed :
        (c : CommitState P) (v : RevealState P) (f : FixedState P)
        → l.commit ≡ some c
        → Committed P l c
        → l.reveal ≡ some v
        → Revealed P l c v
        → l.fix ≡ some f
        → Opened P l v f
        → Sound l

  module _ (l : Live P) where
    Committed-kept :
        (c d : CommitState P) → Committed P l c → Committed P (record l { commit = some d }) c
    Committed-kept c d k = record {
      nonce = k.nonce;
      kept = k.kept;
      pair_of = k.pair_of;
      hashed = k.hashed;
    }

    reveal-kept :
        (c : CommitState P) (v : RevealState P)
        → Committed P l c
        → Committed P (record l { reveal = some v }) c
    reveal-kept c v k = record {
      nonce = k.nonce;
      kept = k.kept;
      pair_of = k.pair_of;
      hashed = k.hashed;
    }

    fix-kept :
        (c : CommitState P) (f : FixedState P)
        → Committed P l c
        → Committed P (record l { fix = some f }) c
    fix-kept c f k = record {
      nonce = k.nonce;
      kept = k.kept;
      pair_of = k.pair_of;
      hashed = k.hashed;
    }

    Revealed-kept :
        (c : CommitState P) (v : RevealState P)
        → Revealed P l c v
        → Revealed P (record l { reveal = some v }) c v
    Revealed-kept c v k = record {
      receiver = k.receiver;
      session = k.session;
      reservation = k.reservation;
      own = k.own;
      pair = k.pair;
      printed = k.printed;
    }

    view-kept :
        (c : CommitState P) (v : RevealState P) (f : FixedState P)
        → Revealed P l c v
        → Revealed P (record l { fix = some f }) c v
    view-kept c v f k = record {
      receiver = k.receiver;
      session = k.session;
      reservation = k.reservation;
      own = k.own;
      pair = k.pair;
      printed = k.printed;
    }

    Opened-kept :
        (v : RevealState P) (f : FixedState P)
        → Opened P l v f
        → Opened P (record l { fix = some f }) v f
    Opened-kept v f k = record {
      support = k.support;
      supported = k.supported;
      view = k.view;
      receiver = k.receiver;
      session = k.session;
      reservation = k.reservation;
      verified = k.verified;
      printed = k.printed;
    }

    commits-Sound :
        (c : CommitState P)
        → l.commit ≡ none
        → Committed P l c
        → Sound l
        → Sound (record l { commit = some c })
    commits-Sound c new k (at_reserved none_yet unrevealed unfixed) =
        at_committed c refl (Committed-kept c c k) unrevealed unfixed
    commits-Sound c new k (at_committed d is _ _ _) = cc
    commits-Sound c new k (at_held d v is _ _ _ _) = cc
    commits-Sound c new k (at_fixed d v f is _ _ _ _ _) = cc

    reveals-Sound :
        (c : CommitState P) (v : RevealState P)
        → l.reveal ≡ none
        → l.commit ≡ some c
        → Revealed P l c v
        → Sound l
        → Sound (record l { reveal = some v })
    reveals-Sound c v new is k (at_reserved uncommitted _ _) = cc
    reveals-Sound c v new is k (at_committed d has d_ok _ unfixed) =
        let same_c : d ≡ c = some-injective _ _ (sym has ∙ is) in
        at_held c v is (reveal-kept c v (subst (Committed P l) same_c d_ok)) refl
          (Revealed-kept c v k) unfixed
    reveals-Sound c v new is k (at_held d w _ _ has _ _) = cc
    reveals-Sound c v new is k (at_fixed d w f _ _ has _ _ _) = cc

    fixes-Sound :
        (v : RevealState P) (f : FixedState P)
        → l.fix ≡ none
        → l.reveal ≡ some v
        → Opened P l v f
        → Sound l
        → Sound (record l { fix = some f })
    fixes-Sound v f new is k (at_reserved _ unrevealed _) = cc
    fixes-Sound v f new is k (at_committed d _ _ unrevealed _) = cc
    fixes-Sound v f new is k (at_held c w has c_ok held w_ok _) =
        let same_v : w ≡ v = some-injective _ _ (sym held ∙ is) in
        at_fixed c v f has (fix-kept c f c_ok) is
          (view-kept c v f (subst (Revealed P l c) same_v w_ok)) refl (Opened-kept v f k)
    fixes-Sound v f new is k (at_fixed c w g _ _ _ _ has _) = cc

  pub LiveStep-Sound : (l l' : Live P) → LiveStep P l l' → Sound l → Sound l'
  LiveStep-Sound l l' (same is) s = subst Sound (sym is) s
  LiveStep-Sound l l' (commits c new k is) s = subst Sound (sym is) (commits-Sound l c new k s)
  LiveStep-Sound l l' (reveals c v new has k is) s =
      subst Sound (sym is) (reveals-Sound l c v new has k s)
  LiveStep-Sound l l' (fixes v f new has k is) s =
      subst Sound (sym is) (fixes-Sound l v f new has k s)

  pub LiveStep-attempt : (l l' : Live P) → LiveStep P l l' → l'.attempt ≡ l.attempt
  LiveStep-attempt l l' (same is) = ap (λ x. x.attempt) is
  LiveStep-attempt l l' (commits c _ _ is) = ap (λ x. x.attempt) is
  LiveStep-attempt l l' (reveals c v _ _ _ is) = ap (λ x. x.attempt) is
  LiveStep-attempt l l' (fixes v f _ _ _ is) = ap (λ x. x.attempt) is
