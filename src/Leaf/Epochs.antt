-- ===== src/Leaf/Epochs.antt =====
-- The activations of leaf.rs and the key epochs that they install.
use coupery_ksnf.Base.{ℕ, ◌<◌, ◌≡◌, ◌≢◌, sym, ◌∙◌, ap, subst, none, some, List, arith, inl, inr}
use mathlib.Core.Option.{some-injective}
use mathlib.Core.List.{Memᴰ}
use coupery_ksnf.Order.{nat_key}
use coupery_ksnf.Map.{lookup}
use coupery_ksnf.Sort.{sort_by_key, sort_by_key-Mem}
use coupery_ksnf.Outcome.{ok, ◌>>=◌, Result-cases, or_fail, participant_not_found}
use coupery_ksnf.Types.{KeyEpoch}
use coupery_ksnf.Profile.{Profile}
use coupery_ksnf.Dealing.{InstalledShare}
use coupery_ksnf.Leaf.State.{LeafRegistry, VaultState, IdentityMap, MemberMap, epoch}
use coupery_ksnf.Leaf.Activate.{accept_bundle, activate_inner_bundle, install_inner}
use coupery_ksnf.Leaf.Bundles.{members-MemberFor, accept_bundle-Accepted}

module _ (P : Profile) (r : LeafRegistry P) where
  activate_inner_bundle-installs :
      (r' : LeafRegistry P) (identity : InstalledShare P)
      (members : List (KeyEpoch × InstalledShare P))
      → activate_inner_bundle P r identity members ≡ (ok tt, r')
      → (m : IdentityMap P) × (inner : ℕ) × (anchors : List (ℕ × P.Scalar × MemberMap P))
        × (accept_bundle P r identity (sort_by_key (λ m. m.0.anchor.vault) members)
            ≡ ok (m, inner, anchors))
        × (r' ≡ install_inner P r identity (m, inner, anchors))
  unfolding activate_inner_bundle
  activate_inner_bundle-installs r' identity members h =
      elim (Result-cases
        (accept_bundle P r identity (sort_by_key (λ m. m.0.anchor.vault) members))) [
          | inr (x, bad) ↦ ground arith
          | inl ((m, inner, anchors), good) ↦ (m, inner, anchors, good, ground arith)
        ]

  -- A bundle that is activated installs for every vault of the registry the epoch that one of
  -- its members names: that is then the vault's epoch, with a later inner epoch and a new
  -- identity handle. No attempt is live afterwards, and the counter is kept.
  pub activate_inner_bundle-epochs :
      (r' : LeafRegistry P) (identity : InstalledShare P)
      (members : List (KeyEpoch × InstalledShare P)) (v : ℕ) (state : VaultState P)
      → activate_inner_bundle P r identity members ≡ (ok tt, r')
      → lookup v r.vaults ≡ some state
      → (e : KeyEpoch) × (share : InstalledShare P) × Memᴰ (e, share) members
        × (epoch P r' v ≡ ok e)
        × (r.inner_epoch < e.inner)
        × (e.anchor.identity ≢ r.identity_handle)
        × (r'.live ≡ none)
        × (r'.next_sequence ≡ r.next_sequence)
  unfolding epoch
  activate_inner_bundle-epochs r' identity members v state h found =
      let (m, inner, anchors, good, is) = activate_inner_bundle-installs r' identity members h in
      let a = accept_bundle-Accepted P r identity _ m inner anchors good in
      let w =
        members-MemberFor P r identity a.shape none _ r.vaults (some inner) anchors a.counted
          a.checks a.nexts v state found in
      (
        w.e,
        w.share,
        sort_by_key-Mem _ _ _ w.listed,
        subst (λ s. epoch P s v ≡ ok w.e) (sym is)
            (ap
                (λ o. or_fail o participant_not_found >>= λ s. ok (record {
                  outer = s.outer_epoch;
                  inner = inner;
                  anchor = record {
                    vault = v;
                    person = r.person;
                    identity = identity.handle;
                    member = s.member_handle;
                  };
                }))
                w.writes
              ∙ ap ok (
                  ap
                    (λ i. record {
                      outer = state.outer_epoch;
                      inner = i;
                      anchor = record {
                        vault = v;
                        person = r.person;
                        identity = identity.handle;
                        member = identity.handle;
                      };
                    })
                    (some-injective _ _ w.inner)
                  ∙ sym w.names)),
        w.later,
        λ same. a.new_handle (ap (λ e. e.anchor.identity) (sym w.names) ∙ same),
        ap (λ s. s.live) is,
        ap (λ s. s.next_sequence) is,
      )
