-- ===== src/Leaf/OuterEpochs.antt =====
-- `LeafRegistry::activate_outer` and the key epoch that it installs.
use coupery_ksnf.Base.{
  ℕ, ◌<◌, ◌≡◌, ◌≢◌, ◌∙◌, ap, some, arith, inl, inr, Bool-cases, Option-cases, ◌==◌,
}
use coupery_ksnf.Order.{nat_key}
use coupery_ksnf.Map.{lookup, insert}
use coupery_ksnf.Outcome.{Result, ok, err}
use coupery_ksnf.Types.{KeyEpoch}
use coupery_ksnf.Profile.{Profile}
use coupery_ksnf.Dealing.{InstalledShare, outer}
use coupery_ksnf.Leaf.State.{LeafRegistry, VaultState, close_vault_live}
use coupery_ksnf.Leaf.Activate.{accept_target, activate_outer}

module _ (P : Profile) (r : LeafRegistry P) where
  -- What the tests of `activate_outer` establish.
  record Accepted (e : KeyEpoch) (member : InstalledShare P) (state : VaultState P) : Type 0 where
    old : VaultState P
    found : lookup e.anchor.vault r.vaults ≡ some old
    person : e.anchor.person ≡ r.person
    inner : e.inner ≡ r.inner_epoch
    identity : e.anchor.identity ≡ r.identity_handle
    later : old.outer_epoch < e.outer
    handle : e.anchor.member ≢ old.member_handle
    outer : state.outer_epoch ≡ e.outer
    member_is : state.member_handle ≡ e.anchor.member
    key : state.vault_key ≡ old.vault_key

  -- Closing a vault's attempt changes the live attempt only.
  pub close_vault_live-keeps :
      (v : ℕ) → close_vault_live P r v ≡ record r { live = (close_vault_live P r v).live }
  close_vault_live-keeps v = elim (Option-cases r.live) [
    | inl idle ↦ ground arith
    | inr (l, live) ↦ elim (Bool-cases (l.vault == v)) [
      | inl hit ↦ ground arith
      | inr miss ↦ ground arith
    ]
  ]

  pub activate_outer-writes :
      (e : KeyEpoch) (member : InstalledShare P) (state : VaultState P)
      → accept_target P r e member member.target ≡ ok state
      → (activate_outer P r e member).1 ≡ record r {
        live = (close_vault_live P r e.anchor.vault).live;
        vaults = insert e.anchor.vault state r.vaults;
      }
  unfolding activate_outer
  activate_outer-writes e member state good =
      ap
        (λ m.
          (elim m as (λ _. Result (Unit {0}) × LeafRegistry P) [
            | err x ↦ (err x, r)
            | ok vault ↦ (
              ok tt,
              record (close_vault_live P r e.anchor.vault) {
                vaults = insert e.anchor.vault vault (close_vault_live P r e.anchor.vault).vaults;
              },
            )
          ]).1)
        good
      ∙ ap {A = LeafRegistry P} {B = LeafRegistry P}
          (λ s. record s { vaults = insert e.anchor.vault state s.vaults })
          (close_vault_live-keeps e.anchor.vault)
