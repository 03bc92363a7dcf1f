-- ===== src/Leaf/Activate.antt =====
-- The two activations of leaf.rs. Each checks everything before it writes.
use coupery_ksnf.Base.{
  ℕ, Bool, true, false, ◌||◌, not, Option, none, some, List, [], ◌∷◌, any, length, ◌==◌, leb,
}
use coupery_ksnf.Order.{nat_key}
use coupery_ksnf.Map.{Map, lookup, insert}
use coupery_ksnf.Sort.{sort_by_key}
use coupery_ksnf.Outcome.{
  Result, ok, err, ◌>>=◌, ◌>>◌, fail_if, or_fail, epoch_mismatch, participant_mismatch,
  support_mismatch, empty_input,
}
use coupery_ksnf.Types.{KeyEpoch}
use coupery_ksnf.Profile.{Profile}
use coupery_ksnf.Shamir.{anchor_share, point_new}
use coupery_ksnf.Dealing.{
  TargetShape, TargetId, single, outer, target_eq, single_shape, outer_shape, shape_eq, SingleShape,
  OuterTarget, ContributionPoints, single_points, outer_points, InstalledShare, device_node,
  outer_person, points_constant, member_constant,
}
use coupery_ksnf.Leaf.State.{LeafRegistry, VaultState, IdentityMap, MemberMap, close_vault_live}
use coupery_ksnf.Leaf.Install.{identity_map, member_map, outer_maps, same_roster}

module _ (P : Profile) where
  open P use {Scalar, Element, scalar_eq, element_eq}

  abbrev pub Member : Type 0
  Member = KeyEpoch × InstalledShare P

  abbrev pub single_of : InstalledShare P → Result (SingleShape P)
  single_of share = elim share.shape [
    | single_shape shape ↦ ok shape
    | outer_shape shape ↦ err support_mismatch
  ]

  abbrev is_single : ContributionPoints P → Bool
  is_single (single_points ps) = true
  is_single (outer_points ps ms) = false

  -- `next_inner.is_some_and(|inner| inner != epoch.inner())`
  abbrev pub other_epoch : Option ℕ → ℕ → Bool
  other_epoch none inner = false
  other_epoch (some before) inner = not (before == inner)

  -- The condition that refuses one member of a bundle.
  unfoldable pub bad_member :
      LeafRegistry P → InstalledShare P → Option ℕ → Member → ℕ × VaultState P → Bool
  bad_member r identity inner (e, member) (vault_id, vault) =
      not (e.anchor.vault == vault_id)
      || (not (e.anchor.person == r.person)
          || (not (e.outer == vault.outer_epoch)
              || (leb e.inner r.inner_epoch
                  || (other_epoch inner e.inner
                      || (not (e.anchor.identity == identity.handle)
                          || (not (e.anchor.member == identity.handle)
                              || (not (member.handle == identity.handle)
                                  || (not (target_eq member.target (single r.device))
                                      || (not (shape_eq P member.shape identity.shape)
                                          || not (is_single member.points))))))))))

  -- The loop over the members and the vaults; `inner` is `next_inner`.
  unfoldable pub check_members :
      LeafRegistry P
      → InstalledShare P
      → Option ℕ
      → List Member
      → Map ℕ (VaultState P)
      → Result (Option ℕ)
  unfolding bad_member
  check_members r identity inner (m ∷ ms) (v ∷ vs) = do
    fail_if (bad_member r identity inner m v) epoch_mismatch
    constant ← points_constant P m.1.points
    fail_if (not (element_eq constant v.1.member_point)) epoch_mismatch
    check_members r identity (some m.0.inner) ms vs
  check_members r identity inner _ _ = ok inner

  -- The loop that computes the new anchors.
  unfoldable pub next_anchors :
      SingleShape P → Scalar → List Member → Result (List (ℕ × Scalar × MemberMap P))
  next_anchors shape next_identity [] = ok []
  next_anchors shape next_identity ((e, member) ∷ ms) = do
    entry ← member_map P shape member.points
    anchors ← next_anchors shape next_identity ms
    ok ((e.anchor.vault, anchor_share P member.share next_identity, entry) ∷ anchors)

  -- The loop that writes the vaults.
  unfoldable pub write_anchors :
      ℕ → Map ℕ (VaultState P) → List (ℕ × Scalar × MemberMap P) → Map ℕ (VaultState P)
  write_anchors handle ((vault_id, state) ∷ vs) ((_, anchor, entry) ∷ anchors) =
      (vault_id, record state { anchor = anchor; member_handle = handle; member_map = entry })
      ∷ write_anchors handle vs anchors
  write_anchors handle vs _ = vs

  -- The condition that refuses a bundle, less the test of the constant.
  abbrev pub misfits : LeafRegistry P → InstalledShare P → List Member → Scalar → Bool
  misfits r identity members next_node =
      not (length members == length r.vaults)
      || (identity.handle == r.identity_handle
          || (any (λ v. v.1.member_handle == identity.handle) r.vaults
              || (not (target_eq identity.target (single r.device))
                  || not (scalar_eq next_node r.node))))

  -- What `activate_inner_bundle` computes before it writes: the identity map, the inner epoch and
  -- the anchors.
  unfoldable pub accept_bundle :
      LeafRegistry P
      → InstalledShare P
      → List Member
      → Result (IdentityMap P × ℕ × List (ℕ × Scalar × MemberMap P))
  unfolding check_members next_anchors
  accept_bundle r identity members = do
    shape ← single_of identity
    next_identity_map ← identity_map P shape identity.points
    next_node ← device_node P shape r.device
    fail_if (misfits r identity members next_node) epoch_mismatch
    constant ← points_constant P identity.points
    fail_if (not (element_eq constant r.identity_key)) epoch_mismatch
    inner ← check_members r identity none members r.vaults
    next_inner ← or_fail inner empty_input
    anchors ← next_anchors shape identity.share members
    ok (next_identity_map, next_inner, anchors)

  -- The writes of `activate_inner_bundle`.
  abbrev pub install_inner :
      LeafRegistry P
      → InstalledShare P
      → IdentityMap P × ℕ × List (ℕ × Scalar × MemberMap P)
      → LeafRegistry P
  install_inner r identity (next_identity_map, next_inner, anchors) = record r {
    live = none;
    identity_share = identity.share;
    identity_map = next_identity_map;
    inner_epoch = next_inner;
    identity_handle = identity.handle;
    vaults = write_anchors identity.handle r.vaults anchors;
  }

  -- `LeafRegistry::activate_inner_bundle`
  unfoldable pub activate_inner_bundle :
      LeafRegistry P → InstalledShare P → List Member → Result (Unit {0}) × LeafRegistry P
  unfolding accept_bundle write_anchors
  activate_inner_bundle r identity members =
      elim (accept_bundle r identity (sort_by_key (λ m. m.0.anchor.vault) members)) [
        | err e ↦ (err e, r)
        | ok accepted ↦ (ok tt, install_inner r identity accepted)
      ]

  -- `LeafRegistry::activate_inner`
  unfoldable pub activate_inner :
      LeafRegistry P
      → KeyEpoch
      → InstalledShare P
      → InstalledShare P
      → Result (Unit {0}) × LeafRegistry P
  unfolding activate_inner_bundle
  activate_inner r e identity member = activate_inner_bundle r identity ((e, member) ∷ [])

  -- The condition that refuses an outer activation, less the test of the constant.
  unfoldable pub bad_outer :
      LeafRegistry P → KeyEpoch → InstalledShare P → ℕ → ℕ → VaultState P → OuterTarget P → Bool
  bad_outer r e member person device vault target =
      not (e.anchor.person == r.person)
      || (not (person == r.person)
          || (not (device == r.device)
              || (not (scalar_eq target.node vault.outer_node)
                  || (not (same_roster P r.identity_map target.inner)
                      || (leb e.outer vault.outer_epoch
                          || (not (e.inner == r.inner_epoch)
                              || (not (e.anchor.identity == r.identity_handle)
                                  || (not (e.anchor.member == member.handle)
                                      || member.handle == vault.member_handle))))))))

  -- The new state of the vault, from the shape of the member's target.
  unfoldable pub accept_from :
      LeafRegistry P
      → KeyEpoch
      → InstalledShare P
      → ℕ
      → ℕ
      → VaultState P
      → TargetShape P
      → Result (VaultState P)
  unfolding bad_outer
  accept_from r e member person device vault (single_shape shape) = err support_mismatch
  accept_from r e member person device vault (outer_shape shape) = do
    target ← outer_person P shape person
    fail_if (bad_outer r e member person device vault target) epoch_mismatch
    constant ← points_constant P member.points
    fail_if (not (element_eq constant vault.vault_key)) epoch_mismatch
    value ← member_constant P member.points person
    point ← point_new P value
    (next_outer_map, next_member_map) ← outer_maps P shape member.points person
    ok (record vault {
      outer_epoch = e.outer;
      member_handle = e.anchor.member;
      member_point = point;
      anchor = anchor_share P member.share r.identity_share;
      member_map = next_member_map;
      outer_map = next_outer_map;
    })

  -- The new state of the vault, from the member's target.
  unfoldable pub accept_target :
      LeafRegistry P → KeyEpoch → InstalledShare P → TargetId → Result (VaultState P)
  unfolding accept_from
  accept_target r e member (single d) = err participant_mismatch
  accept_target r e member (outer person device) = do
    vault ← or_fail (lookup e.anchor.vault r.vaults) epoch_mismatch
    accept_from r e member person device vault member.shape

  -- `LeafRegistry::activate_outer`; `insert` at a key that is there replaces its value.
  unfoldable pub activate_outer :
      LeafRegistry P → KeyEpoch → InstalledShare P → Result (Unit {0}) × LeafRegistry P
  unfolding accept_target
  activate_outer r e member = elim (accept_target r e member member.target) [
    | err x ↦ (err x, r)
    | ok vault ↦
        let r' = close_vault_live P r e.anchor.vault in
        (ok tt, record r' { vaults = insert e.anchor.vault vault r'.vaults })
  ]
