-- ===== src/Leaf/Install.antt =====
-- The installation of key state in leaf.rs: a registry from genesis states, another vault, and the
-- two activations. A source loop that fails leaves the registry as it was, since each operation
-- checks everything before it writes.
use coupery_ksnf.Base.{
  ℕ, Bool, true, false, ◌&&◌, ◌||◌, not, Option, none, some, List, [], ◌∷◌, head?, length, list_eq,
  ◌==◌, if◌then◌else◌,
}
use coupery_ksnf.Order.{nat_key}
use coupery_ksnf.Map.{insert, contains_key}
use coupery_ksnf.Outcome.{
  Result, ok, err, ◌>>=◌, ◌>>◌, fail_if, or_fail, busy, epoch_mismatch, support_mismatch,
  empty_input,
}
use coupery_ksnf.Types.{KeyEpoch}
use coupery_ksnf.Profile.{Profile}
use coupery_ksnf.Shamir.{from_scalar, point_new}
use coupery_ksnf.Dealing.{
  single, single_shape, SingleShape, OuterShape, OuterTarget, TargetDevice, ContributionPoints,
  single_points, outer_points, member_points, evaluate_target,
}
use coupery_ksnf.Leaf.State.{LeafRegistry, VaultState, IdentityMap, MemberMap, OuterMap}

module _ (P : Profile) where
  open P use {Scalar, Element, scalar_eq, element_eq}

  pub record DeviceGenesisParts : Type 0 where
    pub vault : ℕ
    pub person : ℕ
    pub device : ℕ
    pub outer_node : Scalar
    pub node : Scalar
    pub identity_map : IdentityMap P
    pub member_map : MemberMap P
    pub outer_map : OuterMap P
    pub identity_key : Element
    pub member_point : Element
    pub vault_key : Element
    pub identity_share : Scalar
    pub anchor : Scalar

  unfoldable pub validate_genesis_epoch : DeviceGenesisParts → KeyEpoch → Result (Unit {0})
  validate_genesis_epoch parts e =
      if e.anchor.vault == parts.vault && e.anchor.person == parts.person
      then ok tt
      else err epoch_mismatch

  abbrev pub vault_state : DeviceGenesisParts → KeyEpoch → VaultState P
  vault_state parts e = record {
    outer_node = parts.outer_node;
    outer_epoch = e.outer;
    member_handle = e.anchor.member;
    member_point = parts.member_point;
    vault_key = parts.vault_key;
    anchor = parts.anchor;
    member_map = parts.member_map;
    outer_map = parts.outer_map;
  }

  -- `LeafRegistry::new`
  unfoldable pub new : DeviceGenesisParts → KeyEpoch → Result (LeafRegistry P)
  unfolding validate_genesis_epoch
  new parts e = do
    validate_genesis_epoch parts e
    ok (record {
      device = parts.device;
      person = parts.person;
      node = parts.node;
      identity_map = parts.identity_map;
      identity_key = parts.identity_key;
      identity_share = parts.identity_share;
      inner_epoch = e.inner;
      identity_handle = e.anchor.identity;
      vaults = insert parts.vault (vault_state parts e) [];
      live = none;
      next_sequence = 0;
    })

  abbrev pub entry_eq : ℕ × Scalar × Element → ℕ × Scalar × Element → Bool
  entry_eq (d, n, s) (e, m, t) = d == e && (scalar_eq n m && element_eq s t)

  -- The derived equality.
  abbrev pub identity_map_eq : IdentityMap P → IdentityMap P → Bool
  identity_map_eq a b =
      list_eq element_eq a.commitments b.commitments && list_eq entry_eq a.devices b.devices

  -- The genesis state is not of this registry, or its vault is already there.
  abbrev pub differs : LeafRegistry P → DeviceGenesisParts → KeyEpoch → Bool
  differs r parts e =
      not (parts.device == r.device)
      || (not (parts.person == r.person)
          || (not (scalar_eq parts.node r.node)
              || (not (identity_map_eq parts.identity_map r.identity_map)
                  || (not (element_eq parts.identity_key r.identity_key)
                      || (not (
                            element_eq (from_scalar P parts.identity_share)
                              (from_scalar P r.identity_share))
                          || (not (e.inner == r.inner_epoch)
                              || (not (e.anchor.identity == r.identity_handle)
                                  || contains_key parts.vault r.vaults)))))))

  abbrev pub is_live : {A : Type 0} → Option A → Bool
  is_live none = false
  is_live (some a) = true

  -- `LeafRegistry::add_vault`
  unfoldable pub add_vault :
      LeafRegistry P → DeviceGenesisParts → KeyEpoch → Result (Unit {0}) × LeafRegistry P
  unfolding validate_genesis_epoch
  add_vault r parts e =
      if is_live r.live then (err busy, r) else elim (validate_genesis_epoch parts e) [
        | err x ↦ (err x, r)
        | ok _ ↦
            if differs r parts e
            then (err epoch_mismatch, r)
            else (ok tt, record r { vaults = insert parts.vault (vault_state parts e) r.vaults })
      ]

  -- The loop of `from_vaults`.
  unfoldable pub add_vaults :
      LeafRegistry P → List (DeviceGenesisParts × KeyEpoch) → Result (LeafRegistry P)
  unfolding add_vault
  add_vaults r [] = ok r
  add_vaults r ((parts, e) ∷ states) =
      let (result, r') = add_vault r parts e in do result; add_vaults r' states

  -- `LeafRegistry::from_vaults`
  unfoldable pub from_vaults : List (DeviceGenesisParts × KeyEpoch) → Result (LeafRegistry P)
  unfolding new add_vaults
  from_vaults [] = err empty_input
  from_vaults ((parts, e) ∷ states) = do r ← new parts e; add_vaults r states

  unfoldable pub map_devices :
      SingleShape P
      → ContributionPoints P
      → List (TargetDevice P)
      → Result (List (ℕ × Scalar × Element))
  map_devices shape points [] = ok []
  map_devices shape points (t ∷ ts) =
      let rest = map_devices shape points ts in
      do
        share ← evaluate_target P points (single_shape shape) (single t.device)
        entries ← rest
        ok ((t.device, t.node, share) ∷ entries)

  unfoldable pub identity_map : SingleShape P → ContributionPoints P → Result (IdentityMap P)
  unfolding map_devices
  identity_map shape (outer_points ps ms) = err support_mismatch
  identity_map shape (single_points commitments) = do
    fail_if (not (length commitments == shape.threshold)) support_mismatch
    devices ← map_devices shape (single_points commitments) shape.devices
    ok (record { commitments = commitments; devices = devices })

  unfoldable pub member_map : SingleShape P → ContributionPoints P → Result (MemberMap P)
  member_map shape (outer_points ps ms) = err support_mismatch
  member_map shape (single_points commitments) = do
    fail_if (not (length commitments == shape.threshold)) support_mismatch
    ok (record { commitments = commitments })

  unfoldable pub map_people :
      List (OuterTarget P) → List (ℕ × List Element) → Result (List (ℕ × Scalar × Element))
  map_people (t ∷ ts) ((person, commitments) ∷ ms) =
      let rest = map_people ts ms in
      do
        fail_if (not (t.person == person) || not (length commitments == t.inner.threshold))
            support_mismatch
        constant ← or_fail (head? commitments) empty_input
        member ← point_new P constant
        entries ← rest
        ok ((t.person, t.node, member) ∷ entries)
  map_people _ _ = ok []

  unfoldable pub outer_maps :
      OuterShape P → ContributionPoints P → ℕ → Result (OuterMap P × MemberMap P)
  unfolding map_people
  outer_maps shape (single_points ps) person = err support_mismatch
  outer_maps shape (outer_points commitments members) person = do
    fail_if
        (not (length commitments == shape.threshold) || not (length members == length shape.people))
        support_mismatch
    people ← map_people shape.people members
    found ← member_points P members person
    ok (record { commitments = commitments; people = people }, record { commitments = found })

  abbrev same_entries : List (ℕ × Scalar × Element) → List (TargetDevice P) → Bool
  same_entries ((device, node, _) ∷ es) (t ∷ ts) =
      (device == t.device && scalar_eq node t.node) && same_entries es ts
  same_entries _ _ = true

  abbrev pub same_roster : IdentityMap P → SingleShape P → Bool
  same_roster m shape =
      length m.commitments == shape.threshold
      && (length m.devices == length shape.devices && same_entries m.devices shape.devices)
