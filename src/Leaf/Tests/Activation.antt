-- ===== src/Leaf/Tests/Activation.antt =====
-- The theorems on activations at the states of the run.
use coupery_ksnf.Base.{◌<◌, ◌≡◌, ◌≢◌, refl, none, [], ◌∷◌}
use mathlib.Core.List.{Memᴰ}
use coupery_ksnf.Order.{nat_key}
use coupery_ksnf.Sort.{sort_by_key, insert_sorted}
use coupery_ksnf.Outcome.{ok}
use coupery_ksnf.Types.{KeyEpoch}
use coupery_ksnf.Shamir.{evaluate_commitments, point_new, anchor_share}
use coupery_ksnf.Dealing.{
  InstalledShare, single, outer, single_shape, outer_shape, SingleShape, single_points,
  outer_points, points_constant, member_constant, device_node, outer_person, evaluate_target,
  evaluate_at, target_node, member_points,
}
use coupery_ksnf.Leaf.State.{LeafRegistry, VaultState, epoch}
use coupery_ksnf.Leaf.Install.{identity_map, member_map, map_devices, outer_maps, map_people}
use coupery_ksnf.Leaf.Activate.{
  activate_inner_bundle, accept_bundle, check_members, bad_member, next_anchors, install_inner,
  activate_outer, accept_target, accept_from, bad_outer,
}
use coupery_ksnf.Leaf.Epochs.{activate_inner_bundle-epochs}
use coupery_ksnf.Leaf.Tests as Run

abbrev roster : SingleShape Run.small
roster = record { threshold = 1; devices = record { device = 8; node = 1 } ∷ [] }

abbrev identity : InstalledShare Run.small
identity = record {
  target = single 8;
  shape = single_shape roster;
  handle = 40;
  share = 2;
  public = 2;
  points = single_points (2 ∷ []);
}

abbrev member : InstalledShare Run.small
member = record {
  target = single 8;
  shape = single_shape roster;
  handle = 40;
  share = 5;
  public = 5;
  points = single_points (5 ∷ []);
}

abbrev second_epoch : KeyEpoch
second_epoch = record {
  outer = 1;
  inner = 2;
  anchor = record { vault = 4; person = 6; identity = 40; member = 40 };
}

abbrev renewed : LeafRegistry Run.small
renewed = install_inner Run.small Run.reserved identity (
  record { commitments = 2 ∷ []; devices = (8, 1, 2) ∷ [] },
  2,
  (4, 3, record { commitments = 5 ∷ [] }) ∷ [],
)

renews :
    activate_inner_bundle Run.small Run.reserved identity ((second_epoch, member) ∷ [])
    ≡ (ok tt, renewed)
unfolding activate_inner_bundle accept_bundle check_members bad_member next_anchors identity_map
    member_map map_devices device_node points_constant evaluate_target evaluate_at target_node
    evaluate_commitments anchor_share sort_by_key insert_sorted
renews = refl

abbrev pub old_vault : VaultState Run.small
old_vault = record {
  outer_node = 1;
  outer_epoch = 1;
  member_handle = 21;
  member_point = 5;
  vault_key = 5;
  anchor = 3;
  member_map = record { commitments = 5 ∷ [] };
  outer_map = record { commitments = 5 ∷ []; people = (6, 1, 5) ∷ [] };
}

activate_inner_bundle-epochs_example :
    (e : KeyEpoch) × (share : InstalledShare Run.small) × Memᴰ
      {A = KeyEpoch × InstalledShare Run.small}
      (e, share)
      ((second_epoch, member) ∷ [])
    × (epoch Run.small renewed 4 ≡ ok e)
    × (1 < e.inner)
    × (e.anchor.identity ≢ 20)
    × (renewed.live ≡ none)
    × (renewed.next_sequence ≡ Run.reserved.next_sequence)
activate_inner_bundle-epochs_example =
    activate_inner_bundle-epochs Run.small Run.reserved renewed identity
      ((second_epoch, member) ∷ []) 4 old_vault renews refl

abbrev pub outer_member : InstalledShare Run.small
outer_member = record {
  target = outer 6 8;
  shape =
      outer_shape
        (record { threshold = 1; people = record { person = 6; node = 1; inner = roster } ∷ [] });
  handle = 50;
  share = 5;
  public = 5;
  points = outer_points (5 ∷ []) ((6, 5 ∷ []) ∷ []);
}

abbrev pub outer_epoch : KeyEpoch
outer_epoch = record {
  outer = 2;
  inner = 1;
  anchor = record { vault = 4; person = 6; identity = 20; member = 50 };
}

abbrev pub moved : LeafRegistry Run.small
moved = record Run.reserved {
  live = none;
  vaults = (4, record old_vault { outer_epoch = 2; member_handle = 50 }) ∷ [];
}

pub moves : activate_outer Run.small Run.reserved outer_epoch outer_member ≡ (ok tt, moved)
unfolding activate_outer accept_target accept_from bad_outer outer_person points_constant
    member_constant member_points point_new outer_maps map_people anchor_share
moves = refl
