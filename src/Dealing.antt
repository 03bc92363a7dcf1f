-- ===== src/Dealing.antt =====
-- The data of dealing/shape.rs, dealing/contribution.rs and dealing/target.rs that a leaf installs:
-- target shapes, public points and an installed share, with the points' evaluation. (Commands,
-- contributions and candidates are not modelled.)
use coupery_ksnf.Base.{ℕ, Bool, false, ◌&&◌, List, find, head?, list_eq, ◌==◌}
use coupery_ksnf.Outcome.{
  Result, ok, err, ◌>>=◌, or_fail, empty_input, support_mismatch, participant_not_found,
  participant_mismatch,
}
use coupery_ksnf.Profile.{Profile}
use coupery_ksnf.Shamir.{evaluate_commitments}

pub data TargetId : Type 0 where
  single : ℕ → TargetId
  outer : ℕ → ℕ → TargetId

-- The derived equality.
abbrev pub target_eq : TargetId → TargetId → Bool
target_eq (single d) (single e) = d == e
target_eq (outer p d) (outer q e) = p == q && d == e
target_eq _ _ = false

module _ (P : Profile) where
  open P use {Scalar, Element, scalar_eq}

  pub record TargetDevice : Type 0 where
    pub device : ℕ
    pub node : Scalar

  pub record SingleShape : Type 0 where
    pub threshold : ℕ
    pub devices : List TargetDevice

  pub record OuterTarget : Type 0 where
    pub person : ℕ
    pub node : Scalar
    pub inner : SingleShape

  pub record OuterShape : Type 0 where
    pub threshold : ℕ
    pub people : List OuterTarget

  pub data TargetShape : Type 0 where
    single_shape : SingleShape → TargetShape
    outer_shape : OuterShape → TargetShape

  pub data ContributionPoints : Type 0 where
    single_points : List Element → ContributionPoints
    outer_points : List Element → List (ℕ × List Element) → ContributionPoints

  pub record InstalledShare : Type 0 where
    pub target : TargetId
    pub shape : TargetShape
    pub handle : ℕ
    pub share : Scalar
    pub public : Element
    pub points : ContributionPoints

  abbrev pub device_eq : TargetDevice → TargetDevice → Bool
  device_eq a b = a.device == b.device && scalar_eq a.node b.node

  abbrev pub single_shape_eq : SingleShape → SingleShape → Bool
  single_shape_eq a b = a.threshold == b.threshold && list_eq device_eq a.devices b.devices

  abbrev pub outer_target_eq : OuterTarget → OuterTarget → Bool
  outer_target_eq a b =
      a.person == b.person && (scalar_eq a.node b.node && single_shape_eq a.inner b.inner)

  -- The derived equality of shapes.
  abbrev pub shape_eq : TargetShape → TargetShape → Bool
  shape_eq (single_shape a) (single_shape b) = single_shape_eq a b
  shape_eq (outer_shape a) (outer_shape b) =
      a.threshold == b.threshold && list_eq outer_target_eq a.people b.people
  shape_eq _ _ = false

  -- `SingleShape::device` and `target_node` of leaf.rs: the node of one device.
  unfoldable pub device_node : SingleShape → ℕ → Result Scalar
  device_node shape device = do
    entry ← or_fail (find (λ d. d.device == device) shape.devices) participant_not_found
    ok entry.node

  -- `OuterShape::person`
  unfoldable pub outer_person : OuterShape → ℕ → Result OuterTarget
  outer_person shape person =
      or_fail (find (λ p. p.person == person) shape.people) participant_not_found

  -- `TargetShape::target_node`
  unfoldable pub target_node : TargetShape → TargetId → Result Scalar
  target_node (single_shape shape) (single device) = device_node shape device
  target_node (outer_shape shape) (outer person device) = do
    target ← outer_person shape person
    device_node target.inner device
  target_node _ _ = err participant_mismatch

  -- The points of one member.
  unfoldable pub member_points : List (ℕ × List Element) → ℕ → Result (List Element)
  member_points members person = do
    entry ← or_fail (find (λ m. m.0 == person) members) participant_not_found
    ok entry.1

  -- `ContributionPoints::constant`
  unfoldable pub points_constant : ContributionPoints → Result Element
  points_constant (single_points points) = or_fail (head? points) empty_input
  points_constant (outer_points points members) = or_fail (head? points) empty_input

  -- `ContributionPoints::member_constant`
  unfoldable pub member_constant : ContributionPoints → ℕ → Result Element
  unfolding member_points
  member_constant (single_points points) person = err support_mismatch
  member_constant (outer_points points members) person = do
    found ← member_points members person
    or_fail (head? found) empty_input

  unfoldable pub evaluate_at : ContributionPoints → TargetId → Scalar → Result Element
  unfolding member_points
  evaluate_at (single_points ps) (single _) node = ok (evaluate_commitments P ps node)
  evaluate_at (outer_points ps members) (outer person _) node = do
    found ← member_points members person
    ok (evaluate_commitments P found node)
  evaluate_at _ _ node = err participant_mismatch

  -- `ContributionPoints::evaluate`
  unfoldable pub evaluate_target : ContributionPoints → TargetShape → TargetId → Result Element
  unfolding evaluate_at
  evaluate_target points shape target = do
    node ← target_node shape target
    evaluate_at points target node
