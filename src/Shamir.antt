-- ===== src/Shamir.antt =====
-- shamir.rs and the group operations of algebra.rs and keys.rs: nodes, polynomials, Lagrange rows
-- at zero, commitments. Secrets are plain scalars; clearing them from memory is not modelled.
use coupery_ksnf.Base.{ℕ, suc, List, [], ◌∷◌, ◌++◌, map, any, length, if◌then◌else◌, ◌==◌, not}
use mathlib.Core.List.{reverse, foldl}
use coupery_ksnf.Outcome.{
  Result, ok, err, ◌>>=◌, ◌>>◌, fail_if, or_fail, zero_node, empty_input, duplicate_node,
  length_mismatch, identity_point,
}
use coupery_ksnf.Profile.{Profile}

module _ (P : Profile) where
  open P use {
    Scalar, Element, scalar_eq, element_eq, zero_scalar, one_scalar, add_scalar, sub_scalar,
    mul_scalar, invert, identity, generator, add_element, scale,
  }

  -- `Element::from_scalar`
  unfoldable pub from_scalar : Scalar → Element
  from_scalar s = scale generator s

  -- `Point::new`, and with it `Point::try_from(element)`.
  unfoldable pub point_new : Element → Result Element
  point_new e = if element_eq e identity then err identity_point else ok e

  -- `Node::new`
  unfoldable pub node_new : Scalar → Result Scalar
  node_new s = if scalar_eq s zero_scalar then err zero_node else ok s

  -- `Polynomial::new`
  unfoldable pub polynomial_new : List Scalar → Result (List Scalar)
  polynomial_new [] = err empty_input
  polynomial_new (c ∷ cs) = ok (c ∷ cs)

  -- `Polynomial::evaluate`
  unfoldable pub evaluate : List Scalar → Scalar → Scalar
  evaluate coefficients node =
      foldl (λ acc c. add_scalar (mul_scalar acc node) c) zero_scalar (reverse coefficients)

  -- `Polynomial::commitments`
  unfoldable pub commitments : List Scalar → List Element
  commitments = map from_scalar

  -- `evaluate_commitments` of genesis.rs and `evaluate_points` of contribution.rs
  unfoldable pub evaluate_commitments : List Element → Scalar → Element
  evaluate_commitments coefficients node =
      foldl (λ acc c. add_element (scale acc node) c) identity (reverse coefficients)

  -- `validate_support`, from the index at which `prior` ends.
  unfoldable pub validate_from : List Scalar → List Scalar → Result (Unit {0})
  validate_from prior [] = ok tt
  validate_from prior (node ∷ nodes) =
      let rest = validate_from (prior ++ node ∷ []) nodes in
      if any (scalar_eq node) prior then err duplicate_node else rest

  unfoldable pub validate_support : List Scalar → Result (Unit {0})
  unfolding validate_from
  validate_support [] = err empty_input
  validate_support (n ∷ ns) = validate_from [] (n ∷ ns)

  -- The inner loop of `lagrange_at_zero` from index `j`, on the numerator and the denominator.
  unfoldable pub products : ℕ → Scalar → ℕ → List Scalar → Scalar × Scalar → Scalar × Scalar
  products i node_i j [] acc = acc
  products i node_i j (node_j ∷ nodes) (numerator, denominator) = products i node_i (suc j) nodes (
      if i == j then (numerator, denominator) else (
        mul_scalar numerator (sub_scalar zero_scalar node_j),
        mul_scalar denominator (sub_scalar node_i node_j),
      ))

  -- The outer loop from index `i`.
  unfoldable pub lagrange_rows : List Scalar → ℕ → List Scalar → Result (List Scalar)
  lagrange_rows nodes i [] = ok []
  lagrange_rows nodes i (node_i ∷ rest) =
      let (numerator, denominator) = products i node_i 0 nodes (one_scalar, one_scalar) in
      do
        inverse ← or_fail (invert denominator) duplicate_node
        row ← lagrange_rows nodes (suc i) rest
        ok (mul_scalar numerator inverse ∷ row)

  unfoldable pub lagrange_at_zero : List Scalar → Result (List Scalar)
  lagrange_at_zero nodes = do validate_support nodes; lagrange_rows nodes 0 nodes

  -- The sum of the products of a row and the values, as far as both go.
  unfoldable pub dot : Scalar → List Scalar → List Scalar → Scalar
  dot sum (c ∷ cs) (v ∷ vs) = dot (add_scalar sum (mul_scalar c v)) cs vs
  dot sum _ _ = sum

  unfoldable pub interpolate_constant : List Scalar → List Scalar → Result Scalar
  interpolate_constant nodes values = do
    fail_if (not (length nodes == length values)) length_mismatch
    row ← lagrange_at_zero nodes
    ok (dot zero_scalar row values)

  -- keys.rs
  unfoldable pub anchor_share : Scalar → Scalar → Scalar
  anchor_share member identity_share = sub_scalar member identity_share

  unfoldable pub signing_share : Scalar → Scalar → Scalar
  signing_share identity_share anchor = add_scalar identity_share anchor
