-- ===== src/Signing/Algebra.antt =====
-- The laws of a group of prime order that the Schnorr equations of signing.rs rest on, and the
-- equation of one response.
use coupery_ksnf.Base.{◌≡◌, sym, ◌∙◌, ap, arith}
use coupery_ksnf.Outcome.{ok}
use coupery_ksnf.Profile.{Profile}
use coupery_ksnf.Shamir.{from_scalar, point_new}
use coupery_ksnf.Signing.{NoncePair, Nonce, bind_pair, nonce_commitments, nonce_respond}
use coupery_ksnf.Signing.Schnorr.{verify_device, verify_member}

module _ (P : Profile) where
  open P use {
    Scalar, Element, element_eq, zero_scalar, add_scalar, mul_scalar, identity, generator,
    add_element, scale,
  }

  -- The group is commutative and its scalars act on it.
  pub record GroupLaws : Type 0 where
    pub add_assoc :
        (x y z : Element) → add_element (add_element x y) z ≡ add_element x (add_element y z)
    pub add_comm : (x y : Element) → add_element x y ≡ add_element y x
    pub identity-add : (x : Element) → add_element identity x ≡ x
    pub scale-add_scalar :
        (x : Element) (a b : Scalar)
        → scale x (add_scalar a b) ≡ add_element (scale x a) (scale x b)
    pub scale-mul_scalar :
        (x : Element) (a b : Scalar) → scale x (mul_scalar a b) ≡ scale (scale x b) a
    pub scale-add_element :
        (x y : Element) (a : Scalar)
        → scale (add_element x y) a ≡ add_element (scale x a) (scale y a)
    pub scale-zero : (x : Element) → scale x zero_scalar ≡ identity
    pub scale-identity : (a : Scalar) → scale identity a ≡ identity
    pub mul_comm : (a b : Scalar) → mul_scalar a b ≡ mul_scalar b a

  module _ (l : GroupLaws) where
    infixl 65 ◌⊕◌
    abbrev pub ◌⊕◌ : Element → Element → Element
    x ⊕ y = add_element x y

    pub add_interchange : (a b c d : Element) → (a ⊕ b) ⊕ (c ⊕ d) ≡ (a ⊕ c) ⊕ (b ⊕ d)
    add_interchange a b c d =
        l.add_assoc a b (c ⊕ d)
        ∙ ap (λ x. a ⊕ x)
            (sym (l.add_assoc b c d) ∙ ap (λ x. x ⊕ d) (l.add_comm b c) ∙ l.add_assoc c b d)
        ∙ sym (l.add_assoc a c (b ⊕ d))

    -- Scalars act in any order.
    pub scale_comm : (x : Element) (a b : Scalar) → scale (scale x a) b ≡ scale (scale x b) a
    scale_comm x a b =
        sym (l.scale-mul_scalar x b a) ∙ ap (scale x) (l.mul_comm b a) ∙ l.scale-mul_scalar x a b

    -- A response is the response of its nonce's pair and of the point of its share.
    pub nonce_respond_equation :
        (n : Nonce P) (factor c k share : Scalar)
        → from_scalar P (nonce_respond P n factor c k share)
          ≡ bind_pair P
              (record { hiding = from_scalar P n.hiding; binding = from_scalar P n.binding })
              factor
            ⊕ scale (from_scalar P share) (mul_scalar c k)
    unfolding nonce_respond bind_pair from_scalar
    nonce_respond_equation n factor c k share =
        l.scale-add_scalar generator _ _
        ∙ ap (λ x. x ⊕ scale generator (mul_scalar (mul_scalar c k) share))
            (l.scale-add_scalar generator _ _
              ∙ ap (λ x. scale generator n.hiding ⊕ x)
                  (l.scale-mul_scalar generator factor n.binding))
        ∙ ap (λ x. (scale generator n.hiding ⊕ scale (scale generator n.binding) factor) ⊕ x)
            (l.scale-mul_scalar generator (mul_scalar c k) share)

    -- A coefficient may weigh the challenge or the point.
    pub scale_weight :
        (x : Element) (c k outer : Scalar)
        → scale x (mul_scalar c (mul_scalar k outer)) ≡ scale (scale x k) (mul_scalar c outer)
    scale_weight x c k outer =
        l.scale-mul_scalar x c (mul_scalar k outer)
        ∙ ap (λ y. scale y c) (l.scale-mul_scalar x k outer ∙ scale_comm x outer k)
        ∙ sym (l.scale-mul_scalar (scale x k) c outer)

    -- The sum of two equations of the members' form is one.
    pub equation-add :
        (h b w h' b' w' : Element) (factor k : Scalar)
        → ((h ⊕ scale b factor) ⊕ scale w k) ⊕ ((h' ⊕ scale b' factor) ⊕ scale w' k)
          ≡ ((h ⊕ h') ⊕ scale (b ⊕ b') factor) ⊕ scale (w ⊕ w') k
    equation-add h b w h' b' w' factor k =
        add_interchange (h ⊕ scale b factor) (scale w k) (h' ⊕ scale b' factor) (scale w' k)
        ∙ ap (λ x. x ⊕ (scale w k ⊕ scale w' k))
            (add_interchange h (scale b factor) h' (scale b' factor)
              ∙ ap (λ x. (h ⊕ h') ⊕ x) (sym (l.scale-add_element b b' factor)))
        ∙ ap (λ x. ((h ⊕ h') ⊕ scale (b ⊕ b') factor) ⊕ x) (sym (l.scale-add_element w w' k))

  -- Passing a check of a response is its equation.
  pub verify_device-equation :
      (z : Scalar) (n : NoncePair P) (factor c k : Scalar) (share : Element)
      → verify_device P z n factor c k share ≡ ok tt
      → from_scalar P z ≡ add_element (bind_pair P n factor) (scale share (mul_scalar c k))
  unfolding verify_device
  verify_device-equation z n factor c k share h = (P.element_eq_iff _ _).0 (ground arith)

  pub equation-verify_device :
      (z : Scalar) (n : NoncePair P) (factor c k : Scalar) (share : Element)
      → from_scalar P z ≡ add_element (bind_pair P n factor) (scale share (mul_scalar c k))
      → verify_device P z n factor c k share ≡ ok tt
  unfolding verify_device
  equation-verify_device z n factor c k share h =
      let same = (P.element_eq_iff _ _).1 h in ground (arith, same)

  pub verify_member-equation :
      (z : Scalar) (n : NoncePair P) (factor c k : Scalar) (member : Element)
      → verify_member P z n factor c k member ≡ ok tt
      → from_scalar P z ≡ add_element (bind_pair P n factor) (scale member (mul_scalar c k))
  unfolding verify_member
  verify_member-equation z n factor c k member h = (P.element_eq_iff _ _).0 (ground arith)

  pub equation-verify_member :
      (z : Scalar) (n : NoncePair P) (factor c k : Scalar) (member : Element)
      → from_scalar P z ≡ add_element (bind_pair P n factor) (scale member (mul_scalar c k))
      → verify_member P z n factor c k member ≡ ok tt
  unfolding verify_member
  equation-verify_member z n factor c k member h =
      let same = (P.element_eq_iff _ _).1 h in ground (arith, same)

  -- The pair of a nonce that is committed to.
  pub nonce_commitments-pair :
      (n : Nonce P) (pair : NoncePair P)
      → nonce_commitments P n ≡ ok pair
      → pair ≡ record { hiding = from_scalar P n.hiding; binding = from_scalar P n.binding }
  unfolding nonce_commitments point_new
  nonce_commitments-pair n pair h = ground arith
