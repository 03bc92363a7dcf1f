-- ===== src/Order.antt =====
-- Keys of the source's ordered maps and sets: `Ord` with the equality that goes with it.
-- Identifiers (types.rs) are arrays of 32 bytes with the derived order; here each is the number
-- that its bytes spell, the first byte the most significant, so that the orders agree.
use coupery_ksnf.Base.{
  ℕ, ◌≡◌, refl, ◌↔◌, Bool, true, false, ◌&&◌, ◌||◌, List, [], ◌∷◌, arith, ltb, ◌==◌ as nat_beq,
  ==_iff,
}

pub record Key {ℓ} (K : Type ℓ) : Type ℓ where
  pub beq : K → K → Bool
  pub lt : K → K → Bool
  pub beq_iff : (a b : K) → (beq a b ≡ true) ↔ (a ≡ b)

infix 50 ◌==◌ ◌<?◌
abbrev pub ◌==◌ {ℓ} : {K : Type ℓ} ⦃k : Key K⦄ → K → K → Bool
◌==◌ ⦃k⦄ = k.beq

abbrev pub ◌<?◌ {ℓ} : {K : Type ℓ} ⦃k : Key K⦄ → K → K → Bool
◌<?◌ ⦃k⦄ = k.lt

instance abbrev pub nat_key : Key ℕ
nat_key = record { beq = nat_beq; lt = ltb; beq_iff = ==_iff }

module _ {ℓ} {A : Type ℓ} ⦃k : Key A⦄ where
  unfoldable pub list_beq : List A → List A → Bool
  list_beq [] [] = true
  list_beq (x ∷ xs) (y ∷ ys) = k.beq x y && list_beq xs ys
  list_beq _ _ = false

  -- Lexicographic, a prefix first.
  unfoldable pub list_lt : List A → List A → Bool
  list_lt [] [] = false
  list_lt [] (y ∷ ys) = true
  list_lt (x ∷ xs) [] = false
  list_lt (x ∷ xs) (y ∷ ys) = k.lt x y || (k.beq x y && list_lt xs ys)

  pub list_beq_iff : (xs ys : List A) → (list_beq xs ys ≡ true) ↔ (xs ≡ ys)
  unfolding list_beq
  list_beq_iff [] [] = (λ _. refl, λ _. refl)
  list_beq_iff [] (y ∷ ys) = (λ h. cc, λ h. cc)
  list_beq_iff (x ∷ xs) [] = (λ h. cc, λ h. cc)
  list_beq_iff (x ∷ xs) (y ∷ ys) = ground (arith, k.beq_iff x y, list_beq_iff xs ys)

instance abbrev pub list_key {ℓ} : {A : Type ℓ} ⦃k : Key A⦄ → Key (List A)
list_key = record { beq = list_beq; lt = list_lt; beq_iff = list_beq_iff }

module _ {ℓ κ} {A : Type ℓ} {B : Type κ} ⦃j : Key A⦄ ⦃k : Key B⦄ where
  pub pair_beq_iff : (p q : A × B) → ((j.beq p.0 q.0 && k.beq p.1 q.1) ≡ true) ↔ (p ≡ q)
  pair_beq_iff (a, b) (c, d) = ground (arith, j.beq_iff a c, k.beq_iff b d)

instance abbrev pub pair_key {ℓ κ} : {A : Type ℓ} {B : Type κ} ⦃j : Key A⦄ ⦃k : Key B⦄ → Key (A × B)
pair_key ⦃j⦄ ⦃k⦄ = record {
  beq = λ p q. j.beq p.0 q.0 && k.beq p.1 q.1;
  lt = λ p q. j.lt p.0 q.0 || (j.beq p.0 q.0 && k.lt p.1 q.1);
  beq_iff = pair_beq_iff;
}
