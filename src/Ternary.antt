-- ===== src/Ternary.antt =====
-- A profile to run the wire formats and the signing equations on: the group of order three, each
-- scalar in 32 bytes and each point in one, with its canonical encodings and its laws.
use coupery_ksnf.Base.{
  ℕ, zero, suc, ◌%◌, ◌≡◌, refl, ◌↔◌, Bool, true, false, ◌&&◌, Option, none, some, List, [], ◌∷◌,
  ◌++◌, arith, ◌==◌, if◌then◌else◌,
}
use coupery_ksnf.Order.{nat_key}
use coupery_ksnf.Outcome.{ok}
use coupery_ksnf.Profile.{Profile, PointRead, identity_element, malformed, point}
use coupery_ksnf.Reader.Elements.{CanonicalCodec}
use coupery_ksnf.Signing.Algebra.{GroupLaws}

pub data Residue : Type 0 where
  r0 r1 r2 : Residue

abbrev same : Residue → Residue → Bool
same r0 r0 = true
same r1 r1 = true
same r2 r2 = true
same _ _ = false

pub same_iff : (a b : Residue) → (same a b ≡ true) ↔ (a ≡ b)
same_iff r0 r0 = (λ h. refl, λ h. refl)
same_iff r1 r1 = (λ h. refl, λ h. refl)
same_iff r2 r2 = (λ h. refl, λ h. refl)
same_iff r0 r1 = (λ h. ground arith, λ h. ground arith)
same_iff r0 r2 = (λ h. ground arith, λ h. ground arith)
same_iff r1 r0 = (λ h. ground arith, λ h. ground arith)
same_iff r1 r2 = (λ h. ground arith, λ h. ground arith)
same_iff r2 r0 = (λ h. ground arith, λ h. ground arith)
same_iff r2 r1 = (λ h. ground arith, λ h. ground arith)

abbrev next : Residue → Residue
next r0 = r1
next r1 = r2
next r2 = r0

abbrev add : Residue → Residue → Residue
add r0 b = b
add r1 b = next b
add r2 b = next (next b)

abbrev neg : Residue → Residue
neg r0 = r0
neg r1 = r2
neg r2 = r1

abbrev mul : Residue → Residue → Residue
mul r0 b = r0
mul r1 b = b
mul r2 b = neg b

abbrev inverse : Residue → Option Residue
inverse r0 = none
inverse r1 = some r1
inverse r2 = some r2

abbrev byte : Residue → ℕ
byte r0 = 0
byte r1 = 1
byte r2 = 2

abbrev residue : ℕ → Option Residue
residue b = if b == 0 then some r0 else if b == 1 then some r1 else if b == 2 then some r2 else none

-- A byte after this many zeros.
abbrev padded : ℕ → ℕ → List ℕ
padded zero b = b ∷ []
padded (suc n) b = 0 ∷ padded n b

abbrev read_padded : ℕ → List ℕ → Option Residue
read_padded zero (b ∷ []) = residue b
read_padded (suc n) (b ∷ bytes) = let rest = read_padded n bytes in if b == 0 then rest else none
read_padded _ _ = none

-- A scalar has 32 bytes.
abbrev read_scalar : List ℕ → Option Residue
read_scalar = read_padded 31

abbrev read_point : List ℕ → PointRead Residue
read_point (b ∷ []) =
    if b == 0
    then identity_element
    else if b == 1
    then point r1
    else if b == 2
    then point r2
    else malformed
read_point _ = malformed

-- The sum of the bytes, as a hash.
abbrev sum3 : List ℕ → Residue
sum3 [] = r1
sum3 (b ∷ bs) = elim (residue (b % 3)) [ none ↦ r0 | some r ↦ add r (sum3 bs) ]

abbrev pub ternary : Profile
ternary = record {
  Scalar = Residue;
  Element = Residue;
  scalar_eq = same;
  scalar_eq_iff = same_iff;
  element_eq = same;
  element_eq_iff = same_iff;
  zero_scalar = r0;
  one_scalar = r1;
  add_scalar = add;
  sub_scalar = λ a b. add a (neg b);
  mul_scalar = mul;
  invert = inverse;
  identity = r0;
  generator = r1;
  add_element = add;
  scale = mul;
  hash_to_scalar = λ d bytes. ok (sum3 bytes);
  encode_scalar = λ s. padded 31 (byte s);
  encode_point = λ e. byte e ∷ [];
  decode_scalar = read_scalar;
  decode_point = read_point;
  challenge = λ nonce key message. ok (sum3 (nonce ++ (key ++ message)));
  protocol_id = 75 ∷ 83 ∷ [];
  wire_id = 1;
}

reads_scalar : (s : Residue) → read_scalar (padded 31 (byte s)) ≡ some s
reads_scalar r0 = refl
reads_scalar r1 = refl
reads_scalar r2 = refl

reads_point : (e : Residue) → same e r0 ≡ false → read_point (byte e ∷ []) ≡ point e
reads_point r0 h = ground arith
reads_point r1 h = refl
reads_point r2 h = refl

pub ternary_codec : CanonicalCodec ternary
ternary_codec = record {
  scalar_length = λ s. refl;
  scalar_reads = reads_scalar;
  point_length = λ e. refl;
  point_reads = reads_point;
  version_fits = omega arith;
}

-- A test of every residue.
abbrev each : (Residue → Bool) → Bool
each f = f r0 && (f r1 && f r2)

each_holds : (f : Residue → Bool) → each f ≡ true → (a : Residue) → f a ≡ true
each_holds f h r0 = ground arith
each_holds f h r1 = ground arith
each_holds f h r2 = ground arith

-- Two functions of two residues, or of three, are equal when a run over all of them finds so.
equal_on_pairs :
    (f g : Residue → Residue → Residue)
    → each (λ a. each (λ b. same (f a b) (g a b))) ≡ true
    → (a b : Residue) → f a b ≡ g a b
equal_on_pairs f g h a b = (same_iff (f a b) (g a b)).0 (
    each_holds (λ y. same (f a y) (g a y)) (each_holds (λ x. each (λ y. same (f x y) (g x y))) h a)
      b)

equal_on_triples :
    (f g : Residue → Residue → Residue → Residue)
    → each (λ a. each (λ b. each (λ c. same (f a b c) (g a b c)))) ≡ true
    → (a b c : Residue) → f a b c ≡ g a b c
equal_on_triples f g h a =
    equal_on_pairs (f a) (g a)
      (each_holds (λ x. each (λ b. each (λ c. same (f x b c) (g x b c)))) h a)

pub ternary_laws : GroupLaws ternary
ternary_laws = record {
  add_assoc = equal_on_triples (λ x y z. add (add x y) z) (λ x y z. add x (add y z)) refl;
  add_comm = equal_on_pairs add (λ x y. add y x) refl;
  identity-add = λ x. refl;
  scale-add_scalar =
      equal_on_triples (λ x a b. mul x (add a b)) (λ x a b. add (mul x a) (mul x b)) refl;
  scale-mul_scalar = equal_on_triples (λ x a b. mul x (mul a b)) (λ x a b. mul (mul x b) a) refl;
  scale-add_element =
      equal_on_triples (λ x y a. mul (add x y) a) (λ x y a. add (mul x a) (mul y a)) refl;
  scale-zero = λ x. equal_on_pairs (λ a b. mul a r0) (λ a b. r0) refl x r0;
  scale-identity = λ a. refl;
  mul_comm = equal_on_pairs mul (λ a b. mul b a) refl;
}
