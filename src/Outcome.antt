-- ===== src/Outcome.antt =====
-- error.rs: the crate's errors and `Result`, and operations on a mutable state that may fail.
-- A failed operation on `&mut self` keeps what it had already written, so an action returns its
-- state after an error too. `UnexpectedEnd` and `TrailingBytes` carry their byte offsets.
use coupery_ksnf.Base.{ℕ, ◌≡◌, refl, ap, ◌∙◌, ◌⊎◌, inl, inr, Bool, true, false, Option, none, some}

pub data Error : Type 0 where
  unsupported_version protocol_mismatch invalid_point identity_point invalid_scalar : Error
  invalid_tweak invalid_element_tag invalid_identity : Error
  unexpected_end : ℕ → ℕ → Error
  trailing_bytes : ℕ → Error
  length_overflow empty_input length_mismatch zero_node duplicate_node : Error
  duplicate_participant duplicate_slot participant_not_found participant_mismatch : Error
  invalid_transcript commitment_mismatch coefficient_mismatch support_mismatch : Error
  nonce_mismatch share_mismatch output_key_mismatch invalid_sighash busy : Error
  attempt_closed attempt_mismatch attempt_exhausted wrong_stage replay_mismatch : Error
  epoch_mismatch expired receiver_mismatch command_mismatch stale_predecessor : Error
  phase_closed already_terminal zero_nonce identity_nonce invalid_partial : Error
  invalid_signature hash_to_field : Error

-- `Result<T>`, in Rust `Err` or `Ok`.
pub data Result {κ} (T : Type κ) : Type κ where
  err : Error → Result T
  ok : T → Result T

-- `Option::ok_or`
abbrev pub or_fail {κ} : {T : Type κ} → Option T → Error → Result T
or_fail (some t) e = ok t
or_fail none e = err e

-- `if failure { return Err(e) }`
abbrev pub fail_if : Bool → Error → Result (Unit {0})
fail_if failure e = elim failure [ true ↦ err e | false ↦ ok tt ]

-- The operator `?`, whose value the rest of the function may use or not.
infixl 6 ◌>>=◌
abbrev pub ◌>>=◌ {κ ρ} : {T : Type κ} {R : Type ρ} → Result T → (T → Result R) → Result R
first >>= rest = elim first [ err e ↦ err e | ok t ↦ rest t ]

infixl 6 ◌>>◌
abbrev pub ◌>>◌ {ρ} : {R : Type ρ} → Result (Unit {0}) → Result R → Result R
first >> rest = elim first [ err e ↦ err e | ok u ↦ rest ]

-- A chain that succeeds has a first step that succeeds, and so has the rest.
pub >>=-passed {κ ρ} :
    {T : Type κ} {R : Type ρ} (first : Result T) (rest : T → Result R) {out : R}
    → (first >>= rest) ≡ ok out
    → (t : T) × (first ≡ ok t) × (rest t ≡ ok out)
>>=-passed (err e) rest h = cc
>>=-passed (ok t) rest h = (t, refl, h)

pub Result-cases {ℓ} :
    {A : Type ℓ} (m : Result A) → ((a : A) × (m ≡ ok a)) ⊎ ((e : Error) × (m ≡ err e))
Result-cases (ok a) = inl (a, refl)
Result-cases (err e) = inr (e, refl)

pub ok-injective {ℓ} : {A : Type ℓ} (a b : A) → ok a ≡ ok b → a ≡ b
ok-injective a b h = cc

-- A chain whose first result is known.
pub >>=-ok {ℓ κ} :
    {A : Type ℓ} {B : Type κ} (m : Result A) (f : A → Result B) {a : A} {b : Result B}
    → m ≡ ok a
    → f a ≡ b
    → (m >>= f) ≡ b
>>=-ok m f h k = ap (λ n. n >>= f) h ∙ k

-- What a chain that succeeds says of its first step.
pub fail_if-passed {ℓ} :
    {B : Type ℓ} (c : Bool) (e : Error) (k : Result B) {b : B}
    → (fail_if c e >> k) ≡ ok b
    → (c ≡ false) × (k ≡ ok b)
fail_if-passed true e k h = cc
fail_if-passed false e k h = (refl, h)

pub or_fail-passed {ℓ κ} :
    {A : Type ℓ} {B : Type κ} (o : Option A) (e : Error) (f : A → Result B) {b : B}
    → (or_fail o e >>= f) ≡ ok b
    → (a : A) × (o ≡ some a) × (f a ≡ ok b)
or_fail-passed none e f h = cc
or_fail-passed (some a) e f h = (a, refl, h)
