-- ===== src/Signing/Context.antt =====
-- `SigningContext` of transcript.rs: the hashes of one finalized root package.
use coupery_ksnf.Base.{ℕ, List, [], ◌∷◌, find, ◌==◌}
use coupery_ksnf.Outcome.{Result, ok, ◌>>=◌, or_fail, participant_not_found}
use coupery_ksnf.Profile.{Profile}
use coupery_ksnf.Signing.{NoncePair}
use coupery_ksnf.Signing.Schnorr.{binding_factor, challenge, aggregate_nonce}
use coupery_ksnf.Transcript.{RootEntry, RootPackage, SigningContext}
use coupery_ksnf.Transcript.Write.{binding_preimage}

module _ (P : Profile) where
  open P use {Scalar}

  -- The loop of `SigningContext::new`: each slot with its binding factor.
  unfoldable pub bindings_of : RootPackage P → List (RootEntry P) → Result (List (ℕ × Scalar))
  bindings_of root [] = ok []
  bindings_of root (e ∷ es) = do
    preimage ← binding_preimage P root e.committed.slot
    binding ← binding_factor P preimage
    rest ← bindings_of root es
    ok ((e.committed.slot, binding) ∷ rest)

  -- The pairs that the loop collects beside the bindings.
  unfoldable pub bound_pairs : List (RootEntry P) → List (ℕ × Scalar) → List (NoncePair P × Scalar)
  bound_pairs (e ∷ es) ((_, binding) ∷ bs) = (e.nonce, binding) ∷ bound_pairs es bs
  bound_pairs _ _ = []

  -- `SigningContext::new`
  unfoldable pub signing_context : RootPackage P → Result (SigningContext P)
  unfolding bindings_of bound_pairs
  signing_context root = do
    bindings ← bindings_of root root.entries
    nonce ← aggregate_nonce P (bound_pairs root.entries bindings)
    c ← challenge P nonce root.key root.message
    ok (record { root = root; bindings = bindings; nonce = nonce; challenge = c })

  -- `SigningContext::binding`
  unfoldable pub context_binding : SigningContext P → ℕ → Result Scalar
  context_binding s slot = do
    entry ← or_fail (find (λ b. b.0 == slot) s.bindings) participant_not_found
    ok entry.1
