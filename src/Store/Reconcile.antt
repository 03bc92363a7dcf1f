-- ===== src/Store/Reconcile.antt =====
-- `reconcile` of leaf/store/persistent.rs, after a write whose outcome is not known.
use coupery_ksnf.Base.{
  ℕ, ◌≡◌, refl, sym, ◌∙◌, ap, subst, none, some, arith, inl, inr, Bool-cases, ◌==◌,
}
use coupery_ksnf.Outcome.{Result, command_mismatch}
use coupery_ksnf.Profile.{Profile}
use coupery_ksnf.Leaf.State.{LeafRegistry}
use coupery_ksnf.Store.Memory.{LeafMaterial, StoredJournal}
use coupery_ksnf.Store.Registry.{Latest}
use coupery_ksnf.Store.Backend.{
  fails, gives, PersistError, LeafStore, store_failure, journal_conflict, invalid_record,
  unavailable,
}
use coupery_ksnf.Store.Persistent.{
  PersistentLeaf, Attempted, journal_eq, invalidate, current_material, reconcile_with, reconcile,
}
use coupery_ksnf.Store.Durable.{
  Settled, Waiting, Durable, settled, waiting, lost, Ended, succeeded, failed, finish_write-Settled,
  exchange-Ends, put_then_exchange-Ends, journal_eq-same, Fallible-cases,
}

module _ (P : Profile) (S : LeafStore) (device : ℕ)
    (material_of : LeafRegistry P → Result LeafMaterial) where
  -- Reconciliation ends the write, or fails and gives the registry up.
  pub data Reconciled (r : LeafRegistry P) (leaf : PersistentLeaf P S) (s : S.State)
      (answer : Attempted P S (Unit {0})) : Type 0 where
    ended : Ended P S device r (gives tt) leaf s answer → Reconciled r leaf s answer
    dropped :
        (e : PersistError (S.Failure))
        → answer ≡ fails e
        → leaf.device ≡ device
        → leaf.registry ≡ none
        → leaf.pending ≡ none
        → Reconciled r leaf s answer

  abbrev Reconciles :
      LeafRegistry P → Attempted P S (Unit {0}) × (PersistentLeaf P S × S.State) → Type 0
  Reconciles r o = Reconciled r o.1.0 o.1.1 o.0

  -- What an action computes to is known, and reconciles.
  by :
      {r : LeafRegistry P} {o o' : Attempted P S (Unit {0}) × (PersistentLeaf P S × S.State)}
      → o ≡ o'
      → Reconciles r o'
      → Reconciles r o
  by {r} is known = subst (Reconciles r) (sym is) known

  module _ (leaf : PersistentLeaf P S) (s : S.State) (r : LeafRegistry P)
      (k : Waiting P S device leaf r) where
    drops : (e : PersistError (S.Failure)) → Reconciles r (fails e, (invalidate P S leaf, s))
    drops e = dropped e refl k.owner refl refl

    keeps : (e : PersistError (S.Failure)) → Reconciles r (fails e, (leaf, s))
    keeps e = ended (failed e refl k)

    pub reconcile_with-Reconciles :
        (current : StoredJournal)
        → S.stored s leaf.device ≡ some current
        → Reconciles r (reconcile_with P S material_of leaf s k.write current)
    unfolding reconcile_with
    reconcile_with-Reconciles current held =
        elim (Bool-cases (journal_eq current.journal k.write.next)) [
          | inl written ↦
              let is = journal_eq-same current.journal k.write.next written in
              by (ground arith) (
                ended (
                  succeeded refl (
                    finish_write-Settled P S device leaf s r k current.revision (
                      held
                      ∙ ap (λ j. some (record { revision = current.revision; journal = j })) is))))
          | inr other ↦ elim (Bool-cases (current.revision == leaf.revision)) [
            | inr stale ↦ by (ground arith) (drops journal_conflict)
            | inl same ↦ elim (Bool-cases (journal_eq current.journal k.write.previous)) [
              | inr stale ↦ by (ground arith) (drops journal_conflict)
              | inl before ↦ elim (Bool-cases k.write.material_changed) [
                | inr kept ↦ by (ground arith) (ended (exchange-Ends P S device leaf s r k))
                | inl changed ↦ elim (Fallible-cases (current_material P S material_of leaf)) [
                  | inr (e, bad) ↦ by (ground arith) (keeps e)
                  | inl (material, made) ↦
                      elim (Bool-cases (material.id == k.write.next.material)) [
                        | inr wrong ↦ by (ground arith) (drops (invalid_record command_mismatch))
                        | inl right ↦
                            by (ground arith)
                              (ended (put_then_exchange-Ends P S device leaf s r k material))
                      ]
                ]
              ]
            ]
          ]
        ]

  reconcile-Reconciles :
      (leaf : PersistentLeaf P S) (s : S.State) (r : LeafRegistry P)
      → Waiting P S device leaf r
      → Reconciles r (reconcile P S material_of leaf s)
  unfolding reconcile
  reconcile-Reconciles leaf s r k =
      let waits = k.waits in
      let s' = (S.get_journal s leaf.device).1 in
      elim (Fallible-cases (S.get_journal s leaf.device).0) [
        | inr (e, bad) ↦ by (ground arith) (keeps leaf s' r k (store_failure e))
        | inl (none, got) ↦ by (ground arith) (drops leaf s' r k journal_conflict)
        | inl (some current, got) ↦ by (ground arith) (
            reconcile_with-Reconciles leaf s' r k current (
              S.get_journal-stored s leaf.device leaf.device
              ∙ sym (S.get_journal-reads s leaf.device (some current) got)))
      ]

  Reconciled-Durable :
      (r : LeafRegistry P) (leaf : PersistentLeaf P S) (s : S.State)
      (answer : Attempted P S (Unit {0}))
      → Latest P r
      → Reconciled r leaf s answer
      → Durable P S device leaf s × (answer ≡ gives tt → Settled P S device leaf s r)
  Reconciled-Durable r leaf s answer v (dropped e is owner gone idle) =
      (lost owner gone idle, λ h. cc)
  Reconciled-Durable r leaf s answer v (ended (succeeded is k)) = (settled r v k, λ h. k)
  Reconciled-Durable r leaf s answer v (ended (failed e is k)) = (waiting r v k, λ h. cc)

  reconcile-idle :
      (leaf : PersistentLeaf P S) (s : S.State) (r : LeafRegistry P)
      → leaf.registry ≡ some r
      → leaf.pending ≡ none
      → reconcile P S material_of leaf s ≡ (gives tt, (leaf, s))
  unfolding reconcile
  reconcile-idle leaf s r ready idle = ground arith

  reconcile-lost :
      (leaf : PersistentLeaf P S) (s : S.State)
      → leaf.registry ≡ none
      → leaf.pending ≡ none
      → reconcile P S material_of leaf s ≡ (fails unavailable, (leaf, s))
  unfolding reconcile
  reconcile-lost leaf s gone idle = ground arith

  -- Reconciliation keeps the invariant of a persistent leaf, whatever the backend answers. If it
  -- succeeds the leaf is ready with the registry it had, and the backend holds the journal of it.
  pub reconcile-Durable :
      (leaf leaf' : PersistentLeaf P S) (s s' : S.State) (answer : Attempted P S (Unit {0}))
      → Durable P S device leaf s
      → reconcile P S material_of leaf s ≡ (answer, (leaf', s'))
      → Durable P S device leaf' s'
        × (answer ≡ gives tt
            → (r : LeafRegistry P) × (leaf.registry ≡ some r) × Settled P S device leaf' s' r)
  reconcile-Durable leaf leaf' s s' answer (waiting r v k) h =
      let (durable, ready) =
        Reconciled-Durable r leaf' s' answer v
          (subst (Reconciles r) h (reconcile-Reconciles leaf s r k)) in
      (durable, λ good. (r, k.ready, ready good))
  reconcile-Durable leaf leaf' s s' answer (settled r v k) h =
      let is = sym (reconcile-idle leaf s r k.ready k.idle) ∙ h in
      (
        settled r v (subst (λ o. Settled P S device o.1.0 o.1.1 r) is k),
        λ good. (r, k.ready, subst (λ o. Settled P S device o.1.0 o.1.1 r) is k),
      )
  reconcile-Durable leaf leaf' s s' answer (lost owner gone idle) h =
      let is = sym (reconcile-lost leaf s gone idle) ∙ h in
      (subst (λ o. Durable P S device o.1.0 o.1.1) is (lost owner gone idle), λ good. cc)
