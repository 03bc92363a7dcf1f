-- ===== src/Store/Create.antt =====
-- `create` of leaf/store/persistent.rs, the first durable record of a registry. As in Persistent,
-- `LeafMaterial::from_registry` is an argument.
use coupery_ksnf.Base.{ℕ, ◌≡◌, none, some}
use coupery_ksnf.Outcome.{Result, ok, err}
use coupery_ksnf.Profile.{Profile}
use coupery_ksnf.Leaf.State.{LeafRegistry}
use coupery_ksnf.Store.Journal.{LeafJournal}
use coupery_ksnf.Store.Memory.{LeafMaterial, JournalCas, applied, conflict}
use coupery_ksnf.Store.Registry.{from_registry}
use coupery_ksnf.Store.Backend.{
  Fallible, fails, gives, protocol, store_failure, journal_conflict, invalid_record, LeafStore,
}
use coupery_ksnf.Store.Persistent.{PersistentLeaf, Attempted}
use coupery_ksnf.Store.Durable.{Settled}

module _ (P : Profile) (S : LeafStore) where
  -- The match on the answer of the compare-and-set.
  unfoldable pub created :
      LeafRegistry P
      → ℕ
      → S.State
      → Fallible (S.Failure) JournalCas
      → Attempted P S (PersistentLeaf P S) × S.State
  created r material s (fails e) = (fails (store_failure e), s)
  created r material s (gives conflict) = (fails journal_conflict, s)
  created r material s (gives (applied revision)) = (
    gives (record {
      device = r.device;
      registry = some r;
      material = material;
      revision = revision;
      pending = none;
    }),
    s,
  )

  -- What `create` does with a first journal and its material.
  unfoldable pub put_first :
      LeafRegistry P
      → LeafMaterial
      → LeafJournal
      → S.State
      → Attempted P S (PersistentLeaf P S) × S.State
  put_first r material journal s =
      let (put, s1) = S.put_material s material in
      elim put [
        | fails e ↦ (fails (store_failure e), s1)
        | gives u ↦
            let (answer, s2) = S.compare_exchange_journal s1 r.device none journal in
            created r material.id s2 answer
      ]

  -- `create`
  unfoldable pub create :
      (LeafRegistry P → Result LeafMaterial)
      → S.State
      → LeafRegistry P
      → Attempted P S (PersistentLeaf P S) × S.State
  create material_of s r = elim (material_of r) [
    | err e ↦ (fails (protocol e), s)
    | ok material ↦ elim (from_registry P material.id r) [
      | err e ↦ (fails (invalid_record e), s)
      | ok journal ↦ put_first r material journal s
    ]
  ]

  -- If the outcome is a leaf it is settled.
  abbrev SettlesFirst : LeafRegistry P → Attempted P S (PersistentLeaf P S) × S.State → Type 0
  SettlesFirst r o =
      (leaf : PersistentLeaf P S) → o.0 ≡ gives leaf → Settled P S r.device leaf o.1 r
