-- ===== src/Store/Persistent.antt =====
-- `PersistentLeaf` of leaf/store/persistent.rs: a registry whose journal is written to a backend
-- before a result is returned. The key material of a registry, `LeafMaterial::from_registry`, is
-- an argument here: the results hold for any.
use coupery_ksnf.Base.{ℕ, Bool, true, false, ◌&&◌, not, Option, none, some, ◌==◌, if◌then◌else◌}
use coupery_ksnf.Outcome.{Result, ok, err, command_mismatch}
use coupery_ksnf.Types.{LeafAttempt, attempt_eq}
use coupery_ksnf.Profile.{Profile}
use coupery_ksnf.Leaf.State.{LeafRegistry}
use coupery_ksnf.Store.Journal.{LeafJournal}
use coupery_ksnf.Store.Memory.{LeafMaterial, StoredJournal, JournalCas, applied, conflict}
use coupery_ksnf.Store.Registry.{from_registry}
use coupery_ksnf.Store.Backend.{
  Fallible, fails, gives, PersistError, protocol, store_failure, journal_conflict, invalid_record,
  reconcile_required, unavailable, or_error, LeafStore,
}

pub record PendingWrite : Type 0 where
  pub previous : LeafJournal
  pub next : LeafJournal
  pub material_changed : Bool

abbrev pub live_eq : Option LeafAttempt → Option LeafAttempt → Bool
live_eq none none = true
live_eq (some a) (some b) = attempt_eq a b
live_eq _ _ = false

-- The derived `PartialEq` of `LeafJournal`.
unfoldable pub journal_eq : LeafJournal → LeafJournal → Bool
journal_eq i j =
    i.device == j.device
    && (i.material == j.material && (i.next_sequence == j.next_sequence && live_eq i.live j.live))

module _ (P : Profile) (S : LeafStore) where
  pub record PersistentLeaf : Type 0 where
    pub device : ℕ
    pub registry : Option (LeafRegistry P)
    pub material : ℕ
    pub revision : ℕ
    pub pending : Option PendingWrite

  abbrev pub Attempted : Type 0 → Type 0
  Attempted T = Fallible (PersistError (S.Failure)) T

  -- `ready_registry`, and `ready_registry_ref`.
  unfoldable pub ready_registry : PersistentLeaf → Attempted (LeafRegistry P)
  ready_registry leaf = elim leaf.pending [
    | some w ↦ fails reconcile_required
    | none ↦ elim leaf.registry [ none ↦ fails unavailable | some r ↦ gives r ]
  ]

  -- `ready_journal`
  unfoldable pub ready_journal : PersistentLeaf → Attempted LeafJournal
  ready_journal leaf = elim (ready_registry leaf) [
    | fails e ↦ fails e
    | gives r ↦ or_error invalid_record (from_registry P leaf.material r)
  ]

  -- `finish_write`
  unfoldable pub finish_write : PersistentLeaf → ℕ → PersistentLeaf
  finish_write leaf revision = elim leaf.pending [
    | none ↦ leaf
    | some w ↦ record leaf { material = w.next.material; revision = revision; pending = none }
  ]

  -- `invalidate`
  abbrev pub invalidate : PersistentLeaf → PersistentLeaf
  invalidate leaf = record leaf { registry = none; pending = none }

  -- The match on the answer of a compare-and-set, in `persist` and `reconcile`.
  unfoldable pub after_exchange :
      PersistentLeaf
      → S.State
      → Fallible (S.Failure) JournalCas
      → Attempted (Unit {0}) × (PersistentLeaf × S.State)
  after_exchange leaf s (fails e) = (fails (store_failure e), (leaf, s))
  after_exchange leaf s (gives conflict) = (fails journal_conflict, (leaf, s))
  after_exchange leaf s (gives (applied revision)) = (gives tt, (finish_write leaf revision, s))

  -- The compare-and-set of `persist` and `reconcile`.
  unfoldable pub exchange :
      PersistentLeaf → S.State → LeafJournal → Attempted (Unit {0}) × (PersistentLeaf × S.State)
  exchange leaf s next =
      let (answer, s') = S.compare_exchange_journal s leaf.device (some leaf.revision) next in
      after_exchange leaf s' answer

  unfoldable pub after_put :
      PersistentLeaf
      → S.State
      → LeafJournal
      → Fallible (S.Failure) (Unit {0})
      → Attempted (Unit {0}) × (PersistentLeaf × S.State)
  after_put leaf s next (fails e) = (fails (store_failure e), (leaf, s))
  after_put leaf s next (gives u) = exchange leaf s next

  -- `store.put_material` and the compare-and-set that follows it.
  unfoldable pub put_then_exchange :
      PersistentLeaf
      → S.State
      → LeafJournal
      → LeafMaterial
      → Attempted (Unit {0}) × (PersistentLeaf × S.State)
  put_then_exchange leaf s next material =
      let (put, s') = S.put_material s material in after_put leaf s' next put

  -- `persist`
  unfoldable pub persist :
      PersistentLeaf
      → S.State
      → LeafJournal
      → LeafJournal
      → Option LeafMaterial
      → Attempted (Unit {0}) × (PersistentLeaf × S.State)
  persist leaf s previous next none =
      exchange
        (record leaf {
          pending = some (record { previous = previous; next = next; material_changed = false });
        })
        s next
  persist leaf s previous next (some material) =
      put_then_exchange
        (record leaf {
          pending = some (record { previous = previous; next = next; material_changed = true });
        })
        s next material

  -- A write whose success lets the result out, as `persist(...)?` does.
  abbrev pub and_then : {T : Type 0} → Attempted (Unit {0}) → Attempted T → Attempted T
  and_then (fails e) result = fails e
  and_then (gives u) result = result

  -- The end of `transition`.
  unfoldable pub settle :
      {T : Type 0}
      → PersistentLeaf
      → S.State
      → LeafJournal
      → Result T
      → Attempted T × (PersistentLeaf × S.State)
  settle leaf s previous result = elim (ready_journal leaf) [
    | fails e ↦ (fails e, (leaf, s))
    | gives next ↦
        if journal_eq next previous
        then (or_error protocol result, (leaf, s))
        else let (written, after) = persist leaf s previous next none in
          (and_then written (or_error protocol result), after)
  ]

  -- `transition`
  unfoldable pub transition :
      {T : Type 0}
      → PersistentLeaf
      → S.State
      → (LeafRegistry P → Result T × LeafRegistry P)
      → Attempted T × (PersistentLeaf × S.State)
  transition leaf s operation = elim (ready_journal leaf) [
    | fails e ↦ (fails e, (leaf, s))
    | gives previous ↦ elim (ready_registry leaf) [
      | fails e ↦ (fails e, (leaf, s))
      | gives r ↦
          let (result, r') = operation r in
          settle (record leaf { registry = some r' }) s previous result
    ]
  ]

  module _ (material_of : LeafRegistry P → Result LeafMaterial) where
    -- `current_material`
    unfoldable pub current_material : PersistentLeaf → Attempted LeafMaterial
    current_material leaf = elim leaf.registry [
      | none ↦ fails unavailable
      | some r ↦ or_error invalid_record (material_of r)
    ]

    -- The `Ok` arm of `material_transition`.
    unfoldable pub settle_material :
        {T : Type 0}
        → PersistentLeaf
        → S.State
        → LeafJournal
        → T
        → Attempted T × (PersistentLeaf × S.State)
    settle_material leaf s previous output = elim (current_material leaf) [
      | fails e ↦ (fails e, (invalidate leaf, s))
      | gives material ↦ elim (ready_registry leaf) [
        | fails e ↦ (fails e, (leaf, s))
        | gives r ↦ elim (from_registry P material.id r) [
          | err e ↦ (fails (invalid_record e), (leaf, s))
          | ok next ↦
              let (written, after) = persist leaf s previous next (some material) in
              (and_then written (gives output), after)
        ]
      ]
    ]

    -- `material_transition`; its `Err` arm ends as `transition` does.
    unfoldable pub material_transition :
        {T : Type 0}
        → PersistentLeaf
        → S.State
        → (LeafRegistry P → Result T × LeafRegistry P)
        → Attempted T × (PersistentLeaf × S.State)
    material_transition leaf s operation = elim (ready_journal leaf) [
      | fails e ↦ (fails e, (leaf, s))
      | gives previous ↦ elim (ready_registry leaf) [
        | fails e ↦ (fails e, (leaf, s))
        | gives r ↦
            let (result, r') = operation r in
            let leaf' : PersistentLeaf = record leaf { registry = some r' } in
            elim result [
              | ok output ↦ settle_material leaf' s previous output
              | err e ↦ settle leaf' s previous (err e)
            ]
      ]
    ]

    -- `reconcile`, when the backend holds a journal.
    unfoldable pub reconcile_with :
        PersistentLeaf
        → S.State
        → PendingWrite
        → StoredJournal
        → Attempted (Unit {0}) × (PersistentLeaf × S.State)
    reconcile_with leaf s pending current =
        if journal_eq current.journal pending.next
        then (gives tt, (finish_write leaf current.revision, s))
        else if not (current.revision == leaf.revision)
        then (fails journal_conflict, (invalidate leaf, s))
        else if not (journal_eq current.journal pending.previous)
        then (fails journal_conflict, (invalidate leaf, s))
        else if pending.material_changed
        then elim (current_material leaf) [
          | fails e ↦ (fails e, (leaf, s))
          | gives material ↦
              if not (material.id == pending.next.material)
              then (fails (invalid_record command_mismatch), (invalidate leaf, s))
              else put_then_exchange leaf s pending.next material
        ]
        else exchange leaf s pending.next

    -- `reconcile`
    unfoldable pub reconcile :
        PersistentLeaf → S.State → Attempted (Unit {0}) × (PersistentLeaf × S.State)
    reconcile leaf s = elim leaf.pending [
      | none ↦ elim leaf.registry [
        | some r ↦ (gives tt, (leaf, s))
        | none ↦ (fails unavailable, (leaf, s))
      ]
      | some pending ↦
          let (found, s') = S.get_journal s leaf.device in
          elim found [
            | fails e ↦ (fails (store_failure e), (leaf, s'))
            | gives none ↦ (fails journal_conflict, (invalidate leaf, s'))
            | gives (some current) ↦ reconcile_with leaf s' pending current
          ]
    ]
