-- ===== src/Leaf/Tests/Durable.antt =====
-- A persistent leaf over the memory store, with the registry of the run ready to respond.
use coupery_ksnf.Base.{ℕ, ◌≡◌, refl, ap, subst, true, false, none, some, [], ◌∷◌}
use coupery_ksnf.Outcome.{Result, ok, err, length_overflow}
use coupery_ksnf.Map.{lookup}
use coupery_ksnf.Order.{nat_key}
use coupery_ksnf.Leaf.State.{LeafRegistry, plain}
use coupery_ksnf.Leaf.Session.{respond_with}
use coupery_ksnf.Store.Journal.{LeafJournal, journal_new, journal_is_closed}
use coupery_ksnf.Store.Memory.{
  MemoryLeafStore, StoredJournal, LeafMaterial, compare_exchange_journal, next_revision,
  write_journal, collect_previous, collect_material, get_journal,
}
use coupery_ksnf.Store.Registry.{Latest, from_registry, Reach-Latest, new-Latest}
use coupery_ksnf.Store.Backend.{gives}
use coupery_ksnf.Store.Persistent.{
  PersistentLeaf, Attempted, transition, settle, ready_journal, ready_registry, persist, exchange,
  after_exchange, finish_write, journal_eq, reconcile, reconcile_with,
}
use coupery_ksnf.Store.MemoryBackend.{memory_backend}
use coupery_ksnf.Store.Durable.{Settled, Durable, settled, waiting}
use coupery_ksnf.Store.Transition.{transition-Durable}
use coupery_ksnf.Store.Release.{transition_releases, respond-KeepsLatest, response_after_write}
use coupery_ksnf.Store.Reconcile.{reconcile-Durable}
use coupery_ksnf.Leaf.Tests.Attempt.{Reach-ready}
use coupery_ksnf.Leaf.Tests as Run

Latest-ready : Latest Run.small Run.ready
Latest-ready =
    Reach-Latest Run.small Reach-ready
      (new-Latest Run.small Run.first Run.parts Run.first_epoch Run.genesis)

abbrev open_journal : LeafJournal
open_journal = record { device = 8; material = 70; next_sequence = 1; live = some Run.attempt }

abbrev closed_journal : LeafJournal
closed_journal = record { device = 8; material = 70; next_sequence = 1; live = none }

-- The store with this journal of the device.
abbrev store_with : StoredJournal → MemoryLeafStore
store_with stored = record { materials = (70, 2 ∷ []) ∷ []; journals = (8, stored) ∷ [] }

abbrev opened : MemoryLeafStore
opened = store_with (record { revision = 4; journal = open_journal })

abbrev responded : MemoryLeafStore
responded = store_with (record { revision = 5; journal = closed_journal })

abbrev leaf : PersistentLeaf Run.small memory_backend
leaf = record { device = 8; registry = some Run.ready; material = 70; revision = 4; pending = none }

abbrev leaf_after : PersistentLeaf Run.small memory_backend
leaf_after = record {
  device = 8;
  registry = some (Run.staged none);
  material = 70;
  revision = 5;
  pending = none;
}

abbrev operation : LeafRegistry Run.small → Result ℕ × LeafRegistry Run.small
operation r = respond_with Run.small r Run.attempt plain Run.answer_share

transitions :
    transition Run.small memory_backend leaf opened operation ≡ (gives 5, (leaf_after, responded))
unfolding transition settle ready_journal ready_registry persist exchange after_exchange
    finish_write journal_eq from_registry journal_new compare_exchange_journal next_revision
    write_journal collect_previous collect_material
transitions =
    ap
      (λ o.
        settle Run.small memory_backend (record leaf { registry = some o.1 }) opened open_journal
          o.0)
      Run.responds

leaf-Durable : Durable Run.small memory_backend 8 leaf opened
unfolding from_registry journal_new
leaf-Durable = settled Run.ready Latest-ready (record {
  owner = refl;
  ready = refl;
  idle = refl;
  journal = open_journal;
  of_registry = refl;
  held = refl;
})

response_after_write_example :
    (stored : StoredJournal) × (lookup 8 responded.journals ≡ some stored)
    × (journal_is_closed stored.journal Run.attempt ≡ true)
response_after_write_example =
    response_after_write Run.small memory_backend 8 Run.first Run.ready leaf leaf_after opened
      responded Run.parts Run.first_epoch
      (Run.live_with (some Run.fixed_commit) (some Run.held_view) (some Run.fixed_view)) plain
      Run.answer_share 5 Run.genesis Reach-ready refl refl leaf-Durable transitions

transition_releases_example :
    (r : LeafRegistry Run.small) × (leaf.registry ≡ some r)
    × ((operation r).0 ≡ ok 5)
    × Settled Run.small memory_backend 8 leaf_after responded (operation r).1
transition_releases_example =
    transition_releases Run.small memory_backend 8 leaf leaf_after opened responded operation 5
      (respond-KeepsLatest Run.small memory_backend 8 Run.attempt plain Run.answer_share)
      leaf-Durable transitions

transition-Durable_example :
    Durable Run.small memory_backend 8
      (transition Run.small memory_backend leaf opened operation).1.0
      (transition Run.small memory_backend leaf opened operation).1.1
transition-Durable_example =
    transition-Durable Run.small memory_backend 8 leaf opened operation
      (respond-KeepsLatest Run.small memory_backend 8 Run.attempt plain Run.answer_share)
      leaf-Durable

-- The same leaf when the backend has applied the write and reported a failure.
abbrev unsure : PersistentLeaf Run.small memory_backend
unsure = record leaf_after {
  revision = 4;
  pending =
      some (record { previous = open_journal; next = closed_journal; material_changed = false });
}

Latest-responded : Latest Run.small (Run.staged none)
Latest-responded = subst (Latest Run.small) (ap (λ t. t.1) Run.responds) (
    respond-KeepsLatest Run.small memory_backend 8 Run.attempt plain Run.answer_share Run.ready
      Latest-ready)

unsure-Durable : Durable Run.small memory_backend 8 unsure responded
unfolding from_registry journal_new
unsure-Durable = waiting (Run.staged none) Latest-responded (record {
  owner = refl;
  ready = refl;
  write = record { previous = open_journal; next = closed_journal; material_changed = false };
  waits = refl;
  of_registry = refl;
})

abbrev no_material : LeafRegistry Run.small → Result LeafMaterial
no_material r = err length_overflow

reconciles :
    reconcile Run.small memory_backend no_material unsure responded
    ≡ (gives tt, (leaf_after, responded))
unfolding reconcile reconcile_with finish_write journal_eq get_journal
reconciles = refl

abbrev success : Attempted Run.small memory_backend (Unit {0})
success = gives tt

reconcile-Durable_example :
    Durable Run.small memory_backend 8 leaf_after responded
    × (success ≡ success
        → (r : LeafRegistry Run.small) × (unsure.registry ≡ some r)
          × Settled Run.small memory_backend 8 leaf_after responded r)
reconcile-Durable_example =
    reconcile-Durable Run.small memory_backend 8 no_material unsure leaf_after responded responded
      (gives tt) unsure-Durable reconciles
