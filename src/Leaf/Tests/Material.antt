-- ===== src/Leaf/Tests/Material.antt =====
-- A persistent leaf over the memory store that installs a member block of an outer redistribution.
use coupery_ksnf.Base.{◌≡◌, refl, sym, subst, none, some, [], ◌∷◌}
use coupery_ksnf.Order.{nat_key}
use coupery_ksnf.Outcome.{Result, ok, err}
use coupery_ksnf.Leaf.State.{LeafRegistry}
use coupery_ksnf.Leaf.Activate.{activate_outer}
use coupery_ksnf.Leaf.Calls.{activates_outer, after_call}
use coupery_ksnf.Leaf.Change.{after_call-Change}
use coupery_ksnf.Store.Journal.{LeafJournal, journal_new}
use coupery_ksnf.Store.Memory.{
  MemoryLeafStore, LeafMaterial, put_material, compare_exchange_journal, next_revision,
  write_journal, collect_previous, collect_material,
}
use coupery_ksnf.Store.Registry.{from_registry, Change-Latest, Reach-Latest, new-Latest}
use coupery_ksnf.Store.Backend.{gives}
use coupery_ksnf.Store.Persistent.{
  PersistentLeaf, Attempted, material_transition, settle, settle_material, current_material,
  ready_journal, ready_registry, persist, put_then_exchange, after_put, exchange, after_exchange,
  finish_write,
}
use coupery_ksnf.Store.MemoryBackend.{memory_backend}
use coupery_ksnf.Store.Durable.{Settled, Durable, settled}
use coupery_ksnf.Store.Transition.{KeepsLatest}
use coupery_ksnf.Store.MaterialTransition.{material_transition-Durable}
use coupery_ksnf.Leaf.Tests.Attempt.{Reach-reserved}
use coupery_ksnf.Leaf.Tests.Activation as Activation
use coupery_ksnf.Leaf.Tests as Run

abbrev old_journal : LeafJournal
old_journal = record { device = 8; material = 70; next_sequence = 1; live = some Run.attempt }

abbrev new_journal : LeafJournal
new_journal = record { device = 8; material = 71; next_sequence = 1; live = none }

abbrev store : MemoryLeafStore
store = record {
  materials = (70, 2 ∷ []) ∷ [];
  journals = (8, record { revision = 4; journal = old_journal }) ∷ [];
}

abbrev later_store : MemoryLeafStore
later_store = record {
  materials = (71, 3 ∷ []) ∷ [];
  journals = (8, record { revision = 5; journal = new_journal }) ∷ [];
}

abbrev leaf : PersistentLeaf Run.small memory_backend
leaf = record {
  device = 8;
  registry = some Run.reserved;
  material = 70;
  revision = 4;
  pending = none;
}

abbrev later_leaf : PersistentLeaf Run.small memory_backend
later_leaf = record {
  device = 8;
  registry = some Activation.moved;
  material = 71;
  revision = 5;
  pending = none;
}

abbrev new_material : LeafRegistry Run.small → Result LeafMaterial
new_material r = ok (record { id = 71; bytes = 3 ∷ [] })

abbrev operation : LeafRegistry Run.small → Result (Unit {0}) × LeafRegistry Run.small
operation r = activate_outer Run.small r Activation.outer_epoch Activation.outer_member

abbrev success : Attempted Run.small memory_backend (Unit {0})
success = gives tt

installs :
    material_transition Run.small memory_backend new_material leaf store operation
    ≡ (success, (later_leaf, later_store))
unfolding material_transition settle_material current_material ready_journal ready_registry persist
    put_then_exchange after_put exchange after_exchange finish_write from_registry journal_new
    put_material compare_exchange_journal next_revision write_journal collect_previous
    collect_material
installs =
    subst
      (λ o.
        elim o.0
          as (λ x.
            Attempted Run.small memory_backend (Unit {0})
            × (PersistentLeaf Run.small memory_backend × MemoryLeafStore)) [
              | ok output ↦
                  settle_material Run.small memory_backend new_material
                    (record leaf { registry = some o.1 }) store old_journal output
              | err e ↦
                  settle Run.small memory_backend {T = Unit {0}}
                    (record leaf { registry = some o.1 }) store old_journal (err e)
            ]
        ≡ (success, (later_leaf, later_store)))
      (sym Activation.moves) refl

operation-KeepsLatest : KeepsLatest Run.small memory_backend 8 operation
unfolding after_call
operation-KeepsLatest r v =
    Change-Latest Run.small r _
      (after_call-Change Run.small {A = Unit {0}} r
        (activates_outer Activation.outer_epoch Activation.outer_member))
      v

leaf-Durable : Durable Run.small memory_backend 8 leaf store
unfolding from_registry journal_new
leaf-Durable =
    settled Run.reserved
      (Reach-Latest Run.small Reach-reserved
        (new-Latest Run.small Run.first Run.parts Run.first_epoch Run.genesis))
      (record {
        owner = refl;
        ready = refl;
        idle = refl;
        journal = old_journal;
        of_registry = refl;
        held = refl;
      })

material_transition-Durable_example :
    Durable Run.small memory_backend 8 later_leaf later_store
    × ((t : Unit {0})
        → success ≡ gives t
        → (r : LeafRegistry Run.small) × (leaf.registry ≡ some r)
          × ((operation r).0 ≡ ok t)
          × Settled Run.small memory_backend 8 later_leaf later_store (operation r).1)
material_transition-Durable_example =
    material_transition-Durable Run.small memory_backend 8 new_material leaf later_leaf store
      later_store operation success operation-KeepsLatest leaf-Durable installs

abbrev first_journal : LeafJournal
first_journal = record { device = 8; material = 71; next_sequence = 0; live = none }

abbrev first_leaf : PersistentLeaf Run.small memory_backend
first_leaf = record {
  device = 8;
  registry = some Run.first;
  material = 71;
  revision = 1;
  pending = none;
}

abbrev first_store : MemoryLeafStore
first_store = record {
  materials = (71, 3 ∷ []) ∷ [];
  journals = (8, record { revision = 1; journal = first_journal }) ∷ [];
}
