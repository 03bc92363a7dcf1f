-- ===== src/Store/Memory.antt =====
-- `MemoryLeafStore` of leaf/store.rs. The hash of a record is SHA-256, of another package: an
-- argument. A backend's `Ok` with a conflict is the constructor `conflict` of `JournalCas`.
use coupery_ksnf.Base.{
  ℕ, ◌+◌, ◌^◌, Bool, true, false, not, Option, none, some, List, [], any, length, ◌==◌, ltb,
  if◌then◌else◌,
}
use coupery_ksnf.Order.{nat_key}
use coupery_ksnf.Map.{Map, lookup, insert, remove}
use coupery_ksnf.Outcome.{Result, ok, err, command_mismatch, participant_mismatch, length_overflow}
use coupery_ksnf.Auth.{bytes_eq}
use coupery_ksnf.Store.Journal.{LeafJournal}

pub record LeafMaterial : Type 0 where
  pub id : ℕ
  pub bytes : List ℕ

pub record StoredJournal : Type 0 where
  pub revision : ℕ
  pub journal : LeafJournal

pub data JournalCas : Type 0 where
  applied : ℕ → JournalCas
  conflict : JournalCas

pub record MemoryLeafStore : Type 0 where
  pub materials : Map ℕ (List ℕ)
  pub journals : Map ℕ StoredJournal

-- `MemoryLeafStore::default`
abbrev pub empty_store : MemoryLeafStore
empty_store = record { materials = []; journals = [] }

-- `MemoryLeafStore::material_count`
abbrev pub material_count : MemoryLeafStore → ℕ
material_count s = length s.materials

-- `LeafMaterial::from_valid_bytes`
abbrev pub from_valid_bytes : (List ℕ → ℕ) → List ℕ → LeafMaterial
from_valid_bytes hash bytes = record { id = hash bytes; bytes = bytes }

-- Some journal names the material.
abbrev pub referenced : ℕ → Map ℕ StoredJournal → Bool
referenced material journals = any (λ e. e.1.journal.material == material) journals

-- `MemoryLeafStore::collect_material`
unfoldable pub collect_material : MemoryLeafStore → ℕ → MemoryLeafStore
collect_material s material =
    if referenced material s.journals
    then s
    else record s { materials = remove material s.materials }

-- `put_material`
unfoldable pub put_material : MemoryLeafStore → LeafMaterial → Result (Unit {0}) × MemoryLeafStore
put_material s material = elim (lookup material.id s.materials) [
  | some bytes ↦ if bytes_eq bytes material.bytes then (ok tt, s) else (err command_mismatch, s)
  | none ↦ (ok tt, record s { materials = insert material.id material.bytes s.materials })
]

-- `get_material`
unfoldable pub get_material : (List ℕ → ℕ) → MemoryLeafStore → ℕ → Result (Option LeafMaterial)
get_material hash s id = elim (lookup id s.materials) [
  | some bytes ↦ ok (some (from_valid_bytes hash bytes))
  | none ↦ ok none
]

-- `get_journal`, and `journal`.
unfoldable pub get_journal : MemoryLeafStore → ℕ → Result (Option StoredJournal)
get_journal s device = ok (lookup device s.journals)

abbrev pub revision_of : Option StoredJournal → Option ℕ
revision_of none = none
revision_of (some stored) = some stored.revision

-- The expected revision is the current one.
abbrev pub revision_matches : Option ℕ → Option ℕ → Bool
revision_matches none none = true
revision_matches (some expected) (some current) = current == expected
revision_matches _ _ = false

-- The next revision, a `u64`.
unfoldable pub next_revision : Option ℕ → Result ℕ
next_revision none = ok 1
next_revision (some revision) =
    if ltb (revision + 1) (2 ^ 64) then ok (revision + 1) else err length_overflow

-- The material of the journal before, if there is one.
unfoldable pub collect_previous : Option StoredJournal → MemoryLeafStore → MemoryLeafStore
unfolding collect_material
collect_previous none s = s
collect_previous (some stored) s = collect_material s stored.journal.material

-- The write of `compare_exchange_journal`.
unfoldable pub write_journal :
    MemoryLeafStore → ℕ → Option StoredJournal → ℕ → LeafJournal → MemoryLeafStore
unfolding collect_previous
write_journal s device current revision next = collect_previous current (record s {
  journals = insert device (record { revision = revision; journal = next }) s.journals;
})

-- `compare_exchange_journal`
unfoldable pub compare_exchange_journal :
    MemoryLeafStore → ℕ → Option ℕ → LeafJournal → Result JournalCas × MemoryLeafStore
unfolding collect_material next_revision write_journal
compare_exchange_journal s device expected next =
    let current = lookup device s.journals in
    if not (next.device == device)
    then (err participant_mismatch, collect_material s next.material)
    else if not (revision_matches expected (revision_of current))
    then (ok conflict, collect_material s next.material)
    else elim (next_revision (revision_of current)) [
      | err e ↦ (err e, collect_material s next.material)
      | ok revision ↦ (ok (applied revision), write_journal s device current revision next)
    ]
