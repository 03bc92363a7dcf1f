-- ===== src/Store/Tests.antt =====
-- A run of the memory store and of the journal record, and the theorems at its states.
use coupery_ksnf.Base.{ℕ, ◌≡◌, refl, none, some, List, [], ◌∷◌, arith}
use coupery_ksnf.Map.{lookup}
use coupery_ksnf.Order.{nat_key}
use coupery_ksnf.Outcome.{ok}
use coupery_ksnf.Store.Journal.{LeafJournal, journal_new, encode_journal, decode_journal}
use coupery_ksnf.Store.JournalRoundTrip.{decode_journal-encode_journal}
use coupery_ksnf.Store.Memory.{
  MemoryLeafStore, applied, conflict, compare_exchange_journal, next_revision, write_journal,
  collect_previous, collect_material,
}
use coupery_ksnf.Store.Exchange.{compare_exchange_journal-keeps}
use coupery_ksnf.Store.Revisions.{here, more, puts, after_store_call, one_write_wins}

abbrev magic : List ℕ
magic = 75 ∷ 83 ∷ 78 ∷ 70 ∷ 74 ∷ 78 ∷ 76 ∷ 49 ∷ []

abbrev journal : LeafJournal
journal = record {
  device = 8;
  material = 70;
  next_sequence = 3;
  live = some (record { device = 8; sequence = 2 });
}

made : journal_new 8 70 3 (some (record { device = 8; sequence = 2 })) ≡ ok journal
unfolding journal_new
made = refl

decode_journal-encode_journal_example :
    decode_journal magic (encode_journal magic journal) ≡ ok journal
decode_journal-encode_journal_example =
    decode_journal-encode_journal magic 8 70 3 (some (record { device = 8; sequence = 2 })) journal
      refl (omega arith) (omega arith) (omega arith) made

abbrev old_journal : LeafJournal
old_journal = record { device = 8; material = 69; next_sequence = 2; live = none }

abbrev before : MemoryLeafStore
before = record {
  materials = (69, 1 ∷ []) ∷ (70, 2 ∷ []) ∷ [];
  journals = (8, record { revision = 4; journal = old_journal }) ∷ [];
}

abbrev written_store : MemoryLeafStore
written_store = record {
  materials = (70, 2 ∷ []) ∷ [];
  journals = (8, record { revision = 5; journal = journal }) ∷ [];
}

writes : compare_exchange_journal before 8 (some 4) journal ≡ (ok (applied 5), written_store)
unfolding compare_exchange_journal next_revision write_journal collect_previous collect_material
writes = refl

compare_exchange_journal-keeps_example :
    lookup 70 written_store.materials ≡ lookup 70 before.materials
compare_exchange_journal-keeps_example =
    compare_exchange_journal-keeps before 8 (some 4) journal (ok (applied 5)) written_store 8
      (record { revision = 5; journal = journal }) writes refl

abbrev more_material : MemoryLeafStore
more_material = after_store_call written_store (puts (record { id = 71; bytes = 3 ∷ [] }))

one_write_wins_example :
    (compare_exchange_journal more_material 8 (some 4) old_journal).0 ≡ ok conflict
one_write_wins_example =
    one_write_wins before written_store more_material 8 (some 4) journal old_journal 5 writes
      (more (puts (record { id = 71; bytes = 3 ∷ [] })) here) refl
