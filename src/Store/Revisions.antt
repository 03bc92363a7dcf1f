-- ===== src/Store/Revisions.antt =====
-- Histories of calls on a `MemoryLeafStore`: one write wins at each revision of a device.
use coupery_ksnf.Base.{
  ℕ, ◌<◌, ◌≤◌, ◌≡◌, refl, sym, ◌∙◌, ap, true, false, Option, none, some, arith, inl, inr,
  Bool-cases, ◌==◌,
}
use coupery_ksnf.Order.{nat_key}
use coupery_ksnf.Map.{Map, lookup, insert, lookup-insert}
use coupery_ksnf.Outcome.{Result, ok}
use coupery_ksnf.Store.Journal.{LeafJournal}
use coupery_ksnf.Store.Memory.{
  MemoryLeafStore, StoredJournal, JournalCas, applied, conflict, LeafMaterial, put_material,
  compare_exchange_journal, revision_of, revision_matches, next_revision,
}
use coupery_ksnf.Store.Exchange.{
  Exchanged, refused, conflicted, written, compare_exchange_journal-Exchanged,
}

-- One call of an operation that changes a store.
pub data StoreCall : Type 0 where
  puts : LeafMaterial → StoreCall
  exchanges : ℕ → Option ℕ → LeafJournal → StoreCall

unfoldable pub after_store_call : MemoryLeafStore → StoreCall → MemoryLeafStore
after_store_call s (puts material) = (put_material s material).1
after_store_call s (exchanges device expected next) =
    (compare_exchange_journal s device expected next).1

pub data Reach (s : MemoryLeafStore) : MemoryLeafStore → Type 0 where
  here : Reach s s
  more : {mid : MemoryLeafStore} (k : StoreCall) → Reach s mid → Reach s (after_store_call mid k)

pub put_material-journals :
    (s : MemoryLeafStore) (m : LeafMaterial) → (put_material s m).1.journals ≡ s.journals
unfolding put_material
put_material-journals s m = ground arith

next_revision-lt :
    (revision later : ℕ) → next_revision (some revision) ≡ ok later → revision < later
unfolding next_revision
next_revision-lt revision later h = ground arith

-- A device's journal after a write has at least the revision before.
insert-later :
    (journals : Map ℕ StoredJournal) (d device revision : ℕ) (next : LeafJournal)
    (before : StoredJournal)
    → lookup d journals ≡ some before
    → next_revision (revision_of (lookup device journals)) ≡ ok revision
    → (after : StoredJournal) × (lookup d
          (insert device (record { revision = revision; journal = next }) journals)
        ≡ some after)
      × (before.revision ≤ after.revision)
insert-later journals d device revision next before found follows =
    elim (Bool-cases (d == device)) [
      | inl hit ↦
          let same : d ≡ device = ground arith in
          let current : lookup device journals ≡ some before =
            ap (λ x. lookup x journals) (sym same) ∙ found in
          let later : before.revision < revision =
            next_revision-lt before.revision revision
              (ap (λ o. next_revision (revision_of o)) (sym current) ∙ follows) in
          (
            record { revision = revision; journal = next },
            ground (
              arith,
              lookup-insert d device (record { revision = revision; journal = next }) journals,
            ),
            omega arith,
          )
      | inr elsewhere ↦ (
        before,
        ground (
          arith,
          lookup-insert d device (record { revision = revision; journal = next }) journals,
        ),
        omega arith,
      )
    ]

Exchanged-later :
    (s s' : MemoryLeafStore) (d device : ℕ) (expected : Option ℕ) (next : LeafJournal)
    (result : Result JournalCas) (before : StoredJournal)
    → lookup d s.journals ≡ some before
    → Exchanged s device expected next result s'
    → (after : StoredJournal) × (lookup d s'.journals ≡ some after)
      × (before.revision ≤ after.revision)
Exchanged-later s s' d device expected next result before found (refused e is kept) =
    (before, ap (lookup d) kept ∙ found, omega arith)
Exchanged-later s s' d device expected next result before found (conflicted is stale kept) =
    (before, ap (lookup d) kept ∙ found, omega arith)
Exchanged-later s s' d device expected next result before found
      (written revision is own current follows put) =
    let (after, at, later) = insert-later s.journals d device revision next before found follows in
    (after, ap (lookup d) put ∙ at, later)

after_store_call-later :
    (s : MemoryLeafStore) (k : StoreCall) (d : ℕ) (before : StoredJournal)
    → lookup d s.journals ≡ some before
    → (after : StoredJournal) × (lookup d (after_store_call s k).journals ≡ some after)
      × (before.revision ≤ after.revision)
unfolding after_store_call
after_store_call-later s (puts m) d before found =
    (before, ap (lookup d) (put_material-journals s m) ∙ found, omega arith)
after_store_call-later s (exchanges device expected next) d before found =
    Exchanged-later s _ d device expected next _ before found
      (compare_exchange_journal-Exchanged s device expected next _ _ refl)

Reach-later :
    (s t : MemoryLeafStore) (d : ℕ) (before : StoredJournal)
    → lookup d s.journals ≡ some before
    → Reach s t
    → (after : StoredJournal) × (lookup d t.journals ≡ some after)
      × (before.revision ≤ after.revision)
Reach-later s _ d before found here = (before, found, omega arith)
Reach-later s t d before found (more {mid = mid} k reach) =
    let (m, at, le) = Reach-later s mid d before found reach in
    let (after, there, le') = after_store_call-later mid k d m at in
    (after, there, omega (arith, le, le'))

-- The expected revision of a write that was applied is older than what the device has later.
expected-stale :
    (expected before : Option ℕ) (revision later : ℕ)
    → revision_matches expected before ≡ true
    → next_revision before ≡ ok revision
    → revision ≤ later
    → revision_matches expected (some later) ≡ false
unfolding next_revision
expected-stale none before revision later h follows le = refl
expected-stale (some e) none revision later h follows le = cc
expected-stale (some e) (some b) revision later h follows le = ground arith

conflicts :
    (s : MemoryLeafStore) (device : ℕ) (expected : Option ℕ) (j : LeafJournal)
    → j.device ≡ device
    → revision_matches expected (revision_of (lookup device s.journals)) ≡ false
    → (compare_exchange_journal s device expected j).0 ≡ ok conflict
unfolding compare_exchange_journal
conflicts s device expected j own stale = ground arith

applied-conflicts :
    (s s1 s2 : MemoryLeafStore) (device : ℕ) (expected : Option ℕ) (j j' : LeafJournal)
    (result : Result JournalCas) (revision : ℕ)
    → result ≡ ok (applied revision)
    → Exchanged s device expected j result s1
    → Reach s1 s2
    → j'.device ≡ device
    → (compare_exchange_journal s2 device expected j').0 ≡ ok conflict
applied-conflicts s s1 s2 device expected j j' result revision good (refused e is kept) reach own =
    cc
applied-conflicts s s1 s2 device expected j j' result revision good (conflicted is stale kept) reach
      own =
    cc
applied-conflicts s s1 s2 device expected j j' result revision good
      (written w is mine current follows put) reach own =
    let stored : StoredJournal = record { revision = w; journal = j } in
    let found : lookup device s1.journals ≡ some stored =
      ap (lookup device) put ∙ ground (arith, lookup-insert device device stored s.journals) in
    let (later, at, le) = Reach-later s1 s2 device stored found reach in
    conflicts s2 device expected j' own (
      ap (λ o. revision_matches expected (revision_of o)) at
      ∙ expected-stale expected (revision_of (lookup device s.journals)) w later.revision current
          follows le)

-- Of two writes of one device that expect the same revision one is applied at most: once the first
-- is, the second conflicts, whatever calls come between.
pub one_write_wins :
    (s s1 s2 : MemoryLeafStore) (device : ℕ) (expected : Option ℕ) (j j' : LeafJournal)
    (revision : ℕ)
    → compare_exchange_journal s device expected j ≡ (ok (applied revision), s1)
    → Reach s1 s2
    → j'.device ≡ device
    → (compare_exchange_journal s2 device expected j').0 ≡ ok conflict
one_write_wins s s1 s2 device expected j j' revision h reach own =
    applied-conflicts s s1 s2 device expected j j' (ok (applied revision)) revision refl
      (compare_exchange_journal-Exchanged s device expected j (ok (applied revision)) s1 h) reach
      own
