-- ===== src/Store/Backend.antt =====
-- The trait `LeafStore` and `PersistError` of leaf/store.rs. A backend is a record of the trait's
-- methods on a state of its own, with what the trait's documentation asks of them. A method that
-- fails leaves any state, for its write may have completed.
use coupery_ksnf.Base.{ℕ, ◌≡◌, Option, some}
use coupery_ksnf.Outcome.{Error, Result, ok, err}
use coupery_ksnf.Store.Journal.{LeafJournal}
use coupery_ksnf.Store.Memory.{LeafMaterial, StoredJournal, JournalCas, applied}

-- `core::result::Result<T, E>`
pub data Fallible (E T : Type 0) : Type 0 where
  fails : E → Fallible E T
  gives : T → Fallible E T

pub data PersistError (E : Type 0) : Type 0 where
  protocol : Error → PersistError E
  store_failure : E → PersistError E
  journal_conflict : PersistError E
  missing_material : ℕ → PersistError E
  invalid_record : Error → PersistError E
  reconcile_required : PersistError E
  unavailable : PersistError E

-- `.map_err(PersistError::Protocol)` and `.map_err(PersistError::InvalidRecord)`
abbrev pub or_error :
    {E T : Type 0} → (Error → PersistError E) → Result T → Fallible (PersistError E) T
or_error wrap (ok t) = gives t
or_error wrap (err e) = fails (wrap e)

pub record LeafStore : Type 1 where
  pub State : Type 0
  pub Failure : Type 0
  pub put_material : State → LeafMaterial → Fallible Failure (Unit {0}) × State
  pub get_journal : State → ℕ → Fallible Failure (Option StoredJournal) × State
  pub compare_exchange_journal :
      State → ℕ → Option ℕ → LeafJournal → Fallible Failure JournalCas × State
  -- The journal that the backend holds for a device.
  pub stored : State → ℕ → Option StoredJournal
  pub put_material-stored :
      (s : State) (m : LeafMaterial) (device : ℕ)
      → stored (put_material s m).1 device ≡ stored s device
  pub get_journal-stored :
      (s : State) (asked device : ℕ) → stored (get_journal s asked).1 device ≡ stored s device
  pub get_journal-reads :
      (s : State) (device : ℕ) (found : Option StoredJournal)
      → (get_journal s device).0 ≡ gives found
      → found ≡ stored s device
  pub compare_exchange_journal-applied :
      (s : State) (device : ℕ) (expected : Option ℕ) (next : LeafJournal) (revision : ℕ)
      → (compare_exchange_journal s device expected next).0 ≡ gives (applied revision)
      → stored (compare_exchange_journal s device expected next).1 device
        ≡ some (record { revision = revision; journal = next })
