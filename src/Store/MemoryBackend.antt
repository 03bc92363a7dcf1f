-- ===== src/Store/MemoryBackend.antt =====
-- The `LeafStore` that `MemoryLeafStore` of leaf/store.rs is.
use coupery_ksnf.Base.{ℕ, ◌≡◌, refl, ◌∙◌, ap, Option, some, arith}
use coupery_ksnf.Order.{nat_key}
use coupery_ksnf.Map.{lookup, lookup-insert}
use coupery_ksnf.Outcome.{Error, Result, ok, err}
use coupery_ksnf.Store.Journal.{LeafJournal}
use coupery_ksnf.Store.Memory.{
  MemoryLeafStore, StoredJournal, JournalCas, applied, put_material, get_journal,
  compare_exchange_journal,
}
use coupery_ksnf.Store.Exchange.{
  Exchanged, refused, conflicted, written, compare_exchange_journal-Exchanged,
}
use coupery_ksnf.Store.Revisions.{put_material-journals}
use coupery_ksnf.Store.Backend.{Fallible, fails, gives, LeafStore}

abbrev pub answered : {T : Type 0} → Result T → Fallible Error T
answered (ok t) = gives t
answered (err e) = fails e

pub applied-stored :
    (s s' : MemoryLeafStore) (device : ℕ) (expected : Option ℕ) (next : LeafJournal) (revision : ℕ)
    (result : Result JournalCas)
    → answered result ≡ gives (applied revision)
    → Exchanged s device expected next result s'
    → lookup device s'.journals ≡ some (record { revision = revision; journal = next })
applied-stored s s' device expected next revision result h (refused e is kept) = cc
applied-stored s s' device expected next revision result h (conflicted is stale kept) = cc
applied-stored s s' device expected next revision result h
      (written later is own current follows put) =
    let same : later ≡ revision = cc in
    ap (lookup device) put
    ∙ ground (
      arith,
      same,
      lookup-insert device device (record { revision = later; journal = next }) s.journals,
    )

pub get_journal-lookup :
    (s : MemoryLeafStore) (device : ℕ) (found : Option StoredJournal)
    → answered (get_journal s device) ≡ gives found
    → found ≡ lookup device s.journals
unfolding get_journal
get_journal-lookup s device found h = cc

abbrev pub memory_backend : LeafStore
memory_backend = record {
  State = MemoryLeafStore;
  Failure = Error;
  put_material = λ s m. (answered (put_material s m).0, (put_material s m).1);
  get_journal = λ s device. (answered (get_journal s device), s);
  compare_exchange_journal = λ s device expected next. (
    answered (compare_exchange_journal s device expected next).0,
    (compare_exchange_journal s device expected next).1,
  );
  stored = λ s device. lookup device s.journals;
  put_material-stored = λ s m device. ap (lookup device) (put_material-journals s m);
  get_journal-stored = λ s asked device. refl;
  get_journal-reads = λ s device found h. get_journal-lookup s device found h;
  compare_exchange_journal-applied = λ s device expected next revision h.
      applied-stored s _ device expected next revision _ h
        (compare_exchange_journal-Exchanged s device expected next _ _ refl);
}
