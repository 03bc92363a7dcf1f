-- ===== src/Store/Durable.antt =====
-- What a `PersistentLeaf` keeps: the backend holds the journal of the registry in memory, or a
-- write of that journal is pending.
use coupery_ksnf.Base.{
  ℕ, ◌≡◌, ◌⊎◌, refl, sym, ap, subst, true, false, Option, none, some, arith, inl, inr,
}
use coupery_ksnf.Outcome.{ok}
use coupery_ksnf.Types.{LeafAttempt}
use coupery_ksnf.Profile.{Profile}
use coupery_ksnf.Leaf.State.{LeafRegistry}
use coupery_ksnf.Store.Journal.{LeafJournal}
use coupery_ksnf.Store.Memory.{LeafMaterial, JournalCas, applied, conflict}
use coupery_ksnf.Store.Registry.{Latest, from_registry}
use coupery_ksnf.Store.Backend.{
  Fallible, fails, gives, PersistError, LeafStore, store_failure, journal_conflict,
}
use coupery_ksnf.Store.Persistent.{
  PendingWrite, live_eq, journal_eq, PersistentLeaf, Attempted, finish_write, exchange,
  after_exchange, after_put, put_then_exchange, persist, and_then,
}

live_eq-same : (a b : Option LeafAttempt) → live_eq a b ≡ true → a ≡ b
live_eq-same none none h = refl
live_eq-same (some a) (some b) h = ground arith
live_eq-same none (some b) h = cc
live_eq-same (some a) none h = cc

pub journal_eq-same : (i j : LeafJournal) → journal_eq i j ≡ true → i ≡ j
unfolding journal_eq
journal_eq-same i j h = ground (arith, live_eq-same i.live j.live)

pub Fallible-cases :
    {E T : Type 0} (m : Fallible E T) → ((t : T) × (m ≡ gives t)) ⊎ ((e : E) × (m ≡ fails e))
Fallible-cases (gives t) = inl (t, refl)
Fallible-cases (fails e) = inr (e, refl)

module _ (P : Profile) (S : LeafStore) (device : ℕ) where
  -- The leaf of the device is ready with the registry `r`, and the backend holds the journal of `r` under the
  -- leaf's revision.
  pub record Settled (leaf : PersistentLeaf P S) (s : S.State) (r : LeafRegistry P) : Type 0 where
    pub owner : leaf.device ≡ device
    pub ready : leaf.registry ≡ some r
    pub idle : leaf.pending ≡ none
    pub journal : LeafJournal
    pub of_registry : from_registry P leaf.material r ≡ ok journal
    pub held :
        S.stored s leaf.device ≡ some (record { revision = leaf.revision; journal = journal })

  -- A write of the journal of the registry `r` is pending.
  pub record Waiting (leaf : PersistentLeaf P S) (r : LeafRegistry P) : Type 0 where
    pub owner : leaf.device ≡ device
    pub ready : leaf.registry ≡ some r
    pub write : PendingWrite
    pub waits : leaf.pending ≡ some write
    pub of_registry : from_registry P write.next.material r ≡ ok write.next

  pub data Durable (leaf : PersistentLeaf P S) (s : S.State) : Type 0 where
    settled : (r : LeafRegistry P) → Latest P r → Settled leaf s r → Durable leaf s
    waiting : (r : LeafRegistry P) → Latest P r → Waiting leaf r → Durable leaf s
    lost : leaf.device ≡ device → leaf.registry ≡ none → leaf.pending ≡ none → Durable leaf s

  -- An action ends settled and returns `good`, or fails and its write stays pending.
  pub data Ended {T : Type 0} (r : LeafRegistry P) (good : Attempted P S T)
      (leaf : PersistentLeaf P S) (s : S.State) (answer : Attempted P S T) : Type 0 where
    succeeded : answer ≡ good → Settled leaf s r → Ended r good leaf s answer
    failed :
        (e : PersistError (S.Failure))
        → answer ≡ fails e
        → Waiting leaf r
        → Ended r good leaf s answer

  pub Ended-Durable :
      {T : Type 0} (r : LeafRegistry P) (good : Attempted P S T) (leaf : PersistentLeaf P S)
      (s : S.State) (answer : Attempted P S T)
      → Latest P r
      → Ended r good leaf s answer
      → Durable leaf s
  Ended-Durable r good leaf s answer v (succeeded is k) = settled r v k
  Ended-Durable r good leaf s answer v (failed e is k) = waiting r v k

  pub Ended-and_then :
      {T : Type 0} (r : LeafRegistry P) (good : Attempted P S T) (leaf : PersistentLeaf P S)
      (s : S.State) (answer : Attempted P S (Unit {0}))
      → Ended r (gives tt) leaf s answer
      → Ended r good leaf s (and_then P S answer good)
  Ended-and_then r good leaf s answer (succeeded is k) =
      succeeded (ap (λ a. and_then P S a good) is) k
  Ended-and_then r good leaf s answer (failed e is k) =
      failed e (ap (λ a. and_then P S a good) is) k

  finish_write-waiting :
      (leaf : PersistentLeaf P S) (w : PendingWrite) (revision : ℕ)
      → leaf.pending ≡ some w
      → finish_write P S leaf revision
        ≡ record leaf { material = w.next.material; revision = revision; pending = none }
  unfolding finish_write
  finish_write-waiting leaf w revision h = ground arith

  pub finish_write-Settled :
      (leaf : PersistentLeaf P S) (s : S.State) (r : LeafRegistry P) (k : Waiting leaf r)
      (revision : ℕ)
      → S.stored s leaf.device ≡ some (record { revision = revision; journal = k.write.next })
      → Settled (finish_write P S leaf revision) s r
  finish_write-Settled leaf s r k revision held =
      subst (λ x. Settled x s r) (sym (finish_write-waiting leaf k.write revision k.waits))
        (record {
          owner = k.owner;
          ready = k.ready;
          idle = refl;
          journal = k.write.next;
          of_registry = k.of_registry;
          held = held;
        })

  -- What an action on the leaf answers and leaves ends the write of the journal of `r`.
  abbrev pub Ends :
      LeafRegistry P → Attempted P S (Unit {0}) × (PersistentLeaf P S × S.State) → Type 0
  Ends r outcome = Ended r (gives tt) outcome.1.0 outcome.1.1 outcome.0

  after_exchange-Ends :
      (leaf : PersistentLeaf P S) (s : S.State) (r : LeafRegistry P) (k : Waiting leaf r)
      (answer : Fallible (S.Failure) JournalCas)
      → ((revision : ℕ)
          → answer ≡ gives (applied revision)
          → S.stored s leaf.device ≡ some (record { revision = revision; journal = k.write.next }))
      → Ends r (after_exchange P S leaf s answer)
  unfolding after_exchange
  after_exchange-Ends leaf s r k (fails e) held = failed (store_failure e) refl k
  after_exchange-Ends leaf s r k (gives conflict) held = failed journal_conflict refl k
  after_exchange-Ends leaf s r k (gives (applied revision)) held =
      succeeded refl (finish_write-Settled leaf s r k revision (held revision refl))

  pub exchange-Ends :
      (leaf : PersistentLeaf P S) (s : S.State) (r : LeafRegistry P) (k : Waiting leaf r)
      → Ends r (exchange P S leaf s k.write.next)
  unfolding exchange
  exchange-Ends leaf s r k =
      after_exchange-Ends leaf _ r k _
        (S.compare_exchange_journal-applied s leaf.device (some leaf.revision) k.write.next)

  after_put-Ends :
      (leaf : PersistentLeaf P S) (s : S.State) (r : LeafRegistry P) (k : Waiting leaf r)
      (put : Fallible (S.Failure) (Unit {0}))
      → Ends r (after_put P S leaf s k.write.next put)
  unfolding after_put
  after_put-Ends leaf s r k (fails e) = failed (store_failure e) refl k
  after_put-Ends leaf s r k (gives u) = exchange-Ends leaf s r k

  pub put_then_exchange-Ends :
      (leaf : PersistentLeaf P S) (s : S.State) (r : LeafRegistry P) (k : Waiting leaf r)
      (material : LeafMaterial)
      → Ends r (put_then_exchange P S leaf s k.write.next material)
  unfolding put_then_exchange
  put_then_exchange-Ends leaf s r k material = after_put-Ends leaf _ r k _

  pub persist-Ends :
      (leaf : PersistentLeaf P S) (s : S.State) (r : LeafRegistry P) (previous next : LeafJournal)
      (material : Option LeafMaterial)
      → leaf.device ≡ device
      → leaf.registry ≡ some r
      → from_registry P next.material r ≡ ok next
      → Ends r (persist P S leaf s previous next material)
  unfolding persist
  persist-Ends leaf s r previous next none owner ready names = exchange-Ends _ s r (record {
    owner = owner;
    ready = ready;
    write = record { previous = previous; next = next; material_changed = false };
    waits = refl;
    of_registry = names;
  })
  persist-Ends leaf s r previous next (some material) owner ready names =
      put_then_exchange-Ends _ s r
        (record {
          owner = owner;
          ready = ready;
          write = record { previous = previous; next = next; material_changed = true };
          waits = refl;
          of_registry = names;
        })
        material
