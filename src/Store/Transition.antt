-- ===== src/Store/Transition.antt =====
-- `transition` of leaf/store/persistent.rs: the journal is in the backend before the result of an
-- operation is out.
use coupery_ksnf.Base.{
  ℕ, ◌≡◌, refl, sym, ◌∙◌, ap, subst, true, false, none, some, arith, inl, inr, Bool-cases,
}
use coupery_ksnf.Outcome.{Result, ok}
use coupery_ksnf.Profile.{Profile}
use coupery_ksnf.Leaf.State.{LeafRegistry, attempt_of}
use coupery_ksnf.Store.Journal.{LeafJournal}
use coupery_ksnf.Store.Registry.{Latest, from_registry, Latest-journal}
use coupery_ksnf.Store.Backend.{
  fails, gives, PersistError, LeafStore, protocol, or_error, reconcile_required, unavailable,
}
use coupery_ksnf.Store.Persistent.{
  journal_eq, PersistentLeaf, Attempted, ready_registry, ready_journal, persist, settle, transition,
  and_then,
}
use coupery_ksnf.Store.Durable.{
  Settled, Waiting, Durable, settled, waiting, lost, Ended, succeeded, Ended-and_then,
  Ended-Durable, persist-Ends, journal_eq-same,
}

module _ (P : Profile) (S : LeafStore) (device : ℕ) where
  -- The journal of a registry names the material that it was made for.
  pub Latest-names :
      (r : LeafRegistry P) (material : ℕ)
      → Latest P r
      → (j : LeafJournal) × (from_registry P material r ≡ ok j)
        × (j.material ≡ material)
        × (from_registry P j.material r ≡ ok j)
  Latest-names r material v = (
    record {
      device = r.device;
      material = material;
      next_sequence = r.next_sequence;
      live = attempt_of P r.live;
    },
    Latest-journal P r material v,
    refl,
    Latest-journal P r material v,
  )

  pub ready_registry-gives :
      (leaf : PersistentLeaf P S) (r : LeafRegistry P)
      → leaf.registry ≡ some r
      → leaf.pending ≡ none
      → ready_registry P S leaf ≡ gives r
  unfolding ready_registry
  ready_registry-gives leaf r ready idle = ground arith

  pub ready_journal-gives :
      (leaf : PersistentLeaf P S) (r : LeafRegistry P) (j : LeafJournal)
      → leaf.registry ≡ some r
      → leaf.pending ≡ none
      → from_registry P leaf.material r ≡ ok j
      → ready_journal P S leaf ≡ gives j
  unfolding ready_journal
  ready_journal-gives leaf r j ready idle of_registry =
      ground (arith, ready_registry-gives leaf r ready idle)

  -- What an action answers and leaves ends with the journal of `r` in the backend.
  abbrev pub EndsWith :
      {T : Type 0}
      → LeafRegistry P
      → Attempted P S T
      → Attempted P S T × (PersistentLeaf P S × S.State)
      → Type 0
  EndsWith r good outcome = Ended P S device r good outcome.1.0 outcome.1.1 outcome.0

  module _ {T : Type 0} (leaf : PersistentLeaf P S) (s : S.State) (r : LeafRegistry P)
      (previous next : LeafJournal) (result : Result T)
      (gets : ready_journal P S leaf ≡ gives next) where
    settle-same :
        journal_eq next previous ≡ true
        → settle P S leaf s previous result ≡ (or_error protocol result, (leaf, s))
    unfolding settle
    settle-same same = ground arith

    settle-changed :
        journal_eq next previous ≡ false
        → settle P S leaf s previous result ≡ (
          and_then P S (persist P S leaf s previous next none).0 (or_error protocol result),
          (persist P S leaf s previous next none).1,
        )
    unfolding settle
    settle-changed changed = ground arith

  pub settle-EndsWith :
      {T : Type 0} (leaf : PersistentLeaf P S) (s : S.State) (r : LeafRegistry P)
      (previous : LeafJournal) (result : Result T)
      → leaf.device ≡ device
      → leaf.registry ≡ some r
      → leaf.pending ≡ none
      → Latest P r
      → S.stored s leaf.device ≡ some (record { revision = leaf.revision; journal = previous })
      → EndsWith r (or_error protocol result) (settle P S leaf s previous result)
  settle-EndsWith leaf s r previous result owner ready idle v held =
      let (next, made, at, again) = Latest-names r leaf.material v in
      let gets : ready_journal P S leaf ≡ gives next =
        ready_journal-gives leaf r next ready idle made in
      elim (Bool-cases (journal_eq next previous)) [
        | inl same ↦
            let is : next ≡ previous = journal_eq-same next previous same in
            subst (EndsWith r (or_error protocol result))
              (sym (settle-same leaf s r previous next result gets same))
              (succeeded refl (record {
                owner = owner;
                ready = ready;
                idle = idle;
                journal = previous;
                of_registry = made ∙ ap ok is;
                held = held;
              }))
        | inr changed ↦
            subst (EndsWith r (or_error protocol result))
              (sym (settle-changed leaf s r previous next result gets changed))
              (Ended-and_then P S device r (or_error protocol result) _ _ _
                (persist-Ends P S device leaf s r previous next none owner ready again))
      ]

  transition-settles :
      {T : Type 0} (leaf : PersistentLeaf P S) (s : S.State) (r : LeafRegistry P) (j : LeafJournal)
      (operation : LeafRegistry P → Result T × LeafRegistry P)
      → ready_registry P S leaf ≡ gives r
      → ready_journal P S leaf ≡ gives j
      → transition P S leaf s operation
        ≡ settle P S (record leaf { registry = some (operation r).1 }) s j (operation r).0
  unfolding transition
  transition-settles leaf s r j operation gets journal = ground arith

  -- A transition of a settled leaf ends with the journal of the operation's registry.
  pub transition-EndsWith :
      {T : Type 0} (leaf : PersistentLeaf P S) (s : S.State) (r : LeafRegistry P)
      (operation : LeafRegistry P → Result T × LeafRegistry P)
      → Settled P S device leaf s r
      → Latest P (operation r).1
      → EndsWith
          (operation r).1
          (or_error protocol (operation r).0)
          (transition P S leaf s operation)
  transition-EndsWith leaf s r operation k v =
      subst (EndsWith (operation r).1 (or_error protocol (operation r).0))
        (sym (
          transition-settles leaf s r k.journal operation
            (ready_registry-gives leaf r k.ready k.idle)
            (ready_journal-gives leaf r k.journal k.ready k.idle k.of_registry)))
        (settle-EndsWith _ s (operation r).1 k.journal (operation r).0 k.owner refl k.idle v k.held)

  pub not_ready-fails :
      {T : Type 0} (leaf : PersistentLeaf P S) (s : S.State)
      (operation : LeafRegistry P → Result T × LeafRegistry P) (e : PersistError (S.Failure))
      → ready_registry P S leaf ≡ fails e
      → transition P S leaf s operation ≡ (fails e, (leaf, s))
  unfolding transition ready_journal
  not_ready-fails leaf s operation e h = ground arith

  pub Waiting-not_ready :
      (leaf : PersistentLeaf P S) (r : LeafRegistry P)
      → Waiting P S device leaf r
      → ready_registry P S leaf ≡ fails reconcile_required
  unfolding ready_registry
  Waiting-not_ready leaf r k = let w = k.waits in ground arith

  pub lost-not_ready :
      (leaf : PersistentLeaf P S)
      → leaf.registry ≡ none
      → leaf.pending ≡ none
      → ready_registry P S leaf ≡ fails unavailable
  unfolding ready_registry
  lost-not_ready leaf gone idle = ground arith

  -- The operation keeps the registries whose live attempt is the latest.
  abbrev pub KeepsLatest : {T : Type 0} → (LeafRegistry P → Result T × LeafRegistry P) → Type 0
  KeepsLatest operation = (r : LeafRegistry P) → Latest P r → Latest P (operation r).1

  -- The invariant of a persistent leaf: with an operation that keeps a registry's live attempt its
  -- latest, a transition, whatever it returns, leaves a leaf that is lost, that has the journal of
  -- its registry in the backend, or that has a write of it pending.
  pub transition-Durable :
      {T : Type 0} (leaf : PersistentLeaf P S) (s : S.State)
      (operation : LeafRegistry P → Result T × LeafRegistry P)
      → KeepsLatest operation
      → Durable P S device leaf s
      → Durable P S device
          (transition P S leaf s operation).1.0
          (transition P S leaf s operation).1.1
  transition-Durable leaf s operation keeps (settled r v k) =
      Ended-Durable P S device (operation r).1 (or_error protocol (operation r).0) _ _ _ (keeps r v)
        (transition-EndsWith leaf s r operation k (keeps r v))
  transition-Durable leaf s operation keeps (waiting r v k) =
      subst (λ o. Durable P S device o.1.0 o.1.1)
        (sym (not_ready-fails leaf s operation reconcile_required (Waiting-not_ready leaf r k)))
        (waiting r v k)
  transition-Durable leaf s operation keeps (lost owner gone idle) =
      subst (λ o. Durable P S device o.1.0 o.1.1)
        (sym (not_ready-fails leaf s operation unavailable (lost-not_ready leaf gone idle)))
        (lost owner gone idle)
