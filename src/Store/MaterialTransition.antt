-- ===== src/Store/MaterialTransition.antt =====
-- `material_transition` of leaf/store/persistent.rs: new key material and its journal are in the
-- backend before the result of an operation is out.
use coupery_ksnf.Base.{ℕ, ◌≡◌, refl, sym, ◌∙◌, subst, none, some, arith, inl, inr}
use coupery_ksnf.Outcome.{Error, Result, ok, err, Result-cases}
use coupery_ksnf.Profile.{Profile}
use coupery_ksnf.Leaf.State.{LeafRegistry}
use coupery_ksnf.Store.Journal.{LeafJournal}
use coupery_ksnf.Store.Memory.{LeafMaterial}
use coupery_ksnf.Store.Registry.{Latest, from_registry}
use coupery_ksnf.Store.Backend.{
  fails, gives, PersistError, LeafStore, protocol, or_error, reconcile_required, unavailable,
}
use coupery_ksnf.Store.Persistent.{
  PersistentLeaf, Attempted, ready_registry, ready_journal, invalidate, current_material, settle,
  settle_material, material_transition, persist, and_then,
}
use coupery_ksnf.Store.Durable.{
  Settled, Durable, settled, waiting, lost, Ended, Ended-and_then, Ended-Durable, persist-Ends,
  Fallible-cases,
}
use coupery_ksnf.Store.Transition.{
  Latest-names, ready_registry-gives, ready_journal-gives, settle-EndsWith, KeepsLatest,
  Waiting-not_ready, lost-not_ready,
}
use coupery_ksnf.Store.Release.{Ended-gives}

module _ (P : Profile) (S : LeafStore) (device : ℕ)
    (material_of : LeafRegistry P → Result LeafMaterial) where
  -- The transition ends as a write does, or fails and gives the registry up.
  data Moved {T : Type 0} (r : LeafRegistry P) (result : Result T) (leaf : PersistentLeaf P S)
      (s : S.State) (answer : Attempted P S T) : Type 0 where
    ended :
        Ended P S device r (or_error protocol result) leaf s answer → Moved r result leaf s answer
    dropped :
        (e : PersistError (S.Failure))
        → answer ≡ fails e
        → leaf.device ≡ device
        → leaf.registry ≡ none
        → leaf.pending ≡ none
        → Moved r result leaf s answer

  abbrev Moves :
      {T : Type 0}
      → LeafRegistry P
      → Result T
      → Attempted P S T × (PersistentLeaf P S × S.State)
      → Type 0
  Moves r result o = Moved r result o.1.0 o.1.1 o.0

  module _ {T : Type 0} (leaf : PersistentLeaf P S) (s : S.State) (r : LeafRegistry P)
      (previous : LeafJournal) (output : T) (owner : leaf.device ≡ device)
      (ready : leaf.registry ≡ some r) (idle : leaf.pending ≡ none) where
    settle_material-fails :
        (e : PersistError (S.Failure))
        → current_material P S material_of leaf ≡ fails e
        → settle_material P S material_of leaf s previous output
          ≡ (fails e, (invalidate P S leaf, s))
    unfolding settle_material
    settle_material-fails e h = ground arith

    settle_material-persists :
        (material : LeafMaterial) (next : LeafJournal)
        → current_material P S material_of leaf ≡ gives material
        → from_registry P material.id r ≡ ok next
        → settle_material P S material_of leaf s previous output ≡ (
          and_then P S (persist P S leaf s previous next (some material)).0 (gives output),
          (persist P S leaf s previous next (some material)).1,
        )
    unfolding settle_material
    settle_material-persists material next h made =
        let registry = ready_registry-gives P S device leaf r ready idle in ground arith

    settle_material-Moves :
        Latest P r → Moves r (ok output) (settle_material P S material_of leaf s previous output)
    settle_material-Moves v = elim (Fallible-cases (current_material P S material_of leaf)) [
      | inr (e, bad) ↦
          subst (Moves r (ok output)) (sym (settle_material-fails e bad))
            (dropped e refl owner refl refl)
      | inl (material, made) ↦
          let (next, journal, at, again) = Latest-names P S device r material.id v in
          subst (Moves r (ok output)) (sym (settle_material-persists material next made journal)) (
            ended (
              Ended-and_then P S device r (gives output) _ _ _
                (persist-Ends P S device leaf s r previous next (some material) owner ready again)))
    ]

  module _ {T : Type 0} (leaf : PersistentLeaf P S) (s : S.State)
      (operation : LeafRegistry P → Result T × LeafRegistry P) where
    abbrev moved_leaf : LeafRegistry P → PersistentLeaf P S
    moved_leaf r = record leaf { registry = some (operation r).1 }

    material_transition-ok :
        (r : LeafRegistry P) (j : LeafJournal) (output : T)
        → ready_registry P S leaf ≡ gives r
        → ready_journal P S leaf ≡ gives j
        → (operation r).0 ≡ ok output
        → material_transition P S material_of leaf s operation
          ≡ settle_material P S material_of (moved_leaf r) s j output
    unfolding material_transition
    material_transition-ok r j output gets journal good = ground arith

    material_transition-err :
        (r : LeafRegistry P) (j : LeafJournal) (e : Error)
        → ready_registry P S leaf ≡ gives r
        → ready_journal P S leaf ≡ gives j
        → (operation r).0 ≡ err e
        → material_transition P S material_of leaf s operation
          ≡ settle P S {T = T} (moved_leaf r) s j (err e)
    unfolding material_transition
    material_transition-err r j e gets journal bad = ground arith

    material_transition-not_ready :
        (e : PersistError (S.Failure))
        → ready_registry P S leaf ≡ fails e
        → material_transition P S material_of leaf s operation ≡ (fails e, (leaf, s))
    unfolding material_transition ready_journal
    material_transition-not_ready e h = ground arith

    material_transition-Moves :
        (r : LeafRegistry P)
        → Settled P S device leaf s r
        → Latest P (operation r).1
        → Moves
            (operation r).1
            (operation r).0
            (material_transition P S material_of leaf s operation)
    material_transition-Moves r k v =
        let gets = ready_registry-gives P S device leaf r k.ready k.idle in
        let journal =
          ready_journal-gives P S device leaf r k.journal k.ready k.idle k.of_registry in
        elim (Result-cases (operation r).0) [
          | inl (output, good) ↦
              subst (Moves (operation r).1 (operation r).0)
                (sym (material_transition-ok r k.journal output gets journal good))
                (subst
                  (λ m.
                    Moves (operation r).1 m
                      (settle_material P S material_of (moved_leaf r) s k.journal output))
                  (sym good)
                  (settle_material-Moves (moved_leaf r) s (operation r).1 k.journal output k.owner
                    refl k.idle v))
          | inr (e, bad) ↦
              subst (Moves (operation r).1 (operation r).0)
                (sym (material_transition-err r k.journal e gets journal bad))
                (subst
                  (λ m.
                    Moves (operation r).1 m (settle P S {T = T} (moved_leaf r) s k.journal (err e)))
                  (sym bad)
                  (ended (
                    settle-EndsWith P S device (moved_leaf r) s (operation r).1 k.journal (err e)
                      k.owner refl k.idle v k.held)))
        ]

  Moved-Durable :
      {T : Type 0} (r : LeafRegistry P) (result : Result T) (leaf : PersistentLeaf P S)
      (s : S.State) (answer : Attempted P S T)
      → Latest P r
      → Moved r result leaf s answer
      → Durable P S device leaf s
        × ((t : T) → answer ≡ gives t → (result ≡ ok t) × Settled P S device leaf s r)
  Moved-Durable r result leaf s answer v (dropped e is owner gone idle) =
      (lost owner gone idle, λ t h. cc)
  Moved-Durable r result leaf s answer v (ended k) = (
    Ended-Durable P S device r (or_error protocol result) leaf s answer v k,
    λ t h. Ended-gives P S device r result leaf s t answer h k,
  )

  -- With an operation that keeps a registry's live attempt its latest, a transition of the key
  -- material keeps the invariant of a persistent leaf, whatever it returns. It returns a value only
  -- if the operation returned it on the leaf's registry, and if the backend then holds the journal
  -- of the registry that the operation left.
  pub material_transition-Durable :
      {T : Type 0} (leaf leaf' : PersistentLeaf P S) (s s' : S.State)
      (operation : LeafRegistry P → Result T × LeafRegistry P) (answer : Attempted P S T)
      → KeepsLatest P S device operation
      → Durable P S device leaf s
      → material_transition P S material_of leaf s operation ≡ (answer, (leaf', s'))
      → Durable P S device leaf' s'
        × ((t : T)
            → answer ≡ gives t
            → (r : LeafRegistry P) × (leaf.registry ≡ some r)
              × ((operation r).0 ≡ ok t)
              × Settled P S device leaf' s' (operation r).1)
  material_transition-Durable leaf leaf' s s' operation answer keeps (settled r v k) h =
      let (durable, releases) =
        Moved-Durable (operation r).1 (operation r).0 leaf' s' answer (keeps r v) (
          subst (Moves (operation r).1 (operation r).0) h
            (material_transition-Moves leaf s operation r k (keeps r v))) in
      (durable, λ t good. let (is, held) = releases t good in (r, k.ready, is, held))
  material_transition-Durable leaf leaf' s s' operation answer keeps (waiting r v k) h =
      let is =
        sym (
          material_transition-not_ready leaf s operation reconcile_required
            (Waiting-not_ready P S device leaf r k))
        ∙ h in
      (subst (λ o. Durable P S device o.1.0 o.1.1) is (waiting r v k), λ t good. cc)
  material_transition-Durable leaf leaf' s s' operation answer keeps (lost owner gone idle) h =
      let is =
        sym (
          material_transition-not_ready leaf s operation unavailable
            (lost-not_ready P S device leaf gone idle))
        ∙ h in
      (subst (λ o. Durable P S device o.1.0 o.1.1) is (lost owner gone idle), λ t good. cc)
