-- ===== src/Store/Release.antt =====
-- What `PersistentLeaf` lets out, and what `reconcile` does with a pending write.
use coupery_ksnf.Base.{ℕ, ◌≡◌, sym, ◌∙◌, ap, subst, List, true, some}
use mathlib.Core.Option.{some-injective}
use coupery_ksnf.Outcome.{Result, ok, err}
use coupery_ksnf.Types.{LeafAttempt, KeyEpoch}
use coupery_ksnf.Profile.{Profile}
use coupery_ksnf.Leaf.State.{LeafRegistry, Live, ResponseMode, is_closed}
use coupery_ksnf.Leaf.Session.{ResponseInputs, respond_with}
use coupery_ksnf.Leaf.Install.{DeviceGenesisParts, new}
use coupery_ksnf.Leaf.Calls.{after_call, responds}
use coupery_ksnf.Leaf.Change.{after_call-Change}
use coupery_ksnf.Leaf.History.{Reach}
use coupery_ksnf.Leaf.Once.{respond-closes}
use coupery_ksnf.Store.Journal.{journal_is_closed}
use coupery_ksnf.Store.Memory.{StoredJournal}
use coupery_ksnf.Store.Registry.{Latest, Change-Latest, Reach-Latest, new-Latest, Latest-closed}
use coupery_ksnf.Store.Backend.{gives, LeafStore, protocol, or_error}
use coupery_ksnf.Store.Persistent.{PersistentLeaf, Attempted, transition}
use coupery_ksnf.Store.Durable.{Settled, Durable, settled, waiting, lost, Ended, succeeded, failed}
use coupery_ksnf.Store.Transition.{
  transition-EndsWith, KeepsLatest, not_ready-fails, Waiting-not_ready, lost-not_ready,
}

pub or_error-gives :
    {E T : Type 0} (result : Result T) (t : T)
    → or_error {E = E} protocol result ≡ gives t
    → result ≡ ok t
or_error-gives (ok u) t h = cc
or_error-gives (err e) t h = cc

module _ (P : Profile) (S : LeafStore) (device : ℕ) where
  pub Ended-gives :
      {T : Type 0} (r : LeafRegistry P) (result : Result T) (leaf : PersistentLeaf P S)
      (s : S.State) (t : T) (answer : Attempted P S T)
      → answer ≡ gives t
      → Ended P S device r (or_error protocol result) leaf s answer
      → (result ≡ ok t) × Settled P S device leaf s r
  Ended-gives r result leaf s t answer h (succeeded is k) =
      (or_error-gives result t (sym is ∙ h), k)
  Ended-gives r result leaf s t answer h (failed e is k) = cc

  -- A transition of a leaf that keeps its invariant returns a value only if the operation returned
  -- it on the leaf's registry, and if the backend then holds the journal of the registry that the
  -- operation left.
  pub transition_releases :
      {T : Type 0} (leaf leaf' : PersistentLeaf P S) (s s' : S.State)
      (operation : LeafRegistry P → Result T × LeafRegistry P) (t : T)
      → KeepsLatest P S device operation
      → Durable P S device leaf s
      → transition P S leaf s operation ≡ (gives t, (leaf', s'))
      → (r : LeafRegistry P) × (leaf.registry ≡ some r)
        × ((operation r).0 ≡ ok t)
        × Settled P S device leaf' s' (operation r).1
  transition_releases leaf leaf' s s' operation t keeps (settled r v k) h =
      let ends = transition-EndsWith P S device leaf s r operation k (keeps r v) in
      let (good, held) =
        Ended-gives (operation r).1 (operation r).0 _ _ t _ (ap (λ o. o.0) h) ends in
      (r, k.ready, good, subst (λ o. Settled P S device o.1.0 o.1.1 (operation r).1) h held)
  transition_releases leaf leaf' s s' operation t keeps (waiting r v k) h =
      let fail =
        not_ready-fails P S device leaf s operation _ (Waiting-not_ready P S device leaf r k) in
      cc
  transition_releases leaf leaf' s s' operation t keeps (lost owner gone idle) h =
      let fail =
        not_ready-fails P S device leaf s operation _ (lost-not_ready P S device leaf gone idle) in
      cc

  pub respond-KeepsLatest :
      {B : Type 0} (attempt : LeafAttempt) (mode : ResponseMode)
      (answer : ResponseInputs P → List ℕ → Result B)
      → KeepsLatest P S device (λ r. respond_with P r attempt mode answer)
  unfolding after_call
  respond-KeepsLatest attempt mode answer r v =
      Change-Latest P r _ (after_call-Change P r (responds attempt mode answer)) v

  -- A response to the live attempt of a registry that genesis and any calls have led to is out
  -- only when the backend holds a journal of the device that calls the attempt closed.
  pub response_after_write :
      {A B : Type 0} (r0 r : LeafRegistry P) (leaf leaf' : PersistentLeaf P S) (s s' : S.State)
      (parts : DeviceGenesisParts P) (e : KeyEpoch) (l : Live P) (mode : ResponseMode)
      (answer : ResponseInputs P → List ℕ → Result B) (t : B)
      → new P parts e ≡ ok r0
      → Reach P A r0 r
      → r.live ≡ some l
      → leaf.registry ≡ some r
      → Durable P S device leaf s
      → transition P S leaf s (λ x. respond_with P x l.attempt mode answer) ≡ (gives t, (leaf', s'))
      → (stored : StoredJournal) × (S.stored s' device ≡ some stored)
        × (journal_is_closed stored.journal l.attempt ≡ true)
  response_after_write r0 r leaf leaf' s s' parts e l mode answer t genesis reach live ready durable
        h =
      let (q, at, good, k) =
        transition_releases leaf leaf' s s' (λ x. respond_with P x l.attempt mode answer) t
          (respond-KeepsLatest l.attempt mode answer) durable h in
      let same : r ≡ q = some-injective _ _ (sym ready ∙ at) in
      let v : Latest P (respond_with P q l.attempt mode answer).1 =
        respond-KeepsLatest l.attempt mode answer q
          (subst (Latest P) same (Reach-Latest P reach (new-Latest P r0 parts e genesis))) in
      (
        record { revision = leaf'.revision; journal = k.journal },
        ap (λ d. S.stored s' d) (sym k.owner) ∙ k.held,
        Latest-closed P _ k.journal leaf'.material l.attempt v k.of_registry
            ∙ ap (λ x. is_closed P (respond_with P x l.attempt mode answer).1 l.attempt) (sym same)
            ∙ respond-closes P r0 r parts e l genesis reach live mode answer,
      )
