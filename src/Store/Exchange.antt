-- ===== src/Store/Exchange.antt =====
-- `compare_exchange_journal`: what it writes, and the material that it must not collect.
use coupery_ksnf.Base.{
  ℕ, ◌≡◌, refl, sym, ◌∙◌, ap, subst, true, false, Option, none, some, [], ◌∷◌, arith, inl, inr,
  Bool-cases, ◌==◌,
}
use coupery_ksnf.Order.{nat_key}
use coupery_ksnf.Map.{Map, lookup, insert, lookup-remove}
use coupery_ksnf.Outcome.{Error, Result, ok, err, Result-cases, participant_mismatch}
use coupery_ksnf.Store.Journal.{LeafJournal}
use coupery_ksnf.Store.Memory.{
  MemoryLeafStore, StoredJournal, JournalCas, applied, conflict, referenced, collect_material,
  collect_previous, write_journal, compare_exchange_journal, revision_of, revision_matches,
  next_revision,
}

lookup-referenced :
    (device : ℕ) (stored : StoredJournal) (m : Map ℕ StoredJournal)
    → lookup device m ≡ some stored
    → referenced stored.journal.material m ≡ true
lookup-referenced device stored [] h = cc
lookup-referenced device stored ((d, s) ∷ m) h = elim (Bool-cases (device == d)) [
  | inl here ↦ let is : s ≡ stored = ground arith in ground (arith, ap (λ x. x.journal.material) is)
  | inr elsewhere ↦ ground (arith, lookup-referenced device stored m)
]

-- Collecting keeps the journals and the material of each.
collect_material-journals :
    (s : MemoryLeafStore) (m : ℕ) → (collect_material s m).journals ≡ s.journals
unfolding collect_material
collect_material-journals s m = ground arith

collect_material-keeps :
    (s : MemoryLeafStore) (m device : ℕ) (stored : StoredJournal)
    → lookup device s.journals ≡ some stored
    → lookup stored.journal.material (collect_material s m).materials
      ≡ lookup stored.journal.material s.materials
unfolding collect_material
collect_material-keeps s m device stored h =
    let named = lookup-referenced device stored s.journals h in
    elim (Bool-cases (referenced m s.journals)) [
      | inl used ↦ ground arith
      | inr unused ↦ elim (Bool-cases (stored.journal.material == m)) [
        | inl same ↦
            let is : stored.journal.material ≡ m = ground arith in
            let used : referenced m s.journals ≡ true =
              subst (λ x. referenced x s.journals ≡ true) is named in
            cc
        | inr other ↦ ground (arith, lookup-remove stored.journal.material m s.materials)
      ]
    ]

collect_previous-journals :
    (before : Option StoredJournal) (s : MemoryLeafStore)
    → (collect_previous before s).journals ≡ s.journals
unfolding collect_previous
collect_previous-journals none s = refl
collect_previous-journals (some b) s = collect_material-journals s b.journal.material

collect_previous-keeps :
    (before : Option StoredJournal) (s : MemoryLeafStore) (device : ℕ) (stored : StoredJournal)
    → lookup device s.journals ≡ some stored
    → lookup stored.journal.material (collect_previous before s).materials
      ≡ lookup stored.journal.material s.materials
unfolding collect_previous
collect_previous-keeps none s device stored h = refl
collect_previous-keeps (some b) s device stored h =
    collect_material-keeps s b.journal.material device stored h

-- What a compare-and-set may do to the journals.
pub data Exchanged (s : MemoryLeafStore) (device : ℕ) (expected : Option ℕ) (next : LeafJournal)
    (result : Result JournalCas) (s' : MemoryLeafStore) : Type 0 where
  refused :
      (e : Error)
      → result ≡ err e
      → s'.journals ≡ s.journals
      → Exchanged s device expected next result s'
  conflicted :
      result ≡ ok conflict
      → revision_matches expected (revision_of (lookup device s.journals)) ≡ false
      → s'.journals ≡ s.journals
      → Exchanged s device expected next result s'
  written :
      (revision : ℕ)
      → result ≡ ok (applied revision)
      → next.device ≡ device
      → revision_matches expected (revision_of (lookup device s.journals)) ≡ true
      → next_revision (revision_of (lookup device s.journals)) ≡ ok revision
      → s'.journals ≡ insert device (record { revision = revision; journal = next }) s.journals
      → Exchanged s device expected next result s'

module _ (s : MemoryLeafStore) (device : ℕ) (expected : Option ℕ) (next : LeafJournal) where
  pub compare_exchange_journal-Exchanged :
      (result : Result JournalCas) (s' : MemoryLeafStore)
      → compare_exchange_journal s device expected next ≡ (result, s')
      → Exchanged s device expected next result s'
  unfolding compare_exchange_journal write_journal
  compare_exchange_journal-Exchanged result s' h = elim (Bool-cases (next.device == device)) [
    | inr other ↦
        let left : s' ≡ collect_material s next.material = ground arith in
        refused participant_mismatch (ground arith)
          (ap (λ t. t.journals) left ∙ collect_material-journals s next.material)
    | inl own ↦
        elim (Bool-cases (revision_matches expected (revision_of (lookup device s.journals)))) [
          | inr stale ↦
              let left : s' ≡ collect_material s next.material = ground arith in
              conflicted (ground arith) stale
                (ap (λ t. t.journals) left ∙ collect_material-journals s next.material)
          | inl current ↦
              elim (Result-cases (next_revision (revision_of (lookup device s.journals)))) [
                | inr (e, full) ↦
                    let left : s' ≡ collect_material s next.material = ground arith in
                    refused e (ground arith)
                      (ap (λ t. t.journals) left ∙ collect_material-journals s next.material)
                | inl (revision, follows) ↦
                    let left : s'
                        ≡ write_journal s device (lookup device s.journals) revision next =
                      ground arith in
                    written revision (ground arith) (ground arith) current follows (
                      ap (λ t. t.journals) left
                      ∙ collect_previous-journals (lookup device s.journals) _)
              ]
        ]
  ]

  -- The material of a journal is what it was in `s`.
  abbrev KeptMaterial : StoredJournal → MemoryLeafStore → Type 0
  KeptMaterial stored t =
      lookup stored.journal.material t.materials ≡ lookup stored.journal.material s.materials

  collected :
      (s' : MemoryLeafStore) (w : ℕ) (stored : StoredJournal)
      → collect_material s next.material ≡ s'
      → lookup w s'.journals ≡ some stored
      → KeptMaterial stored s'
  collected s' w stored left found = subst (KeptMaterial stored) left (
      collect_material-keeps s next.material w stored (
        ap (lookup w) (sym (collect_material-journals s next.material) ∙ ap (λ t. t.journals) left)
        ∙ found))

  write_journal-keeps :
      (revision w : ℕ) (stored : StoredJournal)
      → lookup w (write_journal s device (lookup device s.journals) revision next).journals
        ≡ some stored
      → lookup stored.journal.material
          (write_journal s device (lookup device s.journals) revision next).materials
        ≡ lookup stored.journal.material s.materials
  unfolding write_journal
  write_journal-keeps revision w stored h =
      let put : MemoryLeafStore = record s {
        journals = insert device (record { revision = revision; journal = next }) s.journals;
      } in
      collect_previous-keeps (lookup device s.journals) put w stored
        (ap (lookup w) (sym (collect_previous-journals (lookup device s.journals) put)) ∙ h)

  -- A compare-and-set, whatever it returns, keeps the material of every journal that the store has
  -- afterwards as it was: it never collects material that a journal names.
  pub compare_exchange_journal-keeps :
      (result : Result JournalCas) (s' : MemoryLeafStore) (w : ℕ) (stored : StoredJournal)
      → compare_exchange_journal s device expected next ≡ (result, s')
      → lookup w s'.journals ≡ some stored
      → lookup stored.journal.material s'.materials ≡ lookup stored.journal.material s.materials
  unfolding compare_exchange_journal
  compare_exchange_journal-keeps result s' w stored h found =
      elim (Bool-cases (next.device == device)) [
        | inr other ↦
            let left : collect_material s next.material ≡ s' = ground arith in
            collected s' w stored left found
        | inl own ↦
            elim (Bool-cases (revision_matches expected (revision_of (lookup device s.journals)))) [
              | inr stale ↦
                  let left : collect_material s next.material ≡ s' = ground arith in
                  collected s' w stored left found
              | inl current ↦
                  elim (Result-cases (next_revision (revision_of (lookup device s.journals)))) [
                    | inr (e, full) ↦
                        let left : collect_material s next.material ≡ s' = ground arith in
                        collected s' w stored left found
                    | inl (revision, follows) ↦
                        let left : write_journal s device (lookup device s.journals) revision next
                            ≡ s' =
                          ground arith in
                        subst (KeptMaterial stored) left (
                          write_journal-keeps revision w stored
                            (ap (λ t. lookup w t.journals) left ∙ found))
                  ]
            ]
      ]
