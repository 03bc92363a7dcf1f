-- ===== src/Log/Activate.antt =====
-- `MemoryLog::activate_bundle` and `activate`: all or nothing, under a new handle.
use coupery_ksnf.Base.{
  ℕ, ◌^◌, ◌<◌, ◌≡◌, refl, sym, ◌∙◌, ap, subst, true, Option, none, some, List, [], ◌∷◌, map, arith,
  inl, inr, Bool-cases, Option-cases, All, length,
}
use coupery_ksnf.Order.{nat_key, list_beq, list_beq_iff}
use coupery_ksnf.Map.{lookup}
use coupery_ksnf.Sort.{sort_by_key}
use coupery_ksnf.Outcome.{Result, ok, err, Error, empty_input, command_mismatch}
use coupery_ksnf.Log.{
  MemoryLog, Terminal, activated, Scan, start_scan, scan_commands, fresh_handle, install, conclude,
  names_bundle, activate_bundle,
}
use coupery_ksnf.Log.Fresh.{fresh_handle-total, fresh_handle-IsFresh}
use coupery_ksnf.Log.Loop.{
  IsReady, OnePerScope, IsActivated, scan_commands-Queued, scan_commands-Replayed,
}
use coupery_ksnf.Log.Install.{Installed, install-Installed}

-- What a call did, by how it ended.
pub data Outcome (log : MemoryLog) (cs : List ℕ) (r : Result Terminal) (log' : MemoryLog)
    : Type 0 where
  refused : (e : Error) → r ≡ err e → log' ≡ log → Outcome log cs r log'
  replayed :
      (handle : ℕ)
      → r ≡ ok (activated handle)
      → All (IsActivated log handle) cs
      → lookup handle log.activations ≡ some (sort_by_key (λ n. n) cs)
      → log' ≡ log
      → Outcome log cs r log'
  installed :
      (handle : ℕ)
      → r ≡ ok (activated handle)
      → Installed log log' cs handle
      → Outcome log cs r log'

names_bundle→lookup :
    (log : MemoryLog) (handle : ℕ) (cs : List ℕ)
    → names_bundle log handle cs ≡ true
    → lookup handle log.activations ≡ some cs
names_bundle→lookup log handle cs h = elim (Option-cases (lookup handle log.activations)) [
  | inl absent ↦ absurd (none_recorded absent)
  | inr (bundle, found) ↦ found ∙ ap some ((list_beq_iff bundle cs).0 (same bundle found))
]
  where
    none_recorded : lookup handle log.activations ≡ none → ⊥
    none_recorded absent = ground arith

    same :
        (bundle : List ℕ) → lookup handle log.activations ≡ some bundle → list_beq bundle cs ≡ true
    same bundle found = ground arith

module _ (log : MemoryLog) (cs : List ℕ) (s : Scan)
    (scanned : scan_commands log cs start_scan ≡ ok s) where
  conclude-Outcome :
      (d : Option ℕ) (r : Result Terminal) (log' : MemoryLog)
      → s.replay ≡ d
      → conclude log (sort_by_key (λ n. n) cs) s ≡ some (r, log')
      → Outcome log cs r log'
  unfolding conclude
  conclude-Outcome (some handle) r log' e h =
      elim (Bool-cases (names_bundle log handle (sort_by_key (λ n. n) cs))) [
        | inl same ↦
            replayed handle (ground arith)
              (scan_commands-Replayed log cs handle start_scan s refl scanned e).done
              (names_bundle→lookup log handle _ same) (ground arith)
        | inr other ↦ refused command_mismatch (ground arith) (ground arith)
      ]
  conclude-Outcome none r log' e h = elim (Option-cases (fresh_handle log)) [
    | inl endless ↦ absurd (ends endless)
    | inr ((handle, mid), found) ↦
        let q = scan_commands-Queued log cs start_scan s scanned e in
        let all_ready : All (IsReady log) s.records = rw q.records_are q.ready in
        let one_each : OnePerScope s.records = rw q.records_are q.one_per_scope in
        let i =
          install-Installed log mid cs handle s.records (fresh_handle-IsFresh log mid handle found)
            all_ready one_each (ap (map (λ p. p.0)) q.records_are ∙ q.names) in
        let same : install s.records (sort_by_key (λ n. n) cs) handle mid ≡ (r, log') =
          reads handle mid found in
        installed handle (sym (ap (λ p. p.0) same) ∙ i.0)
          (subst (λ l. Installed log l cs handle) (ap (λ p. p.1) same) i.1)
  ]
    where
      ends : fresh_handle log ≡ none → ⊥
      ends endless = ground arith

      reads :
          (handle : ℕ) (mid : MemoryLog)
          → fresh_handle log ≡ some (handle, mid)
          → install s.records (sort_by_key (λ n. n) cs) handle mid ≡ (r, log')
      reads handle mid found = ground arith

-- However a call of `activate_bundle` ends, it is all or nothing. It is refused and leaves the log
-- as it was; or every listed command was activated before under one handle, whose bundle is just
-- the listed one, and the log stays as it was; or the whole bundle is installed under a handle
-- that was not in use.
pub activate_bundle-Outcome :
    (log : MemoryLog) (cs : List ℕ) (r : Result Terminal) (log' : MemoryLog)
    → activate_bundle log cs ≡ some (r, log')
    → Outcome log cs r log'
unfolding activate_bundle
activate_bundle-Outcome log [] r log' h = refused empty_input (ground arith) (ground arith)
activate_bundle-Outcome log (c ∷ cs) r log' h = go (scan_commands log (c ∷ cs) start_scan) refl
  where
    go : (m : Result Scan) → scan_commands log (c ∷ cs) start_scan ≡ m → Outcome log (c ∷ cs) r log'
    go (err e) scanned = refused e (ground arith) (ground arith)
    go (ok s) scanned = conclude-Outcome log (c ∷ cs) s scanned s.replay r log' refl (ground arith)

conclude-total :
    (log : MemoryLog) (cs : List ℕ) (s : Scan) (d : Option ℕ)
    → length log.handles < 2 ^ 64
    → s.replay ≡ d
    → (r : Result Terminal) × (log' : MemoryLog) × (conclude log cs s ≡ some (r, log'))
unfolding conclude
conclude-total log cs s (some handle) h e = elim (Bool-cases (names_bundle log handle cs)) [
  | inl same ↦ (ok (activated handle), log, ground arith)
  | inr other ↦ (err command_mismatch, log, ground arith)
]
conclude-total log cs s none h e =
    let (handle, mid, found) = fresh_handle-total log h in
    let i = install s.records cs handle mid in (i.0, i.1, ground arith)

-- While fewer than 2^64 handles are in use, `activate_bundle` ends.
pub activate_bundle-total :
    (log : MemoryLog) (cs : List ℕ)
    → length log.handles < 2 ^ 64
    → (r : Result Terminal) × (log' : MemoryLog) × (activate_bundle log cs ≡ some (r, log'))
unfolding activate_bundle
activate_bundle-total log [] h = (err empty_input, log, refl)
activate_bundle-total log (c ∷ cs) h = go (scan_commands log (c ∷ cs) start_scan) refl
  where
    go :
        (m : Result Scan)
        → scan_commands log (c ∷ cs) start_scan ≡ m
        → (r : Result Terminal) × (log' : MemoryLog) × (activate_bundle log (c ∷ cs)
            ≡ some (r, log'))
    go (err e) scanned = (err e, log, ground arith)
    go (ok s) scanned =
        let (r, log', e) = conclude-total log (sort_by_key (λ n. n) (c ∷ cs)) s s.replay h refl in
        (r, log', rw (scanned, activate_bundle) e)
