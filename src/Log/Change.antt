-- ===== src/Log/Change.antt =====
-- Every call on a `MemoryLog` is one of seven changes: the step relation that the log implements.
use coupery_ksnf.Base.{
  ℕ, ◌≡◌, refl, subst, true, false, not, ◌||◌, Option, none, some, List, [], ◌∷◌, arith, inl, inr,
  Bool-cases, Option-cases,
}
use mathlib.Core.Option.{some-injective}
use coupery_ksnf.Order.{nat_key, list_key, pair_key}
use coupery_ksnf.Map.{lookup, insert, contains_key, set_insert}
use coupery_ksnf.Outcome.{Result}
use coupery_ksnf.Log.{
  MemoryLog, LogTranscript, Terminal, aborted, LogPhase, phase_key, is_current, is_some, phase_is,
  is_past, opened, install_genesis, begin, post, close_phase, abort, activate_bundle,
  put_transcript, after_phase,
}
use coupery_ksnf.Log.Install.{Installed}
use coupery_ksnf.Log.Activate.{Outcome, refused, replayed, installed, activate_bundle-Outcome}

-- One call of the operations that change a log.
pub data Call : Type 0 where
  installs_genesis : ℕ → ℕ → Call
  begins : ℕ → ℕ → ℕ → List ℕ → Call
  posts : ℕ → LogPhase → List ℕ → List ℕ → Call
  closes : ℕ → LogPhase → Call
  aborts : ℕ → Call
  activates : List ℕ → Call

-- The log after the call; `none` where the call does not return.
unfoldable pub after : MemoryLog → Call → Option MemoryLog
after log (installs_genesis scope handle) = some (install_genesis log scope handle).1
after log (begins scope command predecessor parameters) =
    some (begin log scope command predecessor parameters).1
after log (posts command phase role payload) = some (post log command phase role payload).1
after log (closes command phase) = some (close_phase log command phase).1
after log (aborts command) = some (abort log command).1
after log (activates commands) = elim (activate_bundle log commands) [
  | none ↦ none
  | some (_, log') ↦ some log'
]

-- What a call may do. A refused call and an exact replay leave the log as it was.
pub data Change (log log' : MemoryLog) : Type 0 where
  unchanged : log' ≡ log → Change log log'
  rooted :
      (scope handle : ℕ)
      → lookup scope log.current ≡ none
      → log' ≡ record log {
        current = insert scope handle log.current;
        handles = set_insert handle log.handles;
      }
      → Change log log'
  created :
      (c scope predecessor : ℕ) (parameters : List ℕ)
      → lookup c log.transcripts ≡ none
      → lookup scope log.current ≡ some predecessor
      → log' ≡ put_transcript log c (opened scope predecessor parameters)
      → Change log log'
  posted :
      (c : ℕ) (t : LogTranscript) (phase : LogPhase) (role payload : List ℕ)
      → lookup c log.transcripts ≡ some t
      → lookup (phase, role) t.posts ≡ none
      → t.next_phase ≡ some phase
      → t.terminal ≡ none
      → lookup t.scope log.current ≡ some t.predecessor
      → log' ≡ put_transcript log c (record t { posts = insert (phase, role) payload t.posts })
      → Change log log'
  closed :
      (c : ℕ) (t : LogTranscript) (phase : LogPhase)
      → lookup c log.transcripts ≡ some t
      → t.next_phase ≡ some phase
      → t.terminal ≡ none
      → lookup t.scope log.current ≡ some t.predecessor
      → log' ≡ put_transcript log c (record t { next_phase = after_phase phase })
      → Change log log'
  dropped :
      (c : ℕ) (t : LogTranscript)
      → lookup c log.transcripts ≡ some t
      → t.terminal ≡ none
      → log' ≡ put_transcript log c (record t { terminal = some aborted })
      → Change log log'
  bundled : (cs : List ℕ) (handle : ℕ) → Installed log log' cs handle → Change log log'

pub is_current→lookup :
    (log : MemoryLog) (scope predecessor : ℕ)
    → is_current log scope predecessor ≡ true
    → lookup scope log.current ≡ some predecessor
is_current→lookup log scope predecessor h = ground arith

phase_is→eq :
    (open_now : Option LogPhase) (phase : LogPhase)
    → phase_is open_now phase ≡ true
    → open_now ≡ some phase
phase_is→eq open_now phase h = ground arith

contains_key→lookup : (s : ℕ) (m : List (ℕ × ℕ)) → contains_key s m ≡ false → lookup s m ≡ none
contains_key→lookup s [] h = refl
contains_key→lookup s ((d, v) ∷ m) h = ground (arith, contains_key→lookup s m)

module _ (log : MemoryLog) where
  install_genesis-Change : (scope handle : ℕ) → Change log (install_genesis log scope handle).1
  unfolding install_genesis
  install_genesis-Change scope handle = elim (Bool-cases (contains_key scope log.current)) [
    | inl there ↦ unchanged (ground arith)
    | inr absent ↦ rooted scope handle (contains_key→lookup scope log.current absent) (ground arith)
  ]

  begin-Change :
      (scope c predecessor : ℕ) (parameters : List ℕ)
      → Change log (begin log scope c predecessor parameters).1
  unfolding begin
  begin-Change scope c predecessor parameters = elim (Option-cases (lookup c log.transcripts)) [
    | inr (t, found) ↦ unchanged (ground arith)
    | inl new ↦ elim (Bool-cases (is_current log scope predecessor)) [
      | inl now ↦
          created c scope predecessor parameters new (is_current→lookup log _ _ now) (ground arith)
      | inr stale ↦ unchanged (ground arith)
    ]
  ]

  post-Change :
      (c : ℕ) (phase : LogPhase) (role payload : List ℕ)
      → Change log (post log c phase role payload).1
  unfolding post
  post-Change c phase role payload = elim (Option-cases (lookup c log.transcripts)) [
    | inl absent ↦ unchanged (ground arith)
    | inr (t, found) ↦ elim (Option-cases (lookup (phase, role) t.posts)) [
      | inr (p, old) ↦ unchanged (ground arith)
      | inl new ↦
          elim (Bool-cases (
            is_some t.terminal
            || (not (phase_is t.next_phase phase) || not (is_current log t.scope t.predecessor)))) [
              | inl bad ↦ unchanged (ground arith)
              | inr good ↦
                  posted c t phase role payload found new (phase_is→eq _ _ (ground arith))
                    (ground arith) (is_current→lookup log _ _ (ground arith)) (ground arith)
            ]
    ]
  ]

  close_phase-Change : (c : ℕ) (phase : LogPhase) → Change log (close_phase log c phase).1
  unfolding close_phase
  close_phase-Change c phase = elim (Option-cases (lookup c log.transcripts)) [
    | inl absent ↦ unchanged (ground arith)
    | inr (t, found) ↦
        elim (Bool-cases (
          is_past t.next_phase phase
          || (is_some t.terminal
              || (not (is_current log t.scope t.predecessor)
                  || not (phase_is t.next_phase phase))))) [
                    | inl bad ↦ unchanged (ground arith)
                    | inr good ↦
                        closed c t phase found (phase_is→eq _ _ (ground arith)) (ground arith)
                          (is_current→lookup log _ _ (ground arith)) (ground arith)
                  ]
  ]

  abort-Change : (c : ℕ) → Change log (abort log c).1
  unfolding abort
  abort-Change c = elim (Option-cases (lookup c log.transcripts)) [
    | inl absent ↦ unchanged (ground arith)
    | inr (t, found) ↦ elim (Option-cases t.terminal) [
      | inr (d, decided) ↦ unchanged (ground arith)
      | inl undecided ↦ dropped c t found undecided (ground arith)
    ]
  ]

  Outcome-Change :
      (cs : List ℕ) (r : Result Terminal) (log' : MemoryLog)
      → Outcome log cs r log'
      → Change log log'
  Outcome-Change cs r log' (refused e _ same) = unchanged same
  Outcome-Change cs r log' (replayed h _ _ _ same) = unchanged same
  Outcome-Change cs r log' (installed h _ i) = bundled cs h i

  -- Each call that returns makes one of the seven changes: it leaves the log as it was, roots an
  -- absent scope, opens a transcript under its scope's current handle, adds one post or closes
  -- one phase of an undecided transcript whose predecessor is current and whose phase is open,
  -- aborts an undecided transcript, or installs a bundle.
  pub after-Change : (k : Call) (log' : MemoryLog) → after log k ≡ some log' → Change log log'
  unfolding after
  after-Change (installs_genesis scope handle) log' e =
      subst (Change log) (some-injective _ _ e) (install_genesis-Change scope handle)
  after-Change (begins scope c predecessor parameters) log' e =
      subst (Change log) (some-injective _ _ e) (begin-Change scope c predecessor parameters)
  after-Change (posts c phase role payload) log' e =
      subst (Change log) (some-injective _ _ e) (post-Change c phase role payload)
  after-Change (closes c phase) log' e =
      subst (Change log) (some-injective _ _ e) (close_phase-Change c phase)
  after-Change (aborts c) log' e = subst (Change log) (some-injective _ _ e) (abort-Change c)
  after-Change (activates cs) log' e = elim (Option-cases (activate_bundle log cs)) [
    | inl endless ↦ absurd (ends endless)
    | inr ((r, end), found) ↦
        Outcome-Change cs r log' (activate_bundle-Outcome log cs r log' (reads r end found))
  ]
    where
      ends : activate_bundle log cs ≡ none → ⊥
      ends endless = ground arith

      reads :
          (r : Result Terminal) (end : MemoryLog)
          → activate_bundle log cs ≡ some (r, end)
          → activate_bundle log cs ≡ some (r, log')
      reads r end found = ground arith
