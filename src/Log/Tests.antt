-- ===== src/Log/Tests.antt =====
-- Runs of `MemoryLog` on small inputs, and the theorems at such inputs.
use coupery_ksnf.Base.{ℕ, ◌≡◌, refl, none, some, [], ◌∷◌, arith}
use coupery_ksnf.Map.{lookup}
use coupery_ksnf.Order.{nat_key, list_key, list_beq}
use coupery_ksnf.Outcome.{Result, ok, err, already_terminal, replay_mismatch, stale_predecessor}
use coupery_ksnf.Sort.{sort_by_key}
use coupery_ksnf.Log.{
  MemoryLog, LogTranscript, commit, open_phase, receipt, Terminal, activated, scan_command,
  scan_commands, scan_terminal, conclude, fresh_handle, fresh_counter, install, set_current,
  set_terminals, current, empty_log, install_genesis, begin, post, close_phase, abort,
  activate_bundle, activate, handle_of,
}
use coupery_ksnf.Log.Activate.{Outcome, activate_bundle-Outcome, activate_bundle-total}
use coupery_ksnf.Log.Change.{
  installs_genesis, begins, posts, closes, activates, after, Change, after-Change,
}
use coupery_ksnf.Log.History.{Reach, here, next}
use coupery_ksnf.Log.Successor.{one_successor}
use coupery_ksnf.Log.Posts.{post_first_wins, decision_final}

abbrev closed_transcript : LogTranscript
closed_transcript = record {
  scope = 1;
  predecessor = 5;
  parameters = 9 ∷ [];
  posts = ((commit, 3 ∷ []), 4 ∷ []) ∷ [];
  next_phase = none;
  terminal = none;
}

abbrev genesis_log : MemoryLog
genesis_log = record empty_log { current = (1, 5) ∷ []; handles = 5 ∷ [] }

abbrev ready_log : MemoryLog
ready_log = record genesis_log { transcripts = (10, closed_transcript) ∷ [] }

abbrev activated_log : MemoryLog
activated_log = record {
  current = (1, handle_of 1) ∷ [];
  transcripts = (10, record closed_transcript { terminal = some (activated (handle_of 1)) }) ∷ [];
  handles = 5 ∷ handle_of 1 ∷ [];
  activations = (handle_of 1, 10 ∷ []) ∷ [];
  next_handle = 1;
}

installs : activate_bundle ready_log (10 ∷ []) ≡ some (ok (activated (handle_of 1)), activated_log)
unfolding activate_bundle scan_commands scan_command scan_terminal conclude fresh_handle
    fresh_counter install set_current set_terminals sort_by_key
installs = refl

replays : activate activated_log 10 ≡ some (ok (activated (handle_of 1)), activated_log)
unfolding activate scan_commands scan_command scan_terminal conclude list_beq sort_by_key
replays = refl

Reach-ready : Reach empty_log ready_log
unfolding after install_genesis begin post close_phase
Reach-ready =
    next (closes 10 receipt)
      (next (closes 10 open_phase)
        (next (closes 10 commit)
          (next (posts 10 commit (3 ∷ []) (4 ∷ []))
            (next (begins 1 10 5 (9 ∷ [])) (next (installs_genesis 1 5) here refl) refl) refl)
          refl)
        refl)
      refl

activation : after ready_log (activates (10 ∷ [])) ≡ some activated_log
unfolding after activate_bundle scan_commands scan_command scan_terminal conclude fresh_handle
    fresh_counter install set_current set_terminals sort_by_key
activation = refl

Reach-activated : Reach empty_log activated_log
Reach-activated = next (activates (10 ∷ [])) Reach-ready activation

-- A second command over the old predecessor cannot even begin.
stale : (begin activated_log 1 11 5 []).0 ≡ err stale_predecessor
unfolding begin
stale = refl

abort_too_late : (abort activated_log 10).0 ≡ err already_terminal
unfolding abort
abort_too_late = refl

current_moves : current activated_log 1 ≡ some (handle_of 1)
unfolding current
current_moves = refl

activate_bundle-Outcome_example :
    Outcome ready_log (10 ∷ []) (ok (activated (handle_of 1))) activated_log
activate_bundle-Outcome_example =
    activate_bundle-Outcome ready_log (10 ∷ []) (ok (activated (handle_of 1))) activated_log
      installs

activate_bundle-total_example :
    (r : Result Terminal) × (log' : MemoryLog) × (activate_bundle ready_log (10 ∷ [])
      ≡ some (r, log'))
activate_bundle-total_example = activate_bundle-total ready_log (10 ∷ []) (omega arith)

after-Change_example : Change ready_log activated_log
after-Change_example = after-Change ready_log (activates (10 ∷ [])) activated_log activation

one_successor_example : ◌≡◌ {A = ℕ} 10 10
one_successor_example =
    one_successor activated_log 10 10
      (record closed_transcript { terminal = some (activated (handle_of 1)) })
      (record closed_transcript { terminal = some (activated (handle_of 1)) }) (handle_of 1)
      (handle_of 1) Reach-activated refl refl refl refl refl refl

posted_log : (post ready_log 10 commit (3 ∷ []) (4 ∷ [])) ≡ (ok tt, ready_log)
unfolding post list_beq
posted_log = refl

post_first_wins_example :
    post activated_log 10 commit (3 ∷ []) (6 ∷ []) ≡ (err replay_mismatch, activated_log)
unfolding list_beq
post_first_wins_example =
    post_first_wins ready_log ready_log activated_log 10 commit (3 ∷ []) (4 ∷ []) (6 ∷ [])
      posted_log (next (activates (10 ∷ [])) here activation)

decision_final_example :
    (u : LogTranscript) × (lookup 10 activated_log.transcripts ≡ some u)
    × (u.terminal ≡ some (activated (handle_of 1)))
    × (u.parameters ≡ 9 ∷ [])
    × (u.scope ≡ 1)
    × (u.predecessor ≡ 5)
decision_final_example =
    decision_final activated_log activated_log 10
      (record closed_transcript { terminal = some (activated (handle_of 1)) })
      (activated (handle_of 1)) refl refl here
