-- ===== src/Log.antt =====
-- log_act.rs: the append-only transcripts and the compare-and-set activation of `MemoryLog`.
-- `LogAct` is the trait's operations; `MemoryLog` the only implementation in the crate. Byte
-- strings are lists of numbers below 256, handles the numbers that their 32 bytes spell.
pub mod Fresh
pub mod Loop
pub mod Install
pub mod Activate
pub mod Change
pub mod History
pub mod Activations
pub mod Successor
pub mod Posts
mod Tests
use coupery_ksnf.Base.{
  ℕ, zero, suc, ◌+◌, ◌*◌, ◌%◌, ◌^◌, ◌≡◌, ◌↔◌, Bool, true, false, not, ◌&&◌, Option, none, some,
  List, [], ◌∷◌, ◌++◌, arith, if◌then◌else◌, length, ltb, ◌==◌ as nat_beq,
}
use coupery_ksnf.Order.{Key, ◌==◌, ◌<?◌, nat_key, list_key, pair_key}
use coupery_ksnf.Map.{Map, lookup, insert, contains_key, contains, set_insert}
use coupery_ksnf.Sort.{sort_by_key}
use coupery_ksnf.Outcome.{
  Result, ok, err, ◌>>=◌, participant_not_found, command_mismatch, stale_predecessor,
  replay_mismatch, already_terminal, phase_closed, empty_input,
}

pub data LogPhase : Type 0 where
  commit open_phase receipt : LogPhase

-- The position in the declaration, by which the derived `Ord` compares.
abbrev pub rank : LogPhase → ℕ
rank commit = 0
rank open_phase = 1
rank receipt = 2

pub rank_beq_iff : (a b : LogPhase) → (nat_beq (rank a) (rank b) ≡ true) ↔ (a ≡ b)
rank_beq_iff a b = ground arith

instance abbrev pub phase_key : Key LogPhase
phase_key = record {
  beq = λ a b. nat_beq (rank a) (rank b);
  lt = λ a b. ltb (rank a) (rank b);
  beq_iff = rank_beq_iff;
}

pub data Terminal : Type 0 where
  aborted : Terminal
  activated : ℕ → Terminal

abbrev pub PostKey : Type 0
PostKey = LogPhase × List ℕ

pub record LogTranscript : Type 0 where
  pub scope : ℕ
  pub predecessor : ℕ
  pub parameters : List ℕ
  pub posts : Map PostKey (List ℕ)
  pub next_phase : Option LogPhase
  pub terminal : Option Terminal

pub record MemoryLog : Type 0 where
  pub current : Map ℕ ℕ
  pub transcripts : Map ℕ LogTranscript
  pub handles : List ℕ
  pub activations : Map ℕ (List ℕ)
  pub next_handle : ℕ

-- `MemoryLog::default`
abbrev pub empty_log : MemoryLog
empty_log = record {
  current = [];
  transcripts = [];
  handles = [];
  activations = [];
  next_handle = 0;
}

abbrev pub is_some {ℓ} : {A : Type ℓ} → Option A → Bool
is_some none = false
is_some (some a) = true

-- `self.current.get(&scope) == Some(&predecessor)`
abbrev pub is_current : MemoryLog → ℕ → ℕ → Bool
is_current log scope predecessor = elim (lookup scope log.current) [
  | none ↦ false
  | some handle ↦ handle == predecessor
]

pub install_genesis : MemoryLog → ℕ → ℕ → Result (Unit {0}) × MemoryLog
install_genesis log scope handle =
    if contains_key scope log.current then (err command_mismatch, log) else (
      ok tt,
      record log {
        current = insert scope handle log.current;
        handles = set_insert handle log.handles;
      },
    )

-- The transcript that `begin` creates.
abbrev pub opened : ℕ → ℕ → List ℕ → LogTranscript
opened scope predecessor parameters = record {
  scope = scope;
  predecessor = predecessor;
  parameters = parameters;
  posts = [];
  next_phase = some commit;
  terminal = none;
}

pub begin : MemoryLog → ℕ → ℕ → ℕ → List ℕ → Result (Unit {0}) × MemoryLog
begin log scope command predecessor parameters = elim (lookup command log.transcripts) [
  | some t ↦
      if t.scope == scope && t.predecessor == predecessor && t.parameters == parameters
      then (ok tt, log)
      else (err command_mismatch, log)
  | none ↦
      if is_current log scope predecessor
      then (
        ok tt,
        record log {
          transcripts = insert command (opened scope predecessor parameters) log.transcripts;
        },
      )
      else (err stale_predecessor, log)
]

-- `self.transcript_mut(command)?` and a write through it.
abbrev pub put_transcript : MemoryLog → ℕ → LogTranscript → MemoryLog
put_transcript log command t = record log { transcripts = insert command t log.transcripts }

abbrev pub phase_is : Option LogPhase → LogPhase → Bool
phase_is none phase = false
phase_is (some next) phase = next == phase

pub post : MemoryLog → ℕ → LogPhase → List ℕ → List ℕ → Result (Unit {0}) × MemoryLog
post log command phase role payload = elim (lookup command log.transcripts) [
  | none ↦ (err participant_not_found, log)
  | some t ↦ elim (lookup (phase, role) t.posts) [
    | some existing ↦ if existing == payload then (ok tt, log) else (err replay_mismatch, log)
    | none ↦
        if is_some t.terminal
        then (err already_terminal, log)
        else if not (phase_is t.next_phase phase)
        then (err phase_closed, log)
        else if not (is_current log t.scope t.predecessor)
        then (err stale_predecessor, log)
        else (
          ok tt,
          put_transcript log command (record t { posts = insert (phase, role) payload t.posts }),
        )
  ]
]

abbrev pub after_phase : LogPhase → Option LogPhase
after_phase commit = some open_phase
after_phase open_phase = some receipt
after_phase receipt = none

-- `matches!(next_phase, Some(next) if next > phase) || next_phase.is_none()`
abbrev pub is_past : Option LogPhase → LogPhase → Bool
is_past none phase = true
is_past (some next) phase = phase <? next

pub close_phase : MemoryLog → ℕ → LogPhase → Result (Unit {0}) × MemoryLog
close_phase log command phase = elim (lookup command log.transcripts) [
  | none ↦ (err participant_not_found, log)
  | some t ↦
      if is_past t.next_phase phase
      then (ok tt, log)
      else if is_some t.terminal
      then (err already_terminal, log)
      else if not (is_current log t.scope t.predecessor)
      then (err stale_predecessor, log)
      else if phase_is t.next_phase phase
      then (ok tt, put_transcript log command (record t { next_phase = after_phase phase }))
      else (err phase_closed, log)
]

pub abort : MemoryLog → ℕ → Result Terminal × MemoryLog
abort log command = elim (lookup command log.transcripts) [
  | none ↦ (err participant_not_found, log)
  | some t ↦ elim t.terminal [
    | some aborted ↦ (ok aborted, log)
    | some (activated handle) ↦ (err already_terminal, log)
    | none ↦ (ok aborted, put_transcript log command (record t { terminal = some aborted }))
  ]
]

-- The locals of the loop in `activate_bundle`.
pub record Scan : Type 0 where
  pub unique_commands : List ℕ
  pub unique_scopes : List ℕ
  pub records : List (ℕ × ℕ)
  pub replay : Option ℕ

abbrev start_scan : Scan
start_scan = record { unique_commands = []; unique_scopes = []; records = []; replay = none }

abbrev pub has_records : List (ℕ × ℕ) → Bool
has_records [] = false
has_records (r ∷ rs) = true

-- The match on the terminal decision of one listed command.
pub scan_terminal : MemoryLog → ℕ → LogTranscript → Option Terminal → Scan → Result Scan
scan_terminal log command t (some (activated handle)) s =
    if has_records s.records then err already_terminal else elim s.replay [
      | some existing ↦
          if existing == handle
          then ok (record s { replay = some handle })
          else err already_terminal
      | none ↦ ok (record s { replay = some handle })
    ]
scan_terminal log command t (some aborted) s = err already_terminal
scan_terminal log command t none s =
    if is_some s.replay
    then err already_terminal
    else if is_some t.next_phase
    then err phase_closed
    else if not (is_current log t.scope t.predecessor)
    then err stale_predecessor
    else ok (record s { records = s.records ++ (command, t.scope) ∷ [] })

-- One round of the loop.
pub scan_command : MemoryLog → ℕ → Scan → Result Scan
scan_command log command s =
    if contains command s.unique_commands
    then err command_mismatch
    else elim (lookup command log.transcripts) [
      | none ↦ err participant_not_found
      | some t ↦
          if contains t.scope s.unique_scopes
          then err command_mismatch
          else scan_terminal log command t t.terminal (record s {
            unique_commands = set_insert command s.unique_commands;
            unique_scopes = set_insert t.scope s.unique_scopes;
          })
    ]

pub scan_commands : MemoryLog → List ℕ → Scan → Result Scan
scan_commands log [] s = ok s
scan_commands log (c ∷ cs) s = scan_command log c s >>= scan_commands log cs

-- The bytes `b"KSNFLOG1"`, sixteen zero bytes and the counter, as a number.
abbrev pub handle_of : ℕ → ℕ
handle_of n = 0x4b534e464c4f4731 * 2 ^ 192 + n

-- `wrapping_add(1)` on a `u64`.
abbrev pub next_counter : ℕ → ℕ
next_counter n = (n + 1) % 2 ^ 64

-- The counter at which the loop of `fresh_handle` stops; `none` if the fuel runs out first.
pub fresh_counter : ℕ → ℕ → List ℕ → Option ℕ
fresh_counter zero n handles = none
fresh_counter (suc fuel) n handles = elim (contains (handle_of (next_counter n)) handles) [
  | true ↦ fresh_counter fuel (next_counter n) handles
  | false ↦ some (next_counter n)
]

-- `none` where the loop of the source would not end.
pub fresh_handle : MemoryLog → Option (ℕ × MemoryLog)
fresh_handle log = elim (fresh_counter (suc (length log.handles)) log.next_handle log.handles) [
  | none ↦ none
  | some n ↦
      some (
        handle_of n,
        record log { next_handle = n; handles = set_insert (handle_of n) log.handles },
      )
]

pub set_current : List (ℕ × ℕ) → ℕ → Map ℕ ℕ → Map ℕ ℕ
set_current [] handle current = current
set_current ((_, scope) ∷ rs) handle current = set_current rs handle (insert scope handle current)

pub set_terminals : List (ℕ × ℕ) → ℕ → MemoryLog → Result (Unit {0}) × MemoryLog
set_terminals [] handle log = (ok tt, log)
set_terminals ((command, _) ∷ rs) handle log = elim (lookup command log.transcripts) [
  | none ↦ (err participant_not_found, log)
  | some t ↦
      set_terminals rs handle
        (put_transcript log command (record t { terminal = some (activated handle) }))
]

-- The end of `activate_bundle`, under a fresh handle.
pub install : List (ℕ × ℕ) → List ℕ → ℕ → MemoryLog → Result Terminal × MemoryLog
install rs commands handle log =
    let (r, log') =
      set_terminals rs handle (record log { current = set_current rs handle log.current }) in
    elim r [
      | ok _ ↦ (
        ok (activated handle),
        record log' { activations = insert handle commands log'.activations },
      )
      | err e ↦ (err e, log')
    ]

-- `self.activations.get(&handle) == Some(&canonical_commands)`
abbrev pub names_bundle : MemoryLog → ℕ → List ℕ → Bool
names_bundle log handle commands = elim (lookup handle log.activations) [
  | none ↦ false
  | some cs ↦ cs == commands
]

-- What follows the loop over the commands.
pub conclude : MemoryLog → List ℕ → Scan → Option (Result Terminal × MemoryLog)
conclude log commands s = elim s.replay [
  | some handle ↦ some (
      if names_bundle log handle commands
      then (ok (activated handle), log)
      else (err command_mismatch, log))
  | none ↦ elim (fresh_handle log) [
    | none ↦ none
    | some (handle, log') ↦ some (install s.records commands handle log')
  ]
]

-- `none` where `fresh_handle` would not end; `activate_bundle-total` says when it does.
pub activate_bundle : MemoryLog → List ℕ → Option (Result Terminal × MemoryLog)
activate_bundle log [] = some (err empty_input, log)
activate_bundle log (c ∷ cs) = elim (scan_commands log (c ∷ cs) start_scan) [
  | err e ↦ some (err e, log)
  | ok s ↦ conclude log (sort_by_key (λ n. n) (c ∷ cs)) s
]

pub activate : MemoryLog → ℕ → Option (Result Terminal × MemoryLog)
unfolding activate_bundle
activate log command = activate_bundle log (command ∷ [])

-- `LogAct::current`
pub current : MemoryLog → ℕ → Option ℕ
current log scope = lookup scope log.current
