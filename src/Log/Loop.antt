-- ===== src/Log/Loop.antt =====
-- The loop of `MemoryLog::activate_bundle` over the listed commands: what it has checked when it
-- succeeds.
use coupery_ksnf.Base.{
  ℕ, ◌≡◌, refl, ◌∙◌, ap, subst, false, true, ◌&&◌, Option, none, some, List, [], ◌∷◌, ◌++◌, map,
  arith, ◌⊎◌, inl, inr, Option-cases, All,
}
use mathlib.Core.List.{append-nil, append_assoc}
use coupery_ksnf.Order.{nat_key}
use coupery_ksnf.Map.{lookup, contains, set_insert, contains-set_insert}
use coupery_ksnf.Outcome.{ok, >>=-passed}
use coupery_ksnf.Log.{
  MemoryLog, LogTranscript, Terminal, activated, aborted, Scan, scan_terminal, scan_command,
  scan_commands, is_current, is_some, has_records,
}

-- The command may be installed: all its phases are closed, it has no decision yet, and the
-- predecessor that it names is its scope's current handle.
pub record IsReady (log : MemoryLog) (r : ℕ × ℕ) : Type 0 where
  pub transcript : LogTranscript
  pub found : lookup r.0 log.transcripts ≡ some transcript
  pub scope_is : transcript.scope ≡ r.1
  pub undecided : transcript.terminal ≡ none
  pub closed : transcript.next_phase ≡ none
  pub fresh : is_current log r.1 transcript.predecessor ≡ true

-- The command is installed under the handle.
pub record IsActivated (log : MemoryLog) (handle command : ℕ) : Type 0 where
  pub transcript : LogTranscript
  pub found : lookup command log.transcripts ≡ some transcript
  pub decided : transcript.terminal ≡ some (activated handle)

-- One round queues the command for installation, or finds it installed. Of the state before the
-- round these say what it does with the queued records and the handle seen so far.
module _ (log : MemoryLog) (command : ℕ) (records : List (ℕ × ℕ)) (replay : Option ℕ)
    (s : Scan) where
  record Queues : Type 0 where
    scope : ℕ
    ready : IsReady log (command, scope)
    no_replay : replay ≡ none
    no_replay' : s.replay ≡ none
    pushed : s.records ≡ records ++ (command, scope) ∷ []

  record Replays : Type 0 where
    handle : ℕ
    done : IsActivated log handle command
    empty : has_records records ≡ false
    same : s.records ≡ records
    replay' : s.replay ≡ some handle
    seen : (replay ≡ none) ⊎ (replay ≡ some handle)

abbrev Round : MemoryLog → ℕ → Scan → Scan → Type 0
Round log command s s' =
    Queues log command s.records s.replay s' ⊎ Replays log command s.records s.replay s'

module _ (log : MemoryLog) (command : ℕ) (t : LogTranscript)
    (found : lookup command log.transcripts ≡ some t) where
  scan_terminal-cases :
      (d : Option Terminal) (s s' : Scan)
      → t.terminal ≡ d
      → scan_terminal log command t d s ≡ ok s'
      → Round log command s s'
  unfolding scan_terminal
  scan_terminal-cases (some (activated handle)) s s' e h = inr (record {
    handle = handle;
    done = record { transcript = t; found = found; decided = e };
    empty = ground arith;
    same = ground arith;
    replay' = ground arith;
    seen = ground arith;
  })
  scan_terminal-cases (some aborted) s s' e h = cc
  scan_terminal-cases none s s' e h = inl (record {
    scope = t.scope;
    ready = record {
      transcript = t;
      found = found;
      scope_is = refl;
      undecided = e;
      closed = ground arith;
      fresh = ground arith;
    };
    no_replay = ground arith;
    no_replay' = ground arith;
    pushed = ground arith;
  })

scan_command-cases :
    (log : MemoryLog) (command : ℕ) (s s' : Scan)
    → scan_command log command s ≡ ok s'
    → Round log command s s'
unfolding scan_command
scan_command-cases log command s s' h = elim (Option-cases (lookup command log.transcripts)) [
  | inl absent ↦ absurd (missing absent)
  | inr (t, found) ↦ scan_terminal-cases log command t found t.terminal _ s' refl (present t found)
]
  where
    missing : lookup command log.transcripts ≡ none → ⊥
    missing absent = ground arith

    present :
        (t : LogTranscript)
        → lookup command log.transcripts ≡ some t
        → scan_terminal log command t t.terminal (record s {
          unique_commands = set_insert command s.unique_commands;
          unique_scopes = set_insert t.scope s.unique_scopes;
        })
          ≡ ok s'
    present t found = ground arith

-- The loop refuses a second command of one scope.
scan_terminal-scopes :
    (log : MemoryLog) (command : ℕ) (t : LogTranscript) (d : Option Terminal) (s s' : Scan)
    → scan_terminal log command t d s ≡ ok s'
    → s'.unique_scopes ≡ s.unique_scopes
unfolding scan_terminal
scan_terminal-scopes log command t (some (activated handle)) s s' h = ground arith
scan_terminal-scopes log command t (some aborted) s s' h = cc
scan_terminal-scopes log command t none s s' h = ground arith

scan_command-scopes :
    (log : MemoryLog) (command : ℕ) (t : LogTranscript) (s s' : Scan)
    → lookup command log.transcripts ≡ some t
    → scan_command log command s ≡ ok s'
    → (contains t.scope s.unique_scopes ≡ false)
      × (s'.unique_scopes ≡ set_insert t.scope s.unique_scopes)
unfolding scan_command
scan_command-scopes log command t s s' found h = ground (
  arith,
  scan_terminal-scopes log command t t.terminal
      (record s {
        unique_commands = set_insert command s.unique_commands;
        unique_scopes = set_insert t.scope s.unique_scopes;
      })
      s',
)

-- No two entries of the queue are of one scope.
abbrev pub OnePerScope : List (ℕ × ℕ) → Type 0
OnePerScope [] = Unit
OnePerScope (r ∷ rs) = (contains r.1 (map (λ p. p.1) rs) ≡ false) × OnePerScope rs

abbrev NewScopes : List ℕ → List (ℕ × ℕ) → Type 0
NewScopes seen rs = All (λ r. contains r.1 seen ≡ false) rs

NewScopes-insert :
    (scope : ℕ) (seen : List ℕ) (rs : List (ℕ × ℕ))
    → NewScopes (set_insert scope seen) rs
    → NewScopes seen rs × (contains scope (map (λ p. p.1) rs) ≡ false)
NewScopes-insert scope seen [] h = (tt, refl)
NewScopes-insert scope seen ((c, x) ∷ rs) h =
    let (later, absent) = NewScopes-insert scope seen rs h.1 in
    (
      (ground (arith, contains-set_insert x scope seen, h.0), later),
      ground (arith, contains-set_insert x scope seen, h.0),
    )

-- If no command was found installed, each is queued, in the order of the list, and ready.
pub record Queued (log : MemoryLog) (cs : List ℕ) (s s' : Scan) : Type 0 where
  pub queue : List (ℕ × ℕ)
  pub records_are : s'.records ≡ s.records ++ queue
  pub names : map (λ r. r.0) queue ≡ cs
  pub ready : All (IsReady log) queue
  pub new_scopes : NewScopes s.unique_scopes queue
  pub one_per_scope : OnePerScope queue
  pub no_replay : s.replay ≡ none

pub scan_commands-Queued :
    (log : MemoryLog) (cs : List ℕ) (s s' : Scan)
    → scan_commands log cs s ≡ ok s'
    → s'.replay ≡ none
    → Queued log cs s s'
unfolding scan_commands
scan_commands-Queued log [] s s' h e = record {
  queue = [];
  records_are = ground (arith, append-nil s.records);
  names = refl;
  ready = tt;
  new_scopes = tt;
  one_per_scope = tt;
  no_replay = ground arith;
}
scan_commands-Queued log (c ∷ cs) s s' h e =
    let (t, first, later) = >>=-passed (scan_command log c s) (scan_commands log cs) h in
    push t first (scan_command-cases log c s t first) (scan_commands-Queued log cs t s' later e)
  where
    push :
        (t : Scan)
        → scan_command log c s ≡ ok t
        → Round log c s t
        → Queued log cs t s'
        → Queued log (c ∷ cs) s s'
    push t first (inl q) r =
        let (new, grown) = scan_command-scopes log c q.ready.transcript s t q.ready.found first in
        let scope_is = q.ready.scope_is in
        let (later, absent) =
          NewScopes-insert q.scope s.unique_scopes r.queue
            (subst (λ l. NewScopes l r.queue) (grown ∙ rw scope_is) r.new_scopes) in
        record {
          queue = (c, q.scope) ∷ r.queue;
          records_are = r.records_are ∙ rw q.pushed (append_assoc s.records _ r.queue);
          names = ap (λ l. c ∷ l) r.names;
          ready = (q.ready, r.ready);
          new_scopes = (subst (λ n. contains n s.unique_scopes ≡ false) scope_is new, later);
          one_per_scope = (absent, r.one_per_scope);
          no_replay = q.no_replay;
        }
    push t first (inr p) r = absurd (cc (p.replay', r.no_replay))

-- If one was found installed, all are, under one handle.
pub record Replayed (log : MemoryLog) (cs : List ℕ) (handle : ℕ) (s : Scan) : Type 0 where
  pub done : All (IsActivated log handle) cs
  pub empty : has_records s.records ≡ false
  pub seen : (s.replay ≡ none) ⊎ (s.replay ≡ some handle)

has_records-append : (rs : List (ℕ × ℕ)) (r : ℕ × ℕ) → has_records (rs ++ r ∷ []) ≡ true
has_records-append [] r = refl
has_records-append (q ∷ rs) r = refl

pub scan_commands-Replayed :
    (log : MemoryLog) (cs : List ℕ) (handle : ℕ) (s s' : Scan)
    → (has_records s.records && is_some s.replay) ≡ false
    → scan_commands log cs s ≡ ok s'
    → s'.replay ≡ some handle
    → Replayed log cs handle s
unfolding scan_commands
scan_commands-Replayed log [] handle s s' start h e = record {
  done = tt;
  empty = ground arith;
  seen = inr (ground arith);
}
scan_commands-Replayed log (c ∷ cs) handle s s' start h e =
    let (t, first, later) = >>=-passed (scan_command log c s) (scan_commands log cs) h in
    let r = scan_command-cases log c s t first in
    join t r (scan_commands-Replayed log cs handle t s' (keep t r) later e)
  where
    keep : (t : Scan) → Round log c s t → (has_records t.records && is_some t.replay) ≡ false
    keep t (inl q) = ground (arith, q.no_replay')
    keep t (inr p) = ground (arith, p.same, p.empty)

    join : (t : Scan) → Round log c s t → Replayed log cs handle t → Replayed log (c ∷ cs) handle s
    join t (inl q) r =
        absurd (cc (r.empty, ap has_records q.pushed, has_records-append s.records (c, q.scope)))
    join t (inr p) r =
        let same : p.handle ≡ handle = ground (arith, p.replay', r.seen) in
        record {
          done = (subst (λ h. IsActivated log h c) same p.done, r.done);
          empty = p.empty;
          seen = subst (λ h. (s.replay ≡ none) ⊎ (s.replay ≡ some h)) same p.seen;
        }
