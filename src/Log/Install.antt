-- ===== src/Log/Install.antt =====
-- The two loops at the end of `MemoryLog::activate_bundle`, which write the new handle into every
-- scope and every transcript of the bundle.
use coupery_ksnf.Base.{
  ℕ, ◌≡◌, refl, sym, ◌∙◌, ap, subst, Bool, true, false, Option, none, some, List, [], ◌∷◌, map,
  arith, if◌then◌else◌, Bool-cases, ◌⊎◌, inl, inr, All,
}
use mathlib.Core.Option.{some-injective}
use coupery_ksnf.Order.{◌==◌, nat_key, pair_key}
use coupery_ksnf.Map.{Map, lookup, insert, contains, set_insert, lookup-insert}
use coupery_ksnf.Sort.{sort_by_key}
use coupery_ksnf.Outcome.{ok}
use coupery_ksnf.Log.{
  MemoryLog, LogTranscript, activated, set_current, set_terminals, install, put_transcript,
}
use coupery_ksnf.Log.Fresh.{IsFresh}
use coupery_ksnf.Log.Loop.{IsReady, OnePerScope}

-- Some queued command belongs to the scope.
abbrev pub in_scopes : ℕ → List (ℕ × ℕ) → Bool
in_scopes scope rs = contains scope (map (λ r. r.1) rs)

abbrev pub in_commands : ℕ → List (ℕ × ℕ) → Bool
in_commands command rs = contains command (map (λ r. r.0) rs)

abbrev pub decide : ℕ → Option LogTranscript → Option LogTranscript
decide handle none = none
decide handle (some t) = some (record t { terminal = some (activated handle) })

lookup-set_current :
    (rs : List (ℕ × ℕ)) (handle scope : ℕ) (m : Map ℕ ℕ)
    → lookup scope (set_current rs handle m)
      ≡ (if in_scopes scope rs then some handle else lookup scope m)
unfolding set_current
lookup-set_current [] handle scope m = refl
lookup-set_current ((c, s) ∷ rs) handle scope m =
    ground (
      arith,
      lookup-set_current rs handle scope (insert s handle m),
      lookup-insert scope s handle m,
    )

-- All the commands of the list have a transcript.
abbrev Present : Map ℕ LogTranscript → ℕ × ℕ → Type 0
Present m r = (t : LogTranscript) × (lookup r.0 m ≡ some t)

Present-insert :
    (m : Map ℕ LogTranscript) (c : ℕ) (t : LogTranscript) (rs : List (ℕ × ℕ))
    → All (Present m) rs
    → All (Present (insert c t m)) rs
Present-insert m c t [] p = tt
Present-insert m c t ((d, s) ∷ rs) p =
    (present_here (Bool-cases (d == c)), Present-insert m c t rs p.1)
  where
    present_here : ((d == c) ≡ true) ⊎ ((d == c) ≡ false) → Present (insert c t m) (d, s)
    present_here (inl same) = (t, ground (arith, lookup-insert d c t m))
    present_here (inr other) = (p.0.0, ground (arith, lookup-insert d c t m, p.0.1))

-- The loop over the transcripts succeeds, decides those of the list and changes nothing else.
record Decided (rs : List (ℕ × ℕ)) (handle : ℕ) (log log' : MemoryLog) : Type 0 where
  transcripts :
      (d : ℕ)
      → lookup d log'.transcripts ≡ (
          if in_commands d rs
          then decide handle (lookup d log.transcripts)
          else lookup d log.transcripts)
  same_current : log'.current ≡ log.current
  same_handles : log'.handles ≡ log.handles
  same_activations : log'.activations ≡ log.activations

set_terminals-Decided :
    (rs : List (ℕ × ℕ)) (handle : ℕ) (log : MemoryLog)
    → All (Present log.transcripts) rs
    → let (r, log') = set_terminals rs handle log in (r ≡ ok tt) × Decided rs handle log log'
unfolding set_terminals
set_terminals-Decided [] handle log p = (
  refl,
  record {
    transcripts = λ d. refl;
    same_current = refl;
    same_handles = refl;
    same_activations = refl;
  },
)
set_terminals-Decided ((c, s) ∷ rs) handle log p =
    rw (p.0.1, set_terminals)
      (now p.0.0 p.0.1
        (set_terminals-Decided rs handle (next p.0.0) (Present-insert log.transcripts c _ rs p.1)))
  where
    next : LogTranscript → MemoryLog
    next t = put_transcript log c (record t { terminal = some (activated handle) })

    now :
        (t : LogTranscript)
        → lookup c log.transcripts ≡ some t
        → let (r, log') = set_terminals rs handle (next t) in
          (r ≡ ok tt) × Decided rs handle (next t) log'
          → let (r, log') = set_terminals rs handle (next t) in
            (r ≡ ok tt) × Decided ((c, s) ∷ rs) handle log log'
    now t found (done, h) = (
      done,
      record {
        transcripts = λ d. ground (
          arith,
          h.transcripts d,
          lookup-insert d c (record t { terminal = some (activated handle) }) log.transcripts,
          found,
        );
        same_current = h.same_current;
        same_handles = h.same_handles;
        same_activations = h.same_activations;
      },
    )

Present-ready :
    (log : MemoryLog) (rs : List (ℕ × ℕ)) → All (IsReady log) rs → All (Present log.transcripts) rs
Present-ready log [] p = tt
Present-ready log (r ∷ rs) p = ((p.0.transcript, p.0.found), Present-ready log rs p.1)

-- The bundle `cs` is installed under `handle`, which was not in use: every command was ready,
-- exactly the transcripts of `cs` are decided, exactly their scopes move to the new handle, and
-- the handle is recorded with the names of the bundle.
pub record Installed (log log' : MemoryLog) (cs : List ℕ) (handle : ℕ) : Type 0 where
  pub queue : List (ℕ × ℕ)
  pub names : map (λ r. r.0) queue ≡ cs
  pub ready : All (IsReady log) queue
  pub one_per_scope : OnePerScope queue
  pub unused : contains handle log.handles ≡ false
  pub handles_are : log'.handles ≡ set_insert handle log.handles
  pub activations_are : log'.activations ≡ insert handle (sort_by_key (λ n. n) cs) log.activations
  pub transcripts_are :
      (d : ℕ)
      → lookup d log'.transcripts ≡ (
          if contains d cs
          then decide handle (lookup d log.transcripts)
          else lookup d log.transcripts)
  pub current_is :
      (scope : ℕ)
      → lookup scope log'.current
        ≡ (if in_scopes scope queue then some handle else lookup scope log.current)

pub install-Installed :
    (log mid : MemoryLog) (cs : List ℕ) (handle : ℕ) (rs : List (ℕ × ℕ))
    → IsFresh log mid handle
    → All (IsReady log) rs
    → OnePerScope rs
    → map (λ r. r.0) rs ≡ cs
    → let (r, log') = install rs (sort_by_key (λ n. n) cs) handle mid in
      (r ≡ ok (activated handle)) × Installed log log' cs handle
unfolding install
install-Installed log mid cs handle rs fresh ready distinct names =
    rw (looped.0, install)
      (
        refl,
        record {
          queue = rs;
          names = names;
          ready = ready;
          one_per_scope = distinct;
          unused = fresh.unused;
          handles_are = looped.1.same_handles ∙ fresh.recorded;
          activations_are =
              ap (insert handle _) (looped.1.same_activations ∙ fresh.same_activations);
          transcripts_are = λ d. looped.1.transcripts d ∙ rw (names, fresh.same_transcripts);
          current_is = λ scope.
              ap (lookup scope) looped.1.same_current
              ∙ lookup-set_current rs handle scope mid.current
              ∙ rw fresh.same_current;
        },
      )
  where
    start : MemoryLog
    start = record mid { current = set_current rs handle mid.current }

    looped :
        let (r, log') = set_terminals rs handle start in (r ≡ ok tt) × Decided rs handle start log'
    looped =
        set_terminals-Decided rs handle start (
          subst (λ m. All (Present m) rs) (sym fresh.same_transcripts) (Present-ready log rs ready))

-- A listed command stands in the queue with some scope, and was ready.
pub ready_at :
    (log : MemoryLog) (c : ℕ) (rs : List (ℕ × ℕ))
    → All (IsReady log) rs
    → in_commands c rs ≡ true
    → (scope : ℕ) × IsReady log (c, scope) × (contains (c, scope) rs ≡ true)
ready_at log c [] p h = cc
ready_at log c ((d, s) ∷ rs) p h = elim (Bool-cases (c == d)) [
  | inl same ↦ (s, subst (λ n. IsReady log (n, s)) (sym (is_it same)) p.0, ground arith)
  | inr other ↦
      let (scope, r, there) = ready_at log c rs p.1 (ground arith) in (scope, r, ground arith)
]
  where
    is_it : (c == d) ≡ true → c ≡ d
    is_it same = ground arith

pub in_scopes_of : (c s : ℕ) (rs : List (ℕ × ℕ)) → contains (c, s) rs ≡ true → in_scopes s rs ≡ true
in_scopes_of c s [] h = cc
in_scopes_of c s ((d, x) ∷ rs) h = ground (arith, in_scopes_of c s rs)

pub OnePerScope-eq :
    (c d s : ℕ) (rs : List (ℕ × ℕ))
    → OnePerScope rs
    → contains (c, s) rs ≡ true
    → contains (d, s) rs ≡ true
    → c ≡ d
OnePerScope-eq c d s [] o p q = cc
OnePerScope-eq c d s ((e, x) ∷ rs) o p q =
    ground (arith, OnePerScope-eq c d s rs o.1, in_scopes_of c s rs, in_scopes_of d s rs)

-- So each listed command had no decision before.
pub Installed-undecided :
    (log log' : MemoryLog) (cs : List ℕ) (handle c : ℕ) (t : LogTranscript)
    → Installed log log' cs handle
    → contains c cs ≡ true
    → lookup c log.transcripts ≡ some t
    → t.terminal ≡ none
Installed-undecided log log' cs handle c t i listed found =
    let (scope, r, _) = ready_at log c i.queue i.ready (rw i.names listed) in
    ap (λ u. u.terminal) (some-injective t r.transcript (sym found ∙ r.found)) ∙ r.undecided
