-- ===== src/Log/History.antt =====
-- Any sequence of calls on a `MemoryLog`: its transcripts only grow.
use coupery_ksnf.Base.{
  ℕ, ◌≤◌, ◌≡◌, refl, sym, ◌∙◌, ap, subst, true, Option, none, some, List, arith, inl, inr,
  Bool-cases,
}
use coupery_ksnf.Order.{◌==◌, nat_key, list_key, pair_key, list_beq_iff}
use coupery_ksnf.Map.{lookup, insert, contains, lookup-insert}
use coupery_ksnf.Log.{
  MemoryLog, LogTranscript, Terminal, activated, aborted, LogPhase, commit, open_phase, receipt,
  rank, PostKey, phase_key, opened, put_transcript, after_phase,
}
use coupery_ksnf.Log.Install.{Installed-undecided}
use coupery_ksnf.Log.Change.{
  Call, after, Change, unchanged, rooted, created, posted, closed, dropped, bundled, after-Change,
}

pub data Reach (log : MemoryLog) : MemoryLog → Type 0 where
  here : Reach log log
  next :
      {mid log' : MemoryLog} (c : Call) → Reach log mid → after mid c ≡ some log' → Reach log log'

-- How many phases are closed.
abbrev pub progress : Option LogPhase → ℕ
progress (some phase) = rank phase
progress none = 3

-- The later transcript has all that the earlier one has.
pub record Extends (t t' : LogTranscript) : Type 0 where
  pub same_scope : t'.scope ≡ t.scope
  pub same_predecessor : t'.predecessor ≡ t.predecessor
  pub same_parameters : t'.parameters ≡ t.parameters
  pub keeps_posts :
      (key : PostKey) (p : List ℕ) → lookup key t.posts ≡ some p → lookup key t'.posts ≡ some p
  pub keeps_terminal : (d : Terminal) → t.terminal ≡ some d → t'.terminal ≡ some d
  pub advances : progress t.next_phase ≤ progress t'.next_phase

Extends-refl : (t : LogTranscript) → Extends t t
Extends-refl t = record {
  same_scope = refl;
  same_predecessor = refl;
  same_parameters = refl;
  keeps_posts = λ key p h. h;
  keeps_terminal = λ d h. h;
  advances = omega arith;
}

Extends-trans : (t u v : LogTranscript) → Extends t u → Extends u v → Extends t v
Extends-trans t u v a b = record {
  same_scope = b.same_scope ∙ a.same_scope;
  same_predecessor = b.same_predecessor ∙ a.same_predecessor;
  same_parameters = b.same_parameters ∙ a.same_parameters;
  keeps_posts = λ key p h. b.keeps_posts key p (a.keeps_posts key p h);
  keeps_terminal = λ d h. b.keeps_terminal d (a.keeps_terminal d h);
  advances = omega arith;
}

abbrev Grown : MemoryLog → ℕ → LogTranscript → Type 0
Grown log' c t = (t' : LogTranscript) × (lookup c log'.transcripts ≡ some t') × Extends t t'

-- One post more.
Extends-post :
    (t : LogTranscript) (key : PostKey) (p : List ℕ)
    → lookup key t.posts ≡ none
    → Extends t (record t { posts = insert key p t.posts })
Extends-post t key p new = record {
  same_scope = refl;
  same_predecessor = refl;
  same_parameters = refl;
  keeps_posts = λ k q h. ground (arith, lookup-insert k key p t.posts, list_beq_iff k.1 key.1);
  keeps_terminal = λ d h. h;
  advances = omega arith;
}

Extends-decide :
    (t : LogTranscript) (d : Terminal)
    → t.terminal ≡ none
    → Extends t (record t { terminal = some d })
Extends-decide t d open_still = record {
  same_scope = refl;
  same_predecessor = refl;
  same_parameters = refl;
  keeps_posts = λ k q h. h;
  keeps_terminal = λ e h. cc;
  advances = omega arith;
}

Extends-close :
    (t : LogTranscript) (phase : LogPhase)
    → t.next_phase ≡ some phase
    → Extends t (record t { next_phase = after_phase phase })
Extends-close t phase e = record {
  same_scope = refl;
  same_predecessor = refl;
  same_parameters = refl;
  keeps_posts = λ k q h. h;
  keeps_terminal = λ d h. h;
  advances = rw e (advance phase);
}
  where
    advance : (p : LogPhase) → progress (some p) ≤ progress (after_phase p)
    advance commit = omega arith
    advance open_phase = omega arith
    advance receipt = omega arith

module _ (log : MemoryLog) (c : ℕ) (t : LogTranscript)
    (found : lookup c log.transcripts ≡ some t) where
  Grown-same : (log' : MemoryLog) → log'.transcripts ≡ log.transcripts → Grown log' c t
  Grown-same log' same = (t, ap (lookup c) same ∙ found, Extends-refl t)

  Grown-put :
      (d : ℕ) (u u' : LogTranscript)
      → lookup d log.transcripts ≡ some u
      → Extends u u'
      → Grown (put_transcript log d u') c t
  Grown-put d u u' at e = elim (Bool-cases (c == d)) [
    | inl same ↦ (
      u',
      ground (arith, lookup-insert c d u' log.transcripts),
      subst (λ x. Extends x u') (is_it same) e,
    )
    | inr other ↦ (t, ground (arith, lookup-insert c d u' log.transcripts), Extends-refl t)
  ]
    where
      is_it : (c == d) ≡ true → u ≡ t
      is_it same = ground arith

  -- The call has written one transcript.
  Grown-write :
      (log' : MemoryLog) (d : ℕ) (u u' : LogTranscript)
      → log' ≡ put_transcript log d u'
      → lookup d log.transcripts ≡ some u
      → Extends u u'
      → Grown log' c t
  Grown-write log' d u u' e at x = subst (λ l. Grown l c t) (sym e) (Grown-put d u u' at x)

  Change-Grown : (log' : MemoryLog) → Change log log' → Grown log' c t
  Change-Grown log' (unchanged same) = Grown-same log' (ap (λ l. l.transcripts) same)
  Change-Grown log' (rooted scope handle _ e) = Grown-same log' (ap (λ l. l.transcripts) e)
  Change-Grown log' (created d scope predecessor parameters new _ e) = (
    t,
    ground (
      arith,
      ap (λ l. l.transcripts) e,
      lookup-insert c d (opened scope predecessor parameters) log.transcripts,
    ),
    Extends-refl t,
  )
  Change-Grown log' (posted d u phase role payload at new _ _ _ e) =
      Grown-write log' d u _ e at (Extends-post u (phase, role) payload new)
  Change-Grown log' (closed d u phase at is_open _ _ e) =
      Grown-write log' d u _ e at (Extends-close u phase is_open)
  Change-Grown log' (dropped d u at undecided e) =
      Grown-write log' d u _ e at (Extends-decide u aborted undecided)
  Change-Grown log' (bundled cs h i) = elim (Bool-cases (contains c cs)) [
    | inl listed ↦ (
      record t { terminal = some (activated h) },
      ground (arith, i.transcripts_are c),
      Extends-decide t (activated h) (Installed-undecided log log' cs h c t i listed found),
    )
    | inr other ↦ (t, ground (arith, i.transcripts_are c), Extends-refl t)
  ]

-- Nothing that a log has recorded of a command is lost or changed by any sequence of calls. The
-- command keeps its scope, its predecessor and its parameters, each post and its decision, and no
-- closed phase opens again.
pub Reach-Extends :
    (log log' : MemoryLog) (c : ℕ) (t : LogTranscript)
    → Reach log log'
    → lookup c log.transcripts ≡ some t
    → (t' : LogTranscript) × (lookup c log'.transcripts ≡ some t') × Extends t t'
Reach-Extends log log' c t here found = (t, found, Extends-refl t)
Reach-Extends log log' c t (next {mid = mid} k r e) found =
    let (u, at, x) = Reach-Extends log mid c t r found in
    let (v, at', y) = Change-Grown mid c u at log' (after-Change mid k log' e) in
    (v, at', Extends-trans t u v x y)
