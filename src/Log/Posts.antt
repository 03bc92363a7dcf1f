-- ===== src/Log/Posts.antt =====
-- First post wins: `MemoryLog::post` against any later history.
use coupery_ksnf.Base.{
  ℕ, ◌≡◌, ◌∙◌, ap, true, none, some, List, arith, inl, inr, Option-cases, if◌then◌else◌,
}
use coupery_ksnf.Order.{◌==◌, nat_key, list_key, pair_key, list_beq, list_beq_iff}
use coupery_ksnf.Map.{lookup, insert, lookup-insert_self}
use coupery_ksnf.Outcome.{ok, err, replay_mismatch}
use coupery_ksnf.Log.{MemoryLog, LogTranscript, Terminal, LogPhase, PostKey, phase_key, post}
use coupery_ksnf.Log.History.{Reach, Reach-Extends}

-- A command's post under a role and phase.
record Posted (log : MemoryLog) (c : ℕ) (key : PostKey) (payload : List ℕ) : Type 0 where
  transcript : LogTranscript
  found : lookup c log.transcripts ≡ some transcript
  holds : lookup key transcript.posts ≡ some payload

post-Posted :
    (log log' : MemoryLog) (c : ℕ) (phase : LogPhase) (role payload : List ℕ)
    → post log c phase role payload ≡ (ok tt, log')
    → Posted log' c (phase, role) payload
unfolding post
post-Posted log log' c phase role payload h = elim (Option-cases (lookup c log.transcripts)) [
  | inl absent ↦ absurd (missing absent)
  | inr (t, found) ↦ elim (Option-cases (lookup (phase, role) t.posts)) [
    | inr (p, old) ↦ record {
      transcript = t;
      found = ground arith;
      holds = old ∙ ap some ((list_beq_iff p payload).0 (same t found p old));
    }
    | inl new ↦ record {
      transcript = record t { posts = insert (phase, role) payload t.posts };
      found = ground (
        arith,
        lookup-insert_self c (record t { posts = insert (phase, role) payload t.posts })
            log.transcripts,
      );
      holds = lookup-insert_self (phase, role) payload t.posts;
    }
  ]
]
  where
    missing : lookup c log.transcripts ≡ none → ⊥
    missing absent = ground arith

    same :
        (t : LogTranscript)
        → lookup c log.transcripts ≡ some t
        → (p : List ℕ) → lookup (phase, role) t.posts ≡ some p
        → list_beq p payload ≡ true
    same t found p old = ground arith

-- Once a post has succeeded, then after any calls its role and phase take that payload only: the
-- same payload is accepted and another refused, whatever the phase and the decision are by then,
-- and neither changes the log.
pub post_first_wins :
    (log log' later : MemoryLog) (c : ℕ) (phase : LogPhase) (role payload other : List ℕ)
    → post log c phase role payload ≡ (ok tt, log')
    → Reach log' later
    → post later c phase role other
      ≡ (if payload == other then ok tt else err replay_mismatch, later)
unfolding post
post_first_wins log log' later c phase role payload other h r =
    let p = post-Posted log log' c phase role payload h in
    let (t, found, x) = Reach-Extends log' later c p.transcript r p.found in
    ground (arith, x.keeps_posts (phase, role) payload p.holds)

-- A decision is final: after any calls an activated command is activated under its handle and an
-- aborted one is aborted, and its parameters, scope and predecessor are those that it had.
pub decision_final :
    (log later : MemoryLog) (c : ℕ) (t : LogTranscript) (d : Terminal)
    → lookup c log.transcripts ≡ some t
    → t.terminal ≡ some d
    → Reach log later
    → (u : LogTranscript) × (lookup c later.transcripts ≡ some u)
      × (u.terminal ≡ some d)
      × (u.parameters ≡ t.parameters)
      × (u.scope ≡ t.scope)
      × (u.predecessor ≡ t.predecessor)
decision_final log later c t d found decided r =
    let (u, at, x) = Reach-Extends log later c t r found in
    (u, at, x.keeps_terminal d decided, x.same_parameters, x.same_scope, x.same_predecessor)
