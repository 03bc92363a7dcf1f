-- ===== src/Log/Activations.antt =====
-- The activations that a `MemoryLog` holds, and the calls that add none.
use coupery_ksnf.Base.{
  ℕ, ◌≡◌, refl, sym, ◌∙◌, ap, subst, true, none, some, arith, inl, inr, Bool-cases, ◌≢◌,
}
use coupery_ksnf.Order.{◌==◌, nat_key, pair_key}
use coupery_ksnf.Map.{lookup, insert, contains, set_insert, lookup-insert, contains-set_insert}
use coupery_ksnf.Log.{MemoryLog, LogTranscript, activated, put_transcript}

-- The command is activated; `t` is its transcript.
pub record Activated (log : MemoryLog) (c : ℕ) (t : LogTranscript) : Type 0 where
  pub handle : ℕ
  pub found : lookup c log.transcripts ≡ some t
  pub decided : t.terminal ≡ some (activated handle)

-- The scope of the transcript has left the predecessor, which is a handle that was in use.
pub record Moved (log : MemoryLog) (t : LogTranscript) : Type 0 where
  pub head : ℕ
  pub now : lookup t.scope log.current ≡ some head
  pub left : head ≢ t.predecessor
  pub known : contains t.predecessor log.handles ≡ true

pub record IsSound (log : MemoryLog) : Type 0 where
  pub in_use : (s h : ℕ) → lookup s log.current ≡ some h → contains h log.handles ≡ true
  pub moved : (c : ℕ) (t : LogTranscript) → Activated log c t → Moved log t
  pub one :
      (c d : ℕ) (t u : LogTranscript)
      → Activated log c t
      → Activated log d u
      → t.scope ≡ u.scope
      → t.predecessor ≡ u.predecessor
      → c ≡ d

-- An activated command of the later log was activated before, over the same predecessor.
pub record WasActivated (log : MemoryLog) (c : ℕ) (t' : LogTranscript) : Type 0 where
  pub t : LogTranscript
  pub before : Activated log c t
  pub same_scope : t.scope ≡ t'.scope
  pub same_predecessor : t.predecessor ≡ t'.predecessor

-- A call that activates nothing and moves no scope.
IsSound-quiet :
    (log log' : MemoryLog)
    → log'.current ≡ log.current
    → log'.handles ≡ log.handles
    → ((c : ℕ) (t' : LogTranscript) → Activated log' c t' → WasActivated log c t')
    → IsSound log
    → IsSound log'
IsSound-quiet log log' cur han old v = record {
  in_use = λ s h e. rw han (v.in_use s h (sym (ap (lookup s) cur) ∙ e));
  moved = λ c t' a.
      let w = old c t' a in
      let m = v.moved c w.t w.before in
      record {
        head = m.head;
        now = rw cur (subst (λ x. lookup x log.current ≡ some m.head) w.same_scope m.now);
        left = subst (λ x. m.head ≢ x) w.same_predecessor m.left;
        known = rw han (subst (λ x. contains x log.handles ≡ true) w.same_predecessor m.known);
      };
  one = λ c d t u a b p q.
      let w = old c t a in
      let x = old d u b in
      v.one c d w.t x.t w.before x.before (w.same_scope ∙ p ∙ sym x.same_scope)
        (w.same_predecessor ∙ q ∙ sym x.same_predecessor);
}

module _ (log : MemoryLog) (d : ℕ) (u' : LogTranscript)
    (old : (h : ℕ) → u'.terminal ≡ some (activated h) → WasActivated log d u') where
  put-WasActivated :
      (c : ℕ) (t : LogTranscript) → Activated (put_transcript log d u') c t → WasActivated log c t
  put-WasActivated c t a = elim (Bool-cases (c == d)) [
    | inl same ↦
        subst (λ n. WasActivated log n t) (sym (is_it same))
          (subst (WasActivated log d) (holds same)
            (old a.handle (ap (λ x. x.terminal) (holds same) ∙ a.decided)))
    | inr other ↦ record {
      t = t;
      before = record {
        handle = a.handle;
        found = ground (arith, lookup-insert c d u' log.transcripts, a.found);
        decided = a.decided;
      };
      same_scope = refl;
      same_predecessor = refl;
    }
  ]
    where
      is_it : (c == d) ≡ true → c ≡ d
      is_it same = ground arith

      holds : (c == d) ≡ true → u' ≡ t
      holds same = ground (arith, lookup-insert c d u' log.transcripts, a.found)

  pub put-IsSound : IsSound log → IsSound (put_transcript log d u')
  put-IsSound v = IsSound-quiet log _ refl refl put-WasActivated v

-- A root is set in a scope that no transcript has.
pub rooted-IsSound :
    (log : MemoryLog) (scope handle : ℕ)
    → lookup scope log.current ≡ none
    → IsSound log
    → IsSound (record log {
      current = insert scope handle log.current;
      handles = set_insert handle log.handles;
    })
rooted-IsSound log scope handle absent v = record {
  in_use = λ s h e. ground (
    arith,
    lookup-insert s scope handle log.current,
    contains-set_insert h handle log.handles,
    v.in_use s h,
  );
  moved = λ c t a.
      let m = v.moved c t (record { handle = a.handle; found = a.found; decided = a.decided }) in
      record {
        head = m.head;
        now = ground (arith, lookup-insert t.scope scope handle log.current, m.now);
        left = m.left;
        known = ground (arith, contains-set_insert t.predecessor handle log.handles, m.known);
      };
  one = λ c d t u a b p q.
      v.one c d t u (record { handle = a.handle; found = a.found; decided = a.decided })
        (record { handle = b.handle; found = b.found; decided = b.decided }) p q;
}

pub kept :
    (log : MemoryLog) (c : ℕ) (t t' : LogTranscript) (h : ℕ)
    → lookup c log.transcripts ≡ some t
    → t.scope ≡ t'.scope
    → t.predecessor ≡ t'.predecessor
    → t.terminal ≡ some (activated h)
    → WasActivated log c t'
kept log c t t' h found p q a = record {
  t = t;
  before = record { handle = h; found = found; decided = a };
  same_scope = p;
  same_predecessor = q;
}
