-- ===== src/Log/Successor.antt =====
-- The compare-and-set of `MemoryLog`: in each scope a predecessor has at most one successor.
use coupery_ksnf.Base.{
  ℕ, ◌≡◌, refl, sym, ◌∙◌, ap, subst, true, false, some, List, arith, inl, inr, Bool-cases, ◌≢◌,
}
use mathlib.Core.Option.{some-injective}
use coupery_ksnf.Order.{nat_key, pair_key}
use coupery_ksnf.Map.{lookup, contains, contains-set_insert}
use coupery_ksnf.Log.{MemoryLog, LogTranscript, activated, empty_log, opened}
use coupery_ksnf.Log.Install.{Installed, in_scopes, ready_at, in_scopes_of, OnePerScope-eq}
use coupery_ksnf.Log.Change.{
  Change, unchanged, rooted, created, posted, closed, dropped, bundled, after-Change,
  is_current→lookup,
}
use coupery_ksnf.Log.History.{Reach, here, next}
use coupery_ksnf.Log.Activations.{Activated, Moved, IsSound, put-IsSound, rooted-IsSound, kept}

module _ (log log' : MemoryLog) (cs : List ℕ) (handle : ℕ) (i : Installed log log' cs handle)
    (v : IsSound log) where
  -- A listed command: it was ready, and its scope is one of the bundle's.
  record New (c : ℕ) (t' : LogTranscript) : Type 0 where
    was : LogTranscript
    scope_is : was.scope ≡ t'.scope
    predecessor_is : was.predecessor ≡ t'.predecessor
    current_was : lookup t'.scope log.current ≡ some t'.predecessor
    queued : contains (c, t'.scope) i.queue ≡ true

  listed-New :
      (c : ℕ) (t' : LogTranscript)
      → contains c cs ≡ true
      → lookup c log'.transcripts ≡ some t'
      → New c t'
  listed-New c t' listed found' =
      let (scope, r, there) = ready_at log c i.queue i.ready (rw i.names listed) in
      let same : record r.transcript { terminal = some (activated handle) } ≡ t' =
        ground (arith, i.transcripts_are c, r.found) in
      let scope_is : scope ≡ t'.scope = sym r.scope_is ∙ ap (λ t. t.scope) same in
      record {
        was = r.transcript;
        scope_is = ap (λ t. t.scope) same;
        predecessor_is = ap (λ t. t.predecessor) same;
        current_was =
            subst (λ s. lookup s log.current ≡ some t'.predecessor) scope_is
              (is_current→lookup log scope r.transcript.predecessor r.fresh
                ∙ ap some (ap (λ t. t.predecessor) same));
        queued = subst (λ s. contains (c, s) i.queue ≡ true) scope_is there;
      }

  other-Activated :
      (c : ℕ) (t' : LogTranscript)
      → contains c cs ≡ false
      → Activated log' c t'
      → Activated log c t'
  other-Activated c t' other a = record {
    handle = a.handle;
    found = ground (arith, i.transcripts_are c, a.found);
    decided = a.decided;
  }

  -- A handle in use is not the new one.
  ne_handle : (h : ℕ) → contains h log.handles ≡ true → handle ≢ h
  ne_handle h used e = cc (subst (λ n. contains n log.handles ≡ false) e i.unused)

  known' : (h : ℕ) → contains h log.handles ≡ true → contains h log'.handles ≡ true
  known' h used = ground (arith, i.handles_are, contains-set_insert h handle log.handles)

  New-Moved : (c : ℕ) (t' : LogTranscript) → New c t' → Moved log' t'
  New-Moved c t' n =
      let used = v.in_use t'.scope t'.predecessor n.current_was in
      record {
        head = handle;
        now = ground (arith, i.current_is t'.scope, in_scopes_of c t'.scope i.queue n.queued);
        left = ne_handle t'.predecessor used;
        known = known' t'.predecessor used;
      }

  Moved-later : (t : LogTranscript) → Moved log t → Moved log' t
  Moved-later t m = elim (Bool-cases (in_scopes t.scope i.queue)) [
    | inl again ↦ record {
      head = handle;
      now = ground (arith, i.current_is t.scope);
      left = ne_handle t.predecessor m.known;
      known = known' t.predecessor m.known;
    }
    | inr still ↦ record {
      head = m.head;
      now = ground (arith, i.current_is t.scope, m.now);
      left = m.left;
      known = known' t.predecessor m.known;
    }
  ]

  -- An old activation and a new one are never over the same predecessor.
  old-New :
      (c d : ℕ) (t u : LogTranscript)
      → Activated log c t
      → New d u
      → t.scope ≡ u.scope
      → t.predecessor ≡ u.predecessor
      → ⊥
  old-New c d t u a n p q =
      let m = v.moved c t a in m.left (some-injective _ _ (sym m.now ∙ rw (p, q) n.current_was))

  installed-IsSound : IsSound log'
  installed-IsSound = record {
    in_use = λ s h e. ground (
      arith,
      i.current_is s,
      i.handles_are,
      contains-set_insert h handle log.handles,
      v.in_use s h,
    );
    moved = λ c t a. elim (Bool-cases (contains c cs)) [
      | inl listed ↦ New-Moved c t (listed-New c t listed a.found)
      | inr other ↦ Moved-later t (v.moved c t (other-Activated c t other a))
    ];
    one = λ c d t u a b p q. same_successor c d t u a b p q;
  }
    where
      same_successor :
          (c d : ℕ) (t u : LogTranscript)
          → Activated log' c t
          → Activated log' d u
          → t.scope ≡ u.scope
          → t.predecessor ≡ u.predecessor
          → c ≡ d
      same_successor c d t u a b p q = elim (Bool-cases (contains c cs)) [
        | inl new ↦ elim (Bool-cases (contains d cs)) [
          | inl also ↦
              let n = listed-New c t new a.found in
              let m = listed-New d u also b.found in
              OnePerScope-eq c d u.scope i.queue i.one_per_scope
                (subst (λ s. contains (c, s) i.queue ≡ true) p n.queued) m.queued
          | inr old ↦ absurd (
              old-New d c u t (other-Activated d u old b) (listed-New c t new a.found) (sym p)
                (sym q))
        ]
        | inr old ↦ elim (Bool-cases (contains d cs)) [
          | inl new ↦
              absurd (old-New c d t u (other-Activated c t old a) (listed-New d u new b.found) p q)
          | inr also ↦ v.one c d t u (other-Activated c t old a) (other-Activated d u also b) p q
        ]
      ]

Change-IsSound : (log log' : MemoryLog) → Change log log' → IsSound log → IsSound log'
Change-IsSound log log' (unchanged e) v = subst IsSound (sym e) v
Change-IsSound log log' (rooted scope handle absent e) v =
    subst IsSound (sym e) (rooted-IsSound log scope handle absent v)
Change-IsSound log log' (created c scope predecessor parameters _ _ e) v =
    subst IsSound (sym e) (put-IsSound log c (opened scope predecessor parameters) (λ h a. cc) v)
Change-IsSound log log' (posted c t phase role payload found _ _ _ _ e) v =
    subst IsSound (sym e) (put-IsSound log c _ (λ h a. kept log c t _ h found refl refl a) v)
Change-IsSound log log' (closed c t phase found _ _ _ e) v =
    subst IsSound (sym e) (put-IsSound log c _ (λ h a. kept log c t _ h found refl refl a) v)
Change-IsSound log log' (dropped c t found _ e) v =
    subst IsSound (sym e) (put-IsSound log c _ (λ h a. cc) v)
Change-IsSound log log' (bundled cs handle i) v = installed-IsSound log log' cs handle i v

empty-IsSound : IsSound empty_log
empty-IsSound = record {
  in_use = λ s h e. cc;
  moved = λ c t a. cc a.found;
  one = λ c d t u a b p q. cc a.found;
}

Reach-IsSound : (log : MemoryLog) → Reach empty_log log → IsSound log
Reach-IsSound log here = empty-IsSound
Reach-IsSound log (next {mid = mid} k r e) =
    Change-IsSound mid log (after-Change mid k log e) (Reach-IsSound mid r)

-- In a log that any calls have built from the empty one, two activated commands that name the same
-- scope and the same predecessor are one command: a predecessor has at most one successor.
pub one_successor :
    (log : MemoryLog) (c d : ℕ) (t u : LogTranscript) (g h : ℕ)
    → Reach empty_log log
    → lookup c log.transcripts ≡ some t
    → lookup d log.transcripts ≡ some u
    → t.terminal ≡ some (activated g)
    → u.terminal ≡ some (activated h)
    → t.scope ≡ u.scope
    → t.predecessor ≡ u.predecessor
    → c ≡ d
one_successor log c d t u g h r ft fu dt du p q =
    (Reach-IsSound log r).one c d t u (record { handle = g; found = ft; decided = dt })
      (record { handle = h; found = fu; decided = du }) p q
