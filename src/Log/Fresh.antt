-- ===== src/Log/Fresh.antt =====
-- `MemoryLog::fresh_handle`: its loop ends, and the handle that it returns is new.
use coupery_ksnf.Base.{
  ℕ, zero, suc, ◌+◌, ◌%◌, ◌^◌, ◌≤◌, ◌<◌, ◌≡◌, refl, sym, ◌∙◌, ◌≢◌, true, false, none, some, List,
  [], ◌∷◌, arith, if◌then◌else◌, length, inl, inr, Bool-cases, Option-cases,
}
use coupery_ksnf.Order.{◌==◌, nat_key}
use coupery_ksnf.Map.{contains, set_insert}
use coupery_ksnf.Log.{MemoryLog, handle_of, next_counter, fresh_counter, fresh_handle}

erase : ℕ → List ℕ → List ℕ
erase a [] = []
erase a (b ∷ s) = if a == b then s else b ∷ erase a s

length-erase : (a : ℕ) (s : List ℕ) → contains a s ≡ true → suc (length (erase a s)) ≡ length s
unfolding erase
length-erase a [] h = cc
length-erase a (b ∷ s) h = ground (arith, length-erase a s)

contains-erase_ne : (a b : ℕ) (s : List ℕ) → a ≢ b → contains a (erase b s) ≡ contains a s
unfolding erase
contains-erase_ne a b [] h = refl
contains-erase_ne a b (c ∷ s) h = ground (arith, contains-erase_ne a b s h)

-- The handle of the i-th round of the loop.
abbrev round : ℕ → ℕ → ℕ
round n i = handle_of ((n + i) % 2 ^ 64)

round-next : (n i : ℕ) → round (next_counter n) i ≡ round n (suc i)
round-next n i = omega arith

round-ne : (n i : ℕ) → suc i < 2 ^ 64 → round n (suc (suc i)) ≢ round n 1
round-ne n i h = omega arith

-- The loop looks at no other handles than those of its rounds.
fresh_counter-agree :
    (fuel n : ℕ) (s t : List ℕ)
    → ((i : ℕ) → i < fuel → contains (round n (suc i)) s ≡ contains (round n (suc i)) t)
    → fresh_counter fuel n s ≡ fresh_counter fuel n t
unfolding fresh_counter
fresh_counter-agree zero n s t h = refl
fresh_counter-agree (suc fuel) n s t h =
    ground (arith, h 0 (omega arith), fresh_counter-agree fuel (next_counter n) s t later)
  where
    later :
        (i : ℕ)
        → i < fuel
        → contains (round (next_counter n) (suc i)) s ≡ contains (round (next_counter n) (suc i)) t
    later i lt = rw (round-next n (suc i)) (h (suc i) (omega arith))

-- Fewer handles than rounds: one of the rounds finds a handle that is not in use.
fresh_counter-total :
    (fuel n : ℕ) (s : List ℕ)
    → length s < fuel
    → fuel ≤ 2 ^ 64
    → (m : ℕ) × (fresh_counter fuel n s ≡ some m)
unfolding fresh_counter
fresh_counter-total zero n s h w = absurd (omega arith)
fresh_counter-total (suc fuel) n s h w = elim (Bool-cases (contains (round n 1) s)) [
  | inl used ↦
      let rest : List ℕ = erase (round n 1) s in
      let ih : (m : ℕ) × (fresh_counter fuel (next_counter n) rest ≡ some m) =
        fresh_counter-total fuel (next_counter n) rest
          (omega (arith, length-erase (round n 1) s used)) (omega arith) in
      (
        ih.0,
        rw (used, fresh_counter)
            (sym (fresh_counter-agree fuel (next_counter n) rest s (unused used)) ∙ ih.1),
      )
  | inr free ↦ (next_counter n, rw (free, fresh_counter))
]
  where
    unused :
        contains (round n 1) s ≡ true
        → (i : ℕ) → i < fuel
        → contains (round (next_counter n) (suc i)) (erase (round n 1) s)
          ≡ contains (round (next_counter n) (suc i)) s
    unused used i lt =
        rw (round-next n (suc i)) (contains-erase_ne _ _ s (round-ne n i (omega arith)))

fresh_counter-new :
    (fuel n : ℕ) (s : List ℕ) (m : ℕ)
    → fresh_counter fuel n s ≡ some m
    → (contains (handle_of m) s ≡ false) × (m < 2 ^ 64)
unfolding fresh_counter
fresh_counter-new zero n s m h = cc
fresh_counter-new (suc fuel) n s m h = ground (arith, fresh_counter-new fuel (next_counter n) s m)

-- While fewer than 2^64 handles are in use, the loop of `fresh_handle` ends.
pub fresh_handle-total :
    (log : MemoryLog)
    → length log.handles < 2 ^ 64
    → (h : ℕ) × (log' : MemoryLog) × (fresh_handle log ≡ some (h, log'))
unfolding fresh_handle
fresh_handle-total log h =
    let (m, e) = fresh_counter-total _ log.next_handle log.handles (omega arith) h in
    (
      handle_of m,
      record log { next_handle = m; handles = set_insert (handle_of m) log.handles },
      rw (e, fresh_handle),
    )

-- What `fresh_handle` returns was not in use; it is recorded, and nothing else changes.
pub record IsFresh (log log' : MemoryLog) (h : ℕ) : Type 0 where
  pub unused : contains h log.handles ≡ false
  pub recorded : log'.handles ≡ set_insert h log.handles
  pub same_current : log'.current ≡ log.current
  pub same_transcripts : log'.transcripts ≡ log.transcripts
  pub same_activations : log'.activations ≡ log.activations

pub fresh_handle-IsFresh :
    (log log' : MemoryLog) (h : ℕ) → fresh_handle log ≡ some (h, log') → IsFresh log log' h
unfolding fresh_handle
fresh_handle-IsFresh log log' h e =
    elim (Option-cases (fresh_counter _ log.next_handle log.handles)) [
      | inl stuck ↦ absurd (stuck_fails stuck)
      | inr (m, found) ↦ ground (arith, fresh_counter-new _ log.next_handle log.handles m found)
    ]
  where
    stuck_fails : fresh_counter (suc (length log.handles)) log.next_handle log.handles ≡ none → ⊥
    stuck_fails stuck = ground arith
