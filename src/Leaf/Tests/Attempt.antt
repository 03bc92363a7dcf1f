-- ===== src/Leaf/Tests/Attempt.antt =====
-- The theorems on attempts at the states of the run.
use coupery_ksnf.Base.{◌<◌, ℕ, ◌≡◌, refl, ap, subst, true, none, some, [], ◌∷◌}
use coupery_ksnf.Outcome.{ok, err, attempt_closed}
use coupery_ksnf.Types.{LeafAttempt}
use coupery_ksnf.Support.{inner_participant, inner_coefficient, outer_coefficient}
use coupery_ksnf.Shamir.{evaluate_commitments, from_scalar, signing_share}
use coupery_ksnf.Signing.{Nonce}
use coupery_ksnf.Leaf.State.{
  LeafRegistry, Live, plain, plain_binding, is_closed, epoch, issue_attempt,
}
use coupery_ksnf.Leaf.Session.{commit, reveal, fix, respond_with, close, close_expired}
use coupery_ksnf.Leaf.Reserve.{
  reserve_with, accept_reservation, validate_reservation, check_devices, check_people,
  validate_inner_support, validate_outer_support,
}
use coupery_ksnf.Leaf.Calls.{reserves, commits, reveals, fixes, expires, after_call}
use coupery_ksnf.Leaf.Relation.{Change}
use coupery_ksnf.Leaf.Change.{after_call-Change}
use coupery_ksnf.Leaf.History.{Reach, here, next, closed_forever}
use coupery_ksnf.Leaf.Once.{ok_or_closed, error_closes, answers_once}
use coupery_ksnf.Leaf.Attempts.{Opening, reserve_with-Opening, attempts_increase, reserve_replay}
use coupery_ksnf.Leaf.Answers.{Prepared, respond_with-Prepared}
use coupery_ksnf.Leaf.Replay.{commit_replay}
use coupery_ksnf.Leaf.ReplayViews.{reveal_replay}
use coupery_ksnf.Leaf.ReplayOpenings.{fix_replay}
use coupery_ksnf.Leaf.Tests as Run

after_call-Change_example :
    Change Run.small Run.reserved
      (after_call Run.small {A = ℕ} Run.reserved (commits Run.attempt Run.bytes Run.nonce))
after_call-Change_example =
    after_call-Change Run.small {A = ℕ} Run.reserved (commits Run.attempt Run.bytes Run.nonce)

reserve_with-Opening_example :
    Opening Run.small Run.first Run.reserved Run.attempt 30 50 Run.bytes plain_binding Run.outer
      (ok (Run.reservation, 30, 100))
reserve_with-Opening_example =
    reserve_with-Opening Run.small Run.first Run.reserved Run.attempt 30 50 Run.bytes plain_binding
      Run.outer (ok (Run.reservation, 30, 100)) refl Run.reserves

abbrev held_none : LeafRegistry Run.small
held_none = Run.staged none

closed_forever_example :
    is_closed Run.small (after_call Run.small {A = ℕ} held_none (expires 7)) Run.attempt ≡ true
unfolding is_closed
closed_forever_example =
    closed_forever Run.small {A = ℕ} held_none (after_call Run.small {A = ℕ} held_none (expires 7))
      Run.attempt (next (expires 7) here) refl

abbrev committed : LeafRegistry Run.small
committed = Run.staged (some (Run.live_with (some Run.fixed_commit) none none))

abbrev held : LeafRegistry Run.small
held = Run.staged (some (Run.live_with (some Run.fixed_commit) (some Run.held_view) none))

pub Reach-reserved : Reach Run.small ℕ Run.first Run.reserved
unfolding after_call
Reach-reserved =
    subst (Reach Run.small ℕ Run.first) (ap (λ t. t.1) Run.reserves)
      (next (reserves 30 50 Run.bytes plain_binding Run.outer (ok (Run.reservation, 30, 100))) here)

Reach-committed : Reach Run.small ℕ Run.first committed
unfolding after_call
Reach-committed =
    subst (Reach Run.small ℕ Run.first) (ap (λ t. t.1) Run.commits)
      (next (commits Run.attempt Run.bytes Run.nonce) Reach-reserved)

Reach-held : Reach Run.small ℕ Run.first held
unfolding after_call
Reach-held =
    subst (Reach Run.small ℕ Run.first) (ap (λ t. t.1) Run.reveals)
      (next (reveals Run.attempt (Run.commitment_delivery ∷ [])) Reach-committed)

from_committed : Reach Run.small ℕ committed held
unfolding after_call
from_committed =
    subst (Reach Run.small ℕ committed) (ap (λ t. t.1) Run.reveals)
      (next (reveals Run.attempt (Run.commitment_delivery ∷ [])) here)

from_reserved : Reach Run.small ℕ Run.reserved committed
unfolding after_call
from_reserved =
    subst (Reach Run.small ℕ Run.reserved) (ap (λ t. t.1) Run.commits)
      (next (commits Run.attempt Run.bytes Run.nonce) here)

from_held : Reach Run.small ℕ held Run.ready
unfolding after_call
from_held =
    subst (Reach Run.small ℕ held) (ap (λ t. t.1) Run.fixes)
      (next (fixes Run.attempt (Run.opening_delivery ∷ [])) here)

pub Reach-ready : Reach Run.small ℕ Run.first Run.ready
unfolding after_call
Reach-ready =
    subst (Reach Run.small ℕ Run.first) (ap (λ t. t.1) Run.fixes)
      (next (fixes Run.attempt (Run.opening_delivery ∷ [])) Reach-held)

abbrev pub ready_live : Live Run.small
ready_live = Run.live_with (some Run.fixed_commit) (some Run.held_view) (some Run.fixed_view)

error_closes_example :
    (ok_or_closed Run.small
        (commit Run.small Run.ready Run.attempt Run.bytes Run.nonce).0
        (commit Run.small Run.ready Run.attempt Run.bytes Run.nonce).1
        Run.attempt
      ≡ true)
    × (ok_or_closed Run.small
          (reveal Run.small Run.ready Run.attempt []).0
          (reveal Run.small Run.ready Run.attempt []).1
          Run.attempt
        ≡ true)
    × (ok_or_closed Run.small
          (fix Run.small Run.ready Run.attempt []).0
          (fix Run.small Run.ready Run.attempt []).1
          Run.attempt
        ≡ true)
    × (is_closed Run.small
          (respond_with Run.small Run.ready Run.attempt plain Run.answer_share).1
          Run.attempt
        ≡ true)
error_closes_example =
    error_closes Run.small Run.first Run.ready Run.parts Run.first_epoch ready_live Run.genesis
      Reach-ready refl Run.bytes Run.nonce [] [] plain Run.answer_share

abbrev answered : LeafRegistry Run.small
answered = (respond_with Run.small Run.ready Run.attempt plain Run.answer_share).1

answers_once_example :
    (respond_with Run.small answered Run.attempt plain Run.answer_share
      ≡ (err attempt_closed, answered))
    × (commit Run.small answered Run.attempt Run.bytes Run.nonce ≡ (err attempt_closed, answered))
    × (reveal Run.small answered Run.attempt [] ≡ (err attempt_closed, answered))
    × (fix Run.small answered Run.attempt [] ≡ (err attempt_closed, answered))
    × (close Run.small answered Run.attempt ≡ (err attempt_closed, answered))
answers_once_example =
    answers_once Run.small Run.first Run.ready answered Run.parts Run.first_epoch ready_live plain
      plain Run.answer_share Run.answer_share Run.bytes Run.nonce [] [] Run.genesis Reach-ready refl
      here

respond_with-Prepared_example : Prepared Run.small Run.ready ready_live plain Run.answer_share 5
respond_with-Prepared_example =
    respond_with-Prepared Run.small Run.first Run.ready (Run.staged none) Run.parts Run.first_epoch
      ready_live plain Run.answer_share 5 Run.genesis Reach-ready refl Run.responds

reserve_replay_example :
    reserve_with Run.small committed 30 1000 Run.bytes plain_binding Run.outer
      (ok (Run.reservation, 30, 100))
    ≡ (ok Run.attempt, committed)
reserve_replay_example =
    reserve_replay Run.small Run.first Run.first Run.reserved committed Run.parts Run.first_epoch
      Run.attempt 30 50 1000 Run.bytes plain_binding Run.outer Run.outer
      (ok (Run.reservation, 30, 100)) (ok (Run.reservation, 30, 100))
      (Run.live_with (some Run.fixed_commit) none none) Run.genesis here refl Run.reserves
      from_reserved refl refl

abbrev other_nonce : Nonce Run.small
other_nonce = record { hiding = 3; binding = 3 }

commit_replay_example : commit Run.small held Run.attempt Run.bytes other_nonce ≡ (ok 1, held)
commit_replay_example =
    commit_replay Run.small Run.first Run.reserved committed held Run.parts Run.first_epoch
      Run.attempt Run.bytes Run.nonce other_nonce 1
      (Run.live_with (some Run.fixed_commit) (some Run.held_view) none) Run.genesis Reach-reserved
      Run.commits from_committed refl refl

reveal_replay_example :
    reveal Run.small Run.ready Run.attempt (Run.commitment_delivery ∷ []) ≡ (ok Run.pair, Run.ready)
reveal_replay_example =
    reveal_replay Run.small Run.first committed held Run.ready Run.parts Run.first_epoch Run.attempt
      (Run.commitment_delivery ∷ []) Run.pair ready_live Run.genesis Reach-committed Run.reveals
      from_held refl refl

fix_replay_example :
    fix Run.small Run.ready Run.attempt (Run.opening_delivery ∷ []) ≡ (ok Run.pair, Run.ready)
fix_replay_example =
    fix_replay Run.small Run.first held Run.ready Run.ready Run.parts Run.first_epoch Run.attempt
      (Run.opening_delivery ∷ []) Run.pair ready_live Run.genesis Reach-held Run.fixes here refl
      refl

abbrev second_attempt : LeafAttempt
second_attempt = record { device = 8; sequence = 1 }

abbrev second : LeafRegistry Run.small
second = record Run.reserved {
  live = some (record (Run.live_with none none none) { attempt = second_attempt; session = 31 });
  next_sequence = 2;
}

reserves_again :
    reserve_with Run.small
      (Run.staged none)
      31
      60
      Run.bytes
      plain_binding
      Run.outer
      (ok (Run.reservation, 31, 100))
    ≡ (ok second_attempt, second)
unfolding reserve_with accept_reservation validate_reservation validate_inner_support
    validate_outer_support check_devices check_people epoch issue_attempt evaluate_commitments
    from_scalar signing_share inner_participant inner_coefficient outer_coefficient
reserves_again = refl

closes_first : Reach Run.small ℕ Run.reserved (Run.staged none)
unfolding after_call close_expired
closes_first = next (expires 100) here

attempts_increase_example :
    (second_attempt.device ≡ Run.attempt.device) × (Run.attempt.sequence < second_attempt.sequence)
attempts_increase_example =
    attempts_increase Run.small Run.first Run.reserved (Run.staged none) second Run.attempt
      second_attempt 30 50 Run.bytes plain_binding Run.outer (ok (Run.reservation, 30, 100)) 31 60
      Run.bytes plain_binding Run.outer (ok (Run.reservation, 31, 100)) refl Run.reserves
      closes_first refl reserves_again
