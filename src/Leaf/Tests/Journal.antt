-- ===== src/Leaf/Tests/Journal.antt =====
-- The journal of the reserved registry of the run.
use coupery_ksnf.Base.{ℕ, ◌≡◌, ap, subst}
use coupery_ksnf.Outcome.{ok}
use coupery_ksnf.Leaf.State.{plain_binding, is_closed}
use coupery_ksnf.Leaf.Calls.{reserves, after_call}
use coupery_ksnf.Leaf.History.{Reach, here, next}
use coupery_ksnf.Store.Journal.{LeafJournal, journal_is_closed}
use coupery_ksnf.Store.Registry.{from_registry, from_registry-agrees}
use coupery_ksnf.Leaf.Tests as Run

Reach-reserved : Reach Run.small ℕ Run.first Run.reserved
unfolding after_call
Reach-reserved =
    subst (Reach Run.small ℕ Run.first) (ap (λ t. t.1) Run.reserves)
      (next (reserves 30 50 Run.bytes plain_binding Run.outer (ok (Run.reservation, 30, 100))) here)

from_registry-agrees_example :
    (j : LeafJournal) × (from_registry Run.small 70 Run.reserved ≡ ok j)
    × (j.material ≡ 70)
    × (journal_is_closed j Run.attempt ≡ is_closed Run.small Run.reserved Run.attempt)
from_registry-agrees_example =
    from_registry-agrees Run.small Run.first Run.reserved Run.parts Run.first_epoch 70 Run.attempt
      Run.genesis Reach-reserved
