-- ===== src/Leaf.antt =====
-- leaf.rs: one device's signing lock, attempt counter and one-use attempts.
pub mod State
pub mod Session
pub mod Install
pub mod Reserve
pub mod Activate
pub mod Change
pub mod Stages
pub mod Steps
pub mod Outcome
pub mod Calls
pub mod Bundles
pub mod Epochs
pub mod OuterEpochs
pub mod Relation
pub mod History
pub mod Sound
pub mod Alive
pub mod Once
pub mod Fits
pub mod Attempts
pub mod Answers
pub mod Wire
pub mod Replay
pub mod ReplayViews
pub mod ReplayOpenings
pub mod Tests
pub mod SessionChange
