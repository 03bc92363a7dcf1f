-- ===== src/Store.antt =====
-- leaf/store.rs, the journal records of leaf/store/record.rs, and leaf/store/persistent.rs.
pub mod Journal
pub mod JournalRoundTrip
pub mod Memory
pub mod Exchange
pub mod Revisions
pub mod Registry
pub mod Backend
pub mod Persistent
pub mod Durable
pub mod Transition
pub mod Release
pub mod MaterialTransition
pub mod Create
pub mod Reconcile
pub mod MemoryBackend
mod Tests
