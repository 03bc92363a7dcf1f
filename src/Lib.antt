-- ===== src/Lib.antt =====
-- Nested FROST (KSNF): a model of the crate's core and the theorems about it.
--
-- The crate signs with keys that are shared twice: among people, and by each person among devices.
-- A device keeps a `LeafRegistry` (src/leaf.rs): the key state of its vaults and at most one live
-- signing attempt, which goes through reservation, commitment, reveal, fixing and response. New
-- keys come from dealings, whose commands a log (src/log_act.rs) orders: it holds the transcript of
-- each command, decides it once, and activates bundles of commands under fresh handles, which the
-- key epochs of the leaves then name.
--
-- The files and what they model:
--   Base, Order, Map, Sort, Outcome: shared names; numbers, lists, keys, `BTreeMap` as a sorted
--     association list, sorting, and src/error.rs with `Result` and `?`. Sort/Increasing and
--     Sort/Distinct are about sorted lists of distinct keys.
--   Types: identifiers, epochs and anchors of src/types.rs and src/keys.rs.
--   Profile: the trait of src/profile.rs as a record of the operations of the external curve and
--     hash packages; equality is assumed to be decided. What else a theorem assumes of them is a
--     hypothesis of it: `CanonicalCodec` of Reader/Elements, that scalars and points have encodings
--     of one length that read back, and `GroupLaws` of Signing/Algebra, the laws of a commutative
--     group with scalars. Ternary is a profile that has both, for the runs.
--   Encoding, Decoding, Reader: the writer and the reader of src/encoding.rs, with the scalars,
--     points and tagged elements of src/algebra.rs. Reader/Reads has a rule for each way to build a
--     reader, on reading what was written.
--   Shamir, Support, Auth: src/shamir.rs with the shares of src/keys.rs, src/support.rs, and
--     src/auth.rs.
--   Transcript: src/transcript.rs. Transcript/Write has the printers, Read and Frames what the
--     parsers read, Body, Root and Reservation the constructors and checks; Order, Equal, Reads,
--     BodyRoundTrip, RootRoundTrip, ReservationRoundTrip and Finalize are about them, and Tests has
--     a run.
--   Signing: src/signing.rs. Signing/Schnorr has the equations, Context the `SigningContext` of
--     src/transcript.rs, Respond and Aggregate the operations, Wire the responses' bytes. Algebra,
--     Answered, MemberSum, MemberRounds and MemberComplete follow the devices' responses into the
--     member's, Bindings, OuterSum and SignatureComplete the members' into the signature; Tests has
--     a run of both.
--   Dealing: the data of src/dealing/ that a leaf reads.
--   Log: `MemoryLog` of src/log_act.rs, one function per method of `LogAct`. Log/Fresh, Loop,
--     Install and Activate are about `activate_bundle`; Log/Change is the step relation; History,
--     Activations, Successor and Posts are about any sequence of calls; Log/Tests has the runs.
--   Leaf: src/leaf.rs. Leaf/State is the state and its lookups (`is_closed`, `take_live`,
--     `issue_attempt`), Session the operations on the live attempt, Reserve `reserve_with` and its
--     validation, Wire `reserve` and `respond` with the parsers and the answer that they pass on,
--     Install `new`, `from_vaults` and `add_vault`, Activate the two activations. Leaf/Outcome,
--     Stages, Steps, Calls, Relation, SessionChange and Change are the step relation; Fits and
--     Bundles are what the validations accept; Sound, History and Alive are the invariant and the
--     histories; Once, Attempts, Answers, Replay, ReplayViews, ReplayOpenings, Epochs and
--     OuterEpochs hold results; Leaf/Tests has a run over the integers modulo 7.
--   Store: src/leaf/store.rs. Store/Journal is `LeafJournal` and its record of
--     src/leaf/store/record.rs, JournalRoundTrip its round trip, Registry its making from a
--     registry; Memory is `MemoryLeafStore`, Exchange and Revisions are about its compare-and-set.
--     Backend is the trait `LeafStore` with what its documentation asks, MemoryBackend that store
--     as one. Persistent and Create are src/leaf/store/persistent.rs; Durable, Transition, Release,
--     MaterialTransition and Reconcile are about what the backend holds. The public operations on
--     the leaf are `transition` or `material_transition` at an operation of Leaf.
--
-- A method on `&mut self` is a function that returns its result and the state, after an error too.
-- An operation on the live attempt is a step with what is put back, since the source takes the
-- attempt out and drops it on an error (`LeafRegistry::fail`). Where the source takes a closure
-- (`reserve_with` a parser, `respond_with` an answer) or draws from a random generator, the model
-- takes the closure's result, the closure, or the draw. Identifiers are numbers; sequences are
-- `u64` with the checked addition written out, and the counter of the log wraps at 2 ^ 64.
--
-- The loop that draws a handle in src/log_act.rs is recursion on fuel, of 2 ^ 64 rounds: a result
-- says when that is enough. All other loops are structural.
--
-- Not modelled: clearing secrets from memory, debug printing, error texts; the curves and hashes;
-- contributions, candidates and targets of src/dealing/, the validation of a genesis, the byte form
-- of a signature, the record of key material in src/leaf/store/record.rs, which Persistent and
-- Create take as an argument, `load` of a persistent leaf, src/exposure.rs and the feature
-- `taproot`.
pub mod Base
pub mod Order
pub mod Map
pub mod Sort
pub mod Outcome
pub mod Types
pub mod Profile
pub mod Encoding
pub mod Decoding
pub mod Reader
pub mod Shamir
pub mod Support
pub mod Signing
pub mod Store
pub mod Auth
pub mod Transcript
pub mod Ternary
pub mod Dealing
pub mod Leaf
pub mod Log
