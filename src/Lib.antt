-- ===== src/Lib.antt =====
-- The deterministic Raft of this repository: the reference state machine in raft/, the parts of
-- the discrete-event simulator (package sim, at the repository's root) that drives it, the safety
-- checker of check/, the recorded decisions of decision/ and the minimiser of minimize/.
--
-- A raft node is a record (Raft/Types: Node) that takes one input at a time. raft/node.go's Step
-- refuses every input but an acknowledgement while a write is pending; otherwise it runs one
-- handler, and where the handler changed durable state it returns only a persist effect and holds
-- the handler's effects back until the write is acknowledged. The caller (a harness or an
-- application) executes the effects: it writes durable state, sends messages, arms timers, applies
-- entries.
--
-- - Base: Boolean tests, 64-bit sums, lists by native numbers, Go's sort and string order, maps
--   keyed by strings (a nil map is none, and writing to it panics), and Run, which is a result
--   or a panic.
-- - Raft/Types: the types of raft/types.go and the Node of raft/node.go.
-- - Raft/Membership: raft/membership.go, with lemmas on majorities (Membership/Quorum) and on
--   transitions between configurations (Membership/Transition).
-- - Raft/Log: the log's positions, terms and configurations (lastIndex, termAt, entryAt,
--   entriesFrom, truncateFrom, membershipAt, hasUncommittedConfiguration).
-- - Raft/Commit: becomeFollower, applyCommitted, advanceCommit, appendFor, broadcastAppend.
-- - Raft/Election: startElection, becomeLeader, handleRequestVote, handleRequestVoteResponse.
-- - Raft/Replication: handleAppendEntries, handleInstallSnapshot and their responses.
-- - Raft/Step: stepMessage, the membership changes, proposals, compaction,
--   acknowledgePersistence, Step and Start.
-- - Raft/Restore: Config.validate and New.
-- - Raft/Safety: terms and votes across a step. Raft/Soundness: the invariant of a node (a log
--   numbered from the snapshot boundary whose configuration entries lead from one valid
--   configuration to the next, applied and committed indexes in order, the maps that each role
--   needs), with lemmas for each handler; there too are what the dirty flag tells of the durable
--   state (Writing, Following, Handling), the write barrier (Durable) and the term and vote of a
--   sound node (Terms).
-- - Raft/Observe: Status and State.
-- - Sim/Queue: queue.go's heap, with the heap order kept by push (Queue/Pushing) and by remove
--   and pop (Queue/Removing), and the places that events keep (Queue/Indexes). Sim/Scheduler:
--   simulator.go's scheduling and cancelling of events, with the invariant of a simulator
--   (Scheduler/Orderly), Sim/Runs its Step, RunSteps and RunUntil, Sim/Canonical its
--   CanonicalState. Sim/Random: rand.go's generator, with lemmas on its bounded draws
--   (Sim/Random/Bounds).
-- - Network: network.go's router: matrices of partitions (Network/Partition, with what a matrix
--   of groups permits in Partition/Groups), the router's state and configuration
--   (Network/Router), the events that it tells (Network/Events), Send and deliver
--   (Network/Send), and what becomes of a packet (Send/Fate, Send/Stages and Send/Outcomes). A
--   delivery is an event of the simulator: the caller's types and code (handlers, messages, a
--   decision source, the comparisons with a probability) are the parameters of Send (Caller).
-- - Check: check/check.go's Checker: its ledgers (Check/Ledger), the checks of one node's terms,
--   votes and configurations (Check/History), of its committed and applied entries and its
--   snapshots (Check/Records), the checks across nodes and Observe (Check/Cluster), and its rule
--   for configurations against the state machine's (Check/History/Agreement).
-- - Decision: the decision package (decision/decision.go, decision/control.go): choices and
--   selections with their validation and canonical keys (Decision/Choice), the recorder, the
--   tapes and the decider that reads one back (Decision/Tape), the seeded decider
--   (Decision/Seeded), the prefix and guided deciders (Decision/Control), what a tape gives back
--   (Decision/Replay) and when two keys agree (Decision/Keys). JSON, SHA-256 and a caller's
--   decider are parameters (Codec).
-- - Minimize: minimize/minimize.go's minimize: the simpler selections of an entry
--   (Minimize/Simpler), the loops that remove chunks (Minimize/Reduce) and the one that tries
--   simpler selections (Minimize/Shrink), with what they keep (Minimize/Preserved, Guided,
--   Minimal). The evaluator is a parameter, a function that takes a state of its own and leaves
--   another, so that its calls can be counted. A loop that removes chunks runs on fuel, the
--   number of runs that are left, of which each round takes one at least.
--
-- Each handler takes a node and returns a Run of the node after it with a Reply: the dirty flag,
-- the effects in order, and the error. A value is immutable, so the deep copies that the code
-- makes have no counterpart. A loop over a slice is a recursion on the list; a loop over indexes
-- is a recursion on their number (advanceCommit on the last index less the commit index,
-- applyCommitted on the commit index less the applied one), so no fuel bounds a run of raft/. An
-- unsigned 64-bit sum is taken modulo 2^64. A kind outside the source's constants is a constructor
-- with the number (entry_unknown, unknown_message, unknown_input).
--
-- In the simulator an event is an object that the heap and the map of pending events share: a
-- store holds the objects, and a pointer is the event's identifier. The loops of the heap run on
-- fuel (the index for up, the length for down), which their indexes use up no faster. The loops
-- that a run need not leave (RunUntil, whose actions may schedule events without end, and the
-- rejection of draws) run on a fuel that the caller gives, and are none where it does not suffice.
-- An action of an event and json.Valid are parameters, as is the checker's fingerprint of a
-- violation.
--
-- Not modelled: the traces of the simulator and the router, the floating-point draws but for
-- Chance, the router's CanonicalState, the String methods, the texts of errors (an error is its
-- sentinel), JSON, minimize.Artifact, and the packages that the manifest of components lists as
-- not modelled.
pub mod Base
pub mod Check
pub mod Decision
pub mod Minimize
pub mod Network
pub mod Raft
pub mod Sim
