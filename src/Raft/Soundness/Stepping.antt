-- ===== src/Raft/Soundness/Stepping.antt =====
-- raft/node.go: Step, Start and New under the invariant.
use d_raft.Base.{
  ℕ, ◌+◌, ◌<◌, inl, inr, ◌||◌, not, Returns, returns, Returns-bind, Returns-if, Returns-option,
  ◌==◌, ltb, u64, max_uint64, Bool-cases, Option-cases,
}
use d_raft.Raft.Types.{
  Message, MessageType, request_vote, request_vote_response, append_entries,
  append_entries_response, install_snapshot, install_snapshot_response, unknown_message, Input,
  election_timeout, heartbeat_timeout, receive, proposal, persisted, take_snapshot,
  begin_membership, finalize_membership, unknown_input, Node,
}
use d_raft.Raft.Membership.{is_voter}
use d_raft.Raft.Commit.{is_leader}
use d_raft.Raft.Election.{Reply}
use d_raft.Raft.Step.{
  acknowledge_persistence, time_out, heartbeat, handle_message, is_misrouted, is_known_message,
  observe_term, step_message, handle_input, conclude, transit, step,
}
use d_raft.Raft.Soundness.Invariant.{IsSound}
use d_raft.Raft.Soundness.Committing.{become_follower-IsSound}
use d_raft.Raft.Soundness.Sending.{broadcast_append_total, Sequenced-IsSound}
use d_raft.Raft.Soundness.Electing.{
  start_election_total, handle_request_vote-IsSound, handle_request_vote_response_total,
}
use d_raft.Raft.Soundness.Responding.{
  handle_install_snapshot_response_total, handle_append_entries_response_total,
}
use d_raft.Raft.Soundness.Storing.{Agrees}
use d_raft.Raft.Soundness.Appending.{become_follower-Agrees, handle_append_entries_total}
use d_raft.Raft.Soundness.Installing.{handle_install_snapshot_total}
use d_raft.Raft.Soundness.Compacting.{compact_total}
use d_raft.Raft.Soundness.Changing.{begin_change_total, finalize_change_total, propose_total}

-- The indexes of a message are 64-bit numbers, and its entries agree with the node's log above its
-- snapshot.
abbrev pub Compatible : Node → Message → Type 0
Compatible n m =
    (m.prev_log_index < u64)
    × (m.snapshot.last_included_index < u64)
    × Agrees n (m.prev_log_index + 1) m.entries

-- An input asks nothing of the node, unless it is a message.
abbrev pub Accepts : Node → Input → Type 0
Accepts n (receive m) = Compatible n m
Accepts n _ = Unit {0}

pub observe_term-IsSound : (n : Node) (term : ℕ) → IsSound n → IsSound (observe_term n term)
unfolding observe_term
observe_term-IsSound n term s = elim (Bool-cases (ltb n.current_term term)) [
  | inl later ↦ rw later (become_follower-IsSound n term "" s)
  | inr old ↦ rw old s
]

pub observe_term-Compatible :
    (n : Node) (m : Message) (term : ℕ) → Compatible n m → Compatible (observe_term n term) m
unfolding observe_term
observe_term-Compatible n m term c = elim (Bool-cases (ltb n.current_term term)) [
  | inl later ↦
      rw later (c.0, c.1, become_follower-Agrees n term "" (m.prev_log_index + 1) m.entries c.2)
  | inr old ↦ rw old c
]

handle_message_total :
    (type : MessageType) (n : Node) (m : Message)
    → IsSound n
    → Compatible n m
    → Returns (λ r. IsSound r.0) (handle_message type n m)
unfolding handle_message
handle_message_total request_vote n m s c = returns (handle_request_vote-IsSound n m s)
handle_message_total request_vote_response n m s c = handle_request_vote_response_total n m s
handle_message_total append_entries n m s c = handle_append_entries_total n m s c.0 c.2
handle_message_total append_entries_response n m s c = handle_append_entries_response_total n m s
handle_message_total install_snapshot n m s c = handle_install_snapshot_total n m s c.1
handle_message_total install_snapshot_response n m s c =
    handle_install_snapshot_response_total n m s
handle_message_total (unknown_message k) n m s c = returns s

step_message_total :
    (n : Node) (m : Message)
    → IsSound n
    → Compatible n m
    → Returns (λ r. IsSound r.0) (step_message n m)
unfolding step_message
step_message_total n m s c =
    Returns-if (is_misrouted n m) (λ _. returns s)
      (λ _.
        Returns-if (not (is_known_message m.type)) (λ _. returns s)
          (λ _.
            Returns-bind
              (handle_message_total m.type (observe_term n m.term) m
                (observe_term-IsSound n m.term s) (observe_term-Compatible n m m.term c))
              λ r k. returns k))

time_out_total : (n : Node) → IsSound n → Returns (λ r. IsSound r.0) (time_out n)
unfolding time_out
time_out_total n s =
    Returns-if (not (is_voter n.membership n.id)) (λ _. returns s)
      (λ _.
        Returns-if (n.current_term == max_uint64) (λ _. returns s) (λ _. start_election_total n s))

heartbeat_total : (n : Node) → IsSound n → Returns (λ r. IsSound r.0) (heartbeat n)
unfolding heartbeat
heartbeat_total n s =
    Returns-if (is_leader n.role)
      (λ lead.
        Returns-bind (broadcast_append_total n (s.2.0 lead).2)
          λ r k. returns (Sequenced-IsSound n r.0 s k))
      (λ _. returns s)

handle_input_total :
    (n : Node) (input : Input)
    → IsSound n
    → Accepts n input
    → Returns (λ r. IsSound r.0) (handle_input n input)
unfolding handle_input
handle_input_total n election_timeout s a = time_out_total n s
handle_input_total n heartbeat_timeout s a = heartbeat_total n s
handle_input_total n (receive m) s a = step_message_total n m s a
handle_input_total n (proposal bytes) s a = propose_total n bytes s
handle_input_total n (take_snapshot index bytes) s a = compact_total n index bytes s
handle_input_total n (begin_membership voters learners) s a = begin_change_total n voters learners s
handle_input_total n finalize_membership s a = finalize_change_total n s
handle_input_total n (unknown_input k) s a = returns s
handle_input_total n (persisted token) s a = returns s

conclude-IsSound : (n : Node) (reply : Reply) → IsSound n → IsSound (conclude n reply).0
unfolding conclude
conclude-IsSound n reply s = elim (Option-cases reply.error) [
  | inr (error, e) ↦ rw (e, conclude) s
  | inl e ↦ elim (Bool-cases reply.dirty) [
    | inl dirty ↦ rw (e, conclude, dirty) s
    | inr clean ↦ rw (e, conclude, clean) s
  ]
]

transit_total :
    (n : Node) (input : Input)
    → IsSound n
    → Accepts n input
    → Returns (λ r. IsSound r.0) (transit n input)
unfolding transit
transit_total n input s a =
    Returns-option n.pending
      (λ _.
        Returns-bind (handle_input_total n input s a) λ r k. returns (conclude-IsSound r.0 r.1 k))
      (λ _ _. returns s)

acknowledge_persistence-IsSound :
    (n : Node) (token : ℕ) → IsSound n → IsSound (acknowledge_persistence n token).0
unfolding acknowledge_persistence
acknowledge_persistence-IsSound n token s = elim (Option-cases n.pending) [
  | inl e ↦ rw (e, acknowledge_persistence) s
  | inr (w, e) ↦ elim (Bool-cases (token == 0 || not (token == w.token))) [
    | inl wrong ↦ rw (e, acknowledge_persistence, wrong) s
    | inr right ↦ rw (e, acknowledge_persistence, right) s
  ]
]

-- On a sound node `Step` does not panic and leaves a sound node. Of an input that is a message it is
-- asked that its previous log index and the last index of its snapshot are 64-bit, and that its
-- entries agree with the log above the node's snapshot: the same index and term mean the same entry,
-- and none contradicts a committed one. Of the entries that the snapshot covers, and of every other
-- input, nothing is asked.
pub step_total :
    (n : Node) (input : Input)
    → IsSound n
    → Accepts n input
    → Returns (λ r. IsSound r.0) (step n input)
unfolding step
step_total n (persisted token) s a = returns (acknowledge_persistence-IsSound n token s)
step_total n input s a = transit_total n input s a
