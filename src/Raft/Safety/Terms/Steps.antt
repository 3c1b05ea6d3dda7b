-- ===== src/Raft/Safety/Terms/Steps.antt =====
-- raft/node.go: Step and the cases of its switch, for Terms.
use d_raft.Base.{
  ℕ, ◌<◌, ◌≡◌, refl, false, ◌||◌, not, List, [], ◌∷◌, ◌++◌, arith, Ensures, ensures, Ensures-bind,
  Ensures-if, Ensures-option, Ensures-after, map_set, u64, max_uint64, ◌==◌, ltb, leb,
}
use d_raft.Raft.Types.{
  NodeId, Node, Message, MessageType, request_vote, request_vote_response, append_entries,
  append_entries_response, install_snapshot, install_snapshot_response, unknown_message, Input,
  election_timeout, heartbeat_timeout, receive, proposal, persisted, take_snapshot,
  begin_membership, finalize_membership, unknown_input, EntryType, Membership,
}
use d_raft.Raft.Membership.{
  is_voter, is_joint, stable_membership, validate_membership, memberships_equal,
  transition_membership,
}
use d_raft.Raft.Log.{
  with_log, boundary, last_index, term_at, membership_at, has_uncommitted_configuration,
}
use d_raft.Raft.Commit.{is_leader, become_follower}
use d_raft.Raft.Election.{Reply}
use d_raft.Raft.Step.{
  acknowledge_persistence, membership_entry, append_membership_entry, begin_change, finalize_change,
  append_command, propose, compacted, compact, time_out, heartbeat, handle_message, is_misrouted,
  is_known_message, observe_term, step_message, handle_input, conclude, transit, step,
}
use d_raft.Raft.Safety.Terms.{
  Advances, Keeps, Keeps-trans, Keeps-Advances, Advances-trans, Keeping, Advancing,
  Keeping-Advancing, advance_commit-Keeping, broadcast_append-Keeping, refresh_membership-Keeping,
}
use d_raft.Raft.Safety.Terms.Replies.{
  handle_append_entries-Keeping, handle_append_entries_response-Keeping,
  handle_install_snapshot-Keeping, handle_install_snapshot_response-Keeping,
}
use d_raft.Raft.Safety.Terms.Votes.{
  start_election-Advancing, handle_request_vote-Advances, handle_request_vote_response-Keeping,
}

append_membership_entry-Keeping :
    (n : Node) (type : EntryType) (membership : Membership)
    → Keeping n (append_membership_entry n type membership)
unfolding append_membership_entry
append_membership_entry-Keeping n type membership =
    let entry = membership_entry n type membership in
    Ensures-option (transition_membership n.membership entry n.members) (λ _. ensures (refl, refl))
      (λ _ _. Ensures-bind (refresh_membership-Keeping (with_log n (n.log ++ entry ∷ []))) λ m k.
        Ensures-after (map_set m.match_index m.id entry.index) λ match.
          Ensures-bind (advance_commit-Keeping (record m { match_index = match })) λ r l.
            let both = Keeps-trans n m r.0 k l in
            Ensures-if (is_leader r.0.role)
              (λ _.
                Ensures-bind (broadcast_append-Keeping r.0)
                  λ s o. ensures (Keeps-trans n r.0 s.0 both o))
              (λ _. ensures both))

begin_change-Keeping :
    (n : Node) (voters learners : List NodeId) → Keeping n (begin_change n voters learners)
unfolding begin_change
begin_change-Keeping n voters learners =
    let target = stable_membership voters learners in
    Ensures-if (not (is_leader n.role)) (λ _. ensures (refl, refl))
      (λ _.
        Ensures-if (not (is_voter n.membership n.id)) (λ _. ensures (refl, refl))
          (λ _.
            Ensures-if (is_joint n.membership || has_uncommitted_configuration n)
              (λ _. ensures (refl, refl))
              (λ _.
                Ensures-if (last_index n == max_uint64) (λ _. ensures (refl, refl))
                  (λ _.
                    Ensures-if
                      (not (validate_membership target n.members)
                        || memberships_equal target n.membership)
                      (λ _. ensures (refl, refl)) (λ _. append_membership_entry-Keeping n _ _)))))

finalize_change-Keeping : (n : Node) → Keeping n (finalize_change n)
unfolding finalize_change
finalize_change-Keeping n =
    Ensures-if (not (is_leader n.role)) (λ _. ensures (refl, refl))
      (λ _.
        Ensures-if
          (not (is_joint n.membership)
            || has_uncommitted_configuration n
            || not (n.commit_index == last_index n))
          (λ _. ensures (refl, refl))
          (λ _.
            Ensures-if (last_index n == max_uint64) (λ _. ensures (refl, refl))
              (λ _. append_membership_entry-Keeping n _ _)))

append_command-Keeping : (n : Node) (bytes : List ℕ) → Keeping n (append_command n bytes)
unfolding append_command
append_command-Keeping n bytes = Ensures-after _ λ match.
    Ensures-bind (advance_commit-Keeping _)
      λ r k. Ensures-bind (broadcast_append-Keeping r.0) λ s l. ensures (Keeps-trans n r.0 s.0 k l)

propose-Keeping : (n : Node) (bytes : List ℕ) → Keeping n (propose n bytes)
unfolding propose
propose-Keeping n bytes =
    Ensures-if (not (is_leader n.role)) (λ _. ensures (refl, refl))
      (λ _.
        Ensures-if (not (is_voter n.membership n.id)) (λ _. ensures (refl, refl))
          (λ _.
            Ensures-if (has_uncommitted_configuration n) (λ _. ensures (refl, refl))
              (λ _.
                Ensures-if (last_index n == max_uint64) (λ _. ensures (refl, refl))
                  (λ _. append_command-Keeping n bytes))))

compact-Keeping : (n : Node) (index : ℕ) (bytes : List ℕ) → Keeping n (compact n index bytes)
unfolding compact compacted
compact-Keeping n index bytes =
    Ensures-if
      (index == 0 || leb index (boundary n) || ltb n.applied index || ltb n.commit_index index)
      (λ _. ensures (refl, refl))
      (λ _.
        Ensures-if (term_at n index == 0) (λ _. ensures (refl, refl))
          (λ _. Ensures-after (membership_at n index) λ membership.
            Ensures-bind (refresh_membership-Keeping (compacted n index bytes membership))
              λ m k. ensures k))

time_out-Advancing : (n : Node) → n.current_term < u64 → Advancing n (time_out n)
unfolding time_out
time_out-Advancing n h =
    Ensures-if (not (is_voter n.membership n.id)) (λ _. ensures (Keeps-Advances n n (refl, refl)))
      (λ _.
        Ensures-if (n.current_term == max_uint64) (λ _. ensures (Keeps-Advances n n (refl, refl)))
          (λ e. start_election-Advancing n h (ground arith)))

heartbeat-Keeping : (n : Node) → Keeping n (heartbeat n)
unfolding heartbeat
heartbeat-Keeping n =
    Ensures-if (is_leader n.role) (λ _. Ensures-bind (broadcast_append-Keeping n) λ r k. ensures k)
      (λ _. ensures (refl, refl))

observe_term-Advances : (n : Node) (term : ℕ) → Advances n (observe_term n term)
unfolding observe_term become_follower
observe_term-Advances n term = (ground arith, λ e. ground arith)

-- After `observeTerm` no message is of a later term.
pub observe_term-bound : (n : Node) (term : ℕ) → ltb (observe_term n term).current_term term ≡ false
unfolding observe_term become_follower
observe_term-bound n term = ground arith

handle_message-Advancing :
    (type : MessageType) (n : Node) (m : Message)
    → ltb n.current_term m.term ≡ false
    → Advancing n (handle_message type n m)
unfolding handle_message
handle_message-Advancing request_vote n m e = ensures (handle_request_vote-Advances n m)
handle_message-Advancing request_vote_response n m e =
    Keeping-Advancing n (handle_request_vote_response-Keeping n m)
handle_message-Advancing append_entries n m e =
    Keeping-Advancing n (handle_append_entries-Keeping n m e)
handle_message-Advancing append_entries_response n m e =
    Keeping-Advancing n (handle_append_entries_response-Keeping n m)
handle_message-Advancing install_snapshot n m e =
    Keeping-Advancing n (handle_install_snapshot-Keeping n m e)
handle_message-Advancing install_snapshot_response n m e =
    Keeping-Advancing n (handle_install_snapshot_response-Keeping n m)
handle_message-Advancing (unknown_message k) n m e = ensures (Keeps-Advances n n (refl, refl))

step_message-Advancing : (n : Node) (m : Message) → Advancing n (step_message n m)
unfolding step_message
step_message-Advancing n m =
    let n' = observe_term n m.term in
    Ensures-if (is_misrouted n m) (λ _. ensures (Keeps-Advances n n (refl, refl)))
      (λ _.
        Ensures-if (not (is_known_message m.type)) (λ _. ensures (Keeps-Advances n n (refl, refl)))
          (λ _.
            Ensures-bind (handle_message-Advancing m.type n' m (observe_term-bound n m.term))
              λ r a. ensures (Advances-trans n n' r.0 (observe_term-Advances n m.term) a)))

handle_input-Advancing :
    (n : Node) (input : Input) → n.current_term < u64 → Advancing n (handle_input n input)
unfolding handle_input
handle_input-Advancing n election_timeout h = time_out-Advancing n h
handle_input-Advancing n heartbeat_timeout h = Keeping-Advancing n (heartbeat-Keeping n)
handle_input-Advancing n (receive m) h = step_message-Advancing n m
handle_input-Advancing n (proposal bytes) h = Keeping-Advancing n (propose-Keeping n bytes)
handle_input-Advancing n (take_snapshot index bytes) h =
    Keeping-Advancing n (compact-Keeping n index bytes)
handle_input-Advancing n (begin_membership vs ls) h =
    Keeping-Advancing n (begin_change-Keeping n vs ls)
handle_input-Advancing n finalize_membership h = Keeping-Advancing n (finalize_change-Keeping n)
handle_input-Advancing n (unknown_input k) h = ensures (Keeps-Advances n n (refl, refl))
handle_input-Advancing n (persisted token) h = ensures (Keeps-Advances n n (refl, refl))

conclude-Keeps : (n : Node) (reply : Reply) → Keeps n (conclude n reply).0
unfolding conclude
conclude-Keeps n reply = ground arith

transit-Advancing :
    (n : Node) (input : Input) → n.current_term < u64 → Advancing n (transit n input)
unfolding transit
transit-Advancing n input h =
    Ensures-option n.pending
      (λ _. Ensures-bind (handle_input-Advancing n input h) λ r a. ensures (
        Advances-trans n r.0 (conclude r.0 r.1).0 a
          (Keeps-Advances r.0 (conclude r.0 r.1).0 (conclude-Keeps r.0 r.1))))
      (λ _ _. ensures (Keeps-Advances n n (refl, refl)))

acknowledge_persistence-Keeps : (n : Node) (token : ℕ) → Keeps n (acknowledge_persistence n token).0
unfolding acknowledge_persistence
acknowledge_persistence-Keeps n token = ground arith

-- Whatever the input, `Step` leaves a node whose term is not lower, and in which, if the term is
-- the same, a vote that was cast is the same. The term is a 64-bit number.
pub step-Advances :
    (n : Node) (input : Input) → n.current_term < u64 → Ensures (λ r. Advances n r.0) (step n input)
unfolding step
step-Advances n (persisted token) h =
    ensures
      (Keeps-Advances n (acknowledge_persistence n token).0 (acknowledge_persistence-Keeps n token))
step-Advances n input h = transit-Advancing n input h
