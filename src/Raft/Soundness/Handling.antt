-- ===== src/Raft/Soundness/Handling.antt =====
-- raft/node.go: the dirty flag of Step's cases.
use d_raft.Base.{
  ℕ, ◌≡◌, refl, ◌∙◌, false, ◌||◌, not, List, arith, ensures, Ensures-bind, Ensures-if,
  Ensures-after, Ensures-option, map_set, max_uint64, ltb, leb, ◌==◌,
}
use d_raft.Raft.Types.{
  Node, Message, NodeId, Membership, MessageType, request_vote, request_vote_response,
  append_entries, append_entries_response, install_snapshot, install_snapshot_response,
  unknown_message, EntryType, Input, election_timeout, heartbeat_timeout, receive, proposal,
  persisted, take_snapshot, begin_membership, finalize_membership, unknown_input,
}
use d_raft.Raft.Membership.{
  is_voter, is_joint, stable_membership, validate_membership, memberships_equal,
  transition_membership,
}
use d_raft.Raft.Log.{
  boundary, last_index, term_at, refresh_membership, membership_at, has_uncommitted_configuration,
}
use d_raft.Raft.Commit.{is_leader, advance_commit, broadcast_append}
use d_raft.Raft.Step.{
  membership_entry, append_membership_entry, begin_change, finalize_change, append_command, propose,
  compact, time_out, heartbeat, handle_message, is_misrouted, is_known_message, observe_term,
  step_message, handle_input,
}
use d_raft.Raft.Safety.Terms.Steps.{observe_term-bound}
use d_raft.Raft.Soundness.Invariant.{IsSound}
use d_raft.Raft.Soundness.Stepping.{
  Compatible, Accepts, observe_term-IsSound, observe_term-Compatible,
}
use d_raft.Raft.Soundness.Writing.{
  Honest, handle_install_snapshot_response-Honest, handle_append_entries_response-Honest,
  start_election-Honest, handle_request_vote-Honest, handle_request_vote_response-Honest,
  broadcast_append-Leaving,
}
use d_raft.Raft.Soundness.Following.{handle_append_entries-Honest, handle_install_snapshot-Honest}

handle_message-Honest :
    (type : MessageType) (n : Node) (m : Message)
    → IsSound n
    → Compatible n m
    → ltb n.current_term m.term ≡ false
    → Honest n (handle_message type n m)
unfolding handle_message
handle_message-Honest request_vote n m s c old = ensures (λ d e. handle_request_vote-Honest n m d)
handle_message-Honest request_vote_response n m s c old = handle_request_vote_response-Honest n m
handle_message-Honest append_entries n m s c old = handle_append_entries-Honest n m s c.0 c.2 old
handle_message-Honest append_entries_response n m s c old =
    handle_append_entries_response-Honest n m s
handle_message-Honest install_snapshot n m s c old = handle_install_snapshot-Honest n m old
handle_message-Honest install_snapshot_response n m s c old =
    handle_install_snapshot_response-Honest n m s
handle_message-Honest (unknown_message k) n m s c old = ensures (λ d e. refl)

observe_term_state :
    (n : Node) (term : ℕ) → ltb n.current_term term ≡ false → (observe_term n term).state ≡ n.state
unfolding observe_term
observe_term_state n term h = ground arith

step_message-Honest :
    (n : Node) (m : Message) → IsSound n → Compatible n m → Honest n (step_message n m)
unfolding step_message
step_message-Honest n m s c =
    Ensures-if (is_misrouted n m) (λ _. ensures (λ d e. refl))
      (λ _.
        Ensures-if (not (is_known_message m.type)) (λ _. ensures (λ d e. refl))
          (λ _.
            Ensures-bind
              (handle_message-Honest m.type (observe_term n m.term) m
                (observe_term-IsSound n m.term s) (observe_term-Compatible n m m.term c)
                (observe_term-bound n m.term))
              λ r h.
                ensures (λ d e. h (ground arith) e ∙ observe_term_state n m.term (ground arith))))

time_out-Honest : (n : Node) → Honest n (time_out n)
unfolding time_out
time_out-Honest n =
    Ensures-if (not (is_voter n.membership n.id)) (λ _. ensures (λ d e. refl))
      (λ _.
        Ensures-if (n.current_term == max_uint64) (λ _. ensures (λ d e. refl))
          (λ _. start_election-Honest n))

heartbeat-Honest : (n : Node) → Honest n (heartbeat n)
unfolding heartbeat
heartbeat-Honest n =
    Ensures-if (is_leader n.role)
      (λ _. Ensures-bind (broadcast_append-Leaving n) λ r k. ensures (λ d e. k))
      (λ _. ensures (λ d e. refl))

propose-Honest : (n : Node) (bytes : List ℕ) → Honest n (propose n bytes)
unfolding propose append_command
propose-Honest n bytes =
    Ensures-if (not (is_leader n.role)) (λ _. ensures (λ d e. refl))
      (λ _.
        Ensures-if (not (is_voter n.membership n.id)) (λ _. ensures (λ d e. refl))
          (λ _.
            Ensures-if (has_uncommitted_configuration n) (λ _. ensures (λ d e. refl))
              (λ _.
                Ensures-if (last_index n == max_uint64) (λ _. ensures (λ d e. refl))
                  (λ _. Ensures-after (map_set _ _ _) λ a.
                    Ensures-after (advance_commit _)
                      λ b. Ensures-after (broadcast_append _) λ c. ensures (λ d e. cc)))))

compact-Honest : (n : Node) (index : ℕ) (bytes : List ℕ) → Honest n (compact n index bytes)
unfolding compact
compact-Honest n index bytes =
    Ensures-if
      (index == 0 || leb index (boundary n) || ltb n.applied index || ltb n.commit_index index)
      (λ _. ensures (λ d e. refl))
      (λ _.
        Ensures-if (term_at n index == 0) (λ _. ensures (λ d e. refl))
          (λ _.
            Ensures-after (membership_at _ _)
              λ a. Ensures-after (refresh_membership _) λ b. ensures (λ d e. cc)))

append_membership_entry-Honest :
    (n : Node) (type : EntryType) (membership : Membership)
    → Honest n (append_membership_entry n type membership)
unfolding append_membership_entry
append_membership_entry-Honest n type membership =
    let entry = membership_entry n type membership in
    Ensures-option (transition_membership n.membership entry n.members) (λ _. ensures (λ d e. refl))
      (λ next _. Ensures-after (refresh_membership _) λ m. Ensures-after (map_set _ _ _) λ a.
        Ensures-after (advance_commit _) λ r.
          Ensures-if (is_leader r.0.role)
            (λ _. Ensures-after (broadcast_append _) λ q. ensures (λ d e. cc))
            (λ _. ensures (λ d e. cc)))

begin_change-Honest :
    (n : Node) (voters learners : List NodeId) → Honest n (begin_change n voters learners)
unfolding begin_change
begin_change-Honest n voters learners =
    let target = stable_membership voters learners in
    Ensures-if (not (is_leader n.role)) (λ _. ensures (λ d e. refl))
      (λ _.
        Ensures-if (not (is_voter n.membership n.id)) (λ _. ensures (λ d e. refl))
          (λ _.
            Ensures-if (is_joint n.membership || has_uncommitted_configuration n)
              (λ _. ensures (λ d e. refl))
              (λ _.
                Ensures-if (last_index n == max_uint64) (λ _. ensures (λ d e. refl))
                  (λ _.
                    Ensures-if
                      (not (validate_membership target n.members)
                        || memberships_equal target n.membership)
                      (λ _. ensures (λ d e. refl)) (λ _. append_membership_entry-Honest n _ _)))))

finalize_change-Honest : (n : Node) → Honest n (finalize_change n)
unfolding finalize_change
finalize_change-Honest n =
    Ensures-if (not (is_leader n.role)) (λ _. ensures (λ d e. refl))
      (λ _.
        Ensures-if
          (not (is_joint n.membership)
            || has_uncommitted_configuration n
            || not (n.commit_index == last_index n))
          (λ _. ensures (λ d e. refl))
          (λ _.
            Ensures-if (last_index n == max_uint64) (λ _. ensures (λ d e. refl))
              (λ _. append_membership_entry-Honest n _ _)))

pub handle_input-Honest :
    (n : Node) (input : Input) → IsSound n → Accepts n input → Honest n (handle_input n input)
unfolding handle_input
handle_input-Honest n election_timeout s a = time_out-Honest n
handle_input-Honest n heartbeat_timeout s a = heartbeat-Honest n
handle_input-Honest n (receive m) s a = step_message-Honest n m s a
handle_input-Honest n (proposal bytes) s a = propose-Honest n bytes
handle_input-Honest n (take_snapshot index bytes) s a = compact-Honest n index bytes
handle_input-Honest n (begin_membership voters learners) s a = begin_change-Honest n voters learners
handle_input-Honest n finalize_membership s a = finalize_change-Honest n
handle_input-Honest n (unknown_input k) s a = ensures (λ d e. refl)
handle_input-Honest n (persisted token) s a = ensures (λ d e. refl)
