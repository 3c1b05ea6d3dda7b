-- ===== src/Raft/Tests.antt =====
-- raft/: concrete nodes and messages, runs of the code on them, and the theorems at work on them.
use d_raft.Base.{
  ℕ, ◌≡◌, refl, Bool, true, ◌||◌, none, some, List, [], ◌∷◌, arith, Returns, str_eq, same_list,
}
use d_raft.Raft.Types.{
  NodeId, Membership, zero_membership, Entry, EntryType, entry_noop, entry_config_joint, follower,
  leader, zero_snapshot, PersistentState, Node, Message, new_message, append_entries, receive,
}
use d_raft.Raft.Membership.{
  transition_membership, joint_transition, is_joint, without, membership_is_zero, is_config, quorum,
  majority_matches, count_matches, validate_membership,
}
use d_raft.Raft.Membership.Quorum.{SharedVoter, majority_matches-SharedVoter}
use d_raft.Raft.Membership.Transition.{
  transition_membership-SharedVoter, transition_membership-valid,
}
use d_raft.Raft.Log.{entry_at}
use d_raft.Raft.Commit.{is_leader, is_candidate, advance_commit}
use d_raft.Raft.Step.{step}
use d_raft.Raft.Soundness.Terms.{KeepsVote, step-KeepsVote}
use d_raft.Raft.Soundness.Invariant.{base_of, IsSound, LogSound}
use d_raft.Raft.Soundness.Replay.{replay}
use d_raft.Raft.Soundness.Committing.{Advanced, advance_commit_total}
use d_raft.Raft.Soundness.Durable.{Barrier, step-Barrier}
use d_raft.Raft.Soundness.Stepping.{Accepts, step_total}

abbrev trio : List NodeId
trio = "a" ∷ "b" ∷ "c" ∷ []

abbrev stable_trio : Membership
stable_trio = record { voters = trio; voters_outgoing = []; learners = []; learners_next = [] }

abbrev joint_trio : Membership
joint_trio = record {
  voters = "a" ∷ "b" ∷ [];
  voters_outgoing = trio;
  learners = [];
  learners_next = "c" ∷ [];
}

abbrev joint_entry : Entry
joint_entry = record {
  index = 3;
  term = 2;
  type = entry_config_joint;
  bytes = [];
  membership = joint_trio;
}

abbrev plain : ℕ → ℕ → EntryType → Entry
plain index term type = record {
  index = index;
  term = term;
  type = type;
  bytes = [];
  membership = zero_membership;
}

abbrev durable : List Entry → PersistentState
durable log = record {
  hard_state = record { current_term = 2; voted_for = "a"; commit_index = 1 };
  snapshot = zero_snapshot;
  log = log;
}

abbrev idle : Node
idle = record {
  id = "a";
  members = trio;
  initial_membership = stable_trio;
  membership = stable_trio;
  role = follower;
  leader_id = "";
  state = durable (plain 1 1 entry_noop ∷ plain 2 2 entry_noop ∷ []);
  applied = 1;
  votes = none;
  election_votes = [];
  election_membership = zero_membership;
  next_index = none;
  match_index = none;
  append_sequence = none;
  next_write_token = 1;
  pending = none;
}

abbrev leading : Node
leading = record idle {
  role = leader;
  leader_id = "a";
  next_index = some (("a", 3) ∷ ("b", 3) ∷ ("c", 2) ∷ []);
  match_index = some (("a", 2) ∷ ("b", 2) ∷ ("c", 1) ∷ []);
  append_sequence = some [];
}

abbrev replication : Message
replication = record (new_message append_entries "b" "a" 3) {
  prev_log_index = 1;
  prev_log_term = 1;
  entries = plain 2 3 entry_noop ∷ plain 3 3 entry_noop ∷ [];
  leader_commit = 2;
}

abbrev is_a_or_b : NodeId → Bool
is_a_or_b v = str_eq v "a" || str_eq v "b"

abbrev is_b_or_c : NodeId → Bool
is_b_or_c v = str_eq v "b" || str_eq v "c"

majority_matches-SharedVoter_example : SharedVoter trio is_a_or_b is_b_or_c
unfolding majority_matches count_matches
majority_matches-SharedVoter_example =
    majority_matches-SharedVoter trio is_a_or_b is_b_or_c refl refl

trio-valid : validate_membership stable_trio trio ≡ true
unfolding validate_membership
trio-valid = refl

enter_joint : transition_membership stable_trio joint_entry trio ≡ some joint_trio
unfolding transition_membership joint_transition is_joint validate_membership same_list without
enter_joint = refl

stable_quorum : quorum stable_trio is_a_or_b ≡ true
unfolding quorum majority_matches count_matches
stable_quorum = refl

joint_quorum : quorum joint_trio is_a_or_b ≡ true
unfolding quorum majority_matches count_matches
joint_quorum = refl

transition_membership-SharedVoter_example : SharedVoter trio is_a_or_b is_a_or_b
transition_membership-SharedVoter_example =
    transition_membership-SharedVoter stable_trio joint_entry trio joint_trio is_a_or_b is_a_or_b
      enter_joint stable_quorum joint_quorum

transition_membership-valid_example : validate_membership joint_trio trio ≡ true
transition_membership-valid_example =
    transition_membership-valid stable_trio joint_entry trio trio-valid enter_joint

idle-LogSound : LogSound idle
unfolding validate_membership base_of replay transition_membership membership_is_zero is_config
idle-LogSound = (omega arith, (refl, (refl, tt)), refl, refl)

idle-IsSound : IsSound idle
unfolding is_leader is_candidate
idle-IsSound = (
  idle-LogSound,
  (omega arith, omega arith, omega arith),
  ((λ h. absurd (cc h)), (λ h. absurd (cc h))),
)

leading-IsSound : IsSound leading
unfolding is_leader is_candidate
leading-IsSound = (
  idle-LogSound,
  (omega arith, omega arith, omega arith),
  ((λ h. (refl, refl, refl)), (λ h. absurd (cc h))),
)

replication-Accepts : Accepts idle (receive replication)
unfolding entry_at
replication-Accepts = (
  omega arith,
  omega arith,
  (
    (λ k e h. absurd (ground arith)),
    (λ b h. absurd (omega arith)),
    ((λ k e h. absurd (ground arith)), (λ b h. absurd (omega arith)), tt),
  ),
)

step_total_example : Returns (λ r. IsSound r.0) (step idle (receive replication))
step_total_example = step_total idle (receive replication) idle-IsSound replication-Accepts

advance_commit_total_example : Returns (Advanced leading) (advance_commit leading)
advance_commit_total_example = advance_commit_total leading leading-IsSound

step-Barrier_example :
    Returns (Barrier idle (receive replication)) (step idle (receive replication))
step-Barrier_example = step-Barrier idle (receive replication) idle-IsSound replication-Accepts

step-KeepsVote_example : Returns (λ r. KeepsVote idle r.0) (step idle (receive replication))
step-KeepsVote_example =
    step-KeepsVote idle (receive replication) idle-IsSound replication-Accepts (omega arith)
