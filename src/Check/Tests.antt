-- ===== src/Check/Tests.antt =====
-- check/check.go: the checker on concrete observations, and the theorems at work on them.
use d_raft.Base.{◌≡◌, refl, true, none, List, [], ◌∷◌, sort, contains, same_list}
use d_raft.Raft.Types.{NodeId, Membership, Entry, entry_config_joint, zero_snapshot, Config}
use d_raft.Raft.Membership.{
  transition_membership, joint_transition, initial_membership_of, membership_is_zero, is_joint,
  stable_membership, validate_membership, without,
}
use d_raft.Raft.Restore.{validate}
use d_raft.Check.Ledger.{NodeObservation, new_checker}
use d_raft.Check.History.{check_entry, membership_violation}
use d_raft.Check.History.Agreement.{
  accepted, check_entry-transition_membership, validate-membership_violation,
}

abbrev trio : List NodeId
trio = "a" ∷ "b" ∷ "c" ∷ []

abbrev stable_trio : Membership
stable_trio = record { voters = trio; voters_outgoing = []; learners = []; learners_next = [] }

abbrev leave : Entry
leave = record {
  index = 1;
  term = 1;
  type = entry_config_joint;
  bytes = [];
  membership = record {
    voters = "a" ∷ "b" ∷ [];
    voters_outgoing = trio;
    learners = [];
    learners_next = "c" ∷ [];
  };
}

abbrev config : Config
config = record { id = "a"; members = trio; voters = []; learners = []; applied_index = 0 }

abbrev observed : NodeObservation
observed = record {
  id = "a";
  up = true;
  status = none;
  durable = record {
    hard_state = record { current_term = 1; voted_for = "a"; commit_index = 0 };
    snapshot = zero_snapshot;
    log = leave ∷ [];
  };
  applied_index = 0;
  applied = [];
}

check_entry-transition_membership_example :
    accepted (check_entry trio stable_trio leave) ≡ transition_membership stable_trio leave trio
check_entry-transition_membership_example = check_entry-transition_membership trio stable_trio leave

observed_valid : validate config observed.durable ≡ none
unfolding validate contains sort initial_membership_of membership_is_zero transition_membership
    joint_transition is_joint stable_membership validate_membership same_list without
observed_valid = refl

validate-membership_violation_example :
    membership_violation (new_checker trio (initial_membership_of config (sort trio)).0) observed
    ≡ none
validate-membership_violation_example = validate-membership_violation config observed observed_valid
