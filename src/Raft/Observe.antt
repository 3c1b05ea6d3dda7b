-- ===== src/Raft/Observe.antt =====
-- raft/node.go: Status and State, the views of a node for checkers and for exploration.
use d_raft.Base.{ℕ, Bool, Option, none, some, List, [], ◌∷◌, if◌then◌else◌, str_le, sort, is_some}
use d_raft.Raft.Types.{
  NodeId, Role, Membership, Entry, Snapshot, PersistentState, PendingWrite, Node,
}
use d_raft.Raft.Log.{last_index, last_term}

pub record Status : Type 0 where
  pub id : NodeId
  pub role : Role
  pub term : ℕ
  pub voted_for : NodeId
  pub leader : NodeId
  pub commit_index : ℕ
  pub applied_index : ℕ
  pub last_log_index : ℕ
  pub last_log_term : ℕ
  pub snapshot : Snapshot
  pub membership : Membership
  pub log : List Entry
  pub election_votes : List NodeId
  pub election_membership : Membership
  pub awaiting_persistence : Bool
  pub write_token : ℕ

-- `status.WriteToken` stays 0 where no write is pending.
token_of : Option PendingWrite → ℕ
token_of none = 0
token_of (some write) = write.token

unfoldable pub status : Node → Status
unfolding token_of
status n = record {
  id = n.id;
  role = n.role;
  term = n.current_term;
  voted_for = n.voted_for;
  leader = n.leader_id;
  commit_index = n.commit_index;
  applied_index = n.applied;
  last_log_index = last_index n;
  last_log_term = last_term n;
  snapshot = n.snapshot;
  membership = n.membership;
  log = n.log;
  election_votes = n.election_votes;
  election_membership = n.election_membership;
  awaiting_persistence = is_some n.pending;
  write_token = token_of n.pending;
}

pub record NodeState : Type 0 where
  pub id : NodeId
  pub members : List NodeId
  pub initial_membership : Membership
  pub membership : Membership
  pub role : Role
  pub leader : NodeId
  pub persistent : PersistentState
  pub applied : ℕ
  pub votes : List NodeId
  pub election_votes : List NodeId
  pub election_membership : Membership
  pub next_index : List (NodeId × ℕ)
  pub match_index : List (NodeId × ℕ)
  pub append_sequence : List (NodeId × ℕ)
  pub next_write_token : ℕ
  pub pending : Option PendingWrite

-- The nil set has no elements.
sorted_node_set : Option (List NodeId) → List NodeId
unfolding sort
sorted_node_set none = []
sorted_node_set (some values) = sort values

insert_index : NodeId × ℕ → List (NodeId × ℕ) → List (NodeId × ℕ)
insert_index entry [] = entry ∷ []
insert_index entry (other ∷ rest) =
    if str_le entry.0 other.0 then entry ∷ other ∷ rest else other ∷ insert_index entry rest

-- `slices.SortFunc` by the nodes' names.
sorted_map : List (NodeId × ℕ) → List (NodeId × ℕ)
unfolding insert_index
sorted_map [] = []
sorted_map (entry ∷ rest) = insert_index entry (sorted_map rest)

sorted_node_indexes : Option (List (NodeId × ℕ)) → List (NodeId × ℕ)
unfolding sorted_map
sorted_node_indexes none = []
sorted_node_indexes (some values) = sorted_map values

-- `Node.State`.
unfoldable canonical_state : Node → NodeState
unfolding sorted_node_set sorted_node_indexes
canonical_state n = record {
  id = n.id;
  members = n.members;
  initial_membership = n.initial_membership;
  membership = n.membership;
  role = n.role;
  leader = n.leader_id;
  persistent = n.state;
  applied = n.applied;
  votes = sorted_node_set n.votes;
  election_votes = n.election_votes;
  election_membership = n.election_membership;
  next_index = sorted_node_indexes n.next_index;
  match_index = sorted_node_indexes n.match_index;
  append_sequence = sorted_node_indexes n.append_sequence;
  next_write_token = n.next_write_token;
  pending = n.pending;
}
