-- ===== src/Raft/Types.antt =====
-- raft/types.go: the data of the Raft reference state machine, with raft/membership.go's sets.
-- Values are immutable here, so the deep copies that the code makes have no counterpart.
use d_raft.Base.{ℕ, String, Bool, false, List, [], Option}

abbrev pub NodeId : Type 0
NodeId = String

pub data Role : Type 0 where
  follower candidate leader : Role

pub data EntryType : Type 0 where
  entry_noop entry_command entry_config_joint entry_config_final : EntryType
  entry_unknown : ℕ → EntryType

pub record Membership : Type 0 where
  pub voters : List NodeId
  pub voters_outgoing : List NodeId
  pub learners : List NodeId
  pub learners_next : List NodeId

abbrev pub zero_membership : Membership
zero_membership = record { voters = []; voters_outgoing = []; learners = []; learners_next = [] }

pub record Entry : Type 0 where
  pub index : ℕ
  pub term : ℕ
  pub type : EntryType
  pub bytes : List ℕ
  pub membership : Membership

pub record HardState : Type 0 where
  pub current_term : ℕ
  pub voted_for : NodeId
  pub commit_index : ℕ

pub record Snapshot : Type 0 where
  pub last_included_index : ℕ
  pub last_included_term : ℕ
  pub members : List NodeId
  pub bytes : List ℕ
  pub membership : Membership

pub record PersistentState : Type 0 where
  pub hard_state : HardState
  pub open hard_state use *
  pub snapshot : Snapshot
  pub log : List Entry

pub record Config : Type 0 where
  pub id : NodeId
  pub members : List NodeId
  pub voters : List NodeId
  pub learners : List NodeId
  pub applied_index : ℕ

pub data MessageType : Type 0 where
  request_vote request_vote_response append_entries append_entries_response : MessageType
  install_snapshot install_snapshot_response : MessageType
  unknown_message : ℕ → MessageType

pub record Message : Type 0 where
  pub type : MessageType
  pub from : NodeId
  pub to : NodeId
  pub term : ℕ
  pub sequence : ℕ
  pub last_log_index : ℕ
  pub last_log_term : ℕ
  pub vote_granted : Bool
  pub prev_log_index : ℕ
  pub prev_log_term : ℕ
  pub entries : List Entry
  pub leader_commit : ℕ
  pub success : Bool
  pub match_index : ℕ
  pub reject_hint : ℕ
  pub snapshot : Snapshot

abbrev pub zero_snapshot : Snapshot
zero_snapshot = record {
  last_included_index = 0;
  last_included_term = 0;
  members = [];
  bytes = [];
  membership = zero_membership;
}

-- The Go literal `Message{Type: t, From: f, To: d, Term: k}`, its other fields zero.
abbrev pub new_message : MessageType → NodeId → NodeId → ℕ → Message
new_message t f d k = record {
  type = t;
  from = f;
  to = d;
  term = k;
  sequence = 0;
  last_log_index = 0;
  last_log_term = 0;
  vote_granted = false;
  prev_log_index = 0;
  prev_log_term = 0;
  entries = [];
  leader_commit = 0;
  success = false;
  match_index = 0;
  reject_hint = 0;
  snapshot = zero_snapshot;
}

pub data Input : Type 0 where
  election_timeout heartbeat_timeout : Input
  receive : Message → Input
  proposal : List ℕ → Input
  persisted : ℕ → Input
  take_snapshot : ℕ → List ℕ → Input
  begin_membership : List NodeId → List NodeId → Input
  finalize_membership : Input
  unknown_input : ℕ → Input

pub data Effect : Type 0 where
  persist : ℕ → PersistentState → Effect
  send : Message → Effect
  reset_election_timer reset_heartbeat_timer : Effect
  apply : Entry → Effect
  install : Snapshot → Effect

pub data Error : Type 0 where
  invalid_config invalid_state invalid_input not_leader : Error
  awaiting_persistence unexpected_persistence term_exhausted : Error
  index_exhausted not_voter membership_in_progress : Error

pub record PendingWrite : Type 0 where
  pub token : ℕ
  pub effects : List Effect

-- raft/node.go: Node. `votes` and the three index maps are nil unless their role needs them.
pub record Node : Type 0 where
  pub id : NodeId
  pub members : List NodeId
  pub initial_membership : Membership
  pub membership : Membership
  pub role : Role
  pub leader_id : NodeId
  pub state : PersistentState
  pub open state use *
  pub applied : ℕ
  pub votes : Option (List NodeId)
  pub election_votes : List NodeId
  pub election_membership : Membership
  pub next_index : Option (List (NodeId × ℕ))
  pub match_index : Option (List (NodeId × ℕ))
  pub append_sequence : Option (List (NodeId × ℕ))
  pub next_write_token : ℕ
  pub pending : Option PendingWrite
