-- ===== src/Raft/Step.antt =====
-- raft/node.go: the transition function Step and what it dispatches to.
use d_raft.Base.{
  ℕ, ◌+◌, Bool, true, false, ◌||◌, not, none, some, List, [], ◌∷◌, ◌++◌, ltb, leb, ◌==◌,
  if◌then◌else◌, Run, ok, ◌>>=◌, add_u64, max_uint64, str_eq, contains, map_set,
}
use d_raft.Raft.Types.{
  NodeId, Membership, zero_membership, EntryType, entry_command, entry_config_joint,
  entry_config_final, Entry, MessageType, request_vote, request_vote_response, append_entries,
  append_entries_response, install_snapshot, install_snapshot_response, unknown_message, Message,
  Input, election_timeout, heartbeat_timeout, receive, proposal, persisted, take_snapshot,
  begin_membership, finalize_membership, unknown_input, Effect, persist, reset_election_timer,
  reset_heartbeat_timer, install, Error, invalid_input, not_leader, awaiting_persistence,
  unexpected_persistence, term_exhausted, index_exhausted, not_voter, membership_in_progress, Node,
}
use d_raft.Raft.Membership.{
  is_joint, is_voter, stable_membership, validate_membership, memberships_equal, without,
  transition_membership,
}
use d_raft.Raft.Log.{
  with_log, boundary, last_index, term_at, entries_from, membership_at, refresh_membership,
  has_uncommitted_configuration,
}
use d_raft.Raft.Commit.{
  is_leader, become_follower, apply_committed, advance_commit, broadcast_append,
}
use d_raft.Raft.Election.{
  Reply, replied, refused, start_election, handle_request_vote, handle_request_vote_response,
}
use d_raft.Raft.Replication.{
  handle_append_entries, handle_append_entries_response, handle_install_snapshot,
  handle_install_snapshot_response,
}

-- The results of `Step`: the effects, or the error.
pub data Answer : Type 0 where
  done : List Effect → Answer
  failed : Error → Answer

unfoldable pub acknowledge_persistence : Node → ℕ → Node × Answer
acknowledge_persistence n token = elim n.pending [
  | none ↦ (n, failed unexpected_persistence)
  | some write ↦
      if token == 0 || not (token == write.token)
      then (n, failed unexpected_persistence)
      else (record n { pending = none }, done write.effects)
]

-- The entry that `appendMembershipEntry` appends.
unfoldable pub membership_entry : Node → EntryType → Membership → Entry
membership_entry n type membership = record {
  index = add_u64 (last_index n) 1;
  term = n.current_term;
  type = type;
  bytes = [];
  membership = membership;
}

unfoldable pub append_membership_entry : Node → EntryType → Membership → Run (Node × Reply)
unfolding membership_entry
append_membership_entry n type membership =
    let entry = membership_entry n type membership in
    let change : Run (Node × Reply) = do
      m ← refresh_membership (with_log n (n.log ++ entry ∷ []))
      match ← map_set m.match_index m.id entry.index
      (m', committed) ← advance_commit (record m { match_index = match })
      let lead_on : Run (Node × Reply) = do
        (m'', sent) ← broadcast_append m'
        ok (m'', replied true (committed ++ sent))
      if is_leader m'.role then lead_on else ok (m', replied true committed)
    in elim (transition_membership n.membership entry n.members) [
      | none ↦ ok (n, refused invalid_input)
      | some _ ↦ change
    ]

-- The joint configuration that `beginMembership` proposes for a target.
joint_target : Membership → Membership → Membership
joint_target current target = record {
  voters = target.voters;
  voters_outgoing = current.voters;
  learners = without target.learners current.voters;
  learners_next = target.learners;
}

unfoldable pub begin_change : Node → List NodeId → List NodeId → Run (Node × Reply)
unfolding joint_target append_membership_entry
begin_change n voters learners =
    let target = stable_membership voters learners in
    if not (is_leader n.role)
    then ok (n, refused not_leader)
    else if not (is_voter n.membership n.id)
    then ok (n, refused not_voter)
    else if is_joint n.membership || has_uncommitted_configuration n
    then ok (n, refused membership_in_progress)
    else if last_index n == max_uint64
    then ok (n, refused index_exhausted)
    else if not (validate_membership target n.members) || memberships_equal target n.membership
    then ok (n, refused invalid_input)
    else append_membership_entry n entry_config_joint (joint_target n.membership target)

unfoldable pub finalize_change : Node → Run (Node × Reply)
unfolding append_membership_entry
finalize_change n =
    if not (is_leader n.role)
    then ok (n, refused not_leader)
    else if not (is_joint n.membership)
        || has_uncommitted_configuration n
        || not (n.commit_index == last_index n)
    then ok (n, refused membership_in_progress)
    else if last_index n == max_uint64
    then ok (n, refused index_exhausted)
    else append_membership_entry n entry_config_final
        (stable_membership n.membership.voters n.membership.learners_next)

-- The case `InputProposal` past its refusals.
unfoldable pub append_command : Node → List ℕ → Run (Node × Reply)
append_command n bytes = do
  let entry : Entry = record {
    index = add_u64 (last_index n) 1;
    term = n.current_term;
    type = entry_command;
    bytes = bytes;
    membership = zero_membership;
  }
  match ← map_set n.match_index n.id entry.index
  (m, committed) ←
      advance_commit
        (record n { state = record (n.state) { log = n.log ++ entry ∷ [] }; match_index = match })
  (m', sent) ← broadcast_append m
  ok (m', replied true (committed ++ sent))

unfoldable pub propose : Node → List ℕ → Run (Node × Reply)
unfolding append_command
propose n bytes =
    if not (is_leader n.role)
    then ok (n, refused not_leader)
    else if not (is_voter n.membership n.id)
    then ok (n, refused not_voter)
    else if has_uncommitted_configuration n
    then ok (n, refused membership_in_progress)
    else if last_index n == max_uint64
    then ok (n, refused index_exhausted)
    else append_command n bytes

-- The node with its log compacted up to `index`, whose configuration there is `membership`.
unfoldable pub compacted : Node → ℕ → List ℕ → Membership → Node
compacted n index bytes membership = record n {
  state = record {
    hard_state = n.state.hard_state;
    snapshot = record {
      last_included_index = index;
      last_included_term = term_at n index;
      members = n.members;
      bytes = bytes;
      membership = membership;
    };
    log = if ltb index max_uint64 then entries_from n (index + 1) else [];
  };
}

-- The case `InputSnapshot`.
unfoldable pub compact : Node → ℕ → List ℕ → Run (Node × Reply)
unfolding compacted
compact n index bytes =
    let take : Run (Node × Reply) = do
      membership ← membership_at n index
      m ← refresh_membership (compacted n index bytes membership)
      ok (m, replied true [])
    in if index == 0 || leb index (boundary n) || ltb n.applied index || ltb n.commit_index index
      then ok (n, refused invalid_input)
      else if term_at n index == 0
      then ok (n, refused invalid_input)
      else take

-- The case `InputElectionTimeout`.
unfoldable pub time_out : Node → Run (Node × Reply)
time_out n =
    if not (is_voter n.membership n.id)
    then ok (n, replied false [])
    else if n.current_term == max_uint64
    then ok (n, refused term_exhausted)
    else start_election n

-- The case `InputHeartbeatTimeout`.
unfoldable pub heartbeat : Node → Run (Node × Reply)
heartbeat n =
    let beat : Run (Node × Reply) = do
      (m, sent) ← broadcast_append n
      ok (m, replied false (reset_heartbeat_timer ∷ sent))
    in if is_leader n.role then beat else ok (n, replied false [])

-- The switch of `stepMessage`.
unfoldable pub handle_message : MessageType → Node → Message → Run (Node × Reply)
handle_message request_vote n m = ok (handle_request_vote n m)
handle_message request_vote_response n m = handle_request_vote_response n m
handle_message append_entries n m = handle_append_entries n m
handle_message append_entries_response n m = handle_append_entries_response n m
handle_message install_snapshot n m = handle_install_snapshot n m
handle_message install_snapshot_response n m = handle_install_snapshot_response n m
handle_message (unknown_message k) n m = ok (n, replied false [])

pub is_known_message : MessageType → Bool
is_known_message (unknown_message k) = false
is_known_message _ = true

-- The check of the route in `stepMessage`.
pub is_misrouted : Node → Message → Bool
is_misrouted n m =
    not (str_eq m.to n.id)
    || str_eq m.from ""
    || str_eq m.from n.id
    || not (contains n.members m.from)

-- `if message.Term > n.state.HardState.CurrentTerm { n.becomeFollower(message.Term, "") }`
unfoldable pub observe_term : Node → ℕ → Node
observe_term n term = if ltb n.current_term term then become_follower n term "" else n

unfoldable pub step_message : Node → Message → Run (Node × Reply)
unfolding is_misrouted is_known_message observe_term handle_message
step_message n m =
    let route : Run (Node × Reply) = do
      (n', reply) ← handle_message m.type (observe_term n m.term) m
      ok (n', record reply { dirty = ltb n.current_term m.term || reply.dirty })
    in if is_misrouted n m
      then ok (n, refused invalid_input)
      else if not (is_known_message m.type)
      then ok (n, refused invalid_input)
      else route

-- The switch of `Step`.
unfoldable pub handle_input : Node → Input → Run (Node × Reply)
unfolding time_out heartbeat step_message propose compact begin_change finalize_change
handle_input n election_timeout = time_out n
handle_input n heartbeat_timeout = heartbeat n
handle_input n (receive m) = step_message n m
handle_input n (proposal bytes) = propose n bytes
handle_input n (take_snapshot index bytes) = compact n index bytes
handle_input n (begin_membership voters learners) = begin_change n voters learners
handle_input n finalize_membership = finalize_change n
handle_input n (unknown_input k) = ok (n, refused invalid_input)
handle_input n (persisted token) = ok (n, refused invalid_input)

-- The end of `Step`: a dirty transition holds its effects back behind a write.
unfoldable pub conclude : Node → Reply → Node × Answer
conclude n reply = elim reply.error [
  | some error ↦ (n, failed error)
  | none ↦
      if reply.dirty
      then (
        record n {
          next_write_token = add_u64 n.next_write_token 1;
          pending = some (record { token = n.next_write_token; effects = reply.effects });
        },
        done (persist n.next_write_token n.state ∷ []),
      )
      else (n, done reply.effects)
]

-- `Step` for every input but `InputPersisted`.
unfoldable pub transit : Node → Input → Run (Node × Answer)
unfolding handle_input conclude
transit n input =
    let run : Run (Node × Answer) = do (m, reply) ← handle_input n input; ok (conclude m reply)
    in elim n.pending [ some write ↦ ok (n, failed awaiting_persistence) | none ↦ run ]

unfoldable pub step : Node → Input → Run (Node × Answer)
unfolding acknowledge_persistence transit
step n (persisted token) = ok (acknowledge_persistence n token)
step n input = transit n input

unfoldable start : Node → Run (Node × List Effect)
start n =
    let behind = ltb n.applied (boundary n) in
    let m = if behind then record n { applied = boundary n } else n in
    let installs : List Effect = if behind then install n.snapshot ∷ [] else [] in
    do
      (m', applied) ← apply_committed m
      let arm : List Effect = if is_voter m'.membership m'.id then reset_election_timer ∷ [] else []
      ok (m', installs ++ (applied ++ arm))
