-- ===== src/Raft/Election.antt =====
-- raft/node.go: elections and votes.
use d_raft.Base.{
  ℕ, Bool, true, false, ◌&&◌, ◌||◌, not, Option, none, some, List, [], ◌∷◌, ◌++◌, ◌==◌,
  if◌then◌else◌, Run, ok, panic, ◌>>=◌, add_u64, max_uint64, str_eq, contains, insert,
}
use d_raft.Raft.Types.{
  NodeId, candidate, leader, entry_noop, zero_membership, Entry, Message, request_vote,
  request_vote_response, new_message, Effect, send, reset_election_timer, reset_heartbeat_timer,
  Error, not_voter, index_exhausted, Node,
}
use d_raft.Raft.Membership.{is_voter, quorum, voter_union}
use d_raft.Raft.Log.{with_vote, last_index, last_term, candidate_log_is_up_to_date}
use d_raft.Raft.Commit.{is_candidate, advance_commit, broadcast_append}

-- The three results of a handler: whether durable state changed, the effects, and the error.
pub record Reply : Type 0 where
  pub dirty : Bool
  pub effects : List Effect
  pub error : Option Error

abbrev pub replied : Bool → List Effect → Reply
replied dirty effects = record { dirty = dirty; effects = effects; error = none }

abbrev pub refused : Error → Reply
refused error = record { dirty = false; effects = []; error = some error }

-- `_, ok := n.votes[id]`
pub has_vote : Option (List NodeId) → NodeId → Bool
has_vote none id = false
has_vote (some ids) id = contains ids id

-- `n.votes[id] = struct{}{}`
unfoldable pub add_vote : Option (List NodeId) → NodeId → Run (Option (List NodeId))
add_vote none id = panic
add_vote (some ids) id = ok (some (if contains ids id then ids else ids ++ id ∷ []))

-- The members that voted, in the order of the members.
voted_members : List NodeId → Option (List NodeId) → List NodeId
unfolding has_vote
voted_members [] votes = []
voted_members (m ∷ ms) votes =
    if has_vote votes m then m ∷ voted_members ms votes else voted_members ms votes

-- `for member in members { progress[member] = value }`. The map comes from `make`, so it is not nil.
set_each : List NodeId → ℕ → List (NodeId × ℕ) → List (NodeId × ℕ)
set_each [] value progress = progress
set_each (m ∷ ms) value progress = set_each ms value (insert progress m value)

unfoldable pub noop_entry : Node → Entry
noop_entry n = record {
  index = add_u64 (last_index n) 1;
  term = n.current_term;
  type = entry_noop;
  bytes = [];
  membership = zero_membership;
}

-- The state that `becomeLeader` sets, its no-op entry included.
unfoldable pub lead : Node → Node
unfolding voted_members set_each noop_entry
lead n =
    let zeroed = insert (set_each n.members 0 []) n.id (last_index n) in
    record n {
      role = leader;
      leader_id = n.id;
      election_votes = voted_members n.members n.votes;
      election_membership = n.membership;
      next_index = some (set_each n.members (add_u64 (last_index n) 1) []);
      match_index = some (insert zeroed n.id (noop_entry n).index);
      append_sequence = some [];
      state = record (n.state) { log = n.log ++ noop_entry n ∷ [] };
    }

unfoldable pub become_leader : Node → Run (Node × Reply)
unfolding lead
become_leader n =
    let take_over : Run (Node × Reply) = do
      (m', committed) ← advance_commit (lead n)
      (m'', sent) ← broadcast_append m'
      ok (m'', replied true (reset_heartbeat_timer ∷ (committed ++ sent)))
    in if last_index n == max_uint64 then ok (n, refused index_exhausted) else take_over

-- The vote requests of `startElection`, its loop over the voters.
vote_requests : Node → List NodeId → List Effect
vote_requests n [] = []
vote_requests n (member ∷ members) =
    if str_eq member n.id
    then vote_requests n members
    else send (record (new_message request_vote n.id member n.current_term) {
      last_log_index = last_index n;
      last_log_term = last_term n;
    })
      ∷ vote_requests n members

-- The assignments of `startElection`.
unfoldable pub stand : Node → Node
stand n = record n {
  role = candidate;
  leader_id = "";
  state = record (n.state) {
    hard_state = record (n.state.hard_state) {
      current_term = add_u64 n.current_term 1;
      voted_for = n.id;
    };
  };
  votes = some (n.id ∷ []);
  election_votes = [];
  next_index = none;
  match_index = none;
  append_sequence = none;
}

unfoldable pub start_election : Node → Run (Node × Reply)
unfolding stand become_leader vote_requests has_vote
start_election n =
    let m = stand n in
    let win : Run (Node × Reply) = do
      (m', reply) ← become_leader m
      ok (
        m',
        elim reply.error [
          | none ↦ replied true (reset_election_timer ∷ reply.effects)
          | some error ↦ refused error
        ],
      )
    in if not (is_voter n.membership n.id)
      then ok (n, refused not_voter)
      else if quorum n.membership (λ id. str_eq id n.id) && last_index n == max_uint64
      then ok (n, refused index_exhausted)
      else if quorum m.membership (λ id. has_vote m.votes id)
      then win
      else ok (m, replied true (reset_election_timer ∷ vote_requests m (voter_union m.membership)))

-- The condition on which `handleRequestVote` grants.
unfoldable pub grants : Node → Message → Bool
grants n m =
    m.term == n.current_term
    && is_voter n.membership n.id
    && is_voter n.membership m.from
    && (str_eq n.voted_for "" || str_eq n.voted_for m.from)
    && candidate_log_is_up_to_date n m.last_log_index m.last_log_term

vote_response : Node → Message → Bool → Effect
vote_response n m granted =
    send (record (new_message request_vote_response n.id m.from n.current_term) {
      vote_granted = granted;
    })

unfoldable pub handle_request_vote : Node → Message → Node × Reply
unfolding grants vote_response
handle_request_vote n m =
    if grants n m
    then (
      if str_eq n.voted_for m.from then n else with_vote n m.from,
      replied (not (str_eq n.voted_for m.from))
          (reset_election_timer ∷ vote_response n m true ∷ []),
    )
    else (n, replied false (vote_response n m false ∷ []))

unfoldable pub handle_request_vote_response : Node → Message → Run (Node × Reply)
unfolding become_leader has_vote add_vote
handle_request_vote_response n m =
    let count : Run (Node × Reply) = do
      votes ← add_vote n.votes m.from
      let n' = record n { votes = votes }
      let won : Run (Node × Reply) = become_leader n'
      if not (quorum n'.membership (λ id. has_vote n'.votes id))
          then ok (n', replied false [])
          else won
    in if not (is_candidate n.role) || not (m.term == n.current_term) || not m.vote_granted
      then ok (n, replied false [])
      else if has_vote n.votes m.from
      then ok (n, replied false [])
      else count
