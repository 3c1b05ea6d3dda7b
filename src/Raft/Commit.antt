-- ===== src/Raft/Commit.antt =====
-- raft/node.go: role changes, the commit rule, application, and outgoing append messages.
use d_raft.Base.{
  ℕ, zero, suc, ◌+◌, ◌-◌, Bool, true, false, ◌&&◌, not, none, List, [], ◌∷◌, ltb, leb, ◌==◌,
  if◌then◌else◌, Run, ok, ◌>>=◌, or_panic, add_u64, max_uint64, str_eq, map_get, map_set,
}
use d_raft.Raft.Types.{
  NodeId, Role, follower, candidate, leader, zero_membership, Message, append_entries,
  append_entries_response, install_snapshot, install_snapshot_response, new_message, Effect, send,
  apply, Node,
}
use d_raft.Raft.Membership.{is_voter, quorum}
use d_raft.Raft.Log.{
  with_commit, boundary, last_index, entry_at, term_at, entries_from, next_index_after,
  membership_at,
}

unfoldable pub is_follower : Role → Bool
is_follower follower = true
is_follower _ = false

unfoldable pub is_candidate : Role → Bool
is_candidate candidate = true
is_candidate _ = false

unfoldable pub is_leader : Role → Bool
is_leader leader = true
is_leader _ = false

-- The end of `becomeFollower`: a higher term forgets the vote.
abbrev adopt_term : Node → ℕ → Node
adopt_term n term = record n {
  state = record (n.state) {
    hard_state = record (n.state.hard_state) { current_term = term; voted_for = "" };
  };
}

unfoldable pub become_follower : Node → ℕ → NodeId → Node
become_follower n term leader_id =
    let stepped : Node = record n {
      role = follower;
      leader_id = leader_id;
      votes = none;
      election_votes = [];
      election_membership = zero_membership;
      next_index = none;
      match_index = none;
      append_sequence = none;
    } in
    if ltb n.current_term term then adopt_term stepped term else stepped

-- The loop of `applyCommitted`, over the entries that are left. `applied` stays below the commit
-- index before each increment, so the increment does not wrap.
unfoldable pub apply_next : ℕ → Node → Run (Node × List Effect)
apply_next zero n = ok (n, [])
apply_next (suc left) n = do
  let m = record n { applied = n.applied + 1 }
  entry ← or_panic (entry_at m (n.applied + 1))
  (m', effects) ← apply_next left m
  ok (m', apply entry ∷ effects)

unfoldable pub apply_committed : Node → Run (Node × List Effect)
unfolding apply_next
apply_committed n = apply_next (n.commit_index - n.applied) n

-- `if n.role == Leader && !n.membership.isVoter(n.id) { n.becomeFollower(...) }`
unfoldable pub retire_removed : Node → Node
unfolding is_leader
retire_removed n =
    if is_leader n.role && not (is_voter n.membership n.id)
    then become_follower n n.current_term ""
    else n

-- The body of `advanceCommit`'s loop once a quorum has stored `index`.
unfoldable pub commit_to : Node → ℕ → Run (Node × List Effect)
unfolding retire_removed
commit_to n index = do
  (m, effects) ← apply_committed (with_commit n index)
  ok (retire_removed m, effects)

-- The loop of `advanceCommit`, from `old + left` down to `old + 1`.
unfoldable pub advance_from : ℕ → ℕ → Node → Run (Node × List Effect)
unfolding commit_to
advance_from zero old n = ok (n, [])
advance_from (suc left) old n =
    let index = old + suc left in
    let lower = advance_from left old n in
    let decide = membership_at n index >>= λ membership.
    if quorum membership (λ member. leb index (map_get n.match_index member))
    then commit_to n index
    else lower in
    if not (term_at n index == n.current_term) then lower else decide

unfoldable pub advance_commit : Node → Run (Node × List Effect)
unfolding advance_from
advance_commit n = advance_from (last_index n - n.commit_index) n.commit_index n

unfoldable pub snapshot_response : Node → NodeId → ℕ → Bool → ℕ → Message
snapshot_response n to sequence success match_index =
    record (new_message install_snapshot_response n.id to n.current_term) {
      sequence = sequence;
      success = success;
      match_index = match_index;
    }

unfoldable pub append_response : Node → NodeId → ℕ → Bool → ℕ → ℕ → Message
append_response n to sequence success match_index reject_hint =
    record (new_message append_entries_response n.id to n.current_term) {
      sequence = sequence;
      success = success;
      match_index = match_index;
      reject_hint = reject_hint;
    }

-- The message of `appendFor` once the sequence number of the member is counted.
append_message : Node → NodeId → Message
append_message n member =
    let sequence = map_get n.append_sequence member in
    let stored = map_get n.next_index member in
    let next = if stored == 0 then next_index_after (last_index n) else stored in
    if map_get n.match_index member == max_uint64
    then record (new_message append_entries n.id member n.current_term) {
      sequence = sequence;
      prev_log_index = max_uint64;
      prev_log_term = term_at n max_uint64;
      leader_commit = n.commit_index;
    }
    else if leb next (boundary n)
    then record (new_message install_snapshot n.id member n.current_term) {
      sequence = sequence;
      snapshot = n.snapshot;
    }
    else record (new_message append_entries n.id member n.current_term) {
      sequence = sequence;
      prev_log_index = next - 1;
      prev_log_term = term_at n (next - 1);
      entries = if leb next (last_index n) then entries_from n next else [];
      leader_commit = n.commit_index;
    }

unfoldable pub append_for : Node → NodeId → Run (Node × Message)
unfolding append_message
append_for n member = do
  sequences ← map_set n.append_sequence member (add_u64 (map_get n.append_sequence member) 1)
  let m = record n { append_sequence = sequences }
  ok (m, append_message m member)

-- The loop of `broadcastAppend`.
unfoldable pub append_to_each : List NodeId → Node → Run (Node × List Effect)
append_to_each [] n = ok (n, [])
append_to_each (member ∷ members) n =
    let skip = append_to_each members n in
    let sending : Run (Node × List Effect) = do
      (m, message) ← append_for n member
      (m', effects) ← append_to_each members m
      ok (m', send message ∷ effects)
    in if not (str_eq member n.id) then sending else skip

unfoldable pub broadcast_append : Node → Run (Node × List Effect)
unfolding append_to_each
broadcast_append n = append_to_each n.members n
