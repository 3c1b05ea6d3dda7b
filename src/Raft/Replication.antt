-- ===== src/Raft/Replication.antt =====
-- raft/node.go: AppendEntries, InstallSnapshot and their responses.
use d_raft.Base.{
  ℕ, ◌+◌, ◌-◌, Bool, true, false, ◌&&◌, ◌||◌, not, Option, none, some, List, [], ◌∷◌, ◌++◌, ltb,
  leb, ◌==◌, if◌then◌else◌, length, is_empty, Run, ok, ◌>>=◌, max_uint64, str_eq, same_list,
  map_get, map_set, min, max,
}
use d_raft.Raft.Types.{
  NodeId, EntryType, entry_unknown, Membership, Entry, Snapshot, Message, Effect, send,
  reset_election_timer, install, Node,
}
use d_raft.Raft.Membership.{
  membership_is_zero, stable_membership, memberships_equal, validate_membership,
  transition_membership,
}
use d_raft.Raft.Log.{
  with_log, with_commit, boundary, last_index, term_at, entries_from, truncate_from,
  next_index_after, membership_at, refresh_membership,
}
use d_raft.Raft.Commit.{
  is_follower, is_leader, become_follower, apply_committed, advance_commit, append_response,
  snapshot_response, append_for,
}
use d_raft.Raft.Election.{Reply, replied}

unfoldable pub is_known_type : EntryType → Bool
is_known_type (entry_unknown k) = false
is_known_type _ = true

unfoldable pub reject_append : Node → Message → ℕ → Effect
unfolding append_response
reject_append n m hint = send (append_response n m.from m.sequence false 0 hint)

-- The first loop of `handleAppendEntries`: the index of the first entry that it refuses.
unfoldable pub refused_at : List NodeId → ℕ → ℕ → ℕ → Membership → List Entry → Option ℕ
unfolding is_known_type
refused_at members term index previous membership [] = none
refused_at members term index previous membership (e ∷ es) =
    let follow : Option ℕ = elim (transition_membership membership e members) [
      | none ↦ some index
      | some next ↦ refused_at members term (index + 1) e.term next es
    ] in
    if not (e.index == index)
      || e.term == 0
      || ltb term e.term
      || ltb e.term previous
      || not (is_known_type e.type)
    then some index
    else follow

-- One round of the second loop: the entry is there, is appended, or would leave a gap.
pub data Round : Type 0 where
  present appended gap : Round

unfoldable pub extend_log : Node → ℕ → Entry → Node × Round
extend_log n index e =
    if ltb (last_index n) index
    then (if not (index == next_index_after (last_index n))
        then (n, gap)
        else (with_log n (n.log ++ e ∷ []), appended))
    else (n, present)

unfoldable pub place_entry : Node → ℕ → Entry → Node × Round
unfolding extend_log
place_entry n index e =
    if leb index (last_index n)
    then (if term_at n index == e.term
        then (n, present)
        else extend_log (truncate_from n index) index e)
    else extend_log n index e

-- The second loop: the node, whether it is dirty, and whether the loop ran to its end.
pub record Stored : Type 0 where
  pub node : Node
  pub dirty : Bool
  pub complete : Bool

unfoldable pub store_round : Bool → (Node → Bool → Stored) → Node × Round → Stored
store_round dirty rest (n, present) = rest n dirty
store_round dirty rest (n, appended) = rest n true
store_round dirty rest (n, gap) = record { node = n; dirty = dirty; complete = false }

unfoldable pub store_entries : Node → Bool → ℕ → List Entry → Stored
unfolding place_entry store_round
store_entries n dirty index [] = record { node = n; dirty = dirty; complete = true }
store_entries n dirty index (e ∷ es) =
    store_round dirty (λ m stored. store_entries m stored (index + 1) es) (place_entry n index e)

-- The end of `handleAppendEntries`, after the second loop: the commit index follows the leader's.
unfoldable pub follow_commit : Node → Bool → Message → Run (Node × Reply)
follow_commit n dirty m = do
  let accepted = λ (k : Node).
      send (append_response k m.from m.sequence true (m.prev_log_index + length m.entries) 0)
  let follow : Run (Node × Reply) = do
    (n', applied) ← apply_committed (with_commit n (min m.leader_commit (last_index n)))
    ok (n', replied true (reset_election_timer ∷ (applied ++ accepted n' ∷ [])))
  if ltb n.commit_index m.leader_commit
      then follow
      else ok (n, replied dirty (reset_election_timer ∷ accepted n ∷ []))

unfoldable pub store_and_follow : Node → Message → Run (Node × Reply)
unfolding store_entries follow_commit
store_and_follow n m =
    let stored = store_entries n false (m.prev_log_index + 1) m.entries in
    let k = stored.node in
    if not stored.complete
    then ok (
      k,
      replied stored.dirty
          (reset_election_timer ∷ reject_append k m (next_index_after (last_index k)) ∷ []),
    )
    else do
      refreshed ← if stored.dirty then refresh_membership k else ok k
      follow_commit refreshed stored.dirty m

-- `rejectHint` of a failed consistency check.
reject_hint_of : Node → Message → ℕ
reject_hint_of n m =
    let hint =
      if ltb m.prev_log_index (boundary n)
      then next_index_after (boundary n)
      else min m.prev_log_index (next_index_after (last_index n)) in
    if hint == 0 then 1 else hint

-- `handleAppendEntries` past its checks of the term and of the role.
unfoldable pub append_as_follower : Node → Message → Run (Node × Reply)
unfolding reject_append refused_at store_and_follow reject_hint_of
append_as_follower n m =
    let reject =
      λ (hint : ℕ). ok (n, replied false (reset_election_timer ∷ reject_append n m hint ∷ [])) in
    let check : Run (Node × Reply) = do
      membership ← membership_at n m.prev_log_index
      elim (refused_at n.members m.term (m.prev_log_index + 1) m.prev_log_term membership
          m.entries) [ some index ↦ reject index | none ↦ store_and_follow n m ]
    in if ltb m.prev_log_index (boundary n) || not (term_at n m.prev_log_index == m.prev_log_term)
      then reject (reject_hint_of n m)
      else if ltb (max_uint64 - m.prev_log_index) (length m.entries)
      then reject (next_index_after (last_index n))
      else check

-- `if n.role != Follower || n.leader != message.From { n.becomeFollower(message.Term, message.From) }`
unfoldable pub follow_sender : Node → Message → Node
follow_sender n m =
    if not (is_follower n.role) || not (str_eq n.leader_id m.from)
    then become_follower n m.term m.from
    else n

unfoldable pub handle_append_entries : Node → Message → Run (Node × Reply)
unfolding follow_sender append_as_follower
handle_append_entries n m =
    if ltb m.term n.current_term
    then ok (n, replied false (reject_append n m (next_index_after (last_index n)) ∷ []))
    else append_as_follower (follow_sender n m) m

-- The loop of `handleInstallSnapshot` over the kept suffix.
unfoldable pub suffix_fits : List NodeId → Membership → List Entry → Bool
suffix_fits members m [] = true
suffix_fits members m (e ∷ es) = elim (transition_membership m e members) [
  | none ↦ false
  | some next ↦ suffix_fits members next es
]

-- The condition on which `handleInstallSnapshot` refuses a snapshot.
unfoldable pub snapshot_malformed : Node → Message → Membership → Bool
snapshot_malformed n m membership =
    let s = m.snapshot in
    s.last_included_index == 0
    || s.last_included_term == 0
    || ltb m.term s.last_included_term
    || not (same_list s.members n.members)
    || not (validate_membership membership n.members)
    || (membership_is_zero s.membership
        && not (memberships_equal n.initial_membership (stable_membership n.members [])))

-- The entries past the snapshot that stay, where the log holds the snapshot's last entry.
unfoldable pub kept_suffix : Node → Snapshot → List Entry
kept_suffix n s =
    if term_at n s.last_included_index == s.last_included_term
      && ltb s.last_included_index max_uint64
    then entries_from n (s.last_included_index + 1)
    else []

unfoldable pub adopt_snapshot : Node → Snapshot → List Entry → Node
adopt_snapshot n s suffix = record n {
  state = record {
    hard_state = record (n.state.hard_state) { commit_index = s.last_included_index };
    snapshot = s;
    log = suffix;
  };
  applied = s.last_included_index;
}

-- `handleInstallSnapshot` past its checks of the term and of the role.
unfoldable pub install_as_follower : Node → Message → Run (Node × Reply)
unfolding suffix_fits snapshot_malformed kept_suffix adopt_snapshot
install_as_follower n m =
    let s = m.snapshot in
    let membership =
      if membership_is_zero s.membership then stable_membership s.members [] else s.membership in
    let answer = λ (success : Bool) (match : ℕ).
      replied false
        (reset_election_timer ∷ send (snapshot_response n m.from m.sequence success match) ∷ []) in
    let adopt : Run (Node × Reply) = do
      n' ← refresh_membership (adopt_snapshot n s (kept_suffix n s))
      ok (
        n',
        replied true (
            reset_election_timer
            ∷ install s
            ∷ send (snapshot_response n' m.from m.sequence true s.last_included_index)
            ∷ []),
      )
    in if snapshot_malformed n m membership
      then ok (n, answer false (boundary n))
      else if leb s.last_included_index n.commit_index
      then ok (n, answer true s.last_included_index)
      else if not (suffix_fits n.members membership (kept_suffix n s))
      then ok (n, answer false (boundary n))
      else adopt

unfoldable pub handle_install_snapshot : Node → Message → Run (Node × Reply)
unfolding follow_sender install_as_follower
handle_install_snapshot n m =
    if ltb m.term n.current_term
    then ok
        (n, replied false (send (snapshot_response n m.from m.sequence false (boundary n)) ∷ []))
    else install_as_follower (follow_sender n m) m

-- `if message.MatchIndex > n.matchIndex[message.From] { ... }`
unfoldable pub record_match : Node → Message → Run Node
record_match n m =
    let store : Run Node = do
      let stored = min m.match_index (last_index n)
      match ← map_set n.match_index m.from stored
      next ← map_set n.next_index m.from (next_index_after stored)
      ok (record n { match_index = match; next_index = next })
    in if ltb (map_get n.match_index m.from) m.match_index then store else ok n

-- The common end of the two response handlers.
unfoldable pub settle_match : Node → Message → Run (Node × Reply)
unfolding record_match
settle_match n m = do
  recorded ← record_match n m
  (n', effects) ← advance_commit recorded
  let dirty = not (is_empty effects)
  let more : Run (Node × Reply) = do
    (n'', message) ← append_for n' m.from
    ok (n'', replied dirty (effects ++ send message ∷ []))
  if not (is_leader n'.role)
      then ok (n', replied dirty effects)
      else if ltb (map_get n'.match_index m.from) (last_index n')
      then more
      else ok (n', replied dirty effects)

unfoldable pub handle_install_snapshot_response : Node → Message → Run (Node × Reply)
unfolding settle_match
handle_install_snapshot_response n m =
    if not (is_leader n.role) || not (m.term == n.current_term) || not m.success
    then ok (n, replied false [])
    else settle_match n m

-- The next index after a rejection.
pub back_off : ℕ → ℕ → ℕ
back_off next hint =
    let stepped = if ltb 1 next then next - 1 else next in
    max 1 (if ltb 0 hint && ltb hint stepped then hint else stepped)

unfoldable pub retry_append : Node → Message → Run (Node × Reply)
unfolding back_off
retry_append n m =
    let retry : Run (Node × Reply) = do
      next ← map_set n.next_index m.from (back_off (map_get n.next_index m.from) m.reject_hint)
      (n', message) ← append_for (record n { next_index = next }) m.from
      ok (n', replied false (send message ∷ []))
    in if not (m.sequence == map_get n.append_sequence m.from)
      then ok (n, replied false [])
      else retry

unfoldable pub handle_append_entries_response : Node → Message → Run (Node × Reply)
unfolding settle_match retry_append
handle_append_entries_response n m =
    if not (is_leader n.role) || not (m.term == n.current_term)
    then ok (n, replied false [])
    else if not m.success
    then retry_append n m
    else settle_match n m
