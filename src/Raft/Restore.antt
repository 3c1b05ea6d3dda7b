-- ===== src/Raft/Restore.antt =====
-- raft/types.go and raft/node.go: validation of durable state, and construction of a node from it.
use d_raft.Base.{
  ℕ, ◌+◌, ◌-◌, Bool, true, false, ◌&&◌, ◌||◌, not, Option, none, some, List, [], ◌∷◌, ltb, ◌==◌,
  if◌then◌else◌, length, is_empty, Run, ok, ◌>>=◌, max_uint64, str_eq, contains, same_list, sort,
}
use d_raft.Raft.Types.{
  NodeId, follower, Membership, zero_membership, EntryType, entry_config_final, Entry, HardState,
  PersistentState, Config, Error, invalid_config, invalid_state, Node,
}
use d_raft.Raft.Membership.{
  membership_is_zero, stable_membership, memberships_equal, validate_membership,
  initial_membership_of, transition_membership,
}
use d_raft.Raft.Log.{refresh_membership}
use d_raft.Raft.Replication.{is_known_type}

-- Equal neighbours, in the loop over the sorted members.
has_repeat : List NodeId → Bool
has_repeat [] = false
has_repeat (x ∷ []) = false
has_repeat (x ∷ y ∷ ys) = if str_eq y x then true else has_repeat (y ∷ ys)

config_error : Config → List NodeId → Bool
unfolding has_repeat
config_error c members =
    str_eq c.id ""
    || is_empty c.members
    || contains members ""
    || has_repeat members
    || not (contains members c.id)
    || not (initial_membership_of c members).1

-- The configuration at the snapshot, or `none` where the snapshot is refused.
unfoldable pub snapshot_membership : Membership → PersistentState → List NodeId → Option Membership
snapshot_membership initial state members =
    let s = state.snapshot in
    if s.last_included_index == 0
    then (if not (s.last_included_term == 0)
          || not (is_empty s.members)
          || not (is_empty s.bytes)
          || not (membership_is_zero s.membership)
        then none
        else some initial)
    else if s.last_included_term == 0
        || ltb state.current_term s.last_included_term
        || not (same_list s.members members)
    then none
    else if not (membership_is_zero s.membership)
    then (if not (validate_membership s.membership members) then none else some s.membership)
    else if not (memberships_equal initial (stable_membership members []))
    then none
    else some initial

is_final : EntryType → Bool
is_final entry_config_final = true
is_final _ = false

-- The loop of `validate` over the log: `want` is the index that the next entry has to have.
unfoldable pub log_accepted : HardState → List NodeId → ℕ → ℕ → Membership → List Entry → Bool
unfolding is_final is_known_type
log_accepted hard members want previous membership [] = true
log_accepted hard members want previous membership (e ∷ es) =
    let follow : Bool = elim (transition_membership membership e members) [
      | none ↦ false
      | some next ↦ log_accepted hard members (want + 1) e.term next es
    ] in
    if not (e.index == want)
      || e.term == 0
      || ltb hard.current_term e.term
      || ltb e.term previous
      || not (is_known_type e.type)
    then false
    else if is_final e.type && ltb hard.commit_index (e.index - 1)
    then false
    else follow

indexes_accepted : PersistentState → ℕ → Bool
indexes_accepted state applied =
    let last = state.snapshot.last_included_index + length state.log in
    not (
      ltb state.commit_index state.snapshot.last_included_index
      || ltb last state.commit_index
      || ltb state.commit_index applied)

unfoldable pub validate : Config → PersistentState → Option Error
unfolding config_error snapshot_membership log_accepted indexes_accepted
validate c state =
    let members = sort c.members in
    let s = state.snapshot in
    let check_state : Option Error =
      elim (snapshot_membership (initial_membership_of c members).0 state members) [
        | none ↦ some invalid_state
        | some membership ↦
            if ltb (max_uint64 - s.last_included_index) (length state.log)
            then some invalid_state
            else if not (
                log_accepted state.hard_state members (s.last_included_index + 1)
                  s.last_included_term membership state.log)
            then some invalid_state
            else if not (indexes_accepted state c.applied_index)
            then some invalid_state
            else none
      ] in
    if config_error c members then some invalid_config else check_state

-- The node that `New` builds, before its configuration is computed.
fresh_node : Config → PersistentState → Node
fresh_node c state = record {
  id = c.id;
  members = sort c.members;
  initial_membership = (initial_membership_of c (sort c.members)).0;
  membership = zero_membership;
  role = follower;
  leader_id = "";
  state = state;
  applied = c.applied_index;
  votes = none;
  election_votes = [];
  election_membership = zero_membership;
  next_index = none;
  match_index = none;
  append_sequence = none;
  next_write_token = 1;
  pending = none;
}

-- What `New` returns: a node or an error.
pub data Built : Type 0 where
  built : Node → Built
  rejected : Error → Built

unfoldable pub new : Config → PersistentState → Run Built
unfolding validate fresh_node
new c state =
    let build = refresh_membership (fresh_node c state) >>= λ n. ok (built n) in
    elim (validate c state) [ some error ↦ ok (rejected error) | none ↦ build ]
