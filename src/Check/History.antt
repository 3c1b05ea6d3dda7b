-- ===== src/Check/History.antt =====
-- check/check.go: the checks of one node against its history.
pub mod Agreement
use d_raft.Base.{
  ℕ, zero, suc, ◌+◌, ◌-◌, Bool, true, false, ◌&&◌, ◌||◌, not, Option, none, some, List, [], ◌∷◌,
  String, ltb, leb, ◌==◌, if◌then◌else◌, is_empty, is_some, str_eq, same_list, lookup_or_zero,
  insert,
}
use d_raft.Raft.Types.{
  NodeId, Membership, zero_membership, Entry, EntryType, entry_noop, entry_command,
  entry_config_joint, entry_config_final, entry_unknown, HardState, PersistentState, Snapshot,
}
use d_raft.Raft.Membership.{is_joint, validate_membership, memberships_equal, without}
use d_raft.Raft.Observe.{Status}
use d_raft.Check.Ledger.{
  NodeObservation, EntryWitness, SnapshotWitness, Evidence, durable_term_monotonic,
  durable_double_vote, volatile_durable_match, committed_conflict, commit_monotonic,
  applied_conflict, applied_monotonic, snapshot_conflict, snapshot_membership_invalid,
  membership_transition, membership_carried, Checker, find_index, put_index, find_node, put_node,
  add_violation,
}

-- The kind of an entry, by its number in the source; an unknown kind has its own.
unfoldable pub type_code : EntryType → ℕ
type_code entry_noop = 1
type_code entry_command = 2
type_code entry_config_joint = 3
type_code entry_config_final = 4
type_code (entry_unknown k) = k + 5

unfoldable pub same_bytes : List ℕ → List ℕ → Bool
same_bytes [] [] = true
same_bytes (x ∷ xs) (y ∷ ys) = x == y && same_bytes xs ys
same_bytes _ _ = false

unfoldable pub entries_equal : Entry → Entry → Bool
entries_equal left right =
    left.index == right.index
    && left.term == right.term
    && type_code left.type == type_code right.type
    && same_bytes left.bytes right.bytes
    && memberships_equal left.membership right.membership

unfoldable pub same_snapshot : Snapshot → Snapshot → Bool
same_snapshot left right =
    left.last_included_term == right.last_included_term
    && same_list left.members right.members
    && same_bytes left.bytes right.bytes
    && memberships_equal left.membership right.membership

-- The body of the loop of `checkMembershipHistory`: the configuration after the entry, or what is
-- wrong with it.
pub data Checked : Type 0 where
  follows : Membership → Checked
  violates : Evidence → Checked

check_by_type : EntryType → List NodeId → Membership → Entry → Checked
check_by_type entry_config_joint members membership entry =
    let next = entry.membership in
    if not (is_empty entry.bytes)
      || is_joint membership
      || not (is_joint next)
      || not (validate_membership next members)
      || not (same_list next.voters_outgoing membership.voters)
      || not (same_list next.learners (without next.learners_next next.voters_outgoing))
    then violates (membership_transition entry.index membership entry)
    else follows next
check_by_type entry_config_final members membership entry =
    let next = entry.membership in
    if not (is_empty entry.bytes)
      || not (is_joint membership)
      || is_joint next
      || not (validate_membership next members)
      || not (same_list next.voters membership.voters)
      || not (same_list next.learners membership.learners_next)
    then violates (membership_transition entry.index membership entry)
    else follows next
check_by_type _ members membership entry =
    if not (memberships_equal entry.membership zero_membership)
    then violates (membership_carried entry.index entry)
    else follows membership

pub check_entry : List NodeId → Membership → Entry → Checked
unfolding check_by_type
check_entry members membership entry = check_by_type entry.type members membership entry

-- The loop over the log: what is wrong with the first entry that is wrong.
pub log_violation : List NodeId → Membership → List Entry → Option Evidence
log_violation members membership [] = none
log_violation members membership (e ∷ es) = elim (check_entry members membership e) [
  | violates evidence ↦ some evidence
  | follows next ↦ log_violation members next es
]

pub membership_violation : Checker → NodeObservation → Option Evidence
membership_violation c node =
    let s = node.durable.snapshot in
    if ltb 0 s.last_included_index && not (memberships_equal s.membership zero_membership)
    then (if not (validate_membership s.membership c.members)
        then some (snapshot_membership_invalid s.membership)
        else log_violation c.members s.membership node.durable.log)
    else log_violation c.members c.initial node.durable.log

-- `node.Up && node.Status != nil && !node.Status.AwaitingPersistence`, with the status.
unfoldable pub settled_status : NodeObservation → Option Status
settled_status node = elim node.status [
  | none ↦ none
  | some s ↦ if node.up && not s.awaiting_persistence then some s else none
]

-- A node with no ledger has an empty one.
unfoldable pub ledger_of : Checker → NodeId → List (ℕ × NodeId)
ledger_of c id = elim (find_node c.votes id) [ none ↦ [] | some ledger ↦ ledger ]

unfoldable pub keep_vote : Checker → NodeObservation → Checker
keep_vote c node = record c {
  votes =
      put_node c.votes node.id
        (put_index (ledger_of c node.id) node.durable.current_term node.durable.voted_for);
}

module _ (fingerprint : List NodeId → Evidence → String) where
  unfoldable pub check_membership_history : Checker → ℕ → NodeObservation → Checker
  check_membership_history c at node = elim (membership_violation c node) [
    | none ↦ c
    | some evidence ↦ add_violation fingerprint c at (node.id ∷ []) evidence
  ]

  -- The first part of `checkDurableHistory`: the durable term.
  unfoldable pub check_term : Checker → ℕ → NodeObservation → Checker
  check_term c at node =
      let current = node.durable.current_term in
      let previous = lookup_or_zero c.durable_terms node.id in
      let fallen =
        if ltb current previous
        then add_violation fingerprint c at (node.id ∷ []) (durable_term_monotonic previous current)
        else c in
      if ltb previous current
      then record fallen { durable_terms = insert fallen.durable_terms node.id current }
      else fallen

  unfoldable pub check_vote : Checker → ℕ → NodeObservation → Checker
  check_vote c at node =
      let term = node.durable.current_term in
      let vote = node.durable.voted_for in
      let cast : Checker = elim (find_index (ledger_of c node.id) term) [
        | none ↦ keep_vote c node
        | some previous ↦
            if not (str_eq previous vote)
            then add_violation fingerprint c at (node.id ∷ previous ∷ vote ∷ [])
                (durable_double_vote term previous vote)
            else keep_vote c node
      ] in
      if not (str_eq vote "") then cast else c

  unfoldable pub check_volatile : Checker → ℕ → NodeObservation → Checker
  check_volatile c at node =
      let hard = node.durable.hard_state in
      elim (settled_status node) [
        | none ↦ c
        | some s ↦
            if not (s.term == hard.current_term)
              || not (str_eq s.voted_for hard.voted_for)
              || not (s.commit_index == hard.commit_index)
            then add_violation fingerprint c at (node.id ∷ []) (volatile_durable_match s hard)
            else c
      ]

  unfoldable pub check_durable_history : Checker → ℕ → NodeObservation → Checker
  check_durable_history c at node =
      check_volatile (check_vote (check_term c at node) at node) at node
