-- ===== src/Check/Cluster.antt =====
-- check/check.go: the checks across nodes, and Observe.
use d_raft.Check.Records.{check_committed_history, check_applied_history, check_snapshot_history}
use d_raft.Base.{
  ℕ, zero, suc, ◌+◌, ◌-◌, min, max, Bool, false, ◌&&◌, ◌||◌, not, Option, none, some, List, [], ◌∷◌,
  String, ltb, leb, ◌==◌, if◌then◌else◌, is_empty, str_eq, str_le, length, get_elem?, drop,
  max_uint64,
}
use d_raft.Raft.Types.{NodeId, Entry, PersistentState}
use d_raft.Raft.Membership.{validate_membership, has_quorum}
use d_raft.Raft.Commit.{is_leader}
use d_raft.Raft.Observe.{Status}
use d_raft.Check.Ledger.{
  NodeObservation, Observation, EntryWitness, Evidence, election_safety, election_certificate,
  log_matching, leader_completeness, Checker, Violation, find_index, put_index, add_violation,
}
use d_raft.Check.History.{
  entries_equal, settled_status, ledger_of, check_durable_history, check_membership_history,
}

-- `stateLastIndex`
unfoldable state_last_index : PersistentState → ℕ
state_last_index state =
    let boundary = state.snapshot.last_included_index in
    if ltb (max_uint64 - boundary) (length state.log)
    then max_uint64
    else boundary + length state.log

-- `stateEntryAt` and `statusEntryAt`, on the boundary and the log of their argument.
unfoldable log_entry_at : ℕ → List Entry → ℕ → Option Entry
log_entry_at boundary log index =
    if leb index boundary then none else get_elem? log (index - boundary - 1)

unfoldable state_entry_at : PersistentState → ℕ → Option Entry
state_entry_at state index = log_entry_at state.snapshot.last_included_index state.log index

unfoldable status_entry_at : Status → ℕ → Option Entry
status_entry_at s index = log_entry_at s.snapshot.last_included_index s.log index

-- The entry is there, and equals the other.
unfoldable pub agrees : Option Entry → Option Entry → Bool
agrees (some left) (some right) = entries_equal left right
agrees _ _ = false

-- Both entries are there, with one term.
unfoldable shared_term : Option Entry → Option Entry → Option ℕ
shared_term (some left) (some right) = if left.term == right.term then some left.term else none
shared_term _ _ = none

unfoldable insert_observed : NodeObservation → List NodeObservation → List NodeObservation
insert_observed n [] = n ∷ []
insert_observed n (m ∷ ms) = if str_le n.id m.id then n ∷ m ∷ ms else m ∷ insert_observed n ms

-- `slices.SortFunc` by the nodes' names.
unfoldable sort_observed : List NodeObservation → List NodeObservation
sort_observed [] = []
sort_observed (n ∷ ns) = insert_observed n (sort_observed ns)

unfoldable insert_number : ℕ → List ℕ → List ℕ
insert_number x [] = x ∷ []
insert_number x (y ∷ ys) = if leb x y then x ∷ y ∷ ys else y ∷ insert_number x ys

-- The indexes of the committed entries that a leader of `term` has to hold, in order.
unfoldable owed_indexes : ℕ → ℕ → List (ℕ × EntryWitness) → List ℕ
owed_indexes term boundary [] = []
owed_indexes term boundary ((index, w) ∷ rest) =
    let others = owed_indexes term boundary rest in
    if leb w.commit_term term && ltb boundary index then insert_number index others else others

-- The voters whose durable vote in the term went to the node.
unfoldable certified_by : Checker → ℕ → NodeId → List NodeId → List NodeId
certified_by c term id [] = []
certified_by c term id (voter ∷ voters) =
    let rest = certified_by c term id voters in
    elim (find_index (ledger_of c voter) term) [
      | none ↦ if str_eq "" id then voter ∷ rest else rest
      | some candidate ↦ if str_eq candidate id then voter ∷ rest else rest
    ]

module _ (fingerprint : List NodeId → Evidence → String) where
  -- The loop of `checkLogs` over the indexes, of which `left` are to come.
  unfoldable check_pair_from :
      ℕ → Checker → ℕ → NodeObservation → NodeObservation → ℕ → Option ℕ → Checker
  check_pair_from zero c at one other index conflict = c
  check_pair_from (suc left) c at one other index conflict =
      let a = state_entry_at one.durable index in
      let b = state_entry_at other.durable index in
      let first : Option ℕ = elim conflict [
        | some k ↦ some k
        | none ↦ if not (agrees a b) then some index else none
      ] in
      let c' : Checker = elim first [
        | none ↦ c
        | some k ↦ elim (shared_term a b) [
          | none ↦ c
          | some term ↦
              add_violation fingerprint c at (one.id ∷ other.id ∷ []) (log_matching index k term)
        ]
      ] in
      check_pair_from left c' at one other (index + 1) first

  unfoldable check_pair : Checker → ℕ → NodeObservation → NodeObservation → Checker
  check_pair c at one other =
      let boundary =
        max one.durable.snapshot.last_included_index other.durable.snapshot.last_included_index in
      let limit = min (state_last_index one.durable) (state_last_index other.durable) in
      if boundary == max_uint64 || ltb limit (boundary + 1)
      then c
      else check_pair_from (limit - boundary) c at one other (boundary + 1) none

  unfoldable check_against : Checker → ℕ → NodeObservation → List NodeObservation → Checker
  check_against c at one [] = c
  check_against c at one (other ∷ rest) = check_against (check_pair c at one other) at one rest

  unfoldable check_logs : Checker → ℕ → List NodeObservation → Checker
  check_logs c at [] = c
  check_logs c at (node ∷ nodes) = check_logs (check_against c at node nodes) at nodes

  -- The last loop of `checkLeader`.
  unfoldable check_complete : Checker → ℕ → NodeObservation → Status → List ℕ → Checker
  check_complete c at node s [] = c
  check_complete c at node s (index ∷ rest) =
      let c' : Checker = elim (find_index c.committed index) [
        | none ↦ c
        | some w ↦
            if not (agrees (status_entry_at s index) (some w.entry))
            then add_violation fingerprint c at (node.id ∷ w.node ∷ [])
                (leader_completeness s.term index w)
            else c
      ] in
      check_complete c' at node s rest

  -- The first test of `checkLeader`: one leader in a term.
  unfoldable check_sole_leader : Checker → ℕ → NodeObservation → Status → Checker
  check_sole_leader c at node s = elim (find_index c.leaders s.term) [
    | none ↦ record c { leaders = put_index c.leaders s.term node.id }
    | some previous ↦
        if not (str_eq previous node.id)
        then add_violation fingerprint c at (previous ∷ node.id ∷ [])
            (election_safety s.term previous node.id)
        else record c { leaders = put_index c.leaders s.term node.id }
  ]

  unfoldable check_leader : Checker → ℕ → NodeObservation → Status → Checker
  check_leader c at node s =
      let sole = check_sole_leader c at node s in
      let certified = certified_by sole s.term node.id sole.members in
      let membership =
        if is_empty s.election_membership.voters then sole.initial else s.election_membership in
      let elected =
        if not (validate_membership membership sole.members)
          || not (has_quorum membership certified)
        then add_violation fingerprint sole at (node.id ∷ [])
            (election_certificate s.term certified membership)
        else sole in
      check_complete elected at node s
        (owed_indexes s.term s.snapshot.last_included_index elected.committed)

  unfoldable check_leaders : Checker → ℕ → List NodeObservation → Checker
  check_leaders c at [] = c
  check_leaders c at (node ∷ nodes) =
      let c' : Checker = elim (settled_status node) [
        | none ↦ c
        | some s ↦ if is_leader s.role then check_leader c at node s else c
      ] in
      check_leaders c' at nodes

  unfoldable check_node : Checker → ℕ → NodeObservation → Checker
  check_node c at node =
      let durable = check_durable_history fingerprint c at node in
      let committed = check_committed_history fingerprint durable at node in
      let applied = check_applied_history fingerprint committed at node in
      check_membership_history fingerprint (check_snapshot_history fingerprint applied at node) at
        node

  unfoldable check_nodes : Checker → ℕ → List NodeObservation → Checker
  check_nodes c at [] = c
  check_nodes c at (node ∷ nodes) = check_nodes (check_node c at node) at nodes

  -- `Observe`: the checker after it, and the violations that are new.
  unfoldable observe : Checker → Observation → Checker × List Violation
  observe c o =
      let nodes = sort_observed o.nodes in
      let after = check_leaders (check_logs (check_nodes c o.at nodes) o.at nodes) o.at nodes in
      (after, drop (length c.violations) after.violations)
