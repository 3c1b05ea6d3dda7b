-- ===== src/Raft/Membership.antt =====
-- raft/membership.go: stable and joint voting configurations.
pub mod Quorum
pub mod Transition
use d_raft.Base.{
  ℕ, zero, suc, ◌+◌, ◌/◌, Bool, true, false, not, ◌&&◌, ◌||◌, Option, none, some, List, [], ◌∷◌,
  ◌++◌, ltb, leb, if◌then◌else◌, length, is_empty, str_eq, contains, same_list, sort, is_sorted,
}
use d_raft.Raft.Types.{
  NodeId, Membership, Entry, Config, EntryType, entry_noop, entry_command, entry_config_joint,
  entry_config_final, entry_unknown,
}

unfoldable pub is_joint : Membership → Bool
is_joint m = not (is_empty m.voters_outgoing)

unfoldable pub is_voter : Membership → NodeId → Bool
unfolding contains
is_voter m id = contains m.voters id || contains m.voters_outgoing id

-- The loop of `majorityMatches`.
unfoldable pub count_matches : List NodeId → (NodeId → Bool) → ℕ
count_matches [] matches = 0
count_matches (v ∷ vs) matches =
    if matches v then suc (count_matches vs matches) else count_matches vs matches

unfoldable pub majority_matches : List NodeId → (NodeId → Bool) → Bool
majority_matches voters matches = leb (length voters / 2 + 1) (count_matches voters matches)

unfoldable pub quorum : Membership → (NodeId → Bool) → Bool
quorum m matches =
    if not (majority_matches m.voters matches)
    then false
    else (is_empty m.voters_outgoing || majority_matches m.voters_outgoing matches)

unfoldable pub has_quorum : Membership → List NodeId → Bool
unfolding quorum contains
has_quorum m nodes = quorum m (λ id. contains nodes id)

unfoldable pub stable_membership : List NodeId → List NodeId → Membership
stable_membership voters learners = record {
  voters = sort voters;
  voters_outgoing = [];
  learners = sort learners;
  learners_next = [];
}

unfoldable pub membership_is_zero : Membership → Bool
membership_is_zero m =
    is_empty m.voters
    && is_empty m.voters_outgoing
    && is_empty m.learners
    && is_empty m.learners_next

unfoldable pub memberships_equal : Membership → Membership → Bool
memberships_equal a b =
    same_list a.voters b.voters
    && same_list a.voters_outgoing b.voters_outgoing
    && same_list a.learners b.learners
    && same_list a.learners_next b.learners_next

-- The loop of `voterUnion` over the outgoing voters.
add_missing : List NodeId → List NodeId → List NodeId
add_missing result [] = result
add_missing result (v ∷ vs) =
    add_missing (if contains result v then result else result ++ v ∷ []) vs

unfoldable pub voter_union : Membership → List NodeId
unfolding add_missing sort
voter_union m = sort (add_missing m.voters m.voters_outgoing)

repeats : Option NodeId → NodeId → Bool
repeats none node = false
repeats (some p) node = str_eq node p

-- The loop of `canonicalNodeSet`; the first argument is the previous node, absent at index 0.
members_distinct : Option NodeId → List NodeId → List NodeId → Bool
unfolding repeats contains
members_distinct previous [] universe = true
members_distinct previous (node ∷ nodes) universe =
    if str_eq node "" || not (contains universe node) || repeats previous node
    then false
    else members_distinct (some node) nodes universe

canonical_node_set : List NodeId → List NodeId → Bool
unfolding members_distinct is_sorted
canonical_node_set nodes universe =
    if not (is_sorted nodes) then false else members_distinct none nodes universe

-- `for voter in voters { if any of the sets contains voter { return false } }`
disjoint : List NodeId → List NodeId → Bool
disjoint [] others = true
disjoint (v ∷ vs) others = if contains others v then false else disjoint vs others

unfoldable pub validate_membership : Membership → List NodeId → Bool
unfolding canonical_node_set disjoint is_joint
validate_membership m universe =
    if is_empty m.voters
      || not (canonical_node_set m.voters universe)
      || not (canonical_node_set m.voters_outgoing universe)
      || not (canonical_node_set m.learners universe)
      || not (canonical_node_set m.learners_next universe)
    then false
    else if not (is_joint m) && not (is_empty m.learners_next)
    then false
    else if not (disjoint m.voters m.learners && disjoint m.voters m.learners_next)
    then false
    else disjoint m.voters_outgoing m.learners

unfoldable pub initial_membership_of : Config → List NodeId → Membership × Bool
initial_membership_of config universe =
    if is_empty config.voters && is_empty config.learners
    then (stable_membership universe [], true)
    else let m = stable_membership config.voters config.learners in
      (m, validate_membership m universe)

-- The learners of a joint configuration: those to come that are not outgoing voters.
unfoldable pub without : List NodeId → List NodeId → List NodeId
without [] outgoing = []
without (l ∷ ls) outgoing =
    if contains outgoing l then without ls outgoing else l ∷ without ls outgoing

unfoldable pub joint_transition : Membership → Entry → List NodeId → Option Membership
joint_transition current entry universe =
    let next = entry.membership in
    if not (is_empty entry.bytes)
      || is_joint current
      || not (is_joint next)
      || not (validate_membership next universe)
      || not (same_list next.voters_outgoing current.voters)
    then none
    else if not (same_list next.learners (without next.learners_next next.voters_outgoing))
    then none
    else some next

unfoldable pub final_transition : Membership → Entry → List NodeId → Option Membership
final_transition current entry universe =
    let next = entry.membership in
    if not (is_empty entry.bytes)
      || not (is_joint current)
      || is_joint next
      || not (validate_membership next universe)
      || not (same_list next.voters current.voters)
      || not (same_list next.learners current.learners_next)
    then none
    else some next

-- `transitionMembership`; `none` is its result `false`.
unfoldable pub transition_by : EntryType → Membership → Entry → List NodeId → Option Membership
transition_by entry_config_joint current entry universe = joint_transition current entry universe
transition_by entry_config_final current entry universe = final_transition current entry universe
transition_by _ current entry universe =
    if not (membership_is_zero entry.membership) then none else some current

unfoldable pub transition_membership : Membership → Entry → List NodeId → Option Membership
unfolding transition_by
transition_membership current entry universe = transition_by entry.type current entry universe

-- `entry.Type == EntryConfigJoint || entry.Type == EntryConfigFinal`
unfoldable pub is_config : EntryType → Bool
is_config entry_config_joint = true
is_config entry_config_final = true
is_config _ = false
