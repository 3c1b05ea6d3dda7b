-- ===== src/Check/History/Agreement.antt =====
-- check/check.go against raft/: the checker's own rule for configuration entries, and the rule of the
-- state machine.
use d_raft.Base.{
  ℕ, ◌+◌, ◌≡◌, refl, ap, ◌∙◌, inl, inr, true, Option, none, some, List, [], ◌∷◌, arith, is_empty,
  same_list, sort, Option-cases,
}
use d_raft.Raft.Types.{
  NodeId, Membership, zero_membership, Entry, EntryType, entry_config_joint, entry_config_final,
  HardState, PersistentState, Config,
}
use d_raft.Raft.Membership.{
  membership_is_zero, memberships_equal, transition_membership, transition_by, joint_transition,
  final_transition, initial_membership_of,
}
use d_raft.Raft.Restore.{log_accepted, snapshot_membership, validate}
use d_raft.Check.Ledger.{NodeObservation, Checker, new_checker}
use d_raft.Check.History.{
  Checked, follows, violates, check_entry, check_by_type, log_violation, membership_violation,
}

-- The configuration that the checker goes on with.
pub accepted : Checked → Option Membership
accepted (follows next) = some next
accepted (violates evidence) = none

same_list-nil : (xs : List NodeId) → same_list xs [] ≡ is_empty xs
unfolding same_list
same_list-nil [] = refl
same_list-nil (x ∷ xs) = refl

memberships_equal-zero :
    (m : Membership) → memberships_equal m zero_membership ≡ membership_is_zero m
unfolding memberships_equal membership_is_zero
memberships_equal-zero m =
    rw
      (
        same_list-nil m.voters,
        same_list-nil m.voters_outgoing,
        same_list-nil m.learners,
        same_list-nil m.learners_next,
      )
      refl

check_by_type-transition_by :
    (t : EntryType) (members : List NodeId) (m : Membership) (e : Entry)
    → accepted (check_by_type t members m e) ≡ transition_by t m e members
unfolding check_by_type transition_by joint_transition final_transition accepted
check_by_type-transition_by entry_config_joint members m e = ground arith
check_by_type-transition_by entry_config_final members m e = ground arith
check_by_type-transition_by t members m e = ground (arith, memberships_equal-zero e.membership)

-- The checker, which has its own copy of the rule, lets an entry pass exactly where
-- `transitionMembership` accepts it, and goes on with the same configuration.
pub check_entry-transition_membership :
    (members : List NodeId) (m : Membership) (e : Entry)
    → accepted (check_entry members m e) ≡ transition_membership m e members
unfolding check_entry transition_membership
check_entry-transition_membership members m e = check_by_type-transition_by e.type members m e

log_violation_next :
    (members : List NodeId) (m next : Membership) (e : Entry) (es : List Entry)
    → transition_membership m e members ≡ some next
    → log_violation members m (e ∷ es) ≡ log_violation members next es
unfolding log_violation accepted
log_violation_next members m next e es h =
    passes (check_entry members m e) (check_entry-transition_membership members m e ∙ h)
  where
    passes :
        (r : Checked)
        → accepted r ≡ some next
        → (elim r [ violates evidence ↦ some evidence | follows m' ↦ log_violation members m' es ])
          ≡ log_violation members next es
    passes (follows m') p = ap (λ c. log_violation members c es) (ground arith)
    passes (violates evidence) p = cc

-- A log that durable-state validation accepts has no membership violation.
pub log_violation-log_accepted :
    (hard : HardState) (members : List NodeId) (want previous : ℕ) (m : Membership)
    (log : List Entry)
    → log_accepted hard members want previous m log ≡ true
    → log_violation members m log ≡ none
unfolding log_violation log_accepted
log_violation-log_accepted hard members want previous m [] h = refl
log_violation-log_accepted hard members want previous m (e ∷ es) h =
    elim (Option-cases (transition_membership m e members)) [
      | inl refused ↦ absurd (ground arith)
      | inr (next, follow) ↦
          log_violation_next members m next e es follow
          ∙ log_violation-log_accepted hard members (want + 1) e.term next es (ground arith)
    ]

-- Where validation accepts the snapshot, the checker starts from the same configuration.
membership_violation_base :
    (c : Checker) (node : NodeObservation) (m : Membership)
    → snapshot_membership c.initial node.durable c.members ≡ some m
    → membership_violation c node ≡ log_violation c.members m node.durable.log
unfolding membership_violation snapshot_membership
membership_violation_base c node m h =
    ground (arith, memberships_equal-zero node.durable.snapshot.membership)

record Validated (config : Config) (state : PersistentState) (m : Membership) : Type 0 where
  pub base :
      snapshot_membership
        (initial_membership_of config (sort config.members)).0
        state
        (sort config.members)
      ≡ some m
  pub log :
      log_accepted state.hard_state
        (sort config.members)
        (state.snapshot.last_included_index + 1)
        state.snapshot.last_included_term
        m
        state.log
      ≡ true

validate-Validated :
    (config : Config) (state : PersistentState)
    → validate config state ≡ none
    → (m : Membership) × Validated config state m
unfolding validate
validate-Validated config state h =
    elim (Option-cases (
      snapshot_membership (initial_membership_of config (sort config.members)).0 state
        (sort config.members))) [
          | inl refused ↦ absurd (ground arith)
          | inr (m, base) ↦ (m, record { base = base; log = ground arith })
        ]

-- The checker raises no alarm about the configurations of a durable state that `New` accepts.
pub validate-membership_violation :
    (config : Config) (node : NodeObservation)
    → validate config node.durable ≡ none
    → membership_violation
        (new_checker config.members (initial_membership_of config (sort config.members)).0)
        node
      ≡ none
unfolding new_checker
validate-membership_violation config node h =
    let (m, v) = validate-Validated config node.durable h in
    membership_violation_base _ node m v.base
    ∙ log_violation-log_accepted _ _ _ _ m node.durable.log v.log
