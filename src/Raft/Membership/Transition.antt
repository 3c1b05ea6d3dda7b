-- ===== src/Raft/Membership/Transition.antt =====
-- raft/membership.go: transitionMembership keeps configurations valid and quorums intersecting.
use d_raft.Base.{◌≡◌, subst, Bool, true, false, List, some, arith, same_list→eq, same_list}
use d_raft.Raft.Types.{NodeId, Membership, Entry, EntryType, entry_config_joint, entry_config_final}
use d_raft.Raft.Membership.{
  quorum, is_joint, majority_matches, validate_membership, joint_transition, final_transition,
  transition_by, transition_membership, is_config,
}
use d_raft.Raft.Membership.Quorum.{
  SharedVoter, majority_matches-SharedVoter, quorum_incoming, quorum_outgoing,
}

-- What an accepted joint entry has been checked for.
record JointChecked (c c' : Membership) (u : List NodeId) : Type 0 where
  stable : is_joint c ≡ false
  joint : is_joint c' ≡ true
  valid : validate_membership c' u ≡ true
  outgoing : same_list c'.voters_outgoing c.voters ≡ true

record FinalChecked (c c' : Membership) (u : List NodeId) : Type 0 where
  valid : validate_membership c' u ≡ true
  incoming : same_list c'.voters c.voters ≡ true

joint_transition-JointChecked :
    (c : Membership) (e : Entry) (u : List NodeId) {c' : Membership}
    → joint_transition c e u ≡ some c'
    → JointChecked c c' u
unfolding joint_transition
joint_transition-JointChecked c e u h = ground arith

final_transition-FinalChecked :
    (c : Membership) (e : Entry) (u : List NodeId) {c' : Membership}
    → final_transition c e u ≡ some c'
    → FinalChecked c c' u
unfolding final_transition
final_transition-FinalChecked c e u h = ground arith

transition_by-valid :
    (t : EntryType) (c : Membership) (e : Entry) (u : List NodeId) {c' : Membership}
    → validate_membership c u ≡ true
    → transition_by t c e u ≡ some c'
    → validate_membership c' u ≡ true
unfolding transition_by
transition_by-valid entry_config_joint c e u v h = (joint_transition-JointChecked c e u h).valid
transition_by-valid entry_config_final c e u v h = (final_transition-FinalChecked c e u h).valid
transition_by-valid t c e u v h = ground arith

-- A transition leads from a valid configuration to a valid configuration.
pub transition_membership-valid :
    (c : Membership) (e : Entry) (u : List NodeId) {c' : Membership}
    → validate_membership c u ≡ true
    → transition_membership c e u ≡ some c'
    → validate_membership c' u ≡ true
unfolding transition_membership
transition_membership-valid c e u v h = transition_by-valid e.type c e u v h

transition_by-SharedVoter :
    (t : EntryType) (c : Membership) (e : Entry) (u : List NodeId) (c' : Membership)
    (p q : NodeId → Bool)
    → transition_by t c e u ≡ some c'
    → quorum c p ≡ true
    → quorum c' q ≡ true
    → SharedVoter c.voters p q
unfolding transition_by
transition_by-SharedVoter entry_config_joint c e u c' p q h hp hq =
    let checked = joint_transition-JointChecked c e u h in
    majority_matches-SharedVoter c.voters p q (quorum_incoming c p hp) (
      subst (λ vs. majority_matches vs q ≡ true) (same_list→eq _ _ checked.outgoing)
        (quorum_outgoing c' q checked.joint hq))
transition_by-SharedVoter entry_config_final c e u c' p q h hp hq =
    let checked = final_transition-FinalChecked c e u h in
    majority_matches-SharedVoter c.voters p q (quorum_incoming c p hp) (
      subst (λ vs. majority_matches vs q ≡ true) (same_list→eq _ _ checked.incoming)
        (quorum_incoming c' q hq))
transition_by-SharedVoter t c e u c' p q h hp hq =
    let same : c' ≡ c = ground arith in
    majority_matches-SharedVoter c.voters p q (quorum_incoming c p hp)
      (quorum_incoming c q (subst (λ m. quorum m q ≡ true) same hq))

-- A quorum of a configuration and a quorum of the next one share a voter of the first: no
-- transition lets two disjoint groups decide.
pub transition_membership-SharedVoter :
    (c : Membership) (e : Entry) (u : List NodeId) (c' : Membership) (p q : NodeId → Bool)
    → transition_membership c e u ≡ some c'
    → quorum c p ≡ true
    → quorum c' q ≡ true
    → SharedVoter c.voters p q
unfolding transition_membership
transition_membership-SharedVoter c e u c' p q h hp hq =
    transition_by-SharedVoter e.type c e u c' p q h hp hq

transition_by_plain :
    (t : EntryType) (c : Membership) (e : Entry) (u : List NodeId) {c' : Membership}
    → is_config t ≡ false
    → transition_by t c e u ≡ some c'
    → c' ≡ c
unfolding transition_by is_config
transition_by_plain entry_config_joint c e u p h = cc
transition_by_plain entry_config_final c e u p h = cc
transition_by_plain t c e u p h = ground arith

-- An entry that is no configuration entry leaves the configuration.
pub transition_membership_plain :
    (c : Membership) (e : Entry) (u : List NodeId) {c' : Membership}
    → is_config e.type ≡ false
    → transition_membership c e u ≡ some c'
    → c' ≡ c
unfolding transition_membership
transition_membership_plain c e u p h = transition_by_plain e.type c e u p h
