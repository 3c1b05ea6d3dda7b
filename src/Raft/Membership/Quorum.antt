-- ===== src/Raft/Membership/Quorum.antt =====
-- raft/membership.go: majorities and quorums intersect.
use d_raft.Base.{
  ◌+◌, ◌≤◌, ◌<◌, ◌≡◌, Bool, true, ◌&&◌, List, [], ◌∷◌, arith, length, Bool-cases, contains, inl,
  inr, leb→le, str_eq_iff,
}
use d_raft.Raft.Types.{NodeId, Membership}
use d_raft.Raft.Membership.{count_matches, majority_matches, quorum, is_joint}

-- Two sets of nodes share a node that stands in the list.
abbrev pub SharedVoter : List NodeId → (NodeId → Bool) → (NodeId → Bool) → Type 0
SharedVoter vs p q = (v : NodeId) × (contains vs v ≡ true) × (p v ≡ true) × (q v ≡ true)

abbrev both : (NodeId → Bool) → (NodeId → Bool) → NodeId → Bool
both p q v = p v && q v

count_matches-both :
    (vs : List NodeId) (p q : NodeId → Bool)
    → count_matches vs p + count_matches vs q ≤ length vs + count_matches vs (both p q)
unfolding count_matches
count_matches-both [] p q = omega arith
count_matches-both (v ∷ vs) p q = ground (arith, count_matches-both vs p q)

count_matches_pos :
    (vs : List NodeId) (p : NodeId → Bool)
    → 0 < count_matches vs p
    → (v : NodeId) × (contains vs v ≡ true) × (p v ≡ true)
unfolding count_matches contains
count_matches_pos [] p h = absurd (omega arith)
count_matches_pos (v ∷ vs) p h = elim (Bool-cases (p v)) [
  | inl e ↦ (v, ground (arith, str_eq_iff v v), e)
  | inr e ↦ let (w, inside, holds) = count_matches_pos vs p (rw e at h) in (w, ground arith, holds)
]

-- Any two majorities of one voter list share a voter.
pub majority_matches-SharedVoter :
    (vs : List NodeId) (p q : NodeId → Bool)
    → majority_matches vs p ≡ true
    → majority_matches vs q ≡ true
    → SharedVoter vs p q
unfolding majority_matches
majority_matches-SharedVoter vs p q hp hq =
    let (v, inside, holds) =
      count_matches_pos vs (both p q)
        (omega (arith, count_matches-both vs p q, leb→le _ _ hp, leb→le _ _ hq)) in
    (v, inside, ground arith, ground arith)

pub quorum_incoming :
    (m : Membership) (p : NodeId → Bool) → quorum m p ≡ true → majority_matches m.voters p ≡ true
unfolding quorum
quorum_incoming m p h = ground arith

pub quorum_outgoing :
    (m : Membership) (p : NodeId → Bool)
    → is_joint m ≡ true
    → quorum m p ≡ true
    → majority_matches m.voters_outgoing p ≡ true
unfolding quorum is_joint
quorum_outgoing m p j h = ground arith
