-- ===== src/Raft/Soundness/Committing.antt =====
-- raft/node.go: advanceCommit on a sound node.
use native.Mathlib.Decide.{ℕ_discrete}
use d_raft.Base.{
  ℕ, zero, suc, ◌+◌, ◌-◌, ◌≤◌, ◌<◌, ◌≡◌, refl, sym, ap, subst, ◌⊎◌, inl, inr, true, false, ◌&&◌,
  not, List, [], arith, ok, Returns, returns, Returns-bind, Returns-map, Returns-if, length, leb,
  ◌==◌, is_empty, map_get, ltb, Bool-cases,
}
use d_raft.Raft.Types.{NodeId, Membership, Effect, Node}
use d_raft.Raft.Membership.{quorum, is_voter}
use d_raft.Raft.Log.{with_commit, boundary, last_index, term_at, membership_at}
use d_raft.Raft.Commit.{
  is_leader, is_candidate, become_follower, retire_removed, commit_to, advance_from, advance_commit,
}
use d_raft.Raft.Soundness.Invariant.{IsSound, last_index_lem, membership_at_total}
use d_raft.Raft.Soundness.Applying.{apply_each, due_entries, apply_committed_total}

-- The node that has committed and applied `index`, and has stepped down if it is no voter.
abbrev pub committed : Node → ℕ → Node
committed n index = retire_removed (record (with_commit n index) { applied = index })

-- The commit rule: an entry past the commit index, of the node's own term, that a quorum of the
-- configuration in force there stores, is committed and applied.
pub record CommittedBy (n : Node) (r : Node × List Effect) (index : ℕ) : Type 0 where
  pub later : n.commit_index < index
  pub within : index ≤ boundary n + length n.log
  pub own_term : term_at n index ≡ n.current_term
  pub configuration : Membership
  pub in_force : membership_at n index ≡ ok configuration
  pub stored : quorum configuration (λ member. leb index (map_get n.match_index member)) ≡ true
  pub node : r.0 ≡ committed n index
  pub applies : r.1 ≡ apply_each (due_entries n index)
  pub effective : is_empty r.1 ≡ false

-- The rule allows to commit the index: its entry is of the node's own term, and a quorum of the
-- configuration in force there stores it.
abbrev pub Committable : Node → ℕ → Type 0
Committable n index =
    (term_at n index ≡ n.current_term)
    × ((m : Membership)
        → membership_at n index ≡ ok m
        → quorum m (λ member. leb index (map_get n.match_index member)) ≡ true)

abbrev pub NoneAbove : Node → ℕ → ℕ → Type 0
NoneAbove n low high = (i : ℕ) → low < i → i ≤ high → Committable n i → ⊥

-- The loop changes nothing, as no index up to `high` may be committed, or commits the greatest that may.
abbrev AdvancedTo : Node → ℕ → Node × List Effect → Type 0
AdvancedTo n high r =
    ((r.0 ≡ n) × (r.1 ≡ []) × NoneAbove n n.commit_index high)
    ⊎ ((index : ℕ) × CommittedBy n r index × NoneAbove n index high)

-- `advanceCommit` changes nothing, or commits by the rule the greatest index that it allows.
abbrev pub Advanced : Node → Node × List Effect → Type 0
Advanced n r = AdvancedTo n (boundary n + length n.log) r

NoneAbove-suc :
    (n : Node) (low left : ℕ)
    → NoneAbove n low (n.commit_index + left)
    → (Committable n (n.commit_index + suc left) → ⊥)
    → NoneAbove n low (n.commit_index + suc left)
NoneAbove-suc n low left below refused i above within fine =
    elim (ℕ_discrete i (n.commit_index + suc left)) [
      | yes e ↦ refused (subst (Committable n) e fine)
      | no other ↦ below i above (omega arith) fine
    ]

AdvancedTo-suc :
    (n : Node) (left : ℕ) (r : Node × List Effect)
    → (Committable n (n.commit_index + suc left) → ⊥)
    → AdvancedTo n (n.commit_index + left) r
    → AdvancedTo n (n.commit_index + suc left) r
AdvancedTo-suc n left r refused a = elim a [
  | inl (same, quiet, below) ↦ inl (same, quiet, NoneAbove-suc n n.commit_index left below refused)
  | inr (index, c, below) ↦ inr (index, c, NoneAbove-suc n index left below refused)
]

commit_to_total :
    (n : Node) (index : ℕ)
    → IsSound n
    → n.commit_index < index
    → index ≤ boundary n + length n.log
    → Returns
        (λ r.
          (r.0 ≡ committed n index)
          × (r.1 ≡ apply_each (due_entries n index))
          × (is_empty r.1 ≡ false))
        (commit_to n index)
unfolding commit_to
commit_to_total n index s low high =
    Returns-bind (apply_committed_total (with_commit n index) s.0 s.1.0 (omega arith) high)
      λ r a. returns (ap retire_removed a.0, a.1, a.2 (omega arith))

advance_from_total :
    (left : ℕ) (n : Node)
    → IsSound n
    → n.commit_index + left ≤ boundary n + length n.log
    → Returns (AdvancedTo n (n.commit_index + left)) (advance_from left n.commit_index n)
unfolding advance_from
advance_from_total zero n s h = returns (inl (refl, refl, λ i above within fine. omega arith))
advance_from_total (suc left) n s h =
    let index = n.commit_index + suc left in
    let lower = λ (refused : Committable n index → ⊥).
      Returns-map (advance_from_total left n s (omega arith))
        λ r a. AdvancedTo-suc n left r refused a in
    let (m, at, _, _) = membership_at_total n index s.0 (omega arith) in
    Returns-if (not (term_at n index == n.current_term))
      (λ other. lower (λ fine. absurd (ground (arith, fine.0))))
      (λ own. rw at (
        Returns-if (quorum m (λ member. leb index (map_get n.match_index member)))
          (λ stored. Returns-map (commit_to_total n index s (omega arith) h) λ r a. inr (
            index,
            record {
              later = omega arith;
              within = h;
              own_term = ground arith;
              configuration = m;
              in_force = at;
              stored = stored;
              node = a.0;
              applies = a.1;
              effective = a.2;
            },
            λ i above within fine. omega arith,
          ))
          (λ missing. lower (λ fine. cc (missing, fine.1 m at)))))

-- On a sound node `advanceCommit` returns, and it changes nothing, or commits and applies an entry past
-- the commit index, of the node's own term, that a quorum of the configuration in force there stores.
-- Then it answers one effect for each entry after the applied ones up to that one, in order. The rule
-- allows no greater index, and none at all past the commit index where nothing changes.
pub advance_commit_total : (n : Node) → IsSound n → Returns (Advanced n) (advance_commit n)
unfolding advance_commit
advance_commit_total n s =
    let whole : n.commit_index + (last_index n - n.commit_index) ≡ boundary n + length n.log =
      omega (arith, last_index_lem n s.0.0, s.1.2) in
    subst (λ (high : ℕ). Returns (AdvancedTo n high) (advance_commit n)) whole
      (advance_from_total (last_index n - n.commit_index) n s
        (omega (arith, last_index_lem n s.0.0)))

-- A follower has no duties, so that becoming one keeps a node sound.
pub become_follower-IsSound :
    (n : Node) (term : ℕ) (leader_id : NodeId)
    → IsSound n
    → IsSound (become_follower n term leader_id)
unfolding become_follower is_leader is_candidate
become_follower-IsSound n term leader_id s = elim (Bool-cases (ltb n.current_term term)) [
  | inl e ↦ rw e (s.0, s.1, ((λ h. cc), (λ h. cc)))
  | inr e ↦ rw e (s.0, s.1, ((λ h. cc), (λ h. cc)))
]

retire_removed-IsSound :
    (n : Node)
    → IsSound n
    → IsSound (retire_removed n)
      × (is_voter n.membership n.id ≡ true → (retire_removed n).role ≡ n.role)
unfolding retire_removed
retire_removed-IsSound n s =
    elim (Bool-cases (is_leader n.role && not (is_voter n.membership n.id))) [
      | inl e ↦ rw e (become_follower-IsSound n n.current_term "" s, λ voter. absurd (ground arith))
      | inr e ↦ rw e (s, λ voter. refl)
    ]

-- After `advanceCommit` a sound node is sound, and a voter keeps its role.
pub Advanced-IsSound :
    (n : Node) (r : Node × List Effect)
    → IsSound n
    → Advanced n r
    → IsSound r.0 × (is_voter n.membership n.id ≡ true → r.0.role ≡ n.role)
Advanced-IsSound n r s a = elim a [
  | inl (same, _, _) ↦ subst Kept (sym same) (s, λ _. refl)
  | inr (index, c, _) ↦ subst Kept (sym c.node) (
      retire_removed-IsSound (record (with_commit n index) { applied = index })
        (s.0, omega (arith, c.later, c.within), s.2))
]
  where
    Kept : Node → Type 0
    Kept m = IsSound m × (is_voter n.membership n.id ≡ true → m.role ≡ n.role)
