-- ===== src/Raft/Safety/Terms.antt =====
-- raft/node.go: the term never falls, and a vote is kept for the whole of its term.
pub mod Replies
pub mod Votes
pub mod Steps
use d_raft.Base.{
  ℕ, ◌+◌, ◌≤◌, ◌<◌, ◌≡◌, refl, sym, ◌∙◌, ◌⊎◌, inl, inr, Bool, true, false, Option, none, some, List,
  [], ◌∷◌, arith, Run, ok, panic, Ensures, ensures, panics, Ensures-bind, Ensures-map, Ensures-if,
  Ensures-after, if◌then◌else◌, ◌-◌, zero, suc, or_panic, ◌>>=◌, map_set, map_get, leb, ◌==◌, ◌&&◌,
  not, str_eq, Bool-cases, u64,
}
use d_raft.Raft.Types.{NodeId, Node, Effect, Entry, Message, Membership, HardState, PersistentState}
use d_raft.Raft.Log.{
  with_commit, refresh_membership, membership_at, entry_at, with_log, last_index, term_at,
}
use d_raft.Raft.Membership.{quorum}
use d_raft.Raft.Commit.{
  retire_removed, become_follower, apply_next, apply_committed, commit_to, advance_from,
  advance_commit, append_for, append_to_each, broadcast_append,
}

-- From `n` to `m` the term does not fall, and within a term a vote is not changed once it is cast.
abbrev pub Advances : Node → Node → Type 0
Advances n m =
    (n.current_term ≤ m.current_term)
    × (m.current_term ≡ n.current_term → (n.voted_for ≡ "") ⊎ (m.voted_for ≡ n.voted_for))

-- From `n` to `m` the term and the vote stay.
abbrev pub Keeps : Node → Node → Type 0
Keeps n m = (m.current_term ≡ n.current_term) × (m.voted_for ≡ n.voted_for)

pub Keeps-trans : (n m k : Node) → Keeps n m → Keeps m k → Keeps n k
Keeps-trans n m k p q = (q.0 ∙ p.0, q.1 ∙ p.1)

pub Keeps-Advances : (n m : Node) → Keeps n m → Advances n m
Keeps-Advances n m k = (omega (arith, k.0), λ e. inr k.1)

pub Advances-trans : (n m k : Node) → Advances n m → Advances m k → Advances n k
Advances-trans n m k p q = (
  omega (arith, p.0, q.0),
  λ e. later e (p.1 (omega (arith, p.0, q.0, e))) (q.1 (omega (arith, p.0, q.0, e))),
)
  where
    later :
        k.current_term ≡ n.current_term
        → (n.voted_for ≡ "") ⊎ (m.voted_for ≡ n.voted_for)
        → (m.voted_for ≡ "") ⊎ (k.voted_for ≡ m.voted_for)
        → (n.voted_for ≡ "") ⊎ (k.voted_for ≡ n.voted_for)
    later e (inl a) b = inl a
    later e (inr a) (inl b) = inl (sym a ∙ b)
    later e (inr a) (inr b) = inr (b ∙ a)

-- Every result of the run keeps the term and the vote.
abbrev pub Keeping {ℓ} : {A : Type ℓ} → Node → Run (Node × A) → Type ℓ
Keeping n = Ensures (λ r. Keeps n r.0)

apply_next-Keeping : (left : ℕ) (n : Node) → Keeping n (apply_next left n)
unfolding apply_next
apply_next-Keeping zero n = ensures (refl, refl)
apply_next-Keeping (suc left) n =
    Ensures-after (or_panic (entry_at (record n { applied = n.applied + 1 }) (n.applied + 1)))
      λ entry.
        Ensures-bind (apply_next-Keeping left (record n { applied = n.applied + 1 }))
          λ r k. ensures k

pub apply_committed-Keeping : (n : Node) → Keeping n (apply_committed n)
unfolding apply_committed
apply_committed-Keeping n = apply_next-Keeping (n.commit_index - n.applied) n

retire_removed-Keeps : (n : Node) → Keeps n (retire_removed n)
unfolding retire_removed become_follower
retire_removed-Keeps n = ground arith

commit_to-Keeping : (n : Node) (index : ℕ) → Keeping n (commit_to n index)
unfolding commit_to
commit_to-Keeping n index =
    Ensures-bind (apply_committed-Keeping (with_commit n index))
      λ r k. ensures (Keeps-trans n r.0 (retire_removed r.0) k (retire_removed-Keeps r.0))

advance_from-Keeping : (left old : ℕ) (n : Node) → Keeping n (advance_from left old n)
unfolding advance_from
advance_from-Keeping zero old n = ensures (refl, refl)
advance_from-Keeping (suc left) old n =
    let lower = advance_from-Keeping left old n in
    Ensures-if (not (term_at n (old + suc left) == n.current_term)) (λ _. lower)
      (λ _. Ensures-after (membership_at n (old + suc left)) λ m.
        Ensures-if (quorum m (λ member. leb (old + suc left) (map_get n.match_index member)))
          (λ _. commit_to-Keeping n (old + suc left)) (λ _. lower))

pub advance_commit-Keeping : (n : Node) → Keeping n (advance_commit n)
unfolding advance_commit
advance_commit-Keeping n = advance_from-Keeping (last_index n - n.commit_index) n.commit_index n

pub append_for-Keeping : (n : Node) (member : NodeId) → Keeping n (append_for n member)
unfolding append_for
append_for-Keeping n member = Ensures-after (map_set _ _ _) λ s. ensures (refl, refl)

append_to_each-Keeping : (members : List NodeId) (n : Node) → Keeping n (append_to_each members n)
unfolding append_to_each
append_to_each-Keeping [] n = ensures (refl, refl)
append_to_each-Keeping (member ∷ members) n =
    Ensures-if (not (str_eq member n.id))
      (λ _. Ensures-bind (append_for-Keeping n member) λ r k.
        Ensures-bind (append_to_each-Keeping members r.0)
          λ s l. ensures (Keeps-trans n r.0 s.0 k l))
      (λ _. append_to_each-Keeping members n)

pub broadcast_append-Keeping : (n : Node) → Keeping n (broadcast_append n)
unfolding broadcast_append
broadcast_append-Keeping n = append_to_each-Keeping n.members n

pub refresh_membership-Keeping : (n : Node) → Ensures (λ m. Keeps n m) (refresh_membership n)
unfolding refresh_membership
refresh_membership-Keeping n = Ensures-after (membership_at n _) λ m. ensures (refl, refl)

-- Every result of the run advances the term or keeps it with its vote.
abbrev pub Advancing {ℓ} : {A : Type ℓ} → Node → Run (Node × A) → Type ℓ
Advancing n = Ensures (λ r. Advances n r.0)

pub Keeping-Advancing {ℓ} :
    {A : Type ℓ} (n : Node) {r : Run (Node × A)} → Keeping n r → Advancing n r
Keeping-Advancing n k = Ensures-map k λ r. Keeps-Advances n r.0
