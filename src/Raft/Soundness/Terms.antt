-- ===== src/Raft/Soundness/Terms.antt =====
-- raft/node.go: the term and the vote of a sound node across Step.
use native.Mathlib.Decide.{dec_lt}
use d_raft.Base.{◌<◌, ◌≡◌, ◌⊎◌, inl, inr, arith, Ensures-map, Returns, Returns-Ensured, u64}
use d_raft.Raft.Types.{Node, Input}
use d_raft.Raft.Step.{step}
use d_raft.Raft.Safety.Terms.{Advances}
use d_raft.Raft.Safety.Terms.Steps.{step-Advances}
use d_raft.Raft.Soundness.Invariant.{IsSound}
use d_raft.Raft.Soundness.Stepping.{Accepts, step_total}

-- The term rises, or it stays and a vote that was cast stays with it.
abbrev pub KeepsVote : Node → Node → Type 0
KeepsVote n m =
    (n.current_term < m.current_term)
    ⊎ ((m.current_term ≡ n.current_term) × ((n.voted_for ≡ "") ⊎ (m.voted_for ≡ n.voted_for)))

Advances-KeepsVote : (n m : Node) → Advances n m → KeepsVote n m
Advances-KeepsVote n m a = elim (dec_lt n.current_term m.current_term) [
  | yes later ↦ inl later
  | no same ↦ let e : m.current_term ≡ n.current_term = omega (arith, a.0) in inr (e, a.1 e)
]

-- On a sound node whose term is a 64-bit number `Step` returns, and either raises the term, or keeps
-- it and keeps a vote that was cast. An input that is a message has a 64-bit previous log index and
-- snapshot index, and entries that agree with the log above the node's snapshot.
pub step-KeepsVote :
    (n : Node) (input : Input)
    → IsSound n
    → Accepts n input
    → n.current_term < u64
    → Returns (λ r. KeepsVote n r.0) (step n input)
step-KeepsVote n input s a h =
    Returns-Ensured (step_total n input s a)
      (Ensures-map (step-Advances n input h) λ r moved. Advances-KeepsVote n r.0 moved)
