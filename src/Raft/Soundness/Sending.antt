-- ===== src/Raft/Soundness/Sending.antt =====
-- raft/node.go: appendFor and broadcastAppend on a leader, and the changes that keep a node sound.
use d_raft.Base.{
  ◌≡◌, refl, sym, subst, true, not, List, [], ◌∷◌, Returns, returns, Returns-bind, Returns-if,
  str_eq, is_some, map_set-Returns, map_get, add_u64,
}
use d_raft.Raft.Types.{NodeId, Node}
use d_raft.Raft.Commit.{append_for, append_to_each, broadcast_append}
use d_raft.Raft.Soundness.Invariant.{IsSound}

-- Only the sequence numbers differ, and their map is still there.
abbrev pub Sequenced : Node → Node → Type 0
Sequenced n m =
    (m ≡ record n { append_sequence = m.append_sequence }) × (is_some m.append_sequence ≡ true)

pub append_for_total :
    (n : Node) (member : NodeId)
    → is_some n.append_sequence ≡ true
    → Returns (λ r. Sequenced n r.0) (append_for n member)
unfolding append_for
append_for_total n member h =
    Returns-bind
      (map_set-Returns n.append_sequence member (add_u64 (map_get n.append_sequence member) 1) h)
      λ s k. returns (refl, k)

Sequenced-trans : (n m k : Node) → Sequenced n m → Sequenced m k → Sequenced n k
Sequenced-trans n m k p q = (cc, q.1)

append_to_each_total :
    (members : List NodeId) (n : Node)
    → is_some n.append_sequence ≡ true
    → Returns (λ r. Sequenced n r.0) (append_to_each members n)
unfolding append_to_each
append_to_each_total [] n h = returns (refl, h)
append_to_each_total (member ∷ members) n h =
    Returns-if (not (str_eq member n.id))
      (λ _. Returns-bind (append_for_total n member h) λ r k.
        Returns-bind (append_to_each_total members r.0 k.1)
          λ s l. returns (Sequenced-trans n r.0 s.0 k l))
      (λ _. append_to_each_total members n h)

pub broadcast_append_total :
    (n : Node)
    → is_some n.append_sequence ≡ true
    → Returns (λ r. Sequenced n r.0) (broadcast_append n)
unfolding broadcast_append
broadcast_append_total n h = append_to_each_total n.members n h

pub Sequenced-IsSound : (n m : Node) → IsSound n → Sequenced n m → IsSound m
Sequenced-IsSound n m s k =
    subst IsSound (sym k.0) (s.0, s.1, ((λ h. ((s.2.0 h).0, (s.2.0 h).1, k.1)), s.2.1))
