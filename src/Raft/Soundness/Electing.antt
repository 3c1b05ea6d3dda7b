-- ===== src/Raft/Soundness/Electing.antt =====
-- raft/node.go: elections and votes on a sound node.
use d_raft.Base.{
  ◌+◌, ◌<◌, ◌≡◌, ◌≢◌, refl, ap, inl, inr, true, ◌&&◌, ◌||◌, not, Option, none, some, List, arith,
  Returns, returns, Returns-bind, Returns-if, ◌==◌, str_eq, is_some, u64, max_uint64, length,
  Bool-cases,
}
use d_raft.Raft.Types.{NodeId, Message, Node}
use d_raft.Raft.Membership.{quorum, is_voter, is_config}
use d_raft.Raft.Log.{boundary, last_index}
use d_raft.Raft.Commit.{is_leader, is_candidate}
use d_raft.Raft.Election.{
  noop_entry, lead, become_leader, stand, start_election, has_vote, add_vote, grants,
  handle_request_vote, handle_request_vote_response,
}
use d_raft.Raft.Soundness.Replay.{replay_plain}
use d_raft.Raft.Soundness.Invariant.{LogSound, IsSound, last_index_lem, LogSound-snoc, length_snoc}
use d_raft.Raft.Soundness.Committing.{advance_commit_total, Advanced-IsSound}
use d_raft.Raft.Soundness.Sending.{broadcast_append_total, Sequenced-IsSound}

-- There is room for one more index.
room : (n : Node) → LogSound n → last_index n ≢ max_uint64 → boundary n + length n.log + 1 < u64
room n s h = omega (arith, last_index_lem n s.0)

lead-IsSound : (n : Node) → IsSound n → last_index n ≢ max_uint64 → IsSound (lead n)
unfolding lead noop_entry is_leader is_candidate is_config
lead-IsSound n s h = (
  LogSound-snoc n (noop_entry n) n.membership s.0 (room n s.0 h)
      (omega (arith, last_index_lem n s.0.0, room n s.0 h))
      (replay_plain n.members n.membership (noop_entry n) refl),
  (s.1.0, s.1.1, omega (arith, s.1.2, length_snoc {0} n.log (noop_entry n))),
  ((λ _. (refl, refl, refl)), λ e. cc),
)

-- A voter that becomes leader can commit and send.
become_leader_total :
    (n : Node)
    → IsSound n
    → is_voter n.membership n.id ≡ true
    → Returns (λ r. IsSound r.0) (become_leader n)
unfolding become_leader lead is_leader
become_leader_total n s voter =
    Returns-if (last_index n == max_uint64) (λ _. returns s)
      (λ free.
        let sound = lead-IsSound n s (ground arith) in
        Returns-bind (advance_commit_total (lead n) sound) λ r a.
          let (kept, role) = Advanced-IsSound (lead n) r sound a in
          Returns-bind (broadcast_append_total r.0 (kept.2.0 (ap is_leader (role voter))).2)
            λ t k. returns (Sequenced-IsSound r.0 t.0 kept k))

stand-IsSound : (n : Node) → IsSound n → is_voter n.membership n.id ≡ true → IsSound (stand n)
unfolding stand is_leader is_candidate
stand-IsSound n s voter = (s.0, s.1, ((λ e. cc), λ _. (refl, voter)))

pub start_election_total : (n : Node) → IsSound n → Returns (λ r. IsSound r.0) (start_election n)
unfolding start_election
start_election_total n s =
    Returns-if (not (is_voter n.membership n.id)) (λ _. returns s)
      (λ no.
        let voter : is_voter n.membership n.id ≡ true = ground arith in
        let sound = stand-IsSound n s voter in
        Returns-if (quorum n.membership (λ id. str_eq id n.id) && last_index n == max_uint64)
          (λ _. returns s)
          (λ _.
            Returns-if (quorum n.membership (λ id. has_vote (stand n).votes id))
              (λ _. Returns-bind (become_leader_total (stand n) sound voter) λ r k. returns k)
              (λ _. returns sound)))

-- A vote changes nothing that soundness is about.
pub handle_request_vote-IsSound :
    (n : Node) (m : Message) → IsSound n → IsSound (handle_request_vote n m).0
unfolding handle_request_vote
handle_request_vote-IsSound n m s = elim (Bool-cases (grants n m)) [
  | inl yea ↦
      rw yea (elim (Bool-cases (str_eq n.voted_for m.from)) [
        | inl same ↦ rw same s
        | inr new ↦ rw new s
      ])
  | inr nay ↦ rw nay s
]

add_vote_total :
    (votes : Option (List NodeId)) (id : NodeId)
    → is_some votes ≡ true
    → Returns (λ v. is_some v ≡ true) (add_vote votes id)
unfolding add_vote
add_vote_total none id h = cc
add_vote_total (some ids) id h = returns refl

pub handle_request_vote_response_total :
    (n : Node) (m : Message)
    → IsSound n
    → Returns (λ r. IsSound r.0) (handle_request_vote_response n m)
unfolding handle_request_vote_response
handle_request_vote_response_total n m s =
    Returns-if (not (is_candidate n.role) || not (m.term == n.current_term) || not m.vote_granted)
      (λ _. returns s)
      (λ go.
        let (counting, voter) = s.2.1 (ground arith) in
        Returns-if (has_vote n.votes m.from) (λ _. returns s)
          (λ _. Returns-bind (add_vote_total n.votes m.from counting) λ votes k.
            let sound : IsSound (record n { votes = votes }) =
              (s.0, s.1, (s.2.0, λ _. (k, voter))) in
            Returns-if (not (quorum n.membership (λ id. has_vote votes id))) (λ _. returns sound)
              (λ _. become_leader_total (record n { votes = votes }) sound voter)))
