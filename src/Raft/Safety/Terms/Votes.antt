-- ===== src/Raft/Safety/Terms/Votes.antt =====
-- raft/node.go: elections and votes, for Terms.
use d_raft.Base.{
  ◌<◌, ◌≢◌, refl, ◌&&◌, ◌||◌, not, arith, ensures, Ensures-bind, Ensures-if, Ensures-after, u64,
  max_uint64, str_eq, str_eq_iff, ◌==◌,
}
use d_raft.Raft.Types.{Node, Message}
use d_raft.Raft.Membership.{quorum, is_voter}
use d_raft.Raft.Log.{last_index}
use d_raft.Raft.Commit.{is_candidate}
use d_raft.Raft.Election.{
  lead, become_leader, stand, start_election, has_vote, add_vote, grants, handle_request_vote,
  handle_request_vote_response,
}
use d_raft.Raft.Safety.Terms.{
  Advances, Keeps, Keeps-trans, Keeps-Advances, Advances-trans, Keeping, Advancing,
  advance_commit-Keeping, broadcast_append-Keeping,
}

lead-Keeps : (n : Node) → Keeps n (lead n)
unfolding lead
lead-Keeps n = (refl, refl)

become_leader-Keeping : (n : Node) → Keeping n (become_leader n)
unfolding become_leader
become_leader-Keeping n =
    Ensures-if (last_index n == max_uint64) (λ _. ensures (refl, refl))
      (λ _. Ensures-bind (advance_commit-Keeping (lead n)) λ r k.
        Ensures-bind (broadcast_append-Keeping r.0)
          λ s l. ensures (Keeps-trans n r.0 s.0 (Keeps-trans n (lead n) r.0 (lead-Keeps n) k) l))

stand-Advances :
    (n : Node) → n.current_term < u64 → n.current_term ≢ max_uint64 → Advances n (stand n)
unfolding stand
stand-Advances n h e = (omega arith, λ same. absurd (omega arith))

-- An election moves to the next term, and so is no second vote.
pub start_election-Advancing :
    (n : Node) → n.current_term < u64 → n.current_term ≢ max_uint64 → Advancing n (start_election n)
unfolding start_election
start_election-Advancing n h e =
    let same = Keeps-Advances n n (refl, refl) in
    let later = stand-Advances n h e in
    Ensures-if (not (is_voter n.membership n.id)) (λ _. ensures same)
      (λ _.
        Ensures-if (quorum n.membership (λ id. str_eq id n.id) && last_index n == max_uint64)
          (λ _. ensures same)
          (λ _.
            Ensures-if (quorum n.membership (λ id. has_vote (stand n).votes id))
              (λ _. Ensures-bind (become_leader-Keeping (stand n)) λ r k.
                ensures (Advances-trans n (stand n) r.0 later (Keeps-Advances (stand n) r.0 k)))
              (λ _. ensures later)))

-- A vote is granted to one candidate of a term.
pub handle_request_vote-Advances : (n : Node) (m : Message) → Advances n (handle_request_vote n m).0
unfolding handle_request_vote grants
handle_request_vote-Advances n m =
    ground (arith, str_eq_iff n.voted_for m.from, str_eq_iff n.voted_for "")

pub handle_request_vote_response-Keeping :
    (n : Node) (m : Message) → Keeping n (handle_request_vote_response n m)
unfolding handle_request_vote_response
handle_request_vote_response-Keeping n m =
    Ensures-if (not (is_candidate n.role) || not (m.term == n.current_term) || not m.vote_granted)
      (λ _. ensures (refl, refl))
      (λ _.
        Ensures-if (has_vote n.votes m.from) (λ _. ensures (refl, refl))
          (λ _. Ensures-after (add_vote n.votes m.from) λ votes.
            Ensures-if (not (quorum n.membership (λ id. has_vote votes id)))
              (λ _. ensures (refl, refl))
              (λ _. become_leader-Keeping (record n { votes = votes }))))
