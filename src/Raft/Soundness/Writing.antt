-- ===== src/Raft/Soundness/Writing.antt =====
-- raft/node.go: the dirty flag of the handlers. A handler whose flag is not set, and that does not
-- fail, leaves the durable state.
use d_raft.Base.{
  ◌≡◌, refl, ap, ◌∙◌, inl, inr, true, false, ◌||◌, ◌&&◌, not, none, some, List, [], ◌∷◌, arith, Run,
  ok, panic, Ensures, ensures, panics, Ensures-bind, Ensures-if, Ensures-after, Returns-Ensures,
  max_uint64, ltb, ◌==◌, is_empty, str_eq, map_set, map_get, Option-cases,
}
use d_raft.Raft.Types.{Node, Message, Effect, reset_election_timer, NodeId}
use d_raft.Raft.Membership.{is_voter, quorum}
use d_raft.Raft.Log.{last_index}
use d_raft.Raft.Commit.{
  is_leader, is_candidate, advance_commit, append_for, append_to_each, broadcast_append,
}
use d_raft.Raft.Election.{
  Reply, replied, refused, has_vote, add_vote, stand, become_leader, start_election,
  handle_request_vote, handle_request_vote_response,
}
use d_raft.Raft.Replication.{
  retry_append, settle_match, record_match, handle_install_snapshot_response,
  handle_append_entries_response,
}
use d_raft.Raft.Soundness.Invariant.{IsSound}
use d_raft.Raft.Soundness.Committing.{Advanced, advance_commit_total}
use d_raft.Raft.Soundness.Responding.{record_match_total}

abbrev pub Honest : Node → Run (Node × Reply) → Type 0
Honest n = Ensures (λ r. r.1.dirty ≡ false → r.1.error ≡ none → r.0.state ≡ n.state)

-- A call that leaves the durable state.
abbrev pub Leaving {ℓ} : {A : Type ℓ} → Node → Run (Node × A) → Type ℓ
Leaving n = Ensures (λ r. r.0.state ≡ n.state)

append_for-Leaving : (n : Node) (member : NodeId) → Leaving n (append_for n member)
unfolding append_for
append_for-Leaving n member = Ensures-after (map_set _ _ _) λ s. ensures refl

record_match-Leaving :
    (n : Node) (m : Message) → Ensures (λ k. k.state ≡ n.state) (record_match n m)
unfolding record_match
record_match-Leaving n m =
    Ensures-if (ltb (map_get n.match_index m.from) m.match_index)
      (λ _. Ensures-after (map_set _ _ _) λ a. Ensures-after (map_set _ _ _) λ b. ensures refl)
      (λ _. ensures refl)

-- Where `advanceCommit` returns no effects, it changes nothing.
Advanced-quiet :
    (n : Node) (r : Node × List Effect) → Advanced n r → is_empty r.1 ≡ true → r.0.state ≡ n.state
Advanced-quiet n r a h = elim a [
  | inl (same, _, _) ↦ ap (λ k. k.state) same
  | inr (index, c, _) ↦ cc (h, c.effective)
]

settle_match-Honest :
    (n : Node) (m : Message) → IsSound n → is_leader n.role ≡ true → Honest n (settle_match n m)
unfolding settle_match
settle_match-Honest n m s lead =
    Ensures-bind
      (both (record_match n m) (Returns-Ensures (record_match_total n m s lead))
        (record_match-Leaving n m))
      λ k (t, same). Ensures-bind (Returns-Ensures (advance_commit_total k t)) λ r a.
        let quiet =
          λ (h : not (is_empty r.1) ≡ false). Advanced-quiet k r a (ground arith) ∙ same in
        Ensures-if (not (is_leader r.0.role)) (λ _. ensures (λ d e. quiet d))
          (λ _.
            Ensures-if (ltb (map_get r.0.match_index m.from) (last_index r.0))
              (λ _.
                Ensures-bind (append_for-Leaving r.0 m.from) λ q l. ensures (λ d e. l ∙ quiet d))
              (λ _. ensures (λ d e. quiet d)))
  where
    both :
        (r : Run Node)
        → Ensures IsSound r
        → Ensures (λ k. k.state ≡ n.state) r
        → Ensures (λ k. (IsSound k) × (k.state ≡ n.state)) r
    both (ok k) (ensures p) (ensures q) = ensures (p, q)
    both panic p q = panics

retry_append-Honest : (n : Node) (m : Message) → Honest n (retry_append n m)
unfolding retry_append
retry_append-Honest n m =
    Ensures-if (not (m.sequence == map_get n.append_sequence m.from)) (λ _. ensures (λ d e. refl))
      (λ _. Ensures-after (map_set _ _ _) λ next.
        Ensures-bind (append_for-Leaving (record n { next_index = next }) m.from)
          λ q l. ensures (λ d e. l))

pub handle_install_snapshot_response-Honest :
    (n : Node) (m : Message) → IsSound n → Honest n (handle_install_snapshot_response n m)
unfolding handle_install_snapshot_response
handle_install_snapshot_response-Honest n m s =
    Ensures-if (not (is_leader n.role) || not (m.term == n.current_term) || not m.success)
      (λ _. ensures (λ d e. refl)) (λ go. settle_match-Honest n m s (ground arith))

pub handle_append_entries_response-Honest :
    (n : Node) (m : Message) → IsSound n → Honest n (handle_append_entries_response n m)
unfolding handle_append_entries_response
handle_append_entries_response-Honest n m s =
    Ensures-if (not (is_leader n.role) || not (m.term == n.current_term))
      (λ _. ensures (λ d e. refl))
      (λ go.
        Ensures-if (not m.success) (λ _. retry_append-Honest n m)
          (λ _. settle_match-Honest n m s (ground arith)))

become_leader-Honest : (n : Node) → Honest n (become_leader n)
unfolding become_leader
become_leader-Honest n =
    Ensures-if (last_index n == max_uint64) (λ _. ensures (λ d e. refl))
      (λ _.
        Ensures-after (advance_commit _)
          λ a. Ensures-after (broadcast_append _) λ b. ensures (λ d e. cc))

pub start_election-Honest : (n : Node) → Honest n (start_election n)
unfolding start_election
start_election-Honest n =
    Ensures-if (not (is_voter n.membership n.id)) (λ _. ensures (λ d e. refl))
      (λ _.
        Ensures-if (quorum n.membership (λ id. str_eq id n.id) && last_index n == max_uint64)
          (λ _. ensures (λ d e. refl))
          (λ _.
            Ensures-if (quorum (stand n).membership (λ id. has_vote (stand n).votes id))
              (λ _.
                Ensures-after (become_leader (stand n))
                  λ r. ensures (λ d e. cc (never r.1 _ refl d e)))
              (λ _. ensures (λ d e. cc))))
  where
    -- The reply of a candidate that becomes leader at once is dirty or an error.
    never :
        (q x : Reply)
        → ◌≡◌ {A = Reply} x (elim q.error [
          | none ↦ replied true (reset_election_timer ∷ q.effects)
          | some error ↦ refused error
        ])
        → x.dirty ≡ false
        → x.error ≡ none
        → true ≡ false
    never q x is d e = elim (Option-cases q.error) [
      | inl fine ↦ ground arith
      | inr (error, failed) ↦ ground arith
    ]

pub handle_request_vote-Honest :
    (n : Node) (m : Message)
    → (handle_request_vote n m).1.dirty ≡ false
    → (handle_request_vote n m).0.state ≡ n.state
unfolding handle_request_vote
handle_request_vote-Honest n m d = ground arith

pub handle_request_vote_response-Honest :
    (n : Node) (m : Message) → Honest n (handle_request_vote_response n m)
unfolding handle_request_vote_response
handle_request_vote_response-Honest n m =
    Ensures-if (not (is_candidate n.role) || not (m.term == n.current_term) || not m.vote_granted)
      (λ _. ensures (λ d e. refl))
      (λ _.
        Ensures-if (has_vote n.votes m.from) (λ _. ensures (λ d e. refl))
          (λ _. Ensures-after (add_vote _ _) λ votes.
            let k = record n { votes = votes } in
            Ensures-if (not (quorum k.membership (λ id. has_vote k.votes id)))
              (λ _. ensures (λ d e. refl)) (λ _. become_leader-Honest k)))

append_to_each-Leaving : (members : List NodeId) (n : Node) → Leaving n (append_to_each members n)
unfolding append_to_each
append_to_each-Leaving [] n = ensures refl
append_to_each-Leaving (member ∷ members) n =
    Ensures-if (not (str_eq member n.id))
      (λ _.
        Ensures-bind (append_for-Leaving n member)
          λ r k. Ensures-bind (append_to_each-Leaving members r.0) λ q l. ensures (l ∙ k))
      (λ _. append_to_each-Leaving members n)

pub broadcast_append-Leaving : (n : Node) → Leaving n (broadcast_append n)
unfolding broadcast_append
broadcast_append-Leaving n = append_to_each-Leaving n.members n
