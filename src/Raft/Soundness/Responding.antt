-- ===== src/Raft/Soundness/Responding.antt =====
-- raft/node.go: the responses that a leader receives, on a sound node.
use d_raft.Base.{
  ◌≡◌, true, ◌||◌, not, arith, Returns, returns, Returns-bind, Returns-if, ◌==◌, ltb, map_get,
  map_set-Returns, min,
}
use d_raft.Raft.Types.{Message, Node}
use d_raft.Raft.Log.{last_index, next_index_after}
use d_raft.Raft.Commit.{is_leader}
use d_raft.Raft.Replication.{
  record_match, settle_match, back_off, retry_append, handle_install_snapshot_response,
  handle_append_entries_response,
}
use d_raft.Raft.Soundness.Invariant.{IsSound}
use d_raft.Raft.Soundness.Committing.{advance_commit_total, Advanced-IsSound}
use d_raft.Raft.Soundness.Sending.{append_for_total, Sequenced-IsSound}

pub record_match_total :
    (n : Node) (m : Message)
    → IsSound n
    → is_leader n.role ≡ true
    → Returns IsSound (record_match n m)
unfolding record_match
record_match_total n m s lead =
    let (matches, nexts, sequences) = s.2.0 lead in
    Returns-if (ltb (map_get n.match_index m.from) m.match_index)
      (λ _.
        Returns-bind
          (map_set-Returns n.match_index m.from (min m.match_index (last_index n)) matches)
          λ match p.
            Returns-bind
              (map_set-Returns n.next_index m.from
                (next_index_after (min m.match_index (last_index n))) nexts)
              λ next q. returns (s.0, s.1, ((λ _. (p, q, sequences)), s.2.1)))
      (λ _. returns s)

settle_match_total :
    (n : Node) (m : Message)
    → IsSound n
    → is_leader n.role ≡ true
    → Returns (λ r. IsSound r.0) (settle_match n m)
unfolding settle_match
settle_match_total n m s lead = Returns-bind (record_match_total n m s lead) λ k t.
    Returns-bind (advance_commit_total k t) λ r a.
      let (kept, _) = Advanced-IsSound k r t a in
      Returns-if (not (is_leader r.0.role)) (λ _. returns kept)
        (λ still.
          Returns-if (ltb (map_get r.0.match_index m.from) (last_index r.0))
            (λ _.
              Returns-bind (append_for_total r.0 m.from (kept.2.0 (ground arith)).2)
                λ q l. returns (Sequenced-IsSound r.0 q.0 kept l))
            (λ _. returns kept))

retry_append_total :
    (n : Node) (m : Message)
    → IsSound n
    → is_leader n.role ≡ true
    → Returns (λ r. IsSound r.0) (retry_append n m)
unfolding retry_append
retry_append_total n m s lead =
    let (matches, nexts, sequences) = s.2.0 lead in
    let hint = back_off (map_get n.next_index m.from) m.reject_hint in
    Returns-if (not (m.sequence == map_get n.append_sequence m.from)) (λ _. returns s)
      (λ _. Returns-bind (map_set-Returns n.next_index m.from hint nexts) λ next q.
        let n' = record n { next_index = next } in
        let sound : IsSound n' = (s.0, s.1, ((λ _. (matches, q, sequences)), s.2.1)) in
        Returns-bind (append_for_total n' m.from sequences)
          λ r l. returns (Sequenced-IsSound n' r.0 sound l))

pub handle_install_snapshot_response_total :
    (n : Node) (m : Message)
    → IsSound n
    → Returns (λ r. IsSound r.0) (handle_install_snapshot_response n m)
unfolding handle_install_snapshot_response
handle_install_snapshot_response_total n m s =
    Returns-if (not (is_leader n.role) || not (m.term == n.current_term) || not m.success)
      (λ _. returns s) (λ go. settle_match_total n m s (ground arith))

pub handle_append_entries_response_total :
    (n : Node) (m : Message)
    → IsSound n
    → Returns (λ r. IsSound r.0) (handle_append_entries_response n m)
unfolding handle_append_entries_response
handle_append_entries_response_total n m s =
    Returns-if (not (is_leader n.role) || not (m.term == n.current_term)) (λ _. returns s)
      (λ go.
        let lead : is_leader n.role ≡ true = ground arith in
        Returns-if (not m.success) (λ _. retry_append_total n m s lead)
          (λ _. settle_match_total n m s lead))
