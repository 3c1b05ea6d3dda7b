-- ===== src/Raft/Safety/Terms/Replies.antt =====
-- raft/node.go: the handlers of appends, snapshots and responses, for Terms.
use d_raft.Base.{
  ℕ, ◌+◌, ◌≡◌, refl, Bool, true, false, ◌||◌, not, List, [], ◌∷◌, arith, Ensures, ensures,
  Ensures-bind, Ensures-map, Ensures-if, Ensures-option, Ensures-after, map_set, map_get,
  max_uint64, ◌-◌, ltb, leb, ◌==◌, length, min, if◌then◌else◌,
}
use d_raft.Raft.Types.{Node, Entry, Message}
use d_raft.Raft.Membership.{membership_is_zero, stable_membership}
use d_raft.Raft.Log.{with_commit, boundary, last_index, term_at, truncate_from, membership_at}
use d_raft.Raft.Commit.{become_follower, is_leader}
use d_raft.Raft.Replication.{
  extend_log, place_entry, store_round, store_entries, follow_commit, store_and_follow, refused_at,
  append_as_follower, follow_sender, handle_append_entries, kept_suffix, adopt_snapshot,
  snapshot_malformed, suffix_fits, install_as_follower, handle_install_snapshot, record_match,
  settle_match, retry_append, handle_install_snapshot_response, handle_append_entries_response,
}
use d_raft.Raft.Safety.Terms.{
  Keeps, Keeps-trans, Keeping, apply_committed-Keeping, advance_commit-Keeping, append_for-Keeping,
  refresh_membership-Keeping,
}

truncate_from-Keeps : (n : Node) (index : ℕ) → Keeps n (truncate_from n index)
unfolding truncate_from
truncate_from-Keeps n index = ground arith

extend_log-Keeps : (n : Node) (index : ℕ) (e : Entry) → Keeps n (extend_log n index e).0
unfolding extend_log
extend_log-Keeps n index e = ground arith

place_entry-Keeps : (n : Node) (index : ℕ) (e : Entry) → Keeps n (place_entry n index e).0
unfolding place_entry
place_entry-Keeps n index e = ground (
  arith,
  extend_log-Keeps n index e,
  extend_log-Keeps (truncate_from n index) index e,
  truncate_from-Keeps n index,
)

-- The second loop of `handleAppendEntries` writes the log alone.
store_entries-Keeps :
    (n : Node) (dirty : Bool) (index : ℕ) (es : List Entry)
    → Keeps n (store_entries n dirty index es).node
unfolding store_entries store_round
store_entries-Keeps n dirty index [] = (refl, refl)
store_entries-Keeps n dirty index (e ∷ es) =
    let m = (place_entry n index e).0 in
    ground (
      arith,
      place_entry-Keeps n index e,
      store_entries-Keeps m dirty (index + 1) es,
      store_entries-Keeps m true (index + 1) es,
    )

follow_commit-Keeping :
    (n : Node) (dirty : Bool) (m : Message) → Keeping n (follow_commit n dirty m)
unfolding follow_commit
follow_commit-Keeping n dirty m =
    Ensures-if (ltb n.commit_index m.leader_commit)
      (λ _.
        Ensures-bind (apply_committed-Keeping (with_commit n (min m.leader_commit (last_index n))))
          λ r k. ensures k)
      (λ _. ensures (refl, refl))

store_and_follow-Keeping : (n : Node) (m : Message) → Keeping n (store_and_follow n m)
unfolding store_and_follow
store_and_follow-Keeping n m =
    let stored = store_entries n false (m.prev_log_index + 1) m.entries in
    let kept = store_entries-Keeps n false (m.prev_log_index + 1) m.entries in
    Ensures-if (not stored.complete) (λ _. ensures kept)
      (λ _.
        Ensures-bind {Good = λ k. Keeps stored.node k}
          (Ensures-if stored.dirty (λ _. refresh_membership-Keeping stored.node)
            (λ _. ensures (refl, refl)))
          λ k l.
            Ensures-map (follow_commit-Keeping k stored.dirty m)
              λ r o. Keeps-trans n k r.0 (Keeps-trans n stored.node k kept l) o)

append_as_follower-Keeping : (n : Node) (m : Message) → Keeping n (append_as_follower n m)
unfolding append_as_follower
append_as_follower-Keeping n m =
    Ensures-if
      (ltb m.prev_log_index (boundary n) || not (term_at n m.prev_log_index == m.prev_log_term))
      (λ _. ensures (refl, refl))
      (λ _.
        Ensures-if (ltb (max_uint64 - m.prev_log_index) (length m.entries))
          (λ _. ensures (refl, refl))
          (λ _. Ensures-after (membership_at n m.prev_log_index) λ membership.
            Ensures-option
              (refused_at n.members m.term (m.prev_log_index + 1) m.prev_log_term membership
                m.entries)
              (λ _. store_and_follow-Keeping n m) (λ index _. ensures (refl, refl))))

install_as_follower-Keeping : (n : Node) (m : Message) → Keeping n (install_as_follower n m)
unfolding install_as_follower adopt_snapshot
install_as_follower-Keeping n m =
    let s = m.snapshot in
    let membership =
      if membership_is_zero s.membership then stable_membership s.members [] else s.membership in
    Ensures-if (snapshot_malformed n m membership) (λ _. ensures (refl, refl))
      (λ _.
        Ensures-if (leb s.last_included_index n.commit_index) (λ _. ensures (refl, refl))
          (λ _.
            Ensures-if (not (suffix_fits n.members membership (kept_suffix n s)))
              (λ _. ensures (refl, refl))
              (λ _.
                Ensures-bind (refresh_membership-Keeping (adopt_snapshot n s (kept_suffix n s)))
                  λ k l. ensures l)))

record_match-Keeping : (n : Node) (m : Message) → Ensures (λ k. Keeps n k) (record_match n m)
unfolding record_match
record_match-Keeping n m =
    Ensures-if (ltb (map_get n.match_index m.from) m.match_index)
      (λ _.
        Ensures-after (map_set n.match_index m.from (min m.match_index (last_index n)))
          λ match. Ensures-after (map_set n.next_index m.from _) λ next. ensures (refl, refl))
      (λ _. ensures (refl, refl))

settle_match-Keeping : (n : Node) (m : Message) → Keeping n (settle_match n m)
unfolding settle_match
settle_match-Keeping n m = Ensures-bind (record_match-Keeping n m) λ k l.
    Ensures-bind (advance_commit-Keeping k) λ r o.
      let both = Keeps-trans n k r.0 l o in
      Ensures-if (not (is_leader r.0.role)) (λ _. ensures both)
        (λ _.
          Ensures-if (ltb (map_get r.0.match_index m.from) (last_index r.0))
            (λ _.
              Ensures-bind (append_for-Keeping r.0 m.from)
                λ s p. ensures (Keeps-trans n r.0 s.0 both p))
            (λ _. ensures both))

retry_append-Keeping : (n : Node) (m : Message) → Keeping n (retry_append n m)
unfolding retry_append
retry_append-Keeping n m =
    Ensures-if (not (m.sequence == map_get n.append_sequence m.from)) (λ _. ensures (refl, refl))
      (λ _. Ensures-after (map_set n.next_index m.from _) λ next.
        Ensures-bind (append_for-Keeping (record n { next_index = next }) m.from) λ r k. ensures k)

pub handle_install_snapshot_response-Keeping :
    (n : Node) (m : Message) → Keeping n (handle_install_snapshot_response n m)
unfolding handle_install_snapshot_response
handle_install_snapshot_response-Keeping n m =
    Ensures-if (not (is_leader n.role) || not (m.term == n.current_term) || not m.success)
      (λ _. ensures (refl, refl)) (λ _. settle_match-Keeping n m)

pub handle_append_entries_response-Keeping :
    (n : Node) (m : Message) → Keeping n (handle_append_entries_response n m)
unfolding handle_append_entries_response
handle_append_entries_response-Keeping n m =
    Ensures-if (not (is_leader n.role) || not (m.term == n.current_term))
      (λ _. ensures (refl, refl))
      (λ _.
        Ensures-if (not m.success) (λ _. retry_append-Keeping n m) (λ _. settle_match-Keeping n m))

-- A message of the node's own term makes it a follower in that term.
follow_sender-Keeps :
    (n : Node) (m : Message) → ltb n.current_term m.term ≡ false → Keeps n (follow_sender n m)
unfolding follow_sender become_follower
follow_sender-Keeps n m e = ground arith

-- The two handlers of a leader's messages are run on a message whose term is not above the node's.
pub handle_append_entries-Keeping :
    (n : Node) (m : Message)
    → ltb n.current_term m.term ≡ false
    → Keeping n (handle_append_entries n m)
unfolding handle_append_entries
handle_append_entries-Keeping n m e =
    Ensures-if (ltb m.term n.current_term) (λ _. ensures (refl, refl))
      (λ _.
        Ensures-map (append_as_follower-Keeping (follow_sender n m) m)
          λ r k. Keeps-trans n (follow_sender n m) r.0 (follow_sender-Keeps n m e) k)

pub handle_install_snapshot-Keeping :
    (n : Node) (m : Message)
    → ltb n.current_term m.term ≡ false
    → Keeping n (handle_install_snapshot n m)
unfolding handle_install_snapshot
handle_install_snapshot-Keeping n m e =
    Ensures-if (ltb m.term n.current_term) (λ _. ensures (refl, refl))
      (λ _.
        Ensures-map (install_as_follower-Keeping (follow_sender n m) m)
          λ r k. Keeps-trans n (follow_sender n m) r.0 (follow_sender-Keeps n m e) k)
