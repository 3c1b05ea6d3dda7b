-- ===== src/Raft/Soundness/Following.antt =====
-- raft/node.go: the dirty flag of handleAppendEntries and of handleInstallSnapshot.
use d_raft.Base.{
  ◌+◌, ◌-◌, ◌<◌, ◌≤◌, ◌≡◌, refl, ap, subst, Bool, false, ◌||◌, not, none, [], arith, Run, Ensures,
  ensures, Ensures-bind, Ensures-if, Ensures-after, Ensures-option, u64, max_uint64, ltb, leb, ◌==◌,
  length, if◌then◌else◌,
}
use d_raft.Raft.Types.{Node, Message}
use d_raft.Raft.Membership.{membership_is_zero, stable_membership}
use d_raft.Raft.Log.{boundary, term_at, refresh_membership, membership_at}
use d_raft.Raft.Commit.{become_follower, apply_committed}
use d_raft.Raft.Election.{Reply}
use d_raft.Raft.Replication.{
  refused_at, store_entries, follow_commit, store_and_follow, append_as_follower, follow_sender,
  handle_append_entries, snapshot_malformed, kept_suffix, suffix_fits, install_as_follower,
  handle_install_snapshot,
}
use d_raft.Raft.Soundness.Invariant.{IsSound, membership_at_total}
use d_raft.Raft.Soundness.Storing.{Agrees, LogKept}
use d_raft.Raft.Soundness.Matching.{store_entries-LogKept}
use d_raft.Raft.Soundness.Appending.{follow_sender-IsSound, follow_sender-Agrees}
use d_raft.Raft.Soundness.Writing.{Honest}

follow_commit-Honest :
    (n k : Node) (dirty : Bool) (m : Message)
    → (dirty ≡ false → k.state ≡ n.state)
    → Honest n (follow_commit k dirty m)
unfolding follow_commit
follow_commit-Honest n k dirty m same =
    Ensures-if (ltb k.commit_index m.leader_commit)
      (λ _. Ensures-after (apply_committed _) λ r. ensures (λ d e. cc))
      (λ _. ensures (λ d e. same d))

store_and_follow-Honest :
    (n : Node) (m : Message)
    → LogKept n (store_entries n false (m.prev_log_index + 1) m.entries)
    → Honest n (store_and_follow n m)
unfolding store_and_follow refresh_membership
store_and_follow-Honest n m kept =
    let st = store_entries n false (m.prev_log_index + 1) m.entries in
    Ensures-if (not st.complete) (λ _. ensures (λ d e. ap (λ k. k.state) (kept.clean d)))
      (λ _.
        Ensures-bind {Good = λ k. st.dirty ≡ false → k.state ≡ n.state}
          (Ensures-if st.dirty
            (λ t. Ensures-after (membership_at _ _) λ c. ensures (λ d. cc (t, d)))
            (λ _. ensures (λ d. ap (λ k. k.state) (kept.clean d))))
          λ k same. follow_commit-Honest n k st.dirty m same)

append_as_follower-Honest :
    (n : Node) (m : Message)
    → IsSound n
    → m.prev_log_index < u64
    → Agrees n (m.prev_log_index + 1) m.entries
    → Honest n (append_as_follower n m)
unfolding append_as_follower
append_as_follower-Honest n m s range agree =
    Ensures-if
      (ltb m.prev_log_index (boundary n) || not (term_at n m.prev_log_index == m.prev_log_term))
      (λ _. ensures (λ d e. refl))
      (λ matched.
        let past : boundary n ≤ m.prev_log_index = ground arith in
        Ensures-if (ltb (max_uint64 - m.prev_log_index) (length m.entries))
          (λ _. ensures (λ d e. refl))
          (λ fits.
            let (c, at, before, _) = membership_at_total n m.prev_log_index s.0 past in
            rw at (
              Ensures-option
                (refused_at n.members m.term (m.prev_log_index + 1) m.prev_log_term c m.entries)
                (λ checked. store_and_follow-Honest n m (
                  store_entries-LogKept n n.membership s.0 s.1.2 m.entries
                    (m.prev_log_index - boundary n) (m.prev_log_index + 1) m.term m.prev_log_term c
                    false (omega arith) before checked agree (ground arith)))
                (λ _ _. ensures (λ d e. refl)))))

-- A message of no later term leaves the term, and so the state.
follow_sender_state :
    (n : Node) (m : Message)
    → ltb n.current_term m.term ≡ false
    → (follow_sender n m).state ≡ n.state
unfolding follow_sender become_follower
follow_sender_state n m h = ground arith

Honest-follow_sender :
    (n : Node) (m : Message) (r : Run (Node × Reply))
    → ltb n.current_term m.term ≡ false
    → Honest (follow_sender n m) r
    → Honest n r
Honest-follow_sender n m r h honest =
    subst (λ st. Ensures (λ q. q.1.dirty ≡ false → q.1.error ≡ none → q.0.state ≡ st) r)
      (follow_sender_state n m h) honest

pub handle_append_entries-Honest :
    (n : Node) (m : Message)
    → IsSound n
    → m.prev_log_index < u64
    → Agrees n (m.prev_log_index + 1) m.entries
    → ltb n.current_term m.term ≡ false
    → Honest n (handle_append_entries n m)
unfolding handle_append_entries
handle_append_entries-Honest n m s range agree old =
    Ensures-if (ltb m.term n.current_term) (λ _. ensures (λ d e. refl))
      (λ _. Honest-follow_sender n m (append_as_follower (follow_sender n m) m) old (
        append_as_follower-Honest (follow_sender n m) m (follow_sender-IsSound n m s) range
          (follow_sender-Agrees n m (m.prev_log_index + 1) m.entries agree)))

install_as_follower-Honest : (n : Node) (m : Message) → Honest n (install_as_follower n m)
unfolding install_as_follower
install_as_follower-Honest n m =
    let snap = m.snapshot in
    let c =
      if membership_is_zero snap.membership
      then stable_membership snap.members []
      else snap.membership in
    Ensures-if (snapshot_malformed n m c) (λ _. ensures (λ d e. refl))
      (λ _.
        Ensures-if (leb snap.last_included_index n.commit_index) (λ _. ensures (λ d e. refl))
          (λ _.
            Ensures-if (not (suffix_fits n.members c (kept_suffix n snap)))
              (λ _. ensures (λ d e. refl))
              (λ _. Ensures-after (refresh_membership _) λ k. ensures (λ d e. cc))))

pub handle_install_snapshot-Honest :
    (n : Node) (m : Message)
    → ltb n.current_term m.term ≡ false
    → Honest n (handle_install_snapshot n m)
unfolding handle_install_snapshot
handle_install_snapshot-Honest n m old =
    Ensures-if (ltb m.term n.current_term) (λ _. ensures (λ d e. refl))
      (λ _.
        Honest-follow_sender n m (install_as_follower (follow_sender n m) m) old
          (install_as_follower-Honest (follow_sender n m) m))
