-- ===== src/Raft/Soundness/Appending.antt =====
-- raft/node.go: handleAppendEntries on a sound node.
use d_raft.Base.{
  ℕ, ◌+◌, ◌-◌, ◌≤◌, ◌<◌, ◌≡◌, refl, sym, subst, ◌∙◌, Bool, false, ◌||◌, not, List, [], ◌∷◌, arith,
  Returns, returns, Returns-bind, Returns-if, Returns-option, ◌==◌, ltb, u64, max_uint64, length,
  min, str_eq, Bool-cases, inl, inr,
}
use d_raft.Raft.Types.{NodeId, Entry, Message, Node}
use d_raft.Raft.Log.{
  with_log, with_commit, boundary, last_index, entry_at, term_at, refresh_membership,
}
use d_raft.Raft.Commit.{is_follower, is_leader, is_candidate, become_follower}
use d_raft.Raft.Replication.{
  Stored, refused_at, store_entries, follow_commit, store_and_follow, append_as_follower,
  follow_sender, handle_append_entries,
}
use d_raft.Raft.Soundness.Invariant.{
  RoleReady, IsSound, last_index_lem, membership_at_total, refresh_membership_lem,
}
use d_raft.Raft.Soundness.Committing.{become_follower-IsSound}
use d_raft.Raft.Soundness.Applying.{apply_committed_total}
use d_raft.Raft.Soundness.Storing.{Agrees, LogKept}
use d_raft.Raft.Soundness.Matching.{store_entries-LogKept}

-- The node neither leads nor stands for election.
abbrev pub IsIdle : Node → Type 0
IsIdle n = (is_leader n.role ≡ false) × (is_candidate n.role ≡ false)

pub idle-RoleReady : (n : Node) → IsIdle n → RoleReady n
idle-RoleReady n h = ((λ e. cc (h.0)), (λ e. cc (h.1)))

follow_commit_total :
    (n : Node) (dirty : Bool) (m : Message)
    → IsSound n
    → Returns (λ r. IsSound r.0) (follow_commit n dirty m)
unfolding follow_commit
follow_commit_total n dirty m s =
    let reached = min m.leader_commit (last_index n) in
    Returns-if (ltb n.commit_index m.leader_commit)
      (λ more.
        let ahead : n.commit_index < m.leader_commit = ground arith in
        Returns-bind
          (apply_committed_total (with_commit n reached) s.0 s.1.0
            (omega (arith, last_index_lem n s.0.0)) (omega (arith, last_index_lem n s.0.0)))
          λ r a.
            returns (subst IsSound (sym a.0) (s.0, omega (arith, last_index_lem n s.0.0), s.2)))
      (λ _. returns s)

store_and_follow_total :
    (n : Node) (m : Message)
    → IsSound n
    → IsIdle n
    → LogKept n (store_entries n false (m.prev_log_index + 1) m.entries)
    → Returns (λ r. IsSound r.0) (store_and_follow n m)
unfolding store_and_follow
store_and_follow_total n m s idle kept =
    let st = store_entries n false (m.prev_log_index + 1) m.entries in
    Returns-if (not st.complete)
      (λ cut. returns (subst IsSound (sym (kept.incomplete (ground arith))) s))
      (λ _.
        Returns-bind {Good = IsSound}
          (Returns-if st.dirty (λ _. refreshed st kept)
            (λ clean. returns (subst IsSound (sym (kept.clean clean)) s)))
          λ k t. follow_commit_total k st.dirty m t)
  where
    refreshed : (st : Stored) → LogKept n st → Returns IsSound (refresh_membership st.node)
    refreshed st kept =
        let grown = with_log n kept.log in
        subst (λ k. Returns IsSound (refresh_membership k)) (sym kept.node)
          (rw (refresh_membership_lem grown kept.configuration kept.sound) (
            returns (
              kept.sound,
              (s.1.0, s.1.1, kept.committed),
              idle-RoleReady (record grown { membership = kept.configuration }) idle,
            )))

-- A follower of the leader, with a message that agrees with its log.
append_as_follower_total :
    (n : Node) (m : Message)
    → IsSound n
    → IsIdle n
    → m.prev_log_index < u64
    → Agrees n (m.prev_log_index + 1) m.entries
    → Returns (λ r. IsSound r.0) (append_as_follower n m)
unfolding append_as_follower
append_as_follower_total n m s idle range agree =
    Returns-if
      (ltb m.prev_log_index (boundary n) || not (term_at n m.prev_log_index == m.prev_log_term))
      (λ _. returns s)
      (λ matched.
        let past : boundary n ≤ m.prev_log_index = ground arith in
        Returns-if (ltb (max_uint64 - m.prev_log_index) (length m.entries)) (λ _. returns s)
          (λ fits.
            let (c, at, before, _) = membership_at_total n m.prev_log_index s.0 past in
            rw at (
              Returns-option
                (refused_at n.members m.term (m.prev_log_index + 1) m.prev_log_term c m.entries)
                (λ checked. store_and_follow_total n m s idle (
                  store_entries-LogKept n n.membership s.0 s.1.2 m.entries
                    (m.prev_log_index - boundary n) (m.prev_log_index + 1) m.term m.prev_log_term c
                    false (omega arith) before checked agree (ground arith)))
                (λ _ _. returns s))))

pub follow_sender-IsSound : (n : Node) (m : Message) → IsSound n → IsSound (follow_sender n m)
unfolding follow_sender
follow_sender-IsSound n m s =
    elim (Bool-cases (not (is_follower n.role) || not (str_eq n.leader_id m.from))) [
      | inl new ↦ rw new (become_follower-IsSound n m.term m.from s)
      | inr old ↦ rw old s
    ]

pub follow_sender-IsIdle : (n : Node) (m : Message) → IsIdle (follow_sender n m)
unfolding follow_sender become_follower is_follower is_leader is_candidate
follow_sender-IsIdle n m = ground arith

-- The state alone decides whether a message agrees with a node.
Agrees-transfer :
    (a b : Node) (index : ℕ) (es : List Entry)
    → ((i : ℕ) → entry_at b i ≡ entry_at a i)
    → ((i : ℕ) → term_at b i ≡ term_at a i)
    → b.commit_index ≡ a.commit_index
    → boundary b ≡ boundary a
    → Agrees a index es
    → Agrees b index es
Agrees-transfer a b index [] entry term commit low agree = tt
Agrees-transfer a b index (e ∷ es) entry term commit low agree = (
  (λ k h. agree.0 k (sym (entry index) ∙ h)),
  (λ h i. term index ∙ agree.1 (omega arith) (omega arith)),
  Agrees-transfer a b (index + 1) es entry term commit low agree.2,
)

become_follower_state :
    (n : Node) (term : ℕ) (leader_id : NodeId) (i : ℕ)
    → (entry_at (become_follower n term leader_id) i ≡ entry_at n i)
      × (term_at (become_follower n term leader_id) i ≡ term_at n i)
      × ((become_follower n term leader_id).commit_index ≡ n.commit_index)
      × (boundary (become_follower n term leader_id) ≡ boundary n)
unfolding become_follower entry_at term_at last_index
become_follower_state n term leader_id i = elim (Bool-cases (ltb n.current_term term)) [
  | inl new ↦ rw new (refl, refl, refl, refl)
  | inr old ↦ rw old (refl, refl, refl, refl)
]

pub become_follower-Agrees :
    (n : Node) (term : ℕ) (leader_id : NodeId) (index : ℕ) (es : List Entry)
    → Agrees n index es
    → Agrees (become_follower n term leader_id) index es
become_follower-Agrees n term leader_id index es a =
    Agrees-transfer n (become_follower n term leader_id) index es
      (λ i. (become_follower_state n term leader_id i).0)
      (λ i. (become_follower_state n term leader_id i).1)
      (become_follower_state n term leader_id 0).2 (become_follower_state n term leader_id 0).3 a

pub follow_sender-Agrees :
    (n : Node) (m : Message) (index : ℕ) (es : List Entry)
    → Agrees n index es
    → Agrees (follow_sender n m) index es
unfolding follow_sender
follow_sender-Agrees n m index es a =
    elim (Bool-cases (not (is_follower n.role) || not (str_eq n.leader_id m.from))) [
      | inl new ↦ rw new (become_follower-Agrees n m.term m.from index es a)
      | inr old ↦ rw old a
    ]

pub handle_append_entries_total :
    (n : Node) (m : Message)
    → IsSound n
    → m.prev_log_index < u64
    → Agrees n (m.prev_log_index + 1) m.entries
    → Returns (λ r. IsSound r.0) (handle_append_entries n m)
unfolding handle_append_entries
handle_append_entries_total n m s range agree =
    Returns-if (ltb m.term n.current_term) (λ _. returns s)
      (λ _.
        append_as_follower_total (follow_sender n m) m (follow_sender-IsSound n m s)
          (follow_sender-IsIdle n m) range
          (follow_sender-Agrees n m (m.prev_log_index + 1) m.entries agree))
