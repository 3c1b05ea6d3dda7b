-- ===== src/Raft/Soundness/Changing.antt =====
-- raft/node.go: proposals and membership changes on a sound node.
use d_raft.Base.{
  ℕ, ◌+◌, ◌<◌, ◌≡◌, ◌≢◌, refl, ap, ◌∙◌, true, false, ◌||◌, not, List, [], ◌∷◌, ◌++◌, arith, Returns,
  returns, Returns-bind, Returns-if, Returns-option, ◌==◌, u64, max_uint64, length, map_set-Returns,
  add_u64,
}
use d_raft.Raft.Types.{
  NodeId, Role, EntryType, entry_command, Entry, Membership, zero_membership, Node,
}
use d_raft.Raft.Membership.{
  is_joint, is_voter, is_config, stable_membership, validate_membership, memberships_equal,
  transition_membership,
}
use d_raft.Raft.Log.{with_log, boundary, last_index, has_uncommitted_configuration}
use d_raft.Raft.Commit.{is_leader, is_candidate}
use d_raft.Raft.Step.{
  membership_entry, append_membership_entry, begin_change, finalize_change, append_command, propose,
}
use d_raft.Raft.Soundness.Replay.{replay_one, replay_plain}
use d_raft.Raft.Soundness.Invariant.{
  LogSound, IsSound, last_index_lem, LogSound-snoc, length_snoc, refresh_membership_lem,
}
use d_raft.Raft.Soundness.Committing.{advance_commit_total, Advanced-IsSound}
use d_raft.Raft.Soundness.Sending.{broadcast_append_total, Sequenced-IsSound}

leader_no_candidate : (r : Role) → is_leader r ≡ true → is_candidate r ≡ false
unfolding is_leader is_candidate
leader_no_candidate r h = ground arith

membership_entry_lem :
    (n : Node) (type : EntryType) (c : Membership)
    → LogSound n
    → last_index n ≢ max_uint64
    → (boundary n + length n.log + 1 < u64)
      × ((membership_entry n type c).index ≡ boundary n + length n.log + 1)
unfolding membership_entry
membership_entry_lem n type c s free =
    (omega (arith, last_index_lem n s.0), omega (arith, last_index_lem n s.0))

-- A leader that may append an entry appends a configuration entry, commits what it can, and sends
-- if it still leads.
append_membership_entry_total :
    (n : Node) (type : EntryType) (c : Membership)
    → IsSound n
    → is_leader n.role ≡ true
    → last_index n ≢ max_uint64
    → Returns (λ r. IsSound r.0) (append_membership_entry n type c)
unfolding append_membership_entry
append_membership_entry_total n type c s lead free =
    let entry = membership_entry n type c in
    let (room, at) = membership_entry_lem n type c s.0 free in
    Returns-option (transition_membership n.membership entry n.members) (λ _. returns s)
      (λ c' follows.
        let grown = with_log n (n.log ++ entry ∷ []) in
        let sound =
          LogSound-snoc n entry c' s.0 room (omega (arith, at))
            (replay_one n.members n.membership c' entry follows) in
        let (matches, nexts, sequences) = s.2.0 lead in
        rw (refresh_membership_lem grown c' sound) (
          Returns-bind (map_set-Returns n.match_index n.id entry.index matches) λ match p.
            let k = record grown { membership = c'; match_index = match } in
            let kept : IsSound k = (
              sound,
              (s.1.0, s.1.1, omega (arith, s.1.2, length_snoc {0} n.log entry)),
              ((λ _. (p, nexts, sequences)), (λ e. cc (leader_no_candidate n.role lead))),
            ) in
            Returns-bind (advance_commit_total k kept) λ r a.
              let (after, _) = Advanced-IsSound k r kept a in
              Returns-if (is_leader r.0.role)
                (λ still.
                  Returns-bind (broadcast_append_total r.0 (after.2.0 still).2)
                    λ t q. returns (Sequenced-IsSound r.0 t.0 after q))
                (λ _. returns after)))

pub begin_change_total :
    (n : Node) (voters learners : List NodeId)
    → IsSound n
    → Returns (λ r. IsSound r.0) (begin_change n voters learners)
unfolding begin_change
begin_change_total n voters learners s =
    let target = stable_membership voters learners in
    Returns-if (not (is_leader n.role)) (λ _. returns s)
      (λ lead.
        Returns-if (not (is_voter n.membership n.id)) (λ _. returns s)
          (λ _.
            Returns-if (is_joint n.membership || has_uncommitted_configuration n) (λ _. returns s)
              (λ _.
                Returns-if (last_index n == max_uint64) (λ _. returns s)
                  (λ free.
                    Returns-if
                      (not (validate_membership target n.members)
                        || memberships_equal target n.membership)
                      (λ _. returns s)
                      (λ _. append_membership_entry_total n _ _ s (ground arith) (ground arith))))))

pub finalize_change_total : (n : Node) → IsSound n → Returns (λ r. IsSound r.0) (finalize_change n)
unfolding finalize_change
finalize_change_total n s =
    Returns-if (not (is_leader n.role)) (λ _. returns s)
      (λ lead.
        Returns-if
          (not (is_joint n.membership)
            || has_uncommitted_configuration n
            || not (n.commit_index == last_index n))
          (λ _. returns s)
          (λ _.
            Returns-if (last_index n == max_uint64) (λ _. returns s)
              (λ free. append_membership_entry_total n _ _ s (ground arith) (ground arith))))

append_command_total :
    (n : Node) (bytes : List ℕ)
    → IsSound n
    → is_leader n.role ≡ true
    → is_voter n.membership n.id ≡ true
    → last_index n ≢ max_uint64
    → Returns (λ r. IsSound r.0) (append_command n bytes)
unfolding append_command is_config
append_command_total n bytes s lead voter free =
    let entry : Entry = record {
      index = add_u64 (last_index n) 1;
      term = n.current_term;
      type = entry_command;
      bytes = bytes;
      membership = zero_membership;
    } in
    let (matches, nexts, sequences) = s.2.0 lead in
    Returns-bind (map_set-Returns n.match_index n.id entry.index matches) λ match p.
      let k = record n {
        state = record (n.state) { log = n.log ++ entry ∷ [] };
        match_index = match;
      } in
      let kept : IsSound k = (
        LogSound-snoc n entry n.membership s.0 (omega (arith, last_index_lem n s.0.0))
            (omega (arith, last_index_lem n s.0.0))
            (replay_plain n.members n.membership entry refl),
        (s.1.0, s.1.1, omega (arith, s.1.2, length_snoc {0} n.log entry)),
        ((λ _. (p, nexts, sequences)), s.2.1),
      ) in
      Returns-bind (advance_commit_total k kept) λ r a.
        let (after, role) = Advanced-IsSound k r kept a in
        Returns-bind (broadcast_append_total r.0 (after.2.0 (ap is_leader (role voter) ∙ lead)).2)
          λ t q. returns (Sequenced-IsSound r.0 t.0 after q)

pub propose_total :
    (n : Node) (bytes : List ℕ) → IsSound n → Returns (λ r. IsSound r.0) (propose n bytes)
unfolding propose
propose_total n bytes s =
    Returns-if (not (is_leader n.role)) (λ _. returns s)
      (λ lead.
        Returns-if (not (is_voter n.membership n.id)) (λ _. returns s)
          (λ voter.
            Returns-if (has_uncommitted_configuration n) (λ _. returns s)
              (λ _.
                Returns-if (last_index n == max_uint64) (λ _. returns s)
                  (λ free.
                    append_command_total n bytes s (ground arith) (ground arith) (ground arith)))))
