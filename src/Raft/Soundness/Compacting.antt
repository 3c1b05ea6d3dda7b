-- ===== src/Raft/Soundness/Compacting.antt =====
-- raft/node.go: log compaction on a sound node.
use d_raft.Base.{
  ℕ, ◌+◌, ◌-◌, ◌≤◌, ◌<◌, ◌≡◌, sym, ap, subst, ◌∙◌, inl, inr, true, false, ◌||◌, List, [], arith, ok,
  Returns, returns, Returns-if, if◌then◌else◌, ◌==◌, ltb, leb, max_uint64, length, length-drop,
  take, drop, drop_all, Bool-cases,
}
use d_raft.Raft.Types.{NodeId, Entry, Membership, Node}
use d_raft.Raft.Membership.{membership_is_zero, stable_membership, validate_membership}
use d_raft.Raft.Log.{boundary, term_at, entries_from}
use d_raft.Raft.Step.{compacted, compact}
use d_raft.Raft.Soundness.Replay.{Numbered, Numbered-drop, replay, replay-valid}
use d_raft.Raft.Soundness.Invariant.{
  LogSound, IsSound, base_of, base_of_snapshot, membership_at_total, refresh_membership_lem,
  entries_from-drop,
}

valid_not_zero :
    (c : Membership) (u : List NodeId)
    → validate_membership c u ≡ true
    → membership_is_zero c ≡ false
unfolding validate_membership membership_is_zero
valid_not_zero c u h = ground arith

-- The compacted log is the rest of the log.
compacted_log :
    (n : Node) (index : ℕ)
    → LogSound n
    → boundary n ≤ index
    → index ≤ boundary n + length n.log
    → (if ltb index max_uint64 then entries_from n (index + 1) else [])
      ≡ drop (index - boundary n) n.log
compacted_log n index s low high = elim (Bool-cases (ltb index max_uint64)) [
  | inl inside ↦ rw inside (entries_from-drop n index s.0 low)
  | inr last ↦ rw last (sym (drop_all (index - boundary n) n.log (ground (arith, s.0))))
]

-- The compacted node, with a log that is given by an equation.
abbrev cut_at : Node → ℕ → List ℕ → Membership → List Entry → Node
cut_at n index bytes c log = record n {
  state = record {
    hard_state = n.state.hard_state;
    snapshot = record {
      last_included_index = index;
      last_included_term = term_at n index;
      members = n.members;
      bytes = bytes;
      membership = c;
    };
    log = log;
  };
}

-- A snapshot of an applied prefix, under the configuration there, keeps a node sound.
cut_at-IsSound :
    (n : Node) (index : ℕ) (bytes : List ℕ) (c : Membership)
    → IsSound n
    → boundary n < index
    → index ≤ n.applied
    → validate_membership c n.members ≡ true
    → replay n.members c (drop (index - boundary n) n.log) ≡ ok n.membership
    → IsSound (cut_at n index bytes c (drop (index - boundary n) n.log))
cut_at-IsSound n index bytes c s low below valid after =
    let base : base_of (cut_at n index bytes c []).snapshot n.initial_membership ≡ c =
      base_of_snapshot (cut_at n index bytes c []).snapshot n.initial_membership (omega arith)
      ∙ ap (λ b. if b then stable_membership n.members [] else c)
          (valid_not_zero c n.members valid) in
    let rest = length-drop {0} (index - boundary n) n.log in
    (
      (
        omega (arith, rest, s.0.0, s.1.1, s.1.2),
        subst (λ (j : ℕ). Numbered j (drop (index - boundary n) n.log)) (omega arith)
            (Numbered-drop (boundary n) (index - boundary n) n.log s.0.1
              (omega (arith, s.1.1, s.1.2))),
        subst (λ b. validate_membership b n.members ≡ true) (sym base) valid,
        ap (λ b. replay n.members b (drop (index - boundary n) n.log)) base ∙ after,
      ),
      (below, s.1.1, omega (arith, rest, s.1.1, s.1.2)),
      s.2,
    )

pub compact_total :
    (n : Node) (index : ℕ) (bytes : List ℕ)
    → IsSound n
    → Returns (λ r. IsSound r.0) (compact n index bytes)
unfolding compact compacted
compact_total n index bytes s =
    Returns-if
      (index == 0 || leb index (boundary n) || ltb n.applied index || ltb n.commit_index index)
      (λ _. returns s)
      (λ inside.
        Returns-if (term_at n index == 0) (λ _. returns s)
          (λ _.
            let low : boundary n < index = ground arith in
            let below : index ≤ n.applied = ground arith in
            let high : index ≤ boundary n + length n.log = omega (arith, s.1.1, s.1.2) in
            let (c, at, before, after) = membership_at_total n index s.0 (omega arith) in
            let valid =
              replay-valid n.members (base_of n.snapshot n.initial_membership) c
                (take (index - boundary n) n.log) s.0.2 before in
            let kept : IsSound (compacted n index bytes c) =
              subst (λ l. IsSound (cut_at n index bytes c l))
                (sym (compacted_log n index s.0 (omega arith) high))
                (cut_at-IsSound n index bytes c s low below valid after) in
            rw (at, refresh_membership_lem (compacted n index bytes c) n.membership kept.0)
              (returns kept)))
