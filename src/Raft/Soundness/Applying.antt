-- ===== src/Raft/Soundness/Applying.antt =====
-- raft/node.go: applyCommitted on a sound node.
use d_raft.Base.{
  u64, get_elem?, get_elem?_total, drop-suc, take, drop, some, ◌∷◌, ◌∙◌, ℕ, zero, suc, ◌+◌, ◌-◌,
  ◌≤◌, ◌<◌, ◌≡◌, refl, sym, ap, false, List, [], arith, Returns, returns, Returns-bind, length,
  is_empty,
}
use d_raft.Raft.Types.{Entry, Effect, apply, Node}
use d_raft.Raft.Log.{boundary, entry_at}
use d_raft.Raft.Commit.{apply_next, apply_committed}
use d_raft.Raft.Soundness.Invariant.{LogSound}

abbrev pub apply_each : List Entry → List Effect
apply_each [] = []
apply_each (e ∷ es) = apply e ∷ apply_each es

-- The entries after the applied ones, up to `index`.
abbrev pub due_entries : Node → ℕ → List Entry
due_entries n index = take (index - n.applied) (drop (n.applied - boundary n) n.log)

-- The node with everything up to `index` applied, and one effect for each new entry, in order.
abbrev pub AppliedTo : Node → ℕ → Node × List Effect → Type 0
AppliedTo n index r =
    (r.0 ≡ record n { applied = index })
    × (r.1 ≡ apply_each (due_entries n index))
    × (n.applied < index → is_empty r.1 ≡ false)

-- The next entry to apply, and what is due after it.
next_entry :
    (n : Node) (index : ℕ)
    → boundary n + length n.log < u64
    → boundary n ≤ n.applied
    → n.applied < index
    → index ≤ boundary n + length n.log
    → (e : Entry) × (entry_at (record n { applied = n.applied + 1 }) (n.applied + 1) ≡ some e)
      × (due_entries n index ≡ e ∷ due_entries (record n { applied = n.applied + 1 }) index)
unfolding entry_at
next_entry n index fits low more high =
    let k = n.applied - boundary n in
    let (e, found) = get_elem?_total n.log k (omega arith) in
    let at : n.applied + 1 - boundary n - 1 ≡ k = omega arith in
    let shift : n.applied + 1 - boundary n ≡ suc k = omega arith in
    let fewer : index - n.applied ≡ suc (index - (n.applied + 1)) = omega arith in
    (
      e,
      ground (arith, ap (get_elem? n.log) at, found),
      rw (fewer, shift, drop-suc n.log k found) refl,
    )

apply_next_total :
    (left : ℕ) (n : Node) (index : ℕ)
    → LogSound n
    → boundary n ≤ n.applied
    → n.applied + left ≡ index
    → index ≤ boundary n + length n.log
    → Returns (AppliedTo n index) (apply_next left n)
unfolding apply_next
apply_next_total zero n index s low e high =
    let done : index - n.applied ≡ 0 = omega arith in
    returns (
      ap (λ (k : ℕ). record n { applied = k }) (omega arith),
      rw done refl,
      λ h. absurd (omega arith),
    )
apply_next_total (suc left) n index s low e high =
    let m = record n { applied = n.applied + 1 } in
    let (entry, found, due) = next_entry n index s.0 low (omega arith) high in
    rw found (
      Returns-bind (apply_next_total left m index s (omega arith) (omega arith) high)
        λ r a. returns (a.0, ap (λ es. apply entry ∷ es) a.1 ∙ ap apply_each (sym due), λ _. refl))

pub apply_committed_total :
    (n : Node)
    → LogSound n
    → boundary n ≤ n.applied
    → n.applied ≤ n.commit_index
    → n.commit_index ≤ boundary n + length n.log
    → Returns (AppliedTo n n.commit_index) (apply_committed n)
unfolding apply_committed
apply_committed_total n s low mid high =
    apply_next_total (n.commit_index - n.applied) n n.commit_index s low (omega arith) high
