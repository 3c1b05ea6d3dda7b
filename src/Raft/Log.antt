-- ===== src/Raft/Log.antt =====
-- raft/node.go: the log behind its snapshot boundary, and the configuration in force at an index.
use d_raft.Base.{
  ℕ, ◌+◌, ◌-◌, Bool, true, false, ◌&&◌, ◌||◌, not, Option, none, some, List, [], ◌∷◌, ltb, leb,
  ◌==◌, if◌then◌else◌, length, get_elem?, take, drop, Run, ok, ◌>>=◌, or_panic, add_u64, max_uint64,
}
use d_raft.Raft.Types.{NodeId, Membership, Entry, Node}
use d_raft.Raft.Membership.{is_config, transition_membership, membership_is_zero, stable_membership}

-- `n.state.Log = log`, and the assignments to the hard state.
abbrev pub with_log : Node → List Entry → Node
with_log n log = record n { state = record (n.state) { log = log } }

abbrev pub with_commit : Node → ℕ → Node
with_commit n i = record n {
  state = record (n.state) { hard_state = record (n.state.hard_state) { commit_index = i } };
}

abbrev pub with_vote : Node → NodeId → Node
with_vote n id = record n {
  state = record (n.state) { hard_state = record (n.state.hard_state) { voted_for = id } };
}

abbrev pub with_term : Node → ℕ → Node
with_term n t = record n {
  state = record (n.state) { hard_state = record (n.state.hard_state) { current_term = t } };
}

-- `n.state.Snapshot.LastIncludedIndex`
abbrev pub boundary : Node → ℕ
boundary n = n.snapshot.last_included_index

unfoldable pub last_index : Node → ℕ
last_index n = add_u64 (boundary n) (length n.log)

unfoldable pub entry_at : Node → ℕ → Option Entry
unfolding last_index
entry_at n index =
    if leb index (boundary n) || ltb (last_index n) index
    then none
    else get_elem? n.log (index - boundary n - 1)

-- The end of `termAt`, on what `entryAt` found.
abbrev pub entry_term : Option Entry → ℕ
entry_term none = 0
entry_term (some e) = e.term

unfoldable pub term_at : Node → ℕ → ℕ
unfolding entry_at
term_at n index =
    if index == 0
    then 0
    else if index == boundary n
    then n.snapshot.last_included_term
    else entry_term (entry_at n index)

unfoldable pub last_term : Node → ℕ
unfolding term_at
last_term n = term_at n (last_index n)

unfoldable pub entries_from : Node → ℕ → List Entry
unfolding last_index
entries_from n index =
    if leb index (boundary n)
    then n.log
    else if ltb (last_index n) index
    then []
    else drop (index - boundary n - 1) n.log

unfoldable pub truncate_from : Node → ℕ → Node
unfolding last_index
truncate_from n index =
    if leb index (boundary n)
    then with_log n []
    else if leb index (last_index n)
    then with_log n (take (index - boundary n - 1) n.log)
    else n

unfoldable pub next_index_after : ℕ → ℕ
next_index_after index = if index == max_uint64 then max_uint64 else index + 1

-- The loop of `membershipAt`: a configuration entry that is no transition panics.
unfoldable pub replay_configs : List NodeId → ℕ → Membership → List Entry → Run Membership
unfolding is_config
replay_configs members index m [] = ok m
replay_configs members index m (e ∷ es) =
    let skip = replay_configs members index m es in
    let follow =
      or_panic (transition_membership m e members) >>= λ m'. replay_configs members index m' es in
    if ltb index e.index then ok m else if not (is_config e.type) then skip else follow

-- The configuration that `membershipAt` starts from.
unfoldable pub base_membership : Node → ℕ → Membership
base_membership n index =
    if ltb 0 (boundary n) && leb (boundary n) index
    then (if membership_is_zero n.snapshot.membership
        then stable_membership n.snapshot.members []
        else n.snapshot.membership)
    else n.initial_membership

unfoldable pub membership_at : Node → ℕ → Run Membership
unfolding replay_configs base_membership
membership_at n index = replay_configs n.members index (base_membership n index) n.log

unfoldable pub refresh_membership : Node → Run Node
refresh_membership n = do m ← membership_at n (last_index n); ok (record n { membership = m })

-- The loop of `hasUncommittedConfiguration`.
any_uncommitted : ℕ → List Entry → Bool
unfolding is_config
any_uncommitted commit [] = false
any_uncommitted commit (e ∷ es) =
    if ltb commit e.index && is_config e.type then true else any_uncommitted commit es

unfoldable pub has_uncommitted_configuration : Node → Bool
unfolding any_uncommitted
has_uncommitted_configuration n = any_uncommitted n.commit_index n.log

unfoldable pub candidate_log_is_up_to_date : Node → ℕ → ℕ → Bool
candidate_log_is_up_to_date n index term =
    let last = last_term n in ltb last term || (term == last && leb (last_index n) index)
