-- ===== src/Raft/Soundness/Invariant.antt =====
-- raft/node.go: the invariant of a node, and what `entryAt` and `membershipAt` give under it.
use native.Mathlib.Decide.{dec_lt}
use d_raft.Base.{
  drop_all, ℕ, suc, ◌+◌, ◌-◌, ◌≤◌, ◌<◌, ◌≡◌, ◌≢◌, ap, ◌∙◌, true, some, List, [], ◌∷◌, arith, ok,
  take, drop, length, get_elem?_total, take_all, length-append, ◌++◌, ◌>>=◌, ltb, if◌then◌else◌,
  u64, is_some,
}
use d_raft.Raft.Types.{Entry, Membership, Snapshot, Node}
use d_raft.Raft.Membership.{membership_is_zero, stable_membership, validate_membership, is_voter}
use d_raft.Raft.Log.{
  boundary, last_index, entry_at, base_membership, membership_at, refresh_membership, entries_from,
}
use d_raft.Raft.Commit.{is_leader, is_candidate}
use d_raft.Raft.Soundness.Replay.{
  Numbered, replay, replay_configs-take, replay_split, replay-append,
}

-- The configuration at the snapshot boundary.
unfoldable pub base_of : Snapshot → Membership → Membership
base_of s initial =
    if ltb 0 s.last_included_index
    then (if membership_is_zero s.membership then stable_membership s.members [] else s.membership)
    else initial

-- The log is numbered from the boundary within 64 bits, and its configurations lead from a valid
-- one to the node's own.
abbrev pub LogSound : Node → Type 0
LogSound n =
    (boundary n + length n.log < u64)
    × Numbered (boundary n) n.log
    × (validate_membership (base_of n.snapshot n.initial_membership) n.members ≡ true)
    × (replay n.members (base_of n.snapshot n.initial_membership) n.log ≡ ok n.membership)

-- What is applied is committed, and what is committed is in the log or the snapshot.
abbrev pub InOrder : Node → Type 0
InOrder n =
    (boundary n ≤ n.applied)
    × (n.applied ≤ n.commit_index)
    × (n.commit_index ≤ boundary n + length n.log)

-- A leader has its three maps; a candidate has a set of votes, and is a voter.
abbrev pub RoleReady : Node → Type 0
RoleReady n =
    (is_leader n.role ≡ true
      → (is_some n.match_index ≡ true)
        × (is_some n.next_index ≡ true)
        × (is_some n.append_sequence ≡ true))
    × (is_candidate n.role ≡ true → (is_some n.votes ≡ true) × (is_voter n.membership n.id ≡ true))

abbrev pub IsSound : Node → Type 0
IsSound n = (LogSound n) × (InOrder n) × (RoleReady n)

pub last_index_lem :
    (n : Node) → boundary n + length n.log < u64 → last_index n ≡ boundary n + length n.log
unfolding last_index
last_index_lem n h = omega arith

pub entry_at_total :
    (n : Node) (index : ℕ)
    → boundary n + length n.log < u64
    → boundary n < index
    → index ≤ boundary n + length n.log
    → (e : Entry) × (entry_at n index ≡ some e)
unfolding entry_at
entry_at_total n index fits low high =
    let (e, found) = get_elem?_total n.log (index - boundary n - 1) (omega arith) in
    (e, ground (arith, found))

pub base_membership-base_of :
    (n : Node) (index : ℕ)
    → boundary n ≤ index
    → base_membership n index ≡ base_of n.snapshot n.initial_membership
unfolding base_membership base_of
base_membership-base_of n index h = ground arith

-- `membershipAt` is the replay of the log up to the index.
pub membership_at-take :
    (n : Node) (index : ℕ)
    → Numbered (boundary n) n.log
    → boundary n ≤ index
    → membership_at n index
      ≡ replay n.members (base_of n.snapshot n.initial_membership) (take (index - boundary n) n.log)
unfolding membership_at
membership_at-take n index s h = rw (base_membership-base_of n index h) (
    replay_configs-take n.members (index - boundary n) (boundary n) index
      (base_of n.snapshot n.initial_membership) n.log s (omega arith))

-- At and past the boundary `membershipAt` returns, and the entries after lead to the node's own
-- configuration.
pub membership_at_total :
    (n : Node) (index : ℕ)
    → LogSound n
    → boundary n ≤ index
    → (m : Membership) × (membership_at n index ≡ ok m)
      × (replay n.members
            (base_of n.snapshot n.initial_membership)
            (take (index - boundary n) n.log)
          ≡ ok m)
      × (replay n.members m (drop (index - boundary n) n.log) ≡ ok n.membership)
membership_at_total n index s h =
    let (m, before, after) =
      replay_split n.members (base_of n.snapshot n.initial_membership) n.membership
        (index - boundary n) n.log s.3 in
    (m, membership_at-take n index s.1 h ∙ before, before, after)

pub length_snoc {ℓ} : {A : Type ℓ} (xs : List A) (x : A) → length (xs ++ x ∷ []) ≡ length xs + 1
length_snoc xs x = length-append xs (x ∷ [])

pub Numbered-snoc :
    (b : ℕ) (log : List Entry) (e : Entry)
    → Numbered b log
    → e.index ≡ suc (b + length log)
    → Numbered b (log ++ e ∷ [])
Numbered-snoc b [] e h k = (omega arith, tt)
Numbered-snoc b (x ∷ log) e h k = (h.0, Numbered-snoc (suc b) log e h.1 (omega arith))

-- An entry that is numbered right, and that leads to a configuration, extends a sound log.
pub LogSound-snoc :
    (n : Node) (e : Entry) (m : Membership)
    → LogSound n
    → boundary n + length n.log + 1 < u64
    → e.index ≡ suc (boundary n + length n.log)
    → replay n.members n.membership (e ∷ []) ≡ ok m
    → LogSound (record n { state = record (n.state) { log = n.log ++ e ∷ [] }; membership = m })
LogSound-snoc n e m s room at next = (
  omega (arith, length_snoc {0} n.log e),
  Numbered-snoc (boundary n) n.log e s.1 at,
  s.2,
  replay-append n.members (base_of n.snapshot n.initial_membership) n.log (e ∷ [])
      ∙ ap (λ r. r >>= λ c. replay n.members c (e ∷ [])) s.3
      ∙ next,
)

-- `refreshMembership` finds the configuration that the log leads to.
pub refresh_membership_lem :
    (n : Node) (m : Membership)
    → LogSound (record n { membership = m })
    → refresh_membership n ≡ ok (record n { membership = m })
unfolding refresh_membership
refresh_membership_lem n m s =
    let at : membership_at n (last_index n) ≡ ok m =
      membership_at-take n (last_index n) s.1 (omega (arith, last_index_lem n s.0))
      ∙ ap (replay n.members (base_of n.snapshot n.initial_membership))
          (ap (λ (k : ℕ). take k n.log) (omega (arith, last_index_lem n s.0)) ∙ take_all n.log)
      ∙ s.3 in
    ap (λ r. r >>= λ c. ok (record n { membership = c })) at

-- `entriesFrom` past an index gives the rest of the log.
pub entries_from-drop :
    (n : Node) (index : ℕ)
    → boundary n + length n.log < u64
    → boundary n ≤ index
    → entries_from n (index + 1) ≡ drop (index - boundary n) n.log
unfolding entries_from
entries_from-drop n index fits low =
    let shift : index + 1 - boundary n - 1 ≡ index - boundary n = omega arith in
    let moved = ap (λ (k : ℕ). drop k n.log) shift in
    elim (dec_lt index (boundary n + length n.log)) [
      | yes inside ↦ ground (arith, last_index_lem n fits, moved)
      | no outside ↦
          ground
            (arith, last_index_lem n fits, drop_all {0} (index - boundary n) n.log (omega arith))
    ]

-- A snapshot past index 0 gives the configuration at the boundary.
pub base_of_snapshot :
    (s : Snapshot) (initial : Membership)
    → s.last_included_index ≢ 0
    → base_of s initial
      ≡ (if membership_is_zero s.membership then stable_membership s.members [] else s.membership)
unfolding base_of
base_of_snapshot s initial h = ground arith
