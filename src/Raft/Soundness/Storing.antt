-- ===== src/Raft/Soundness/Storing.antt =====
-- raft/node.go: the loops of handleAppendEntries keep the log sound.
use mathlib.Core.List.{append_assoc, append-nil}
use d_raft.Base.{
  ℕ, suc, ◌+◌, ◌-◌, ◌≤◌, ◌<◌, ◌≡◌, ◌≢◌, refl, sym, ap, subst, ◌∙◌, inl, inr, Bool, true, false,
  none, some, List, [], ◌∷◌, ◌++◌, arith, ok, ◌>>=◌, u64, length, length-append, length-take, take,
  get_elem?, Option-cases,
}
use d_raft.Raft.Types.{NodeId, Entry, Membership, Node}
use d_raft.Raft.Membership.{transition_membership}
use d_raft.Raft.Log.{
  with_log, boundary, last_index, entry_at, term_at, truncate_from, next_index_after,
}
use d_raft.Raft.Replication.{
  Stored, Round, present, appended, gap, refused_at, extend_log, place_entry, store_round,
  store_entries,
}
use d_raft.Raft.Soundness.Replay.{
  Numbered, Numbered-append, Numbered-take, replay, replay-append, replay_one, replay_nil,
}
use d_raft.Raft.Soundness.Invariant.{LogSound, base_of, last_index_lem, length_snoc}

-- What the first loop has checked of an entry that it passes.
pub record Passed (members : List NodeId) (term index previous : ℕ) (m : Membership) (e : Entry)
    (es : List Entry) : Type 0 where
  pub next : Membership
  pub follows : transition_membership m e members ≡ some next
  pub numbered : e.index ≡ index
  pub rest : refused_at members term (index + 1) e.term next es ≡ none

pub refused_at-Passed :
    (members : List NodeId) (term index previous : ℕ) (m : Membership) (e : Entry) (es : List Entry)
    → refused_at members term index previous m (e ∷ es) ≡ none
    → Passed members term index previous m e es
unfolding refused_at
refused_at-Passed members term index previous m e es h =
    elim (Option-cases (transition_membership m e members)) [
      | inl no_transition ↦ absurd (ground arith)
      | inr (next, follows) ↦ record {
        next = next;
        follows = follows;
        numbered = ground arith;
        rest = ground arith;
      }
    ]

-- The entries that the first loop passes are numbered and have a replay.
pub refused_at-Numbered :
    (members : List NodeId) (term b previous : ℕ) (m : Membership) (es : List Entry)
    → refused_at members term (b + 1) previous m es ≡ none
    → Numbered b es × ((m' : Membership) × (replay members m es ≡ ok m'))
refused_at-Numbered members term b previous m [] h = (tt, (m, replay_nil members m))
refused_at-Numbered members term b previous m (e ∷ es) h =
    let p = refused_at-Passed members term (b + 1) previous m e es h in
    let (numbered, (m', run)) = refused_at-Numbered members term (b + 1) e.term p.next es p.rest in
    (
      (omega (arith, p.numbered), subst (λ (k : ℕ). Numbered k es) (omega arith) numbered),
      (
        m',
        replay-append members m (e ∷ []) es
            ∙ ap (λ r. r >>= λ c. replay members c es) (replay_one members m p.next e p.follows)
            ∙ run,
      ),
    )

extend_log_next :
    (n : Node) (index : ℕ) (e : Entry)
    → index ≡ boundary n + length n.log + 1
    → index < u64
    → extend_log n index e ≡ (with_log n (n.log ++ e ∷ []), appended)
unfolding extend_log last_index next_index_after
extend_log_next n index e at room = ground arith

pub place_entry_next :
    (n : Node) (index : ℕ) (e : Entry)
    → index ≡ boundary n + length n.log + 1
    → index < u64
    → place_entry n index e ≡ (with_log n (n.log ++ e ∷ []), appended)
unfolding place_entry last_index
place_entry_next n index e at room = ground (arith, extend_log_next n index e at room)

-- A round of the loop, whatever it came to.
pub store_entries_round :
    (n : Node) (dirty : Bool) (index : ℕ) (e : Entry) (es : List Entry) (p : Node × Round)
    → place_entry n index e ≡ p
    → store_entries n dirty index (e ∷ es)
      ≡ store_round dirty (λ m stored. store_entries m stored (index + 1) es) p
unfolding store_entries
store_entries_round n dirty index e es p h =
    ap (store_round dirty (λ m stored. store_entries m stored (index + 1) es)) h

pub store_entries_nil :
    (n : Node) (dirty : Bool) (index : ℕ)
    → store_entries n dirty index [] ≡ record { node = n; dirty = dirty; complete = true }
unfolding store_entries
store_entries_nil n dirty index = refl

-- Entries that follow on from the end of the log are all appended.
pub store_entries_append :
    (es : List Entry) (n : Node) (dirty : Bool) (index : ℕ)
    → index ≡ boundary n + length n.log + 1
    → index + length es ≤ u64
    → (store_entries n dirty index es).node ≡ with_log n (n.log ++ es)
      × ((store_entries n dirty index es).complete ≡ true)
      × (dirty ≡ true → (store_entries n dirty index es).dirty ≡ true)
unfolding store_round
store_entries_append [] n dirty index at room =
    rw (store_entries_nil n dirty index) (ap (with_log n) (sym (append-nil n.log)), refl, λ d. d)
store_entries_append (e ∷ es) n dirty index at room =
    let m = with_log n (n.log ++ e ∷ []) in
    let (node, complete, kept) =
      store_entries_append es m true (index + 1) (omega (arith, length_snoc {0} n.log e))
        (omega arith) in
    rw
      (
        store_entries_round n dirty index e es (m, appended)
            (place_entry_next n index e at (omega arith)),
        store_round,
      )
      (node ∙ ap (with_log n) (append_assoc n.log (e ∷ []) es), complete, λ _. kept refl)

-- The message agrees with the log: an entry that the log holds with the same term is the same
-- entry (log matching), and none contradicts a committed one that the log still holds. Of the
-- entries that a snapshot covers nothing is asked.
abbrev pub Agrees : Node → ℕ → List Entry → Type 0
Agrees n index [] = Unit {0}
Agrees n index (e ∷ es) =
    ((k : Entry) → entry_at n index ≡ some k → k.term ≡ e.term → k ≡ e)
    × (boundary n < index → index ≤ n.commit_index → term_at n index ≡ e.term)
    × Agrees n (index + 1) es

-- What the second loop leaves: another log, sound under some configuration, that keeps what is
-- committed; with no dirty mark, or cut short by a gap, the same node.
pub record LogKept (n : Node) (st : Stored) : Type 0 where
  pub log : List Entry
  pub configuration : Membership
  pub node : st.node ≡ with_log n log
  pub sound :
      LogSound (record n { state = record (n.state) { log = log }; membership = configuration })
  pub committed : n.commit_index ≤ boundary n + length log
  pub clean : st.dirty ≡ false → st.node ≡ n
  pub incomplete : st.complete ≡ false → st.node ≡ n

pub entry_at_position :
    (n : Node) (k index : ℕ)
    → boundary n + length n.log < u64
    → index ≡ boundary n + suc k
    → k < length n.log
    → entry_at n index ≡ get_elem? n.log k
unfolding entry_at last_index
entry_at_position n k index fits at low =
    let shift : index - boundary n - 1 ≡ k = omega arith in
    ground (arith, ap (get_elem? n.log) shift)

pub term_at_entry :
    (n : Node) (index : ℕ) (e : Entry)
    → boundary n < index
    → entry_at n index ≡ some e
    → term_at n index ≡ e.term
unfolding term_at
term_at_entry n index e low h = ground (arith, h)

module _ (n : Node) (c : Membership) (sound : LogSound (record n { membership = c })) where
  -- The log cut before position `k`, with the entries `es`, of which the last of the first part
  -- leads to the configuration `m`.
  pub spliced-LogSound :
      (k : ℕ) (m m' : Membership) (es : List Entry)
      → k ≤ length n.log
      → boundary n + k + length es < u64
      → replay n.members (base_of n.snapshot n.initial_membership) (take k n.log) ≡ ok m
      → Numbered (boundary n + k) es
      → replay n.members m es ≡ ok m'
      → LogSound
          (record n { state = record (n.state) { log = take k n.log ++ es }; membership = m' })
  spliced-LogSound k m m' es low room before numbered after = (
    omega (arith, length-append {0} (take k n.log) es, length-take {0} k n.log),
    Numbered-append (boundary n) (take k n.log) es (Numbered-take (boundary n) k n.log sound.1)
        (subst (λ (j : ℕ). Numbered j es) (omega (arith, length-take {0} k n.log)) numbered),
    sound.2,
    replay-append n.members (base_of n.snapshot n.initial_membership) (take k n.log) es
        ∙ ap (λ r. r >>= λ d. replay n.members d es) before
        ∙ after,
  )

truncate_from_position :
    (n : Node) (k index : ℕ)
    → boundary n + length n.log < u64
    → index ≡ boundary n + suc k
    → k < length n.log
    → truncate_from n index ≡ with_log n (take k n.log)
unfolding truncate_from last_index
truncate_from_position n k index fits at low =
    let shift : index - boundary n - 1 ≡ k = omega arith in
    ground (arith, ap (λ (j : ℕ). with_log n (take j n.log)) shift)

-- An entry of another term replaces the log from its place on.
pub place_entry_conflict :
    (n : Node) (k index : ℕ) (e : Entry)
    → boundary n + length n.log < u64
    → index ≡ boundary n + suc k
    → k < length n.log
    → term_at n index ≢ e.term
    → place_entry n index e ≡ (with_log n (take k n.log ++ e ∷ []), appended)
unfolding place_entry
place_entry_conflict n k index e fits at low differs =
    let cut = with_log n (take k n.log) in
    let placed =
      extend_log_next cut index e (omega (arith, length-take {0} k n.log)) (omega arith) in
    ground (
      arith,
      last_index_lem n fits,
      ap (λ (m : Node). extend_log m index e) (truncate_from_position n k index fits at low),
      placed,
    )

pub place_entry_present :
    (n : Node) (index : ℕ) (e : Entry)
    → index ≤ last_index n
    → term_at n index ≡ e.term
    → place_entry n index e ≡ (n, present)
unfolding place_entry
place_entry_present n index e low same = ground arith

pub place_entry_gap :
    (n : Node) (index : ℕ) (e : Entry)
    → boundary n + length n.log < u64
    → boundary n + length n.log + 1 < index
    → place_entry n index e ≡ (n, gap)
unfolding place_entry extend_log next_index_after last_index
place_entry_gap n index e fits far = ground arith
