-- ===== src/Raft/Soundness/Matching.antt =====
-- raft/node.go: the second loop of handleAppendEntries, from the entries that match to those it
-- appends.
use native.Mathlib.Decide.{dec_le, dec_lt, ℕ_discrete}
use mathlib.Core.List.{append_assoc}
use d_raft.Base.{
  ℕ, suc, ◌+◌, ◌≤◌, ◌≡◌, refl, sym, ap, subst, ◌∙◌, Bool, true, false, none, some, List, [], ◌∷◌,
  ◌++◌, arith, ok, ◌>>=◌, u64, length, length-take, length-append, take, take_all, take-suc,
  get_elem?_total, get_elem?, ◌≢◌,
}
use d_raft.Raft.Types.{Entry, Membership, Node}
use d_raft.Raft.Membership.{transition_membership}
use d_raft.Raft.Log.{with_log, boundary, term_at}
use d_raft.Raft.Replication.{
  present, appended, gap, refused_at, place_entry, store_round, store_entries,
}
use d_raft.Raft.Soundness.Replay.{replay, replay-append, replay_one}
use d_raft.Raft.Soundness.Invariant.{LogSound, base_of, last_index_lem, length_snoc}
use d_raft.Raft.Soundness.Storing.{
  refused_at-Passed, refused_at-Numbered, place_entry_next, place_entry_conflict,
  place_entry_present, place_entry_gap, store_entries_round, store_entries_nil,
  store_entries_append, entry_at_position, term_at_entry, Agrees, LogKept, spliced-LogSound,
}

module _ (n : Node) (c : Membership) (sound : LogSound (record n { membership = c }))
    (held : n.commit_index ≤ boundary n + length n.log) where
  unchanged-LogKept :
      (dirty complete : Bool) → LogKept n (record { node = n; dirty = dirty; complete = complete })
  unchanged-LogKept dirty complete = record {
    log = n.log;
    configuration = c;
    node = refl;
    sound = sound;
    committed = held;
    clean = λ _. refl;
    incomplete = λ _. refl;
  }

  -- From the first entry that is appended on, the loop appends.
  appended-LogKept :
      (k index term previous : ℕ) (m : Membership) (dirty : Bool) (e : Entry) (es : List Entry)
      → k ≤ length n.log
      → n.commit_index ≤ boundary n + k
      → index ≡ boundary n + k + 1
      → replay n.members (base_of n.snapshot n.initial_membership) (take k n.log) ≡ ok m
      → refused_at n.members term index previous m (e ∷ es) ≡ none
      → index + length (e ∷ es) ≤ u64
      → place_entry n index e ≡ (with_log n (take k n.log ++ e ∷ []), appended)
      → LogKept n (store_entries n dirty index (e ∷ es))
  unfolding store_round
  appended-LogKept k index term previous m dirty e es low kept at before checked room placed =
      let cut = with_log n (take k n.log ++ e ∷ []) in
      let (numbered, (m', after)) =
        refused_at-Numbered n.members term (boundary n + k) previous m (e ∷ es)
          (subst (λ (j : ℕ). refused_at n.members term j previous m (e ∷ es) ≡ none) at checked) in
      let (node, complete, marked) =
        store_entries_append es cut true (index + 1)
          (omega (arith, length_snoc {0} (take k n.log) e, length-take {0} k n.log))
          (omega arith) in
      subst (LogKept n) (sym (store_entries_round n dirty index e es (cut, appended) placed))
        (record {
          log = take k n.log ++ e ∷ es;
          configuration = m';
          node = node ∙ ap (with_log n) (append_assoc (take k n.log) (e ∷ []) es);
          sound =
              spliced-LogSound n c sound k m m' (e ∷ es) low (omega arith) before numbered after;
          committed =
              omega (arith, length-append {0} (take k n.log) (e ∷ es), length-take {0} k n.log);
          clean = λ d. cc (marked refl);
          incomplete = λ d. cc complete;
        })

  -- The replay up to the end of the log, written as the one up to its length.
  whole-take : (k : ℕ) → k ≡ length n.log → take k n.log ≡ n.log
  whole-take k e = ap (λ (j : ℕ). take j n.log) e ∙ take_all n.log

  -- The second loop leaves a sound log.
  pub store_entries-LogKept :
      (es : List Entry) (k index term previous : ℕ) (m : Membership) (dirty : Bool)
      → index ≡ boundary n + k + 1
      → replay n.members (base_of n.snapshot n.initial_membership) (take k n.log) ≡ ok m
      → refused_at n.members term index previous m es ≡ none
      → Agrees n index es
      → index + length es ≤ u64
      → LogKept n (store_entries n dirty index es)
  unfolding store_round
  store_entries-LogKept [] k index term previous m dirty at before checked agree room =
      subst (LogKept n) (sym (store_entries_nil n dirty index)) (unchanged-LogKept dirty true)
  store_entries-LogKept (e ∷ es) k index term previous m dirty at before checked agree room =
      elim (dec_lt k (length n.log)) [
        | yes inside ↦
            let (x, found) = get_elem?_total n.log k inside in
            let held_there = entry_at_position n k index sound.0 (omega arith) inside ∙ found in
            let its_term = term_at_entry n index x (omega arith) held_there in
            elim (ℕ_discrete (term_at n index) e.term) [
              | yes same ↦
                  let p = refused_at-Passed n.members term index previous m e es checked in
                  let equal : x ≡ e = agree.0 x held_there (sym its_term ∙ same) in
                  subst (LogKept n)
                    (sym (
                      store_entries_round n dirty index e es (n, present)
                        (place_entry_present n index e (omega (arith, last_index_lem n sound.0))
                          same)))
                    (store_entries-LogKept es (suc k) (index + 1) term e.term p.next dirty
                      (omega arith) (next_replay x e p.next found equal p.follows) p.rest agree.2
                      (omega arith))
              | no differs ↦
                  appended-LogKept k index term previous m dirty e es (omega arith)
                    (uncommitted e (agree.1 (omega arith)) differs) at before checked room
                    (place_entry_conflict n k index e sound.0 (omega arith) inside differs)
            ]
        | no outside ↦ elim (ℕ_discrete k (length n.log)) [
          | yes end ↦
              appended-LogKept k index term previous m dirty e es (omega arith) (omega arith) at
                before checked room
                (place_entry_next n index e (omega arith) (omega arith)
                  ∙ ap (λ l. (with_log n (l ++ e ∷ []), appended)) (sym (whole-take k end)))
          | no far ↦
              subst (LogKept n)
                (sym (
                  store_entries_round n dirty index e es (n, gap)
                    (place_entry_gap n index e sound.0 (omega arith))))
                (unchanged-LogKept dirty false)
        ]
      ]
    where
      next_replay :
          (x y : Entry) (next : Membership)
          → get_elem? n.log k ≡ some x
          → x ≡ y
          → transition_membership m y n.members ≡ some next
          → replay n.members (base_of n.snapshot n.initial_membership) (take (suc k) n.log)
            ≡ ok next
      next_replay x y next found equal follows =
          ap (replay n.members (base_of n.snapshot n.initial_membership)) (take-suc n.log k found)
          ∙ replay-append n.members (base_of n.snapshot n.initial_membership) (take k n.log)
              (x ∷ [])
          ∙ ap (λ r. r >>= λ d. replay n.members d (x ∷ [])) before
          ∙ ap (λ z. replay n.members m (z ∷ [])) equal
          ∙ replay_one n.members m next y follows

      uncommitted :
          (y : Entry)
          → (index ≤ n.commit_index → term_at n index ≡ y.term)
          → (term_at n index ≢ y.term)
          → n.commit_index ≤ boundary n + k
      uncommitted y same differs = elim (dec_le index n.commit_index) [
        | yes le ↦ absurd (differs (same le))
        | no gt ↦ omega arith
      ]
