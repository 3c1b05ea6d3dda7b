-- ===== src/Check/Records.antt =====
-- check/check.go: the committed, applied and snapshot history of one node.
use d_raft.Base.{
  ℕ, not, none, some, List, [], ◌∷◌, String, ltb, ◌==◌, if◌then◌else◌, lookup_or_zero, insert,
}
use d_raft.Raft.Types.{NodeId, Entry}
use d_raft.Check.Ledger.{
  NodeObservation, EntryWitness, SnapshotWitness, Evidence, committed_conflict, commit_monotonic,
  applied_conflict, applied_monotonic, snapshot_conflict, Checker, find_index, put_index,
  add_violation,
}
use d_raft.Check.History.{entries_equal, same_snapshot}

module _ (fingerprint : List NodeId → Evidence → String) where
  -- The loop of `checkCommittedHistory`; it ends at the first entry past the commit index.
  unfoldable pub check_committed : Checker → ℕ → NodeObservation → List Entry → Checker
  check_committed c at node [] = c
  check_committed c at node (e ∷ es) =
      let witness : EntryWitness = record { node = node.id; entry = e; commit_term = 0 } in
      let kept : EntryWitness = record {
        node = node.id;
        entry = e;
        commit_term = node.durable.current_term;
      } in
      let c' : Checker = elim (find_index c.committed e.index) [
        | none ↦ record c { committed = put_index c.committed e.index kept }
        | some previous ↦
            if not (entries_equal previous.entry e)
            then add_violation fingerprint c at (previous.node ∷ node.id ∷ [])
                (committed_conflict e.index previous witness)
            else c
      ] in
      let rest = check_committed c' at node es in
      if ltb node.durable.commit_index e.index then c else rest

  unfoldable pub check_committed_history : Checker → ℕ → NodeObservation → Checker
  check_committed_history c at node =
      let commit = node.durable.commit_index in
      let previous = lookup_or_zero c.commit_indexes node.id in
      let fallen =
        if ltb commit previous
        then add_violation fingerprint c at (node.id ∷ []) (commit_monotonic previous commit)
        else c in
      let raised =
        if ltb previous commit
        then record fallen { commit_indexes = insert fallen.commit_indexes node.id commit }
        else fallen in
      check_committed raised at node node.durable.log

  unfoldable pub check_applied : Checker → ℕ → NodeObservation → List Entry → Checker
  check_applied c at node [] = c
  check_applied c at node (e ∷ es) =
      let witness : EntryWitness = record { node = node.id; entry = e; commit_term = 0 } in
      let c' : Checker = elim (find_index c.applied e.index) [
        | none ↦ record c { applied = put_index c.applied e.index witness }
        | some previous ↦
            if not (entries_equal previous.entry e)
            then add_violation fingerprint c at (previous.node ∷ node.id ∷ [])
                (applied_conflict e.index previous witness)
            else c
      ] in
      check_applied c' at node es

  unfoldable pub check_applied_history : Checker → ℕ → NodeObservation → Checker
  check_applied_history c at node =
      let previous = lookup_or_zero c.applied_indexes node.id in
      let fallen =
        if ltb node.applied_index previous
        then add_violation fingerprint c at (node.id ∷ [])
            (applied_monotonic previous node.applied_index)
        else c in
      let raised =
        if ltb previous node.applied_index
        then record fallen {
          applied_indexes = insert fallen.applied_indexes node.id node.applied_index;
        }
        else fallen in
      check_applied raised at node node.applied

  unfoldable pub check_snapshot_history : Checker → ℕ → NodeObservation → Checker
  check_snapshot_history c at node =
      let s = node.durable.snapshot in
      let witness : SnapshotWitness = record { node = node.id; snapshot = s } in
      let checked : Checker = elim (find_index c.snapshots s.last_included_index) [
        | none ↦ record c { snapshots = put_index c.snapshots s.last_included_index witness }
        | some previous ↦
            if not (same_snapshot previous.snapshot s)
            then add_violation fingerprint c at (previous.node ∷ node.id ∷ [])
                (snapshot_conflict s.last_included_index previous witness)
            else c
      ] in
      if s.last_included_index == 0 then c else checked
