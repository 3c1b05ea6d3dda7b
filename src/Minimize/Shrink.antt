-- ===== src/Minimize/Shrink.antt =====
-- minimize/minimize.go: the end of minimize, which tries simpler selections, and minimize itself.
use d_raft.Base.{
  ℕ, zero, suc, ◌+◌, ◌-◌, ℤ, pos, negsuc, Bool, true, false, Option, none, some, List, [], ◌∷◌, leb,
  ◌==◌, if◌then◌else◌, length, get_elem?, Run, ok, ◌>>=◌, or_panic,
}
use d_raft.Decision.Choice.{Selection}
use d_raft.Decision.Tape.{Tape, TapeEntry}
use d_raft.Minimize.Simpler.{simpler_selections}
use d_raft.Minimize.Reduce.{
  ArtifactRun, Phase, phase_failed, unfinished, reduced, reduce_actions, reduce_guide,
}

pub record MinimizeResult (A R : Type 0) : Type 0 where
  pub run : ArtifactRun A R
  pub runs : ℕ
  pub actions_removed : ℤ
  pub guidance_entries_removed : ℤ
  pub selections_shrunk : ℕ
  pub truncated : Bool

-- What minimize returns: a result or the evaluator's error. The fuel of its loops never gives out.
pub data Minimized (A R : Type 0) : Type 0 where
  minimized : MinimizeResult A R → Minimized A R
  not_minimized out_of_fuel : Minimized A R

-- What the loop over simpler selections leaves: an error, or the run, the guide, the runs left and how
-- many selections were replaced.
pub data Shrunk (A R : Type 0) : Type 0 where
  shrink_failed : Shrunk A R
  shrunk_to : ArtifactRun A R → Tape → ℕ → ℕ → Shrunk A R

-- The entries with another selection at an index.
unfoldable pub set_selection : List TapeEntry → ℕ → Selection → List TapeEntry
set_selection [] index selection = []
set_selection (entry ∷ entries) zero selection = record entry { selection = selection } ∷ entries
set_selection (entry ∷ entries) (suc index) selection =
    entry ∷ set_selection entries index selection

-- The difference of two lengths.
subtract : ℕ → ℕ → ℤ
subtract a b = if leb b a then pos (a - b) else negsuc (b - a - 1)

module _ {A R : Type 0} where
  unfoldable pub minimize_result : ArtifactRun A R → ℕ → ℕ → Shrunk A R → Minimized A R
  unfolding subtract
  minimize_result input max_runs guide_start shrink_failed = not_minimized
  minimize_result input max_runs guide_start (shrunk_to current guide left shrunk) =
      minimized (record {
        run = current;
        runs = max_runs - left;
        actions_removed = subtract (length input.actions) (length current.actions);
        guidance_entries_removed = subtract guide_start (length guide.entries);
        selections_shrunk = shrunk;
        truncated = left == 0;
      })

module _ {S A R : Type 0} (evaluate : S → List A → Tape → S × Option (ArtifactRun A R × Bool)) where
  -- The loop over the selections that are simpler than the one at an index.
  unfoldable pub shrink_entry : List Selection → ℕ → ArtifactRun A R → Tape → ℕ → S → S × Shrunk A R
  unfolding set_selection
  shrink_entry [] index current guide left s = (s, shrunk_to current guide left 0)
  shrink_entry (selection ∷ more) index current guide zero s = (s, shrunk_to current guide zero 0)
  shrink_entry (selection ∷ more) index current guide (suc left) s =
      let candidate_guide = record guide {
        entries = set_selection guide.entries index selection;
      } in
      let tried = evaluate s current.actions candidate_guide in
      let rest = shrink_entry more index current guide left tried.0 in
      elim tried.1 [
        | none ↦ (tried.0, shrink_failed)
        | some (candidate, true) ↦ (tried.0, shrunk_to candidate candidate_guide left 1)
        | some (candidate, false) ↦ rest
      ]

  -- The loop over the indexes of the guide, of which as many are left as the first argument says.
  unfoldable pub shrink_from : ℕ → ℕ → ArtifactRun A R → Tape → ℕ → ℕ → S → Run (S × Shrunk A R)
  unfolding shrink_entry
  shrink_from zero index current guide left shrunk s = ok (s, shrunk_to current guide left shrunk)
  shrink_from (suc more) index current guide left shrunk s =
      let step = do
        entry ← or_panic (get_elem? guide.entries index)
        selections ← simpler_selections entry
        let end = shrink_entry selections index current guide left s
        elim end.1 as (λ x. Run (S × Shrunk A R)) [
          | shrink_failed ↦ ok (end.0, shrink_failed)
          | shrunk_to current' guide' left' n ↦
              shrink_from more (index + 1) current' guide' left' (shrunk + n) end.0
        ]
      in if left == 0 then ok (s, shrunk_to current guide left shrunk) else step

  -- The phases after the first.
  unfoldable pub minimize_guide : ArtifactRun A R → ℕ → S × Phase A R → Run (S × Minimized A R)
  unfolding shrink_from minimize_result
  minimize_guide input max_runs (s, phase_failed) = ok (s, not_minimized)
  minimize_guide input max_runs (s, unfinished) = ok (s, out_of_fuel)
  minimize_guide input max_runs (s, reduced current guide left) =
      let found = reduce_guide evaluate left left 2 current guide s in
      elim found.1 as (λ x. Run (S × Minimized A R)) [
        | phase_failed ↦ ok (found.0, not_minimized)
        | unfinished ↦ ok (found.0, out_of_fuel)
        | reduced current' guide' left' ↦ do
          end ← shrink_from (length guide'.entries) 0 current' guide' left' 0 found.0
          ok (end.0, minimize_result input max_runs (length guide.entries) end.1)
      ]

  unfoldable pub minimize : ArtifactRun A R → ℕ → S → Run (S × Minimized A R)
  unfolding minimize_guide
  minimize input max_runs s =
      minimize_guide input max_runs
        (reduce_actions evaluate max_runs max_runs 2 input input.decisions s)
