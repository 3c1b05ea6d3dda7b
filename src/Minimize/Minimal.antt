-- ===== src/Minimize/Minimal.antt =====
-- minimize/minimize.go: minimize ends, within the runs that it may do, with a run that has the violation.
use d_raft.Base.{ℕ, ◌+◌, ◌≤◌, ◌≡◌, Bool, true, not, ◌||◌, Option, is_some, is_empty, List, length}
use d_raft.Decision.Tape.{Tape, TapeEntry}
use d_raft.Minimize.Reduce.{ArtifactRun}
use d_raft.Minimize.Shrink.{
  MinimizeResult, Minimized, minimized, not_minimized, Shrunk, shrink_failed, shrunk_to,
}
use d_raft.Minimize.Preserved.{bounded, Preserved}

abbrev has_bound : TapeEntry → Bool
has_bound entry = not (is_empty entry.choice.options) || is_some entry.choice.min

module _ {S A R : Type 0} (calls : S → ℕ)
    (evaluate : S → List A → Tape → S × Option (ArtifactRun A R × Bool))
    (input : ArtifactRun A R) where
  -- What shrinking leaves of a guide of so many entries, with at most so many runs left, which make up
  -- the budget with the calls of the evaluator.
  data ShrunkWell (size budget most : ℕ) : S × Shrunk A R → Type 0 where
    shrink_error : (s : S) → calls s ≤ budget → ShrunkWell size budget most (s, shrink_failed)
    shrunk_well :
        (s : S) (current : ArtifactRun A R) (guide : Tape) (left n : ℕ)
        → Preserved calls evaluate input current
        → bounded guide.entries ≡ true
        → length guide.entries ≡ size
        → left ≤ most
        → calls s + left ≡ budget
        → ShrunkWell size budget most (s, shrunk_to current guide left n)

  -- What minimize answers from a state of the evaluator, with at most so many runs: the evaluator's
  -- error, after at most so many calls of it, or a result whose run is preserved and whose number of
  -- runs is the number of calls.
  pub data Minimal (start : S) (max_runs : ℕ) : S × Minimized A R → Type 0 where
    minimal_error :
        (s : S) → calls s ≤ calls start + max_runs → Minimal start max_runs (s, not_minimized)
    minimal :
        {s : S} {r : MinimizeResult A R}
        → Preserved calls evaluate input r.run
        → calls s ≡ calls start + r.runs
        → r.runs ≤ max_runs
        → (r.truncated ≡ true → r.runs ≡ max_runs)
        → (r.runs ≡ max_runs → r.truncated ≡ true)
        → Minimal start max_runs (s, minimized r)
