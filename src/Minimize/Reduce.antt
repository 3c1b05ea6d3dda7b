-- ===== src/Minimize/Reduce.antt =====
-- minimize/minimize.go: the loops of minimize that remove chunks, with the evaluator as a parameter. A
-- scenario is given by its actions, the part that the loops change. The evaluator is a function of
-- the caller, which may keep state of its own: each call of it takes that state and leaves another.
-- The number of runs that are left stands for the number of runs so far.
use d_raft.Base.{
  ℕ, zero, suc, ◌+◌, ◌-◌, ◌*◌, ◌/◌, Bool, true, false, not, ◌||◌, Option, none, some, List, ◌++◌,
  ltb, leb, ◌==◌, if◌then◌else◌, length, take, drop,
}
use d_raft.Decision.Tape.{Tape, TapeEntry}

-- The parts of an artifact that minimize reads: the actions of its scenario and its decisions.
pub record ArtifactRun (A R : Type 0) : Type 0 where
  pub actions : List A
  pub decisions : Tape
  pub remainder : R

-- `max` and `min` of two numbers
pub max_of : ℕ → ℕ → ℕ
max_of a b = if ltb a b then b else a

pub min_of : ℕ → ℕ → ℕ
min_of a b = if ltb a b then a else b

abbrev pub chunk_size : ℕ → ℕ → ℕ
chunk_size size granularity = (size + granularity - 1) / granularity

-- A list without its places from `start` to `start + chunk`, or to its end.
unfoldable pub without_chunk : {X : Type 0} → ℕ → ℕ → List X → List X
without_chunk start chunk xs = take start xs ++ drop (start + chunk) xs

-- What the loop over the chunks finds: an error, a candidate that matches, or none; with the runs left.
pub data Scanned (C : Type 0) : Type 0 where
  scan_failed : Scanned C
  scanned : ℕ → Option C → Scanned C

-- The loop over the chunks of a list, which tries each candidate in turn.
unfoldable pub scan_chunks :
    {S X C : Type 0} → (S → List X → S × Option (C × Bool)) → ℕ → ℕ → List X → ℕ → S → S × Scanned C
unfolding without_chunk
scan_chunks try zero chunk xs start s = (s, scanned zero none)
scan_chunks try (suc left) chunk xs start s =
    let tried = try s (without_chunk start chunk xs) in
    let rest = scan_chunks try left chunk xs (start + chunk) tried.0 in
    if not (ltb start (length xs)) then (s, scanned (suc left) none) else elim tried.1 [
      | none ↦ (tried.0, scan_failed)
      | some (candidate, true) ↦ (tried.0, scanned left (some candidate))
      | some (candidate, false) ↦ rest
    ]

-- What a phase leaves: an error, the current run, the guide and the runs left, or, where its fuel did
-- not suffice, nothing.
pub data Phase (A R : Type 0) : Type 0 where
  phase_failed unfinished : Phase A R
  reduced : ArtifactRun A R → Tape → ℕ → Phase A R

-- A candidate with the guide that it was tried with.
unfoldable pub with_guide : {C : Type 0} → Tape → Option (C × Bool) → Option ((C × Tape) × Bool)
with_guide guide none = none
with_guide guide (some (candidate, matches)) = some ((candidate, guide), matches)

module _ {S A R : Type 0} (evaluate : S → List A → Tape → S × Option (ArtifactRun A R × Bool)) where
  -- The loop that removes actions. A round takes at least one run, so that as much fuel as runs are left
  -- is enough.
  unfoldable pub reduce_actions : ℕ → ℕ → ℕ → ArtifactRun A R → Tape → S → S × Phase A R
  unfolding scan_chunks max_of min_of
  reduce_actions zero left granularity current guide s =
      if length current.actions == 0 || left == 0
      then (s, reduced current guide left)
      else (s, unfinished)
  reduce_actions (suc fuel) left granularity current guide s =
      let size = length current.actions in
      let found =
        scan_chunks (λ s' actions. evaluate s' actions guide) left (chunk_size size granularity)
          current.actions 0 s in
      let stop : S × Phase A R = (s, reduced current guide left) in
      let next = elim found.1 as (λ x. S × Phase A R) [
        | scan_failed ↦ (found.0, phase_failed)
        | scanned left' (some candidate) ↦
            reduce_actions fuel left' (max_of 2 (granularity - 1)) candidate candidate.decisions
              found.0
        | scanned left' none ↦
            if leb size granularity
            then (found.0, reduced current guide left')
            else reduce_actions fuel left' (min_of size (granularity * 2)) current guide found.0
      ] in
      if size == 0 || left == 0 then stop else next

  -- The loop that removes entries of the guide.
  unfoldable pub reduce_guide : ℕ → ℕ → ℕ → ArtifactRun A R → Tape → S → S × Phase A R
  unfolding scan_chunks max_of min_of with_guide
  reduce_guide zero left granularity current guide s =
      if length guide.entries == 0 || left == 0
      then (s, reduced current guide left)
      else (s, unfinished)
  reduce_guide (suc fuel) left granularity current guide s =
      let size = length guide.entries in
      let try : S → List TapeEntry → S × Option ((ArtifactRun A R × Tape) × Bool) = λ s' entries.
        let tried = evaluate s' current.actions (record guide { entries = entries }) in
        (tried.0, with_guide (record guide { entries = entries }) tried.1) in
      let found = scan_chunks try left (chunk_size size granularity) guide.entries 0 s in
      let stop : S × Phase A R = (s, reduced current guide left) in
      let next = elim found.1 as (λ x. S × Phase A R) [
        | scan_failed ↦ (found.0, phase_failed)
        | scanned left' (some (candidate, candidate_guide)) ↦
            reduce_guide fuel left' (max_of 2 (granularity - 1)) candidate candidate_guide found.0
        | scanned left' none ↦
            if leb size granularity
            then (found.0, reduced current guide left')
            else reduce_guide fuel left' (min_of size (granularity * 2)) current guide found.0
      ] in
      if size == 0 || left == 0 then stop else next
