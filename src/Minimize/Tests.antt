-- ===== src/Minimize/Tests.antt =====
-- Minimisation: a run on concrete values, and the theorem at work on it.
use d_raft.Base.{ℕ, pos, ◌+◌, Bool, false, Option, some, List, [], ◌∷◌, ◌==◌, ◌||◌}
use d_raft.Decision.Tape.{Tape, TapeEntry, schema_version}
use d_raft.Minimize.Reduce.{ArtifactRun}
use d_raft.Minimize.Minimal.{Minimal}

-- A latency between 0 and 9, for which 6 was selected.
abbrev latency_entry : TapeEntry
latency_entry = record {
  choice = record {
    id = "n";
    kind = "latency";
    options = [];
    min = some (pos 0);
    max = some (pos 9);
    context = [];
  };
  domain_digest = "d";
  context_digest = "c";
  selection = record { option = ""; number = some (pos 6) };
}

abbrev one_latency : Tape
one_latency = record { schema = schema_version; entries = latency_entry ∷ [] }

-- The actions 1 to 4, of which 3 has the violation.
abbrev four_actions : ArtifactRun ℕ ℕ
four_actions = record { actions = 1 ∷ 2 ∷ 3 ∷ 4 ∷ []; decisions = one_latency; remainder = 0 }

has_three : List ℕ → Bool
has_three [] = false
has_three (n ∷ ns) = n == 3 || has_three ns

-- An evaluator that counts its calls.
run_of : ℕ → List ℕ → Tape → ℕ × Option (ArtifactRun ℕ ℕ × Bool)
unfolding has_three
run_of count actions guide = (
  count + 1,
  some (record { actions = actions; decisions = one_latency; remainder = 0 }, has_three actions),
)

same_count : ℕ → ℕ
same_count count = count
