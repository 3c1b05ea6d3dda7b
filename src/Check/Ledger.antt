-- ===== src/Check/Ledger.antt =====
-- check/check.go: the checker's state and the recording of violations. The fingerprint, a hash of a
-- JSON text, is a parameter: a function of the identifier, the sorted nodes and the evidence.
use d_raft.Base.{
  ℕ, Bool, Option, none, some, List, [], ◌∷◌, ◌++◌, String, ◌==◌, if◌then◌else◌, contains, str_eq,
  sort,
}
use d_raft.Raft.Types.{NodeId, Membership, Entry, HardState, PersistentState, Snapshot}
use d_raft.Raft.Observe.{Status}

pub record NodeObservation : Type 0 where
  pub id : NodeId
  pub up : Bool
  pub status : Option Status
  pub durable : PersistentState
  pub applied_index : ℕ
  pub applied : List Entry

pub record Observation : Type 0 where
  pub at : ℕ
  pub members : List NodeId
  pub nodes : List NodeObservation

pub record EntryWitness : Type 0 where
  pub node : NodeId
  pub entry : Entry
  pub commit_term : ℕ

pub record SnapshotWitness : Type 0 where
  pub node : NodeId
  pub snapshot : Snapshot

-- The invariants, each with the evidence that the code marshals for a violation.
pub data Evidence : Type 0 where
  election_safety : ℕ → NodeId → NodeId → Evidence
  election_certificate : ℕ → List NodeId → Membership → Evidence
  durable_term_monotonic : ℕ → ℕ → Evidence
  durable_double_vote : ℕ → NodeId → NodeId → Evidence
  volatile_durable_match : Status → HardState → Evidence
  log_matching : ℕ → ℕ → ℕ → Evidence
  leader_completeness : ℕ → ℕ → EntryWitness → Evidence
  committed_conflict : ℕ → EntryWitness → EntryWitness → Evidence
  commit_monotonic : ℕ → ℕ → Evidence
  applied_conflict : ℕ → EntryWitness → EntryWitness → Evidence
  applied_monotonic : ℕ → ℕ → Evidence
  snapshot_conflict : ℕ → SnapshotWitness → SnapshotWitness → Evidence
  snapshot_membership_invalid : Membership → Evidence
  membership_transition : ℕ → Membership → Entry → Evidence
  membership_carried : ℕ → Entry → Evidence

pub record Violation : Type 0 where
  pub at_ns : ℕ
  pub nodes : List NodeId
  pub evidence : Evidence
  pub fingerprint : String

pub record Checker : Type 0 where
  pub members : List NodeId
  pub initial : Membership
  pub seen : List String
  pub leaders : List (ℕ × NodeId)
  pub votes : List (NodeId × List (ℕ × NodeId))
  pub durable_terms : List (NodeId × ℕ)
  pub commit_indexes : List (NodeId × ℕ)
  pub applied_indexes : List (NodeId × ℕ)
  pub committed : List (ℕ × EntryWitness)
  pub applied : List (ℕ × EntryWitness)
  pub snapshots : List (ℕ × SnapshotWitness)
  pub violations : List Violation

unfoldable pub new_checker : List NodeId → Membership → Checker
new_checker members initial = record {
  members = sort members;
  initial = initial;
  seen = [];
  leaders = [];
  votes = [];
  durable_terms = [];
  commit_indexes = [];
  applied_indexes = [];
  committed = [];
  applied = [];
  snapshots = [];
  violations = [];
}

-- Go maps with keys of the two kinds.
unfoldable pub find_index {ℓ} : {A : Type ℓ} → List (ℕ × A) → ℕ → Option A
find_index [] k = none
find_index ((j, v) ∷ m) k = if j == k then some v else find_index m k

unfoldable pub put_index {ℓ} : {A : Type ℓ} → List (ℕ × A) → ℕ → A → List (ℕ × A)
put_index [] k v = (k, v) ∷ []
put_index ((j, w) ∷ m) k v = if j == k then (j, v) ∷ m else (j, w) ∷ put_index m k v

unfoldable pub find_node {ℓ} : {A : Type ℓ} → List (NodeId × A) → NodeId → Option A
find_node [] k = none
find_node ((j, v) ∷ m) k = if str_eq j k then some v else find_node m k

unfoldable pub put_node {ℓ} : {A : Type ℓ} → List (NodeId × A) → NodeId → A → List (NodeId × A)
put_node [] k v = (k, v) ∷ []
put_node ((j, w) ∷ m) k v = if str_eq j k then (j, v) ∷ m else (j, w) ∷ put_node m k v

-- `c.add`
unfoldable pub add_violation :
    (List NodeId → Evidence → String) → Checker → ℕ → List NodeId → Evidence → Checker
add_violation fingerprint c at nodes evidence =
    let print = fingerprint (sort nodes) evidence in
    if contains c.seen print then c else record c {
      seen = print ∷ c.seen;
      violations =
          c.violations
          ++ record { at_ns = at; nodes = sort nodes; evidence = evidence; fingerprint = print }
            ∷ [];
    }
