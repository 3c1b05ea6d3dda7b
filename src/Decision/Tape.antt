-- ===== src/Decision/Tape.antt =====
-- decision/decision.go: tapes of decisions, the recorder, and exact replay. A decider that the code is
-- given is a state with a step, `base`.
use d_raft.Base.{
  ℕ, ◌+◌, Bool, true, false, ◌||◌, not, Option, none, some, List, [], ◌∷◌, ◌++◌, String, ◌==◌, leb,
  if◌then◌else◌, length, get_elem?, drop, is_some, str_eq, Run, ok, ◌>>=◌,
}
use d_raft.Decision.Choice.{
  Choice, Selection, DecisionError, tape_exhausted, tape_mismatch, tape_not_consumed, no_base,
  Chosen, chosen, undecided, Codec, check_selection, validate_selection, Encoded, encoded,
  unencoded, canonical_unchecked, canonical_choice, bytes_equal,
}

pub record TapeEntry : Type 0 where
  pub choice : Choice
  pub domain_digest : String
  pub context_digest : String
  pub selection : Selection

pub record Tape : Type 0 where
  pub schema : String
  pub entries : List TapeEntry

abbrev pub schema_version : String
schema_version = "d-raft.decisions/v1"

-- What `newEntry` returns.
pub data Entered : Type 0 where
  entered : TapeEntry → Entered
  refused_entry : DecisionError → Entered

unfoldable pub build_entry : Codec → Choice → Selection → Encoded → Entered
build_entry codec c s (unencoded error) = refused_entry error
build_entry codec c s (encoded domain context) = entered (record {
  choice = c;
  domain_digest = codec.digest domain;
  context_digest = codec.digest context;
  selection = s;
})

unfoldable pub new_entry : Codec → Choice → Selection → Run Entered
new_entry codec c s = do
  checked ← validate_selection codec c s
  ok (elim checked [
    | some error ↦ refused_entry error
    | none ↦ build_entry codec c s (canonical_unchecked codec c)
  ])

-- `Recorder`; a base of `none` is nil.
pub record Recorder (S : Type 0) : Type 0 where
  pub base : Option S
  pub entries : List TapeEntry
  pub error : Option DecisionError

module _ {S : Type 0} (codec : Codec) (base : S → Choice → Run (S × Chosen)) where
  unfoldable pub fail_recorder : Recorder S → DecisionError → Recorder S × Chosen
  fail_recorder r error = (record r { error = some error }, undecided error)

  -- `Choose` once the base has answered.
  unfoldable pub record_chosen : Recorder S → Choice → Chosen → Run (Recorder S × Chosen)
  record_chosen r c (undecided error) = ok (fail_recorder r error)
  record_chosen r c (chosen s) = do
    e ← new_entry codec c s
    ok (elim e [
      | refused_entry error ↦ fail_recorder r error
      | entered entry ↦ (record r { entries = r.entries ++ entry ∷ [] }, chosen s)
    ])

  unfoldable pub ask_base : Recorder S → Choice → Option S → Run (Recorder S × Chosen)
  ask_base r c none = ok (fail_recorder r no_base)
  ask_base r c (some b) = do
    (b', answer) ← base b c
    record_chosen (record r { base = some b' }) c answer

  -- `Recorder.Choose`
  unfoldable pub record_choice : Recorder S → Choice → Run (Recorder S × Chosen)
  record_choice r c = elim r.error [
    | some error ↦ ok (r, undecided error)
    | none ↦ ask_base r c r.base
  ]

-- `Recorder.Tape`
unfoldable pub recorded_tape : {S : Type 0} → Recorder S → Tape
recorded_tape r = record { schema = schema_version; entries = r.entries }

-- `Recorder.Suffix`, for a start that is not negative.
unfoldable pub suffix : {S : Type 0} → Recorder S → ℕ → List TapeEntry
suffix r start = if leb start (length r.entries) then drop start r.entries else []

pub record TapeDecider : Type 0 where
  pub tape : Tape
  pub index : ℕ
  pub include_operation_ids : Bool

pub data Made : Type 0 where
  made : TapeDecider → Made
  unmade : DecisionError → Made

-- The body of `newTapeDecider`'s loop, with the encoding of the entry's choice: whether it is refused.
unfoldable pub encoded_refused : Codec → TapeEntry → Encoded → Run Bool
encoded_refused codec e (unencoded error) = ok true
encoded_refused codec e (encoded domain context) =
    let select = check_selection e.choice e.selection >>= λ checked. ok (is_some checked) in
    if not (str_eq (codec.digest domain) e.domain_digest)
      || not (str_eq (codec.digest context) e.context_digest)
    then ok true
    else select

unfoldable pub entry_refused : Codec → TapeEntry → Run Bool
entry_refused codec e = encoded_refused codec e (canonical_choice codec e.choice)

unfoldable pub entries_refused : Codec → List TapeEntry → Run Bool
entries_refused codec [] = ok false
entries_refused codec (e ∷ es) =
    let rest = entries_refused codec es in
    do refused ← entry_refused codec e; r ← if refused then ok true else rest; ok r

unfoldable pub new_tape_decider : Codec → Bool → Tape → Run Made
new_tape_decider codec ids tape =
    let check = do
      refused ← entries_refused codec tape.entries
      ok (
          if refused
          then unmade tape_mismatch
          else made (record { tape = tape; index = 0; include_operation_ids = ids }))
    in if not (str_eq tape.schema schema_version) then ok (unmade tape_mismatch) else check

-- `TapeDecider.Choose` on the entry at the index, with the encodings of the choice and of the entry's.
unfoldable pub replay_encoded :
    Codec → TapeDecider → TapeEntry → Choice → Encoded → Encoded → Run (TapeDecider × Chosen)
replay_encoded codec d e c (unencoded error) stored = ok (d, undecided error)
replay_encoded codec d e c (encoded domain context) (unencoded error) = ok (d, undecided error)
replay_encoded codec d e c (encoded domain context) (encoded domain' context') =
    let select = check_selection c e.selection >>= λ checked. ok (elim checked [
      | some error ↦ (d, undecided tape_mismatch)
      | none ↦ (record d { index = d.index + 1 }, chosen e.selection)
    ]) in
    if not (str_eq e.choice.id c.id)
      || not (str_eq e.choice.kind c.kind)
      || not (bytes_equal domain' domain)
      || not (bytes_equal context' context)
      || not (str_eq e.domain_digest (codec.digest domain))
      || not (str_eq e.context_digest (codec.digest context))
    then ok (d, undecided tape_mismatch)
    else select

unfoldable pub replay_entry : Codec → TapeDecider → TapeEntry → Choice → Run (TapeDecider × Chosen)
replay_entry codec d e c =
    replay_encoded codec d e c (canonical_choice codec c) (canonical_unchecked codec e.choice)

-- `TapeDecider.Choose`
unfoldable pub replay_choice : Codec → TapeDecider → Choice → Run (TapeDecider × Chosen)
replay_choice codec d c = elim (get_elem? d.tape.entries d.index) [
  | none ↦ ok (d, undecided tape_exhausted)
  | some e ↦ replay_entry codec d e c
]

-- `TapeDecider.Finish`
unfoldable pub finish : TapeDecider → Option DecisionError
finish d = if not (d.index == length d.tape.entries) then some tape_not_consumed else none
