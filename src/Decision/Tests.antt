-- ===== src/Decision/Tests.antt =====
-- decision/: a recording and its replay, and the theorems at work.
use d_raft.Base.{
  contains, ℕ, pos, ◌+◌, ◌≡◌, refl, arith, ◌==◌, if◌then◌else◌, true, false, none, some, List, [],
  ◌∷◌, Run, ok, length,
}
use d_raft.Decision.Choice.{
  Choice, Selection, Chosen, chosen, undecided, tape_exhausted, Codec, encoded, canonical_choice,
  validate_choice, same_bool, has_range, bad_bounds, options_error, canonical_unchecked,
  canonical_domain, canonical_context, validate_selection, check_selection, check_number, outside,
  has_option,
}
use d_raft.Decision.Tape.{
  TapeEntry, replay_choice, Recorder, record_choice, ask_base, record_chosen, new_entry,
  build_entry, recorded_tape, TapeDecider, made, new_tape_decider, finish,
}
use d_raft.Decision.Control.{keyed, choice_key, key_encoded, append_key_field, key_of, big_endian}
use d_raft.Decision.Replay.{Recording, stopped, recorded, Replaying, Recording-Replaying}
use d_raft.Decision.Keys.{Fits, choice_key_injective}

-- A codec with one digest, which tells nothing apart.
abbrev plain_codec : Codec
plain_codec = record {
  valid = λ x. true;
  marshal = λ kind os lo hi. some (length os ∷ []);
  squeeze = λ x. some x;
  digest = λ x. "digest";
  bytes = λ x. 1 ∷ [];
}

abbrev latency : Choice
latency = record {
  id = "network/1";
  kind = "network_latency";
  options = [];
  min = some (pos 1);
  max = some (pos 9);
  context = [];
}

abbrev loss : Choice
loss = record {
  id = "network/2";
  kind = "network_loss";
  options = record { id = "drop"; weight = 1 } ∷ record { id = "deliver"; weight = 3 } ∷ [];
  min = none;
  max = none;
  context = [];
}

abbrev five : Selection
five = record { option = ""; number = some (pos 5) }

abbrev delivery : Selection
delivery = record { option = "deliver"; number = none }

-- A base decider that gives five first, and "deliver" then.
abbrev scripted : ℕ → Choice → Run (ℕ × Chosen)
scripted turn c = ok (turn + 1, if turn == 0 then chosen five else chosen delivery)

abbrev recorder : ℕ → List TapeEntry → Recorder ℕ
recorder turn es = record { base = some turn; entries = es; error = none }

abbrev made_entry : Choice → Selection → TapeEntry
made_entry c s = record {
  choice = c;
  domain_digest = "digest";
  context_digest = "digest";
  selection = s;
}

abbrev both : List TapeEntry
both = made_entry latency five ∷ made_entry loss delivery ∷ []

abbrev session : List (Choice × Selection)
session = (latency, five) ∷ (loss, delivery) ∷ []

first_recorded :
    record_choice plain_codec scripted (recorder 0 []) latency
    ≡ ok (recorder 1 (made_entry latency five ∷ []), chosen five)
unfolding record_choice ask_base record_chosen new_entry validate_selection check_selection
    check_number outside has_option build_entry validate_choice same_bool has_range bad_bounds
    options_error canonical_unchecked canonical_domain canonical_context
first_recorded = refl

second_recorded :
    record_choice plain_codec scripted (recorder 1 (made_entry latency five ∷ [])) loss
    ≡ ok (recorder 2 both, chosen delivery)
unfolding contains record_choice ask_base record_chosen new_entry validate_selection check_selection
    check_number outside has_option build_entry validate_choice same_bool has_range bad_bounds
    options_error canonical_unchecked canonical_domain canonical_context
second_recorded = refl

recording : Recording plain_codec scripted (recorder 0 []) session (recorder 2 both)
recording = recorded first_recorded (recorded second_recorded stopped)

Recording-Replaying_example :
    (d d' : TapeDecider) × (new_tape_decider plain_codec false (recorded_tape (recorder 2 both))
      ≡ ok (made d))
    × Replaying plain_codec d session d'
    × (finish d' ≡ none)
Recording-Replaying_example =
    Recording-Replaying plain_codec scripted false (recorder 0 []) (recorder 2 both) session refl
      recording

exhausted :
    (replay_choice plain_codec
      (record { tape = recorded_tape (recorder 2 both); index = 2; include_operation_ids = false })
      loss)
    ≡ ok (
      record { tape = recorded_tape (recorder 2 both); index = 2; include_operation_ids = false },
      undecided tape_exhausted,
    )
unfolding replay_choice recorded_tape
exhausted = refl

latency_encoded :
    canonical_choice plain_codec latency ≡ encoded (0 ∷ []) (110 ∷ 117 ∷ 108 ∷ 108 ∷ [])
unfolding canonical_choice validate_choice same_bool has_range bad_bounds options_error
    canonical_unchecked canonical_domain canonical_context
latency_encoded = refl

abbrev latency_key : List ℕ
latency_key =
    0 ∷ 0 ∷ 0 ∷ 0 ∷ 0 ∷ 0 ∷ 0 ∷ 1 ∷ 1 ∷ 0 ∷ 0 ∷ 0 ∷ 0 ∷ 0 ∷ 0 ∷ 0 ∷ 1 ∷ 1 ∷ 0 ∷ 0 ∷ 0 ∷ 0 ∷ 0 ∷ 0
    ∷ 0 ∷ 1 ∷ 0 ∷ 0 ∷ 0 ∷ 0 ∷ 0 ∷ 0 ∷ 0 ∷ 0 ∷ 4 ∷ 110 ∷ 117 ∷ 108 ∷ 108 ∷ []

latency_keyed : choice_key plain_codec latency ≡ keyed latency_key
unfolding choice_key key_encoded key_of append_key_field big_endian canonical_choice validate_choice
    same_bool has_range bad_bounds options_error canonical_unchecked canonical_domain
    canonical_context
latency_keyed = refl

latency-Fits : Fits plain_codec latency (0 ∷ []) (110 ∷ 117 ∷ 108 ∷ 108 ∷ [])
latency-Fits = (omega arith, omega arith, omega arith, omega arith)

choice_key_injective_example :
    (plain_codec.bytes latency.id ≡ plain_codec.bytes latency.id)
    × (plain_codec.bytes latency.kind ≡ plain_codec.bytes latency.kind)
    × (◌≡◌ {A = List ℕ} (0 ∷ []) (0 ∷ []))
    × (◌≡◌ {A = List ℕ} (110 ∷ 117 ∷ 108 ∷ 108 ∷ []) (110 ∷ 117 ∷ 108 ∷ 108 ∷ []))
choice_key_injective_example =
    choice_key_injective plain_codec latency latency (0 ∷ []) (110 ∷ 117 ∷ 108 ∷ 108 ∷ []) (0 ∷ [])
      (110 ∷ 117 ∷ 108 ∷ 108 ∷ []) latency_key latency_encoded latency_encoded latency-Fits
      latency-Fits latency_keyed latency_keyed
