-- ===== src/Decision/Replay.antt =====
-- decision/decision.go: what a recorder has recorded, a tape decider replays.
use mathlib.Core.List.{append_assoc, append-nil}
use d_raft.Base.{
  ℕ, ◌+◌, ◌≡◌, refl, sym, ap, ◌∙◌, inl, inr, Bool, true, false, none, some, List, [], ◌∷◌, ◌++◌,
  String, arith, length, length-append, get_elem?, str_eq, str_eq_iff, Run, ok, Option-cases,
  Run-cases,
}
use d_raft.Decision.Choice.{
  Choice, Selection, Chosen, chosen, undecided, Codec, validate_choice, check_selection,
  validate_selection, Encoded, encoded, unencoded, canonical_unchecked, canonical_choice,
  bytes_equal,
}
use d_raft.Decision.Tape.{
  TapeEntry, Entered, entered, refused_entry, build_entry, new_entry, Recorder, fail_recorder,
  record_chosen, ask_base, record_choice, recorded_tape, TapeDecider, made, entry_refused,
  entries_refused, new_tape_decider, encoded_refused, replay_encoded, replay_entry, replay_choice,
  finish,
}

-- What an entry that was made records: its choice is valid and encoded, and its selection is valid.
pub record Recorded (codec : Codec) (c : Choice) (s : Selection) (e : TapeEntry) : Type 0 where
  pub valid : validate_choice codec c ≡ none
  pub selects : check_selection c s ≡ ok none
  pub domain : List ℕ
  pub context : List ℕ
  pub encodes : canonical_unchecked codec c ≡ encoded domain context
  pub entry : e ≡ record {
    choice = c;
    domain_digest = codec.digest domain;
    context_digest = codec.digest context;
    selection = s;
  }

bytes_equal_refl : (xs : List ℕ) → bytes_equal xs xs ≡ true
unfolding bytes_equal
bytes_equal_refl [] = refl
bytes_equal_refl (x ∷ xs) = ground (arith, bytes_equal_refl xs)

str_eq_refl : (x : String) → str_eq x x ≡ true
str_eq_refl x = (str_eq_iff x x).1 refl

canonical_choice-Recorded :
    (codec : Codec) (c : Choice) (s : Selection) (e : TapeEntry) (r : Recorded codec c s e)
    → canonical_choice codec c ≡ encoded r.domain r.context
unfolding canonical_choice
canonical_choice-Recorded codec c s e r = rw (r.valid, canonical_choice) r.encodes

entry_refused-Recorded :
    (codec : Codec) (c : Choice) (s : Selection) (e : TapeEntry)
    → Recorded codec c s e
    → entry_refused codec e ≡ ok false
unfolding entry_refused encoded_refused
entry_refused-Recorded codec c s e r =
    rw (r.entry, canonical_choice-Recorded codec c s e r)
      (ground (
        arith,
        str_eq_refl (codec.digest r.domain),
        str_eq_refl (codec.digest r.context),
        r.selects,
      ))

replay_entry-Recorded :
    (codec : Codec) (d : TapeDecider) (c : Choice) (s : Selection) (e : TapeEntry)
    → Recorded codec c s e
    → replay_entry codec d e c ≡ ok (record d { index = d.index + 1 }, chosen s)
unfolding replay_entry replay_encoded
replay_entry-Recorded codec d c s e r =
    rw (r.entry, canonical_choice-Recorded codec c s e r, r.encodes)
      (ground (
        arith,
        bytes_equal_refl r.domain,
        bytes_equal_refl r.context,
        str_eq_refl c.id,
        str_eq_refl c.kind,
        str_eq_refl (codec.digest r.domain),
        str_eq_refl (codec.digest r.context),
        r.selects,
      ))

new_entry-Recorded :
    (codec : Codec) (c : Choice) (s : Selection) (e : TapeEntry)
    → new_entry codec c s ≡ ok (entered e)
    → Recorded codec c s e
unfolding new_entry validate_selection build_entry
new_entry-Recorded codec c s e h = elim (Option-cases (validate_choice codec c)) [
  | inr (error, invalid) ↦ absurd (ground arith)
  | inl valid ↦ elim (Run-cases (check_selection c s)) [
    | inl panics ↦ absurd (ground arith)
    | inr (checked, run) ↦ elim (Option-cases checked) [
      | inr (error, refused) ↦ absurd (ground arith)
      | inl fine ↦ built (canonical_unchecked codec c) refl valid (ground arith) (ground arith)
    ]
  ]
]
  where
    built :
        (x : Encoded)
        → canonical_unchecked codec c ≡ x
        → validate_choice codec c ≡ none
        → check_selection c s ≡ ok none
        → build_entry codec c s x ≡ entered e
        → Recorded codec c s e
    built (unencoded error) is valid fine made_up = absurd (ground arith)
    built (encoded domain context) is valid fine made_up = record {
      valid = valid;
      selects = fine;
      domain = domain;
      context = context;
      encodes = is;
      entry = ground arith;
    }

-- A recording: the choices that a recorder answers in turn, with its selections.
pub data Recording {S : Type 0} (codec : Codec) (base : S → Choice → Run (S × Chosen))
    : Recorder S → List (Choice × Selection) → Recorder S → Type 0 where
  stopped : {r : Recorder S} → Recording codec base r [] r
  recorded :
      {c : Choice} {s : Selection} {rest : List (Choice × Selection)} {r r' r'' : Recorder S}
      → record_choice codec base r c ≡ ok (r', chosen s)
      → Recording codec base r' rest r''
      → Recording codec base r ((c, s) ∷ rest) r''

-- A replay: the choices that a tape decider answers in turn, with its selections.
pub data Replaying (codec : Codec)
    : TapeDecider → List (Choice × Selection) → TapeDecider → Type 0 where
  finished : {d : TapeDecider} → Replaying codec d [] d
  replayed :
      {c : Choice} {s : Selection} {rest : List (Choice × Selection)} {d d' d'' : TapeDecider}
      → replay_choice codec d c ≡ ok (d', chosen s)
      → Replaying codec d' rest d''
      → Replaying codec d ((c, s) ∷ rest) d''

-- Each entry records its choice and selection.
abbrev Session : Codec → List (Choice × Selection) → List TapeEntry → Type 0
Session codec [] [] = Unit {0}
Session codec ((c, s) ∷ rest) (e ∷ es) = Recorded codec c s e × Session codec rest es
Session codec _ _ = ⊥

-- What a call of the recorder that answers adds to the tape.
record Extended {S : Type 0} (codec : Codec) (c : Choice) (s : Selection) (r r' : Recorder S)
    : Type 0 where
  pub entry : TapeEntry
  pub recording : Recorded codec c s entry
  pub entries : r'.entries ≡ r.entries ++ entry ∷ []

get_elem?_middle :
    (before : List TapeEntry) (e : TapeEntry) (es : List TapeEntry)
    → get_elem? (before ++ e ∷ es) (length before) ≡ some e
get_elem?_middle [] e es = refl
get_elem?_middle (x ∷ before) e es = get_elem?_middle before e es

module _ {S : Type 0} (codec : Codec) (base : S → Choice → Run (S × Chosen)) where
  record_chosen-Extended :
      (r r' : Recorder S) (c : Choice) (answer : Chosen) (s : Selection)
      → record_chosen codec base r c answer ≡ ok (r', chosen s)
      → Extended codec c s r r'
  unfolding record_chosen fail_recorder
  record_chosen-Extended r r' c (undecided error) s h = absurd (ground arith)
  record_chosen-Extended r r' c (chosen t) s h = elim (Run-cases (new_entry codec c t)) [
    | inl panics ↦ absurd (ground arith)
    | inr (e, run) ↦ made_of e run (ground arith)
  ]
    where
      made_of :
          (e : Entered)
          → new_entry codec c t ≡ ok e
          → (elim e as (λ _. Recorder S × Chosen) [
            | refused_entry error ↦ fail_recorder codec base r error
            | entered entry ↦ (record r { entries = r.entries ++ entry ∷ [] }, chosen t)
          ])
            ≡ (r', chosen s)
          → Extended codec c s r r'
      made_of (refused_entry error) run is = absurd (ground arith)
      made_of (entered entry) run is =
          let same : s ≡ t = ground arith in
          record {
            entry = entry;
            recording =
                new_entry-Recorded codec c s entry (ap (λ u. new_entry codec c u) same ∙ run);
            entries = ap (λ (k : Recorder S × Chosen). k.0.entries) (sym is);
          }

  -- `Recorder.Choose` with an answer, on a recorder with no error, adds an entry, and leaves no error.
  record_choice-Extended :
      (r r' : Recorder S) (c : Choice) (s : Selection)
      → record_choice codec base r c ≡ ok (r', chosen s)
      → Extended codec c s r r'
  unfolding record_choice ask_base fail_recorder
  record_choice-Extended r r' c s h = elim (Option-cases r.error) [
    | inr (error, failed) ↦ absurd (ground arith)
    | inl fine ↦ elim (Option-cases r.base) [
      | inl missing ↦ absurd (ground arith)
      | inr (b, held) ↦ elim (Run-cases (base b c)) [
        | inl panics ↦ absurd (ground arith)
        | inr (answered, run) ↦
            let x =
              record_chosen-Extended (record r { base = some answered.0 }) r' c answered.1 s
                (ground arith) in
            record { entry = x.entry; recording = x.recording; entries = x.entries }
      ]
    ]
  ]

  -- A recording extends the tape by entries that record it.
  Recording-Session :
      (r r' : Recorder S) (session : List (Choice × Selection))
      → Recording codec base r session r'
      → (es : List TapeEntry) × (r'.entries ≡ r.entries ++ es) × Session codec session es
  Recording-Session r r' session stopped = ([], sym (append-nil r.entries), tt)
  Recording-Session r r' session (recorded {c = c} {s = s} {r' = r1} answer rest) =
      let x = record_choice-Extended r r1 c s answer in
      let (es, tail, recorded_tail) = Recording-Session r1 r' _ rest in
      (
        x.entry ∷ es,
        tail ∙ ap (λ l. l ++ es) x.entries ∙ append_assoc r.entries (x.entry ∷ []) es,
        (x.recording, recorded_tail),
      )

  entries_refused-Session :
      (session : List (Choice × Selection)) (es : List TapeEntry)
      → Session codec session es
      → entries_refused codec es ≡ ok false
  unfolding entries_refused
  entries_refused-Session [] [] h = refl
  entries_refused-Session ((c, s) ∷ rest) (e ∷ es) h =
      rw (entry_refused-Recorded codec c s e h.0, entries_refused-Session rest es h.1) refl
  entries_refused-Session [] (e ∷ es) h = absurd h
  entries_refused-Session (x ∷ xs) [] h = absurd h

  -- From where the entries begin, a tape decider replays what they record, to the end.
  Session-Replaying :
      (d : TapeDecider) (before : List TapeEntry) (session : List (Choice × Selection))
      (es : List TapeEntry)
      → d.tape.entries ≡ before ++ es
      → d.index ≡ length before
      → Session codec session es
      → (d' : TapeDecider) × Replaying codec d session d' × (finish d' ≡ none)
  unfolding finish replay_choice
  Session-Replaying d before [] [] tape at h = (
    d,
    finished,
    let size : length d.tape.entries ≡ length before = ap length (tape ∙ append-nil before) in
        ground arith,
  )
  Session-Replaying d before ((c, s) ∷ rest) (e ∷ es) tape at h =
      let d1 = record d { index = d.index + 1 } in
      let (d', run, all) =
        Session-Replaying d1 (before ++ e ∷ []) rest es
          (tape ∙ sym (append_assoc before (e ∷ []) es))
          (omega (arith, length-append {0} before (e ∷ []))) h.1 in
      let found : get_elem? d.tape.entries d.index ≡ some e =
        ap (λ (i : ℕ). get_elem? d.tape.entries i) at
        ∙ ap (λ l. get_elem? l (length before)) tape
        ∙ get_elem?_middle before e es in
      (d', replayed (rw (found, replay_choice) (replay_entry-Recorded codec d c s e h.0)) run, all)
  Session-Replaying d before [] (e ∷ es) tape at h = absurd h
  Session-Replaying d before (x ∷ xs) [] tape at h = absurd h

  -- What a recorder with an empty tape has answered, a tape decider for its tape answers: the decider is
  -- made, gives every recorded choice its selection, in order, and finishes.
  pub Recording-Replaying :
      (ids : Bool) (r r' : Recorder S) (session : List (Choice × Selection))
      → r.entries ≡ []
      → Recording codec base r session r'
      → (d d' : TapeDecider) × (new_tape_decider codec ids (recorded_tape r') ≡ ok (made d))
        × Replaying codec d session d'
        × (finish d' ≡ none)
  unfolding new_tape_decider recorded_tape
  Recording-Replaying ids r r' session empty run =
      let (es, entries, kept) = Recording-Session r r' session run in
      let all : r'.entries ≡ es = entries ∙ ap (λ l. l ++ es) empty in
      let d : TapeDecider = record {
        tape = recorded_tape r';
        index = 0;
        include_operation_ids = ids;
      } in
      let (d', replays, ends) = Session-Replaying d [] session es all refl kept in
      let accepted : entries_refused codec r'.entries ≡ ok false =
        ap (entries_refused codec) all ∙ entries_refused-Session session es kept in
      (d, d', rw accepted refl, replays, ends)
