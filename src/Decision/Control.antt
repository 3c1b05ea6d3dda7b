-- ===== src/Decision/Control.antt =====
-- decision/control.go: deciders that replay a prefix, and guided replay by the key of a choice.
use d_raft.Base.{
  ℕ, zero, suc, ◌/◌, ◌%◌, ◌^◌, false, Option, none, some, List, [], ◌∷◌, ◌++◌, ltb, if◌then◌else◌,
  length, is_some, Run, ok, ◌>>=◌,
}
use d_raft.Decision.Choice.{
  Choice, DecisionError, open_choice, no_fallback, tape_mismatch, Chosen, chosen, undecided, Codec,
  validate_choice, Encoded, encoded, unencoded, canonical_choice, bytes_equal,
}
use d_raft.Decision.Tape.{
  TapeEntry, Tape, TapeDecider, Made, made, unmade, new_tape_decider, replay_choice, finish,
}

pub record PrefixDecider : Type 0 where
  pub replay : TapeDecider
  pub length : ℕ

-- What the constructors of this file return.
pub data Constructed (D : Type 0) : Type 0 where
  constructed : D → Constructed D
  unconstructed : DecisionError → Constructed D

unfoldable prefix_of : Tape → Made → Constructed PrefixDecider
prefix_of tape (unmade error) = unconstructed error
prefix_of tape (made d) = constructed (record { replay = d; length = length tape.entries })

unfoldable new_prefix_decider : Codec → Tape → Run (Constructed PrefixDecider)
new_prefix_decider codec tape = new_tape_decider codec false tape >>= λ m. ok (prefix_of tape m)

unfoldable prefix_choice : Codec → PrefixDecider → Choice → Run (PrefixDecider × Chosen)
prefix_choice codec d c =
    let replayed = replay_choice codec d.replay c >>= λ r. ok (record d { replay = r.0 }, r.1) in
    let beyond : Chosen = elim (validate_choice codec c) [
      | some error ↦ undecided error
      | none ↦ undecided (open_choice d.length c)
    ] in
    if ltb d.replay.index d.length then replayed else ok (d, beyond)

unfoldable prefix_finish : PrefixDecider → Option DecisionError
prefix_finish d = finish d.replay

pub record PrefixThenDecider (F : Type 0) : Type 0 where
  pub replay : TapeDecider
  pub length : ℕ
  pub fallback : F

pub record GuidedDecider (F : Type 0) : Type 0 where
  pub entries : List (List ℕ × TapeEntry)
  pub fallback : F

-- The `count` lowest base-256 digits of a number, the highest first: `binary.BigEndian.AppendUint64`
-- for 8 of them.
unfoldable pub big_endian : ℕ → ℕ → List ℕ
big_endian zero n = []
big_endian (suc count) n = (n / 256 ^ count) % 256 ∷ big_endian count n

unfoldable pub append_key_field : List ℕ → List ℕ → List ℕ
append_key_field destination field = (destination ++ big_endian 8 (length field)) ++ field

-- The key of a choice, or an error. `codec.bytes` gives the bytes of a string.
unfoldable pub key_of : Codec → Choice → List ℕ → List ℕ → List ℕ
key_of codec c domain context =
    append_key_field
      (append_key_field
        (append_key_field (append_key_field [] (codec.bytes c.id)) (codec.bytes c.kind)) domain)
      context

pub data Keyed : Type 0 where
  keyed : List ℕ → Keyed
  unkeyed : DecisionError → Keyed

unfoldable pub key_encoded : Codec → Choice → Encoded → Keyed
key_encoded codec c (unencoded error) = unkeyed error
key_encoded codec c (encoded domain context) = keyed (key_of codec c domain context)

unfoldable pub choice_key : Codec → Choice → Keyed
choice_key codec c = key_encoded codec c (canonical_choice codec c)

unfoldable find_key : List (List ℕ × TapeEntry) → List ℕ → Option TapeEntry
find_key [] key = none
find_key ((k, e) ∷ entries) key = if bytes_equal k key then some e else find_key entries key

module _ {F : Type 0} (codec : Codec) (choose : F → Choice → Run (F × Chosen)) where
  unfoldable then_of : Tape → F → Made → Constructed (PrefixThenDecider F)
  then_of tape f (unmade error) = unconstructed error
  then_of tape f (made d) =
      constructed (record { replay = d; length = length tape.entries; fallback = f })

  -- `NewPrefixThenDecider`; a fallback of `none` is nil.
  unfoldable new_prefix_then_decider : Tape → Option F → Run (Constructed (PrefixThenDecider F))
  new_prefix_then_decider tape none = ok (unconstructed no_fallback)
  new_prefix_then_decider tape (some f) =
      new_tape_decider codec false tape >>= λ m. ok (then_of tape f m)

  unfoldable then_choice : PrefixThenDecider F → Choice → Run (PrefixThenDecider F × Chosen)
  then_choice d c =
      let replayed = replay_choice codec d.replay c >>= λ r. ok (record d { replay = r.0 }, r.1) in
      let delegated = choose d.fallback c >>= λ r. ok (record d { fallback = r.0 }, r.1) in
      if ltb d.replay.index d.length then replayed else delegated

  -- The loop of `NewGuidedDecider`.
  unfoldable guide_entries :
      List (List ℕ × TapeEntry) → List TapeEntry → F → Constructed (GuidedDecider F)
  guide_entries entries [] f = constructed (record { entries = entries; fallback = f })
  guide_entries entries (e ∷ es) f = elim (choice_key codec e.choice) [
    | unkeyed error ↦ unconstructed error
    | keyed key ↦
        let rest = guide_entries (entries ++ (key, e) ∷ []) es f in
        if is_some (find_key entries key) then unconstructed tape_mismatch else rest
  ]

  unfoldable guided_of : Tape → F → Made → Constructed (GuidedDecider F)
  guided_of tape f (unmade error) = unconstructed error
  guided_of tape f (made d) = guide_entries [] tape.entries f

  unfoldable new_guided_decider : Tape → Option F → Run (Constructed (GuidedDecider F))
  new_guided_decider tape none = ok (unconstructed no_fallback)
  new_guided_decider tape (some f) =
      new_tape_decider codec false tape >>= λ m. ok (guided_of tape f m)

  unfoldable guided_choice : GuidedDecider F → Choice → Run (GuidedDecider F × Chosen)
  guided_choice d c =
      let delegated = choose d.fallback c >>= λ r. ok (record d { fallback = r.0 }, r.1) in
      elim (choice_key codec c) [
        | unkeyed error ↦ ok (d, undecided error)
        | keyed key ↦ elim (find_key d.entries key) [
          | some e ↦ ok (d, chosen e.selection)
          | none ↦ delegated
        ]
      ]
