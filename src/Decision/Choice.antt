-- ===== src/Decision/Choice.antt =====
-- decision/decision.go: choices, selections, and their validation. JSON and SHA-256 are parameters.
use d_raft.Base.{
  ℕ, ℤ, pos, lt_int, Bool, true, false, ◌&&◌, ◌||◌, not, Option, none, some, List, [], ◌∷◌, String,
  ◌==◌, if◌then◌else◌, is_empty, is_some, str_eq, contains, Run, ok, ◌>>=◌, or_panic,
}

pub record WeightedOption : Type 0 where
  pub id : String
  pub weight : ℕ

pub record Choice : Type 0 where
  pub id : String
  pub kind : String
  pub options : List WeightedOption
  pub min : Option ℤ
  pub max : Option ℤ
  pub context : List ℕ

pub record Selection : Type 0 where
  pub option : String
  pub number : Option ℤ

pub data DecisionError : Type 0 where
  invalid_choice tape_exhausted tape_mismatch tape_not_consumed : DecisionError
  no_base no_fallback encoding_failed : DecisionError
  open_choice : ℕ → Choice → DecisionError
  base_error : ℕ → DecisionError

-- What a decider returns.
pub data Chosen : Type 0 where
  chosen : Selection → Chosen
  undecided : DecisionError → Chosen

-- `json.Valid`, `json.Marshal` of a kind and a domain, `json.Compact`, the hexadecimal SHA-256 of bytes,
-- and the bytes of a string.
pub record Codec : Type 0 where
  pub valid : List ℕ → Bool
  pub marshal : String → List WeightedOption → Option ℤ → Option ℤ → Option (List ℕ)
  pub squeeze : List ℕ → Option (List ℕ)
  pub digest : List ℕ → String
  pub bytes : String → List ℕ

-- `*choice.Min < 0 || *choice.Max < *choice.Min`, past the tests for nil.
unfoldable pub bad_bounds : Option ℤ → Option ℤ → Bool
bad_bounds (some lo) (some hi) = lt_int lo (pos 0) || lt_int hi lo
bad_bounds _ _ = true

-- The loop over the options; the first argument holds the identifiers seen.
unfoldable pub options_error : List String → List WeightedOption → Bool
options_error seen [] = false
options_error seen (o ∷ os) =
    if str_eq o.id "" || o.weight == 0 || contains seen o.id
    then true
    else options_error (o.id ∷ seen) os

unfoldable pub has_range : Choice → Bool
has_range c = is_some c.min || is_some c.max

-- `hasOptions == hasRange`
unfoldable pub same_bool : Bool → Bool → Bool
same_bool true b = b
same_bool false b = not b

unfoldable pub validate_choice : Codec → Choice → Option DecisionError
validate_choice codec c =
    if str_eq c.id "" || str_eq c.kind ""
    then some invalid_choice
    else if not (is_empty c.context) && not (codec.valid c.context)
    then some invalid_choice
    else if same_bool (not (is_empty c.options)) (has_range c)
        || has_range c && bad_bounds c.min c.max
    then some invalid_choice
    else if options_error [] c.options
    then some invalid_choice
    else none

unfoldable pub has_option : List WeightedOption → String → Bool
has_option [] id = false
has_option (o ∷ os) id = str_eq id o.id || has_option os id

-- `*selection.Number < *choice.Min || *selection.Number > *choice.Max`; a nil bound panics.
unfoldable pub outside : Choice → ℤ → Run Bool
outside c v = do
  lo ← or_panic c.min
  let upper = or_panic c.max >>= λ hi. ok (lt_int hi v)
  if lt_int v lo then ok true else upper

-- `validateSelection`, for a choice that is taken to be valid.
unfoldable pub check_number : Choice → Selection → Option ℤ → Run (Option DecisionError)
check_number c s none = ok (some invalid_choice)
check_number c s (some v) =
    let compared = outside c v >>= λ out. ok (if out then some invalid_choice else none) in
    if not (str_eq s.option "") then ok (some invalid_choice) else compared

unfoldable pub check_selection : Choice → Selection → Run (Option DecisionError)
check_selection c s =
    let by_option : Option DecisionError =
      if is_some s.number || str_eq s.option ""
      then some invalid_choice
      else if has_option c.options s.option
      then none
      else some invalid_choice in
    if not (is_empty c.options) then ok by_option else check_number c s s.number

unfoldable pub validate_selection : Codec → Choice → Selection → Run (Option DecisionError)
validate_selection codec c s = elim (validate_choice codec c) [
  | some error ↦ ok (some error)
  | none ↦ check_selection c s
]

-- `marshalCanonicalContext`: no context stands for the text `null`, given by its bytes.
unfoldable pub canonical_context : Codec → Choice → Option (List ℕ)
canonical_context codec c =
    codec.squeeze (if is_empty c.context then 110 ∷ 117 ∷ 108 ∷ 108 ∷ [] else c.context)

unfoldable pub canonical_domain : Codec → Choice → Option (List ℕ)
canonical_domain codec c = codec.marshal c.kind c.options c.min c.max

-- What the encoding of a choice gives: its domain and its context, or an error.
pub data Encoded : Type 0 where
  encoded : List ℕ → List ℕ → Encoded
  unencoded : DecisionError → Encoded

-- `canonicalChoiceUnchecked`
unfoldable pub canonical_unchecked : Codec → Choice → Encoded
canonical_unchecked codec c = elim (canonical_domain codec c) [
  | none ↦ unencoded encoding_failed
  | some domain ↦ elim (canonical_context codec c) [
    | none ↦ unencoded invalid_choice
    | some context ↦ encoded domain context
  ]
]

-- `canonicalChoice`
unfoldable pub canonical_choice : Codec → Choice → Encoded
canonical_choice codec c = elim (validate_choice codec c) [
  | some error ↦ unencoded error
  | none ↦ canonical_unchecked codec c
]

-- `bytes.Equal`
unfoldable pub bytes_equal : List ℕ → List ℕ → Bool
bytes_equal [] [] = true
bytes_equal (x ∷ xs) (y ∷ ys) = x == y && bytes_equal xs ys
bytes_equal _ _ = false
