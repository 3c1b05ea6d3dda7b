-- ===== src/Minimize/Simpler.antt =====
-- minimize/minimize.go: the selections that are simpler than the one of an entry. A number is at most
-- 2^63 above its minimum, which a valid choice has at 0 or above.
use d_raft.Base.{
  ◌≡◌, ◌≤◌, refl, inl, inr, Bool-cases, arith, ap, ℕ, zero, suc, ◌+◌, ◌-◌, ◌/◌, ℤ, pos, negsuc,
  lt_int, Bool, false, not, ◌&&◌, ◌||◌, none, some, List, [], ◌++◌, ◌∷◌, String, str_eq, ltb, leb,
  if◌then◌else◌, Run, ok, ◌>>=◌, or_panic,
}
use d_raft.Decision.Choice.{WeightedOption, Choice, Selection}
use d_raft.Decision.Tape.{TapeEntry}

option_exists : List WeightedOption → String → Bool
option_exists [] id = false
option_exists (option ∷ options) id = str_eq option.id id || option_exists options id

selection_exists : List Selection → Selection → Bool
selection_exists [] target = false
selection_exists (selection ∷ selections) target =
    str_eq selection.option target.option || selection_exists selections target

abbrev by_option : String → Selection
by_option id = record { option = id; number = none }

abbrev by_number : ℤ → Selection
by_number n = record { option = ""; number = some n }

-- The loop over the options that are preferred, of which "drop" is the first and the choice's first
-- the second; `result` has the selections so far.
preferred_selections : Choice → String → List Selection → List String → List Selection
unfolding option_exists selection_exists
preferred_selections c current result [] = result
preferred_selections c current result (preferred ∷ more) =
    let wanted =
      not (str_eq preferred current)
      && option_exists c.options preferred
      && not (selection_exists result (by_option preferred)) in
    let with_it = preferred_selections c current (result ++ by_option preferred ∷ []) more in
    let without_it = preferred_selections c current result more in
    if wanted then with_it else without_it

-- How far a number is above a lower one.
distance : ℤ → ℤ → ℕ
distance (pos a) (pos b) = b - a
distance (negsuc a) (pos b) = b + a + 1
distance (negsuc a) (negsuc b) = a - b
distance (pos a) (negsuc b) = 0

raise : ℤ → ℕ → ℤ
raise (pos a) k = pos (a + k)
raise (negsuc a) k = if leb k a then negsuc (a - k) else pos (k - (a + 1))

-- The loop over the cursor, by its distance from the minimum; each round at least takes one from the
-- distance that is left, so that as much fuel as the whole distance is enough.
pub cursor_offsets : ℕ → ℕ → ℕ → List ℕ
cursor_offsets zero original cursor = []
cursor_offsets (suc fuel) original cursor =
    let rest = cursor_offsets fuel original (cursor + (original - cursor) / 2) in
    if ltb 0 cursor && ltb cursor original
    then cursor ∷ (if leb (original - cursor) 1 then [] else rest)
    else []

numbers_at : ℤ → List ℕ → List Selection
unfolding raise
numbers_at minimum [] = []
numbers_at minimum (k ∷ ks) = by_number (raise minimum k) ∷ numbers_at minimum ks

simpler_numbers : ℤ → ℤ → List Selection
unfolding distance numbers_at cursor_offsets
simpler_numbers minimum original =
    let span = distance minimum original in
    if not (lt_int minimum original)
    then []
    else by_number minimum ∷ numbers_at minimum (cursor_offsets span span (span / 2))

unfoldable pub simpler_selections : TapeEntry → Run (List Selection)
unfolding preferred_selections simpler_numbers
simpler_selections entry = elim entry.choice.options [
  | first ∷ options ↦
      ok (preferred_selections entry.choice entry.selection.option [] ("drop" ∷ first.id ∷ []))
  | [] ↦ elim entry.selection.number [
    | none ↦ ok []
    | some original ↦ do minimum ← or_panic entry.choice.min; ok (simpler_numbers minimum original)
  ]
]

-- Fuel beyond the distance that is left changes nothing.
cursor_offsets-suc :
    (fuel original cursor : ℕ)
    → original ≤ fuel + cursor
    → cursor_offsets (suc fuel) original cursor ≡ cursor_offsets fuel original cursor
unfolding cursor_offsets
cursor_offsets-suc zero original cursor h = ground arith
cursor_offsets-suc (suc fuel) original cursor h =
    let next = cursor + (original - cursor) / 2 in
    elim (Bool-cases (leb (original - cursor) 1)) [
      | inl close ↦ rw close refl
      | inr apart ↦
          let rest = cursor_offsets-suc fuel original next (ground arith) in
          ap
            (λ (r : List ℕ).
              if ltb 0 cursor && ltb cursor original
              then cursor ∷ (if leb (original - cursor) 1 then [] else r)
              else [])
            rest
    ]
