-- ===== src/Decision/Seeded.antt =====
-- decision/decision.go: SeedDecider, which chooses by a seeded stream.
use d_raft.Base.{
  ℕ, ℤ, pos, negsuc, lt_int, ◌+◌, ◌-◌, ◌%◌, ◌^◌, ◌&&◌, not, Option, none, some, List, [], ◌∷◌,
  String, ltb, if◌then◌else◌, u64, add_u64, max_uint64, Run, ok, panic, ◌>>=◌, or_panic,
}
use d_raft.Sim.Random.{Rand, uint64_below}
use d_raft.Decision.Choice.{
  WeightedOption, Choice, invalid_choice, Chosen, chosen, undecided, Codec, validate_choice,
}

-- `uint64(v)` and `int64(x)`, in two's complement.
unfoldable pub to_u64 : ℤ → ℕ
to_u64 (pos a) = a % u64
to_u64 (negsuc k) = u64 - 1 - k % u64

unfoldable pub from_u64 : ℕ → ℤ
from_u64 x = if ltb x (2 ^ 63) then pos x else negsuc (u64 - 1 - x)

-- The sum of the weights; `none` is an overflow.
unfoldable pub total_weight : ℕ → List WeightedOption → Option ℕ
total_weight total [] = some total
total_weight total (o ∷ os) =
    if ltb (max_uint64 - total) o.weight then none else total_weight (total + o.weight) os

-- The loop that finds the option of a draw; past the options the code panics.
unfoldable pub pick : ℕ → List WeightedOption → Run String
pick draw [] = panic
pick draw (o ∷ os) = if ltb draw o.weight then ok o.id else pick (draw - o.weight) os

-- A drawing that still runs is `none`.
abbrev pub Drawn : Type 0
Drawn = Option (Rand × Chosen)

abbrev pub option_chosen : String → Chosen
option_chosen id = chosen (record { option = id; number = none })

abbrev pub number_chosen : ℤ → Chosen
number_chosen v = chosen (record { option = ""; number = some v })

unfoldable pub draw_option : List WeightedOption → Option (Rand × ℕ) → Run Drawn
draw_option os none = ok none
draw_option os (some (r, draw)) = pick draw os >>= λ id. ok (some (r, option_chosen id))

unfoldable pub choose_option : ℕ → Rand → List WeightedOption → Run Drawn
choose_option fuel r (o ∷ []) = ok (some (r, option_chosen o.id))
choose_option fuel r os = elim (total_weight 0 os) [
  | none ↦ ok (some (r, undecided invalid_choice))
  | some total ↦ uint64_below fuel total r >>= draw_option os
]

unfoldable pub shift_number : ℤ → Option (Rand × ℕ) → Drawn
shift_number lo none = none
shift_number lo (some (r, draw)) = some (r, number_chosen (from_u64 (add_u64 (to_u64 lo) draw)))

-- `uint64(*choice.Max-*choice.Min) + 1`
unfoldable pub span : ℤ → ℤ → ℕ
span lo hi = add_u64 ((to_u64 hi + (u64 - to_u64 lo)) % u64) 1

unfoldable pub choose_number : ℕ → Rand → ℤ → ℤ → Run Drawn
choose_number fuel r lo hi =
    let draw = uint64_below fuel (span lo hi) r >>= λ d. ok (shift_number lo d) in
    if not (lt_int lo hi) && not (lt_int hi lo) then ok (some (r, number_chosen lo)) else draw

unfoldable pub choose_domain : ℕ → Rand → Choice → List WeightedOption → Run Drawn
choose_domain fuel r c [] = do lo ← or_panic c.min; hi ← or_panic c.max; choose_number fuel r lo hi
choose_domain fuel r c (o ∷ os) = choose_option fuel r (o ∷ os)

-- `SeedDecider.Choose`
unfoldable pub seed_choice : Codec → ℕ → Rand → Choice → Run Drawn
seed_choice codec fuel r c = elim (validate_choice codec c) [
  | some error ↦ ok (some (r, undecided error))
  | none ↦ choose_domain fuel r c c.options
]
