-- ===== src/Sim/Random.antt =====
-- rand.go: the SplitMix64 generator and its bounded draws. The stream labels and the sink, which only
-- serve traces, and the floating-point draws are not modelled,
-- but for Chance, which takes the comparisons with a probability as parameters.
pub mod Bounds
use Prim.Native.Nat.{bit_xor}
use d_raft.Base.{
  ℤ, pos, negsuc, ℕ, zero, suc, ◌+◌, ◌-◌, ◌*◌, ◌/◌, ◌%◌, ◌^◌, Bool, true, false, not, Option, none,
  some, ltb, leb, ◌==◌, if◌then◌else◌, u64, add_u64, Run, ok, panic,
}

pub record Rand : Type 0 where
  pub state : ℕ
  pub split_count : ℕ

unfoldable pub new_rand : ℕ → Rand
new_rand seed = record { state = seed; split_count = 0 }

-- `a ^ b` and `a * b` on `uint64`.
abbrev pub xor_u64 : ℕ → ℕ → ℕ
xor_u64 a b = bit_xor a b % u64

abbrev pub mul_u64 : ℕ → ℕ → ℕ
mul_u64 a b = a * b % u64

-- The output function of SplitMix64.
unfoldable pub mix : ℕ → ℕ
mix s =
    let first = mul_u64 (xor_u64 s (s / 2 ^ 30)) 13787848793156543929 in
    let second = mul_u64 (xor_u64 first (first / 2 ^ 27)) 10723151780598845931 in
    xor_u64 second (second / 2 ^ 31)

-- The generator after one draw, and what it draws.
unfoldable pub advance : Rand → Rand
advance r = record r { state = add_u64 r.state 11400714819323198485 }

unfoldable pub next_uint64 : Rand → Rand × ℕ
next_uint64 r = (advance r, mix (advance r).state)

-- `bits.Mul64(x, n)`: the two words of the product.
pub high : ℕ → ℕ → ℕ
high x n = x * n / u64

unfoldable pub low : ℕ → ℕ → ℕ
low x n = x * n % u64

-- `-n % n` on `uint64`
unfoldable pub threshold : ℕ → ℕ
threshold n = (u64 - n) % n

-- The loop of `uint64N` after the draw `x`. The code loops as long as draws are refused; `fuel` is
-- how often it may draw again, and `none` is a loop that still runs.
redraw : ℕ → ℕ → Rand → ℕ → Option (Rand × ℕ)
redraw zero n r x = if ltb (low x n) (threshold n) then none else some (r, high x n)
redraw (suc fuel) n r x =
    let again = redraw fuel n (next_uint64 r).0 (next_uint64 r).1 in
    if ltb (low x n) (threshold n) then again else some (r, high x n)

pub uint64n : ℕ → ℕ → Rand → Option (Rand × ℕ)
uint64n fuel n r =
    let (r', x) = next_uint64 r in
    if ltb (low x n) n then redraw fuel n r' x else some (r', high x n)

-- `Uint64N`, which panics on 0.
unfoldable pub uint64_below : ℕ → ℕ → Rand → Run (Option (Rand × ℕ))
uint64_below fuel n r = if n == 0 then panic else ok (uint64n fuel n r)

unfoldable int_below : ℕ → ℤ → Rand → Run (Option (Rand × ℕ))
int_below fuel (negsuc k) r = panic
int_below fuel (pos n) r = if n == 0 then panic else ok (uint64n fuel n r)

-- `min + time.Duration(r.uint64N(span))`
shift_draw : ℕ → Option (Rand × ℕ) → Option (Rand × ℕ)
shift_draw least none = none
shift_draw least (some (r, d)) = some (r, least + d)

pub duration : ℕ → ℤ → ℤ → Rand → Run (Option (Rand × ℕ))
duration fuel (negsuc k) most r = panic
duration fuel (pos least) (negsuc k) r = panic
duration fuel (pos least) (pos most) r =
    if ltb most least
    then panic
    else if least == most
    then ok (some (r, least))
    else ok (shift_draw least (uint64n fuel (most - least + 1) r))

-- `Split`: the generator after it, and the child's.
unfoldable split : Rand → Rand × Rand
split r =
    let (r', seed) = next_uint64 r in
    (record r' { split_count = add_u64 r'.split_count 1 }, new_rand seed)

-- What the code asks of a floating-point probability: whether it is in [0, 1], is 0, is 1, and whether
-- a number below 2^53, taken as a fraction of 2^53, is below it.
pub record Floats (P : Type 0) : Type 0 where
  pub in_unit : P → Bool
  pub is_zero : P → Bool
  pub is_one : P → Bool
  pub above : P → ℕ → Bool

-- `Chance`, with the draw of `float64`.
unfoldable pub chance : {P : Type 0} → Floats P → P → Rand → Run (Rand × Bool)
chance floats p r =
    let (r', x) = next_uint64 r in
    if not (floats.in_unit p)
    then panic
    else if floats.is_zero p
    then ok (r, false)
    else if floats.is_one p
    then ok (r, true)
    else ok (r', floats.above p (x / 2 ^ 11))
