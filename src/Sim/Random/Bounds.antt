-- ===== src/Sim/Random/Bounds.antt =====
-- rand.go: uint64N against plain rejection sampling, and the range of its results.
use native.Mathlib.Nat.{div-lt_iff_lt-mul, mul-lt-mul_of_pos_right}
use d_raft.Base.{
  pos, ℕ, zero, suc, ◌+◌, ◌-◌, ◌≤◌, ◌<◌, ◌≡◌, sym, subst, inl, inr, Bool, true, ◌||◌, Option, none,
  some, arith, ltb, leb, ◌==◌, if◌then◌else◌, u64, ok, Bool-cases,
}
use d_raft.Sim.Random.{
  Rand, mix, next_uint64, high, low, threshold, redraw, uint64n, shift_draw, duration,
}

-- Rejection sampling with no shortcut: the first draw whose low word reaches the threshold gives its
-- high word.
pub sample : ℕ → ℕ → Rand → Option (Rand × ℕ)
sample zero n r =
    let (r', x) = next_uint64 r in if leb (threshold n) (low x n) then some (r', high x n) else none
sample (suc fuel) n r =
    let (r', x) = next_uint64 r in
    let again = sample fuel n r' in
    if leb (threshold n) (low x n) then some (r', high x n) else again

redraw-sample :
    (fuel n : ℕ) (r : Rand) → redraw fuel n (next_uint64 r).0 (next_uint64 r).1 ≡ sample fuel n r
unfolding redraw sample
redraw-sample zero n r = ground arith
redraw-sample (suc fuel) n r = ground (arith, redraw-sample fuel n (next_uint64 r).0)

threshold_small : (n : ℕ) → 0 < n → threshold n < n
unfolding threshold
threshold_small n h = omega arith

sample_accepts :
    (fuel n : ℕ) (r : Rand)
    → leb (threshold n) (low (next_uint64 r).1 n) ≡ true
    → sample fuel n r ≡ some ((next_uint64 r).0, high (next_uint64 r).1 n)
unfolding sample
sample_accepts zero n r h = ground arith
sample_accepts (suc fuel) n r h = ground arith

-- A draw whose low word is at least `n` is accepted without the threshold: `uint64N` is rejection
-- sampling, for every bound but 0 and every number of draws.
pub uint64n-sample : (fuel n : ℕ) (r : Rand) → 0 < n → uint64n fuel n r ≡ sample fuel n r
unfolding uint64n
uint64n-sample fuel n r h = elim (Bool-cases (ltb (low (next_uint64 r).1 n) n)) [
  | inl below ↦ rw below (redraw-sample fuel n r)
  | inr above ↦ rw above (sym (sample_accepts fuel n r (ground (arith, threshold_small n h))))
]

-- One of the first `fuel + 1` draws is accepted.
unfoldable pub accepted_within : ℕ → ℕ → Rand → Bool
accepted_within zero n r = leb (threshold n) (low (next_uint64 r).1 n)
accepted_within (suc fuel) n r =
    leb (threshold n) (low (next_uint64 r).1 n) || accepted_within fuel n (next_uint64 r).0

next_uint64_small : (r : Rand) → (next_uint64 r).1 < u64
unfolding next_uint64 mix
next_uint64_small r = omega arith

high_small : (x n : ℕ) → x < u64 → 0 < n → high x n < n
unfolding high
high_small x n hx hn =
    (div-lt_iff_lt-mul (omega arith)).1 (omega (arith, mul-lt-mul_of_pos_right hx hn))

-- A draw that is accepted in time gives a value below the bound.
abbrev pub Below : ℕ → Option (Rand × ℕ) → Type 0
Below n o = (r : Rand) × (v : ℕ) × (o ≡ some (r, v)) × (v < n)

sample-Below :
    (fuel n : ℕ) (r : Rand) → 0 < n → accepted_within fuel n r ≡ true → Below n (sample fuel n r)
unfolding sample accepted_within
sample-Below zero n r h a = (
  (next_uint64 r).0,
  high (next_uint64 r).1 n,
  ground arith,
  high_small _ n (next_uint64_small r) h,
)
sample-Below (suc fuel) n r h a = elim (Bool-cases (leb (threshold n) (low (next_uint64 r).1 n))) [
  | inl yes_now ↦ (
    (next_uint64 r).0,
    high (next_uint64 r).1 n,
    ground arith,
    high_small _ n (next_uint64_small r) h,
  )
  | inr later ↦ rw later (sample-Below fuel n (next_uint64 r).0 h (ground arith))
]

-- Where its bound is not 0 and one of the first draws is accepted, `uint64N` returns, with a value
-- below the bound.
pub uint64n_total :
    (fuel n : ℕ) (r : Rand) → 0 < n → accepted_within fuel n r ≡ true → Below n (uint64n fuel n r)
uint64n_total fuel n r h a =
    subst (Below n) (sym (uint64n-sample fuel n r h)) (sample-Below fuel n r h a)

-- Where its bounds are in order and one of the first draws is accepted, `Duration` returns a value
-- between them, both included.
pub duration_total :
    (fuel least most : ℕ) (r : Rand)
    → least ≤ most
    → accepted_within fuel (most - least + 1) r ≡ true
    → (r' : Rand) × (v : ℕ) × (duration fuel (pos least) (pos most) r ≡ ok (some (r', v)))
      × (least ≤ v)
      × (v ≤ most)
unfolding duration shift_draw
duration_total fuel least most r h a =
    let (r', v, drawn, small) = uint64n_total fuel (most - least + 1) r (omega arith) a in
    elim (Bool-cases (least == most)) [
      | inl same ↦ (r, least, ground arith, omega arith, omega arith)
      | inr apart ↦ (r', least + v, ground (arith, drawn), omega arith, omega arith)
    ]
