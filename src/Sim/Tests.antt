-- ===== src/Sim/Tests.antt =====
-- The simulator: runs on concrete values, and the theorems at work on them.
use d_raft.Base.{pos, ◌≡◌, ◌≤◌, refl, arith, ℕ, true, some, ok}
use d_raft.Sim.Random.{Rand, new_rand, mix, advance, next_uint64, low, threshold, uint64n, duration}
use d_raft.Sim.Random.Bounds.{
  sample, accepted_within, Below, uint64n-sample, uint64n_total, duration_total,
}

seeded : (next_uint64 (new_rand 0)).1 ≡ 16294208416658607535
unfolding next_uint64 new_rand advance mix
seeded = refl

first_draw_accepted : accepted_within 0 11 (new_rand 0) ≡ true
unfolding accepted_within next_uint64 new_rand advance mix low threshold
first_draw_accepted = refl

uint64n-sample_example : uint64n 3 11 (new_rand 0) ≡ sample 3 11 (new_rand 0)
uint64n-sample_example = uint64n-sample 3 11 (new_rand 0) (omega arith)

uint64n_total_example : Below 11 (uint64n 0 11 (new_rand 0))
uint64n_total_example = uint64n_total 0 11 (new_rand 0) (omega arith) first_draw_accepted

duration_total_example :
    (r' : Rand) × (v : ℕ) × (duration 0 (pos 10) (pos 20) (new_rand 0) ≡ ok (some (r', v)))
    × (10 ≤ v)
    × (v ≤ 20)
duration_total_example = duration_total 0 10 20 (new_rand 0) (omega arith) first_draw_accepted
