-- ===== src/Sim/Runs/Extent.antt =====
-- simulator.go: RunSteps keeps a simulator in order and goes as far as its limit.
use d_raft.Base.{
  ℕ, zero, suc, ◌+◌, ◌≤◌, ◌<◌, ◌≡◌, ◌⊎◌, refl, sym, subst, inl, inr, Bool, true, false, List, [],
  ◌∷◌, is_empty, arith, if◌then◌else◌, length, Run, ok, ◌>>=◌, Returns, returns, Returns-bind,
  Returns-value,
}
use d_raft.Sim.Scheduler.{Simulator}
use d_raft.Sim.Scheduler.Orderly.{IsOrderly}
use d_raft.Sim.Runs.{sim_step, run_steps}
use d_raft.Sim.Runs.Clock.{Next, sim_step-Next}

queue_cases : (xs : List ℕ) → ((is_empty xs ≡ true) × (xs ≡ [])) ⊎ (0 < length xs)
queue_cases [] = inl (refl, refl)
queue_cases (x ∷ xs) = inr (omega arith)

module _ {Action : Type 0} where
  -- The clock does not go back.
  abbrev pub Onward : Simulator Action → Simulator Action → Type 0
  Onward s s' = s.now ≤ s'.now

module _ {Action : Type 0} (run : Action → Simulator Action → Run (Simulator Action)) where
  -- Every action returns, keeps the simulator in order and changes it as `Allowed` says.
  abbrev pub Acts : (Simulator Action → Simulator Action → Type 0) → Type 0
  Acts Allowed =
      (a : Action) (s : Simulator Action)
      → IsOrderly s
      → Returns (λ s'. IsOrderly s' × Allowed s s') (run a s)

  -- So many events were run, one after the other, each the first of those that waited, and each with a time
  -- that `Fit` allows.
  pub data Events (Fit : ℕ → Type 0) : ℕ → Simulator Action → Simulator Action → Type 0 where
    none_run : {s : Simulator Action} → Events Fit 0 s s
    one_run :
        {s given after s' : Simulator Action} (p : ℕ) (a : Action) (n : ℕ)
        → Next s p a given
        → Fit (s.events p).when
        → run a given ≡ ok after
        → Events Fit n after s'
        → Events Fit (n + 1) s s'

  -- A step ran the next event, or there was none.
  pub data Stepped (Allowed : Simulator Action → Simulator Action → Type 0) (s : Simulator Action)
      : Simulator Action × Bool → Type 0 where
    ran_next :
        {p : ℕ} {a : Action} {given after : Simulator Action}
        → Next s p a given
        → run a given ≡ ok after
        → Allowed given after
        → Stepped Allowed s (after, true)
    was_idle : s.queue ≡ [] → Stepped Allowed s (s, false)

  -- What a run of at most `limit` events leaves, and how many there were.
  abbrev pub RanAtMost : ℕ → Simulator Action → Simulator Action × ℕ → Type 0
  RanAtMost limit s r =
      IsOrderly r.0
      × Onward s r.0
      × Events (λ t. Unit {0}) r.1 s r.0
      × (r.1 ≤ limit)
      × (r.1 < limit → r.0.queue ≡ [])

  sim_step-idle : (s : Simulator Action) → is_empty s.queue ≡ true → sim_step run s ≡ ok (s, false)
  unfolding sim_step
  sim_step-idle s empty = rw empty refl

  pub step_keeps :
      (Allowed : Simulator Action → Simulator Action → Type 0) (s : Simulator Action)
      → Acts Allowed
      → IsOrderly s
      → Returns (λ r. IsOrderly r.0 × Stepped Allowed s r) (sim_step run s)
  step_keeps Allowed s acts good = elim (queue_cases s.queue) [
    | inl (empty, e) ↦ subst (Returns _) (sym (sim_step-idle s empty)) (returns (good, was_idle e))
    | inr some_left ↦
        let (p, a, given, e, next) = sim_step-Next run s good some_left in
        let (after, f, q) = Returns-value (acts a given next.orderly) in
        subst (Returns _) (sym e) (rw f (returns (q.0, ran_next next f q.1)))
  ]

  counted_steps :
      (limit : ℕ) (s : Simulator Action) (r : Simulator Action × Bool)
      → IsOrderly s
      → IsOrderly r.0
      → Stepped Onward s r
      → Returns (RanAtMost limit r.0) (run_steps run limit r.0)
      → Returns
          (RanAtMost (suc limit) s)
          (if r.1 then (run_steps run limit r.0 >>= λ t. ok (t.0, t.1 + 1)) else ok (r.0, 0))
  counted_steps limit s (after, true) good good' (ran_next {p} {a} {given} next ran on) rest =
      let due = (good.waits p next.held).ahead in
      Returns-bind rest λ t q. returns (
        q.0,
        omega (arith, next.at_time, on, due, q.1),
        one_run p a t.1 next tt ran q.2,
        omega (arith, q.3),
        λ less. q.4 (omega (arith, less)),
      )
  counted_steps limit s (after, false) good good' (was_idle empty) rest =
      returns (good', omega arith, none_run, omega arith, λ less. empty)

  -- Where every action returns, keeps the simulator in order and does not turn the clock back, RunSteps
  -- returns and does the same. It runs as many events as it answers, one after the other, each the first of
  -- those that wait; these are at most as many as the limit, and fewer only if none is left.
  pub run_steps_total :
      (limit : ℕ) (s : Simulator Action)
      → Acts Onward
      → IsOrderly s
      → Returns (RanAtMost limit s) (run_steps run limit s)
  unfolding run_steps
  run_steps_total zero s acts good =
      returns (good, omega arith, none_run, omega arith, λ less. absurd (omega arith))
  run_steps_total (suc limit) s acts good =
      Returns-bind (step_keeps Onward s acts good)
        λ r q. counted_steps limit s r good q.0 q.1 (run_steps_total limit r.0 acts q.0)
