-- ===== src/Sim/Runs.antt =====
-- simulator.go: Step, RunSteps and RunUntil, which execute the pending events.
pub mod Clock
pub mod Extent
pub mod Until
use d_raft.Base.{
  ℤ, pos, negsuc, ℕ, zero, suc, ◌+◌, Bool, true, false, Option, none, some, [], ◌∷◌, ltb, leb,
  if◌then◌else◌, is_empty, Run, ok, ◌>>=◌, or_panic,
}
use d_raft.Sim.Queue.{pop}
use d_raft.Sim.Scheduler.{SimError, negative_time, past, Simulator, next_event_time, dispatched}

-- What `RunUntil` returns: a count or an error.
pub data Ran : Type 0 where
  ran_events : ℕ → Ran
  run_refused : SimError → Ran

module _ {Action : Type 0} where
  pub sim_step :
      (Action → Simulator Action → Run (Simulator Action))
      → Simulator Action
      → Run (Simulator Action × Bool)
  unfolding pop dispatched
  sim_step run s =
      let execute = do
        (h, p) ← pop s.heap
        action ← or_panic (h.events p).action
        s' ← run action (dispatched s h p)
        ok (s', true)
      in if is_empty s.queue then ok (s, false) else execute

  -- `RunSteps`; a negative limit is 0 here.
  pub run_steps :
      (Action → Simulator Action → Run (Simulator Action))
      → ℕ
      → Simulator Action
      → Run (Simulator Action × ℕ)
  unfolding sim_step
  run_steps run zero s = ok (s, 0)
  run_steps run (suc limit) s = do
    (s', ran) ← sim_step run s
    let more = run_steps run limit s' >>= λ r. ok (r.0, r.1 + 1)
    if ran then more else ok (s', 0)

  -- `count++`
  count_one : Option (Simulator Action × ℕ) → Option (Simulator Action × ℕ)
  count_one none = none
  count_one (some (s, count)) = some (s, count + 1)

  -- The loop of `RunUntil`, for at most `fuel` events: an action may schedule events without end.
  -- `none` is a loop that is still running.
  pub run_due :
      (Action → Simulator Action → Run (Simulator Action))
      → ℕ
      → ℕ
      → Simulator Action
      → Run (Option (Simulator Action × ℕ))
  unfolding sim_step next_event_time count_one
  run_due run zero end s = ok none
  run_due run (suc fuel) end s =
      let more = do (s', ran) ← sim_step run s; rest ← run_due run fuel end s'; ok (count_one rest)
      in let stop = ok (some (s, 0)) in
        elim (next_event_time s) [ none ↦ stop | some when ↦ if leb when end then more else stop ]

  -- The end of `RunUntil`, where its loop has ended: the clock moves on to `end`.
  pub at_end : ℕ → Option (Simulator Action × ℕ) → Option (Simulator Action × Ran)
  at_end end none = none
  at_end end (some (s, count)) = some (record s { now = end }, ran_events count)

  pub run_until :
      (Action → Simulator Action → Run (Simulator Action))
      → ℕ
      → Simulator Action
      → ℤ
      → Run (Option (Simulator Action × Ran))
  unfolding run_due at_end
  run_until run fuel s (negsuc k) = ok (some (s, run_refused negative_time))
  run_until run fuel s (pos end) =
      let advance = do rest ← run_due run fuel end s; ok (at_end end rest)
      in if ltb end s.now then ok (some (s, run_refused past)) else advance
