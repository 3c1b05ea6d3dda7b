-- ===== src/Sim/Scheduler/Scheduling.antt =====
-- simulator.go: scheduling keeps the invariant of a simulator, and places the one event.
use mathlib.Core.List.{Perm}
use d_raft.Base.{
  ℤ, pos, negsuc, lt_int, ℕ, ◌+◌, ◌-◌, ◌≤◌, ◌<◌, ◌≡◌, refl, sym, subst, true, false, ◌∷◌, Option,
  none, some, arith, ltb, Returns, returns, Returns-bind, Returns-if, Returns-map,
}
use d_raft.Sim.Queue.{write_event}
use d_raft.Sim.Queue.Places.{Alike}
use d_raft.Sim.Queue.Sift.{IsHeap}
use d_raft.Sim.Queue.Indexes.{Indexed}
use d_raft.Sim.Queue.Pushing.{push-IsHeap}
use d_raft.Sim.Scheduler.{
  EventTag, Simulator, enqueue, schedule_at, schedule, Scheduled, issued, unscheduled, nil_action,
  time_overflow, event_id_exhausted, negative_time, max_int64, zero_tag,
}
use d_raft.Sim.Scheduler.Orderly.{IsOrderly}
use d_raft.Sim.Scheduler.Joining.{
  fresh_id, Placed, fresh_id-Fresh, fresh_id_small, new_event, joined-IsOrderly, joined-Placed,
}

module _ {Action : Type 0} where
  enqueue_lem :
      (s : Simulator Action) (when : ℕ) (tag : EventTag) (action : Action)
      → IsOrderly s
      → s.now ≤ when
      → s.exhausted ≡ false
      → Returns
          (λ r.
            (r.1 ≡ issued (fresh_id s)) × IsOrderly r.0 × Placed s when tag action r.0 (fresh_id s))
          (enqueue s when tag action)
  unfolding enqueue
  enqueue_lem s when tag action good later open_ids =
      let e = new_event s when tag action in
      Returns-bind
        {Good = λ h'.
          IsHeap h'
          × Perm h'.queue (fresh_id s ∷ s.queue)
          × Alike (write_event s.events (fresh_id s) e) h'.events
          × (Indexed s.heap → Indexed h')}
        (push-IsHeap s.heap e good.sized (fresh_id_small s good) (fresh_id-Fresh s good open_ids)
          good.ordered)
        λ h r. returns (
          refl,
          joined-IsOrderly s when tag action h good later open_ids r.1 r.2 r.0 r.3,
          joined-Placed s when tag action h good later open_ids r.1 r.2,
        )

  -- The outcomes of `Schedule`, in the order of its guards.
  pub data Outcome (s : Simulator Action)
      : ℤ → Option Action → Simulator Action × Scheduled → Type 0 where
    negative :
        {k : ℕ} {action : Option Action}
        → Outcome s (negsuc k) action (s, unscheduled negative_time)
    too_late :
        {delay : ℕ} {action : Option Action}
        → max_int64 < s.now + delay
        → Outcome s (pos delay) action (s, unscheduled time_overflow)
    no_action :
        {delay : ℕ}
        → s.now + delay ≤ max_int64
        → Outcome s (pos delay) none (s, unscheduled nil_action)
    no_id :
        {delay : ℕ} {action : Action}
        → s.now + delay ≤ max_int64
        → s.exhausted ≡ true
        → Outcome s (pos delay) (some action) (s, unscheduled event_id_exhausted)
    placed :
        {delay : ℕ} {action : Action} {s' : Simulator Action}
        → s.now + delay ≤ max_int64
        → s.exhausted ≡ false
        → Placed s (s.now + delay) zero_tag action s' (fresh_id s)
        → Outcome s (pos delay) (some action) (s', issued (fresh_id s))

  scheduled_at :
      (s : Simulator Action) (delay : ℕ) (action : Option Action)
      → IsOrderly s
      → s.now + delay ≤ max_int64
      → Returns
          (λ r. IsOrderly r.0 × Outcome s (pos delay) action r)
          (schedule_at s (pos (s.now + delay)) zero_tag action)
  unfolding schedule_at
  scheduled_at s delay none good small =
      Returns-if (ltb (s.now + delay) s.now) (λ early. absurd (ground arith))
        λ later. returns (good, no_action small)
  scheduled_at s delay (some action) good small =
      Returns-if (ltb (s.now + delay) s.now) (λ early. absurd (ground arith))
        λ later.
          Returns-if s.exhausted (λ spent. returns (good, no_id small spent))
            λ open_ids.
              Returns-map
                (enqueue_lem s (s.now + delay) zero_tag action good (omega arith) open_ids)
                λ r q. (
                  q.1,
                  subst (λ x. Outcome s (pos delay) (some action) (r.0, x)) (sym q.0)
                      (placed small open_ids q.2),
                )

  -- Scheduling in a simulator that is in order, with a delay that is a 64-bit integer, returns and
  -- keeps it in order. A negative delay, a time past the greatest one, a missing action and used up
  -- identifiers are each refused with their own error and change nothing; otherwise the event joins
  -- the heap at the time now plus the delay, under an identifier that no event of the heap has.
  pub schedule_total :
      (s : Simulator Action) (delay : ℤ) (action : Option Action)
      → IsOrderly s
      → lt_int (pos max_int64) delay ≡ false
      → Returns (λ r. IsOrderly r.0 × Outcome s delay action r) (schedule s delay action)
  unfolding schedule
  schedule_total s (negsuc k) action good small = returns (good, negative)
  schedule_total s (pos delay) action good small =
      Returns-if (ltb (max_int64 - delay) s.now) (λ late. returns (good, too_late (ground arith)))
        λ fits. scheduled_at s delay action good (ground arith)
