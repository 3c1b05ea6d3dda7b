-- ===== src/Sim/Runs/Until.antt =====
-- simulator.go: RunUntil keeps a simulator in order and comes to its end.
use d_raft.Base.{
  ℤ, pos, negsuc, ℕ, zero, suc, ◌+◌, ◌≤◌, ◌<◌, ◌≡◌, refl, sym, ap, subst, Bool, true, false, List,
  [], ◌∷◌, Option, none, some, arith, ltb, leb, length, Run, ok, ◌>>=◌, Returns, returns,
  Returns-bind, Returns-if, Returns-option,
}
use d_raft.Sim.Queue.{ScheduledEvent}
use d_raft.Sim.Queue.Places.{nth, rank, key}
use d_raft.Sim.Queue.Counts.{nth-count, count-nth}
use d_raft.Sim.Queue.Removing.{root_least}
use d_raft.Sim.Scheduler.{negative_time, past, EventTag, Simulator, next_event_time}
use d_raft.Sim.Scheduler.Orderly.{Held, IsOrderly}
use d_raft.Sim.Runs.{run_due, count_one, at_end, run_until, Ran, ran_events, run_refused}
use d_raft.Sim.Runs.Extent.{
  Acts, Events, none_run, one_run, Stepped, ran_next, was_idle, step_keeps,
}

module _ {Action : Type 0} where
  -- No event that waits is due by `end`.
  abbrev pub NoneDue : Simulator Action → ℕ → Type 0
  NoneDue s end = (p : ℕ) → Held s.heap p → end < (s.events p).when

  -- No event joins the heap.
  abbrev pub Quiet : Simulator Action → Simulator Action → Type 0
  Quiet s s' = length s'.queue ≤ length s.queue

  head_time :
      (events : ℕ → ScheduledEvent EventTag Action) (xs : List ℕ) (when : ℕ)
      → elim xs as (λ x. Option ℕ) [ [] ↦ none | p ∷ ps ↦ some (events p).when ] ≡ some when
      → (0 < length xs) × ((events (nth xs 0)).when ≡ when)
  unfolding nth
  head_time events [] when e = cc (e)
  head_time events (x ∷ xs) when e = (omega arith, cc (e))

  next_event_time-head :
      (s : Simulator Action) (when : ℕ)
      → next_event_time s ≡ some when
      → (0 < length s.queue) × ((s.events (nth s.queue 0)).when ≡ when)
  unfolding next_event_time
  next_event_time-head s when e = head_time s.events s.queue when e

  idle_queue :
      (events : ℕ → ScheduledEvent EventTag Action) (xs : List ℕ)
      → elim xs as (λ x. Option ℕ) [ [] ↦ none | p ∷ ps ↦ some (events p).when ] ≡ none
      → length xs ≡ 0
  idle_queue events [] e = refl
  idle_queue events (x ∷ xs) e = cc (e)

  idle_due : (s : Simulator Action) (end : ℕ) → next_event_time s ≡ none → NoneDue s end
  unfolding next_event_time
  idle_due s end e p held =
      let (c, inside, found) = nth-count p s.queue held in
      absurd (omega (arith, inside, idle_queue s.events s.queue e))

  -- With no event due by `end`, the clock may move there.
  moved_on :
      (s : Simulator Action) (end : ℕ)
      → IsOrderly s
      → NoneDue s end
      → IsOrderly (record s { now = end })
  moved_on s end good none_due = record {
    ordered = good.ordered;
    sized = good.sized;
    indexed = good.indexed;
    waits = λ p held.
        let w = good.waits p held in
        record {
          named = w.named;
          ahead = omega (arith, none_due p held);
          armed = w.armed;
          issued_before = w.issued_before;
          mapped = w.mapped;
        };
    listed = good.listed;
    in_range = good.in_range;
  }

  next_due :
      (s : Simulator Action) (end when : ℕ)
      → IsOrderly s
      → next_event_time s ≡ some when
      → end < when
      → NoneDue s end
  next_due s end when good e late p held =
      let (c, inside, found) = nth-count p s.queue held in
      let (some_left, head) = next_event_time-head s when e in
      let least = root_least s.heap good.ordered c c (omega arith) inside in
      let below = subst (λ (q : ℕ). key s.heap 0 ≤ rank (s.events q)) found least in
      omega (arith, below, head, late, good.sized (nth s.queue 0), good.sized p)

  -- The event that comes first is the one at the root, so that it is due where the root is.
  first_due :
      (s : Simulator Action) (end when : ℕ)
      → IsOrderly s
      → next_event_time s ≡ some when
      → when ≤ end
      → (p : ℕ) → ((q : ℕ) → Held s.heap q → rank (s.events p) ≤ rank (s.events q))
      → (s.events p).when ≤ end
  first_due s end when good e due p first =
      let (some_left, head) = next_event_time-head s when e in
      let root = nth s.queue 0 in
      omega (
        arith,
        first root (count-nth s.queue 0 some_left),
        head,
        due,
        good.sized root,
        good.sized p,
      )

module _ {Action : Type 0} (run : Action → Simulator Action → Run (Simulator Action)) where
  -- What the loop leaves, and how many events it ran, each of them due by `end`.
  abbrev RanDue : ℕ → Simulator Action → Option (Simulator Action × ℕ) → Type 0
  RanDue end s r =
      (s' : Simulator Action) × (n : ℕ) × (r ≡ some (s', n))
      × IsOrderly s'
      × NoneDue s' end
      × Events run (λ when. when ≤ end) n s s'

  counted_due :
      (end : ℕ) (s : Simulator Action) (r : Simulator Action × Bool)
      (call : Run (Option (Simulator Action × ℕ)))
      → 0 < length s.queue
      → ((p : ℕ)
          → ((q : ℕ) → Held s.heap q → rank (s.events p) ≤ rank (s.events q))
          → (s.events p).when ≤ end)
      → Stepped run Quiet s r
      → (length r.0.queue < length s.queue → Returns (RanDue end r.0) call)
      → Returns (RanDue end s) (call >>= λ rest. ok (count_one rest))
  unfolding count_one
  counted_due end s (after, true) call some_left soon (ran_next {p} {a} {given} next ran quiet)
        rest =
      Returns-bind (rest (omega (arith, next.one_less, quiet))) λ t q.
        let (s', n, e, good', none_due, events) = q in
        returns (
          s',
          n + 1,
          ap count_one e,
          good',
          none_due,
          one_run p a n next (soon p next.first) ran events,
        )
  counted_due end s (after, false) call some_left soon (was_idle empty) rest =
      absurd (omega (arith, some_left, ap length empty))

  run_due-Quiet :
      (fuel end : ℕ) (s : Simulator Action)
      → Acts run Quiet
      → IsOrderly s
      → length s.queue < fuel
      → Returns (RanDue end s) (run_due run fuel end s)
  unfolding run_due
  run_due-Quiet zero end s acts good enough = absurd (omega arith)
  run_due-Quiet (suc fuel) end s acts good enough =
      let stop : NoneDue s end → Returns (RanDue end s) (ok (some (s, 0))) =
        λ after. returns (s, 0, refl, good, after, none_run) in
      Returns-option (next_event_time s) (λ idle. stop (idle_due s end idle))
        λ when head.
          Returns-if (leb when end)
            (λ due. Returns-bind (step_keeps run Quiet s acts good) λ r q.
              counted_due end s r (run_due run fuel end r.0) (next_event_time-head s when head).0
                (first_due s end when good head (ground arith)) q.1
                λ less. run_due-Quiet fuel end r.0 acts q.0 (omega (arith, less)))
            (λ late. stop (next_due s end when good head (ground arith)))

  -- The outcomes of RunUntil: an end below 0 or in the past is refused and changes nothing; otherwise the events
  -- that are due by the end were run, as many as it answers, one after the other and each the first of those
  -- that waited, none that waits is due, and the clock stands at the end.
  pub data Until (s : Simulator Action) : ℤ → Option (Simulator Action × Ran) → Type 0 where
    below_zero : {k : ℕ} → Until s (negsuc k) (some (s, run_refused negative_time))
    in_the_past : {end : ℕ} → end < s.now → Until s (pos end) (some (s, run_refused past))
    reached :
        {end n : ℕ} {s' : Simulator Action}
        → s.now ≤ end
        → Events run (λ when. when ≤ end) n s s'
        → IsOrderly (record s' { now = end })
        → NoneDue s' end
        → Until s (pos end) (some (record s' { now = end }, ran_events n))

  -- RunUntil returns where every action returns, keeps the simulator in order and adds no event to the heap.
  -- An end below 0 or before the clock is refused and changes nothing. Otherwise it runs the events
  -- that come by the end, as many as it answers, one after the other and each the first of those that wait, sets the
  -- clock to the end, and leaves the simulator in order with only events after it.
  pub run_until_total :
      (fuel : ℕ) (end : ℤ) (s : Simulator Action)
      → Acts run Quiet
      → IsOrderly s
      → length s.queue < fuel
      → Returns (Until s end) (run_until run fuel s end)
  unfolding run_until at_end
  run_until_total fuel (negsuc k) s acts good enough = returns below_zero
  run_until_total fuel (pos end) s acts good enough =
      Returns-if (ltb end s.now) (λ early. returns (in_the_past (ground arith)))
        λ on_time. Returns-bind (run_due-Quiet fuel end s acts good enough) λ r q.
          let (s', n, e, good', none_due, events) = q in
          returns (
            subst (Until s (pos end)) (ap (at_end end) (sym e))
              (reached (ground arith) events (moved_on s' end good' none_due) none_due))
