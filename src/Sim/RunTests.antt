-- ===== src/Sim/RunTests.antt =====
-- The scheduler: two events on the heap, and the theorems at work on them.
use mathlib.Core.List.{Perm}
use d_raft.Base.{
  pos, ℕ, zero, suc, ◌≤◌, ◌<◌, ◌≡◌, ◌≢◌, refl, true, false, [], ◌∷◌, none, some, arith, ltb,
  if◌then◌else◌, Run, ok, ◌>>=◌, Returns, returns, Returns-bind,
}
use d_raft.Sim.Queue.{ScheduledEvent, push, pop, remove, write_event}
use d_raft.Sim.Queue.Places.{nth, Sized, Alike, rank, key}
use d_raft.Sim.Queue.Sift.{IsHeap}
use d_raft.Sim.Queue.Indexes.{Indexed}
use d_raft.Sim.Queue.Counts.{count}
use d_raft.Sim.Queue.Pushing.{push-IsHeap}
use d_raft.Sim.Queue.Removing.{remove-IsHeap, pop-IsHeap}
use d_raft.Sim.Scheduler.{EventTag, zero_tag, Simulator, schedule, cancel, is_pending}
use d_raft.Sim.Scheduler.Orderly.{Held, Waits, IsOrderly}
use d_raft.Sim.Scheduler.Scheduling.{Outcome, schedule_total}
use d_raft.Sim.Scheduler.Leaving.{Cancelled, cancel_total}
use d_raft.Sim.Runs.{sim_step, run_steps, run_until}
use d_raft.Sim.Runs.Clock.{Next, sim_step-Next}
use d_raft.Sim.Runs.Extent.{Acts, Onward, RanAtMost, run_steps_total}
use d_raft.Sim.Runs.Until.{Quiet, Until, run_until_total}

-- The events 1 and 2, due at 5 and 9, of the actions 3 and 4.
abbrev two_events : ℕ → ScheduledEvent EventTag ℕ
two_events q = record {
  id = if ltb q 2 then 1 else 2;
  when = if ltb q 2 then 5 else 9;
  tag = zero_tag;
  action = some (if ltb q 2 then 3 else 4);
  index = some (if ltb q 2 then 0 else 1);
}

abbrev waiting : Simulator ℕ
waiting = record {
  now = 4;
  heap = record { queue = 1 ∷ 2 ∷ []; events = two_events };
  pending = 2 ∷ 1 ∷ [];
  next_id = 3;
  exhausted = false;
}

waiting-Held : (p : ℕ) → Held waiting.heap p → Waits waiting p
unfolding count is_pending
waiting-Held p held = record {
  named = ground arith;
  ahead = ground arith;
  armed = refl;
  issued_before = λ open_ids. ground arith;
  mapped = ground arith;
}

waiting-IsHeap : IsHeap waiting.heap
unfolding nth
waiting-IsHeap zero low inside = absurd (omega arith)
waiting-IsHeap (suc zero) low inside = omega arith
waiting-IsHeap (suc (suc c)) low inside = absurd (omega arith)

waiting-Indexed : Indexed waiting.heap
unfolding nth
waiting-Indexed zero inside = refl
waiting-Indexed (suc zero) inside = refl
waiting-Indexed (suc (suc c)) inside = absurd (omega arith)

waiting-IsOrderly : IsOrderly waiting
unfolding count is_pending
waiting-IsOrderly = record {
  ordered = waiting-IsHeap;
  sized = λ p. ground arith;
  indexed = waiting-Indexed;
  waits = waiting-Held;
  listed = λ p listed. ground arith;
  in_range = omega arith;
}

waiting-Sized : Sized two_events
waiting-Sized p = ground arith

-- A third event, due between the two.
abbrev third : ScheduledEvent EventTag ℕ
third = record { id = 3; when = 7; tag = zero_tag; action = some 5; index = none }

third-Fresh : (c : ℕ) → c < 2 → nth (1 ∷ 2 ∷ []) c ≢ 3
unfolding nth
third-Fresh zero inside = λ e. omega (arith, e)
third-Fresh (suc zero) inside = λ e. omega (arith, e)
third-Fresh (suc (suc c)) inside = absurd (omega arith)

push-IsHeap_example :
    Returns
      (λ h'.
        IsHeap h'
        × Perm h'.queue (3 ∷ 1 ∷ 2 ∷ [])
        × Alike (write_event two_events 3 third) h'.events
        × (Indexed waiting.heap → Indexed h'))
      (push waiting.heap third)
push-IsHeap_example =
    push-IsHeap waiting.heap third waiting-Sized (omega arith) third-Fresh waiting-IsHeap

remove-IsHeap_example :
    Returns
      (λ r.
        (r.1 ≡ nth (1 ∷ 2 ∷ []) 1)
        × IsHeap r.0
        × Perm (r.1 ∷ r.0.queue) (1 ∷ 2 ∷ [])
        × Alike two_events r.0.events
        × (Indexed waiting.heap → Indexed r.0))
      (remove waiting.heap 1)
remove-IsHeap_example = remove-IsHeap waiting.heap 1 waiting-Sized (omega arith) waiting-IsHeap

pop-IsHeap_example :
    Returns
      (λ r.
        ((c : ℕ) → c < 2 → rank (two_events r.1) ≤ key waiting.heap c)
        × IsHeap r.0
        × Perm (r.1 ∷ r.0.queue) (1 ∷ 2 ∷ [])
        × Alike two_events r.0.events
        × (Indexed waiting.heap → Indexed r.0))
      (pop waiting.heap)
pop-IsHeap_example = pop-IsHeap waiting.heap waiting-Sized (omega arith) waiting-IsHeap

schedule_total_example :
    Returns
      (λ r. IsOrderly r.0 × Outcome waiting (pos 2) (some 5) r)
      (schedule waiting (pos 2) (some 5))
schedule_total_example = schedule_total waiting (pos 2) (some 5) waiting-IsOrderly refl

cancel_total_example : Returns (λ r. IsOrderly r.0 × Cancelled waiting 2 r) (cancel waiting 2)
cancel_total_example = cancel_total waiting 2 waiting-IsOrderly

-- An action that cancels the event of its number.
cancelling : ℕ → Simulator ℕ → Run (Simulator ℕ)
cancelling id s = cancel s id >>= λ r. ok r.0

cancelling-Acts : Acts cancelling Onward
unfolding cancelling
cancelling-Acts id s good =
    Returns-bind (cancel_total s id good) λ r q. returns (q.0, omega (arith, q.1.3))

-- An action that does nothing.
idling : ℕ → Simulator ℕ → Run (Simulator ℕ)
idling n s = ok s

idling-Acts : Acts idling Quiet
unfolding idling
idling-Acts n s good = returns (good, omega arith)

sim_step-Next_example :
    (p : ℕ) × (a : ℕ) × (s' : Simulator ℕ) × (sim_step cancelling waiting
      ≡ (cancelling a s' >>= λ after. ok (after, true)))
    × Next waiting p a s'
sim_step-Next_example = sim_step-Next cancelling waiting waiting-IsOrderly (omega arith)

run_steps_total_example : Returns (RanAtMost cancelling 3 waiting) (run_steps cancelling 3 waiting)
run_steps_total_example = run_steps_total cancelling 3 waiting cancelling-Acts waiting-IsOrderly

run_until_total_example :
    Returns (Until idling waiting (pos 6)) (run_until idling 3 waiting (pos 6))
run_until_total_example =
    run_until_total idling 3 (pos 6) waiting idling-Acts waiting-IsOrderly (omega arith)
