-- ===== src/Sim/Canonical.antt =====
-- simulator.go: CanonicalState, the scheduler's state with its events in execution order.
use d_raft.Base.{ℕ, Bool, not, Option, none, some, List, [], ◌∷◌, ltb, ◌==◌, if◌then◌else◌, str_eq}
use d_raft.Sim.Queue.{ScheduledEvent}
use d_raft.Sim.Scheduler.{EventTag, SimError, uncacheable_state, Simulator, validate_event_tag}

pub record PendingEventState : Type 0 where
  pub id : ℕ
  pub at_ns : ℕ
  pub order : ℕ
  pub tag : EventTag

pub record SimulatorState : Type 0 where
  pub now_ns : ℕ
  pub next_id : ℕ
  pub exhausted : Bool
  pub events : List PendingEventState

-- What `CanonicalState` returns: the state or an error.
pub data Inspected : Type 0 where
  inspected : SimulatorState → Inspected
  uninspectable : SimError → Inspected

-- The order that the events are sorted by: `left` comes after `right`.
unfoldable comes_after : PendingEventState → PendingEventState → Bool
comes_after left right =
    if not (left.at_ns == right.at_ns)
    then ltb right.at_ns left.at_ns
    else ltb right.order left.order

unfoldable insert_event : PendingEventState → List PendingEventState → List PendingEventState
insert_event e [] = e ∷ []
insert_event e (f ∷ fs) = if comes_after e f then f ∷ insert_event e fs else e ∷ f ∷ fs

-- `slices.SortFunc`
unfoldable sort_events : List PendingEventState → List PendingEventState
sort_events [] = []
sort_events (e ∷ es) = insert_event e (sort_events es)

module _ {Action : Type 0} (valid_json : List ℕ → Bool) where
  unfoldable event_error : ScheduledEvent EventTag Action → Option SimError
  event_error e =
      if str_eq e.tag.kind "" then some uncacheable_state else validate_event_tag valid_json e.tag

  unfoldable event_state : ScheduledEvent EventTag Action → PendingEventState
  event_state e = record { id = e.id; at_ns = e.when; order = e.id; tag = e.tag }

  -- The loop over the heap.
  unfoldable first_error : (ℕ → ScheduledEvent EventTag Action) → List ℕ → Option SimError
  first_error events [] = none
  first_error events (p ∷ ps) = elim (event_error (events p)) [
    | some error ↦ some error
    | none ↦ first_error events ps
  ]

  unfoldable event_states : (ℕ → ScheduledEvent EventTag Action) → List ℕ → List PendingEventState
  event_states events [] = []
  event_states events (p ∷ ps) = event_state (events p) ∷ event_states events ps

  unfoldable inspect : Simulator Action → Inspected
  inspect s = elim (first_error s.events s.queue) [
    | some error ↦ uninspectable error
    | none ↦ inspected (record {
      now_ns = s.now;
      next_id = s.next_id;
      exhausted = s.exhausted;
      events = sort_events (event_states s.events s.queue);
    })
  ]
