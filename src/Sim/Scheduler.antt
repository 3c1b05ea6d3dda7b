-- ===== src/Sim/Scheduler.antt =====
-- simulator.go: the discrete-event scheduler. An Action is the caller's code: it is a parameter here,
-- with `run`, what calling it does to the simulator. Traces are not modelled; the sink is nil.
pub mod Orderly
pub mod Joining
pub mod Scheduling
pub mod Leaving
use d_raft.Base.{
  ℤ, pos, negsuc, ℕ, zero, suc, ◌+◌, ◌-◌, ◌^◌, Bool, true, false, not, ◌||◌, Option, none, some,
  List, [], ◌∷◌, String, ltb, leb, ◌==◌, if◌then◌else◌, is_empty, contains, Run, ok, ◌>>=◌,
  or_panic, max_uint64,
}
use d_raft.Sim.Queue.{ScheduledEvent, Heap, write_event, push, pop, remove}

abbrev pub max_int64 : ℕ
max_int64 = 2 ^ 63 - 1

pub data SimError : Type 0 where
  negative_time past time_overflow event_id_exhausted : SimError
  uncacheable_state invalid_event_tag nil_action : SimError

pub record EventTag : Type 0 where
  pub kind : String
  pub data_bytes : List ℕ

abbrev pub zero_tag : EventTag
zero_tag = record { kind = ""; data_bytes = [] }

-- The map of pending events is given by its keys: the value of a key is the event of that identifier.
pub record Simulator (Action : Type 0) : Type 0 where
  pub now : ℕ
  pub heap : Heap EventTag Action
  pub open heap use *
  pub pending : List ℕ
  pub next_id : ℕ
  pub exhausted : Bool

-- What a call that schedules returns: the identifier or an error.
pub data Scheduled : Type 0 where
  issued : ℕ → Scheduled
  unscheduled : SimError → Scheduled

abbrev pub event_kinds : List String
event_kinds =
    "network_delivery" ∷ "storage_completion" ∷ "persistence_ack" ∷ "election_timer"
    ∷ "heartbeat_timer" ∷ "external_action" ∷ "scheduled_crash" ∷ "scheduled_restart" ∷ []

-- `delete(s.pending, id)`
pub delete : List ℕ → ℕ → List ℕ
delete [] id = []
delete (p ∷ ps) id = if p == id then delete ps id else p ∷ delete ps id

unfoldable pub is_pending : List ℕ → ℕ → Bool
is_pending [] id = false
is_pending (p ∷ ps) id = p == id || is_pending ps id

-- `json.Valid` is a parameter.
pub validate_event_tag : (List ℕ → Bool) → EventTag → Option SimError
unfolding contains
validate_event_tag valid_json tag =
    if not (contains event_kinds tag.kind)
    then some invalid_event_tag
    else if is_empty tag.data_bytes || not (valid_json tag.data_bytes)
    then some invalid_event_tag
    else none

module _ {Action : Type 0} where
  -- `New`. The store holds no event that a pointer names, so that its values are of no account.
  unfoldable pub new_simulator : (ℕ → ScheduledEvent EventTag Action) → Simulator Action
  new_simulator events = record {
    now = 0;
    heap = record { queue = []; events = events };
    pending = [];
    next_id = 1;
    exhausted = false;
  }

  -- `scheduleAt` past its refusals.
  pub enqueue : Simulator Action → ℕ → EventTag → Action → Run (Simulator Action × Scheduled)
  unfolding push
  enqueue s when tag action =
      let id = if s.next_id == 0 then 1 else s.next_id in
      do
        heap ←
            push s.heap
              (record { id = id; when = when; tag = tag; action = some action; index = some 0 })
        ok (
          record {
            now = s.now;
            heap = heap;
            pending = id ∷ s.pending;
            next_id = if id == max_uint64 then id else id + 1;
            exhausted = s.exhausted || id == max_uint64;
          },
          issued id,
        )

  pub schedule_at :
      Simulator Action → ℤ → EventTag → Option Action → Run (Simulator Action × Scheduled)
  unfolding enqueue
  schedule_at s (negsuc k) tag action = ok (s, unscheduled negative_time)
  schedule_at s (pos when) tag none =
      if ltb when s.now then ok (s, unscheduled past) else ok (s, unscheduled nil_action)
  schedule_at s (pos when) tag (some action) =
      if ltb when s.now
      then ok (s, unscheduled past)
      else if s.exhausted
      then ok (s, unscheduled event_id_exhausted)
      else enqueue s when tag action

  schedule_at_tagged :
      (List ℕ → Bool)
      → Simulator Action
      → ℤ
      → EventTag
      → Option Action
      → Run (Simulator Action × Scheduled)
  unfolding validate_event_tag schedule_at
  schedule_at_tagged valid_json s when tag action = elim (validate_event_tag valid_json tag) [
    | some error ↦ ok (s, unscheduled error)
    | none ↦ schedule_at s when tag action
  ]

  -- `Schedule`; a delay is at most `math.MaxInt64`.
  pub schedule : Simulator Action → ℤ → Option Action → Run (Simulator Action × Scheduled)
  unfolding schedule_at
  schedule s (negsuc k) action = ok (s, unscheduled negative_time)
  schedule s (pos delay) action =
      if ltb (max_int64 - delay) s.now
      then ok (s, unscheduled time_overflow)
      else schedule_at s (pos (s.now + delay)) zero_tag action

  unfoldable pub schedule_tagged :
      (List ℕ → Bool)
      → Simulator Action
      → ℤ
      → EventTag
      → Option Action
      → Run (Simulator Action × Scheduled)
  unfolding schedule_at_tagged
  schedule_tagged valid_json s (negsuc k) tag action = ok (s, unscheduled negative_time)
  schedule_tagged valid_json s (pos delay) tag action =
      if ltb (max_int64 - delay) s.now
      then ok (s, unscheduled time_overflow)
      else schedule_at_tagged valid_json s (pos (s.now + delay)) tag action

  -- `event.action = nil`
  unfoldable pub clear_action : Heap EventTag Action → ℕ → Heap EventTag Action
  unfolding write_event
  clear_action h p = record h {
    events = write_event h.events p (record (h.events p) { action = none });
  }

  pub cancel : Simulator Action → ℕ → Run (Simulator Action × Bool)
  unfolding is_pending delete remove clear_action
  cancel s id =
      let take_out = do
        index ← or_panic (s.events id).index
        (heap, p) ← remove s.heap index
        ok (record s { heap = clear_action heap id; pending = delete s.pending id }, true)
      in if not (is_pending s.pending id) then ok (s, false) else take_out

  unfoldable pub next_event_time : Simulator Action → Option ℕ
  next_event_time s = elim s.queue [ [] ↦ none | p ∷ ps ↦ some (s.events p).when ]

  -- The simulator when `Step` calls the action of the event `p`.
  unfoldable pub dispatched : Simulator Action → Heap EventTag Action → ℕ → Simulator Action
  unfolding delete clear_action
  dispatched s h p = record s {
    now = (h.events p).when;
    heap = clear_action h p;
    pending = delete s.pending (h.events p).id;
  }
