-- ===== src/Sim/Scheduler/Orderly.antt =====
-- simulator.go: the invariant of a simulator, and what a change of its heap keeps of it.
use d_raft.Base.{
  ℕ, ◌≤◌, ◌<◌, ◌≡◌, true, false, List, [], ◌∷◌, is_some, arith, ◌==◌, if◌then◌else◌, u64,
}
use d_raft.Sim.Queue.{ScheduledEvent, Heap}
use d_raft.Sim.Queue.Places.{Sized}
use d_raft.Sim.Queue.Sift.{IsHeap}
use d_raft.Sim.Queue.Indexes.{Indexed}
use d_raft.Sim.Queue.Counts.{count}
use d_raft.Sim.Scheduler.{EventTag, Simulator, new_simulator, delete, is_pending}

pub is_pending-delete :
    (ps : List ℕ) (id p : ℕ)
    → is_pending (delete ps id) p ≡ (if p == id then false else is_pending ps p)
unfolding is_pending delete
is_pending-delete [] id p = ground arith
is_pending-delete (q ∷ ps) id p = ground (arith, is_pending-delete ps id p)

module _ {Action : Type 0} where
  -- The pointer is in the heap.
  abbrev pub Held : Heap EventTag Action → ℕ → Type 0
  Held h p = 0 < count p h.queue

  -- An event that waits is due no earlier than now, has an action, and an identifier that was issued
  -- and that the map of pending events has.
  pub record Waits (s : Simulator Action) (p : ℕ) : Type 0 where
    pub named : (s.events p).id ≡ p
    pub ahead : s.now ≤ (s.events p).when
    pub armed : is_some (s.events p).action ≡ true
    pub issued_before : s.exhausted ≡ false → p < s.next_id
    pub mapped : is_pending s.pending p ≡ true

  pub record IsOrderly (s : Simulator Action) : Type 0 where
    pub ordered : IsHeap s.heap
    pub sized : Sized s.events
    pub indexed : Indexed s.heap
    pub waits : (p : ℕ) → Held s.heap p → Waits s p
    pub listed : (p : ℕ) → is_pending s.pending p ≡ true → Held s.heap p
    pub in_range : s.next_id < u64

  -- A new simulator is in order, whatever the store holds under identifiers that are not issued.
  pub new_simulator-IsOrderly :
      (events : ℕ → ScheduledEvent EventTag Action)
      → Sized events
      → IsOrderly (new_simulator events)
  unfolding new_simulator count is_pending
  new_simulator-IsOrderly events sized = record {
    ordered = λ c low inside. absurd (omega arith);
    sized = sized;
    indexed = λ c inside. absurd (omega arith);
    waits = λ p held. absurd (omega arith);
    listed = λ p listed. cc (listed);
    in_range = omega arith;
  }
