-- ===== src/Sim/Queue/Pushing.antt =====
-- queue.go: push keeps the heap order.
use mathlib.Core.List.{Perm, perm_middle, append-nil}
use mathlib.Core.List.Perm
use d_raft.Base.{
  ℕ, ◌<◌, ◌≡◌, ◌≢◌, refl, ap, subst, inl, inr, Bool-cases, true, false, some, [], ◌∷◌, ◌++◌, arith,
  ltb, ◌==◌, length, Returns, Returns-map, u64,
}
use d_raft.Sim.Queue.{ScheduledEvent, Heap, write_event, up, push}
use d_raft.Sim.Queue.Ends.{nth-append, length-snoc}
use d_raft.Sim.Queue.Indexes.{Indexed}
use d_raft.Sim.Queue.Places.{nth, Sized, key, Alike}
use d_raft.Sim.Queue.Sift.{parent, IsHeap, up_from-IsHeap}

==-refl : (n : ℕ) → (n == n) ≡ true
==-refl n = ground arith

module _ {Tag Action : Type 0} where
  -- No place of the heap has the pointer.
  abbrev pub Fresh : Heap Tag Action → ℕ → Type 0
  Fresh h p = (c : ℕ) → c < length h.queue → nth h.queue c ≢ p

  -- The heap with an event appended, as `push` leaves it to `up`.
  abbrev appended : Heap Tag Action → ScheduledEvent Tag Action → Heap Tag Action
  appended h e = record {
    queue = h.queue ++ e.id ∷ [];
    events = write_event h.events e.id (record e { index = some (length h.queue) });
  }

  key-appended :
      (h : Heap Tag Action) (e : ScheduledEvent Tag Action) (c : ℕ)
      → Fresh h e.id
      → c < length h.queue
      → key (appended h e) c ≡ key h c
  unfolding write_event
  key-appended h e c fresh inside =
      let place : nth (h.queue ++ e.id ∷ []) c ≡ nth h.queue c =
        ground (arith, nth-append h.queue e.id c) in
      let other : (nth h.queue c == e.id) ≡ false = ground (arith, fresh c inside) in
      rw (place, other) refl

  appended-Sized :
      (h : Heap Tag Action) (e : ScheduledEvent Tag Action)
      → Sized h.events
      → e.id < u64
      → Sized (appended h e).events
  unfolding write_event
  appended-Sized h e sized small q = elim (Bool-cases (q == e.id)) [
    | inl same ↦ rw same small
    | inr other ↦ rw other (sized q)
  ]

  appended-Alike :
      (h : Heap Tag Action) (e : ScheduledEvent Tag Action) (h' : Heap Tag Action)
      → Alike (appended h e).events h'.events
      → Alike (write_event h.events e.id e) h'.events
  unfolding write_event
  appended-Alike h e h' moved q = elim (Bool-cases (q == e.id)) [
    | inl same ↦ let m = moved q in rw same (rw same at m)
    | inr other ↦ let m = moved q in rw other (rw other at m)
  ]

  appended-Indexed :
      (h : Heap Tag Action) (e : ScheduledEvent Tag Action)
      → Fresh h e.id
      → Indexed h
      → Indexed (appended h e)
  unfolding write_event
  appended-Indexed h e fresh indexed c inside =
      let size = length-snoc h.queue e.id in
      let place = nth-append h.queue e.id c in
      elim (Bool-cases (ltb c (length h.queue))) [
        | inl low ↦
            let below : c < length h.queue = ground arith in
            let other : (nth h.queue c == e.id) ≡ false = ground (arith, fresh c below) in
            rw (place, low, other) (indexed c below)
        | inr end ↦
            let at_end : length h.queue ≡ c = ground (arith, inside, size) in
            let there : (c == length h.queue) ≡ true = ground arith in
            rw (place, end, there, ==-refl e.id) (ap some at_end)
      ]

  -- Pushing an event that the heap does not hold keeps the heap order and adds the event.
  pub push-IsHeap :
      (h : Heap Tag Action) (e : ScheduledEvent Tag Action)
      → Sized h.events
      → e.id < u64
      → Fresh h e.id
      → IsHeap h
      → Returns
          (λ h'.
            IsHeap h'
            × Perm h'.queue (e.id ∷ h.queue)
            × Alike (write_event h.events e.id e) h'.events
            × (Indexed h → Indexed h'))
          (push h e)
  unfolding push up
  push-IsHeap h e sized small fresh ordered =
      let size = length-snoc h.queue e.id in
      let appended_kept = λ (c : ℕ) (q : c < length h.queue). key-appended h e c fresh q in
      Returns-map
        (up_from-IsHeap (length h.queue) (appended h e) (length h.queue) (omega arith)
          (appended-Sized h e sized small) (omega (arith, size))
          (λ c p q r. omega (
            arith,
            size,
            appended_kept c (omega (arith, size)),
            appended_kept (parent c) (omega (arith, size)),
            ordered c p (omega (arith, size)),
          ))
          (λ c p q r t. absurd (omega (arith, size, r, t))))
        λ h' r. (
          r.0,
          Perm.trans r.1.0 (
              subst (λ q. Perm (h.queue ++ e.id ∷ []) (e.id ∷ q)) (append-nil h.queue)
                (perm_middle h.queue [])),
          appended-Alike h e h' r.1.1,
          λ indexed. r.1.3 (appended-Indexed h e fresh indexed),
        )
